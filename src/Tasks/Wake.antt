-- ===== src/Tasks/Wake.antt =====
-- The queue of src/background-tasks.cpp and the calls of its waker.
use obs_trigglow_dynamic_del.Prelude.{
  ℕ, ◌≡◌, refl, ◌⊎◌, Bool, true, false, not, ◌&&◌, ◌||◌, Option, none, some, List, [], ◌∷◌, ltb,
  is_empty, if◌then◌else◌, Bool-cases, inl, inr, arith,
}
use obs_trigglow_dynamic_del.Tasks.Token.{subscribe, cancel}
use obs_trigglow_dynamic_del.Tasks.{
  RegistryState, QueuedResult, change_group, is_closed, wake, enqueue, post, drain, deliver, close,
  cancel_token, take_cancelled, make,
}
use obs_trigglow_dynamic_del.Tasks.Ops.{
  Op, start, finish, offer, begin_drain, next, shut, cancel_all, construct, shut_group, cancel_one,
  destroy, step, run, make_group, add_group, close_group, cancel_group_token, drop_group, on_made,
  on_owner, without_group,
}
use obs_trigglow_dynamic_del.Tasks.Parts.{
  IsAwake, is_awaited, IsAwake-parts, parts-start_job, parts-end_job, parts-deliver_first,
  parts-cancel_groups, parts-if, parts-on_made, parts-on_owner,
}

-- The operations that touch them.
IsAwake-if :
    (b : Bool) (x y : RegistryState)
    → (b ≡ true → IsAwake x)
    → (b ≡ false → IsAwake y)
    → IsAwake (if b then x else y)
IsAwake-if true x y h k = h refl
IsAwake-if false x y h k = k refl

open_registry :
    (owner : Option ℕ) (st : RegistryState) → is_closed owner st ≡ false → st.shut_down ≡ false
unfolding is_closed
open_registry owner st h = ground (arith, h)

pending : (woken waker : Bool) → waker ≡ true → (not woken && waker) ≡ false → woken ≡ true
pending woken waker h k = ground (arith, h, k)

-- The waker is called, or was.
IsAwake-enqueue :
    (item : QueuedResult) (st : RegistryState)
    → st.shut_down ≡ false
    → IsAwake st
    → IsAwake (wake false (enqueue item st))
unfolding wake enqueue
IsAwake-enqueue item st o a =
    let open_now : (b : Bool) → st.shut_down ≡ true → b ≡ true =
      λ b s. absurd (ground (arith, o, s)) in
    IsAwake-if (not st.wake_pending && st.has_waker) _ _
      (λ h. record {
        waker = a.waker;
        waiting = inr refl;
        called = λ p. refl;
        dropped = open_now _;
      })
      λ h. record {
        waker = a.waker;
        waiting = inr (pending st.wake_pending st.has_waker a.waker h);
        called = a.called;
        dropped = open_now _;
      }

IsAwake-post :
    (owner fn : Option ℕ) (st : RegistryState) → IsAwake st → IsAwake (post owner fn false st).1
unfolding post is_closed wake enqueue
IsAwake-post owner none st a = a
IsAwake-post owner (some fn) st a = elim (Bool-cases (is_closed owner st)) [
  | inl h ↦ rw h a
  | inr h ↦
      rw h (IsAwake-enqueue (record { group = owner; fn = fn }) st (open_registry owner st h) a)
]

without_group_empty :
    (g : ℕ) (queue : List QueuedResult)
    → is_empty queue ≡ true
    → is_empty (without_group g queue) ≡ true
unfolding without_group
without_group_empty g [] h = refl
without_group_empty g (item ∷ queue) h = absurd (ground arith)

IsAwake-close_group : (g : ℕ) (st : RegistryState) → IsAwake st → IsAwake (close_group g st)
unfolding close_group change_group
IsAwake-close_group g st a = record {
  waker = a.waker;
  waiting = elim a.waiting [ inl h ↦ inl (without_group_empty g st.queue h) | inr h ↦ inr h ];
  called = a.called;
  dropped = λ h. without_group_empty g st.queue (a.dropped h);
}

IsAwake-drain : (st : RegistryState) → IsAwake st → IsAwake (drain st)
unfolding drain
IsAwake-drain st a =
    IsAwake-if st.shut_down _ _
      (λ h. record {
        waker = a.waker;
        waiting = inl (a.dropped h);
        called = λ p. absurd (ground (arith, p));
        dropped = a.dropped;
      })
      λ h. record {
        waker = a.waker;
        waiting = inl refl;
        called = λ p. absurd (ground (arith, p));
        dropped = λ s. refl;
      }

IsAwake-close : (st : RegistryState) → IsAwake st → IsAwake (close st)
unfolding close
IsAwake-close st a = record {
  waker = a.waker;
  waiting = inl refl;
  called = a.called;
  dropped = λ s. refl;
}

IsAwake-on_made :
    (g : ℕ) (op : RegistryState → RegistryState) (st : RegistryState)
    → IsAwake (op st)
    → IsAwake st
    → IsAwake (on_made g op st)
unfolding on_made
IsAwake-on_made g op st h a = IsAwake-if (ltb g st.made) (op st) st (λ e. h) λ e. a

IsAwake-on_owner :
    (owner : Option ℕ) (op : RegistryState → RegistryState) (st : RegistryState)
    → IsAwake (op st)
    → IsAwake st
    → IsAwake (on_owner owner op st)
unfolding on_owner
IsAwake-on_owner none op st h a = h
IsAwake-on_owner (some g) op st h a = IsAwake-on_made g op st h a

-- No call of the waker throws.
abbrev pub wakes : Op → Bool
wakes (offer owner fn throws) = not throws
wakes op = true

abbrev pub all_wake : List Op → Bool
all_wake [] = true
all_wake (op ∷ ops) = wakes op && all_wake ops

IsAwake-step : (op : Op) (st : RegistryState) → wakes op ≡ true → IsAwake st → IsAwake (step op st)
unfolding step deliver make_group add_group cancel_token take_cancelled cancel_group_token
    drop_group change_group
IsAwake-step (start owner work thread) st w a =
    IsAwake-parts st _ (parts-on_owner owner _ st (parts-start_job owner work thread st)) a
IsAwake-step (finish k threw) st w a = IsAwake-parts st _ (parts-end_job k threw st) a
IsAwake-step (offer owner fn true) st w a = absurd (ground arith)
IsAwake-step (offer owner fn false) st w a =
    IsAwake-on_owner owner (λ st. (post owner fn false st).1) st (IsAwake-post owner fn st a) a
IsAwake-step begin_drain st w a = IsAwake-drain st a
IsAwake-step (next threw) st w a = IsAwake-parts st _ (parts-deliver_first threw st.draining st) a
IsAwake-step shut st w a = IsAwake-close st a
IsAwake-step cancel_all st w a =
    IsAwake-parts st _
      (parts-cancel_groups (cancel st.token).0 (record st { token = (cancel st.token).1 })) a
IsAwake-step construct st w a =
    IsAwake-parts st _ (parts-cancel_groups (subscribe (some st.made) st.token).ran _) a
IsAwake-step (shut_group g) st w a =
    IsAwake-on_made g (close_group g) st (IsAwake-close_group g st a) a
IsAwake-step (cancel_one g) st w a =
    IsAwake-parts st _ (parts-on_made g (cancel_group_token g) st refl) a
IsAwake-step (destroy g) st w a =
    IsAwake-parts st _
      (parts-on_made g (drop_group g) st (parts-if (st.groups g).token st _ st refl refl)) a

IsAwake-run :
    (ops : List Op) (st : RegistryState) → all_wake ops ≡ true → IsAwake st → IsAwake (run ops st)
unfolding run
IsAwake-run [] st w a = a
IsAwake-run (op ∷ ops) st w a =
    IsAwake-run ops (step op st) (ground arith) (IsAwake-step op st (ground arith) a)

IsAwake-make : IsAwake (make true)
unfolding make
IsAwake-make = record {
  waker = refl;
  waiting = inl refl;
  called = λ p. absurd (ground (arith, p));
  dropped = λ h. refl;
}

shut_empty : (shut empty : Bool) → (shut ≡ true → empty ≡ true) → (not shut || empty) ≡ true
shut_empty true empty h = h refl
shut_empty false empty h = refl

-- In a registry with a waker that does not throw, whatever its threads do: while a result waits in the
-- queue, the waker has been called and Drain has not been since; after Shutdown none waits.
pub no_result_forgotten :
    (ops : List Op)
    → all_wake ops ≡ true
    → let st = run ops (make true) in
      ((is_empty st.queue ≡ true) ⊎ (is_awaited st.turns ≡ true))
      × ((not st.shut_down || is_empty st.queue) ≡ true)
no_result_forgotten ops w =
    let a = IsAwake-run ops (make true) w IsAwake-make in
    (elim a.waiting [ inl h ↦ inl h | inr h ↦ inr (a.called h) ], shut_empty _ _ a.dropped)
