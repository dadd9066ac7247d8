-- ===== src/Tasks/Silent.antt =====
-- The operations of src/background-tasks.cpp that call no result's function.
use obs_trigglow_dynamic_del.Prelude.{
  ℕ, suc, ◌≤◌, ◌<◌, ◌≡◌, refl, sym, ap, subst, ◌∙◌, Bool, true, false, not, ◌&&◌, Option, none,
  some, List, [], ◌∷◌, ◌==◌, ltb, if◌then◌else◌, Bool-cases, inl, inr, ==_iff, add_u64, sub_u64,
  arith,
}
use obs_trigglow_dynamic_del.Tasks.Token.{subscribe, cancel}
use obs_trigglow_dynamic_del.Tasks.{
  RegistryState, GroupState, QueuedResult, put_group, change_group, is_closed, count_in, count_out,
  add_job, start_job, end_job, note_failure, drop_job, job_at, fresh_group, wake, enqueue, post,
  drain, close, cancel_groups, cancel_token, take_cancelled,
}
use obs_trigglow_dynamic_del.Tasks.Ops.{
  make_group, add_group, close_group, cancel_group_token, drop_group, on_made, on_owner,
  without_group,
}

-- The state goes on without reopening a registry or a group, and calls no result's function.
pub record Silent (st after : RegistryState) : Type 0 where
  pub shut : st.shut_down ≡ true → after.shut_down ≡ true
  pub grows : st.made ≤ after.made
  pub cancelled :
      (g : ℕ) → g < st.made → (st.groups g).cancelled ≡ true → (after.groups g).cancelled ≡ true
  pub delivers : after.delivered ≡ st.delivered

Silent-refl : (st : RegistryState) → Silent st st
Silent-refl st = record {
  shut = λ h. h;
  grows = omega arith;
  cancelled = λ g l h. h;
  delivers = refl;
}

Silent-same :
    (st after : RegistryState)
    → st.shut_down ≡ after.shut_down
    → st.made ≡ after.made
    → st.groups ≡ after.groups
    → after.delivered ≡ st.delivered
    → Silent st after
Silent-same st after s m g d = record {
  shut = λ h. sym s ∙ h;
  grows = omega (arith, m);
  cancelled = λ k l h. ap (λ groups. (groups k).cancelled) (sym g) ∙ h;
  delivers = d;
}

Silent-trans : {st mid after : RegistryState} → Silent st mid → Silent mid after → Silent st after
Silent-trans a b = record {
  shut = λ h. b.shut (a.shut h);
  grows = omega (arith, a.grows, b.grows);
  cancelled = λ g l h. b.cancelled g (omega (arith, l, a.grows)) (a.cancelled g l h);
  delivers = b.delivers ∙ a.delivers;
}

Silent-change_group :
    (g : ℕ) (change : GroupState → GroupState) (st : RegistryState)
    → ((x : GroupState) → x.cancelled ≡ true → (change x).cancelled ≡ true)
    → Silent st (change_group g change st)
unfolding change_group put_group
Silent-change_group g change st keeps = record {
  shut = λ h. h;
  grows = omega arith;
  cancelled = λ k l h. elim (Bool-cases (k == g)) [
    | inl e ↦
        let same = (==_iff k g).0 e in
        rw e (keeps _ (subst (λ n. (st.groups n).cancelled ≡ true) same h))
    | inr e ↦ rw e h
  ];
  delivers = refl;
}

Silent-if :
    (b : Bool) (st x y : RegistryState) → Silent st x → Silent st y → Silent st (if b then x else y)
Silent-if true st x y h k = h
Silent-if false st x y h k = k

Silent-count_in : (owner : Option ℕ) (st : RegistryState) → Silent st (count_in owner st)
unfolding count_in
Silent-count_in none st = Silent-same st _ refl refl refl refl
Silent-count_in (some g) st =
    Silent-trans (Silent-same st (record st { running = add_u64 st.running 1 }) refl refl refl refl)
      (Silent-change_group g _ _ λ x h. h)

Silent-count_out : (owner : Option ℕ) (st : RegistryState) → Silent st (count_out owner st)
unfolding count_out
Silent-count_out none st = Silent-same st _ refl refl refl refl
Silent-count_out (some g) st =
    Silent-trans (Silent-same st (record st { running = sub_u64 st.running 1 }) refl refl refl refl)
      (Silent-change_group g _ _ λ x h. h)

Silent-add_job :
    (owner : Option ℕ) (st : RegistryState) → Silent st (add_job owner (count_in owner st))
unfolding add_job
Silent-add_job owner st =
    Silent-trans (Silent-count_in owner st) (Silent-same (count_in owner st) _ refl refl refl refl)

pub Silent-start_job :
    (owner : Option ℕ) (work thread : Bool) (st : RegistryState)
    → Silent st (start_job owner work thread st).1
unfolding start_job
Silent-start_job owner false thread st = Silent-refl st
Silent-start_job owner true thread st = elim (Bool-cases (is_closed owner st)) [
  | inl c ↦ rw c (Silent-refl st)
  | inr o ↦ rw o (elim (Bool-cases thread) [
    | inl t ↦ rw t (Silent-add_job owner st)
    | inr t ↦
        rw t (Silent-trans (Silent-count_in owner st) (Silent-count_out owner (count_in owner st)))
  ])
]

Silent-note_failure : (threw : Bool) (st : RegistryState) → Silent st (note_failure threw st)
unfolding note_failure
Silent-note_failure threw st = Silent-same st _ refl refl refl refl

Silent-drop_job : (k : ℕ) (st : RegistryState) → Silent st (drop_job k st)
unfolding drop_job
Silent-drop_job k st = Silent-same st _ refl refl refl refl

pub Silent-end_job : (k : ℕ) (threw : Bool) (st : RegistryState) → Silent st (end_job k threw st)
unfolding end_job
Silent-end_job k threw st =
    elim (job_at k st.jobs)
      as (λ job. Silent st (elim job [
        | none ↦ st
        | some owner ↦ drop_job k (count_out owner (note_failure threw st))
      ])) [
        | none ↦ Silent-refl st
        | some owner ↦
            Silent-trans (Silent-note_failure threw st)
              (Silent-trans (Silent-count_out owner _) (Silent-drop_job k _))
      ]

Silent-wake : (throws : Bool) (st : RegistryState) → Silent st (wake throws st)
unfolding wake
Silent-wake throws st =
    Silent-if (not st.wake_pending && st.has_waker) st _ st (Silent-same st _ refl refl refl refl)
      (Silent-refl st)

Silent-enqueue : (item : QueuedResult) (st : RegistryState) → Silent st (enqueue item st)
unfolding enqueue
Silent-enqueue item st = Silent-same st _ refl refl refl refl

pub Silent-post :
    (owner fn : Option ℕ) (throws : Bool) (st : RegistryState)
    → Silent st (post owner fn throws st).1
unfolding post
Silent-post owner none throws st = Silent-refl st
Silent-post owner (some fn) throws st = elim (Bool-cases (is_closed owner st)) [
  | inl c ↦ rw c (Silent-refl st)
  | inr o ↦ rw o (Silent-trans (Silent-enqueue _ st) (Silent-wake throws _))
]

pub Silent-drain : (st : RegistryState) → Silent st (drain st)
unfolding drain
Silent-drain st =
    Silent-if st.shut_down st _ _ (Silent-same st _ refl refl refl refl)
      (Silent-same st _ refl refl refl refl)

pub Silent-close : (st : RegistryState) → Silent st (close st)
unfolding close
Silent-close st = record {
  shut = λ h. refl;
  grows = omega arith;
  cancelled = λ g l h. h;
  delivers = refl;
}

Silent-cancel_groups : (gs : List ℕ) (st : RegistryState) → Silent st (cancel_groups gs st)
unfolding cancel_groups
Silent-cancel_groups [] st = Silent-refl st
Silent-cancel_groups (g ∷ gs) st =
    Silent-trans (Silent-change_group g (λ x. record x { token = true }) st λ x h. h)
      (Silent-cancel_groups gs _)

pub Silent-cancel_token : (st : RegistryState) → Silent st (cancel_token st)
unfolding cancel_token take_cancelled
Silent-cancel_token st =
    Silent-trans (Silent-same st (record st { token = (cancel st.token).1 }) refl refl refl refl)
      (Silent-cancel_groups (cancel st.token).0 _)

Silent-added_group :
    (x : GroupState) (st : RegistryState)
    → Silent st (record st { groups = put_group st.groups st.made x; made = suc st.made })
unfolding put_group
Silent-added_group x st = record {
  shut = λ h. h;
  grows = omega arith;
  cancelled = λ k l h. let other : (k == st.made) ≡ false = ground arith in rw other h;
  delivers = refl;
}

pub Silent-make_group : (st : RegistryState) → Silent st (make_group st)
unfolding make_group add_group
Silent-make_group st =
    let s = subscribe (some st.made) st.token in
    Silent-trans
      (Silent-trans (Silent-same st (record st { token = s.after }) refl refl refl refl)
        (Silent-added_group (record fresh_group { subscription = s.id }) _))
      (Silent-cancel_groups s.ran _)

pub Silent-close_group : (g : ℕ) (st : RegistryState) → Silent st (close_group g st)
unfolding close_group
Silent-close_group g st =
    Silent-trans
      (Silent-same st (record st { queue = without_group g st.queue }) refl refl refl refl)
      (Silent-change_group g (λ x. record x { cancelled = true }) _ λ x h. refl)

pub Silent-cancel_group_token : (g : ℕ) (st : RegistryState) → Silent st (cancel_group_token g st)
unfolding cancel_group_token
Silent-cancel_group_token g st = Silent-change_group g (λ x. record x { token = true }) st λ x h. h

pub Silent-drop_group : (g : ℕ) (st : RegistryState) → Silent st (drop_group g st)
unfolding drop_group
Silent-drop_group g st =
    Silent-if (st.groups g).token st _ st (Silent-same st _ refl refl refl refl) (Silent-refl st)

pub Silent-on_made :
    (g : ℕ) (op : RegistryState → RegistryState) (st : RegistryState)
    → Silent st (op st)
    → Silent st (on_made g op st)
unfolding on_made
Silent-on_made g op st h = Silent-if (ltb g st.made) st (op st) st h (Silent-refl st)

pub Silent-on_owner :
    (owner : Option ℕ) (op : RegistryState → RegistryState) (st : RegistryState)
    → Silent st (op st)
    → Silent st (on_owner owner op st)
unfolding on_owner
Silent-on_owner none op st h = h
Silent-on_owner (some g) op st h = Silent-on_made g op st h
