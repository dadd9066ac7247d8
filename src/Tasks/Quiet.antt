-- ===== src/Tasks/Quiet.antt =====
-- What a cancelled group and a registry that is shut down, in src/background-tasks.cpp, still deliver.
use obs_trigglow_dynamic_del.Prelude.{
  ℕ, suc, ◌<◌, ◌≡◌, refl, sym, ap, subst, ◌∙◌, ◌⊎◌, Bool, true, false, ◌||◌, Option, none, some,
  List, [], ◌∷◌, ◌==◌, if◌then◌else◌, Bool-cases, inl, inr, ==_iff, arith,
}
use obs_trigglow_dynamic_del.Tasks.{
  RegistryState, QueuedResult, put_group, change_group, is_closed, group_cancelled, call,
  deliver_first, deliver, close,
}
use obs_trigglow_dynamic_del.Tasks.Ops.{
  Op, start, finish, offer, begin_drain, next, shut, cancel_all, construct, shut_group, cancel_one,
  destroy, step, run, close_group, cancel_group_token, drop_group, is_owner,
}
use obs_trigglow_dynamic_del.Tasks.Silent
use obs_trigglow_dynamic_del.Tasks.Silent.{Silent}

-- The results of a group whose function was called.
abbrev pub received : ℕ → List QueuedResult → ℕ
received g [] = 0
received g (item ∷ log) = if is_owner g item.group then suc (received g log) else received g log

-- A step calls no function, or it is a round of Drain.
Silent-or_round :
    (op : Op) (st : RegistryState)
    → Silent st (step op st) ⊎ ((threw : Bool) × (step op st ≡ deliver threw st))
unfolding step
Silent-or_round (start owner work thread) st =
    inl (Silent.Silent-on_owner owner _ st (Silent.Silent-start_job owner work thread st))
Silent-or_round (finish k threw) st = inl (Silent.Silent-end_job k threw st)
Silent-or_round (offer owner fn throws) st =
    inl (Silent.Silent-on_owner owner _ st (Silent.Silent-post owner fn throws st))
Silent-or_round begin_drain st = inl (Silent.Silent-drain st)
Silent-or_round (next threw) st = inr (threw, refl)
Silent-or_round shut st = inl (Silent.Silent-close st)
Silent-or_round cancel_all st = inl (Silent.Silent-cancel_token st)
Silent-or_round construct st = inl (Silent.Silent-make_group st)
Silent-or_round (shut_group g) st =
    inl (Silent.Silent-on_made g (close_group g) st (Silent.Silent-close_group g st))
Silent-or_round (cancel_one g) st =
    inl (Silent.Silent-on_made g (cancel_group_token g) st (Silent.Silent-cancel_group_token g st))
Silent-or_round (destroy g) st =
    inl (Silent.Silent-on_made g (drop_group g) st (Silent.Silent-drop_group g st))

-- The registry is shut down, and has delivered `log`.
record IsShut (log : List QueuedResult) (st : RegistryState) : Type 0 where
  shut_now : st.shut_down ≡ true
  log_now : st.delivered ≡ log

closed_when_shut :
    (owner : Option ℕ) (st : RegistryState) → st.shut_down ≡ true → is_closed owner st ≡ true
unfolding is_closed
closed_when_shut owner st h = ap (λ b. b || group_cancelled owner st) h

IsShut-deliver_first :
    (log : List QueuedResult) (threw : Bool) (items : List QueuedResult) (st : RegistryState)
    → IsShut log st
    → IsShut log (deliver_first threw items st)
unfolding deliver_first
IsShut-deliver_first log threw [] st h = h
IsShut-deliver_first log threw (item ∷ rest) st h =
    rw (closed_when_shut item.group st h.shut_now)
      (record { shut_now = h.shut_now; log_now = h.log_now })

IsShut-step :
    (log : List QueuedResult) (op : Op) (st : RegistryState)
    → IsShut log st
    → IsShut log (step op st)
unfolding deliver
IsShut-step log op st h = elim (Silent-or_round op st) [
  | inl s ↦ record { shut_now = s.shut h.shut_now; log_now = s.delivers ∙ h.log_now }
  | inr (threw, e) ↦ subst (IsShut log) (sym e) (IsShut-deliver_first log threw st.draining st h)
]

IsShut-run :
    (log : List QueuedResult) (ops : List Op) (st : RegistryState)
    → IsShut log st
    → IsShut log (run ops st)
unfolding run
IsShut-run log [] st h = h
IsShut-run log (op ∷ ops) st h = IsShut-run log ops (step op st) (IsShut-step log op st h)

-- The group is cancelled, and has received `n` results.
record IsOver (g n : ℕ) (st : RegistryState) : Type 0 where
  made_before : g < st.made
  over_now : (st.groups g).cancelled ≡ true
  count_now : received g st.delivered ≡ n

open_not_owner :
    (g : ℕ) (owner : Option ℕ) (st : RegistryState)
    → (st.groups g).cancelled ≡ true
    → is_closed owner st ≡ false
    → is_owner g owner ≡ false
unfolding is_closed
open_not_owner g none st c o = refl
open_not_owner g (some k) st c o = elim (Bool-cases (g == k)) [
  | inl e ↦
      let closed = subst (λ m. (st.groups m).cancelled ≡ true) ((==_iff g k).0 e) c in
      absurd (ground (arith, closed, o))
  | inr e ↦ e
]

IsOver-call :
    (g n : ℕ) (threw : Bool) (item : QueuedResult) (rest : List QueuedResult) (st : RegistryState)
    → IsOver g n st
    → is_closed item.group st ≡ false
    → IsOver g n (call threw item (record st { draining = rest }))
unfolding call
IsOver-call g n threw item rest st h o =
    let other = open_not_owner g item.group st h.over_now o in
    record { made_before = h.made_before; over_now = h.over_now; count_now = rw other h.count_now }

-- A result of the group is not delivered, and one of another does not count.
IsOver-deliver_first :
    (g n : ℕ) (threw : Bool) (items : List QueuedResult) (st : RegistryState)
    → IsOver g n st
    → IsOver g n (deliver_first threw items st)
unfolding deliver_first
IsOver-deliver_first g n threw [] st h = h
IsOver-deliver_first g n threw (item ∷ rest) st h = elim (Bool-cases (is_closed item.group st)) [
  | inl c ↦
      rw c (record { made_before = h.made_before; over_now = h.over_now; count_now = h.count_now })
  | inr o ↦ rw o (IsOver-call g n threw item rest st h o)
]

IsOver-step : (g n : ℕ) (op : Op) (st : RegistryState) → IsOver g n st → IsOver g n (step op st)
unfolding deliver
IsOver-step g n op st h = elim (Silent-or_round op st) [
  | inl s ↦ record {
    made_before = omega (arith, h.made_before, s.grows);
    over_now = s.cancelled g h.made_before h.over_now;
    count_now = ap (received g) s.delivers ∙ h.count_now;
  }
  | inr (threw, e) ↦ subst (IsOver g n) (sym e) (IsOver-deliver_first g n threw st.draining st h)
]

IsOver-run :
    (g n : ℕ) (ops : List Op) (st : RegistryState) → IsOver g n st → IsOver g n (run ops st)
unfolding run
IsOver-run g n [] st h = h
IsOver-run g n (op ∷ ops) st h = IsOver-run g n ops (step op st) (IsOver-step g n op st h)

IsOver-close_group :
    (g : ℕ) (st : RegistryState)
    → g < st.made
    → IsOver g (received g st.delivered) (close_group g st)
unfolding close_group change_group put_group
IsOver-close_group g st h =
    let self : (g == g) ≡ true = (==_iff g g).1 refl in
    record { made_before = h; over_now = rw self refl; count_now = refl }

IsShut-close : (st : RegistryState) → IsShut st.delivered (close st)
unfolding close
IsShut-close st = record { shut_now = refl; log_now = refl }

-- Whatever the registry's threads do after it, a group that CancelAndWait has closed receives no result,
-- though some were queued or being drained; and after Shutdown has closed the registry nobody does.
pub nothing_delivered_after :
    (ops : List Op) (g : ℕ) (st : RegistryState)
    → g < st.made
    → (received g (run ops (close_group g st)).delivered ≡ received g st.delivered)
      × ((run ops (close st)).delivered ≡ st.delivered)
nothing_delivered_after ops g st h = (
  (IsOver-run g (received g st.delivered) ops (close_group g st)
      (IsOver-close_group g st h)).count_now,
  (IsShut-run st.delivered ops (close st) (IsShut-close st)).log_now,
)
