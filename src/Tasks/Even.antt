-- ===== src/Tasks/Even.antt =====
-- The operations of src/background-tasks.cpp that start and end no job.
use obs_trigglow_dynamic_del.Prelude.{
  ℕ, suc, ◌%◌, ◌≤◌, ◌≡◌, refl, sym, ap, ◌∙◌, Bool, true, false, not, ◌&&◌, Option, none, some, List,
  [], ◌∷◌, ◌==◌, length, if◌then◌else◌, Bool-cases, inl, inr, ==_iff, add_u64, sub_u64, u64_mod,
  arith,
}
use obs_trigglow_dynamic_del.Tasks.Token.{cancel}
use obs_trigglow_dynamic_del.Tasks.{
  RegistryState, GroupState, QueuedResult, put_group, change_group, is_closed, note_failure, wake,
  enqueue, post, drain, call, deliver_first, cancel_groups, cancel_token, take_cancelled,
}
use obs_trigglow_dynamic_del.Tasks.Ops.{close_group, cancel_group_token, is_owner, without_group}

-- The jobs of a group.
abbrev pub owned : ℕ → List (Option ℕ) → ℕ
owned g [] = 0
owned g (job ∷ jobs) = if is_owner g job then suc (owned g jobs) else owned g jobs

pub record IsCounted (st : RegistryState) : Type 0 where
  pub all : st.running ≡ length st.jobs % u64_mod
  pub each : (g : ℕ) → (st.groups g).running ≡ owned g st.jobs % u64_mod
  pub unmade : (g : ℕ) → st.made ≤ g → owned g st.jobs ≡ 0

pub add_mod : (n m : ℕ) → n ≡ m % u64_mod → add_u64 n 1 ≡ suc m % u64_mod
add_mod n m h = omega arith

pub sub_mod : (n m : ℕ) → n ≡ suc m % u64_mod → sub_u64 n 1 ≡ m % u64_mod
sub_mod n m h = omega arith

-- The state goes on with the same jobs and the same counters.
pub record IsEven (st after : RegistryState) : Type 0 where
  pub all_same : after.running ≡ st.running
  pub each_same : (g : ℕ) → (after.groups g).running ≡ (st.groups g).running
  pub jobs_same : after.jobs ≡ st.jobs
  pub made_same : after.made ≡ st.made

pub IsCounted-IsEven : (st after : RegistryState) → IsEven st after → IsCounted st → IsCounted after
IsCounted-IsEven st after e c = record {
  all = e.all_same ∙ c.all ∙ ap (λ jobs. length jobs % u64_mod) (sym e.jobs_same);
  each = λ g. e.each_same g ∙ c.each g ∙ ap (λ jobs. owned g jobs % u64_mod) (sym e.jobs_same);
  unmade = λ g h. ap (owned g) e.jobs_same ∙ c.unmade g (omega (arith, h, e.made_same));
}

pub IsEven-refl : (st : RegistryState) → IsEven st st
IsEven-refl st = record {
  all_same = refl;
  each_same = λ g. refl;
  jobs_same = refl;
  made_same = refl;
}

pub IsEven-same :
    (st after : RegistryState)
    → after.running ≡ st.running
    → after.groups ≡ st.groups
    → after.jobs ≡ st.jobs
    → after.made ≡ st.made
    → IsEven st after
IsEven-same st after r g j m = record {
  all_same = r;
  each_same = λ k. ap (λ groups. (groups k).running) g;
  jobs_same = j;
  made_same = m;
}

pub IsEven-trans :
    {st mid after : RegistryState} → IsEven st mid → IsEven mid after → IsEven st after
IsEven-trans a b = record {
  all_same = b.all_same ∙ a.all_same;
  each_same = λ g. b.each_same g ∙ a.each_same g;
  jobs_same = b.jobs_same ∙ a.jobs_same;
  made_same = b.made_same ∙ a.made_same;
}

pub IsEven-if :
    (b : Bool) (st x y : RegistryState) → IsEven st x → IsEven st y → IsEven st (if b then x else y)
IsEven-if true st x y h k = h
IsEven-if false st x y h k = k

pub IsEven-change_group :
    (g : ℕ) (change : GroupState → GroupState) (st : RegistryState)
    → ((x : GroupState) → (change x).running ≡ x.running)
    → IsEven st (change_group g change st)
unfolding change_group put_group
IsEven-change_group g change st same = record {
  all_same = refl;
  each_same = λ k. elim (Bool-cases (k == g)) [
    | inl e ↦ rw e (same _ ∙ ap (λ n. (st.groups n).running) (sym ((==_iff k g).0 e)))
    | inr e ↦ rw e refl
  ];
  jobs_same = refl;
  made_same = refl;
}

pub IsEven-cancel_groups : (gs : List ℕ) (st : RegistryState) → IsEven st (cancel_groups gs st)
unfolding cancel_groups
IsEven-cancel_groups [] st = IsEven-refl st
IsEven-cancel_groups (g ∷ gs) st =
    IsEven-trans (IsEven-change_group g (λ x. record x { token = true }) st λ x. refl)
      (IsEven-cancel_groups gs _)

pub IsEven-cancel_token : (st : RegistryState) → IsEven st (cancel_token st)
unfolding cancel_token take_cancelled
IsEven-cancel_token st =
    IsEven-trans (IsEven-same st (record st { token = (cancel st.token).1 }) refl refl refl refl)
      (IsEven-cancel_groups (cancel st.token).0 _)

pub IsEven-post :
    (owner fn : Option ℕ) (throws : Bool) (st : RegistryState)
    → IsEven st (post owner fn throws st).1
unfolding post wake enqueue
IsEven-post owner none throws st = IsEven-refl st
IsEven-post owner (some fn) throws st = elim (Bool-cases (is_closed owner st)) [
  | inl c ↦ rw c (IsEven-refl st)
  | inr o ↦ rw o (
      IsEven-if (not st.wake_pending && st.has_waker) st _ _ (IsEven-same st _ refl refl refl refl)
        (IsEven-same st _ refl refl refl refl))
]

pub IsEven-drain : (st : RegistryState) → IsEven st (drain st)
unfolding drain
IsEven-drain st =
    IsEven-if st.shut_down st _ _ (IsEven-same st _ refl refl refl refl)
      (IsEven-same st _ refl refl refl refl)

pub IsEven-deliver_first :
    (threw : Bool) (items : List QueuedResult) (st : RegistryState)
    → IsEven st (deliver_first threw items st)
unfolding deliver_first call note_failure
IsEven-deliver_first threw [] st = IsEven-refl st
IsEven-deliver_first threw (item ∷ rest) st =
    IsEven-if (is_closed item.group st) st _ _ (IsEven-same st _ refl refl refl refl)
      (IsEven-same st _ refl refl refl refl)

pub IsEven-close_group : (g : ℕ) (st : RegistryState) → IsEven st (close_group g st)
unfolding close_group
IsEven-close_group g st =
    IsEven-trans
      (IsEven-same st (record st { queue = without_group g st.queue }) refl refl refl refl)
      (IsEven-change_group g (λ x. record x { cancelled = true }) _ λ x. refl)

pub IsEven-cancel_group_token : (g : ℕ) (st : RegistryState) → IsEven st (cancel_group_token g st)
unfolding cancel_group_token
IsEven-cancel_group_token g st = IsEven-change_group g (λ x. record x { token = true }) st λ x. refl
