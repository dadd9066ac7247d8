-- ===== src/Tasks/Tied.antt =====
-- The operations of src/background-tasks.cpp that leave the tokens alone.
use obs_trigglow_dynamic_del.Prelude.{
  ℕ, ◌≡◌, refl, sym, ap, ◌∙◌, Bool, true, false, not, ◌&&◌, Option, none, some, List, [], ◌∷◌, ◌==◌,
  ltb, if◌then◌else◌, Bool-cases, inl, inr, Option-cases, ==_iff, add_u64, sub_u64,
}
use obs_trigglow_dynamic_del.Tasks.{
  RegistryState, GroupState, QueuedResult, put_group, change_group, is_closed, count_in, count_out,
  add_job, start_job, end_job, note_failure, drop_job, job_at, wake, enqueue, post, drain, call,
  deliver_first,
}
use obs_trigglow_dynamic_del.Tasks.Ops.{close_group, on_made, on_owner, without_group}

pub record IsTied (st after : RegistryState) : Type 0 where
  pub token_same : after.token ≡ st.token
  pub made_same : after.made ≡ st.made
  pub flag_same : (g : ℕ) → (after.groups g).token ≡ (st.groups g).token
  pub id_same : (g : ℕ) → (after.groups g).subscription ≡ (st.groups g).subscription

pub IsTied-same :
    (st after : RegistryState)
    → after.token ≡ st.token
    → after.made ≡ st.made
    → after.groups ≡ st.groups
    → IsTied st after
IsTied-same st after t m g = record {
  token_same = t;
  made_same = m;
  flag_same = λ k. ap (λ groups. (groups k).token) g;
  id_same = λ k. ap (λ groups. (groups k).subscription) g;
}

IsTied-trans : {st mid after : RegistryState} → IsTied st mid → IsTied mid after → IsTied st after
IsTied-trans a b = record {
  token_same = b.token_same ∙ a.token_same;
  made_same = b.made_same ∙ a.made_same;
  flag_same = λ g. b.flag_same g ∙ a.flag_same g;
  id_same = λ g. b.id_same g ∙ a.id_same g;
}

pub IsTied-refl : (st : RegistryState) → IsTied st st
IsTied-refl st = IsTied-same st st refl refl refl

pub IsTied-if :
    (b : Bool) (st x y : RegistryState) → IsTied st x → IsTied st y → IsTied st (if b then x else y)
IsTied-if true st x y h k = h
IsTied-if false st x y h k = k

IsTied-change_group :
    (g : ℕ) (change : GroupState → GroupState) (st : RegistryState)
    → ((x : GroupState) → (change x).token ≡ x.token)
    → ((x : GroupState) → (change x).subscription ≡ x.subscription)
    → IsTied st (change_group g change st)
unfolding change_group put_group
IsTied-change_group g change st flag id = record {
  token_same = refl;
  made_same = refl;
  flag_same = λ k. elim (Bool-cases (k == g)) [
    | inl e ↦ rw e (flag _ ∙ ap (λ n. (st.groups n).token) (sym ((==_iff k g).0 e)))
    | inr e ↦ rw e refl
  ];
  id_same = λ k. elim (Bool-cases (k == g)) [
    | inl e ↦ rw e (id _ ∙ ap (λ n. (st.groups n).subscription) (sym ((==_iff k g).0 e)))
    | inr e ↦ rw e refl
  ];
}

IsTied-count_in : (owner : Option ℕ) (st : RegistryState) → IsTied st (count_in owner st)
unfolding count_in
IsTied-count_in none st = IsTied-same st _ refl refl refl
IsTied-count_in (some g) st =
    IsTied-trans (IsTied-same st (record st { running = add_u64 st.running 1 }) refl refl refl)
      (IsTied-change_group g _ _ (λ x. refl) λ x. refl)

IsTied-count_out : (owner : Option ℕ) (st : RegistryState) → IsTied st (count_out owner st)
unfolding count_out
IsTied-count_out none st = IsTied-same st _ refl refl refl
IsTied-count_out (some g) st =
    IsTied-trans (IsTied-same st (record st { running = sub_u64 st.running 1 }) refl refl refl)
      (IsTied-change_group g _ _ (λ x. refl) λ x. refl)

pub IsTied-start_job :
    (owner : Option ℕ) (work thread : Bool) (st : RegistryState)
    → IsTied st (start_job owner work thread st).1
unfolding start_job add_job
IsTied-start_job owner false thread st = IsTied-refl st
IsTied-start_job owner true thread st = elim (Bool-cases (is_closed owner st)) [
  | inl h ↦ rw h (IsTied-refl st)
  | inr h ↦ rw h (elim (Bool-cases thread) [
    | inl t ↦ rw t (
        IsTied-trans (IsTied-count_in owner st)
          (IsTied-same (count_in owner st) (add_job owner (count_in owner st)) refl refl refl))
    | inr t ↦ rw t (IsTied-trans (IsTied-count_in owner st) (IsTied-count_out owner _))
  ])
]

pub IsTied-end_job : (k : ℕ) (threw : Bool) (st : RegistryState) → IsTied st (end_job k threw st)
unfolding end_job note_failure drop_job
IsTied-end_job k threw st = elim (Option-cases (job_at k st.jobs)) [
  | inl h ↦ rw (end_job, h) (IsTied-refl st)
  | inr (owner, h) ↦
      rw (end_job, h)
        (IsTied-trans
          (IsTied-trans (IsTied-same st (note_failure threw st) refl refl refl)
            (IsTied-count_out owner (note_failure threw st)))
          (IsTied-same (count_out owner (note_failure threw st)) _ refl refl refl))
]

pub IsTied-post :
    (owner fn : Option ℕ) (throws : Bool) (st : RegistryState)
    → IsTied st (post owner fn throws st).1
unfolding post wake enqueue
IsTied-post owner none throws st = IsTied-refl st
IsTied-post owner (some fn) throws st = elim (Bool-cases (is_closed owner st)) [
  | inl c ↦ rw c (IsTied-refl st)
  | inr o ↦ rw o (
      IsTied-if (not st.wake_pending && st.has_waker) st _ _ (IsTied-same st _ refl refl refl)
        (IsTied-same st _ refl refl refl))
]

pub IsTied-drain : (st : RegistryState) → IsTied st (drain st)
unfolding drain
IsTied-drain st =
    IsTied-if st.shut_down st _ _ (IsTied-same st _ refl refl refl)
      (IsTied-same st _ refl refl refl)

pub IsTied-deliver_first :
    (threw : Bool) (items : List QueuedResult) (st : RegistryState)
    → IsTied st (deliver_first threw items st)
unfolding deliver_first call note_failure
IsTied-deliver_first threw [] st = IsTied-refl st
IsTied-deliver_first threw (item ∷ rest) st =
    IsTied-if (is_closed item.group st) st _ _ (IsTied-same st _ refl refl refl)
      (IsTied-same st _ refl refl refl)

pub IsTied-close_group : (g : ℕ) (st : RegistryState) → IsTied st (close_group g st)
unfolding close_group
IsTied-close_group g st =
    IsTied-trans (IsTied-same st (record st { queue = without_group g st.queue }) refl refl refl)
      (IsTied-change_group g (λ x. record x { cancelled = true }) _ (λ x. refl) λ x. refl)

pub IsTied-on_owner :
    (owner : Option ℕ) (op : RegistryState → RegistryState) (st : RegistryState)
    → IsTied st (op st)
    → IsTied st (on_owner owner op st)
unfolding on_owner on_made
IsTied-on_owner none op st h = h
IsTied-on_owner (some g) op st h = IsTied-if (ltb g st.made) st (op st) st h (IsTied-refl st)
