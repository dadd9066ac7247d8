-- ===== src/Tasks/Counts.antt =====
-- The counters of running jobs in src/background-tasks.cpp against the jobs themselves.
use obs_trigglow_dynamic_del.Prelude.{
  ℕ, ◌%◌, ◌≤◌, ◌<◌, ◌≡◌, refl, sym, ap, Bool, true, false, Option, none, some, List, [], ◌∷◌, ◌==◌,
  ltb, length, Bool-cases, inl, inr, Option-cases, ltb→lt, ◌↔◌, ==_iff, u64_mod, arith,
}
use obs_trigglow_dynamic_del.Tasks.Token.{subscribe}
use obs_trigglow_dynamic_del.Tasks.{
  RegistryState, put_group, is_closed, start_job, end_job, note_failure, job_at, post, deliver,
  close, make,
}
use obs_trigglow_dynamic_del.Tasks.Ops.{
  Op, start, finish, offer, begin_drain, next, shut, cancel_all, construct, shut_group, cancel_one,
  destroy, step, run, make_group, add_group, close_group, cancel_group_token, drop_group, on_made,
  on_owner, group_done,
}
use obs_trigglow_dynamic_del.Tasks.Even.{
  owned, IsCounted, IsEven, IsEven-refl, IsEven-same, IsEven-cancel_token, IsEven-cancel_groups,
  IsEven-post, IsEven-drain, IsEven-deliver_first, IsEven-close_group, IsEven-cancel_group_token,
  IsEven-if, IsCounted-IsEven,
}
use obs_trigglow_dynamic_del.Tasks.Jobs.{
  IsMade, IsCounted-add_job, IsEven-failed_start, IsCounted-drop_job,
}

IsCounted-start_job :
    (owner : Option ℕ) (work thread : Bool) (st : RegistryState)
    → IsMade owner st
    → IsCounted st
    → IsCounted (start_job owner work thread st).1
unfolding start_job
IsCounted-start_job owner false thread st m c = c
IsCounted-start_job owner true thread st m c = elim (Bool-cases (is_closed owner st)) [
  | inl h ↦ rw h c
  | inr h ↦ rw h (elim (Bool-cases thread) [
    | inl t ↦ rw t (IsCounted-add_job owner st m c)
    | inr t ↦ rw t (IsCounted-IsEven st _ (IsEven-failed_start owner st c) c)
  ])
]

IsCounted-end_job :
    (k : ℕ) (threw : Bool) (st : RegistryState) → IsCounted st → IsCounted (end_job k threw st)
unfolding end_job note_failure
IsCounted-end_job k threw st c = elim (Option-cases (job_at k st.jobs)) [
  | inl h ↦ rw (end_job, h) c
  | inr (owner, h) ↦
      rw (end_job, h)
        (IsCounted-drop_job k owner (note_failure threw st) h
          (record { all = c.all; each = c.each; unmade = c.unmade }))
]

IsCounted-make_group : (st : RegistryState) → IsCounted st → IsCounted (make_group st)
unfolding make_group add_group put_group
IsCounted-make_group st c =
    let s = subscribe (some st.made) st.token in
    IsCounted-IsEven _ _ (IsEven-cancel_groups s.ran _) (record {
      all = c.all;
      each = λ g. elim (Bool-cases (g == st.made)) [
        | inl e ↦
            rw e (ap (λ n. n % u64_mod) (sym (c.unmade g (omega (arith, (==_iff g st.made).0 e)))))
        | inr e ↦ rw e (c.each g)
      ];
      unmade = λ g h. c.unmade g (omega (arith, h));
    })

IsCounted-on_made :
    (g : ℕ) (op : RegistryState → RegistryState) (st : RegistryState)
    → IsEven st (op st)
    → IsCounted st
    → IsCounted (on_made g op st)
unfolding on_made
IsCounted-on_made g op st e c =
    IsCounted-IsEven st _ (IsEven-if (ltb g st.made) st (op st) st e (IsEven-refl st)) c

IsCounted-on_owner :
    (owner : Option ℕ) (op : RegistryState → RegistryState) (st : RegistryState)
    → (IsMade owner st → IsCounted (op st))
    → IsCounted st
    → IsCounted (on_owner owner op st)
unfolding on_owner on_made
IsCounted-on_owner none op st h c = h refl
IsCounted-on_owner (some g) op st h c = elim (Bool-cases (ltb g st.made)) [
  | inl e ↦ rw e (h (ltb→lt g st.made e))
  | inr e ↦ rw e c
]

IsCounted-step : (op : Op) (st : RegistryState) → IsCounted st → IsCounted (step op st)
unfolding step deliver close drop_group
IsCounted-step (start owner work thread) st c =
    IsCounted-on_owner owner (λ st. (start_job owner work thread st).1) st
      (λ m. IsCounted-start_job owner work thread st m c) c
IsCounted-step (finish k threw) st c = IsCounted-end_job k threw st c
IsCounted-step (offer owner fn throws) st c =
    IsCounted-on_owner owner (λ st. (post owner fn throws st).1) st
      (λ m. IsCounted-IsEven st _ (IsEven-post owner fn throws st) c) c
IsCounted-step begin_drain st c = IsCounted-IsEven st _ (IsEven-drain st) c
IsCounted-step (next threw) st c =
    IsCounted-IsEven st _ (IsEven-deliver_first threw st.draining st) c
IsCounted-step shut st c = IsCounted-IsEven st _ (IsEven-same st _ refl refl refl refl) c
IsCounted-step cancel_all st c = IsCounted-IsEven st _ (IsEven-cancel_token st) c
IsCounted-step construct st c = IsCounted-make_group st c
IsCounted-step (shut_group g) st c =
    IsCounted-on_made g (close_group g) st (IsEven-close_group g st) c
IsCounted-step (cancel_one g) st c =
    IsCounted-on_made g (cancel_group_token g) st (IsEven-cancel_group_token g st) c
IsCounted-step (destroy g) st c =
    IsCounted-on_made g (drop_group g) st
      (IsEven-if (st.groups g).token st _ st (IsEven-same st _ refl refl refl refl)
        (IsEven-refl st))
      c

IsCounted-run : (ops : List Op) (st : RegistryState) → IsCounted st → IsCounted (run ops st)
unfolding run
IsCounted-run [] st c = c
IsCounted-run (op ∷ ops) st c = IsCounted-run ops (step op st) (IsCounted-step op st c)

IsCounted-make : (waker : Bool) → IsCounted (make waker)
unfolding make
IsCounted-make waker = record { all = refl; each = λ g. refl; unmade = λ g h. refl }

owned-length : (g : ℕ) (jobs : List (Option ℕ)) → owned g jobs ≤ length jobs
owned-length g [] = omega arith
owned-length g (job ∷ jobs) = ground (arith, owned-length g jobs)

done_iff : (n m : ℕ) → n ≡ m → ((n == 0) ≡ true) ↔ (m ≡ 0)
done_iff n m h = ground arith

-- However the threads of a new registry take turns, `running` is the number of the jobs whose work has
-- not returned and a group's is the number of its own, none of them wrapped around while fewer than
-- 2 ^ 64 jobs run; and when CancelAndWait finds its group done, none of the group's jobs runs.
pub counters_count_jobs :
    (ops : List Op) (waker : Bool) (g : ℕ)
    → length (run ops (make waker)).jobs < u64_mod
    → ((run ops (make waker)).running ≡ length (run ops (make waker)).jobs)
      × (((run ops (make waker)).groups g).running ≡ owned g (run ops (make waker)).jobs)
      × ((group_done g (run ops (make waker)) ≡ true) ↔ (owned g (run ops (make waker)).jobs ≡ 0))
unfolding group_done
counters_count_jobs ops waker g h =
    let st = run ops (make waker) in
    let c = IsCounted-run ops (make waker) (IsCounted-make waker) in
    let own : (st.groups g).running ≡ owned g st.jobs =
      omega (arith, c.each g, h, owned-length g st.jobs) in
    (omega (arith, c.all, h), own, done_iff (st.groups g).running _ own)
