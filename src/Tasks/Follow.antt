-- ===== src/Tasks/Follow.antt =====
-- How a cancelled registry of src/background-tasks.cpp reaches the tokens of its groups.
use obs_trigglow_dynamic_del.Prelude.{
  ℕ, suc, ◌+◌, ◌≤◌, ◌<◌, ◌≡◌, refl, sym, subst, Bool, true, List, [], ◌∷◌, ltb, length, Bool-cases,
  inl, inr, ltb→lt, u64_mod, arith,
}
use obs_trigglow_dynamic_del.Tasks.Token.{Subscribed, cancel, fresh}
use obs_trigglow_dynamic_del.Tasks.{
  RegistryState, start_job, post, deliver, close, cancel_token, make, shutdown, take_cancelled,
}
use obs_trigglow_dynamic_del.Tasks.Ops.{
  Op, start, finish, offer, begin_drain, next, shut, cancel_all, construct, shut_group, cancel_one,
  destroy, step, run, make_group, add_group, add_group, close_group, cancel_group_token, drop_group,
  on_made,
}
use obs_trigglow_dynamic_del.Tasks.Tied
use obs_trigglow_dynamic_del.Tasks.Tied.{IsTied}
use obs_trigglow_dynamic_del.Tasks.Linked.{cancel_groups_rest, IsLinked, IsLinked-IsTied}
use obs_trigglow_dynamic_del.Tasks.Cancel.{
  IsKept, IsKept-IsTied, IsKept-cancel_group_token, IsKept-drop_group, AllCancelled,
  IsLinked-AllCancelled, AllCancelled-IsLinked, AllCancelled-cancel_token, subscribe_late,
  subscribe_live, AllCancelled-add_group, IsLinked-add_group,
}

add_group-made : (s : Subscribed ℕ) (st : RegistryState) → (add_group s st).made ≡ suc st.made
unfolding add_group
add_group-made s st = (cancel_groups_rest s.ran _).1

cancel_token-made : (st : RegistryState) → (cancel_token st).made ≡ st.made
unfolding cancel_token take_cancelled
cancel_token-made st =
    (cancel_groups_rest (cancel st.token).0 (record st { token = (cancel st.token).1 })).1

IsTied-close : (st : RegistryState) → IsTied st (close st)
unfolding close
IsTied-close st = Tied.IsTied-same st _ refl refl refl

made_zero : (waker : Bool) → (make waker).made ≡ 0
unfolding make
made_zero waker = refl

IsKept-make_group :
    (st : RegistryState) → suc (suc st.made) < u64_mod → IsLinked st → IsKept st (make_group st)
unfolding make_group
IsKept-make_group st b l = elim (Bool-cases st.token.cancelled) [
  | inl c ↦
      let all = AllCancelled-add_group st (AllCancelled-IsLinked st c l) in
      subst (λ s. IsKept st (add_group s st)) (sym (subscribe_late st.made st.token c))
        (record {
          linked = IsLinked-AllCancelled _ all;
          stays = λ h. all.0;
          grows =
              omega (
                arith,
                add_group-made (record { id = 0; ran = st.made ∷ []; after = st.token }) st,
              );
        })
  | inr o ↦
      subst (λ s. IsKept st (add_group s st)) (sym (subscribe_live st.made st.token o))
        (record {
          linked = IsLinked-add_group st b o l;
          stays = λ h. absurd (ground (arith, o, h));
          grows = omega (arith, add_group-made _ st);
        })
]

IsKept-cancel_token : (st : RegistryState) → IsLinked st → IsKept st (cancel_token st)
IsKept-cancel_token st l =
    let all = AllCancelled-cancel_token st l in
    record {
      linked = IsLinked-AllCancelled (cancel_token st) all;
      stays = λ h. all.0;
      grows = omega (arith, cancel_token-made st);
    }

IsKept-on_made :
    (g : ℕ) (op : RegistryState → RegistryState) (st : RegistryState)
    → (g < st.made → IsKept st (op st))
    → IsLinked st
    → IsKept st (on_made g op st)
unfolding on_made
IsKept-on_made g op st h l = elim (Bool-cases (ltb g st.made)) [
  | inl e ↦ rw e (h (ltb→lt g st.made e))
  | inr e ↦ rw e (IsKept-IsTied st st (Tied.IsTied-refl st) l)
]

IsKept-step :
    (op : Op) (st : RegistryState)
    → suc (suc st.made) < u64_mod
    → IsLinked st
    → IsKept st (step op st)
unfolding step deliver close
IsKept-step (start owner work thread) st b l =
    IsKept-IsTied st _
      (Tied.IsTied-on_owner owner (λ st. (start_job owner work thread st).1) st
        (Tied.IsTied-start_job owner work thread st))
      l
IsKept-step (finish k threw) st b l = IsKept-IsTied st _ (Tied.IsTied-end_job k threw st) l
IsKept-step (offer owner fn throws) st b l =
    IsKept-IsTied st _
      (Tied.IsTied-on_owner owner (λ st. (post owner fn throws st).1) st
        (Tied.IsTied-post owner fn throws st))
      l
IsKept-step begin_drain st b l = IsKept-IsTied st _ (Tied.IsTied-drain st) l
IsKept-step (next threw) st b l =
    IsKept-IsTied st _ (Tied.IsTied-deliver_first threw st.draining st) l
IsKept-step shut st b l = IsKept-IsTied st _ (Tied.IsTied-same st _ refl refl refl) l
IsKept-step cancel_all st b l = IsKept-cancel_token st l
IsKept-step construct st b l = IsKept-make_group st b l
IsKept-step (shut_group g) st b l =
    IsKept-on_made g (close_group g) st (λ m. IsKept-IsTied st _ (Tied.IsTied-close_group g st) l) l
IsKept-step (cancel_one g) st b l =
    IsKept-on_made g (cancel_group_token g) st (λ m. IsKept-cancel_group_token g st l) l
IsKept-step (destroy g) st b l =
    IsKept-on_made g (drop_group g) st (λ m. IsKept-drop_group g st m l) l

-- A run keeps the link and a cancelled token, as long as the numbers of subscriptions do not wrap.
run_links :
    (ops : List Op) (st : RegistryState)
    → length ops + suc st.made < u64_mod
    → IsLinked st
    → IsLinked (run ops st)
      × (st.token.cancelled ≡ true → (run ops st).token.cancelled ≡ true)
      × ((run ops st).made ≤ length ops + st.made)
unfolding run
run_links [] st b l = (l, λ h. h, omega arith)
run_links (op ∷ ops) st b l =
    let kept = IsKept-step op st (omega arith) l in
    let (linked, stays, grows) =
      run_links ops (step op st) (omega (arith, b, kept.grows)) kept.linked in
    (linked, λ h. stays (kept.stays h), omega (arith, grows, kept.grows))

IsLinked-make : (waker : Bool) → IsLinked (make waker)
unfolding make fresh
IsLinked-make waker = record {
  numbered = λ h. refl;
  own = λ h g m. absurd (omega (arith, m));
  follows = λ g m. absurd (omega (arith, m));
}

-- Whatever the registry's threads did before a Shutdown and do after it, its token is cancelled and so
-- is the token of every group, those that are constructed later too. The condition is that the numbers
-- of subscriptions do not wrap around.
pub shutdown-AllCancelled :
    (before after : List Op) (waker : Bool)
    → length before + length after + 1 < u64_mod
    → AllCancelled (run after (shutdown (run before (make waker))))
unfolding shutdown
shutdown-AllCancelled before after waker b =
    let st = run before (make waker) in
    let (linked, stays, grows) =
      run_links before (make waker) (omega (arith, b, made_zero waker)) (IsLinked-make waker) in
    let closed = IsLinked-IsTied st (close st) (IsTied-close st) linked in
    let all = AllCancelled-cancel_token (close st) closed in
    let (linked_after, stays_after, grows_after) =
      run_links after (shutdown st)
        (omega (
          arith,
          b,
          grows,
          made_zero waker,
          cancel_token-made (close st),
          (IsTied-close st).made_same,
        ))
        (IsLinked-AllCancelled _ all) in
    AllCancelled-IsLinked _ (stays_after all.0) linked_after
