-- ===== src/Tasks/Ops.antt =====
-- The groups of src/background-tasks.cpp, and the runs of the registry: any sequence of the
-- operations of its threads.
use obs_trigglow_dynamic_del.Prelude.{
  ℕ, suc, Bool, true, false, ◌||◌, Option, none, some, List, [], ◌∷◌, ◌==◌, if◌then◌else◌, ltb,
}
use obs_trigglow_dynamic_del.Tasks.Token.{Subscribed, subscribe, unsubscribe}
use obs_trigglow_dynamic_del.Tasks.{
  RegistryState, QueuedResult, fresh_group, put_group, change_group, start_job, end_job, post,
  drain, deliver, close, cancel_groups, cancel_token,
}

unfoldable pub add_group : Subscribed ℕ → RegistryState → RegistryState
unfolding cancel_groups
add_group s st = cancel_groups s.ran (record st {
  token = s.after;
  groups = put_group st.groups st.made (record fresh_group { subscription = s.id });
  made = suc st.made;
})

-- Group's constructor, with a registry.
unfoldable pub make_group : RegistryState → RegistryState
unfolding add_group
make_group st = add_group (subscribe (some st.made) st.token) st

abbrev pub is_owner : ℕ → Option ℕ → Bool
is_owner g none = false
is_owner g (some h) = g == h

-- The loop of CancelAndWait: what stays in the queue.
unfoldable pub without_group : ℕ → List QueuedResult → List QueuedResult
without_group g [] = []
without_group g (item ∷ queue) =
    if is_owner g item.group then without_group g queue else item ∷ without_group g queue

-- CancelAndWait's first hold of the lock.
unfoldable pub close_group : ℕ → RegistryState → RegistryState
unfolding without_group
close_group g st =
    change_group g (λ x. record x { cancelled = true })
      (record st { queue = without_group g st.queue })

-- `state_->token->Cancel()` in CancelAndWait.
unfoldable pub cancel_group_token : ℕ → RegistryState → RegistryState
cancel_group_token g st = change_group g (λ x. record x { token = true }) st

-- CancelAndWait, up to its wait.
unfoldable pub cancel_group : ℕ → RegistryState → RegistryState
unfolding close_group cancel_group_token
cancel_group g st = cancel_group_token g (close_group g st)

-- What CancelAndWait returns, at the end of its wait.
unfoldable pub group_done : ℕ → RegistryState → Bool
group_done g st = (st.groups g).running == 0

-- Unsubscribe in Group's destructor, after its CancelAndWait.
unfoldable pub drop_group : ℕ → RegistryState → RegistryState
drop_group g st =
    let token = unsubscribe (st.groups g).subscription st.token in
    if (st.groups g).token then record st { token = token } else st

-- Group::Run and Cancelled, for the Group with a null registry too.
unfoldable pub group_run : Option ℕ → Bool → Bool → RegistryState → Bool × RegistryState
group_run none work thread st = (false, st)
group_run (some g) work thread st = start_job (some g) work thread st

unfoldable pub is_group_cancelled : Option ℕ → RegistryState → Bool
is_group_cancelled none st = true
is_group_cancelled (some g) st = (st.groups g).cancelled || st.shut_down

-- An operation on a group is on one that has been constructed.
pub data Op : Type 0 where
  start : Option ℕ → Bool → Bool → Op
  finish : ℕ → Bool → Op
  offer : Option ℕ → Option ℕ → Bool → Op
  begin_drain : Op
  next : Bool → Op
  shut cancel_all : Op
  construct : Op
  shut_group cancel_one destroy : ℕ → Op

unfoldable pub on_made : ℕ → (RegistryState → RegistryState) → RegistryState → RegistryState
on_made g op st = if ltb g st.made then op st else st

unfoldable pub on_owner : Option ℕ → (RegistryState → RegistryState) → RegistryState → RegistryState
unfolding on_made
on_owner none op st = op st
on_owner (some g) op st = on_made g op st

unfoldable pub step : Op → RegistryState → RegistryState
unfolding on_made on_owner
step (start owner work thread) st = on_owner owner (λ st. (start_job owner work thread st).1) st
step (finish k threw) st = end_job k threw st
step (offer owner fn throws) st = on_owner owner (λ st. (post owner fn throws st).1) st
step begin_drain st = drain st
step (next threw) st = deliver threw st
step shut st = close st
step cancel_all st = cancel_token st
step construct st = make_group st
step (shut_group g) st = on_made g (close_group g) st
step (cancel_one g) st = on_made g (cancel_group_token g) st
step (destroy g) st = on_made g (drop_group g) st

unfoldable pub run : List Op → RegistryState → RegistryState
unfolding step
run [] st = st
run (op ∷ ops) st = run ops (step op st)
