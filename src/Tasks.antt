-- ===== src/Tasks.antt =====
-- src/background-tasks.hpp and .cpp: the registry of background jobs, its groups, and the queue of
-- results for the UI thread. What the code does under one hold of the registry's lock is one function
-- of the state; a job's work and a result's function are numbers, and what they do when they run is the
-- operations that follow.
pub mod Token
pub mod Ops
mod Silent
pub mod Quiet
mod Even
mod Jobs
pub mod Counts
mod Parts
pub mod Wake
mod Tied
mod Linked
mod Cancel
pub mod Follow
mod Tests
use obs_trigglow_dynamic_del.Prelude.{
  ℕ, zero, suc, ◌-◌, ◌+◌, ◌%◌, Bool, true, false, not, ◌&&◌, ◌||◌, Option, none, some, List, [],
  ◌∷◌, ◌++◌, ◌==◌, length, if◌then◌else◌, add_u64, sub_u64,
}
use obs_trigglow_dynamic_del.Tasks.Token.{CancelToken, subscribe, unsubscribe, cancel, fresh}

-- GroupState, with its token's flag, and the Group's parentSubscription_.
pub record GroupState : Type 0 where
  pub cancelled : Bool
  pub running : ℕ
  pub token : Bool
  pub subscription : ℕ

-- The group of a job or a result is a number, or none for a job without a group.
pub record QueuedResult : Type 0 where
  pub group : Option ℕ
  pub fn : ℕ

-- A call of the waker, and one of Drain.
pub data Turn : Type 0 where
  woke drained : Turn

-- RegistryState, with its groups, the first `made` of which have been constructed. `jobs` are the
-- groups of the threads whose work has not returned, `turns` the calls of the waker and of Drain, the
-- last one first, `draining` the results that Drain has taken off the
-- queue and not come to yet, `delivered` the results whose function was called, the last one first.
pub record RegistryState : Type 0 where
  pub shut_down : Bool
  pub running : ℕ
  pub failures : ℕ
  pub wake_pending : Bool
  pub has_waker : Bool
  pub queue : List QueuedResult
  pub token : CancelToken ℕ
  pub groups : ℕ → GroupState
  pub made : ℕ
  pub turns : List Turn
  pub jobs : List (Option ℕ)
  pub draining : List QueuedResult
  pub delivered : List QueuedResult

abbrev pub fresh_group : GroupState
fresh_group = record { cancelled = false; running = 0; token = false; subscription = 0 }

-- Registry's constructor.
unfoldable pub make : Bool → RegistryState
make waker = record {
  shut_down = false;
  running = 0;
  failures = 0;
  wake_pending = false;
  has_waker = waker;
  queue = [];
  token = fresh;
  groups = λ g. fresh_group;
  made = 0;
  turns = [];
  jobs = [];
  draining = [];
  delivered = [];
}

unfoldable pub put_group : (ℕ → GroupState) → ℕ → GroupState → ℕ → GroupState
put_group groups g x h = if h == g then x else groups h

unfoldable pub change_group : ℕ → (GroupState → GroupState) → RegistryState → RegistryState
change_group g change st = record st { groups = put_group st.groups g (change (st.groups g)) }

unfoldable pub group_cancelled : Option ℕ → RegistryState → Bool
group_cancelled none st = false
group_cancelled (some g) st = (st.groups g).cancelled

-- The test of StartJob, Post and Drain.
unfoldable pub is_closed : Option ℕ → RegistryState → Bool
unfolding group_cancelled
is_closed owner st = st.shut_down || group_cancelled owner st

unfoldable pub count_in : Option ℕ → RegistryState → RegistryState
count_in none st = record st { running = add_u64 st.running 1 }
count_in (some g) st =
    change_group g (λ x. record x { running = add_u64 x.running 1 })
      (record st { running = add_u64 st.running 1 })

unfoldable pub count_out : Option ℕ → RegistryState → RegistryState
count_out none st = record st { running = sub_u64 st.running 1 }
count_out (some g) st =
    change_group g (λ x. record x { running = sub_u64 x.running 1 })
      (record st { running = sub_u64 st.running 1 })

unfoldable pub add_job : Option ℕ → RegistryState → RegistryState
add_job owner st = record st { jobs = owner ∷ st.jobs }

-- StartJob, for Registry::Run and Group::Run: `work` tells whether there is a function to run, and
-- `thread` whether StartThread succeeds.
unfoldable pub start_job : Option ℕ → Bool → Bool → RegistryState → Bool × RegistryState
unfolding is_closed count_in count_out add_job
start_job owner work thread st =
    if not work
    then (false, st)
    else if is_closed owner st
    then (false, st)
    else if thread
    then (true, add_job owner (count_in owner st))
    else (false, count_out owner (count_in owner st))

abbrev pub remove_at : ℕ → List (Option ℕ) → List (Option ℕ)
remove_at k [] = []
remove_at zero (job ∷ jobs) = jobs
remove_at (suc k) (job ∷ jobs) = job ∷ remove_at k jobs

abbrev pub job_at : ℕ → List (Option ℕ) → Option (Option ℕ)
job_at k [] = none
job_at zero (job ∷ jobs) = some job
job_at (suc k) (job ∷ jobs) = job_at k jobs

unfoldable pub note_failure : Bool → RegistryState → RegistryState
note_failure threw st = record st {
  failures = if threw then add_u64 st.failures 1 else st.failures;
}

unfoldable pub drop_job : ℕ → RegistryState → RegistryState
drop_job k st = record st { jobs = remove_at k st.jobs }

-- The end of the body of a job's thread, for the job at `k`: its two holds of the lock, of which the
-- first only counts a failure.
unfoldable pub end_job : ℕ → Bool → RegistryState → RegistryState
unfolding count_out note_failure drop_job
end_job k threw st = elim (job_at k st.jobs) [
  | none ↦ st
  | some owner ↦ drop_job k (count_out owner (note_failure threw st))
]

unfoldable pub wake : Bool → RegistryState → RegistryState
wake throws st =
    if not st.wake_pending && st.has_waker
    then record st { wake_pending = not throws; turns = woke ∷ st.turns }
    else st

unfoldable pub enqueue : QueuedResult → RegistryState → RegistryState
enqueue item st = record st { queue = st.queue ++ item ∷ [] }

-- TaskContext::Post.
unfoldable pub post : Option ℕ → Option ℕ → Bool → RegistryState → Bool × RegistryState
unfolding is_closed wake enqueue
post owner none throws st = (false, st)
post owner (some fn) throws st =
    if is_closed owner st
    then (false, st)
    else (true, wake throws (enqueue (record { group = owner; fn = fn }) st))

-- Drain, up to its loop. A Drain inside a delivered result's function goes first.
unfoldable pub drain : RegistryState → RegistryState
drain st =
    let begun = record st { wake_pending = false; turns = drained ∷ st.turns } in
    if st.shut_down then begun else record begun { queue = []; draining = st.queue ++ st.draining }

-- The call of `item.fn`, which may throw.
unfoldable pub call : Bool → QueuedResult → RegistryState → RegistryState
unfolding note_failure
call threw item st = note_failure threw (record st { delivered = item ∷ st.delivered })

unfoldable pub deliver_first : Bool → List QueuedResult → RegistryState → RegistryState
unfolding is_closed call
deliver_first threw [] st = st
deliver_first threw (item ∷ rest) st =
    let after = record st { draining = rest } in
    if is_closed item.group st then after else call threw item after

-- A round of the loop of Drain. The test and the call are one step: an owner closes its group, and
-- the plugin the registry, on the thread that drains.
unfoldable pub deliver : Bool → RegistryState → RegistryState
unfolding deliver_first
deliver threw st = deliver_first threw st.draining st

-- Shutdown's first hold of the lock.
unfoldable pub close : RegistryState → RegistryState
close st = record st { shut_down = true; queue = [] }

-- `own->Cancel()` in the groups' subscriptions, which Cancel of the registry's token runs.
unfoldable pub cancel_groups : List ℕ → RegistryState → RegistryState
cancel_groups [] st = st
cancel_groups (g ∷ gs) st = cancel_groups gs (change_group g (λ x. record x { token = true }) st)

unfoldable pub take_cancelled : List ℕ × CancelToken ℕ → RegistryState → RegistryState
unfolding cancel_groups
take_cancelled (ran, token) st = cancel_groups ran (record st { token = token })

-- `state_->token->Cancel()` in Shutdown.
unfoldable pub cancel_token : RegistryState → RegistryState
unfolding take_cancelled
cancel_token st = take_cancelled (cancel st.token) st

-- Shutdown, up to WaitForJobs.
unfoldable pub shutdown : RegistryState → RegistryState
unfolding close cancel_token
shutdown st = cancel_token (close st)
