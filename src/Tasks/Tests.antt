-- ===== src/Tasks/Tests.antt =====
-- Runs of the models of src/background-tasks.cpp.
use obs_trigglow_dynamic_del.Prelude.{
  ◌+◌, ◌<◌, ◌≡◌, refl, ◌⊎◌, ◌↔◌, true, false, not, ◌||◌, none, some, List, [], ◌∷◌, is_empty,
  length, u64_mod, arith,
}
use obs_trigglow_dynamic_del.Tasks.{
  RegistryState, make, close, shutdown, deliver, drain, start_job, put_group, change_group, post,
}
use obs_trigglow_dynamic_del.Tasks.Token.{subscribe, fresh}
use obs_trigglow_dynamic_del.Tasks.Ops.{
  Op, start, offer, begin_drain, next, construct, run, make_group, close_group, group_done,
}
use obs_trigglow_dynamic_del.Tasks.Quiet.{received, nothing_delivered_after}
use obs_trigglow_dynamic_del.Tasks.Even.{owned}
use obs_trigglow_dynamic_del.Tasks.Counts.{counters_count_jobs}
use obs_trigglow_dynamic_del.Tasks.Parts.{is_awaited}
use obs_trigglow_dynamic_del.Tasks.Wake.{no_result_forgotten}
use obs_trigglow_dynamic_del.Tasks.Follow.{shutdown-AllCancelled}
use obs_trigglow_dynamic_del.Tasks.Cancel.{AllCancelled}

-- A group with a job that has posted two results, one of which has been delivered.
abbrev opening : List Op
opening =
    construct
    ∷ start (some 0) true true
    ∷ offer (some 0) (some 7) false
    ∷ offer (some 0) (some 8) false
    ∷ begin_drain
    ∷ next false
    ∷ []

abbrev open_state : RegistryState
open_state = run opening (make true)

one_delivered : received 0 open_state.delivered ≡ 1
unfolding run make deliver drain make_group subscribe fresh start_job put_group change_group post
one_delivered = refl

one_group : open_state.made ≡ 1
unfolding run make deliver drain make_group subscribe fresh start_job put_group change_group post
one_group = refl

open_state_made : 0 < open_state.made
open_state_made = omega (arith, one_group)

-- The rest of the Drain and another job.
abbrev closing : List Op
closing =
    next false ∷ start none true true ∷ offer none (some 9) false ∷ begin_drain ∷ next true ∷ []

nothing_delivered_after_example :
    (received 0 (run closing (close_group 0 open_state)).delivered
      ≡ received 0 open_state.delivered)
    × ((run closing (close open_state)).delivered ≡ open_state.delivered)
nothing_delivered_after_example = nothing_delivered_after closing 0 open_state open_state_made

one_job : length open_state.jobs ≡ 1
unfolding run make deliver drain make_group subscribe fresh start_job put_group change_group post
one_job = refl

few_jobs : length open_state.jobs < u64_mod
few_jobs = omega (arith, one_job)

counters_count_jobs_example :
    (open_state.running ≡ length open_state.jobs)
    × ((open_state.groups 0).running ≡ owned 0 open_state.jobs)
    × ((group_done 0 open_state ≡ true) ↔ (owned 0 open_state.jobs ≡ 0))
counters_count_jobs_example = counters_count_jobs opening true 0 few_jobs

no_result_forgotten_example :
    ((is_empty open_state.queue ≡ true) ⊎ (is_awaited open_state.turns ≡ true))
    × ((not open_state.shut_down || is_empty open_state.queue) ≡ true)
no_result_forgotten_example = no_result_forgotten opening refl

short_runs : length opening + length closing + 1 < u64_mod
short_runs = omega arith

shutdown-AllCancelled_example : AllCancelled (run closing (shutdown open_state))
shutdown-AllCancelled_example = shutdown-AllCancelled opening closing true short_runs
