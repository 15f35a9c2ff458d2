-- ===== src/Tests/Truths.antt =====
-- What src/core/task_state_truth.py says of a claimed task on the tables of the queue.
use ai_team.Prelude.{◌≡◌, [], ◌∷◌, true, false, none, some, exists, str_eq}
use ai_team.Mesh.{Node, plain, object, no_details, same_id}
use ai_team.Mesh.Stale.{is_active_on, mismatch}
use ai_team.Sessions.{non_empty}
use ai_team.Lifecycle.Truth.{Evidence, derive_task_execution_state}
use ai_team.Lifecycle.Truth.Running.{runs, vouches, runs_on_worker_iff}
use ai_team.Tests.Mesh.{held, restarted_node}

-- The claimer, that was not restarted and lists the task.
abbrev claimer : Node
claimer = record restarted_node {
  incarnation_id = some "i1";
  live_state = some (object (plain "t2" ∷ []) no_details);
  live_state_updated_at = some 8;
}

abbrev evidence : Evidence
evidence = record {
  session = none;
  node = some claimer;
  turn = none;
  approval_pending = false;
  cancel_requested = false;
  recovery_evidence = false;
}

runs_on_worker_iff_example : runs (derive_task_execution_state 9 90 300 held evidence) ≡ true
unfolding vouches is_active_on exists same_id mismatch str_eq non_empty
runs_on_worker_iff_example = runs_on_worker_iff 9 90 300 held evidence
