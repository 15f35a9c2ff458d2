-- ===== src/Lib.antt =====
-- AI-team: a gateway that dispatches the work of agents to a mesh of nodes and keeps Cases, units
-- of managed work, open until their results, reviews and approvals are in. All of the state that
-- is modelled is in the sqlite tables of src/control/db.py, whose methods (class MeshDB) are the
-- operations; the processes around it (the task server, the orchestrator, the workers) call them.
-- Of the orchestrator the Wake-Dispatcher is modelled, which keeps the open Cases going.
--
-- Parts, and the files that model them:
--   Mesh            rows of `mesh_tasks` and `nodes`, and the deterministic task ids
--   Mesh/Queue      enqueue_task, claim_task, release_task, release_node_claims, complete_task,
--                   fail_task, record_proactive_turn, get_pending_tasks
--   Mesh/Nodes      upsert_node, heartbeat_node, mark_node_offline
--   Mesh/Stale      list_stale_claims with _stale_online_claim_reason, and one round of
--                   _stale_claim_reaper_loop of src/control/task_server.py
--   Case            rows of `flow_runs`, `flow_links`, `flow_events` and `approvals`
--   Case/Flow       their writes and reads, and find_open_case_for_session
--   Case/Criteria   _compose_completion_criteria, _parse_completion_criteria, case_round_cap,
--                   _unreconciled_criteria
--   Case/Close      open_case, _case_has_unresolved_approval, close_case
--   Case/Waits      record_worker_wait, reconcile_worker_waits
--   Case/Approvals  create_approval, resolve_approval, and request and resolve of
--                   src/services/approval_service.py
--   Continuation    arm_wait_group, continuation_watermark; its children Tick and Consume hold
--                   compute_continuation_tick and record_continuation_consumed
--   Case/Spec       _score_spec_review, record_spec_review, latest_spec_review, and the gate of
--                   decompose_case that reads it; its children Plan and Publish hold
--                   _topological_order and decompose_case, and publish_artifact, publish_spec and
--                   list_dag_tasks
--   Continuation/Brief, Continuation/Boot
--                   get_case_brief and boot_reconcile_case
--   Sessions        the table `sessions`: upsert_session, set_session_case and
--                   mark_driver_sessions_lost_for_node, with the store of
--                   src/services/session_store.py; its children Service and Create hold the
--                   commands of src/services/session_service.py
--   Orchestrator    the Wake-Dispatcher of src/orchestrator.py: _escalate_headless_case and
--                   _set_session_case_affiliation; its child Wake holds
--                   _wake_dispatcher_tick_once and _continue_case_once, Respawn holds
--                   _respawn_manager_for_case, Submit holds submit_instruction with _enqueue_task and
--                   _record_flow_run_start, and Kill holds interrupt_case
--   Jobs            register_job, start_job, record_job_probe, complete_job, fail_job
--   Lifecycle       derive_task_state and section_for_state of src/core/task_lifecycle.py; its
--                   child Truth holds derive_task_execution_state of
--                   src/core/task_state_truth.py
--   Prelude         Boolean tests, texts, and tables as lists of rows
--   Tests           small inputs and runs on them
-- The children of a part hold the proofs about it.
--
-- How the parts interact: a Case names tasks, sessions and approvals by links; a finished task is
-- an event of its Case; the tick of a Case reads its events and the continuation rows of the
-- dispatch queue, on which a wake is claimed like any task; closing a Case reads its children, its
-- approvals, its criteria and its events; an approval of a task is linked to the Case of the task.
-- The dispatcher takes the tick of each open Case, and wakes the session of its last manager link
-- under the lease of the round; a session that is over is replaced under a lease of its own.
--
-- Conventions. A method takes the tables that it reads or writes and returns the new tables with
-- its result; a transaction of sqlite is one step, so a race is a list of calls. `now` is the stamp
-- of `_now()` in microseconds, and ids of uuid4 are arguments. A table is a list of rows in the
-- order of insertion, and a LIMIT takes a prefix. NULL and None are `none`. A JSON column is the
-- value that json.loads gives, by the keys that the code reads. Feature flags are arguments. A
-- loop of the code runs over a list but for the `while` loop of _topological_order, which runs on
-- fuel: as many turns as there are keys, since each turn takes a key off the ready ones and a key
-- becomes ready once (Case/Spec/Plan/Fuel).
--
-- Parameters: json, `str` of JSON values and `str.lower` (record Python of Case/Criteria), and
-- `str.upper` in Continuation. What the dispatcher uses beyond the tables is the record Env of
-- Orchestrator: among it the ids of a turn that is submitted, and whether its task can be made and
-- finds a place in the queue of the process.
-- Their hypotheses say that json.loads raises on a text of white characters, that json.dumps writes
-- an object from its brace on, and, for a value at hand, that json.loads reads what json.dumps
-- wrote of it; and, where a Case is killed, that lower-casing leaves the word blocked as it is.
--
-- Not modelled: engine failures of sqlite (the handlers log them), log lines, HTTP, Telegram and
-- process glue, the agent backends, telemetry and cost reports, the JSON mirror of the sessions,
-- what runs the turns in the queue of the process, and the wait for a woken turn to return, the web client.
pub mod Prelude
pub mod Case
pub mod Mesh
pub mod Continuation
pub mod Jobs
pub mod Sessions
pub mod Orchestrator
pub mod Lifecycle
pub mod Tests
