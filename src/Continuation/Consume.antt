-- ===== src/Continuation/Consume.antt =====
-- The record of what a wake consumed: record_continuation_consumed of src/control/db.py.
use ai_team.Prelude.{ℕ, String, none, some, List, ◌∷◌, update_where, []}
use ai_team.Case.{wait_group, worker_wait_resolved, blank, Ledger}
use ai_team.Case.Flow.{append_flow_event}
use ai_team.Mesh.{TaskId, same_id, Task, completed}

-- The markers of the groups that a wake discharges.
unfoldable pub retire_groups : ℕ → String → String → List String → Ledger → Ledger
retire_groups now flow_run_id actor [] l = l
retire_groups now flow_run_id actor (gid ∷ gids) l =
    retire_groups now flow_run_id actor gids
      (append_flow_event now flow_run_id worker_wait_resolved actor none none (some wait_group)
        (some gid)
        (some (record blank { outcome = some "drained"; rest = ("wait_group_id", gid) ∷ [] })) l).0

unfoldable pub set_consumed : ℕ → ℕ → List String → Task → Task
set_consumed now generation consumed t = record t {
  status = completed;
  result = some (record { generation = some generation; consumed_task_ids = consumed; rest = "" });
  completed_at = some now;
  updated_at = now;
}

unfoldable pub consume_row : ℕ → TaskId → ℕ → List String → List Task → List Task
consume_row now continuation_id generation consumed =
    update_where (λ t. same_id t.id continuation_id) (set_consumed now generation consumed)

unfoldable pub record_continuation_consumed :
    (now : ℕ) (flow_run_id : String) (continuation_id : TaskId) (generation : ℕ)
    (consumed retired : List String) (actor : String)
    → Ledger × List Task
    → Ledger × List Task
unfolding retire_groups consume_row
record_continuation_consumed now flow_run_id continuation_id generation consumed retired actor
      (l, tasks) =
    (
      retire_groups now flow_run_id actor retired l,
      consume_row now continuation_id generation consumed tasks,
    )
