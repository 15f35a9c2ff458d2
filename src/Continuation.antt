-- ===== src/Continuation.antt =====
-- The autonomous continuation of a Case, from src/control/db.py: wait-groups, and the consumed
-- watermark that the continuation rows of `mesh_tasks` hold. The flag CASE_CONTINUATION_ENABLED and
-- `str.upper` are arguments.
pub mod Tick
pub mod Consume
pub mod Wake
pub mod Once
pub mod Brief
pub mod Boot
use ai_team.Prelude.{
  ℕ, ◌+◌, max, String, Bool, false, ◌&&◌, ◌||◌, not, Option, none, some, List, ◌∷◌, ◌++◌,
  if◌then◌else◌, str_eq, same_text?, or_else, [],
}
use ai_team.Case.{EntityType, task, wait_group, worker_wait_pending, blank, FlowEvent, Ledger}
use ai_team.Case.Flow.{same_entity, append_flow_event, list_flow_events}
use ai_team.Case.Waits.{is_wait_pending, is_wait_resolved}
use ai_team.Mesh.{plain, continuation, respawn, Task, is_completed, TaskResult, continuation_action}

abbrev pub is_group : Option EntityType → Bool
is_group none = false
is_group (some t) = same_entity t wait_group

abbrev pub is_task : Option EntityType → Bool
is_task none = false
is_task (some t) = same_entity t task

-- The live marker of a group, as for a task, but among the events of wait-groups.
unfoldable pub live_group : String → List FlowEvent → Option FlowEvent → Option FlowEvent
live_group gid [] existing = existing
live_group gid (e ∷ es) existing = live_group gid es (
    if not (is_group e.entity_type && same_text? e.entity_id (some gid))
    then existing
    else if is_wait_pending e.event_type
    then some e
    else if is_wait_resolved e.event_type
    then none
    else existing)

-- The condition that is stored: ANY for one that is not known, or not given.
unfoldable pub known_condition : (String → String) → Option String → String
known_condition upper condition =
    let given = or_else condition "ANY" in
    let word = upper (if str_eq given "" then "ANY" else given) in
    if str_eq word "ANY" || (str_eq word "ALL" || str_eq word "NAMED") then word else "ANY"

unfoldable pub arm_wait_group :
    (enabled : Bool) (upper : String → String) (now : ℕ) (flow_run_id wait_group_id : String)
    (condition : Option String) (members : List String) (actor : String)
    → Ledger
    → Ledger × Option ℕ
unfolding live_group
arm_wait_group enabled upper now flow_run_id wait_group_id condition members actor l =
    if not enabled
    then (l, none)
    else elim (live_group wait_group_id (list_flow_events flow_run_id l) none) [
      | some e ↦ (l, some e.id)
      | none ↦
          let (l', id) =
            append_flow_event now flow_run_id worker_wait_pending actor none none (some wait_group)
              (some wait_group_id)
              (some (record blank {
                condition = some (known_condition upper condition);
                member_task_ids = members;
                rest = ("wait_group_id", wait_group_id) ∷ [];
              }))
              l in
          (l', some id)
    ]

-- The rows of list_continuation_rows, and the generation that their id ends in.
unfoldable pub generation_of : String → Task → Option ℕ
generation_of case_id t =
    if str_eq t.action continuation_action
    then elim t.id [
      | continuation c g ↦ if str_eq c case_id then some g else none
      | plain s ↦ none
      | respawn c g ↦ none
    ]
    else none

pub record Watermark : Type 0 where
  pub consumed : List String
  pub completed_rounds : ℕ
  pub highest_generation : ℕ

abbrev pub result_ids : Option TaskResult → List String
result_ids none = []
result_ids (some r) = r.consumed_task_ids

-- What one row adds.
unfoldable pub add_row : String → Task → Watermark → Watermark
add_row case_id t w = elim (generation_of case_id t) [
  | none ↦ w
  | some g ↦ record {
    consumed = if is_completed t.status then result_ids t.result ++ w.consumed else w.consumed;
    completed_rounds = if is_completed t.status then w.completed_rounds + 1 else w.completed_rounds;
    highest_generation = max g w.highest_generation;
  }
]

unfoldable pub continuation_watermark : String → List Task → Watermark
continuation_watermark case_id [] = record {
  consumed = [];
  completed_rounds = 0;
  highest_generation = 0;
}
continuation_watermark case_id (t ∷ ts) = add_row case_id t (continuation_watermark case_id ts)
