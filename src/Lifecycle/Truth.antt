-- ===== src/Lifecycle/Truth.antt =====
-- What is known of the execution of a task: derive_task_execution_state of
-- src/core/task_state_truth.py. The texts of the answer (its reason, its time of observation and its
-- raw references) are left out.
pub mod Running
use ai_team.Prelude.{
  ℕ, ◌+◌, ◌*◌, String, Bool, true, false, ◌&&◌, ◌||◌, not, Option, none, some, [], leb,
  if◌then◌else◌, str_eq,
}
use ai_team.Mesh.{
  TaskId, Task, TaskStatus, pending, failed_node_offline, unreadable, object, NodeStatus, offline,
  Node,
}
use ai_team.Mesh.Stale.{second, is_active_on, mismatch}
use ai_team.Sessions.{Session, SessionStatus, awaiting_input, non_empty}

pub data TruthState : Type 0 where
  accepted queued claimed worker_running backend_running waiting_for_input : TruthState
  waiting_for_approval cancel_requested cancelled completed failed detached : TruthState
  stale_claim worker_unknown recovered driver_lost : TruthState

pub data Confidence : Type 0 where
  high medium low : Confidence

pub data Source : Type 0 where
  mesh_task_terminal worker_live_state mesh_task_claim : Source
  telemetry_turn stale_claim_evidence mesh_task_status : Source

pub record Truth : Type 0 where
  pub state : TruthState
  pub confidence : Confidence
  pub source : Source
  pub stale_after : Option ℕ

abbrev pub found_as : TruthState → Confidence → Source → Truth
found_as state confidence source = record {
  state = state;
  confidence = confidence;
  source = source;
  stale_after = none;
}

-- The rows and flags beside the task; `turn` is the final_status of its telemetry.
pub record Evidence : Type 0 where
  pub session : Option Session
  pub node : Option Node
  pub turn : Option String
  pub approval_pending : Bool
  pub cancel_requested : Bool
  pub recovery_evidence : Bool

abbrev pub is_lost : Option Session → Bool
is_lost session = elim session [ none ↦ false | some s ↦ str_eq s.driver_status "lost" ]

abbrev pub waits_for_input : SessionStatus → Bool
waits_for_input awaiting_input = true
waits_for_input _ = false

abbrev pub has_input_due : Option Session → Bool
has_input_due session = elim session [ none ↦ false | some s ↦ waits_for_input s.status ]

abbrev pub is_offline : NodeStatus → Bool
is_offline offline = true
is_offline _ = false

-- A stamp that is there and at most `age` seconds old.
abbrev pub is_fresh_at : ℕ → ℕ → Option ℕ → Bool
is_fresh_at now age at = elim at [ none ↦ false | some t ↦ leb now (t + age * second) ]

-- `live_state` decodes to a dict, and is fresh.
abbrev pub is_live : ℕ → ℕ → Node → Bool
is_live now age n = is_fresh_at now age n.live_state_updated_at && elim n.live_state [
  | none ↦ false
  | some l ↦ elim l [ unreadable ↦ false | object active ds ↦ true ]
]

-- _live_state_has_task
abbrev pub lists_task : TaskId → Node → Bool
lists_task tid n = elim n.live_state [
  | none ↦ false
  | some l ↦ elim l [ unreadable ↦ false | object active ds ↦ is_active_on tid active ds ]
]

-- _add_seconds
abbrev pub after_seconds : ℕ → Option ℕ → Option ℕ
after_seconds seconds at = elim at [ none ↦ none | some t ↦ some (t + seconds * second) ]

-- The claim of a node whose row is there.
unfoldable pub claim_truth : (now max_age lease : ℕ) → Task → Node → Truth
claim_truth now max_age lease t n =
    let over = after_seconds lease t.claimed_at in
    let live_over = after_seconds max_age n.live_state_updated_at in
    if is_offline n.status
    then record (found_as worker_unknown medium stale_claim_evidence) { stale_after = over }
    else if mismatch (non_empty t.claimer_incarnation) (non_empty n.incarnation_id)
    then record (found_as stale_claim high stale_claim_evidence) { stale_after = over }
    else if is_live now max_age n && lists_task t.id n
    then record (found_as worker_running high worker_live_state) { stale_after = live_over }
    else if is_live now max_age n
    then record (found_as detached high stale_claim_evidence) { stale_after = live_over }
    else if not (leb now (n.last_heartbeat + max_age * second))
    then record (found_as worker_unknown medium stale_claim_evidence) { stale_after = over }
    else if is_fresh_at now lease t.claimed_at
    then record (found_as TruthState.claimed medium mesh_task_claim) { stale_after = over }
    else record (found_as stale_claim medium stale_claim_evidence) { stale_after = over }

-- `if node_row is None`
unfoldable pub claimed_truth : (now max_age lease : ℕ) → Task → Option Node → Truth
unfolding claim_truth
claimed_truth now max_age lease t none =
    record (found_as worker_unknown medium stale_claim_evidence) {
      stale_after = after_seconds lease t.claimed_at;
    }
claimed_truth now max_age lease t (some n) = claim_truth now max_age lease t n

-- What the telemetry says of a status that nothing else explains.
unfoldable pub turn_truth : Option String → Truth
turn_truth none = found_as worker_unknown low mesh_task_status
turn_truth (some final) =
    if str_eq final "queued" || str_eq final "running"
    then found_as backend_running low telemetry_turn
    else if str_eq final "success"
    then found_as TruthState.completed low telemetry_turn
    else if str_eq final "failed"
    then found_as TruthState.failed low telemetry_turn
    else found_as worker_unknown low mesh_task_status

-- From the word `accepted` on.
unfoldable pub status_truth : (now max_age lease : ℕ) → Task → TaskStatus → Evidence → Truth
unfolding claimed_truth turn_truth
status_truth now max_age lease t TaskStatus.accepted e =
    found_as TruthState.accepted high mesh_task_status
status_truth now max_age lease t pending e = found_as queued high mesh_task_status
status_truth now max_age lease t TaskStatus.claimed e = claimed_truth now max_age lease t e.node
status_truth now max_age lease t _ e = turn_truth e.turn

abbrev pub asks_cancel : TaskStatus → Bool
asks_cancel TaskStatus.cancel_requested = true
asks_cancel _ = false

-- The guards between the terminal statuses and the word `accepted`.
unfoldable pub guarded_truth : (now max_age lease : ℕ) → Task → Evidence → Truth
unfolding status_truth
guarded_truth now max_age lease t e =
    if e.cancel_requested || asks_cancel t.status
    then found_as TruthState.cancel_requested (if e.cancel_requested then high else medium)
        mesh_task_status
    else if is_lost e.session
    then found_as driver_lost high mesh_task_status
    else if e.approval_pending
    then found_as waiting_for_approval high mesh_task_status
    else if has_input_due e.session
    then found_as waiting_for_input high mesh_task_status
    else status_truth now max_age lease t t.status e

unfoldable pub ended_truth : TaskStatus → Bool → Option Truth
ended_truth TaskStatus.completed recovery =
    some (found_as (if recovery then recovered else TruthState.completed) high mesh_task_terminal)
ended_truth TaskStatus.failed recovery = some (found_as TruthState.failed high mesh_task_terminal)
ended_truth failed_node_offline recovery = some (found_as TruthState.failed high mesh_task_terminal)
ended_truth TaskStatus.cancelled recovery =
    some (found_as TruthState.cancelled high mesh_task_terminal)
ended_truth _ recovery = none

unfoldable pub derive_task_execution_state : (now max_age lease : ℕ) → Task → Evidence → Truth
unfolding ended_truth guarded_truth
derive_task_execution_state now max_age lease t e =
    elim (ended_truth t.status e.recovery_evidence) [
      | some truth ↦ truth
      | none ↦ guarded_truth now max_age lease t e
    ]
