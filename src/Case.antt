-- ===== src/Case.antt =====
-- The work-control tables of src/control/db.py: `flow_runs` (the Cases), `flow_links`,
-- `flow_events` and `approvals`. A stamp is a number of microseconds; `none` is SQL's NULL.
pub mod Flow
pub mod Criteria
pub mod Close
pub mod Waits
pub mod Approvals
pub mod Spec
use ai_team.Prelude.{ℕ, String, Bool, Option, none, List, []}

-- The values of the columns and keys that the code names; `other` is any further text.
pub data EntityType : Type 0 where
  task session approval artifact job flow wait_group : EntityType
  other : String → EntityType

pub data EventType : Type 0 where
  flow_created flow_closed flow_status_changed flow_interrupted : EventType
  task_finished worker_wait_pending worker_wait_resolved : EventType
  review_accepted review_rework_requested review_waived : EventType
  artifact_published spec_authored spec_review_scored case_decomposed : EventType
  approval_requested approval_resolved : EventType
  case_manager_unavailable case_manager_respawned : EventType
  other : String → EventType

-- The dimensions of a spec review, SPEC_REVIEW_DIMENSIONS, in their order.
pub data Dimension : Type 0 where
  objective_clarity scope_boundaries decomposability : Dimension
  acceptance_testability dependency_correctness risks_and_assumptions : Dimension

-- What _score_spec_review returns.
pub record Grade : Type 0 where
  pub total : ℕ
  pub passed : Bool
  pub critical_zero : List Dimension
  pub missing : List Dimension
  pub out_of_range : List Dimension

-- `payload_json` after json.loads: the keys that the code reads back, and the others as text.
pub record Payload : Type 0 where
  pub outcome : Option String
  pub condition : Option String
  pub member_task_ids : List String
  pub timeout : Option ℕ
  pub card : Option Grade
  pub rest : List (String × String)

abbrev pub blank : Payload
blank = record {
  outcome = none;
  condition = none;
  member_task_ids = [];
  timeout = none;
  card = none;
  rest = [];
}

-- A row of flow_runs. The columns of _FLOW_EXTRA_FIELDS are those from `approved_plan` on.
pub record FlowRun : Type 0 where
  pub flow_run_id : String
  pub task_id : Option String
  pub current_stage : Option String
  pub objective_lock : Option String
  pub created_at : ℕ
  pub updated_at : Option ℕ
  pub approved_plan : Option String
  pub plan_review : Option String
  pub burn_down_items : Option String
  pub execution_result : Option String
  pub implementation_review : Option String
  pub waived_findings : Option String
  pub closure_summary : Option String
  pub role_assignments : Option String
  pub artifact_links : Option String
  pub status : Option String
  pub parent_flow_run_id : Option String
  pub dispatched_by : Option String
  pub dispatch_file : Option String
  pub completion_criteria : Option String

pub record FlowLink : Type 0 where
  pub id : ℕ
  pub flow_run_id : String
  pub entity_type : EntityType
  pub entity_id : String
  pub role : String
  pub created_at : ℕ
  pub created_by : Option String
  pub objective : Option String
  pub depends_on : List String
  pub metadata : List (String × String)

pub record FlowEvent : Type 0 where
  pub id : ℕ
  pub flow_run_id : String
  pub event_type : EventType
  pub actor : String
  pub from_state : Option String
  pub to_state : Option String
  pub entity_type : Option EntityType
  pub entity_id : Option String
  pub payload : Option Payload
  pub created_at : ℕ

pub data ApprovalStatus : Type 0 where
  pending approved rejected expired : ApprovalStatus
  other : String → ApprovalStatus

pub record Approval : Type 0 where
  pub id : String
  pub session_id : Option String
  pub task_id : Option String
  pub action : String
  pub risk : String
  pub reversible : Bool
  pub status : ApprovalStatus
  pub requested_by : String
  pub payload : Option String
  pub created_at : ℕ
  pub expires_at : Option String
  pub resolved_by : Option String
  pub resolved_at : Option ℕ

-- The tables, and the next values of their AUTOINCREMENT ids.
pub record Ledger : Type 0 where
  pub runs : List FlowRun
  pub links : List FlowLink
  pub events : List FlowEvent
  pub approvals : List Approval
  pub next_link : ℕ
  pub next_event : ℕ
