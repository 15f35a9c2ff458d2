-- ===== src/Mesh.antt =====
-- The rows of the mesh tables of src/control/db.py: `mesh_tasks` and `nodes`, and the ids of tasks.
-- A stamp that `_now()` writes is a number of microseconds, and `none` is SQL's NULL.
pub mod Queue
pub mod Nodes
pub mod Stale
use ai_team.Prelude.{
  ℕ, String, Bool, true, false, ◌&&◌, ◌≡◌, ap, Option, List, arith, str_eq, eq_of_str_eq,
  str_eq_refl, ◌==◌,
}

-- `id` of mesh_tasks. `continuation c g` is the text `cont:{c}:{g}`, `respawn c g` is
-- `respawn:{c}:{g}`, and `plain t` any other text t. A case id is a hex uuid, so holds no colon.
pub data TaskId : Type 0 where
  plain : String → TaskId
  continuation respawn : String → ℕ → TaskId

-- continuation_task_id
abbrev pub continuation_task_id : String → ℕ → TaskId
continuation_task_id case_id generation = continuation case_id generation

-- respawn_task_id
abbrev pub respawn_task_id : String → ℕ → TaskId
respawn_task_id case_id generation = respawn case_id generation

unfoldable pub same_id : TaskId → TaskId → Bool
same_id (plain s) (plain t) = str_eq s t
same_id (continuation c g) (continuation d h) = str_eq c d && (g == h)
same_id (respawn c g) (respawn d h) = str_eq c d && (g == h)
same_id _ _ = false

pub eq_of_same_id : (a b : TaskId) → same_id a b ≡ true → a ≡ b
unfolding same_id
eq_of_same_id (plain s) (plain t) h = ap plain (eq_of_str_eq s t h)
eq_of_same_id (continuation c g) (continuation d k) h = ground (arith, eq_of_str_eq c d)
eq_of_same_id (respawn c g) (respawn d k) h = ground (arith, eq_of_str_eq c d)
eq_of_same_id a b h = ground arith

pub same_id_refl : (a : TaskId) → same_id a a ≡ true
unfolding same_id
same_id_refl (plain s) = str_eq_refl s
same_id_refl (continuation c g) = ground (arith, str_eq_refl c)
same_id_refl (respawn c g) = ground (arith, str_eq_refl c)

-- The reserved machine and action of continuation rows.
abbrev pub continuation_machine_sentinel : String
continuation_machine_sentinel = "__manager_continuation__"

abbrev pub continuation_action : String
continuation_action = "manager_continuation"

-- RESPAWN_ACTION
abbrev pub respawn_action : String
respawn_action = "manager_respawn"

-- `status` of mesh_tasks, a constructor for each word that the code names.
pub data TaskStatus : Type 0 where
  pending claimed processing completed failed failed_node_offline cancelled : TaskStatus
  accepted cancel_requested : TaskStatus
  other : String → TaskStatus

abbrev pub is_pending : TaskStatus → Bool
is_pending pending = true
is_pending _ = false

abbrev pub is_claimed : TaskStatus → Bool
is_claimed claimed = true
is_claimed _ = false

abbrev pub is_completed : TaskStatus → Bool
is_completed completed = true
is_completed _ = false

-- `result`, a JSON object: the two keys that the code reads back, and the text of the others.
pub record TaskResult : Type 0 where
  pub generation : Option ℕ
  pub consumed_task_ids : List String
  pub rest : String

-- A row of mesh_tasks.
pub record Task : Type 0 where
  pub id : TaskId
  pub session_id : Option String
  pub machine_id : Option String
  pub backend : String
  pub action : String
  pub payload : String
  pub status : TaskStatus
  pub claimed_by : Option String
  pub claimed_at : Option ℕ
  pub claimer_incarnation : Option String
  pub result : Option TaskResult
  pub error : Option String
  pub artifact_path : Option String
  pub parent_task_id : Option String
  pub prompt : Option String
  pub reply_text : Option String
  pub usage_json : Option String
  pub files_modified_json : Option String
  pub created_at : ℕ
  pub updated_at : ℕ
  pub completed_at : Option ℕ

-- `active_task_details` of a live state, after json.loads: by key, as a list of items (an item
-- that is no object, or that has no task id, has `none`), or anything else. The number is
-- `started_at`.
pub data Details : Type 0 where
  no_details : Details
  keyed : List (TaskId × Option ℕ) → Details
  listed : List (Option TaskId × Option ℕ) → Details

-- What json.loads makes of `live_state`.
pub data LiveState : Type 0 where
  unreadable : LiveState
  object : List TaskId → Details → LiveState

pub data NodeStatus : Type 0 where
  online offline : NodeStatus
  other : String → NodeStatus

-- A row of nodes.
pub record Node : Type 0 where
  pub node_id : String
  pub tailscale_ip : String
  pub api_port : ℕ
  pub backends : List String
  pub max_concurrent : ℕ
  pub status : NodeStatus
  pub last_heartbeat : ℕ
  pub registered_at : ℕ
  pub updated_at : ℕ
  pub projects_root : String
  pub repos : List String
  pub incarnation_id : Option String
  pub live_state : Option LiveState
  pub live_state_updated_at : Option ℕ
