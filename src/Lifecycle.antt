-- ===== src/Lifecycle.antt =====
-- The state of a task that the inbox shows, from src/core/task_lifecycle.py.
pub mod Inbox
pub mod Truth
use ai_team.Prelude.{Bool, true, false, Option, some, if◌then◌else◌}
use ai_team.Sessions.{SessionStatus, awaiting_input, error}
use ai_team.Mesh.{TaskStatus, pending, claimed, processing, completed, failed_node_offline}

-- The canonical states.
pub data TaskState : Type 0 where
  queued dispatching running waiting_for_input waiting_for_approval : TaskState
  succeeded failed cancelled connection_unknown : TaskState

pub data Section : Type 0 where
  attention running queued failed recent : Section

-- _MESH_STATE.get(mesh_status, CONNECTION_UNKNOWN)
unfoldable pub mesh_state : TaskStatus → TaskState
mesh_state pending = TaskState.queued
mesh_state claimed = dispatching
mesh_state processing = TaskState.running
mesh_state completed = succeeded
mesh_state TaskStatus.failed = TaskState.failed
mesh_state failed_node_offline = TaskState.failed
mesh_state TaskStatus.cancelled = TaskState.cancelled
mesh_state _ = connection_unknown

-- base in _TERMINAL
unfoldable pub is_terminal : TaskState → Bool
is_terminal succeeded = true
is_terminal TaskState.failed = true
is_terminal TaskState.cancelled = true
is_terminal _ = false

unfoldable pub overlaid : TaskState → Option SessionStatus → TaskState
overlaid base (some awaiting_input) = waiting_for_input
overlaid base (some error) = TaskState.failed
overlaid base _ = base

unfoldable pub derive_task_state : TaskStatus → Option SessionStatus → TaskState
unfolding mesh_state is_terminal overlaid
derive_task_state mesh_status session_status =
    let base = mesh_state mesh_status in
    if is_terminal base then base else overlaid base session_status

unfoldable pub section_for_state : TaskState → Section
section_for_state waiting_for_input = attention
section_for_state waiting_for_approval = attention
section_for_state connection_unknown = attention
section_for_state TaskState.running = Section.running
section_for_state dispatching = Section.running
section_for_state TaskState.queued = Section.queued
section_for_state TaskState.failed = Section.failed
section_for_state _ = recent
