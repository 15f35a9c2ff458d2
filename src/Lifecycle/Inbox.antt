-- ===== src/Lifecycle/Inbox.antt =====
-- Where a task stands in the inbox as it is claimed, completed and failed: derive_task_state and
-- section_for_state of src/core/task_lifecycle.py, over the queue of src/control/db.py.
use mathlib.Core.Option
use ai_team.Prelude.{
  ℕ, String, ◌≡◌, refl, sym, ap, ◌∙◌, ◌↔◌, true, Option, none, some, List, arith, update_where,
  first_holds, first-update_same,
}
use ai_team.Lifecycle.{
  Section, attention, recent, mesh_state, is_terminal, overlaid, derive_task_state,
  section_for_state,
}
use ai_team.Sessions.{
  SessionStatus, idle, busy, awaiting_input, error, closed, paused_pinned_node_offline,
  pinned_node_offline,
}
use ai_team.Mesh.{
  TaskId, Task, TaskStatus, claimed, completed, failed_node_offline, TaskResult, Node,
}
use ai_team.Mesh.Queue.{
  has_id, set_claimed, claim_task, complete_task, fail_task, get_task, claimable, incarnation_of,
}
use ai_team.Mesh.Queue.Claims.{get_task-claim_task}

-- The section of a task of the table, for a session status.
unfoldable pub section_of : Option SessionStatus → TaskId → List Task → Option Section
section_of s i tasks =
    Option.map (λ t. section_for_state (derive_task_state t.status s)) (get_task i tasks)

section_of-status :
    (s : Option SessionStatus) (i : TaskId) (tasks : List Task) (t : Task)
    → get_task i tasks ≡ some t
    → section_of s i tasks ≡ some (section_for_state (derive_task_state t.status s))
unfolding section_of
section_of-status s i tasks t found = rw found refl

ended_section :
    (i : TaskId) (p : Task → Task) (tasks : List Task) (t : Task) (s : Option SessionStatus)
    (e : TaskStatus)
    → ((x : Task) → (p x).id ≡ x.id)
    → ((x : Task) → (p x).status ≡ e)
    → get_task i tasks ≡ some t
    → section_of s i (update_where (has_id i) p tasks)
      ≡ some (section_for_state (derive_task_state e s))
unfolding get_task
ended_section i p tasks t s e same set found =
    let mine = first_holds (has_id i) tasks t found in
    let after : get_task i (update_where (has_id i) p tasks) ≡ some (p t) =
      unfold get_task in
      (first-update_same (has_id i) p tasks (λ x h. rw (same x) h) ∙ ap (Option.map p) found) in
    section_of-status s i (update_where (has_id i) p tasks) (p t) after
    ∙ ap (λ st. some (section_for_state (derive_task_state st s))) (set t)

-- A task of the table that completes, or that fails with its node, leaves the sections of live work
-- for good, whatever its session says: it stands among the recent, or among the failed.
pub ended_sections :
    (now : ℕ) (i : TaskId) (tasks : List Task) (t : Task) (s : Option SessionStatus)
    (r : TaskResult) (artifact : Option String) (why : String)
    → get_task i tasks ≡ some t
    → (section_of s i (complete_task now i r artifact tasks) ≡ some recent)
      × (section_of s i (fail_task now i why failed_node_offline none artifact tasks)
          ≡ some Section.failed)
unfolding complete_task fail_task
ended_sections now i tasks t s r artifact why found = (
  ended_section i _ tasks t s completed (λ x. refl) (λ x. refl) found
      ∙ unfold derive_task_state mesh_state is_terminal section_for_state in refl,
  ended_section i _ tasks t s failed_node_offline (λ x. refl) (λ x. refl) found
      ∙ unfold derive_task_state mesh_state is_terminal section_for_state in refl,
)

claimed_iff :
    (s : Option SessionStatus)
    → (some (section_for_state (derive_task_state claimed s)) ≡ some attention)
      ↔ (s ≡ some awaiting_input)
unfolding derive_task_state mesh_state is_terminal overlaid section_for_state
claimed_iff none = (λ h. absurd (ground (arith, h)), λ h. absurd (ground (arith, h)))
claimed_iff (some awaiting_input) = (λ h. refl, λ h. refl)
claimed_iff (some error) = (λ h. absurd (ground (arith, h)), λ h. absurd (ground (arith, h)))
claimed_iff (some idle) = (λ h. absurd (ground (arith, h)), λ h. absurd (ground (arith, h)))
claimed_iff (some busy) = (λ h. absurd (ground (arith, h)), λ h. absurd (ground (arith, h)))
claimed_iff (some SessionStatus.cancelled) =
    (λ h. absurd (ground (arith, h)), λ h. absurd (ground (arith, h)))
claimed_iff (some closed) = (λ h. absurd (ground (arith, h)), λ h. absurd (ground (arith, h)))
claimed_iff (some paused_pinned_node_offline) =
    (λ h. absurd (ground (arith, h)), λ h. absurd (ground (arith, h)))
claimed_iff (some pinned_node_offline) =
    (λ h. absurd (ground (arith, h)), λ h. absurd (ground (arith, h)))

-- A task that a node has just claimed asks for attention exactly while its session awaits input.
pub claimed_attention :
    (now : ℕ) (i : TaskId) (node : String) (nodes : List Node) (tasks : List Task) (t : Task)
    (s : Option SessionStatus)
    → get_task i tasks ≡ some t
    → claimable i t ≡ true
    → (section_of s i (claim_task now i node nodes tasks).0 ≡ some attention)
      ↔ (s ≡ some awaiting_input)
claimed_attention now i node nodes tasks t s found waiting =
    let u = set_claimed now node (incarnation_of node nodes) t in
    let after : get_task i (claim_task now i node nodes tasks).0 ≡ some u =
      rw (get_task-claim_task now i node nodes tasks, found) (ground (arith, waiting)) in
    let shown : section_of s i (claim_task now i node nodes tasks).0
        ≡ some (section_for_state (derive_task_state claimed s)) =
      section_of-status s i (claim_task now i node nodes tasks).0 u after
      ∙ unfold set_claimed in refl in
    (λ h. (claimed_iff s).0 (sym shown ∙ h), λ h. shown ∙ (claimed_iff s).1 h)
