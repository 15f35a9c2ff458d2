-- ===== src/Mesh/Stale.antt =====
-- Which claims have expired: list_stale_claims of src/control/db.py with its helper, and what the
-- reaper of src/control/task_server.py does about them. Ages are compared in microseconds without
-- a subtraction: `now - t > s` is `t + s < now`.
pub mod Evidence
pub mod Reaper
pub mod Restart
use ai_team.Prelude.{
  ℕ, ◌+◌, ◌*◌, String, Bool, true, false, ◌||◌, not, Option, none, some, List, ◌∷◌, str_eq,
  if◌then◌else◌, ltb, leb, exists, first, [],
}
use ai_team.Mesh.{
  TaskId, same_id, Task, failed, is_claimed, Node, NodeStatus, online, offline, unreadable, object,
  Details, no_details, keyed, listed,
}
use ai_team.Mesh.Queue.{release_task, fail_task}

abbrev pub second : ℕ
second = 1000000

pub data StaleReason : Type 0 where
  node_missing node_offline incarnation_mismatch : StaleReason
  missing_from_live_state active_task_over_max_runtime : StaleReason

-- str(task_id) in details, for the dict that `details` is turned into.
unfoldable pub has_detail : TaskId → Details → Bool
has_detail tid no_details = false
has_detail tid (keyed ds) = exists (λ d. same_id d.0 tid) ds
has_detail tid (listed ds) = exists (λ d. elim d.0 [ none ↦ false | some i ↦ same_id i tid ]) ds

-- The `started_at` of the last item for the task, as a dict comprehension keeps the last.
unfoldable pub last_started : TaskId → List (Option TaskId × Option ℕ) → Option ℕ → Option ℕ
last_started tid [] found = found
last_started tid ((none, at) ∷ ds) found = last_started tid ds found
last_started tid ((some i, at) ∷ ds) found =
    last_started tid ds (if same_id i tid then at else found)

unfoldable pub detail_started : TaskId → Details → Option ℕ
unfolding last_started
detail_started tid no_details = none
detail_started tid (keyed ds) = elim (first (λ d. same_id d.0 tid) ds) [
  | none ↦ none
  | some d ↦ d.1
]
detail_started tid (listed ds) = last_started tid ds none

unfoldable pub is_active_on : TaskId → List TaskId → Details → Bool
is_active_on tid active details = exists (λ i. same_id i tid) active || has_detail tid details

-- `cls._parse_dt(started_raw) or cls._parse_dt(row["claimed_at"])`, then the hard runtime cap.
unfoldable pub runtime_reason : ℕ → ℕ → Option ℕ → Option ℕ → Option StaleReason
runtime_reason now max_runtime started claimed_at = elim started [
  | some t ↦ if ltb (t + max_runtime * second) now then some active_task_over_max_runtime else none
  | none ↦ elim claimed_at [
    | some t ↦
        if ltb (t + max_runtime * second) now then some active_task_over_max_runtime else none
    | none ↦ none
  ]
]

unfoldable pub object_reason :
    ℕ → ℕ → TaskId → Option ℕ → List TaskId → Details → Option StaleReason
unfolding runtime_reason
object_reason now max_runtime tid claimed_at active details =
    if not (is_active_on tid active details)
    then some missing_from_live_state
    else if leb max_runtime 0
    then none
    else runtime_reason now max_runtime (detail_started tid details) claimed_at

-- _stale_online_claim_reason
unfoldable pub stale_online_claim_reason :
    (now live_state_max_age_sec max_runtime : ℕ) → Task → Node → Option StaleReason
unfolding object_reason
stale_online_claim_reason now max_age max_runtime t n = elim n.live_state [
  | none ↦ none
  | some live ↦ elim n.live_state_updated_at [
    | none ↦ none
    | some updated ↦ if ltb (updated + max_age * second) now then none else elim live [
      | unreadable ↦ none
      | object active details ↦ object_reason now max_runtime t.id t.claimed_at active details
    ]
  ]
]

-- Both incarnations are known, and they differ.
unfoldable pub mismatch : Option String → Option String → Bool
mismatch (some claimer) (some current) = not (str_eq current claimer)
mismatch _ _ = false

unfoldable pub online_reason : ℕ → ℕ → ℕ → Task → Node → Option StaleReason
unfolding stale_online_claim_reason
online_reason now max_age max_runtime t n =
    if mismatch t.claimer_incarnation n.incarnation_id
    then some incarnation_mismatch
    else stale_online_claim_reason now max_age max_runtime t n

-- The branches on the joined node's status.
unfoldable pub node_reason : ℕ → ℕ → ℕ → Task → Option Node → Option StaleReason
unfolding online_reason
node_reason now max_age max_runtime t none = some node_missing
node_reason now max_age max_runtime t (some n) = elim n.status [
  | offline ↦ some node_offline
  | online ↦ online_reason now max_age max_runtime t n
  | NodeStatus.other s ↦ none
]

-- LEFT JOIN nodes n ON t.claimed_by = n.node_id
unfoldable pub joined : List Node → Task → Option Node
joined nodes t = elim t.claimed_by [ none ↦ none | some c ↦ first (λ n. str_eq n.node_id c) nodes ]

-- The body of the loop, for a row that is claimed at a time.
unfoldable pub claim_reason :
    (now lease max_age max_runtime : ℕ) → List Node → Task → Option StaleReason
unfolding node_reason joined
claim_reason now lease max_age max_runtime nodes t =
    if is_claimed t.status
    then elim t.claimed_at [
      | none ↦ none
      | some at ↦
          if leb now (at + lease * second)
          then none
          else node_reason now max_age max_runtime t (joined nodes t)
    ]
    else none

unfoldable pub list_stale_claims :
    (now lease max_age max_runtime : ℕ) → List Node → List Task → List (Task × StaleReason)
list_stale_claims now lease max_age max_runtime nodes [] = []
list_stale_claims now lease max_age max_runtime nodes (t ∷ ts) =
    let rest = list_stale_claims now lease max_age max_runtime nodes ts in
    elim (claim_reason now lease max_age max_runtime nodes t) [
      | none ↦ rest
      | some r ↦ (t, r) ∷ rest
    ]

-- _should_release_stale_claim of src/control/task_server.py
unfoldable pub should_release_stale_claim : (now max_runtime : ℕ) → Task → StaleReason → Bool
should_release_stale_claim now max_runtime t missing_from_live_state =
    if leb max_runtime 0
    then false
    else elim t.claimed_at [ none ↦ false | some at ↦ leb (at + max_runtime * second) now ]
should_release_stale_claim now max_runtime t _ = true

-- The reaper's act on one reported row: `error` is the text of the failure that it records for
-- the value of `claimed_by`, and
-- `claimed_by` of a claimed row is never NULL.
unfoldable pub reap_row :
    (now max_runtime : ℕ) → (Option String → String) → Task × StaleReason → List Task → List Task
unfolding should_release_stale_claim
reap_row now max_runtime error (t, active_task_over_max_runtime) tasks =
    fail_task now t.id (error t.claimed_by) failed none none tasks
reap_row now max_runtime error (t, r) tasks =
    if not (should_release_stale_claim now max_runtime t r)
    then tasks
    else elim t.claimed_by [ none ↦ tasks | some owner ↦ (release_task now t.id owner tasks).0 ]

-- One round of _stale_claim_reaper_loop over the rows that list_stale_claims gave.
unfoldable pub reap :
    (now max_runtime : ℕ)
    → (Option String → String)
    → List (Task × StaleReason)
    → List Task
    → List Task
unfolding reap_row
reap now max_runtime error [] tasks = tasks
reap now max_runtime error (r ∷ rs) tasks =
    reap now max_runtime error rs (reap_row now max_runtime error r tasks)

unfoldable pub reaper_round :
    (now lease max_age max_runtime : ℕ)
    → (Option String → String)
    → List Node
    → List Task
    → List Task
unfolding reap list_stale_claims
reaper_round now lease max_age max_runtime error nodes tasks =
    reap now max_runtime error (list_stale_claims now lease max_age max_runtime nodes tasks) tasks
