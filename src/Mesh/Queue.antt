-- ===== src/Mesh/Queue.antt =====
-- The dispatch queue over `mesh_tasks`, from src/control/db.py: a method of MeshDB takes the table
-- and the time, and returns the new table with its result. sqlite is taken as working, so the
-- handlers that log an engine failure are left out; a duplicate id is the error that is modelled.
pub mod Claims
pub mod Invariant
pub mod Routing
pub mod Sweep
use mathlib.Core.Option
use ai_team.Prelude.{
  ℕ, String, Bool, true, ◌&&◌, ◌||◌, Option, none, some, List, ◌∷◌, ◌++◌, map, str_eq, same_text?,
  coalesce, if◌then◌else◌, leb, take, select, update_where, exists, first, member, [],
}
use ai_team.Mesh.{
  TaskId, same_id, Task, TaskResult, TaskStatus, pending, claimed, completed, is_pending,
  is_claimed, Node,
}

-- Row filters, as the WHERE clauses name them.
abbrev pub has_id : TaskId → Task → Bool
has_id tid t = same_id t.id tid

abbrev pub claimable : TaskId → Task → Bool
claimable tid t = same_id t.id tid && is_pending t.status

abbrev pub held_by : String → Task → Bool
held_by node t = same_text? t.claimed_by (some node) && is_claimed t.status

abbrev pub releasable : TaskId → String → Task → Bool
releasable tid node t = same_id t.id tid && held_by node t

-- INSERT INTO mesh_tasks: a duplicate id is refused, and the refusal is swallowed.
unfoldable pub insert_task : Task → List Task → List Task
insert_task row tasks = if exists (has_id row.id) tasks then tasks else tasks ++ (row ∷ [])

unfoldable pub enqueue_task :
    (now : ℕ) (task_id : TaskId) (session_id machine_id : Option String)
    (backend action payload : String) (artifact_path parent_task_id : Option String)
    → List Task
    → List Task
unfolding insert_task
enqueue_task now task_id session_id machine_id backend action payload artifact_path parent_task_id =
    insert_task (record {
      id = task_id;
      session_id = session_id;
      machine_id = machine_id;
      backend = backend;
      action = action;
      payload = payload;
      status = pending;
      claimed_by = none;
      claimed_at = none;
      claimer_incarnation = none;
      result = none;
      error = none;
      artifact_path = artifact_path;
      parent_task_id = parent_task_id;
      prompt = none;
      reply_text = none;
      usage_json = none;
      files_modified_json = none;
      created_at = now;
      updated_at = now;
      completed_at = none;
    })

unfoldable pub record_proactive_turn :
    (now : ℕ) (task_id : TaskId) (session_id backend : String) (machine_id : Option String)
    (reply_text : String) (usage : Option String)
    → List Task
    → List Task
unfolding insert_task
record_proactive_turn now task_id session_id backend machine_id reply_text usage =
    insert_task (record {
      id = task_id;
      session_id = some session_id;
      machine_id = machine_id;
      backend = backend;
      action = "proactive_turn";
      payload = "{}";
      status = completed;
      claimed_by = none;
      claimed_at = none;
      claimer_incarnation = none;
      result = none;
      error = none;
      artifact_path = none;
      parent_task_id = none;
      prompt = some "";
      reply_text = some reply_text;
      usage_json = usage;
      files_modified_json = some "[]";
      created_at = now;
      updated_at = now;
      completed_at = some now;
    })

-- (SELECT incarnation_id FROM nodes WHERE node_id = ?)
unfoldable pub incarnation_of : String → List Node → Option String
incarnation_of node nodes = elim (first (λ n. str_eq n.node_id node) nodes) [
  | none ↦ none
  | some n ↦ n.incarnation_id
]

unfoldable pub set_claimed : ℕ → String → Option String → Task → Task
set_claimed now node incarnation t = record t {
  status = claimed;
  claimed_by = some node;
  claimed_at = some now;
  updated_at = now;
  claimer_incarnation = incarnation;
}

unfoldable pub set_released : ℕ → Task → Task
set_released now t = record t {
  status = pending;
  claimed_by = none;
  claimed_at = none;
  claimer_incarnation = none;
  updated_at = now;
}

unfoldable pub claim_task : ℕ → TaskId → String → List Node → List Task → List Task × Bool
unfolding set_claimed
claim_task now tid node nodes tasks = (
  update_where (claimable tid) (set_claimed now node (incarnation_of node nodes)) tasks,
  exists (claimable tid) tasks,
)

unfoldable pub release_task : ℕ → TaskId → String → List Task → List Task × Bool
unfolding set_released
release_task now tid node tasks = (
  update_where (releasable tid node) (set_released now) tasks,
  exists (releasable tid node) tasks,
)

-- The UPDATE under `if task_ids:` changes no row when the list is empty, so it is made always.
unfoldable pub release_node_claims : ℕ → String → List Task → List Task × List TaskId
unfolding set_released
release_node_claims now node tasks = (
  update_where (held_by node) (set_released now) tasks,
  map (λ t. t.id) (select (held_by node) tasks),
)

unfoldable pub complete_task : ℕ → TaskId → TaskResult → Option String → List Task → List Task
complete_task now tid result artifact_path = update_where (has_id tid) λ t. record t {
  status = completed;
  result = some result;
  artifact_path = coalesce artifact_path t.artifact_path;
  completed_at = some now;
  updated_at = now;
}

unfoldable pub fail_task :
    ℕ → TaskId → String → TaskStatus → Option TaskResult → Option String → List Task → List Task
fail_task now tid error status result artifact_path = update_where (has_id tid) λ t. record t {
  status = status;
  error = some error;
  result = coalesce result t.result;
  artifact_path = coalesce artifact_path t.artifact_path;
  completed_at = some now;
  updated_at = now;
}

unfoldable pub get_task : TaskId → List Task → Option Task
get_task tid = first (has_id tid)

-- {machine_clause}: an empty node id is falsy.
unfoldable pub machine_clause : Option String → Bool → Task → Bool
machine_clause none accept_unpinned t = true
machine_clause (some node) accept_unpinned t =
    if str_eq node ""
    then true
    else if accept_unpinned
    then same_text? t.machine_id none || same_text? t.machine_id (some node)
    else same_text? t.machine_id (some node)

-- {backend_clause}: an empty list is falsy, like None.
unfoldable pub backend_clause : List String → Task → Bool
backend_clause [] t = true
backend_clause (b ∷ bs) t = member t.backend (b ∷ bs)

-- ORDER BY created_at ASC; rows of one stamp stay in the order of the table.
unfoldable pub insert_by_created : Task → List Task → List Task
insert_by_created t [] = t ∷ []
insert_by_created t (u ∷ us) =
    if leb t.created_at u.created_at then t ∷ u ∷ us else u ∷ insert_by_created t us

unfoldable pub order_by_created : List Task → List Task
unfolding insert_by_created
order_by_created [] = []
order_by_created (t ∷ ts) = insert_by_created t (order_by_created ts)

unfoldable pub routable : Option String → List String → Bool → Task → Bool
routable node backends accept_unpinned t =
    is_pending t.status && (machine_clause node accept_unpinned t && backend_clause backends t)

unfoldable pub get_pending_tasks : Option String → List String → Bool → ℕ → List Task → List Task
get_pending_tasks node backends accept_unpinned limit tasks =
    take limit (order_by_created (select (routable node backends accept_unpinned) tasks))
