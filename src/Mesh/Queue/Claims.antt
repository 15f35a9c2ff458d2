-- ===== src/Mesh/Queue/Claims.antt =====
-- Who gets a task: the atomic claim, the owner's release, and the sweep of a restarted node, over
-- claim_task, release_task and release_node_claims of src/control/db.py.
use mathlib.Core.Option
use ai_team.Prelude.{
  first-update_where, exists_of_first, first_holds, ℕ, ◌+◌, String, true, false, ◌≡◌, refl, some,
  List, ◌∷◌, arith, str_eq_refl, same_text?, if◌then◌else◌, exists, exists-update_where,
  update_where_none, [],
}
use ai_team.Mesh.{TaskId, Task, pending, Node}
use ai_team.Mesh.Queue.{
  has_id, claimable, releasable, incarnation_of, set_claimed, set_released, claim_task,
  release_task, get_task,
}

-- Nodes race for one task, one `claim_task` after the other; the number of calls that return True.
pub race : TaskId → List (ℕ × String × List Node) → List Task → ℕ
race tid [] tasks = 0
race tid ((now, node, nodes) ∷ rest) tasks =
    let (tasks', won) = claim_task now tid node nodes tasks in
    let others = race tid rest tasks' in if won then 1 + others else others

pub no_claimable :
    (tid : TaskId) (now : ℕ) (node : String) (nodes : List Node) (tasks : List Task)
    → exists (claimable tid) (claim_task now tid node nodes tasks).0 ≡ false
unfolding claim_task
no_claimable tid now node nodes tasks =
    exists-update_where (claimable tid) _ tasks λ t h. ground arith

race_lost :
    (tid : TaskId) (racers : List (ℕ × String × List Node)) (tasks : List Task)
    → exists (claimable tid) tasks ≡ false
    → race tid racers tasks ≡ 0
unfolding race claim_task
race_lost tid [] tasks h = refl
race_lost tid ((now, node, nodes) ∷ rest) tasks h =
    rw
      (
        h,
        update_where_none (claimable tid) (set_claimed now node (incarnation_of node nodes)) tasks
            h,
      )
      (race_lost tid rest tasks h)

-- Whichever nodes race for a task, in whatever order and at whatever times, exactly one claim
-- succeeds if the task is pending when the race starts, and none if it is not.
pub race_one_winner :
    (tid : TaskId) (now : ℕ) (node : String) (nodes : List Node)
    (rest : List (ℕ × String × List Node)) (tasks : List Task)
    → race tid ((now, node, nodes) ∷ rest) tasks ≡ (if exists (claimable tid) tasks then 1 else 0)
unfolding race
race_one_winner tid now node nodes rest tasks =
    let lost =
      race_lost tid rest (claim_task now tid node nodes tasks).0
        (no_claimable tid now node nodes tasks) in
    unfold claim_task in ground (arith, lost)

-- After a claim, the row of the task is as before unless it was pending; then it is claimed by
-- this node, at this time and under the incarnation that the node is registered with.
pub get_task-claim_task :
    (now : ℕ) (tid : TaskId) (node : String) (nodes : List Node) (tasks : List Task)
    → get_task tid (claim_task now tid node nodes tasks).0
      ≡ Option.map
          (λ t. if claimable tid t then set_claimed now node (incarnation_of node nodes) t else t)
          (get_task tid tasks)
unfolding claim_task get_task
get_task-claim_task now tid node nodes tasks =
    first-update_where (has_id tid) (claimable tid) _ tasks λ t. refl

get_task-release_task :
    (now : ℕ) (tid : TaskId) (node : String) (tasks : List Task)
    → get_task tid (release_task now tid node tasks).0
      ≡ Option.map
          (λ t. if releasable tid node t then set_released now t else t)
          (get_task tid tasks)
unfolding release_task get_task
get_task-release_task now tid node tasks =
    first-update_where (has_id tid) (releasable tid node) _ tasks λ t. refl

-- A node can give back its own claim: where a task is pending, the node's claim succeeds, its
-- release then succeeds too, and the row is pending and unowned again, as of the release.
pub release_task-claim_task :
    (now later : ℕ) (tid : TaskId) (node : String) (nodes : List Node) (tasks : List Task)
    (t : Task)
    → get_task tid tasks ≡ some t
    → t.status ≡ pending
    → let (held, won) = claim_task now tid node nodes tasks in
      let (freed, released) = release_task later tid node held in
      (won ≡ true) × (released ≡ true) × (get_task tid freed ≡ some (set_released later t))
unfolding claim_task
release_task-claim_task now later tid node nodes tasks t found waiting =
    let mine : has_id tid t ≡ true = unfold get_task in first_holds (has_id tid) tasks t found in
    let open_row : claimable tid t ≡ true = ground (arith, mine, waiting) in
    let u = set_claimed now node (incarnation_of node nodes) t in
    let held : get_task tid (claim_task now tid node nodes tasks).0 ≡ some u =
      rw (get_task-claim_task now tid node nodes tasks, found) (ground (arith, open_row)) in
    let owned : releasable tid node u ≡ true =
      unfold set_claimed same_text? in ground (arith, mine, str_eq_refl node) in
    (
      unfold get_task in exists_of_first (has_id tid) (claimable tid) tasks t found open_row,
      unfold get_task release_task in
          exists_of_first (has_id tid) (releasable tid node) _ u held owned,
      rw (get_task-release_task later tid node (claim_task now tid node nodes tasks).0, held)
          (unfold set_claimed set_released in ground (arith, owned)),
    )
