-- ===== src/Case/Spec/Plan.antt =====
-- The decomposition of a Case into planned tasks: _topological_order, decompose_case,
-- publish_artifact, publish_spec and list_dag_tasks of src/control/db.py. The `indegree` and the
-- `dependents` of a graph are dicts over the keys: functions here, read at keys only.
pub mod Fuel
pub mod Degrees
pub mod Schedule
pub mod Order
pub mod Complete
pub mod Links
pub mod Decompose
use ai_team.Prelude.{
  ℕ, zero, suc, ◌+◌, ◌-◌, String, Bool, ◌||◌, not, Option, none, some, List, [], ◌∷◌, ◌++◌, map,
  ◌==◌, if◌then◌else◌, str_eq, length, select, exists, first, member, strip, is_blank,
}
use ai_team.Case.{task, artifact, case_decomposed, blank, Ledger}
use ai_team.Case.Flow.{create_flow_link, append_flow_event, update_flow_stage}
use ai_team.Case.Spec.{spec_is_approved}

pub record Graph : Type 0 where
  pub indegree : String → ℕ
  pub dependents : String → List String

-- d[key] of a dict with a default, after d[key] was changed by `f`.
abbrev pub changed {ℓ} : {A : Type ℓ} → String → (A → A) → (String → A) → String → A
changed key f d x = if str_eq x key then f (d x) else d x

unfoldable pub add_edge : String → String → Graph → Graph
add_edge k prereq g = record {
  indegree = changed k (λ n. n + 1) g.indegree;
  dependents = changed prereq (λ ks. ks ++ k ∷ []) g.dependents;
}

unfoldable pub add_edges : String → List String → Graph → Graph
add_edges k [] g = g
add_edges k (prereq ∷ ps) g = add_edges k ps (add_edge k prereq g)

unfoldable pub build : (String → List String) → List String → Graph → Graph
build deps [] g = g
build deps (k ∷ ks) g = build deps ks (add_edges k (deps k) g)

abbrev pub no_edges : Graph
no_edges = record { indegree = λ k. 0; dependents = λ k. [] }

-- The state of the `while` loop.
pub record Sort : Type 0 where
  pub indegree : String → ℕ
  pub ready : List String
  pub order : List String

-- The loop over the children of a node. A degree that is 0 stays so: it is not counted down.
unfoldable pub relax : List String → Sort → Sort
relax [] s = s
relax (child ∷ children) s = relax children (record s {
  indegree = changed child (λ n. n - 1) s.indegree;
  ready = if s.indegree child == 1 then s.ready ++ child ∷ [] else s.ready;
})

-- `while ready`, for at most `fuel` turns.
unfoldable pub drain : (fuel : ℕ) (dependents : String → List String) → Sort → Sort
unfolding relax
drain zero dependents s = s
drain (suc n) dependents s = elim s.ready [
  | [] ↦ s
  | node ∷ rest ↦
      drain n dependents
        (relax (dependents node) (record s { ready = rest; order = s.order ++ node ∷ [] }))
]

unfoldable pub start : List String → (String → List String) → Sort
unfolding build
start keys deps =
    let g = build deps keys no_edges in
    record { indegree = g.indegree; ready = select (λ k. g.indegree k == 0) keys; order = [] }

unfoldable pub sorted_keys : List String → (String → List String) → Sort
unfolding drain start
sorted_keys keys deps = drain (length keys) (build deps keys no_edges).dependents (start keys deps)

unfoldable pub topological_order : List String → (String → List String) → Option (List String)
unfolding sorted_keys
topological_order keys deps =
    let s = sorted_keys keys deps in if length s.order == length keys then some s.order else none

-- An entry of `tasks`, by the keys that the code reads; `hints` are the planning hints, as text.
pub record Planned : Type 0 where
  pub task_key : String
  pub objective : Option String
  pub depends_on : List String
  pub hints : List (String × String)

-- The refusals and the answer.
pub data Decomposed : Type 0 where
  spec_authoring_disabled spec_not_approved cyclic_dependencies : Decomposed
  invalid_task_keys : (task_key : String) → Decomposed
  unknown_dependency : (task_key depends_on : String) → Decomposed
  decomposed : (task_keys order : List String) (link_ids : List ℕ) → Decomposed

-- The tasks by their stripped keys, in order: `keys` and `deps` are of one length.
abbrev pub Plan : Type 0
Plan = List (String × List String × Planned)

unfoldable pub edges : List String → List String
edges [] = []
edges (d ∷ ds) = let rest = edges ds in if is_blank d then rest else strip d ∷ rest

-- The loop over the tasks: the plan, or the key that is refused.
unfoldable pub collect_keys : List Planned → Plan → Plan × Option String
unfolding edges
collect_keys [] plan = (plan, none)
collect_keys (t ∷ ts) plan =
    let key = strip t.task_key in
    let more = collect_keys ts (plan ++ (key, edges t.depends_on, t) ∷ []) in
    if str_eq key "" || exists (λ e. str_eq e.0 key) plan then (plan, some key) else more

abbrev pub keys_of : Plan → List String
keys_of plan = map (λ e. e.0) plan

unfoldable pub deps_of : Plan → String → List String
deps_of [] key = []
deps_of ((k, ds, t) ∷ plan) key = let rest = deps_of plan key in if str_eq k key then ds else rest

-- The first edge to a key that is not in the plan.
unfoldable pub unknown_edge : List String → Plan → Option (String × String)
unknown_edge keys [] = none
unknown_edge keys ((k, ds, t) ∷ plan) = elim (first (λ d. not (member d keys)) ds) [
  | some d ↦ some (k, d)
  | none ↦ unknown_edge keys plan
]

unfoldable pub link_tasks :
    (now : ℕ) (flow_run_id spec_id actor : String) → Plan → Ledger → Ledger × List ℕ
link_tasks now flow_run_id spec_id actor [] l = (l, [])
link_tasks now flow_run_id spec_id actor ((k, ds, t) ∷ plan) l =
    let (l', id) =
      create_flow_link now flow_run_id task k "task_attached" (some actor) t.objective ds
        (("spec_id", spec_id) ∷ t.hints) l in
    let (l'', ids) = link_tasks now flow_run_id spec_id actor plan l' in (l'', id ∷ ids)

-- `show` is the text of a number, `listing` the json.dumps of a list of texts.
unfoldable pub write_plan :
    (show : ℕ → String) (listing : List String → String) (now : ℕ)
    (flow_run_id spec_id actor : String) (order : List String)
    → Plan
    → Ledger
    → Ledger × Decomposed
unfolding link_tasks
write_plan show listing now flow_run_id spec_id actor order plan l =
    let (linked, ids) = link_tasks now flow_run_id spec_id actor plan l in
    let noted =
      (append_flow_event now flow_run_id case_decomposed actor none none (some artifact)
        (some spec_id)
        (some (record blank {
          rest =
              ("spec_id", spec_id)
              ∷ ("task_count", show (length plan))
              ∷ ("order", listing order)
              ∷ [];
        }))
        linked).0 in
    (update_flow_stage now flow_run_id "decomposed" noted, decomposed (keys_of plan) order ids)

unfoldable pub decompose_plan :
    (show : ℕ → String) (listing : List String → String) (now : ℕ)
    (flow_run_id spec_id actor : String)
    → Plan
    → Ledger
    → Ledger × Decomposed
unfolding write_plan
decompose_plan show listing now flow_run_id spec_id actor plan l =
    elim (unknown_edge (keys_of plan) plan) [
      | some e ↦ (l, unknown_dependency e.0 e.1)
      | none ↦ elim (topological_order (keys_of plan) (deps_of plan)) [
        | none ↦ (l, cyclic_dependencies)
        | some order ↦ write_plan show listing now flow_run_id spec_id actor order plan l
      ]
    ]

unfoldable pub decompose_case :
    (enabled : Bool) (show : ℕ → String) (listing : List String → String) (now : ℕ)
    (flow_run_id spec_id : String) (tasks : List Planned) (actor : String)
    → Ledger
    → Ledger × Decomposed
unfolding decompose_plan
decompose_case enabled show listing now flow_run_id spec_id tasks actor l =
    if not enabled
    then (l, spec_authoring_disabled)
    else if not (spec_is_approved flow_run_id spec_id l)
    then (l, spec_not_approved)
    else let (plan, bad) = collect_keys tasks [] in
      elim bad [
        | some key ↦ (l, invalid_task_keys key)
        | none ↦ decompose_plan show listing now flow_run_id spec_id actor plan l
      ]
