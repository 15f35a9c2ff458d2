-- ===== src/Continuation/Tick.antt =====
-- The tick that decides what wakes the Manager of a Case: compute_continuation_tick of
-- src/control/db.py. `str.upper` is an argument. The `watermark` key of the answer, a sorted copy of
-- the consumed set that only reports show, is left out.
use ai_team.Prelude.{
  ℕ, ◌+◌, String, Bool, true, false, ◌&&◌, ◌||◌, not, none, some, List, ◌∷◌, ◌++◌, if◌then◌else◌,
  str_eq, or_else, select, exists, every, member, [],
}
use ai_team.Case.{blank, FlowEvent, Ledger}
use ai_team.Case.Close.{is_review}
use ai_team.Case.Flow.{list_flow_events}
use ai_team.Case.Waits.{is_wait_pending, is_wait_resolved, is_finished, put}
use ai_team.Mesh.{Task}
use ai_team.Continuation.{is_group, is_task, continuation_watermark}

pub record Group : Type 0 where
  pub condition : String
  pub members : List String

-- What one pass over the events of a Case collects.
pub record Facts : Type 0 where
  pub groups : List (String × Group)
  pub resolved : List String
  pub finished : List String
  pub reviewed : List String

abbrev pub no_facts : Facts
no_facts = record { groups = []; resolved = []; finished = []; reviewed = [] }

unfoldable pub armed_group : (String → String) → FlowEvent → Group
armed_group upper e =
    let p = or_else e.payload blank in
    record { condition = upper (or_else p.condition "ANY"); members = p.member_task_ids }

unfoldable pub collect : (String → String) → FlowEvent → String → Facts → Facts
unfolding armed_group
collect upper e id f =
    if is_group e.entity_type
    then (if is_wait_pending e.event_type
        then record f { groups = put id (armed_group upper e) f.groups }
        else if is_wait_resolved e.event_type
        then record f { resolved = id ∷ f.resolved }
        else f)
    else if is_finished e.event_type
    then record f { finished = id ∷ f.finished }
    else if is_review e.event_type && is_task e.entity_type
    then record f { reviewed = id ∷ f.reviewed }
    else f

-- An event with no entity id, or an empty one, counts for nothing in each of the branches.
unfoldable pub collect_step : (String → String) → FlowEvent → Facts → Facts
unfolding collect
collect_step upper e f = elim e.entity_id [
  | none ↦ f
  | some id ↦ if str_eq id "" then f else collect upper e id f
]

unfoldable pub collect_all : (String → String) → List FlowEvent → Facts → Facts
collect_all upper [] f = f
collect_all upper (e ∷ es) f = collect_all upper es (collect_step upper e f)

pub record Satisfied : Type 0 where
  pub wait_group_id : String
  pub condition : String
  pub presented : List String
  pub retire : Bool

pub record Tick : Type 0 where
  pub presented_task_ids : List String
  pub satisfied_groups : List Satisfied
  pub retire_only_groups : List String
  pub generation_next : ℕ
  pub completed_rounds : ℕ

-- t in finished and t not in consumed and t not in reviewed
unfoldable pub is_fresh : Facts → List String → String → Bool
is_fresh f consumed t =
    member t f.finished && (not (member t consumed) && not (member t f.reviewed))

abbrev pub is_one_shot : String → Bool
is_one_shot condition = str_eq condition "ALL" || str_eq condition "NAMED"

-- for t in finished_unconsumed: if t not in presented: presented.append(t)
unfoldable pub append_new : List String → List String → List String
append_new presented [] = presented
append_new presented (t ∷ ts) =
    append_new (if member t presented then presented else presented ++ t ∷ []) ts

-- The body of the loop over the groups, with what the loop has gathered so far.
unfoldable pub judge_group : Facts → List String → String → Group → Tick → Tick
unfolding append_new
judge_group f consumed gid g k =
    let fresh = select (is_fresh f consumed) g.members in
    let all_finished = every (λ t. member t f.finished) g.members in
    let some_fresh = exists (is_fresh f consumed) g.members in
    let ok = if is_one_shot g.condition then all_finished && some_fresh else some_fresh in
    if ok
    then record k {
      satisfied_groups =
          k.satisfied_groups
          ++ record {
            wait_group_id = gid;
            condition = g.condition;
            presented = fresh;
            retire = all_finished;
          }
            ∷ [];
      presented_task_ids = append_new k.presented_task_ids fresh;
    }
    else if all_finished
        && (not some_fresh
            && exists (λ t. member t f.reviewed && not (member t consumed)) g.members)
    then record k { retire_only_groups = k.retire_only_groups ++ gid ∷ [] }
    else k

-- The guards of the loop: a resolved group and a group with no member are passed over.
unfoldable pub judge_step : Facts → List String → String → Group → Tick → Tick
judge_step f consumed gid g k =
    if member gid f.resolved
    then k
    else elim g.members [ [] ↦ k | t ∷ ts ↦ judge_group f consumed gid g k ]

unfoldable pub judge_all : Facts → List String → List (String × Group) → Tick → Tick
judge_all f consumed [] k = k
judge_all f consumed ((gid, g) ∷ gs) k = judge_all f consumed gs (judge_step f consumed gid g k)

-- `satisfied` of the answer: whether any group is.
abbrev pub is_satisfied : Tick → Bool
is_satisfied k = elim k.satisfied_groups [ [] ↦ false | s ∷ ss ↦ true ]

unfoldable pub compute_continuation_tick : (String → String) → String → Ledger → List Task → Tick
compute_continuation_tick upper flow_run_id l tasks =
    let f = collect_all upper (list_flow_events flow_run_id l) no_facts in
    let w = continuation_watermark flow_run_id tasks in
    judge_all f w.consumed f.groups (record {
      presented_task_ids = [];
      satisfied_groups = [];
      retire_only_groups = [];
      generation_next = w.completed_rounds + 1;
      completed_rounds = w.completed_rounds;
    })
