-- ===== src/Continuation/Brief.antt =====
-- The working state of a Case as it is read back from the tables: get_case_brief of
-- src/control/db.py. `sorted` of texts is an argument, as `str.upper` is.
use ai_team.Prelude.{
  ℕ, ◌-◌, String, Bool, true, false, ◌&&◌, not, Option, none, some, List, ◌∷◌, ◌++◌, map,
  if◌then◌else◌, str_eq, same_text?, or_else, select, member, [],
}
use ai_team.Case.{task, session, EventType, blank, FlowLink, FlowEvent, Ledger}
use ai_team.Case.Close.{is_review}
use ai_team.Case.Criteria.{Python, case_round_cap, parse_completion_criteria}
use ai_team.Case.Flow.{same_entity, get_flow_run, list_flow_links, list_flow_events, event_outcome}
use ai_team.Case.Waits.{is_wait_pending, is_wait_resolved, is_finished, put, lookup}
use ai_team.Continuation.{is_group, is_task}
use ai_team.Continuation.Tick.{Group, armed_group, Satisfied, compute_continuation_tick}
use ai_team.Mesh.{Task}
use ai_team.Sessions.{non_empty}

-- The default limit of list_flow_links.
abbrev pub link_limit : ℕ
link_limit = 200

-- A verdict: its event, and the keys `verdict` and `reason` of the payload.
pub record Verdict : Type 0 where
  pub verdict : Option String
  pub reason : Option String
  pub event_type : EventType

unfoldable pub verdict_record : FlowEvent → Verdict
verdict_record e =
    let p = or_else e.payload blank in
    record {
      verdict = lookup "verdict" p.rest;
      reason = lookup "reason" p.rest;
      event_type = e.event_type;
    }

-- What the one pass over the events collects.
pub record Buckets : Type 0 where
  pub finished : List (String × String)
  pub wait_pending : List String
  pub wait_resolved : List String
  pub review_by_task : List (String × Verdict)
  pub latest_review : Option Verdict

abbrev pub no_buckets : Buckets
no_buckets = record {
  finished = [];
  wait_pending = [];
  wait_resolved = [];
  review_by_task = [];
  latest_review = none;
}

-- set.add
unfoldable pub add : String → List String → List String
add t ts = if member t ts then ts else ts ++ t ∷ []

-- `named` is the entity id, where it is not empty.
unfoldable pub sort_event : FlowEvent → Option String → Buckets → Buckets
unfolding verdict_record add
sort_event e (some id) b =
    if is_finished e.event_type
    then record b { finished = put id (or_else (event_outcome e) "success") b.finished }
    else if is_wait_pending e.event_type && is_task e.entity_type
    then record b { wait_pending = add id b.wait_pending }
    else if is_wait_resolved e.event_type && is_task e.entity_type
    then record b { wait_resolved = add id b.wait_resolved }
    else if is_review e.event_type
    then record b {
      latest_review = some (verdict_record e);
      review_by_task = put id (verdict_record e) b.review_by_task;
    }
    else b
sort_event e none b =
    if is_review e.event_type then record b { latest_review = some (verdict_record e) } else b

abbrev pub named : FlowEvent → Option String
named e = elim e.entity_id [ none ↦ none | some id ↦ if str_eq id "" then none else some id ]

unfoldable pub sort_events : List FlowEvent → Buckets → Buckets
sort_events [] b = b
sort_events (e ∷ es) b = sort_events es (sort_event e (named e) b)

pub record WorkerBrief : Type 0 where
  pub task_id : String
  pub finished : Bool
  pub outcome : Option String
  pub latest_review : Option Verdict

-- The link of a worker task that the Manager dispatched.
abbrev pub is_dispatched : FlowLink → Bool
is_dispatched k =
    same_entity k.entity_type task
    && (str_eq k.role "task"
        && (same_text? k.created_by (some "manager") && not (str_eq k.entity_id "")))

abbrev pub is_worker_session : FlowLink → Bool
is_worker_session k =
    same_entity k.entity_type session && (str_eq k.role "worker" && not (str_eq k.entity_id ""))

abbrev pub has_outcome : String → List (String × String) → Bool
has_outcome t finished = elim (lookup t finished) [ none ↦ false | some o ↦ true ]

unfoldable pub worker_brief : Buckets → FlowLink → WorkerBrief
worker_brief b k = record {
  task_id = k.entity_id;
  finished = has_outcome k.entity_id b.finished;
  outcome = lookup k.entity_id b.finished;
  latest_review = lookup k.entity_id b.review_by_task;
}

-- The armed groups and the resolved ones, of a second pass over the events.
unfoldable pub armed_step :
    (String → String)
    → FlowEvent
    → List (String × Group) × List String
    → List (String × Group) × List String
armed_step upper e (gs, over) = elim (named e) [
  | none ↦ (gs, over)
  | some id ↦
      if not (is_group e.entity_type)
      then (gs, over)
      else if is_wait_pending e.event_type
      then (put id (armed_group upper e) gs, over)
      else if is_wait_resolved e.event_type
      then (gs, id ∷ over)
      else (gs, over)
]

unfoldable pub armed_groups :
    (String → String)
    → List FlowEvent
    → List (String × Group) × List String
    → List (String × Group) × List String
armed_groups upper [] found = found
armed_groups upper (e ∷ es) found = armed_groups upper es (armed_step upper e found)

pub record GroupBrief : Type 0 where
  pub wait_group_id : String
  pub condition : String
  pub members : List String
  pub satisfied : Bool
  pub presented_task_ids : List String
  pub retire : Bool

-- sat_by_gid.get(gid): of entries under one id the last one.
unfoldable pub satisfaction : String → List Satisfied → Option Satisfied → Option Satisfied
satisfaction gid [] found = found
satisfaction gid (s ∷ ss) found =
    satisfaction gid ss (if str_eq s.wait_group_id gid then some s else found)

unfoldable pub group_brief : List Satisfied → String × Group → GroupBrief
group_brief ss (gid, g) =
    let sat = satisfaction gid ss none in
    record {
      wait_group_id = gid;
      condition = g.condition;
      members = g.members;
      satisfied = elim sat [ none ↦ false | some s ↦ true ];
      presented_task_ids = elim sat [ none ↦ [] | some s ↦ s.presented ];
      retire = elim sat [ none ↦ false | some s ↦ s.retire ];
    }

pub record CaseBrief : Type 0 where
  pub case_id : String
  pub objective : Option String
  pub status : Option String
  pub current_stage : Option String
  pub completion_criteria : List String
  pub round_cap : ℕ
  pub rounds_used : ℕ
  pub rounds_remaining : ℕ
  pub workers : List WorkerBrief
  pub worker_session_ids : List String
  pub latest_review : Option Verdict
  pub open_waits : List String
  pub ready_waits : List String
  pub wait_groups : List GroupBrief

-- A wait that is pending and not resolved, by whether its task is finished.
abbrev pub is_unresolved : Buckets → Bool → String → Bool
is_unresolved b over t =
    not (member t b.wait_resolved)
    && (if over then has_outcome t b.finished else not (has_outcome t b.finished))

unfoldable pub get_case_brief :
    (py : Python) (upper : String → String) (sorted : List String → List String) (case_id : String)
    → Ledger
    → List Task
    → Option CaseBrief
unfolding worker_brief group_brief
get_case_brief py upper sorted case_id l tasks = elim (get_flow_run case_id l) [
  | none ↦ none
  | some row ↦
      let links = list_flow_links (some case_id) none none none link_limit l in
      let events = list_flow_events case_id l in
      let b = sort_events events no_buckets in
      let tick = compute_continuation_tick upper case_id l tasks in
      let (armed, over) = armed_groups upper events ([], []) in
      let cap = case_round_cap py row.completion_criteria in
      some (record {
        case_id = case_id;
        objective = non_empty row.objective_lock;
        status = row.status;
        current_stage = row.current_stage;
        completion_criteria = parse_completion_criteria py row.completion_criteria;
        round_cap = cap;
        rounds_used = tick.completed_rounds;
        rounds_remaining = cap - tick.completed_rounds;
        workers = map (worker_brief b) (select is_dispatched links);
        worker_session_ids = map (λ k. k.entity_id) (select is_worker_session links);
        latest_review = b.latest_review;
        open_waits = sorted (select (is_unresolved b false) b.wait_pending);
        ready_waits = sorted (select (is_unresolved b true) b.wait_pending);
        wait_groups =
            map (group_brief tick.satisfied_groups) (select (λ g. not (member g.0 over)) armed);
      })
]
