-- ===== src/Case/Flow.antt =====
-- Cases, links and events: the writes and reads of `flow_runs`, `flow_links` and `flow_events` in
-- src/control/db.py. A method takes the ledger and the time, and returns the new ledger with its
-- result. The id that uuid4 makes is an argument.
use ai_team.Prelude.{
  strip, ℕ, ◌+◌, String, Bool, true, false, ◌&&◌, ◌||◌, not, Option, none, some, List, ◌∷◌, ◌++◌,
  leb, if◌then◌else◌, str_eq, same_text?, take, select, update_where, exists, first, [],
}
use ai_team.Case.{
  EntityType, task, session, approval, artifact, job, flow, wait_group, EventType, Payload, FlowRun,
  FlowLink, FlowEvent, Ledger,
}

unfoldable pub same_entity : EntityType → EntityType → Bool
same_entity task task = true
same_entity session session = true
same_entity approval approval = true
same_entity artifact artifact = true
same_entity job job = true
same_entity flow flow = true
same_entity wait_group wait_group = true
same_entity (EntityType.other s) (EntityType.other t) = str_eq s t
same_entity _ _ = false

-- The columns that update_flow_run may set.
pub data FlowField : Type 0 where
  current_stage objective_lock approved_plan plan_review burn_down_items execution_result :
      FlowField
  implementation_review waived_findings closure_summary role_assignments artifact_links : FlowField
  status parent_flow_run_id dispatched_by dispatch_file completion_criteria : FlowField

unfoldable pub set_field : FlowField → Option String → FlowRun → FlowRun
set_field current_stage v r = record r { current_stage = v }
set_field objective_lock v r = record r { objective_lock = v }
set_field approved_plan v r = record r { approved_plan = v }
set_field plan_review v r = record r { plan_review = v }
set_field burn_down_items v r = record r { burn_down_items = v }
set_field execution_result v r = record r { execution_result = v }
set_field implementation_review v r = record r { implementation_review = v }
set_field waived_findings v r = record r { waived_findings = v }
set_field closure_summary v r = record r { closure_summary = v }
set_field role_assignments v r = record r { role_assignments = v }
set_field artifact_links v r = record r { artifact_links = v }
set_field status v r = record r { status = v }
set_field parent_flow_run_id v r = record r { parent_flow_run_id = v }
set_field dispatched_by v r = record r { dispatched_by = v }
set_field dispatch_file v r = record r { dispatch_file = v }
set_field completion_criteria v r = record r { completion_criteria = v }

unfoldable pub set_fields : List (FlowField × Option String) → FlowRun → FlowRun
unfolding set_field
set_fields [] r = r
set_fields ((f, v) ∷ fs) r = set_fields fs (set_field f v r)

abbrev pub is_run : String → FlowRun → Bool
is_run flow_run_id r = str_eq r.flow_run_id flow_run_id

-- The keyword arguments of create_flow_run are the pairs of `fields`.
unfoldable pub create_flow_run :
    (now : ℕ) (minted : String) (task_id : Option String) (stage : String)
    (objective : Option String)
    → List (FlowField × Option String)
    → Ledger
    → Ledger × String
unfolding set_fields
create_flow_run now minted task_id stage objective fields l =
    let row : FlowRun = record {
      flow_run_id = minted;
      task_id = task_id;
      current_stage = some stage;
      objective_lock = objective;
      created_at = now;
      updated_at = none;
      approved_plan = none;
      plan_review = none;
      burn_down_items = none;
      execution_result = none;
      implementation_review = none;
      waived_findings = none;
      closure_summary = none;
      role_assignments = none;
      artifact_links = none;
      status = none;
      parent_flow_run_id = none;
      dispatched_by = none;
      dispatch_file = none;
      completion_criteria = none;
    } in
    (record l { runs = l.runs ++ set_fields fields row ∷ [] }, minted)

unfoldable pub update_flow_stage : ℕ → String → String → Ledger → Ledger
update_flow_stage now flow_run_id stage l = record l {
  runs =
      update_where (is_run flow_run_id)
        (λ r. record r { current_stage = some stage; updated_at = some now }) l.runs;
}

-- With no field to set, nothing is written, not even `updated_at`.
unfoldable pub update_flow_run : ℕ → String → List (FlowField × Option String) → Ledger → Ledger
unfolding set_fields
update_flow_run now flow_run_id [] l = l
update_flow_run now flow_run_id (f ∷ fs) l = record l {
  runs =
      update_where (is_run flow_run_id)
        (λ r. record (set_fields (f ∷ fs) r) { updated_at = some now }) l.runs;
}

unfoldable pub get_flow_run : String → Ledger → Option FlowRun
get_flow_run flow_run_id l = first (is_run flow_run_id) l.runs

-- ORDER BY created_at ASC; rows of one stamp stay in the order of the table.
unfoldable pub insert_run : FlowRun → List FlowRun → List FlowRun
insert_run r [] = r ∷ []
insert_run r (s ∷ ss) = if leb r.created_at s.created_at then r ∷ s ∷ ss else s ∷ insert_run r ss

unfoldable pub oldest_first : List FlowRun → List FlowRun
unfolding insert_run
oldest_first [] = []
oldest_first (r ∷ rs) = insert_run r (oldest_first rs)

abbrev pub is_child : String → FlowRun → Bool
is_child parent r = same_text? r.parent_flow_run_id (some parent)

unfoldable pub list_child_flow_runs : String → ℕ → Ledger → List FlowRun
list_child_flow_runs parent limit l = take limit (oldest_first (select (is_child parent) l.runs))

abbrev pub is_link : String → EntityType → String → String → FlowLink → Bool
is_link flow_run_id entity_type entity_id role k =
    str_eq k.flow_run_id flow_run_id
    && (same_entity k.entity_type entity_type
        && (str_eq k.entity_id entity_id && str_eq k.role role))

-- INSERT OR IGNORE under the unique key of four columns; the id of the row that is there after.
unfoldable pub create_flow_link :
    (now : ℕ) (flow_run_id : String) (entity_type : EntityType) (entity_id role : String)
    (created_by objective : Option String) (depends_on : List String)
    → List (String × String)
    → Ledger
    → Ledger × ℕ
create_flow_link now flow_run_id entity_type entity_id role created_by objective depends_on metadata
      l =
    elim (first (is_link flow_run_id entity_type entity_id role) l.links) [
      | some k ↦ (l, k.id)
      | none ↦ (
        record l {
          links =
              l.links
              ++ record {
                id = l.next_link;
                flow_run_id = flow_run_id;
                entity_type = entity_type;
                entity_id = entity_id;
                role = role;
                created_at = now;
                created_by = created_by;
                objective = objective;
                depends_on = depends_on;
                metadata = metadata;
              }
                ∷ [];
          next_link = l.next_link + 1;
        },
        l.next_link,
      )
    ]

-- An optional filter of list_flow_links: absent, or empty, it lets every row pass.
unfoldable pub text_clause : Option String → String → Bool
text_clause none v = true
text_clause (some s) v = if str_eq s "" then true else str_eq v s

unfoldable pub entity_clause : Option EntityType → EntityType → Bool
entity_clause none v = true
entity_clause (some e) v = same_entity v e

unfoldable pub list_flow_links :
    Option String → Option EntityType → Option String → Option String → ℕ → Ledger → List FlowLink
unfolding text_clause entity_clause
list_flow_links flow_run_id entity_type entity_id role limit l = take limit (
    select
      (λ k.
        text_clause flow_run_id k.flow_run_id
        && (entity_clause entity_type k.entity_type
            && (text_clause entity_id k.entity_id && text_clause role k.role)))
      l.links)

unfoldable pub append_flow_event :
    (now : ℕ) (flow_run_id : String) (event_type : EventType) (actor : String)
    (from_state to_state : Option String) (entity_type : Option EntityType)
    (entity_id : Option String)
    → Option Payload
    → Ledger
    → Ledger × ℕ
append_flow_event now flow_run_id event_type actor from_state to_state entity_type entity_id payload
      l =
    (
      record l {
        events =
            l.events
            ++ record {
              id = l.next_event;
              flow_run_id = flow_run_id;
              event_type = event_type;
              actor = actor;
              from_state = from_state;
              to_state = to_state;
              entity_type = entity_type;
              entity_id = entity_id;
              payload = payload;
              created_at = now;
            }
              ∷ [];
        next_event = l.next_event + 1;
      },
      l.next_event,
    )

abbrev pub is_event_of : String → FlowEvent → Bool
is_event_of flow_run_id e = str_eq e.flow_run_id flow_run_id

-- The default limit of list_flow_events, under which every caller here reads.
abbrev pub event_limit : ℕ
event_limit = 500

-- ORDER BY id ASC is the order of the table, since ids are given out in order.
unfoldable pub list_flow_events : String → Ledger → List FlowEvent
list_flow_events flow_run_id l = take event_limit (select (is_event_of flow_run_id) l.events)

-- _event_payload of a row is its `payload`; _event_outcome reads the key, where it is not empty.
unfoldable pub event_outcome : FlowEvent → Option String
event_outcome e = elim e.payload [
  | none ↦ none
  | some p ↦ elim p.outcome [ none ↦ none | some o ↦ if str_eq o "" then none else some o ]
]

-- `status IN _CLOSED_STATUSES`, NULL counting as the empty text.
unfoldable pub is_closed_status : Option String → Bool
is_closed_status none = false
is_closed_status (some s) = str_eq s "closed" || str_eq s "cancelled"

-- [A36] The newest link of the session to a Case that is not closed.
unfoldable pub open_case_links : String → Ledger → List FlowLink
open_case_links sid l =
    select
      (λ k.
        (same_entity k.entity_type session && str_eq k.entity_id sid)
        && exists (λ r. is_run k.flow_run_id r && not (is_closed_status r.status)) l.runs)
      l.links

unfoldable pub last_link : List FlowLink → Option FlowLink → Option FlowLink
last_link [] found = found
last_link (k ∷ ks) found = last_link ks (some k)

unfoldable pub find_open_case_for_session : String → Ledger → Option String
unfolding open_case_links last_link
find_open_case_for_session session_id l =
    let sid = strip session_id in
    if str_eq sid ""
    then none
    else elim (last_link (open_case_links sid l) none) [ none ↦ none | some k ↦ some k.flow_run_id ]
