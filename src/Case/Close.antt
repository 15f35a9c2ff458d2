-- ===== src/Case/Close.antt =====
-- Birth and closure of a Case: open_case, _case_has_unresolved_approval and close_case of
-- src/control/db.py.
pub mod Guards
pub mod Limits
pub mod Children
use ai_team.Prelude.{
  ℤ, ℕ, String, Bool, true, false, ◌&&◌, not, Option, none, some, List, ◌∷◌, if◌then◌else◌, str_eq,
  length, select, exists, [],
}
use ai_team.Case.{
  session, approval, EventType, flow_created, flow_closed, flow_status_changed, review_accepted,
  review_rework_requested, review_waived, blank, FlowRun, FlowEvent, ApprovalStatus, Ledger,
}
use ai_team.Case.Criteria.{Python, Entry, compose_completion_criteria, unreconciled_criteria}
use ai_team.Case.Flow.{
  same_entity, status, completion_criteria, create_flow_run, update_flow_run, get_flow_run,
  list_child_flow_runs, create_flow_link, append_flow_event, list_flow_events, is_closed_status,
}

unfoldable pub open_case :
    Python
    → (now : ℕ) (minted objective session_id role : String) (criteria : Option String)
      (round_cap : Option ℤ)
    → Ledger
    → Ledger × String
open_case py now minted objective session_id role criteria round_cap l =
    let stored = compose_completion_criteria py criteria round_cap in
    let (born, flow_run_id) =
      create_flow_run now minted none "objective_lock" (some objective)
        ((completion_criteria, stored) ∷ []) l in
    let (linked, link) =
      create_flow_link now flow_run_id session session_id role (some "manager") none [] [] born in
    let (told, event) =
      append_flow_event now flow_run_id flow_created "manager" none (some "objective_lock")
        (some session) (some session_id)
        (some (record blank { rest = ("role", role) ∷ ("objective", objective) ∷ [] })) linked in
    (told, flow_run_id)

abbrev pub is_pending_approval : ApprovalStatus → Bool
is_pending_approval ApprovalStatus.pending = true
is_pending_approval _ = false

-- JOIN approvals a ON a.id = fl.entity_id
unfoldable pub case_has_unresolved_approval : String → Ledger → Bool
case_has_unresolved_approval flow_run_id l =
    exists
      (λ k.
        (str_eq k.flow_run_id flow_run_id && same_entity k.entity_type approval)
        && exists (λ a. str_eq a.id k.entity_id && is_pending_approval a.status) l.approvals)
      l.links

-- The default limit of list_child_flow_runs.
abbrev pub child_limit : ℕ
child_limit = 50

abbrev pub is_review : EventType → Bool
is_review review_accepted = true
is_review review_rework_requested = true
is_review review_waived = true
is_review _ = false

abbrev pub is_rework : EventType → Bool
is_rework review_rework_requested = true
is_rework _ = false

-- review_events[-1]
unfoldable pub last_review : List FlowEvent → Option EventType → Option EventType
last_review [] found = found
last_review (e ∷ es) found =
    last_review es (if is_review e.event_type then some e.event_type else found)

unfoldable pub rework_outstanding : List FlowEvent → Bool
unfolding last_review
rework_outstanding es = elim (last_review es none) [ none ↦ false | some t ↦ is_rework t ]

-- Why close_case raises CaseCloseBlocked.
pub data Blocked : Type 0 where
  open_children : ℕ → Blocked
  unresolved_approval : Blocked
  not_reconciled : List String → Blocked
  unresolved_rework : Blocked

-- How close_case ends: with True, with False, with a ValueError, or with CaseCloseBlocked.
pub data Closing : Type 0 where
  closed_now already_terminal outcome_not_terminal unknown_case : Closing
  blocked : Blocked → Closing

-- The children that the guard sees as open.
unfoldable pub seen_open_children : String → Ledger → List FlowRun
seen_open_children flow_run_id l =
    select (λ c. not (is_closed_status c.status)) (list_child_flow_runs flow_run_id child_limit l)

-- The refusals of a Case that is there and open, in the order of the code.
unfoldable pub close_refusal :
    Python → (review_emitter : Bool) → String → FlowRun → List Entry → Ledger → Option Blocked
close_refusal py review_emitter flow_run_id row entries l =
    elim (seen_open_children flow_run_id l) [
      | c ∷ cs ↦ some (open_children (length (c ∷ cs)))
      | [] ↦
          if case_has_unresolved_approval flow_run_id l
          then some unresolved_approval
          else elim (unreconciled_criteria py row.completion_criteria entries) [
            | u ∷ us ↦ some (not_reconciled (u ∷ us))
            | [] ↦
                if review_emitter && rework_outstanding (list_flow_events flow_run_id l)
                then some unresolved_rework
                else none
          ]
    ]

-- The two writes of a closing. The event also carries the reconciliation, which nothing reads back.
unfoldable pub record_closing : ℕ → String → String → String → Ledger → Ledger
record_closing now flow_run_id outcome actor l =
    (append_flow_event now flow_run_id
      (if str_eq outcome "closed" then flow_closed else flow_status_changed) actor none
      (some outcome) none none (some (record blank { outcome = some outcome }))
      (update_flow_run now flow_run_id ((status, some outcome) ∷ []) l)).0

unfoldable pub close_case :
    Python
    → (review_emitter : Bool) (now : ℕ) (flow_run_id outcome actor : String) → List Entry
    → Ledger
    → Ledger × Closing
close_case py review_emitter now flow_run_id outcome actor entries l =
    if not (is_closed_status (some outcome))
    then (l, outcome_not_terminal)
    else elim (get_flow_run flow_run_id l) [
      | none ↦ (l, unknown_case)
      | some row ↦
          if is_closed_status row.status
          then (l, already_terminal)
          else elim (close_refusal py review_emitter flow_run_id row entries l) [
            | some why ↦ (l, blocked why)
            | none ↦ (record_closing now flow_run_id outcome actor l, closed_now)
          ]
    ]
