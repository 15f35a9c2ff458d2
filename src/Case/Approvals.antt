-- ===== src/Case/Approvals.antt =====
-- The approval gate: create_approval, get_approval and resolve_approval of src/control/db.py, and
-- request and resolve of src/services/approval_service.py. A workflow event that is emitted and a
-- call of the callback `on_approve` are part of the result. The flag HARNESS_FLOW_DRIVE is `drive`.
pub mod Gate
pub mod Holding
use ai_team.Prelude.{
  ℕ, String, Bool, true, false, ◌&&◌, ◌||◌, not, Option, none, some, List, ◌∷◌, ◌++◌, leb, ◌==◌,
  if◌then◌else◌, str_eq, same_text?, length, take, select, update_where, exists, first, [],
}
use ai_team.Case.{
  approval, EventType, approval_requested, approval_resolved, FlowRun, Approval, ApprovalStatus,
  pending, approved, rejected, expired, Ledger,
}
use ai_team.Case.Close.{is_pending_approval}
use ai_team.Case.Flow.{create_flow_link, append_flow_event}
use ai_team.Sessions.{CommandResult}

abbrev pub is_approval : String → Approval → Bool
is_approval approval_id a = str_eq a.id approval_id

-- WHERE id = ? AND status = 'pending'
abbrev pub is_open_approval : String → Approval → Bool
is_open_approval approval_id a = str_eq a.id approval_id && is_pending_approval a.status

-- A duplicate id is refused, and the refusal is swallowed.
unfoldable pub create_approval :
    (now : ℕ) (approval_id action : String) (session_id task_id : Option String) (risk : String)
    (reversible : Bool) (requested_by : String) (payload expires_at : Option String)
    → Ledger
    → Ledger
create_approval now approval_id action session_id task_id risk reversible requested_by payload
      expires_at l =
    if exists (is_approval approval_id) l.approvals then l else record l {
      approvals =
          l.approvals
          ++ record {
            id = approval_id;
            session_id = session_id;
            task_id = task_id;
            action = action;
            risk = risk;
            reversible = reversible;
            status = pending;
            requested_by = requested_by;
            payload = payload;
            created_at = now;
            expires_at = expires_at;
            resolved_by = none;
            resolved_at = none;
          }
            ∷ [];
    }

unfoldable pub get_approval : String → Ledger → Option Approval
get_approval approval_id l = first (is_approval approval_id) l.approvals

abbrev pub is_decided : ApprovalStatus → Bool
is_decided approved = true
is_decided rejected = true
is_decided expired = true
is_decided _ = false

unfoldable pub set_resolved : ℕ → ApprovalStatus → String → Approval → Approval
set_resolved now status resolved_by a = record a {
  status = status;
  resolved_by = some resolved_by;
  resolved_at = some now;
}

-- `cur.rowcount == 1`
unfoldable pub resolve_approval :
    (now : ℕ) (approval_id : String) (status : ApprovalStatus) (resolved_by : String)
    → Ledger
    → Ledger × Bool
unfolding set_resolved
resolve_approval now approval_id status resolved_by l =
    if not (is_decided status) then (l, false) else (
      record l {
        approvals =
            update_where (is_open_approval approval_id) (set_resolved now status resolved_by)
              l.approvals;
      },
      length (select (is_open_approval approval_id) l.approvals) == 1,
    )

-- ORDER BY created_at DESC; rows of one stamp stay in the order of the table.
unfoldable pub insert_newest : FlowRun → List FlowRun → List FlowRun
insert_newest r [] = r ∷ []
insert_newest r (s ∷ ss) =
    if leb s.created_at r.created_at then r ∷ s ∷ ss else s ∷ insert_newest r ss

unfoldable pub newest_first : List FlowRun → List FlowRun
unfolding insert_newest
newest_first [] = []
newest_first (r ∷ rs) = insert_newest r (newest_first rs)

unfoldable pub list_flow_runs : Option String → ℕ → Ledger → List FlowRun
list_flow_runs none limit l = take limit (newest_first l.runs)
list_flow_runs (some task_id) limit l =
    if str_eq task_id ""
    then take limit (newest_first l.runs)
    else take limit (newest_first (select (λ r. same_text? r.task_id (some task_id)) l.runs))

-- What is recorded on the Case that `runs[0]` is.
unfoldable pub link_approval :
    (now : ℕ) (flow_run_id approval_id : String) (event_type : EventType) (actor : String)
    (to_state : Option String)
    → Ledger
    → Ledger
link_approval now flow_run_id approval_id event_type actor to_state l =
    if str_eq flow_run_id ""
    then l
    else (append_flow_event now flow_run_id event_type actor none to_state (some approval)
        (some approval_id) none
        (create_flow_link now flow_run_id approval approval_id "approval" (some "system") none [] []
          l).0).0

-- _record_approval_flow
unfoldable pub record_approval_flow :
    (drive : Bool) (now : ℕ) (approval_id : String) (task_id : Option String)
    (event_type : EventType) (actor : String) (to_state : Option String)
    → Ledger
    → Ledger
unfolding link_approval
record_approval_flow drive now approval_id none event_type actor to_state l = l
record_approval_flow drive now approval_id (some task_id) event_type actor to_state l =
    if not drive || str_eq task_id "" then l else elim (list_flow_runs (some task_id) 1 l) [
      | [] ↦ l
      | r ∷ rs ↦ link_approval now r.flow_run_id approval_id event_type actor to_state l
    ]

-- A workflow event that is emitted, and what a command answers.
pub data Emitted : Type 0 where
  approval_asked :
      (session_id action : String) (task_id : Option String) (requested_by : String) → Emitted
  approval_granted :
      (session_id action : String) (granted : Bool) (task_id : Option String) (approver : String)
      → Emitted

-- The state after a command, its answer, what it emitted, and the row that on_approve got.
pub record Commanded : Type 0 where
  pub ledger : Ledger
  pub answer : CommandResult
  pub emitted : List Emitted
  pub dispatched : Option Approval

abbrev pub refuse : String → Ledger → Commanded
refuse reason l = record {
  ledger = l;
  answer = record { ok = false; reason = reason };
  emitted = [];
  dispatched = none;
}

-- `if session_id: self._workflow.…`, where the workflow service refuses an empty action.
unfoldable pub emit : Option String → String → (String → Emitted) → List Emitted
emit none action event = []
emit (some session_id) action event =
    if str_eq session_id "" || str_eq action "" then [] else event session_id ∷ []

-- `minted` is the id that is made of uuid4.
unfoldable pub request :
    (drive : Bool) (now : ℕ) (minted action : String) (session_id task_id : Option String)
    (risk : String) (reversible : Bool) (requested_by : String) (payload expires_at : Option String)
    → Ledger
    → Commanded
unfolding emit
request drive now minted action session_id task_id risk reversible requested_by payload expires_at
      l =
    if str_eq action "" then refuse "missing_action" l else record {
      ledger =
          record_approval_flow drive now minted task_id approval_requested "system" (some "pending")
            (create_approval now minted action session_id task_id risk reversible requested_by
              payload expires_at l);
      answer = record { ok = true; reason = minted };
      emitted = emit session_id action (λ s. approval_asked s action task_id requested_by);
      dispatched = none;
    }

-- `decision` of resolve, a text.
pub data Decision : Type 0 where
  approve reject : Decision
  other : String → Decision

abbrev pub decided : Decision → ApprovalStatus
decided approve = approved
decided reject = rejected
decided (other s) = ApprovalStatus.other s

abbrev pub decision_text : Decision → String
decision_text approve = "approved"
decision_text reject = "rejected"
decision_text (other s) = s

abbrev pub is_approve : Decision → Bool
is_approve approve = true
is_approve _ = false

-- From the guarded UPDATE on, with the row that was read before; another resolver may have come
-- between.
unfoldable pub commit :
    (drive callback : Bool) (now : ℕ) (approval_id : String) (decision : Decision)
    (resolved_by : String)
    → Approval
    → Ledger
    → Commanded
unfolding emit
commit drive callback now approval_id decision resolved_by existing l =
    let (l', won) = resolve_approval now approval_id (decided decision) resolved_by l in
    if not won
    then refuse "already_resolved" l'
    else let recorded =
        record_approval_flow drive now approval_id existing.task_id approval_resolved "operator"
          (some (decision_text decision)) l' in
      record {
        ledger = recorded;
        answer = record { ok = true; reason = "" };
        emitted = emit existing.session_id existing.action (λ s.
            approval_granted s existing.action (is_approve decision) existing.task_id resolved_by);
        dispatched =
            if is_approve decision && callback then get_approval approval_id recorded else none;
      }

unfoldable pub resolve_pending :
    (drive callback : Bool) (now : ℕ) (approval_id : String) (decision : Decision)
    (resolved_by : String)
    → Ledger
    → Commanded
resolve_pending drive callback now approval_id decision resolved_by l =
    elim (get_approval approval_id l) [
      | none ↦ refuse "not_found" l
      | some existing ↦
          if not (is_pending_approval existing.status)
          then refuse "already_resolved" l
          else commit drive callback now approval_id decision resolved_by existing l
    ]

unfoldable pub resolve :
    (drive callback : Bool) (now : ℕ) (approval_id : String) (decision : Decision)
    (resolved_by : String)
    → Ledger
    → Commanded
unfolding resolve_pending
resolve drive callback now approval_id (other s) resolved_by l = refuse "invalid_decision" l
resolve drive callback now approval_id decision resolved_by l =
    resolve_pending drive callback now approval_id decision resolved_by l
