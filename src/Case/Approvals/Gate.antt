-- ===== src/Case/Approvals/Gate.antt =====
-- Races for an approval and its decision: resolve of src/services/approval_service.py, over
-- resolve_approval of src/control/db.py.
use mathlib.Core.Option
use ai_team.Prelude.{
  length-select-le, length-select-exists, ℕ, ◌+◌, ◌≤◌, String, ◌≡◌, refl, ap, ◌∙◌, Bool, true,
  false, ◌&&◌, Option, none, some, List, ◌∷◌, arith, ◌==◌, if◌then◌else◌, length, select, exists,
  first, first_holds, exists_of_first, select-nil_iff, update_where_none, exists-update_where,
  first-update_where, [],
}
use ai_team.Case.{approval_resolved, EventType, Approval, ApprovalStatus, Ledger}
use ai_team.Case.Approvals.{
  decision_text, is_approve, is_approval, is_open_approval, get_approval, is_decided, set_resolved,
  resolve_approval, record_approval_flow, link_approval, refuse, Decision, approve, reject, decided,
  commit, resolve_pending, resolve,
}
use ai_team.Case.Close.{is_pending_approval}
use ai_team.Case.Flow.{create_flow_link, append_flow_event}

-- Resolvers that have all read the pending row come to their UPDATE one after another; the number
-- of those that are told they decided.
unfoldable pub winners : String → List (ℕ × Decision × String) → Ledger → ℕ
winners i [] l = 0
winners i ((now, d, by) ∷ rest) l =
    let (l', won) = resolve_approval now i (decided d) by l in
    (if won then 1 else 0) + winners i rest l'

none_open :
    (now : ℕ) (i : String) (s : ApprovalStatus) (by : String) (l : Ledger)
    → is_decided s ≡ true
    → exists (is_open_approval i) (resolve_approval now i s by l).0.approvals ≡ false
unfolding resolve_approval
none_open now i s by l d = rw d (
    exists-update_where (is_open_approval i) _ l.approvals
      λ a h. unfold set_resolved in ground (arith, d))

winners_none :
    (i : String) (rest : List (ℕ × Decision × String)) (l : Ledger)
    → exists (is_open_approval i) l.approvals ≡ false
    → winners i rest l ≡ 0
unfolding winners
winners_none i [] l h = refl
winners_none i ((now, d, by) ∷ rest) l h =
    let rows =
      update_where_none (is_open_approval i) (set_resolved now (decided d) by) l.approvals h in
    let nobody = (select-nil_iff (is_open_approval i) l.approvals).1 h in
    let later =
      winners_none i rest (resolve_approval now i (decided d) by l).0
        (unfold resolve_approval in ground (arith, rows, h)) in
    let lost : (resolve_approval now i (decided d) by l).1 ≡ false =
      unfold resolve_approval in ground (arith, nobody) in
    rw (lost, later) refl

counted :
    (i : String) (l : Ledger)
    → length (select (is_approval i) l.approvals) ≤ 1
    → length (select (is_open_approval i) l.approvals)
      ≡ (if exists (is_open_approval i) l.approvals then 1 else 0)
counted i l key = length-select-exists (is_open_approval i) l.approvals (
    omega (
      arith,
      key,
      length-select-le (is_open_approval i) (is_approval i) l.approvals λ a h. ground arith,
    ))

-- However many resolvers race for one approval, of which the table holds one row at most, exactly
-- one of them is told that it decided if the row was pending, and none if it was not. The first
-- of them asks for a decision that is approved or rejected.
pub resolvers_one_winner :
    (i : String) (now : ℕ) (d : Decision) (by : String) (rest : List (ℕ × Decision × String))
    (l : Ledger)
    → is_decided (decided d) ≡ true
    → length (select (is_approval i) l.approvals) ≤ 1
    → winners i ((now, d, by) ∷ rest) l ≡ (if exists (is_open_approval i) l.approvals then 1 else 0)
unfolding winners
resolvers_one_winner i now d by rest l valid key =
    let later =
      winners_none i rest (resolve_approval now i (decided d) by l).0
        (none_open now i (decided d) by l valid) in
    let count = counted i l key in
    let won : (resolve_approval now i (decided d) by l).1
        ≡ (length (select (is_open_approval i) l.approvals) == 1) =
      unfold resolve_approval in ground (arith, valid) in
    rw (won, later, count) (ground arith)

approvals-record_approval_flow :
    (drive : Bool) (now : ℕ) (i : String) (t : Option String) (e : EventType) (actor : String)
    (s : Option String) (l : Ledger)
    → (record_approval_flow drive now i t e actor s l).approvals ≡ l.approvals
unfolding record_approval_flow link_approval create_flow_link append_flow_event
approvals-record_approval_flow drive now i none e actor s l = refl
approvals-record_approval_flow drive now i (some t) e actor s l = ground arith

get_approval-resolve_approval :
    (now : ℕ) (i : String) (s : ApprovalStatus) (by : String) (l : Ledger) (a : Approval)
    → is_decided s ≡ true
    → get_approval i l ≡ some a
    → is_pending_approval a.status ≡ true
    → get_approval i (resolve_approval now i s by l).0 ≡ some (set_resolved now s by a)
unfolding get_approval resolve_approval
get_approval-resolve_approval now i s by l a valid found open_row = rw valid (
    first-update_where (is_approval i) (is_open_approval i) (set_resolved now s by) l.approvals
      (λ x. unfold set_resolved in refl)
    ∙ ap (Option.map (λ x. if is_open_approval i x then set_resolved now s by x else x)) found
    ∙ ground (arith, open_row, first_holds (is_approval i) l.approvals a found))

resolve_approval-won :
    (now : ℕ) (i : String) (s : ApprovalStatus) (by : String) (l : Ledger) (a : Approval)
    → is_decided s ≡ true
    → length (select (is_approval i) l.approvals) ≤ 1
    → get_approval i l ≡ some a
    → is_pending_approval a.status ≡ true
    → (resolve_approval now i s by l).1 ≡ true
resolve_approval-won now i s by l a valid key found open_row =
    let there : exists (is_open_approval i) l.approvals ≡ true =
      unfold get_approval in
      exists_of_first (is_approval i) (is_open_approval i) l.approvals a found
        (ground (arith, open_row, first_holds (is_approval i) l.approvals a found)) in
    let count = counted i l key in unfold resolve_approval in ground (arith, valid, there, count)

resolve-commit :
    (drive callback : Bool) (now : ℕ) (i : String) (d : Decision) (by : String) (l : Ledger)
    (a : Approval)
    → is_decided (decided d) ≡ true
    → get_approval i l ≡ some a
    → is_pending_approval a.status ≡ true
    → resolve drive callback now i d by l ≡ commit drive callback now i d by a l
unfolding resolve resolve_pending
resolve-commit drive callback now i (Decision.other s) by l a valid found open_row =
    absurd (ground arith)
resolve-commit drive callback now i approve by l a valid found open_row =
    ground (arith, found, open_row)
resolve-commit drive callback now i reject by l a valid found open_row =
    ground (arith, found, open_row)

resolve-settled :
    (drive callback : Bool) (now : ℕ) (i : String) (d : Decision) (by : String) (l : Ledger)
    (a : Approval)
    → is_decided (decided d) ≡ true
    → get_approval i l ≡ some a
    → is_pending_approval a.status ≡ false
    → resolve drive callback now i d by l ≡ refuse "already_resolved" l
unfolding resolve resolve_pending
resolve-settled drive callback now i (Decision.other s) by l a valid found over =
    absurd (ground arith)
resolve-settled drive callback now i approve by l a valid found over = ground (arith, found, over)
resolve-settled drive callback now i reject by l a valid found over = ground (arith, found, over)

commit-won :
    (drive callback : Bool) (now : ℕ) (i : String) (d : Decision) (by : String) (l : Ledger)
    (a : Approval)
    → (resolve_approval now i (decided d) by l).1 ≡ true
    → let k = commit drive callback now i d by a l in
      let row = get_approval i (resolve_approval now i (decided d) by l).0 in
      (k.answer.ok ≡ true)
      × (get_approval i k.ledger ≡ row)
      × (k.dispatched ≡ (if is_approve d && callback then row else none))
unfolding commit get_approval
commit-won drive callback now i d by l a won =
    let kept =
      approvals-record_approval_flow drive now i a.task_id approval_resolved "operator"
        (some (decision_text d)) (resolve_approval now i (decided d) by l).0 in
    rw won (refl, ap (first (is_approval i)) kept, rw kept refl)

-- What a decision on an approval does, of which the table holds one row at most. If its row is
-- pending, and the decision is to approve or to reject, the command succeeds, the row has the
-- decision, its author and its time, and `on_approve` is called, with that row, exactly if the
-- decision is to approve and there is a callback. After it, every such command on the approval is
-- answered `already_resolved` and changes, emits and dispatches nothing.
pub resolve_lem :
    (drive callback : Bool) (now : ℕ) (i : String) (d : Decision) (by : String) (l : Ledger)
    (a : Approval)
    → is_decided (decided d) ≡ true
    → length (select (is_approval i) l.approvals) ≤ 1
    → get_approval i l ≡ some a
    → is_pending_approval a.status ≡ true
    → let k = resolve drive callback now i d by l in
      let row = set_resolved now (decided d) by a in
      (k.answer.ok ≡ true)
      × (get_approval i k.ledger ≡ some row)
      × (k.dispatched ≡ (if is_approve d && callback then some row else none))
      × ((drive' callback' : Bool) (later : ℕ) (d' : Decision) (by' : String)
          → is_decided (decided d') ≡ true
          → resolve drive' callback' later i d' by' k.ledger ≡ refuse "already_resolved" k.ledger)
resolve_lem drive callback now i d by l a valid key found open_row =
    let won = resolve_approval-won now i (decided d) by l a valid key found open_row in
    let same = resolve-commit drive callback now i d by l a valid found open_row in
    let (done, kept, sent) = commit-won drive callback now i d by l a won in
    let after : get_approval i (commit drive callback now i d by a l).ledger
        ≡ some (set_resolved now (decided d) by a) =
      kept ∙ get_approval-resolve_approval now i (decided d) by l a valid found open_row in
    rw same (
      done,
      after,
      rw (sent, get_approval-resolve_approval now i (decided d) by l a valid found open_row) refl,
      λ drive' callback' later d' by' valid'.
          resolve-settled drive' callback' later i d' by' _ (set_resolved now (decided d) by a)
            valid' after (unfold set_resolved in ground (arith, valid)),
    )
