-- ===== src/Case/Close/Guards.antt =====
-- When a Case closes, and what closing it does: close_case of src/control/db.py.
use mathlib.Core.Option
use ai_team.Prelude.{
  first-update_where, ℕ, suc, ◌≤◌, String, ◌≡◌, refl, sym, ap, ◌∙◌, ◌≢◌, ◌↔◌, inl, inr, Bool, true,
  false, ◌&&◌, ◌||◌, not, none, some, List, ◌∷◌, arith, Option-cases, All, length, take, select,
  exists, first, take_all, first_holds, select-nil_iff, exists-select, [],
}
use ai_team.Case.{FlowRun, Ledger}
use ai_team.Case.Criteria.{Python, Entry, parse_completion_criteria, unreconciled_criteria}
use ai_team.Case.Criteria.Reconcile.{Answered, unreconciled_criteria_iff}
use ai_team.Case.Flow.{
  is_run, is_child, insert_run, oldest_first, list_child_flow_runs, get_flow_run, update_flow_run,
  append_flow_event, list_flow_events, is_closed_status,
}
use ai_team.Case.Close.{
  case_has_unresolved_approval, child_limit, rework_outstanding, closed_now, already_terminal,
  seen_open_children, close_refusal, record_closing, close_case,
}

abbrev pub open_child : String → FlowRun → Bool
open_child parent r = is_child parent r && not (is_closed_status r.status)

-- Nothing stands in the way of closing the Case whose row this is.
pub record MayClose (py : Python) (review_emitter : Bool) (flow_run_id : String) (row : FlowRun)
    (entries : List Entry) (l : Ledger) : Type 0 where
  pub was_open : is_closed_status row.status ≡ false
  pub children_closed : exists (open_child flow_run_id) l.runs ≡ false
  pub approvals_settled : case_has_unresolved_approval flow_run_id l ≡ false
  pub criteria_answered :
      All (Answered py entries) (parse_completion_criteria py row.completion_criteria)
  pub reviewed : (review_emitter && rework_outstanding (list_flow_events flow_run_id l)) ≡ false

exists-insert_run :
    (p : FlowRun → Bool) (r : FlowRun) (rs : List FlowRun)
    → exists p (insert_run r rs) ≡ (p r || exists p rs)
unfolding insert_run exists
exists-insert_run p r [] = refl
exists-insert_run p r (s ∷ ss) = ground (arith, exists-insert_run p r ss)

exists-oldest_first :
    (p : FlowRun → Bool) (rs : List FlowRun) → exists p (oldest_first rs) ≡ exists p rs
unfolding oldest_first exists
exists-oldest_first p [] = refl
exists-oldest_first p (r ∷ rs) =
    exists-insert_run p r (oldest_first rs) ∙ ap (λ b. p r || b) (exists-oldest_first p rs)

length-insert_run : (r : FlowRun) (rs : List FlowRun) → length (insert_run r rs) ≡ suc (length rs)
unfolding insert_run
length-insert_run r [] = refl
length-insert_run r (s ∷ ss) = ground (arith, length-insert_run r ss)

length-oldest_first : (rs : List FlowRun) → length (oldest_first rs) ≡ length rs
unfolding oldest_first
length-oldest_first [] = refl
length-oldest_first (r ∷ rs) =
    length-insert_run r (oldest_first rs) ∙ ap suc (length-oldest_first rs)

-- Where the children fit in one page, the guard sees an open child exactly if there is one.
seen_open_children_iff :
    (flow_run_id : String) (l : Ledger)
    → length (select (is_child flow_run_id) l.runs) ≤ child_limit
    → (seen_open_children flow_run_id l ≡ []) ↔ (exists (open_child flow_run_id) l.runs ≡ false)
unfolding seen_open_children list_child_flow_runs
seen_open_children_iff flow_run_id l few =
    let children = select (is_child flow_run_id) l.runs in
    let is_open = λ (c : FlowRun). not (is_closed_status c.status) in
    let whole : take child_limit (oldest_first children) ≡ oldest_first children =
      take_all child_limit (oldest_first children) (rw (length-oldest_first children) few) in
    let same : exists is_open (take child_limit (oldest_first children))
        ≡ exists (open_child flow_run_id) l.runs =
      ap (exists is_open) whole
      ∙ exists-oldest_first is_open children
      ∙ exists-select is_open (is_child flow_run_id) l.runs in
    let nil = select-nil_iff is_open (take child_limit (oldest_first children)) in
    (λ h. sym same ∙ nil.0 h, λ h. nil.1 (same ∙ h))

pub no_refusal_iff :
    (py : Python) (review_emitter : Bool) (flow_run_id : String) (row : FlowRun)
    (entries : List Entry) (l : Ledger)
    → (close_refusal py review_emitter flow_run_id row entries l ≡ none) ↔ (
        (seen_open_children flow_run_id l ≡ [])
        × (case_has_unresolved_approval flow_run_id l ≡ false)
        × (unreconciled_criteria py row.completion_criteria entries ≡ [])
        × ((review_emitter && rework_outstanding (list_flow_events flow_run_id l)) ≡ false))
unfolding close_refusal
no_refusal_iff py review_emitter flow_run_id row entries l =
    (λ h. (ground arith, ground arith, ground arith, ground arith), λ h. ground arith)

-- Where a Case has at most 50 children, `close_case` with a terminal outcome closes it exactly
-- when its row is there and open, no child of it is open, no approval linked to it is pending,
-- each completion criterion has an entry that says it is met, or waived for a reason, and, where
-- the review gate is on, the latest review that is read does not ask for rework.
pub close_case_iff :
    (py : Python) (review_emitter : Bool) (now : ℕ) (flow_run_id outcome actor : String)
    (entries : List Entry) (l : Ledger)
    → is_closed_status (some outcome) ≡ true
    → length (select (is_child flow_run_id) l.runs) ≤ child_limit
    → ((close_case py review_emitter now flow_run_id outcome actor entries l).1 ≡ closed_now) ↔ (
        (row : FlowRun) × (get_flow_run flow_run_id l ≡ some row)
        × MayClose py review_emitter flow_run_id row entries l)
close_case_iff py review_emitter now flow_run_id outcome actor entries l terminal few = (
  λ h. elim (Option-cases (get_flow_run flow_run_id l)) [
    | inl gone ↦ absurd (unfold close_case in ground (arith, gone))
    | inr (row, found) ↦
        elim (Option-cases (close_refusal py review_emitter flow_run_id row entries l)) [
          | inr (why, e) ↦ absurd (unfold close_case in ground (arith, found, e))
          | inl e ↦
              let (children, approvals, criteria, reviews) =
                (no_refusal_iff py review_emitter flow_run_id row entries l).0 e in
              (
                row,
                found,
                record {
                  was_open = unfold close_case in ground (arith, found, e);
                  children_closed = (seen_open_children_iff flow_run_id l few).0 children;
                  approvals_settled = approvals;
                  criteria_answered =
                      (unreconciled_criteria_iff py row.completion_criteria entries).0 criteria;
                  reviewed = reviews;
                },
              )
        ]
  ],
  λ (row, found, m).
      let e = (no_refusal_iff py review_emitter flow_run_id row entries l).1 (
        (seen_open_children_iff flow_run_id l few).1 m.children_closed,
        m.approvals_settled,
        (unreconciled_criteria_iff py row.completion_criteria entries).1 m.criteria_answered,
        m.reviewed,
      ) in
      unfold close_case in ground (arith, found, e, m.was_open),
)

-- A call that does not close the Case, whether it raises or returns False, writes nothing.
pub close_case_refused :
    (py : Python) (review_emitter : Bool) (now : ℕ) (flow_run_id outcome actor : String)
    (entries : List Entry) (l : Ledger)
    → (close_case py review_emitter now flow_run_id outcome actor entries l).1 ≢ closed_now
    → (close_case py review_emitter now flow_run_id outcome actor entries l).0 ≡ l
unfolding close_case
close_case_refused py review_emitter now flow_run_id outcome actor entries l h = ground arith

get_flow_run-record_closing :
    (now : ℕ) (flow_run_id outcome actor : String) (l : Ledger) (row : FlowRun)
    → get_flow_run flow_run_id l ≡ some row
    → get_flow_run flow_run_id (record_closing now flow_run_id outcome actor l)
      ≡ some (record row { status = some outcome; updated_at = some now })
unfolding get_flow_run record_closing update_flow_run append_flow_event first
get_flow_run-record_closing now flow_run_id outcome actor l row found =
    first-update_where (is_run flow_run_id) (is_run flow_run_id) _ l.runs (λ r. refl)
    ∙ ground (arith, found, first_holds (is_run flow_run_id) l.runs row found)

-- What a call that closes the Case has written.
closed_ledger :
    (py : Python) (review_emitter : Bool) (now : ℕ) (flow_run_id outcome actor : String)
    (entries : List Entry) (l : Ledger)
    → (close_case py review_emitter now flow_run_id outcome actor entries l).1 ≡ closed_now
    → (row : FlowRun) × (get_flow_run flow_run_id l ≡ some row)
      × (is_closed_status (some outcome) ≡ true)
      × ((close_case py review_emitter now flow_run_id outcome actor entries l).0
          ≡ record_closing now flow_run_id outcome actor l)
closed_ledger py review_emitter now flow_run_id outcome actor entries l h =
    elim (Option-cases (get_flow_run flow_run_id l)) [
      | inl gone ↦ absurd (unfold close_case in ground (arith, gone))
      | inr (row, found) ↦ (
        row,
        found,
        unfold close_case in ground arith,
        unfold close_case in ground (arith, found),
      )
    ]

-- A Case closes once: when a call has closed it, its row has the outcome for its status, and every
-- later call with a terminal outcome, whatever its arguments, returns False and writes nothing.
pub close_case_once :
    (py : Python) (review_emitter again : Bool) (now later : ℕ)
    (flow_run_id outcome outcome' actor actor' : String) (entries entries' : List Entry)
    (l : Ledger)
    → is_closed_status (some outcome') ≡ true
    → (close_case py review_emitter now flow_run_id outcome actor entries l).1 ≡ closed_now
    → let closed = (close_case py review_emitter now flow_run_id outcome actor entries l).0 in
      (Option.map (λ r. r.status) (get_flow_run flow_run_id closed) ≡ some (some outcome))
      × (close_case py again later flow_run_id outcome' actor' entries' closed
          ≡ (closed, already_terminal))
close_case_once py review_emitter again now later flow_run_id outcome outcome' actor actor' entries
      entries' l terminal h =
    let (row, found, ended, written) =
      closed_ledger py review_emitter now flow_run_id outcome actor entries l h in
    let after = get_flow_run-record_closing now flow_run_id outcome actor l row found in
    rw written (
      ap (Option.map (λ (r : FlowRun). r.status)) after,
      unfold close_case in ground (arith, after, ended, terminal),
    )
