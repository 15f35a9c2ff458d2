-- ===== src/Orchestrator/Kill.antt =====
-- The operator's kill of a Case: interrupt_case of src/orchestrator.py. Whether cancel_task finds a
-- running task to signal is an argument.
pub mod Once
use ai_team.Prelude.{
  ℕ, ◌+◌, String, Bool, ◌&&◌, ◌||◌, not, none, some, List, ◌∷◌, ◌++◌, if◌then◌else◌, str_eq,
  same_text?, length, exists, strip, [],
}
use ai_team.Case.{task, flow_interrupted, blank, FlowLink, FlowEvent, Ledger}
use ai_team.Case.Flow.{
  status, update_flow_run, append_flow_event, list_flow_events, list_flow_links, get_flow_run,
}
use ai_team.Continuation.Brief.{link_limit}
use ai_team.Orchestrator.{Notice, killed, reason_of, is_interrupted, cap_reason, word}
use ai_team.Case.Criteria.{Python}

-- The answers: a refusal with its reason, or what was cancelled and whether it was killed before.
pub data Interrupted : Type 0 where
  refused : (reason : String) → Interrupted
  blocked : (cancelled_tasks : List String) (already : Bool) → Interrupted

-- A kill that was recorded before; the escalation of a round cap is none.
abbrev pub is_kill : FlowEvent → Bool
is_kill e = is_interrupted e.event_type && not (same_text? (reason_of e) (some cap_reason))

-- The tasks of the worker links that the Manager made, where cancel_task signals one.
unfoldable pub cancelled_of : (cancels : String → Bool) → List FlowLink → List String
cancelled_of cancels [] = []
cancelled_of cancels (k ∷ ks) =
    let tid = strip k.entity_id in
    let rest = cancelled_of cancels ks in
    if same_text? k.created_by (some "manager") && (not (str_eq tid "") && cancels tid)
    then tid ∷ rest
    else rest

-- What is written where the Case is open, with the notices. `listing` is the text of the ids.
unfoldable pub interrupt_open :
    (cancels : String → Bool) (listing : List String → String) (now : ℕ)
    (case_id actor reason word : String)
    → Ledger × List Notice
    → (Ledger × List Notice) × Interrupted
unfolding cancelled_of
interrupt_open cancels listing now case_id actor reason word (l, notices) =
    let already = exists is_kill (list_flow_events case_id l) in
    let cancelled =
      cancelled_of cancels
        (list_flow_links (some case_id) (some task) none (some "task") link_limit l) in
    let stopped =
      if str_eq word "blocked"
      then l
      else update_flow_run now case_id ((status, some "blocked") ∷ []) l in
    if already then ((stopped, notices), blocked cancelled already) else (
      (
        (append_flow_event now case_id flow_interrupted actor none none none none
            (some (record blank {
              rest = ("reason", reason) ∷ ("cancelled_tasks", listing cancelled) ∷ [];
            }))
            stopped).0,
        notices ++ killed case_id reason (length cancelled) ∷ [],
      ),
      blocked cancelled already,
    )

unfoldable pub interrupt_case :
    (py : Python) (cancels : String → Bool) (listing : List String → String) (now : ℕ)
    (case_id actor reason : String)
    → Ledger × List Notice
    → (Ledger × List Notice) × Interrupted
unfolding interrupt_open
interrupt_case py cancels listing now case_id actor reason (l, notices) =
    elim (get_flow_run case_id l) [
      | none ↦ ((l, notices), refused "case_not_found")
      | some r ↦
          let w = word py r.status in
          if str_eq w "closed" || str_eq w "cancelled"
          then ((l, notices), refused "case_closed")
          else interrupt_open cancels listing now case_id actor reason w (l, notices)
    ]
