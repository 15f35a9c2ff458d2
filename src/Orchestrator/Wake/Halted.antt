-- ===== src/Orchestrator/Wake/Halted.antt =====
-- Cases that the Wake-Dispatcher leaves alone or gives up on: the guards and the escalations of
-- _continue_case_once of src/orchestrator.py, with interrupt_case.
use mathlib.Core.Option
use ai_team.Prelude.{
  strip_blocked, ℕ, ◌≤◌, ◌<◌, String, ◌≡◌, refl, ap, ◌∙◌, inl, inr, Bool, true, false, ◌||◌, Option,
  none, some, List, ◌∷◌, ◌++◌, arith, if◌then◌else◌, str_eq, str_eq_refl, Bool-cases, Option-cases,
  length, select, exists, first, first-update_same, strip, [],
}
use ai_team.Case.{Ledger, FlowRun, case_manager_unavailable}
use ai_team.Case.Close.Limits.{list_flow_events_room, list_flow_events_full}
use ai_team.Case.Flow.{
  status, set_field, set_fields, is_run, update_flow_run, append_flow_event, get_flow_run,
  is_event_of, event_limit, list_flow_events,
}
use ai_team.Orchestrator.{
  Python, Env, World, Notice, headless, word, is_unavailable, escalate_headless_case,
}
use ai_team.Orchestrator.Kill.{blocked, interrupt_open, interrupt_case}
use ai_team.Orchestrator.Wake.{is_blocked, continue_case_once}

-- A Case whose status says blocked is left as it is, in all its tables.
pub blocked_is_left :
    (env : Env) (now : ℕ) (case_id : String) (w : World)
    → is_blocked env case_id w ≡ true
    → continue_case_once env now case_id w ≡ (w, none)
unfolding continue_case_once
blocked_is_left env now case_id w halted = ground (arith, halted)

-- The row of a Case after its status was set.
updated_run :
    (now : ℕ) (case_id : String) (l : Ledger) (r : FlowRun)
    → get_flow_run case_id l ≡ some r
    → get_flow_run case_id (update_flow_run now case_id ((status, some "blocked") ∷ []) l)
      ≡ some (record r { status = some "blocked"; updated_at = some now })
unfolding get_flow_run update_flow_run set_fields set_field
updated_run now case_id l r found =
    first-update_same (is_run case_id) _ l.runs (λ x h. h) ∙ ap (Option.map _) found

interrupt_open-runs :
    (cancels : String → Bool) (listing : List String → String) (now : ℕ)
    (case_id actor reason wd : String) (l : Ledger) (notices : List Notice)
    → let stopped =
        if str_eq wd "blocked"
        then l
        else update_flow_run now case_id ((status, some "blocked") ∷ []) l in
      (interrupt_open cancels listing now case_id actor reason wd (l, notices)).0.0.runs
      ≡ stopped.runs
unfolding interrupt_open append_flow_event
interrupt_open-runs cancels listing now case_id actor reason wd l notices = ground arith

abbrev pub is_halted : Python → Option FlowRun → Bool
is_halted py row = elim row [ none ↦ false | some r ↦ str_eq (word py r.status) "blocked" ]

word_blocked :
    (py : Python)
    → py.lower "blocked" ≡ "blocked"
    → str_eq (word py (some "blocked")) "blocked" ≡ true
unfolding str_eq strip
word_blocked py plain = rw (strip_blocked, plain) (str_eq_refl "blocked")

pub interrupt_open-halts :
    (py : Python) (cancels : String → Bool) (listing : List String → String) (now : ℕ)
    (case_id actor reason : String) (l : Ledger) (notices : List Notice) (r : FlowRun)
    → py.lower "blocked" ≡ "blocked"
    → get_flow_run case_id l ≡ some r
    → is_halted py (
        get_flow_run case_id
          (interrupt_open cancels listing now case_id actor reason
            (word py r.status)
            (l, notices)).0.0)
      ≡ true
unfolding get_flow_run
interrupt_open-halts py cancels listing now case_id actor reason l notices r plain found =
    let wd = word py r.status in
    let stopped = update_flow_run now case_id ((status, some "blocked") ∷ []) l in
    let rows = interrupt_open-runs cancels listing now case_id actor reason wd l notices in
    let here = ap (λ rs. is_halted py (first (is_run case_id) rs)) rows in
    elim (Bool-cases (str_eq wd "blocked")) [
      | inl already ↦ here ∙ ground (arith, already, found)
      | inr runs ↦
          here
          ∙ ap (λ b. is_halted py (first (is_run case_id) (if b then l else stopped).runs)) runs
          ∙ ap (is_halted py) (updated_run now case_id l r found)
          ∙ word_blocked py plain
    ]

-- A Case that was killed is not woken by the dispatcher: where the kill is answered with `blocked`,
-- a pass on the Case, with that ledger and whatever other tables, changes nothing and delivers
-- nothing. Lower-casing is to leave the word "blocked" as it is.
pub killed_case_is_not_woken :
    (env : Env) (cancels : String → Bool) (listing : List String → String) (now later : ℕ)
    (case_id actor reason : String) (w : World) (notices : List Notice) (cancelled : List String)
    (already : Bool)
    → env.py.lower "blocked" ≡ "blocked"
    → let ((l, sent), answer) =
        interrupt_case env.py cancels listing now case_id actor reason (w.ledger, notices) in
      answer ≡ blocked cancelled already
      → continue_case_once env later case_id (record w { ledger = l })
        ≡ (record w { ledger = l }, none)
killed_case_is_not_woken env cancels listing now later case_id actor reason w notices cancelled
      already plain answered =
    let l =
      (interrupt_case env.py cancels listing now case_id actor reason (w.ledger, notices)).0.0 in
    blocked_is_left env later case_id (record w { ledger = l })
      (elim (Option-cases (get_flow_run case_id w.ledger)) [
        | inl gone ↦ absurd (unfold interrupt_case in ground (arith, gone, answered))
        | inr (r, found) ↦
            let over =
              str_eq (word env.py r.status) "closed" || str_eq (word env.py r.status) "cancelled" in
            elim (Bool-cases over) [
              | inl done ↦ absurd (unfold interrupt_case in ground (arith, found, done, answered))
              | inr runs ↦
                  let same : l
                      ≡ (interrupt_open cancels listing now case_id actor reason
                          (word env.py r.status) (w.ledger, notices)).0.0 =
                    unfold interrupt_case in ground (arith, found, runs) in
                  ap (λ x. is_halted env.py (get_flow_run case_id x)) same
                  ∙ interrupt_open-halts env.py cancels listing now case_id actor reason w.ledger
                      notices r plain found
            ]
      ])

abbrev is_escalated : String → Ledger → Bool
is_escalated case_id l = exists (λ e. is_unavailable e.event_type) (list_flow_events case_id l)

escalated_again :
    (now : ℕ) (case_id : String) (sid : Option String) (w : World)
    → is_escalated case_id w.ledger ≡ true
    → escalate_headless_case now case_id sid w ≡ w
unfolding escalate_headless_case
escalated_again now case_id sid w old = ground (arith, old)

escalated_notice :
    (now : ℕ) (case_id : String) (sid : Option String) (w : World)
    → is_escalated case_id w.ledger ≡ false
    → (escalate_headless_case now case_id sid w).notices ≡ w.notices ++ headless case_id sid ∷ []
unfolding escalate_headless_case
escalated_notice now case_id sid w fresh = ground (arith, fresh)

escalated_room :
    (now : ℕ) (case_id : String) (sid : Option String) (w : World)
    → length (select (is_event_of case_id) w.ledger.events) < event_limit
    → is_escalated case_id (escalate_headless_case now case_id sid w).ledger ≡ true
unfolding escalate_headless_case
escalated_room now case_id sid w room =
    let read_back =
      list_flow_events_room now case_id case_manager_unavailable "system" none none none none _
        w.ledger (λ e. is_unavailable e.event_type) room refl in
    elim (Bool-cases (is_escalated case_id w.ledger)) [
      | inl old ↦ rw old old
      | inr fresh ↦ rw fresh read_back
    ]

escalated_full :
    (now : ℕ) (case_id : String) (sid : Option String) (w : World)
    → event_limit ≤ length (select (is_event_of case_id) w.ledger.events)
    → is_escalated case_id w.ledger ≡ false
    → is_escalated case_id (escalate_headless_case now case_id sid w).ledger ≡ false
unfolding escalate_headless_case
escalated_full now case_id sid w full fresh = rw fresh (
    ap (exists (λ e. is_unavailable e.event_type)) (
      list_flow_events_full now case_id case_manager_unavailable "system" none none none none _
        w.ledger full)
    ∙ fresh)

-- A Case whose marker can be read back is escalated once: where its events are fewer than 500, a
-- second escalation of its missing Manager writes nothing and sends no notice. With 500 events or
-- more, none of the first 500 of which is the marker, each escalation sends one more notice.
pub headless_escalations :
    (now later : ℕ) (case_id : String) (sid sid' : Option String) (w : World)
    → let once = escalate_headless_case now case_id sid w in
      (length (select (is_event_of case_id) w.ledger.events) < event_limit
        → escalate_headless_case later case_id sid' once ≡ once)
      × (event_limit ≤ length (select (is_event_of case_id) w.ledger.events)
          → exists (λ e. is_unavailable e.event_type) (list_flow_events case_id w.ledger) ≡ false
          → (escalate_headless_case later case_id sid' once).notices
            ≡ (w.notices ++ headless case_id sid ∷ []) ++ headless case_id sid' ∷ [])
headless_escalations now later case_id sid sid' w = (
  λ room.
      escalated_again later case_id sid' (escalate_headless_case now case_id sid w)
        (escalated_room now case_id sid w room),
  λ full fresh.
      escalated_notice later case_id sid' (escalate_headless_case now case_id sid w)
        (escalated_full now case_id sid w full fresh)
      ∙ ap (λ ns. ns ++ headless case_id sid' ∷ []) (escalated_notice now case_id sid w fresh),
)
