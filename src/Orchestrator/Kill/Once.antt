-- ===== src/Orchestrator/Kill/Once.antt =====
-- A Case that is killed twice: interrupt_case of src/orchestrator.py.
use ai_team.Prelude.{
  ℕ, ◌<◌, String, ◌≡◌, refl, sym, ap, subst, ◌∙◌, inl, inr, Bool, true, false, ◌||◌, not, none,
  some, List, ◌∷◌, arith, if◌then◌else◌, str_eq, eq_of_str_eq, same_text?, Bool-cases, Option-cases,
  length, take, select, exists, [],
}
use ai_team.Case.{Ledger, flow_interrupted, task}
use ai_team.Case.Close.Limits.{list_flow_events_room}
use ai_team.Case.Criteria.{Python}
use ai_team.Case.Flow.{
  status, update_flow_run, get_flow_run, list_flow_links, is_event_of, event_limit,
  list_flow_events,
}
use ai_team.Case.Waits.{lookup}
use ai_team.Orchestrator.{Notice, word, cap_reason}
use ai_team.Continuation.Brief.{link_limit}
use ai_team.Orchestrator.Kill.{cancelled_of, blocked, is_kill, interrupt_open, interrupt_case}
use ai_team.Orchestrator.Wake.Halted.{is_halted, interrupt_open-halts}

abbrev is_killed : String → Ledger → Bool
is_killed case_id l = exists is_kill (list_flow_events case_id l)

-- Setting the status of a Case leaves the events as they are.
same_events :
    (b : Bool) (now : ℕ) (case_id : String) (l : Ledger)
    → (if b then l else update_flow_run now case_id ((status, some "blocked") ∷ []) l).events
      ≡ l.events
unfolding update_flow_run
same_events true now case_id l = refl
same_events false now case_id l = refl

new_kill :
    (reason listed : String)
    → str_eq reason cap_reason ≡ false
    → not (
        same_text?
          (lookup "reason" (("reason", reason) ∷ ("cancelled_tasks", listed) ∷ []))
          (some cap_reason))
      ≡ true
unfolding same_text? lookup str_eq
new_kill reason listed other = ap not other

interrupt_open-killed :
    (cancels : String → Bool) (listing : List String → String) (now : ℕ)
    (case_id actor reason wd : String) (l : Ledger) (notices : List Notice)
    → str_eq reason cap_reason ≡ false
    → length (select (is_event_of case_id) l.events) < event_limit
    → is_killed case_id
        (interrupt_open cancels listing now case_id actor reason wd (l, notices)).0.0
      ≡ true
unfolding interrupt_open list_flow_events
interrupt_open-killed cancels listing now case_id actor reason wd l notices other room =
    let b = str_eq wd "blocked" in
    let stopped = if b then l else update_flow_run now case_id ((status, some "blocked") ∷ []) l in
    let same = same_events b now case_id l in
    elim (Bool-cases (is_killed case_id l)) [
      | inl old ↦ rw old (
          ap (λ es. exists is_kill (take event_limit (select (is_event_of case_id) es))) same ∙ old)
      | inr fresh ↦ rw fresh (
          list_flow_events_room now case_id flow_interrupted actor none none none none _ stopped
            is_kill
            (subst (λ es. length (select (is_event_of case_id) es) < event_limit) (sym same) room)
            (new_kill reason _ other))
    ]

interrupt_open-again :
    (cancels : String → Bool) (listing : List String → String) (now : ℕ)
    (case_id actor reason wd : String) (l : Ledger) (notices : List Notice)
    → str_eq wd "blocked" ≡ true
    → is_killed case_id l ≡ true
    → (interrupt_open cancels listing now case_id actor reason wd (l, notices)).0 ≡ (l, notices)
unfolding interrupt_open
interrupt_open-again cancels listing now case_id actor reason wd l notices halted killed =
    ground (arith, halted, killed)

interrupt_open-answer :
    (cancels : String → Bool) (listing : List String → String) (now : ℕ)
    (case_id actor reason wd : String) (l : Ledger) (notices : List Notice)
    → is_killed case_id l ≡ true
    → (ids : List String) × ((interrupt_open cancels listing now case_id actor reason wd
          (l, notices)).1
        ≡ blocked ids true)
unfolding interrupt_open
interrupt_open-answer cancels listing now case_id actor reason wd l notices killed = (
  cancelled_of cancels (list_flow_links (some case_id) (some task) none (some "task") link_limit l),
  ground (arith, killed),
)

blocked_goes_on :
    (wd : String)
    → str_eq wd "blocked" ≡ true
    → (str_eq wd "closed" || str_eq wd "cancelled") ≡ false
unfolding str_eq
blocked_goes_on wd h =
    ap (λ w. str_eq w "closed" || str_eq w "cancelled") (eq_of_str_eq wd "blocked" h)

-- A kill of a Case that says blocked, and whose kill can be read back.
killed_again :
    (py : Python) (cancels : String → Bool) (listing : List String → String) (now : ℕ)
    (case_id actor reason : String) (st : Ledger × List Notice)
    → is_halted py (get_flow_run case_id st.0) ≡ true
    → is_killed case_id st.0 ≡ true
    → ((interrupt_case py cancels listing now case_id actor reason st).0 ≡ st)
      × ((ids : List String) × ((interrupt_case py cancels listing now case_id actor reason st).1
            ≡ blocked ids true))
unfolding interrupt_case
killed_again py cancels listing now case_id actor reason (l, notices) halted killed =
    elim (Option-cases (get_flow_run case_id l)) [
      | inl gone ↦ absurd (ground (arith, gone, halted))
      | inr (r, found) ↦
          let says : str_eq (word py r.status) "blocked" ≡ true = ground (arith, found, halted) in
          let goes = blocked_goes_on (word py r.status) says in
          let opened : interrupt_case py cancels listing now case_id actor reason (l, notices)
              ≡ interrupt_open cancels listing now case_id actor reason (word py r.status)
                  (l, notices) =
            ground (arith, found, goes) in
          let (ids, answer) =
            interrupt_open-answer cancels listing now case_id actor reason (word py r.status) l
              notices killed in
          (
            ap (λ x. x.0) opened
                ∙ interrupt_open-again cancels listing now case_id actor reason (word py r.status) l
                    notices says killed,
            (ids, ap (λ x. x.1) opened ∙ answer),
          )
    ]

-- A kill is made once: where a Case has fewer than 500 events and the reason given is not the round
-- cap's, a kill that is answered with `blocked` leaves nothing to a second one: whatever tasks that
-- can still signal, it writes no row and sends no notice, and answers that the Case was killed
-- before. Lower-casing is to leave the word "blocked" as it is.
pub interrupt_case_once :
    (py : Python) (cancels cancels' : String → Bool) (listing : List String → String)
    (now later : ℕ) (case_id actor actor' reason reason' : String) (l : Ledger)
    (notices : List Notice) (cancelled : List String) (already : Bool)
    → py.lower "blocked" ≡ "blocked"
    → str_eq reason cap_reason ≡ false
    → length (select (is_event_of case_id) l.events) < event_limit
    → let (after, answer) =
        interrupt_case py cancels listing now case_id actor reason (l, notices) in
      answer ≡ blocked cancelled already
      → let (after', answer') =
          interrupt_case py cancels' listing later case_id actor' reason' after in
        (after' ≡ after) × ((again : List String) × (answer' ≡ blocked again true))
interrupt_case_once py cancels cancels' listing now later case_id actor actor' reason reason' l
      notices cancelled already plain other room answered =
    let done = interrupt_case py cancels listing now case_id actor reason (l, notices) in
    elim (Option-cases (get_flow_run case_id l)) [
      | inl gone ↦ absurd (unfold interrupt_case in ground (arith, gone, answered))
      | inr (r, found) ↦
          let wd = word py r.status in
          let opened = interrupt_open cancels listing now case_id actor reason wd (l, notices) in
          elim (Bool-cases (str_eq wd "closed" || str_eq wd "cancelled")) [
            | inl over ↦ absurd (unfold interrupt_case in ground (arith, found, over, answered))
            | inr goes ↦
                let same : opened ≡ done = unfold interrupt_case in ground (arith, found, goes) in
                killed_again py cancels' listing later case_id actor' reason' done.0
                  (ap (λ x. is_halted py (get_flow_run case_id x.0.0)) (sym same)
                    ∙ interrupt_open-halts py cancels listing now case_id actor reason l notices r
                        plain found)
                  (ap (λ x. is_killed case_id x.0.0) (sym same)
                    ∙ interrupt_open-killed cancels listing now case_id actor reason wd l notices
                        other room)
          ]
    ]
