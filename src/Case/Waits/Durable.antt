-- ===== src/Case/Waits/Durable.antt =====
-- The markers of durable waits: record_worker_wait and reconcile_worker_waits of
-- src/control/db.py.
use ai_team.Prelude.{
  Bool, map, ℕ, ◌+◌, ◌<◌, String, ◌≡◌, ap, ◌∙◌, inl, inr, true, false, not, Option, none, some,
  List, ◌∷◌, ◌++◌, arith, str_eq_refl, same_text?, Option-cases, All, length, take, select,
  length-append, take_all, select-append, member, [],
}
use ai_team.Case.{
  task, EventType, worker_wait_resolved, worker_wait_pending, blank, FlowEvent, Ledger,
}
use ai_team.Case.Flow.{is_event_of, event_limit, append_flow_event, list_flow_events}
use ai_team.Case.Waits.{live_marker, record_worker_wait, lookup, Scan, marker_timeout, Reconciled}

-- The event that record_worker_wait appends.
abbrev wait_event : ℕ → ℕ → String → String → Option ℕ → String → FlowEvent
wait_event id now f tid timeout actor = record {
  id = id;
  flow_run_id = f;
  event_type = worker_wait_pending;
  actor = actor;
  from_state = none;
  to_state = none;
  entity_type = some task;
  entity_id = some tid;
  payload = some (record blank { timeout = timeout; rest = ("task_id", tid) ∷ [] });
  created_at = now;
}

live_marker-wait :
    (tid : String) (es : List FlowEvent) (found : Option FlowEvent) (id now : ℕ) (f : String)
    (timeout : Option ℕ) (actor : String)
    → live_marker tid (es ++ wait_event id now f tid timeout actor ∷ []) found
      ≡ some (wait_event id now f tid timeout actor)
unfolding live_marker same_text?
live_marker-wait tid [] found id now f timeout actor = ground (arith, str_eq_refl tid)
live_marker-wait tid (e ∷ es) found id now f timeout actor =
    live_marker-wait tid es _ id now f timeout actor

page-append :
    (id now : ℕ) (f tid : String) (timeout : Option ℕ) (actor : String) (l : Ledger)
    → length (select (is_event_of f) l.events) < event_limit
    → take event_limit
        (select (is_event_of f) (l.events ++ wait_event id now f tid timeout actor ∷ []))
      ≡ select (is_event_of f) l.events ++ wait_event id now f tid timeout actor ∷ []
page-append id now f tid timeout actor l room =
    let e = wait_event id now f tid timeout actor in
    let mine : select (is_event_of f) (e ∷ []) ≡ e ∷ [] =
      unfold select in ground (arith, str_eq_refl f) in
    let whole =
      select-append (is_event_of f) l.events (e ∷ [])
      ∙ ap (λ x. select (is_event_of f) l.events ++ x) mine in
    ap (take event_limit) whole
    ∙ take_all event_limit (select (is_event_of f) l.events ++ e ∷ [])
        (omega (arith, room, length-append (select (is_event_of f) l.events) (e ∷ [])))

-- Recording a wait twice records it once: where a Case has fewer than 500 events, a second call
-- for the task, with whatever timeout and actor, writes nothing and returns the id of the first.
pub record_worker_wait_once :
    (now later : ℕ) (f tid : String) (timeout timeout' : Option ℕ) (actor actor' : String)
    (l : Ledger)
    → length (select (is_event_of f) l.events) < event_limit
    → let (l', id) = record_worker_wait true now f tid timeout actor l in
      record_worker_wait true later f tid timeout' actor' l' ≡ (l', id)
record_worker_wait_once now later f tid timeout timeout' actor actor' l room =
    elim (Option-cases (live_marker tid (list_flow_events f l) none)) [
      | inr (e, live) ↦ unfold record_worker_wait in ground (arith, live)
      | inl free ↦
          let e = wait_event l.next_event now f tid timeout actor in
          let first_call : record_worker_wait true now f tid timeout actor l ≡ (
            record l { events = l.events ++ e ∷ []; next_event = l.next_event + 1 },
            some l.next_event,
          ) =
            unfold record_worker_wait append_flow_event in ground (arith, free) in
          let live : live_marker tid
                (list_flow_events f
                  (record l { events = l.events ++ e ∷ []; next_event = l.next_event + 1 }))
                none
              ≡ some e =
            unfold list_flow_events in
            rw (page-append l.next_event now f tid timeout actor l room)
              (live_marker-wait tid _ none l.next_event now f timeout actor) in
          rw first_call (unfold record_worker_wait in ground (arith, live))
    ]

-- The markers that the loop does not pass over.
abbrev open_markers : Scan → List (String × FlowEvent) → List (String × FlowEvent)
open_markers s ms = select (λ m. not (member m.0 s.resolved_tasks)) ms

abbrev has_result : Scan → String × FlowEvent → Bool
has_result s m = elim (lookup m.0 s.finished) [ none ↦ false | some outcome ↦ true ]

-- What an event says of a wait: its Case, its type, its task and its outcome.
abbrev report : FlowEvent → String × EventType × Option String × Option String
report e =
    (e.flow_run_id, e.event_type, e.entity_id, elim e.payload [ none ↦ none | some p ↦ p.outcome ])

-- What a reconciliation of the Case `f` answers, against the markers and results that it scanned, and
-- what it writes.
pub record Accounts (s : Scan) (f : String) (ms : List (String × FlowEvent)) (l l' : Ledger)
    (r : Reconciled) : Type 0 where
  pub resolved_tasks :
      map (λ p. p.0) r.resolved ≡ map (λ m. m.0) (select (has_result s) (open_markers s ms))
  pub resolved_outcomes : All (λ p. lookup p.0 s.finished ≡ some p.1) r.resolved
  pub pending_tasks :
      r.pending
      ≡ map
          (λ m. (m.0, marker_timeout m.1))
          (select (λ m. not (has_result s m)) (open_markers s ms))
  pub appended : List FlowEvent
  pub grown : l'.events ≡ l.events ++ appended
  pub one_event_each :
      map report appended ≡ map (λ p. (f, worker_wait_resolved, some p.0, some p.1)) r.resolved

-- The event that resolve_marker appends.
abbrev resolution : ℕ → ℕ → String → String → String → String → FlowEvent
resolution id now f actor tid outcome = record {
  id = id;
  flow_run_id = f;
  event_type = worker_wait_resolved;
  actor = actor;
  from_state = none;
  to_state = none;
  entity_type = some task;
  entity_id = some tid;
  payload = some (record blank { outcome = some outcome; rest = ("task_id", tid) ∷ [] });
  created_at = now;
}
