-- ===== src/Case/Close/Limits.antt =====
-- The guards of close_case of src/control/db.py and the limits of the pages that they read.
use ai_team.Prelude.{
  str_eq, ◌<◌, str_eq_refl, ◌++◌, exists-appended, length-append, take_all, ℕ, ◌≤◌, String, ◌≡◌, ap,
  ◌∙◌, Bool, true, Option, none, List, ◌∷◌, arith, length, take, select, exists, take-append_full,
  select-append, [],
}
use ai_team.Case.{FlowEvent, EventType, review_rework_requested, Payload, Ledger, EntityType}
use ai_team.Case.Criteria.{Python, Entry}
use ai_team.Case.Flow.{
  is_event_of, event_limit, list_child_flow_runs, get_flow_run, append_flow_event, list_flow_events,
}
use ai_team.Case.Close.{case_has_unresolved_approval, seen_open_children, close_refusal, close_case}

-- An event that is appended behind a full page is not in the page.
pub list_flow_events_full :
    (now : ℕ) (flow_run_id : String) (event_type : EventType) (actor : String)
    (from_state to_state : Option String) (entity_type : Option EntityType)
    (entity_id : Option String) (payload : Option Payload) (l : Ledger)
    → event_limit ≤ length (select (is_event_of flow_run_id) l.events)
    → list_flow_events flow_run_id
        (append_flow_event now flow_run_id event_type actor from_state to_state entity_type
          entity_id payload l).0
      ≡ list_flow_events flow_run_id l
unfolding list_flow_events append_flow_event
list_flow_events_full now flow_run_id event_type actor from_state to_state entity_type entity_id
      payload l full =
    ap (take event_limit) (select-append (is_event_of flow_run_id) l.events _)
    ∙ take-append_full event_limit (select (is_event_of flow_run_id) l.events) _ full

-- A request for rework that comes after the 500th event of a Case does not hold it open: whatever
-- `close_case` answers before the request, it answers after it.
pub close_case_late_rework :
    (py : Python) (review_emitter : Bool) (now later : ℕ)
    (flow_run_id outcome actor reviewer : String) (entity_type : Option EntityType)
    (entity_id : Option String) (payload : Option Payload) (entries : List Entry) (l : Ledger)
    → event_limit ≤ length (select (is_event_of flow_run_id) l.events)
    → let asked =
        (append_flow_event now flow_run_id review_rework_requested reviewer none none entity_type
          entity_id payload l).0 in
      (close_case py review_emitter later flow_run_id outcome actor entries asked).1
      ≡ (close_case py review_emitter later flow_run_id outcome actor entries l).1
close_case_late_rework py review_emitter now later flow_run_id outcome actor reviewer entity_type
      entity_id payload entries l full =
    let page =
      list_flow_events_full now flow_run_id review_rework_requested reviewer none none entity_type
        entity_id payload l full in
    unfold close_case close_refusal append_flow_event seen_open_children list_child_flow_runs
      case_has_unresolved_approval get_flow_run in
    ground (arith, page)

page_appended :
    (f : String) (es : List FlowEvent) (e : FlowEvent)
    → str_eq e.flow_run_id f ≡ true
    → length (select (is_event_of f) es) < event_limit
    → take event_limit (select (is_event_of f) (es ++ e ∷ [])) ≡ select (is_event_of f) es ++ e ∷ []
page_appended f es e named room =
    let mine : select (is_event_of f) (e ∷ []) ≡ e ∷ [] = unfold select in ground (arith, named) in
    let whole =
      select-append (is_event_of f) es (e ∷ []) ∙ ap (λ x. select (is_event_of f) es ++ x) mine in
    ap (take event_limit) whole
    ∙ take_all event_limit (select (is_event_of f) es ++ e ∷ [])
        (omega (arith, room, length-append (select (is_event_of f) es) (e ∷ [])))

-- An event that is appended to a Case with room can be read back.
pub list_flow_events_room :
    (now : ℕ) (flow_run_id : String) (event_type : EventType) (actor : String)
    (from_state to_state : Option String) (entity_type : Option EntityType)
    (entity_id : Option String) (payload : Option Payload) (l : Ledger) (p : FlowEvent → Bool)
    → length (select (is_event_of flow_run_id) l.events) < event_limit
    → p (record {
      id = l.next_event;
      flow_run_id = flow_run_id;
      event_type = event_type;
      actor = actor;
      from_state = from_state;
      to_state = to_state;
      entity_type = entity_type;
      entity_id = entity_id;
      payload = payload;
      created_at = now;
    })
      ≡ true
    → exists p (
        list_flow_events flow_run_id
          (append_flow_event now flow_run_id event_type actor from_state to_state entity_type
            entity_id payload l).0)
      ≡ true
unfolding list_flow_events append_flow_event
list_flow_events_room now flow_run_id event_type actor from_state to_state entity_type entity_id
      payload l p room holds =
    ap (exists p) (page_appended flow_run_id l.events _ (str_eq_refl flow_run_id) room)
    ∙ exists-appended p (select (is_event_of flow_run_id) l.events) _ holds
