-- ===== src/Orchestrator.antt =====
-- The Wake-Dispatcher of src/orchestrator.py: what it keeps Cases going with. It reads and writes the
-- tables of src/control/db.py and the sessions; the environment is a record of arguments.
pub mod Submit
pub mod Respawn
pub mod Wake
pub mod Kill
use ai_team.Prelude.{
  ℕ, ◌+◌, String, Bool, true, false, ◌&&◌, ◌||◌, not, Option, none, some, List, ◌∷◌, ◌++◌,
  if◌then◌else◌, str_eq, same_text?, or_else, exists, strip, [],
}
use ai_team.Case.{
  EventType, flow_interrupted, case_manager_unavailable, session, blank, FlowLink, FlowEvent,
  Ledger,
}
use ai_team.Case.Criteria.{Python, case_round_cap}
use ai_team.Case.Flow.{append_flow_event, list_flow_events, list_flow_links, get_flow_run}
use ai_team.Case.Waits.{lookup}
use ai_team.Continuation.Brief.{link_limit}
use ai_team.Mesh.{Task, Node}
use ai_team.Sessions.{Session, get_session, save, set_session_case, non_empty, CommandResult}

-- A turn that is handed to submit_instruction: what its text is rendered from.
pub data Turn : Type 0 where
  wake_turn : (case_id session_id : String) (presented : List String) → Turn
  resume_turn : (case_id session_id objective : String) → Turn

-- What becomes of a submission: _make_task raises; or the queue takes the task at once, or within five
-- seconds, or not at all.
pub data Place : Type 0 where
  unmade at_once throttled dropped : Place

-- A call of notify_error: what its text is rendered from.
pub data Notice : Type 0 where
  cap_reached : (case_id : String) (cap generation : ℕ) → Notice
  headless : (case_id : String) (session_id : Option String) → Notice
  killed : (case_id reason : String) (cancelled : ℕ) → Notice

-- The flags, the host, the functions of Python and of other modules, and the answers of what runs
-- outside: `places` is what becomes of a submission, `task_id` and `run_id` the ids that uuid4 makes for
-- its task and for its run, `minted` the id that it makes for a session, `show` the text of a number, and `token` and `placed` the json.dumps of a
-- row's payload and of a respawn's result.
pub record Env : Type 0 where
  pub continuation_on : Bool
  pub manager_role_on : Bool
  pub relay_on : Bool
  pub flow_drive : Bool
  pub hostname : String
  pub cwd : String
  pub py : Python
  pub upper : String → String
  pub sorted : List String → List String
  pub valid_backend : String → Bool
  pub invalid_path : String → Option CommandResult
  pub minted : String → String
  pub show : ℕ → String
  pub token : String → ℕ → Option String → List String → String
  pub placed : (session_id node_id : String) → String
  pub places : Turn → Place
  pub task_id : ℕ → Turn → String
  pub run_id : ℕ → Turn → String

-- The tables, with the turns that were submitted and the notices that were sent.
pub record World : Type 0 where
  pub ledger : Ledger
  pub tasks : List Task
  pub sessions : List Session
  pub bindings : List (String × String)
  pub nodes : List Node
  pub turns : List Turn
  pub notices : List Notice

-- str(x or "").strip().lower()
abbrev pub word : Python → Option String → String
word py x = py.lower (strip (or_else x ""))

-- (_event_payload(e) or {}).get("reason")
abbrev pub reason_of : FlowEvent → Option String
reason_of e = lookup "reason" (or_else e.payload blank).rest

abbrev pub is_interrupted : EventType → Bool
is_interrupted flow_interrupted = true
is_interrupted _ = false

abbrev pub is_unavailable : EventType → Bool
is_unavailable case_manager_unavailable = true
is_unavailable _ = false

abbrev pub cap_reason : String
cap_reason = "round_cap_exhausted"

abbrev pub is_cap_event : FlowEvent → Bool
is_cap_event e = is_interrupted e.event_type && same_text? (reason_of e) (some cap_reason)

-- db.case_round_cap of a Case: the row's criteria, or the default where there is no row.
abbrev pub round_cap_of : Env → String → Ledger → ℕ
round_cap_of env case_id l = elim (get_flow_run case_id l) [
  | none ↦ case_round_cap env.py none
  | some r ↦ case_round_cap env.py r.completion_criteria
]

unfoldable pub last_manager : List FlowLink → Option String → Option String
last_manager [] found = found
last_manager (k ∷ ks) found = last_manager ks (some k.entity_id)

unfoldable pub case_manager_session_id : String → Ledger → Option String
unfolding last_manager
case_manager_session_id case_id l = non_empty (
    last_manager (list_flow_links (some case_id) (some session) none (some "manager") link_limit l)
      none)

-- _escalate_headless_case
unfoldable pub escalate_headless_case :
    (now : ℕ) (case_id : String) (session_id : Option String) → World → World
escalate_headless_case now case_id session_id w =
    if exists (λ e. is_unavailable e.event_type) (list_flow_events case_id w.ledger)
    then w
    else record w {
      ledger =
          (append_flow_event now case_id case_manager_unavailable "system" none none none none
            (some (record blank {
              rest =
                  ("reason", "manager_session_unavailable")
                  ∷ ("manager_session_id", or_else session_id "null")
                  ∷ [];
            }))
            w.ledger).0;
      notices = w.notices ++ headless case_id session_id ∷ [];
    }

-- The escalation of an exhausted cap, with _escalate_case_continuation_cap.
unfoldable pub escalate_cap :
    (show : ℕ → String) (now : ℕ) (case_id : String) (cap generation : ℕ) → World → World
escalate_cap show now case_id cap generation w =
    if exists is_cap_event (list_flow_events case_id w.ledger) then w else record w {
      ledger =
          (append_flow_event now case_id flow_interrupted "system" none none none none
            (some (record blank {
              rest =
                  ("reason", cap_reason)
                  ∷ ("round_cap", show cap)
                  ∷ ("generation", show generation)
                  ∷ [];
            }))
            w.ledger).0;
      notices = w.notices ++ cap_reached case_id cap generation ∷ [];
    }

-- _resolve_session_case_role
unfoldable pub resolve_session_case_role : (case_id session_id : String) → Ledger → String
resolve_session_case_role case_id session_id l =
    elim (list_flow_links (some case_id) (some session) (some session_id) none link_limit l) [
      | [] ↦ "worker"
      | k ∷ ks ↦ if str_eq k.role "" then "worker" else k.role
    ]

-- _set_session_case_affiliation, with _persist_session_case: the role that is given, or else
-- resolved from the links where the session comes to the Case.
unfoldable pub set_session_case_affiliation :
    (now : ℕ) (session_id case_id : String) (role : Option String)
    → Ledger
    → List Session
    → List Session
unfolding resolve_session_case_role
set_session_case_affiliation now session_id case_id role l rows =
    let sid = strip session_id in
    let found : Option Session =
      if str_eq sid "" || str_eq case_id "" then none else get_session sid rows in
    elim found [
      | none ↦ rows
      | some s ↦
          let here = same_text? s.current_case_id (some case_id) in
          let name : String = elim role [
            | none ↦ resolve_session_case_role case_id sid l
            | some r ↦ r
          ] in
          let asked : Bool = elim role [ none ↦ false | some r ↦ true ] in
          if here && (not asked || same_text? s.case_role (some name))
          then rows
          else set_session_case now sid (some case_id) (some name) (
              save now true (record s { current_case_id = some case_id; case_role = some name })
                rows)
    ]
