-- ===== src/Sessions/Service.antt =====
-- The commands of src/services/session_service.py, and the bindings of chats to sessions of
-- src/services/session_store.py. Their checks of backends, models and paths are arguments.
use ai_team.Prelude.{
  ℕ, String, Bool, true, false, ◌&&◌, ◌||◌, not, Option, none, some, List, ◌∷◌, ◌++◌, if◌then◌else◌,
  str_eq, or_else, select, first, member, strip, [],
}
use ai_team.Sessions.{
  SessionStatus, idle, busy, cancelled, closed, Session, get_session, save, CommandResult, accepted,
  rejected,
}

-- `s = self.store.get(session_id)`, then `session_not_found` or the change of the session.
unfoldable pub with_session :
    String → List Session → (Session → List Session × CommandResult) → List Session × CommandResult
with_session session_id rows change = elim (get_session session_id rows) [
  | none ↦ (rows, rejected "session_not_found")
  | some s ↦ change s
]

unfoldable pub mark_busy :
    (now : ℕ) (session_id : String) (message : Option String)
    → List Session
    → List Session × CommandResult
unfolding with_session
mark_busy now session_id message rows = with_session session_id rows λ s. (
  save now true
      (record s { status = busy; last_user_message = or_else message s.last_user_message }) rows,
  accepted,
)

unfoldable pub mark_cancelled : ℕ → String → List Session → List Session × CommandResult
unfolding with_session
mark_cancelled now session_id rows =
    with_session session_id rows
      λ s. (save now true (record s { status = cancelled }) rows, accepted)

abbrev pub is_over : SessionStatus → Bool
is_over closed = true
is_over cancelled = true
is_over _ = false

unfoldable pub mark_idle : ℕ → String → List Session → List Session × CommandResult
unfolding with_session
mark_idle now session_id rows = with_session session_id rows λ s.
    if is_over s.status
    then (rows, rejected "not_active")
    else (save now true (record s { status = idle }) rows, accepted)

abbrev pub is_closed : SessionStatus → Bool
is_closed closed = true
is_closed _ = false

unfoldable pub restore_session : ℕ → String → List Session → List Session × CommandResult
unfolding with_session
restore_session now session_id rows = with_session session_id rows λ s.
    if not (is_closed s.status)
    then (rows, rejected "not_closed")
    else (save now true (record s { status = idle }) rows, accepted)

unfoldable pub set_keep :
    (now : ℕ) (session_id : String) (keep : Bool) (note : String)
    → List Session
    → List Session × CommandResult
unfolding with_session
set_keep now session_id keep note rows = with_session session_id rows λ s. (
  save now false (record s { keep_pinned = keep; keep_note = if keep then strip note else "" })
      rows,
  accepted,
)

-- `validate` is config.models.validate of the backend, `advisory` is_advisory.
unfoldable pub set_model :
    (validate : String → String → Option String) (advisory : String → Bool) (now : ℕ)
    (session_id : String) (model : Option String)
    → List Session
    → List Session × CommandResult
unfolding with_session
set_model validate advisory now session_id model rows = with_session session_id rows λ s.
    let name = or_else model "" in
    if str_eq name ""
    then (save now true (record s { model = none }) rows, accepted)
    else elim (validate s.backend name) [
      | none ↦
          if advisory s.backend
          then (save now true (record s { model = none }) rows, accepted)
          else (rows, rejected "unknown_model")
      | some m ↦ (save now true (record s { model = some m }) rows, accepted)
    ]

-- What closing does about the live conversation of the backend.
pub data CloseCall : Type 0 where
  no_call local_close remote_close : CloseCall

-- `prev.append(s.backend_session_id)` where it is not there.
unfoldable pub remember : String → List String → List String
remember id previous = if member id previous then previous else previous ++ id ∷ []

unfoldable pub closed_session : Session → Session
unfolding remember
closed_session s =
    if str_eq s.backend_session_id "" then record s { status = closed } else record s {
      status = closed;
      previous_backend_session_ids = remember s.backend_session_id s.previous_backend_session_ids;
      backend_session_id = "";
    }

-- `known` says that the map of backends has the backend, `dispatcher` that a remote close can be sent.
unfoldable pub close_call :
    (known : String → Bool) (dispatcher : Bool) (host : String) → Session → CloseCall
close_call known dispatcher host s =
    let is_local = str_eq s.machine_id "" || str_eq s.machine_id host in
    if str_eq s.backend_session_id ""
    then no_call
    else if known s.backend && is_local
    then local_close
    else if not is_local && dispatcher
    then remote_close
    else no_call

unfoldable pub close_session :
    (known : String → Bool) (dispatcher : Bool) (host : String) (now : ℕ) (session_id : String)
    → List Session
    → (List Session × CommandResult) × CloseCall
unfolding closed_session close_call
close_session known dispatcher host now session_id rows = elim (get_session session_id rows) [
  | none ↦ ((rows, rejected "session_not_found"), no_call)
  | some s ↦ ((save now true (closed_session s) rows, accepted), close_call known dispatcher host s)
]

-- The bindings of chats: a dict from the text of a chat id.
unfoldable pub bind : String → String → List (String × String) → List (String × String)
bind chat session_id [] = (chat, session_id) ∷ []
bind chat session_id ((c, s) ∷ bs) =
    if str_eq c chat then (c, session_id) ∷ bs else (c, s) ∷ bind chat session_id bs

unfoldable pub unbind : String → List (String × String) → List (String × String)
unbind chat bs = select (λ b. not (str_eq b.0 chat)) bs

unfoldable pub bound : String → List (String × String) → Option String
bound chat bs = elim (first (λ b. str_eq b.0 chat) bs) [ none ↦ none | some b ↦ some b.1 ]

-- get_active: a binding to a closed session is cleaned up.
unfoldable pub get_active :
    String → List Session → List (String × String) → List (String × String) × Option Session
unfolding bound
get_active chat rows bs = elim (bound chat bs) [
  | none ↦ (bs, none)
  | some sid ↦ if str_eq sid "" then (bs, none) else elim (get_session sid rows) [
    | none ↦ (bs, none)
    | some s ↦ if is_closed s.status then (unbind chat bs, none) else (bs, some s)
  ]
]
