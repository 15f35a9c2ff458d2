-- ===== src/Sessions/Create.antt =====
-- New sessions: create_session, bind_active and set_effort of src/services/session_service.py, and
-- create of src/services/session_store.py. The backends, the path policy, the host and the id that
-- uuid4 makes are arguments.
use mathlib.Core.Option
use ai_team.Prelude.{
  ℤ, ℕ, String, Bool, true, false, ◌||◌, not, Option, none, some, List, if◌then◌else◌, str_eq,
  or_else, strip, [],
}
use ai_team.Sessions.{
  Session, idle, get_session, save, upsert_session, CommandResult, accepted, rejected,
}
use ai_team.Sessions.Service.{with_session, bind}

abbrev pub default_backend : String
default_backend = "claude"

-- SessionOrigin(), and the origin of a session that the gateway makes for itself.
abbrev pub default_origin : String
default_origin = "telegram/user"

abbrev pub web_origin : String
web_origin = "web/user"

abbrev pub is_local_node : String → Bool
is_local_node node_id = str_eq node_id "" || str_eq node_id "__local__"

-- SessionStore.create: the session, and the table with it.
unfoldable pub new_session :
    (now : ℕ) (minted host backend repo_path : String) (chat owner : Option ℤ)
    (machine : Option String)
    → Session
new_session now minted host backend repo_path chat owner machine =
    let pin = strip (or_else machine "") in
    record {
      session_id = minted;
      backend = backend;
      repo_path = repo_path;
      status = idle;
      created_at = now;
      updated_at = now;
      machine_id = if str_eq pin "" then host else pin;
      backend_session_id = "";
      model = none;
      effort = none;
      last_task_id = "";
      last_artifact_path = "";
      last_summary = "";
      last_user_message = "";
      last_result_summary = "";
      last_files_modified = [];
      telegram_chat_id = chat;
      telegram_thread_id = none;
      owner_user_id = owner;
      task_history = [];
      origin = default_origin;
      driver_type = "";
      driver_status = "";
      cache_health = "unknown";
      cache_unhealthy_count = 0;
      previous_backend_session_ids = [];
      current_case_id = none;
      case_role = none;
      role_boot = none;
      continued_from = none;
      keep_pinned = false;
      keep_note = "";
    }

-- `x or old`, for a column that is set only where the argument is given.
abbrev pub or_old : Option String → Option String → Option String
or_old none old = old
or_old (some s) old = if str_eq s "" then old else some s

-- The session that create_session saves last.
unfoldable pub tagged :
    (node_id : String) (model origin role_boot continued_from : Option String) → Session → Session
tagged node_id model origin role_boot continued_from s = record s {
  origin = or_else origin default_origin;
  model = or_old model s.model;
  machine_id = if is_local_node node_id then s.machine_id else node_id;
  role_boot = or_old role_boot s.role_boot;
  continued_from = or_old continued_from s.continued_from;
}

-- With the session that the answer carries, and the bindings. `lower` is str.lower, `valid` is
-- is_valid_backend, and `invalid` the check of a local path. `chat` is the text of the chat id.
unfoldable pub create_session :
    (lower : String → String) (valid : String → Bool) (invalid : String → Option CommandResult)
    (now : ℕ) (minted host : String) (backend repo_path : String) (chat : Option (ℤ × String))
    (owner : Option ℤ) (node_id : String) (model origin role_boot continued_from : Option String)
    (bind_chat : Bool)
    → List Session
    → List (String × String)
    → List Session × List (String × String) × CommandResult × Option Session
unfolding new_session tagged
create_session lower valid invalid now minted host backend repo_path chat owner node_id model origin
      role_boot continued_from bind_chat rows bs =
    let name = lower (strip (if str_eq backend "" then default_backend else backend)) in
    let refused : Option CommandResult =
      if is_local_node node_id then invalid repo_path else none in
    if not (valid name) then (rows, bs, rejected "unknown_backend", none) else elim refused [
      | some answer ↦ (rows, bs, answer, none)
      | none ↦
          let pin = if is_local_node node_id then none else some node_id in
          let fresh =
            new_session now minted host name repo_path (Option.map (λ c. c.0) chat) owner pin in
          let s = tagged node_id model origin role_boot continued_from fresh in
          (
            save now true s (upsert_session fresh rows),
            (if bind_chat then elim chat [ none ↦ bs | some c ↦ bind c.1 s.session_id bs ] else bs),
            accepted,
            some s,
          )
    ]

unfoldable pub bind_active :
    (chat session_id : String)
    → List Session
    → List (String × String)
    → List (String × String) × CommandResult
bind_active chat session_id rows bs = elim (get_session session_id rows) [
  | none ↦ (bs, rejected "session_not_found")
  | some s ↦ (bind chat session_id bs, accepted)
]

-- `validate` is validate_effort of config.models.
unfoldable pub set_effort :
    (validate : String → Option String → Option String) (now : ℕ) (session_id : String)
    (effort : Option String)
    → List Session
    → List Session × CommandResult
unfolding with_session
set_effort validate now session_id effort rows = with_session session_id rows λ s.
    let resolved = validate s.backend effort in
    let asked = not (str_eq (or_else effort "") "") in
    let unknown : Bool = elim resolved [ none ↦ asked | some e ↦ false ] in
    if unknown
    then (rows, rejected "unknown_effort")
    else (save now true (record s { effort = resolved }) rows, accepted)
