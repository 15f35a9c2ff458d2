-- ===== src/Sessions.antt =====
-- Sessions: the table `sessions` of src/control/db.py, the store of src/services/session_store.py and
-- the commands of src/services/session_service.py. The store reads the database first, so it is the
-- table here; its JSON mirror is left out. `now` is the stamp of a write.
pub mod Service
pub mod Affiliation
pub mod Closing
pub mod Create
use ai_team.Prelude.{
  ℤ, ℕ, ◌+◌, String, Bool, true, false, ◌&&◌, Option, none, some, List, ◌∷◌, ◌++◌, if◌then◌else◌,
  str_eq, length, select, update_where, exists, first, strip, [],
}

pub data SessionStatus : Type 0 where
  idle busy awaiting_input error cancelled closed : SessionStatus
  paused_pinned_node_offline pinned_node_offline : SessionStatus

-- A Session, and the row of it. Stamps are numbers, a nested value of JSON is its text.
pub record Session : Type 0 where
  pub session_id : String
  pub backend : String
  pub repo_path : String
  pub status : SessionStatus
  pub created_at : ℕ
  pub updated_at : ℕ
  pub machine_id : String
  pub backend_session_id : String
  pub model : Option String
  pub effort : Option String
  pub last_task_id : String
  pub last_artifact_path : String
  pub last_summary : String
  pub last_user_message : String
  pub last_result_summary : String
  pub last_files_modified : List String
  pub telegram_chat_id : Option ℤ
  pub telegram_thread_id : Option ℤ
  pub owner_user_id : Option ℤ
  pub task_history : List String
  pub origin : String
  pub driver_type : String
  pub driver_status : String
  pub cache_health : String
  pub cache_unhealthy_count : ℕ
  pub previous_backend_session_ids : List String
  pub current_case_id : Option String
  pub case_role : Option String
  pub role_boot : Option String
  pub continued_from : Option String
  pub keep_pinned : Bool
  pub keep_note : String

abbrev pub is_session : String → Session → Bool
is_session session_id s = str_eq s.session_id session_id

-- DO UPDATE SET: the columns that only an INSERT seeds keep the value of the old row.
unfoldable pub over_row : Session → Session → Session
over_row s old = record s {
  session_id = old.session_id;
  created_at = old.created_at;
  current_case_id = old.current_case_id;
  case_role = old.case_role;
  role_boot = old.role_boot;
  continued_from = old.continued_from;
}

-- INSERT … ON CONFLICT(session_id)
unfoldable pub upsert_session : Session → List Session → List Session
unfolding over_row
upsert_session s rows =
    if exists (is_session s.session_id) rows
    then update_where (is_session s.session_id) (over_row s) rows
    else rows ++ s ∷ []

-- `case_id or None`
unfoldable pub non_empty : Option String → Option String
non_empty none = none
non_empty (some s) = if str_eq s "" then none else some s

unfoldable pub set_session_case :
    (now : ℕ) (session_id : String) (case_id role : Option String) → List Session → List Session
unfolding non_empty
set_session_case now session_id case_id role rows =
    let sid = strip session_id in
    let cid = non_empty case_id in
    let rol : Option String = elim cid [ none ↦ none | some c ↦ non_empty role ] in
    if str_eq sid ""
    then rows
    else update_where (is_session sid)
        (λ s. record s { current_case_id = cid; case_role = rol; updated_at = now }) rows

abbrev pub is_waiting : SessionStatus → Bool
is_waiting idle = true
is_waiting awaiting_input = true
is_waiting _ = false

abbrev pub lost_driver : String → String → Session → Bool
lost_driver node_id backend s =
    str_eq s.machine_id node_id
    && (str_eq s.backend backend
        && (str_eq s.driver_type "sdk" && (str_eq s.driver_status "live" && is_waiting s.status)))

-- With the rowcount.
unfoldable pub mark_driver_sessions_lost_for_node :
    (now : ℕ) (node_id backend : String) → List Session → List Session × ℕ
mark_driver_sessions_lost_for_node now node_id backend rows = (
  update_where (lost_driver node_id backend)
      (λ s. record s { driver_status = "lost"; updated_at = now }) rows,
  length (select (lost_driver node_id backend) rows),
)

unfoldable pub get_session : String → List Session → Option Session
get_session session_id rows = first (is_session session_id) rows

-- SessionStore.save: `touch` stamps the time of the last activity.
unfoldable pub save : (now : ℕ) (touch : Bool) → Session → List Session → List Session
save now touch s = upsert_session (if touch then record s { updated_at = now } else s)

-- CommandResult, without the session and the detail text that it carries for a transport.
pub record CommandResult : Type 0 where
  pub ok : Bool
  pub reason : String

abbrev pub accepted : CommandResult
accepted = record { ok = true; reason = "" }

abbrev pub rejected : String → CommandResult
rejected reason = record { ok = false; reason = reason }
