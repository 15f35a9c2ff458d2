-- ===== src/Jobs.antt =====
-- The background jobs of the nodes: the table `jobs` and its writes in src/control/db.py. `now` is
-- the stamp of `_now()`, in microseconds, and `epoch` the clock of `time.time()`.
pub mod Terminal
use ai_team.Prelude.{
  ℤ, ℕ, String, Bool, true, false, ◌&&◌, Option, none, some, List, ◌∷◌, ◌++◌, if◌then◌else◌, str_eq,
  coalesce, update_where, exists, first, [],
}

pub data JobStatus : Type 0 where
  running done failed lost : JobStatus
  other : String → JobStatus

abbrev pub is_running : JobStatus → Bool
is_running running = true
is_running _ = false

-- A row of jobs.
pub record Job : Type 0 where
  pub id : String
  pub session_id : Option String
  pub node_id : String
  pub label : String
  pub command : Option String
  pub cwd : Option String
  pub pid : Option ℕ
  pub pgid : Option ℕ
  pub status : JobStatus
  pub exit_code : Option ℤ
  pub started_at : ℕ
  pub finished_at : Option ℕ
  pub log_path : Option String
  pub tail : Option String
  pub notify : Bool
  pub notify_agent : Bool
  pub created_at : ℕ
  pub updated_at : ℕ
  pub started_epoch : Option ℕ
  pub last_checked_at : Option ℕ
  pub last_probe_error : Option String
  pub last_seen_command : Option String
  pub last_seen_started_epoch : Option ℕ

abbrev pub is_job : String → Job → Bool
is_job job_id j = str_eq j.id job_id

-- WHERE id = ? AND status = 'running'
abbrev pub is_running_job : String → Job → Bool
is_running_job job_id j = str_eq j.id job_id && is_running j.status

-- A duplicate id is refused, and the refusal is swallowed.
unfoldable pub register_job :
    (now epoch : ℕ) (job_id node_id label : String)
    (session_id command cwd log_path : Option String) (notify notify_agent : Bool)
    → List Job
    → List Job
register_job now epoch job_id node_id label session_id command cwd log_path notify notify_agent
      jobs =
    if exists (is_job job_id) jobs
    then jobs
    else jobs
      ++ record {
        id = job_id;
        session_id = session_id;
        node_id = node_id;
        label = label;
        command = command;
        cwd = cwd;
        pid = none;
        pgid = none;
        status = running;
        exit_code = none;
        started_at = now;
        finished_at = none;
        log_path = log_path;
        tail = none;
        notify = notify;
        notify_agent = notify_agent;
        created_at = now;
        updated_at = now;
        started_epoch = some epoch;
        last_checked_at = none;
        last_probe_error = none;
        last_seen_command = none;
        last_seen_started_epoch = none;
      }
        ∷ []

unfoldable pub set_started : ℕ → ℕ → ℕ → Option String → Option ℕ → Option String → Job → Job
set_started now pid pgid log_path started_epoch observed_command j = record j {
  pid = some pid;
  pgid = some pgid;
  log_path = coalesce log_path j.log_path;
  started_epoch = coalesce started_epoch j.started_epoch;
  last_checked_at = some now;
  last_probe_error = some "";
  last_seen_command = coalesce observed_command j.last_seen_command;
  last_seen_started_epoch = coalesce started_epoch j.last_seen_started_epoch;
  updated_at = now;
}

unfoldable pub start_job :
    (now : ℕ) (job_id : String) (pid pgid : ℕ) (log_path : Option String) (started_epoch : Option ℕ)
    (observed_command : Option String)
    → List Job
    → List Job
unfolding set_started
start_job now job_id pid pgid log_path started_epoch observed_command =
    update_where (is_job job_id) (set_started now pid pgid log_path started_epoch observed_command)

-- `now` is `checked_at`, where that is given.
unfoldable pub record_job_probe :
    (now : ℕ) (job_id : String) (observed_command : Option String)
    (observed_started_epoch : Option ℕ) (probe_error : String)
    → List Job
    → List Job
record_job_probe now job_id observed_command observed_started_epoch probe_error =
    update_where (is_running_job job_id) λ j. record j {
      last_checked_at = some now;
      last_probe_error = some probe_error;
      last_seen_command = coalesce observed_command j.last_seen_command;
      last_seen_started_epoch = coalesce observed_started_epoch j.last_seen_started_epoch;
      updated_at = now;
    }

unfoldable pub set_done : ℕ → ℤ → String → Job → Job
set_done now code tail j = record j {
  status = done;
  exit_code = some code;
  tail = some tail;
  finished_at = some now;
  updated_at = now;
}

unfoldable pub complete_job :
    (now : ℕ) (job_id : String) (code : ℤ) (tail : String) → List Job → List Job
unfolding set_done
complete_job now job_id code tail = update_where (is_running_job job_id) (set_done now code tail)

unfoldable pub set_failed : ℕ → String → JobStatus → Job → Job
set_failed now error status j = record j {
  status = status;
  tail = some error;
  finished_at = some now;
  updated_at = now;
}

unfoldable pub fail_job :
    (now : ℕ) (job_id error : String) (status : JobStatus) → List Job → List Job
unfolding set_failed
fail_job now job_id error status =
    update_where (is_running_job job_id) (set_failed now error status)

unfoldable pub get_job : String → List Job → Option Job
get_job job_id = first (is_job job_id)
