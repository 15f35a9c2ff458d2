-- ===== src/Tests/Jobs.antt =====
-- Jobs of src/control/db.py and the inbox of src/core/task_lifecycle.py on small tables.
use ai_team.Prelude.{pos, refl, true, false, none, some, ◌∷◌, str_eq, first, []}
use ai_team.Jobs.{Job, done, running, lost, get_job}
use ai_team.Jobs.Terminal.{probing, failing, Ended, run_jobs, run_jobs-Ended}

abbrev build_job : Job
build_job = record {
  id = "j1";
  session_id = none;
  node_id = "n1";
  label = "build";
  command = some "make";
  cwd = none;
  pid = some 41;
  pgid = some 41;
  status = running;
  exit_code = none;
  started_at = 1;
  finished_at = none;
  log_path = none;
  tail = none;
  notify = true;
  notify_agent = false;
  created_at = 1;
  updated_at = 2;
  started_epoch = some 1;
  last_checked_at = some 2;
  last_probe_error = some "";
  last_seen_command = none;
  last_seen_started_epoch = none;
}

abbrev built : Job
built = record build_job {
  status = done;
  exit_code = some (pos 0);
  tail = some "ok";
  finished_at = some 3;
}

run_jobs-Ended_example :
    Ended "j1" done
      (some (pos 0))
      (some "ok")
      (some 3)
      (run_jobs (probing 4 "j1" none none "gone" ∷ failing 5 "j1" "lost" lost ∷ []) (built ∷ []))
unfolding get_job first str_eq
run_jobs-Ended_example =
    run_jobs-Ended "j1" done (some (pos 0)) (some "ok") (some 3)
      (probing 4 "j1" none none "gone" ∷ failing 5 "j1" "lost" lost ∷ []) (built ∷ []) refl
      (built, refl, refl, refl, refl, refl)
