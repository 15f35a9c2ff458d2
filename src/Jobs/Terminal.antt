-- ===== src/Jobs/Terminal.antt =====
-- The end of a job, over the writes to `jobs` of src/control/db.py.
use mathlib.Core.Option
use ai_team.Prelude.{
  first-append_found, ℤ, ℕ, String, ◌≡◌, refl, ap, ◌∙◌, inl, inr, Bool, true, false, Option, some,
  List, ◌∷◌, ◌++◌, arith, if◌then◌else◌, Bool-cases, update_where, exists, first_holds,
  update_where_none, exists-update_where, first-update_where, [],
}
use ai_team.Jobs.{
  JobStatus, running, is_running, Job, is_job, is_running_job, register_job, set_started, start_job,
  record_job_probe, set_done, complete_job, set_failed, fail_job, get_job,
}

-- A call of a method that writes the table.
pub data JobWrite : Type 0 where
  registering :
      (now epoch : ℕ) (job_id node_id label : String)
      (session_id command cwd log_path : Option String) (notify notify_agent : Bool)
      → JobWrite
  starting :
      (now : ℕ) (job_id : String) (pid pgid : ℕ) (log_path : Option String)
      (started_epoch : Option ℕ) (observed_command : Option String)
      → JobWrite
  probing :
      (now : ℕ) (job_id : String) (observed_command : Option String)
      (observed_started_epoch : Option ℕ) (probe_error : String)
      → JobWrite
  completing : (now : ℕ) (job_id : String) (code : ℤ) (tail : String) → JobWrite
  failing : (now : ℕ) (job_id error : String) (status : JobStatus) → JobWrite

unfoldable pub apply_job : JobWrite → List Job → List Job
apply_job (registering now ep i n lb s c d g f a) jobs = register_job now ep i n lb s c d g f a jobs
apply_job (starting now i p q g ep c) jobs = start_job now i p q g ep c jobs
apply_job (probing now i c ep e) jobs = record_job_probe now i c ep e jobs
apply_job (completing now i k t) jobs = complete_job now i k t jobs
apply_job (failing now i e s) jobs = fail_job now i e s jobs

unfoldable pub run_jobs : List JobWrite → List Job → List Job
unfolding apply_job
run_jobs [] jobs = jobs
run_jobs (w ∷ ws) jobs = run_jobs ws (apply_job w jobs)

-- The job is there, and ended so.
abbrev pub Ended : String → JobStatus → Option ℤ → Option String → Option ℕ → List Job → Type 0
Ended i status code tail at jobs =
    (j : Job) × (get_job i jobs ≡ some j)
    × (j.status ≡ status)
    × (j.exit_code ≡ code)
    × (j.tail ≡ tail)
    × (j.finished_at ≡ at)

update-Ended :
    (i : String) (s : JobStatus) (k : Option ℤ) (t : Option String) (at : Option ℕ) (p : Job → Bool)
    (f : Job → Job) (jobs : List Job)
    → is_running s ≡ false
    → ((j : Job) → is_job i (f j) ≡ is_job i j)
    → ((j : Job)
        → p j ≡ true
        → is_running j.status ≡ false
        → ((f j).status ≡ j.status)
          × ((f j).exit_code ≡ j.exit_code)
          × ((f j).tail ≡ j.tail)
          × ((f j).finished_at ≡ j.finished_at))
    → Ended i s k t at jobs
    → Ended i s k t at (update_where p f jobs)
unfolding get_job
update-Ended i s k t at p f jobs over same keeps (j, found, es, ek, et, ea) =
    let now =
      first-update_where (is_job i) p f jobs same
      ∙ ap (Option.map (λ x. if p x then f x else x)) found in
    elim (Bool-cases (p j)) [
      | inl hit ↦
          let (ds, dk, dt, da) = keeps j hit (ap is_running es ∙ over) in
          (f j, now ∙ ground (arith, hit), ds ∙ es, dk ∙ ek, dt ∙ et, da ∙ ea)
      | inr miss ↦ (j, now ∙ ground (arith, miss), es, ek, et, ea)
    ]

append-Ended :
    (i : String) (s : JobStatus) (k : Option ℤ) (t : Option String) (at : Option ℕ) (row : Job)
    (jobs : List Job)
    → Ended i s k t at jobs
    → Ended i s k t at (jobs ++ row ∷ [])
unfolding get_job
append-Ended i s k t at row jobs (j, found, es, ek, et, ea) =
    (j, first-append_found (is_job i) jobs (row ∷ []) j found, es, ek, et, ea)

apply_job-Ended :
    (i : String) (s : JobStatus) (k : Option ℤ) (t : Option String) (at : Option ℕ) (w : JobWrite)
    (jobs : List Job)
    → is_running s ≡ false
    → Ended i s k t at jobs
    → Ended i s k t at (apply_job w jobs)
unfolding apply_job start_job record_job_probe complete_job fail_job set_started set_done set_failed
apply_job-Ended i s k t at (registering now ep c n lb se cm d g f a) jobs over h =
    unfold register_job in
    elim (Bool-cases (exists (is_job c) jobs)) [
      | inl dup ↦ rw dup h
      | inr new ↦ rw new (append-Ended i s k t at _ jobs h)
    ]
apply_job-Ended i s k t at (starting now c p q g ep o) jobs over h =
    update-Ended i s k t at (is_job c) (set_started now p q g ep o) jobs over (λ j. refl)
      (λ j hit r. (refl, refl, refl, refl)) h
apply_job-Ended i s k t at (probing now c o ep e) jobs over h =
    update-Ended i s k t at (is_running_job c) _ jobs over (λ j. refl)
      (λ j hit r. (refl, refl, refl, refl)) h
apply_job-Ended i s k t at (completing now c o l) jobs over h =
    update-Ended i s k t at (is_running_job c) (set_done now o l) jobs over (λ j. refl)
      (λ j hit r. absurd (ground arith)) h
apply_job-Ended i s k t at (failing now c e o) jobs over h =
    update-Ended i s k t at (is_running_job c) (set_failed now e o) jobs over (λ j. refl)
      (λ j hit r. absurd (ground arith)) h

-- A job that is no longer running keeps its status, its exit code, its tail and its time of
-- finishing through every sequence of calls that write the table.
pub run_jobs-Ended :
    (i : String) (s : JobStatus) (k : Option ℤ) (t : Option String) (at : Option ℕ)
    (ws : List JobWrite) (jobs : List Job)
    → is_running s ≡ false
    → Ended i s k t at jobs
    → Ended i s k t at (run_jobs ws jobs)
unfolding run_jobs
run_jobs-Ended i s k t at [] jobs over h = h
run_jobs-Ended i s k t at (w ∷ ws) jobs over h =
    run_jobs-Ended i s k t at ws (apply_job w jobs) over (apply_job-Ended i s k t at w jobs over h)

-- Between the exit of a job and its loss, the first report counts: a running job that is
-- completed, and that another report then fails, is done with the code and tail of the first, and
-- the failure changes nothing.
pub fail_job-complete_job :
    (now later : ℕ) (i : String) (code : ℤ) (tail error : String) (status : JobStatus)
    (jobs : List Job) (j : Job)
    → get_job i jobs ≡ some j
    → j.status ≡ running
    → (get_job i (complete_job now i code tail jobs) ≡ some (set_done now code tail j))
      × (fail_job later i error status (complete_job now i code tail jobs)
          ≡ complete_job now i code tail jobs)
fail_job-complete_job now later i code tail error status jobs j found live = (
  unfold get_job complete_job in
      first-update_where (is_job i) (is_running_job i) (set_done now code tail) jobs
        (λ x. unfold set_done in refl)
      ∙ ap (Option.map (λ x. if is_running_job i x then set_done now code tail x else x)) found
      ∙ ground (arith, live, first_holds (is_job i) jobs j found),
  unfold fail_job complete_job in
      update_where_none (is_running_job i) (set_failed later error status) _ (
        exists-update_where (is_running_job i) (set_done now code tail) jobs
          λ x h. unfold set_done in ground arith),
)
