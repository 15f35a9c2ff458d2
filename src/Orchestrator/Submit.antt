-- ===== src/Orchestrator/Submit.antt =====
-- The submission of a turn of the dispatcher: submit_instruction, _enqueue_task,
-- _record_flow_run_start and _record_flow_stage of src/orchestrator.py. A turn of the dispatcher has no
-- lineage, is not managed and joins no Case by name, so the branches for these are not reached.
use ai_team.Prelude.{
  first-append_miss, eq_of_str_eq, sym, subst, ℕ, String, ◌≡◌, refl, ap, ◌∙◌, ◌≢◌, inl, inr, Bool,
  true, false, not, Option, none, some, List, [], ◌∷◌, ◌++◌, arith, if◌then◌else◌, str_eq,
  str_eq_of_ne, Bool-cases, Option-cases, first, strip, update_where,
}
use ai_team.Case.{EntityType, task, EventType, Ledger, FlowRun}
use ai_team.Case.Flow.{
  append_flow_event, create_flow_link, create_flow_run, update_flow_stage, set_fields, is_run,
  find_open_case_for_session, get_flow_run,
}
use ai_team.Sessions.{non_empty}
use ai_team.Orchestrator.{
  Env, World, Turn, wake_turn, resume_turn, Place, unmade, at_once, throttled, dropped,
  set_session_case_affiliation,
}

abbrev pub session_of : Turn → String
session_of (wake_turn case_id sid presented) = sid
session_of (resume_turn case_id sid objective) = sid

-- The branch (B): the turn is a task of the open Case of its session.
unfoldable pub attach_task : (now : ℕ) (tid sid case_id : String) → World → World
attach_task now tid sid case_id w =
    let linked =
      (create_flow_link now case_id task tid "task" (some "system") none [] [] w.ledger).0 in
    let noted =
      (append_flow_event now case_id (EventType.other "task.attached") "system" none none
        (some task) (some tid) none linked).0 in
    record w {
      ledger = noted;
      sessions = set_session_case_affiliation now sid case_id none noted w.sessions;
    }

-- _record_flow_run_start: with the flow drive off, a run of its own; with it on, the Case of its session,
-- where it has one that is open.
unfoldable pub record_flow_run_start : Env → ℕ → Turn → World → World × Option String
unfolding attach_task
record_flow_run_start env now turn w =
    let tid = env.task_id now turn in
    let sid = strip (session_of turn) in
    let (l, fid) =
      create_flow_run now (env.run_id now turn) (some tid) "dispatch_start" none [] w.ledger in
    if not env.flow_drive
    then (record w { ledger = l }, some fid)
    else elim (non_empty (find_open_case_for_session sid w.ledger)) [
      | none ↦ (w, none)
      | some case_id ↦ (attach_task now tid sid case_id w, none)
    ]

-- _record_flow_stage
unfoldable pub record_flow_stage : ℕ → Option String → String → World → World
record_flow_stage now none stage w = w
record_flow_stage now (some fid) stage w =
    if str_eq fid "" then w else record w { ledger = update_flow_stage now fid stage w.ledger }

abbrev pub with_turn : Turn → World → World
with_turn turn w = record w { turns = w.turns ++ turn ∷ [] }

-- The queue, after the admission; the second part is whether the call returns and does not raise.
unfoldable pub enqueue_turn :
    (drive : Bool) (now : ℕ) → Turn → Place → World → World × Option String → World × Bool
unfolding record_flow_stage
enqueue_turn drive now turn unmade w (admitted, fid) = (w, false)
enqueue_turn drive now turn at_once w (admitted, fid) = (
  record_flow_stage now fid (if drive then "objective_lock" else "queued")
      (with_turn turn admitted),
  true,
)
enqueue_turn drive now turn throttled w (admitted, fid) = (with_turn turn admitted, true)
enqueue_turn drive now turn dropped w (admitted, fid) = (admitted, false)

unfoldable pub submit_instruction : Env → ℕ → Turn → World → World × Bool
unfolding record_flow_run_start enqueue_turn
submit_instruction env now turn w =
    enqueue_turn env.flow_drive now turn (env.places turn) w (record_flow_run_start env now turn w)

abbrev pub is_placed : Place → Bool
is_placed at_once = true
is_placed throttled = true
is_placed _ = false

enqueue_turn-placed :
    (drive : Bool) (now : ℕ) (turn : Turn) (p : Place) (w : World) (a : World × Option String)
    → (enqueue_turn drive now turn p w a).1 ≡ is_placed p
unfolding enqueue_turn
enqueue_turn-placed drive now turn unmade w a = refl
enqueue_turn-placed drive now turn at_once w a = refl
enqueue_turn-placed drive now turn throttled w a = refl
enqueue_turn-placed drive now turn dropped w a = refl

pub submit_instruction-placed :
    (env : Env) (now : ℕ) (turn : Turn) (w : World)
    → (submit_instruction env now turn w).1 ≡ is_placed (env.places turn)
unfolding submit_instruction
submit_instruction-placed env now turn w = enqueue_turn-placed env.flow_drive now turn _ w _

record_flow_run_start-tasks :
    (env : Env) (now : ℕ) (turn : Turn) (w : World)
    → (record_flow_run_start env now turn w).0.tasks ≡ w.tasks
unfolding record_flow_run_start attach_task
record_flow_run_start-tasks env now turn w = ground arith

record_flow_stage-tasks :
    (now : ℕ) (fid : Option String) (stage : String) (w : World)
    → (record_flow_stage now fid stage w).tasks ≡ w.tasks
unfolding record_flow_stage
record_flow_stage-tasks now none stage w = refl
record_flow_stage-tasks now (some fid) stage w = ground arith

enqueue_turn-tasks :
    (drive : Bool) (now : ℕ) (turn : Turn) (p : Place) (w : World) (a : World × Option String)
    → a.0.tasks ≡ w.tasks
    → (enqueue_turn drive now turn p w a).0.tasks ≡ w.tasks
unfolding enqueue_turn
enqueue_turn-tasks drive now turn unmade w a same = refl
enqueue_turn-tasks drive now turn at_once w a same =
    record_flow_stage-tasks now a.1 _ (with_turn turn a.0) ∙ same
enqueue_turn-tasks drive now turn throttled w a same = same
enqueue_turn-tasks drive now turn dropped w a same = same

-- A submission leaves `mesh_tasks` as it is: the turn waits in the queue of the process.
pub submit_instruction-tasks :
    (env : Env) (now : ℕ) (turn : Turn) (w : World)
    → (submit_instruction env now turn w).0.tasks ≡ w.tasks
unfolding submit_instruction
submit_instruction-tasks env now turn w =
    enqueue_turn-tasks env.flow_drive now turn (env.places turn) w _
      (record_flow_run_start-tasks env now turn w)

pub create_flow_link-runs :
    (now : ℕ) (f : String) (e : EntityType) (i role : String) (by objective : Option String)
    (deps : List String) (metadata : List (String × String)) (l : Ledger)
    → (create_flow_link now f e i role by objective deps metadata l).0.runs ≡ l.runs
unfolding create_flow_link
create_flow_link-runs now f e i role by objective deps metadata l = ground arith

other_run : (fid f : String) (r : FlowRun) → fid ≢ f → is_run fid r ≡ true → is_run f r ≡ false
other_run fid f r new mine =
    subst (λ x. str_eq x f ≡ false) (sym (eq_of_str_eq r.flow_run_id fid mine))
      (str_eq_of_ne fid f new)

update_stage-run :
    (now : ℕ) (fid f stage : String) (rs : List FlowRun)
    → fid ≢ f
    → first (is_run f) (
        update_where
          (is_run fid)
          (λ r. record r { current_stage = some stage; updated_at = some now })
          rs)
      ≡ first (is_run f) rs
unfolding first update_where
update_stage-run now fid f stage [] new = refl
update_stage-run now fid f stage (r ∷ rs) new =
    let rest = update_stage-run now fid f stage rs new in
    elim (Bool-cases (is_run fid r)) [
      | inl mine ↦ ground (arith, mine, other_run fid f r new mine, rest)
      | inr other ↦ ground (arith, other, rest)
    ]

-- The run of a Case that a submission did not make is as it was.
module _ (f : String) where
  create_flow_run-other :
      (now : ℕ) (minted : String) (tid : Option String) (stage : String) (l : Ledger)
      → minted ≢ f
      → get_flow_run f (create_flow_run now minted tid stage none [] l).0 ≡ get_flow_run f l
  unfolding get_flow_run create_flow_run set_fields
  create_flow_run-other now minted tid stage l new =
      first-append_miss (is_run f) l.runs _ (str_eq_of_ne minted f new)

  attach_task-run :
      (now : ℕ) (tid sid case_id : String) (w : World)
      → get_flow_run f (attach_task now tid sid case_id w).ledger ≡ get_flow_run f w.ledger
  unfolding get_flow_run attach_task append_flow_event
  attach_task-run now tid sid case_id w =
      ap (first (is_run f))
        (create_flow_link-runs now case_id task tid "task" (some "system") none [] [] w.ledger)

  -- What is admitted, and the stage that is written for it.
  Admitted : (before after : World) (fid : Option String) → Type 0
  Admitted before after fid =
      (get_flow_run f after.ledger ≡ get_flow_run f before.ledger)
      × elim fid [ none ↦ Unit {0} | some i ↦ i ≢ f ]

  record_flow_run_start-Admitted :
      (env : Env) (now : ℕ) (turn : Turn) (w : World)
      → env.run_id now turn ≢ f
      → Admitted w (record_flow_run_start env now turn w).0 (record_flow_run_start env now turn w).1
  unfolding record_flow_run_start create_flow_run Admitted
  record_flow_run_start-Admitted env now turn w new =
      let sid = strip (session_of turn) in
      let born =
        create_flow_run-other now (env.run_id now turn) (some (env.task_id now turn))
          "dispatch_start" w.ledger new in
      elim (Bool-cases env.flow_drive) [
        | inr off ↦ rw off (unfold create_flow_run in born, new)
        | inl on ↦
            rw on (elim (Option-cases (non_empty (find_open_case_for_session sid w.ledger))) [
              | inl none_open ↦ rw none_open (refl, tt)
              | inr (c, there) ↦ rw there (attach_task-run now (env.task_id now turn) sid c w, tt)
            ])
      ]

  record_flow_stage-run :
      (now : ℕ) (before after : World) (fid : Option String) (stage : String)
      → Admitted before after fid
      → get_flow_run f (record_flow_stage now fid stage after).ledger ≡ get_flow_run f before.ledger
  unfolding Admitted record_flow_stage get_flow_run update_flow_stage
  record_flow_stage-run now before after none stage a = a.0
  record_flow_stage-run now before after (some fid) stage a =
      let staged = update_stage-run now fid f stage after.ledger.runs a.1 in
      elim (Bool-cases (str_eq fid "")) [
        | inl nameless ↦ rw nameless a.0
        | inr named ↦ rw named (staged ∙ a.0)
      ]

  enqueue_turn-run :
      (drive : Bool) (now : ℕ) (turn : Turn) (p : Place) (w : World) (a : World × Option String)
      → Admitted w a.0 a.1
      → get_flow_run f (enqueue_turn drive now turn p w a).0.ledger ≡ get_flow_run f w.ledger
  unfolding enqueue_turn Admitted
  enqueue_turn-run drive now turn unmade w a h = refl
  enqueue_turn-run drive now turn at_once w (admitted, fid) h =
      record_flow_stage-run now w (with_turn turn admitted) fid _ h
  enqueue_turn-run drive now turn throttled w a h = h.0
  enqueue_turn-run drive now turn dropped w a h = h.0

  pub submit_instruction-run :
      (env : Env) (now : ℕ) (turn : Turn) (w : World)
      → env.run_id now turn ≢ f
      → get_flow_run f (submit_instruction env now turn w).0.ledger ≡ get_flow_run f w.ledger
  unfolding submit_instruction
  submit_instruction-run env now turn w new =
      enqueue_turn-run env.flow_drive now turn (env.places turn) w _
        (record_flow_run_start-Admitted env now turn w new)
