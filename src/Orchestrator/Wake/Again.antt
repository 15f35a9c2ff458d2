-- ===== src/Orchestrator/Wake/Again.antt =====
-- A wake whose lease is given back: _continue_case_once of src/orchestrator.py after release_task of
-- src/control/db.py.
use ai_team.Prelude.{String, Bool, false, none, some}
use ai_team.Continuation.Tick.{Tick}
use ai_team.Orchestrator.{Env, World, wake_turn}
use ai_team.Orchestrator.Submit.{is_placed}
use ai_team.Orchestrator.Wake.Leases.{waiting_manager}

-- The Manager waits, and the queue takes its turn.
abbrev pub takes : Env → String → Tick → World → Bool
takes env case_id k w = elim (waiting_manager case_id w) [
  | none ↦ false
  | some sid ↦ is_placed (env.places (wake_turn case_id sid k.presented_task_ids))
]
