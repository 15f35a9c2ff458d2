-- ===== src/Orchestrator/Respawn.antt =====
-- The respawn of a Manager on a Case whose Manager session is dead: _respawn_manager_for_case of
-- src/orchestrator.py, step by step.
pub mod SameCase
use ai_team.Prelude.{
  ℕ, String, Bool, true, false, ◌||◌, not, Option, none, some, List, ◌∷◌, if◌then◌else◌, str_eq,
  or_else, strip, [],
}
use ai_team.Case.{session, case_manager_respawned, blank}
use ai_team.Case.Flow.{append_flow_event, create_flow_link}
use ai_team.Continuation.Boot.{boot_reconcile_case}
use ai_team.Continuation.Brief.{get_case_brief}
use ai_team.Mesh.{respawn_task_id, continuation_machine_sentinel, respawn_action}
use ai_team.Mesh.Queue.{enqueue_task, claim_task, release_task, complete_task}
use ai_team.Orchestrator.{Env, World, resume_turn, set_session_case_affiliation}
use ai_team.Orchestrator.Submit.{submit_instruction}
use ai_team.Sessions.{Session, get_session, non_empty}
use ai_team.Sessions.Create.{create_session, web_origin}

-- What the brief of the Case says it is for; empty where there is nothing to respawn.
abbrev pub objective_of : Env → String → World → String
objective_of env case_id w =
    elim (get_case_brief env.py env.upper env.sorted case_id w.ledger w.tasks) [
      | none ↦ ""
      | some b ↦ strip (or_else b.objective "")
    ]

-- Where the new session is placed: as the dead one was, where its row can be read.
pub record Placement : Type 0 where
  pub node_id : String
  pub repo_path : String
  pub backend : String

abbrev pub filled : String → String → String
filled s other = if str_eq s "" then other else s

unfoldable pub placement : Env → Option String → List Session → Placement
placement env dead rows =
    let row : Option Session = elim (non_empty dead) [
      | none ↦ none
      | some sid ↦ get_session sid rows
    ] in
    elim row [
      | none ↦ record { node_id = "__local__"; repo_path = env.cwd; backend = "claude" }
      | some s ↦ record {
        node_id = filled s.machine_id "__local__";
        repo_path = filled s.repo_path env.cwd;
        backend = filled s.backend "claude";
      }
    ]

-- The row of the lease, once, and the claim of it.
unfoldable pub lease_respawn : Env → ℕ → String → ℕ → Option String → World → World × Bool
lease_respawn env now case_id generation dead w =
    let tid = respawn_task_id case_id generation in
    let rows =
      enqueue_task now tid none (some continuation_machine_sentinel) "claude" respawn_action
        (env.token case_id generation dead []) none none w.tasks in
    let (rows', won) = claim_task now tid env.hostname w.nodes rows in
    (record w { tasks = rows' }, won)

unfoldable pub release_respawn : Env → ℕ → String → ℕ → World → World
release_respawn env now case_id generation w = record w {
  tasks = (release_task now (respawn_task_id case_id generation) env.hostname w.tasks).0;
}

-- The link, the affiliation and the event of the new session, and the boot of its waits.
unfoldable pub bind_manager :
    Env
    → (now : ℕ) (case_id : String) (generation : ℕ) (dead : Option String)
      (node_id new_sid : String)
    → World
    → World
bind_manager env now case_id generation dead node_id new_sid w =
    let linked =
      (create_flow_link now case_id session new_sid "manager" (some "system") none [] []
        w.ledger).0 in
    let rows =
      set_session_case_affiliation now new_sid case_id (some "manager") linked w.sessions in
    let noted =
      (append_flow_event now case_id case_manager_respawned "system" none none (some session)
        (some new_sid)
        (some (record blank {
          rest =
              ("reason", "manager_session_dead")
              ∷ ("dead_session_id", or_else dead "null")
              ∷ ("generation", env.show generation)
              ∷ ("node_id", node_id)
              ∷ [];
        }))
        linked).0 in
    record w {
      ledger =
          (boot_reconcile_case env.relay_on env.continuation_on env.upper now case_id "manager"
            noted).0;
      sessions = rows;
    }

-- The turn is submitted, or its failure is logged; either way the lease is completed.
unfoldable pub resume_manager :
    Env
    → (now : ℕ) (case_id : String) (generation : ℕ) (objective new_sid node_id : String) → World
    → World
unfolding submit_instruction
resume_manager env now case_id generation objective new_sid node_id w =
    let turn = resume_turn case_id new_sid objective in
    let after = (submit_instruction env now turn w).0 in
    record after {
      tasks =
          complete_task now (respawn_task_id case_id generation)
            (record {
              generation = none;
              consumed_task_ids = [];
              rest = env.placed new_sid node_id;
            })
            none after.tasks;
    }

-- With the session that was made, `after` is the world with it: it is brought to the Case. With none,
-- the lease is released.
unfoldable pub settle_spawn :
    Env
    → (now : ℕ) (case_id : String) (generation : ℕ) (dead : Option String)
      (objective node_id : String)
    → Option Session
    → (before after : World) → World × Bool
unfolding bind_manager resume_manager release_respawn
settle_spawn env now case_id generation dead objective node_id none w after =
    (release_respawn env now case_id generation w, false)
settle_spawn env now case_id generation dead objective node_id (some s) w after = (
  resume_manager env now case_id generation objective s.session_id node_id
      (bind_manager env now case_id generation dead node_id s.session_id after),
  true,
)

-- After the lease is won.
unfoldable pub spawn_manager : Env → ℕ → String → ℕ → Option String → String → World → World × Bool
unfolding settle_spawn
spawn_manager env now case_id generation dead objective w =
    let p = placement env dead w.sessions in
    let (rows, bs, answer, made) =
      create_session env.py.lower env.valid_backend env.invalid_path now (env.minted case_id)
        env.hostname p.backend p.repo_path none none p.node_id none (some web_origin) none none
        false w.sessions w.bindings in
    settle_spawn env now case_id generation dead objective p.node_id made w
      (record w { sessions = rows; bindings = bs })

-- True: a respawn is owned, by this call or by whoever holds the lease.
unfoldable pub respawn_manager_for_case :
    Env
    → (now : ℕ) (case_id : String) (generation : ℕ) (dead : Option String) → World
    → World × Bool
unfolding lease_respawn spawn_manager
respawn_manager_for_case env now case_id generation dead w =
    let objective = objective_of env case_id w in
    if not env.continuation_on || (not env.manager_role_on || str_eq objective "")
    then (w, false)
    else let (held, won) = lease_respawn env now case_id generation dead w in
      if won then spawn_manager env now case_id generation dead objective held else (held, true)
