-- ===== src/Orchestrator/Respawn/SameCase.antt =====
-- The rows of the Cases through a pass of the Wake-Dispatcher of src/orchestrator.py.
use ai_team.Prelude.{
  first, ◌≢◌, ℕ, String, ◌≡◌, refl, ap, ◌∙◌, inl, inr, Bool, true, false, ◌||◌, not, Option, none,
  some, List, ◌∷◌, arith, str_eq, Bool-cases, Option-cases, member, [],
}
use ai_team.Case.{EntityType, Ledger, FlowEvent, FlowRun}
use ai_team.Case.Flow.{is_run, get_flow_run, append_flow_event}
use ai_team.Case.Waits.{Scan, lookup, resolve_marker, reconcile_loop, reconcile_worker_waits}
use ai_team.Continuation.Boot.{boot_reconcile_case, boot_reconcile_case_lem}
use ai_team.Continuation.Tick.{Tick, compute_continuation_tick}
use ai_team.Orchestrator.Submit.{create_flow_link-runs, submit_instruction-run}
use ai_team.Orchestrator.{
  Turn, wake_turn, resume_turn, round_cap_of, Env, World, escalate_headless_case, escalate_cap,
  case_manager_session_id,
}
use ai_team.Orchestrator.Respawn.{
  lease_respawn, release_respawn, bind_manager, resume_manager, settle_spawn, spawn_manager,
  objective_of, respawn_manager_for_case,
}
use ai_team.Orchestrator.Wake.{
  retire_reviewed, lease_wake, submit_wake, release_wake, deliver_wake, replace_manager,
  wake_manager, continue_case_once, continue_cases, wake_dispatcher_tick_once, list_open_cases,
}
use ai_team.Orchestrator.Wake.Leases.{retire_reviewed-keeps}
use ai_team.Sessions.{Session, get_session}

resolve_marker-runs :
    (now : ℕ) (f actor tid outcome : String) (l : Ledger)
    → (resolve_marker now f actor tid outcome l).runs ≡ l.runs
unfolding resolve_marker append_flow_event
resolve_marker-runs now f actor tid outcome l = refl

reconcile_loop-runs :
    (now : ℕ) (f actor : String) (s : Scan) (ms : List (String × FlowEvent)) (l : Ledger)
    → (reconcile_loop now f actor s ms l).0.runs ≡ l.runs
unfolding reconcile_loop
reconcile_loop-runs now f actor s [] l = refl
reconcile_loop-runs now f actor s ((tid, m) ∷ ms) l =
    let same = reconcile_loop-runs now f actor s ms l in
    elim (Bool-cases (member tid s.resolved_tasks)) [
      | inl done ↦ ground (arith, done, same)
      | inr waits ↦ elim (Option-cases (lookup tid s.finished)) [
        | inl unfinished ↦ ground (arith, waits, unfinished, same)
        | inr (outcome, finished) ↦
            let marked = resolve_marker now f actor tid outcome l in
            ground (
              arith,
              waits,
              finished,
              reconcile_loop-runs now f actor s ms marked,
              resolve_marker-runs now f actor tid outcome l,
            )
      ]
    ]

reconcile_worker_waits-runs :
    (now : ℕ) (f actor : String) (l : Ledger)
    → (reconcile_worker_waits true now f actor l).0.runs ≡ l.runs
unfolding reconcile_worker_waits
reconcile_worker_waits-runs now f actor l = reconcile_loop-runs now f actor _ _ l

boot_reconcile_case-runs :
    (relay enabled : Bool) (upper : String → String) (now : ℕ) (f actor : String) (l : Ledger)
    → (boot_reconcile_case relay enabled upper now f actor l).0.runs ≡ l.runs
boot_reconcile_case-runs false enabled upper now f actor l = unfold boot_reconcile_case in refl
boot_reconcile_case-runs true enabled upper now f actor l =
    ap (λ x. x.0.runs) (boot_reconcile_case_lem enabled upper now f actor l)
    ∙ reconcile_worker_waits-runs now f actor l

retire_reviewed-run :
    (f : String) (now : ℕ) (case_id : String) (gids : List String) (l : Ledger)
    → get_flow_run f (retire_reviewed now case_id gids l) ≡ get_flow_run f l
unfolding get_flow_run
retire_reviewed-run f now case_id gids l =
    ap (first (is_run f)) (retire_reviewed-keeps now case_id gids l).0

bind_manager-run :
    (f : String) (env : Env) (now : ℕ) (case_id : String) (g : ℕ) (dead : Option String)
    (node_id new_sid : String) (w : World)
    → get_flow_run f (bind_manager env now case_id g dead node_id new_sid w).ledger
      ≡ get_flow_run f w.ledger
unfolding get_flow_run bind_manager append_flow_event
bind_manager-run f env now case_id g dead node_id new_sid w = ap (first (is_run f)) (
    boot_reconcile_case-runs env.relay_on env.continuation_on env.upper now case_id "manager" _
    ∙ create_flow_link-runs now case_id EntityType.session new_sid "manager" (some "system") none []
        [] w.ledger)

-- No run that is minted for a turn is the Case's own.
module _ (f : String) (env : Env) (now : ℕ) (fresh : (turn : Turn) → env.run_id now turn ≢ f) where
  settle_spawn-run :
      (case_id : String) (g : ℕ) (dead : Option String) (objective node_id : String)
      (made : Option Session) (w after : World)
      → after.ledger ≡ w.ledger
      → get_flow_run f (settle_spawn env now case_id g dead objective node_id made w after).0.ledger
        ≡ get_flow_run f w.ledger
  unfolding settle_spawn release_respawn resume_manager
  settle_spawn-run case_id g dead objective node_id none w after same = refl
  settle_spawn-run case_id g dead objective node_id (some s) w after same =
      submit_instruction-run f env now (resume_turn case_id s.session_id objective)
        (bind_manager env now case_id g dead node_id s.session_id after)
        (fresh (resume_turn case_id s.session_id objective))
      ∙ bind_manager-run f env now case_id g dead node_id s.session_id after
      ∙ ap (get_flow_run f) same

  respawn-run :
      (case_id : String) (g : ℕ) (dead : Option String) (w : World)
      → get_flow_run f (respawn_manager_for_case env now case_id g dead w).0.ledger
        ≡ get_flow_run f w.ledger
  unfolding respawn_manager_for_case
  respawn-run case_id g dead w =
      let held = (lease_respawn env now case_id g dead w).0 in
      let leased : held.ledger ≡ w.ledger = unfold lease_respawn in refl in
      let spawned : get_flow_run f
            (spawn_manager env now case_id g dead (objective_of env case_id w) held).0.ledger
          ≡ get_flow_run f w.ledger =
        unfold spawn_manager in
        settle_spawn-run case_id g dead _ _ _ _ _ refl ∙ ap (get_flow_run f) leased in
      let viable =
        not env.continuation_on
        || (not env.manager_role_on || str_eq (objective_of env case_id w) "") in
      elim (Bool-cases viable) [
        | inl refuses ↦ rw refuses refl
        | inr on ↦ rw on (elim (Bool-cases (lease_respawn env now case_id g dead w).1) [
          | inl won ↦ rw won spawned
          | inr lost ↦ rw lost (ap (get_flow_run f) leased)
        ])
      ]

  escalate_headless_case-run :
      (case_id : String) (sid : Option String) (w : World)
      → get_flow_run f (escalate_headless_case now case_id sid w).ledger ≡ get_flow_run f w.ledger
  unfolding escalate_headless_case append_flow_event get_flow_run
  escalate_headless_case-run case_id sid w = ground arith

  escalate_cap-run :
      (case_id : String) (cap g : ℕ) (w : World)
      → get_flow_run f (escalate_cap env.show now case_id cap g w).ledger ≡ get_flow_run f w.ledger
  unfolding escalate_cap append_flow_event get_flow_run
  escalate_cap-run case_id cap g w = ground arith

  replace_manager-run :
      (case_id sid : String) (k : Tick) (w : World)
      → get_flow_run f (replace_manager env now case_id sid k w).0.ledger ≡ get_flow_run f w.ledger
  unfolding replace_manager
  replace_manager-run case_id sid k w =
      let after = (respawn_manager_for_case env now case_id k.generation_next (some sid) w).0 in
      ground (
        arith,
        respawn-run case_id k.generation_next (some sid) w,
        escalate_headless_case-run case_id (some sid) after,
      )

  deliver_wake-run :
      (case_id sid : String) (k : Tick) (s : Session) (w : World)
      → get_flow_run f (deliver_wake env now case_id sid k s w).0.ledger ≡ get_flow_run f w.ledger
  unfolding deliver_wake lease_wake submit_wake release_wake
  deliver_wake-run case_id sid k s w =
      let turn = wake_turn case_id sid k.presented_task_ids in
      let held = (lease_wake env now case_id sid k s w).0 in
      ground (arith, submit_instruction-run f env now turn held (fresh turn))

  wake_manager-run :
      (case_id : String) (k : Tick) (w : World)
      → get_flow_run f (wake_manager env now case_id k w).0.ledger ≡ get_flow_run f w.ledger
  unfolding wake_manager
  wake_manager-run case_id k w = elim (Option-cases (case_manager_session_id case_id w.ledger)) [
    | inl no_link ↦ ground (arith, no_link, escalate_headless_case-run case_id none w)
    | inr (sid, link) ↦
        let replaced = replace_manager-run case_id sid k w in
        elim (Option-cases (get_session sid w.sessions)) [
          | inl gone ↦ ground (arith, link, gone, replaced)
          | inr (s, there) ↦
              ground (arith, link, there, replaced, deliver_wake-run case_id sid k s w)
        ]
  ]

  continue_case_once-run :
      (case_id : String) (w : World)
      → get_flow_run f (continue_case_once env now case_id w).0.ledger ≡ get_flow_run f w.ledger
  unfolding continue_case_once
  continue_case_once-run case_id w =
      let k = compute_continuation_tick env.upper case_id w.ledger w.tasks in
      let l' = retire_reviewed now case_id k.retire_only_groups w.ledger in
      let drained = record w { ledger = l' } in
      ground (
        arith,
        retire_reviewed-run f now case_id k.retire_only_groups w.ledger,
        wake_manager-run case_id k drained,
        escalate_cap-run case_id (round_cap_of env case_id l') k.generation_next drained,
      )

  continue_cases-run :
      (rs : List FlowRun) (w : World)
      → get_flow_run f (continue_cases env now rs w).0.ledger ≡ get_flow_run f w.ledger
  unfolding continue_cases
  continue_cases-run [] w = refl
  continue_cases-run (r ∷ rs) w = ground (
    arith,
    continue_case_once-run r.flow_run_id w,
    continue_cases-run rs w,
    continue_cases-run rs (continue_case_once env now r.flow_run_id w).0,
  )

-- The dispatcher changes no Case: through a whole pass over the open Cases, with every wake, respawn,
-- escalation and submission in it, the row of `flow_runs` under an id stays as it is, and none comes to
-- an id without one, where no run that the pass makes for a turn is given this id.
pub wake_dispatcher-keeps_case :
    (f : String) (env : Env) (now : ℕ) (w : World)
    → ((turn : Turn) → env.run_id now turn ≢ f)
    → get_flow_run f (wake_dispatcher_tick_once env now w).0.ledger ≡ get_flow_run f w.ledger
unfolding wake_dispatcher_tick_once
wake_dispatcher-keeps_case f env now w fresh =
    ground (arith, continue_cases-run f env now fresh (list_open_cases w.ledger) w)
