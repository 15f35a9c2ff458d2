-- ===== src/Tests/Dispatcher.antt =====
-- Passes of the Wake-Dispatcher and kills of a Case on small tables.
use ai_team.Prelude.{
  ◌≤◌, ◌<◌, String, ◌≡◌, refl, ◌∙◌, true, false, ◌&&◌, not, none, some, List, ◌∷◌, ◌++◌, arith, ltb,
  str_eq, length, select, exists, every, first, member, strip, [],
}
use ai_team.Case.{session, FlowLink}
use ai_team.Case.Flow.{
  is_event_of, event_limit, list_flow_events, get_flow_run, list_flow_links, same_entity,
  text_clause, entity_clause,
}
use ai_team.Case.Criteria.{case_round_cap, parsed_cap}
use ai_team.Case.Waits.{put}
use ai_team.Continuation.{continuation_watermark}
use ai_team.Continuation.Tick.{
  append_new, judge_group, judge_step, judge_all, armed_group, collect, collect_step, collect_all,
  is_fresh, is_satisfied, compute_continuation_tick,
}
use ai_team.Orchestrator.{
  Env, World, headless, escalate_headless_case, is_unavailable, case_manager_session_id,
  last_manager, round_cap_of,
}
use ai_team.Orchestrator.Kill.{blocked, interrupt_open, interrupt_case, cancelled_of}
use ai_team.Orchestrator.Kill.Once.{interrupt_case_once}
use ai_team.Mesh.{continuation_task_id}
use ai_team.Mesh.Queue.{release_task}
use ai_team.Prelude.{ne_of_str_eq}
use ai_team.Orchestrator.{at_once}
use ai_team.Orchestrator.Respawn.SameCase.{wake_dispatcher-keeps_case}
use ai_team.Orchestrator.Wake.{is_blocked, continue_case_once, wake_dispatcher_tick_once}
use ai_team.Orchestrator.Wake.Halted.{killed_case_is_not_woken, headless_escalations}
use ai_team.Orchestrator.Wake.Leases.{is_some, reaches, waiting_manager, continue_case_once_iff}
use ai_team.Orchestrator.Wake.Repeats.{delivered_once}
use ai_team.Sessions.{get_session, non_empty}
use ai_team.Tests.Cases.{py, python, full_ledger}
use ai_team.Tests.Mesh.{nodes}
use ai_team.Tests.Sessions.{seat}
use ai_team.Tests.Wakes.{same, waking}

abbrev gateway : Env
gateway = record {
  continuation_on = true;
  manager_role_on = true;
  relay_on = true;
  flow_drive = false;
  hostname = "gateway";
  cwd = "/repo";
  py = py;
  upper = same;
  sorted = λ ts. ts;
  valid_backend = λ b. true;
  invalid_path = λ p. none;
  minted = λ c. "s2";
  show = λ n. "1";
  token = λ c g s ts. "{}";
  placed = λ s n. "{}";
  places = λ t. at_once;
  task_id = λ n t. "task";
  run_id = λ n t. "run";
}

abbrev manager_link : FlowLink
manager_link = record {
  id = 1;
  flow_run_id = "c1";
  entity_type = session;
  entity_id = "s1";
  role = "manager";
  created_at = 1;
  created_by = some "system";
  objective = none;
  depends_on = [];
  metadata = [];
}

-- A Case with a satisfied group, whose Manager waits.
abbrev desk : World
desk = record {
  ledger = record waking { links = manager_link ∷ [] };
  tasks = [];
  sessions = seat ∷ [];
  bindings = [];
  nodes = nodes;
  turns = [];
  notices = [];
}

continue_case_once_iff_example :
    let k = compute_continuation_tick same "c1" desk.ledger desk.tasks in
    is_some (continue_case_once gateway 9 "c1" desk).1 ≡ (
      not (is_blocked gateway "c1" desk)
      && (is_satisfied k
          && (not (ltb (round_cap_of gateway "c1" desk.ledger) k.generation_next)
              && reaches gateway "c1" k desk)))
continue_case_once_iff_example = continue_case_once_iff gateway 9 "c1" desk

-- The Manager is woken.
desk_wakes : is_some (continue_case_once gateway 9 "c1" desk).1 ≡ true
unfolding get_flow_run first str_eq compute_continuation_tick collect_all collect_step collect
    armed_group put judge_all judge_step judge_group select exists every is_fresh member append_new
    continuation_watermark list_flow_events same_entity case_round_cap parsed_cap strip python
    reaches waiting_manager case_manager_session_id last_manager list_flow_links text_clause
    entity_clause non_empty get_session
desk_wakes = continue_case_once_iff gateway 9 "c1" desk ∙ refl

-- The Case keeps its row, though the turn that wakes it has a run of its own.
wake_dispatcher-keeps_case_example :
    get_flow_run "c1" (wake_dispatcher_tick_once gateway 9 desk).0.ledger
    ≡ get_flow_run "c1" desk.ledger
unfolding str_eq
wake_dispatcher-keeps_case_example =
    wake_dispatcher-keeps_case "c1" gateway 9 desk (λ turn. ne_of_str_eq "run" "c1" refl)

delivered_once_example :
    is_some (continue_case_once gateway 20 "c1" (continue_case_once gateway 9 "c1" desk).0).1
    ≡ false
delivered_once_example =
    delivered_once gateway gateway 9 20 "c1" desk (continue_case_once gateway 9 "c1" desk).0
      desk_wakes refl

headless_escalations_example :
    let w = record desk { ledger = full_ledger } in
    let once = escalate_headless_case 9 "c1" (some "s1") w in
    (length (select (is_event_of "c1") w.ledger.events) < event_limit
      → escalate_headless_case 10 "c1" none once ≡ once)
    × (event_limit ≤ length (select (is_event_of "c1") w.ledger.events)
        → exists (λ e. is_unavailable e.event_type) (list_flow_events "c1" w.ledger) ≡ false
        → (escalate_headless_case 10 "c1" none once).notices
          ≡ (w.notices ++ headless "c1" (some "s1") ∷ []) ++ headless "c1" none ∷ [])
headless_escalations_example =
    headless_escalations 9 10 "c1" (some "s1") none (record desk { ledger = full_ledger })

abbrev listing : List String → String
listing ids = "[]"

killed_case_is_not_woken_example :
    let l =
      (interrupt_case py (λ t. true) listing 9 "c1" "operator" "stop" (desk.ledger, [])).0.0 in
    continue_case_once gateway 20 "c1" (record desk { ledger = l })
    ≡ (record desk { ledger = l }, none)
unfolding interrupt_case interrupt_open cancelled_of list_flow_links text_clause entity_clause
    same_entity get_flow_run first str_eq strip python list_flow_events exists select
killed_case_is_not_woken_example =
    killed_case_is_not_woken gateway (λ t. true) listing 9 20 "c1" "operator" "stop" desk [] []
      false refl refl

interrupt_case_once_example :
    let after =
      (interrupt_case py (λ t. true) listing 9 "c1" "operator" "stop" (desk.ledger, [])).0 in
    let (after', answer') = interrupt_case py (λ t. true) listing 20 "c1" "manager" "again" after in
    (after' ≡ after) × ((again : List String) × (answer' ≡ blocked again true))
unfolding interrupt_case interrupt_open cancelled_of list_flow_links text_clause entity_clause
    same_entity get_flow_run first str_eq strip python list_flow_events exists select
interrupt_case_once_example =
    interrupt_case_once py (λ t. true) (λ t. true) listing 9 20 "c1" "operator" "manager" "stop"
      "again" desk.ledger [] [] false refl refl (omega arith) refl

-- The lease of the wake is given back, and the Case and its Manager are as they were.
abbrev lost : World
lost = record desk {
  tasks =
      (release_task 15
        (continuation_task_id "c1"
          (compute_continuation_tick same "c1" desk.ledger desk.tasks).generation_next)
        "gateway" (continue_case_once gateway 9 "c1" desk).0.tasks).0;
}
