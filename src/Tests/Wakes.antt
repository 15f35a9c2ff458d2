-- ===== src/Tests/Wakes.antt =====
-- Continuations of a Case, of src/control/db.py, on small ledgers.
use ai_team.Prelude.{
  String, ◌≡◌, refl, true, false, none, some, ◌∷◌, arith, str_eq, same_text?, select, exists, every,
  member, [],
}
use ai_team.Case.{
  wait_group, task, task_finished, worker_wait_pending, worker_wait_resolved, blank, FlowEvent,
  Ledger,
}
use ai_team.Case.Flow.{same_entity, append_flow_event, list_flow_events}
use ai_team.Continuation.{
  known_condition, generation_of, live_group, continuation_watermark, arm_wait_group,
}
use ai_team.Continuation.Tick.{
  append_new, judge_group, judge_step, judge_all, armed_group, collect, collect_step, collect_all,
  is_fresh, is_satisfied, compute_continuation_tick,
}
use ai_team.Continuation.Consume.{record_continuation_consumed}
use ai_team.Continuation.Once.{consumed_not_presented}
use ai_team.Continuation.Wake.{
  facts_of, wakes, satisfied_iff_wakes, full_case_is_deaf, rearmed_group_never_wakes,
}
use ai_team.Mesh.{same_id, continuation, Task, continuation_action, continuation_machine_sentinel}
use ai_team.Case.Waits.{put}
use ai_team.Tests.Cases.{note, ledger_of, case_run, full_ledger}
use ai_team.Tests.Mesh.{waiting}

abbrev pub same : String → String
same s = s

abbrev finish : FlowEvent
finish = record (note 2) {
  event_type = task_finished;
  entity_type = some task;
  entity_id = some "t1";
  payload = some (record blank { outcome = some "success" });
}

abbrev armed : FlowEvent
armed = record (note 1) {
  event_type = worker_wait_pending;
  entity_type = some wait_group;
  entity_id = some "g1";
  payload = some (record blank { condition = some "ANY"; member_task_ids = "t1" ∷ [] });
}

abbrev drained : FlowEvent
drained = record (note 3) {
  event_type = worker_wait_resolved;
  entity_type = some wait_group;
  entity_id = some "g1";
}

abbrev pub waking : Ledger
waking = ledger_of (case_run ∷ []) (armed ∷ finish ∷ []) []

abbrev pub round_one : Task
round_one = record waiting {
  id = continuation "c1" 1;
  action = continuation_action;
  machine_id = some continuation_machine_sentinel;
}

-- The finished task wakes the Case, and is presented.
wakes_once : (compute_continuation_tick same "c1" waking []).presented_task_ids ≡ "t1" ∷ []
unfolding compute_continuation_tick collect_all collect_step collect armed_group put judge_all
    judge_step judge_group select exists every is_fresh member append_new continuation_watermark
    list_flow_events same_entity str_eq
wakes_once = refl

satisfied_iff_wakes_example :
    is_satisfied (compute_continuation_tick same "c1" waking [])
    ≡ exists
        (wakes (facts_of same "c1" waking) (continuation_watermark "c1" []).consumed)
        (facts_of same "c1" waking).groups
satisfied_iff_wakes_example = satisfied_iff_wakes same "c1" waking []

consumed_not_presented_example :
    let after =
      (record_continuation_consumed 9 "c1"
        (continuation "c1" 1)
        1
        ("t1" ∷ [])
        []
        "manager"
        (waking, round_one ∷ [])).1 in
    member "t1" (compute_continuation_tick same "c1" waking after).presented_task_ids ≡ false
unfolding exists member generation_of same_id str_eq
consumed_not_presented_example =
    consumed_not_presented same 9 "c1" (continuation "c1" 1) 1 ("t1" ∷ []) [] "manager" waking
      waking (round_one ∷ []) "t1" refl refl

full_case_is_deaf_example :
    compute_continuation_tick same "c1"
      (append_flow_event 9 "c1" task_finished "system" none
        (some "success")
        (some task)
        (some "t1")
        none
        full_ledger).0
      []
    ≡ compute_continuation_tick same "c1" full_ledger []
unfolding select str_eq
full_case_is_deaf_example =
    full_case_is_deaf same 9 "c1" task_finished "system" none (some "success") (some task)
      (some "t1") none full_ledger [] (omega arith)

abbrev discharged : Ledger
discharged = ledger_of (case_run ∷ []) (armed ∷ drained ∷ []) []

rearmed_group_never_wakes_example :
    let (again, id) =
      arm_wait_group true same 9 "c1" "g1" (some "ANY") ("t1" ∷ []) "manager" discharged in
    (id ≡ some discharged.next_event)
    × (exists
          (λ s. str_eq s.wait_group_id "g1")
          (compute_continuation_tick same "c1" again []).satisfied_groups
        ≡ false)
unfolding arm_wait_group live_group known_condition append_flow_event list_flow_events collect_all
    collect_step collect armed_group put exists select member same_entity same_text? str_eq
rearmed_group_never_wakes_example =
    rearmed_group_never_wakes same 9 "c1" "g1" (some "ANY") ("t1" ∷ []) "manager" discharged [] refl
      refl
