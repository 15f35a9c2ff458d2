-- ===== src/Orchestrator/Wake.antt =====
-- One pass of the Wake-Dispatcher: _wake_dispatcher_tick_once and _continue_case_once of
-- src/orchestrator.py, and list_open_cases of src/control/db.py.
pub mod Halted
pub mod Leases
pub mod Rounds
pub mod Repeats
pub mod Again
use ai_team.Prelude.{
  ℕ, ◌+◌, String, Bool, true, false, not, Option, none, some, List, ◌∷◌, map, ltb, if◌then◌else◌,
  str_eq, take, select, [],
}
use ai_team.Case.{wait_group, worker_wait_resolved, blank, FlowRun, Ledger}
use ai_team.Case.Approvals.{newest_first}
use ai_team.Case.Flow.{append_flow_event, get_flow_run, is_closed_status}
use ai_team.Continuation.Tick.{Tick, Satisfied, is_satisfied, compute_continuation_tick}
use ai_team.Mesh.{continuation_task_id, continuation_machine_sentinel, continuation_action}
use ai_team.Mesh.Queue.{enqueue_task, claim_task, release_task}
use ai_team.Orchestrator.{
  Env, World, wake_turn, word, round_cap_of, case_manager_session_id, escalate_headless_case,
  escalate_cap,
}
use ai_team.Orchestrator.Submit.{submit_instruction}
use ai_team.Orchestrator.Respawn.{respawn_manager_for_case}
use ai_team.Sessions.{Session, SessionStatus, awaiting_input, get_session}
use ai_team.Sessions.Service.{is_over}

abbrev pub is_blocked : Env → String → World → Bool
is_blocked env case_id w = elim (get_flow_run case_id w.ledger) [
  | none ↦ false
  | some r ↦ str_eq (word env.py r.status) "blocked"
]

-- The groups that a review drained out of band: a marker each.
unfoldable pub retire_reviewed : ℕ → String → List String → Ledger → Ledger
retire_reviewed now case_id [] l = l
retire_reviewed now case_id (gid ∷ gids) l =
    retire_reviewed now case_id gids
      (append_flow_event now case_id worker_wait_resolved "system" none none (some wait_group)
        (some gid)
        (some (record blank {
          outcome = some "drained";
          rest = ("wait_group_id", gid) ∷ ("reason", "reviewed_out_of_band") ∷ [];
        }))
        l).0

-- What _finalize_continuation is started with.
pub record Delivery : Type 0 where
  pub generation : ℕ
  pub presented : List String
  pub retired : List String
  pub session_id : String

abbrev pub awaits_input : SessionStatus → Bool
awaits_input awaiting_input = true
awaits_input _ = false

abbrev pub retired_groups : List Satisfied → List String
retired_groups ss = map (λ s. s.wait_group_id) (select (λ s. s.retire) ss)

-- The row of the continuation, once, and the claim of it.
unfoldable pub lease_wake :
    Env → (now : ℕ) (case_id sid : String) (k : Tick) (s : Session) → World → World × Bool
lease_wake env now case_id sid k s w =
    let tid = continuation_task_id case_id k.generation_next in
    let rows =
      enqueue_task now tid none (some continuation_machine_sentinel)
        (if str_eq s.backend "" then "claude" else s.backend) continuation_action
        (env.token case_id k.generation_next (some sid) k.presented_task_ids) none none w.tasks in
    let (rows', won) = claim_task now tid env.hostname w.nodes rows in
    (record w { tasks = rows' }, won)

unfoldable pub release_wake : Env → ℕ → String → ℕ → World → World
release_wake env now case_id generation w = record w {
  tasks = (release_task now (continuation_task_id case_id generation) env.hostname w.tasks).0;
}

-- With the lease: the turn is submitted, or the lease is given back.
unfoldable pub submit_wake :
    Env → (now : ℕ) (case_id sid : String) (k : Tick) → World → World × Option Delivery
unfolding release_wake submit_instruction
submit_wake env now case_id sid k w =
    let turn = wake_turn case_id sid k.presented_task_ids in
    let (after, sent) = submit_instruction env now turn w in
    if sent
    then (
      after,
      some (record {
        generation = k.generation_next;
        presented = k.presented_task_ids;
        retired = retired_groups k.satisfied_groups;
        session_id = sid;
      }),
    )
    else (release_wake env now case_id k.generation_next after, none)

unfoldable pub deliver_wake :
    Env
    → (now : ℕ) (case_id sid : String) (k : Tick) (s : Session) → World
    → World × Option Delivery
unfolding lease_wake submit_wake
deliver_wake env now case_id sid k s w =
    let (held, won) = lease_wake env now case_id sid k s w in
    if won then submit_wake env now case_id sid k held else (held, none)

-- A dead Manager is respawned, or the strand is shown.
unfoldable pub replace_manager :
    Env → (now : ℕ) (case_id sid : String) (k : Tick) → World → World × Option Delivery
replace_manager env now case_id sid k w =
    let (w', owned) = respawn_manager_for_case env now case_id k.generation_next (some sid) w in
    if owned then (w', none) else (escalate_headless_case now case_id (some sid) w', none)

-- From the Manager's session on.
unfoldable pub wake_manager :
    Env → (now : ℕ) (case_id : String) (k : Tick) → World → World × Option Delivery
unfolding deliver_wake replace_manager
wake_manager env now case_id k w = elim (case_manager_session_id case_id w.ledger) [
  | none ↦ (escalate_headless_case now case_id none w, none)
  | some sid ↦ elim (get_session sid w.sessions) [
    | none ↦ replace_manager env now case_id sid k w
    | some s ↦
        if is_over s.status
        then replace_manager env now case_id sid k w
        else if not (awaits_input s.status)
        then (w, none)
        else deliver_wake env now case_id sid k s w
  ]
]

-- The count that the code returns is 1 with a delivery, and 0 without one.
unfoldable pub continue_case_once :
    Env → (now : ℕ) (case_id : String) → World → World × Option Delivery
unfolding retire_reviewed wake_manager
continue_case_once env now case_id w =
    let k = compute_continuation_tick env.upper case_id w.ledger w.tasks in
    let w' = record w { ledger = retire_reviewed now case_id k.retire_only_groups w.ledger } in
    let cap = round_cap_of env case_id w'.ledger in
    if is_blocked env case_id w
    then (w, none)
    else if not (is_satisfied k)
    then (w', none)
    else if ltb cap k.generation_next
    then (escalate_cap env.show now case_id cap k.generation_next w', none)
    else wake_manager env now case_id k w'

-- ORDER BY created_at DESC LIMIT 200
unfoldable pub list_open_cases : Ledger → List FlowRun
list_open_cases l = take 200 (newest_first (select (λ r. not (is_closed_status r.status)) l.runs))

abbrev pub count_of : Option Delivery → ℕ
count_of none = 0
count_of (some d) = 1

-- The loop over the open Cases, with the number of the turns that it delivered.
unfoldable pub continue_cases : Env → ℕ → List FlowRun → World → World × ℕ
unfolding continue_case_once
continue_cases env now [] w = (w, 0)
continue_cases env now (r ∷ rs) w =
    let (w', made) =
      if str_eq r.flow_run_id "" then (w, none) else continue_case_once env now r.flow_run_id w in
    let (w'', n) = continue_cases env now rs w' in (w'', count_of made + n)

unfoldable pub wake_dispatcher_tick_once : Env → ℕ → World → World × ℕ
unfolding continue_cases list_open_cases
wake_dispatcher_tick_once env now w =
    if not env.continuation_on then (w, 0) else continue_cases env now (list_open_cases w.ledger) w
