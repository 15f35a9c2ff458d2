-- ===== src/Orchestrator/Wake/Leases.antt =====
-- When the Wake-Dispatcher delivers a turn, and when it does not: _continue_case_once of
-- src/orchestrator.py over the lease rows of src/control/db.py.
use ai_team.Prelude.{
  ℕ, String, ◌≡◌, refl, ap, inl, inr, Bool, true, false, ◌&&◌, ◌||◌, not, Option, none, some, List,
  ◌∷◌, arith, ltb, if◌then◌else◌, Bool-cases, Option-cases, exists, exists-appended, [],
}
use ai_team.Case.{Ledger}
use ai_team.Case.Flow.{append_flow_event, get_flow_run, list_flow_links}
use ai_team.Continuation.Tick.{Tick, is_satisfied, compute_continuation_tick}
use ai_team.Mesh.{TaskId, same_id_refl, continuation_task_id, Task, Node}
use ai_team.Mesh.Queue.{has_id, claimable, insert_task, enqueue_task, claim_task}
use ai_team.Orchestrator.{
  list_flow_links, get_flow_run, append_flow_event, Env, World, wake_turn, round_cap_of,
  case_manager_session_id,
}
use ai_team.Orchestrator.Submit.{is_placed, submit_instruction-placed}
use ai_team.Orchestrator.Wake.{
  is_blocked, retire_reviewed, Delivery, awaits_input, lease_wake, submit_wake, deliver_wake,
  replace_manager, wake_manager, continue_case_once,
}
use ai_team.Sessions.{
  Session, get_session, SessionStatus, idle, busy, awaiting_input, error, cancelled, closed,
  paused_pinned_node_offline, pinned_node_offline,
}
use ai_team.Sessions.Service.{is_over}

enqueue_task-old :
    (now : ℕ) (tid : TaskId) (session machine : Option String) (backend action payload : String)
    (artifact parent : Option String) (tasks : List Task)
    → exists (has_id tid) tasks ≡ true
    → enqueue_task now tid session machine backend action payload artifact parent tasks ≡ tasks
unfolding enqueue_task insert_task
enqueue_task-old now tid session machine backend action payload artifact parent tasks old =
    ground (arith, old)

-- The lease of a round is held by no one: it is not there, or it is pending.
abbrev pub is_free : TaskId → List Task → Bool
is_free tid tasks = not (exists (has_id tid) tasks) || exists (claimable tid) tasks

-- A lease that is free is won, and else it is lost, and the rows are as before.
enqueue-claim :
    (now : ℕ) (tid : TaskId) (session machine : Option String) (backend action payload : String)
    (artifact parent : Option String) (node : String) (nodes : List Node) (tasks : List Task)
    → let rows =
        enqueue_task now tid session machine backend action payload artifact parent tasks in
      (claim_task now tid node nodes rows).1 ≡ is_free tid tasks
unfolding enqueue_task insert_task claim_task
enqueue-claim now tid session machine backend action payload artifact parent node nodes tasks =
    elim (Bool-cases (exists (has_id tid) tasks)) [
      | inl old ↦ ground (arith, old)
      | inr new ↦
          rw new (exists-appended (claimable tid) tasks _ (ground (arith, same_id_refl tid)))
    ]

lease_wake-won :
    (env : Env) (now : ℕ) (case_id sid : String) (k : Tick) (s : Session) (w : World)
    → (lease_wake env now case_id sid k s w).1
      ≡ is_free (continuation_task_id case_id k.generation_next) w.tasks
unfolding lease_wake
lease_wake-won env now case_id sid k s w =
    enqueue-claim now (continuation_task_id case_id k.generation_next) none _ _ _ _ none none
      env.hostname w.nodes w.tasks

-- The Manager of the Case, where its session awaits input.
unfoldable pub waiting_manager : String → World → Option String
waiting_manager case_id w = elim (case_manager_session_id case_id w.ledger) [
  | none ↦ none
  | some sid ↦ elim (get_session sid w.sessions) [
    | none ↦ none
    | some s ↦ if awaits_input s.status then some sid else none
  ]
]

-- Whether a turn reaches the Manager: it waits, the lease is free, and the queue takes the turn.
unfoldable pub reaches : Env → String → Tick → World → Bool
reaches env case_id k w = elim (waiting_manager case_id w) [
  | none ↦ false
  | some sid ↦
      is_free (continuation_task_id case_id k.generation_next) w.tasks
      && is_placed (env.places (wake_turn case_id sid k.presented_task_ids))
]

abbrev pub is_some : Option Delivery → Bool
is_some none = false
is_some (some d) = true

submit_wake-made :
    (env : Env) (now : ℕ) (case_id sid : String) (k : Tick) (w : World)
    → is_some (submit_wake env now case_id sid k w).1
      ≡ is_placed (env.places (wake_turn case_id sid k.presented_task_ids))
unfolding submit_wake
submit_wake-made env now case_id sid k w =
    ground (arith, submit_instruction-placed env now (wake_turn case_id sid k.presented_task_ids) w)

deliver_wake-made :
    (env : Env) (now : ℕ) (case_id sid : String) (k : Tick) (s : Session) (w : World)
    → is_some (deliver_wake env now case_id sid k s w).1 ≡ (
        is_free (continuation_task_id case_id k.generation_next) w.tasks
        && is_placed (env.places (wake_turn case_id sid k.presented_task_ids)))
unfolding deliver_wake
deliver_wake-made env now case_id sid k s w =
    let won = lease_wake-won env now case_id sid k s w in
    let made = submit_wake-made env now case_id sid k (lease_wake env now case_id sid k s w).0 in
    ground (arith, won, made)

pub replace_manager-silent :
    (env : Env) (now : ℕ) (case_id sid : String) (k : Tick) (w : World)
    → is_some (replace_manager env now case_id sid k w).1 ≡ false
unfolding replace_manager
replace_manager-silent env now case_id sid k w = ground arith

over_or_waits : (st : SessionStatus) → (is_over st && awaits_input st) ≡ false
over_or_waits idle = refl
over_or_waits busy = refl
over_or_waits awaiting_input = refl
over_or_waits error = refl
over_or_waits cancelled = refl
over_or_waits closed = refl
over_or_waits paused_pinned_node_offline = refl
over_or_waits pinned_node_offline = refl

wake_manager-made :
    (env : Env) (now : ℕ) (case_id : String) (k : Tick) (w : World)
    → is_some (wake_manager env now case_id k w).1 ≡ reaches env case_id k w
unfolding wake_manager reaches waiting_manager
wake_manager-made env now case_id k w =
    elim (Option-cases (case_manager_session_id case_id w.ledger)) [
      | inl no_link ↦ ground (arith, no_link)
      | inr (sid, link) ↦
          let silent = replace_manager-silent env now case_id sid k w in
          elim (Option-cases (get_session sid w.sessions)) [
            | inl gone ↦ ground (arith, link, gone, silent)
            | inr (s, there) ↦
                let made = deliver_wake-made env now case_id sid k s w in
                ground (arith, link, there, silent, made, over_or_waits s.status)
          ]
    ]

pub retire_reviewed-keeps :
    (now : ℕ) (case_id : String) (gids : List String) (l : Ledger)
    → ((retire_reviewed now case_id gids l).runs ≡ l.runs)
      × ((retire_reviewed now case_id gids l).links ≡ l.links)
unfolding retire_reviewed append_flow_event
retire_reviewed-keeps now case_id [] l = (refl, refl)
retire_reviewed-keeps now case_id (gid ∷ gids) l = retire_reviewed-keeps now case_id gids _

same_cap :
    (env : Env) (case_id : String) (l l' : Ledger)
    → l'.runs ≡ l.runs
    → round_cap_of env case_id l' ≡ round_cap_of env case_id l
unfolding get_flow_run
same_cap env case_id l l' e = ap (λ rs. round_cap_of env case_id (record l { runs = rs })) e

same_reach :
    (env : Env) (case_id : String) (k : Tick) (w : World) (l' : Ledger)
    → l'.links ≡ w.ledger.links
    → reaches env case_id k (record w { ledger = l' }) ≡ reaches env case_id k w
unfolding reaches waiting_manager case_manager_session_id list_flow_links
same_reach env case_id k w l' e =
    ap (λ ks. reaches env case_id k (record w { ledger = record w.ledger { links = ks } })) e

-- A turn is delivered exactly where the Case is not blocked, one of its groups is satisfied, the
-- round is within the cap, the session of its last manager link awaits input, the lease of the round
-- is there and pending or not there at all, and the queue takes the turn, at once or within its wait.
pub continue_case_once_iff :
    (env : Env) (now : ℕ) (case_id : String) (w : World)
    → let k = compute_continuation_tick env.upper case_id w.ledger w.tasks in
      is_some (continue_case_once env now case_id w).1 ≡ (
        not (is_blocked env case_id w)
        && (is_satisfied k
            && (not (ltb (round_cap_of env case_id w.ledger) k.generation_next)
                && reaches env case_id k w)))
unfolding continue_case_once
continue_case_once_iff env now case_id w =
    let k = compute_continuation_tick env.upper case_id w.ledger w.tasks in
    let l' = retire_reviewed now case_id k.retire_only_groups w.ledger in
    let (runs, links) = retire_reviewed-keeps now case_id k.retire_only_groups w.ledger in
    let made = wake_manager-made env now case_id k (record w { ledger = l' }) in
    ground (arith, made, same_cap env case_id w.ledger l' runs, same_reach env case_id k w l' links)
