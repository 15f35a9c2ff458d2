-- ===== src/Orchestrator/Wake/Repeats.antt =====
-- The Wake-Dispatcher over more than one pass: _continue_case_once of src/orchestrator.py, and the
-- lease of a round in `mesh_tasks`.
use ai_team.Prelude.{
  ℕ, ◌+◌, String, ◌≡◌, refl, sym, ap, subst, ◌∙◌, inl, inr, true, false, ◌&&◌, not, Option, none,
  some, List, arith, ltb, if◌then◌else◌, str_eq, Bool-cases, Option-cases,
}
use ai_team.Continuation.Tick.{Tick, is_satisfied, compute_continuation_tick}
use ai_team.Mesh.{
  continuation_action, continuation_machine_sentinel, TaskId, continuation_task_id, Task,
}
use ai_team.Orchestrator.{Env, World, wake_turn, round_cap_of, case_manager_session_id}
use ai_team.Orchestrator.Submit.{submit_instruction, submit_instruction-tasks}
use ai_team.Orchestrator.Wake.{
  Delivery, is_blocked, retire_reviewed, awaits_input, lease_wake, submit_wake, deliver_wake,
  wake_manager, continue_case_once,
}
use ai_team.Orchestrator.Wake.Rounds.{Leased, lease-Leased, generation-rounds, rounds}
use ai_team.Orchestrator.Wake.Leases.{
  is_free, is_some, reaches, waiting_manager, replace_manager-silent, continue_case_once_iff,
}
use ai_team.Sessions.{Session, get_session}
use ai_team.Sessions.Service.{is_over}

-- A pass that delivers leaves the lease of its round taken.
unfoldable pub Holds : TaskId → String → String → List Task → World × Option Delivery → Type 0
Holds tid node case_id before r = is_some r.1 ≡ true → Leased tid node case_id before r.0.tasks

module _ (tid : TaskId) (node case_id : String) (before : List Task) where
  quiet-Holds :
      (r : World × Option Delivery) → is_some r.1 ≡ false → Holds tid node case_id before r
  unfolding Holds
  quiet-Holds r h made = absurd (ground (arith, h, made))

  made-Holds :
      (r : World × Option Delivery)
      → Leased tid node case_id before r.0.tasks
      → Holds tid node case_id before r
  unfolding Holds
  made-Holds r taken made = taken

lease_wake-Leased :
    (env : Env) (now : ℕ) (case_id sid : String) (k : Tick) (s : Session) (w : World)
    → (lease_wake env now case_id sid k s w).1 ≡ true
    → Leased
        (continuation_task_id case_id k.generation_next)
        env.hostname
        case_id
        w.tasks
        (lease_wake env now case_id sid k s w).0.tasks
unfolding lease_wake
lease_wake-Leased env now case_id sid k s w =
    lease-Leased now (continuation_task_id case_id k.generation_next) case_id none
      (some continuation_machine_sentinel) (if str_eq s.backend "" then "claude" else s.backend)
      continuation_action (env.token case_id k.generation_next (some sid) k.presented_task_ids) none
      none env.hostname w.nodes w.tasks

submit_wake-Holds :
    (env : Env) (now : ℕ) (case_id sid : String) (k : Tick) (w : World) (tid : TaskId)
    (node : String) (before : List Task)
    → Leased tid node case_id before w.tasks
    → Holds tid node case_id before (submit_wake env now case_id sid k w)
unfolding submit_wake
submit_wake-Holds env now case_id sid k w tid node before taken =
    let turn = wake_turn case_id sid k.presented_task_ids in
    let kept = submit_instruction-tasks env now turn w in
    elim (Bool-cases (submit_instruction env now turn w).1) [
      | inl sent ↦ rw sent (
          made-Holds tid node case_id before _
            (subst (Leased tid node case_id before) (sym kept) taken))
      | inr failed ↦ rw failed (quiet-Holds tid node case_id before _ refl)
    ]

deliver_wake-Holds :
    (env : Env) (now : ℕ) (case_id sid : String) (k : Tick) (s : Session) (w : World)
    → Holds
        (continuation_task_id case_id k.generation_next)
        env.hostname
        case_id
        w.tasks
        (deliver_wake env now case_id sid k s w)
unfolding deliver_wake
deliver_wake-Holds env now case_id sid k s w =
    let tid = continuation_task_id case_id k.generation_next in
    elim (Bool-cases (lease_wake env now case_id sid k s w).1) [
      | inl won ↦ rw won (
          submit_wake-Holds env now case_id sid k _ tid env.hostname w.tasks
            (lease_wake-Leased env now case_id sid k s w won))
      | inr lost ↦ rw lost (quiet-Holds tid env.hostname case_id w.tasks _ refl)
    ]

wake_manager-Holds :
    (env : Env) (now : ℕ) (case_id : String) (k : Tick) (w : World)
    → Holds
        (continuation_task_id case_id k.generation_next)
        env.hostname
        case_id
        w.tasks
        (wake_manager env now case_id k w)
unfolding wake_manager
wake_manager-Holds env now case_id k w =
    let tid = continuation_task_id case_id k.generation_next in
    elim (Option-cases (case_manager_session_id case_id w.ledger)) [
      | inl no_link ↦ quiet-Holds tid env.hostname case_id w.tasks _ (ground (arith, no_link))
      | inr (sid, link) ↦
          let silent = replace_manager-silent env now case_id sid k w in
          elim (Option-cases (get_session sid w.sessions)) [
            | inl gone ↦
                quiet-Holds tid env.hostname case_id w.tasks _ (ground (arith, link, gone, silent))
            | inr (s, there) ↦ elim (Bool-cases (not (is_over s.status) && awaits_input s.status)) [
              | inr sleeps ↦
                  quiet-Holds tid env.hostname case_id w.tasks _
                    (ground (arith, link, there, silent, sleeps))
              | inl waits ↦
                  subst (Holds tid env.hostname case_id w.tasks)
                    (ground (arith, link, there, waits))
                    (deliver_wake-Holds env now case_id sid k s w)
            ]
          ]
    ]

pub continue_case_once-Holds :
    (env : Env) (now : ℕ) (case_id : String) (w : World)
    → let k = compute_continuation_tick env.upper case_id w.ledger w.tasks in
      Holds
        (continuation_task_id case_id k.generation_next)
        env.hostname
        case_id
        w.tasks
        (continue_case_once env now case_id w)
unfolding continue_case_once
continue_case_once-Holds env now case_id w =
    let k = compute_continuation_tick env.upper case_id w.ledger w.tasks in
    let tid = continuation_task_id case_id k.generation_next in
    let l' = retire_reviewed now case_id k.retire_only_groups w.ledger in
    let open_case =
      not (is_blocked env case_id w)
      && (is_satisfied k && not (ltb (round_cap_of env case_id l') k.generation_next)) in
    elim (Bool-cases open_case) [
      | inr halted ↦ quiet-Holds tid env.hostname case_id w.tasks _ (ground (arith, halted))
      | inl runs ↦
          subst (Holds tid env.hostname case_id w.tasks) (ground (arith, runs))
            (wake_manager-Holds env now case_id k (record w { ledger = l' }))
    ]

taken_is_silent :
    (env : Env) (now : ℕ) (case_id : String) (v : World) (g : ℕ)
    → g ≡ (compute_continuation_tick env.upper case_id v.ledger v.tasks).generation_next
    → is_free (continuation_task_id case_id g) v.tasks ≡ false
    → is_some (continue_case_once env now case_id v).1 ≡ false
unfolding reaches
taken_is_silent env now case_id v g same taken =
    let k = compute_continuation_tick env.upper case_id v.ledger v.tasks in
    let here = subst (λ n. is_free (continuation_task_id case_id n) v.tasks ≡ false) same taken in
    let no_reach : reaches env case_id k v ≡ false =
      elim (Option-cases (waiting_manager case_id v)) [
        | inl gone ↦ ground (arith, gone)
        | inr (sid, waits) ↦ ground (arith, waits, here)
      ] in
    ground (arith, continue_case_once_iff env now case_id v, no_reach)

-- A round wakes its Manager at most once: after a pass that delivers a turn of a Case, no pass on the
-- Case delivers another while `mesh_tasks` is as that pass left it, whatever becomes of the events,
-- the sessions, the flags and the host.
pub delivered_once :
    (env env' : Env) (now later : ℕ) (case_id : String) (w v : World)
    → is_some (continue_case_once env now case_id w).1 ≡ true
    → v.tasks ≡ (continue_case_once env now case_id w).0.tasks
    → is_some (continue_case_once env' later case_id v).1 ≡ false
unfolding Holds
delivered_once env env' now later case_id w v made same =
    let k = compute_continuation_tick env.upper case_id w.ledger w.tasks in
    let tid = continuation_task_id case_id k.generation_next in
    let (taken, (held, (consumed, rounds_same))) =
      continue_case_once-Holds env now case_id w made in
    let g = generation-rounds env.upper case_id w.ledger w.tasks in
    let g' = generation-rounds env'.upper case_id v.ledger v.tasks in
    taken_is_silent env' later case_id v _
      (g ∙ ap (λ n. n + 1) (sym rounds_same) ∙ ap (λ ts. rounds case_id ts + 1) (sym same) ∙ sym g')
      (subst (λ ts. is_free tid ts ≡ false) (sym same) taken)
