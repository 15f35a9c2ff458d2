-- ===== src/Lifecycle/Truth/Running.antt =====
-- When a task is said to run on its worker: derive_task_execution_state of
-- src/core/task_state_truth.py.
use ai_team.Prelude.{
  ℕ, ◌+◌, ◌*◌, String, ◌≡◌, refl, inl, inr, Bool, true, false, ◌&&◌, ◌||◌, not, Option, none, some,
  arith, leb, if◌then◌else◌, Option-cases,
}
use ai_team.Lifecycle.Truth.{
  claimed_truth, TruthState, driver_lost, waiting_for_input, waiting_for_approval, mesh_task_status,
  worker_running, worker_unknown, stale_claim, detached, high, medium, stale_claim_evidence,
  worker_live_state, mesh_task_claim, found_as, after_seconds, is_fresh_at, Truth, Evidence,
  is_lost, has_input_due, is_offline, is_live, lists_task, claim_truth, turn_truth, status_truth,
  asks_cancel, guarded_truth, ended_truth, derive_task_execution_state,
}
use ai_team.Mesh.{Task, TaskStatus, Node}
use ai_team.Mesh.Stale.{second, mismatch}
use ai_team.Sessions.{non_empty}

abbrev pub runs : Truth → Bool
runs truth = elim truth.state [ worker_running ↦ true | _ ↦ false ]

abbrev pub holds_claim : TaskStatus → Bool
holds_claim TaskStatus.claimed = true
holds_claim _ = false

-- A node vouches for a claimed task: it is not offline, is not known to have been restarted since the
-- claim, and its live state is fresh and lists the task.
unfoldable pub vouches : (now max_age : ℕ) → Task → Option Node → Bool
vouches now max_age t none = false
vouches now max_age t (some n) =
    not (is_offline n.status)
    && (not (mismatch (non_empty t.claimer_incarnation) (non_empty n.incarnation_id))
        && (is_live now max_age n && lists_task t.id n))

-- The choice that claim_truth makes, by its tests.
chosen-runs :
    (gone other live listed beats held : Bool) (a b c d e f g : Truth)
    → runs a ≡ false
    → runs b ≡ false
    → runs c ≡ true
    → runs d ≡ false
    → runs e ≡ false
    → runs f ≡ false
    → runs g ≡ false
    → runs (
        if gone
        then a
        else if other
        then b
        else if live && listed
        then c
        else if live
        then d
        else if beats
        then e
        else if held
        then f
        else g)
      ≡ (not gone && (not other && (live && listed)))
chosen-runs true other live listed beats held a b c d e f g ha hb hc hd he hf hg = ha
chosen-runs false true live listed beats held a b c d e f g ha hb hc hd he hf hg = hb
chosen-runs false false true true beats held a b c d e f g ha hb hc hd he hf hg = hc
chosen-runs false false true false beats held a b c d e f g ha hb hc hd he hf hg = hd
chosen-runs false false false listed true held a b c d e f g ha hb hc hd he hf hg = he
chosen-runs false false false listed false true a b c d e f g ha hb hc hd he hf hg = hf
chosen-runs false false false listed false false a b c d e f g ha hb hc hd he hf hg = hg

claim_truth-runs :
    (now max_age lease : ℕ) (t : Task) (n : Node)
    → runs (claim_truth now max_age lease t n) ≡ vouches now max_age t (some n)
unfolding claim_truth vouches
claim_truth-runs now max_age lease t n =
    let over = after_seconds lease t.claimed_at in
    let live_over = after_seconds max_age n.live_state_updated_at in
    chosen-runs (is_offline n.status)
      (mismatch (non_empty t.claimer_incarnation) (non_empty n.incarnation_id))
      (is_live now max_age n) (lists_task t.id n)
      (not (leb now (n.last_heartbeat + max_age * second))) (is_fresh_at now lease t.claimed_at)
      (record (found_as worker_unknown medium stale_claim_evidence) { stale_after = over })
      (record (found_as stale_claim high stale_claim_evidence) { stale_after = over })
      (record (found_as worker_running high worker_live_state) { stale_after = live_over })
      (record (found_as detached high stale_claim_evidence) { stale_after = live_over })
      (record (found_as worker_unknown medium stale_claim_evidence) { stale_after = over })
      (record (found_as TruthState.claimed medium mesh_task_claim) { stale_after = over })
      (record (found_as stale_claim medium stale_claim_evidence) { stale_after = over }) refl refl
      refl refl refl refl refl

turn_truth-runs : (turn : Option String) → runs (turn_truth turn) ≡ false
unfolding turn_truth
turn_truth-runs none = refl
turn_truth-runs (some final) = ground arith

claimed_truth-runs :
    (now max_age lease : ℕ) (t : Task) (node : Option Node)
    → runs (claimed_truth now max_age lease t node) ≡ vouches now max_age t node
unfolding claimed_truth
claimed_truth-runs now max_age lease t none = unfold vouches in refl
claimed_truth-runs now max_age lease t (some n) = claim_truth-runs now max_age lease t n

status_truth-runs :
    (now max_age lease : ℕ) (t : Task) (st : TaskStatus) (e : Evidence)
    → runs (status_truth now max_age lease t st e)
      ≡ (holds_claim st && vouches now max_age t e.node)
unfolding status_truth
status_truth-runs now max_age lease t TaskStatus.claimed e =
    claimed_truth-runs now max_age lease t e.node
status_truth-runs now max_age lease t TaskStatus.accepted e = refl
status_truth-runs now max_age lease t TaskStatus.pending e = refl
status_truth-runs now max_age lease t st e = turn_truth-runs e.turn

-- A task that has ended is not claimed, and does not run.
ended_truth-runs :
    (st : TaskStatus) (recovery : Bool)
    → elim (ended_truth st recovery) [ none ↦ false | some truth ↦ runs truth || holds_claim st ]
      ≡ false
unfolding ended_truth
ended_truth-runs TaskStatus.completed true = refl
ended_truth-runs TaskStatus.completed false = refl
ended_truth-runs TaskStatus.failed recovery = refl
ended_truth-runs TaskStatus.failed_node_offline recovery = refl
ended_truth-runs TaskStatus.cancelled recovery = refl
ended_truth-runs st recovery = refl

claimed_asks_nothing : (st : TaskStatus) → (holds_claim st && asks_cancel st) ≡ false
claimed_asks_nothing TaskStatus.claimed = refl
claimed_asks_nothing st = refl

-- The choice that guarded_truth makes, by its tests.
guarded-runs :
    (cancel asks lost approval input claimed vouched : Bool) (a b c d e : Truth)
    → runs a ≡ false
    → runs b ≡ false
    → runs c ≡ false
    → runs d ≡ false
    → (claimed && asks) ≡ false
    → runs e ≡ (claimed && vouched)
    → runs (
        if cancel || asks
        then a
        else if lost
        then b
        else if approval
        then c
        else if input
        then d
        else e)
      ≡ (claimed && (not cancel && (not lost && (not approval && (not input && vouched)))))
guarded-runs true asks lost approval input true vouched a b c d e ha hb hc hd quiet he = ha
guarded-runs true asks lost approval input false vouched a b c d e ha hb hc hd quiet he = ha
guarded-runs false true lost approval input true vouched a b c d e ha hb hc hd quiet he =
    absurd (ground (arith, quiet))
guarded-runs false true lost approval input false vouched a b c d e ha hb hc hd quiet he = ha
guarded-runs false false true approval input true vouched a b c d e ha hb hc hd quiet he = hb
guarded-runs false false true approval input false vouched a b c d e ha hb hc hd quiet he = hb
guarded-runs false false false true input true vouched a b c d e ha hb hc hd quiet he = hc
guarded-runs false false false true input false vouched a b c d e ha hb hc hd quiet he = hc
guarded-runs false false false false true true vouched a b c d e ha hb hc hd quiet he = hd
guarded-runs false false false false true false vouched a b c d e ha hb hc hd quiet he = hd
guarded-runs false false false false false true vouched a b c d e ha hb hc hd quiet he = he
guarded-runs false false false false false false vouched a b c d e ha hb hc hd quiet he = he

guarded_truth-runs :
    (now max_age lease : ℕ) (t : Task) (e : Evidence)
    → runs (guarded_truth now max_age lease t e) ≡ (
        holds_claim t.status
        && (not e.cancel_requested
            && (not (is_lost e.session)
                && (not e.approval_pending
                    && (not (has_input_due e.session) && vouches now max_age t e.node)))))
unfolding guarded_truth
guarded_truth-runs now max_age lease t e =
    let inner = status_truth-runs now max_age lease t t.status e in
    let quiet = claimed_asks_nothing t.status in
    guarded-runs e.cancel_requested (asks_cancel t.status) (is_lost e.session) e.approval_pending
      (has_input_due e.session) (holds_claim t.status) (vouches now max_age t e.node)
      (found_as TruthState.cancel_requested (if e.cancel_requested then high else medium)
        mesh_task_status)
      (found_as driver_lost high mesh_task_status)
      (found_as waiting_for_approval high mesh_task_status)
      (found_as waiting_for_input high mesh_task_status)
      (status_truth now max_age lease t t.status e) refl refl refl refl quiet inner

-- A task is said to run on its worker exactly if it is claimed, no cancellation is requested, its
-- session's driver is not lost, no approval is pending, its session does not await input, and the row
-- of its node vouches for it: a node that is not offline, whose incarnation is not known to be another
-- one than the claimer's, and whose live state is fresh and lists the task.
pub runs_on_worker_iff :
    (now max_age lease : ℕ) (t : Task) (e : Evidence)
    → runs (derive_task_execution_state now max_age lease t e) ≡ (
        holds_claim t.status
        && (not e.cancel_requested
            && (not (is_lost e.session)
                && (not e.approval_pending
                    && (not (has_input_due e.session) && vouches now max_age t e.node)))))
unfolding derive_task_execution_state
runs_on_worker_iff now max_age lease t e =
    let guarded = guarded_truth-runs now max_age lease t e in
    let over = ended_truth-runs t.status e.recovery_evidence in
    elim (Option-cases (ended_truth t.status e.recovery_evidence)) [
      | inl open_task ↦ ground (arith, open_task, guarded)
      | inr (truth, ended) ↦ ground (arith, ended, over)
    ]
