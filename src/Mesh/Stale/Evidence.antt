-- ===== src/Mesh/Stale/Evidence.antt =====
-- What it takes for a claim to be reported as stale by list_stale_claims of src/control/db.py.
use ai_team.Prelude.{
  ℕ, ◌+◌, ◌*◌, ◌≤◌, ◌<◌, ◌≡◌, refl, ◌↔◌, ◌⊎◌, inl, inr, true, false, Option, none, some, List,
  arith, Bool-cases,
}
use ai_team.Mesh.{
  TaskId, Task, claimed, Node, NodeStatus, online, offline, LiveState, object, Details,
}
use ai_team.Mesh.Stale.{
  second, StaleReason, node_missing, node_offline, incarnation_mismatch, missing_from_live_state,
  active_task_over_max_runtime, is_active_on, detail_started, runtime_reason, object_reason,
  stale_online_claim_reason, mismatch, node_reason, joined, claim_reason,
}

-- When the work on a task began: as its live-state detail says, or else as its claim says.
abbrev pub StartedAt : Task → Details → ℕ → Type 0
StartedAt t details s =
    (detail_started t.id details ≡ some s)
    ⊎ ((detail_started t.id details ≡ none) × (t.claimed_at ≡ some s))

-- The case for each reason, over the row of the node that holds the claim.
pub data Evidence (now max_age limit : ℕ) (t : Task) (j : Option Node) (r : StaleReason)
    : Type 0 where
  gone : j ≡ none → r ≡ node_missing → Evidence now max_age limit t j r
  down :
      (n : Node)
      → j ≡ some n
      → n.status ≡ offline
      → r ≡ node_offline
      → Evidence now max_age limit t j r
  restarted :
      (n : Node)
      → j ≡ some n
      → n.status ≡ online
      → mismatch t.claimer_incarnation n.incarnation_id ≡ true
      → r ≡ incarnation_mismatch
      → Evidence now max_age limit t j r
  dropped :
      (n : Node) (updated : ℕ) (active : List TaskId) (details : Details)
      → j ≡ some n
      → n.status ≡ online
      → mismatch t.claimer_incarnation n.incarnation_id ≡ false
      → n.live_state ≡ some (object active details)
      → n.live_state_updated_at ≡ some updated
      → now ≤ updated + max_age * second
      → is_active_on t.id active details ≡ false
      → r ≡ missing_from_live_state
      → Evidence now max_age limit t j r
  overrun :
      (n : Node) (updated s : ℕ) (active : List TaskId) (details : Details)
      → j ≡ some n
      → n.status ≡ online
      → mismatch t.claimer_incarnation n.incarnation_id ≡ false
      → n.live_state ≡ some (object active details)
      → n.live_state_updated_at ≡ some updated
      → now ≤ updated + max_age * second
      → is_active_on t.id active details ≡ true
      → 0 < limit
      → StartedAt t details s
      → s + limit * second < now
      → r ≡ active_task_over_max_runtime
      → Evidence now max_age limit t j r

-- The claim has outlived its lease.
abbrev pub LeaseIsOver : ℕ → ℕ → Task → Type 0
LeaseIsOver now lease t =
    (t.status ≡ claimed) × ((at : ℕ) × (t.claimed_at ≡ some at) × (at + lease * second < now))

module _ (now max_age limit : ℕ) (t : Task) where
  runtime_reason_sound :
      (started claimed_at : Option ℕ) (r : StaleReason)
      → runtime_reason now limit started claimed_at ≡ some r
      → (s : ℕ) × ((started ≡ some s) ⊎ ((started ≡ none) × (claimed_at ≡ some s)))
        × (s + limit * second < now)
        × (r ≡ active_task_over_max_runtime)
  unfolding runtime_reason
  runtime_reason_sound (some s) c r h = (s, inl refl, ground arith, ground arith)
  runtime_reason_sound none (some s) r h = (s, inr (refl, refl), ground arith, ground arith)
  runtime_reason_sound none none r h = absurd (ground arith)

  live_sound :
      (n : Node) (l : Option LiveState) (u : Option ℕ) (r : StaleReason)
      → n.status ≡ online
      → mismatch t.claimer_incarnation n.incarnation_id ≡ false
      → n.live_state ≡ l
      → n.live_state_updated_at ≡ u
      → stale_online_claim_reason now max_age limit t n ≡ some r
      → Evidence now max_age limit t (some n) r
  unfolding stale_online_claim_reason object_reason
  live_sound n none u r o m e f h = absurd (ground arith)
  live_sound n (some l) none r o m e f h = absurd (ground arith)
  live_sound n (some LiveState.unreadable) (some u) r o m e f h = absurd (ground arith)
  live_sound n (some (object active details)) (some u) r o m e f h =
      elim (Bool-cases (is_active_on t.id active details)) [
        | inl busy ↦
            let (s, started, late, q) =
              runtime_reason_sound (detail_started t.id details) t.claimed_at r
                (ground (arith, busy)) in
            overrun n u s active details refl o m e f (ground (arith, busy)) busy
              (ground (arith, busy)) started late q
        | inr idle ↦
            dropped n u active details refl o m e f (ground (arith, idle)) idle
              (ground (arith, idle))
      ]

  status_sound :
      (n : Node) (s : NodeStatus) (r : StaleReason)
      → n.status ≡ s
      → node_reason now max_age limit t (some n) ≡ some r
      → Evidence now max_age limit t (some n) r
  unfolding node_reason
  status_sound n offline r e h = down n refl e (ground arith)
  status_sound n online r e h =
      elim (Bool-cases (mismatch t.claimer_incarnation n.incarnation_id)) [
        | inl differ ↦ restarted n refl e differ (ground (arith, differ))
        | inr same ↦
            live_sound n n.live_state n.live_state_updated_at r e same refl refl
              (ground (arith, same))
      ]
  status_sound n (NodeStatus.other w) r e h = absurd (ground arith)

  node_reason_sound :
      (j : Option Node) (r : StaleReason)
      → node_reason now max_age limit t j ≡ some r
      → Evidence now max_age limit t j r
  node_reason_sound none r h = gone refl (unfold node_reason in ground arith)
  node_reason_sound (some n) r h = status_sound n n.status r refl h

  node_reason_complete :
      (j : Option Node) (r : StaleReason)
      → Evidence now max_age limit t j r
      → node_reason now max_age limit t j ≡ some r
  unfolding node_reason
  node_reason_complete j r (gone e q) = ground arith
  node_reason_complete j r (down n e o q) = ground arith
  node_reason_complete j r (restarted n e o m q) = ground arith
  node_reason_complete j r (dropped n u a d e o m l up f i q) = ground arith
  node_reason_complete j r (overrun n u s a d e o m l up f i c st lt q) = ground arith

claim_reason_sound :
    (now lease max_age limit : ℕ) (nodes : List Node) (t : Task) (c : Option ℕ) (r : StaleReason)
    → t.claimed_at ≡ c
    → claim_reason now lease max_age limit nodes t ≡ some r
    → LeaseIsOver now lease t × Evidence now max_age limit t (joined nodes t) r
unfolding claim_reason
claim_reason_sound now lease max_age limit nodes t none r e h = absurd (ground arith)
claim_reason_sound now lease max_age limit nodes t (some at) r e h = (
  (ground arith, (at, e, ground arith)),
  node_reason_sound now max_age limit t (joined nodes t) r (ground arith),
)

-- A claim is reported for a reason exactly when it has outlived its lease and the node that holds
-- it gives the evidence for that reason.
pub claim_reason_exact :
    (now lease max_age limit : ℕ) (nodes : List Node) (t : Task) (r : StaleReason)
    → (claim_reason now lease max_age limit nodes t ≡ some r)
      ↔ (LeaseIsOver now lease t × Evidence now max_age limit t (joined nodes t) r)
claim_reason_exact now lease max_age limit nodes t r = (
  claim_reason_sound now lease max_age limit nodes t t.claimed_at r refl,
  λ (old, ev).
      let (c, held) = old in
      let (at, e, lt) = held in
      let found = node_reason_complete now max_age limit t (joined nodes t) r ev in
      unfold claim_reason in ground (arith, found),
)
