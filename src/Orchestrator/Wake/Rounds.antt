-- ===== src/Orchestrator/Wake/Rounds.antt =====
-- The lease of a round in `mesh_tasks`, and the watermark of the rounds that are done:
-- continuation_watermark, claim_task and release_task of src/control/db.py.
use ai_team.Prelude.{
  str_eq_refl, Bool, same_text?, update_where, ℕ, ◌+◌, String, ◌≡◌, refl, ◌∙◌, inl, inr, true,
  false, Option, List, ◌∷◌, ◌++◌, arith, Bool-cases, Option-cases, exists, exists-appended,
  exists-update_same, [],
}
use ai_team.Case.{Ledger}
use ai_team.Continuation.{generation_of, add_row, Watermark, continuation_watermark}
use ai_team.Continuation.Once.{watermark-update_where}
use ai_team.Continuation.Tick.{
  Facts, Group, Tick, judge_group, judge_step, judge_all, compute_continuation_tick,
}
use ai_team.Mesh.{TaskId, same_id_refl, Task, Node, is_completed}
use ai_team.Mesh.Queue.{
  set_released, release_task, releasable, has_id, claimable, insert_task, enqueue_task, claim_task,
  set_claimed, incarnation_of,
}
use ai_team.Mesh.Queue.Claims.{no_claimable}
use ai_team.Orchestrator.Wake.Leases.{is_free}

-- The rounds of a Case that are done.
abbrev pub rounds : String → List Task → ℕ
rounds case_id tasks = (continuation_watermark case_id tasks).completed_rounds

-- The same rounds are done in two tables, and consumed the same tasks.
abbrev pub SameDone : Watermark → Watermark → Type 0
SameDone w v = (w.consumed ≡ v.consumed) × (w.completed_rounds ≡ v.completed_rounds)

judge_step-generation :
    (f : Facts) (c : List String) (gid : String) (g : Group) (k : Tick)
    → (judge_step f c gid g k).generation_next ≡ k.generation_next
unfolding judge_step judge_group
judge_step-generation f c gid g k = ground arith

judge_all-generation :
    (f : Facts) (c : List String) (gs : List (String × Group)) (k : Tick)
    → (judge_all f c gs k).generation_next ≡ k.generation_next
unfolding judge_all
judge_all-generation f c [] k = refl
judge_all-generation f c ((gid, g) ∷ gs) k =
    judge_all-generation f c gs (judge_step f c gid g k) ∙ judge_step-generation f c gid g k

-- The round that a tick schedules is the one after those that are done.
pub generation-rounds :
    (upper : String → String) (case_id : String) (l : Ledger) (tasks : List Task)
    → (compute_continuation_tick upper case_id l tasks).generation_next ≡ rounds case_id tasks + 1
unfolding compute_continuation_tick
generation-rounds upper case_id l tasks = judge_all-generation _ _ _ _

-- A tick reads nothing of `mesh_tasks` but what the rounds that are done say.
pub same_tick :
    (upper : String → String) (case_id : String) (l : Ledger) (xs ys : List Task)
    → SameDone (continuation_watermark case_id xs) (continuation_watermark case_id ys)
    → compute_continuation_tick upper case_id l xs ≡ compute_continuation_tick upper case_id l ys
unfolding compute_continuation_tick
same_tick upper case_id l xs ys (consumed, done) = rw (consumed, done) refl

add_row-SameDone :
    (case_id : String) (t : Task) (w v : Watermark)
    → SameDone w v
    → SameDone (add_row case_id t w) (add_row case_id t v)
unfolding add_row
add_row-SameDone case_id t w v (consumed, done) = elim (Option-cases (generation_of case_id t)) [
  | inl other ↦ (ground (arith, other, consumed), ground (arith, other, done))
  | inr (g, round) ↦ (ground (arith, round, consumed), ground (arith, round, done))
]

open_row-SameDone :
    (case_id : String) (t : Task) (w : Watermark)
    → is_completed t.status ≡ false
    → SameDone (add_row case_id t w) w
unfolding add_row
open_row-SameDone case_id t w h = elim (Option-cases (generation_of case_id t)) [
  | inl other ↦ (ground (arith, other), ground (arith, other))
  | inr (g, round) ↦ (ground (arith, round, h), ground (arith, round, h))
]

append-SameDone :
    (case_id : String) (ts : List Task) (t : Task)
    → is_completed t.status ≡ false
    → SameDone (continuation_watermark case_id (ts ++ t ∷ [])) (continuation_watermark case_id ts)
unfolding continuation_watermark
append-SameDone case_id [] t h = open_row-SameDone case_id t _ h
append-SameDone case_id (x ∷ xs) t h =
    add_row-SameDone case_id x _ _ (append-SameDone case_id xs t h)

watermark-claim_task :
    (case_id : String) (now : ℕ) (tid : TaskId) (node : String) (nodes : List Node)
    (tasks : List Task)
    → continuation_watermark case_id (claim_task now tid node nodes tasks).0
      ≡ continuation_watermark case_id tasks
unfolding claim_task
watermark-claim_task case_id now tid node nodes tasks =
    watermark-update_where case_id (claimable tid)
      (set_claimed now node (incarnation_of node nodes)) tasks
      (λ x h. unfold generation_of set_claimed in (refl, refl, ground arith))

pub watermark-release_task :
    (case_id : String) (now : ℕ) (tid : TaskId) (node : String) (tasks : List Task)
    → continuation_watermark case_id (release_task now tid node tasks).0
      ≡ continuation_watermark case_id tasks
unfolding release_task
watermark-release_task case_id now tid node tasks =
    watermark-update_where case_id (releasable tid node) (set_released now) tasks
      (λ x h. unfold generation_of set_released in (refl, refl, ground arith))

-- An update of a row that is there leaves a row that is as the update makes it.
exists-updated :
    (p q : Task → Bool) (f : Task → Task) (tasks : List Task)
    → ((t : Task) → p t ≡ true → q (f t) ≡ true)
    → exists p tasks ≡ true
    → exists q (update_where p f tasks) ≡ true
unfolding exists update_where
exists-updated p q f [] h there = ground arith
exists-updated p q f (t ∷ ts) h there = elim (Bool-cases (p t)) [
  | inl hit ↦ ground (arith, hit, h t hit)
  | inr miss ↦
      let rest = exists-updated p q f ts h (ground (arith, there, miss)) in
      ground (arith, miss, rest)
]

-- A lease that is given back can be claimed.
pub release_task-claimable :
    (now : ℕ) (tid : TaskId) (node : String) (tasks : List Task)
    → exists (releasable tid node) tasks ≡ true
    → exists (claimable tid) (release_task now tid node tasks).0 ≡ true
unfolding release_task
release_task-claimable now tid node tasks held =
    exists-updated (releasable tid node) (claimable tid) (set_released now) tasks
      (λ t h. unfold set_released in ground (arith, h)) held

-- What a lease leaves: the row is there, and not free; the node holds it; and the rounds that are done
-- are as before.
abbrev pub Leased : TaskId → String → String → (before after : List Task) → Type 0
Leased tid node case_id before after =
    (is_free tid after ≡ false)
    × ((exists (releasable tid node) after ≡ true)
        × SameDone (continuation_watermark case_id after) (continuation_watermark case_id before))

claim-Leased :
    (now : ℕ) (tid : TaskId) (case_id node : String) (nodes : List Node) (before rows : List Task)
    → exists (has_id tid) rows ≡ true
    → SameDone (continuation_watermark case_id rows) (continuation_watermark case_id before)
    → (claim_task now tid node nodes rows).1 ≡ true
    → Leased tid node case_id before (claim_task now tid node nodes rows).0
claim-Leased now tid case_id node nodes before rows there same won =
    let taken = no_claimable tid now node nodes rows in
    let kept : exists (has_id tid) (claim_task now tid node nodes rows).0
        ≡ exists (has_id tid) rows =
      unfold claim_task in
      exists-update_same (has_id tid) (claimable tid) _ rows (λ x. unfold set_claimed in refl) in
    let held : exists (releasable tid node) (claim_task now tid node nodes rows).0 ≡ true =
      unfold claim_task in
      exists-updated (claimable tid) (releasable tid node) _ rows
        (λ t h. unfold set_claimed same_text? in ground (arith, h, str_eq_refl node))
        (unfold claim_task in won) in
    (
      ground (arith, taken, kept, there),
      (held, rw (watermark-claim_task case_id now tid node nodes rows) same),
    )

pub lease-Leased :
    (now : ℕ) (tid : TaskId) (case_id : String) (session machine : Option String)
    (backend action payload : String) (artifact parent : Option String) (node : String)
    (nodes : List Node) (tasks : List Task)
    → let (rows, won) =
        claim_task now tid node nodes
          (enqueue_task now tid session machine backend action payload artifact parent tasks) in
      won ≡ true → Leased tid node case_id tasks rows
unfolding enqueue_task insert_task
lease-Leased now tid case_id session machine backend action payload artifact parent node nodes
      tasks =
    elim (Bool-cases (exists (has_id tid) tasks)) [
      | inl old ↦ rw old (claim-Leased now tid case_id node nodes tasks tasks old (refl, refl))
      | inr new ↦ rw new (
          claim-Leased now tid case_id node nodes tasks _
            (exists-appended (has_id tid) tasks _ (same_id_refl tid))
            (append-SameDone case_id tasks _ refl))
    ]
