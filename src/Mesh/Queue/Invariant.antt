-- ===== src/Mesh/Queue/Invariant.antt =====
-- The life of a row of `mesh_tasks` under any sequence of the queue's writes of src/control/db.py.
use ai_team.Prelude.{
  first-update_where, ℕ, String, Bool, true, false, ◌≡◌, refl, Option, none, some, List, ◌∷◌, ◌++◌,
  arith, first, ap, exists-append, All, All-append, All-update_where, exists, update_where,
  Bool-cases, inl, inr, if◌then◌else◌, [],
}
use ai_team.Mesh.{
  TaskId, same_id, eq_of_same_id, same_id_refl, Task, TaskResult, TaskStatus, pending, claimed,
  Node,
}
use ai_team.Mesh.Queue.{
  has_id, claimable, held_by, releasable, set_claimed, set_released, insert_task, enqueue_task,
  record_proactive_turn, claim_task, release_task, release_node_claims, complete_task, fail_task,
  get_task,
}

-- A write to the queue, with the time that it is made at.
pub data Write : Type 0 where
  enqueue :
      ℕ
      → TaskId
      → Option String
      → Option String
      → String
      → String
      → String
      → Option String
      → Option String
      → Write
  proactive : ℕ → TaskId → String → String → Option String → String → Option String → Write
  claim : ℕ → TaskId → String → List Node → Write
  release : ℕ → TaskId → String → Write
  release_node : ℕ → String → Write
  complete : ℕ → TaskId → TaskResult → Option String → Write
  fail : ℕ → TaskId → String → TaskStatus → Option TaskResult → Option String → Write

pub apply : Write → List Task → List Task
apply (enqueue now i s m b a p f q) tasks = enqueue_task now i s m b a p f q tasks
apply (proactive now i s b m r u) tasks = record_proactive_turn now i s b m r u tasks
apply (claim now i n ns) tasks = (claim_task now i n ns tasks).0
apply (release now i n) tasks = (release_task now i n tasks).0
apply (release_node now n) tasks = (release_node_claims now n tasks).0
apply (complete now i r f) tasks = complete_task now i r f tasks
apply (fail now i e s r f) tasks = fail_task now i e s r f tasks

pub run : List Write → List Task → List Task
run [] tasks = tasks
run (w ∷ ws) tasks = run ws (apply w tasks)

-- A status in which the queue still has work to do on the row.
abbrev pub is_active : TaskStatus → Bool
is_active pending = true
is_active claimed = true
is_active _ = false

-- `fail_task` is given a terminal status, as its comment asks.
abbrev pub Fits : Write → Type 0
Fits (fail now i e s r f) = is_active s ≡ false
Fits _ = Unit {0}

-- A pending row has no owner, and a claimed row has an owner and the time of its claim.
abbrev pub Owned : TaskStatus → Task → Type 0
Owned pending t = (t.claimed_by ≡ none) × (t.claimed_at ≡ none) × (t.claimer_incarnation ≡ none)
Owned claimed t = ((n : String) × (t.claimed_by ≡ some n)) × ((at : ℕ) × (t.claimed_at ≡ some at))
Owned _ t = Unit {0}

abbrev pub RowIsValid : Task → Type 0
RowIsValid t = Owned t.status t

inactive-Owned : (s : TaskStatus) (t : Task) → is_active s ≡ false → Owned s t
inactive-Owned pending t h = cc
inactive-Owned claimed t h = cc
inactive-Owned _ t h = tt

-- No id twice.
abbrev pub Unique : List Task → Type 0
Unique [] = Unit {0}
Unique (t ∷ ts) = (exists (has_id t.id) ts ≡ false) × Unique ts

pub record IsConsistent (tasks : List Task) : Type 0 where
  pub unique : Unique tasks
  pub rows : All RowIsValid tasks

exists_same :
    (i : TaskId) (p : Task → Bool) (f : Task → Task) (xs : List Task)
    → ((x : Task) → (f x).id ≡ x.id)
    → exists (has_id i) (update_where p f xs) ≡ exists (has_id i) xs
unfolding exists update_where
exists_same i p f [] h = refl
exists_same i p f (x ∷ xs) h = ground (arith, h x, exists_same i p f xs h)

update_where-Unique :
    (p : Task → Bool) (f : Task → Task) (xs : List Task)
    → ((x : Task) → (f x).id ≡ x.id)
    → Unique xs
    → Unique (update_where p f xs)
unfolding update_where
update_where-Unique p f [] h u = tt
update_where-Unique p f (x ∷ xs) h u =
    ground (arith, h x, exists_same x.id p f xs h, update_where-Unique p f xs h u.1)

append-Unique :
    (t : Task) (xs : List Task)
    → exists (has_id t.id) xs ≡ false
    → Unique xs
    → Unique (xs ++ t ∷ [])
unfolding exists
append-Unique t [] h u = (refl, tt)
append-Unique t (x ∷ xs) h u = (
  rw (exists-append (has_id x.id) xs (t ∷ []))
      (unfold exists in ground (arith, h, u.0, eq_of_same_id t.id x.id, same_id_refl x.id)),
  append-Unique t xs (ground (arith, h)) u.1,
)

update-IsConsistent :
    (p : Task → Bool) (f : Task → Task) (xs : List Task)
    → ((x : Task) → (f x).id ≡ x.id)
    → ((x : Task) → p x ≡ true → RowIsValid x → RowIsValid (f x))
    → IsConsistent xs
    → IsConsistent (update_where p f xs)
update-IsConsistent p f xs h k v = record {
  unique = update_where-Unique p f xs h v.unique;
  rows = All-update_where RowIsValid p f xs k v.rows;
}

insert-IsConsistent :
    (t : Task) (xs : List Task) → RowIsValid t → IsConsistent xs → IsConsistent (insert_task t xs)
unfolding insert_task
insert-IsConsistent t xs h v = elim (Bool-cases (exists (has_id t.id) xs)) [
  | inl old ↦ rw old v
  | inr new ↦ rw new (record {
    unique = append-Unique t xs new v.unique;
    rows = All-append RowIsValid xs (t ∷ []) v.rows (h, tt);
  })
]

apply-IsConsistent :
    (w : Write) (tasks : List Task) → Fits w → IsConsistent tasks → IsConsistent (apply w tasks)
unfolding apply
apply-IsConsistent (enqueue now i s m b a p f q) tasks h v =
    unfold enqueue_task in insert-IsConsistent _ tasks (refl, refl, refl) v
apply-IsConsistent (proactive now i s b m r u) tasks h v =
    unfold record_proactive_turn in insert-IsConsistent _ tasks tt v
apply-IsConsistent (claim now i n ns) tasks h v =
    unfold claim_task set_claimed in
    update-IsConsistent (claimable i) _ tasks (λ x. refl) (λ x e r. ((n, refl), (now, refl))) v
apply-IsConsistent (release now i n) tasks h v =
    unfold release_task set_released in
    update-IsConsistent (releasable i n) _ tasks (λ x. refl) (λ x e r. (refl, refl, refl)) v
apply-IsConsistent (release_node now n) tasks h v =
    unfold release_node_claims set_released in
    update-IsConsistent (held_by n) _ tasks (λ x. refl) (λ x e r. (refl, refl, refl)) v
apply-IsConsistent (complete now i r f) tasks h v =
    unfold complete_task in update-IsConsistent (has_id i) _ tasks (λ x. refl) (λ x e k. tt) v
apply-IsConsistent (fail now i e s r f) tasks h v =
    unfold fail_task in
    update-IsConsistent (has_id i) _ tasks (λ x. refl) (λ x k o. inactive-Owned s _ h) v

-- Every write conforms.
abbrev pub AllFit : List Write → Type 0
AllFit = All Fits

-- Whatever the writes, in whatever order, as long as a task is failed only with a terminal status:
-- from a table with no id twice, no owner on a pending row, and an owner and a time on every
-- claimed row, the queue goes to such a table.
pub run-IsConsistent :
    (ws : List Write) (tasks : List Task)
    → AllFit ws
    → IsConsistent tasks
    → IsConsistent (run ws tasks)
unfolding run
run-IsConsistent [] tasks h v = v
run-IsConsistent (w ∷ ws) tasks h v =
    run-IsConsistent ws (apply w tasks) h.1 (apply-IsConsistent w tasks h.0 v)

-- A row that is there, and that the queue is done with.
abbrev pub Settled : TaskId → List Task → Type 0
Settled i tasks = (t : Task) × (get_task i tasks ≡ some t) × (is_active t.status ≡ false)

update-Settled :
    (i : TaskId) (p : Task → Bool) (f : Task → Task) (xs : List Task)
    → ((x : Task) → (f x).id ≡ x.id)
    → ((x : Task) → p x ≡ true → is_active x.status ≡ false → is_active (f x).status ≡ false)
    → Settled i xs
    → Settled i (update_where p f xs)
unfolding get_task
update-Settled i p f xs h k (t, found, done) = (
  (if p t then f t else t),
  rw (first-update_where (has_id i) p f xs (λ x. ap (λ j. same_id j i) (h x)), found),
  elim (Bool-cases (p t)) [ inl e ↦ rw e (k t e done) | inr e ↦ rw e done ],
)

first-append_found :
    (i : TaskId) (xs : List Task) (r t : Task)
    → get_task i xs ≡ some t
    → get_task i (xs ++ r ∷ []) ≡ some t
unfolding get_task first
first-append_found i [] r t h = cc
first-append_found i (x ∷ xs) r t h = ground (arith, first-append_found i xs r t)

insert-Settled :
    (i : TaskId) (r : Task) (xs : List Task) → Settled i xs → Settled i (insert_task r xs)
unfolding insert_task
insert-Settled i r xs (t, found, done) = elim (Bool-cases (exists (has_id r.id) xs)) [
  | inl old ↦ rw old (t, found, done)
  | inr new ↦ rw new (t, first-append_found i xs r t found, done)
]

apply-Settled :
    (i : TaskId) (w : Write) (tasks : List Task)
    → Fits w
    → Settled i tasks
    → Settled i (apply w tasks)
unfolding apply
apply-Settled i (enqueue now j s m b a p f q) tasks h v =
    unfold enqueue_task in insert-Settled i _ tasks v
apply-Settled i (proactive now j s b m r u) tasks h v =
    unfold record_proactive_turn in insert-Settled i _ tasks v
apply-Settled i (claim now j n ns) tasks h v =
    unfold claim_task set_claimed in
    update-Settled i (claimable j) _ tasks (λ x. refl) (λ x e k. ground arith) v
apply-Settled i (release now j n) tasks h v =
    unfold release_task set_released in
    update-Settled i (releasable j n) _ tasks (λ x. refl) (λ x e k. ground arith) v
apply-Settled i (release_node now n) tasks h v =
    unfold release_node_claims set_released in
    update-Settled i (held_by n) _ tasks (λ x. refl) (λ x e k. ground arith) v
apply-Settled i (complete now j r f) tasks h v =
    unfold complete_task in update-Settled i (has_id j) _ tasks (λ x. refl) (λ x e k. refl) v
apply-Settled i (fail now j e s r f) tasks h v =
    unfold fail_task in update-Settled i (has_id j) _ tasks (λ x. refl) (λ x k o. h) v

-- No resurrection: whatever writes follow, as long as a task is failed only with a terminal
-- status, a row that has left the queue stays in the table and is never pending or claimed again.
pub run-Settled :
    (i : TaskId) (ws : List Write) (tasks : List Task)
    → AllFit ws
    → Settled i tasks
    → Settled i (run ws tasks)
unfolding run
run-Settled i [] tasks h v = v
run-Settled i (w ∷ ws) tasks h v =
    run-Settled i ws (apply w tasks) h.1 (apply-Settled i w tasks h.0 v)
