-- ===== src/Mesh/Queue/Sweep.antt =====
-- The startup sweep of a node that registers again, release_node_claims of src/control/db.py.
use ai_team.Prelude.{
  or_else, ℕ, String, Bool, true, false, ◌≡◌, ◌≢◌, refl, List, ◌∷◌, map, arith, All, All-map,
  exists, select, update_where, exists-update_where, same_text?, eq_of_str_eq, Bool-cases, inl, inr,
  [],
}
use ai_team.Mesh.{TaskId, same_id_refl, Task}
use ai_team.Mesh.Queue.{held_by, claimable, set_released, release_node_claims}

held_by_one :
    (node other : String) (t : Task)
    → node ≢ other
    → held_by node t ≡ true
    → held_by other t ≡ false
unfolding same_text?
held_by_one node other t apart h = ground (
  arith,
  eq_of_str_eq (or_else t.claimed_by "") node,
  eq_of_str_eq (or_else t.claimed_by "") other,
)

-- A row that the update leaves alone, or takes out of the filter, keeps the others selected.
select-update_where :
    (q p : Task → Bool) (f : Task → Task) (xs : List Task)
    → ((x : Task) → p x ≡ true → q x ≡ false)
    → ((x : Task) → p x ≡ true → q (f x) ≡ false)
    → select q (update_where p f xs) ≡ select q xs
unfolding select update_where
select-update_where q p f [] h k = refl
select-update_where q p f (x ∷ xs) h k = ground (arith, h x, k x, select-update_where q p f xs h k)

module _ (now : ℕ) (node : String) where
  abbrev swept : List Task → List Task
  swept tasks = update_where (held_by node) (set_released now) tasks

  abbrev Reopened : List Task → TaskId → Type 0
  Reopened tasks i = exists (claimable i) (swept tasks) ≡ true

  Reopened-cons : (t : Task) (ts : List Task) (i : TaskId) → Reopened ts i → Reopened (t ∷ ts) i
  unfolding exists update_where
  Reopened-cons t ts i h = ground (arith, h)

  Reopened-head : (t : Task) (ts : List Task) → held_by node t ≡ true → Reopened (t ∷ ts) t.id
  unfolding exists update_where set_released
  Reopened-head t ts h = ground (arith, h, same_id_refl t.id)

  swept_claimable :
      (tasks : List Task) → All (Reopened tasks) (map (λ t. t.id) (select (held_by node) tasks))
  unfolding select
  swept_claimable [] = tt
  swept_claimable (t ∷ ts) =
      let later =
        All-map (Reopened ts) (Reopened (t ∷ ts)) (map (λ t. t.id) (select (held_by node) ts))
          (Reopened-cons t ts) (swept_claimable ts) in
      elim (Bool-cases (held_by node t)) [
        | inl h ↦ rw h (Reopened-head t ts h, later)
        | inr h ↦ rw h later
      ]

-- After the sweep of a node no row is claimed by it; each task that it returns is pending again,
-- so open to any claim; and the claims of every other node are exactly what they were.
pub release_node_claims_lem :
    (now : ℕ) (node : String) (tasks : List Task)
    → let (swept, released) = release_node_claims now node tasks in
      (exists (held_by node) swept ≡ false)
      × All (λ i. exists (claimable i) swept ≡ true) released
      × ((other : String)
          → node ≢ other
          → select (held_by other) swept ≡ select (held_by other) tasks)
unfolding release_node_claims
release_node_claims_lem now node tasks = (
  exists-update_where (held_by node) _ tasks
      (λ t h. unfold set_released same_text? in ground arith),
  swept_claimable now node tasks,
  λ other apart.
      select-update_where (held_by other) (held_by node) _ tasks
        (λ t h. held_by_one node other t apart h)
        (λ t h. unfold set_released same_text? in ground arith),
)
