-- ===== src/Case/Spec/Plan/Complete.antt =====
-- Which plans _topological_order of src/control/db.py schedules: those without a cycle.
use ai_team.Prelude.{
  ℕ, zero, suc, ◌+◌, ◌≤◌, ◌<◌, String, ◌≡◌, refl, subst, ◌∙◌, inl, inr, Bool, true, false, not,
  some, List, [], ◌∷◌, arith, str_eq, eq_of_str_eq, str_eq_refl, Bool-cases, All, length, select,
  exists, member, Distinct,
}
use ai_team.Case.Spec.Plan.{sorted_keys, topological_order}
use ai_team.Case.Spec.Plan.Order.{member-select, sorted_keys-Sorting, final-Marked}
use ai_team.Case.Spec.Plan.Schedule.{missing}

length-select : (p : String → Bool) (xs : List String) → length (select p xs) ≤ length xs
unfolding select
length-select p [] = omega arith
length-select p (x ∷ xs) = ground (arith, length-select p xs)

-- Without a key the list is shorter by one.
shorter :
    (x : String) (ys : List String)
    → member x ys ≡ true
    → 1 + length (select (λ y. not (str_eq y x)) ys) ≤ length ys
unfolding member exists select
shorter x [] there = absurd (ground (arith, there))
shorter x (y ∷ ys) there = elim (Bool-cases (str_eq y x)) [
  | inl same ↦ ground (arith, same, length-select (λ z. not (str_eq z x)) ys)
  | inr other ↦ ground (arith, other, shorter x ys (ground (arith, there, other)))
]

All-members :
    (keys xs : List String)
    → All (λ k. member k keys ≡ true) xs
    → (x : String) → member x xs ≡ true
    → member x keys ≡ true
unfolding member exists
All-members keys [] h x m = absurd (ground (arith, m))
All-members keys (y ∷ ys) (here, h) x m = elim (Bool-cases (str_eq y x)) [
  | inl same ↦ subst (λ z. member z keys ≡ true) (eq_of_str_eq y x same) here
  | inr other ↦ All-members keys ys h x (ground (arith, m, other))
]

-- A list of distinct members of another is no longer than it.
length-Distinct :
    (xs ys : List String)
    → Distinct xs
    → ((x : String) → member x xs ≡ true → member x ys ≡ true)
    → length xs ≤ length ys
length-Distinct [] ys once inside = omega arith
length-Distinct (x ∷ xs) ys (fresh, once) inside =
    let there = inside x (unfold member exists in ground (arith, str_eq_refl x)) in
    let others : List String = select (λ y. not (str_eq y x)) ys in
    let kept : (z : String) → member z xs ≡ true → member z others ≡ true = λ z h.
      let apart : str_eq z x ≡ false = elim (Bool-cases (str_eq z x)) [
        | inr other ↦ other
        | inl same ↦
            absurd
              (ground (arith, fresh, subst (λ y. member y xs ≡ true) (eq_of_str_eq z x same) h))
      ] in
      member-select (λ y. not (str_eq y x)) z ys
      ∙ ground (arith, apart, inside z (unfold member exists in ground (arith, h))) in
    let rest = length-Distinct xs others once kept in omega (arith, rest, shorter x ys there)

-- A way to see that a graph has no cycle: a rank that falls from each key to its prerequisites,
-- which are keys.
pub record Ranked (keys : List String) (deps : String → List String) (rank : String → ℕ)
    : Type 0 where
  pub known :
      (k d : String) → member k keys ≡ true → member d (deps k) ≡ true → member d keys ≡ true
  pub falls : (k d : String) → member k keys ≡ true → member d (deps k) ≡ true → rank d < rank k

missing-all :
    (order ds : List String)
    → ((d : String) → member d ds ≡ true → member d order ≡ true)
    → missing order ds ≡ 0
unfolding missing member exists
missing-all order [] h = refl
missing-all order (d ∷ ds) h =
    let rest = missing-all order ds (λ x m. h x (ground (arith, m))) in
    ground (arith, rest, h d (ground (arith, str_eq_refl d)))

reached :
    (n : ℕ) (keys : List String) (deps : String → List String) (rank : String → ℕ)
    → Distinct keys
    → Ranked keys deps rank
    → (x : String) → rank x < n
    → member x keys ≡ true
    → member x (sorted_keys keys deps).order ≡ true
reached zero keys deps rank once r x below there = absurd (omega (arith, below))
reached (suc n) keys deps rank once r x below there =
    let s = sorted_keys keys deps in
    let i = sorted_keys-Sorting keys deps once in
    let earlier : (d : String) → member d (deps x) ≡ true → member d s.order ≡ true = λ d m.
      let lower = r.falls x d there m in
      reached n keys deps rank once r d (omega (arith, lower, below)) (r.known x d there m) in
    (final-Marked keys deps once).complete x there
      (i.degrees x there ∙ missing-all s.order (deps x) earlier)

-- A graph without a cycle is scheduled: where the keys are distinct and some rank falls from each key
-- to its prerequisites, which are keys, the sort returns a schedule.
pub topological_order_complete :
    (keys : List String) (deps : String → List String) (rank : String → ℕ)
    → Distinct keys
    → Ranked keys deps rank
    → (order : List String) × (topological_order keys deps ≡ some order)
unfolding topological_order
topological_order_complete keys deps rank once r =
    let s = sorted_keys keys deps in
    let marks = final-Marked keys deps once in
    let at_most =
      length-Distinct s.order keys marks.distinct (All-members keys s.order marks.known) in
    let at_least =
      length-Distinct keys s.order once
        (λ x h. reached (rank x + 1) keys deps rank once r x (omega arith) h) in
    (s.order, ground (arith, at_most, at_least))
