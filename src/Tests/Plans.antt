-- ===== src/Tests/Plans.antt =====
-- Plans of two tasks, with and without a cycle.
use ai_team.Prelude.{
  ℕ, String, ◌≡◌, refl, sym, ap, ◌⊎◌, inl, inr, true, false, none, some, List, [], ◌∷◌, arith,
  if◌then◌else◌, str_eq, eq_of_str_eq, Bool-cases, All, length, select, exists, member, Distinct,
}
use ai_team.Case.{Ledger}
use ai_team.Case.Spec.{spec_is_approved}
use ai_team.Case.Spec.Plan.{
  add_edge, add_edges, build, relax, drain, start, sorted_keys, topological_order, Planned,
  decompose_case,
}
use ai_team.Case.Spec.Plan.Complete.{Ranked, topological_order_complete}
use ai_team.Case.Spec.Plan.Decompose.{is_decomposed, plan_of, Made, decompose_case_lem}
use ai_team.Case.Spec.Plan.Fuel.{sorted_keys-ends}
use ai_team.Case.Spec.Plan.Order.{topological_order_sound}
use ai_team.Case.Spec.Plan.Schedule.{IsScheduled}
use ai_team.Case.Spec.{record_spec_review}
use ai_team.Tests.Cases.{small}
use ai_team.Tests.Specs.{card}

-- "b" waits for "a".
abbrev steps : List String
steps = "b" ∷ "a" ∷ []

abbrev after_a : String → List String
after_a k = if str_eq k "b" then "a" ∷ [] else []

abbrev schedule : List String
schedule = "a" ∷ "b" ∷ []

abbrev round_trip : String → List String
round_trip k = if str_eq k "b" then "a" ∷ [] else "b" ∷ []

steps_sorted : topological_order steps after_a ≡ some schedule
unfolding topological_order sorted_keys drain relax start build add_edges add_edge select str_eq
steps_sorted = refl

cycle_refused : topological_order steps round_trip ≡ none
unfolding topological_order sorted_keys drain relax start build add_edges add_edge select str_eq
cycle_refused = refl

steps-Distinct : Distinct steps
unfolding member exists str_eq
steps-Distinct = (refl, (refl, tt))

sorted_keys-ends_example : (sorted_keys steps round_trip).ready ≡ []
sorted_keys-ends_example = sorted_keys-ends steps round_trip

topological_order_sound_example :
    IsScheduled after_a [] schedule
    × Distinct schedule
    × All (λ k. member k steps ≡ true) schedule
    × (length schedule ≡ length steps)
topological_order_sound_example =
    topological_order_sound steps after_a schedule steps-Distinct steps_sorted

abbrev height : String → ℕ
height k = if str_eq k "b" then 1 else 0

only_a :
    (k d : String) → member d (after_a k) ≡ true → (str_eq k "b" ≡ true) × (str_eq "a" d ≡ true)
unfolding member exists
only_a k d m = elim (Bool-cases (str_eq k "b")) [
  | inl waits ↦ (waits, ground (arith, waits, m))
  | inr free ↦ absurd (ground (arith, free, m))
]

lowest : (d : String) → str_eq "a" d ≡ true → height d ≡ 0
unfolding str_eq
lowest d h = ap height (sym (eq_of_str_eq "a" d h))

steps-Ranked : Ranked steps after_a height
unfolding member exists
steps-Ranked = record {
  known = λ k d h m. ground (arith, (only_a k d m).1);
  falls = λ k d h m. let (waits, is_a) = only_a k d m in ground (arith, waits, lowest d is_a);
}

topological_order_complete_example :
    (order : List String) × (topological_order steps after_a ≡ some order)
topological_order_complete_example =
    topological_order_complete steps after_a height steps-Distinct steps-Ranked

abbrev tasks : List Planned
tasks =
    record { task_key = "b"; objective = none; depends_on = "a" ∷ []; hints = [] }
    ∷ record { task_key = "a"; objective = none; depends_on = []; hints = [] }
    ∷ []

-- The Case with a review that its spec passed.
abbrev reviewed : Ledger
reviewed = (record_spec_review true 5 "c1" "spec1" card "reviewer" none small).0

decompose_case_lem_example :
    let after =
      decompose_case true (λ n. "2") (λ ts. "[]") 9 "c1" "spec1" tasks "manager" reviewed in
    ((is_decomposed after.1 ≡ false) × (after.0 ≡ reviewed))
    ⊎ ((true ≡ true)
        × (spec_is_approved "c1" "spec1" reviewed ≡ true)
        × Made "c1" "manager" (plan_of tasks) reviewed after)
decompose_case_lem_example =
    decompose_case_lem true (λ n. "2") (λ ts. "[]") 9 "c1" "spec1" tasks "manager" reviewed
