-- ===== src/Case/Spec/Plan/Order.antt =====
-- What _topological_order of src/control/db.py returns, and when it returns nothing.
use ai_team.Prelude.{
  ℕ, zero, suc, String, ◌≡◌, sym, ap, subst, ◌∙◌, inl, inr, Bool, true, ◌&&◌, some, List, [], ◌∷◌,
  ◌++◌, arith, ◌==◌, str_eq, eq_of_str_eq, Bool-cases, All, length, select, exists, member,
  Distinct,
}
use ai_team.Case.Spec.Plan.{build, no_edges, Sort, drain, start, sorted_keys, topological_order}
use ai_team.Case.Spec.Plan.Degrees.{graph-degree}
use ai_team.Case.Spec.Plan.Fuel.{sorted_keys-ends, List-cases, All-member}
use ai_team.Case.Spec.Plan.Schedule.{
  append_nil, Marked, Sorting, turn-Sorting, IsScheduled, missing-nil,
}

drain-Sorting :
    (n : ℕ) (keys : List String) (deps : String → List String) (s : Sort)
    → Distinct keys
    → Sorting keys deps s
    → Sorting keys deps (drain n (build deps keys no_edges).dependents s)
unfolding drain
drain-Sorting zero keys deps s once i = i
drain-Sorting (suc n) keys deps s once i = elim (List-cases s.ready) [
  | inl over ↦ subst (Sorting keys deps) (ground (arith, over)) i
  | inr (node, rest, more) ↦
      subst (Sorting keys deps) (ground (arith, more))
        (drain-Sorting n keys deps _ once (turn-Sorting keys deps s node rest once more i))
]

pub member-select :
    (p : String → Bool) (x : String) (xs : List String)
    → member x (select p xs) ≡ (member x xs && p x)
unfolding member exists select
member-select p x [] = ground arith
member-select p x (y ∷ ys) =
    let rest = member-select p x ys in
    elim (Bool-cases (str_eq y x)) [
      | inl same ↦ ground (arith, rest, same, ap p (eq_of_str_eq y x same))
      | inr other ↦ ground (arith, rest, other)
    ]

Distinct-select : (p : String → Bool) (xs : List String) → Distinct xs → Distinct (select p xs)
unfolding select
Distinct-select p [] h = tt
Distinct-select p (x ∷ xs) (fresh, h) = elim (Bool-cases (p x)) [
  | inl kept ↦ rw kept (member-select p x xs ∙ ground (arith, fresh), Distinct-select p xs h)
  | inr left_out ↦ rw left_out (Distinct-select p xs h)
]

start-Sorting :
    (keys : List String) (deps : String → List String)
    → Distinct keys
    → Sorting keys deps (start keys deps)
unfolding start
start-Sorting keys deps once =
    let degree = (build deps keys no_edges).indegree in
    record {
      degrees = λ x k. graph-degree keys deps x once k ∙ sym (missing-nil (deps x));
      marks = record {
        settled = λ x h. ground (arith, h, member-select (λ k. degree k == 0) x keys);
        distinct = Distinct-select (λ k. degree k == 0) keys once;
        complete = λ x k h. member-select (λ y. degree y == 0) x keys ∙ ground (arith, k, h);
        known =
            All-member keys (select (λ k. degree k == 0) keys)
              (λ c h. ground (arith, h, member-select (λ k. degree k == 0) c keys));
      };
      scheduled = tt;
    }

pub sorted_keys-Sorting :
    (keys : List String) (deps : String → List String)
    → Distinct keys
    → Sorting keys deps (sorted_keys keys deps)
unfolding sorted_keys
sorted_keys-Sorting keys deps once =
    drain-Sorting (length keys) keys deps (start keys deps) once (start-Sorting keys deps once)

-- At the end no key is ready, so that the marked keys are the order.
pub final-Marked :
    (keys : List String) (deps : String → List String)
    → Distinct keys
    → let s = sorted_keys keys deps in Marked keys s.indegree s.order
final-Marked keys deps once =
    let s = sorted_keys keys deps in
    subst (Marked keys s.indegree)
      (ap (λ r. s.order ++ r) (sorted_keys-ends keys deps) ∙ append_nil s.order)
      (sorted_keys-Sorting keys deps once).marks

-- A schedule that comes back is one: of distinct keys it is a list of as many distinct keys, in which
-- every key stands behind all of its prerequisites.
pub topological_order_sound :
    (keys : List String) (deps : String → List String) (order : List String)
    → Distinct keys
    → topological_order keys deps ≡ some order
    → IsScheduled deps [] order
      × Distinct order
      × All (λ k. member k keys ≡ true) order
      × (length order ≡ length keys)
unfolding topological_order
topological_order_sound keys deps order once found =
    let s = sorted_keys keys deps in
    let marks = final-Marked keys deps once in
    let i = sorted_keys-Sorting keys deps once in
    elim (Bool-cases (length s.order == length keys)) [
      | inr short ↦ absurd (ground (arith, short, found))
      | inl whole ↦
          let same : s.order ≡ order = ground (arith, whole, found) in
          let sized : length s.order ≡ length keys = ground (arith, whole) in
          subst
            (λ o.
              IsScheduled deps [] o
              × Distinct o
              × All (λ k. member k keys ≡ true) o
              × (length o ≡ length keys))
            same (i.scheduled, marks.distinct, marks.known, sized)
    ]
