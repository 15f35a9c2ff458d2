-- ===== src/Case/Spec/Score.antt =====
-- When a spec passes its review: _score_spec_review of src/control/db.py.
use ai_team.Prelude.{
  pos, negsuc, ℕ, ◌+◌, ◌≤◌, ◌<◌, ◌≡◌, refl, ◌↔◌, Bool, true, false, ◌&&◌, not, none, some, List,
  ◌∷◌, ◌++◌, arith, leb, ◌==◌, [],
}
use ai_team.Case.{
  Dimension, objective_clarity, scope_boundaries, decomposability, acceptance_testability,
  dependency_correctness, risks_and_assumptions,
}
use ai_team.Case.Spec.{
  Raw, absent, given, is_critical, Tally, no_tally, add_score, tally, is_nil, grade_of,
  score_spec_review,
}

-- A score that counts, and its points.
abbrev pub Scored : Raw → ℕ → Type 0
Scored r n = (r ≡ given (some (pos n))) × (n ≤ 2)

unfoldable pub is_scored_raw : Raw → Bool
is_scored_raw (given (some (pos n))) = leb n 2
is_scored_raw _ = false

unfoldable pub points : Raw → ℕ
points (given (some (pos n))) = n
points _ = 0

-- Nothing was missing or out of range so far.
abbrev is_clean : Tally → Bool
is_clean k = is_nil k.missing && is_nil k.out_of_range

is_nil-append : (ds : List Dimension) (d : Dimension) → is_nil (ds ++ d ∷ []) ≡ false
is_nil-append [] d = refl
is_nil-append (x ∷ ds) d = refl

add_score-clean :
    (d : Dimension) (r : Raw) (k : Tally)
    → is_clean (add_score d r k) ≡ (is_clean k && is_scored_raw r)
unfolding add_score is_scored_raw
add_score-clean d absent k = ground (arith, is_nil-append k.missing d)
add_score-clean d (given none) k = ground (arith, is_nil-append k.out_of_range d)
add_score-clean d (given (some (negsuc n))) k = ground (arith, is_nil-append k.out_of_range d)
add_score-clean d (given (some (pos n))) k = ground (arith, is_nil-append k.out_of_range d)

add_score-total :
    (d : Dimension) (r : Raw) (k : Tally)
    → is_scored_raw r ≡ true
    → (add_score d r k).total ≡ k.total + points r
unfolding add_score is_scored_raw points
add_score-total d absent k h = cc
add_score-total d (given none) k h = cc
add_score-total d (given (some (negsuc n))) k h = cc
add_score-total d (given (some (pos n))) k h = ground arith

add_score-critical :
    (d : Dimension) (r : Raw) (k : Tally)
    → is_scored_raw r ≡ true
    → is_nil (add_score d r k).critical_zero
      ≡ (is_nil k.critical_zero && not (points r == 0 && is_critical d))
unfolding add_score is_scored_raw points
add_score-critical d absent k h = cc
add_score-critical d (given none) k h = cc
add_score-critical d (given (some (negsuc n))) k h = cc
add_score-critical d (given (some (pos n))) k h = ground (arith, is_nil-append k.critical_zero d)

Scored-value : (r : Raw) → is_scored_raw r ≡ true → (n : ℕ) × Scored r n
unfolding is_scored_raw
Scored-value absent h = cc
Scored-value (given none) h = cc
Scored-value (given (some (negsuc n))) h = cc
Scored-value (given (some (pos n))) h = (n, (refl, ground arith))

value-Scored : (r : Raw) (n : ℕ) → Scored r n → is_scored_raw r ≡ true
unfolding is_scored_raw
value-Scored r n (e, small) = rw e (ground (arith, small))

module _ (scores : Dimension → Raw) where
  -- The tally after each dimension.
  abbrev k1 : Tally
  k1 = add_score objective_clarity (scores objective_clarity) no_tally

  abbrev k2 : Tally
  k2 = add_score scope_boundaries (scores scope_boundaries) k1

  abbrev k3 : Tally
  k3 = add_score decomposability (scores decomposability) k2

  abbrev k4 : Tally
  k4 = add_score acceptance_testability (scores acceptance_testability) k3

  abbrev k5 : Tally
  k5 = add_score dependency_correctness (scores dependency_correctness) k4

  abbrev k6 : Tally
  k6 = add_score risks_and_assumptions (scores risks_and_assumptions) k5

  -- The points of all six dimensions.
  abbrev pub all_points : ℕ
  all_points =
      points (scores objective_clarity)
      + points (scores scope_boundaries)
      + points (scores decomposability)
      + points (scores acceptance_testability)
      + points (scores dependency_correctness)
      + points (scores risks_and_assumptions)

  clean_all : is_clean k6 ≡ (
      is_scored_raw (scores objective_clarity)
      && (is_scored_raw (scores scope_boundaries)
          && (is_scored_raw (scores decomposability)
              && (is_scored_raw (scores acceptance_testability)
                  && (is_scored_raw (scores dependency_correctness)
                      && is_scored_raw (scores risks_and_assumptions))))))
  clean_all =
      let c1 = add_score-clean objective_clarity (scores objective_clarity) no_tally in
      let c2 = add_score-clean scope_boundaries (scores scope_boundaries) k1 in
      let c3 = add_score-clean decomposability (scores decomposability) k2 in
      let c4 = add_score-clean acceptance_testability (scores acceptance_testability) k3 in
      let c5 = add_score-clean dependency_correctness (scores dependency_correctness) k4 in
      let c6 = add_score-clean risks_and_assumptions (scores risks_and_assumptions) k5 in
      rw (c6, c5, c4, c3, c2, c1) (ground arith)

  total_all : ((d : Dimension) → is_scored_raw (scores d) ≡ true) → k6.total ≡ all_points
  total_all h =
      rw
        (
          add_score-total risks_and_assumptions (scores risks_and_assumptions) k5
              (h risks_and_assumptions),
          add_score-total dependency_correctness (scores dependency_correctness) k4
              (h dependency_correctness),
          add_score-total acceptance_testability (scores acceptance_testability) k3
              (h acceptance_testability),
          add_score-total decomposability (scores decomposability) k2 (h decomposability),
          add_score-total scope_boundaries (scores scope_boundaries) k1 (h scope_boundaries),
          add_score-total objective_clarity (scores objective_clarity) no_tally
              (h objective_clarity),
        )
        (omega arith)

  critical_all :
      ((d : Dimension) → is_scored_raw (scores d) ≡ true)
      → is_nil k6.critical_zero ≡ (
          not (points (scores objective_clarity) == 0)
          && not (points (scores decomposability) == 0))
  critical_all h =
      rw
        (
          add_score-critical risks_and_assumptions (scores risks_and_assumptions) k5
              (h risks_and_assumptions),
          add_score-critical dependency_correctness (scores dependency_correctness) k4
              (h dependency_correctness),
          add_score-critical acceptance_testability (scores acceptance_testability) k3
              (h acceptance_testability),
          add_score-critical decomposability (scores decomposability) k2 (h decomposability),
          add_score-critical scope_boundaries (scores scope_boundaries) k1 (h scope_boundaries),
          add_score-critical objective_clarity (scores objective_clarity) no_tally
              (h objective_clarity),
        )
        (ground arith)

  all_scored : is_clean k6 ≡ true → (d : Dimension) → is_scored_raw (scores d) ≡ true
  all_scored h objective_clarity = ground (arith, clean_all, h)
  all_scored h scope_boundaries = ground (arith, clean_all, h)
  all_scored h decomposability = ground (arith, clean_all, h)
  all_scored h acceptance_testability = ground (arith, clean_all, h)
  all_scored h dependency_correctness = ground (arith, clean_all, h)
  all_scored h risks_and_assumptions = ground (arith, clean_all, h)

  -- A spec passes its review exactly if each of the six dimensions has a score from 0 to 2, the
  -- scores add up to 8 or more, and those of objective clarity and of decomposability are not 0.
  pub score_spec_review_passes : ((score_spec_review scores).passed ≡ true) ↔ (
      ((d : Dimension) → (n : ℕ) × Scored (scores d) n)
      × (8 ≤ all_points)
      × (0 < points (scores objective_clarity))
      × (0 < points (scores decomposability)))
  unfolding score_spec_review grade_of tally
  score_spec_review_passes = (
    λ h.
        let clean : is_clean k6 ≡ true = ground (arith, h) in
        let all = all_scored clean in
        let total = total_all all in
        let critical = critical_all all in
        (
          λ d. Scored-value (scores d) (all d),
          ground (arith, h, total),
          ground (arith, h, critical),
          ground (arith, h, critical),
        ),
    λ (values, enough, clear, divisible).
        let all : (d : Dimension) → is_scored_raw (scores d) ≡ true =
          λ d. value-Scored (scores d) (values d).0 (values d).1 in
        let clean : is_clean k6 ≡ true =
          rw
            (
              clean_all,
              all objective_clarity,
              all scope_boundaries,
              all decomposability,
              all acceptance_testability,
              all dependency_correctness,
              all risks_and_assumptions,
            )
            refl in
        let total = total_all all in
        let critical = critical_all all in
        ground (arith, clean, total, critical, enough, clear, divisible),
  )
