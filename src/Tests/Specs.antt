-- ===== src/Tests/Specs.antt =====
-- Reviews of a spec, of src/control/db.py, on small score-cards.
use ai_team.Prelude.{pos, ℕ, ◌≤◌, ◌<◌, ◌≡◌, ◌↔◌, true, none, some, ◌∷◌, arith, select, []}
use ai_team.Case.{Dimension, objective_clarity, decomposability, risks_and_assumptions}
use ai_team.Case.Spec.{Raw, given, score_spec_review, record_spec_review, spec_is_approved}
use ai_team.Case.Spec.Review.{spec_is_approved-record_spec_review}
use ai_team.Case.Spec.Score.{Scored, points, all_points, score_spec_review_passes}
use ai_team.Tests.Cases.{case_run, ledger_of}

-- Full marks but for the risks.
abbrev pub card : Dimension → Raw
card risks_and_assumptions = given (some (pos 0))
card _ = given (some (pos 2))

score_spec_review_passes_example : ((score_spec_review card).passed ≡ true) ↔ (
    ((d : Dimension) → (n : ℕ) × Scored (card d) n)
    × (8 ≤ all_points card)
    × (0 < points (card objective_clarity))
    × (0 < points (card decomposability)))
score_spec_review_passes_example = score_spec_review_passes card

spec_is_approved-record_spec_review_example :
    spec_is_approved "c1" "spec1"
      (record_spec_review true 5 "c1" "spec1" card "reviewer" none
        (ledger_of (case_run ∷ []) [] [])).0
    ≡ (score_spec_review card).passed
unfolding select
spec_is_approved-record_spec_review_example =
    spec_is_approved-record_spec_review 5 "c1" "spec1" card "reviewer" none
      (ledger_of (case_run ∷ []) [] []) (omega arith)
