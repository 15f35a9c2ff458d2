-- ===== src/Case/Spec.antt =====
-- The scored review of a spec: _score_spec_review, record_spec_review and latest_spec_review of
-- src/control/db.py, and the gate of decompose_case that reads the latter. The flag
-- SPEC_AUTHORING_ENABLED is an argument.
pub mod Score
pub mod Review
pub mod Plan
pub mod Publish
use ai_team.Prelude.{
  ℤ, pos, negsuc, ℕ, ◌+◌, String, Bool, true, false, ◌&&◌, not, Option, none, some, List, ◌∷◌, ◌++◌,
  ltb, leb, ◌==◌, if◌then◌else◌, same_text?, or_else, [],
}
use ai_team.Case.{
  artifact, EventType, spec_review_scored, review_accepted, review_rework_requested, Dimension,
  objective_clarity, scope_boundaries, decomposability, acceptance_testability,
  dependency_correctness, risks_and_assumptions, Grade, Payload, blank, FlowEvent, Ledger,
}
use ai_team.Case.Flow.{append_flow_event, list_flow_events}

-- scores.get(dim): None, or a value with what int() makes of it (`none` is the exception).
pub data Raw : Type 0 where
  absent : Raw
  given : Option ℤ → Raw

abbrev pub spec_review_dimensions : List Dimension
spec_review_dimensions =
    objective_clarity ∷ scope_boundaries ∷ decomposability ∷ acceptance_testability
    ∷ dependency_correctness ∷ risks_and_assumptions ∷ []

abbrev pub spec_review_max_per_dim : ℕ
spec_review_max_per_dim = 2

abbrev pub spec_review_pass_threshold : ℕ
spec_review_pass_threshold = 8

-- dim in SPEC_REVIEW_CRITICAL_DIMENSIONS
abbrev pub is_critical : Dimension → Bool
is_critical objective_clarity = true
is_critical decomposability = true
is_critical _ = false

-- What the loop over the dimensions gathers.
pub record Tally : Type 0 where
  pub total : ℕ
  pub critical_zero : List Dimension
  pub missing : List Dimension
  pub out_of_range : List Dimension

abbrev pub no_tally : Tally
no_tally = record { total = 0; critical_zero = []; missing = []; out_of_range = [] }

-- The body of the loop.
unfoldable pub add_score : Dimension → Raw → Tally → Tally
add_score d absent k = record k { missing = k.missing ++ d ∷ [] }
add_score d (given none) k = record k { out_of_range = k.out_of_range ++ d ∷ [] }
add_score d (given (some (negsuc n))) k = record k { out_of_range = k.out_of_range ++ d ∷ [] }
add_score d (given (some (pos n))) k =
    if ltb spec_review_max_per_dim n
    then record k { out_of_range = k.out_of_range ++ d ∷ [] }
    else record k {
      total = k.total + n;
      critical_zero =
          if n == 0 && is_critical d then k.critical_zero ++ d ∷ [] else k.critical_zero;
    }

unfoldable pub tally : (Dimension → Raw) → List Dimension → Tally → Tally
tally scores [] k = k
tally scores (d ∷ ds) k = tally scores ds (add_score d (scores d) k)

abbrev pub is_nil : List Dimension → Bool
is_nil [] = true
is_nil (d ∷ ds) = false

unfoldable pub grade_of : Tally → Grade
grade_of k = record {
  total = k.total;
  passed =
      (is_nil k.missing && is_nil k.out_of_range)
      && (leb spec_review_pass_threshold k.total && is_nil k.critical_zero);
  critical_zero = k.critical_zero;
  missing = k.missing;
  out_of_range = k.out_of_range;
}

-- _score_spec_review; the verdict is "accepted" where it passed, and else "rework_requested".
unfoldable pub score_spec_review : (Dimension → Raw) → Grade
unfolding grade_of
score_spec_review scores = grade_of (tally scores spec_review_dimensions no_tally)

-- REVIEW_VERDICT_EVENT_TYPES[graded["verdict"]]
abbrev pub verdict_event : Bool → EventType
verdict_event true = review_accepted
verdict_event false = review_rework_requested

-- graded["verdict"]
abbrev pub verdict_text : Bool → String
verdict_text true = "accepted"
verdict_text false = "rework_requested"

-- The key `reason` of a payload; JSON null and no key at all read back alike.
abbrev pub reason_entry : Option String → List (String × String)
reason_entry reason = elim reason [ none ↦ [] | some r ↦ ("reason", r) ∷ [] ]

unfoldable pub record_spec_review :
    (enabled : Bool) (now : ℕ) (flow_run_id spec_id : String) (scores : Dimension → Raw)
    (reviewer : String) (reason : Option String)
    → Ledger
    → Ledger × Option Grade
record_spec_review enabled now flow_run_id spec_id scores reviewer reason l =
    if not enabled
    then (l, none)
    else let graded = score_spec_review scores in
      let (scored, card_id) =
        append_flow_event now flow_run_id spec_review_scored reviewer none none (some artifact)
          (some spec_id)
          (some (record blank {
            card = some graded;
            rest = ("spec_id", spec_id) ∷ reason_entry reason;
          }))
          l in
      let (reviewed, review_id) =
        append_flow_event now flow_run_id (verdict_event graded.passed) reviewer none none
          (some artifact) (some spec_id)
          (some (record blank {
            rest =
                ("verdict", verdict_text graded.passed)
                ∷ ("spec_id", spec_id)
                ∷ reason_entry reason;
          }))
          scored in
      (reviewed, some graded)

abbrev pub is_scored : EventType → Bool
is_scored spec_review_scored = true
is_scored _ = false

-- The filter of the loop, where `spec_id is not None`.
unfoldable pub is_card_of : Option String → FlowEvent → Bool
is_card_of none e = is_scored e.event_type
is_card_of (some spec_id) e = is_scored e.event_type && same_text? e.entity_id (some spec_id)

unfoldable pub last_card : Option String → List FlowEvent → Option Payload → Option Payload
unfolding is_card_of
last_card spec_id [] latest = latest
last_card spec_id (e ∷ es) latest =
    last_card spec_id es (if is_card_of spec_id e then some (or_else e.payload blank) else latest)

unfoldable pub latest_spec_review : String → Option String → Ledger → Option Payload
unfolding last_card
latest_spec_review flow_run_id spec_id l = last_card spec_id (list_flow_events flow_run_id l) none

-- The gate of decompose_case: `review is None or not review.get("passed")` refuses.
unfoldable pub spec_is_approved : String → String → Ledger → Bool
spec_is_approved flow_run_id spec_id l = elim (latest_spec_review flow_run_id (some spec_id) l) [
  | none ↦ false
  | some p ↦ elim p.card [ none ↦ false | some g ↦ g.passed ]
]
