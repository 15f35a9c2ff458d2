-- ===== src/Case/Spec/Review.antt =====
-- What the gate of decompose_case reads after record_spec_review of src/control/db.py.
use ai_team.Prelude.{
  ℕ, ◌+◌, ◌≤◌, String, ◌≡◌, refl, ap, ◌∙◌, Bool, true, false, Option, none, some, List, ◌∷◌, ◌++◌,
  arith, str_eq_refl, same_text?, length, take, select, length-append, take_all, select-append, [],
}
use ai_team.Case.{artifact, spec_review_scored, Dimension, Grade, Payload, blank, FlowEvent, Ledger}
use ai_team.Case.Flow.{is_event_of, event_limit, append_flow_event, list_flow_events}
use ai_team.Case.Spec.{
  verdict_text, reason_entry, Raw, score_spec_review, verdict_event, record_spec_review, is_scored,
  is_card_of, last_card, latest_spec_review, spec_is_approved,
}

-- The two events of a review.
abbrev card_event : ℕ → ℕ → String → String → Grade → String → Option String → FlowEvent
card_event id now f spec g reviewer reason = record {
  id = id;
  flow_run_id = f;
  event_type = spec_review_scored;
  actor = reviewer;
  from_state = none;
  to_state = none;
  entity_type = some artifact;
  entity_id = some spec;
  payload = some (record blank { card = some g; rest = ("spec_id", spec) ∷ reason_entry reason });
  created_at = now;
}

abbrev verdict_of : ℕ → ℕ → String → String → Grade → String → Option String → FlowEvent
verdict_of id now f spec g reviewer reason = record (card_event id now f spec g reviewer reason) {
  event_type = verdict_event g.passed;
  payload = some (record blank {
    rest = ("verdict", verdict_text g.passed) ∷ ("spec_id", spec) ∷ reason_entry reason;
  });
}

not_scored : (b : Bool) → is_scored (verdict_event b) ≡ false
not_scored true = refl
not_scored false = refl

last_card-review :
    (spec : String) (es : List FlowEvent) (found : Option Payload) (id id' now : ℕ) (f : String)
    (g : Grade) (reviewer : String) (reason : Option String)
    → last_card
        (some spec)
        (es
          ++ card_event id now f spec g reviewer reason
            ∷ verdict_of id' now f spec g reviewer reason
            ∷ [])
        found
      ≡ some (record blank { card = some g; rest = ("spec_id", spec) ∷ reason_entry reason })
unfolding last_card is_card_of same_text?
last_card-review spec [] found id id' now f g reviewer reason =
    ground (arith, str_eq_refl spec, not_scored g.passed)
last_card-review spec (e ∷ es) found id id' now f g reviewer reason =
    last_card-review spec es _ id id' now f g reviewer reason

append_assoc : (xs ys zs : List FlowEvent) → (xs ++ ys) ++ zs ≡ xs ++ (ys ++ zs)
append_assoc [] ys zs = refl
append_assoc (x ∷ xs) ys zs = ap (◌∷◌ x) (append_assoc xs ys zs)

page-review :
    (id id' now : ℕ) (f spec : String) (g : Grade) (reviewer : String) (reason : Option String)
    (es : List FlowEvent)
    → length (select (is_event_of f) es) + 2 ≤ event_limit
    → take event_limit (
        select (is_event_of f) (
          (es ++ card_event id now f spec g reviewer reason ∷ [])
          ++ verdict_of id' now f spec g reviewer reason ∷ []))
      ≡ select (is_event_of f) es
        ++ card_event id now f spec g reviewer reason
          ∷ verdict_of id' now f spec g reviewer reason
          ∷ []
page-review id id' now f spec g reviewer reason es room =
    let p = is_event_of f in
    let x = card_event id now f spec g reviewer reason in
    let y = verdict_of id' now f spec g reviewer reason in
    let here : (e : FlowEvent) → p e ≡ true → select p (e ∷ []) ≡ e ∷ [] =
      λ e h. unfold select in ground (arith, h) in
    let whole : select p ((es ++ x ∷ []) ++ y ∷ []) ≡ (select p es ++ x ∷ []) ++ y ∷ [] =
      select-append p (es ++ x ∷ []) (y ∷ [])
      ∙ ap (λ ys. ys ++ select p (y ∷ [])) (select-append p es (x ∷ []))
      ∙ ap (λ ys. (select p es ++ ys) ++ select p (y ∷ [])) (here x (str_eq_refl f))
      ∙ ap (λ ys. (select p es ++ x ∷ []) ++ ys) (here y (str_eq_refl f)) in
    ap (take event_limit) (whole ∙ append_assoc (select p es) (x ∷ []) (y ∷ []))
    ∙ take_all event_limit (select p es ++ x ∷ y ∷ [])
        (omega (arith, room, length-append (select p es) (x ∷ y ∷ [])))

-- The gate of decompose_case follows the score: where a Case has at most 498 events, after a
-- review of a spec is recorded the spec is approved exactly if the score of that review passed,
-- whatever reviews there were before.
pub spec_is_approved-record_spec_review :
    (now : ℕ) (f spec : String) (scores : Dimension → Raw) (reviewer : String)
    (reason : Option String) (l : Ledger)
    → length (select (is_event_of f) l.events) + 2 ≤ event_limit
    → spec_is_approved f spec (record_spec_review true now f spec scores reviewer reason l).0
      ≡ (score_spec_review scores).passed
unfolding spec_is_approved
spec_is_approved-record_spec_review now f spec scores reviewer reason l room =
    let g = score_spec_review scores in
    let latest : latest_spec_review f (some spec)
          (record_spec_review true now f spec scores reviewer reason l).0
        ≡ some (record blank { card = some g; rest = ("spec_id", spec) ∷ reason_entry reason }) =
      unfold latest_spec_review list_flow_events record_spec_review append_flow_event in
      (ap (λ es. last_card (some spec) es none)
          (page-review l.next_event (l.next_event + 1) now f spec g reviewer reason l.events room)
        ∙ last_card-review spec (select (is_event_of f) l.events) none l.next_event
            (l.next_event + 1) now f g reviewer reason) in
    ground (arith, latest)
