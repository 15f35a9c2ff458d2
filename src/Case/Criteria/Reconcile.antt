-- ===== src/Case/Criteria/Reconcile.antt =====
-- When the criteria of a Case count as reconciled, over _unreconciled_criteria of
-- src/control/db.py.
use ai_team.Prelude.{
  String, ◌≡◌, refl, ◌≢◌, ◌↔◌, ◌⊎◌, true, ◌&&◌, not, Option, List, ◌∷◌, arith, str_eq, str_eq_iff,
  All, select, exists, strip, [],
}
use ai_team.Case.Criteria.{
  Python, Entry, no_object, entry, criterion_resolved, claimed_criterion, is_resolved,
  parse_completion_criteria, unreconciled_criteria,
}

module _ (py : Python) where
  -- An entry answers a criterion: it names it, and says that it is met, or waived for a reason.
  abbrev pub Answers : Entry → String → Type 0
  Answers no_object c = ⊥
  Answers (entry status met waived reason criterion) c =
      (strip criterion ≡ c)
      × (((py.lower (strip status) ≡ "met") ⊎ (met ≡ true))
          ⊎ (((py.lower (strip status) ≡ "waived") ⊎ (waived ≡ true)) × (strip reason ≢ "")))

  -- Some entry of the list answers the criterion.
  abbrev pub Answered : List Entry → String → Type 0
  Answered [] c = ⊥
  Answered (e ∷ es) c = Answers e c ⊎ Answered es c

  Answers-iff :
      (e : Entry) (c : String)
      → ((criterion_resolved py e && str_eq (claimed_criterion e) c) ≡ true) ↔ Answers e c
  unfolding criterion_resolved claimed_criterion
  Answers-iff no_object c = (λ h. cc, λ h. absurd h)
  Answers-iff (entry status met waived reason criterion) c =
      let word = py.lower (strip status) in
      (
        λ h. ground (
          arith,
          str_eq_iff word "met",
          str_eq_iff word "waived",
          str_eq_iff (strip reason) "",
          str_eq_iff (strip criterion) c,
        ),
        λ h. ground (
          arith,
          str_eq_iff word "met",
          str_eq_iff word "waived",
          str_eq_iff (strip reason) "",
          str_eq_iff (strip criterion) c,
        ),
      )

  Answered-iff : (es : List Entry) (c : String) → (is_resolved py es c ≡ true) ↔ Answered es c
  unfolding is_resolved exists
  Answered-iff [] c = (λ h. absurd (ground arith), λ h. absurd h)
  Answered-iff (e ∷ es) c = ground (arith, Answers-iff e c, Answered-iff es c)

  none_left :
      (es : List Entry) (cs : List String)
      → (select (λ c. not (is_resolved py es c)) cs ≡ []) ↔ All (Answered es) cs
  unfolding select
  none_left es [] = (λ h. tt, λ h. refl)
  none_left es (c ∷ cs) = ground (arith, Answered-iff es c, none_left es cs)

  -- No criterion is left exactly when each criterion of the Case has an entry that answers it.
  pub unreconciled_criteria_iff :
      (raw : Option String) (es : List Entry)
      → (unreconciled_criteria py raw es ≡ [])
        ↔ All (Answered es) (parse_completion_criteria py raw)
  unfolding unreconciled_criteria
  unreconciled_criteria_iff raw es = none_left es (parse_completion_criteria py raw)
