-- ===== src/Case/Criteria/RoundTrip.antt =====
-- What is stored for a Case's criteria and its round cap, and what is read back:
-- _compose_completion_criteria, _parse_completion_criteria and case_round_cap of src/control/db.py.
use ai_team.Prelude.{
  ℤ, pos, negsuc, ℕ, zero, suc, ◌<◌, String, ◌≡◌, refl, ap, ◌∙◌, inl, inr, Bool, true, false,
  Option, none, some, ◌∷◌, arith, str_eq, Bool-cases, strip, is_blank, [],
}
use ai_team.Case.Criteria.{
  Json, object, Fields, field, no_field, Python, get, inner_criteria, single, parsed_criteria,
  parse_completion_criteria, embedded, criteria_fields, compose_completion_criteria, cap_of,
  parsed_cap, case_round_cap,
}

abbrev pub is_object : Option Json → Bool
is_object (some (object fs)) = true
is_object _ = false

-- The criteria text is a JSON object.
abbrev pub names_object : Python → Option String → Bool
names_object py none = false
names_object py (some raw) = is_object (py.loads raw)

module _ (py : Python) where
  -- The object that a cap and a criteria text are folded into.
  abbrev pub folded : Option String → ℕ → Json
  folded raw n = object (field "round_cap" (Json.int (pos n)) (criteria_fields py raw))

  -- json.loads reads what json.dumps wrote of the value.
  abbrev pub ReadsBack : Json → Type 0
  ReadsBack v = py.loads (py.dumps v) ≡ some v

  -- The same of what a call of _compose_completion_criteria writes, where it writes JSON.
  abbrev pub ComposedReadsBack : Option String → Option ℤ → Type 0
  ComposedReadsBack raw (some (pos n)) = ReadsBack (folded raw n)
  ComposedReadsBack raw _ = Unit {0}

  get-criteria :
      (n : ℕ) (v : Json)
      → get "criteria" (field "round_cap" (Json.int (pos n)) (field "criteria" v no_field)) ≡ v
  unfolding get str_eq
  get-criteria n v = refl

  get-no_criteria :
      (n : ℕ) → get "criteria" (field "round_cap" (Json.int (pos n)) no_field) ≡ Json.null
  unfolding get str_eq
  get-no_criteria n = refl

  get-round_cap :
      (n : ℕ) (fs : Fields)
      → get "round_cap" (field "round_cap" (Json.int (pos n)) fs) ≡ Json.int (pos n)
  unfolding get str_eq
  get-round_cap n fs = refl

  embedded-inner :
      (raw : String) (v : Option Json)
      → is_object v ≡ false
      → inner_criteria py (embedded raw v) ≡ parsed_criteria py raw v
  unfolding inner_criteria embedded parsed_criteria
  embedded-inner raw none h = refl
  embedded-inner raw (some (object fs)) h = cc
  embedded-inner raw (some v) h = refl

  blank_read :
      (raw : String) (n : ℕ)
      → is_blank raw ≡ true
      → inner_criteria py
          (get "criteria" (field "round_cap" (Json.int (pos n)) (criteria_fields py (some raw))))
        ≡ parse_completion_criteria py (some raw)
  unfolding criteria_fields parse_completion_criteria
  blank_read raw n b = rw b (
      ap (inner_criteria py) (get-no_criteria n)
      ∙ unfold inner_criteria parsed_criteria single in
        rw (py.loads_blank raw b) (ground (arith, b)))

  fields-read :
      (raw : Option String) (n : ℕ)
      → names_object py raw ≡ false
      → inner_criteria py
          (get "criteria" (field "round_cap" (Json.int (pos n)) (criteria_fields py raw)))
        ≡ parse_completion_criteria py raw
  unfolding criteria_fields parse_completion_criteria
  fields-read none n h = ap (inner_criteria py) (get-no_criteria n) ∙ unfold inner_criteria in refl
  fields-read (some raw) n h = elim (Bool-cases (is_blank raw)) [
    | inl b ↦ blank_read raw n b
    | inr b ↦ rw b (
        ap (inner_criteria py) (get-criteria n (embedded raw (py.loads raw)))
        ∙ embedded-inner raw (py.loads raw) h)
  ]

  stored_read :
      (raw : Option String) (n : ℕ)
      → ReadsBack (folded raw n)
      → parse_completion_criteria py
          (some (py.dumps (object (field "round_cap" (Json.int (pos n)) (criteria_fields py raw)))))
        ≡ inner_criteria py
            (get "criteria" (field "round_cap" (Json.int (pos n)) (criteria_fields py raw)))
  unfolding parse_completion_criteria parsed_criteria
  stored_read raw n back = rw back

  compose_pos :
      (raw : Option String) (n : ℕ)
      → 0 < n
      → compose_completion_criteria py raw (some (pos n))
        ≡ some (py.dumps (object (field "round_cap" (Json.int (pos n)) (criteria_fields py raw))))
  unfolding compose_completion_criteria
  compose_pos raw n h = ground arith

  -- Folding a round cap into the criteria loses none: unless the criteria text is itself a JSON
  -- object, the criteria that are read from the stored value are those of the text alone. This
  -- takes that json.loads reads the value that json.dumps wrote.
  pub parse-compose_completion_criteria :
      (raw : Option String) (cap : Option ℤ)
      → names_object py raw ≡ false
      → ComposedReadsBack raw cap
      → parse_completion_criteria py (compose_completion_criteria py raw cap)
        ≡ parse_completion_criteria py raw
  parse-compose_completion_criteria raw none h back = unfold compose_completion_criteria in refl
  parse-compose_completion_criteria raw (some (negsuc n)) h back =
      unfold compose_completion_criteria in refl
  parse-compose_completion_criteria raw (some (pos zero)) h back =
      unfold compose_completion_criteria in refl
  parse-compose_completion_criteria raw (some (pos (suc n))) h back =
      ap (parse_completion_criteria py) (compose_pos raw (suc n) (omega arith))
      ∙ stored_read raw (suc n) back
      ∙ fields-read raw (suc n) h

  cap_read :
      (raw : Option String) (n : ℕ)
      → 0 < n
      → ReadsBack (folded raw n)
      → case_round_cap py
          (some (py.dumps (object (field "round_cap" (Json.int (pos n)) (criteria_fields py raw)))))
        ≡ n
  unfolding case_round_cap
  cap_read raw n h back =
      let fs = field "round_cap" (Json.int (pos n)) (criteria_fields py raw) in
      rw (py.dumps_object fs, back) (unfold parsed_cap cap_of get str_eq in ground arith)

  -- A positive cap is read back, whatever the criteria are, where json.loads reads the value that
  -- json.dumps wrote.
  pub case_round_cap-compose :
      (raw : Option String) (n : ℕ)
      → 0 < n
      → ReadsBack (folded raw n)
      → case_round_cap py (compose_completion_criteria py raw (some (pos n))) ≡ n
  case_round_cap-compose raw n h back = rw (compose_pos raw n h) (cap_read raw n h back)

  -- Criteria that are given as a JSON object together with a positive cap are not read back: the
  -- Case then has one criterion, the text of the object, where json.loads reads the value that
  -- json.dumps wrote.
  pub parse-compose_object :
      (raw : String) (fs : Fields) (n : ℕ)
      → 0 < n
      → py.loads raw ≡ some (object fs)
      → is_blank raw ≡ false
      → ReadsBack (folded (some raw) n)
      → parse_completion_criteria py (compose_completion_criteria py (some raw) (some (pos n)))
        ≡ strip raw ∷ []
  parse-compose_object raw fs n h o b back =
      ap (parse_completion_criteria py) (compose_pos (some raw) n h)
      ∙ stored_read (some raw) n back
      ∙ unfold criteria_fields in
        rw b (
          ap (inner_criteria py) (get-criteria n (embedded raw (py.loads raw)))
          ∙ unfold embedded inner_criteria single in rw o (ground (arith, b)))
