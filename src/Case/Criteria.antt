-- ===== src/Case/Criteria.antt =====
-- The completion criteria of a Case and their reconciliation, from the helpers at the end of
-- src/control/db.py. Python's json module, `str` and `lower` are the parameter `py`.
pub mod RoundTrip
pub mod Reconcile
use package.text.Mathlib.Text.{starts_with}
use ai_team.Prelude.{
  ℤ, pos, negsuc, ℕ, String, ◌≡◌, Bool, true, false, ◌&&◌, ◌||◌, not, Option, none, some, List, ◌∷◌,
  ◌==◌, if◌then◌else◌, str_eq, select, exists, strip, is_blank, [],
}

-- A value of the json module. `real` is a number with a fraction or an exponent.
mutual
  pub data Json : Type 0 where
    null : Json
    bool : Bool → Json
    int : ℤ → Json
    real : String → Json
    text : String → Json
    array : Items → Json
    object : Fields → Json

  pub data Items : Type 0 where
    end : Items
    item : Json → Items → Items

  pub data Fields : Type 0 where
    no_field : Fields
    field : String → Json → Fields → Fields

-- What is used of Python: json.loads (`none` is the exception), json.dumps, `str` of a JSON value
-- that is no text, and `str.lower`.
pub record Python : Type 0 where
  pub loads : String → Option Json
  pub dumps : Json → String
  pub repr : Json → String
  pub lower : String → String
  -- json.loads raises on a text of white characters
  pub loads_blank : (s : String) → is_blank s ≡ true → loads s ≡ none
  -- json.dumps writes an object from its brace on
  pub dumps_object : (fs : Fields) → starts_with (strip (dumps (object fs))) "{" ≡ true

-- d.get(key)
unfoldable pub get : String → Fields → Json
get key no_field = null
get key (field k v fs) = if str_eq k key then v else get key fs

-- [s] if s.strip() else []
unfoldable pub single : String → List String
single s = if is_blank s then [] else strip s ∷ []

-- `criteria_val`: a list or a text is embedded as its value, anything else as the raw text.
unfoldable pub embedded : String → Option Json → Json
embedded raw (some (array vs)) = array vs
embedded raw (some (text s)) = text s
embedded raw _ = text raw

-- An entry of a reconciliation: no object, or its keys `status`, `met is True`, `waived is True`,
-- `reason` and `criterion`, with their values as text.
pub data Entry : Type 0 where
  no_object : Entry
  entry : (status : String) (met waived : Bool) (reason criterion : String) → Entry

unfoldable pub claimed_criterion : Entry → String
claimed_criterion no_object = ""
claimed_criterion (entry status met waived reason criterion) = strip criterion

module _ (py : Python) where
  -- str(v)
  unfoldable pub str : Json → String
  str (text s) = s
  str v = py.repr v

  -- [str(x).strip() for x in v if str(x).strip()]
  unfoldable pub stripped : Items → List String
  unfolding str
  stripped end = []
  stripped (item v vs) =
      let rest = stripped vs in if is_blank (str v) then rest else strip (str v) ∷ rest

  -- The branches on v.get("criteria").
  unfoldable pub inner_criteria : Json → List String
  unfolding single stripped
  inner_criteria (array vs) = stripped vs
  inner_criteria (text s) = single s
  inner_criteria _ = []

  unfoldable pub parsed_criteria : String → Option Json → List String
  unfolding inner_criteria get single stripped
  parsed_criteria raw (some (object fs)) = inner_criteria (get "criteria" fs)
  parsed_criteria raw (some (array vs)) = stripped vs
  parsed_criteria raw (some (text s)) = single s
  parsed_criteria raw _ = single raw

  -- _parse_completion_criteria
  unfoldable pub parse_completion_criteria : Option String → List String
  unfolding parsed_criteria
  parse_completion_criteria none = []
  parse_completion_criteria (some raw) = parsed_criteria raw (py.loads raw)

  unfoldable pub criteria_fields : Option String → Fields
  unfolding embedded
  criteria_fields none = no_field
  criteria_fields (some raw) =
      if is_blank raw then no_field else field "criteria" (embedded raw (py.loads raw)) no_field

  -- _compose_completion_criteria: a cap that is not positive leaves the text as it is.
  unfoldable pub compose_completion_criteria : Option String → Option ℤ → Option String
  unfolding criteria_fields
  compose_completion_criteria raw none = raw
  compose_completion_criteria raw (some (negsuc n)) = raw
  compose_completion_criteria raw (some (pos n)) =
      if n == 0
      then raw
      else some (py.dumps (object (field "round_cap" (int (pos n)) (criteria_fields raw))))

  -- _criterion_resolved
  unfoldable pub criterion_resolved : Entry → Bool
  criterion_resolved no_object = false
  criterion_resolved (entry status met waived reason criterion) =
      let word = py.lower (strip status) in
      if str_eq word "met" || met
      then true
      else (str_eq word "waived" || waived) && not (is_blank reason)

  -- c in resolved
  unfoldable pub is_resolved : List Entry → String → Bool
  unfolding criterion_resolved claimed_criterion
  is_resolved entries c =
      exists (λ e. criterion_resolved e && str_eq (claimed_criterion e) c) entries

  -- _unreconciled_criteria
  unfoldable pub unreconciled_criteria : Option String → List Entry → List String
  unreconciled_criteria raw entries =
      select (λ c. not (is_resolved entries c)) (parse_completion_criteria raw)

-- DEFAULT_CONTINUATION_ROUND_CAP
abbrev pub default_continuation_round_cap : ℕ
default_continuation_round_cap = 50

-- `cap = parsed.get("round_cap")`, where isinstance(cap, int) and cap > 0; True is the int 1.
unfoldable pub cap_of : Json → ℕ
cap_of (int (pos n)) = if n == 0 then default_continuation_round_cap else n
cap_of (bool true) = 1
cap_of _ = default_continuation_round_cap

unfoldable pub parsed_cap : Option Json → ℕ
unfolding cap_of get
parsed_cap (some (object fs)) = cap_of (get "round_cap" fs)
parsed_cap _ = default_continuation_round_cap

-- case_round_cap, of the Case's `completion_criteria`
unfoldable pub case_round_cap : Python → Option String → ℕ
unfolding parsed_cap
case_round_cap py none = default_continuation_round_cap
case_round_cap py (some raw) =
    if starts_with (strip raw) "{"
    then parsed_cap (py.loads raw)
    else default_continuation_round_cap
