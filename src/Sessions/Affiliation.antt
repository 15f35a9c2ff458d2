-- ===== src/Sessions/Affiliation.antt =====
-- Who may change the Case of a session: upsert_session and set_session_case of src/control/db.py.
use mathlib.Core.Option
use ai_team.Prelude.{
  ℕ, String, ◌≡◌, refl, ap, ◌∙◌, inl, inr, Bool, true, false, Option, some, List, ◌∷◌,
  if◌then◌else◌, Bool-cases, exists, first-append_found, first-update_where, [],
}
use ai_team.Sessions.{Session, is_session, over_row, upsert_session, get_session}

-- The columns that only set_session_case, or nothing, changes once a row is there.
pub record Origin : Type 0 where
  pub case_id : Option String
  pub role : Option String
  pub boot : Option String
  pub lineage : Option String
  pub born : ℕ

abbrev pub origin_of : Session → Origin
origin_of s = record {
  case_id = s.current_case_id;
  role = s.case_role;
  boot = s.role_boot;
  lineage = s.continued_from;
  born = s.created_at;
}

-- Saves of whole sessions, one after the other.
unfoldable pub save_all : List Session → List Session → List Session
save_all [] rows = rows
save_all (s ∷ ss) rows = save_all ss (upsert_session s rows)

kept : (s t : Session) (b : Bool) → origin_of (if b then over_row s t else t) ≡ origin_of t
unfolding over_row
kept s t true = refl
kept s t false = refl

upsert-origin :
    (s t : Session) (i : String) (rows : List Session)
    → get_session i rows ≡ some t
    → (u : Session) × (get_session i (upsert_session s rows) ≡ some u) × (origin_of u ≡ origin_of t)
unfolding upsert_session get_session
upsert-origin s t i rows found = elim (Bool-cases (exists (is_session s.session_id) rows)) [
  | inr new ↦ (t, rw new (first-append_found (is_session i) rows (s ∷ []) t found), refl)
  | inl old ↦
      let after =
        first-update_where (is_session i) (is_session s.session_id) (over_row s) rows
          (λ x. unfold over_row in refl) in
      (
        (if is_session s.session_id t then over_row s t else t),
        rw old (
            after
            ∙ ap (Option.map (λ x. if is_session s.session_id x then over_row s x else x)) found),
        kept s t (is_session s.session_id t),
      )
]

-- A save of a whole session, stale as it may be, does not move a session from one Case to another:
-- through every sequence of upserts a session that is there stays there, with its Case, its role in
-- it, its boot role, its lineage and its time of creation as they were.
pub stale_saves_keep_case :
    (ss : List Session) (i : String) (rows : List Session) (t : Session)
    → get_session i rows ≡ some t
    → (u : Session) × (get_session i (save_all ss rows) ≡ some u) × (origin_of u ≡ origin_of t)
unfolding save_all
stale_saves_keep_case [] i rows t found = (t, found, refl)
stale_saves_keep_case (s ∷ ss) i rows t found =
    let (u, there, same) = upsert-origin s t i rows found in
    let (v, last, again) = stale_saves_keep_case ss i (upsert_session s rows) u there in
    (v, last, again ∙ same)
