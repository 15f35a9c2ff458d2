-- ===== src/Sessions/Closing.antt =====
-- Closing a session and opening it again: close_session and restore_session of
-- src/services/session_service.py, and the binding of a chat.
use mathlib.Core.Option
use ai_team.Prelude.{
  ℕ, String, ◌≡◌, refl, ap, ◌∙◌, ◌≢◌, inl, inr, Bool, true, none, some, List, arith, str_eq,
  eq_of_str_eq, str_eq_refl, str_eq_of_ne, Bool-cases, exists-appended, first_holds,
  first-some-exists, first-update_same, member,
}
use ai_team.Sessions.{
  idle, closed, Session, is_session, over_row, upsert_session, get_session, save, accepted,
}
use ai_team.Sessions.Service.{
  is_closed, remember, closed_session, close_call, close_session, restore_session, with_session,
  bound, unbind, get_active,
}

upsert-found :
    (s old : Session) (rows : List Session)
    → get_session s.session_id rows ≡ some old
    → get_session s.session_id (upsert_session s rows) ≡ some (over_row s old)
unfolding upsert_session get_session
upsert-found s old rows found =
    let p = is_session s.session_id in
    let after = first-update_same p (over_row s) rows (λ x h. unfold over_row in h) in
    rw (first-some-exists p rows old found) (after ∙ ap (Option.map (over_row s)) found)

-- What the store holds after a session that was read is saved with changes.
get_session-save :
    (now : ℕ) (i : String) (rows : List Session) (old new : Session)
    → get_session i rows ≡ some old
    → new.session_id ≡ i
    → get_session i (save now true new rows) ≡ some (over_row (record new { updated_at = now }) old)
unfolding save
get_session-save now i rows old new found named =
    rw (← named) (upsert-found (record new { updated_at = now }) old rows (rw named found))

name_of :
    (i : String) (rows : List Session) (s : Session)
    → get_session i rows ≡ some s
    → s.session_id ≡ i
unfolding get_session
name_of i rows s found = eq_of_str_eq s.session_id i (first_holds (is_session i) rows s found)

member-remember : (id : String) (previous : List String) → member id (remember id previous) ≡ true
unfolding remember
member-remember id previous = elim (Bool-cases (member id previous)) [
  | inl old ↦ rw old old
  | inr new ↦
      rw new (unfold member in exists-appended (λ x. str_eq x id) previous id (str_eq_refl id))
]

-- A session that was closed: what it keeps of the session that it was.
pub record Closed (s t : Session) : Type 0 where
  pub over : t.status ≡ closed
  pub detached : t.backend_session_id ≡ ""
  pub remembered :
      s.backend_session_id ≢ "" → member s.backend_session_id t.previous_backend_session_ids ≡ true
  pub same_case : t.current_case_id ≡ s.current_case_id

closed_session-Closed :
    (now : ℕ) (s : Session) → Closed s (over_row (record (closed_session s) { updated_at = now }) s)
unfolding closed_session over_row
closed_session-Closed now s = elim (Bool-cases (str_eq s.backend_session_id "")) [
  | inl none_live ↦ rw none_live (record {
    over = refl;
    detached = eq_of_str_eq s.backend_session_id "" none_live;
    remembered = λ live. absurd (live (eq_of_str_eq s.backend_session_id "" none_live));
    same_case = refl;
  })
  | inr live ↦ rw live (record {
    over = refl;
    detached = refl;
    remembered = λ _. member-remember s.backend_session_id s.previous_backend_session_ids;
    same_case = refl;
  })
]

closed_name : (now : ℕ) (s : Session) → (closed_session s).session_id ≡ s.session_id
unfolding closed_session
closed_name now s = ground arith

get_active-closed :
    (chat i : String) (rows : List Session) (bs : List (String × String)) (t : Session)
    → i ≢ ""
    → get_session i rows ≡ some t
    → is_closed t.status ≡ true
    → bound chat bs ≡ some i
    → get_active chat rows bs ≡ (unbind chat bs, none)
unfolding get_active
get_active-closed chat i rows bs t named found over there =
    ground (arith, there, str_eq_of_ne i "" named, found, over)

restored :
    (now : ℕ) (i : String) (rows : List Session) (t : Session)
    → get_session i rows ≡ some t
    → is_closed t.status ≡ true
    → restore_session now i rows ≡ (save now true (record t { status = idle }) rows, accepted)
unfolding restore_session with_session
restored now i rows t found over = ground (arith, found, over)

restore_session-closed :
    (now : ℕ) (i : String) (rows : List Session) (t : Session)
    → get_session i rows ≡ some t
    → is_closed t.status ≡ true
    → ((restore_session now i rows).1 ≡ accepted)
      × (Option.map (λ u. u.status) (get_session i (restore_session now i rows).0) ≡ some idle)
restore_session-closed now i rows t found over =
    let again =
      get_session-save now i rows t (record t { status = idle }) found (name_of i rows t found) in
    rw (restored now i rows t found over) (refl, rw again (unfold over_row in refl))

close_session-there :
    (known : String → Bool) (dispatcher : Bool) (host : String) (now : ℕ) (i : String)
    (rows : List Session) (s : Session)
    → get_session i rows ≡ some s
    → close_session known dispatcher host now i rows
      ≡ ((save now true (closed_session s) rows, accepted), close_call known dispatcher host s)
unfolding close_session
close_session-there known dispatcher host now i rows s found = ground (arith, found)

-- Closing a session that is there succeeds: it is closed then, has no live conversation, remembers
-- the one that it had, and keeps its Case; a chat that was bound to it has no active session, and is
-- unbound; and restoring it succeeds and makes it idle.
pub close_session_lem :
    (known : String → Bool) (dispatcher : Bool) (host : String) (now later : ℕ) (i chat : String)
    (rows : List Session) (bs : List (String × String)) (s : Session)
    → i ≢ ""
    → get_session i rows ≡ some s
    → bound chat bs ≡ some i
    → let ((rows', answer), call) = close_session known dispatcher host now i rows in
      (answer ≡ accepted)
      × ((t : Session) × (get_session i rows' ≡ some t) × Closed s t)
      × (get_active chat rows' bs ≡ (unbind chat bs, none))
      × ((restore_session later i rows').1 ≡ accepted)
      × (Option.map (λ u. u.status) (get_session i (restore_session later i rows').0) ≡ some idle)
close_session_lem known dispatcher host now later i chat rows bs s named found there =
    let t = over_row (record (closed_session s) { updated_at = now }) s in
    let after : get_session i (save now true (closed_session s) rows) ≡ some t =
      get_session-save now i rows s (closed_session s) found
        (closed_name now s ∙ name_of i rows s found) in
    let facts = closed_session-Closed now s in
    let over : is_closed t.status ≡ true = ap is_closed facts.over in
    rw (close_session-there known dispatcher host now i rows s found) (
      let (accepts, waits) =
        restore_session-closed later i (save now true (closed_session s) rows) t after over in
      (
        refl,
        (t, after, facts),
        get_active-closed chat i (save now true (closed_session s) rows) bs t named after over
            there,
        accepts,
        waits,
      ))
