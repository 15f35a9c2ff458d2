-- ===== src/Tests/Sessions.antt =====
-- Sessions and the boot of a Manager on small tables.
use mathlib.Core.Option
use ai_team.Prelude.{
  ◌≡◌, refl, true, false, not, none, some, ◌∷◌, map, str_eq, ne_of_str_eq, select, first, member,
  [],
}
use ai_team.Sessions.{Session, idle, awaiting_input, get_session, accepted}
use ai_team.Sessions.Affiliation.{save_all, origin_of, stale_saves_keep_case}
use ai_team.Sessions.Closing.{Closed, close_session_lem}
use ai_team.Sessions.Service.{bound, unbind, get_active, close_session, restore_session}
use ai_team.Continuation.Boot.{boot_reconcile_case, boot_reconcile_case_lem}
use ai_team.Continuation.Brief.{armed_groups}
use ai_team.Case.Flow.{list_flow_events}
use ai_team.Case.Waits.{reconcile_worker_waits}
use ai_team.Tests.Wakes.{same, waking}

abbrev pub seat : Session
seat = record {
  session_id = "s1";
  backend = "claude";
  repo_path = "/repo";
  status = awaiting_input;
  created_at = 1;
  updated_at = 2;
  machine_id = "gateway";
  backend_session_id = "b1";
  model = none;
  effort = none;
  last_task_id = "";
  last_artifact_path = "";
  last_summary = "";
  last_user_message = "";
  last_result_summary = "";
  last_files_modified = [];
  telegram_chat_id = none;
  telegram_thread_id = none;
  owner_user_id = none;
  task_history = [];
  origin = "web/user";
  driver_type = "sdk";
  driver_status = "live";
  cache_health = "unknown";
  cache_unhealthy_count = 0;
  previous_backend_session_ids = [];
  current_case_id = some "c1";
  case_role = some "manager";
  role_boot = none;
  continued_from = none;
  keep_pinned = false;
  keep_note = "";
}

-- A copy that was read before the session came to its Case.
abbrev stale : Session
stale = record seat { current_case_id = none; case_role = none; updated_at = 1 }

stale_saves_keep_case_example :
    (u : Session) × (get_session "s1" (save_all (stale ∷ stale ∷ []) (seat ∷ [])) ≡ some u)
    × (origin_of u ≡ origin_of seat)
unfolding get_session str_eq first
stale_saves_keep_case_example =
    stale_saves_keep_case (stale ∷ stale ∷ []) "s1" (seat ∷ []) seat refl

close_session_lem_example :
    let ((rows', answer), call) = close_session (λ b. true) true "gateway" 5 "s1" (seat ∷ []) in
    (answer ≡ accepted)
    × ((t : Session) × (get_session "s1" rows' ≡ some t) × Closed seat t)
    × (get_active "42" rows' (("42", "s1") ∷ []) ≡ (unbind "42" (("42", "s1") ∷ []), none))
    × ((restore_session 6 "s1" rows').1 ≡ accepted)
    × (Option.map (λ u. u.status) (get_session "s1" (restore_session 6 "s1" rows').0) ≡ some idle)
unfolding get_session bound str_eq first
close_session_lem_example =
    close_session_lem (λ b. true) true "gateway" 5 6 "s1" "42" (seat ∷ []) (("42", "s1") ∷ []) seat
      (ne_of_str_eq "s1" "" refl) refl refl

boot_reconcile_case_lem_example :
    let (l', waits) = reconcile_worker_waits true 9 "c1" "manager" waking in
    let (gs, over) = armed_groups same (list_flow_events "c1" l') ([], []) in
    boot_reconcile_case true true same 9 "c1" "manager" waking
    ≡ (l', some (waits, select (λ i. not (member i over)) (map (λ g. g.0) gs)))
boot_reconcile_case_lem_example = boot_reconcile_case_lem true same 9 "c1" "manager" waking
