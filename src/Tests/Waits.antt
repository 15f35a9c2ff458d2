-- ===== src/Tests/Waits.antt =====
-- Approvals and waits of src/control/db.py on small ledgers.
use ai_team.Prelude.{
  ne_of_str_eq, ℕ, String, ◌≡◌, refl, Bool, true, false, ◌&&◌, none, some, ◌∷◌, arith,
  if◌then◌else◌, str_eq, same_text?, select, exists, first, [],
}
use ai_team.Case.{Approval, pending, Ledger}
use ai_team.Case.Approvals.{
  insert_newest, is_decided, newest_first, is_open_approval, get_approval, set_resolved, Decision,
  approve, reject, decided, refuse, resolve, request, list_flow_runs, is_approve,
}
use ai_team.Case.Approvals.Gate.{winners, resolvers_one_winner, resolve_lem}
use ai_team.Case.Approvals.Holding.{request_holds_case}
use ai_team.Case.Close.{case_has_unresolved_approval}
use ai_team.Tests.Cases.{case_run, ledger_of}

abbrev pending_approval : Approval
pending_approval = record {
  id = "a1";
  session_id = some "s1";
  task_id = some "t1";
  action = "deploy";
  risk = "high";
  reversible = false;
  status = pending;
  requested_by = "agent";
  payload = none;
  created_at = 3;
  expires_at = none;
  resolved_by = none;
  resolved_at = none;
}

abbrev gated : Ledger
gated = ledger_of (case_run ∷ []) [] (pending_approval ∷ [])

resolvers_one_winner_example :
    winners "a1" ((4, approve, "web") ∷ (4, reject, "telegram") ∷ []) gated
    ≡ (if exists (is_open_approval "a1") gated.approvals then 1 else 0)
unfolding select str_eq
resolvers_one_winner_example =
    resolvers_one_winner "a1" 4 approve "web" ((4, reject, "telegram") ∷ []) gated refl
      (omega arith)

resolve_lem_example :
    let k = resolve true true 4 "a1" approve "web" gated in
    let row = set_resolved 4 (decided approve) "web" pending_approval in
    (k.answer.ok ≡ true)
    × (get_approval "a1" k.ledger ≡ some row)
    × (k.dispatched ≡ (if is_approve approve && true then some row else none))
    × ((drive callback : Bool) (later : ℕ) (d : Decision) (by : String)
        → is_decided (decided d) ≡ true
        → resolve drive callback later "a1" d by k.ledger ≡ refuse "already_resolved" k.ledger)
unfolding select first get_approval str_eq
resolve_lem_example =
    resolve_lem true true 4 "a1" approve "web" gated pending_approval refl (omega arith) refl refl

request_holds_case_example :
    case_has_unresolved_approval "c1"
      (request true 5 "a2" "deploy"
        (some "s1")
        (some "t1")
        "high"
        false
        "agent"
        none
        none
        gated).ledger
    ≡ true
unfolding exists list_flow_runs newest_first insert_newest select same_text? str_eq
request_holds_case_example =
    request_holds_case 5 "a2" "deploy" (some "s1") "t1" "high" false "agent" none none gated
      case_run [] (ne_of_str_eq "deploy" "" refl) (ne_of_str_eq "t1" "" refl)
      (ne_of_str_eq "c1" "" refl) refl refl
