-- ===== src/Case/Approvals/Holding.antt =====
-- A requested approval and the guard of close_case: request of src/services/approval_service.py and
-- _case_has_unresolved_approval of src/control/db.py.
use ai_team.Prelude.{
  exists-appended, ℕ, String, ◌≡◌, ap, ◌∙◌, ◌≢◌, inl, inr, Bool, true, false, ◌&&◌, Option, none,
  some, List, ◌∷◌, ◌++◌, arith, str_eq, eq_of_str_eq, str_eq_refl, str_eq_of_ne, Option-cases,
  exists, first, first_holds, exists_of_first, [],
}
use ai_team.Case.{approval_requested, FlowLink, approval, EventType, FlowRun, Approval, Ledger}
use ai_team.Case.Approvals.{
  create_approval, request, list_flow_runs, is_approval, record_approval_flow, link_approval,
}
use ai_team.Case.Close.{is_pending_approval, case_has_unresolved_approval}
use ai_team.Case.Flow.{same_entity, is_link, create_flow_link, append_flow_event}

-- The guard's test of a link.
abbrev holds : String → List Approval → FlowLink → Bool
holds f rows k =
    (str_eq k.flow_run_id f && same_entity k.entity_type approval)
    && exists (λ a. str_eq a.id k.entity_id && is_pending_approval a.status) rows

abbrev approval_link : ℕ → ℕ → String → String → FlowLink
approval_link id now f i = record {
  id = id;
  flow_run_id = f;
  entity_type = approval;
  entity_id = i;
  role = "approval";
  created_at = now;
  created_by = some "system";
  objective = none;
  depends_on = [];
  metadata = [];
}

links-new :
    (now : ℕ) (f i : String) (l : Ledger)
    → first (is_link f approval i "approval") l.links ≡ none
    → (create_flow_link now f approval i "approval" (some "system") none [] [] l).0.links
      ≡ l.links ++ approval_link l.next_link now f i ∷ []
unfolding create_flow_link
links-new now f i l new = ground (arith, new)

linked :
    (now : ℕ) (f i : String) (rows : List Approval) (l : Ledger)
    → exists (λ a. str_eq a.id i && is_pending_approval a.status) rows ≡ true
    → exists
        (holds f rows)
        (create_flow_link now f approval i "approval" (some "system") none [] [] l).0.links
      ≡ true
unfolding create_flow_link same_entity
linked now f i rows l open_row =
    elim (Option-cases (first (is_link f approval i "approval") l.links)) [
      | inl new ↦
          ap (exists (holds f rows)) (links-new now f i l new)
          ∙ exists-appended (holds f rows) l.links (approval_link l.next_link now f i)
              (ground (arith, str_eq_refl f, open_row))
      | inr (k, old) ↦
          let mine = first_holds (is_link f approval i "approval") l.links k old in
          let there =
            exists_of_first (is_link f approval i "approval") (holds f rows) l.links k old (
              let same = eq_of_str_eq k.entity_id i (ground (arith, mine)) in
              rw same (ground (arith, mine, open_row))) in
          ground (arith, old, there)
    ]

held :
    (now : ℕ) (f i actor : String) (l : Ledger) (e : EventType)
    → str_eq f "" ≡ false
    → exists
        (holds f l.approvals)
        (create_flow_link now f approval i "approval" (some "system") none [] [] l).0.links
      ≡ true
    → case_has_unresolved_approval f (link_approval now f i e actor (some "pending") l) ≡ true
unfolding case_has_unresolved_approval link_approval append_flow_event
held now f i actor l e named there =
    let kept : (create_flow_link now f approval i "approval" (some "system") none [] []
          l).0.approvals
        ≡ l.approvals =
      unfold create_flow_link in ground arith in
    rw (named, kept) there

-- An approval that is asked for with a fresh id, on a task whose newest run is a Case with an id,
-- holds the Case open: with the flow drive on, the guard of close_case finds it.
pub request_holds_case :
    (now : ℕ) (i action : String) (s : Option String) (t : String) (risk : String)
    (reversible : Bool) (by : String) (payload expires : Option String) (l : Ledger) (r : FlowRun)
    (rs : List FlowRun)
    → action ≢ ""
    → t ≢ ""
    → r.flow_run_id ≢ ""
    → exists (is_approval i) l.approvals ≡ false
    → list_flow_runs (some t) 1 l ≡ r ∷ rs
    → case_has_unresolved_approval r.flow_run_id
        (request true now i action s (some t) risk reversible by payload expires l).ledger
      ≡ true
request_holds_case now i action s t risk reversible by payload expires l r rs named tasked cased
      fresh newest =
    let born = create_approval now i action s (some t) risk reversible by payload expires l in
    let open_row : exists (λ a. str_eq a.id i && is_pending_approval a.status) born.approvals
        ≡ true =
      unfold create_approval in
      rw fresh (exists-appended _ l.approvals _ (ground (arith, str_eq_refl i))) in
    let same : list_flow_runs (some t) 1 born ≡ r ∷ rs =
      unfold list_flow_runs create_approval in rw fresh newest in
    let there = linked now r.flow_run_id i born.approvals born open_row in
    let no_action = str_eq_of_ne action "" named in
    let no_task = str_eq_of_ne t "" tasked in
    let no_case = str_eq_of_ne r.flow_run_id "" cased in
    let recorded : (request true now i action s (some t) risk reversible by payload expires
          l).ledger
        ≡ link_approval now r.flow_run_id i approval_requested "system" (some "pending") born =
      unfold request record_approval_flow in ground (arith, no_action, no_task, same) in
    ap (case_has_unresolved_approval r.flow_run_id) recorded
    ∙ held now r.flow_run_id i "system" born approval_requested no_case there
