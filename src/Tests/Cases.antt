-- ===== src/Tests/Cases.antt =====
-- Cases and their criteria, of src/control/db.py on small ledgers.
use mathlib.Core.Option
use ai_team.Prelude.{
  All, pos, ℕ, zero, suc, String, ◌≡◌, refl, subst, ◌↔◌, inl, inr, true, false, Option, none, some,
  List, ◌∷◌, arith, if◌then◌else◌, str_eq, eq_of_str_eq, same_text?, Bool-cases, select, exists,
  every, first, strip, is_blank, [],
}
use ai_team.Case.{flow_created, review_rework_requested, FlowRun, FlowEvent, Approval, Ledger}
use ai_team.Case.Close.{
  last_review, rework_outstanding, seen_open_children, close_refusal, closed_now, already_terminal,
  close_case, case_has_unresolved_approval,
}
use ai_team.Case.Close.Guards.{MayClose, close_case_iff, close_case_once}
use ai_team.Case.Close.Children.{close_case_late_child}
use ai_team.Case.Close.Limits.{close_case_late_rework}
use ai_team.Case.Flow.{is_child, create_flow_run, parent_flow_run_id}
use ai_team.Prelude.{ne_of_str_eq, ◌≤◌}
use ai_team.Case.Criteria.{
  claimed_criterion, criterion_resolved, is_resolved, single, parsed_criteria, embedded,
  criteria_fields, Json, object, text, field, no_field, Python, Entry, entry,
  parse_completion_criteria, compose_completion_criteria, unreconciled_criteria,
}
use ai_team.Case.Criteria.RoundTrip.{parse-compose_completion_criteria}
use ai_team.Case.Flow.{
  same_entity, insert_run, oldest_first, list_child_flow_runs, is_closed_status, append_flow_event,
  list_flow_events, get_flow_run,
}

blank_apart : (s t : String) → is_blank s ≡ true → is_blank t ≡ false → str_eq s t ≡ false
blank_apart s t b n = elim (Bool-cases (str_eq s t)) [
  | inr e ↦ e
  | inl e ↦
      let same = eq_of_str_eq s t e in
      absurd (ground (arith, n, subst (λ x. is_blank x ≡ true) same b))
]

-- A json module that knows two texts: one value that was written, and an empty object.
abbrev reading : Json → String → Option Json
reading stored s =
    if str_eq s "{x}" then some stored else if str_eq s "{}" then some (object no_field) else none

pub blank_unread : (stored : Json) (s : String) → is_blank s ≡ true → reading stored s ≡ none
blank_unread stored s b =
    let filled : (t : String) → is_blank t ≡ false → str_eq s t ≡ false =
      λ t n. blank_apart s t b n in
    ground
      (arith, filled "{x}" (unfold str_eq strip in refl), filled "{}" (unfold str_eq strip in refl))

unfoldable pub python : Json → Python
unfolding str_eq strip
python stored = record {
  loads = reading stored;
  dumps = λ v. "{x}";
  repr = λ v. "";
  lower = λ s. s;
  loads_blank = λ s b. blank_unread stored s b;
  dumps_object = λ fs. refl;
}

abbrev capped : String → Json
capped raw = object (field "round_cap" (Json.int (pos 3)) (field "criteria" (text raw) no_field))

abbrev pub py : Python
py = python (capped "tests pass")

parse-compose_completion_criteria_example :
    parse_completion_criteria py (compose_completion_criteria py (some "tests pass") (some (pos 3)))
    ≡ parse_completion_criteria py (some "tests pass")
unfolding python str_eq strip criteria_fields embedded
parse-compose_completion_criteria_example =
    parse-compose_completion_criteria py (some "tests pass") (some (pos 3)) refl refl

abbrev answers : List Entry
answers = entry "met" false false "" "tests pass" ∷ []

abbrev pub run_of : String → Option String → Option String → Option String → ℕ → FlowRun
run_of id parent state criteria born = record {
  flow_run_id = id;
  task_id = some "t1";
  current_stage = some "objective_lock";
  objective_lock = some "ship";
  created_at = born;
  updated_at = none;
  approved_plan = none;
  plan_review = none;
  burn_down_items = none;
  execution_result = none;
  implementation_review = none;
  waived_findings = none;
  closure_summary = none;
  role_assignments = none;
  artifact_links = none;
  status = state;
  parent_flow_run_id = parent;
  dispatched_by = none;
  dispatch_file = none;
  completion_criteria = criteria;
}

abbrev pub ledger_of : List FlowRun → List FlowEvent → List Approval → Ledger
ledger_of runs events approvals = record {
  runs = runs;
  links = [];
  events = events;
  approvals = approvals;
  next_link = 1;
  next_event = 501;
}

abbrev pub case_run : FlowRun
case_run = run_of "c1" none none (some "tests pass") 1

abbrev pub small : Ledger
small = ledger_of (case_run ∷ run_of "c2" (some "c1") (some "closed") none 2 ∷ []) [] []

close_case_iff_example :
    ((close_case py true 9 "c1" "closed" "manager" answers small).1 ≡ closed_now) ↔ (
      (row : FlowRun) × (get_flow_run "c1" small ≡ some row)
      × MayClose py true "c1" row answers small)
unfolding is_closed_status select same_text? str_eq
close_case_iff_example =
    close_case_iff py true 9 "c1" "closed" "manager" answers small refl (omega arith)

close_case_once_example :
    let closed = (close_case py true 9 "c1" "closed" "manager" answers small).0 in
    (Option.map (λ r. r.status) (get_flow_run "c1" closed) ≡ some (some "closed"))
    × (close_case py false 10 "c1" "cancelled" "operator" [] closed ≡ (closed, already_terminal))
unfolding close_case close_refusal seen_open_children list_child_flow_runs oldest_first insert_run
    select case_has_unresolved_approval exists every unreconciled_criteria parse_completion_criteria
    parsed_criteria single is_resolved criterion_resolved claimed_criterion rework_outstanding
    last_review list_flow_events get_flow_run first is_closed_status same_entity same_text? strip
    str_eq python
close_case_once_example =
    close_case_once py true false 9 10 "c1" "closed" "cancelled" "manager" "operator" answers []
      small refl refl

-- The closed children 1 to n.
abbrev closed_children : ℕ → List FlowRun
closed_children zero = []
closed_children (suc n) =
    run_of "child" (some "c1") (some "closed") none (suc n) ∷ closed_children n

abbrev crowded : Ledger
crowded = ledger_of (case_run ∷ closed_children 50) [] []

children_are_older :
    (n : ℕ) → n ≤ 99 → All (λ r. r.created_at ≤ 99) (select (is_child "c1") (closed_children n))
unfolding select same_text? str_eq
children_are_older zero h = tt
children_are_older (suc n) h = (omega (arith, h), children_are_older n (omega (arith, h)))

-- The Case is closed over the open child.
close_case_late_child_example :
    let born =
      (create_flow_run 99 "late" none "intent" none
        ((parent_flow_run_id, some "c1") ∷ [])
        crowded).0 in
    (close_case py true 100 "c1" "closed" "manager" answers born).1 ≡ closed_now
unfolding close_case close_refusal seen_open_children list_child_flow_runs oldest_first insert_run
    select case_has_unresolved_approval exists every unreconciled_criteria parse_completion_criteria
    parsed_criteria single is_resolved criterion_resolved claimed_criterion rework_outstanding
    last_review list_flow_events get_flow_run first is_closed_status same_entity same_text? strip
    str_eq python
close_case_late_child_example =
    close_case_late_child py true 99 100 "c1" "closed" "manager" "late" none "intent" none answers
      crowded (ne_of_str_eq "late" "c1" refl) (omega arith) (children_are_older 50 (omega arith))

abbrev pub note : ℕ → FlowEvent
note n = record {
  id = n;
  flow_run_id = "c1";
  event_type = flow_created;
  actor = "manager";
  from_state = none;
  to_state = none;
  entity_type = none;
  entity_id = none;
  payload = none;
  created_at = 1;
}

-- n events of the Case.
abbrev pub notes : ℕ → List FlowEvent
notes zero = []
notes (suc n) = note n ∷ notes n

abbrev pub full_ledger : Ledger
full_ledger = ledger_of (case_run ∷ []) (notes 500) []

close_case_late_rework_example :
    let asked =
      (append_flow_event 7 "c1" review_rework_requested "reviewer" none none none none none
        full_ledger).0 in
    (close_case py true 9 "c1" "closed" "manager" answers asked).1
    ≡ (close_case py true 9 "c1" "closed" "manager" answers full_ledger).1
unfolding select str_eq
close_case_late_rework_example =
    close_case_late_rework py true 7 9 "c1" "closed" "manager" "reviewer" none none none answers
      full_ledger (omega arith)
