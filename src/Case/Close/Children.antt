-- ===== src/Case/Close/Children.antt =====
-- The children that close_case of src/control/db.py looks at: the page of list_child_flow_runs.
use ai_team.Prelude.{
  ℕ, ◌+◌, ◌≤◌, String, ◌≡◌, ◌≢◌, refl, ap, ◌∙◌, Bool, true, Option, none, some, List, [], ◌∷◌, ◌++◌,
  arith, str_eq_refl, str_eq_of_ne, same_text?, All, length, take, select, first-append_miss,
  take-append_full, select-append,
}
use ai_team.Case.{FlowRun, Ledger}
use ai_team.Case.Criteria.{Python, Entry}
use ai_team.Case.Flow.{
  parent_flow_run_id, set_field, set_fields, create_flow_run, get_flow_run, is_run, insert_run,
  oldest_first, is_child, list_child_flow_runs, list_flow_events,
}
use ai_team.Case.Close.{
  case_has_unresolved_approval, child_limit, seen_open_children, close_refusal, close_case,
}

insert_run-last :
    (r s : FlowRun) (rs : List FlowRun)
    → r.created_at ≤ s.created_at
    → insert_run r (rs ++ s ∷ []) ≡ insert_run r rs ++ s ∷ []
unfolding insert_run
insert_run-last r s [] h = ground (arith, h)
insert_run-last r s (x ∷ xs) h = ground (arith, insert_run-last r s xs h)

-- A row that is as new as any stays last.
oldest_first-last :
    (rs : List FlowRun) (s : FlowRun)
    → All (λ r. r.created_at ≤ s.created_at) rs
    → oldest_first (rs ++ s ∷ []) ≡ oldest_first rs ++ s ∷ []
unfolding oldest_first
oldest_first-last [] s h = unfold insert_run in refl
oldest_first-last (r ∷ rs) s (older, h) =
    ap (insert_run r) (oldest_first-last rs s h) ∙ insert_run-last r s (oldest_first rs) older

length-insert_run : (r : FlowRun) (rs : List FlowRun) → length (insert_run r rs) ≡ length rs + 1
unfolding insert_run
length-insert_run r [] = omega arith
length-insert_run r (x ∷ xs) = ground (arith, length-insert_run r xs)

length-oldest_first : (rs : List FlowRun) → length (oldest_first rs) ≡ length rs
unfolding oldest_first
length-oldest_first [] = refl
length-oldest_first (r ∷ rs) =
    omega (arith, length-insert_run r (oldest_first rs), length-oldest_first rs)

-- A newer child behind a full page is not in the page.
list_child_flow_runs-full :
    (f : String) (l l' : Ledger) (s : FlowRun)
    → l'.runs ≡ l.runs ++ s ∷ []
    → is_child f s ≡ true
    → child_limit ≤ length (select (is_child f) l.runs)
    → All (λ r. r.created_at ≤ s.created_at) (select (is_child f) l.runs)
    → list_child_flow_runs f child_limit l' ≡ list_child_flow_runs f child_limit l
unfolding list_child_flow_runs
list_child_flow_runs-full f l l' s grown mine full older =
    let children = select (is_child f) l.runs in
    let behind : select (is_child f) l'.runs ≡ children ++ s ∷ [] =
      ap (select (is_child f)) grown
      ∙ select-append (is_child f) l.runs (s ∷ [])
      ∙ ap (λ xs. children ++ xs) (unfold select in ground (arith, mine)) in
    ap (λ rs. take child_limit (oldest_first rs)) behind
    ∙ ap (take child_limit) (oldest_first-last children s older)
    ∙ take-append_full child_limit (oldest_first children) (s ∷ [])
        (omega (arith, full, length-oldest_first children))

-- The row of a child flow that is created with no other column set.
abbrev child_of :
    (now : ℕ) (minted : String) (task_id : Option String) (stage : String)
    (objective : Option String) (parent : String)
    → FlowRun
child_of now minted task_id stage objective parent = record {
  flow_run_id = minted;
  task_id = task_id;
  current_stage = some stage;
  objective_lock = objective;
  created_at = now;
  updated_at = none;
  approved_plan = none;
  plan_review = none;
  burn_down_items = none;
  execution_result = none;
  implementation_review = none;
  waived_findings = none;
  closure_summary = none;
  role_assignments = none;
  artifact_links = none;
  status = none;
  parent_flow_run_id = some parent;
  dispatched_by = none;
  dispatch_file = none;
  completion_criteria = none;
}

-- What close_case answers to a new row that it neither closes nor lists.
close_case-unseen :
    (py : Python) (review_emitter : Bool) (now : ℕ) (f outcome actor : String)
    (entries : List Entry) (l : Ledger) (s : FlowRun)
    → let born = record l { runs = l.runs ++ s ∷ [] } in
      list_child_flow_runs f child_limit born ≡ list_child_flow_runs f child_limit l
      → get_flow_run f born ≡ get_flow_run f l
      → (close_case py review_emitter now f outcome actor entries born).1
        ≡ (close_case py review_emitter now f outcome actor entries l).1
unfolding close_case close_refusal seen_open_children case_has_unresolved_approval list_flow_events
close_case-unseen py review_emitter now f outcome actor entries l s page found =
    ground (arith, page, found)

-- An open child can be out of sight of `close_case`: in a Case that has 50 children or more, a child
-- that is created when none of them is newer, under an id of its own, changes no answer of `close_case`,
-- though it is open.
pub close_case_late_child :
    (py : Python) (review_emitter : Bool) (now later : ℕ) (flow_run_id outcome actor : String)
    (minted : String) (task_id : Option String) (stage : String) (objective : Option String)
    (entries : List Entry) (l : Ledger)
    → minted ≢ flow_run_id
    → child_limit ≤ length (select (is_child flow_run_id) l.runs)
    → All (λ r. r.created_at ≤ now) (select (is_child flow_run_id) l.runs)
    → let born =
        (create_flow_run now minted task_id stage objective
          ((parent_flow_run_id, some flow_run_id) ∷ [])
          l).0 in
      (close_case py review_emitter later flow_run_id outcome actor entries born).1
      ≡ (close_case py review_emitter later flow_run_id outcome actor entries l).1
close_case_late_child py review_emitter now later flow_run_id outcome actor minted task_id stage
      objective entries l own full older =
    let s = child_of now minted task_id stage objective flow_run_id in
    unfold create_flow_run set_fields set_field in
    close_case-unseen py review_emitter later flow_run_id outcome actor entries l s
      (list_child_flow_runs-full flow_run_id l (record l { runs = l.runs ++ s ∷ [] }) s refl
        (unfold same_text? in str_eq_refl flow_run_id) full older)
      (unfold get_flow_run in
        first-append_miss (is_run flow_run_id) l.runs s (str_eq_of_ne minted flow_run_id own))
