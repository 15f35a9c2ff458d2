-- ===== src/Case/Spec/Plan/Decompose.antt =====
-- The gates and the writes of decompose_case of src/control/db.py.
use ai_team.Prelude.{
  All-map, ℕ, String, ◌≡◌, refl, sym, ap, subst, ◌∙◌, ◌⊎◌, inl, inr, Bool, true, false, ◌&&◌, ◌||◌,
  none, some, List, [], ◌∷◌, ◌++◌, map, arith, str_eq, Bool-cases, Option-cases, All, length,
  exists, map-update_where, member, Distinct, strip,
}
use ai_team.Case.{Ledger, task}
use ai_team.Case.Flow.{create_flow_link, append_flow_event, is_run, update_flow_stage}
use ai_team.Case.Spec.{spec_is_approved}
use ai_team.Case.Spec.Plan.{
  Planned, Plan, Decomposed, decomposed, keys_of, deps_of, edges, collect_keys, unknown_edge,
  topological_order, link_tasks, write_plan, decompose_plan, decompose_case,
}
use ai_team.Case.Spec.Plan.Links.{
  entry, collect_keys-entries, deps_of-entries, Linked, link_tasks-Linked,
}
use ai_team.Case.Spec.Plan.Order.{topological_order_sound}
use ai_team.Case.Spec.Plan.Schedule.{IsScheduled, Distinct-append}

keys-append :
    (plan : Plan) (e : String × List String × Planned)
    → keys_of (plan ++ e ∷ []) ≡ keys_of plan ++ e.0 ∷ []
keys-append [] e = refl
keys-append (x ∷ xs) e = ap (λ ks. x.0 ∷ ks) (keys-append xs e)

keys-member :
    (key : String) (plan : Plan) → exists (λ e. str_eq e.0 key) plan ≡ member key (keys_of plan)
unfolding member exists
keys-member key [] = refl
keys-member key (e ∷ es) = ap (λ b. str_eq e.0 key || b) (keys-member key es)

collect_keys-Distinct :
    (ts : List Planned) (plan : Plan)
    → Distinct (keys_of plan)
    → (collect_keys ts plan).1 ≡ none
    → Distinct (keys_of (collect_keys ts plan).0)
unfolding collect_keys
collect_keys-Distinct [] plan once kept = once
collect_keys-Distinct (t ∷ ts) plan once kept =
    let key = strip t.task_key in
    let e : String × List String × Planned = (key, edges t.depends_on, t) in
    elim (Bool-cases (str_eq key "" || exists (λ x. str_eq x.0 key) plan)) [
      | inl bad ↦ absurd (ground (arith, bad, kept))
      | inr fine ↦
          let new : member key (keys_of plan) ≡ false =
            sym (keys-member key plan) ∙ ground (arith, fine) in
          let grown =
            subst Distinct (sym (keys-append plan e))
              (Distinct-append (keys_of plan) key once new) in
          rw fine (collect_keys-Distinct ts (plan ++ e ∷ []) grown (ground (arith, fine, kept)))
    ]

-- The ids of the Cases, which no write of a plan changes.
abbrev ids : Ledger → List String
ids l = map (λ r. r.flow_run_id) l.runs

link_tasks-runs :
    (now : ℕ) (f spec actor : String) (plan : Plan) (l : Ledger)
    → (link_tasks now f spec actor plan l).0.runs ≡ l.runs
unfolding link_tasks create_flow_link
link_tasks-runs now f spec actor [] l = refl
link_tasks-runs now f spec actor ((k, ds, t) ∷ plan) l =
    let linked =
      (create_flow_link now f task k "task_attached" (some actor) t.objective ds
        (("spec_id", spec) ∷ t.hints) l).0 in
    link_tasks-runs now f spec actor plan linked ∙ ground arith

write_plan-ids :
    (show : ℕ → String) (listing : List String → String) (now : ℕ) (f spec actor : String)
    (order : List String) (plan : Plan) (l : Ledger)
    → ids (write_plan show listing now f spec actor order plan l).0 ≡ ids l
unfolding write_plan update_flow_stage append_flow_event
write_plan-ids show listing now f spec actor order plan l =
    map-update_where (λ r. r.flow_run_id) (is_run f) _ _ (λ r. refl)
    ∙ ap (map (λ r. r.flow_run_id)) (link_tasks-runs now f spec actor plan l)

abbrev pub is_decomposed : Decomposed → Bool
is_decomposed (decomposed ks order links) = true
is_decomposed _ = false

-- The tasks of a decomposition, each with its key and the keys that it depends on.
abbrev pub plan_of : List Planned → Plan
plan_of tasks = map entry tasks

-- What a decomposition that was made says of its tasks, and what it writes for them.
pub record Made (f actor : String) (plan : Plan) (before : Ledger) (after : Ledger × Decomposed)
    : Type 0 where
  pub order : List String
  pub link_ids : List ℕ
  pub answer : after.1 ≡ decomposed (keys_of plan) order link_ids
  pub distinct : Distinct (keys_of plan)
  pub once : Distinct order
  pub of_keys : All (λ k. member k (keys_of plan) ≡ true) order
  pub prerequisites : All (λ e. deps_of plan e.0 ≡ e.1) plan
  pub scheduled : IsScheduled (deps_of plan) [] order
  pub whole : length order ≡ length (keys_of plan)
  pub attached : All (Linked f actor before after.0) plan
  pub no_new_case : ids after.0 ≡ ids before

write_plan-Linked :
    (show : ℕ → String) (listing : List String → String) (now : ℕ) (f spec actor : String)
    (order : List String) (plan : Plan) (l : Ledger)
    → Distinct (keys_of plan)
    → All (Linked f actor l (write_plan show listing now f spec actor order plan l).0) plan
unfolding write_plan update_flow_stage append_flow_event
write_plan-Linked show listing now f spec actor order plan l once =
    All-map (Linked f actor l (link_tasks now f spec actor plan l).0) _ plan
      (λ e k. record { link = k.link; there = k.there; old_or_new = k.old_or_new })
      (link_tasks-Linked now f spec actor plan l once)

decompose_plan-Made :
    (show : ℕ → String) (listing : List String → String) (now : ℕ) (f spec actor : String)
    (plan : Plan) (l : Ledger)
    → Distinct (keys_of plan)
    → let after = decompose_plan show listing now f spec actor plan l in
      ((is_decomposed after.1 ≡ false) × (after.0 ≡ l)) ⊎ Made f actor plan l after
unfolding decompose_plan
decompose_plan-Made show listing now f spec actor plan l once =
    elim (Option-cases (unknown_edge (keys_of plan) plan)) [
      | inr (e, unknown) ↦ inl (ground (arith, unknown), ground (arith, unknown))
      | inl closed ↦ elim (Option-cases (topological_order (keys_of plan) (deps_of plan))) [
        | inl cyclic ↦ inl (ground (arith, closed, cyclic), ground (arith, closed, cyclic))
        | inr (order, sorted) ↦
            let (schedule, distinct, known, sized) =
              topological_order_sound (keys_of plan) (deps_of plan) order once sorted in
            let written = write_plan show listing now f spec actor order plan l in
            let done : decompose_plan show listing now f spec actor plan l ≡ written =
              ground (arith, closed, sorted) in
            inr (record {
              order = order;
              link_ids = (link_tasks now f spec actor plan l).1;
              answer = ap (λ x. x.1) done ∙ unfold write_plan in refl;
              distinct = once;
              once = distinct;
              of_keys = known;
              prerequisites = deps_of-entries plan once;
              scheduled = schedule;
              whole = sized;
              attached =
                  subst (λ x. All (Linked f actor l x.0) plan) (sym done)
                    (write_plan-Linked show listing now f spec actor order plan l once);
              no_new_case =
                  ap (λ x. ids x.0) done
                  ∙ write_plan-ids show listing now f spec actor order plan l;
            })
      ]
    ]

-- A refusal of decompose_case leaves the ledger as it is. A decomposition is made only with the flag on
-- and an approved spec, and it is made of every task: the stripped keys are distinct, the order has all of
-- them once, each behind the stripped keys that its task depends on, blank ones left out; each task has a
-- link in the Case, the one that it had or a new one with what it depends on, its objective and the actor;
-- and no Case comes or goes.
pub decompose_case_lem :
    (enabled : Bool) (show : ℕ → String) (listing : List String → String) (now : ℕ)
    (f spec : String) (tasks : List Planned) (actor : String) (l : Ledger)
    → let after = decompose_case enabled show listing now f spec tasks actor l in
      ((is_decomposed after.1 ≡ false) × (after.0 ≡ l))
      ⊎ ((enabled ≡ true)
          × (spec_is_approved f spec l ≡ true)
          × Made f actor (plan_of tasks) l after)
unfolding decompose_case
decompose_case_lem enabled show listing now f spec tasks actor l =
    elim (Bool-cases (enabled && spec_is_approved f spec l)) [
      | inr closed ↦ inl (ground (arith, closed), ground (arith, closed))
      | inl gates ↦ elim (Option-cases (collect_keys tasks []).1) [
        | inr (key, bad) ↦ inl (ground (arith, gates, bad), ground (arith, gates, bad))
        | inl fine ↦
            let plan = (collect_keys tasks []).0 in
            let made : decompose_case enabled show listing now f spec tasks actor l
                ≡ decompose_plan show listing now f spec actor plan l =
              ground (arith, gates, fine) in
            subst
              (λ after.
                ((is_decomposed after.1 ≡ false) × (after.0 ≡ l))
                ⊎ ((enabled ≡ true)
                    × (spec_is_approved f spec l ≡ true)
                    × Made f actor (plan_of tasks) l after))
              (sym made)
              (elim (decompose_plan-Made show listing now f spec actor plan l
                (collect_keys-Distinct tasks [] tt fine)) [
                  | inl refused ↦ inl refused
                  | inr written ↦ inr (
                    ground (arith, gates),
                    ground (arith, gates),
                    subst
                        (λ p.
                          Made f actor p l (decompose_plan show listing now f spec actor plan l))
                        (collect_keys-entries tasks [] fine) written,
                  )
                ])
      ]
    ]
