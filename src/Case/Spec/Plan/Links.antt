-- ===== src/Case/Spec/Plan/Links.antt =====
-- The links that a decomposition makes: collect_keys and link_tasks, the loops of decompose_case of
-- src/control/db.py, against the tasks that it was given.
use ai_team.Prelude.{
  ℕ, String, ◌≡◌, refl, sym, ap, subst, ◌∙◌, ◌⊎◌, inl, inr, Bool, true, false, ◌||◌, not, Option,
  none, some, List, [], ◌∷◌, ◌++◌, map, arith, str_eq, eq_of_str_eq, str_eq_refl, Bool-cases,
  Option-cases, All, All-map2, select, exists, first, first-append, first-append_miss,
  first-append_found, first-none-exists, member, Distinct, strip, is_blank,
}
use ai_team.Case.{task, FlowLink, Ledger}
use ai_team.Case.Flow.{create_flow_link, is_link, same_entity}
use ai_team.Case.Spec.Plan.{Planned, Plan, edges, collect_keys, keys_of, deps_of, link_tasks}

-- What a task asks for: its key, and the keys of what it depends on, blank ones left out.
abbrev pub key_of : Planned → String
key_of t = strip t.task_key

abbrev pub wanted : Planned → List String
wanted t = map strip (select (λ d. not (is_blank d)) t.depends_on)

abbrev pub entry : Planned → String × List String × Planned
entry t = (key_of t, wanted t, t)

edges-wanted : (ds : List String) → edges ds ≡ map strip (select (λ d. not (is_blank d)) ds)
unfolding edges select
edges-wanted [] = refl
edges-wanted (d ∷ ds) = ground (arith, edges-wanted ds)

plan_assoc :
    (xs : Plan) (e : String × List String × Planned) (ys : Plan)
    → (xs ++ e ∷ []) ++ ys ≡ xs ++ e ∷ ys
plan_assoc [] e ys = refl
plan_assoc (x ∷ xs) e ys = ap (λ zs. x ∷ zs) (plan_assoc xs e ys)

plan_nil : (xs : Plan) → xs ++ [] ≡ xs
plan_nil [] = refl
plan_nil (x ∷ xs) = ap (λ zs. x ∷ zs) (plan_nil xs)

-- A plan that is accepted has every task, in order.
pub collect_keys-entries :
    (ts : List Planned) (plan : Plan)
    → (collect_keys ts plan).1 ≡ none
    → (collect_keys ts plan).0 ≡ plan ++ map entry ts
unfolding collect_keys
collect_keys-entries [] plan kept = sym (plan_nil plan)
collect_keys-entries (t ∷ ts) plan kept =
    let bad = str_eq (key_of t) "" || exists (λ x. str_eq x.0 (key_of t)) plan in
    elim (Bool-cases bad) [
      | inl refused ↦ absurd (ground (arith, refused, kept))
      | inr fine ↦
          let e : String × List String × Planned = (key_of t, edges t.depends_on, t) in
          rw fine (
            collect_keys-entries ts (plan ++ e ∷ []) (ground (arith, fine, kept))
            ∙ plan_assoc plan e (map entry ts)
            ∙ ap (λ ds. plan ++ (key_of t, ds, t) ∷ map entry ts) (edges-wanted t.depends_on))
    ]

str_eq_flip : (a b : String) → str_eq a b ≡ false → str_eq b a ≡ false
str_eq_flip a b h = elim (Bool-cases (str_eq b a)) [
  | inr other ↦ other
  | inl same ↦
      absurd
        (ground (arith, h, subst (λ x. str_eq x b ≡ true) (eq_of_str_eq b a same) (str_eq_refl b)))
]

-- The keys behind a key are other ones.
other_keys :
    (key : String) (plan : Plan)
    → member key (keys_of plan) ≡ false
    → All (λ e. str_eq e.0 key ≡ false) plan
unfolding member exists
other_keys key [] h = tt
other_keys key (e ∷ es) h = (ground (arith, h), other_keys key es (ground (arith, h)))

-- The prerequisites of a key are those of its task.
pub deps_of-entries :
    (plan : Plan) → Distinct (keys_of plan) → All (λ e. deps_of plan e.0 ≡ e.1) plan
unfolding deps_of
deps_of-entries [] once = tt
deps_of-entries ((k, ds, t) ∷ plan) (new, once) = (
  ground (arith, str_eq_refl k),
  All-map2 (λ e. str_eq e.0 k ≡ false) (λ e. deps_of plan e.0 ≡ e.1)
      (λ e. deps_of ((k, ds, t) ∷ plan) e.0 ≡ e.1) plan
      (λ e other found. ground (arith, str_eq_flip e.0 k other, found)) (other_keys k plan new)
      (deps_of-entries plan once),
)

-- The link of a task in the Case `f`.
abbrev pub is_task_link : String → String → FlowLink → Bool
is_task_link f key = is_link f task key "task_attached"

-- The Case has a link of the task after: the one that it had, or a new one with what the task wants.
pub record Linked (f actor : String) (before after : Ledger) (e : String × List String × Planned)
    : Type 0 where
  pub link : FlowLink
  pub there : first (is_task_link f e.0) after.links ≡ some link
  pub old_or_new :
      (first (is_task_link f e.0) before.links ≡ some link)
      ⊎ ((first (is_task_link f e.0) before.links ≡ none)
          × ((link.depends_on ≡ e.1)
              × ((link.objective ≡ e.2.objective) × (link.created_by ≡ some actor))))

-- One call of create_flow_link for a task.
module _ (now : ℕ) (f key actor : String) (objective : Option String) (deps : List String)
    (metadata : List (String × String)) (l : Ledger) where
  abbrev new_link : FlowLink
  new_link = record {
    id = l.next_link;
    flow_run_id = f;
    entity_type = task;
    entity_id = key;
    role = "task_attached";
    created_at = now;
    created_by = some actor;
    objective = objective;
    depends_on = deps;
    metadata = metadata;
  }

  abbrev linked : Ledger
  linked =
      (create_flow_link now f task key "task_attached" (some actor) objective deps metadata l).0

  linked-new : first (is_task_link f key) l.links ≡ none → linked.links ≡ l.links ++ new_link ∷ []
  unfolding create_flow_link
  linked-new new = ground (arith, new)

  linked-old : (k : FlowLink) → first (is_task_link f key) l.links ≡ some k → linked.links ≡ l.links
  unfolding create_flow_link
  linked-old k found = ground (arith, found)

  -- What is found before is found after.
  linked-found :
      (p : FlowLink → Bool) (k : FlowLink)
      → first p l.links ≡ some k
      → first p linked.links ≡ some k
  linked-found p k there = elim (Option-cases (first (is_task_link f key) l.links)) [
    | inr (old, found) ↦ ap (first p) (linked-old old found) ∙ there
    | inl new ↦ ap (first p) (linked-new new) ∙ first-append_found p l.links (new_link ∷ []) k there
  ]

  linked-other :
      (other : String)
      → str_eq key other ≡ false
      → first (is_task_link f other) linked.links ≡ first (is_task_link f other) l.links
  linked-other other apart = elim (Option-cases (first (is_task_link f key) l.links)) [
    | inr (old, found) ↦ ap (first (is_task_link f other)) (linked-old old found)
    | inl new ↦
        ap (first (is_task_link f other)) (linked-new new)
        ∙ first-append_miss (is_task_link f other) l.links new_link (ground (arith, apart))
  ]

  new_link-is_mine : is_task_link f key new_link ≡ true
  unfolding same_entity
  new_link-is_mine = ground (arith, str_eq_refl f, str_eq_refl key, str_eq_refl "task_attached")

  linked-Linked : (t : Planned) → t.objective ≡ objective → Linked f actor l linked (key, deps, t)
  linked-Linked t same = elim (Option-cases (first (is_task_link f key) l.links)) [
    | inr (old, found) ↦ record {
      link = old;
      there = linked-found (is_task_link f key) old found;
      old_or_new = inl found;
    }
    | inl new ↦ record {
      link = new_link;
      there =
          ap (first (is_task_link f key)) (linked-new new)
          ∙ first-append (is_task_link f key) l.links (new_link ∷ [])
              (first-none-exists (is_task_link f key) l.links new)
          ∙ (unfold first in ground (arith, new_link-is_mine));
      old_or_new = inr (new, (refl, (sym same, refl)));
    }
  ]

link_tasks-found :
    (p : FlowLink → Bool) (now : ℕ) (f spec actor : String) (plan : Plan) (l : Ledger)
    (k : FlowLink)
    → first p l.links ≡ some k
    → first p (link_tasks now f spec actor plan l).0.links ≡ some k
unfolding link_tasks
link_tasks-found p now f spec actor [] l k there = there
link_tasks-found p now f spec actor ((key, ds, t) ∷ plan) l k there =
    link_tasks-found p now f spec actor plan _ k
      (linked-found now f key actor t.objective ds (("spec_id", spec) ∷ t.hints) l p k there)

-- Every task of a plan of distinct keys is linked.
pub link_tasks-Linked :
    (now : ℕ) (f spec actor : String) (plan : Plan) (l : Ledger)
    → Distinct (keys_of plan)
    → All (Linked f actor l (link_tasks now f spec actor plan l).0) plan
unfolding link_tasks
link_tasks-Linked now f spec actor [] l once = tt
link_tasks-Linked now f spec actor ((key, ds, t) ∷ plan) l (new, once) =
    let metadata = ("spec_id", spec) ∷ t.hints in
    let mid = linked now f key actor t.objective ds metadata l in
    let after = (link_tasks now f spec actor plan mid).0 in
    let here = linked-Linked now f key actor t.objective ds metadata l t refl in
    (
      record {
        link = here.link;
        there =
            link_tasks-found (is_task_link f key) now f spec actor plan mid here.link here.there;
        old_or_new = here.old_or_new;
      },
      All-map2 (λ e. str_eq e.0 key ≡ false) (Linked f actor mid after) (Linked f actor l after)
          plan
          (λ e other r. record {
            link = r.link;
            there = r.there;
            old_or_new =
                subst
                  (λ x.
                    (x ≡ some r.link)
                    ⊎ ((x ≡ none)
                        × ((r.link.depends_on ≡ e.1)
                            × ((r.link.objective ≡ e.2.objective)
                                × (r.link.created_by ≡ some actor)))))
                  (linked-other now f key actor t.objective ds metadata l e.0
                    (str_eq_flip e.0 key other))
                  r.old_or_new;
          })
          (other_keys key plan new) (link_tasks-Linked now f spec actor plan mid once),
    )
