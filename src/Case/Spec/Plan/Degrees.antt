-- ===== src/Case/Spec/Plan/Degrees.antt =====
-- What the loops of _topological_order of src/control/db.py count: the degrees of the graph, and
-- which keys the loop over the children marks as ready.
use ai_team.Prelude.{
  ℕ, ◌+◌, ◌-◌, String, ◌≡◌, refl, sym, ap, subst, ◌∙◌, inl, inr, true, false, List, [], ◌∷◌, ◌++◌,
  arith, ◌==◌, if◌then◌else◌, str_eq, eq_of_str_eq, str_eq_refl, Bool-cases, length, exists, member,
  Distinct,
}
use ai_team.Case.Spec.Plan.{Graph, changed, add_edge, add_edges, build, no_edges, Sort, relax}

unfoldable pub count : String → List String → ℕ
count x [] = 0
count x (y ∷ ys) = (if str_eq x y then 1 else 0) + count x ys

count-append : (x : String) (ys zs : List String) → count x (ys ++ zs) ≡ count x ys + count x zs
unfolding count
count-append x [] zs = omega arith
count-append x (y ∷ ys) zs = ground (arith, count-append x ys zs)

pub str_eq_sym : (s t : String) → str_eq s t ≡ str_eq t s
str_eq_sym s t = elim (Bool-cases (str_eq s t)) [
  | inl same ↦ same ∙ sym (rw (eq_of_str_eq s t same) (str_eq_refl t))
  | inr other ↦ elim (Bool-cases (str_eq t s)) [
    | inr both ↦ other ∙ sym both
    | inl same ↦
        absurd (ground (arith, other, ap (str_eq s) (eq_of_str_eq t s same), str_eq_refl s))
  ]
]

add_edges-degree :
    (k : String) (ps : List String) (g : Graph) (x : String)
    → (add_edges k ps g).indegree x ≡ g.indegree x + (if str_eq x k then length ps else 0)
unfolding add_edges add_edge
add_edges-degree k [] g x = ground arith
add_edges-degree k (p ∷ ps) g x = ground (arith, add_edges-degree k ps (add_edge k p g) x)

add_edges-count :
    (k : String) (ps : List String) (g : Graph) (x p : String)
    → count x ((add_edges k ps g).dependents p)
      ≡ count x (g.dependents p) + (if str_eq x k then count p ps else 0)
unfolding add_edges add_edge count
add_edges-count k [] g x p = ground arith
add_edges-count k (q ∷ qs) g x p =
    let rest = add_edges-count k qs (add_edge k q g) x p in
    elim (Bool-cases (str_eq p q)) [
      | inl same ↦ ground (arith, rest, same, count-append x (g.dependents p) (k ∷ []))
      | inr other ↦ ground (arith, rest, other)
    ]

build-degree :
    (deps : String → List String) (ks : List String) (g : Graph) (x : String)
    → Distinct ks
    → (build deps ks g).indegree x ≡ g.indegree x + (if member x ks then length (deps x) else 0)
unfolding build member exists
build-degree deps [] g x h = ground arith
build-degree deps (k ∷ ks) g x (fresh, h) =
    let rest = build-degree deps ks (add_edges k (deps k) g) x h in
    let here = add_edges-degree k (deps k) g x in
    let turned = str_eq_sym k x in
    elim (Bool-cases (str_eq k x)) [
      | inr other ↦ ground (arith, rest, here, other, turned)
      | inl same ↦
          let e = eq_of_str_eq k x same in
          let gone = subst (λ y. member y ks ≡ false) e fresh in
          ground (arith, rest, here, same, turned, gone, ap (λ y. length (deps y)) e)
    ]

build-count :
    (deps : String → List String) (ks : List String) (g : Graph) (x p : String)
    → Distinct ks
    → count x ((build deps ks g).dependents p)
      ≡ count x (g.dependents p) + (if member x ks then count p (deps x) else 0)
unfolding build member exists
build-count deps [] g x p h = ground arith
build-count deps (k ∷ ks) g x p (fresh, h) =
    let rest = build-count deps ks (add_edges k (deps k) g) x p h in
    let here = add_edges-count k (deps k) g x p in
    let turned = str_eq_sym k x in
    elim (Bool-cases (str_eq k x)) [
      | inr other ↦ ground (arith, rest, here, other, turned)
      | inl same ↦
          let e = eq_of_str_eq k x same in
          let gone = subst (λ y. member y ks ≡ false) e fresh in
          ground (arith, rest, here, same, turned, gone, ap (λ y. count p (deps y)) e)
    ]

-- The state that a turn of the loop over the children leaves.
abbrev pub relaxed : String → Sort → Sort
relaxed child s = record s {
  indegree = changed child (λ n. n - 1) s.indegree;
  ready = if s.indegree child == 1 then s.ready ++ child ∷ [] else s.ready;
}

pub relax-degree :
    (children : List String) (s : Sort) (x : String)
    → (relax children s).indegree x ≡ s.indegree x - count x children
unfolding relax count
relax-degree [] s x = omega arith
relax-degree (c ∷ cs) s x = ground (arith, relax-degree cs (relaxed c s) x)

pub relax-order : (children : List String) (s : Sort) → (relax children s).order ≡ s.order
unfolding relax
relax-order [] s = refl
relax-order (c ∷ cs) s = relax-order cs (relaxed c s)

pub graph-degree :
    (keys : List String) (deps : String → List String) (x : String)
    → Distinct keys
    → member x keys ≡ true
    → (build deps keys no_edges).indegree x ≡ length (deps x)
graph-degree keys deps x once there = ground (arith, build-degree deps keys no_edges x once, there)

pub graph-count :
    (keys : List String) (deps : String → List String) (x p : String)
    → Distinct keys
    → member x keys ≡ true
    → count x ((build deps keys no_edges).dependents p) ≡ count p (deps x)
unfolding count
graph-count keys deps x p once there =
    ground (arith, build-count deps keys no_edges x p once, there)
