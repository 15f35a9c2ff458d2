-- ===== src/Case/Spec/Plan/Fuel.antt =====
-- The `while` loop of _topological_order of src/control/db.py ends: the fuel that the model gives it
-- is enough.
use ai_team.Prelude.{
  ℕ, zero, suc, ◌+◌, ◌-◌, ◌≤◌, String, ◌≡◌, refl, sym, ap, subst, ◌∙◌, ◌⊎◌, inl, inr, true, List,
  [], ◌∷◌, ◌++◌, arith, ltb, ◌==◌, if◌then◌else◌, str_eq, eq_of_str_eq, str_eq_refl, Bool-cases,
  All, length, select, exists, length-append, All-append, member,
}
use ai_team.Case.Spec.Plan.{
  Graph, changed, add_edge, add_edges, build, no_edges, Sort, relax, drain, start, sorted_keys,
}

-- How many of the keys still wait for a prerequisite.
waiting : (String → ℕ) → List String → ℕ
waiting degree [] = 0
waiting degree (k ∷ ks) = (if ltb 0 (degree k) then 1 else 0) + waiting degree ks

-- What is left to do: the ready keys and the waiting ones.
abbrev left : List String → Sort → ℕ
left keys s = length s.ready + waiting s.indegree keys

waiting-lower :
    (degree : String → ℕ) (child : String) (keys : List String)
    → waiting (changed child (λ n. n - 1) degree) keys ≤ waiting degree keys
unfolding waiting
waiting-lower degree child [] = omega arith
waiting-lower degree child (k ∷ ks) = ground (arith, waiting-lower degree child ks)

waiting-last :
    (degree : String → ℕ) (child : String) (keys : List String)
    → degree child ≡ 1
    → member child keys ≡ true
    → 1 + waiting (changed child (λ n. n - 1) degree) keys ≤ waiting degree keys
unfolding waiting member exists
waiting-last degree child [] one there = absurd (ground (arith, there))
waiting-last degree child (k ∷ ks) one there = elim (Bool-cases (str_eq k child)) [
  | inl same ↦
      let here : degree k ≡ 1 = subst (λ x. degree x ≡ 1) (sym (eq_of_str_eq k child same)) one in
      ground (arith, same, here, waiting-lower degree child ks)
  | inr other ↦
      let later : member child ks ≡ true = ground (arith, there, other) in
      ground (arith, other, waiting-last degree child ks one later)
]

relax-left :
    (keys children : List String) (s : Sort)
    → All (λ c. member c keys ≡ true) children
    → left keys (relax children s) ≤ left keys s
unfolding relax
relax-left keys [] s h = omega arith
relax-left keys (child ∷ children) s (here, h) =
    let once : Sort = record s {
      indegree = changed child (λ n. n - 1) s.indegree;
      ready = if s.indegree child == 1 then s.ready ++ child ∷ [] else s.ready;
    } in
    let rest = relax-left keys children once h in
    let step : left keys once ≤ left keys s = elim (Bool-cases (s.indegree child == 1)) [
      | inl one ↦
          let last = waiting-last s.indegree child keys (ground (arith, one)) here in
          ground (arith, one, last, length-append s.ready (child ∷ []))
      | inr many ↦ ground (arith, many, waiting-lower s.indegree child keys)
    ] in
    omega (arith, rest, step)

pub List-cases :
    (xs : List String) → (xs ≡ []) ⊎ ((x : String) × (rest : List String) × (xs ≡ x ∷ rest))
List-cases [] = inl refl
List-cases (x ∷ xs) = inr (x, xs, refl)

drain-ends :
    (n : ℕ) (keys : List String) (dependents : String → List String) (s : Sort)
    → ((k : String) → All (λ c. member c keys ≡ true) (dependents k))
    → left keys s ≤ n
    → (drain n dependents s).ready ≡ []
unfolding drain
drain-ends zero keys dependents s known enough = elim (List-cases s.ready) [
  | inl over ↦ over
  | inr (node, rest, more) ↦ absurd (ground (arith, more, enough))
]
drain-ends (suc n) keys dependents s known enough = elim (List-cases s.ready) [
  | inl over ↦ ground (arith, over)
  | inr (node, rest, more) ↦
      let popped : Sort = record s { ready = rest; order = s.order ++ node ∷ [] } in
      let turn : drain (suc n) dependents s ≡ drain n dependents (relax (dependents node) popped) =
        ground (arith, more) in
      let fewer = relax-left keys (dependents node) popped (known node) in
      let lengths = ap length more in
      ap (λ x. x.ready) turn
      ∙ drain-ends n keys dependents (relax (dependents node) popped) known
          (omega (arith, fewer, lengths, enough))
]

-- The children in a graph are keys.
abbrev pub Known : List String → (String → List String) → Type 0
Known keys dependents = (k : String) → All (λ c. member c keys ≡ true) (dependents k)

add_edge-Known :
    (keys : List String) (k prereq : String) (g : Graph)
    → member k keys ≡ true
    → Known keys g.dependents
    → Known keys (add_edge k prereq g).dependents
unfolding add_edge
add_edge-Known keys k prereq g there known x = elim (Bool-cases (str_eq x prereq)) [
  | inl here ↦ rw here (All-append _ (g.dependents x) (k ∷ []) (known x) (there, tt))
  | inr other ↦ rw other (known x)
]

add_edges-Known :
    (keys : List String) (k : String) (ps : List String) (g : Graph)
    → member k keys ≡ true
    → Known keys g.dependents
    → Known keys (add_edges k ps g).dependents
unfolding add_edges
add_edges-Known keys k [] g there known = known
add_edges-Known keys k (prereq ∷ ps) g there known =
    add_edges-Known keys k ps (add_edge k prereq g) there
      (add_edge-Known keys k prereq g there known)

build-Known :
    (keys : List String) (deps : String → List String) (ks : List String) (g : Graph)
    → All (λ c. member c keys ≡ true) ks
    → Known keys g.dependents
    → Known keys (build deps ks g).dependents
unfolding build
build-Known keys deps [] g there known = known
build-Known keys deps (k ∷ ks) g (here, there) known =
    build-Known keys deps ks (add_edges k (deps k) g) there
      (add_edges-Known keys k (deps k) g here known)

pub All-member :
    (keys xs : List String)
    → ((c : String) → member c xs ≡ true → member c keys ≡ true)
    → All (λ c. member c keys ≡ true) xs
unfolding member exists
All-member keys [] h = tt
All-member keys (x ∷ xs) h =
    (h x (ground (arith, str_eq_refl x)), All-member keys xs (λ c m. h c (ground (arith, m))))

pub sorted_graph-Known :
    (keys : List String) (deps : String → List String)
    → Known keys (build deps keys no_edges).dependents
sorted_graph-Known keys deps =
    build-Known keys deps keys no_edges (All-member keys keys (λ c h. h)) (λ k. tt)

left-all :
    (degree : String → ℕ) (keys : List String)
    → length (select (λ k. degree k == 0) keys) + waiting degree keys ≤ length keys
unfolding waiting select
left-all degree [] = omega arith
left-all degree (k ∷ ks) = ground (arith, left-all degree ks)

-- The sort comes to its end on every graph, cyclic or not: with as much fuel as there are keys, no
-- key is left ready.
pub sorted_keys-ends :
    (keys : List String) (deps : String → List String) → (sorted_keys keys deps).ready ≡ []
unfolding sorted_keys start
sorted_keys-ends keys deps =
    drain-ends (length keys) keys (build deps keys no_edges).dependents (start keys deps)
      (sorted_graph-Known keys deps) (left-all (build deps keys no_edges).indegree keys)
