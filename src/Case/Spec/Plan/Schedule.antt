-- ===== src/Case/Spec/Plan/Schedule.antt =====
-- The schedule that _topological_order of src/control/db.py returns: what its loop keeps true.
use ai_team.Prelude.{
  ℕ, ◌+◌, String, ◌≡◌, refl, sym, ap, subst, ◌∙◌, inl, inr, true, false, ◌||◌, List, [], ◌∷◌, ◌++◌,
  arith, ◌==◌, if◌then◌else◌, str_eq, eq_of_str_eq, str_eq_refl, Bool-cases, All, length, exists,
  exists-append, All-append, member, Distinct,
}
use ai_team.Case.Spec.Plan.{build, no_edges, Sort, relax}
use ai_team.Case.Spec.Plan.Degrees.{
  str_eq_sym, count, relaxed, relax-degree, relax-order, graph-count,
}
use ai_team.Case.Spec.Plan.Fuel.{sorted_graph-Known}

pub member-append :
    (x : String) (xs ys : List String) → member x (xs ++ ys) ≡ (member x xs || member x ys)
unfolding member
member-append x xs ys = exists-append (λ y. str_eq y x) xs ys

pub Distinct-append :
    (xs : List String) (x : String) → Distinct xs → member x xs ≡ false → Distinct (xs ++ x ∷ [])
unfolding member exists
Distinct-append [] x h new = (refl, tt)
Distinct-append (y ∷ ys) x (fresh, h) new =
    let turned = str_eq_sym y x in
    (
      rw (member-append y ys (x ∷ [])) (ground (arith, fresh, new, turned)),
      Distinct-append ys x h (ground (arith, new)),
    )

append_assoc : (xs ys zs : List String) → xs ++ (ys ++ zs) ≡ (xs ++ ys) ++ zs
append_assoc [] ys zs = refl
append_assoc (x ∷ xs) ys zs = ap (λ l. x ∷ l) (append_assoc xs ys zs)

-- What the marks of the keys keep to: a key that is ready or in the order waits for nothing, is
-- there once, and every key that waits for nothing is there.
pub record Marked (keys : List String) (degree : String → ℕ) (marked : List String) : Type 0 where
  pub settled : (x : String) → member x marked ≡ true → degree x ≡ 0
  pub distinct : Distinct marked
  pub complete : (x : String) → member x keys ≡ true → degree x ≡ 0 → member x marked ≡ true
  pub known : All (λ k. member k keys ≡ true) marked

abbrev pub MarksOf : List String → Sort → Type 0
MarksOf keys s = Marked keys s.indegree (s.order ++ s.ready)

relaxed-quiet :
    (keys : List String) (child : String) (s : Sort)
    → (s.indegree child == 1) ≡ false
    → MarksOf keys s
    → MarksOf keys (relaxed child s)
relaxed-quiet keys child s many m = rw many (record {
  settled = λ x h. ground (arith, m.settled x h);
  distinct = m.distinct;
  complete = λ x k h. m.complete x k (elim (Bool-cases (str_eq x child)) [
    | inl same ↦ ground (arith, same, h, many, ap s.indegree (eq_of_str_eq x child same))
    | inr other ↦ ground (arith, other, h)
  ]);
  known = m.known;
})

relaxed-last :
    (keys : List String) (child : String) (s : Sort)
    → (s.indegree child == 1) ≡ true
    → member child keys ≡ true
    → MarksOf keys s
    → MarksOf keys (relaxed child s)
relaxed-last keys child s one there m =
    let marked = s.order ++ s.ready in
    let whole = append_assoc s.order s.ready (child ∷ []) in
    let grown : (x : String)
        → member x (s.order ++ (s.ready ++ child ∷ [])) ≡ (member x marked || str_eq child x) =
      λ x.
        ap (member x) whole
        ∙ member-append x marked (child ∷ [])
        ∙ unfold member exists in ground arith in
    let was_one : s.indegree child ≡ 1 = ground (arith, one) in
    let new : member child marked ≡ false = elim (Bool-cases (member child marked)) [
      | inr new ↦ new
      | inl old ↦ absurd (ground (arith, was_one, m.settled child old))
    ] in
    rw one (record {
      settled = λ x h. elim (Bool-cases (str_eq x child)) [
        | inl same ↦ ground (arith, same, was_one, ap s.indegree (eq_of_str_eq x child same))
        | inr other ↦
            ground
              (arith, other, m.settled x (ground (arith, h, grown x, str_eq_sym x child, other)))
      ];
      distinct = subst Distinct (sym whole) (Distinct-append marked child m.distinct new);
      complete = λ x k h. grown x ∙ elim (Bool-cases (str_eq x child)) [
        | inl same ↦ ground (arith, same, str_eq_sym x child)
        | inr other ↦ ground (arith, m.complete x k (ground (arith, other, h)))
      ];
      known =
          subst (All (λ k. member k keys ≡ true)) (sym whole)
            (All-append _ marked (child ∷ []) m.known (there, tt));
    })

relax-MarksOf :
    (keys children : List String) (s : Sort)
    → All (λ c. member c keys ≡ true) children
    → MarksOf keys s
    → MarksOf keys (relax children s)
unfolding relax
relax-MarksOf keys [] s h m = m
relax-MarksOf keys (c ∷ cs) s (there, h) m =
    relax-MarksOf keys cs (relaxed c s) h (elim (Bool-cases (s.indegree c == 1)) [
      | inl one ↦ relaxed-last keys c s one there m
      | inr many ↦ relaxed-quiet keys c s many m
    ])

-- How many of the prerequisites are not in the order.
unfoldable pub missing : List String → List String → ℕ
missing order [] = 0
missing order (d ∷ ds) = (if member d order then 0 else 1) + missing order ds

missing-pop :
    (order : List String) (node : String) (ds : List String)
    → member node order ≡ false
    → missing (order ++ node ∷ []) ds + count node ds ≡ missing order ds
unfolding missing count member exists
missing-pop order node [] new = omega arith
missing-pop order node (d ∷ ds) new =
    let rest = missing-pop order node ds new in
    let grown = member-append d order (node ∷ []) in
    elim (Bool-cases (str_eq node d)) [
      | inr other ↦ ground (arith, rest, grown, other)
      | inl same ↦
          let gone = subst (λ y. member y order ≡ false) (eq_of_str_eq node d same) new in
          ground (arith, rest, grown, same, gone)
    ]

pub missing-none :
    (order ds : List String) → missing order ds ≡ 0 → All (λ d. member d order ≡ true) ds
unfolding missing
missing-none order [] h = tt
missing-none order (d ∷ ds) h = (ground (arith, h), missing-none order ds (ground (arith, h)))

pub missing-nil : (ds : List String) → missing [] ds ≡ length ds
unfolding missing member exists
missing-nil [] = refl
missing-nil (d ∷ ds) = omega (arith, missing-nil ds)

-- Every key stands behind its prerequisites: they are among `seen`, or before it in the list.
abbrev pub IsScheduled : (String → List String) → List String → List String → Type 0
IsScheduled deps seen [] = Unit {0}
IsScheduled deps seen (x ∷ xs) =
    All (λ d. member d seen ≡ true) (deps x) × IsScheduled deps (seen ++ x ∷ []) xs

pub append_nil : (xs : List String) → xs ++ [] ≡ xs
append_nil [] = refl
append_nil (x ∷ xs) = ap (λ l. x ∷ l) (append_nil xs)

IsScheduled-append :
    (deps : String → List String) (seen xs : List String) (x : String)
    → IsScheduled deps seen xs
    → All (λ d. member d (seen ++ xs) ≡ true) (deps x)
    → IsScheduled deps seen (xs ++ x ∷ [])
IsScheduled-append deps seen [] x h last =
    (subst (λ l. All (λ d. member d l ≡ true) (deps x)) (append_nil seen) last, tt)
IsScheduled-append deps seen (y ∷ ys) x (here, h) last = (
  here,
  IsScheduled-append deps (seen ++ y ∷ []) ys x h
      (subst (λ l. All (λ d. member d l ≡ true) (deps x)) (append_assoc seen (y ∷ []) ys) last),
)

Distinct-middle :
    (xs : List String) (x : String) (ys : List String)
    → Distinct (xs ++ x ∷ ys)
    → member x xs ≡ false
unfolding member exists
Distinct-middle [] x ys h = refl
Distinct-middle (y ∷ xs) x ys (fresh, h) =
    let later = Distinct-middle xs x ys h in
    let apart = sym (member-append y xs (x ∷ ys)) ∙ fresh in
    ground (arith, later, apart, str_eq_sym x y)

-- What the `while` loop keeps true.
pub record Sorting (keys : List String) (deps : String → List String) (s : Sort) : Type 0 where
  pub degrees : (x : String) → member x keys ≡ true → s.indegree x ≡ missing s.order (deps x)
  pub marks : MarksOf keys s
  pub scheduled : IsScheduled deps [] s.order

All-at :
    (P : String → Type 0) (xs : List String) (x : String) (ys : List String)
    → All P (xs ++ x ∷ ys)
    → P x
All-at P [] x ys (h, hs) = h
All-at P (y ∷ xs) x ys (h, hs) = All-at P xs x ys hs

pub turn-Sorting :
    (keys : List String) (deps : String → List String) (s : Sort) (node : String)
    (rest : List String)
    → Distinct keys
    → s.ready ≡ node ∷ rest
    → Sorting keys deps s
    → Sorting keys deps (
        relax
          ((build deps keys no_edges).dependents node)
          (record s { ready = rest; order = s.order ++ node ∷ [] }))
turn-Sorting keys deps s node rest once more i =
    let children = (build deps keys no_edges).dependents node in
    let popped : Sort = record s { ready = rest; order = s.order ++ node ∷ [] } in
    let marks : Marked keys s.indegree (s.order ++ node ∷ rest) =
      subst (λ l. Marked keys s.indegree (s.order ++ l)) more i.marks in
    let new = Distinct-middle s.order node rest marks.distinct in
    let is_key = All-at (λ k. member k keys ≡ true) s.order node rest marks.known in
    let here : member node (s.order ++ node ∷ rest) ≡ true =
      member-append node s.order (node ∷ rest)
      ∙ unfold member exists in ground (arith, str_eq_refl node) in
    let free : missing s.order (deps node) ≡ 0 =
      sym (i.degrees node is_key) ∙ marks.settled node here in
    let same_order = relax-order children popped in
    record {
      degrees = λ x k.
          let counted = graph-count keys deps x node once k in
          let fewer = missing-pop s.order node (deps x) new in
          relax-degree children popped x
          ∙ ground (arith, i.degrees x k, counted, fewer, ap (λ o. missing o (deps x)) same_order);
      marks =
          relax-MarksOf keys children popped (sorted_graph-Known keys deps node)
            (subst (Marked keys s.indegree) (append_assoc s.order (node ∷ []) rest) marks);
      scheduled = subst (IsScheduled deps []) (sym same_order) (
          IsScheduled-append deps [] s.order node i.scheduled
            (missing-none s.order (deps node) free));
    }
