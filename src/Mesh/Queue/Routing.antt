-- ===== src/Mesh/Queue/Routing.antt =====
-- Which tasks a worker is offered: get_pending_tasks of src/control/db.py.
use mathlib.Core.List.Perm
use mathlib.Core.List.{Perm}
use ai_team.Prelude.{
  or_else, suc, zero, ◌∙◌, ℕ, ◌≤◌, String, Bool, true, ◌≡◌, ◌≢◌, refl, ◌⊎◌, inl, inr, Option, none,
  some, List, ◌∷◌, arith, All, All-select, All-take, All-map, length, length-take-le, take_all,
  select, eq_of_str_eq, same_text?, str_eq_of_ne, leb, Bool-cases, member, [],
}
use ai_team.Mesh.{ap, Task, pending, continuation_machine_sentinel}
use ai_team.Mesh.Queue.{
  take, routable, machine_clause, backend_clause, insert_by_created, order_by_created,
  get_pending_tasks,
}

-- Oldest first.
abbrev pub IsOrdered : List Task → Type 0
IsOrdered [] = Unit {0}
IsOrdered (t ∷ ts) = All (λ u. t.created_at ≤ u.created_at) ts × IsOrdered ts

insert_by_created-All {ℓ} :
    (P : Task → Type ℓ) (t : Task) (ts : List Task)
    → P t
    → All P ts
    → All P (insert_by_created t ts)
unfolding insert_by_created
insert_by_created-All P t [] h a = (h, tt)
insert_by_created-All P t (u ∷ us) h a = elim (Bool-cases (leb t.created_at u.created_at)) [
  | inl e ↦ rw e (h, a)
  | inr e ↦ rw e (a.0, insert_by_created-All P t us h a.1)
]

order_by_created-All {ℓ} :
    (P : Task → Type ℓ) (ts : List Task) → All P ts → All P (order_by_created ts)
unfolding order_by_created
order_by_created-All P [] a = tt
order_by_created-All P (t ∷ ts) a =
    insert_by_created-All P t (order_by_created ts) a.0 (order_by_created-All P ts a.1)

insert_by_created-IsOrdered :
    (t : Task) (ts : List Task) → IsOrdered ts → IsOrdered (insert_by_created t ts)
unfolding insert_by_created
insert_by_created-IsOrdered t [] s = (tt, tt)
insert_by_created-IsOrdered t (u ∷ us) s = elim (Bool-cases (leb t.created_at u.created_at)) [
  | inl e ↦
      let below : t.created_at ≤ u.created_at = ground (arith, e) in
      rw e (
        (
          below,
          All-map (λ w. u.created_at ≤ w.created_at) (λ w. t.created_at ≤ w.created_at) us
              (λ w h. omega arith) s.0,
        ),
        s,
      )
  | inr e ↦ rw e (
    insert_by_created-All (λ w. u.created_at ≤ w.created_at) t us (ground (arith, e)) s.0,
    insert_by_created-IsOrdered t us s.1,
  )
]

order_by_created-IsOrdered : (ts : List Task) → IsOrdered (order_by_created ts)
unfolding order_by_created
order_by_created-IsOrdered [] = tt
order_by_created-IsOrdered (t ∷ ts) =
    insert_by_created-IsOrdered t (order_by_created ts) (order_by_created-IsOrdered ts)

insert_by_created-perm : (t : Task) (ts : List Task) → Perm (insert_by_created t ts) (t ∷ ts)
unfolding insert_by_created
insert_by_created-perm t [] = Perm.refl (t ∷ [])
insert_by_created-perm t (u ∷ us) = elim (Bool-cases (leb t.created_at u.created_at)) [
  | inl e ↦ rw e (Perm.refl (t ∷ u ∷ us))
  | inr e ↦ rw e (Perm.trans (Perm.cons u (insert_by_created-perm t us)) (Perm.swap t u us))
]

order_by_created-perm : (ts : List Task) → Perm (order_by_created ts) ts
unfolding order_by_created
order_by_created-perm [] = Perm.refl []
order_by_created-perm (t ∷ ts) =
    Perm.trans (insert_by_created-perm t (order_by_created ts))
      (Perm.cons t (order_by_created-perm ts))

length-insert_by_created :
    (t : Task) (ts : List Task) → length (insert_by_created t ts) ≡ suc (length ts)
unfolding insert_by_created
length-insert_by_created t [] = refl
length-insert_by_created t (u ∷ us) = ground (arith, length-insert_by_created t us)

length-order_by_created : (ts : List Task) → length (order_by_created ts) ≡ length ts
unfolding order_by_created
length-order_by_created [] = refl
length-order_by_created (t ∷ ts) =
    length-insert_by_created t (order_by_created ts) ∙ ap suc (length-order_by_created ts)

IsOrdered-take : (n : ℕ) (ts : List Task) → IsOrdered ts → IsOrdered (take n ts)
IsOrdered-take zero ts s = tt
IsOrdered-take (suc n) [] s = tt
IsOrdered-take (suc n) (t ∷ ts) s =
    (All-take (λ u. t.created_at ≤ u.created_at) n ts s.0, IsOrdered-take n ts s.1)

-- What a node may be offered: a pending task, of a backend that it asked for (any, if it named
-- none), that is pinned to it or, if it accepts those, to no machine.
abbrev pub Offered : String → List String → Bool → Task → Type 0
Offered node backends accept_unpinned t =
    (t.status ≡ pending)
    × ((backends ≡ []) ⊎ (member t.backend backends ≡ true))
    × ((t.machine_id ≡ some node) ⊎ ((accept_unpinned ≡ true) × (t.machine_id ≡ none)))

abbrev Everything : Task → Type 0
Everything t = Unit {0}

All-rows : (ts : List Task) → All Everything ts
All-rows [] = tt
All-rows (t ∷ ts) = (tt, All-rows ts)

routable-Offered :
    (node : String) (backends : List String) (accept_unpinned : Bool) (t : Task)
    → node ≢ ""
    → routable (some node) backends accept_unpinned t ≡ true
    → Offered node backends accept_unpinned t
unfolding routable machine_clause backend_clause same_text?
routable-Offered node backends accept_unpinned t named h =
    ground (arith, str_eq_of_ne node "" named, eq_of_str_eq (or_else t.machine_id "") node)

-- For a node with a name, every task of the page may be offered to it, the page is ordered oldest
-- first, and it has at most `limit` tasks.
pub get_pending_tasks-Offered :
    (node : String) (backends : List String) (accept_unpinned : Bool) (limit : ℕ)
    (tasks : List Task)
    → node ≢ ""
    → let page = get_pending_tasks (some node) backends accept_unpinned limit tasks in
      All (Offered node backends accept_unpinned) page × IsOrdered page × (length page ≤ limit)
unfolding get_pending_tasks
get_pending_tasks-Offered node backends accept_unpinned limit tasks named =
    let found = select (routable (some node) backends accept_unpinned) tasks in
    (
      All-take _ limit (order_by_created found) (
          order_by_created-All _ found (
            All-map _ (Offered node backends accept_unpinned) found
              (λ t h. routable-Offered node backends accept_unpinned t named h.1)
              (All-select Everything (routable (some node) backends accept_unpinned) tasks
                (All-rows tasks)))),
      IsOrdered-take limit (order_by_created found) (order_by_created-IsOrdered found),
      length-take-le limit (order_by_created found),
    )

-- A page that is not cut off leaves out no routable task: where at most `limit` rows are routable,
-- the page holds exactly these.
pub get_pending_tasks_complete :
    (target : Option String) (backends : List String) (accept_unpinned : Bool) (limit : ℕ)
    (tasks : List Task)
    → length (select (routable target backends accept_unpinned) tasks) ≤ limit
    → Perm
        (get_pending_tasks target backends accept_unpinned limit tasks)
        (select (routable target backends accept_unpinned) tasks)
unfolding get_pending_tasks
get_pending_tasks_complete target backends accept_unpinned limit tasks few =
    let found = select (routable target backends accept_unpinned) tasks in
    rw (take_all limit (order_by_created found) (rw (length-order_by_created found) few))
      (order_by_created-perm found)

-- A continuation or respawn row, whose machine is the reserved sentinel, is in no page of a node
-- that has another name.
pub sentinel_invisible :
    (node : String) (backends : List String) (accept_unpinned : Bool) (limit : ℕ)
    (tasks : List Task)
    → node ≢ ""
    → node ≢ continuation_machine_sentinel
    → All
        (λ t. t.machine_id ≢ some continuation_machine_sentinel)
        (get_pending_tasks (some node) backends accept_unpinned limit tasks)
sentinel_invisible node backends accept_unpinned limit tasks named real =
    All-map _ _ _ (λ t h e. real (ground (arith, e, h)))
      (get_pending_tasks-Offered node backends accept_unpinned limit tasks named).0
