-- ===== src/Mesh/Stale/Reaper.antt =====
-- What one round of the stale-claim reaper of src/control/task_server.py does to each task.
use ai_team.Prelude.{
  first-update_where, ℕ, String, ◌≡◌, refl, sym, ap, subst, ◌∙◌, inl, inr, Bool, true, false,
  Option, none, some, List, ◌∷◌, arith, if◌then◌else◌, str_eq_refl, same_text?, Bool-cases,
  Option-cases, &&-true, update_where, exists, first, [],
}
use ai_team.Mesh.{TaskId, same_id, eq_of_same_id, same_id_refl, Task, claimed, failed, Node}
use ai_team.Mesh.Queue.{
  has_id, releasable, held_by, set_released, release_task, fail_task, get_task,
}
use ai_team.Mesh.Queue.Invariant.{Unique}
use ai_team.Mesh.Stale.Evidence.{claim_reason_exact}
use ai_team.Mesh.Stale.{
  StaleReason, active_task_over_max_runtime, claim_reason, list_stale_claims,
  should_release_stale_claim, reap_row, reap, reaper_round,
}

-- The row of a task that the reaper fails.
abbrev pub overran : ℕ → (Option String → String) → Task → Task
overran now error t = record t {
  status = failed;
  error = some (error t.claimed_by);
  completed_at = some now;
  updated_at = now;
}

-- What becomes of a row, by the reason that the report has for it.
abbrev pub reaped : (now runtime : ℕ) → (Option String → String) → Task → Option StaleReason → Task
reaped now runtime error t none = t
reaped now runtime error t (some active_task_over_max_runtime) = overran now error t
reaped now runtime error t (some r) =
    if should_release_stale_claim now runtime t r
    then elim t.claimed_by [ none ↦ t | some owner ↦ set_released now t ]
    else t

-- An update of other rows only.
get_task_other :
    (i : TaskId) (p : Task → Bool) (f : Task → Task) (xs : List Task)
    → ((x : Task) → (f x).id ≡ x.id)
    → ((x : Task) → p x ≡ true → same_id x.id i ≡ false)
    → get_task i (update_where p f xs) ≡ get_task i xs
unfolding get_task first update_where
get_task_other i p f [] h k = refl
get_task_other i p f (x ∷ xs) h k = ground (arith, h x, k x, get_task_other i p f xs h k)

apart : (i j k : TaskId) → same_id j i ≡ false → same_id k j ≡ true → same_id k i ≡ false
apart i j k h e = ground (arith, eq_of_same_id k j e)

module _ (now runtime : ℕ) (error : Option String → String) (i : TaskId) where
  release_other :
      (t : Task) (r : StaleReason) (o : Option String) (tasks : List Task)
      → same_id t.id i ≡ false
      → get_task i (elim o [ none ↦ tasks | some owner ↦ (release_task now t.id owner tasks).0 ])
        ≡ get_task i tasks
  unfolding release_task set_released
  release_other t r none tasks h = refl
  release_other t r (some owner) tasks h =
      get_task_other i (releasable t.id owner) _ tasks (λ x. refl)
        (λ x e. apart i t.id x.id h (&&-true (same_id x.id t.id) (held_by owner x) e).0)

  fail_other :
      (t : Task) (tasks : List Task)
      → same_id t.id i ≡ false
      → get_task i (fail_task now t.id (error t.claimed_by) failed none none tasks)
        ≡ get_task i tasks
  unfolding fail_task
  fail_other t tasks h =
      get_task_other i (has_id t.id) _ tasks (λ x. refl) (λ x e. apart i t.id x.id h e)

  reap_row_other :
      (t : Task) (r : StaleReason) (tasks : List Task)
      → same_id t.id i ≡ false
      → get_task i (reap_row now runtime error (t, r) tasks) ≡ get_task i tasks
  unfolding reap_row
  reap_row_other t active_task_over_max_runtime tasks h = fail_other t tasks h
  reap_row_other t r tasks h = ground (arith, release_other t r t.claimed_by tasks h)

  release_self :
      (t : Task) (r : StaleReason) (o : Option String) (tasks : List Task)
      → t.claimed_by ≡ o
      → t.status ≡ claimed
      → get_task i tasks ≡ some t
      → get_task i (elim o [ none ↦ tasks | some owner ↦ (release_task now t.id owner tasks).0 ])
        ≡ some (elim o [ none ↦ t | some owner ↦ set_released now t ])
  unfolding release_task get_task first
  release_self t r none tasks e c found = found
  release_self t r (some owner) tasks e c found =
      first-update_where (has_id i) (releasable t.id owner) (set_released now) tasks
        (λ x. unfold set_released in refl)
      ∙ unfold same_text? in ground (arith, found, e, c, same_id_refl t.id, str_eq_refl owner)

  fail_self :
      (t : Task) (tasks : List Task)
      → get_task i tasks ≡ some t
      → get_task i (fail_task now t.id (error t.claimed_by) failed none none tasks)
        ≡ some (overran now error t)
  unfolding fail_task get_task first
  fail_self t tasks found =
      first-update_where (has_id i) (has_id t.id) _ tasks (λ x. refl)
      ∙ ground (arith, found, same_id_refl t.id)

  reap_row_self :
      (t : Task) (r : StaleReason) (tasks : List Task)
      → t.status ≡ claimed
      → get_task i tasks ≡ some t
      → get_task i (reap_row now runtime error (t, r) tasks)
        ≡ some (reaped now runtime error t (some r))
  unfolding reap_row
  reap_row_self t active_task_over_max_runtime tasks c found = fail_self t tasks found
  reap_row_self t r tasks c found =
      ground (arith, found, release_self t r t.claimed_by tasks refl c found)

module _ (now lease max_age runtime : ℕ) (error : Option String → String) (nodes : List Node)
    (i : TaskId) where
  abbrev reason : Task → Option StaleReason
  reason = claim_reason now lease max_age runtime nodes

  abbrev swept : List Task → List Task → List Task
  swept xs tasks =
      reap now runtime error (list_stale_claims now lease max_age runtime nodes xs) tasks

  abbrev report : List Task → List (Task × StaleReason)
  report = list_stale_claims now lease max_age runtime nodes

  report-none : (x : Task) (xs : List Task) → reason x ≡ none → report (x ∷ xs) ≡ report xs
  unfolding list_stale_claims
  report-none x xs e = ground (arith, e)

  report-some :
      (x : Task) (xs : List Task) (r : StaleReason)
      → reason x ≡ some r
      → report (x ∷ xs) ≡ (x, r) ∷ report xs
  unfolding list_stale_claims
  report-some x xs r e = ground (arith, e)

  swept-none :
      (x : Task) (xs tasks : List Task) → reason x ≡ none → swept (x ∷ xs) tasks ≡ swept xs tasks
  swept-none x xs tasks e = ap (λ rs. reap now runtime error rs tasks) (report-none x xs e)

  swept-some :
      (x : Task) (xs tasks : List Task) (r : StaleReason)
      → reason x ≡ some r
      → swept (x ∷ xs) tasks ≡ swept xs (reap_row now runtime error (x, r) tasks)
  swept-some x xs tasks r e =
      ap (λ rs. reap now runtime error rs tasks) (report-some x xs r e) ∙ unfold reap in refl

  swept_absent :
      (xs tasks : List Task)
      → exists (has_id i) xs ≡ false
      → get_task i (swept xs tasks) ≡ get_task i tasks
  unfolding exists
  swept_absent [] tasks h = unfold list_stale_claims reap in refl
  swept_absent (x ∷ xs) tasks h = elim (Option-cases (reason x)) [
    | inl e ↦ ap (get_task i) (swept-none x xs tasks e) ∙ swept_absent xs tasks (ground (arith, h))
    | inr (r, e) ↦
        ap (get_task i) (swept-some x xs tasks r e)
        ∙ swept_absent xs (reap_row now runtime error (x, r) tasks) (ground (arith, h))
        ∙ reap_row_other now runtime error i x r tasks (ground (arith, h))
  ]

  swept_head :
      (t : Task) (xs tasks : List Task)
      → exists (has_id i) xs ≡ false
      → get_task i tasks ≡ some t
      → get_task i (swept (t ∷ xs) tasks) ≡ some (reaped now runtime error t (reason t))
  swept_head t xs tasks h found = elim (Option-cases (reason t)) [
    | inl e ↦
        ap (get_task i) (swept-none t xs tasks e)
        ∙ swept_absent xs tasks h
        ∙ found
        ∙ ap (λ o. some (reaped now runtime error t o)) (sym e)
    | inr (r, e) ↦
        let held = ((claim_reason_exact now lease max_age runtime nodes t r).0 e).0.0 in
        ap (get_task i) (swept-some t xs tasks r e)
        ∙ swept_absent xs (reap_row now runtime error (t, r) tasks) h
        ∙ reap_row_self now runtime error i t r tasks held found
        ∙ ap (λ o. some (reaped now runtime error t o)) (sym e)
  ]

  swept_found :
      (xs tasks : List Task) (t : Task)
      → Unique xs
      → get_task i xs ≡ some t
      → get_task i tasks ≡ some t
      → get_task i (swept xs tasks) ≡ some (reaped now runtime error t (reason t))
  unfolding get_task first exists
  swept_found [] tasks t u h found = absurd (ground arith)
  swept_found (x ∷ xs) tasks t u h found = elim (Bool-cases (same_id x.id i)) [
    | inl hit ↦
        let same : x ≡ t = ground (arith, hit) in
        let alone : exists (has_id i) xs ≡ false =
          subst (λ k. exists (has_id k) xs ≡ false) (eq_of_same_id x.id i hit) u.0 in
        rw same (swept_head t xs tasks alone found)
    | inr miss ↦
        let rest : get_task i xs ≡ some t = ground (arith, miss) in
        elim (Option-cases (reason x)) [
          | inl e ↦
              ap (get_task i) (swept-none x xs tasks e) ∙ swept_found xs tasks t u.1 rest found
          | inr (r, e) ↦
              ap (get_task i) (swept-some x xs tasks r e)
              ∙ swept_found xs (reap_row now runtime error (x, r) tasks) t u.1 rest
                  (reap_row_other now runtime error i x r tasks miss ∙ found)
        ]
  ]

-- In a table with no id twice, one round of the reaper does to each row what the row's own reason
-- calls for, whatever the other rows are: a row with no reason stays as it is; one that overran
-- its runtime is failed; one that its live worker does not list is released if its runtime is also
-- over, and else stays; one whose node is missing, offline or restarted is released.
pub get_task-reaper_round :
    (now lease max_age runtime : ℕ) (error : Option String → String) (nodes : List Node)
    (i : TaskId) (tasks : List Task) (t : Task)
    → Unique tasks
    → get_task i tasks ≡ some t
    → get_task i (reaper_round now lease max_age runtime error nodes tasks)
      ≡ some (reaped now runtime error t (claim_reason now lease max_age runtime nodes t))
unfolding reaper_round
get_task-reaper_round now lease max_age runtime error nodes i tasks t u found =
    swept_found now lease max_age runtime error nodes i tasks tasks t u found found
