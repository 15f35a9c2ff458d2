-- ===== src/Continuation/Once.antt =====
-- What a wake presents before and after its round is recorded: compute_continuation_tick and
-- record_continuation_consumed of src/control/db.py.
use ai_team.Prelude.{
  ℕ, String, ◌≡◌, refl, ap, subst, ◌∙◌, inl, inr, Bool, true, false, ◌&&◌, none, some, List, ◌∷◌,
  ◌++◌, arith, if◌then◌else◌, str_eq, eq_of_str_eq, Bool-cases, Option-cases, All, update_where,
  exists, exists-append, member, [],
}
use ai_team.Case.{Ledger}
use ai_team.Continuation.{generation_of, add_row, Watermark, result_ids, continuation_watermark}
use ai_team.Continuation.Tick.{Facts, is_fresh, compute_continuation_tick}
use ai_team.Continuation.Consume.{set_consumed, consume_row, record_continuation_consumed}
use ai_team.Mesh.{TaskId, same_id, Task, is_completed}
use ai_team.Continuation.Wake.{facts_of, presented_are_fresh}

member-append-left :
    (t : String) (xs ys : List String) → member t xs ≡ true → member t (xs ++ ys) ≡ true
unfolding member
member-append-left t xs ys h = rw (exists-append (λ x. str_eq x t) xs ys) (ground (arith, h))

member-append-right :
    (t : String) (xs ys : List String) → member t ys ≡ true → member t (xs ++ ys) ≡ true
unfolding member
member-append-right t xs ys h = rw (exists-append (λ x. str_eq x t) xs ys) (ground (arith, h))

-- The row of a continuation of the Case.
abbrev pub is_round : TaskId → String → Task → Bool
is_round cid case_id t =
    same_id t.id cid && elim (generation_of case_id t) [ none ↦ false | some g ↦ true ]

consumed-keeps :
    (case_id t : String) (x : Task) (xs : List Task)
    → member t (continuation_watermark case_id xs).consumed ≡ true
    → member t (continuation_watermark case_id (x ∷ xs)).consumed ≡ true
unfolding continuation_watermark add_row
consumed-keeps case_id t x xs h = ground (
  arith,
  member-append-right t (result_ids x.result) (continuation_watermark case_id xs).consumed h,
)

consumed-here :
    (case_id t : String) (x : Task) (xs : List Task) (g : ℕ)
    → generation_of case_id x ≡ some g
    → is_completed x.status ≡ true
    → member t (result_ids x.result) ≡ true
    → member t (continuation_watermark case_id (x ∷ xs)).consumed ≡ true
unfolding continuation_watermark add_row
consumed-here case_id t x xs g round over h = ground (
  arith,
  round,
  over,
  member-append-left t (result_ids x.result) (continuation_watermark case_id xs).consumed h,
)

-- What a round consumed is in the watermark.
watermark-consume_row :
    (now : ℕ) (case_id : String) (cid : TaskId) (g : ℕ) (consumed : List String) (tasks : List Task)
    (t : String)
    → exists (is_round cid case_id) tasks ≡ true
    → member t consumed ≡ true
    → member t (continuation_watermark case_id (consume_row now cid g consumed tasks)).consumed
      ≡ true
unfolding consume_row exists update_where
watermark-consume_row now case_id cid g consumed [] t there h = ground arith
watermark-consume_row now case_id cid g consumed (x ∷ xs) t there h =
    let rest = update_where (λ u. same_id u.id cid) (set_consumed now g consumed) xs in
    elim (Bool-cases (is_round cid case_id x)) [
      | inr miss ↦
          consumed-keeps case_id t _ rest
            (watermark-consume_row now case_id cid g consumed xs t (ground (arith, there, miss)) h)
      | inl hit ↦ elim (Option-cases (generation_of case_id x)) [
        | inl no_round ↦ absurd (ground (arith, hit, no_round))
        | inr (k, round) ↦
            let mine : same_id x.id cid ≡ true = ground (arith, hit) in
            rw mine (
              consumed-here case_id t (set_consumed now g consumed x) rest k
                (unfold generation_of set_consumed in round) (unfold set_consumed in refl)
                (unfold set_consumed in h))
      ]
    ]

fresh_not_consumed :
    (f : Facts) (c : List String) (t : String) (ts : List String)
    → member t c ≡ true
    → All (λ x. is_fresh f c x ≡ true) ts
    → member t ts ≡ false
unfolding is_fresh member exists
fresh_not_consumed f c t [] h a = refl
fresh_not_consumed f c t (x ∷ xs) h a =
    let rest = fresh_not_consumed f c t xs h a.1 in
    elim (Bool-cases (str_eq x t)) [
      | inr miss ↦ ground (arith, rest, miss)
      | inl hit ↦
          let same = eq_of_str_eq x t hit in
          absurd (ground (arith, a.0, h, subst (λ y. is_fresh f c y ≡ true) same a.0))
    ]

-- What a wake has consumed is not presented again: after record_continuation_consumed on a
-- continuation row of the Case that is there, the tick presents no task of the consumed list,
-- whatever the events of the Case are by then.
pub consumed_not_presented :
    (upper : String → String) (now : ℕ) (case_id : String) (cid : TaskId) (g : ℕ)
    (consumed retired : List String) (actor : String) (l l' : Ledger) (tasks : List Task)
    (t : String)
    → exists (is_round cid case_id) tasks ≡ true
    → member t consumed ≡ true
    → let after =
        (record_continuation_consumed now case_id cid g consumed retired actor (l, tasks)).1 in
      member t (compute_continuation_tick upper case_id l' after).presented_task_ids ≡ false
unfolding record_continuation_consumed
consumed_not_presented upper now case_id cid g consumed retired actor l l' tasks t there h =
    let after = consume_row now cid g consumed tasks in
    fresh_not_consumed (facts_of upper case_id l') (continuation_watermark case_id after).consumed t
      _ (watermark-consume_row now case_id cid g consumed tasks t there h)
      (presented_are_fresh upper case_id l' after)

add_row-unfinished :
    (case_id : String) (x y : Task) (w : Watermark)
    → generation_of case_id x ≡ generation_of case_id y
    → is_completed x.status ≡ false
    → is_completed y.status ≡ false
    → add_row case_id x w ≡ add_row case_id y w
unfolding add_row
add_row-unfinished case_id x y w same after before = ground (arith, same, after, before)

-- An update that leaves the finished rounds alone leaves the watermark alone.
pub watermark-update_where :
    (case_id : String) (p : Task → Bool) (f : Task → Task) (tasks : List Task)
    → ((x : Task)
        → p x ≡ true
        → (generation_of case_id (f x) ≡ generation_of case_id x)
          × (is_completed (f x).status ≡ false)
          × (is_completed x.status ≡ false))
    → continuation_watermark case_id (update_where p f tasks) ≡ continuation_watermark case_id tasks
unfolding continuation_watermark update_where
watermark-update_where case_id p f [] h = refl
watermark-update_where case_id p f (x ∷ xs) h =
    let rest = watermark-update_where case_id p f xs h in
    elim (Bool-cases (p x)) [
      | inl hit ↦
          let (same, after, before) = h x hit in
          ap
            (λ b.
              add_row case_id (if b then f x else x)
                (continuation_watermark case_id (update_where p f xs)))
            hit
          ∙ add_row-unfinished case_id (f x) x _ same after before
          ∙ ap (add_row case_id x) rest
      | inr miss ↦
          ap
            (λ b.
              add_row case_id (if b then f x else x)
                (continuation_watermark case_id (update_where p f xs)))
            miss
          ∙ ap (add_row case_id x) rest
    ]
