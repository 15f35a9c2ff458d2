-- ===== src/Continuation/Wake.antt =====
-- Which Cases compute_continuation_tick of src/control/db.py wakes, and with what.
use ai_team.Prelude.{
  ℕ, ◌≤◌, String, ◌≡◌, refl, sym, ap, subst, ◌∙◌, ◌⊎◌, inl, inr, Bool, true, false, ◌&&◌, ◌||◌, not,
  Option, none, some, List, ◌∷◌, ◌++◌, arith, str_eq, eq_of_str_eq, Bool-cases, All, length, select,
  exists, every, All-append, member, [],
}
use ai_team.Case.{Ledger, EventType, EntityType, Payload}
use ai_team.Case.Close.Limits.{list_flow_events_full}
use ai_team.Case.Flow.{is_event_of, event_limit, append_flow_event, list_flow_events}
use ai_team.Continuation.{live_group, arm_wait_group, continuation_watermark}
use ai_team.Continuation.Tick.{
  Group, Facts, no_facts, collect_all, Satisfied, Tick, is_fresh, is_one_shot, append_new,
  judge_group, judge_step, judge_all, is_satisfied, compute_continuation_tick,
}
use ai_team.Mesh.{Task}

abbrev pub facts_of : (String → String) → String → Ledger → Facts
facts_of upper case_id l = collect_all upper (list_flow_events case_id l) no_facts

-- Whether a group calls for a wake, by its condition alone: some member has a fresh result, and
-- where the group is one-shot, all its members are finished.
unfoldable pub wakes : Facts → List String → String × Group → Bool
wakes f consumed (gid, g) =
    not (member gid f.resolved)
    && ((not (is_one_shot g.condition) || every (λ t. member t f.finished) g.members)
        && exists (is_fresh f consumed) g.members)

append_new-All :
    (P : String → Type 0) (xs ys : List String) → All P xs → All P ys → All P (append_new xs ys)
unfolding append_new
append_new-All P xs [] hx hy = hx
append_new-All P xs (y ∷ ys) hx hy = elim (Bool-cases (member y xs)) [
  | inl seen ↦ rw seen (append_new-All P xs ys hx hy.1)
  | inr new ↦
      rw new (append_new-All P (xs ++ y ∷ []) ys (All-append P xs (y ∷ []) hx (hy.0, tt)) hy.1)
]

-- The entry of a group that wakes.
abbrev entry_of : Facts → List String → String → Group → Satisfied
entry_of f c gid g = record {
  wait_group_id = gid;
  condition = g.condition;
  presented = select (is_fresh f c) g.members;
  retire = every (λ t. member t f.finished) g.members;
}

-- A turn of the loop adds an entry and its fresh members, or neither.
abbrev Turned : Facts → List String → String → Group → Tick → Tick → Type 0
Turned f c gid g k k' =
    ((wakes f c (gid, g) ≡ true)
      × (member gid f.resolved ≡ false)
      × (k'.presented_task_ids ≡ append_new k.presented_task_ids (select (is_fresh f c) g.members))
      × (k'.satisfied_groups ≡ k.satisfied_groups ++ entry_of f c gid g ∷ []))
    ⊎ ((wakes f c (gid, g) ≡ false)
        × (k'.presented_task_ids ≡ k.presented_task_ids)
        × (k'.satisfied_groups ≡ k.satisfied_groups))

judge_group-turn :
    (f : Facts) (c : List String) (gid : String) (g : Group) (k : Tick)
    → member gid f.resolved ≡ false
    → Turned f c gid g k (judge_group f c gid g k)
unfolding judge_group wakes
judge_group-turn f c gid g k live = elim (Bool-cases (wakes f c (gid, g))) [
  | inl w ↦ inl (w, live, ground arith, ground arith)
  | inr w ↦ inr (w, ground arith, ground arith)
]

judge_step-turn :
    (f : Facts) (c : List String) (gid : String) (cd : String) (ms : List String) (k : Tick)
    → let g : Group = record { condition = cd; members = ms } in
      Turned f c gid g k (judge_step f c gid g k)
unfolding judge_step
judge_step-turn f c gid cd [] k =
    inr (unfold wakes exists in ground arith, ground arith, ground arith)
judge_step-turn f c gid cd (m ∷ ms) k = elim (Bool-cases (member gid f.resolved)) [
  | inl over ↦ rw over (inr (unfold wakes in ground (arith, over), refl, refl))
  | inr live ↦
      let g : Group = record { condition = cd; members = m ∷ ms } in
      let same : judge_step f c gid g k ≡ judge_group f c gid g k = ground (arith, live) in
      subst (Turned f c gid g k) (sym same) (judge_group-turn f c gid g k live)
]

abbrev AllFresh : Facts → List String → Tick → Type 0
AllFresh f c k = All (λ t. is_fresh f c t ≡ true) k.presented_task_ids

select-AllFresh :
    (f : Facts) (c : List String) (ms : List String)
    → All (λ t. is_fresh f c t ≡ true) (select (is_fresh f c) ms)
unfolding select
select-AllFresh f c [] = tt
select-AllFresh f c (m ∷ ms) = elim (Bool-cases (is_fresh f c m)) [
  | inl hit ↦ rw hit (hit, select-AllFresh f c ms)
  | inr miss ↦ rw miss (select-AllFresh f c ms)
]

turn-AllFresh :
    (f : Facts) (c : List String) (gid : String) (g : Group) (k k' : Tick)
    → Turned f c gid g k k'
    → AllFresh f c k
    → AllFresh f c k'
turn-AllFresh f c gid g k k' (inl (w, live, shown, met)) h =
    rw shown (append_new-All _ k.presented_task_ids _ h (select-AllFresh f c g.members))
turn-AllFresh f c gid g k k' (inr (w, shown, met)) h = rw shown h

judge_all-AllFresh :
    (f : Facts) (c : List String) (gs : List (String × Group)) (k : Tick)
    → AllFresh f c k
    → AllFresh f c (judge_all f c gs k)
unfolding judge_all
judge_all-AllFresh f c [] k h = h
judge_all-AllFresh f c ((gid, g) ∷ gs) k h = judge_all-AllFresh f c gs (judge_step f c gid g k) (
    turn-AllFresh f c gid g k (judge_step f c gid g k)
      (judge_step-turn f c gid g.condition g.members k) h)

-- A wake presents only tasks that are finished, that no completed wake of the Case has consumed,
-- and that no review was given of.
pub presented_are_fresh :
    (upper : String → String) (case_id : String) (l : Ledger) (tasks : List Task)
    → All
        (λ t.
          is_fresh (facts_of upper case_id l) (continuation_watermark case_id tasks).consumed t
          ≡ true)
        (compute_continuation_tick upper case_id l tasks).presented_task_ids
unfolding compute_continuation_tick
presented_are_fresh upper case_id l tasks =
    judge_all-AllFresh (facts_of upper case_id l) (continuation_watermark case_id tasks).consumed
      (facts_of upper case_id l).groups _ tt

nonempty-append :
    (xs : List Satisfied) (x : Satisfied) (k : Tick)
    → k.satisfied_groups ≡ xs ++ x ∷ []
    → is_satisfied k ≡ true
nonempty-append [] x k e = rw e refl
nonempty-append (y ∷ xs) x k e = rw e refl

turn-satisfied :
    (f : Facts) (c : List String) (gid : String) (g : Group) (k k' : Tick)
    → Turned f c gid g k k'
    → is_satisfied k' ≡ (is_satisfied k || wakes f c (gid, g))
turn-satisfied f c gid g k k' (inl (w, live, shown, met)) =
    ground (arith, w, nonempty-append k.satisfied_groups (entry_of f c gid g) k' met)
turn-satisfied f c gid g k k' (inr (w, shown, met)) = rw met (ground (arith, w))

judge_all-satisfied :
    (f : Facts) (c : List String) (gs : List (String × Group)) (k : Tick)
    → is_satisfied (judge_all f c gs k) ≡ (is_satisfied k || exists (wakes f c) gs)
unfolding judge_all exists
judge_all-satisfied f c [] k = ground arith
judge_all-satisfied f c ((gid, g) ∷ gs) k =
    let turn =
      turn-satisfied f c gid g k (judge_step f c gid g k)
        (judge_step-turn f c gid g.condition g.members k) in
    let later = judge_all-satisfied f c gs (judge_step f c gid g k) in
    later ∙ ap (λ b. b || exists (wakes f c) gs) turn ∙ ground arith

-- A Case is woken exactly if one of its armed groups calls for it: a group that no marker
-- resolves, with a member whose result is fresh, and, for ALL and NAMED, with all members
-- finished.
pub satisfied_iff_wakes :
    (upper : String → String) (case_id : String) (l : Ledger) (tasks : List Task)
    → is_satisfied (compute_continuation_tick upper case_id l tasks)
      ≡ exists
          (wakes (facts_of upper case_id l) (continuation_watermark case_id tasks).consumed)
          (facts_of upper case_id l).groups
unfolding compute_continuation_tick
satisfied_iff_wakes upper case_id l tasks =
    judge_all-satisfied (facts_of upper case_id l) (continuation_watermark case_id tasks).consumed
      (facts_of upper case_id l).groups _

-- A Case with 500 events is deaf: no event that is appended to it, of a finished task or of a new
-- group, changes its tick.
pub full_case_is_deaf :
    (upper : String → String) (now : ℕ) (case_id : String) (event_type : EventType) (actor : String)
    (from_state to_state : Option String) (entity_type : Option EntityType)
    (entity_id : Option String) (payload : Option Payload) (l : Ledger) (tasks : List Task)
    → event_limit ≤ length (select (is_event_of case_id) l.events)
    → compute_continuation_tick upper case_id
        (append_flow_event now case_id event_type actor from_state to_state entity_type entity_id
          payload l).0
        tasks
      ≡ compute_continuation_tick upper case_id l tasks
unfolding compute_continuation_tick
full_case_is_deaf upper now case_id event_type actor from_state to_state entity_type entity_id
      payload l tasks full =
    rw
      (list_flow_events_full now case_id event_type actor from_state to_state entity_type entity_id
        payload l full)
      refl

no_entry :
    (gid : String) (resolved : List String) (ss : List Satisfied)
    → member gid resolved ≡ true
    → All (λ s. member s.wait_group_id resolved ≡ false) ss
    → exists (λ s. str_eq s.wait_group_id gid) ss ≡ false
unfolding exists
no_entry gid resolved [] m a = refl
no_entry gid resolved (s ∷ ss) m a =
    let rest = no_entry gid resolved ss m a.1 in
    elim (Bool-cases (str_eq s.wait_group_id gid)) [
      | inr miss ↦ ground (arith, rest, miss)
      | inl hit ↦
          let same = eq_of_str_eq s.wait_group_id gid hit in
          absurd (ground (arith, m, subst (λ g. member g resolved ≡ false) same a.0))
    ]

turn-open :
    (f : Facts) (c : List String) (gid : String) (g : Group) (k k' : Tick)
    → Turned f c gid g k k'
    → All (λ s. member s.wait_group_id f.resolved ≡ false) k.satisfied_groups
    → All (λ s. member s.wait_group_id f.resolved ≡ false) k'.satisfied_groups
turn-open f c gid g k k' (inl (w, live, shown, met)) h =
    rw met (All-append _ k.satisfied_groups (entry_of f c gid g ∷ []) h (live, tt))
turn-open f c gid g k k' (inr (w, shown, met)) h = rw met h

judge_all-open :
    (f : Facts) (c : List String) (gs : List (String × Group)) (k : Tick)
    → All (λ s. member s.wait_group_id f.resolved ≡ false) k.satisfied_groups
    → All (λ s. member s.wait_group_id f.resolved ≡ false) (judge_all f c gs k).satisfied_groups
unfolding judge_all
judge_all-open f c [] k h = h
judge_all-open f c ((gid, g) ∷ gs) k h = judge_all-open f c gs (judge_step f c gid g k) (
    turn-open f c gid g k (judge_step f c gid g k) (judge_step-turn f c gid g.condition g.members k)
      h)

-- A wait-group that was discharged can be armed again, but does not wake its Case: where no marker
-- of the group is live, `arm_wait_group` writes one and returns its id, and where the events that
-- the tick reads then hold a wait_resolved of the group, older though it may be, no satisfied
-- group of the tick has that id.
pub rearmed_group_never_wakes :
    (upper : String → String) (now : ℕ) (case_id gid : String) (condition : Option String)
    (members : List String) (actor : String) (l : Ledger) (tasks : List Task)
    → live_group gid (list_flow_events case_id l) none ≡ none
    → let (armed, id) = arm_wait_group true upper now case_id gid condition members actor l in
      member gid (facts_of upper case_id armed).resolved ≡ true
      → (id ≡ some l.next_event)
        × (exists
              (λ s. str_eq s.wait_group_id gid)
              (compute_continuation_tick upper case_id armed tasks).satisfied_groups
            ≡ false)
unfolding compute_continuation_tick
rearmed_group_never_wakes upper now case_id gid condition members actor l tasks free over =
    let armed = (arm_wait_group true upper now case_id gid condition members actor l).0 in
    let f = facts_of upper case_id armed in
    let c = (continuation_watermark case_id tasks).consumed in
    (
      unfold arm_wait_group append_flow_event in ground (arith, free),
      no_entry gid f.resolved _ over (judge_all-open f c f.groups _ tt),
    )
