-- ===== src/Continuation/Boot.antt =====
-- What a Manager that boots onto an open Case re-establishes: boot_reconcile_case of
-- src/control/db.py.
use ai_team.Prelude.{
  ℕ, String, ◌≡◌, refl, sym, ap, subst, ◌∙◌, ◌⊎◌, inl, inr, Bool, true, false, ◌&&◌, not, Option,
  none, some, List, ◌∷◌, map, arith, if◌then◌else◌, str_eq, eq_of_str_eq, str_eq_refl, same_text?,
  Bool-cases, Option-cases, All, select, exists, All-map, member, [],
}
use ai_team.Case.{FlowEvent, Ledger}
use ai_team.Case.Flow.{list_flow_events}
use ai_team.Case.Waits.{Reconciled, reconcile_worker_waits, is_wait_pending, is_wait_resolved, put}
use ai_team.Continuation.{is_group, live_group, arm_wait_group}
use ai_team.Continuation.Tick.{Group, armed_group}
use ai_team.Continuation.Brief.{named, armed_step, armed_groups}

-- The loop over the armed groups, with the ids that it re-armed.
unfoldable pub rearm :
    (enabled : Bool) (upper : String → String) (now : ℕ) (case_id actor : String)
    (over : List String)
    → List (String × Group)
    → Ledger
    → Ledger × List String
rearm enabled upper now case_id actor over [] l = (l, [])
rearm enabled upper now case_id actor over ((gid, g) ∷ gs) l = elim (member gid over) [
  | true ↦ rearm enabled upper now case_id actor over gs l
  | false ↦
      let l' =
        (arm_wait_group enabled upper now case_id gid (some g.condition) g.members actor l).0 in
      let (l'', ids) = rearm enabled upper now case_id actor over gs l' in (l'', gid ∷ ids)
]

-- `none` is the answer {"ok": False, "reason": "durable_relay_disabled"}.
unfoldable pub boot_reconcile_case :
    (relay enabled : Bool) (upper : String → String) (now : ℕ) (case_id actor : String)
    → Ledger
    → Ledger × Option (Option Reconciled × List String)
unfolding rearm
boot_reconcile_case relay enabled upper now case_id actor l =
    if not relay
    then (l, none)
    else let (l', reconciled) = reconcile_worker_waits relay now case_id actor l in
      let (armed, over) = armed_groups upper (list_flow_events case_id l') ([], []) in
      let (l'', ids) = rearm enabled upper now case_id actor over armed l' in
      (l'', some (reconciled, ids))

-- What one event does to the live marker of a group.
abbrev live_step : String → FlowEvent → Option FlowEvent → Option FlowEvent
live_step gid e existing =
    if not (is_group e.entity_type && same_text? e.entity_id (some gid))
    then existing
    else if is_wait_pending e.event_type
    then some e
    else if is_wait_resolved e.event_type
    then none
    else existing

-- A group is resolved, or a marker of it is live.
abbrev Accounted : List String → Option FlowEvent → String → Type 0
Accounted over live gid = (member gid over ≡ true) ⊎ ((e : FlowEvent) × (live ≡ some e))

abbrev Tracked : List (String × Group) × List String → (String → Option FlowEvent) → Type 0
Tracked (gs, over) live = All (λ g. (str_eq g.0 "" ≡ false) × Accounted over (live g.0) g.0) gs

other-Accounted :
    (upper : String → String) (e : FlowEvent) (i gid : String) (gs : List (String × Group))
    (over : List String) (live : Option FlowEvent)
    → e.entity_id ≡ some i
    → str_eq i gid ≡ false
    → Accounted over live gid
    → Accounted (armed_step upper e (gs, over)).1 (live_step gid e live) gid
unfolding armed_step member exists same_text?
other-Accounted upper e i gid gs over live there other (inl done) =
    inl (ground (arith, there, other, done))
other-Accounted upper e i gid gs over live there other (inr (x, h)) =
    inr (x, ground (arith, there, other, h))

same-Accounted :
    (upper : String → String) (e : FlowEvent) (gid : String) (gs : List (String × Group))
    (over : List String) (live : Option FlowEvent)
    → e.entity_id ≡ some gid
    → str_eq gid "" ≡ false
    → Accounted over live gid
    → Accounted (armed_step upper e (gs, over)).1 (live_step gid e live) gid
unfolding armed_step member exists same_text?
same-Accounted upper e gid gs over live there full ok =
    let mine = str_eq_refl gid in
    elim (Bool-cases (is_group e.entity_type)) [
      | inr g ↦ elim ok [
        | inl done ↦ inl (ground (arith, there, full, g, done))
        | inr (x, h) ↦ inr (x, ground (arith, g, h))
      ]
      | inl g ↦ elim (Bool-cases (is_wait_pending e.event_type)) [
        | inl w ↦ inr (e, ground (arith, there, mine, g, w))
        | inr w ↦ elim (Bool-cases (is_wait_resolved e.event_type)) [
          | inl r ↦ inl (ground (arith, there, full, mine, g, w, r))
          | inr r ↦ elim ok [
            | inl done ↦ inl (ground (arith, there, full, g, w, r, done))
            | inr (x, h) ↦ inr (x, ground (arith, there, mine, g, w, r, h))
          ]
        ]
      ]
    ]

armed_step-Accounted :
    (upper : String → String) (e : FlowEvent) (gid : String) (gs : List (String × Group))
    (over : List String) (live : Option FlowEvent)
    → str_eq gid "" ≡ false
    → Accounted over live gid
    → Accounted (armed_step upper e (gs, over)).1 (live_step gid e live) gid
armed_step-Accounted upper e gid gs over live full ok = elim (Option-cases e.entity_id) [
  | inl none_there ↦ elim ok [
    | inl done ↦ inl (unfold armed_step in ground (arith, none_there, done))
    | inr (x, h) ↦ inr (x, unfold same_text? in ground (arith, none_there, h))
  ]
  | inr (i, there) ↦ elim (Bool-cases (str_eq i gid)) [
    | inr other ↦ other-Accounted upper e i gid gs over live there other ok
    | inl same ↦
        same-Accounted upper e gid gs over live (there ∙ ap some (eq_of_str_eq i gid same)) full ok
  ]
]

put-All :
    (P : String × Group → Type 0) (i : String) (g : Group) (gs : List (String × Group))
    → ((h : Group) → P (i, h))
    → All P gs
    → All P (put i g gs)
unfolding put
put-All P i g [] new h = (new g, tt)
put-All P i g ((j, x) ∷ gs) new (h, hs) = elim (Bool-cases (str_eq j i)) [
  | inl same ↦ rw same (subst (λ k. P (k, g)) (sym (eq_of_str_eq j i same)) (new g), hs)
  | inr other ↦ rw other (h, put-All P i g gs new hs)
]

-- An event adds no group, or it is a marker of the group that it adds.
armed_step-entries :
    (upper : String → String) (e : FlowEvent) (gs : List (String × Group)) (over : List String)
    → ((armed_step upper e (gs, over)).0 ≡ gs)
      ⊎ ((i : String) × (named e ≡ some i)
          × (is_group e.entity_type ≡ true)
          × (is_wait_pending e.event_type ≡ true)
          × ((armed_step upper e (gs, over)).0 ≡ put i (armed_group upper e) gs))
unfolding armed_step
armed_step-entries upper e gs over = elim (Option-cases (named e)) [
  | inl none_there ↦ inl (ground (arith, none_there))
  | inr (i, there) ↦ elim (Bool-cases (is_group e.entity_type && is_wait_pending e.event_type)) [
    | inr quiet ↦ inl (ground (arith, there, quiet))
    | inl marks ↦
        inr (i, there, ground (arith, marks), ground (arith, marks), ground (arith, there, marks))
  ]
]

named-some :
    (e : FlowEvent) (i : String) → named e ≡ some i → (e.entity_id ≡ some i) × (str_eq i "" ≡ false)
named-some e i h = elim (Option-cases e.entity_id) [
  | inl none_there ↦ absurd (ground (arith, none_there, h))
  | inr (j, there) ↦ elim (Bool-cases (str_eq j "")) [
    | inl empty ↦ absurd (ground (arith, there, empty, h))
    | inr full ↦
        let same : j ≡ i = ground (arith, there, full, h) in
        (there ∙ ap some same, subst (λ k. str_eq k "" ≡ false) same full)
  ]
]

armed_step-Tracked :
    (upper : String → String) (e : FlowEvent) (gs : List (String × Group)) (over : List String)
    (live : String → Option FlowEvent)
    → Tracked (gs, over) live
    → Tracked (armed_step upper e (gs, over)) (λ gid. live_step gid e (live gid))
armed_step-Tracked upper e gs over live h =
    let over' = (armed_step upper e (gs, over)).1 in
    let P : String × Group → Type 0 =
      λ g. (str_eq g.0 "" ≡ false) × Accounted over' (live_step g.0 e (live g.0)) g.0 in
    let kept : All P gs =
      All-map _ P gs (λ g ok. (ok.0, armed_step-Accounted upper e g.0 gs over (live g.0) ok.0 ok.1))
        h in
    elim (armed_step-entries upper e gs over) [
      | inl same ↦ subst (All P) (sym same) kept
      | inr (i, there, g, w, added) ↦
          let (id, full) = named-some e i there in
          subst (All P) (sym added) (
            put-All P i (armed_group upper e) gs
              (λ x. (full, inr (e, unfold same_text? in ground (arith, id, g, w, str_eq_refl i))))
              kept)
    ]

armed_groups-Tracked :
    (upper : String → String) (es : List FlowEvent) (found : List (String × Group) × List String)
    (live : String → Option FlowEvent)
    → Tracked found live
    → Tracked (armed_groups upper es found) (λ gid. live_group gid es (live gid))
unfolding armed_groups live_group
armed_groups-Tracked upper [] (gs, over) live h = h
armed_groups-Tracked upper (e ∷ es) (gs, over) live h =
    armed_groups-Tracked upper es (armed_step upper e (gs, over))
      (λ gid. live_step gid e (live gid)) (armed_step-Tracked upper e gs over live h)

arm_wait_group-live :
    (enabled : Bool) (upper : String → String) (now : ℕ) (case_id gid : String) (g : Group)
    (actor : String) (l : Ledger) (e : FlowEvent)
    → live_group gid (list_flow_events case_id l) none ≡ some e
    → (arm_wait_group enabled upper now case_id gid (some g.condition) g.members actor l).0 ≡ l
unfolding arm_wait_group
arm_wait_group-live enabled upper now case_id gid g actor l e live = ground (arith, live)

rearm-silent :
    (enabled : Bool) (upper : String → String) (now : ℕ) (case_id actor : String)
    (over : List String) (gs : List (String × Group)) (l : Ledger)
    → Tracked (gs, over) (λ gid. live_group gid (list_flow_events case_id l) none)
    → rearm enabled upper now case_id actor over gs l
      ≡ (l, select (λ i. not (member i over)) (map (λ g. g.0) gs))
unfolding rearm select
rearm-silent enabled upper now case_id actor over [] l h = refl
rearm-silent enabled upper now case_id actor over ((gid, g) ∷ gs) l ((full, ok), hs) =
    let rest = rearm-silent enabled upper now case_id actor over gs l hs in
    elim (Bool-cases (member gid over)) [
      | inl done ↦ ground (arith, done, rest)
      | inr armed ↦ elim ok [
        | inl done ↦ absurd (ground (arith, armed, done))
        | inr (e, live) ↦
            let same = arm_wait_group-live enabled upper now case_id gid g actor l e live in
            ground (arith, armed, ap (rearm enabled upper now case_id actor over gs) same ∙ rest)
      ]
    ]

-- A boot onto a Case writes what reconcile_worker_waits writes, and nothing more: re-arming its
-- groups leaves the ledger as it is, whether continuation is on or off, and the groups that it
-- names are the armed ones that no marker resolves, in order.
pub boot_reconcile_case_lem :
    (enabled : Bool) (upper : String → String) (now : ℕ) (case_id actor : String) (l : Ledger)
    → let (l', waits) = reconcile_worker_waits true now case_id actor l in
      let (gs, over) = armed_groups upper (list_flow_events case_id l') ([], []) in
      boot_reconcile_case true enabled upper now case_id actor l
      ≡ (l', some (waits, select (λ i. not (member i over)) (map (λ g. g.0) gs)))
unfolding boot_reconcile_case
boot_reconcile_case_lem enabled upper now case_id actor l =
    let l' = (reconcile_worker_waits true now case_id actor l).0 in
    let events = list_flow_events case_id l' in
    let found = armed_groups upper events ([], []) in
    let silent =
      rearm-silent enabled upper now case_id actor found.1 found.0 l'
        (armed_groups-Tracked upper events ([], []) (λ gid. none) tt) in
    rw silent refl
