-- ===== src/Case/Waits.antt =====
-- The durable waits of a Manager on its workers: record_worker_wait and reconcile_worker_waits of
-- src/control/db.py. The flag DURABLE_RELAY_ENABLED is an argument.
pub mod Durable
use ai_team.Prelude.{
  ℕ, String, Bool, true, false, not, Option, none, some, List, ◌∷◌, if◌then◌else◌, str_eq,
  same_text?, or_else, member, [],
}
use ai_team.Case.{
  task, EventType, task_finished, worker_wait_pending, worker_wait_resolved, blank, FlowEvent,
  Ledger,
}
use ai_team.Case.Flow.{append_flow_event, list_flow_events, event_outcome}

abbrev pub is_wait_pending : EventType → Bool
is_wait_pending worker_wait_pending = true
is_wait_pending _ = false

abbrev pub is_wait_resolved : EventType → Bool
is_wait_resolved worker_wait_resolved = true
is_wait_resolved _ = false

abbrev pub is_finished : EventType → Bool
is_finished task_finished = true
is_finished _ = false

-- d[key] = v of a dict, which keeps the place of a key that it has, and d.get(key).
unfoldable pub put {ℓ} : {A : Type ℓ} → String → A → List (String × A) → List (String × A)
put key v [] = (key, v) ∷ []
put key v ((k, w) ∷ d) = if str_eq k key then (k, v) ∷ d else (k, w) ∷ put key v d

unfoldable pub lookup {ℓ} : {A : Type ℓ} → String → List (String × A) → Option A
lookup key [] = none
lookup key ((k, v) ∷ d) = let rest = lookup key d in if str_eq k key then some v else rest

-- The live marker of a task: the last wait_pending that no later wait_resolved clears.
unfoldable pub live_marker : String → List FlowEvent → Option FlowEvent → Option FlowEvent
live_marker tid [] existing = existing
live_marker tid (e ∷ es) existing = live_marker tid es (
    if not (same_text? e.entity_id (some tid))
    then existing
    else if is_wait_pending e.event_type
    then some e
    else if is_wait_resolved e.event_type
    then none
    else existing)

unfoldable pub record_worker_wait :
    (enabled : Bool) (now : ℕ) (flow_run_id task_id : String) (timeout : Option ℕ) (actor : String)
    → Ledger
    → Ledger × Option ℕ
unfolding live_marker
record_worker_wait enabled now flow_run_id task_id timeout actor l =
    if not enabled
    then (l, none)
    else elim (live_marker task_id (list_flow_events flow_run_id l) none) [
      | some e ↦ (l, some e.id)
      | none ↦
          let (l', id) =
            append_flow_event now flow_run_id worker_wait_pending actor none none (some task)
              (some task_id)
              (some (record blank { timeout = timeout; rest = ("task_id", task_id) ∷ [] })) l in
          (l', some id)
    ]

-- The three collections that one pass over the events fills.
pub record Scan : Type 0 where
  pub pending_markers : List (String × FlowEvent)
  pub resolved_tasks : List String
  pub finished : List (String × String)

unfoldable pub scan_event : FlowEvent → String → EventType → Scan → Scan
scan_event e tid worker_wait_pending s = record s { pending_markers = put tid e s.pending_markers }
scan_event e tid worker_wait_resolved s = record s { resolved_tasks = tid ∷ s.resolved_tasks }
scan_event e tid task_finished s = record s {
  finished = put tid (or_else (event_outcome e) "success") s.finished;
}
scan_event e tid _ s = s

-- `if not tid: continue`
unfoldable pub scan_step : FlowEvent → Scan → Scan
unfolding scan_event
scan_step e s = elim e.entity_id [
  | none ↦ s
  | some tid ↦ if str_eq tid "" then s else scan_event e tid e.event_type s
]

unfoldable pub scan_from : List FlowEvent → Scan → Scan
scan_from [] s = s
scan_from (e ∷ es) s = scan_from es (scan_step e s)

abbrev pub empty_scan : Scan
empty_scan = record { pending_markers = []; resolved_tasks = []; finished = [] }

abbrev pub marker_timeout : FlowEvent → Option ℕ
marker_timeout m = elim m.payload [ none ↦ none | some p ↦ p.timeout ]

-- `resolved` pairs a task with its outcome, `pending` a task with its timeout.
pub record Reconciled : Type 0 where
  pub resolved : List (String × String)
  pub pending : List (String × Option ℕ)

abbrev pub nothing_left : Reconciled
nothing_left = record { resolved = []; pending = [] }

unfoldable pub resolve_marker : ℕ → String → String → String → String → Ledger → Ledger
resolve_marker now flow_run_id actor tid outcome l =
    (append_flow_event now flow_run_id worker_wait_resolved actor none none (some task) (some tid)
      (some (record blank { outcome = some outcome; rest = ("task_id", tid) ∷ [] })) l).0

-- The loop over pending_markers.
unfoldable pub reconcile_loop :
    (now : ℕ) (flow_run_id actor : String)
    → Scan
    → List (String × FlowEvent)
    → Ledger
    → Ledger × Reconciled
reconcile_loop now flow_run_id actor s [] l = (l, nothing_left)
reconcile_loop now flow_run_id actor s ((tid, m) ∷ ms) l = elim (member tid s.resolved_tasks) [
  | true ↦ reconcile_loop now flow_run_id actor s ms l
  | false ↦ elim (lookup tid s.finished) [
    | some outcome ↦
        let (l', r) =
          reconcile_loop now flow_run_id actor s ms
            (resolve_marker now flow_run_id actor tid outcome l) in
        (l', record r { resolved = (tid, outcome) ∷ r.resolved })
    | none ↦
        let (l', r) = reconcile_loop now flow_run_id actor s ms l in
        (l', record r { pending = (tid, marker_timeout m) ∷ r.pending })
  ]
]

-- `none` is the answer {"ok": False, "reason": "durable_relay_disabled"}.
unfoldable pub reconcile_worker_waits :
    (enabled : Bool) (now : ℕ) (flow_run_id actor : String) → Ledger → Ledger × Option Reconciled
reconcile_worker_waits enabled now flow_run_id actor l =
    if not enabled
    then (l, none)
    else let s = scan_from (list_flow_events flow_run_id l) empty_scan in
      let (l', r) = reconcile_loop now flow_run_id actor s s.pending_markers l in (l', some r)
