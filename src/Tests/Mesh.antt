-- ===== src/Tests/Mesh.antt =====
-- The queue and the claims of src/control/db.py on small tables.
use ai_team.Prelude.{
  or_else, Option, ne_of_str_eq, ℕ, ◌≤◌, String, ◌≡◌, refl, ◌≢◌, ◌↔◌, true, false, none, some, List,
  ◌∷◌, arith, if◌then◌else◌, str_eq, All, length, select, exists, first, [],
}
use ai_team.Mesh.{same_id, plain, Task, pending, claimed, failed, completed, Node, online}
use ai_team.Mesh.Queue.{claimable, held_by, release_node_claims, get_task, get_pending_tasks}
use ai_team.Mesh.Queue.Claims.{race, race_one_winner}
use ai_team.Mesh.Queue.Invariant.{
  Write, claim, fail, release_node, IsConsistent, Settled, run, run-IsConsistent, run-Settled,
}
use ai_team.Mesh.Queue.Routing.{Offered, IsOrdered, get_pending_tasks-Offered}
use ai_team.Mesh.Queue.Sweep.{release_node_claims_lem}
use ai_team.Mesh.Stale.{incarnation_mismatch, claim_reason, joined, reaper_round}
use ai_team.Mesh.Stale.Evidence.{Evidence, LeaseIsOver, claim_reason_exact}
use ai_team.Mesh.Stale.Restart.{Registration, register, restart_orphans_claims}
use ai_team.Mesh.Stale.Reaper.{reaped, get_task-reaper_round}

abbrev pub waiting : Task
waiting = record {
  id = plain "t1";
  session_id = none;
  machine_id = none;
  backend = "claude";
  action = "run";
  payload = "{}";
  status = pending;
  claimed_by = none;
  claimed_at = none;
  claimer_incarnation = none;
  result = none;
  error = none;
  artifact_path = none;
  parent_task_id = none;
  prompt = none;
  reply_text = none;
  usage_json = none;
  files_modified_json = none;
  created_at = 1;
  updated_at = 1;
  completed_at = none;
}

abbrev pub held : Task
held = record waiting {
  id = plain "t2";
  status = claimed;
  claimed_by = some "n1";
  claimed_at = some 5;
  claimer_incarnation = some "i1";
}

abbrev ended : Task
ended = record waiting { id = plain "t3"; status = completed; completed_at = some 4 }

abbrev pub table : List Task
table = waiting ∷ held ∷ ended ∷ []

-- A worker that was restarted since it claimed.
abbrev pub restarted_node : Node
restarted_node = record {
  node_id = "n1";
  tailscale_ip = "";
  api_port = 9003;
  backends = "claude" ∷ [];
  max_concurrent = 2;
  status = online;
  last_heartbeat = 9;
  registered_at = 8;
  updated_at = 9;
  projects_root = "";
  repos = [];
  incarnation_id = some "i2";
  live_state = none;
  live_state_updated_at = none;
}

abbrev pub nodes : List Node
nodes = restarted_node ∷ []

race_one_winner_example :
    race (plain "t1") ((7, "n1", nodes) ∷ (8, "n2", nodes) ∷ []) table
    ≡ (if exists (claimable (plain "t1")) table then 1 else 0)
race_one_winner_example = race_one_winner (plain "t1") 7 "n1" nodes ((8, "n2", nodes) ∷ []) table

abbrev writes : List Write
writes =
    claim 7 (plain "t1") "n2" nodes
    ∷ fail 8 (plain "t1") "no reply" failed none none
    ∷ release_node 9 "n1"
    ∷ []

run-IsConsistent_example : IsConsistent (run writes table)
unfolding exists same_id str_eq
run-IsConsistent_example =
    run-IsConsistent writes table (tt, (refl, (tt, tt)))
      (record {
        unique = (refl, (refl, (refl, tt)));
        rows = ((refl, refl, refl), ((("n1", refl), (5, refl)), (tt, tt)));
      })

run-Settled_example : Settled (plain "t3") (run writes table)
unfolding get_task first same_id str_eq
run-Settled_example =
    run-Settled (plain "t3") writes table (tt, (refl, (tt, tt))) (ended, refl, refl)

get_pending_tasks-Offered_example :
    let page = get_pending_tasks (some "n1") ("claude" ∷ []) true 5 table in
    All (Offered "n1" ("claude" ∷ []) true) page × IsOrdered page × (length page ≤ 5)
unfolding str_eq
get_pending_tasks-Offered_example =
    get_pending_tasks-Offered "n1" ("claude" ∷ []) true 5 table (ne_of_str_eq "n1" "" refl)

release_node_claims_lem_example :
    let (swept, released) = release_node_claims 9 "n1" table in
    (exists (held_by "n1") swept ≡ false)
    × All (λ i. exists (claimable i) swept ≡ true) released
    × ((other : String)
        → "n1" ≢ other
        → select (held_by other) swept ≡ select (held_by other) table)
release_node_claims_lem_example = release_node_claims_lem 9 "n1" table

abbrev much_later : ℕ
much_later = 600000006

claim_reason_exact_example :
    (claim_reason much_later 600 120 3600 nodes held ≡ some incarnation_mismatch) ↔ (
      LeaseIsOver much_later 600 held
      × Evidence much_later 120 3600 held (joined nodes held) incarnation_mismatch)
claim_reason_exact_example =
    claim_reason_exact much_later 600 120 3600 nodes held incarnation_mismatch

abbrev overrun : Option String → String
overrun owner = or_else owner "None"

get_task-reaper_round_example :
    get_task (plain "t2") (reaper_round much_later 600 120 3600 overrun nodes table)
    ≡ some (reaped much_later 3600 overrun held (claim_reason much_later 600 120 3600 nodes held))
unfolding get_task first exists same_id str_eq
get_task-reaper_round_example =
    get_task-reaper_round much_later 600 120 3600 overrun nodes (plain "t2") table held
      (refl, (refl, (refl, tt))) refl

abbrev worker : Registration
worker = record {
  node_id = "n1";
  tailscale_ip = "";
  api_port = 9003;
  backends = "claude" ∷ [];
  max_concurrent = 2;
  projects_root = "";
  repos = [];
  incarnation = "i3";
}

restart_orphans_claims_example :
    claim_reason much_later 600 120 3600 (register 9 "i9" worker nodes) held
    ≡ some incarnation_mismatch
unfolding str_eq
restart_orphans_claims_example =
    restart_orphans_claims 9 much_later 600 120 3600 "i9" worker nodes held "i1" 5
      (ne_of_str_eq "i3" "" refl) (ne_of_str_eq "i3" "i1" refl) refl refl refl refl (omega arith)
