-- ===== src/Mesh/Stale/Restart.antt =====
-- The claims of a worker that registers again: upsert_node and list_stale_claims of
-- src/control/db.py.
use mathlib.Core.Option
use ai_team.Prelude.{
  first-update_same, first-none-exists, ℕ, ◌+◌, ◌*◌, ◌<◌, String, ◌≡◌, refl, ap, ◌∙◌, ◌≢◌, inl, inr,
  true, false, none, some, List, ◌∷◌, arith, str_eq, str_eq_refl, str_eq_of_ne, Option-cases, first,
  first-append, first-some-exists, [],
}
use ai_team.Mesh.{Task, claimed, Node, online}
use ai_team.Mesh.Nodes.{is_node, over_old, upsert_row, upsert_node}
use ai_team.Mesh.Stale.{
  second, incarnation_mismatch, mismatch, online_reason, node_reason, joined, claim_reason,
}

-- What a worker registers.
pub record Registration : Type 0 where
  pub node_id : String
  pub tailscale_ip : String
  pub api_port : ℕ
  pub backends : List String
  pub max_concurrent : ℕ
  pub projects_root : String
  pub repos : List String
  pub incarnation : String

abbrev pub register : ℕ → String → Registration → List Node → List Node
register now minted r nodes =
    (upsert_node now minted r.node_id r.tailscale_ip r.api_port r.backends r.max_concurrent online
      r.projects_root r.repos (some r.incarnation) nodes).0

upserted :
    (row : Node) (nodes : List Node)
    → (n : Node) × (first (is_node row.node_id) (upsert_row row nodes) ≡ some n)
      × (n.status ≡ row.status)
      × (n.incarnation_id ≡ row.incarnation_id)
unfolding upsert_row
upserted row nodes =
    let p = is_node row.node_id in
    elim (Option-cases (first p nodes)) [
      | inl new ↦
          let absent = first-none-exists p nodes new in
          let here : first p (row ∷ []) ≡ some row =
            unfold first in ground (arith, str_eq_refl row.node_id) in
          (row, rw absent (first-append p nodes (row ∷ []) absent ∙ here), refl, refl)
      | inr (old, found) ↦
          let there = first-some-exists p nodes old found in
          let after = first-update_same p (over_old row) nodes (λ x h. str_eq_refl row.node_id) in
          (over_old row old, rw there (after ∙ ap (Option.map (over_old row)) found), refl, refl)
    ]

registered :
    (now : ℕ) (minted : String) (r : Registration) (nodes : List Node)
    → str_eq r.incarnation "" ≡ false
    → (n : Node) × (first (is_node r.node_id) (register now minted r nodes) ≡ some n)
      × (n.status ≡ online)
      × (n.incarnation_id ≡ some r.incarnation)
unfolding upsert_node
registered now minted r nodes given = rw given (
    upserted
      (record {
        node_id = r.node_id;
        tailscale_ip = r.tailscale_ip;
        api_port = r.api_port;
        backends = r.backends;
        max_concurrent = r.max_concurrent;
        status = online;
        last_heartbeat = now;
        registered_at = now;
        updated_at = now;
        projects_root = r.projects_root;
        repos = r.repos;
        incarnation_id = some r.incarnation;
        live_state = none;
        live_state_updated_at = none;
      })
      nodes)

-- After a worker registered again with an incarnation of its own that is not the one under which
-- it claimed a task, its claim is reported as an incarnation mismatch once its lease is over.
pub restart_orphans_claims :
    (now later lease max_age limit : ℕ) (minted : String) (r : Registration) (nodes : List Node)
    (t : Task) (before : String) (at : ℕ)
    → r.incarnation ≢ ""
    → r.incarnation ≢ before
    → t.status ≡ claimed
    → t.claimed_by ≡ some r.node_id
    → t.claimer_incarnation ≡ some before
    → t.claimed_at ≡ some at
    → at + lease * second < later
    → claim_reason later lease max_age limit (register now minted r nodes) t
      ≡ some incarnation_mismatch
restart_orphans_claims now later lease max_age limit minted r nodes t before at given changed held
      owner under since over =
    let (n, found, up, current) =
      registered now minted r nodes (str_eq_of_ne r.incarnation "" given) in
    let row : joined (register now minted r nodes) t ≡ some n = unfold joined in rw owner found in
    let apart : mismatch t.claimer_incarnation n.incarnation_id ≡ true =
      unfold mismatch in
      rw (under, current) (ground (arith, str_eq_of_ne r.incarnation before changed)) in
    unfold claim_reason node_reason online_reason in
    ground (arith, held, since, over, row, up, apart)
