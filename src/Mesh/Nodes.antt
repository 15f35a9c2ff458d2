-- ===== src/Mesh/Nodes.antt =====
-- The node table of src/control/db.py: registration, heartbeat and the offline mark.
use ai_team.Prelude.{
  ℕ, String, Bool, Option, none, some, List, ◌∷◌, ◌++◌, str_eq, coalesce, or_else, if◌then◌else◌,
  exists, first, update_where, [],
}
use ai_team.Mesh.{Node, NodeStatus, online, offline, LiveState}

abbrev pub is_node : String → Node → Bool
is_node node n = str_eq n.node_id node

-- The row of a first registration.
abbrev pub new_row :
    ℕ → String → String → ℕ → List String → ℕ → NodeStatus → String → List String → String → Node
new_row now node_id tailscale_ip api_port backends max_concurrent status projects_root repos
      incarnation =
    record {
      node_id = node_id;
      tailscale_ip = tailscale_ip;
      api_port = api_port;
      backends = backends;
      max_concurrent = max_concurrent;
      status = status;
      last_heartbeat = now;
      registered_at = now;
      updated_at = now;
      projects_root = projects_root;
      repos = repos;
      incarnation_id = some incarnation;
      live_state = none;
      live_state_updated_at = none;
    }

-- DO UPDATE SET: the columns that a row that is there keeps.
abbrev pub over_old : Node → Node → Node
over_old row n = record row {
  registered_at = n.registered_at;
  live_state = n.live_state;
  live_state_updated_at = n.live_state_updated_at;
}

-- ON CONFLICT(node_id)
unfoldable pub upsert_row : Node → List Node → List Node
upsert_row row nodes =
    if exists (is_node row.node_id) nodes
    then update_where (is_node row.node_id) (over_old row) nodes
    else nodes ++ row ∷ []

-- INSERT … ON CONFLICT(node_id) DO UPDATE. `minted` is the uuid that is taken when the worker
-- sends no incarnation of its own (an empty one counts as none); the incarnation is returned.
unfoldable pub upsert_node :
    (now : ℕ) (minted node_id tailscale_ip : String) (api_port : ℕ) (backends : List String)
    (max_concurrent : ℕ) (status : NodeStatus) (projects_root : String) (repos : List String)
    (incarnation_id : Option String)
    → List Node
    → List Node × String
upsert_node now minted node_id tailscale_ip api_port backends max_concurrent status projects_root
      repos incarnation_id nodes =
    let given = or_else incarnation_id "" in
    let incarnation = if str_eq given "" then minted else given in
    (
      upsert_row
          (new_row now node_id tailscale_ip api_port backends max_concurrent status projects_root
            repos incarnation)
          nodes,
      incarnation,
    )

unfoldable pub heartbeat_node : ℕ → String → Option LiveState → List Node → List Node
heartbeat_node now node live_state = update_where (is_node node) λ n. record n {
  last_heartbeat = now;
  status = online;
  updated_at = now;
  live_state = coalesce live_state n.live_state;
  live_state_updated_at = elim live_state [ none ↦ n.live_state_updated_at | some l ↦ some now ];
}

unfoldable pub mark_node_offline : ℕ → String → List Node → List Node
mark_node_offline now node =
    update_where (is_node node) λ n. record n { status = offline; updated_at = now }

unfoldable pub get_node : String → List Node → Option Node
get_node node = first (is_node node)
