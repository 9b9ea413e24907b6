-- ===== src/Nodes.antt =====
-- NodesService (backend/src/nodes/nodes.service.ts).
pub mod Eligible
use elysia_panel.Prelude.{
  ℕ, String, Bool, true, false, Option, none, some, List, [], ltb, ◌==◌, same, count_rows,
  delete_rows, if◌then◌else◌, any, ◌∷◌,
}
use elysia_panel.Prelude.Int.{pos}
use elysia_panel.World.Schema.{RowId, Node, NodeStatus, Severity}
use elysia_panel.World.Daemon.{Endpoint, Request}
use elysia_panel.World.State.{World, Env, nodes_t, allocations_t}
use elysia_panel.World.Action.{
  Action, Exception, bad_request, forbidden, not_found, unauthorized, conflict, rpc_error, internal,
  record_missing, unique_violation, foreign_key_violation, invalid_cron, ⊤, ◌>>=◌, ◌>>◌, pure, gets,
  throw_if, or_throw, catch, find_unique, create_row, update_row, delete_row, delete_many, draw,
  log, entry,
}
use elysia_panel.NodeClient.{call, disconnect}

pub record CreateNode : Type 0 where
  pub name : String
  pub fqdn : String
  pub region : Option String
  pub grpc_host : String
  pub grpc_port : Option ℕ
  pub cpu_cores : ℕ
  pub memory_mb : ℕ
  pub disk_mb : ℕ
  pub docker_network_subnet : String

abbrev port_or_default : Option ℕ → ℕ
port_or_default none = 9501
port_or_default (some p) = p

-- The row that `create` writes, with the defaults of the schema.
abbrev pub new_node : RowId → CreateNode → Node
new_node id dto = record {
  id = id;
  name = dto.name;
  fqdn = dto.fqdn;
  region = dto.region;
  status = NodeStatus.offline;
  maintenance_mode = false;
  grpc_host = dto.grpc_host;
  grpc_port = port_or_default dto.grpc_port;
  cpu_cores = dto.cpu_cores;
  memory_mb = dto.memory_mb;
  disk_mb = dto.disk_mb;
  cpu_allocated_pct = pos 0;
  memory_allocated_mb = pos 0;
  disk_allocated_mb = pos 0;
  overallocate_cpu_pct = 0;
  overallocate_mem_pct = 0;
  overallocate_disk_pct = 0;
  docker_network_subnet = dto.docker_network_subnet;
  last_heartbeat_at = none;
}

unfoldable pub find_by_id_or_throw : RowId → Action Node
find_by_id_or_throw id = do
  found ← find_unique nodes_t (λ n. n.id == id)
  or_throw found (not_found "Node introuvable")

unfoldable pub set_maintenance : RowId → Bool → RowId → Action Node
set_maintenance id enabled actor_id = do
  node ←
      update_row nodes_t (λ n. n.id == id)
        (λ n. record n {
          maintenance_mode = enabled;
          status = if enabled then NodeStatus.maintenance else NodeStatus.online;
        })
  log
      (record (entry actor_id
        (if enabled then "node.maintenance.enable" else "node.maintenance.disable") "Node" id) {
          severity = some Severity.warning;
        })
  pure node

-- `delete`: refused while servers remain. The allocations of the node go with it.
unfoldable pub delete : RowId → RowId → Action ⊤
delete id actor_id = do
  remaining ← gets (λ w. count_rows (λ s. s.node_id == id) w.servers)
  throw_if (ltb 0 remaining) (bad_request "Impossible de supprimer ce node")
  disconnect id
  delete_row nodes_t (λ n. n.id == id)
  delete_many allocations_t (λ a. a.node_id == id)
  log (record (entry actor_id "node.delete" "Node" id) { severity = some Severity.warning })

pub record Health : Type 0 where
  pub online : Bool
  pub error : Option String

module _ (env : Env) where
  -- `err.message`
  abbrev pub message_of : Exception → String
  message_of (bad_request m) = m
  message_of (forbidden m) = m
  message_of (not_found m) = m
  message_of (unauthorized m) = m
  message_of (conflict m) = m
  message_of (rpc_error m) = m
  message_of (internal m) = m
  message_of record_missing = env.error_text "P2025"
  message_of unique_violation = env.error_text "P2002"
  message_of foreign_key_violation = env.error_text "P2003"
  message_of invalid_cron = env.error_text "cron"

  unfoldable pub create : CreateNode → RowId → Action Node
  create dto actor_id = do
    id ← draw env.uuid
    node ← create_row nodes_t (λ n. same n.name dto.name) (new_node id dto)
    log (entry actor_id "node.create" "Node" id)
    pure node

  unfoldable pub health_check : RowId → Action Health
  unfolding find_by_id_or_throw
  health_check id = do
    node ← find_by_id_or_throw id
    let params : Endpoint = record { host = node.grpc_host; port = node.grpc_port }
    catch
        (do
          call env node.id params Request.ping
          now ← gets (λ w. w.now)
          update_row nodes_t (λ n. n.id == id)
              (λ n. record n { status = NodeStatus.online; last_heartbeat_at = some now })
          pure (record { online = true; error = none }))
        (λ e. do
          update_row nodes_t (λ n. n.id == id) (λ n. record n { status = NodeStatus.offline })
          pure (record { online = false; error = some (message_of e) }))
