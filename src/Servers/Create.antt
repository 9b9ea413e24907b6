-- ===== src/Servers/Create.antt =====
-- `ServersService.create` and `provisionOnNode`.
use elysia_panel.Prelude.{
  ℕ, String, Bool, true, false, Option, none, some, List, [], ◌∷◌, map, ◌&&◌, not, ◌==◌, includes,
  is_for, concat, same, any, ◌||◌,
}
use elysia_panel.Prelude.Int.{pos, ◌+ℤ◌}
use elysia_panel.World.Schema.{
  RowId, Node, ServerTemplate, Server, ServerStatus, NetworkAllocation, Environment, MetaValue,
}
use elysia_panel.World.Daemon.{Endpoint, ServerSpec, Request}
use elysia_panel.World.State.{Env, nodes_t, templates_t, servers_t, allocations_t}
use elysia_panel.World.Action.{
  Action, ⊤, bad_request, forbidden, foreign_key_violation, gets, ◌>>=◌, ◌>>◌, pure, throw,
  throw_if, or_throw, catch, transaction, find_unique, find_or_throw, find_many, create_row,
  update_row, draw, log, entry,
}
use elysia_panel.Identity.{AuthenticatedUser}
use elysia_panel.NodeClient.{call}
use elysia_panel.Nodes.Eligible.{Doubles, find_eligible_node}
use elysia_panel.Servers.Ports.{allocate_port}

pub record CreateServer : Type 0 where
  pub name : String
  pub description : Option String
  pub template_id : RowId
  pub cpu_limit_pct : ℕ
  pub memory_limit_mb : ℕ
  pub disk_limit_mb : ℕ
  pub environment : Option Environment
  pub owner_id : Option RowId

-- `dto.ownerId && dto.ownerId !== actor.id`
abbrev pub is_for_other : CreateServer → AuthenticatedUser → Bool
is_for_other dto actor = elim dto.owner_id [ none ↦ false | some o ↦ not (o == actor.id) ]

-- `dto.ownerId ?? actor.id`
abbrev pub owner_or_actor : CreateServer → AuthenticatedUser → RowId
owner_or_actor dto actor = elim dto.owner_id [ none ↦ actor.id | some o ↦ o ]

abbrev environment_or_empty : Option Environment → Environment
environment_or_empty none = []
environment_or_empty (some e) = e

-- The row as the transaction leaves it, with the defaults of the schema.
abbrev pub new_server : RowId → String → CreateServer → RowId → RowId → ServerTemplate → Server
new_server id uuid dto owner_id node_id template = record {
  id = id;
  uuid = uuid;
  name = dto.name;
  description = dto.description;
  owner_id = owner_id;
  node_id = node_id;
  template_id = template.id;
  game_type = template.game_type;
  docker_image = template.docker_image;
  status = ServerStatus.installing;
  suspended = false;
  suspended_reason = none;
  cpu_limit_pct = dto.cpu_limit_pct;
  memory_limit_mb = dto.memory_limit_mb;
  disk_limit_mb = dto.disk_limit_mb;
  swap_limit_mb = 0;
  io_weight = 500;
  environment = environment_or_empty dto.environment;
  startup_command = template.startup_command;
  data_path = "";
}

-- The node with the limits of a new server added to what it has allocated.
abbrev pub charged : ℕ → ℕ → ℕ → Node → Node
charged cpu memory disk n = record n {
  cpu_allocated_pct = n.cpu_allocated_pct +ℤ pos cpu;
  memory_allocated_mb = n.memory_allocated_mb +ℤ pos memory;
  disk_allocated_mb = n.disk_allocated_mb +ℤ pos disk;
}

-- A row of a port of every interface of the node.
abbrev pub new_allocation : RowId → RowId → ℕ → RowId → Bool → NetworkAllocation
new_allocation id node_id port server_id is_primary = record {
  id = id;
  node_id = node_id;
  ip = "0.0.0.0";
  port = port;
  server_id = some server_id;
  is_primary = is_primary;
}

pub record Created : Type 0 where
  pub server : Server
  pub port : ℕ

abbrev pub spec_of : Server → ServerTemplate → List NetworkAllocation → ServerSpec
spec_of server template allocations = record {
  server_uuid = server.uuid;
  docker_image = server.docker_image;
  startup_command = server.startup_command;
  cpu_limit_pct = server.cpu_limit_pct;
  memory_limit_mb = server.memory_limit_mb;
  disk_limit_mb = server.disk_limit_mb;
  swap_limit_mb = server.swap_limit_mb;
  io_weight = server.io_weight;
  environment = server.environment;
  ports = map (λ a. record { ip = a.ip; port = a.port; protocol = "tcp" }) allocations;
  install_script = elim template.install_script [ none ↦ "" | some script ↦ script ];
}

abbrev pub same_address : RowId → ℕ → NetworkAllocation → Bool
same_address node_id port a = a.node_id == node_id && same a.ip "0.0.0.0" && a.port == port

module _ (env : Env) where
  -- `networkAllocation.create`, under the unique constraint on (node, ip, port).
  unfoldable pub create_allocation : RowId → ℕ → RowId → Bool → Action NetworkAllocation
  create_allocation node_id port server_id is_primary = do
    id ← draw env.uuid
    create_row allocations_t (same_address node_id port)
        (new_allocation id node_id port server_id is_primary)

  -- The body of the transaction.
  unfoldable pub insert_server : CreateServer → RowId → Node → ServerTemplate → Action Created
  unfolding create_allocation
  insert_server dto owner_id node template = do
    id ← draw env.uuid
    uuid ← draw env.uuid_text
    created ←
        create_row servers_t (λ s. s.id == id || same s.uuid uuid)
          (new_server id uuid dto owner_id node.id template)
    stored ← gets (λ w. any (λ u. u.id == owner_id) w.users)
    throw_if (not stored) foreign_key_violation
    server ←
        update_row servers_t (λ s. s.id == id)
          (λ s. record s { data_path = concat "/srv/elysia/servers/" uuid })
    update_row nodes_t (λ n. n.id == node.id)
        (charged dto.cpu_limit_pct dto.memory_limit_mb dto.disk_limit_mb)
    port ← allocate_port node.id
    create_allocation node.id port id true
    pure (record { server = server; port = port })

  -- `create` from the transaction on.
  unfoldable pub place : CreateServer → AuthenticatedUser → ServerTemplate → Node → Action Created
  place dto actor template node = do
    created ← transaction (insert_server dto (owner_or_actor dto actor) node template)
    log (record (entry actor.id "server.create" "Server" created.server.id) {
      metadata = ("name", MetaValue.text dto.name) ∷ ("nodeId", MetaValue.ref node.id) ∷ [];
    })
    pure created

  -- `create`, up to the provisioning that it starts and does not await.
  unfoldable pub create : Doubles → CreateServer → AuthenticatedUser → Action Created
  create d dto actor = do
    throw_if (is_for_other dto actor && not (includes actor.permissions "*"))
        (forbidden "Seul un administrateur peut créer un serveur pour un autre utilisateur")
    found ← find_unique templates_t (λ t. t.id == dto.template_id)
    template ← or_throw found (bad_request "Template de serveur introuvable")
    node ← find_eligible_node d (record {
      cpu_pct = dto.cpu_limit_pct;
      memory_mb = dto.memory_limit_mb;
      disk_mb = dto.disk_limit_mb;
    })
    place dto actor template node

  -- `provisionOnNode`: the background job that `create` starts.
  unfoldable pub provision_on_node : RowId → RowId → Endpoint → Action ⊤
  provision_on_node server_id node_id params = do
    server ← find_or_throw servers_t (λ s. s.id == server_id)
    template ← find_or_throw templates_t (λ t. t.id == server.template_id)
    allocations ← find_many allocations_t (λ a. is_for server_id a.server_id)
    catch
        (do
          call env node_id params (Request.create_server (spec_of server template allocations))
          update_row servers_t (λ s. s.id == server_id)
              (λ s. record s { status = ServerStatus.offline })
          pure tt)
        (λ e. do
          update_row servers_t (λ s. s.id == server_id)
              (λ s. record s { status = ServerStatus.install_failed })
          throw e)
