-- ===== src/Servers/Manage.antt =====
-- The rest of ServersService: `delete`, `update`, allocations and sub-users.
use elysia_panel.Prelude.{
  String, Bool, false, Option, none, some, List, [], ◌∷◌, ◌++◌, ◌&&◌, not, ◌==◌, includes, is_for,
  any, if◌then◌else◌,
}
use elysia_panel.Prelude.Int.{pos, ◌-ℤ◌}
use elysia_panel.World.Schema.{
  RowId, Node, Server, NetworkAllocation, Environment, MetaValue, Severity,
}
use elysia_panel.World.Daemon.{Request}
use elysia_panel.World.State.{
  Env, servers_t, nodes_t, allocations_t, sub_users_t, backups_t, tasks_t, mods_t,
}
use elysia_panel.World.Action.{
  Action, ⊤, err, ok, bad_request, forbidden, not_found, foreign_key_violation, ◌>>=◌, ◌>>◌, pure,
  throw_if, or_throw, catch, transaction, find_unique, update_row, update_many, delete_row,
  delete_many, log, entry,
}
use elysia_panel.Identity.{AuthenticatedUser}
use elysia_panel.NodeClient.{call}
use elysia_panel.Servers.Access.{ServerView, find_accessible_or_throw, endpoint_of}
use elysia_panel.Servers.Create.{create_allocation}
use elysia_panel.Servers.Ports.{allocate_port}

-- The node with the limits of a deleted server taken off.
abbrev pub discharged : Server → Node → Node
discharged s n = record n {
  cpu_allocated_pct = n.cpu_allocated_pct -ℤ pos s.cpu_limit_pct;
  memory_allocated_mb = n.memory_allocated_mb -ℤ pos s.memory_limit_mb;
  disk_allocated_mb = n.disk_allocated_mb -ℤ pos s.disk_limit_mb;
}

-- `server.delete` with the actions of the foreign keys: an allocation loses its server and stays,
-- sub-users, tasks, backups and mods go.
unfoldable pub delete_server_row : RowId → Action ⊤
delete_server_row id = do
  delete_row servers_t (λ s. s.id == id)
  update_many allocations_t (λ a. is_for id a.server_id) (λ a. record a { server_id = none })
  delete_many sub_users_t (λ su. su.server_id == id)
  delete_many tasks_t (λ t. t.server_id == id)
  delete_many backups_t (λ b. b.server_id == id)
  delete_many mods_t (λ m. m.server_id == id)

-- The two writes of the transaction of `delete`.
unfoldable pub remove_server : Server → RowId → Action ⊤
unfolding delete_server_row
remove_server server id = do
  update_row nodes_t (λ n. n.id == server.node_id) (discharged server)
  delete_server_row id

pub record UpdateServer : Type 0 where
  pub name : Option String
  pub description : Option String
  pub docker_image : Option String
  pub startup_command : Option String
  pub environment : Option Environment

-- A field of `data` that is undefined is left alone.
abbrev or_old : {A : Type 0} → Option A → A → A
or_old none old = old
or_old (some new) old = new

abbrev or_old_some : {A : Type 0} → Option A → Option A → Option A
or_old_some none old = old
or_old_some (some new) old = some new

abbrev pub updated : UpdateServer → Server → Server
updated dto s = record s {
  name = or_old dto.name s.name;
  description = or_old_some dto.description s.description;
  docker_image = or_old dto.docker_image s.docker_image;
  startup_command = or_old dto.startup_command s.startup_command;
  environment = or_old dto.environment s.environment;
}

abbrev field_name : {A : Type 0} → String → Option A → List String
field_name name none = []
field_name name (some _) = name ∷ []

-- `Object.keys(dto)`
abbrev fields_of : UpdateServer → List String
fields_of dto =
    field_name "name" dto.name
    ++ field_name "description" dto.description
    ++ field_name "dockerImage" dto.docker_image
    ++ field_name "startupCommand" dto.startup_command
    ++ field_name "environment" dto.environment

-- `update`
unfoldable pub update : RowId → UpdateServer → AuthenticatedUser → Action Server
update id dto actor = do
  find_accessible_or_throw id actor
  server ← update_row servers_t (λ s. s.id == id) (updated dto)
  log (record (entry actor.id "server.update" "Server" id) {
    metadata = ("fields", MetaValue.texts (fields_of dto)) ∷ [];
  })
  pure server

-- `removeAllocation`
unfoldable pub remove_allocation : RowId → RowId → AuthenticatedUser → Action ⊤
remove_allocation server_id allocation_id actor = do
  find_accessible_or_throw server_id actor
  found ← find_unique allocations_t (λ a. a.id == allocation_id)
  allocation ← or_throw found (not_found "Allocation introuvable")
  throw_if (not (is_for server_id allocation.server_id)) (not_found "Allocation introuvable")
  throw_if allocation.is_primary (bad_request "Impossible de supprimer l'allocation primaire")
  delete_row allocations_t (λ a. a.id == allocation_id)
  log (record (entry actor.id "server.allocation.remove" "Server" server_id) {
    metadata = ("port", MetaValue.number allocation.port) ∷ [];
  })

-- `server.ownerId !== actor.id && !actor.permissions.includes('*')`
abbrev not_manager : Server → AuthenticatedUser → Bool
not_manager server actor = not (server.owner_id == actor.id) && not (includes actor.permissions "*")

-- The upsert of a sub-user, under the foreign key of its user.
unfoldable pub upsert_sub_user : RowId → RowId → List String → Action ⊤
upsert_sub_user server_id user_id permissions w =
    if any (λ su. su.server_id == server_id && su.user_id == user_id) w.sub_users
    then update_many sub_users_t (λ su. su.server_id == server_id && su.user_id == user_id)
        (λ su. record su { permissions = permissions }) w
    else if any (λ u. u.id == user_id) w.users
    then (
      ok tt,
      record w {
        sub_users =
            w.sub_users
            ++ record { server_id = server_id; user_id = user_id; permissions = permissions } ∷ [];
      },
    )
    else (err foreign_key_violation, w)

-- `addSubUser`
unfoldable pub add_sub_user : RowId → RowId → List String → AuthenticatedUser → Action ⊤
unfolding upsert_sub_user
add_sub_user server_id user_id permissions actor = do
  server ← find_accessible_or_throw server_id actor
  throw_if (not_manager server.server actor)
      (forbidden "Seul le propriétaire peut gérer les sous-utilisateurs")
  upsert_sub_user server_id user_id permissions

-- `removeSubUser`
unfoldable pub remove_sub_user : RowId → RowId → AuthenticatedUser → Action ⊤
remove_sub_user server_id user_id actor = do
  server ← find_accessible_or_throw server_id actor
  throw_if (not_manager server.server actor)
      (forbidden "Seul le propriétaire peut gérer les sous-utilisateurs")
  delete_row sub_users_t (λ su. su.server_id == server_id && su.user_id == user_id)
  pure tt

module _ (env : Env) where
  -- The remote deletion, whose failure is only logged.
  unfoldable pub delete_remotely : ServerView → Action ⊤
  delete_remotely server =
      catch
        (do
          call env server.node_id (endpoint_of server.node) (Request.delete_server server.uuid)
          pure tt)
        (λ _. pure tt)

  -- `delete`: a daemon that cannot be reached does not stop it.
  unfoldable pub delete : RowId → AuthenticatedUser → Action ⊤
  delete id actor = do
    server ← find_accessible_or_throw id actor
    delete_remotely server
    transaction (remove_server server.server id)
    log (record (entry actor.id "server.delete" "Server" id) { severity = some Severity.warning })

  -- The transaction of `addAllocation`.
  unfoldable pub insert_allocation : RowId → RowId → Action NetworkAllocation
  insert_allocation node_id server_id = do
    port ← allocate_port node_id
    create_allocation env node_id port server_id false

  -- `addAllocation`
  unfoldable pub add_allocation : RowId → AuthenticatedUser → Action NetworkAllocation
  unfolding insert_allocation
  add_allocation server_id actor = do
    server ← find_accessible_or_throw server_id actor
    allocation ← transaction (insert_allocation server.node_id server_id)
    log (record (entry actor.id "server.allocation.add" "Server" server_id) {
      metadata = ("port", MetaValue.number allocation.port) ∷ [];
    })
    pure allocation
