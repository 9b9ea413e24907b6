-- ===== src/Servers/Access.antt =====
-- Who may see a server: `listForUser` and `findAccessibleOrThrow` of
-- backend/src/servers/servers.service.ts.
pub mod Laws
use elysia_panel.Prelude.{
  Bool, true, List, ◌&&◌, ◌||◌, not, ◌==◌, includes, any, if◌then◌else◌, reverse, select, is_for,
}
use elysia_panel.World.Schema.{
  RowId, Node, NetworkAllocation, ServerTemplate, Server, ServerSubUser,
}
use elysia_panel.World.Daemon.{Endpoint}
use elysia_panel.World.State.{World, servers_t, nodes_t, templates_t, allocations_t, sub_users_t}
use elysia_panel.World.Action.{
  Action, not_found, forbidden, ◌>>=◌, ◌>>◌, pure, throw_if, or_throw, find_unique, find_or_throw,
  find_many,
}
use elysia_panel.Identity.{AuthenticatedUser}

-- A server with what the query includes.
pub record ServerView : Type 0 where
  pub server : Server
  pub open server use *
  pub node : Node
  pub template : ServerTemplate
  pub allocations : List NetworkAllocation
  pub sub_users : List ServerSubUser

abbrev pub endpoint_of : Node → Endpoint
endpoint_of n = record { host = n.grpc_host; port = n.grpc_port }

abbrev pub reads_any : AuthenticatedUser → Bool
reads_any user = includes user.permissions "*" || includes user.permissions "servers.read.any"

-- An administrator, the owner, or a sub-user of the server.
unfoldable pub may_access : AuthenticatedUser → Server → List ServerSubUser → Bool
may_access user server sub_users =
    reads_any user || server.owner_id == user.id || any (λ su. su.user_id == user.id) sub_users

-- `listForUser`, newest first.
unfoldable pub list_for_user : AuthenticatedUser → World → List Server
list_for_user user w =
    reverse (if reads_any user then w.servers else select (λ s. s.owner_id == user.id) w.servers)

unfoldable pub find_accessible_or_throw : RowId → AuthenticatedUser → Action ServerView
unfolding may_access
find_accessible_or_throw id user = do
  found ← find_unique servers_t (λ s. s.id == id)
  server ← or_throw found (not_found "Serveur introuvable")
  node ← find_or_throw nodes_t (λ n. n.id == server.node_id)
  template ← find_or_throw templates_t (λ t. t.id == server.template_id)
  allocations ← find_many allocations_t (λ a. is_for server.id a.server_id)
  sub_users ← find_many sub_users_t (λ su. su.server_id == id)
  throw_if (not (may_access user server sub_users)) (forbidden "Vous n'avez pas accès à ce serveur")
  pure (record {
    server = server;
    node = node;
    template = template;
    allocations = allocations;
    sub_users = sub_users;
  })
