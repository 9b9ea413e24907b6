-- ===== src/Servers/Power.antt =====
-- Running a server: `powerAction`, `sendCommand`, `suspend`, `unsuspend` and `reinstall`.
pub mod Laws
use elysia_panel.Prelude.{String, Bool, true, false, Option, none, some, [], ◌∷◌, ◌==◌, concat}
use elysia_panel.World.Schema.{RowId, Server, ServerStatus, Severity, MetaValue}
use elysia_panel.World.Daemon.{Request, ReplyBody}
use elysia_panel.World.State.{World, Env, servers_t}
use elysia_panel.World.Action.{
  Action, ⊤, bad_request, ◌>>=◌, ◌>>◌, pure, throw_if, update_row, log, entry,
}
use elysia_panel.Identity.{AuthenticatedUser}
use elysia_panel.NodeClient.{call}
use elysia_panel.Servers.Access.{find_accessible_or_throw, endpoint_of}
use elysia_panel.Servers.Create.{spec_of}

pub data PowerAction : Type 0 where
  start stop restart kill : PowerAction

-- `grpcMethod`
abbrev pub power_request : PowerAction → String → Request
power_request start uuid = Request.start_server uuid
power_request stop uuid = Request.stop_server uuid
power_request restart uuid = Request.restart_server uuid
power_request kill uuid = Request.kill_server uuid

-- `optimisticStatus`
abbrev pub optimistic_status : PowerAction → ServerStatus
optimistic_status start = ServerStatus.starting
optimistic_status stop = ServerStatus.stopping
optimistic_status restart = ServerStatus.starting
optimistic_status kill = ServerStatus.offline

abbrev pub action_name : PowerAction → String
action_name start = "start"
action_name stop = "stop"
action_name restart = "restart"
action_name kill = "kill"

-- `suspend`
unfoldable pub suspend : RowId → String → RowId → Action Server
suspend id reason actor_id = do
  server ←
      update_row servers_t (λ s. s.id == id)
        (λ s. record s {
          suspended = true;
          suspended_reason = some reason;
          status = ServerStatus.suspended;
        })
  log (record (entry actor_id "server.suspend" "Server" id) {
    severity = some Severity.warning;
    metadata = ("reason", MetaValue.text reason) ∷ [];
  })
  pure server

-- `unsuspend`
unfoldable pub unsuspend : RowId → RowId → Action Server
unsuspend id actor_id = do
  server ←
      update_row servers_t (λ s. s.id == id)
        (λ s. record s {
          suspended = false;
          suspended_reason = none;
          status = ServerStatus.offline;
        })
  log (entry actor_id "server.unsuspend" "Server" id)
  pure server

module _ (env : Env) where
  -- `powerAction`
  unfoldable pub power_action : RowId → PowerAction → AuthenticatedUser → Action ⊤
  power_action id action actor = do
    server ← find_accessible_or_throw id actor
    throw_if server.suspended (bad_request "Serveur suspendu")
    update_row servers_t (λ s. s.id == id) (λ s. record s { status = optimistic_status action })
    call env server.node_id (endpoint_of server.node) (power_request action server.uuid)
    log (entry actor.id (concat "server.power." (action_name action)) "Server" id)

  -- `sendCommand`
  unfoldable pub send_command : RowId → String → AuthenticatedUser → Action ReplyBody
  send_command id command actor = do
    server ← find_accessible_or_throw id actor
    call env server.node_id (endpoint_of server.node) (Request.send_command server.uuid command)

  -- `reinstall`
  unfoldable pub reinstall : RowId → AuthenticatedUser → Action ⊤
  reinstall id actor = do
    server ← find_accessible_or_throw id actor
    call env server.node_id (endpoint_of server.node)
        (Request.reinstall_server (spec_of server.server server.template server.allocations))
    update_row servers_t (λ s. s.id == id) (λ s. record s { status = ServerStatus.offline })
    log (entry actor.id "server.reinstall" "Server" id)
