-- ===== src/Http/Servers.antt =====
-- ServersController (backend/src/servers/servers.controller.ts) behind the guards.
pub mod Laws
pub mod Limits
use elysia_panel.Prelude.{String, Bool, false, Option, none, some, List, [], ◌∷◌}
use elysia_panel.World.Schema.{RowId}
use elysia_panel.World.State.{Env}
use elysia_panel.World.Action.{Action, ◌>>=◌, gets}
use elysia_panel.Identity.{AuthenticatedUser}
use elysia_panel.Guards.{HttpRequest, guarded}
use elysia_panel.Nodes.Eligible.{Doubles}
use elysia_panel.Servers.Access.{list_for_user, find_accessible_or_throw}
use elysia_panel.Servers.Create
use elysia_panel.Servers.Manage
use elysia_panel.Servers.Power
use elysia_panel.Servers.Power.{PowerAction}
use elysia_panel.Http.Answer.{Answer, answer, with_user}
use elysia_panel.Http.Body.{Fields, create_server_dto, update_server_dto}

-- A handler with the parameters of its path and its body.
pub data ServersCall : Type 0 where
  list : ServersCall
  get : RowId → ServersCall
  create : Fields → ServersCall
  update : RowId → Fields → ServersCall
  reinstall : RowId → ServersCall
  add_allocation : RowId → ServersCall
  remove_allocation : RowId → RowId → ServersCall
  power : RowId → PowerAction → ServersCall
  send_command : RowId → String → ServersCall
  suspend : RowId → String → ServersCall
  unsuspend : RowId → ServersCall
  delete : RowId → ServersCall
  add_sub_user : RowId → RowId → List String → ServersCall
  remove_sub_user : RowId → RowId → ServersCall

-- `@RequirePermissions`
unfoldable pub required : ServersCall → List String
required list = "servers.read" ∷ []
required (get id) = "servers.read" ∷ []
required (create body) = "servers.create" ∷ []
required (update id body) = "servers.update" ∷ []
required (reinstall id) = "servers.update" ∷ []
required (add_allocation id) = "servers.update" ∷ []
required (remove_allocation id allocation_id) = "servers.update" ∷ []
required (power id action) = "servers.power" ∷ []
required (send_command id command) = "servers.console" ∷ []
required (suspend id reason) = "servers.suspend" ∷ []
required (unsuspend id) = "servers.suspend" ∷ []
required (delete id) = "servers.delete" ∷ []
required (add_sub_user id user_id permissions) = "servers.subusers" ∷ []
required (remove_sub_user id user_id) = "servers.subusers" ∷ []

-- `row_id` reads an identifier of a body.
module _ (env : Env) (doubles : Doubles) (row_id : String → RowId) where
  unfoldable pub handle : ServersCall → AuthenticatedUser → Action Answer
  handle list user = answer Answer.servers (gets (list_for_user user))
  handle (get id) user = answer Answer.server_view (find_accessible_or_throw id user)
  handle (create body) user = create_server_dto row_id body >>= λ dto.
      answer Answer.created_server (Create.create env doubles dto user)
  handle (update id body) user =
      update_server_dto body >>= λ dto. answer Answer.a_server (Manage.update id dto user)
  handle (reinstall id) user = answer (λ _. Answer.done) (Power.reinstall env id user)
  handle (add_allocation id) user = answer Answer.allocation (Manage.add_allocation env id user)
  handle (remove_allocation id allocation_id) user =
      answer (λ _. Answer.done) (Manage.remove_allocation id allocation_id user)
  handle (power id action) user = answer (λ _. Answer.done) (Power.power_action env id action user)
  handle (send_command id command) user =
      answer Answer.reply (Power.send_command env id command user)
  handle (suspend id reason) user = answer Answer.a_server (Power.suspend id reason user.id)
  handle (unsuspend id) user = answer Answer.a_server (Power.unsuspend id user.id)
  handle (delete id) user = answer (λ _. Answer.done) (Manage.delete env id user)
  handle (add_sub_user id user_id permissions) user =
      answer (λ _. Answer.done) (Manage.add_sub_user id user_id permissions user)
  handle (remove_sub_user id user_id) user =
      answer (λ _. Answer.done) (Manage.remove_sub_user id user_id user)

  -- A request to a handler of the controller.
  unfoldable pub serve : ServersCall → HttpRequest → Action Answer
  serve call = guarded env false (required call) (λ user. with_user user (handle call))
