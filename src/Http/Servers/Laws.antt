-- ===== src/Http/Servers/Laws.antt =====
-- Someone whom `findAccessibleOrThrow` turns away gets nothing done through the controller.
use elysia_panel.Prelude.{String, false, ◌≡◌, Option, none, some, arith, inl, inr}
use elysia_panel.World.Schema.{RowId}
use elysia_panel.World.State.{World, Env}
use elysia_panel.World.Action.{Exception, err, ok, Result-cases}
use elysia_panel.Identity.{AuthenticatedUser}
use elysia_panel.Guards.{HttpRequest, is_metrics, is_docs, guarded, jwt_auth_guard, authenticate}
use elysia_panel.Guards.Laws.{permissions_cases}
use elysia_panel.Nodes.Eligible.{Doubles}
use elysia_panel.Servers.Access.{find_accessible_or_throw}
use elysia_panel.Servers.Access.Laws.{find_accessible-state}
use elysia_panel.Denied.{servers_denied}
use elysia_panel.Http.Body.{update_server_dto}
use elysia_panel.Http.Body.Laws.{update_server_dto-state}
use elysia_panel.Http.Servers.{
  ServersCall, list, get, create, update, reinstall, add_allocation, remove_allocation, power,
  send_command, suspend, unsuspend, delete, add_sub_user, remove_sub_user, required, handle, serve,
}

-- The server that a call is about, if its handler looks it up for the caller: the handlers of
-- `suspend` and `unsuspend` do not.
abbrev pub accessed : ServersCall → Option RowId
accessed list = none
accessed (get id) = some id
accessed (create body) = none
accessed (update id body) = some id
accessed (reinstall id) = some id
accessed (add_allocation id) = some id
accessed (remove_allocation id allocation_id) = some id
accessed (power id action) = some id
accessed (send_command id command) = some id
accessed (suspend id reason) = none
accessed (unsuspend id) = none
accessed (delete id) = some id
accessed (add_sub_user id user_id permissions) = some id
accessed (remove_sub_user id user_id) = some id

module _ (env : Env) (doubles : Doubles) (row_id : String → RowId) (id : RowId)
    (user : AuthenticatedUser) (w : World) (e : Exception) where
  -- The handler throws and changes nothing.
  handle_denied :
      (call : ServersCall)
      → accessed call ≡ some id
      → (find_accessible_or_throw id user w).0 ≡ err e
      → (e' : Exception) × (handle env doubles row_id call user w ≡ (err e', w))
  unfolding handle
  handle_denied list i h = cc
  handle_denied (get x) i h = (e, ground (arith, find_accessible-state id user w))
  handle_denied (create body) i h = cc
  handle_denied (update x body) i h =
      let (_, _, _, _, update_no, _, _, _, _) = servers_denied env id user w e h in
      elim (Result-cases (update_server_dto body w).0) [
        | inr (e', refused) ↦ (e', ground (arith, update_server_dto-state w body))
        | inl (dto, read) ↦ (e, ground (arith, update_server_dto-state w body, update_no dto))
      ]
  handle_denied (reinstall x) i h =
      let (_, _, reinstall_no, _, _, _, _, _, _) = servers_denied env id user w e h in
      (e, ground (arith, reinstall_no))
  handle_denied (add_allocation x) i h =
      let (_, _, _, _, _, add_no, _, _, _) = servers_denied env id user w e h in
      (e, ground (arith, add_no))
  handle_denied (remove_allocation x allocation_id) i h =
      let (_, _, _, _, _, _, remove_no, _, _) = servers_denied env id user w e h in
      (e, ground (arith, remove_no allocation_id))
  handle_denied (power x action) i h =
      let (power_no, _, _, _, _, _, _, _, _) = servers_denied env id user w e h in
      (e, ground (arith, power_no action))
  handle_denied (send_command x command) i h =
      let (_, command_no, _, _, _, _, _, _, _) = servers_denied env id user w e h in
      (e, ground (arith, command_no command))
  handle_denied (suspend x reason) i h = cc
  handle_denied (unsuspend x) i h = cc
  handle_denied (delete x) i h =
      let (_, _, _, delete_no, _, _, _, _, _) = servers_denied env id user w e h in
      (e, ground (arith, delete_no))
  handle_denied (add_sub_user x user_id permissions) i h =
      let (_, _, _, _, _, _, _, share_no, _) = servers_denied env id user w e h in
      (e, ground (arith, share_no user_id permissions))
  handle_denied (remove_sub_user x user_id) i h =
      let (_, _, _, _, _, _, _, _, unshare_no) = servers_denied env id user w e h in
      (e, ground (arith, unshare_no user_id))

module _ (env : Env) (doubles : Doubles) (row_id : String → RowId) (call : ServersCall)
    (request : HttpRequest) (w : World) where
  -- A request of a caller whom `findAccessibleOrThrow` turns away, to a handler that looks the
  -- server up for the caller, ends in an exception and changes nothing after the authentication. Its
  -- URL is neither that of the metrics nor of the documentation.
  pub serve_denied :
      (id : RowId) (user : AuthenticatedUser) (w' : World) (e : Exception)
      → accessed call ≡ some id
      → is_metrics request.url ≡ false
      → is_docs request.url ≡ false
      → authenticate env request w ≡ (ok user, w')
      → (find_accessible_or_throw id user w').0 ≡ err e
      → (e' : Exception) × (serve env doubles row_id call request w ≡ (err e', w'))
  unfolding serve guarded jwt_auth_guard
  serve_denied id user w' e its other_url no_docs named refused =
      elim (permissions_cases (required call) user w') [
        | inr (e', lacking) ↦ (e', ground (arith, named, lacking))
        | inl (permitted, passed) ↦
            let (e', nothing) = handle_denied env doubles row_id id user w' e call its refused in
            (e', ground (arith, named, passed, nothing))
      ]
