-- ===== src/Http/Servers/Limits.antt =====
-- The limits that `CreateServerDto` asks for hold of every server, whatever the controller is asked.
use elysia_panel.Prelude.{
  String, ◌≡◌, subst, sym, inl, inr, true, arith, Bool-cases, [], ◌∷◌, ◌||◌, refl, ap,
}
use elysia_panel.World.Schema.{RowId}
use elysia_panel.World.State.{World, Env}
use elysia_panel.World.Action.{Action, Result-cases}
use elysia_panel.Identity.{AuthenticatedUser}
use elysia_panel.Guards.{
  HttpRequest, is_metrics, is_docs, guarded, jwt_auth_guard, permissions_guard,
}
use elysia_panel.Guards.Laws.{guarded_outcome, used}
use elysia_panel.Nodes.Eligible.{Doubles}
use elysia_panel.Servers.Create
use elysia_panel.Servers.Manage
use elysia_panel.Servers.Power
use elysia_panel.Servers.Access.{find_accessible_or_throw}
use elysia_panel.Servers.Access.Laws.{find_accessible-state}
use elysia_panel.Servers.Limits.{
  MeetsMinimum, LeavesLimits, LeavesLimits-MeetsMinimum, update-LeavesLimits, suspend-LeavesLimits,
  unsuspend-LeavesLimits, remove_allocation-servers, add_sub_user-servers, remove_sub_user-servers,
  power_action-LeavesLimits, send_command-servers, reinstall-LeavesLimits, add_allocation-servers,
  delete-LeavesLimits, create-MeetsMinimum,
}
use elysia_panel.Http.Answer.{Answer, answer, with_user}
use elysia_panel.Http.Body.{create_server_dto, update_server_dto}
use elysia_panel.Http.Body.Laws.{
  create_server_dto-state, create_server_dto-ok, update_server_dto-state,
}
use elysia_panel.Http.Servers.{
  ServersCall, list, get, create, update, reinstall, add_allocation, remove_allocation, power,
  send_command, suspend, unsuspend, delete, add_sub_user, remove_sub_user, required, handle, serve,
}

answer-state : {A : Type 0} (f : A → Answer) (m : Action A) (w : World) → (answer f m w).1 ≡ (m w).1
answer-state f m w = ground arith

-- An answer leaves the limits as the service does.
answer-MeetsMinimum :
    {A : Type 0} (f : A → Answer) (m : Action A) (w : World)
    → MeetsMinimum (m w).1
    → MeetsMinimum (answer f m w).1
answer-MeetsMinimum f m w h = subst MeetsMinimum (sym (answer-state f m w)) h

-- A service that leaves the limits, and its answer.
answer_kept :
    {A : Type 0} (f : A → Answer) (m : Action A) (w : World)
    → LeavesLimits w (m w).1
    → MeetsMinimum w
    → MeetsMinimum (answer f m w).1
answer_kept f m w h b = answer-MeetsMinimum f m w (LeavesLimits-MeetsMinimum w (m w).1 h b)

module _ (env : Env) (doubles : Doubles) (row_id : String → RowId) (user : AuthenticatedUser)
    (w : World) where
  handle-MeetsMinimum :
      (call : ServersCall) → MeetsMinimum w → MeetsMinimum (handle env doubles row_id call user w).1
  unfolding handle
  handle-MeetsMinimum list m = m
  handle-MeetsMinimum (get id) m =
      answer_kept Answer.server_view (find_accessible_or_throw id user) w
        (inl (ap (λ v. v.servers) (find_accessible-state id user w))) m
  handle-MeetsMinimum (create body) m = elim (Result-cases (create_server_dto row_id body w).0) [
    | inr (x, refused) ↦
        let same : (handle env doubles row_id (create body) user w).1 ≡ w =
          ground (arith, create_server_dto-state w row_id body) in
        subst MeetsMinimum (sym same) m
    | inl (dto, read) ↦
        let moved : (handle env doubles row_id (create body) user w).1
            ≡ (Create.create env doubles dto user w).1 =
          ground (arith, create_server_dto-state w row_id body) in
        subst MeetsMinimum (sym moved) (
          create-MeetsMinimum env dto user w doubles (create_server_dto-ok w row_id body dto read)
            m)
  ]
  handle-MeetsMinimum (update id body) m = elim (Result-cases (update_server_dto body w).0) [
    | inr (x, refused) ↦
        let same : (handle env doubles row_id (update id body) user w).1 ≡ w =
          ground (arith, update_server_dto-state w body) in
        subst MeetsMinimum (sym same) m
    | inl (dto, read) ↦
        let moved : (handle env doubles row_id (update id body) user w).1
            ≡ (Manage.update id dto user w).1 =
          ground (arith, update_server_dto-state w body) in
        subst MeetsMinimum (sym moved) (
          LeavesLimits-MeetsMinimum w (Manage.update id dto user w).1
            (update-LeavesLimits id user w dto) m)
  ]
  handle-MeetsMinimum (reinstall id) m =
      answer_kept (λ _. Answer.done) (Power.reinstall env id user) w
        (reinstall-LeavesLimits env id user w) m
  handle-MeetsMinimum (add_allocation id) m =
      answer_kept Answer.allocation (Manage.add_allocation env id user) w
        (inl (add_allocation-servers env id user w)) m
  handle-MeetsMinimum (remove_allocation id allocation_id) m =
      answer_kept (λ _. Answer.done) (Manage.remove_allocation id allocation_id user) w
        (inl (remove_allocation-servers id user w allocation_id)) m
  handle-MeetsMinimum (power id action) m =
      answer_kept (λ _. Answer.done) (Power.power_action env id action user) w
        (power_action-LeavesLimits env id user w action) m
  handle-MeetsMinimum (send_command id command) m =
      answer_kept Answer.reply (Power.send_command env id command user) w
        (inl (send_command-servers env id user w command)) m
  handle-MeetsMinimum (suspend id reason) m =
      answer_kept Answer.a_server (Power.suspend id reason user.id) w
        (suspend-LeavesLimits id user w reason) m
  handle-MeetsMinimum (unsuspend id) m =
      answer_kept Answer.a_server (Power.unsuspend id user.id) w (unsuspend-LeavesLimits id user w)
        m
  handle-MeetsMinimum (delete id) m =
      answer_kept (λ _. Answer.done) (Manage.delete env id user) w
        (delete-LeavesLimits env id user w) m
  handle-MeetsMinimum (add_sub_user id user_id permissions) m =
      answer_kept (λ _. Answer.done) (Manage.add_sub_user id user_id permissions user) w
        (inl (add_sub_user-servers id user w user_id permissions)) m
  handle-MeetsMinimum (remove_sub_user id user_id) m =
      answer_kept (λ _. Answer.done) (Manage.remove_sub_user id user_id user) w
        (inl (remove_sub_user-servers id user w user_id)) m

-- Every handler requires a permission.
required_one : (call : ServersCall) → (p : String) × (required call ≡ p ∷ [])
unfolding required
required_one list = ("servers.read", refl)
required_one (get id) = ("servers.read", refl)
required_one (create body) = ("servers.create", refl)
required_one (update id body) = ("servers.update", refl)
required_one (reinstall id) = ("servers.update", refl)
required_one (add_allocation id) = ("servers.update", refl)
required_one (remove_allocation id allocation_id) = ("servers.update", refl)
required_one (power id action) = ("servers.power", refl)
required_one (send_command id command) = ("servers.console", refl)
required_one (suspend id reason) = ("servers.suspend", refl)
required_one (unsuspend id) = ("servers.suspend", refl)
required_one (delete id) = ("servers.delete", refl)
required_one (add_sub_user id user_id permissions) = ("servers.subusers", refl)
required_one (remove_sub_user id user_id) = ("servers.subusers", refl)

module _ (env : Env) (doubles : Doubles) (row_id : String → RowId) (call : ServersCall)
    (request : HttpRequest) (w : World) where
  -- Without a user there is no answer.
  serve_unnamed :
      is_metrics request.url || is_docs request.url ≡ true
      → (serve env doubles row_id call request w).1 ≡ w
  unfolding serve guarded jwt_auth_guard permissions_guard
  serve_unnamed url = let (p, one) = required_one call in ground (arith, one)

  -- If every stored server has at least 10 % of a processor, 256 MB of memory and 512 MB of disk,
  -- that is so after any request to ServersController, however it ends.
  pub serve-MeetsMinimum : MeetsMinimum w → MeetsMinimum (serve env doubles row_id call request w).1
  unfolding serve
  serve-MeetsMinimum m = elim (Bool-cases (is_metrics request.url || is_docs request.url)) [
    | inl url ↦ subst MeetsMinimum (sym (serve_unnamed url)) m
    | inr url ↦
        elim (guarded_outcome env (required call)
          (λ user. with_user user (handle env doubles row_id call)) request w (ground arith)
          (ground arith)) [
            | inl (e, keys, _, refused) ↦ subst (λ r. MeetsMinimum r.1) (sym refused) m
            | inr (user, keys, _, _, _, done) ↦
                subst (λ r. MeetsMinimum r.1) (sym done)
                  (handle-MeetsMinimum env doubles row_id user (used w keys) call m)
          ]
  ]
