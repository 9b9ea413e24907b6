-- ===== src/Denied.antt =====
-- Someone whom `findAccessibleOrThrow` turns away gets nothing done on the server by
-- operations of ServersService, BackupsService and ScheduledTasksService.
use elysia_panel.Prelude.{String, Bool, List, ap, ◌∙◌, Option, ◌≡◌, ◌==◌, some, find, arith}
use elysia_panel.World.Schema.{RowId}
use elysia_panel.World.Records.{ScheduledTask, TaskAction}
use elysia_panel.World.State.{World, Env}
use elysia_panel.World.Action.{Exception, err}
use elysia_panel.Identity.{AuthenticatedUser}
use elysia_panel.Servers.Access.{find_accessible_or_throw}
use elysia_panel.Servers.Access.Laws.{find_accessible-state}
use elysia_panel.Servers.Power.{PowerAction, power_action, send_command, reinstall}
use elysia_panel.Servers.Manage.{
  UpdateServer, update, delete, add_allocation, remove_allocation, add_sub_user, remove_sub_user,
}
use elysia_panel.Backups
use elysia_panel.Tasks

module _ (env : Env) (id : RowId) (user : AuthenticatedUser) (w : World) (e : Exception) where
  -- If `findAccessibleOrThrow` refuses the caller, every operation of ServersService on the server
  -- passes the refusal on, and writes and sends nothing.
  pub servers_denied :
      (find_accessible_or_throw id user w).0 ≡ err e
      → ((action : PowerAction) → power_action env id action user w ≡ (err e, w))
        × ((command : String) → send_command env id command user w ≡ (err e, w))
        × (reinstall env id user w ≡ (err e, w))
        × (delete env id user w ≡ (err e, w))
        × ((dto : UpdateServer) → update id dto user w ≡ (err e, w))
        × (add_allocation env id user w ≡ (err e, w))
        × ((allocation_id : RowId) → remove_allocation id allocation_id user w ≡ (err e, w))
        × ((other : RowId) (ps : List String) → add_sub_user id other ps user w ≡ (err e, w))
        × ((other : RowId) → remove_sub_user id other user w ≡ (err e, w))
  unfolding power_action send_command reinstall delete update add_allocation remove_allocation
      add_sub_user remove_sub_user
  servers_denied h =
      let refused : find_accessible_or_throw id user w ≡ (err e, w) =
        ground (arith, find_accessible-state id user w) in
      (
        (λ action. ground arith),
        (λ command. ground arith),
        ground arith,
        ground arith,
        (λ dto. ground arith),
        ground arith,
        (λ allocation_id. ground arith),
        (λ other ps. ground arith),
        λ other. ground arith,
      )

  -- If `findAccessibleOrThrow` refuses the caller, so do the listing and creation of backups and
  -- of scheduled tasks, and the switch and deletion of a stored task of the server; they write and
  -- send nothing.
  pub schedules_denied :
      (find_accessible_or_throw id user w).0 ≡ err e
      → (Backups.list_for_server env id user w ≡ (err e, w))
        × ((name : String) → Backups.create env id name user w ≡ (err e, w))
        × (Tasks.list_for_server id user w ≡ (err e, w))
        × ((name cron : String) (action : TaskAction) (command : Option String)
            → Tasks.create env id name cron action command user w ≡ (err e, w))
        × ((task : ScheduledTask) (task_id : RowId)
            → find (λ t. t.id == task_id) w.tasks ≡ some task
            → task.server_id ≡ id
            → ((b : Bool) → Tasks.set_enabled task_id b user w ≡ (err e, w))
              × (Tasks.delete task_id user w ≡ (err e, w)))
  unfolding Backups.list_for_server Backups.create Tasks.list_for_server Tasks.create
      Tasks.set_enabled Tasks.delete
  schedules_denied h =
      let refused : find_accessible_or_throw id user w ≡ (err e, w) =
        ground (arith, find_accessible-state id user w) in
      (
        ground arith,
        (λ name. ground arith),
        ground arith,
        (λ name cron action command. ground arith),
        λ task task_id found its.
            let moved : find_accessible_or_throw task.server_id user w ≡ (err e, w) =
              ap (λ k. find_accessible_or_throw k user w) its ∙ refused in
            ((λ b. ground arith), ground arith),
      )
