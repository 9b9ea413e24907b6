-- ===== src/Tasks/Laws.antt =====
-- The scheduler moves a task on, whatever becomes of its action.
use elysia_panel.Prelude.{ℕ, String, ◌≡◌, Option, some, ◌==◌, find, arith, find-update_rows}
use elysia_panel.World.Schema.{RowId}
use elysia_panel.World.Records.{ScheduledTask, TaskAction}
use elysia_panel.World.State.{World, Env}
use elysia_panel.World.Action.{ok}
use elysia_panel.NodeClient.{call}
use elysia_panel.Servers.Power.{power_action, send_command}
use elysia_panel.Servers.Access.Laws.{find_accessible-state}
use elysia_panel.Backups
use elysia_panel.Tasks.{system_actor, execute, run_task}

module _ (env : Env) where
  -- The action of a task leaves the tasks and the clock alone.
  execute-tasks :
      (server_id : RowId) (action : TaskAction) (command : Option String) (w : World)
      → ((execute env server_id action command w).1.tasks ≡ w.tasks)
        × ((execute env server_id action command w).1.now ≡ w.now)
  unfolding execute power_action send_command call Backups.create
  execute-tasks server_id TaskAction.power_start command w =
      ground (arith, find_accessible-state server_id system_actor w)
  execute-tasks server_id TaskAction.power_stop command w =
      ground (arith, find_accessible-state server_id system_actor w)
  execute-tasks server_id TaskAction.power_restart command w =
      ground (arith, find_accessible-state server_id system_actor w)
  execute-tasks server_id TaskAction.backup_create command w =
      ground (arith, find_accessible-state server_id system_actor w)
  execute-tasks server_id TaskAction.command_send command w =
      ground (arith, find_accessible-state server_id system_actor w)
  execute-tasks server_id (TaskAction.other name) command w = ground arith

  -- A task whose cron expression has a next date gets that date, and the present as its last run,
  -- whether its action succeeded or threw; every other error is kept from the loop.
  pub run_task-advances :
      (task : ScheduledTask) (next : ℕ) (w : World)
      → find (λ t. t.id == task.id) w.tasks ≡ some task
      → env.cron_next task.cron_expr w.now ≡ some next
      → let (result, w') = run_task env task w in
        (result ≡ ok tt)
        × (find (λ t. t.id == task.id) w'.tasks
            ≡ some (record task { last_run_at = some w.now; next_run_at = some next }))
  unfolding run_task
  run_task-advances task next w found cron = ground (
    arith,
    execute-tasks task.server_id task.action task.command w,
    find-update_rows (λ (t : ScheduledTask). t.id == task.id)
        (λ t. record t { last_run_at = some w.now; next_run_at = some next }) w.tasks,
  )
