-- ===== src/Tasks.antt =====
-- ScheduledTasksService (backend/src/scheduled-tasks/scheduled-tasks.service.ts).
pub mod Laws
use elysia_panel.Prelude.{
  ℕ, String, Bool, true, false, Option, none, some, List, [], ◌∷◌, ◌&&◌, ◌==◌, leb, concat, select,
  reverse, if◌then◌else◌,
}
use elysia_panel.World.Schema.{RowId}
use elysia_panel.World.Records.{ScheduledTask, TaskAction}
use elysia_panel.World.State.{World, Env, tasks_t}
use elysia_panel.World.Action.{
  Action, ⊤, invalid_cron, ◌>>=◌, ◌>>◌, pure, gets, catch, or_throw, find_or_throw, create_row,
  update_row, delete_row, draw, log, entry,
}
use elysia_panel.Identity.{AuthenticatedUser}
use elysia_panel.Auth.Accounts.{system_user_id}
use elysia_panel.Servers.Access.{find_accessible_or_throw}
use elysia_panel.Servers.Power.{PowerAction, power_action, send_command}
use elysia_panel.Backups

-- `SYSTEM_ACTOR`
abbrev pub system_actor : AuthenticatedUser
system_actor = record {
  id = system_user_id;
  email = "system@elysia.local";
  username = "system";
  role_id = none;
  permissions = "*" ∷ [];
  two_factor_enabled = false;
  impersonated_by = none;
}

unfoldable pub list_for_server : RowId → AuthenticatedUser → Action (List ScheduledTask)
list_for_server server_id user = do
  find_accessible_or_throw server_id user
  gets (λ w. reverse (select (λ t. t.server_id == server_id) w.tasks))

unfoldable pub set_enabled : RowId → Bool → AuthenticatedUser → Action ScheduledTask
set_enabled id enabled user = do
  existing ← find_or_throw tasks_t (λ t. t.id == id)
  find_accessible_or_throw existing.server_id user
  task ← update_row tasks_t (λ t. t.id == id) (λ t. record t { enabled = enabled })
  log (
      entry user.id (if enabled then "scheduled_task.enable" else "scheduled_task.disable")
        "ScheduledTask" id)
  pure task

unfoldable pub delete : RowId → AuthenticatedUser → Action ⊤
delete id user = do
  existing ← find_or_throw tasks_t (λ t. t.id == id)
  find_accessible_or_throw existing.server_id user
  delete_row tasks_t (λ t. t.id == id)
  log (entry user.id "scheduled_task.delete" "ScheduledTask" id)

-- `{ enabled: true, nextRunAt: { lte: new Date() } }`
abbrev pub is_due : ℕ → ScheduledTask → Bool
is_due now t = t.enabled && elim t.next_run_at [ none ↦ false | some at ↦ leb at now ]

module _ (env : Env) where
  -- `computeNextRun`
  abbrev pub compute_next_run : String → Action ℕ
  compute_next_run cron_expr = do
    now ← gets (λ w. w.now)
    or_throw (env.cron_next cron_expr now) invalid_cron

  unfoldable pub create :
      RowId
      → String
      → String
      → TaskAction
      → Option String
      → AuthenticatedUser
      → Action ScheduledTask
  create server_id name cron_expr action command user = do
    find_accessible_or_throw server_id user
    next ← compute_next_run cron_expr
    id ← draw env.uuid
    task ←
        create_row tasks_t (λ t. t.id == id)
          (record {
            id = id;
            server_id = server_id;
            name = name;
            cron_expr = cron_expr;
            action = action;
            command = command;
            enabled = true;
            last_run_at = none;
            next_run_at = some next;
          })
    log (entry user.id "scheduled_task.create" "Server" server_id)
    pure task

  -- `execute`
  unfoldable pub execute : RowId → TaskAction → Option String → Action ⊤
  execute server_id TaskAction.power_start command =
      power_action env server_id PowerAction.start system_actor
  execute server_id TaskAction.power_stop command =
      power_action env server_id PowerAction.stop system_actor
  execute server_id TaskAction.power_restart command =
      power_action env server_id PowerAction.restart system_actor
  execute server_id TaskAction.backup_create command = do
    now ← gets (λ w. w.now)
    Backups.create env server_id (concat "scheduled-" (env.spelled now)) system_actor
    pure tt
  execute server_id TaskAction.command_send command = do
    send_command env server_id (elim command [ none ↦ "" | some c ↦ c ]) system_actor
    pure tt
  execute server_id (TaskAction.other name) command = pure tt

  -- One round of the loop: the error of `execute` is logged, and the task moves to its next date.
  unfoldable pub run_task : ScheduledTask → Action ⊤
  run_task task = do
    catch (execute task.server_id task.action task.command) (λ e. pure tt)
    now ← gets (λ w. w.now)
    next ← compute_next_run task.cron_expr
    update_row tasks_t (λ t. t.id == task.id)
        (λ t. record t { last_run_at = some now; next_run_at = some next })
    pure tt

  unfoldable pub run_all : List ScheduledTask → Action ⊤
  run_all [] = pure tt
  run_all (task ∷ rest) = do run_task task; run_all rest

  -- `runDueTasks`
  unfoldable pub run_due_tasks : Action ⊤
  run_due_tasks = do due ← gets (λ w. select (is_due w.now) w.tasks); run_all due
