-- ===== src/Tests/Operations.antt =====
-- The theorems on accounts, invoices, backups and scheduled tasks, at a small instance.
use mathlib.Core.Option
use elysia_panel.Prelude.{true, ◌≡◌, refl, none, some, [], ◌∷◌, ◌++◌, ◌==◌, find}
use elysia_panel.Prelude.Int.{pos}
use elysia_panel.World.Schema.{User}
use elysia_panel.World.Records.{
  Backup, BackupStatus, ScheduledTask, TaskAction, Subscription, SubscriptionStatus, Invoice,
}
use elysia_panel.World.Daemon.{broken}
use elysia_panel.World.State.{World, Env}
use elysia_panel.World.Action.{ok, err, rpc_error}
use elysia_panel.Users.Laws.{HasNoSession}
use elysia_panel.Billing.Stripe.{StripeInvoice, invoice_paid, handle_event}
use elysia_panel.Billing.Laws.{invoice_paid_twice}
use elysia_panel.Auth.Accounts.{knows, change_own_password}
use elysia_panel.Auth.Accounts.Laws.{change_own_password-ok}
use elysia_panel.Servers.Access.{ServerView, endpoint_of, find_accessible_or_throw}
use elysia_panel.Backups.{run_backup, restore}
use elysia_panel.Backups.Laws.{run_backup_settles, mark_backup, mark_server, restore_broken}
use elysia_panel.Tasks.{run_task}
use elysia_panel.Tasks.Laws.{run_task-advances}
use elysia_panel.Tests.Demo.{env, world, alice, alice_auth, node, template, server, allocation}

abbrev after_change : World
after_change = (change_own_password env 1 "pw" "fresh" world).1

change_own_password-ok_example :
    ((change_own_password env 1 "pw" "fresh" world).0 ≡ ok tt)
    × (u : User) × (find (λ v. v.id == 1) after_change.users ≡ some u)
    × (knows env u.password_hash "fresh" ≡ true)
    × HasNoSession 1 after_change
change_own_password-ok_example =
    change_own_password-ok env 1 "pw" "fresh" world alice refl refl refl refl

abbrev backup : Backup
backup = record {
  id = 60;
  server_id = 20;
  name = "nightly";
  driver = "LOCAL";
  status = BackupStatus.pending;
  size_bytes = none;
  checksum = none;
  remote_path = none;
  fail_reason = none;
  completed_at = none;
}

abbrev backup_world : World
backup_world = record world { backups = backup ∷ [] }

abbrev after_run : World
after_run = (run_backup env 60 3 "abcd" (endpoint_of node) backup_world).1

run_backup_settles_example :
    ((run_backup env 60 3 "abcd" (endpoint_of node) backup_world).0 ≡ ok tt)
    × (Option.map (λ b. b.status) (find (λ b. b.id == 60) after_run.backups)
        ≡ some BackupStatus.completed)
run_backup_settles_example =
    run_backup_settles env 60 3 "abcd" (endpoint_of node) backup_world backup refl

abbrev broken_env : Env
broken_env = record env { daemon = λ sent rpc. broken "unavailable" }

abbrev after_restore : World
after_restore = (restore broken_env 60 alice_auth backup_world).1

abbrev view : ServerView
view = record {
  server = server;
  node = node;
  template = template;
  allocations = allocation ∷ [];
  sub_users = record { server_id = 20; user_id = 2; permissions = [] } ∷ [];
}

restore_broken_example :
    ((restore broken_env 60 alice_auth backup_world).0 ≡ err (rpc_error "unavailable"))
    × (find (λ b. b.id == 60) after_restore.backups ≡ some (mark_backup backup))
    × (find (λ s. s.id == 20) after_restore.servers ≡ some (mark_server server))
unfolding find_accessible_or_throw
restore_broken_example =
    restore_broken broken_env 60 alice_auth backup_world backup view "unavailable" refl refl refl

abbrev task : ScheduledTask
task = record {
  id = 80;
  server_id = 20;
  name = "restart";
  cron_expr = "0 4 * * *";
  action = TaskAction.power_restart;
  command = none;
  enabled = true;
  last_run_at = none;
  next_run_at = some 900;
}

abbrev task_world : World
task_world = record world { tasks = task ∷ [] }

run_task-advances_example :
    ((run_task broken_env task task_world).0 ≡ ok tt)
    × (find (λ t. t.id == 80) (run_task broken_env task task_world).1.tasks
        ≡ some (record task { last_run_at = some 1000; next_run_at = some 1060 }))
run_task-advances_example = run_task-advances broken_env task 1060 task_world refl refl

abbrev monthly : Subscription
monthly = record {
  id = 98;
  user_id = 1;
  plan_id = 96;
  status = SubscriptionStatus.active;
  stripe_subscription_id = some "sub_1";
}

abbrev payment : StripeInvoice
payment = record {
  id = "in_1";
  subscription = some "sub_1";
  subtotal = pos 1250;
  total_taxes = some (pos 250 ∷ []);
  total = pos 1500;
  currency = "EUR";
}

abbrev billed_world : World
billed_world = record world { subscriptions = monthly ∷ [] }

invoice_paid_twice_example :
    let (result, w') = handle_event env (invoice_paid payment) billed_world in
    let (result', w'') = handle_event env (invoice_paid payment) w' in
    (result ≡ ok tt)
    × (result' ≡ ok tt)
    × (i : Invoice) × (j : Invoice) × (w''.invoices ≡ ([] ++ i ∷ []) ++ j ∷ [])
    × (i.provider_ref ≡ some "in_1")
    × (j.provider_ref ≡ some "in_1")
    × (i.user_id ≡ 1)
    × (j.user_id ≡ 1)
    × (i.total_cents ≡ pos 1500)
    × (j.total_cents ≡ pos 1500)
invoice_paid_twice_example =
    invoice_paid_twice env payment "sub_1" monthly billed_world refl refl refl (λ k _. refl)
