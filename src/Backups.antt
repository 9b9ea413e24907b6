-- ===== src/Backups.antt =====
-- BackupsService (backend/src/backups/backups.service.ts). The backup that `create` starts and does
-- not wait for is the operation `run_backup`.
pub mod Laws
use elysia_panel.Prelude.{
  ℕ, String, Bool, true, false, Option, none, some, List, [], ◌==◌, same, concat, select, reverse,
  if◌then◌else◌,
}
use elysia_panel.World.Schema.{RowId, Server, Node, ServerStatus, Severity}
use elysia_panel.World.Records.{Backup, BackupStatus}
use elysia_panel.World.Daemon.{BackupRef, Endpoint, Request, ReplyBody}
use elysia_panel.World.State.{World, Env, backups_t, servers_t, nodes_t}
use elysia_panel.World.Action.{
  Action, ⊤, ◌>>=◌, ◌>>◌, pure, gets, catch, find_or_throw, create_row, update_row, delete_row,
  draw, log, entry,
}
use elysia_panel.Identity.{AuthenticatedUser}
use elysia_panel.NodeClient.{call}
use elysia_panel.Nodes.{message_of}
use elysia_panel.Servers.Access.{ServerView, find_accessible_or_throw, endpoint_of}

module _ (env : Env) where
  -- `driverAndConfig`
  abbrev pub driver : String
  driver = elim env.backup_driver [ none ↦ "LOCAL" | some d ↦ d ]

  abbrev pub driver_config : List (String × String)
  driver_config = if same driver "LOCAL" then [] else env.backup_s3

  unfoldable pub list_for_server : RowId → AuthenticatedUser → Action (List Backup)
  list_for_server server_id user = do
    find_accessible_or_throw server_id user
    gets (λ w. reverse (select (λ b. b.server_id == server_id) w.backups))

  unfoldable pub create : RowId → String → AuthenticatedUser → Action Backup
  create server_id name user = do
    find_accessible_or_throw server_id user
    id ← draw env.uuid
    backup ←
        create_row backups_t (λ b. b.id == id)
          (record {
            id = id;
            server_id = server_id;
            name = name;
            driver = driver;
            status = BackupStatus.pending;
            size_bytes = none;
            checksum = none;
            remote_path = none;
            fail_reason = none;
            completed_at = none;
          })
    log (entry user.id "backup.create" "Server" server_id)
    pure backup

  abbrev pub or_kept : {A : Type 0} → Option A → Option A → Option A
  or_kept none kept = kept
  or_kept (some a) kept = some a

  -- What the daemon's reply writes: `undefined` keeps what the row has.
  abbrev pub finished : String → RowId → ReplyBody → ℕ → Backup → Backup
  finished server_uuid backup_id res now b = record b {
    status = if res.success then BackupStatus.completed else BackupStatus.failed;
    fail_reason = if res.success then b.fail_reason else some res.message;
    size_bytes = or_kept res.size_bytes b.size_bytes;
    checksum = some res.checksum;
    remote_path =
        if same driver "LOCAL"
        then b.remote_path
        else some (concat server_uuid (concat "/" (concat (env.spelled backup_id) ".tar.gz")));
    completed_at = some now;
  }

  -- `runBackup`
  unfoldable pub run_backup : RowId → RowId → String → Endpoint → Action ⊤
  run_backup backup_id node_id server_uuid params = do
    update_row backups_t (λ b. b.id == backup_id)
        (λ b. record b { status = BackupStatus.in_progress })
    catch
        (do
          res ← call env node_id params (
              Request.create_backup (record {
                server_uuid = server_uuid;
                backup_id = backup_id;
                remote_path = "";
                driver = driver;
                driver_config = driver_config;
              }))
          now ← gets (λ w. w.now)
          update_row backups_t (λ b. b.id == backup_id) (finished server_uuid backup_id res now)
          pure tt)
        (λ e. do
          update_row backups_t (λ b. b.id == backup_id)
              (λ b. record b {
                status = BackupStatus.failed;
                fail_reason = some (message_of env e);
              })
          pure tt)

  -- The reference that `restore` and `delete` send.
  abbrev pub reference : Backup → String → BackupRef
  reference backup uuid = record {
    server_uuid = uuid;
    backup_id = backup.id;
    remote_path = elim backup.remote_path [ none ↦ "" | some p ↦ p ];
    driver = backup.driver;
    driver_config = if same backup.driver "LOCAL" then [] else driver_config;
  }

  -- `restore` from its first write on.
  unfoldable pub restore_checked : Backup → Server → Node → AuthenticatedUser → Action ⊤
  restore_checked backup server node user = do
    update_row servers_t (λ s. s.id == backup.server_id)
        (λ s. record s { status = ServerStatus.restoring })
    update_row backups_t (λ b. b.id == backup.id)
        (λ b. record b { status = BackupStatus.restoring })
    call env server.node_id (endpoint_of node)
        (Request.restore_backup (reference backup server.uuid))
    update_row servers_t (λ s. s.id == backup.server_id)
        (λ s. record s { status = ServerStatus.offline })
    update_row backups_t (λ b. b.id == backup.id)
        (λ b. record b { status = BackupStatus.completed })
    log (record (entry user.id "backup.restore" "Server" backup.server_id) {
      severity = some Severity.warning;
    })

  unfoldable pub restore : RowId → AuthenticatedUser → Action ⊤
  restore backup_id user = do
    backup ← find_or_throw backups_t (λ b. b.id == backup_id)
    server ← find_or_throw servers_t (λ s. s.id == backup.server_id)
    node ← find_or_throw nodes_t (λ n. n.id == server.node_id)
    find_accessible_or_throw backup.server_id user
    restore_checked backup server node user

  unfoldable pub delete : RowId → AuthenticatedUser → Action ⊤
  delete backup_id user = do
    backup ← find_or_throw backups_t (λ b. b.id == backup_id)
    server ← find_or_throw servers_t (λ s. s.id == backup.server_id)
    node ← find_or_throw nodes_t (λ n. n.id == server.node_id)
    find_accessible_or_throw backup.server_id user
    call env server.node_id (endpoint_of node)
        (Request.delete_backup (reference backup server.uuid))
    delete_row backups_t (λ b. b.id == backup_id)
    log (entry user.id "backup.delete" "Server" backup.server_id)
