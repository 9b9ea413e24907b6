-- ===== src/Backups/Laws.antt =====
-- How a backup that was started ends, and what a restoration that breaks off leaves.
use mathlib.Core.Option
use elysia_panel.Prelude.{
  List, String, ◌≡◌, refl, sym, ap, ◌∙◌, some, ◌==◌, find, update_rows, arith, find-update_rows,
  find_passes, if◌then◌else◌,
}
use elysia_panel.World.Schema.{RowId, Server, ServerStatus, Node}
use elysia_panel.World.Records.{Backup, BackupStatus}
use elysia_panel.World.Daemon.{Endpoint, Request, Rpc, Reply, replied, broken}
use elysia_panel.World.State.{World, Env}
use elysia_panel.World.Action.{ok, err, rpc_error}
use elysia_panel.Identity.{AuthenticatedUser}
use elysia_panel.NodeClient.{call, rpc_to}
use elysia_panel.Servers.Access.{ServerView, find_accessible_or_throw, endpoint_of}
use elysia_panel.Servers.Access.Laws.{find_accessible-state, find_accessible-ok}
use elysia_panel.Backups.{
  driver, driver_config, finished, run_backup, reference, restore_checked, restore,
}

-- How a backup ends, by the daemon's reaction.
abbrev pub ended_status : Reply → BackupStatus
ended_status (replied body) = if body.success then BackupStatus.completed else BackupStatus.failed
ended_status (broken message) = BackupStatus.failed

module _ (env : Env) (id node_id : RowId) (uuid : String) (params : Endpoint) (w : World) where
  -- The request of the backup's run.
  abbrev pub run_rpc : Rpc
  run_rpc =
      rpc_to node_id params
        (Request.create_backup (record {
          server_uuid = uuid;
          backup_id = id;
          remote_path = "";
          driver = driver env;
          driver_config = driver_config env;
        }))
        w

  abbrev started : List Backup
  started =
      update_rows (λ b. b.id == id) (λ b. record b { status = BackupStatus.in_progress }) w.backups

  abbrev ended : Reply → Backup → Backup
  ended (replied body) = finished env uuid id body w.now
  ended (broken message) =
      λ b. record b { status = BackupStatus.failed; fail_reason = some message }

  -- The two writes of a run, one after the other.
  run_backup-backups :
      (b : Backup) (reply : Reply)
      → find (λ b. b.id == id) w.backups ≡ some b
      → find (λ b. b.id == id) started ≡ some (record b { status = BackupStatus.in_progress })
      → env.daemon w.sent run_rpc ≡ reply
      → ((run_backup env id node_id uuid params w).0 ≡ ok tt)
        × ((run_backup env id node_id uuid params w).1.backups
            ≡ update_rows (λ b. b.id == id) (ended reply) started)
  unfolding run_backup call
  run_backup-backups b (replied body) found first e = (ground arith, ground arith)
  run_backup-backups b (broken message) found first e = (ground arith, ground arith)

  status-ended : (reply : Reply) (b : Backup) → (ended reply b).status ≡ ended_status reply
  status-ended (replied body) b = refl
  status-ended (broken message) b = refl

  id-ended : (reply : Reply) (b : Backup) → (ended reply b).id ≡ b.id
  id-ended (replied body) b = refl
  id-ended (broken message) b = refl

  -- A backup that exists is settled when its run ends, whatever the daemon does: it is completed
  -- if the daemon reports success and failed otherwise, and the run itself never fails.
  pub run_backup_settles :
      (b : Backup)
      → find (λ b. b.id == id) w.backups ≡ some b
      → let (result, w') = run_backup env id node_id uuid params w in
        (result ≡ ok tt)
        × (Option.map (λ b. b.status) (find (λ b. b.id == id) w'.backups)
            ≡ some (ended_status (env.daemon w.sent run_rpc)))
  run_backup_settles b found =
      let reply : Reply = env.daemon w.sent run_rpc in
      let first : find (λ b. b.id == id) started
          ≡ some (record b { status = BackupStatus.in_progress }) =
        find-update_rows (λ (b : Backup). b.id == id)
          (λ b. record b { status = BackupStatus.in_progress }) w.backups (λ _. refl)
        ∙ ap (Option.map (λ (b : Backup). record b { status = BackupStatus.in_progress })) found in
      let (done, table) = run_backup-backups b reply found first refl in
      (
        done,
        ap (λ bs. Option.map (λ b. b.status) (find (λ b. b.id == id) bs)) table
            ∙ ap (Option.map (λ (b : Backup). b.status)) (
                find-update_rows (λ (b : Backup). b.id == id) (ended reply) started
                  (λ b. ap (λ n. n == id) (id-ended reply b))
                ∙ ap (Option.map (ended reply)) first)
            ∙ ap some (status-ended reply (record b { status = BackupStatus.in_progress })),
      )

abbrev pub mark_backup : Backup → Backup
mark_backup b = record b { status = BackupStatus.restoring }

abbrev pub mark_server : Server → Server
mark_server s = record s { status = ServerStatus.restoring }

-- A restoration whose request breaks off stops at its first two writes.
restore_checked_broken :
    (env : Env) (b b' : Backup) (s s' : Server) (node : Node) (user : AuthenticatedUser) (w : World)
    (message : String)
    → find (λ c. c.id == b.id) w.backups ≡ some b'
    → find (λ s. s.id == b.server_id) w.servers ≡ some s'
    → env.daemon w.sent
        (rpc_to s.node_id (endpoint_of node) (Request.restore_backup (reference env b s.uuid)) w)
      ≡ broken message
    → let (result, w') = restore_checked env b s node user w in
      (result ≡ err (rpc_error message))
      × (w'.backups ≡ update_rows (λ c. c.id == b.id) mark_backup w.backups)
      × (w'.servers ≡ update_rows (λ s. s.id == b.server_id) mark_server w.servers)
unfolding restore_checked call
restore_checked_broken env b b' s s' node user w message found stored lost =
    (ground arith, ground arith, ground arith)

module _ (env : Env) (id : RowId) (user : AuthenticatedUser) (w : World) where
  -- After the checks the rest of the operation runs on what they found.
  restore_opened :
      (b : Backup) (v : ServerView)
      → find (λ b. b.id == id) w.backups ≡ some b
      → find (λ s. s.id == b.server_id) w.servers ≡ some v.server
      → find (λ n. n.id == v.node_id) w.nodes ≡ some v.node
      → find_accessible_or_throw b.server_id user w ≡ (ok v, w)
      → restore env id user w ≡ restore_checked env b v.server v.node user w
  unfolding restore
  restore_opened b v found stored node opened = ground arith

  -- A restoration whose request breaks off is an error, and leaves both the backup and its server
  -- as RESTORING.
  pub restore_broken :
      (b : Backup) (v : ServerView) (message : String)
      → find (λ b. b.id == id) w.backups ≡ some b
      → (find_accessible_or_throw b.server_id user w).0 ≡ ok v
      → env.daemon w.sent (
          rpc_to v.node_id (endpoint_of v.node) (Request.restore_backup (reference env b v.uuid)) w)
        ≡ broken message
      → let (result, w') = restore env id user w in
        (result ≡ err (rpc_error message))
        × (find (λ b. b.id == id) w'.backups ≡ some (mark_backup b))
        × (find (λ s. s.id == b.server_id) w'.servers ≡ some (mark_server v.server))
  restore_broken b v message found h lost =
      let (stored, node, _) = find_accessible-ok b.server_id user w v h in
      let opened : find_accessible_or_throw b.server_id user w ≡ (ok v, w) =
        ground (arith, find_accessible-state b.server_id user w) in
      let step = restore_opened b v found stored node opened in
      let named : b.id ≡ id = ground (arith, find_passes (λ b. b.id == id) w.backups b found) in
      let found' : find (λ c. c.id == b.id) w.backups ≡ some b =
        ap (λ k. find (λ c. c.id == k) w.backups) named ∙ found in
      let (result, backups, servers) =
        restore_checked_broken env b b v.server v.server v.node user w message found' stored lost in
      (
        ap (λ r. r.0) step ∙ result,
        ap (λ r. find (λ c. c.id == id) r.1.backups) step
            ∙ ap (λ bs. find (λ c. c.id == id) bs) backups
            ∙ ap
                (λ k. find (λ c. c.id == k) (update_rows (λ c. c.id == b.id) mark_backup w.backups))
                (sym named)
            ∙ find-update_rows (λ (c : Backup). c.id == b.id) mark_backup w.backups (λ _. refl)
            ∙ ap (Option.map mark_backup) found',
        ap (λ r. find (λ s. s.id == b.server_id) r.1.servers) step
            ∙ ap (λ ss. find (λ s. s.id == b.server_id) ss) servers
            ∙ find-update_rows (λ (s : Server). s.id == b.server_id) mark_server w.servers
                (λ _. refl)
            ∙ ap (Option.map mark_server) stored,
      )
