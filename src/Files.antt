-- ===== src/Files.antt =====
-- FilesService (backend/src/files/files.service.ts): the files of a server, over its daemon.
pub mod Sftp
use elysia_panel.Prelude.{String, Option, none, some, List, [], ◌∷◌}
use elysia_panel.World.Schema.{RowId, MetaValue}
use elysia_panel.World.Daemon.{Request, Endpoint, FileEntry}
use elysia_panel.World.State.{World, Env}
use elysia_panel.World.Action.{Action, ⊤, AuditEntry, ◌>>=◌, ◌>>◌, pure, log, entry}
use elysia_panel.Identity.{AuthenticatedUser}
use elysia_panel.NodeClient.{call}
use elysia_panel.Servers.Access.{ServerView, find_accessible_or_throw, endpoint_of}

-- `connFor`
abbrev pub conn_for : RowId → AuthenticatedUser → Action (ServerView × Endpoint)
conn_for server_id user = do
  server ← find_accessible_or_throw server_id user
  pure (server, endpoint_of server.node)

-- The audit entry of an operation on a path.
abbrev pub path_entry : RowId → String → RowId → String → AuditEntry
path_entry user_id action server_id path = record (entry user_id action "Server" server_id) {
  metadata = ("path", MetaValue.text path) ∷ [];
}

-- `res.entries ?? []`
abbrev pub or_no_entries : Option (List FileEntry) → List FileEntry
or_no_entries none = []
or_no_entries (some entries) = entries

module _ (env : Env) where
  unfoldable pub list : RowId → String → AuthenticatedUser → Action (List FileEntry)
  list server_id path user = do
    conn ← conn_for server_id user
    res ← call env conn.0.node_id conn.1 (Request.list_files conn.0.uuid path)
    pure (or_no_entries res.entries)

  unfoldable pub read : RowId → String → AuthenticatedUser → Action String
  read server_id path user = do
    conn ← conn_for server_id user
    res ← call env conn.0.node_id conn.1 (Request.read_file conn.0.uuid path)
    pure res.content

  unfoldable pub write : RowId → String → String → AuthenticatedUser → Action ⊤
  write server_id path content user = do
    conn ← conn_for server_id user
    call env conn.0.node_id conn.1 (Request.write_file conn.0.uuid path content)
    log (path_entry user.id "file.write" server_id path)

  unfoldable pub delete : RowId → String → AuthenticatedUser → Action ⊤
  delete server_id path user = do
    conn ← conn_for server_id user
    call env conn.0.node_id conn.1 (Request.delete_file conn.0.uuid path)
    log (path_entry user.id "file.delete" server_id path)

  -- `rename` leaves no audit entry.
  unfoldable pub rename : RowId → String → String → AuthenticatedUser → Action ⊤
  rename server_id from_path to_path user = do
    conn ← conn_for server_id user
    call env conn.0.node_id conn.1 (Request.rename_file conn.0.uuid from_path to_path)
    pure tt

  unfoldable pub mkdir : RowId → String → AuthenticatedUser → Action ⊤
  mkdir server_id path user = do
    conn ← conn_for server_id user
    call env conn.0.node_id conn.1 (Request.create_directory conn.0.uuid path)
    log (path_entry user.id "file.mkdir" server_id path)
