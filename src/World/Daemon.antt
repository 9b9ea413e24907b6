-- ===== src/World/Daemon.antt =====
-- What the backend asks of a node's daemon over gRPC, and what comes back.
use elysia_panel.Prelude.{◌≡◌, refl, ◌⊎◌, inl, inr, ℕ, String, Bool, Option, List}
use elysia_panel.World.Schema.{RowId, Environment}

pub record PortBinding : Type 0 where
  pub ip : String
  pub port : ℕ
  pub protocol : String

-- The configuration that `CreateServer` and `ReinstallServer` send.
pub record ServerSpec : Type 0 where
  pub server_uuid : String
  pub docker_image : String
  pub startup_command : String
  pub cpu_limit_pct : ℕ
  pub memory_limit_mb : ℕ
  pub disk_limit_mb : ℕ
  pub swap_limit_mb : ℕ
  pub io_weight : ℕ
  pub environment : Environment
  pub ports : List PortBinding
  pub install_script : String

pub record BackupRef : Type 0 where
  pub server_uuid : String
  pub backup_id : RowId
  pub remote_path : String
  pub driver : String
  pub driver_config : List (String × String)

-- One constructor for each method of the gRPC service that the backend calls.
pub data Request : Type 0 where
  ping : Request
  create_server : ServerSpec → Request
  reinstall_server : ServerSpec → Request
  start_server stop_server restart_server kill_server delete_server : String → Request
  send_command : String → String → Request
  create_backup restore_backup delete_backup : BackupRef → Request
  list_files read_file delete_file create_directory : String → String → Request
  write_file : String → String → String → Request
  rename_file : String → String → String → Request
  stream_console stream_stats : String → Request

pub record Endpoint : Type 0 where
  pub host : String
  pub port : ℕ

-- A request as it leaves: the connection's endpoint and the message.
pub record Rpc : Type 0 where
  pub endpoint : Endpoint
  pub request : Request

-- A row of a directory listing: `FileEntryDto`.
pub record FileEntry : Type 0 where
  pub name : String
  pub is_directory : Bool
  pub size_bytes : String
  pub modified_at_ms : String
  pub mode : String

-- The fields of the replies that the backend reads.
pub record ReplyBody : Type 0 where
  pub success : Bool
  pub message : String
  pub size_bytes : Option ℕ
  pub checksum : String
  pub entries : Option (List FileEntry)
  pub content : String

pub data Reply : Type 0 where
  replied : ReplyBody → Reply
  broken : String → Reply

-- To split on how the daemon reacted and keep the equation.
pub Reply-cases :
    (r : Reply) → ((b : ReplyBody) × (r ≡ replied b)) ⊎ ((m : String) × (r ≡ broken m))
Reply-cases (replied b) = inl (b, refl)
Reply-cases (broken m) = inr (m, refl)
