-- ===== src/World/Schema.antt =====
-- The tables of backend/prisma/schema.prisma that the services read and write. Row identifiers are
-- UUIDs that are only compared, so they are numbers; instants are milliseconds.
use elysia_panel.Prelude.{ℕ, String, Bool, Option, List}
use elysia_panel.Prelude.Int.{ℤ}

abbrev pub RowId : Type 0
RowId = ℕ

pub data UserStatus : Type 0 where
  active suspended banned : UserStatus

pub record User : Type 0 where
  pub id : RowId
  pub email : String
  pub username : String
  pub password_hash : Option String
  pub status : UserStatus
  pub suspended_reason : Option String
  pub banned_reason : Option String
  pub two_factor_enabled : Bool
  pub two_factor_secret : Option String
  pub two_factor_recovery_codes : List String
  pub discord_id : Option String
  pub google_id : Option String
  pub github_id : Option String
  pub role_id : Option RowId

pub record Role : Type 0 where
  pub id : RowId
  pub name : String
  pub description : Option String
  pub is_system : Bool

pub record Permission : Type 0 where
  pub id : RowId
  pub key : String
  pub group : String

pub record RolePermission : Type 0 where
  pub role_id : RowId
  pub permission_id : RowId

pub record RefreshToken : Type 0 where
  pub id : RowId
  pub user_id : RowId
  pub token_hash : String
  pub user_agent : Option String
  pub ip : Option String
  pub revoked : Bool
  pub expires_at : ℕ

pub record ApiKey : Type 0 where
  pub id : RowId
  pub user_id : RowId
  pub name : String
  pub key_prefix : String
  pub key_hash : String
  pub scopes : List String
  pub last_used_at : Option ℕ
  pub expires_at : Option ℕ

pub data Severity : Type 0 where
  info warning critical : Severity

-- A value of the JSON metadata of an audit entry.
pub data MetaValue : Type 0 where
  text : String → MetaValue
  number : ℕ → MetaValue
  ref : RowId → MetaValue
  texts : List String → MetaValue

pub record AuditLog : Type 0 where
  pub actor_id : Option RowId
  pub action : String
  pub target_type : Option String
  pub target_id : Option RowId
  pub severity : Severity
  pub metadata : List (String × MetaValue)
  pub ip : Option String

pub data NodeStatus : Type 0 where
  online offline maintenance degraded : NodeStatus

-- The allocated amounts are moved by increments and decrements, so they are integers.
pub record Node : Type 0 where
  pub id : RowId
  pub name : String
  pub fqdn : String
  pub region : Option String
  pub status : NodeStatus
  pub maintenance_mode : Bool
  pub grpc_host : String
  pub grpc_port : ℕ
  pub cpu_cores : ℕ
  pub memory_mb : ℕ
  pub disk_mb : ℕ
  pub cpu_allocated_pct : ℤ
  pub memory_allocated_mb : ℤ
  pub disk_allocated_mb : ℤ
  pub overallocate_cpu_pct : ℕ
  pub overallocate_mem_pct : ℕ
  pub overallocate_disk_pct : ℕ
  pub docker_network_subnet : String
  pub last_heartbeat_at : Option ℕ

pub record NetworkAllocation : Type 0 where
  pub id : RowId
  pub node_id : RowId
  pub ip : String
  pub port : ℕ
  pub server_id : Option RowId
  pub is_primary : Bool

abbrev pub Environment : Type 0
Environment = List (String × String)

pub record ServerTemplate : Type 0 where
  pub id : RowId
  pub name : String
  pub game_type : String
  pub description : Option String
  pub docker_image : String
  pub startup_command : String
  pub install_script : Option String
  pub default_variables : Environment
  pub min_memory_mb : ℕ
  pub is_public : Bool

pub data ServerStatus : Type 0 where
  installing install_failed offline starting running stopping : ServerStatus
  crashed suspended transferring restoring : ServerStatus

pub record Server : Type 0 where
  pub id : RowId
  pub uuid : String
  pub name : String
  pub description : Option String
  pub owner_id : RowId
  pub node_id : RowId
  pub template_id : RowId
  pub game_type : String
  pub docker_image : String
  pub status : ServerStatus
  pub suspended : Bool
  pub suspended_reason : Option String
  pub cpu_limit_pct : ℕ
  pub memory_limit_mb : ℕ
  pub disk_limit_mb : ℕ
  pub swap_limit_mb : ℕ
  pub io_weight : ℕ
  pub environment : Environment
  pub startup_command : String
  pub data_path : String

pub record ServerSubUser : Type 0 where
  pub server_id : RowId
  pub user_id : RowId
  pub permissions : List String
