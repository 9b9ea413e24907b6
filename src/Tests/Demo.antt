-- ===== src/Tests/Demo.antt =====
-- A small instance: one node, two users, one server, and an environment whose daemon answers.
use elysia_panel.Prelude.{◌+◌, true, false, none, some, [], ◌∷◌, same, if◌then◌else◌}
use elysia_panel.Prelude.Int.{pos}
use elysia_panel.World.Schema.{
  User, UserStatus, RefreshToken, ApiKey, Node, NodeStatus, NetworkAllocation, ServerTemplate,
  Server, ServerStatus,
}
use elysia_panel.World.Daemon.{ReplyBody, replied}
use elysia_panel.World.State.{World, Env}
use elysia_panel.Identity.{AuthenticatedUser}

abbrev pub done : ReplyBody
done = record {
  success = true;
  message = "";
  size_bytes = none;
  checksum = "c";
  entries = none;
  content = "";
}

abbrev pub env : Env
env = record {
  uuid = λ n. n + 100;
  uuid_text = λ n. "5f3a";
  random_hex = λ bytes n. "f00d";
  daemon = λ sent rpc. replied done;
  bcrypt_hash = λ n password. password;
  bcrypt_compare = same;
  sha256 = λ t. t;
  totp_secret = λ n. "NEWSECRET";
  totp_verify = λ secret code now. same secret code;
  jwt_sign = λ user by now. "jwt";
  jwt_verify = λ token now. some 1;
  passport_jwt = λ header now. elim header [
    | none ↦ none
    | some h ↦
        if same h "Bearer jwt" then some (record { sub = 1; impersonated_by = none }) else none
  ];
  node_secret = some "s3cret";
  cron_next = λ expr now. some (now + 60);
  refresh_ttl = none;
  backup_driver = none;
  backup_s3 = [];
  spelled = λ n. "n";
  year_of = λ now. 2025;
  error_text = λ code. code;
}

abbrev pub alice : User
alice = record {
  id = 1;
  email = "alice@example.org";
  username = "alice";
  password_hash = some "pw";
  status = UserStatus.active;
  suspended_reason = none;
  banned_reason = none;
  two_factor_enabled = true;
  two_factor_secret = some "SECRET";
  two_factor_recovery_codes = "r1" ∷ "r2" ∷ [];
  discord_id = none;
  google_id = none;
  github_id = none;
  role_id = some 7;
}

abbrev pub alice_auth : AuthenticatedUser
alice_auth = record {
  id = 1;
  email = "alice@example.org";
  username = "alice";
  role_id = some 7;
  permissions = "servers.read" ∷ "servers.power" ∷ [];
  two_factor_enabled = true;
  impersonated_by = none;
}

abbrev pub node : Node
node = record {
  id = 3;
  name = "n1";
  fqdn = "n1.example.org";
  region = none;
  status = NodeStatus.online;
  maintenance_mode = false;
  grpc_host = "10.0.0.1";
  grpc_port = 9501;
  cpu_cores = 4;
  memory_mb = 4096;
  disk_mb = 20000;
  cpu_allocated_pct = pos 100;
  memory_allocated_mb = pos 1024;
  disk_allocated_mb = pos 2048;
  overallocate_cpu_pct = 0;
  overallocate_mem_pct = 0;
  overallocate_disk_pct = 0;
  docker_network_subnet = "172.20.0.0/16";
  last_heartbeat_at = none;
}

abbrev pub template : ServerTemplate
template = record {
  id = 5;
  name = "paper";
  game_type = "MINECRAFT_JAVA";
  description = none;
  docker_image = "java";
  startup_command = "run";
  install_script = none;
  default_variables = [];
  min_memory_mb = 1024;
  is_public = true;
}

abbrev pub server : Server
server = record {
  id = 20;
  uuid = "abcd";
  name = "lobby";
  description = none;
  owner_id = 1;
  node_id = 3;
  template_id = 5;
  game_type = "MINECRAFT_JAVA";
  docker_image = "java";
  status = ServerStatus.offline;
  suspended = false;
  suspended_reason = none;
  cpu_limit_pct = 100;
  memory_limit_mb = 1024;
  disk_limit_mb = 2048;
  swap_limit_mb = 0;
  io_weight = 500;
  environment = [];
  startup_command = "run";
  data_path = "/srv/elysia/servers/abcd";
}

abbrev pub token : RefreshToken
token = record {
  id = 40;
  user_id = 1;
  token_hash = "t1";
  user_agent = none;
  ip = none;
  revoked = false;
  expires_at = 5000;
}

abbrev pub api_key : ApiKey
api_key = record {
  id = 50;
  user_id = 1;
  name = "ci";
  key_prefix = "elysia_0";
  key_hash = "elysia_key";
  scopes = "servers.read" ∷ [];
  last_used_at = none;
  expires_at = none;
}

abbrev pub allocation : NetworkAllocation
allocation = record {
  id = 30;
  node_id = 3;
  ip = "0.0.0.0";
  port = 25565;
  server_id = some 20;
  is_primary = true;
}

abbrev pub world : World
world = record {
  users = alice ∷ [];
  roles = record { id = 7; name = "client"; description = none; is_system = true } ∷ [];
  permissions = record { id = 70; key = "servers.read"; group = "servers" } ∷ [];
  role_permissions = record { role_id = 7; permission_id = 70 } ∷ [];
  refresh_tokens = token ∷ [];
  api_keys = api_key ∷ [];
  audit_logs = [];
  nodes = node ∷ [];
  allocations = allocation ∷ [];
  templates = template ∷ [];
  servers = server ∷ [];
  sub_users = record { server_id = 20; user_id = 2; permissions = [] } ∷ [];
  tasks = [];
  backups = [];
  installed_mods = [];
  products = [];
  plans = [];
  subscriptions = [];
  invoices = [];
  coupons = [];
  tickets = [];
  messages = [];
  items = [];
  clients = [];
  sent = [];
  fetched = [];
  now = 1000;
  drawn = 0;
}
