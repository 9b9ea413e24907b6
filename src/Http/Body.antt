-- ===== src/Http/Body.antt =====
-- Bodies of requests and their validation: the ValidationPipe of backend/src/main.ts, which refuses
-- unknown fields, and the classes of the dto folders with the rules of their decorators.
pub mod Laws
use elysia_panel.Prelude.{
  ℕ, ◌≤◌, String, Bool, true, false, Option, none, some, List, [], ◌∷◌, ◌&&◌, ◌||◌, not, ◌==◌, same,
  includes, all, ltb, leb, length, if◌then◌else◌,
}
use elysia_panel.Prelude.Decimal.{codes, is_digit}
use elysia_panel.World.Schema.{RowId, Environment}
use elysia_panel.World.Action.{Action, ⊤, bad_request, ◌>>=◌, ◌>>◌, pure, throw, throw_if}
use elysia_panel.Servers.Create.{CreateServer}
use elysia_panel.Servers.Manage.{UpdateServer}
use elysia_panel.Nodes.{CreateNode}
use elysia_panel.Users.{CreateUser, UpdateUser}
use elysia_panel.Nodes.{CreateNode}
use elysia_panel.Auth.Accounts.{Register}

-- A value of a body that has no nulls. `number` is a number that is no natural number.
pub data Json : Type 0 where
  integer : ℕ → Json
  number : String → Json
  boolean : Bool → Json
  text : String → Json
  array : Json
  object : Environment → Json

abbrev pub Fields : Type 0
Fields = List (String × Json)

abbrev pub field : String → Fields → Option Json
field name [] = none
field name ((k, v) ∷ fields) = if same k name then some v else field name fields

abbrev pub refused : {A : Type 0} → Action A
refused = throw (bad_request "Bad Request")

-- `whitelist` and `forbidNonWhitelisted`
abbrev pub known : List String → Fields → Bool
known names [] = true
known names ((k, v) ∷ fields) = includes names k && known names fields

abbrev pub check_known : List String → Fields → Action ⊤
check_known names fields = throw_if (not (known names fields)) (bad_request "Bad Request")

-- `@IsString()`
abbrev pub as_text : Option Json → Action String
as_text (some (text s)) = pure s
as_text (some (integer n)) = refused
as_text (some (number t)) = refused
as_text (some (boolean b)) = refused
as_text (some array) = refused
as_text (some (object e)) = refused
as_text none = refused

-- `@IsOptional() @IsString()`
abbrev pub as_optional_text : Option Json → Action (Option String)
as_optional_text none = pure none
as_optional_text (some v) = as_text (some v) >>= λ s. pure (some s)

-- `@IsInt() @Min(least)`
abbrev pub as_int : ℕ → Option Json → Action ℕ
as_int least (some (integer n)) = if ltb n least then refused else pure n
as_int least (some (text s)) = refused
as_int least (some (number t)) = refused
as_int least (some (boolean b)) = refused
as_int least (some array) = refused
as_int least (some (object e)) = refused
as_int least none = refused

-- `@IsOptional() @IsInt()`; a negative number is not read.
abbrev pub as_optional_int : Option Json → Action (Option ℕ)
as_optional_int none = pure none
as_optional_int (some v) = as_int 0 (some v) >>= λ n. pure (some n)

-- `@IsOptional() @IsObject()`
abbrev pub as_optional_object : Option Json → Action (Option Environment)
as_optional_object none = pure none
as_optional_object (some (object e)) = pure (some e)
as_optional_object (some (integer n)) = refused
as_optional_object (some (number t)) = refused
as_optional_object (some (boolean b)) = refused
as_optional_object (some (text s)) = refused
as_optional_object (some array) = refused

-- The characters of /[a-zA-Z0-9_]/.
abbrev pub is_word : ℕ → Bool
is_word c = (leb b'a' c && leb c b'z') || (leb b'A' c && leb c b'Z') || is_digit c || c == b'_'

-- /^[a-zA-Z0-9_]{3,32}$/
unfoldable pub is_username : String → Bool
is_username s = leb 3 (length (codes s)) && leb (length (codes s)) 32 && all is_word (codes s)

-- `@MinLength(10)`
unfoldable pub is_long : String → Bool
is_long s = leb 10 (length (codes s))

abbrev optional_row : (String → RowId) → Option String → Option RowId
optional_row row_id none = none
optional_row row_id (some s) = some (row_id s)

-- `row_id` reads an identifier, and `is_email` is the test of `@IsEmail()`.
module _ (row_id : String → RowId) where
  -- `CreateServerDto`
  unfoldable pub create_server_dto : Fields → Action CreateServer
  create_server_dto f = do
    check_known
        ("name" ∷ "description" ∷ "templateId" ∷ "cpuLimitPct" ∷ "memoryLimitMb" ∷ "diskLimitMb"
          ∷ "environment" ∷ "ownerId" ∷ [])
        f
    name ← as_text (field "name" f)
    description ← as_optional_text (field "description" f)
    template_id ← as_text (field "templateId" f)
    cpu ← as_int 10 (field "cpuLimitPct" f)
    memory ← as_int 256 (field "memoryLimitMb" f)
    disk ← as_int 512 (field "diskLimitMb" f)
    environment ← as_optional_object (field "environment" f)
    owner_id ← as_optional_text (field "ownerId" f)
    pure (record {
      name = name;
      description = description;
      template_id = row_id template_id;
      cpu_limit_pct = cpu;
      memory_limit_mb = memory;
      disk_limit_mb = disk;
      environment = environment;
      owner_id = optional_row row_id owner_id;
    })

  -- `UpdateUserDto`
  unfoldable pub update_user_dto : Fields → Action UpdateUser
  update_user_dto f = do
    check_known ("username" ∷ "roleId" ∷ []) f
    username ← as_optional_text (field "username" f)
    role_id ← as_optional_text (field "roleId" f)
    pure (record { username = username; role_id = optional_row row_id role_id })

-- `@MinLength(10)` of a text.
abbrev pub as_password : Option Json → Action String
as_password v = as_text v >>= λ s. if is_long s then pure s else refused

-- `@IsEmail()`, whose test is `is_email`.
abbrev pub as_email : (String → Bool) → Option Json → Action String
as_email is_email v = as_text v >>= λ s. if is_email s then pure s else refused

module _ (is_email : String → Bool) where
  -- `RegisterDto`
  unfoldable pub register_dto : Fields → Action Register
  register_dto f = do
    check_known ("email" ∷ "username" ∷ "password" ∷ []) f
    email ← as_email is_email (field "email" f)
    username ← as_text (field "username" f)
    throw_if (not (is_username username)) (bad_request "Bad Request")
    password ← as_password (field "password" f)
    pure (record { email = email; username = username; password = password })

  -- `CreateUserDto`
  unfoldable pub create_user_dto : (String → RowId) → Fields → Action CreateUser
  create_user_dto row_id f = do
    check_known ("email" ∷ "username" ∷ "password" ∷ "roleId" ∷ []) f
    email ← as_email is_email (field "email" f)
    username ← as_text (field "username" f)
    password ← as_password (field "password" f)
    role_id ← as_optional_text (field "roleId" f)
    pure (record {
      email = email;
      username = username;
      password = password;
      role_id = optional_row row_id role_id;
    })

-- `UpdateServerDto`
unfoldable pub update_server_dto : Fields → Action UpdateServer
update_server_dto f = do
  check_known ("name" ∷ "description" ∷ "dockerImage" ∷ "startupCommand" ∷ "environment" ∷ []) f
  name ← as_optional_text (field "name" f)
  description ← as_optional_text (field "description" f)
  docker_image ← as_optional_text (field "dockerImage" f)
  startup_command ← as_optional_text (field "startupCommand" f)
  environment ← as_optional_object (field "environment" f)
  pure (record {
    name = name;
    description = description;
    docker_image = docker_image;
    startup_command = startup_command;
    environment = environment;
  })

-- `CreateNodeDto`
unfoldable pub create_node_dto : Fields → Action CreateNode
create_node_dto f = do
  check_known
      ("name" ∷ "fqdn" ∷ "region" ∷ "grpcHost" ∷ "grpcPort" ∷ "cpuCores" ∷ "memoryMb" ∷ "diskMb"
        ∷ "dockerNetworkSubnet" ∷ [])
      f
  name ← as_text (field "name" f)
  fqdn ← as_text (field "fqdn" f)
  region ← as_optional_text (field "region" f)
  grpc_host ← as_text (field "grpcHost" f)
  grpc_port ← as_optional_int (field "grpcPort" f)
  cpu_cores ← as_int 1 (field "cpuCores" f)
  memory_mb ← as_int 256 (field "memoryMb" f)
  disk_mb ← as_int 1024 (field "diskMb" f)
  subnet ← as_text (field "dockerNetworkSubnet" f)
  pure (record {
    name = name;
    fqdn = fqdn;
    region = region;
    grpc_host = grpc_host;
    grpc_port = grpc_port;
    cpu_cores = cpu_cores;
    memory_mb = memory_mb;
    disk_mb = disk_mb;
    docker_network_subnet = subnet;
  })
