-- ===== src/Config.antt =====
-- The configuration of the backend (backend/src/config/configuration.ts) and the check of its secrets
-- before it starts (`assertProductionSecretsAreSet` of backend/src/main.ts).
pub mod Laws
use mathlib.Core.Option
use elysia_panel.Prelude.{
  ℕ, ◌+◌, ◌-◌, ◌*◌, String, Bool, true, false, Option, none, some, List, [], ◌∷◌, ◌&&◌, ◌||◌, not,
  ◌==◌, same, includes, is_blank, if◌then◌else◌,
}
use elysia_panel.Prelude.Int.{ℤ, pos, negsuc}
use elysia_panel.Prelude.Decimal.{codes, is_digit}
use elysia_panel.World.State.{Env}
use elysia_panel.World.Action.{Result, ok, err, ⊤, internal}

-- `process.env`: the value of a variable, if it is set.
abbrev pub ProcessEnv : Type 0
ProcessEnv = String → Option String

-- `value ?? fallback`
abbrev pub or_default : Option String → String → String
or_default none d = d
or_default (some v) d = v

-- The digits at the front of a text, and whether there were any.
abbrev pub leading_digits : ℕ → Bool → List ℕ → Option ℕ
leading_digits value seen [] = if seen then some value else none
leading_digits value seen (c ∷ cs) =
    let more = leading_digits (value * 10 + (c - b'0')) true cs in
    if is_digit c then more else if seen then some value else none

-- `parseInt(text, 10)`, where `none` is NaN: blanks, a sign, then digits, and the rest is not read.
abbrev pub parse_int : List ℕ → Option ℤ
parse_int [] = none
parse_int (c ∷ cs) =
    let rest = parse_int cs in
    if c == b' ' || c == b'\t' || c == b'\n' || c == b'\r'
    then rest
    else if c == b'-'
    then Option.map (λ n. if n == 0 then pos 0 else negsuc (n - 1)) (leading_digits 0 false cs)
    else if c == b'+'
    then Option.map pos (leading_digits 0 false cs)
    else Option.map pos (leading_digits 0 false (c ∷ cs))

pub record OAuthClient : Type 0 where
  pub client_id : Option String
  pub client_secret : Option String
  pub callback_url : Option String

pub record S3Target : Type 0 where
  pub endpoint : Option String
  pub bucket : Option String
  pub access_key : Option String
  pub secret_key : Option String
  pub use_ssl : Bool

-- The object that `configuration.ts` exports, its groups spelled out.
pub record Configuration : Type 0 where
  pub env : String
  pub http_port : Option ℤ
  pub ws_port : Option ℤ
  pub jwt_access_secret : String
  pub jwt_refresh_secret : String
  pub jwt_access_ttl : String
  pub jwt_refresh_ttl : String
  pub redis_host : String
  pub redis_port : Option ℤ
  pub redis_password : Option String
  pub discord : OAuthClient
  pub google : OAuthClient
  pub github : OAuthClient
  pub stripe_secret_key : Option String
  pub stripe_webhook_secret : Option String
  pub modrinth_api_url : String
  pub curseforge_api_url : String
  pub curseforge_api_key : Option String
  pub internal_node_secret : String
  pub backup_driver : String
  pub backup_s3 : S3Target

-- `process.env.BACKUP_S3_USE_SSL !== 'false'`
abbrev pub is_not_false : Option String → Bool
is_not_false none = true
is_not_false (some v) = not (same v "false")

unfoldable pub configuration : ProcessEnv → Configuration
configuration vars = record {
  env = or_default (vars "ELYSIA_ENV") "development";
  http_port = parse_int (codes (or_default (vars "BACKEND_HTTP_PORT") "9401"));
  ws_port = parse_int (codes (or_default (vars "BACKEND_WS_PORT") "9402"));
  jwt_access_secret = or_default (vars "JWT_ACCESS_SECRET") "dev_access_secret";
  jwt_refresh_secret = or_default (vars "JWT_REFRESH_SECRET") "dev_refresh_secret";
  jwt_access_ttl = or_default (vars "JWT_ACCESS_TTL") "15m";
  jwt_refresh_ttl = or_default (vars "JWT_REFRESH_TTL") "30d";
  redis_host = or_default (vars "REDIS_HOST") "127.0.0.1";
  redis_port = parse_int (codes (or_default (vars "REDIS_PORT") "63790"));
  redis_password = vars "REDIS_PASSWORD";
  discord = record {
    client_id = vars "OAUTH_DISCORD_CLIENT_ID";
    client_secret = vars "OAUTH_DISCORD_CLIENT_SECRET";
    callback_url = vars "OAUTH_DISCORD_CALLBACK_URL";
  };
  google = record {
    client_id = vars "OAUTH_GOOGLE_CLIENT_ID";
    client_secret = vars "OAUTH_GOOGLE_CLIENT_SECRET";
    callback_url = vars "OAUTH_GOOGLE_CALLBACK_URL";
  };
  github = record {
    client_id = vars "OAUTH_GITHUB_CLIENT_ID";
    client_secret = vars "OAUTH_GITHUB_CLIENT_SECRET";
    callback_url = vars "OAUTH_GITHUB_CALLBACK_URL";
  };
  stripe_secret_key = vars "STRIPE_SECRET_KEY";
  stripe_webhook_secret = vars "STRIPE_WEBHOOK_SECRET";
  modrinth_api_url = or_default (vars "MODRINTH_API_URL") "https://api.modrinth.com/v2";
  curseforge_api_url = or_default (vars "CURSEFORGE_API_URL") "https://api.curseforge.com/v1";
  curseforge_api_key = vars "CURSEFORGE_API_KEY";
  internal_node_secret = or_default (vars "NODE_INTERNAL_SECRET") "dev_node_internal_secret";
  backup_driver =
      if is_blank (vars "BACKUP_S3_BUCKET")
      then "LOCAL"
      else or_default (vars "BACKUP_DRIVER") "S3";
  backup_s3 = record {
    endpoint = vars "BACKUP_S3_ENDPOINT";
    bucket = vars "BACKUP_S3_BUCKET";
    access_key = vars "BACKUP_S3_ACCESS_KEY";
    secret_key = vars "BACKUP_S3_SECRET_KEY";
    use_ssl = is_not_false (vars "BACKUP_S3_USE_SSL");
  };
}

-- `insecureDefaults.includes(value)`
abbrev pub is_insecure : Option String → Bool
is_insecure none = true
is_insecure (some v) = includes ("dev_access_secret" ∷ "dev_refresh_secret" ∷ "" ∷ []) v

-- `assertProductionSecretsAreSet`
unfoldable pub assert_production_secrets_are_set : ProcessEnv → Result ⊤
assert_production_secrets_are_set vars =
    if not (same (or_default (vars "ELYSIA_ENV") "development") "production")
    then ok tt
    else if is_insecure (vars "JWT_ACCESS_SECRET") || is_insecure (vars "JWT_REFRESH_SECRET")
    then err (internal "JWT_ACCESS_SECRET / JWT_REFRESH_SECRET")
    else ok tt

-- What the services read of the configuration (`config.get`).
abbrev pub configured : Configuration → Env → Env
configured c env = record env {
  node_secret = some c.internal_node_secret;
  refresh_ttl = some c.jwt_refresh_ttl;
  backup_driver = some c.backup_driver;
}
