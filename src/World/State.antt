-- ===== src/World/State.antt =====
-- The state of the backend, its tables, and the services that it calls and does not implement.
use elysia_panel.Prelude.{ℕ, String, Bool, Option, List}
use elysia_panel.World.Schema.{
  RowId, User, Role, Permission, RolePermission, RefreshToken, ApiKey, AuditLog, Node,
  NetworkAllocation, ServerTemplate, Server, ServerSubUser,
}
use elysia_panel.World.Records.{
  ScheduledTask, Backup, InstalledMod, Product, Plan, Subscription, Invoice, Coupon, SupportTicket,
  TicketMessage, MarketplaceItem,
}
use elysia_panel.World.Daemon.{Endpoint, Rpc, Reply}

-- Rows stand in the order of their creation. `clients` is the cache of NodeClientService, `sent`
-- the requests that reached a daemon and `fetched` the addresses at which downloads of files
-- started, both newest first, and `drawn` counts the random values drawn.
pub record World : Type 0 where
  pub users : List User
  pub roles : List Role
  pub permissions : List Permission
  pub role_permissions : List RolePermission
  pub refresh_tokens : List RefreshToken
  pub api_keys : List ApiKey
  pub audit_logs : List AuditLog
  pub nodes : List Node
  pub allocations : List NetworkAllocation
  pub templates : List ServerTemplate
  pub servers : List Server
  pub sub_users : List ServerSubUser
  pub tasks : List ScheduledTask
  pub backups : List Backup
  pub installed_mods : List InstalledMod
  pub products : List Product
  pub plans : List Plan
  pub subscriptions : List Subscription
  pub invoices : List Invoice
  pub coupons : List Coupon
  pub tickets : List SupportTicket
  pub messages : List TicketMessage
  pub items : List MarketplaceItem
  pub clients : List (RowId × Endpoint)
  pub sent : List Rpc
  pub fetched : List String
  pub now : ℕ
  pub drawn : ℕ

-- One table of the database.
pub record Table (A : Type 0) : Type 0 where
  pub rows : World → List A
  pub write : List A → World → World

-- What an access token carries: `JwtPayload`.
pub record JwtPayload : Type 0 where
  pub sub : RowId
  pub impersonated_by : Option RowId

-- The code that the backend calls and does not contain: random values (by the number drawn so
-- far), the daemons (by what was sent before), bcrypt, SHA-256, TOTP, JSON web tokens, the cron
-- parser and the configuration. `passport_jwt` reads the bearer
-- token of a header, `spelled` is the text of an identifier or a number, `year_of`
-- the year of a date, and `error_text` the message that the database or the cron parser attaches to an error, by the error's code.
pub record Env : Type 0 where
  pub uuid : ℕ → RowId
  pub uuid_text : ℕ → String
  pub random_hex : ℕ → ℕ → String
  pub daemon : List Rpc → Rpc → Reply
  pub bcrypt_hash : ℕ → String → String
  pub bcrypt_compare : String → String → Bool
  pub sha256 : String → String
  pub totp_secret : ℕ → String
  pub totp_verify : String → String → ℕ → Bool
  pub jwt_sign : RowId → Option RowId → ℕ → String
  pub jwt_verify : String → ℕ → Option RowId
  pub passport_jwt : Option String → ℕ → Option JwtPayload
  pub node_secret : Option String
  pub cron_next : String → ℕ → Option ℕ
  pub refresh_ttl : Option String
  pub backup_driver : Option String
  pub backup_s3 : List (String × String)
  pub spelled : ℕ → String
  pub year_of : ℕ → ℕ
  pub error_text : String → String

abbrev pub users_t : Table User
users_t = record { rows = λ w. w.users; write = λ xs w. record w { users = xs } }

abbrev pub roles_t : Table Role
roles_t = record { rows = λ w. w.roles; write = λ xs w. record w { roles = xs } }

abbrev pub permissions_t : Table Permission
permissions_t = record { rows = λ w. w.permissions; write = λ xs w. record w { permissions = xs } }

abbrev pub role_permissions_t : Table RolePermission
role_permissions_t = record {
  rows = λ w. w.role_permissions;
  write = λ xs w. record w { role_permissions = xs };
}

abbrev pub tokens_t : Table RefreshToken
tokens_t = record { rows = λ w. w.refresh_tokens; write = λ xs w. record w { refresh_tokens = xs } }

abbrev pub api_keys_t : Table ApiKey
api_keys_t = record { rows = λ w. w.api_keys; write = λ xs w. record w { api_keys = xs } }

abbrev pub nodes_t : Table Node
nodes_t = record { rows = λ w. w.nodes; write = λ xs w. record w { nodes = xs } }

abbrev pub allocations_t : Table NetworkAllocation
allocations_t = record { rows = λ w. w.allocations; write = λ xs w. record w { allocations = xs } }

abbrev pub templates_t : Table ServerTemplate
templates_t = record { rows = λ w. w.templates; write = λ xs w. record w { templates = xs } }

abbrev pub servers_t : Table Server
servers_t = record { rows = λ w. w.servers; write = λ xs w. record w { servers = xs } }

abbrev pub sub_users_t : Table ServerSubUser
sub_users_t = record { rows = λ w. w.sub_users; write = λ xs w. record w { sub_users = xs } }

abbrev pub tasks_t : Table ScheduledTask
tasks_t = record { rows = λ w. w.tasks; write = λ xs w. record w { tasks = xs } }

abbrev pub backups_t : Table Backup
backups_t = record { rows = λ w. w.backups; write = λ xs w. record w { backups = xs } }

abbrev pub mods_t : Table InstalledMod
mods_t = record { rows = λ w. w.installed_mods; write = λ xs w. record w { installed_mods = xs } }

abbrev pub products_t : Table Product
products_t = record { rows = λ w. w.products; write = λ xs w. record w { products = xs } }

abbrev pub plans_t : Table Plan
plans_t = record { rows = λ w. w.plans; write = λ xs w. record w { plans = xs } }

abbrev pub subscriptions_t : Table Subscription
subscriptions_t = record {
  rows = λ w. w.subscriptions;
  write = λ xs w. record w { subscriptions = xs };
}

abbrev pub invoices_t : Table Invoice
invoices_t = record { rows = λ w. w.invoices; write = λ xs w. record w { invoices = xs } }

abbrev pub coupons_t : Table Coupon
coupons_t = record { rows = λ w. w.coupons; write = λ xs w. record w { coupons = xs } }

abbrev pub tickets_t : Table SupportTicket
tickets_t = record { rows = λ w. w.tickets; write = λ xs w. record w { tickets = xs } }

abbrev pub messages_t : Table TicketMessage
messages_t = record { rows = λ w. w.messages; write = λ xs w. record w { messages = xs } }

abbrev pub items_t : Table MarketplaceItem
items_t = record { rows = λ w. w.items; write = λ xs w. record w { items = xs } }
