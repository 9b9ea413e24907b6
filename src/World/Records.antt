-- ===== src/World/Records.antt =====
-- The remaining tables of backend/prisma/schema.prisma: scheduled tasks, backups, installed mods,
-- billing, support and the marketplace.
use elysia_panel.Prelude.{ℕ, String, Bool, Option, List}
use elysia_panel.Prelude.Int.{ℤ}
use elysia_panel.World.Schema.{RowId}

-- The column is an enum; `other` stands for a value that `execute` does not know.
pub data TaskAction : Type 0 where
  power_start power_stop power_restart backup_create command_send : TaskAction
  other : String → TaskAction

pub record ScheduledTask : Type 0 where
  pub id : RowId
  pub server_id : RowId
  pub name : String
  pub cron_expr : String
  pub action : TaskAction
  pub command : Option String
  pub enabled : Bool
  pub last_run_at : Option ℕ
  pub next_run_at : Option ℕ

pub data BackupStatus : Type 0 where
  pending in_progress completed failed restoring : BackupStatus

pub record Backup : Type 0 where
  pub id : RowId
  pub server_id : RowId
  pub name : String
  pub driver : String
  pub status : BackupStatus
  pub size_bytes : Option ℕ
  pub checksum : Option String
  pub remote_path : Option String
  pub fail_reason : Option String
  pub completed_at : Option ℕ

pub data ModSource : Type 0 where
  modrinth curseforge manual : ModSource

pub record InstalledMod : Type 0 where
  pub id : RowId
  pub server_id : RowId
  pub source : ModSource
  pub project_id : String
  pub version_id : String
  pub file_name : String
  pub name : String

pub data BillingCycle : Type 0 where
  hourly daily weekly monthly quarterly yearly one_time : BillingCycle

pub record Product : Type 0 where
  pub id : RowId
  pub name : String
  pub description : Option String
  pub active : Bool

pub record Plan : Type 0 where
  pub id : RowId
  pub product_id : RowId
  pub name : String
  pub price_cents : ℕ
  pub currency : String
  pub billing_cycle : BillingCycle
  pub cpu_limit_pct : ℕ
  pub memory_limit_mb : ℕ
  pub disk_limit_mb : ℕ
  pub active : Bool

pub data SubscriptionStatus : Type 0 where
  active past_due canceled trialing expired : SubscriptionStatus

pub record Subscription : Type 0 where
  pub id : RowId
  pub user_id : RowId
  pub plan_id : RowId
  pub status : SubscriptionStatus
  pub stripe_subscription_id : Option String

pub data InvoiceStatus : Type 0 where
  draft opened paid void uncollectible : InvoiceStatus

-- `number` is the list of its characters.
pub record Invoice : Type 0 where
  pub id : RowId
  pub user_id : RowId
  pub subscription_id : Option RowId
  pub number : List ℕ
  pub status : InvoiceStatus
  pub subtotal_cents : ℤ
  pub tax_cents : ℤ
  pub total_cents : ℤ
  pub currency : String
  pub provider : Option String
  pub provider_ref : Option String
  pub paid_at : Option ℕ

pub record Coupon : Type 0 where
  pub id : RowId
  pub code : String
  pub percent_off : Option ℕ
  pub amount_off_cents : Option ℕ
  pub max_redemptions : Option ℕ
  pub times_redeemed : ℕ
  pub expires_at : Option ℕ
  pub active : Bool

pub data TicketStatus : Type 0 where
  opened pending resolved closed : TicketStatus

pub record SupportTicket : Type 0 where
  pub id : RowId
  pub user_id : RowId
  pub subject : String
  pub status : TicketStatus
  pub updated_at : ℕ

pub record TicketMessage : Type 0 where
  pub id : RowId
  pub ticket_id : RowId
  pub author_id : RowId
  pub body : String
  pub is_staff : Bool

pub record MarketplaceItem : Type 0 where
  pub id : RowId
  pub item_type : String
  pub name : String
  pub slug : String
  pub description : Option String
  pub author_name : String
  pub price_cents : ℕ
  pub version : String
  pub download_url : Option String
  pub repo_url : Option String
  pub verified : Bool
  pub downloads : ℕ
