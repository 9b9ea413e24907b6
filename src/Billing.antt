-- ===== src/Billing.antt =====
-- BillingService (backend/src/billing/billing.service.ts); StripeService
-- (backend/src/billing/stripe.service.ts) is in Stripe and Checkout.
pub mod Laws
pub mod Coupons
pub mod Stripe
pub mod Checkout
use elysia_panel.Prelude.{
  ℕ, zero, suc, ◌+◌, ◌-◌, String, Bool, true, false, Option, none, some, List, [], ◌∷◌, ◌++◌, ◌||◌,
  ◌&&◌, ◌==◌, same, is_blank, ltb, leb, length, select, reverse, any, find, map, if◌then◌else◌, not,
}
use elysia_panel.Prelude.Int.{ℤ, pos, ◌+ℤ◌}
use elysia_panel.Prelude.Decimal.{codes, decimal}
use elysia_panel.World.Schema.{RowId, Severity}
use elysia_panel.World.Records.{
  Product, Plan, BillingCycle, Subscription, SubscriptionStatus, Invoice, InvoiceStatus, Coupon,
}
use elysia_panel.World.State.{
  World, Env, products_t, plans_t, subscriptions_t, invoices_t, coupons_t,
}
use elysia_panel.World.Action.{
  Action, ⊤, foreign_key_violation, unique_violation, ◌>>=◌, ◌>>◌, pure, gets, throw_if,
  find_unique, create_row, update_row, draw, log, entry,
}

-- The arguments of `createCoupon`.
pub record CreateCoupon : Type 0 where
  pub code : String
  pub percent_off : Option ℕ
  pub amount_off_cents : Option ℕ
  pub max_redemptions : Option ℕ
  pub expires_at : Option ℕ

-- The arguments of `createPlan`.
pub record CreatePlan : Type 0 where
  pub name : String
  pub price_cents : ℕ
  pub currency : String
  pub billing_cycle : BillingCycle
  pub cpu_limit_pct : ℕ
  pub memory_limit_mb : ℕ
  pub disk_limit_mb : ℕ

-- `coupon.expiresAt && coupon.expiresAt < new Date()`
abbrev pub is_past : Option ℕ → ℕ → Bool
is_past none now = false
is_past (some at) now = ltb at now

-- `coupon.maxRedemptions && coupon.timesRedeemed >= coupon.maxRedemptions`
abbrev pub is_used_up : Option ℕ → ℕ → Bool
is_used_up none times = false
is_used_up (some most) times = if most == 0 then false else leb most times

unfoldable pub validate_coupon : String → World → Option Coupon
validate_coupon code w = elim (elysia_panel.Prelude.find (λ c. same c.code code) w.coupons) [
  | none ↦ none
  | some coupon ↦
      if not coupon.active
        || is_past coupon.expires_at w.now
        || is_used_up coupon.max_redemptions coupon.times_redeemed
      then none
      else some coupon
]

-- A product with its plans on offer.
pub record ProductView : Type 0 where
  pub product : Product
  pub plans : List Plan

-- `listProducts`
unfoldable pub list_products : World → List ProductView
list_products w =
    map
      (λ p. record {
        product = p;
        plans = select (λ plan. plan.product_id == p.id && plan.active) w.plans;
      })
      (select (λ p. p.active) w.products)

-- A subscription with its plan and the plan's product.
pub record SubscriptionView : Type 0 where
  pub subscription : Subscription
  pub plan : Option Plan
  pub product : Option Product

abbrev pub product_of : World → Option Plan → Option Product
product_of w none = none
product_of w (some plan) = find (λ p. p.id == plan.product_id) w.products

-- `listSubscriptionsForUser`
unfoldable pub list_subscriptions_for_user : RowId → World → List SubscriptionView
list_subscriptions_for_user user_id w =
    map
      (λ s.
        let plan : Option Plan = find (λ p. p.id == s.plan_id) w.plans in
        record { subscription = s; plan = plan; product = product_of w plan })
      (select (λ s. s.user_id == user_id) w.subscriptions)

-- `listInvoicesForUser`
unfoldable pub list_invoices_for_user : RowId → World → List Invoice
list_invoices_for_user user_id w = reverse (select (λ i. i.user_id == user_id) w.invoices)

unfoldable pub refund_invoice : RowId → RowId → Action Invoice
refund_invoice id actor_id = do
  invoice ← update_row invoices_t (λ i. i.id == id) (λ i. record i { status = InvoiceStatus.void })
  log (record (entry actor_id "billing.invoice.refund" "Invoice" id) {
    severity = some Severity.warning;
  })
  pure invoice

abbrev pub zeros : ℕ → List ℕ → List ℕ
zeros zero text = text
zeros (suc n) text = b'0' ∷ zeros n text

-- `padStart(width, '0')`
abbrev pub pad_start : ℕ → List ℕ → List ℕ
pad_start width text = zeros (width - length text) text

-- The number of the invoice that follows `count` others.
unfoldable pub invoice_number : ℕ → ℕ → List ℕ
invoice_number year count =
    codes "ELY-" ++ decimal year ++ codes "-" ++ pad_start 6 (decimal (count + 1))

module _ (env : Env) where
  unfoldable pub create_product : String → Option String → RowId → Action Product
  create_product name description actor_id = do
    id ← draw env.uuid
    product ←
        create_row products_t (λ p. p.id == id)
          (record { id = id; name = name; description = description; active = true })
    log (entry actor_id "billing.product.create" "Product" id)
    pure product

  unfoldable pub create_plan : RowId → CreatePlan → RowId → Action Plan
  create_plan product_id dto actor_id = do
    exists ← gets (λ w. any (λ p. p.id == product_id) w.products)
    throw_if (not exists) foreign_key_violation
    id ← draw env.uuid
    plan ←
        create_row plans_t (λ p. p.id == id)
          (record {
            id = id;
            product_id = product_id;
            name = dto.name;
            price_cents = dto.price_cents;
            currency = dto.currency;
            billing_cycle = dto.billing_cycle;
            cpu_limit_pct = dto.cpu_limit_pct;
            memory_limit_mb = dto.memory_limit_mb;
            disk_limit_mb = dto.disk_limit_mb;
            active = true;
          })
    log (entry actor_id "billing.plan.create" "Plan" id)
    pure plan

  unfoldable pub create_coupon : CreateCoupon → RowId → Action Coupon
  create_coupon dto actor_id = do
    id ← draw env.uuid
    coupon ←
        create_row coupons_t (λ c. same c.code dto.code)
          (record {
            id = id;
            code = dto.code;
            percent_off = dto.percent_off;
            amount_off_cents = dto.amount_off_cents;
            max_redemptions = dto.max_redemptions;
            times_redeemed = 0;
            expires_at = dto.expires_at;
            active = true;
          })
    log (entry actor_id "billing.coupon.create" "Coupon" id)
    pure coupon

  unfoldable pub create_invoice_number : World → List ℕ
  create_invoice_number w = invoice_number (env.year_of w.now) (length w.invoices)
