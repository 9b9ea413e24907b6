-- ===== src/Billing/Checkout.antt =====
-- The rest of StripeService (backend/src/billing/stripe.service.ts): `createCheckoutSession`,
-- `mapCycleToStripeInterval` and the frame of `handleWebhook`.
pub mod Laws
use elysia_panel.Prelude.{
  ℕ, String, Bool, true, false, Option, none, some, List, [], ◌∷◌, ◌==◌, ◌||◌, not, same, is_blank,
  concat, if◌then◌else◌,
}
use elysia_panel.World.Schema.{RowId}
use elysia_panel.World.Records.{Product, Plan, BillingCycle}
use elysia_panel.World.State.{World, Env, plans_t, products_t}
use elysia_panel.World.Action.{
  Action, ⊤, Result, ok, err, bad_request, ◌>>=◌, ◌>>◌, pure, throw_if, or_throw, find_or_throw,
}
use elysia_panel.Billing.Stripe.{Event, Session, handle_event}

pub data Interval : Type 0 where
  day week month year : Interval

-- `mapCycleToStripeInterval`
abbrev pub map_cycle_to_stripe_interval : BillingCycle → Interval
map_cycle_to_stripe_interval BillingCycle.yearly = Interval.year
map_cycle_to_stripe_interval BillingCycle.weekly = Interval.week
map_cycle_to_stripe_interval BillingCycle.daily = Interval.day
map_cycle_to_stripe_interval BillingCycle.hourly = Interval.month
map_cycle_to_stripe_interval BillingCycle.monthly = Interval.month
map_cycle_to_stripe_interval BillingCycle.quarterly = Interval.month
map_cycle_to_stripe_interval BillingCycle.one_time = Interval.month

pub data Mode : Type 0 where
  payment subscription : Mode

-- What `checkout.sessions.create` is given: one line item of quantity 1.
pub record CheckoutRequest : Type 0 where
  pub mode : Mode
  pub currency : String
  pub unit_amount : ℕ
  pub product_name : String
  pub recurring : Option Interval
  pub success_url : String
  pub cancel_url : String
  pub client_reference_id : RowId
  pub user_id : RowId
  pub plan_id : RowId

abbrev pub mode_of : BillingCycle → Mode
mode_of BillingCycle.one_time = Mode.payment
mode_of _ = Mode.subscription

-- `plan.billingCycle !== 'ONE_TIME' && { recurring: … }`
abbrev pub recurring_of : BillingCycle → Option Interval
recurring_of BillingCycle.one_time = none
recurring_of cycle = some (map_cycle_to_stripe_interval cycle)

-- The library of Stripe, its keys, and `toLowerCase`. `create_session` answers with the address of
-- the session, and `construct_event` checks a signature.
pub record StripeApi : Type 0 where
  pub secret_key : Option String
  pub webhook_secret : Option String
  pub lower_case : String → String
  pub create_session : CheckoutRequest → Result String
  pub construct_event : String → String → String → Result Event

module _ (stripe : StripeApi) where
  -- `requireStripe`
  abbrev pub require_stripe : Action ⊤
  require_stripe = throw_if (is_blank stripe.secret_key) (bad_request "Stripe non configuré")

  -- The session of a plan for a user.
  abbrev pub checkout_request : RowId → RowId → Plan → Product → String → String → CheckoutRequest
  checkout_request user_id plan_id plan product success_url cancel_url = record {
    mode = mode_of plan.billing_cycle;
    currency = stripe.lower_case plan.currency;
    unit_amount = plan.price_cents;
    product_name = concat product.name (concat " — " plan.name);
    recurring = recurring_of plan.billing_cycle;
    success_url = success_url;
    cancel_url = cancel_url;
    client_reference_id = user_id;
    user_id = user_id;
    plan_id = plan_id;
  }

  -- `createCheckoutSession`: the address of the session.
  unfoldable pub create_checkout_session : RowId → RowId → String → String → Action String
  create_checkout_session user_id plan_id success_url cancel_url = do
    require_stripe
    plan ← find_or_throw plans_t (λ p. p.id == plan_id)
    product ← find_or_throw products_t (λ p. p.id == plan.product_id)
    (λ w. (
      stripe.create_session (checkout_request user_id plan_id plan product success_url cancel_url),
      w,
    ))

  module _ (env : Env) where
    -- The event of a body whose signature is right.
    handle_signed : Option String → String → String → Action ⊤
    handle_signed none raw_body signature w =
        (err (bad_request "STRIPE_WEBHOOK_SECRET manquant"), w)
    handle_signed (some secret) raw_body signature w =
        elim (stripe.construct_event raw_body signature secret) [
          | err e ↦ (err e, w)
          | ok event ↦ handle_event env event w
        ]

    -- `!webhookSecret`
    abbrev given_secret : Option String → Option String
    given_secret none = none
    given_secret (some s) = if same s "" then none else some s

    -- `handleWebhook`
    unfoldable pub handle_webhook : String → String → Action ⊤
    unfolding handle_signed
    handle_webhook raw_body signature = do
      require_stripe
      handle_signed (given_secret stripe.webhook_secret) raw_body signature
