-- ===== src/Billing/Checkout/Laws.antt =====
-- What is charged for a plan.
use elysia_panel.Prelude.{String, false, ◌≡◌, ◌⊎◌, some, ◌==◌, find, is_blank, arith}
use elysia_panel.World.Schema.{RowId}
use elysia_panel.World.Records.{Product, Plan, BillingCycle}
use elysia_panel.World.State.{World}
use elysia_panel.Billing.Checkout.{Interval, StripeApi, checkout_request, create_checkout_session}

module _ (stripe : StripeApi) (user_id plan_id : RowId) (to_success to_cancel : String) (w : World)
    (plan : Plan) (product : Product) where
  -- For a stored plan and product, whether the plan is active or not, the checkout asks Stripe for
  -- the plan's price and returns its answer, with nothing written. A plan that is billed every
  -- quarter or every hour is charged that price every month.
  pub checkout_charges :
      is_blank stripe.secret_key ≡ false
      → find (λ p. p.id == plan_id) w.plans ≡ some plan
      → find (λ p. p.id == plan.product_id) w.products ≡ some product
      → (create_checkout_session stripe user_id plan_id to_success to_cancel w ≡ (
        stripe.create_session
            (checkout_request stripe user_id plan_id plan product to_success to_cancel),
        w,
      ))
        × ((plan.billing_cycle ≡ BillingCycle.quarterly)
              ⊎ (plan.billing_cycle ≡ BillingCycle.hourly)
            → (checkout_request stripe user_id plan_id plan product to_success to_cancel).recurring
              ≡ some Interval.month)
  unfolding create_checkout_session
  checkout_charges configured found sold =
      (ground (arith, configured, found, sold), λ h. ground (arith, h))
