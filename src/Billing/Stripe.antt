-- ===== src/Billing/Stripe.antt =====
-- The webhook of StripeService (backend/src/billing/stripe.service.ts), from the event on that
-- `constructEvent` of Stripe returns. Sessions of the checkout are Stripe's.
use elysia_panel.Prelude.{
  ℕ, String, Bool, true, false, Option, none, some, List, [], ◌∷◌, ◌||◌, ◌&&◌, not, ◌==◌, same, any,
  if◌then◌else◌,
}
use elysia_panel.Prelude.Int.{ℤ, pos, ◌+ℤ◌}
use elysia_panel.World.Schema.{RowId}
use elysia_panel.World.Records.{Subscription, SubscriptionStatus, InvoiceStatus}
use elysia_panel.World.State.{Env, subscriptions_t, invoices_t}
use elysia_panel.World.Action.{
  Action, ⊤, foreign_key_violation, ◌>>=◌, ◌>>◌, pure, gets, throw_if, find_unique, create_row,
  draw,
}
use elysia_panel.Billing.{create_invoice_number}

-- What the handlers read of a checkout session: its metadata and, if it is a text, its subscription.
pub record Session : Type 0 where
  pub user_id : Option RowId
  pub plan_id : Option RowId
  pub subscription : Option String

-- What they read of an invoice of Stripe; `currency` is in upper case.
pub record StripeInvoice : Type 0 where
  pub id : String
  pub subscription : Option String
  pub subtotal : ℤ
  pub total_taxes : Option (List ℤ)
  pub total : ℤ
  pub currency : String

pub data Event : Type 0 where
  checkout_completed : Session → Event
  invoice_paid : StripeInvoice → Event
  other : Event

-- `(… ?? []).reduce((sum, t) => sum + t.amount, 0)`
abbrev pub sum_from : ℤ → List ℤ → ℤ
sum_from sum [] = sum
sum_from sum (t ∷ ts) = sum_from (sum +ℤ t) ts

abbrev pub tax_of : Option (List ℤ) → ℤ
tax_of none = pos 0
tax_of (some taxes) = sum_from (pos 0) taxes

abbrev pub has_subscription : String → Subscription → Bool
has_subscription name s = elim s.stripe_subscription_id [ none ↦ false | some n ↦ same n name ]

-- Whether a new subscription has the Stripe subscription of this one.
abbrev pub clashes : Option String → Subscription → Bool
clashes none s = false
clashes (some name) s = has_subscription name s

-- Equality of the numbers of invoices.
abbrev pub same_number : List ℕ → List ℕ → Bool
same_number [] [] = true
same_number [] (y ∷ ys) = false
same_number (x ∷ xs) [] = false
same_number (x ∷ xs) (y ∷ ys) = x == y && same_number xs ys

module _ (env : Env) where
  create_subscription : RowId → RowId → Option String → Action ⊤
  create_subscription user_id plan_id name = do
    users ← gets (λ w. any (λ u. u.id == user_id) w.users)
    plans ← gets (λ w. any (λ p. p.id == plan_id) w.plans)
    throw_if (not users || not plans) foreign_key_violation
    id ← draw env.uuid
    create_row subscriptions_t (clashes name) (record {
      id = id;
      user_id = user_id;
      plan_id = plan_id;
      status = SubscriptionStatus.active;
      stripe_subscription_id = name;
    })
    pure tt

  -- `onCheckoutCompleted`
  unfoldable pub on_checkout_completed : Session → Action ⊤
  unfolding create_subscription
  on_checkout_completed session = elim session.user_id [
    | none ↦ pure tt
    | some user_id ↦ elim session.plan_id [
      | none ↦ pure tt
      | some plan_id ↦ create_subscription user_id plan_id session.subscription
    ]
  ]

  -- The invoice that is written for a paid one.
  unfoldable pub record_invoice : StripeInvoice → Subscription → Action ⊤
  record_invoice paid subscription = do
    number ← gets (create_invoice_number env)
    now ← gets (λ w. w.now)
    id ← draw env.uuid
    create_row invoices_t (λ i. same_number i.number number)
        (record {
          id = id;
          user_id = subscription.user_id;
          subscription_id = some subscription.id;
          number = number;
          status = InvoiceStatus.paid;
          subtotal_cents = paid.subtotal;
          tax_cents = tax_of paid.total_taxes;
          total_cents = paid.total;
          currency = paid.currency;
          provider = some "STRIPE";
          provider_ref = some paid.id;
          paid_at = some now;
        })
    pure tt

  -- `onInvoicePaid`, with the name of the subscription.
  on_subscription_paid : StripeInvoice → String → Action ⊤
  on_subscription_paid paid name = do
    found ← find_unique subscriptions_t (has_subscription name)
    elim found [ none ↦ pure tt | some subscription ↦ record_invoice paid subscription ]

  -- `onInvoicePaid`
  unfoldable pub on_invoice_paid : StripeInvoice → Action ⊤
  unfolding on_subscription_paid
  on_invoice_paid paid = elim paid.subscription [
    | none ↦ pure tt
    | some name ↦ if same name "" then pure tt else on_subscription_paid paid name
  ]

  -- The switch of `handleWebhook`.
  unfoldable pub handle_event : Event → Action ⊤
  handle_event (checkout_completed session) = on_checkout_completed session
  handle_event (invoice_paid paid) = on_invoice_paid paid
  handle_event other = pure tt
