-- ===== src/Billing/Laws.antt =====
-- The numbers of invoices, and what a repeated event of Stripe does.
use elysia_panel.Prelude.{
  ℕ, zero, suc, ◌+◌, ◌-◌, String, true, false, ◌≡◌, refl, sym, ap, ◌∙◌, some, List, [], ◌∷◌, ◌++◌,
  same, length, find, any, arith, Bool, ◌||◌, ◌≤◌, Bool-cases, inl, inr, length-append,
}
use elysia_panel.Prelude.Decimal.{codes, decimal, digits_value, digits_value-decimal_from}
use elysia_panel.World.Records.{Subscription, Invoice, InvoiceStatus}
use elysia_panel.World.State.{World, Env}
use elysia_panel.World.Action.{ok}
use elysia_panel.Billing.{zeros, pad_start, invoice_number, create_invoice_number}
use elysia_panel.Billing.Stripe.{
  StripeInvoice, tax_of, invoice_paid, has_subscription, same_number, record_invoice,
  on_invoice_paid, handle_event,
}

digits_value-zeros : (n : ℕ) (text : List ℕ) → digits_value 0 (zeros n text) ≡ digits_value 0 text
digits_value-zeros zero text = refl
digits_value-zeros (suc n) text = digits_value-zeros n text

-- Reading a padded number gives the number.
digits_value-pad_start : (n width : ℕ) → digits_value 0 (pad_start width (decimal n)) ≡ n
unfolding decimal
digits_value-pad_start n width =
    digits_value-zeros (width - length (decimal n)) (decimal n)
    ∙ digits_value-decimal_from n n [] (omega arith)

append_cancel : (xs ys zs : List ℕ) → xs ++ ys ≡ xs ++ zs → ys ≡ zs
append_cancel [] ys zs h = h
append_cancel (x ∷ xs) ys zs h = append_cancel xs ys zs (cc)

-- Invoices of the same year that follow different numbers of invoices have different numbers.
pub invoice_number_injective :
    (year count count' : ℕ)
    → invoice_number year count ≡ invoice_number year count'
    → count ≡ count'
unfolding invoice_number
invoice_number_injective year count count' h =
    let rest : pad_start 6 (decimal (count + 1)) ≡ pad_start 6 (decimal (count' + 1)) =
      append_cancel (codes "ELY-" ++ decimal year ++ codes "-") _ _ h in
    let next : count + 1 ≡ count' + 1 =
      sym (digits_value-pad_start (count + 1) 6)
      ∙ ap (digits_value 0) rest
      ∙ digits_value-pad_start (count' + 1) 6 in
    omega arith

same_number_sound : (xs ys : List ℕ) → same_number xs ys ≡ true → xs ≡ ys
same_number_sound [] [] h = refl
same_number_sound [] (y ∷ ys) h = absurd (cc)
same_number_sound (x ∷ xs) [] h = absurd (cc)
same_number_sound (x ∷ xs) (y ∷ ys) h =
    let rest : xs ≡ ys = same_number_sound xs ys (ground arith) in
    let first : x ≡ y = ground arith in ap (λ k. k ∷ xs) first ∙ ap (λ ks. y ∷ ks) rest

any-append :
    {A : Type 0} (p : A → Bool) (xs ys : List A) → any p (xs ++ ys) ≡ (any p xs || any p ys)
any-append p [] ys = refl
any-append p (x ∷ xs) ys = ground (arith, any-append p xs ys)

module _ (env : Env) (paid : StripeInvoice) (name : String) (sub : Subscription) where
  -- The invoice that an event writes.
  abbrev written : World → Invoice
  written w = record {
    id = env.uuid w.drawn;
    user_id = sub.user_id;
    subscription_id = some sub.id;
    number = create_invoice_number env w;
    status = InvoiceStatus.paid;
    subtotal_cents = paid.subtotal;
    tax_cents = tax_of paid.total_taxes;
    total_cents = paid.total;
    currency = paid.currency;
    provider = some "STRIPE";
    provider_ref = some paid.id;
    paid_at = some w.now;
  }

  -- No invoice has a number of this year that is still to come.
  abbrev pub IsFresh : World → Type 0
  IsFresh w =
      (k : ℕ)
      → length w.invoices ≤ k
      → any (λ i. same_number i.number (invoice_number (env.year_of w.now) k)) w.invoices ≡ false

  first_unused :
      (w : World)
      → IsFresh w
      → any (λ i. same_number i.number (create_invoice_number env w)) w.invoices ≡ false
  unfolding create_invoice_number
  first_unused w fresh = fresh (length w.invoices) (omega arith)

  event_once :
      (w : World)
      → paid.subscription ≡ some name
      → same name "" ≡ false
      → find (has_subscription name) w.subscriptions ≡ some sub
      → any (λ i. same_number i.number (create_invoice_number env w)) w.invoices ≡ false
      → let (result, w') = handle_event env (invoice_paid paid) w in
        (result ≡ ok tt)
        × (w'.invoices ≡ w.invoices ++ written w ∷ [])
        × (w'.subscriptions ≡ w.subscriptions)
        × (w'.now ≡ w.now)
  unfolding handle_event on_invoice_paid record_invoice
  event_once w h filled found fresh = (ground arith, ground arith, ground arith, ground arith)

  -- The number that follows the invoice just written is free as well.
  next_unused :
      (w w' : World)
      → IsFresh w
      → w'.invoices ≡ w.invoices ++ written w ∷ []
      → w'.now ≡ w.now
      → any (λ i. same_number i.number (create_invoice_number env w')) w'.invoices ≡ false
  unfolding create_invoice_number
  next_unused w w' fresh booked time =
      let year : ℕ = env.year_of w.now in
      let count : ℕ = length w.invoices in
      let longer : length w'.invoices ≡ count + 1 =
        ap length booked ∙ length-append w.invoices (written w ∷ []) ∙ omega arith in
      let number : invoice_number (env.year_of w'.now) (length w'.invoices)
          ≡ invoice_number year (count + 1) =
        ap (λ t. invoice_number (env.year_of t) (length w'.invoices)) time
        ∙ ap (invoice_number year) longer in
      let distinct : same_number (invoice_number year count) (invoice_number year (count + 1))
          ≡ false =
        elim (Bool-cases
          (same_number (invoice_number year count) (invoice_number year (count + 1)))) [
            | inr e ↦ e
            | inl e ↦
                let clash : count ≡ count + 1 =
                  invoice_number_injective year count (count + 1) (same_number_sound _ _ e) in
                absurd (omega arith)
          ] in
      let before : any (λ i. same_number i.number (invoice_number year (count + 1))) w.invoices
          ≡ false =
        fresh (count + 1) (omega arith) in
      ap (λ n. any (λ (i : Invoice). same_number i.number n) w'.invoices) number
      ∙ ap (any (λ i. same_number i.number (invoice_number year (count + 1)))) booked
      ∙ any-append _ w.invoices (written w ∷ [])
      ∙ ground (arith, before, distinct)

  -- The event of a paid invoice that Stripe delivers twice is booked twice, as two invoices for the
  -- same payment, each to the user of the subscription and over the whole amount. The numbers
  -- still to come are not taken.
  pub invoice_paid_twice :
      (w : World)
      → paid.subscription ≡ some name
      → same name "" ≡ false
      → find (has_subscription name) w.subscriptions ≡ some sub
      → IsFresh w
      → let (result, w') = handle_event env (invoice_paid paid) w in
        let (result', w'') = handle_event env (invoice_paid paid) w' in
        (result ≡ ok tt)
        × (result' ≡ ok tt)
        × (i : Invoice) × (j : Invoice) × (w''.invoices ≡ (w.invoices ++ i ∷ []) ++ j ∷ [])
        × (i.provider_ref ≡ some paid.id)
        × (j.provider_ref ≡ some paid.id)
        × (i.user_id ≡ sub.user_id)
        × (j.user_id ≡ sub.user_id)
        × (i.total_cents ≡ paid.total)
        × (j.total_cents ≡ paid.total)
  invoice_paid_twice w h filled found fresh =
      let w' : World = (handle_event env (invoice_paid paid) w).1 in
      let unused : any (λ i. same_number i.number (create_invoice_number env w)) w.invoices
          ≡ false =
        first_unused w fresh in
      let (done, booked, subs, time) = event_once w h filled found unused in
      let (done', booked', _, _) =
        event_once w' h filled (ap (find (has_subscription name)) subs ∙ found)
          (next_unused w w' fresh booked time) in
      (
        done,
        done',
        written w,
        written w',
        booked' ∙ ap (λ is. is ++ written w' ∷ []) booked,
        refl,
        refl,
        refl,
        refl,
        refl,
        refl,
      )
