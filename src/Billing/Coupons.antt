-- ===== src/Billing/Coupons.antt =====
-- What `BillingService.validateCoupon` promises (backend/src/billing/billing.service.ts).
use elysia_panel.Prelude.{
  ℕ, ◌≤◌, ◌<◌, String, true, ◌≡◌, some, ◌⊎◌, inl, inr, ◌==◌, same, find, arith, Option-cases,
  Bool-cases,
}
use elysia_panel.World.Records.{Coupon}
use elysia_panel.World.State.{World}
use elysia_panel.Billing.{validate_coupon}

module _ (code : String) (w : World) (c : Coupon) where
  -- A coupon that validates is stored under the code, active, not past its expiry, and has
  -- redemptions left, unless its maximum is 0, which counts as none.
  pub validate_coupon-ok :
      validate_coupon code w ≡ some c
      → (find (λ d. same d.code code) w.coupons ≡ some c)
        × (c.active ≡ true)
        × ((at : ℕ) → c.expires_at ≡ some at → w.now ≤ at)
        × ((most : ℕ) → c.max_redemptions ≡ some most → (most ≡ 0) ⊎ (c.times_redeemed < most))
  unfolding validate_coupon
  validate_coupon-ok h = elim (Option-cases (find (λ d. same d.code code) w.coupons)) [
    | inl missing ↦ absurd (ground arith)
    | inr (d, e) ↦
        let its : d ≡ c = ground arith in
        (
          ground arith,
          ground arith,
          (λ at due. ground arith),
          λ most limited. elim (Bool-cases (most == 0)) [
            | inl zero ↦ inl (ground arith)
            | inr positive ↦ inr (ground arith)
          ],
        )
  ]
