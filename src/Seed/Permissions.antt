-- ===== src/Seed/Permissions.antt =====
-- The first loop of the seed: what an upsert of a permission settles, and that it changes nothing once
-- that is settled.
use elysia_panel.Prelude.{
  String, Bool, true, false, ◌≡◌, refl, sym, subst, some, List, [], ◌∷◌, same, same_iff, same_refl,
  find, update_rows, All, arith, Option-cases, inl, inr, find-any,
}
use elysia_panel.World.Schema.{Permission}
use elysia_panel.World.State.{World, Env}
use elysia_panel.World.Action.{ok}
use elysia_panel.Seed.{upsert_permission}
use elysia_panel.Seed.Catalog.{PermissionSeed}
use elysia_panel.Seed.Put.{put, put-found, put-stays, put-All, put-All_kept, update_rows-same}

abbrev under : String → Permission → Bool
under key p = same p.key key

abbrev grouped : String → Permission → Permission
grouped group p = record p { group = group }

-- A row stands under the key, and every such row has the group.
abbrev pub IsSettled : PermissionSeed → List Permission → Type 0
IsSettled perm rows =
    ((p : Permission) × (find (under perm.key) rows ≡ some p))
    × All (λ p. under perm.key p ≡ true → p.group ≡ perm.group) rows

regrouped :
    (perm : PermissionSeed) (rows : List Permission)
    → All (λ p. under perm.key p ≡ true → p.group ≡ perm.group) rows
    → All (λ p. under perm.key p ≡ true → grouped perm.group p ≡ p) rows
regrouped perm [] h = tt
regrouped perm (p ∷ rows) h = (λ e i. record p { group = sym (h.0 e) i }, regrouped perm rows h.1)

module _ (env : Env) (perm : PermissionSeed) (w : World) where
  pub upsert_permission-settled :
      IsSettled perm w.permissions → upsert_permission env perm w ≡ (ok tt, w)
  unfolding upsert_permission
  upsert_permission-settled (there, its) =
      let rows : update_rows (under perm.key) (grouped perm.group) w.permissions ≡ w.permissions =
        update_rows-same (under perm.key) (grouped perm.group) w.permissions
          (regrouped perm w.permissions its) in
      let (p, e) = there in ground (arith, e, rows)

  pub upsert_permission-ok : (upsert_permission env perm w).0 ≡ ok tt
  unfolding upsert_permission
  upsert_permission-ok = elim (Option-cases (find (under perm.key) w.permissions)) [
    | inl e ↦ ground (arith, e, find-any (under perm.key) w.permissions e)
    | inr (p, e) ↦ ground (arith, e)
  ]

  abbrev new_permission : Permission
  new_permission = record { id = env.uuid w.drawn; key = perm.key; group = perm.group }

  upsert_permission_rows :
      (upsert_permission env perm w).1.permissions
      ≡ put (under perm.key) (grouped perm.group) new_permission w.permissions
  unfolding upsert_permission put
  upsert_permission_rows = elim (Option-cases (find (under perm.key) w.permissions)) [
    | inl e ↦ ground (arith, e, find-any (under perm.key) w.permissions e)
    | inr (p, e) ↦ ground (arith, e)
  ]

  pub upsert_permission-IsSettled : IsSettled perm (upsert_permission env perm w).1.permissions
  upsert_permission-IsSettled = subst (IsSettled perm) (sym upsert_permission_rows) (
    put-found (under perm.key) (grouped perm.group) new_permission w.permissions
        (same_refl perm.key) (λ y. refl),
    put-All (under perm.key) (grouped perm.group) new_permission w.permissions
        (λ p. under perm.key p ≡ true → p.group ≡ perm.group) (λ _. refl) (λ y e _. refl)
        (λ y e e'. absurd (ground (arith, e, e'))),
  )

  pub upsert_permission-stays :
      (other : PermissionSeed)
      → same perm.key other.key ≡ false
      → IsSettled other w.permissions
      → IsSettled other (upsert_permission env perm w).1.permissions
  upsert_permission-stays other apart ((p, e), its) =
      let differ : (y : Permission) → under perm.key y ≡ true → under other.key y ≡ true → ⊥ =
        λ y e' e''. ground (
          arith,
          apart,
          same_iff y.key perm.key,
          same_iff y.key other.key,
          same_iff perm.key other.key,
        ) in
      subst (IsSettled other) (sym upsert_permission_rows) (
        put-stays (under perm.key) (grouped perm.group) new_permission w.permissions
            (under other.key) p (λ y. refl) e,
        put-All_kept (under perm.key) (grouped perm.group) new_permission w.permissions
            (λ q. under other.key q ≡ true → q.group ≡ other.group)
            (λ e'. absurd (differ new_permission (same_refl perm.key) e'))
            (λ y e' _ e''. absurd (differ y e' e'')) its,
      )
