-- ===== src/Seed/Grants.antt =====
-- The permissions of a client: replacing them by the same rows changes nothing.
use elysia_panel.Prelude.{
  ◌≡◌, refl, sym, ap, ◌∙◌, Bool, true, List, [], ◌∷◌, ◌++◌, ◌==◌, ◌&&◌, includes, any, select,
  delete_rows, arith, Bool-cases, inl, inr, if◌then◌else◌,
}
use elysia_panel.World.Schema.{RowId, Permission, RolePermission}
use elysia_panel.World.State.{World}
use elysia_panel.World.Action.{ok}
use elysia_panel.Roles.{rows_for}
use elysia_panel.Seed.{grant_client, insert_missing}
use elysia_panel.Seed.Catalog.{client_permissions}

abbrev its : RowId → RolePermission → Bool
its role_id rp = rp.role_id == role_id

abbrev pub chosen : List Permission → List Permission
chosen ps = select (λ p. includes client_permissions p.key) ps

-- The rows of the role are those that the seed writes.
abbrev pub IsGranted : RowId → List Permission → List RolePermission → Type 0
IsGranted role_id ps rows =
    rows ≡ insert_missing (delete_rows (its role_id) rows) (rows_for role_id (chosen ps))

delete_rows_twice :
    {A : Type 0} (p : A → Bool) (xs : List A) → delete_rows p (delete_rows p xs) ≡ delete_rows p xs
delete_rows_twice p [] = refl
delete_rows_twice p (x ∷ xs) = ground (arith, delete_rows_twice p xs)

delete_rows-append_one :
    {A : Type 0} (p : A → Bool) (xs : List A) (x : A)
    → p x ≡ true
    → delete_rows p (xs ++ x ∷ []) ≡ delete_rows p xs
delete_rows-append_one p [] x h = ground (arith, h)
delete_rows-append_one p (y ∷ xs) x h = ground (arith, delete_rows-append_one p xs x h)

delete_rows-insert_missing :
    (role_id : RowId) (ps : List Permission) (rows : List RolePermission)
    → delete_rows (its role_id) (insert_missing rows (rows_for role_id ps))
      ≡ delete_rows (its role_id) rows
delete_rows-insert_missing role_id [] rows = refl
delete_rows-insert_missing role_id (p ∷ ps) rows =
    let new : RolePermission = record { role_id = role_id; permission_id = p.id } in
    let there : Bool = any (λ rp. rp.role_id == role_id && rp.permission_id == p.id) rows in
    delete_rows-insert_missing role_id ps (if there then rows else rows ++ new ∷ [])
    ∙ (elim (Bool-cases there) [
      | inl e ↦ ground (arith, e)
      | inr e ↦ ground (arith, e, delete_rows-append_one (its role_id) rows new)
    ])

module _ (role_id : RowId) (w : World) where
  pub grant_client-settled :
      IsGranted role_id w.permissions w.role_permissions → grant_client role_id w ≡ (ok tt, w)
  unfolding grant_client
  grant_client-settled h i = (ok tt, record w { role_permissions = sym h i })

  pub grant_client-IsGranted :
      IsGranted role_id w.permissions (grant_client role_id w).1.role_permissions
  unfolding grant_client
  grant_client-IsGranted =
      ap (λ rows. insert_missing rows (rows_for role_id (chosen w.permissions)))
        (sym (
          delete_rows-insert_missing role_id (chosen w.permissions)
            (delete_rows (its role_id) w.role_permissions)
          ∙ delete_rows_twice (its role_id) w.role_permissions))
