-- ===== src/Roles/Laws.antt =====
-- The permissions of a role after they were set.
use elysia_panel.Prelude.{
  String, true, false, ◌≡◌, refl, sym, ap, ◌∙◌, some, List, [], ◌∷◌, ◌++◌, ◌&&◌, ◌==◌, same,
  includes, find, any, select, map, delete_rows, All, arith, Bool-cases, inl, inr, find-none_of_any,
  All-select, find_passes, Option-cases,
}
use elysia_panel.World.Schema.{RowId, Role, Permission, RolePermission}
use elysia_panel.World.State.{World}
use elysia_panel.World.Action.{ok}
use elysia_panel.Identity.{permission_keys, permissions_for_role}
use elysia_panel.Roles.{rows_for, set_permissions}

pub permission_keys-append :
    (id : RowId) (ps : List Permission) (xs ys : List RolePermission)
    → permission_keys id ps (xs ++ ys) ≡ permission_keys id ps xs ++ permission_keys id ps ys
permission_keys-append id ps [] ys = refl
permission_keys-append id ps (x ∷ xs) ys = elim (Bool-cases (x.role_id == id)) [
  | inl its ↦ elim (Option-cases (find (λ p. p.id == x.permission_id) ps)) [
    | inl missing ↦ rw (its, missing) (permission_keys-append id ps xs ys)
    | inr (p, e) ↦ rw (its, e) (ap (λ ks. p.key ∷ ks) (permission_keys-append id ps xs ys))
  ]
  | inr other ↦ rw other (permission_keys-append id ps xs ys)
]

pub permission_keys-deleted :
    (id : RowId) (ps : List Permission) (xs : List RolePermission)
    → permission_keys id ps (delete_rows (λ rp. rp.role_id == id) xs) ≡ []
permission_keys-deleted id ps [] = refl
permission_keys-deleted id ps (x ∷ xs) = elim (Bool-cases (x.role_id == id)) [
  | inl its ↦ rw its (permission_keys-deleted id ps xs)
  | inr other ↦ rw (other, other) (permission_keys-deleted id ps xs)
]

-- Whether the permission is the one stored under its identifier.
abbrev pub IsStored : List Permission → Permission → Type 0
IsStored ps p = find (λ q. q.id == p.id) ps ≡ some p

pub permission_keys-rows_for :
    (id : RowId) (ps : List Permission) (new : List Permission)
    → All (IsStored ps) new
    → permission_keys id ps (rows_for id new) ≡ map (λ p. p.key) new
permission_keys-rows_for id ps [] stored = refl
permission_keys-rows_for id ps (p ∷ new) (stored, rest) =
    ground (arith, permission_keys-rows_for id ps new rest)

-- A role whose rows were replaced has the keys of the new ones.
permissions_for_role-replaced :
    (role : Role) (chosen : List Permission) (rows : List RolePermission) (w w' : World)
    → (role.is_system && same role.name "admin") ≡ false
    → All (IsStored w.permissions) chosen
    → w'.role_permissions
      ≡ delete_rows (λ rp. rp.role_id == role.id) rows ++ rows_for role.id chosen
    → w'.permissions ≡ w.permissions
    → permissions_for_role (some role) w' ≡ map (λ p. p.key) chosen
unfolding permissions_for_role
permissions_for_role-replaced role chosen rows w w' plain stored replaced same_permissions =
    rw
      (
        plain,
        replaced,
        same_permissions,
        permission_keys-append role.id w.permissions
            (delete_rows (λ rp. rp.role_id == role.id) rows) (rows_for role.id chosen),
        permission_keys-deleted role.id w.permissions rows,
      )
      (permission_keys-rows_for role.id w.permissions chosen stored)

module _ (role_id actor_id : RowId) (keys : List String) (w : World) where
  -- Setting the permissions of a role gives it exactly the permissions of the given keys that
  -- exist, in the order in which they are stored, and none that it had before. The role exists and
  -- is not the administrator's, and identifiers of permissions are unique.
  pub set_permissions-exact :
      (role : Role)
      → find (λ r. r.id == role_id) w.roles ≡ some role
      → (role.is_system && same role.name "admin") ≡ false
      → All (IsStored w.permissions) w.permissions
      → let (result, w') = set_permissions role_id keys actor_id w in
        (result ≡ ok (some role))
        × (permissions_for_role (some role) w'
            ≡ map (λ p. p.key) (select (λ p. includes keys p.key) w.permissions))
  unfolding set_permissions
  set_permissions-exact role found plain stored =
      let exists : any (λ r. r.id == role_id) w.roles ≡ true =
        ground (arith, find-none_of_any (λ r. r.id == role_id) w.roles) in
      let named : role.id ≡ role_id =
        ground (arith, find_passes (λ r. r.id == role_id) w.roles role found) in
      let chosen : List Permission = select (λ p. includes keys p.key) w.permissions in
      let kept : List RolePermission =
        delete_rows (λ rp. rp.role_id == role_id) w.role_permissions in
      let (done, replaced, same_permissions) : ((set_permissions role_id keys actor_id w).0
            ≡ ok (some role))
          × ((set_permissions role_id keys actor_id w).1.role_permissions
              ≡ kept ++ rows_for role_id chosen)
          × ((set_permissions role_id keys actor_id w).1.permissions ≡ w.permissions) =
        (ground arith, ground arith, ground arith) in
      (
        done,
        permissions_for_role-replaced role chosen w.role_permissions w
            (set_permissions role_id keys actor_id w).1 plain
            (All-select (IsStored w.permissions) (λ p. includes keys p.key) w.permissions stored)
            (replaced
              ∙ ap
                  (λ k. delete_rows (λ rp. rp.role_id == k) w.role_permissions ++ rows_for k chosen)
                  (sym named))
            same_permissions,
      )
