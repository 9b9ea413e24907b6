-- ===== src/Roles.antt =====
-- RolesService (backend/src/roles/roles.service.ts).
pub mod Laws
use elysia_panel.Prelude.{
  String, Bool, true, false, Option, List, [], ◌∷◌, ◌++◌, ◌&&◌, not, ◌==◌, same, includes, any,
  select,
}
use elysia_panel.World.Schema.{RowId, Role, Permission, RolePermission, MetaValue}
use elysia_panel.World.State.{Env, roles_t, role_permissions_t, users_t}
use elysia_panel.World.Action.{
  Action, ⊤, bad_request, foreign_key_violation, ◌>>=◌, ◌>>◌, pure, gets, modify, throw_if,
  find_unique, find_or_throw, create_row, delete_row, delete_many, update_many, transaction, draw,
  log, entry,
}

-- `permissions.map((p) => ({ roleId, permissionId: p.id }))`
abbrev pub rows_for : RowId → List Permission → List RolePermission
rows_for role_id [] = []
rows_for role_id (p ∷ ps) = record { role_id = role_id; permission_id = p.id } ∷ rows_for role_id ps

abbrev pub is_empty : List Permission → Bool
is_empty [] = true
is_empty (p ∷ ps) = false

-- The statements of the transaction: rows of a role that is missing are refused.
abbrev pub replace_permissions : RowId → List Permission → Action ⊤
replace_permissions role_id permissions = do
  delete_many role_permissions_t (λ rp. rp.role_id == role_id)
  exists ← gets (λ w. any (λ r. r.id == role_id) w.roles)
  throw_if (not (is_empty permissions) && not exists) foreign_key_violation
  modify λ w. record w { role_permissions = w.role_permissions ++ rows_for role_id permissions }

unfoldable pub set_permissions : RowId → List String → RowId → Action (Option Role)
set_permissions role_id permission_keys actor_id = do
  permissions ← gets (λ w. select (λ p. includes permission_keys p.key) w.permissions)
  transaction (replace_permissions role_id permissions)
  log (record (entry actor_id "role.set_permissions" "Role" role_id) {
    metadata = ("permissions", MetaValue.texts permission_keys) ∷ [];
  })
  find_unique roles_t (λ r. r.id == role_id)

abbrev pub holds_role : RowId → Option RowId → Bool
holds_role role_id Option.none = false
holds_role role_id (Option.some r) = r == role_id

-- `delete`: the permissions of the role go with it, and its users are left without a role.
unfoldable pub delete : RowId → RowId → Action ⊤
delete role_id actor_id = do
  role ← find_or_throw roles_t (λ r. r.id == role_id)
  throw_if role.is_system (bad_request "Impossible de supprimer un rôle système")
  delete_row roles_t (λ r. r.id == role_id)
  delete_many role_permissions_t (λ rp. rp.role_id == role_id)
  update_many users_t (λ u. holds_role role_id u.role_id) (λ u. record u { role_id = Option.none })
  log (entry actor_id "role.delete" "Role" role_id)

module _ (env : Env) where
  unfoldable pub create : String → Option String → RowId → Action Role
  create name description actor_id = do
    id ← draw env.uuid
    role ←
        create_row roles_t (λ r. same r.name name)
          (record { id = id; name = name; description = description; is_system = false })
    log (entry actor_id "role.create" "Role" id)
    pure role
