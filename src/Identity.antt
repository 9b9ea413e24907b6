-- ===== src/Identity.antt =====
-- Who acts: `AuthenticatedUser` (backend/src/auth/types/authenticated-user.ts) and the permissions
-- of a role (`AuthService.permissionsForRole`, repeated in the JWT strategy and the API keys).
use elysia_panel.Prelude.{
  String, Bool, Option, none, some, List, [], ◌∷◌, ◌&&◌, ◌==◌, same, find, if◌then◌else◌,
}
use elysia_panel.World.Schema.{RowId, User, Role, Permission, RolePermission}
use elysia_panel.World.State.{World}

pub record AuthenticatedUser : Type 0 where
  pub id : RowId
  pub email : String
  pub username : String
  pub role_id : Option RowId
  pub permissions : List String
  pub two_factor_enabled : Bool
  pub impersonated_by : Option RowId

-- `role.permissions.map((rp) => rp.permission.key)`, with the join that the `include` makes.
abbrev pub permission_keys : RowId → List Permission → List RolePermission → List String
permission_keys role_id permissions [] = []
permission_keys role_id permissions (rp ∷ rps) =
    let rest = permission_keys role_id permissions rps in
    if rp.role_id == role_id
    then elim (find (λ p. p.id == rp.permission_id) permissions) [
      | some p ↦ p.key ∷ rest
      | none ↦ rest
    ]
    else rest

-- `permissionsForRole`
unfoldable pub permissions_for_role : Option Role → World → List String
permissions_for_role none w = []
permissions_for_role (some role) w =
    if role.is_system && same role.name "admin"
    then "*" ∷ []
    else permission_keys role.id w.permissions w.role_permissions

-- The role that the `include` of a user brings.
abbrev pub role_of : User → World → Option Role
role_of user w = elim user.role_id [ none ↦ none | some r ↦ find (λ role. role.id == r) w.roles ]

-- The permissions that a user has now.
unfoldable pub permissions_of : User → World → List String
unfolding permissions_for_role
permissions_of user w = permissions_for_role (role_of user w) w

abbrev pub authenticated : User → List String → Option RowId → AuthenticatedUser
authenticated user permissions by = record {
  id = user.id;
  email = user.email;
  username = user.username;
  role_id = user.role_id;
  permissions = permissions;
  two_factor_enabled = user.two_factor_enabled;
  impersonated_by = by;
}
