-- ===== src/Seed.antt =====
-- The seed of the database, backend/prisma/seed.ts: permissions, the two system roles, what a client
-- may do, the system account and the templates, each put in place by an upsert.
pub mod Catalog
mod Put
mod Permissions
mod Rows
mod Grants
pub mod Repeat
pub mod Laws
pub mod Client
use elysia_panel.Prelude.{
  String, Bool, true, none, some, List, [], ◌∷◌, ◌++◌, ◌&&◌, ◌||◌, ◌==◌, same, includes, any,
  select, if◌then◌else◌,
}
use elysia_panel.World.Schema.{RowId, User, Role, Permission, RolePermission, ServerTemplate}
use elysia_panel.World.State.{Env, users_t, roles_t, permissions_t, role_permissions_t, templates_t}
use elysia_panel.World.Action.{
  Action, ⊤, ◌>>=◌, ◌>>◌, pure, gets, modify, create_row, upsert_row, delete_many, draw, for_each,
}
use elysia_panel.Users.{new_user}
use elysia_panel.Auth.Accounts.{system_user_id}
use elysia_panel.Roles.{rows_for}
use elysia_panel.Seed.Catalog.{
  PermissionSeed, permission_seeds, client_permissions, TemplateSeed, template_seeds,
}

-- `createMany` with `skipDuplicates`: a row that is there already is not written again.
abbrev pub insert_missing : List RolePermission → List RolePermission → List RolePermission
insert_missing rows [] = rows
insert_missing rows (new ∷ more) =
    insert_missing
      (if any (λ rp. rp.role_id == new.role_id && rp.permission_id == new.permission_id) rows
        then rows
        else rows ++ new ∷ [])
      more

-- The permissions of a client in place of those that the role had.
unfoldable pub grant_client : RowId → Action ⊤
grant_client role_id = do
  chosen ← gets (λ w. select (λ p. includes client_permissions p.key) w.permissions)
  delete_many role_permissions_t (λ rp. rp.role_id == role_id)
  modify (λ w. record w {
    role_permissions = insert_missing w.role_permissions (rows_for role_id chosen);
  })

-- The system account, which has no password.
unfoldable pub upsert_system_user : RowId → Action User
upsert_system_user admin_id =
    upsert_row users_t (λ u. u.id == system_user_id) (λ u. u)
      (create_row users_t
        (λ u.
          u.id == system_user_id || same u.email "system@elysia.local" || same u.username "system")
        (new_user system_user_id "system@elysia.local" "system" none (some admin_id)))

-- The roles that the last line of the seed names.
pub record SeedReport : Type 0 where
  pub admin_id : RowId
  pub client_id : RowId

module _ (env : Env) where
  unfoldable pub upsert_permission : PermissionSeed → Action ⊤
  upsert_permission perm = do
    upsert_row permissions_t (λ p. same p.key perm.key) (λ p. record p { group = perm.group })
        (do
          id ← draw env.uuid
          create_row permissions_t (λ p. same p.key perm.key)
              (record { id = id; key = perm.key; group = perm.group }))
    pure tt

  unfoldable pub upsert_role : String → String → Action Role
  upsert_role name description =
      upsert_row roles_t (λ r. same r.name name) (λ r. r)
        (do
          id ← draw env.uuid
          create_row roles_t (λ r. same r.name name)
              (record { id = id; name = name; description = some description; is_system = true }))

  unfoldable pub upsert_template : TemplateSeed → Action ⊤
  upsert_template t = do
    upsert_row templates_t (λ x. same x.name t.name) (λ x. x)
        (do
          id ← draw env.uuid
          create_row templates_t (λ x. same x.name t.name)
              (record {
                id = id;
                name = t.name;
                game_type = t.game_type;
                description = some t.description;
                docker_image = t.docker_image;
                startup_command = t.startup_command;
                install_script = none;
                default_variables = t.default_variables;
                min_memory_mb = t.min_memory_mb;
                is_public = true;
              }))
    pure tt

  -- `main`
  unfoldable pub seed : Action SeedReport
  seed = do
    for_each (upsert_permission) permission_seeds
    admin ← upsert_role "admin" "Accès total (bypass RBAC)"
    client ← upsert_role "client" "Utilisateur self-service"
    grant_client client.id
    upsert_system_user admin.id
    for_each (upsert_template) template_seeds
    pure (record { admin_id = admin.id; client_id = client.id })
