-- ===== src/Tests/Access.antt =====
-- The theorems on the ports of deleted servers and on roles, at a small instance.
use elysia_panel.Prelude.{true, false, ◌≡◌, refl, none, some, [], ◌∷◌}
use elysia_panel.World.Schema.{Role}
use elysia_panel.World.State.{World}
use elysia_panel.World.Action.{ok}
use elysia_panel.Identity.{permissions_for_role}
use elysia_panel.Servers.Manage.{delete}
use elysia_panel.Servers.Ports.Laws.{holds_port}
use elysia_panel.Servers.Held.{delete-holds_port}
use elysia_panel.Roles.{set_permissions}
use elysia_panel.Roles.Laws.{set_permissions-exact}
use elysia_panel.Tests.Demo.{env, world, alice_auth}

delete-holds_port_example : holds_port 3 25565 (delete env 20 alice_auth world).1.allocations ≡ true
delete-holds_port_example = delete-holds_port env 20 alice_auth world 3 25565

abbrev support_role : Role
support_role = record { id = 8; name = "support"; description = none; is_system = false }

abbrev role_world : World
role_world = record world {
  roles = support_role ∷ [];
  permissions =
      record { id = 70; key = "servers.read"; group = "servers" }
      ∷ record { id = 71; key = "users.read"; group = "users" }
      ∷ [];
}

set_permissions-exact_example :
    ((set_permissions 8 ("users.read" ∷ []) 1 role_world).0 ≡ ok (some support_role))
    × (permissions_for_role
          (some support_role)
          (set_permissions 8 ("users.read" ∷ []) 1 role_world).1
        ≡ "users.read" ∷ [])
set_permissions-exact_example =
    set_permissions-exact 8 1 ("users.read" ∷ []) role_world support_role refl refl
      (refl, (refl, tt))
