-- ===== src/Templates.antt =====
-- TemplatesService (backend/src/templates/templates.service.ts), and the lists of nodes, roles and
-- permissions that the database orders by a text.
use elysia_panel.Prelude.{ℕ, String, Bool, Option, List, map, ◌==◌, same, select, count_rows}
use elysia_panel.Prelude.Sorting.{sort_by}
use elysia_panel.World.Schema.{RowId, Node, Role, Permission, ServerTemplate, Environment}
use elysia_panel.World.State.{World, Env, templates_t}
use elysia_panel.World.Action.{Action, ◌>>=◌, ◌>>◌, pure, create_row, draw, log, entry}
use elysia_panel.Identity.{permission_keys}

-- The fields of a template that a request may give.
pub record TemplateData : Type 0 where
  pub name : String
  pub game_type : String
  pub description : Option String
  pub docker_image : String
  pub startup_command : String
  pub install_script : Option String
  pub default_variables : Environment
  pub min_memory_mb : ℕ
  pub is_public : Bool

module _ (env : Env) where
  -- `create`, with the audit entry that it does not await.
  unfoldable pub create : TemplateData → RowId → Action ServerTemplate
  create data_of actor_id = do
    id ← draw env.uuid
    t ←
        create_row templates_t (λ t. same t.name data_of.name)
          (record {
            id = id;
            name = data_of.name;
            game_type = data_of.game_type;
            description = data_of.description;
            docker_image = data_of.docker_image;
            startup_command = data_of.startup_command;
            install_script = data_of.install_script;
            default_variables = data_of.default_variables;
            min_memory_mb = data_of.min_memory_mb;
            is_public = data_of.is_public;
          })
    log (entry actor_id "template.create" "ServerTemplate" id)
    pure t

-- A node with the number of its servers.
pub record NodeView : Type 0 where
  pub node : Node
  pub servers : ℕ

-- A role with the keys of its permissions.
pub record RoleView : Type 0 where
  pub role : Role
  pub permissions : List String

-- `RolesService.list`
unfoldable pub list_roles : World → List RoleView
list_roles w =
    map
      (λ r. record {
        role = r;
        permissions = permission_keys r.id w.permissions w.role_permissions;
      })
      w.roles

-- `precedes s t`: the database's collation does not put the text `t` in front of `s`.
module _ (precedes : String → String → Bool) where
  -- `list`
  unfoldable pub list : World → List ServerTemplate
  list w = sort_by (λ s t. precedes s.name t.name) (select (λ t. t.is_public) w.templates)

  -- `NodesService.list`
  unfoldable pub list_nodes : World → List NodeView
  list_nodes w =
      map (λ n. record { node = n; servers = count_rows (λ s. s.node_id == n.id) w.servers })
        (sort_by (λ m n. precedes m.name n.name) w.nodes)

  -- `RolesService.listPermissions`
  unfoldable pub list_permissions : World → List Permission
  list_permissions w = sort_by (λ p q. precedes p.group q.group) w.permissions
