-- ===== src/Http/Admin.antt =====
-- The controllers of nodes, roles, templates, the audit trail and monitoring (nodes.controller.ts,
-- roles.controller.ts, templates.controller.ts, audit.controller.ts and monitoring.controller.ts in
-- backend/src) behind the guards. The page of the audit trail is asked for with numbers.
pub mod Laws
use elysia_panel.Prelude.{String, Bool, true, false, Option, some, List, [], ◌∷◌}
use elysia_panel.World.Schema.{RowId, AuditLog}
use elysia_panel.World.State.{Env}
use elysia_panel.World.Action.{Action, ◌>>=◌, gets}
use elysia_panel.Identity.{AuthenticatedUser}
use elysia_panel.Guards.{HttpRequest, guarded}
use elysia_panel.Nodes
use elysia_panel.Roles
use elysia_panel.Templates
use elysia_panel.Templates.{TemplateData}
use elysia_panel.Audit
use elysia_panel.Audit.{AuditQuery}
use elysia_panel.Monitoring
use elysia_panel.Http.Answer.{Answer, answer, with_user}
use elysia_panel.Http.Body.{Fields, create_node_dto}

-- A handler with the parameters of its path and its query, and its body.
pub data AdminCall : Type 0 where
  list_nodes : AdminCall
  get_node : RowId → AdminCall
  health : RowId → AdminCall
  create_node : Fields → AdminCall
  enable_maintenance disable_maintenance : RowId → AdminCall
  delete_node : RowId → AdminCall
  list_roles list_permissions : AdminCall
  create_role : String → Option String → AdminCall
  set_permissions : RowId → List String → AdminCall
  delete_role : RowId → AdminCall
  list_templates : AdminCall
  create_template : TemplateData → AdminCall
  list_audit : AuditQuery → AdminCall
  summary : AdminCall

-- `@RequirePermissions`
unfoldable pub required : AdminCall → List String
required list_nodes = "nodes.read" ∷ []
required (get_node id) = "nodes.read" ∷ []
required (health id) = "nodes.read" ∷ []
required (create_node body) = "nodes.create" ∷ []
required (enable_maintenance id) = "nodes.maintenance" ∷ []
required (disable_maintenance id) = "nodes.maintenance" ∷ []
required (delete_node id) = "nodes.delete" ∷ []
required list_roles = "roles.read" ∷ []
required list_permissions = "roles.read" ∷ []
required (create_role name description) = "roles.create" ∷ []
required (set_permissions id permissions) = "roles.update" ∷ []
required (delete_role id) = "roles.delete" ∷ []
required list_templates = "servers.create" ∷ []
required (create_template body) = "nodes.create" ∷ []
required (list_audit query) = "audit.read" ∷ []
required summary = "monitoring.read" ∷ []

-- `precedes` is the order of texts in the database, and `newest_first` that of audit entries.
module _ (env : Env) (precedes : String → String → Bool)
    (newest_first : List AuditLog → List AuditLog) where
  unfoldable pub handle : AdminCall → Option AuthenticatedUser → Action Answer
  handle list_nodes user = answer Answer.nodes (gets (Templates.list_nodes precedes))
  handle (get_node id) user = answer Answer.a_node (Nodes.find_by_id_or_throw id)
  handle (health id) user = answer Answer.health (Nodes.health_check env id)
  handle (create_node body) user = create_node_dto body >>= λ dto.
      with_user user λ actor. answer Answer.a_node (Nodes.create env dto actor.id)
  handle (enable_maintenance id) user =
      with_user user λ actor. answer Answer.a_node (Nodes.set_maintenance id true actor.id)
  handle (disable_maintenance id) user =
      with_user user λ actor. answer Answer.a_node (Nodes.set_maintenance id false actor.id)
  handle (delete_node id) user =
      with_user user λ actor. answer (λ _. Answer.done) (Nodes.delete id actor.id)
  handle list_roles user = answer Answer.roles (gets Templates.list_roles)
  handle list_permissions user =
      answer Answer.permissions (gets (Templates.list_permissions precedes))
  handle (create_role name description) user =
      with_user user
        λ actor. answer (λ r. Answer.a_role (some r)) (Roles.create env name description actor.id)
  handle (set_permissions id permissions) user =
      with_user user λ actor. answer Answer.a_role (Roles.set_permissions id permissions actor.id)
  handle (delete_role id) user =
      with_user user λ actor. answer (λ _. Answer.done) (Roles.delete id actor.id)
  handle list_templates user = answer Answer.templates (gets (Templates.list precedes))
  handle (create_template body) user =
      with_user user λ actor. answer Answer.a_template (Templates.create env body actor.id)
  handle (list_audit query) user = answer Answer.audit (gets (Audit.list newest_first query))
  handle summary user = answer Answer.summary (gets Monitoring.summary)

  -- A request to a handler of these controllers.
  unfoldable pub serve : AdminCall → HttpRequest → Action Answer
  serve call = guarded env false (required call) (handle call)
