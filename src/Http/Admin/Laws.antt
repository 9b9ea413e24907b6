-- ===== src/Http/Admin/Laws.antt =====
-- The administration is closed to clients.
use elysia_panel.Prelude.{
  String, Bool, true, false, ◌≡◌, refl, some, [], ◌∷◌, same, find, includes, All, arith, Option,
  List,
}
use elysia_panel.World.Schema.{RowId, User, Role, AuditLog}
use elysia_panel.World.State.{World, Env}
use elysia_panel.World.Action.{ok, err, forbidden}
use elysia_panel.Identity.{authenticated, permissions_of, role_of}
use elysia_panel.Roles.Laws.{IsStored}
use elysia_panel.Guards.{HttpRequest, is_metrics, is_docs, guarded, jwt_auth_guard, authenticate}
use elysia_panel.Seed.{SeedReport, seed}
use elysia_panel.Seed.Catalog.{client_permissions}
use elysia_panel.Seed.Client.{client_may}
use elysia_panel.Http.Admin.{
  AdminCall, list_nodes, get_node, health, create_node, enable_maintenance, disable_maintenance,
  delete_node, list_roles, list_permissions, create_role, set_permissions, delete_role,
  list_templates, create_template, list_audit, summary, required, serve,
}

-- The one call of these that a client may make.
abbrev pub is_for_clients : AdminCall → Bool
is_for_clients list_templates = true
is_for_clients _ = false

-- What another call requires is nothing that a client has.
required_other :
    (call : AdminCall)
    → is_for_clients call ≡ false
    → (k : String) × (required call ≡ k ∷ []) × (includes client_permissions k ≡ false)
unfolding required client_permissions
required_other list_nodes h = ("nodes.read", refl, refl)
required_other (get_node id) h = ("nodes.read", refl, refl)
required_other (health id) h = ("nodes.read", refl, refl)
required_other (create_node body) h = ("nodes.create", refl, refl)
required_other (enable_maintenance id) h = ("nodes.maintenance", refl, refl)
required_other (disable_maintenance id) h = ("nodes.maintenance", refl, refl)
required_other (delete_node id) h = ("nodes.delete", refl, refl)
required_other list_roles h = ("roles.read", refl, refl)
required_other list_permissions h = ("roles.read", refl, refl)
required_other (create_role name description) h = ("roles.create", refl, refl)
required_other (set_permissions id permissions) h = ("roles.update", refl, refl)
required_other (delete_role id) h = ("roles.delete", refl, refl)
required_other list_templates h = absurd (cc)
required_other (create_template body) h = ("nodes.create", refl, refl)
required_other (list_audit query) h = ("audit.read", refl, refl)
required_other summary h = ("monitoring.read", refl, refl)

module _ (env : Env) (r : SeedReport) (w : World) (precedes : String → String → Bool)
    (newest_first : List AuditLog → List AuditLog) (u : User) (by : Option RowId) (c : Role) where
  abbrev seeded : World
  seeded = (seed env w).1

  -- After a seed that succeeded, a request to the controllers of nodes, roles, templates, the audit
  -- trail or monitoring by a user with the client's role, other than for the list of templates, is
  -- forbidden and changes nothing. The token of the request names the user, its URL is neither that
  -- of the metrics nor of the documentation, identifiers of permissions are unique, and the user's
  -- role is the one of that name.
  pub client_refused :
      (call : AdminCall) (request : HttpRequest)
      → (seed env w).0 ≡ ok r
      → find (λ x. same x.name "client") seeded.roles ≡ some c
      → role_of u seeded ≡ some c
      → All (IsStored seeded.permissions) seeded.permissions
      → is_for_clients call ≡ false
      → is_metrics request.url ≡ false
      → is_docs request.url ≡ false
      → authenticate env request seeded
        ≡ (ok (authenticated u (permissions_of u seeded) by), seeded)
      → serve env precedes newest_first call request seeded
        ≡ (err (forbidden "Permissions manquantes"), seeded)
  unfolding serve guarded jwt_auth_guard
  client_refused call request h found role stored other other_url no_docs named =
      let (k, one, lacking) = required_other call other in
      let closed = client_may env r w u by c k h found role stored in
      ground (arith, one, lacking, named, closed)
