-- ===== src/Tests/Platform.antt =====
-- The theorems on the seed, the configuration, logins by other providers, monitoring and the
-- audit trail, at a small instance.
use elysia_panel.Prelude.{
  Bool, ◌==◌, All, List, find, not, all, ◌&&◌, arith, ◌≡◌, refl, true, false, some, none, [], ◌∷◌,
  same, count_rows, if◌then◌else◌,
}
use elysia_panel.World.Schema.{Permission, User, UserStatus, Role, ServerStatus}
use elysia_panel.World.State.{World}
use elysia_panel.World.Action.{err, ok, forbidden, for_each}
use elysia_panel.Identity.{authenticated, permissions_of}
use elysia_panel.Guards.{
  HttpRequest, permissions_guard, authenticate, authenticate_with, passport, validate,
}
use elysia_panel.Config.{ProcessEnv, configuration, assert_production_secrets_are_set}
use elysia_panel.Config.Laws.{IsStrong, production_secrets}
use elysia_panel.Auth.TwoFactor.{logged_in}
use elysia_panel.Auth.OAuth.{
  Provider, OAuthProfile, linked, link_or_create, validate_oauth_login, oauth_callback,
}
use elysia_panel.Auth.OAuth.Laws.{IsTaken, validate_oauth_again, oauth_callback_takes_over}
use elysia_panel.Monitoring.{summary, refresh_gauges, has_status}
use elysia_panel.Monitoring.Laws.{counted, counted_all, summary_counts}
use elysia_panel.Seed.{
  SeedReport, seed, upsert_permission, upsert_role, upsert_template, upsert_system_user,
  grant_client,
}
use elysia_panel.Seed.Catalog.{permission_seeds, client_permissions, template_seeds}
use elysia_panel.Seed.Laws.{seed_twice}
use elysia_panel.Roles.Laws.{IsStored}
use elysia_panel.Seed.Client.{client_may}
use elysia_panel.Http.Admin
use elysia_panel.Http.Admin.Laws.{client_refused}
use elysia_panel.Tests.Demo.{env, world, alice}

abbrev production : ProcessEnv
production name =
    if same name "ELYSIA_ENV"
    then some "production"
    else if same name "JWT_ACCESS_SECRET"
    then some "a1"
    else if same name "JWT_REFRESH_SECRET"
    then some "r1"
    else none

production_secrets_example :
    (production "JWT_ACCESS_SECRET" ≡ some (configuration production).jwt_access_secret)
    × IsStrong (configuration production).jwt_access_secret
    × (production "JWT_REFRESH_SECRET" ≡ some (configuration production).jwt_refresh_secret)
    × IsStrong (configuration production).jwt_refresh_secret
unfolding assert_production_secrets_are_set
production_secrets_example = production_secrets production refl refl

abbrev by_discord : OAuthProfile
by_discord = record {
  provider = Provider.discord;
  provider_id = "d1";
  email = some "alice@example.org";
  username = "al";
}

abbrev linked_alice : User
linked_alice = linked Provider.discord "d1" alice

-- Banned, and without two-factor authentication.
abbrev open_alice : User
open_alice = record alice { two_factor_enabled = false; status = UserStatus.banned }

abbrev open_world : World
open_world = record world { users = open_alice ∷ [] }

oauth_callback_takes_over_example :
    let (result, w') = oauth_callback env by_discord none open_world in
    (result ≡ ok (logged_in (record { access_token = "jwt"; refresh_token = "f00d" })))
    × ((y : User) × (find (λ u. u.id == 1) w'.users ≡ some y)
        × IsTaken Provider.discord "d1" open_alice y)
oauth_callback_takes_over_example =
    oauth_callback_takes_over env by_discord none open_world "alice@example.org" open_alice refl
      refl refl refl refl refl

validate_oauth_again_example :
    validate_oauth_login env by_discord (validate_oauth_login env by_discord world).1
    ≡ (ok linked_alice, (validate_oauth_login env by_discord world).1)
unfolding validate_oauth_login link_or_create
validate_oauth_again_example = validate_oauth_again env by_discord world linked_alice refl

summary_counts_example :
    ((status : ServerStatus)
      → counted status (summary world).servers ≡ count_rows (has_status status) world.servers)
    × (counted_all (summary world).servers ≡ (refresh_gauges world).servers_total)
    × (counted ServerStatus.running (summary world).servers
        ≡ (refresh_gauges world).servers_running)
    × ((summary world).nodes.online ≡ (refresh_gauges world).nodes_online)
summary_counts_example = summary_counts world

abbrev report : SeedReport
report = record { admin_id = 144; client_id = 145 }

abbrev empty_world : World
empty_world = record world {
  users = [];
  roles = [];
  permissions = [];
  role_permissions = [];
  templates = [];
}

seed_twice_example : seed env (seed env empty_world).1 ≡ (ok report, (seed env empty_world).1)
unfolding seed upsert_permission upsert_role upsert_template upsert_system_user grant_client
    for_each permission_seeds client_permissions template_seeds
seed_twice_example = seed_twice env report empty_world refl

abbrev client_role : Role
client_role = record {
  id = 145;
  name = "client";
  description = some "Utilisateur self-service";
  is_system = true;
}

abbrev client : User
client = record alice { role_id = some 145 }

-- No two permissions share an identifier.
abbrev is_distinct : List Permission → Bool
is_distinct [] = true
is_distinct (p ∷ ps) = all (λ q. not (q.id == p.id)) ps && is_distinct ps

IsStored-after :
    (p : Permission) (qs ps : List Permission)
    → all (λ q. not (q.id == p.id)) ps ≡ true
    → All (IsStored qs) ps
    → All (IsStored (p ∷ qs)) ps
IsStored-after p qs [] apart stored = tt
IsStored-after p qs (q ∷ ps) apart stored =
    (grind arith, IsStored-after p qs ps (ground arith) stored.1)

distinct-IsStored : (ps : List Permission) → is_distinct ps ≡ true → All (IsStored ps) ps
distinct-IsStored [] h = tt
distinct-IsStored (p ∷ ps) h =
    (ground arith, IsStored-after p ps ps (ground arith) (distinct-IsStored ps (ground arith)))

client_may_example :
    let w = (seed env empty_world).1 in
    permissions_guard
      ("nodes.create" ∷ [])
      (some (authenticated client (permissions_of client w) none))
      w
    ≡ (err (forbidden "Permissions manquantes"), w)
unfolding seed upsert_permission upsert_role upsert_template upsert_system_user grant_client
    for_each permission_seeds client_permissions template_seeds
client_may_example =
    client_may env report empty_world client none client_role "nodes.create" refl refl refl
      (distinct-IsStored (seed env empty_world).1.permissions refl)

abbrev staffed_world : World
staffed_world = record empty_world { users = client ∷ [] }

abbrev by_client : HttpRequest
by_client = record { url = "/api/roles"; authorization = some "Bearer jwt"; x_node_secret = none }

-- The token of the request names the user 1.
authenticate_client :
    (w : World)
    → find (λ u. u.id == 1) w.users ≡ some client
    → authenticate env by_client w ≡ (ok (authenticated client (permissions_of client w) none), w)
unfolding authenticate authenticate_with passport validate
authenticate_client w found = ground (arith, found)

client_refused_example :
    let w = (seed env staffed_world).1 in
    Admin.serve env (λ a b. true) (λ logs. logs) (Admin.delete_role 144) by_client w
    ≡ (err (forbidden "Permissions manquantes"), w)
unfolding seed upsert_permission upsert_role upsert_template upsert_system_user grant_client
    for_each permission_seeds client_permissions template_seeds
client_refused_example =
    client_refused env report staffed_world (λ a b. true) (λ logs. logs) client none client_role
      (Admin.delete_role 144) by_client refl refl refl
      (distinct-IsStored (seed env staffed_world).1.permissions refl) refl refl refl
      (authenticate_client (seed env staffed_world).1 refl)
