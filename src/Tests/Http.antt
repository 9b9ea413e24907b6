-- ===== src/Tests/Http.antt =====
-- The theorems on requests from end to end, at a small instance.
use elysia_panel.Prelude.{
  arith, if◌then◌else◌, false, ◌≡◌, refl, ◌↔◌, String, true, some, none, [], ◌∷◌, same, find, ◌==◌,
}
use elysia_panel.World.Schema.{User}
use elysia_panel.World.State.{World}
use elysia_panel.World.Action.{Exception, err, ok}
use elysia_panel.Identity.{authenticated, permissions_of}
use elysia_panel.Guards.{authenticate, authenticate_with, passport, HttpRequest, permissions_guard}
use elysia_panel.Servers.Access.{find_accessible_or_throw}
use elysia_panel.Servers.Limits.{MeetsMinimum}
use elysia_panel.Http.Answer.{Answer}
use elysia_panel.Http.Body.{Fields, text, integer}
use elysia_panel.Http.Servers
use elysia_panel.Http.Servers.{get, create}
use elysia_panel.Http.Servers.Laws.{serve_denied}
use elysia_panel.Http.Servers.Limits.{serve-MeetsMinimum}
use elysia_panel.Http.Users
use elysia_panel.Http.Users.Laws.{update_escalates, lookup_unguarded}
use elysia_panel.Dashboard.{Platform, Page, Init, has_permission, request}
use elysia_panel.Dashboard.Laws.{has_permission_guard, IsRetried, request_calls}
use elysia_panel.Tests.Demo.{env, world, alice, alice_auth, server}
use elysia_panel.Tests.Servers.{whole}

abbrev by_alice : HttpRequest
by_alice = record { url = "/api/x"; authorization = some "Bearer jwt"; x_node_secret = none }

-- The world in which Alice holds one permission.
abbrev holding : String → World
holding key = record world {
  permissions = record { id = 70; key = key; group = "g" } ∷ [];
  roles =
      record { id = 7; name = "client"; description = none; is_system = true }
      ∷ record { id = 8; name = "admin"; description = none; is_system = true }
      ∷ [];
}

abbrev foreign_world : World
foreign_world = record world { servers = record server { owner_id = 9 } ∷ []; sub_users = [] }

serve_denied_example :
    (e : Exception) × (Servers.serve env whole (λ s. 5) (get 20) by_alice foreign_world
      ≡ (err e, foreign_world))
unfolding authenticate authenticate_with passport permissions_of find_accessible_or_throw
serve_denied_example =
    serve_denied env whole (λ s. 5) (get 20) by_alice foreign_world 20
      (authenticated alice ("servers.read" ∷ []) none) foreign_world
      (Exception.forbidden "Vous n'avez pas accès à ce serveur") refl refl refl refl refl

abbrev wanted_server : Fields
wanted_server =
    ("name", text "lobby")
    ∷ ("templateId", text "5")
    ∷ ("cpuLimitPct", integer 50)
    ∷ ("memoryLimitMb", integer 512)
    ∷ ("diskLimitMb", integer 1024)
    ∷ []

serve-MeetsMinimum_example :
    MeetsMinimum
      (Servers.serve env whole
        (λ s. 5)
        (create wanted_server)
        by_alice
        (holding "servers.create")).1
serve-MeetsMinimum_example =
    serve-MeetsMinimum env whole (λ s. 5) (create wanted_server) by_alice (holding "servers.create")
      ((omega arith, omega arith, omega arith), tt)

abbrev promoted : User
promoted = record alice { role_id = some 8 }

update_escalates_example :
    let (result, w') =
      Users.serve env
        (λ s. 8)
        (λ s. true)
        (Users.update 1 (("roleId", text "8") ∷ []))
        by_alice
        (holding "users.update") in
    (result ≡ ok (Answer.a_user promoted))
    × (find (λ v. v.id == 1) w'.users ≡ some promoted)
    × (permissions_of promoted w' ≡ "*" ∷ [])
unfolding authenticate authenticate_with passport permissions_of
update_escalates_example =
    update_escalates env (λ s. 8) (λ s. true) by_alice (holding "users.update")
      (holding "users.update") (authenticated alice ("users.update" ∷ []) none) alice
      (record { id = 8; name = "admin"; description = none; is_system = true }) "8" refl refl refl
      refl refl refl refl refl

has_permission_guard_example :
    (has_permission (some alice_auth) "servers.power" ≡ true)
    ↔ (permissions_guard ("servers.power" ∷ []) (some alice_auth) world ≡ (ok tt, world))
has_permission_guard_example = has_permission_guard alice_auth "servers.power" world

-- A backend that refuses the first call and gives new tokens.
abbrev platform : Platform String
platform = record {
  fetch = λ calls call.
      if same call.path "/auth/refresh"
      then some (record { status = 200; text = "t" })
      else some (record { status = 401; text = "t" });
  parse = λ s. some s;
  text_of = λ field j. some j;
  is_set = λ field j. true;
  as_user = λ j. some alice_auth;
  stringify = λ fields. "{}";
}

abbrev page : Page
page = record {
  access_token = some "old";
  refresh_token = some "r";
  user = none;
  loading = false;
  address = "/";
  calls = [];
}

abbrev get_init : Init
get_init = record { method = "GET"; body = none; is_form = false }

request_calls_example :
    IsRetried platform "/servers" get_init page (request platform "/servers" get_init page).1.calls
request_calls_example = request_calls platform "/servers" get_init page

abbrev anonymous : HttpRequest
anonymous = record {
  url = "/api/users/lookup?email=alice@example.org&x=/metrics";
  authorization = none;
  x_node_secret = none;
}

lookup_unguarded_example :
    Users.serve env (λ s. 5) (λ s. true) (Users.lookup_by_email "alice@example.org") anonymous world
    ≡ (ok (Answer.user_card (1, "alice", "alice@example.org")), world)
lookup_unguarded_example =
    lookup_unguarded env (λ s. 5) (λ s. true) anonymous world
      "/api/users/lookup?email=alice@example.org&x=" "alice@example.org" alice refl refl
