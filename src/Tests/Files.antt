-- ===== src/Tests/Files.antt =====
-- The theorems on the SFTP login, the guards and the streams, at small instances.
use elysia_panel.Prelude.{
  ◌≤◌, ◌≡◌, refl, String, false, Option, some, none, [], ◌∷◌, length, select, All, arith, ◌==◌,
}
use elysia_panel.World.Schema.{Server}
use elysia_panel.World.Action.{Action, pure}
use elysia_panel.Identity.{AuthenticatedUser, permissions_of}
use elysia_panel.Prelude.Decimal.{codes}
use elysia_panel.Prelude.Slices.{starts, split_last}
use elysia_panel.Auth.Accounts.{validate_local_user_by_username}
use elysia_panel.Files.Sftp.{authenticate, for_server}
use elysia_panel.Files.Sftp.Laws.{IsEntitled, IsSignedIn, authenticate-ok, authenticate_joined}
use elysia_panel.Guards.{HttpRequest, guarded}
use elysia_panel.Guards.Laws.{IsGuarded, guarded_outcome}
use elysia_panel.Gateway.{Gateway, Waiting, console, open_stream, handle_disconnect}
use elysia_panel.Gateway.Steps.{IsTidy, Reach, fresh, here, next, gets_stream}
use elysia_panel.Gateway.Tidy.{Reach-IsTidy, handle_disconnect_leaves_none}
use elysia_panel.Tests.Demo.{env, world, node, template, alice_auth, server}

abbrev reader : AuthenticatedUser
reader = record alice_auth { permissions = "servers.read" ∷ [] }

authenticate-ok_example :
    (account short : String) × (user : AuthenticatedUser) × (s : Server) × (split_last "."
        "alice.abcd"
      ≡ some (account, short))
    × (4 ≤ length (codes short))
    × IsSignedIn env account "pw" user world
    × (select (λ x. starts short x.uuid) world.servers ≡ s ∷ [])
    × ("abcd" ≡ s.uuid)
    × IsEntitled user s false world
unfolding authenticate validate_local_user_by_username permissions_of split_last
authenticate-ok_example = authenticate-ok env "alice.abcd" "pw" world "abcd" false refl

authenticate_joined_example :
    authenticate env "alice.abcd" "pw" world ≡ for_server reader world server
unfolding validate_local_user_by_username permissions_of
authenticate_joined_example =
    authenticate_joined env "alice.abcd" "pw" world "alice" "abcd" reader server refl refl refl
      (omega arith) refl refl

abbrev request : HttpRequest
request = record { url = "/api/servers"; authorization = some "Bearer jwt"; x_node_secret = none }

abbrev echo : Option AuthenticatedUser → Action (Option AuthenticatedUser)
echo user = pure user

guarded_outcome_example :
    IsGuarded
      ("servers.read" ∷ [])
      echo
      (guarded env false ("servers.read" ∷ []) echo request world)
      world
guarded_outcome_example = guarded_outcome env ("servers.read" ∷ []) echo request world refl refl

abbrev asked : Waiting
asked = record {
  socket = 8;
  kind = console;
  server = record {
    server = server;
    node = node;
    template = template;
    allocations = [];
    sub_users = [];
  };
}

abbrev streaming : Gateway
streaming = open_stream asked (fresh world)

abbrev one_step : Reach env (fresh world) streaming
one_step = next here (gets_stream asked refl)

Reach-IsTidy_example : IsTidy streaming
Reach-IsTidy_example = Reach-IsTidy env world streaming one_step

handle_disconnect_leaves_none_example :
    All (λ s. (s.key.socket == 8) ≡ false) (handle_disconnect 8 streaming).streams
handle_disconnect_leaves_none_example = handle_disconnect_leaves_none env world streaming 8 one_step
