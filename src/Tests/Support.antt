-- ===== src/Tests/Support.antt =====
-- The theorem on tickets, at a small instance.
use elysia_panel.Prelude.{◌≡◌, refl, [], ◌∷◌, ◌++◌, ◌==◌, update_rows}
use elysia_panel.World.Schema.{User}
use elysia_panel.World.Records.{SupportTicket, TicketStatus}
use elysia_panel.World.State.{World}
use elysia_panel.World.Action.{ok, err, forbidden}
use elysia_panel.Identity.{AuthenticatedUser}
use elysia_panel.Support.{find_accessible_or_throw, handle_reply}
use elysia_panel.Support.Laws.{reopened, posted, reply_unchecked}
use elysia_panel.Tests.Demo.{env, world, alice, alice_auth}

abbrev carol : User
carol = record alice { id = 4; email = "carol@example.org"; username = "carol" }

abbrev carol_auth : AuthenticatedUser
carol_auth = record alice_auth { id = 4; username = "carol"; permissions = "support.create" ∷ [] }

abbrev ticket : SupportTicket
ticket = record {
  id = 200;
  user_id = 1;
  subject = "lag";
  status = TicketStatus.closed;
  updated_at = 500;
}

abbrev support_world : World
support_world = record world { users = alice ∷ carol ∷ []; tickets = ticket ∷ [] }

reply_unchecked_example :
    (find_accessible_or_throw 200 carol_auth support_world
      ≡ (err (forbidden "Vous n'avez pas accès à ce ticket"), support_world))
    × ((handle_reply env 200 "hi" carol_auth support_world).0
        ≡ ok (posted env 200 "hi" carol_auth support_world))
    × ((handle_reply env 200 "hi" carol_auth support_world).1.messages
        ≡ [] ++ posted env 200 "hi" carol_auth support_world ∷ [])
    × ((handle_reply env 200 "hi" carol_auth support_world).1.tickets
        ≡ update_rows
            (λ t. t.id == 200)
            (reopened env 200 "hi" carol_auth support_world)
            support_world.tickets)
reply_unchecked_example =
    reply_unchecked env 200 "hi" carol_auth support_world ticket carol refl refl refl refl refl refl
      refl refl
