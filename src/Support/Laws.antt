-- ===== src/Support/Laws.antt =====
-- Who may read a ticket, and who may reply to it.
use elysia_panel.Prelude.{
  String, true, false, ◌≡◌, some, ◌∷◌, [], ◌++◌, ◌==◌, includes, find, any, update_rows, arith,
  find-none_of_any,
}
use elysia_panel.World.Schema.{RowId, User}
use elysia_panel.World.Records.{SupportTicket, TicketMessage, TicketStatus}
use elysia_panel.World.State.{World, Env}
use elysia_panel.World.Action.{ok, err, forbidden}
use elysia_panel.Identity.{AuthenticatedUser}
use elysia_panel.Guards.{permissions_guard}
use elysia_panel.Support.{find_accessible_or_throw, reply, handle_reply}

module _ (env : Env) (id : RowId) (body : String) (user : AuthenticatedUser) (w : World) where
  abbrev pub reopened : SupportTicket → SupportTicket
  reopened t = record t { status = TicketStatus.opened; updated_at = w.now }

  abbrev pub posted : TicketMessage
  posted = record {
    id = env.uuid w.drawn;
    ticket_id = id;
    author_id = user.id;
    body = body;
    is_staff = false;
  }

  -- A stored user who may create tickets, but neither read those of others nor reply as staff, is
  -- refused another user's ticket when reading it, and may still reply to it: the guard in front of
  -- the reply passes, the ticket is open again and has the message. The identifier of the message
  -- must be new.
  pub reply_unchecked :
      (t : SupportTicket) (u : User)
      → find (λ t. t.id == id) w.tickets ≡ some t
      → find (λ u. u.id == user.id) w.users ≡ some u
      → (t.user_id == user.id) ≡ false
      → includes user.permissions "support.create" ≡ true
      → includes user.permissions "*" ≡ false
      → includes user.permissions "support.read.any" ≡ false
      → includes user.permissions "support.reply" ≡ false
      → any (λ m. m.id == env.uuid w.drawn) w.messages ≡ false
      → let (result, w') = handle_reply env id body user w in
        (find_accessible_or_throw id user w
          ≡ (err (forbidden "Vous n'avez pas accès à ce ticket"), w))
        × (result ≡ ok posted)
        × (w'.messages ≡ w.messages ++ posted ∷ [])
        × (w'.tickets ≡ update_rows (λ t. t.id == id) reopened w.tickets)
  unfolding find_accessible_or_throw handle_reply reply permissions_guard
  reply_unchecked t u found author other creates star any_ticket staff fresh =
      let known : any (λ u. u.id == user.id) w.users ≡ true =
        ground (arith, find-none_of_any (λ u. u.id == user.id) w.users) in
      (ground arith, ground arith, ground arith, ground arith)
