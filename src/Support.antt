-- ===== src/Support.antt =====
-- SupportService and the handler of replies (backend/src/support/support.service.ts and
-- backend/src/support/support.controller.ts).
pub mod Laws
use elysia_panel.Prelude.{
  ℕ, String, Bool, true, false, some, List, [], ◌∷◌, ◌&&◌, ◌||◌, not, ◌==◌, ltb, includes, any,
  select, if◌then◌else◌,
}
use elysia_panel.World.Schema.{RowId}
use elysia_panel.World.Records.{SupportTicket, TicketMessage, TicketStatus}
use elysia_panel.World.State.{World, Env, tickets_t, messages_t}
use elysia_panel.World.Action.{
  Action, forbidden, foreign_key_violation, ◌>>=◌, ◌>>◌, pure, gets, throw_if, find_or_throw,
  find_many, create_row, update_row, transaction, draw,
}
use elysia_panel.Identity.{AuthenticatedUser}
use elysia_panel.Guards.{permissions_guard}

-- `isStaff` of the service.
abbrev pub reads_any_ticket : AuthenticatedUser → Bool
reads_any_ticket user =
    includes user.permissions "*" || includes user.permissions "support.read.any"

abbrev pub insert_ticket : SupportTicket → List SupportTicket → List SupportTicket
insert_ticket t [] = t ∷ []
insert_ticket t (u ∷ us) =
    let rest = insert_ticket t us in if ltb t.updated_at u.updated_at then u ∷ rest else t ∷ u ∷ us

-- `orderBy: { updatedAt: 'desc' }`
abbrev pub latest_first : List SupportTicket → List SupportTicket
latest_first [] = []
latest_first (t ∷ ts) = insert_ticket t (latest_first ts)

unfoldable pub list_for_user : AuthenticatedUser → World → List SupportTicket
list_for_user user w =
    latest_first
      (if reads_any_ticket user then w.tickets else select (λ t. t.user_id == user.id) w.tickets)

pub record TicketView : Type 0 where
  pub ticket : SupportTicket
  pub messages : List TicketMessage

unfoldable pub find_accessible_or_throw : RowId → AuthenticatedUser → Action TicketView
find_accessible_or_throw id user = do
  ticket ← find_or_throw tickets_t (λ t. t.id == id)
  messages ← find_many messages_t (λ m. m.ticket_id == id)
  throw_if (not (reads_any_ticket user) && not (ticket.user_id == user.id))
      (forbidden "Vous n'avez pas accès à ce ticket")
  pure (record { ticket = ticket; messages = messages })

unfoldable pub set_status : RowId → TicketStatus → Action SupportTicket
set_status ticket_id status = do
  now ← gets (λ w. w.now)
  update_row tickets_t (λ t. t.id == ticket_id)
      (λ t. record t { status = status; updated_at = now })

module _ (env : Env) where
  create_message : RowId → RowId → String → Bool → Action TicketMessage
  create_message ticket_id author_id body is_staff = do
    known ← gets (λ w. any (λ u. u.id == author_id) w.users)
    throw_if (not known) foreign_key_violation
    id ← draw env.uuid
    create_row messages_t (λ m. m.id == id)
        (record {
          id = id;
          ticket_id = ticket_id;
          author_id = author_id;
          body = body;
          is_staff = is_staff;
        })

  create_ticket : String → String → RowId → Action SupportTicket
  unfolding create_message
  create_ticket subject message user_id = do
    id ← draw env.uuid
    now ← gets (λ w. w.now)
    ticket ←
        create_row tickets_t (λ t. t.id == id)
          (record {
            id = id;
            user_id = user_id;
            subject = subject;
            status = TicketStatus.opened;
            updated_at = now;
          })
    create_message id user_id message false
    pure ticket

  -- `create`: the ticket and its first message, or neither.
  unfoldable pub create : String → String → RowId → Action SupportTicket
  unfolding create_ticket
  create subject message user_id = transaction (create_ticket subject message user_id)

  -- `reply` of the service.
  unfoldable pub reply : RowId → String → RowId → Bool → Action TicketMessage
  unfolding create_message
  reply ticket_id body author_id is_staff = do
    now ← gets (λ w. w.now)
    update_row tickets_t (λ t. t.id == ticket_id)
        (λ t. record t {
          status = if is_staff then TicketStatus.pending else TicketStatus.opened;
          updated_at = now;
        })
    create_message ticket_id author_id body is_staff

  -- `reply` of the controller, with its `@RequirePermissions`.
  unfoldable pub handle_reply : RowId → String → AuthenticatedUser → Action TicketMessage
  handle_reply ticket_id body user = do
    permissions_guard ("support.create" ∷ []) (some user)
    reply ticket_id body user.id
        (includes user.permissions "*" || includes user.permissions "support.reply")
