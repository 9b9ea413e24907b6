-- ===== src/Gateway.antt =====
-- ConsoleGateway (backend/src/websocket/console.gateway.ts): the sockets, the map of streams that
-- each keeps (`cancelStreams`), and the streams that are open to the daemons. A subscription waits
-- for the database before it opens its stream, and other events may come in between.
pub mod Keys
pub mod Steps
pub mod Tidy
use elysia_panel.Prelude.{
  ℕ, ◌+◌, String, Bool, true, false, Option, none, some, List, [], ◌∷◌, ◌&&◌, ◌==◌, any, find,
  select, delete_rows, if◌then◌else◌,
}
use elysia_panel.World.Schema.{RowId}
use elysia_panel.World.Daemon.{Request, ReplyBody}
use elysia_panel.World.State.{World, Env}
use elysia_panel.World.Action.{Result, ok, err, Exception, unauthorized, ⊤}
use elysia_panel.Identity.{AuthenticatedUser}
use elysia_panel.NodeClient.{stream_call}
use elysia_panel.Auth.Accounts.{resolve_user_from_access_token}
use elysia_panel.Servers.Access.{ServerView, find_accessible_or_throw, endpoint_of}
use elysia_panel.Servers.Power.{send_command}

pub data StreamKind : Type 0 where
  console stats : StreamKind

abbrev pub kind_number : StreamKind → ℕ
kind_number console = 0
kind_number stats = 1

-- A key of a socket's map, `console:${id}` or `stats:${id}`, with the socket.
pub record StreamKey : Type 0 where
  pub socket : ℕ
  pub kind : StreamKind
  pub server_id : RowId

abbrev pub same_key : StreamKey → StreamKey → Bool
same_key a b =
    a.socket == b.socket && kind_number a.kind == kind_number b.kind && a.server_id == b.server_id

-- An open stream, and the subscription that opened it.
pub record Stream : Type 0 where
  pub id : ℕ
  pub key : StreamKey

-- A socket after the handshake: `socket.data.user`.
pub record Client : Type 0 where
  pub socket : ℕ
  pub user : AuthenticatedUser

-- A subscription that has the server, and is about to open its stream.
pub record Waiting : Type 0 where
  pub socket : ℕ
  pub kind : StreamKind
  pub server : ServerView

-- `registry` holds the entries of all the maps, `streams` what has been opened and not cancelled,
-- `next` numbers the streams.
pub record Gateway : Type 0 where
  pub world : World
  pub clients : List Client
  pub waiting : List Waiting
  pub registry : List (StreamKey × ℕ)
  pub streams : List Stream
  pub next : ℕ

-- `cancelStreams.get(key)`
abbrev pub registered : StreamKey → List (StreamKey × ℕ) → Option ℕ
registered key [] = none
registered key ((k, id) ∷ rest) = if same_key k key then some id else registered key rest

-- `cancel()`
abbrev pub cancel : ℕ → List Stream → List Stream
cancel id streams = delete_rows (λ s. s.id == id) streams

-- `cancelStreams.get(key)?.()`
abbrev pub cancel_key : StreamKey → List (StreamKey × ℕ) → List Stream → List Stream
cancel_key key registry streams = elim (registered key registry) [
  | none ↦ streams
  | some id ↦ cancel id streams
]

-- `cancelStreams.delete(key)`
abbrev pub forget : StreamKey → List (StreamKey × ℕ) → List (StreamKey × ℕ)
forget key registry = delete_rows (λ e. same_key e.0 key) registry

-- `cancelStreams.forEach((cancel) => cancel())` on the map of one socket.
abbrev pub is_of_socket : ℕ → List (StreamKey × ℕ) → Stream → Bool
is_of_socket socket registry s = any (λ e. e.0.socket == socket && e.1 == s.id) registry

-- `handleDisconnect`
unfoldable pub handle_disconnect : ℕ → Gateway → Gateway
handle_disconnect socket g = record g {
  clients = delete_rows (λ c. c.socket == socket) g.clients;
  registry = delete_rows (λ e. e.0.socket == socket) g.registry;
  streams = delete_rows (is_of_socket socket g.registry) g.streams;
}

-- `unsubscribeConsole` and `unsubscribeStats`
unfoldable pub unsubscribe : StreamKey → Gateway → Gateway
unsubscribe key g = record g {
  registry = forget key g.registry;
  streams = cancel_key key g.registry g.streams;
}

abbrev pub stream_request : StreamKind → String → Request
stream_request console uuid = Request.stream_console uuid
stream_request stats uuid = Request.stream_stats uuid

abbrev pub key_of : Waiting → StreamKey
key_of p = record { socket = p.socket; kind = p.kind; server_id = p.server.id }

-- `subscribeConsole` and `subscribeStats` from the answer of the database on.
unfoldable pub open_stream : Waiting → Gateway → Gateway
open_stream p g = record g {
  world =
      (stream_call p.server.node_id (endpoint_of p.server.node)
        (stream_request p.kind p.server.uuid) g.world).1;
  registry = (key_of p, g.next) ∷ forget (key_of p) g.registry;
  streams = record { id = g.next; key = key_of p } ∷ cancel_key (key_of p) g.registry g.streams;
  next = g.next + 1;
}

-- The first part of a subscription: whether the user may access the server.
unfoldable pub subscribe : Client → StreamKind → RowId → Gateway → Gateway
subscribe client kind server_id g =
    elim (find_accessible_or_throw server_id client.user g.world).0 [
      | ok server ↦ record g {
        waiting = record { socket = client.socket; kind = kind; server = server } ∷ g.waiting;
      }
      | err e ↦ g
    ]

module _ (env : Env) where
  -- The middleware of `afterInit`: a socket connects only with a token that resolves.
  unfoldable pub connect : ℕ → Option String → Gateway → Gateway
  connect socket none g = g
  connect socket (some token) g = elim (resolve_user_from_access_token env token g.world).0 [
    | ok user ↦ record g { clients = record { socket = socket; user = user } ∷ g.clients }
    | err e ↦ g
  ]

  -- `sendCommand` of the gateway.
  unfoldable pub send : Client → RowId → String → Gateway → Gateway
  send client server_id command g = record g {
    world = (send_command env server_id command client.user g.world).1;
  }
