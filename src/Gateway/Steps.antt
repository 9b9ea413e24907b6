-- ===== src/Gateway/Steps.antt =====
-- The events of the gateway in any order, and the shape that they keep.
use elysia_panel.Prelude.{ℕ, ◌<◌, ◌≤◌, String, ◌≡◌, Option, some, [], count_rows, All}
use elysia_panel.World.Schema.{RowId}
use elysia_panel.World.State.{World, Env}
use elysia_panel.Gateway.{
  StreamKind, StreamKey, same_key, Client, Waiting, Gateway, registered, cancel, handle_disconnect,
  unsubscribe, open_stream, subscribe, connect, send,
}

-- One event: a client connects, asks for a stream, gets it, leaves one, sends a command or
-- disconnects, a stream ends at the daemon, or the state changes elsewhere.
pub data Step (env : Env) (g g' : Gateway) : Type 0 where
  connects : (socket : ℕ) (token : Option String) → g' ≡ connect env socket token g → Step env g g'
  asks : (c : Client) (kind : StreamKind) (id : RowId) → g' ≡ subscribe c kind id g → Step env g g'
  gets_stream : (p : Waiting) → g' ≡ open_stream p g → Step env g g'
  leaves : (key : StreamKey) → g' ≡ unsubscribe key g → Step env g g'
  sends :
      (c : Client) (id : RowId) (command : String) → g' ≡ send env c id command g → Step env g g'
  disconnects : (socket : ℕ) → g' ≡ handle_disconnect socket g → Step env g g'
  ends : (id : ℕ) → g' ≡ record g { streams = cancel id g.streams } → Step env g g'
  elsewhere : (w : World) → g' ≡ record g { world = w } → Step env g g'

pub data Reach (env : Env) (start : Gateway) : Gateway → Type 0 where
  here : Reach env start start
  next : {g g' : Gateway} → Reach env start g → Step env g g' → Reach env start g'

-- Every open stream stands in the map of its socket under its key, below the next number, and no
-- key has two of them.
pub record IsTidy (g : Gateway) : Type 0 where
  pub held : All (λ s. registered s.key g.registry ≡ some s.id) g.streams
  pub numbered : All (λ s. s.id < g.next) g.streams
  pub single : (k : StreamKey) → count_rows (λ s. same_key s.key k) g.streams ≤ 1

-- The gateway before any event.
abbrev pub fresh : World → Gateway
fresh w = record { world = w; clients = []; waiting = []; registry = []; streams = []; next = 0 }
