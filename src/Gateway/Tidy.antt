-- ===== src/Gateway/Tidy.antt =====
-- What holds of the streams after any events in any order.
use elysia_panel.Prelude.{
  ℕ, ◌+◌, ◌<◌, ◌≤◌, String, Bool, true, false, if◌then◌else◌, ◌≡◌, refl, sym, ◌∙◌, subst, Option,
  none, some, List, ◌∷◌, ◌==◌, any, find, delete_rows, count_rows, All, find-delete_rows, arith,
  Bool-cases, inl, inr,
}
use elysia_panel.Prelude.Each.{count-delete_rows, count_rows-none, All-delete_rows_to, All-weaken}
use elysia_panel.World.Schema.{RowId}
use elysia_panel.World.State.{World, Env}
use elysia_panel.World.Action.{Result-cases}
use elysia_panel.Auth.Accounts.{resolve_user_from_access_token}
use elysia_panel.Servers.Access.{find_accessible_or_throw}
use elysia_panel.Gateway.{
  StreamKind, StreamKey, same_key, Stream, Client, Waiting, Gateway, registered, cancel_key, forget,
  is_of_socket, handle_disconnect, unsubscribe, key_of, open_stream, subscribe, connect, send,
}
use elysia_panel.Gateway.Keys.{
  registered_elsewhere, registered-is_of_socket, IsKept, cancel_key-IsKept, same_key_refl,
  same_key_flip, All-cancel_key, count-cancel_key,
}
use elysia_panel.Gateway.Steps.{
  Step, Reach, IsTidy, fresh, connects, asks, gets_stream, leaves, sends, disconnects, ends,
  elsewhere, here, next,
}

-- Some streams fewer, and an entry as good for each that is left.
IsTidy-fewer :
    (g : Gateway) (w : World) (clients : List Client) (waiting : List Waiting) (p : Stream → Bool)
    (r : List (StreamKey × ℕ))
    → ((s : Stream)
        → p s ≡ false
        → registered s.key g.registry ≡ some s.id
        → registered s.key r ≡ some s.id)
    → IsTidy g
    → IsTidy (record {
      world = w;
      clients = clients;
      waiting = waiting;
      registry = r;
      streams = delete_rows p g.streams;
      next = g.next;
    })
IsTidy-fewer g w clients waiting p r h t = record {
  held = All-delete_rows_to (λ s. registered s.key g.registry ≡ some s.id) _ p g.streams h t.held;
  numbered = All-delete_rows_to (λ s. s.id < g.next) _ p g.streams (λ s e k. k) t.numbered;
  single = λ k. omega (arith, count-delete_rows (λ s. same_key s.key k) p g.streams, t.single k);
}

IsTidy-unsubscribe : (key : StreamKey) (g : Gateway) → IsTidy g → IsTidy (unsubscribe key g)
unfolding unsubscribe
IsTidy-unsubscribe key g t = record {
  held =
      All-weaken (IsKept key g.registry) _ _ (λ s k. k.1)
        (cancel_key-IsKept key g.registry g.streams t.held);
  numbered = All-cancel_key _ key g.registry g.streams t.numbered;
  single = λ k.
      omega (arith, count-cancel_key (λ s. same_key s.key k) key g.registry g.streams, t.single k);
}

module _ (key : StreamKey) (g : Gateway) (t : IsTidy g) where
  -- The streams that are left when one opens under the key.
  abbrev left : List Stream
  left = cancel_key key g.registry g.streams

  opened-held : All (λ s. registered s.key ((key, g.next) ∷ forget key g.registry) ≡ some s.id) left
  opened-held =
      All-weaken (IsKept key g.registry) _ left
        (λ s k. ground (arith, k.0, k.1, same_key_flip s.key key k.0))
        (cancel_key-IsKept key g.registry g.streams t.held)

  left-none_of_key :
      (k : StreamKey) → same_key key k ≡ true → count_rows (λ s. same_key s.key k) left ≡ 0
  left-none_of_key k e = count_rows-none _ left (
      All-weaken (IsKept key g.registry) _ left
        (λ s f. elim (Bool-cases (same_key s.key k)) [
          | inl both ↦ absurd (ground (arith, f.0, e))
          | inr apart ↦ apart
        ])
        (cancel_key-IsKept key g.registry g.streams t.held))

  opened-single :
      (k : StreamKey)
      → (if same_key key k then 1 else 0) + count_rows (λ s. same_key s.key k) left ≤ 1
  opened-single k = elim (Bool-cases (same_key key k)) [
    | inl e ↦ rw (e, left-none_of_key k e) (omega arith)
    | inr e ↦ rw e (
        omega
          (arith, count-cancel_key (λ s. same_key s.key k) key g.registry g.streams, t.single k))
  ]

IsTidy-open_stream : (p : Waiting) (g : Gateway) → IsTidy g → IsTidy (open_stream p g)
unfolding open_stream
IsTidy-open_stream p g t = record {
  held = (ground (arith, same_key_refl (key_of p)), opened-held (key_of p) g t);
  numbered = (
    omega arith,
    All-weaken _ _ _ (λ s k. omega (arith, k))
        (All-cancel_key _ (key_of p) g.registry g.streams t.numbered),
  );
  single = opened-single (key_of p) g t;
}

IsTidy-handle_disconnect :
    (socket : ℕ) (g : Gateway) → IsTidy g → IsTidy (handle_disconnect socket g)
unfolding handle_disconnect
IsTidy-handle_disconnect socket g t =
    IsTidy-fewer g g.world (delete_rows (λ c. c.socket == socket) g.clients) g.waiting
      (is_of_socket socket g.registry) (delete_rows (λ e. e.0.socket == socket) g.registry)
      (λ s stays h. elim (Bool-cases (s.key.socket == socket)) [
        | inl its ↦ absurd (ground (arith, registered-is_of_socket s socket g.registry h its))
        | inr other ↦ registered_elsewhere s.key socket g.registry other ∙ h
      ])
      t

-- The streams and the map are what they were.
abbrev IsSameStreams : Gateway → Gateway → Type 0
IsSameStreams g g' = (g'.registry ≡ g.registry) × (g'.streams ≡ g.streams) × (g'.next ≡ g.next)

IsTidy-same : (g g' : Gateway) → IsSameStreams g g' → IsTidy g → IsTidy g'
IsTidy-same g g' (r, s, n) t = record {
  held =
      subst (λ l. All (λ x. registered x.key g'.registry ≡ some x.id) l) (sym s)
        (subst (λ m. All (λ x. registered x.key m ≡ some x.id) g.streams) (sym r) t.held);
  numbered =
      subst (λ l. All (λ x. x.id < g'.next) l) (sym s)
        (subst (λ m. All (λ x. x.id < m) g.streams) (sym n) t.numbered);
  single = λ k. subst (λ l. count_rows (λ x. same_key x.key k) l ≤ 1) (sym s) (t.single k);
}

IsSameStreams-connect :
    (env : Env) (socket : ℕ) (token : Option String) (g : Gateway)
    → IsSameStreams g (connect env socket token g)
unfolding connect
IsSameStreams-connect env socket none g = (refl, refl, refl)
IsSameStreams-connect env socket (some token) g =
    elim (Result-cases (resolve_user_from_access_token env token g.world).0) [
      | inl (user, e) ↦ (ground arith, ground arith, ground arith)
      | inr (x, e) ↦ (ground arith, ground arith, ground arith)
    ]

IsSameStreams-subscribe :
    (c : Client) (kind : StreamKind) (id : RowId) (g : Gateway)
    → IsSameStreams g (subscribe c kind id g)
unfolding subscribe
IsSameStreams-subscribe c kind id g =
    elim (Result-cases (find_accessible_or_throw id c.user g.world).0) [
      | inl (server, e) ↦ (ground arith, ground arith, ground arith)
      | inr (x, e) ↦ (ground arith, ground arith, ground arith)
    ]

IsTidy-step : {env : Env} {g g' : Gateway} → Step env g g' → IsTidy g → IsTidy g'
unfolding send
IsTidy-step {env} {g} {g'} (connects socket token e) t =
    subst IsTidy (sym e) (IsTidy-same g _ (IsSameStreams-connect env socket token g) t)
IsTidy-step {env} {g} {g'} (asks c kind id e) t =
    subst IsTidy (sym e) (IsTidy-same g _ (IsSameStreams-subscribe c kind id g) t)
IsTidy-step {env} {g} {g'} (gets_stream p e) t = subst IsTidy (sym e) (IsTidy-open_stream p g t)
IsTidy-step {env} {g} {g'} (leaves key e) t = subst IsTidy (sym e) (IsTidy-unsubscribe key g t)
IsTidy-step {env} {g} {g'} (sends c id command e) t =
    subst IsTidy (sym e) (IsTidy-same g _ (refl, refl, refl) t)
IsTidy-step {env} {g} {g'} (disconnects socket e) t =
    subst IsTidy (sym e) (IsTidy-handle_disconnect socket g t)
IsTidy-step {env} {g} {g'} (ends id e) t =
    subst IsTidy (sym e)
      (IsTidy-fewer g g.world g.clients g.waiting (λ s. s.id == id) g.registry (λ s k h. h) t)
IsTidy-step {env} {g} {g'} (elsewhere w e) t =
    subst IsTidy (sym e) (IsTidy-same g _ (refl, refl, refl) t)

IsTidy-fresh : (w : World) → IsTidy (fresh w)
IsTidy-fresh w = record { held = tt; numbered = tt; single = λ k. omega arith }

-- After any events in any order, every open stream stands in the map of its socket under its key,
-- so that it can be cancelled, and no socket has two streams of one kind for one server.
pub Reach-IsTidy : (env : Env) (w : World) (g : Gateway) → Reach env (fresh w) g → IsTidy g
Reach-IsTidy env w g here = IsTidy-fresh w
Reach-IsTidy env w g (next r s) = IsTidy-step s (Reach-IsTidy env w _ r)

-- After any events in any order, the disconnection of a socket leaves no stream of it open.
pub handle_disconnect_leaves_none :
    (env : Env) (w : World) (g : Gateway) (socket : ℕ)
    → Reach env (fresh w) g
    → All (λ s. (s.key.socket == socket) ≡ false) (handle_disconnect socket g).streams
unfolding handle_disconnect
handle_disconnect_leaves_none env w g socket r =
    All-delete_rows_to _ _ (is_of_socket socket g.registry) g.streams
      (λ s stays h. elim (Bool-cases (s.key.socket == socket)) [
        | inl its ↦ absurd (ground (arith, registered-is_of_socket s socket g.registry h its))
        | inr other ↦ other
      ])
      (Reach-IsTidy env w g r).held

-- A subscription that is answered after its socket has disconnected opens its stream all the same,
-- and no client with that socket is left whose disconnection would end it.
pub open_stream-late :
    (p : Waiting) (g : Gateway)
    → (any (λ s. s.key.socket == p.socket) (open_stream p (handle_disconnect p.socket g)).streams
        ≡ true)
      × (find (λ c. c.socket == p.socket) (open_stream p (handle_disconnect p.socket g)).clients
          ≡ none)
unfolding open_stream handle_disconnect
open_stream-late p g = (ground arith, find-delete_rows (λ c. c.socket == p.socket) g.clients)
