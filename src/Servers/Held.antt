-- ===== src/Servers/Held.antt =====
-- What becomes of the ports of a server that is deleted.
use elysia_panel.Prelude.{
  ℕ, ◌≡◌, refl, ap, ◌∙◌, none, List, [], ◌∷◌, ◌==◌, is_for, update_rows, arith, Bool-cases,
  Option-cases, inl, inr, find,
}
use elysia_panel.World.Schema.{RowId, NetworkAllocation, Server}
use elysia_panel.World.State.{World, Env}
use elysia_panel.World.Action.{transaction, ok, Result-cases}
use elysia_panel.Identity.{AuthenticatedUser}
use elysia_panel.NodeClient.{call}
use elysia_panel.Servers.Access.{ServerView, find_accessible_or_throw}
use elysia_panel.Servers.Access.Laws.{find_accessible-state}
use elysia_panel.Servers.Manage.{delete_server_row, remove_server, delete_remotely, delete}
use elysia_panel.Servers.Ports.Laws.{holds_port}

-- An allocation without its server.
abbrev orphan : NetworkAllocation → NetworkAllocation
orphan a = record a { server_id = none }

-- A node holds an orphaned port like any other.
holds_port-orphan :
    (id node_id : RowId) (port : ℕ) (xs : List NetworkAllocation)
    → holds_port node_id port (update_rows (λ a. is_for id a.server_id) orphan xs)
      ≡ holds_port node_id port xs
holds_port-orphan id node_id port [] = refl
holds_port-orphan id node_id port (a ∷ xs) = elim (Bool-cases (is_for id a.server_id)) [
  | inl its ↦ ground (arith, holds_port-orphan id node_id port xs)
  | inr other ↦ ground (arith, holds_port-orphan id node_id port xs)
]

-- The transaction leaves every port where it is.
remove_server-holds_port :
    (server : Server) (id node_id : RowId) (port : ℕ) (w : World)
    → holds_port node_id port (transaction (remove_server server id) w).1.allocations
      ≡ holds_port node_id port w.allocations
unfolding remove_server delete_server_row
remove_server-holds_port server id node_id port w =
    elim (Option-cases (find (λ n. n.id == server.node_id) w.nodes)) [
      | inl missing ↦ ground arith
      | inr (n, e) ↦ elim (Option-cases (find (λ s. s.id == id) w.servers)) [
        | inl gone ↦ ground arith
        | inr (s, e') ↦
            let orphaned : (transaction (remove_server server id) w).1.allocations
                ≡ update_rows (λ a. is_for id a.server_id) orphan w.allocations =
              ground arith in
            ap (holds_port node_id port) orphaned ∙ holds_port-orphan id node_id port w.allocations
      ]
    ]

-- The call of the daemon leaves the allocations alone.
delete_remotely-allocations :
    (env : Env) (v : ServerView) (w : World)
    → ((delete_remotely env v w).0 ≡ ok tt)
      × ((delete_remotely env v w).1.allocations ≡ w.allocations)
unfolding delete_remotely call
delete_remotely-allocations env v w = ground arith

module _ (env : Env) (id : RowId) (actor : AuthenticatedUser) (w : World) where
  -- Deleting a server gives no port back: on every node the ports that are held are the same after
  -- `delete` as before it.
  pub delete-holds_port :
      (node_id : RowId) (port : ℕ)
      → holds_port node_id port (delete env id actor w).1.allocations
        ≡ holds_port node_id port w.allocations
  unfolding delete
  delete-holds_port node_id port = elim (Result-cases (find_accessible_or_throw id actor w).0) [
    | inr (x, e) ↦ ground (arith, find_accessible-state id actor w)
    | inl (v, e) ↦
        let w' : World = (delete_remotely env v w).1 in
        let (done, kept) = delete_remotely-allocations env v w in
        let rows : (delete env id actor w).1.allocations
            ≡ (transaction (remove_server v.server id) w').1.allocations =
          ground (arith, find_accessible-state id actor w) in
        ap (holds_port node_id port) rows
        ∙ remove_server-holds_port v.server id node_id port w'
        ∙ ap (holds_port node_id port) kept
  ]
