-- ===== src/Servers/Release.antt =====
-- `delete` of backend/src/servers/servers.service.ts keeps the books of the nodes balanced.
use mathlib.Core.Path.{subst₂}
use elysia_panel.Prelude.{
  ◌≡◌, sym, subst, inl, inr, some, List, ◌==◌, find, update_rows, delete_rows, All,
  All-update_rows_to, arith, Option-cases,
}
use elysia_panel.World.Schema.{RowId, Server}
use elysia_panel.World.State.{World, Env}
use elysia_panel.World.Action.{Result, ⊤, Result-cases, ok, transaction}
use elysia_panel.Identity.{AuthenticatedUser}
use elysia_panel.Servers.Manage.{discharged, remove_server, delete_remotely, delete}
use elysia_panel.NodeClient.{call}
use elysia_panel.Servers.Access.{ServerView, find_accessible_or_throw}
use elysia_panel.Servers.Access.Laws.{find_accessible-state, find_accessible-ok}
use elysia_panel.Servers.Books.{
  IsBalancedNode, IsBalanced, IsDistinct, sum_limits-delete, discharged-IsBalancedNode,
  unmoved-IsBalancedNode,
}

module _ (server : Server) (id : RowId) (w : World) where
  -- Without its books, a removal that fails is undone, and one that succeeds deletes one server.
  remove_server-IsBalanced :
      IsDistinct w.servers
      → find (λ s. s.id == id) w.servers ≡ some server
      → IsBalanced w
      → IsBalanced (transaction (remove_server server id) w).1
  unfolding remove_server
  remove_server-IsBalanced d found b =
      elim (Option-cases (find (λ n. n.id == server.node_id) w.nodes)) [
        | inl missing ↦
            let same : (transaction (remove_server server id) w).1 ≡ w = ground arith in
            subst IsBalanced (sym same) b
        | inr (node, hit) ↦
            let nodes : (removed).1.nodes
                ≡ update_rows (λ n. n.id == server.node_id) (discharged server) w.nodes =
              ground arith in
            let servers : (removed).1.servers ≡ servers_left = ground arith in
            subst₂ (λ ns ss. All (IsBalancedNode ss) ns) (sym nodes) (sym servers)
              (All-update_rows_to (IsBalancedNode w.servers) (IsBalancedNode servers_left)
                (λ n. n.id == server.node_id) _ w.nodes
                (λ n here bn.
                  discharged-IsBalancedNode server w.servers servers_left n
                    (ground (
                      arith,
                      sum_limits-delete (λ s. s.cpu_limit_pct) n.id id w.servers server d found,
                    ))
                    (ground (
                      arith,
                      sum_limits-delete (λ s. s.memory_limit_mb) n.id id w.servers server d found,
                    ))
                    (ground (
                      arith,
                      sum_limits-delete (λ s. s.disk_limit_mb) n.id id w.servers server d found,
                    ))
                    bn)
                (λ n other bn.
                  unmoved-IsBalancedNode w.servers servers_left n
                    (λ f h. ground (arith, sum_limits-delete f n.id id w.servers server d found))
                    bn)
                b)
      ]
    where
      removed : Result ⊤ × World
      removed = transaction (remove_server server id) w

      servers_left : List Server
      servers_left = delete_rows (λ s. s.id == id) w.servers

-- The remote deletion always comes back, and touches no table.
pub delete_remotely_lem :
    (env : Env) (v : ServerView) (w : World)
    → let (result, w') = delete_remotely env v w in
      (result ≡ ok tt) × (w'.nodes ≡ w.nodes) × (w'.servers ≡ w.servers)
unfolding delete_remotely call
delete_remotely_lem env v w = ground arith

module _ (env : Env) (id : RowId) (actor : AuthenticatedUser) (w : World) where
  -- `delete` keeps every node balanced, whether the daemon answers or not, if no two servers share
  -- an identifier.
  pub delete-IsBalanced : IsDistinct w.servers → IsBalanced w → IsBalanced (delete env id actor w).1
  unfolding delete
  delete-IsBalanced d b = elim (Result-cases (find_accessible_or_throw id actor w).0) [
    | inr (x, e) ↦
        let same : (delete env id actor w).1 ≡ w =
          ground (arith, find_accessible-state id actor w) in
        subst IsBalanced (sym same) b
    | inl (v, e) ↦
        let (found, _, _) = find_accessible-ok id actor w v e in
        let (done, nodes, servers) = delete_remotely_lem env v w in
        let w' : World = (delete_remotely env v w).1 in
        let after : World = (transaction (remove_server v.server id) w').1 in
        let nodes_after : (delete env id actor w).1.nodes ≡ after.nodes =
          ground (arith, find_accessible-state id actor w) in
        let servers_after : (delete env id actor w).1.servers ≡ after.servers =
          ground (arith, find_accessible-state id actor w) in
        subst₂ (λ ns ss. All (IsBalancedNode ss) ns) (sym nodes_after) (sym servers_after)
          (remove_server-IsBalanced v.server id w' (subst IsDistinct (sym servers) d)
            (subst (λ ss. find (λ s. s.id == id) ss ≡ some v.server) (sym servers) found)
            (subst₂ (λ ns ss. All (IsBalancedNode ss) ns) (sym nodes) (sym servers) b))
  ]
