-- ===== src/Servers/Capacity.antt =====
-- The amounts that a node has allocated are the limits of the servers that it hosts: `create` of
-- backend/src/servers/servers.service.ts keeps the books balanced.
use mathlib.Core.Path.{subst₂}
use elysia_panel.Prelude.{
  ◌&&◌, not, includes, String, ℕ, ◌+◌, ◌≡◌, refl, sym, subst, ◌∙◌, inl, inr, List, [], ◌∷◌, ◌++◌,
  ◌==◌, find, update_rows, All, All-update_rows_to, arith, Bool-cases, Option-cases, if◌then◌else◌,
  concat,
}
use elysia_panel.World.Schema.{RowId, Node, Server, ServerTemplate}
use elysia_panel.World.State.{World, Env}
use elysia_panel.World.Action.{Action, Result-cases, ok}
use elysia_panel.Nodes.Eligible.Laws.{find_eligible_node-state}
use elysia_panel.Identity.{AuthenticatedUser}
use elysia_panel.Nodes.Eligible.{Doubles, Requirements, find_eligible_node}
use elysia_panel.Servers.Ports.{allocate_port}
use elysia_panel.Servers.Create.{
  CreateServer, owner_or_actor, Created, new_server, charged, insert_server, place, create,
  is_for_other,
}
use elysia_panel.Servers.Books.{
  sum_limits, IsBalancedNode, IsBalanced, sum_limits-append, sum_limits-update_rows,
  charged-IsBalancedNode, unmoved-IsBalancedNode,
}

module _ (env : Env) (dto : CreateServer) (owner_id : RowId) (node : Node)
    (template : ServerTemplate) (w : World) where
  pub inserted :
      (c : Created)
      → (insert_server env dto owner_id node template w).0 ≡ ok c
      → let w' = (insert_server env dto owner_id node template w).1 in
        (w'.nodes
          ≡ update_rows
              (λ n. n.id == node.id)
              (charged dto.cpu_limit_pct dto.memory_limit_mb dto.disk_limit_mb)
              w.nodes)
        × (w'.servers
            ≡ update_rows
                (λ s. s.id == env.uuid w.drawn)
                (λ s. record s {
                  data_path = concat "/srv/elysia/servers/" (env.uuid_text (w.drawn + 1));
                })
                (w.servers
                  ++ new_server
                      (env.uuid w.drawn)
                      (env.uuid_text (w.drawn + 1))
                      dto
                      owner_id
                      node.id
                      template
                    ∷ []))
  unfolding insert_server allocate_port
  inserted c h = ground arith

  abbrev new_row : Server
  new_row =
      new_server (env.uuid w.drawn) (env.uuid_text (w.drawn + 1)) dto owner_id node.id template

  abbrev servers_after : List Server
  servers_after =
      update_rows (λ s. s.id == env.uuid w.drawn)
        (λ s. record s { data_path = concat "/srv/elysia/servers/" (env.uuid_text (w.drawn + 1)) })
        (w.servers ++ new_row ∷ [])

  -- The sums after the insertion.
  sums_after :
      (f : Server → ℕ) (n : RowId)
      → ((s : Server) (path : String) → f (record s { data_path = path }) ≡ f s)
      → sum_limits f n servers_after
        ≡ sum_limits f n w.servers + (if node.id == n then f new_row else 0)
  unfolding sum_limits
  sums_after f n h =
      sum_limits-update_rows f n _ _ (w.servers ++ new_row ∷ []) (λ s. h s _) (λ s. refl)
      ∙ (sum_limits-append f n w.servers (new_row ∷ []) ∙ omega arith)

  insert_server-IsBalanced :
      (c : Created)
      → (insert_server env dto owner_id node template w).0 ≡ ok c
      → IsBalanced w
      → IsBalanced (insert_server env dto owner_id node template w).1
  insert_server-IsBalanced c h b =
      let (nodes, servers) = inserted c h in
      subst₂ (λ ns ss. All (IsBalancedNode ss) ns) (sym nodes) (sym servers)
        (All-update_rows_to (IsBalancedNode w.servers) (IsBalancedNode servers_after)
          (λ n. n.id == node.id) _ w.nodes
          (λ n here bn.
            charged-IsBalancedNode _ _ _ w.servers servers_after n
              (ground (arith, sums_after (λ s. s.cpu_limit_pct) n.id (λ s p. refl)))
              (ground (arith, sums_after (λ s. s.memory_limit_mb) n.id (λ s p. refl)))
              (ground (arith, sums_after (λ s. s.disk_limit_mb) n.id (λ s p. refl))) bn)
          (λ n other bn.
            unmoved-IsBalancedNode w.servers servers_after n
              (λ f h. ground (arith, sums_after f n.id h)) bn)
          b)

module _ (env : Env) (dto : CreateServer) (actor : AuthenticatedUser) (w : World) where
  place-IsBalanced :
      (template : ServerTemplate) (node : Node)
      → IsBalanced w
      → IsBalanced (place env dto actor template node w).1
  unfolding place
  place-IsBalanced template node b = elim (Result-cases (insertion w).0) [
    | inl (c, e) ↦
        let nodes : (placed w).1.nodes ≡ (insertion w).1.nodes = ground arith in
        let servers : (placed w).1.servers ≡ (insertion w).1.servers = ground arith in
        subst₂ (λ ns ss. All (IsBalancedNode ss) ns) (sym nodes) (sym servers)
          (insert_server-IsBalanced env dto (owner_or_actor dto actor) node template w c e b)
    | inr (x, e) ↦ let same : (placed w).1 ≡ w = ground arith in subst IsBalanced (sym same) b
  ]
    where
      insertion : Action Created
      insertion = insert_server env dto (owner_or_actor dto actor) node template

      placed : Action Created
      placed = place env dto actor template node

  -- A failed check leaves the state alone; otherwise `place` runs.
  pub create_cases :
      (P : World → Type 0) (d : Doubles)
      → P w
      → ((template : ServerTemplate) (node : Node) → P (place env dto actor template node w).1)
      → P (create env d dto actor w).1
  unfolding create
  create_cases P d same placed =
      elim (Bool-cases (is_for_other dto actor && not (includes actor.permissions "*"))) [
        | inl refused ↦
            let eq : (create env d dto actor w).1 ≡ w = ground arith in subst P (sym eq) same
        | inr allowed ↦ elim (Option-cases (find (λ t. t.id == dto.template_id) w.templates)) [
          | inl missing ↦
              let eq : (create env d dto actor w).1 ≡ w = ground arith in subst P (sym eq) same
          | inr (template, found) ↦ elim (Result-cases (find_eligible_node d needs w).0) [
            | inl (node, e) ↦
                let eq : create env d dto actor w ≡ place env dto actor template node w =
                  ground (arith, find_eligible_node-state d needs w) in
                subst (λ r. P r.1) (sym eq) (placed template node)
            | inr (x, e) ↦
                let eq : (create env d dto actor w).1 ≡ w =
                  ground (arith, find_eligible_node-state d needs w) in
                subst P (sym eq) same
          ]
        ]
      ]
    where
      needs : Requirements
      needs = record {
        cpu_pct = dto.cpu_limit_pct;
        memory_mb = dto.memory_limit_mb;
        disk_mb = dto.disk_limit_mb;
      }

  -- `create` keeps every node balanced, whether it succeeds or fails at any step.
  pub create-IsBalanced : (d : Doubles) → IsBalanced w → IsBalanced (create env d dto actor w).1
  create-IsBalanced d b =
      create_cases IsBalanced d b (λ template node. place-IsBalanced template node b)
