-- ===== src/Servers/Books.antt =====
-- The books of the nodes: what a node has allocated against the limits of the servers that it
-- hosts, and what one server more or less changes (servers/servers.service.ts).
use elysia_panel.Prelude.{
  String, ℕ, ◌+◌, Bool, false, ◌≡◌, refl, sym, subst, ap, ◌∙◌, inl, inr, some, List, [], ◌∷◌, ◌++◌,
  ◌==◌, find, any, update_rows, delete_rows, All, arith, Bool-cases, if◌then◌else◌,
  delete_rows-none, find-none_of_any,
}
use elysia_panel.Prelude.Int.{pos, ◌+ℤ◌, ◌-ℤ◌}
use elysia_panel.World.Schema.{RowId, Node, Server}
use elysia_panel.World.State.{World}
use elysia_panel.Servers.Create.{charged}
use elysia_panel.Servers.Manage.{discharged}

-- What the servers of a node are limited to, added up.
unfoldable pub sum_limits : (Server → ℕ) → RowId → List Server → ℕ
sum_limits f node_id [] = 0
sum_limits f node_id (s ∷ ss) = (if s.node_id == node_id then f s else 0) + sum_limits f node_id ss

-- The three amounts of a node against a list of servers.
pub record IsBalancedNode (servers : List Server) (n : Node) : Type 0 where
  pub cpu : n.cpu_allocated_pct ≡ pos (sum_limits (λ s. s.cpu_limit_pct) n.id servers)
  pub memory : n.memory_allocated_mb ≡ pos (sum_limits (λ s. s.memory_limit_mb) n.id servers)
  pub disk : n.disk_allocated_mb ≡ pos (sum_limits (λ s. s.disk_limit_mb) n.id servers)

abbrev pub IsBalanced : World → Type 0
IsBalanced w = All (IsBalancedNode w.servers) w.nodes

-- The primary key: no two servers share an identifier.
abbrev pub IsDistinct : List Server → Type 0
IsDistinct [] = Unit
IsDistinct (s ∷ ss) = (any (λ t. t.id == s.id) ss ≡ false) × IsDistinct ss

pub sum_limits-append :
    (f : Server → ℕ) (n : RowId) (xs ys : List Server)
    → sum_limits f n (xs ++ ys) ≡ sum_limits f n xs + sum_limits f n ys
unfolding sum_limits
sum_limits-append f n [] ys = omega arith
sum_limits-append f n (x ∷ xs) ys = omega (arith, sum_limits-append f n xs ys)

pub sum_limits-update_rows :
    (f : Server → ℕ) (n : RowId) (p : Server → Bool) (g : Server → Server) (xs : List Server)
    → ((s : Server) → f (g s) ≡ f s)
    → ((s : Server) → (g s).node_id ≡ s.node_id)
    → sum_limits f n (update_rows p g xs) ≡ sum_limits f n xs
unfolding sum_limits
sum_limits-update_rows f n p g [] h k = refl
sum_limits-update_rows f n p g (x ∷ xs) h k =
    ground (arith, h x, k x, sum_limits-update_rows f n p g xs h k)

-- The server that goes takes its limit with it.
pub sum_limits-delete :
    (f : Server → ℕ) (n id : RowId) (xs : List Server) (s : Server)
    → IsDistinct xs
    → find (λ t. t.id == id) xs ≡ some s
    → sum_limits f n (delete_rows (λ t. t.id == id) xs) + (if s.node_id == n then f s else 0)
      ≡ sum_limits f n xs
unfolding sum_limits
sum_limits-delete f n id [] s d e = absurd (cc)
sum_limits-delete f n id (x ∷ xs) s d e = elim (Bool-cases (x.id == id)) [
  | inl here ↦
      let same_id : x.id ≡ id = ground arith in
      let gone : delete_rows (λ t. t.id == id) xs ≡ xs = delete_rows-none _ xs (
        find-none_of_any _ xs
          (subst (λ i. any (λ (t : Server). t.id == i) xs ≡ false) same_id d.0)) in
      ground (arith, gone)
  | inr other ↦ ground (arith, sum_limits-delete f n id xs s d.1)
]

pub pos_add : (a b : ℕ) → pos a +ℤ pos b ≡ pos (a + b)
unfolding ◌+ℤ◌
pos_add a b = ground arith

pub pos_sub : (a b : ℕ) → pos (a + b) -ℤ pos b ≡ pos a
unfolding ◌-ℤ◌
pos_sub a b = ground arith

-- Adding a server's limits to its node and the server to the list keeps every node balanced.
pub charged-IsBalancedNode :
    (cpu memory disk : ℕ) (ss ss' : List Server) (n : Node)
    → (sum_limits (λ s. s.cpu_limit_pct) n.id ss' ≡ sum_limits (λ s. s.cpu_limit_pct) n.id ss + cpu)
    → (sum_limits (λ s. s.memory_limit_mb) n.id ss'
        ≡ sum_limits (λ s. s.memory_limit_mb) n.id ss + memory)
    → (sum_limits (λ s. s.disk_limit_mb) n.id ss'
        ≡ sum_limits (λ s. s.disk_limit_mb) n.id ss + disk)
    → IsBalancedNode ss n
    → IsBalancedNode ss' (charged cpu memory disk n)
charged-IsBalancedNode cpu memory disk ss ss' n c m d b = record {
  cpu = rw (b.cpu, c) (pos_add _ cpu);
  memory = rw (b.memory, m) (pos_add _ memory);
  disk = rw (b.disk, d) (pos_add _ disk);
}

-- Taking a server's limits off its node, likewise.
pub discharged-IsBalancedNode :
    (s : Server) (ss ss' : List Server) (n : Node)
    → (sum_limits (λ t. t.cpu_limit_pct) n.id ss' + s.cpu_limit_pct
        ≡ sum_limits (λ t. t.cpu_limit_pct) n.id ss)
    → (sum_limits (λ t. t.memory_limit_mb) n.id ss' + s.memory_limit_mb
        ≡ sum_limits (λ t. t.memory_limit_mb) n.id ss)
    → (sum_limits (λ t. t.disk_limit_mb) n.id ss' + s.disk_limit_mb
        ≡ sum_limits (λ t. t.disk_limit_mb) n.id ss)
    → IsBalancedNode ss n
    → IsBalancedNode ss' (discharged s n)
discharged-IsBalancedNode s ss ss' n c m d b = record {
  cpu = rw (b.cpu, ← c) (pos_sub _ s.cpu_limit_pct);
  memory = rw (b.memory, ← m) (pos_sub _ s.memory_limit_mb);
  disk = rw (b.disk, ← d) (pos_sub _ s.disk_limit_mb);
}

-- A node whose sums are the same stays balanced.
pub unmoved-IsBalancedNode :
    (ss ss' : List Server) (n : Node)
    → ((f : Server → ℕ)
        → ((s : Server) (path : String) → f (record s { data_path = path }) ≡ f s)
        → sum_limits f n.id ss' ≡ sum_limits f n.id ss)
    → IsBalancedNode ss n
    → IsBalancedNode ss' n
unmoved-IsBalancedNode ss ss' n h b = record {
  cpu = b.cpu ∙ ap pos (sym (h _ (λ s p. refl)));
  memory = b.memory ∙ ap pos (sym (h _ (λ s p. refl)));
  disk = b.disk ∙ ap pos (sym (h _ (λ s p. refl)));
}
