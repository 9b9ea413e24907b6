-- ===== src/Servers/Ports/Laws.antt =====
-- The port given out is the lowest free one, and none is given out only when all are taken.
use elysia_panel.Prelude.{
  ℕ, zero, suc, ◌+◌, ◌≤◌, ◌<◌, Bool, true, false, ◌≡◌, refl, sym, inl, inr, ◌∙◌, Option, none, some,
  List, [], ◌∷◌, ◌&&◌, ◌==◌, same, any, arith, Bool-cases,
}
use elysia_panel.World.Schema.{RowId, NetworkAllocation}
use elysia_panel.World.State.{World}
use elysia_panel.World.Action.{ok, err, Exception}
use elysia_panel.Servers.Ports.{
  port_range_start, port_range_end, is_used, scan_ports, used_ports, allocate_port,
}

scan_ports-some :
    (rounds port : ℕ) (used : List ℕ) (p : ℕ)
    → scan_ports rounds port used ≡ some p
    → (port ≤ p)
      × (p < port + rounds)
      × (is_used p used ≡ false)
      × ((q : ℕ) → port ≤ q → q < p → is_used q used ≡ true)
unfolding scan_ports
scan_ports-some zero port used p e = absurd (cc)
scan_ports-some (suc rounds) port used p e = elim (Bool-cases (is_used port used)) [
  | inl taken ↦
      let (low, high, free, below) = scan_ports-some rounds (port + 1) used p (ground arith) in
      (
        omega arith,
        omega arith,
        free,
        λ q h k. elim (Bool-cases (q == port)) [
          | inl here ↦ ground (arith, taken)
          | inr other ↦ below q (ground arith) k
        ],
      )
  | inr free ↦
      let here : port ≡ p = ground arith in
      (omega arith, omega arith, ground arith, λ q h k. absurd (omega arith))
]

scan_ports-none :
    (rounds port : ℕ) (used : List ℕ)
    → scan_ports rounds port used ≡ none
    → (q : ℕ) → port ≤ q
    → q < port + rounds
    → is_used q used ≡ true
unfolding scan_ports
scan_ports-none zero port used e q h k = absurd (omega arith)
scan_ports-none (suc rounds) port used e q h k = elim (Bool-cases (q == port)) [
  | inl here ↦ ground arith
  | inr other ↦ scan_ports-none rounds (port + 1) used (ground arith) q (ground arith) (omega arith)
]

-- Whether the node has an allocation of the port on every interface.
abbrev pub holds_port : RowId → ℕ → List NetworkAllocation → Bool
holds_port node_id port = any (λ a. a.node_id == node_id && same a.ip "0.0.0.0" && a.port == port)

-- Within the range, the ports that the query returns are the ports that the node holds.
is_used-used_ports :
    (node_id port : ℕ) (rows : List NetworkAllocation)
    → port_range_start ≤ port
    → port ≤ port_range_end
    → is_used port (used_ports node_id rows) ≡ holds_port node_id port rows
is_used-used_ports node_id port [] h k = refl
is_used-used_ports node_id port (a ∷ rows) h k =
    ground (arith, is_used-used_ports node_id port rows h k)

module _ (node_id : RowId) (w : World) where
  abbrev scanned : Option ℕ
  scanned = scan_ports 101 port_range_start (used_ports node_id w.allocations)

  -- A port that is given out lies in the range, the node does not hold it, and holds every lower
  -- port of the range. Nothing is written.
  pub allocate_port-ok :
      (p : ℕ)
      → (allocate_port node_id w).0 ≡ ok p
      → (port_range_start ≤ p)
        × (p ≤ port_range_end)
        × (holds_port node_id p w.allocations ≡ false)
        × ((q : ℕ) → port_range_start ≤ q → q < p → holds_port node_id q w.allocations ≡ true)
        × ((allocate_port node_id w).1 ≡ w)
  unfolding allocate_port
  allocate_port-ok p h =
      let found : scanned ≡ some p = ground arith in
      let (low, high, free, below) = scan_ports-some 101 port_range_start _ p found in
      (
        low,
        omega arith,
        sym (is_used-used_ports node_id p w.allocations low (omega arith)) ∙ free,
        (λ q h k. sym (is_used-used_ports node_id q w.allocations h (omega arith)) ∙ below q h k),
        ground arith,
      )

  -- No port is given out only if the node holds the whole range.
  pub allocate_port-err :
      (e : Exception)
      → (allocate_port node_id w).0 ≡ err e
      → (q : ℕ) → port_range_start ≤ q
      → q ≤ port_range_end
      → holds_port node_id q w.allocations ≡ true
  unfolding allocate_port
  allocate_port-err e h q low high =
      let missed : scanned ≡ none = ground arith in
      sym (is_used-used_ports node_id q w.allocations low high)
      ∙ scan_ports-none 101 port_range_start _ missed q low (omega arith)
