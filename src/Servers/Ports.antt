-- ===== src/Servers/Ports.antt =====
-- `ServersService.allocatePort`: the lowest free port of a node.
pub mod Laws
use elysia_panel.Prelude.{
  ℕ, zero, suc, ◌+◌, ◌-◌, Bool, Option, none, some, List, map, ◌&&◌, ◌==◌, leb, same, any, select,
  if◌then◌else◌,
}
use elysia_panel.World.Schema.{RowId, NetworkAllocation}
use elysia_panel.World.State.{allocations_t}
use elysia_panel.World.Action.{Action, bad_request, ◌>>=◌, find_many, or_throw}

abbrev pub port_range_start : ℕ
port_range_start = 25565

abbrev pub port_range_end : ℕ
port_range_end = 25665

-- `usedPorts.has(port)`
abbrev pub is_used : ℕ → List ℕ → Bool
is_used port = any (λ p. p == port)

-- The loop over the ports, with the rounds left.
unfoldable pub scan_ports : ℕ → ℕ → List ℕ → Option ℕ
scan_ports zero port used = none
scan_ports (suc rounds) port used =
    let rest = scan_ports rounds (port + 1) used in if is_used port used then rest else some port

-- The query's filter.
abbrev pub in_query : RowId → NetworkAllocation → Bool
in_query node_id a =
    a.node_id == node_id
    && same a.ip "0.0.0.0"
    && leb port_range_start a.port
    && leb a.port port_range_end

abbrev pub used_ports : RowId → List NetworkAllocation → List ℕ
used_ports node_id allocations = map (λ a. a.port) (select (in_query node_id) allocations)

unfoldable pub allocate_port : RowId → Action ℕ
allocate_port node_id = do
  used ← find_many allocations_t (in_query node_id)
  or_throw
      (scan_ports (port_range_end + 1 - port_range_start) port_range_start (map (λ a. a.port) used))
      (bad_request "Plus de port disponible sur ce node")
