-- ===== src/Nodes/Eligible.antt =====
-- `NodesService.findEligibleNode` (backend/src/nodes/nodes.service.ts): the capacity test, over
-- abstract floating-point numbers, and the choice of the least loaded node.
pub mod Laws
use elysia_panel.Prelude.{ℕ, Bool, true, false, List, [], ◌∷◌, not, ◌&&◌, if◌then◌else◌, select}
use elysia_panel.Prelude.Int.{ℤ, pos}
use elysia_panel.World.Schema.{Node, NodeStatus}
use elysia_panel.World.State.{World, nodes_t}
use elysia_panel.World.Action.{Action, ok, err, bad_request, ◌>>=◌, find_many}

-- JavaScript's numbers, as far as the service computes with them.
pub record Doubles : Type 1 where
  pub Num : Type 0
  pub of_ℤ : ℤ → Num
  pub add : Num → Num → Num
  pub sub : Num → Num → Num
  pub mul : Num → Num → Num
  pub div : Num → Num → Num
  pub le : Num → Num → Bool
  pub is_negative : Num → Bool

pub record Requirements : Type 0 where
  pub cpu_pct : ℕ
  pub memory_mb : ℕ
  pub disk_mb : ℕ

unfoldable pub is_online : NodeStatus → Bool
is_online NodeStatus.online = true
is_online NodeStatus.offline = false
is_online NodeStatus.maintenance = false
is_online NodeStatus.degraded = false

-- `where: { status: 'ONLINE', maintenanceMode: false }`
abbrev pub is_candidate : Node → Bool
is_candidate n = is_online n.status && not n.maintenance_mode

module _ (d : Doubles) where
  open d use {Num, of_ℤ, add, sub, mul, div, le, is_negative}

  abbrev pub of_ℕ : ℕ → Num
  of_ℕ n = of_ℤ (pos n)

  -- `total * (1 + overallocatePct / 100)`
  unfoldable pub capacity : Num → ℕ → Num
  capacity total pct = mul total (add (of_ℕ 1) (div (of_ℕ pct) (of_ℕ 100)))

  unfoldable pub fits : Requirements → Node → Bool
  unfolding capacity
  fits r n =
      le (add (of_ℤ n.cpu_allocated_pct) (of_ℕ r.cpu_pct))
        (capacity (mul (of_ℕ n.cpu_cores) (of_ℕ 100)) n.overallocate_cpu_pct)
      && le (add (of_ℤ n.memory_allocated_mb) (of_ℕ r.memory_mb))
          (capacity (of_ℕ n.memory_mb) n.overallocate_mem_pct)
      && le (add (of_ℤ n.disk_allocated_mb) (of_ℕ r.disk_mb))
          (capacity (of_ℕ n.disk_mb) n.overallocate_disk_pct)

  abbrev pub load : Node → Num
  load n = div (of_ℤ n.memory_allocated_mb) (of_ℕ n.memory_mb)

  -- Whether the comparator `(a, b) => load(a) - load(b)` puts `a` strictly first.
  unfoldable pub before : Node → Node → Bool
  before a b = is_negative (sub (load a) (load b))

  pub insert_node : Node → List Node → List Node
  insert_node x [] = x ∷ []
  insert_node x (y ∷ ys) =
      let rest = insert_node x ys in if before y x then y ∷ rest else x ∷ y ∷ ys

  -- `eligible.sort(…)`: stable.
  unfoldable pub sort_nodes : List Node → List Node
  unfolding insert_node
  sort_nodes [] = []
  sort_nodes (x ∷ xs) = insert_node x (sort_nodes xs)

  first_or_throw : List Node → Action Node
  first_or_throw [] w = (err (bad_request "Aucun node disponible avec suffisamment de capacité"), w)
  first_or_throw (n ∷ ns) w = (ok n, w)

  unfoldable pub find_eligible_node : Requirements → Action Node
  unfolding first_or_throw
  find_eligible_node r = do
    nodes ← find_many nodes_t is_candidate
    first_or_throw (sort_nodes (select (fits r) nodes))
