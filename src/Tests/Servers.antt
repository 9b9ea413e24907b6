-- ===== src/Tests/Servers.antt =====
-- The theorems on servers and nodes, at a small instance.
use elysia_panel.Prelude.{
  ℕ, zero, suc, ◌+◌, ◌≤◌, ◌<◌, true, false, ◌≡◌, refl, none, List, [], ◌∷◌, arith, ◌*◌, ◌/◌,
}
use elysia_panel.Prelude.Int.{ℤ, pos, pos_part, ltb_ℤ, ◌+ℤ◌, ◌-ℤ◌}
use elysia_panel.World.Schema.{NetworkAllocation}
use elysia_panel.World.Action.{ok, err, forbidden}
use elysia_panel.Nodes.Eligible.{Doubles, Requirements, before, find_eligible_node}
use elysia_panel.Nodes.Eligible.Laws.{IsConsistent, IsChoice, find_eligible_node_outcome}
use elysia_panel.Servers.Access.{ServerView, find_accessible_or_throw}
use elysia_panel.Servers.Access.Laws.{IsAllowed, find_accessible_decides}
use elysia_panel.Servers.Ports.{allocate_port, scan_ports, port_range_start, port_range_end}
use elysia_panel.Servers.Ports.Laws.{holds_port, allocate_port-ok}
use elysia_panel.Servers.Create.{CreateServer, create}
use elysia_panel.Servers.Power.{start, power_action}
use elysia_panel.Servers.Power.Laws.{IsPowered, power_action_outcome}
use elysia_panel.Servers.Manage.{delete}
use elysia_panel.Servers.Books.{IsBalanced, sum_limits}
use elysia_panel.Servers.Capacity.{create-IsBalanced}
use elysia_panel.Servers.Release.{delete-IsBalanced}
use elysia_panel.Tests.Demo.{env, alice_auth, node, template, server, allocation, world}

-- Integers in the place of the floating-point numbers, with a load in thousandths.
abbrev pub whole : Doubles
whole = record {
  Num = ℤ;
  of_ℤ = λ a. a;
  add = λ a b. a +ℤ b;
  sub = λ a b. a -ℤ b;
  mul = λ a b. pos (pos_part a * pos_part b);
  div = λ a b. pos (pos_part a * 1000 / pos_part b);
  le = λ a b. elim (ltb_ℤ b a) [ true ↦ false | false ↦ true ];
  is_negative = λ a. ltb_ℤ a (pos 0);
}

whole-IsConsistent : IsConsistent whole
unfolding before ◌-ℤ◌
whole-IsConsistent = record {
  asymmetric = λ a b _ _ h. ground arith;
  negatively_transitive = λ a b c _ _ _ h k. ground arith;
}

abbrev request : Requirements
request = record { cpu_pct = 50; memory_mb = 512; disk_mb = 1024 }

abbrev view : ServerView
view = record {
  server = server;
  node = node;
  template = template;
  allocations = allocation ∷ [];
  sub_users = record { server_id = 20; user_id = 2; permissions = [] } ∷ [];
}

find_accessible_decides_example :
    (IsAllowed alice_auth server world
      → find_accessible_or_throw 20 alice_auth world ≡ (ok view, world))
    × (¬ IsAllowed alice_auth server world
        → find_accessible_or_throw 20 alice_auth world
          ≡ (err (forbidden "Vous n'avez pas accès à ce serveur"), world))
find_accessible_decides_example =
    find_accessible_decides 20 alice_auth world server node template refl refl refl

delete-IsBalanced_example : IsBalanced (delete env 20 alice_auth world).1
unfolding sum_limits
delete-IsBalanced_example =
    delete-IsBalanced env 20 alice_auth world (refl, tt)
      (record { cpu = refl; memory = refl; disk = refl }, tt)

abbrev dto : CreateServer
dto = record {
  name = "lobby";
  description = none;
  template_id = 5;
  cpu_limit_pct = 50;
  memory_limit_mb = 512;
  disk_limit_mb = 1024;
  environment = none;
  owner_id = none;
}

create-IsBalanced_example : IsBalanced (create env whole dto alice_auth world).1
unfolding sum_limits
create-IsBalanced_example =
    create-IsBalanced env dto alice_auth world whole
      (record { cpu = refl; memory = refl; disk = refl }, tt)

allocate_port-ok_example :
    (port_range_start ≤ 25566)
    × (25566 ≤ port_range_end)
    × (holds_port 3 25566 world.allocations ≡ false)
    × ((q : ℕ) → port_range_start ≤ q → q < 25566 → holds_port 3 q world.allocations ≡ true)
    × ((allocate_port 3 world).1 ≡ world)
unfolding allocate_port scan_ports
allocate_port-ok_example = allocate_port-ok 3 world 25566 refl

-- The allocations of so many ports from a first one on.
all_ports : ℕ → ℕ → List NetworkAllocation
all_ports zero port = []
all_ports (suc n) port = record allocation { port = port } ∷ all_ports n (port + 1)

power_action_outcome_example :
    IsPowered env 20 start alice_auth world (power_action env 20 start alice_auth world)
power_action_outcome_example = power_action_outcome env 20 start alice_auth world

find_eligible_node_outcome_example :
    IsChoice whole request world (find_eligible_node whole request world)
find_eligible_node_outcome_example =
    find_eligible_node_outcome whole request world whole-IsConsistent
      ((omega arith, omega arith, omega arith, omega arith), tt)
