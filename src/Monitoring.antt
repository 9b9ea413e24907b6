-- ===== src/Monitoring.antt =====
-- MonitoringService (backend/src/monitoring/monitoring.service.ts): the gauges and the summary.
pub mod Laws
use elysia_panel.Prelude.{
  ℕ, suc, ◌+◌, ◌*◌, Bool, true, false, List, [], ◌∷◌, ◌==◌, length, count_rows, if◌then◌else◌,
}
use elysia_panel.Prelude.Int.{ℤ, pos, ◌+ℤ◌}
use elysia_panel.World.Schema.{Node, NodeStatus, Server, ServerStatus}
use elysia_panel.World.Records.{Invoice, InvoiceStatus}
use elysia_panel.World.State.{World}

pub record Gauges : Type 0 where
  pub nodes_online : ℕ
  pub servers_running : ℕ
  pub servers_total : ℕ

abbrev pub is_online : Node → Bool
is_online n = elim n.status [ NodeStatus.online ↦ true | _ ↦ false ]

-- The number of a status, by which statuses are compared.
abbrev pub status_code : ServerStatus → ℕ
status_code ServerStatus.installing = 0
status_code ServerStatus.install_failed = 1
status_code ServerStatus.offline = 2
status_code ServerStatus.starting = 3
status_code ServerStatus.running = 4
status_code ServerStatus.stopping = 5
status_code ServerStatus.crashed = 6
status_code ServerStatus.suspended = 7
status_code ServerStatus.transferring = 8
status_code ServerStatus.restoring = 9

abbrev pub has_status : ServerStatus → Server → Bool
has_status status s = status_code s.status == status_code status

-- `refreshGauges`
unfoldable pub refresh_gauges : World → Gauges
refresh_gauges w = record {
  nodes_online = count_rows is_online w.nodes;
  servers_running = count_rows (has_status ServerStatus.running) w.servers;
  servers_total = length w.servers;
}

pub record StatusCount : Type 0 where
  pub status : ServerStatus
  pub count : ℕ

abbrev pub is_count_of : ServerStatus → StatusCount → Bool
is_count_of status row = status_code row.status == status_code status

-- One more row of a status.
abbrev pub count_one : ServerStatus → List StatusCount → List StatusCount
count_one status [] = record { status = status; count = 1 } ∷ []
count_one status (row ∷ rows) =
    let rest = count_one status rows in
    if is_count_of status row
    then record { status = row.status; count = suc row.count } ∷ rows
    else row ∷ rest

-- `server.groupBy({ by: ['status'], _count: true })`
abbrev pub group_by_status : List Server → List StatusCount
group_by_status [] = []
group_by_status (s ∷ ss) = count_one s.status (group_by_status ss)

-- `acc[row.status] = row._count`
abbrev pub set_count : StatusCount → List StatusCount → List StatusCount
set_count row [] = row ∷ []
set_count row (old ∷ acc) =
    let rest = set_count row acc in if is_count_of row.status old then row ∷ acc else old ∷ rest

-- `servers.reduce((acc, row) => …, {})`
abbrev pub reduce_counts : List StatusCount → List StatusCount → List StatusCount
reduce_counts acc [] = acc
reduce_counts acc (row ∷ rows) = reduce_counts (set_count row acc) rows

abbrev pub sum_ℤ : (Node → ℤ) → ℤ → List Node → ℤ
sum_ℤ f acc [] = acc
sum_ℤ f acc (n ∷ ns) = sum_ℤ f (acc +ℤ f n) ns

abbrev pub sum_ℕ : (Node → ℕ) → ℕ → List Node → ℕ
sum_ℕ f acc [] = acc
sum_ℕ f acc (n ∷ ns) = sum_ℕ f (acc + f n) ns

pub record NodeTotals : Type 0 where
  pub total : ℕ
  pub online : ℕ
  pub cpu_allocated_pct : ℤ
  pub cpu_capacity_pct : ℕ
  pub memory_allocated_mb : ℤ
  pub memory_capacity_mb : ℕ
  pub disk_allocated_mb : ℤ
  pub disk_capacity_mb : ℕ

pub record Summary : Type 0 where
  pub nodes : NodeTotals
  pub servers : List StatusCount
  pub users : ℕ
  pub invoices_unpaid : ℕ

abbrev pub is_open : Invoice → Bool
is_open i = elim i.status [ InvoiceStatus.opened ↦ true | _ ↦ false ]

-- `summary`
unfoldable pub summary : World → Summary
summary w = record {
  nodes = record {
    total = length w.nodes;
    online = count_rows is_online w.nodes;
    cpu_allocated_pct = sum_ℤ (λ n. n.cpu_allocated_pct) (pos 0) w.nodes;
    cpu_capacity_pct = sum_ℕ (λ n. n.cpu_cores * 100) 0 w.nodes;
    memory_allocated_mb = sum_ℤ (λ n. n.memory_allocated_mb) (pos 0) w.nodes;
    memory_capacity_mb = sum_ℕ (λ n. n.memory_mb) 0 w.nodes;
    disk_allocated_mb = sum_ℤ (λ n. n.disk_allocated_mb) (pos 0) w.nodes;
    disk_capacity_mb = sum_ℕ (λ n. n.disk_mb) 0 w.nodes;
  };
  servers = reduce_counts [] (group_by_status w.servers);
  users = length w.users;
  invoices_unpaid = count_rows is_open w.invoices;
}
