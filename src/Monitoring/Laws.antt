-- ===== src/Monitoring/Laws.antt =====
-- The summary against a plain count of the servers, and against the gauges.
use elysia_panel.Prelude.{
  ℕ, ◌+◌, ◌≡◌, refl, sym, ap, ◌∙◌, false, List, [], ◌∷◌, ◌++◌, ◌==◌, length, count_rows, All,
  All-append, arith, Bool-cases, inl, inr, if◌then◌else◌,
}
use mathlib.Core.List.{append-nil, append_assoc}
use elysia_panel.World.Schema.{Server, ServerStatus}
use elysia_panel.World.State.{World}
use elysia_panel.Monitoring.{
  StatusCount, status_code, has_status, is_count_of, count_one, group_by_status, set_count,
  reduce_counts, refresh_gauges, summary,
}

-- What the counts of a status add up to, and all counts.
abbrev pub counted : ServerStatus → List StatusCount → ℕ
counted status [] = 0
counted status (row ∷ rows) =
    (if is_count_of status row then row.count else 0) + counted status rows

abbrev pub counted_all : List StatusCount → ℕ
counted_all [] = 0
counted_all (row ∷ rows) = row.count + counted_all rows

-- No status has two rows.
abbrev IsNewTo : StatusCount → List StatusCount → Type 0
IsNewTo row rows = All (λ r. is_count_of row.status r ≡ false) rows

abbrev IsGrouped : List StatusCount → Type 0
IsGrouped [] = Unit
IsGrouped (row ∷ rows) = IsNewTo row rows × IsGrouped rows

counted-count_one :
    (s t : ServerStatus) (rows : List StatusCount)
    → counted t (count_one s rows)
      ≡ (if status_code s == status_code t then 1 else 0) + counted t rows
counted-count_one s t [] = ground arith
counted-count_one s t (row ∷ rows) = ground (arith, counted-count_one s t rows)

counted_all-count_one :
    (s : ServerStatus) (rows : List StatusCount)
    → counted_all (count_one s rows) ≡ 1 + counted_all rows
counted_all-count_one s [] = ground arith
counted_all-count_one s (row ∷ rows) = ground (arith, counted_all-count_one s rows)

counted-group_by_status :
    (t : ServerStatus) (ss : List Server)
    → counted t (group_by_status ss) ≡ count_rows (has_status t) ss
counted-group_by_status t [] = refl
counted-group_by_status t (s ∷ ss) =
    counted-count_one s.status t (group_by_status ss) ∙ ground (arith, counted-group_by_status t ss)

counted_all-group_by_status : (ss : List Server) → counted_all (group_by_status ss) ≡ length ss
counted_all-group_by_status [] = refl
counted_all-group_by_status (s ∷ ss) =
    omega
      (arith, counted_all-count_one s.status (group_by_status ss), counted_all-group_by_status ss)

IsNewTo-count_one :
    (row : StatusCount) (s : ServerStatus) (rows : List StatusCount)
    → (status_code s == status_code row.status) ≡ false
    → IsNewTo row rows
    → IsNewTo row (count_one s rows)
IsNewTo-count_one row s [] apart h = (apart, tt)
IsNewTo-count_one row s (r ∷ rows) apart h = elim (Bool-cases (is_count_of s r)) [
  | inl e ↦ rw e (h.0, h.1)
  | inr e ↦ rw e (h.0, IsNewTo-count_one row s rows apart h.1)
]

count_one-IsGrouped :
    (s : ServerStatus) (rows : List StatusCount) → IsGrouped rows → IsGrouped (count_one s rows)
count_one-IsGrouped s [] h = (tt, tt)
count_one-IsGrouped s (r ∷ rows) h = elim (Bool-cases (is_count_of s r)) [
  | inl e ↦ rw e (h.0, h.1)
  | inr e ↦
      rw e (IsNewTo-count_one r s rows (ground (arith, e)) h.0, count_one-IsGrouped s rows h.1)
]

group_by_status-IsGrouped : (ss : List Server) → IsGrouped (group_by_status ss)
group_by_status-IsGrouped [] = tt
group_by_status-IsGrouped (s ∷ ss) =
    count_one-IsGrouped s.status (group_by_status ss) (group_by_status-IsGrouped ss)

set_count-new :
    (row : StatusCount) (acc : List StatusCount)
    → IsNewTo row acc
    → set_count row acc ≡ acc ++ row ∷ []
set_count-new row [] h = refl
set_count-new row (r ∷ acc) h = ground (arith, h.0, set_count-new row acc h.1)

new_behind :
    (row : StatusCount) (acc rows : List StatusCount)
    → IsNewTo row rows
    → All (λ r. IsNewTo r acc) rows
    → All (λ r. IsNewTo r (acc ++ row ∷ [])) rows
new_behind row acc [] h k = tt
new_behind row acc (r ∷ rows) h k = (
  All-append (λ x. is_count_of r.status x ≡ false) acc (row ∷ []) k.0 ((ground (arith, h.0)), tt),
  new_behind row acc rows h.1 k.1,
)

-- Writing rows of distinct statuses into a record keeps all of them.
reduce_counts-append :
    (acc rows : List StatusCount)
    → IsGrouped rows
    → All (λ r. IsNewTo r acc) rows
    → reduce_counts acc rows ≡ acc ++ rows
reduce_counts-append acc [] h k = sym (append-nil acc)
reduce_counts-append acc (row ∷ rows) h k =
    ap (λ a. reduce_counts a rows) (set_count-new row acc k.0)
    ∙ reduce_counts-append (acc ++ row ∷ []) rows h.1 (new_behind row acc rows h.0 k.1)
    ∙ append_assoc acc (row ∷ []) rows

IsNewTo-nothing : (rows : List StatusCount) → All (λ r. IsNewTo r []) rows
IsNewTo-nothing [] = tt
IsNewTo-nothing (r ∷ rows) = (tt, IsNewTo-nothing rows)

-- The summary counts the servers of every status as a plain count does. Its counts add up to all
-- servers, and it agrees with the gauges on the nodes online, on the running servers and on all
-- servers.
pub summary_counts :
    (w : World)
    → ((status : ServerStatus)
        → counted status (summary w).servers ≡ count_rows (has_status status) w.servers)
      × (counted_all (summary w).servers ≡ (refresh_gauges w).servers_total)
      × (counted ServerStatus.running (summary w).servers ≡ (refresh_gauges w).servers_running)
      × ((summary w).nodes.online ≡ (refresh_gauges w).nodes_online)
unfolding summary refresh_gauges
summary_counts w =
    let kept : reduce_counts [] (group_by_status w.servers) ≡ group_by_status w.servers =
      reduce_counts-append [] (group_by_status w.servers) (group_by_status-IsGrouped w.servers)
        (IsNewTo-nothing (group_by_status w.servers)) in
    (
      (λ status. ap (counted status) kept ∙ counted-group_by_status status w.servers),
      ap counted_all kept ∙ counted_all-group_by_status w.servers,
      ap (counted ServerStatus.running) kept
          ∙ counted-group_by_status ServerStatus.running w.servers,
      refl,
    )
