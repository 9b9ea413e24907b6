-- ===== src/Audit.antt =====
-- The list of AuditService (backend/src/audit/audit.service.ts) and of audit.controller.ts; `log`
-- stands in World/Action.
use elysia_panel.Prelude.{
  ℕ, String, Bool, true, false, Option, none, some, List, map, ◌&&◌, ◌==◌, same, find, select,
}
use elysia_panel.World.Schema.{RowId, User, AuditLog}
use elysia_panel.World.State.{World}
use elysia_panel.Users.{take_rows, skip_rows, or_number}

pub record AuditQuery : Type 0 where
  pub skip : Option ℕ
  pub take : Option ℕ
  pub actor_id : Option RowId
  pub target_type : Option String

-- A condition on a field, where a missing value is no condition.
abbrev pub fits_actor : Option RowId → AuditLog → Bool
fits_actor none log = true
fits_actor (some id) log = elim log.actor_id [ none ↦ false | some actor ↦ actor == id ]

abbrev pub fits_target : Option String → AuditLog → Bool
fits_target none log = true
fits_target (some kind) log = elim log.target_type [ none ↦ false | some target ↦ same target kind ]

abbrev pub fits : AuditQuery → AuditLog → Bool
fits query log = fits_actor query.actor_id log && fits_target query.target_type log

-- An entry with what the query includes of its actor.
pub record AuditView : Type 0 where
  pub log : AuditLog
  pub actor : Option (RowId × String × String)

abbrev pub actor_of : List User → AuditLog → Option (RowId × String × String)
actor_of users log = elim log.actor_id [
  | none ↦ none
  | some id ↦ elim (find (λ u. u.id == id) users) [
    | none ↦ none
    | some u ↦ some (u.id, u.username, u.email)
  ]
]

-- `list`: a page of the entries that fit. `newest_first` is the order in which the database gives
-- them: by `createdAt` downwards, entries of the same instant in any order.
unfoldable pub list : (List AuditLog → List AuditLog) → AuditQuery → World → List AuditView
list newest_first query w =
    map (λ log. record { log = log; actor = actor_of w.users log })
      (take_rows (or_number query.take 50)
        (skip_rows (or_number query.skip 0) (newest_first (select (fits query) w.audit_logs))))
