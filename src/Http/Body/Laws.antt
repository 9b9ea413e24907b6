-- ===== src/Http/Body/Laws.antt =====
-- The validation of a body reads no state and writes none, and what it lets through is in bounds.
use elysia_panel.Prelude.{ℕ, ◌≤◌, String, ◌≡◌, refl, Option, none, some, arith, tests}
use elysia_panel.World.Schema.{RowId}
use elysia_panel.World.State.{World}
use elysia_panel.World.Action.{ok}
use elysia_panel.Servers.Create.{CreateServer}
use elysia_panel.Http.Body.{
  Json, Fields, integer, number, boolean, text, array, object, field, as_text, as_optional_text,
  as_int, as_optional_object, create_server_dto, update_server_dto,
}

module _ (w : World) where
  as_text-state : (v : Option Json) → (as_text v w).1 ≡ w
  as_text-state none = refl
  as_text-state (some (integer n)) = refl
  as_text-state (some (number t)) = refl
  as_text-state (some (boolean b)) = refl
  as_text-state (some (text s)) = refl
  as_text-state (some array) = refl
  as_text-state (some (object e)) = refl

  as_optional_text-state : (v : Option Json) → (as_optional_text v w).1 ≡ w
  as_optional_text-state none = refl
  as_optional_text-state (some v) = ground (arith, as_text-state (some v))

  as_int-state : (least : ℕ) (v : Option Json) → (as_int least v w).1 ≡ w
  as_int-state least none = refl
  as_int-state least (some (integer n)) = ground arith
  as_int-state least (some (number t)) = refl
  as_int-state least (some (boolean b)) = refl
  as_int-state least (some (text s)) = refl
  as_int-state least (some array) = refl
  as_int-state least (some (object e)) = refl

  as_int-ok : (least : ℕ) (v : Option Json) (n : ℕ) → (as_int least v w).0 ≡ ok n → least ≤ n
  as_int-ok least none n h = cc
  as_int-ok least (some (integer m)) n h = grind tests
  as_int-ok least (some (number t)) n h = cc
  as_int-ok least (some (boolean b)) n h = cc
  as_int-ok least (some (text s)) n h = cc
  as_int-ok least (some array) n h = cc
  as_int-ok least (some (object e)) n h = cc

  as_optional_object-state : (v : Option Json) → (as_optional_object v w).1 ≡ w
  as_optional_object-state none = refl
  as_optional_object-state (some (object e)) = refl
  as_optional_object-state (some (integer n)) = refl
  as_optional_object-state (some (number t)) = refl
  as_optional_object-state (some (boolean b)) = refl
  as_optional_object-state (some (text s)) = refl
  as_optional_object-state (some array) = refl

  pub update_server_dto-state : (f : Fields) → (update_server_dto f w).1 ≡ w
  unfolding update_server_dto
  update_server_dto-state f = ground (
    arith,
    as_optional_text-state (field "name" f),
    as_optional_text-state (field "description" f),
    as_optional_text-state (field "dockerImage" f),
    as_optional_text-state (field "startupCommand" f),
    as_optional_object-state (field "environment" f),
  )

  pub create_server_dto-state :
      (row_id : String → RowId) (f : Fields) → (create_server_dto row_id f w).1 ≡ w
  unfolding create_server_dto
  create_server_dto-state row_id f = ground (
    arith,
    as_text-state (field "name" f),
    as_optional_text-state (field "description" f),
    as_text-state (field "templateId" f),
    as_int-state 10 (field "cpuLimitPct" f),
    as_int-state 256 (field "memoryLimitMb" f),
    as_int-state 512 (field "diskLimitMb" f),
    as_optional_object-state (field "environment" f),
    as_optional_text-state (field "ownerId" f),
  )

  -- The limits of a body that passes are its fields.
  create_server_dto-cpu :
      (row_id : String → RowId) (f : Fields) (dto : CreateServer)
      → (create_server_dto row_id f w).0 ≡ ok dto
      → (as_int 10 (field "cpuLimitPct" f) w).0 ≡ ok dto.cpu_limit_pct
  unfolding create_server_dto
  create_server_dto-cpu row_id f dto h = ground (
    arith,
    as_text-state (field "name" f),
    as_optional_text-state (field "description" f),
    as_text-state (field "templateId" f),
    as_int-state 10 (field "cpuLimitPct" f),
    as_int-state 256 (field "memoryLimitMb" f),
    as_int-state 512 (field "diskLimitMb" f),
    as_optional_object-state (field "environment" f),
    as_optional_text-state (field "ownerId" f),
  )

  create_server_dto-memory :
      (row_id : String → RowId) (f : Fields) (dto : CreateServer)
      → (create_server_dto row_id f w).0 ≡ ok dto
      → (as_int 256 (field "memoryLimitMb" f) w).0 ≡ ok dto.memory_limit_mb
  unfolding create_server_dto
  create_server_dto-memory row_id f dto h = ground (
    arith,
    as_text-state (field "name" f),
    as_optional_text-state (field "description" f),
    as_text-state (field "templateId" f),
    as_int-state 10 (field "cpuLimitPct" f),
    as_int-state 256 (field "memoryLimitMb" f),
    as_int-state 512 (field "diskLimitMb" f),
    as_optional_object-state (field "environment" f),
    as_optional_text-state (field "ownerId" f),
  )

  create_server_dto-disk :
      (row_id : String → RowId) (f : Fields) (dto : CreateServer)
      → (create_server_dto row_id f w).0 ≡ ok dto
      → (as_int 512 (field "diskLimitMb" f) w).0 ≡ ok dto.disk_limit_mb
  unfolding create_server_dto
  create_server_dto-disk row_id f dto h = ground (
    arith,
    as_text-state (field "name" f),
    as_optional_text-state (field "description" f),
    as_text-state (field "templateId" f),
    as_int-state 10 (field "cpuLimitPct" f),
    as_int-state 256 (field "memoryLimitMb" f),
    as_int-state 512 (field "diskLimitMb" f),
    as_optional_object-state (field "environment" f),
    as_optional_text-state (field "ownerId" f),
  )

  -- A body that passes has the least limits.
  pub create_server_dto-ok :
      (row_id : String → RowId) (f : Fields) (dto : CreateServer)
      → (create_server_dto row_id f w).0 ≡ ok dto
      → (10 ≤ dto.cpu_limit_pct) × (256 ≤ dto.memory_limit_mb) × (512 ≤ dto.disk_limit_mb)
  create_server_dto-ok row_id f dto h = (
    as_int-ok 10 (field "cpuLimitPct" f) _ (create_server_dto-cpu row_id f dto h),
    as_int-ok 256 (field "memoryLimitMb" f) _ (create_server_dto-memory row_id f dto h),
    as_int-ok 512 (field "diskLimitMb" f) _ (create_server_dto-disk row_id f dto h),
  )
