-- ===== src/World/Action.antt =====
-- A service call: the shared state and exceptions. What was written before a throw stays written,
-- except inside a transaction.
use elysia_panel.Prelude.{
  ◌≡◌, refl, ◌⊎◌, inl, inr, ℕ, suc, String, Bool, Option, none, some, List, [], ◌∷◌, ◌++◌, find,
  select, any, update_rows, delete_rows, if◌then◌else◌,
}
use elysia_panel.World.Schema.{RowId, Severity, MetaValue, AuditLog}
use elysia_panel.World.State.{World, Table}

-- The exceptions of NestJS with their message, and the errors of the database and of the daemons.
pub data Exception : Type 0 where
  bad_request forbidden not_found unauthorized conflict rpc_error internal : String → Exception
  record_missing unique_violation foreign_key_violation : Exception
  invalid_cron : Exception

pub data Result (A : Type 0) : Type 0 where
  ok : A → Result A
  err : Exception → Result A

abbrev pub Action : Type 0 → Type 0
Action A = World → Result A × World

abbrev pub ⊤ : Type 0
⊤ = Unit

infixl 5 ◌>>=◌ ◌>>◌
abbrev pub ◌>>=◌ : {A B : Type 0} → Action A → (A → Action B) → Action B
◌>>=◌ m f w = let (r, w') = m w in elim r [ ok a ↦ f a w' | err e ↦ (err e, w') ]

abbrev pub ◌>>◌ : {A B : Type 0} → Action A → Action B → Action B
m >> k = m >>= λ _. k

abbrev pub pure : {A : Type 0} → A → Action A
pure a w = (ok a, w)

abbrev pub throw : {A : Type 0} → Exception → Action A
throw e w = (err e, w)

abbrev pub throw_if : Bool → Exception → Action ⊤
throw_if c e w = (if c then err e else ok tt, w)

abbrev pub or_throw : {A : Type 0} → Option A → Exception → Action A
or_throw none e w = (err e, w)
or_throw (some a) e w = (ok a, w)

abbrev pub gets : {A : Type 0} → (World → A) → Action A
gets f w = (ok (f w), w)

abbrev pub modify : (World → World) → Action ⊤
modify f w = (ok tt, f w)

-- `try { m } catch (e) { handler(e) }`
abbrev pub catch : {A : Type 0} → Action A → (Exception → Action A) → Action A
catch m h w = let (r, w') = m w in elim r [ ok a ↦ (ok a, w') | err e ↦ h e w' ]

-- `prisma.$transaction`: all that it wrote is undone if it throws.
abbrev pub transaction : {A : Type 0} → Action A → Action A
transaction m w = let (r, w') = m w in elim r [ ok a ↦ (ok a, w') | err e ↦ (err e, w) ]

module _ {A : Type 0} (t : Table A) where
  -- `findUnique`, `findFirst`
  abbrev pub find_unique : (A → Bool) → Action (Option A)
  find_unique p w = (ok (find p (t.rows w)), w)

  -- `findUniqueOrThrow`
  abbrev pub find_or_throw : (A → Bool) → Action A
  find_or_throw p w = or_throw (find p (t.rows w)) record_missing w

  -- `findMany`
  abbrev pub find_many : (A → Bool) → Action (List A)
  find_many p w = (ok (select p (t.rows w)), w)

  -- `create`, after the unique constraint, which the caller states as the rows that it conflicts with.
  abbrev pub create_row : (A → Bool) → A → Action A
  create_row conflicts x w =
      if any conflicts (t.rows w)
      then (err unique_violation, w)
      else (ok x, t.write (t.rows w ++ x ∷ []) w)

  -- `update`, which throws if no row fits and returns the row as written.
  abbrev pub update_row : (A → Bool) → (A → A) → Action A
  update_row p f w = elim (find p (t.rows w)) [
    | none ↦ (err record_missing, w)
    | some x ↦ (ok (f x), t.write (update_rows p f (t.rows w)) w)
  ]

  -- `upsert` on a unique key: the row under the key is updated, or one is created.
  abbrev pub upsert_row : (A → Bool) → (A → A) → Action A → Action A
  upsert_row p f create w = elim (find p (t.rows w)) [
    | none ↦ create w
    | some x ↦ (ok (f x), t.write (update_rows p f (t.rows w)) w)
  ]

  -- `updateMany`
  abbrev pub update_many : (A → Bool) → (A → A) → Action ⊤
  update_many p f w = (ok tt, t.write (update_rows p f (t.rows w)) w)

  -- `delete`, which throws if no row fits.
  abbrev pub delete_row : (A → Bool) → Action A
  delete_row p w = elim (find p (t.rows w)) [
    | none ↦ (err record_missing, w)
    | some x ↦ (ok x, t.write (delete_rows p (t.rows w)) w)
  ]

  -- `deleteMany`
  abbrev pub delete_many : (A → Bool) → Action ⊤
  delete_many p w = (ok tt, t.write (delete_rows p (t.rows w)) w)

-- `for (const x of xs) await f(x)`
unfoldable pub for_each : {A : Type 0} → (A → Action ⊤) → List A → Action ⊤
for_each f [] = pure tt
for_each f (x ∷ xs) = f x >> for_each f xs

-- The next random draw.
abbrev pub draw : {A : Type 0} → (ℕ → A) → Action A
draw f w = (ok (f w.drawn), record w { drawn = suc w.drawn })

-- What a caller passes to the audit service.
pub record AuditEntry : Type 0 where
  pub actor_id : Option RowId
  pub action : String
  pub target_type : Option String
  pub target_id : Option RowId
  pub severity : Option Severity
  pub metadata : List (String × MetaValue)
  pub ip : Option String

-- `entry.severity ?? 'INFO'`
abbrev pub severity_or_info : Option Severity → Severity
severity_or_info none = Severity.info
severity_or_info (some s) = s

-- The row of an entry.
abbrev pub audit_row : AuditEntry → AuditLog
audit_row e = record {
  actor_id = e.actor_id;
  action = e.action;
  target_type = e.target_type;
  target_id = e.target_id;
  severity = severity_or_info e.severity;
  metadata = e.metadata;
  ip = e.ip;
}

-- `AuditService.log`
abbrev pub log : AuditEntry → Action ⊤
log e w = (ok tt, record w { audit_logs = w.audit_logs ++ audit_row e ∷ [] })

-- The usual entry: an actor, an action and its target.
abbrev pub entry : RowId → String → String → RowId → AuditEntry
entry actor action kind target = record {
  actor_id = some actor;
  action = action;
  target_type = some kind;
  target_id = some target;
  severity = none;
  metadata = [];
  ip = none;
}

-- To split on how a call ended and keep the equation.
pub Result-cases :
    {A : Type 0} (r : Result A) → ((a : A) × (r ≡ ok a)) ⊎ ((e : Exception) × (r ≡ err e))
Result-cases (ok a) = inl (a, refl)
Result-cases (err e) = inr (e, refl)
