-- ===== src/Auth/Tokens.antt =====
-- Sessions of AuthService (backend/src/auth/auth.service.ts): `issueTokenPair`, `refresh`,
-- `logout` and `parseTtlToMs`.
pub mod Laws
use mathlib.Core.Option
use elysia_panel.Prelude.{
  ℕ, zero, suc, ◌+◌, ◌-◌, ◌*◌, String, Bool, true, false, Option, none, some, List, [], ◌∷◌, ◌||◌,
  ◌==◌, same, ltb, if◌then◌else◌,
}
use elysia_panel.Prelude.Decimal.{codes, is_digit}
use elysia_panel.World.Schema.{RowId, RefreshToken}
use elysia_panel.World.State.{World, Env, tokens_t}
use elysia_panel.World.Action.{
  Action, ⊤, unauthorized, ◌>>=◌, ◌>>◌, pure, gets, throw_if, or_throw, find_unique, create_row,
  update_row, update_many, draw,
}

pub record TokenPair : Type 0 where
  pub access_token : String
  pub refresh_token : String

-- `{ s: 1000, m: 60_000, h: 3_600_000, d: 86_400_000 }[unit]`
abbrev pub unit_ms : ℕ → Option ℕ
unit_ms c =
    if c == b's'
    then some 1_000
    else if c == b'm'
    then some 60_000
    else if c == b'h'
    then some 3_600_000
    else if c == b'd'
    then some 86_400_000
    else none

-- The match of /^(\d+)([smhd])$/, with the value of the digits read and whether there were any.
abbrev pub ttl_from : ℕ → Bool → List ℕ → Option ℕ
ttl_from value seen [] = none
ttl_from value seen (c ∷ []) = if seen then Option.map (λ ms. value * ms) (unit_ms c) else none
ttl_from value seen (c ∷ d ∷ rest) =
    let more = ttl_from (value * 10 + (c - b'0')) true (d ∷ rest) in
    if is_digit c then more else none

abbrev pub thirty_days : ℕ
thirty_days = 30 * 24 * 60 * 60 * 1000

-- `parseTtlToMs`, on the characters of the setting.
unfoldable pub parse_ttl_to_ms : List ℕ → ℕ
parse_ttl_to_ms ttl = elim (ttl_from 0 false ttl) [ none ↦ thirty_days | some ms ↦ ms ]

module _ (env : Env) where
  -- `this.config.get('jwt.refreshTtl') ?? '30d'`
  abbrev pub refresh_ttl_ms : ℕ
  refresh_ttl_ms = parse_ttl_to_ms (codes (elim env.refresh_ttl [ none ↦ "30d" | some ttl ↦ ttl ]))

  -- `issueTokenPair`
  unfoldable pub issue_token_pair : RowId → Option String → Option String → Action TokenPair
  issue_token_pair user_id ip user_agent = do
    now ← gets (λ w. w.now)
    refresh_plain ← draw (env.random_hex 48)
    id ← draw env.uuid
    create_row tokens_t (λ t. same t.token_hash (env.sha256 refresh_plain))
        (record {
          id = id;
          user_id = user_id;
          token_hash = env.sha256 refresh_plain;
          user_agent = user_agent;
          ip = ip;
          revoked = false;
          expires_at = now + refresh_ttl_ms;
        })
    pure (record { access_token = env.jwt_sign user_id none now; refresh_token = refresh_plain })

  -- `refresh`: the old token is revoked and a new pair issued.
  unfoldable pub refresh : String → Option String → Action TokenPair
  refresh plain ip = do
    found ← find_unique tokens_t (λ t. same t.token_hash (env.sha256 plain))
    stored ← or_throw found (unauthorized "Refresh token invalide ou expiré")
    now ← gets (λ w. w.now)
    throw_if (stored.revoked || ltb stored.expires_at now)
        (unauthorized "Refresh token invalide ou expiré")
    update_row tokens_t (λ t. t.id == stored.id) (λ t. record t { revoked = true })
    issue_token_pair stored.user_id ip none

  -- `logout`
  unfoldable pub logout : String → Action ⊤
  logout plain =
      update_many tokens_t (λ t. same t.token_hash (env.sha256 plain))
        (λ t. record t { revoked = true })
