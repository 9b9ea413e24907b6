-- ===== src/Downloads/Laws.antt =====
-- What is downloaded from.
use elysia_panel.Prelude.{
  String, true, ◌≡◌, subst, sym, ◌⊎◌, some, ◌∷◌, same, All, arith, Option-cases, Bool-cases, inl,
  inr, List, [], concat, any, same_iff,
}
use elysia_panel.Prelude.Slices.{ends_parts}
use elysia_panel.World.State.{World}
use elysia_panel.World.Action.{Action, Result, ⊤, Exception, ok, err, bad_request, ◌>>◌}
use elysia_panel.World.Keeps.{Keeps}
use elysia_panel.Downloads.{
  Web, Url, allowed_download_hosts, is_at, is_allowed, assert_safe_download_url, fetch,
  download_file,
}

-- The host itself, or a name below it.
abbrev pub IsAt : String → String → Type 0
IsAt host hostname = (hostname ≡ host) ⊎ ((s : String) × (hostname ≡ concat s (concat "." host)))

abbrev pub IsAtOneOf : String → List String → Type 0
IsAtOneOf hostname [] = ⊥
IsAtOneOf hostname (host ∷ hosts) = IsAt host hostname ⊎ IsAtOneOf hostname hosts

is_at-IsAt : (hostname host : String) → is_at hostname host ≡ true → IsAt host hostname
is_at-IsAt hostname host h = elim (Bool-cases (same hostname host)) [
  | inl itself ↦ inl ((same_iff hostname host).0 itself)
  | inr below ↦ inr (ends_parts (concat "." host) hostname (ground arith))
]

any-IsAtOneOf :
    (hostname : String) (hosts : List String)
    → any (is_at hostname) hosts ≡ true
    → IsAtOneOf hostname hosts
any-IsAtOneOf hostname [] h = absurd (cc)
any-IsAtOneOf hostname (host ∷ hosts) h = elim (Bool-cases (is_at hostname host)) [
  | inl here ↦ inl (is_at-IsAt hostname host here)
  | inr other ↦ inr (any-IsAtOneOf hostname hosts (ground arith))
]

module _ (web : Web) where
  -- An address over HTTPS at one of six hosts or at a name below one of them.
  abbrev pub IsSafeUrl : String → Type 0
  IsSafeUrl raw =
      (url : Url) × (web.parse_url raw ≡ some url)
      × (url.protocol ≡ "https:")
      × IsAtOneOf url.hostname (
          "cdn.modrinth.com" ∷ "github.com" ∷ "objects.githubusercontent.com" ∷ "edge.forgecdn.net"
          ∷ "mediafilez.forgecdn.net" ∷ "media.forgecdn.net" ∷ [])

  -- Every download started at such an address.
  abbrev pub IsSafeLog : World → Type 0
  IsSafeLog w = All IsSafeUrl w.fetched

  -- An action that downloads nothing.
  pub Keeps-log :
      {A : Type 0} (m : Action A) → ((w : World) → (m w).1.fetched ≡ w.fetched) → Keeps IsSafeLog m
  Keeps-log m h = record { keep = λ w safe. subst (All IsSafeUrl) (sym (h w)) safe }

  pub Keeps-fetch : (raw : String) → IsSafeUrl raw → Keeps IsSafeLog (fetch web raw)
  unfolding fetch
  Keeps-fetch raw ok_url = record {
    keep = λ w safe.
        let logged : (fetch web raw w).1.fetched ≡ raw ∷ w.fetched = ground arith in
        subst (All IsSafeUrl) (sym logged) (ok_url, safe);
  }

  -- The check passes only safe addresses, and writes nothing.
  pub assert_safe_cases :
      (raw : String) (w : World)
      → ((e : Exception) × (assert_safe_download_url web raw w ≡ (err e, w)))
        ⊎ (IsSafeUrl raw × (assert_safe_download_url web raw w ≡ (ok tt, w)))
  unfolding assert_safe_download_url
  assert_safe_cases raw w = elim (Option-cases (web.parse_url raw)) [
    | inl unreadable ↦ inl (bad_request "URL de téléchargement invalide", ground arith)
    | inr (url, e) ↦ elim (Bool-cases (same url.protocol "https:")) [
      | inr plain ↦ inl (bad_request "Seules les URLs HTTPS sont autorisées", ground arith)
      | inl https ↦ elim (Bool-cases (is_allowed url.hostname)) [
        | inr elsewhere ↦ inl (bad_request "Hôte de téléchargement non autorisé", ground arith)
        | inl allowed ↦ inr (
          (
            url,
            e,
            (same_iff url.protocol "https:").0 https,
            any-IsAtOneOf url.hostname allowed_download_hosts allowed,
          ),
          ground arith,
        )
      ]
    ]
  ]

  -- What follows the check may rely on it.
  pub Keeps-checked :
      {A : Type 0} (raw : String) (m : Action A)
      → (IsSafeUrl raw → Keeps IsSafeLog m)
      → Keeps IsSafeLog (assert_safe_download_url web raw >> m)
  Keeps-checked raw m k = record {
    keep = λ w safe. elim (assert_safe_cases raw w) [
      | inl (e, refused) ↦
          subst (λ (o : Result ⊤ × World). IsSafeLog (((λ _. o) >> m) w).1) (sym refused) safe
      | inr (fine, passed) ↦
          subst (λ (o : Result ⊤ × World). IsSafeLog (((λ _. o) >> m) w).1) (sym passed)
            ((k fine).keep w safe)
    ];
  }

  pub Keeps-download_file : (raw : String) → Keeps IsSafeLog (download_file web raw)
  unfolding download_file
  Keeps-download_file raw = Keeps-checked raw (fetch web raw) (Keeps-fetch raw)
