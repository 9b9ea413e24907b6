-- ===== src/Dashboard/Laws.antt =====
-- How many calls a request makes, who is signed out, and what the dashboard shows to whom.
use elysia_panel.Prelude.{
  ◌≡◌, ◌⊎◌, inl, inr, ◌↔◌, String, true, false, none, some, List, [], ◌∷◌, ◌==◌, includes, arith,
  Bool-cases, Option-cases,
}
use elysia_panel.World.State.{World}
use elysia_panel.World.Action.{ok}
use elysia_panel.Identity.{AuthenticatedUser}
use elysia_panel.Guards.{permissions_guard}
use elysia_panel.Dashboard.{
  Platform, Page, Init, has_permission, request, request_once, try_refresh, truthy, is_ok, call_of,
  refresh_call, Call, refresh_user,
}

-- The dashboard takes a user to hold a permission exactly if the backend lets the user through to
-- a handler that requires it.
pub has_permission_guard :
    (user : AuthenticatedUser) (p : String) (w : World)
    → (has_permission (some user) p ≡ true)
      ↔ (permissions_guard (p ∷ []) (some user) w ≡ (ok tt, w))
unfolding has_permission permissions_guard
has_permission_guard user p w = (
  (λ h. elim (Bool-cases (includes user.permissions "*")) [
    | inl star ↦ ground arith
    | inr plain ↦ ground arith
  ]),
  λ h. elim (Bool-cases (includes user.permissions "*")) [
    | inl star ↦ ground arith
    | inr plain ↦ ground arith
  ],
)

-- Without a refresh token nothing is tried.
try_refresh_untried :
    {J : Type 0} (platform : Platform J) (page : Page)
    → truthy page.refresh_token ≡ none
    → try_refresh platform page ≡ (false, page)
unfolding try_refresh
try_refresh_untried platform page e = ground arith

module _ {J : Type 0} (platform : Platform J) (token : String) (page : Page) where
  -- A refresh that is tried is one call, and gives a new access token if it succeeds.
  try_refresh_lem :
      truthy page.refresh_token ≡ some token
      → let (refreshed, page') = try_refresh platform page in
        (page'.calls ≡ refresh_call platform token ∷ page.calls)
        × ((refreshed ≡ false)
            ⊎ ((access : String) × (refreshed ≡ true) × (page'.access_token ≡ some access)))
  unfolding try_refresh
  try_refresh_lem e = elim (Option-cases (platform.fetch page.calls call)) [
    | inl rejected ↦ (ground arith, inl (ground arith))
    | inr (res, e1) ↦ elim (Bool-cases (is_ok res)) [
      | inr refused ↦ (ground arith, inl (ground arith))
      | inl fine ↦ elim (Option-cases (platform.parse res.text)) [
        | inl garbled ↦ (ground arith, inl (ground arith))
        | inr (j, e2) ↦ elim (Option-cases (platform.text_of "accessToken" j)) [
          | inl null ↦ (ground arith, inl (ground arith))
          | inr (access, e3) ↦ elim (Option-cases (platform.text_of "refreshToken" j)) [
            | inl null ↦ (ground arith, inl (ground arith))
            | inr (next, e4) ↦ (ground arith, inr (access, ground arith, ground arith))
          ]
        ]
      ]
    ]
  ]
    where
      call : Call
      call = refresh_call platform token

module _ {J : Type 0} (platform : Platform J) (path : String) (init : Init) (page : Page) where
  -- What follows the first call of a request: nothing, a refresh, or a refresh that gave a new
  -- access token and the call once more with it.
  abbrev pub IsRetried : List Call → Type 0
  IsRetried calls =
      (calls ≡ first)
      ⊎ ((token : String) × (truthy page.refresh_token ≡ some token)
          × ((calls ≡ refresh_call platform token ∷ first)
              ⊎ ((access : String) × (calls
                    ≡ call_of path init (record page { access_token = some access })
                      ∷ refresh_call platform token
                      ∷ first))))
    where
      first : List Call
      first = call_of path init page ∷ page.calls

  -- A request makes one call, or two of which the second is a refresh, or three: the call, the
  -- refresh, and the call again with a new access token. It does not go on after that.
  pub request_calls : IsRetried (request platform path init page).1.calls
  unfolding request request_once
  request_calls = elim (Option-cases (platform.fetch page.calls (call_of path init page))) [
    | inl rejected ↦ inl (ground arith)
    | inr (r, e) ↦ elim (Bool-cases (r.status == 401)) [
      | inr other ↦ inl (ground arith)
      | inl unauthorized ↦ elim (Option-cases (truthy page.refresh_token)) [
        | inl missing ↦ inl (ground (arith, try_refresh_untried platform asked missing))
        | inr (token, e') ↦
            let (one, rest) = try_refresh_lem platform token asked e' in
            elim rest [
              | inl failed ↦ inr (token, e', inl (ground (arith, one)))
              | inr (access, done, stored) ↦
                  inr (token, e', inr (access, ground (arith, one, done, stored)))
            ]
      ]
    ]
  ]
    where
      asked : Page
      asked = record page { calls = call_of path init page ∷ page.calls }

-- If there is no answer to the request for the user, `refreshUser` deletes both tokens: someone
-- who is offline for a moment is signed out.
pub refresh_user_offline :
    {J : Type 0} (platform : Platform J) (page : Page) (token : String)
    → truthy page.access_token ≡ some token
    → ((call : Call) → platform.fetch page.calls call ≡ none)
    → let page' = refresh_user platform page in
      (page'.access_token ≡ none) × (page'.refresh_token ≡ none) × (page'.user ≡ none)
unfolding refresh_user request
refresh_user_offline platform page token signed offline = ground (
  arith,
  offline (call_of "/auth/me" (record { method = "GET"; body = none; is_form = false }) page),
)
