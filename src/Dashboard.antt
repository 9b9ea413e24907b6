-- ===== src/Dashboard.antt =====
-- The client of the API in the dashboard (dashboard/src/lib/api-client.ts) and the session that
-- AuthProvider keeps with it (dashboard/src/lib/auth-context.tsx).
pub mod Laws
use elysia_panel.Prelude.{
  ℕ, String, Bool, true, false, Option, none, some, List, [], ◌∷◌, ◌&&◌, ◌||◌, not, ◌==◌, same,
  includes, leb, ltb, if◌then◌else◌, concat,
}
use elysia_panel.Identity.{AuthenticatedUser}

-- A call of `fetch`: what is sent, without the address that is the same for all.
pub record Call : Type 0 where
  pub method : String
  pub path : String
  pub body : Option String
  pub content_type : Option String
  pub authorization : Option String

pub record Response : Type 0 where
  pub status : ℕ
  pub text : String

-- The browser and the JSON values: `fetch` is given the calls before it, and is rejected (`none`)
-- if there is no answer. A field is read as a text, which null does not have, and as a condition.
pub record Platform (J : Type 0) : Type 0 where
  pub fetch : List Call → Call → Option Response
  pub parse : String → Option J
  pub text_of : String → J → Option String
  pub is_set : String → J → Bool
  pub as_user : J → Option AuthenticatedUser
  pub stringify : List (String × Option String) → String

-- The local storage and the state of `AuthProvider`, with the calls that were made, last first.
pub record Page : Type 0 where
  pub access_token : Option String
  pub refresh_token : Option String
  pub user : Option AuthenticatedUser
  pub loading : Bool
  pub address : String
  pub calls : List Call

-- What a request throws: `ApiError`, the rejection of `fetch` or the SyntaxError of `JSON.parse`,
-- and the TypeError of a field of undefined or null.
pub data Thrown (J : Type 0) : Type 0 where
  api_error : ℕ → Option J → Thrown J
  network_error syntax_error type_error : Thrown J

pub data Outcome (J A : Type 0) : Type 0 where
  returned : A → Outcome J A
  thrown : Thrown J → Outcome J A

-- `init`: a method with a body, which may be form data.
pub record Init : Type 0 where
  pub method : String
  pub body : Option String
  pub is_form : Bool

-- A token that is not the empty text.
abbrev pub truthy : Option String → Option String
truthy none = none
truthy (some s) = if same s "" then none else some s

abbrev pub bearer : Option String → Option String
bearer none = none
bearer (some token) = some (concat "Bearer " token)

abbrev pub json_type : Init → Option String
json_type init = elim (truthy init.body) [
  | none ↦ none
  | some body ↦ if init.is_form then none else some "application/json"
]

-- The call that `request` makes with the tokens of the page.
abbrev pub call_of : String → Init → Page → Call
call_of path init page = record {
  method = init.method;
  path = path;
  body = init.body;
  content_type = json_type init;
  authorization = bearer (truthy page.access_token);
}

-- `setTokens`
abbrev pub set_tokens : String → String → Page → Page
set_tokens access refresh page = record page {
  access_token = some access;
  refresh_token = some refresh;
}

-- `clearTokens`
abbrev pub clear_tokens : Page → Page
clear_tokens page = record page { access_token = none; refresh_token = none }

-- `res.ok`
abbrev pub is_ok : Response → Bool
is_ok res = leb 200 res.status && ltb res.status 300

-- `!!user && (user.permissions.includes("*") || user.permissions.includes(perm))`
unfoldable pub has_permission : Option AuthenticatedUser → String → Bool
has_permission none perm = false
has_permission (some user) perm = includes user.permissions "*" || includes user.permissions perm

-- `isAdmin`
abbrev pub is_admin : Option AuthenticatedUser → Bool
is_admin none = false
is_admin (some user) = includes user.permissions "*"

module _ {J : Type 0} (platform : Platform J) where
  abbrev pub fetched : Call → Page → Option Response × Page
  fetched call page = (platform.fetch page.calls call, record page { calls = call ∷ page.calls })

  -- What `request` makes of the response that it is left with.
  unfoldable pub read_response : Response → Outcome J (Option J)
  read_response res =
      if not (is_ok res)
      then thrown (api_error res.status (platform.parse res.text))
      else if res.status == 204 || same res.text ""
      then returned none
      else elim (platform.parse res.text) [
        | none ↦ thrown syntax_error
        | some j ↦ returned (some j)
      ]

  abbrev pub refresh_call : String → Call
  refresh_call token = record {
    method = "POST";
    path = "/auth/refresh";
    body = some (platform.stringify (("refreshToken", some token) ∷ []));
    content_type = some "application/json";
    authorization = none;
  }

  -- `setTokens(data.accessToken, data.refreshToken)`
  abbrev pub stored : J → Page → Option Page
  stored j page = elim (platform.text_of "accessToken" j) [
    | none ↦ none
    | some access ↦ elim (platform.text_of "refreshToken" j) [
      | none ↦ none
      | some token ↦ some (set_tokens access token page)
    ]
  ]

  -- `tryRefresh` from the response on.
  abbrev pub refreshed_with : Option Response → Page → Bool × Page
  refreshed_with none page = (false, page)
  refreshed_with (some res) page =
      if not (is_ok res) then (false, page) else elim (platform.parse res.text) [
        | none ↦ (false, page)
        | some j ↦ elim (stored j page) [ none ↦ (false, page) | some page' ↦ (true, page') ]
      ]

  -- `tryRefresh`
  unfoldable pub try_refresh : Page → Bool × Page
  try_refresh page = elim (truthy page.refresh_token) [
    | none ↦ (false, page)
    | some token ↦ let (res, page') = fetched (refresh_call token) page in refreshed_with res page'
  ]

  -- `request` with `retry` false.
  unfoldable pub request_once : String → Init → Page → Outcome J (Option J) × Page
  request_once path init page =
      let (res, page') = fetched (call_of path init page) page in
      elim res [ none ↦ (thrown network_error, page') | some r ↦ (read_response r, page') ]

  -- `request`
  unfoldable pub request : String → Init → Page → Outcome J (Option J) × Page
  request path init page =
      let (res, page') = fetched (call_of path init page) page in
      elim res [
        | none ↦ (thrown network_error, page')
        | some r ↦
            let (refreshed, page'') = try_refresh page' in
            if not (r.status == 401)
            then (read_response r, page')
            else if refreshed
            then request_once path init page''
            else (read_response r, page'')
      ]

  abbrev pub get : String → Page → Outcome J (Option J) × Page
  get path = request path (record { method = "GET"; body = none; is_form = false })

  abbrev pub post : String → List (String × Option String) → Page → Outcome J (Option J) × Page
  post path fields =
      request path
        (record { method = "POST"; body = some (platform.stringify fields); is_form = false })

  -- `refreshUser`; an answer without a body leaves no user.
  unfoldable pub refresh_user : Page → Page
  refresh_user page = elim (truthy page.access_token) [
    | none ↦ record page { user = none; loading = false }
    | some token ↦
        let (outcome, page') = get "/auth/me" page in
        elim outcome [
          | thrown e ↦ record (clear_tokens page') { user = none; loading = false }
          | returned none ↦ record page' { user = none; loading = false }
          | returned (some j) ↦ record page' { user = platform.as_user j; loading = false }
        ]
  ]

  -- `login` and `register` from their response on.
  abbrev signed_in : Option J → Page → Outcome J Bool × Page
  signed_in none page = (thrown type_error, page)
  signed_in (some j) page = elim (stored j page) [
    | none ↦ (thrown type_error, page)
    | some page' ↦ (returned false, refresh_user page')
  ]

  -- `login`: whether a second factor is asked for.
  unfoldable pub login : String → String → Option String → Page → Outcome J Bool × Page
  login email password totp_code page =
      let (outcome, page') =
        post "/auth/login"
          (("email", some email) ∷ ("password", some password) ∷ ("totpCode", totp_code) ∷ [])
          page in
      elim outcome [
        | thrown e ↦ (thrown e, page')
        | returned none ↦ (thrown type_error, page')
        | returned (some j) ↦
            let (signed, page'') = signed_in (some j) page' in
            if platform.is_set "requiresTwoFactor" j
            then (returned true, page')
            else (signed, page'')
      ]

  -- `register`
  unfoldable pub register : String → String → String → Page → Outcome J Bool × Page
  register email username password page =
      let (outcome, page') =
        post "/auth/register"
          (("email", some email) ∷ ("username", some username) ∷ ("password", some password) ∷ [])
          page in
      elim outcome [ thrown e ↦ (thrown e, page') | returned j ↦ signed_in j page' ]

  -- `logout`
  unfoldable pub logout : Page → Page
  logout page = record (clear_tokens page) { user = none; address = "/login" }
