-- ===== src/Downloads.antt =====
-- Downloads: `assertSafeDownloadUrl` (backend/src/common/url-safety.ts) and `downloadFile` of
-- ModrinthService and CurseforgeService (backend/src/mods/). The catalogs, the archives and the
-- parser of addresses are other people's: the record `Web`.
pub mod Laws
use elysia_panel.Prelude.{
  ℕ, String, Bool, true, false, Option, none, some, List, [], ◌∷◌, ◌||◌, not, same, any, concat,
  if◌then◌else◌,
}
use elysia_panel.Prelude.Slices.{ends}
use elysia_panel.World.State.{World}
use elysia_panel.World.Action.{
  Action, ⊤, bad_request, internal, ◌>>=◌, ◌>>◌, pure, modify, throw, throw_if, or_throw, draw,
}

-- The parts of a `URL` that the code reads.
pub record Url : Type 0 where
  pub protocol : String
  pub hostname : String
  pub pathname : String

-- A file of a version at Modrinth.
pub record ModrinthFile : Type 0 where
  pub url : String
  pub filename : String
  pub primary : Bool

pub record ModrinthVersion : Type 0 where
  pub id : String
  pub name : String
  pub files : List ModrinthFile

pub record CurseForgeFile : Type 0 where
  pub file_name : String
  pub download_url : String

-- An entry of modrinth-index.json; `unsupported` is `env?.server === 'unsupported'`.
pub record IndexFile : Type 0 where
  pub path : String
  pub downloads : List String
  pub unsupported : Bool

pub record ManifestFile : Type 0 where
  pub project_id : ℕ
  pub file_id : ℕ

pub record CurseforgeManifest : Type 0 where
  pub files : List ManifestFile
  pub overrides : String

pub record ZipEntry : Type 0 where
  pub entry_name : String
  pub is_directory : Bool
  pub content : String

-- What lies outside: addresses, answers over HTTP (by the number drawn so far), archives, JSON, and
-- the replacement of what a regular expression made from a text finds at the start.
pub record Web : Type 0 where
  pub parse_url : String → Option Url
  pub http_get : String → ℕ → Option String
  pub modrinth_version : String → ℕ → Option ModrinthVersion
  pub curseforge_file : ℕ → ℕ → ℕ → Option CurseForgeFile
  pub unzip : String → Option (List ZipEntry)
  pub parse_index : String → Option (List IndexFile)
  pub parse_manifest : String → Option CurseforgeManifest
  pub replace_start : String → String → String

-- `ALLOWED_DOWNLOAD_HOSTS`
abbrev pub allowed_download_hosts : List String
allowed_download_hosts =
    "cdn.modrinth.com" ∷ "github.com" ∷ "objects.githubusercontent.com" ∷ "edge.forgecdn.net"
    ∷ "mediafilez.forgecdn.net" ∷ "media.forgecdn.net" ∷ []

-- `url.hostname === host || url.hostname.endsWith(`.${host}`)`
abbrev pub is_at : String → String → Bool
is_at hostname host = same hostname host || ends (same (concat "." host)) hostname

abbrev pub is_allowed : String → Bool
is_allowed hostname = any (is_at hostname) allowed_download_hosts

module _ (web : Web) where
  -- `assertSafeDownloadUrl`
  unfoldable pub assert_safe_download_url : String → Action ⊤
  assert_safe_download_url raw_url = elim (web.parse_url raw_url) [
    | none ↦ throw (bad_request "URL de téléchargement invalide")
    | some url ↦
        throw_if (not (same url.protocol "https:"))
          (bad_request "Seules les URLs HTTPS sont autorisées")
        >> throw_if (not (is_allowed url.hostname))
            (bad_request "Hôte de téléchargement non autorisé")
  ]

  -- `axios.get(url, …)` of `downloadFile`: the request leaves, and its answer may be an error. The
  -- address is kept in `fetched`. A redirect that the client follows is part of the answer, and the
  -- requests to the catalogs (`getVersion`, `getFile`), at fixed hosts, are not kept.
  unfoldable pub fetch : String → Action String
  fetch url = do
    modify λ w. record w { fetched = url ∷ w.fetched }
    answer ← draw (web.http_get url)
    or_throw answer (internal "request")

  -- `downloadFile`
  unfoldable pub download_file : String → Action String
  download_file url = do assert_safe_download_url url; fetch url
