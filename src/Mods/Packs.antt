-- ===== src/Mods/Packs.antt =====
-- Modpacks of ModsService (backend/src/mods/mods.service.ts): an archive with an index of files to
-- download, and a folder of overrides that is copied as it is.
pub mod Laws
use elysia_panel.Prelude.{
  ℕ, ◌+◌, String, Bool, true, false, Option, none, some, List, [], ◌∷◌, ◌&&◌, ◌||◌, not, same,
  is_blank, concat, find, if◌then◌else◌,
}
use elysia_panel.Prelude.Slices.{starts, drop_prefix}
use elysia_panel.World.Schema.{RowId, MetaValue}
use elysia_panel.World.State.{World, Env}
use elysia_panel.World.Action.{
  Action, ⊤, bad_request, internal, ◌>>=◌, ◌>>◌, pure, or_throw, catch, log, entry,
}
use elysia_panel.Identity.{AuthenticatedUser}
use elysia_panel.Servers.Access.{ServerView, find_accessible_or_throw}
use elysia_panel.Downloads.{
  Web, IndexFile, ManifestFile, CurseforgeManifest, ZipEntry, download_file,
}
use elysia_panel.Mods.{curseforge_file, write_to_server, in_dir}

-- `zip.getEntry(name)`
abbrev pub entry_of : String → List ZipEntry → Option ZipEntry
entry_of name entries = find (λ e. same e.entry_name name) entries

-- `file.downloads[0]`, unless it is missing or empty, or the file is not for servers.
abbrev pub first_download : IndexFile → Option String
first_download f = elim f.downloads [
  | [] ↦ none
  | url ∷ rest ↦ if f.unsupported || same url "" then none else some url
]

-- `manifest.overrides || 'overrides'`
abbrev pub overrides_dir : String → String
overrides_dir dir = if same dir "" then "overrides" else dir

-- The count goes up for a file that was written.
abbrev pub counted : Bool → ℕ → ℕ
counted true n = n + 1
counted false n = n

module _ (env : Env) (web : Web) (server : ServerView) where
  -- One round of the loop over the files of an index: whether the file was written.
  unfoldable pub install_download : String → Option String → Action Bool
  install_download path none = pure false
  install_download path (some url) = do
    content ← download_file web url
    write_to_server env server path content
    pure true

  unfoldable pub install_index_file : IndexFile → Action Bool
  install_index_file file = install_download file.path (first_download file)

  unfoldable pub install_index_files : List IndexFile → Action ℕ
  install_index_files [] = pure 0
  install_index_files (f ∷ fs) = do
    written ← install_index_file f
    n ← install_index_files fs
    pure (counted written n)

  -- The body of `try` for a file of a manifest.
  unfoldable pub install_manifest_file : ManifestFile → Action Bool
  install_manifest_file file = do
    found ← curseforge_file env web file.project_id file.file_id
    content ← download_file web found.download_url
    write_to_server env server (in_dir "mods" found.file_name) content
    pure true

  -- A file that fails is skipped.
  unfoldable pub install_manifest_files : List ManifestFile → Action ℕ
  install_manifest_files [] = pure 0
  install_manifest_files (f ∷ fs) = do
    written ← catch (install_manifest_file f) (λ e. pure false)
    n ← install_manifest_files fs
    pure (counted written n)

  -- The loop over the overrides; `relative` gives the path of an entry on the server.
  unfoldable pub copy_overrides : String → (String → String) → List ZipEntry → Action ⊤
  copy_overrides prefix relative [] = pure tt
  copy_overrides prefix relative (e ∷ es) =
      (if starts prefix e.entry_name && not e.is_directory
        then write_to_server env server (relative e.entry_name) e.content
        else pure tt)
      >> copy_overrides prefix relative es

module _ (env : Env) (web : Web) where
  -- The entries of an .mrpack archive and the files of its index.
  unfoldable pub read_mrpack : String → Action (List ZipEntry × List IndexFile)
  read_mrpack archive = do
    entries ← or_throw (web.unzip archive) (internal "zip")
    index_entry ←
        or_throw (entry_of "modrinth-index.json" entries)
          (bad_request "Fichier .mrpack invalide : modrinth-index.json manquant")
    files ← or_throw (web.parse_index index_entry.content) (internal "JSON")
    pure (entries, files)

  -- The entries of a CurseForge archive and its manifest.
  unfoldable pub read_manifest : String → Action (List ZipEntry × CurseforgeManifest)
  read_manifest archive = do
    entries ← or_throw (web.unzip archive) (internal "zip")
    manifest_entry ←
        or_throw (entry_of "manifest.json" entries)
          (bad_request "Archive invalide : manifest.json manquant")
    manifest ← or_throw (web.parse_manifest manifest_entry.content) (internal "JSON")
    pure (entries, manifest)

  -- The end of both: the audit entry and the count.
  unfoldable pub finish_pack : RowId → RowId → String → ℕ → Action ℕ
  finish_pack user_id server_id source installed = do
    log (record (entry user_id "modpack.install" "Server" server_id) {
      metadata =
          ("source", MetaValue.text source) ∷ ("filesInstalled", MetaValue.number installed) ∷ [];
    })
    pure installed

  -- `installModrinthModpack`
  unfoldable pub install_modrinth_modpack : RowId → String → AuthenticatedUser → Action ℕ
  install_modrinth_modpack server_id mrpack_url user = do
    server ← find_accessible_or_throw server_id user
    archive ← download_file web mrpack_url
    pack ← read_mrpack archive
    installed ← install_index_files env web server pack.1
    copy_overrides env web server "overrides/" (drop_prefix "overrides/") pack.0
    finish_pack user.id server_id "MODRINTH_PACK" installed

  -- `installCurseforgeModpack`
  unfoldable pub install_curseforge_modpack : RowId → String → AuthenticatedUser → Action ℕ
  install_curseforge_modpack server_id archive user = do
    server ← find_accessible_or_throw server_id user
    pack ← read_manifest archive
    installed ← install_manifest_files env web server pack.1.files
    copy_overrides env web server (concat (overrides_dir pack.1.overrides) "/")
        (web.replace_start (overrides_dir pack.1.overrides)) pack.0
    finish_pack user.id server_id "CURSEFORGE_PACK" installed
