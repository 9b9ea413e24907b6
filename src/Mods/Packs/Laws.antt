-- ===== src/Mods/Packs/Laws.antt =====
-- Modpacks download only from safe addresses, and a file that fails does not stop a manifest.
use elysia_panel.Prelude.{
  ℕ, ◌≤◌, String, Bool, true, false, ◌≡◌, refl, Option, none, some, List, [], ◌∷◌, ◌&&◌, not,
  length, concat, suc, arith, inl, inr,
}
use elysia_panel.Prelude.Slices.{starts, drop_prefix}
use elysia_panel.World.Schema.{RowId}
use elysia_panel.World.State.{World, Env}
use elysia_panel.World.Action.{⊤, ok, pure, Result-cases}
use elysia_panel.World.Keeps.{Keeps-then, Keeps-catch, Keeps-if}
use elysia_panel.Identity.{AuthenticatedUser}
use elysia_panel.Servers.Access.{ServerView}
use elysia_panel.Downloads.{
  Web, IndexFile, ManifestFile, CurseforgeManifest, CurseForgeFile, ZipEntry,
}
use elysia_panel.Downloads.Laws.{IsSafeLog, Keeps-log, Keeps-download_file}
use elysia_panel.Mods.{write_to_server, in_dir}
use elysia_panel.Mods.Laws.{Safe, access, writes, curseforge_files}
use elysia_panel.Mods.Packs.{
  first_download, counted, overrides_dir, install_download, install_index_file, read_mrpack,
  read_manifest, finish_pack, install_index_files, install_manifest_file, install_manifest_files,
  copy_overrides, install_modrinth_modpack, install_curseforge_modpack,
}

counted_le : (b : Bool) (n m : ℕ) → n ≤ m → counted b n ≤ suc m
counted_le true n m h = omega arith
counted_le false n m h = omega arith

module _ (env : Env) (web : Web) where
  pures : {A : Type 0} (a : A) → Safe env web (pure a)
  pures a = record { keep = λ w p. p }

  download :
      (server : ServerView) (path : String) (url : Option String)
      → Safe env web (install_download env web server path url)
  unfolding install_download
  download server path none = pures false
  download server path (some url) =
      Keeps-then _ _ _ (Keeps-download_file web url) λ (content : String).
        Keeps-then _ _ _ (writes env web server path content) λ (_ : ⊤). pures true

  index_files :
      (server : ServerView) (fs : List IndexFile)
      → Safe env web (install_index_files env web server fs)
  unfolding install_index_files install_index_file
  index_files server [] = pures 0
  index_files server (f ∷ fs) =
      Keeps-then _ _ _ (download server f.path (first_download f)) λ (written : Bool).
        Keeps-then _ _ _ (index_files server fs) λ (n : ℕ). pures (counted written n)

  manifest_file :
      (server : ServerView) (f : ManifestFile)
      → Safe env web (install_manifest_file env web server f)
  unfolding install_manifest_file
  manifest_file server f =
      Keeps-then _ _ _ (curseforge_files env web f.project_id f.file_id) λ (found : CurseForgeFile).
        Keeps-then _ _ _ (Keeps-download_file web found.download_url) λ (content : String).
          Keeps-then _ _ _ (writes env web server (in_dir "mods" found.file_name) content)
            λ (_ : ⊤). pures true

  manifest_files :
      (server : ServerView) (fs : List ManifestFile)
      → Safe env web (install_manifest_files env web server fs)
  unfolding install_manifest_files
  manifest_files server [] = pures 0
  manifest_files server (f ∷ fs) =
      Keeps-then _ _ _
        (Keeps-catch _ (install_manifest_file env web server f) (λ e. pure false)
          (manifest_file server f) (λ e. pures false))
        λ (written : Bool).
          Keeps-then _ _ _ (manifest_files server fs) λ (n : ℕ). pures (counted written n)

  overrides :
      (server : ServerView) (prefix : String) (relative : String → String) (es : List ZipEntry)
      → Safe env web (copy_overrides env web server prefix relative es)
  unfolding copy_overrides
  overrides server prefix relative [] = pures tt
  overrides server prefix relative (e ∷ es) =
      Keeps-then _ _ _
        (Keeps-if _ (starts prefix e.entry_name && not e.is_directory)
          (write_to_server env server (relative e.entry_name) e.content) (pure tt)
          (writes env web server (relative e.entry_name) e.content) (pures tt))
        λ (_ : ⊤). overrides server prefix relative es

  mrpacks : (archive : String) → Safe env web (read_mrpack env web archive)
  unfolding read_mrpack
  mrpacks archive = Keeps-log web (read_mrpack env web archive) (λ w. ground arith)

  manifests : (archive : String) → Safe env web (read_manifest env web archive)
  unfolding read_manifest
  manifests archive = Keeps-log web (read_manifest env web archive) (λ w. ground arith)

  finishes :
      (user_id id : RowId) (source : String) (n : ℕ)
      → Safe env web (finish_pack env web user_id id source n)
  unfolding finish_pack
  finishes user_id id source n = Keeps-log web (finish_pack env web user_id id source n) (λ w. refl)

  -- Installing a modpack, whichever its format and whatever it contains, downloads only from safe
  -- addresses.
  pub packs-IsSafeLog :
      (id : RowId) (user : AuthenticatedUser)
      → ((url : String) → Safe env web (install_modrinth_modpack env web id url user))
        × ((archive : String) → Safe env web (install_curseforge_modpack env web id archive user))
  unfolding install_modrinth_modpack install_curseforge_modpack
  packs-IsSafeLog id user = (
    (λ url. Keeps-then _ _ _ (access env web id user) λ (server : ServerView).
        Keeps-then _ _ _ (Keeps-download_file web url) λ (archive : String).
          Keeps-then _ _ _ (mrpacks archive) λ (pack : List ZipEntry × List IndexFile).
            Keeps-then _ _ _ (index_files server pack.1) λ (n : ℕ).
              Keeps-then _ _ _ (overrides server "overrides/" (drop_prefix "overrides/") pack.0)
                λ (_ : ⊤). finishes user.id id "MODRINTH_PACK" n),
    λ archive. Keeps-then _ _ _ (access env web id user) λ (server : ServerView).
        Keeps-then _ _ _ (manifests archive) λ (pack : List ZipEntry × CurseforgeManifest).
          Keeps-then _ _ _ (manifest_files server pack.1.files) λ (n : ℕ).
            Keeps-then _ _ _
              (overrides server (concat (overrides_dir pack.1.overrides) "/")
                (web.replace_start (overrides_dir pack.1.overrides)) pack.0)
              λ (_ : ⊤). finishes user.id id "CURSEFORGE_PACK" n,
  )

  -- The loop over a manifest always comes to its end, whatever is missing or refused, and counts at
  -- most one installed mod for each file.
  pub install_manifest_files_total :
      (server : ServerView) (fs : List ManifestFile) (w : World)
      → (n : ℕ) × ((install_manifest_files env web server fs w).0 ≡ ok n) × (n ≤ length fs)
  unfolding install_manifest_files
  install_manifest_files_total server [] w = (0, refl, omega arith)
  install_manifest_files_total server (f ∷ fs) w =
      elim (Result-cases (install_manifest_file env web server f w).0) [
        | inl (written, e) ↦
            let (n, rest, small) =
              install_manifest_files_total server fs (install_manifest_file env web server f w).1 in
            (counted written n, ground (arith, e, rest), counted_le written n (length fs) small)
        | inr (x, e) ↦
            let (n, rest, small) =
              install_manifest_files_total server fs (install_manifest_file env web server f w).1 in
            (n, ground (arith, e, rest), omega arith)
      ]

-- If every download so far started over HTTPS at one of the six hosts for downloads or at a name
-- below one of them, so does every one that a modpack's installation starts, whichever its format
-- and whatever it contains, however it ends. This is about the address that a download asks for
-- first, and not about the requests to the catalogs or the redirections that are followed.
pub packs_download_safely :
    (env : Env) (web : Web) (id : RowId) (user : AuthenticatedUser) (url archive : String)
    (w : World)
    → IsSafeLog web w
    → IsSafeLog web (install_modrinth_modpack env web id url user w).1
      × IsSafeLog web (install_curseforge_modpack env web id archive user w).1
packs_download_safely env web id user url archive w safe =
    let (modrinth, curseforge) = packs-IsSafeLog env web id user in
    ((modrinth url).keep w safe, (curseforge archive).keep w safe)
