-- ===== src/Mods/Laws.antt =====
-- Installing mods downloads only from safe addresses, and what a removal may touch.
use elysia_panel.Prelude.{ℕ, String, false, ◌≡◌, ap, some, ◌==◌, find, delete_rows, arith}
use elysia_panel.World.Schema.{RowId}
use elysia_panel.World.Records.{InstalledMod, MarketplaceItem}
use elysia_panel.World.Daemon.{Request, ReplyBody, replied}
use elysia_panel.World.State.{World, Env}
use elysia_panel.World.Action.{Action, ⊤, ok}
use elysia_panel.World.Keeps.{Keeps, Keeps-then}
use elysia_panel.Identity.{AuthenticatedUser}
use elysia_panel.NodeClient.{call, rpc_to}
use elysia_panel.Servers.Access.{ServerView, find_accessible_or_throw, endpoint_of}
use elysia_panel.Servers.Access.Laws.{find_accessible-state}
use elysia_panel.Downloads.{Web, ModrinthVersion, ModrinthFile, CurseForgeFile}
use elysia_panel.Downloads.Laws.{IsSafeLog, Keeps-log, Keeps-download_file}
use elysia_panel.Mods.{
  modrinth_file, curseforge_file, record_modrinth, record_curseforge, record_item, free_plugin,
  upsert_mod, write_to_server, in_dir, uninstall, install_from_modrinth, install_from_curseforge,
  item_file_name, install_from_marketplace,
}

module _ (env : Env) (web : Web) where
  abbrev pub Safe : {A : Type 0} → Action A → Type 0
  Safe = Keeps (IsSafeLog web)

  pub access : (id : RowId) (user : AuthenticatedUser) → Safe (find_accessible_or_throw id user)
  access id user =
      Keeps-log web (find_accessible_or_throw id user)
        (λ w. ap (λ (v : World). v.fetched) (find_accessible-state id user w))

  pub writes :
      (server : ServerView) (path content : String) → Safe (write_to_server env server path content)
  unfolding write_to_server call
  writes server path content =
      Keeps-log web (write_to_server env server path content) (λ w. ground arith)

  upserts :
      (id : RowId) (key : String) (change : InstalledMod → InstalledMod) (new : InstalledMod)
      → Safe (upsert_mod env id key change new)
  unfolding upsert_mod
  upserts id key change new = Keeps-log web (upsert_mod env id key change new) (λ w. ground arith)

  modrinth_files : (version : String) → Safe (modrinth_file env web version)
  unfolding modrinth_file
  modrinth_files version = Keeps-log web (modrinth_file env web version) (λ w. ground arith)

  pub curseforge_files : (mod_id file_id : ℕ) → Safe (curseforge_file env web mod_id file_id)
  unfolding curseforge_file
  curseforge_files mod_id file_id =
      Keeps-log web (curseforge_file env web mod_id file_id) (λ w. ground arith)

  modrinth_records :
      (id : RowId) (version_id : String) (v : ModrinthVersion) (f : ModrinthFile)
      (user : AuthenticatedUser)
      → Safe (record_modrinth env id version_id v f user)
  unfolding record_modrinth upsert_mod
  modrinth_records id version_id v f user =
      Keeps-log web (record_modrinth env id version_id v f user) (λ w. ground arith)

  curseforge_records :
      (id : RowId) (mod_id file_id : ℕ) (f : CurseForgeFile) (user : AuthenticatedUser)
      → Safe (record_curseforge env id mod_id file_id f user)
  unfolding record_curseforge upsert_mod
  curseforge_records id mod_id file_id f user =
      Keeps-log web (record_curseforge env id mod_id file_id f user) (λ w. ground arith)

  item_records :
      (id : RowId) (slug : String) (item : MarketplaceItem) (name : String)
      (user : AuthenticatedUser)
      → Safe (record_item env id slug item name user)
  unfolding record_item upsert_mod
  item_records id slug item name user =
      Keeps-log web (record_item env id slug item name user) (λ w. ground arith)

  free_plugins : (slug : String) → Safe (free_plugin slug)
  unfolding free_plugin
  free_plugins slug = Keeps-log web (free_plugin slug) (λ w. ground arith)

  modrinth-Safe :
      (id : RowId) (version dir : String) (user : AuthenticatedUser)
      → Safe (install_from_modrinth env web id version dir user)
  unfolding install_from_modrinth
  modrinth-Safe id version dir user = Keeps-then _ _ _ (access id user) λ (server : ServerView).
      Keeps-then _ _ _ (modrinth_files version) λ (found : ModrinthVersion × ModrinthFile).
        Keeps-then _ _ _ (Keeps-download_file web found.1.url) λ (content : String).
          Keeps-then _ _ _ (writes server (in_dir dir found.1.filename) content)
            λ (_ : ⊤). modrinth_records id version found.0 found.1 user

  curseforge-Safe :
      (id : RowId) (mod_id file_id : ℕ) (dir : String) (user : AuthenticatedUser)
      → Safe (install_from_curseforge env web id mod_id file_id dir user)
  unfolding install_from_curseforge
  curseforge-Safe id mod_id file_id dir user =
      Keeps-then _ _ _ (access id user) λ (server : ServerView).
        Keeps-then _ _ _ (curseforge_files mod_id file_id) λ (file : CurseForgeFile).
          Keeps-then _ _ _ (Keeps-download_file web file.download_url) λ (content : String).
            Keeps-then _ _ _ (writes server (in_dir dir file.file_name) content)
              λ (_ : ⊤). curseforge_records id mod_id file_id file user

  item_file_names : (item : MarketplaceItem) (url : String) → Safe (item_file_name env web item url)
  item_file_names item url = Keeps-log web (item_file_name env web item url) (λ w. ground arith)

  marketplace-Safe :
      (id : RowId) (slug dir : String) (user : AuthenticatedUser)
      → Safe (install_from_marketplace env web id slug dir user)
  unfolding install_from_marketplace
  marketplace-Safe id slug dir user = Keeps-then _ _ _ (access id user) λ (server : ServerView).
      Keeps-then _ _ _ (free_plugins slug) λ (found : MarketplaceItem × String).
        Keeps-then _ _ _ (Keeps-download_file web found.1) λ (content : String).
          Keeps-then _ _ _ (item_file_names found.0 found.1) λ (file_name : String).
            Keeps-then _ _ _ (writes server (in_dir dir file_name) content)
              λ (_ : ⊤). item_records id slug found.0 file_name user

  -- Installing a mod from any of the three sources downloads only from safe addresses.
  pub installs-IsSafeLog :
      (id : RowId) (dir : String) (user : AuthenticatedUser)
      → ((version : String) → Safe (install_from_modrinth env web id version dir user))
        × ((mod_id file_id : ℕ) → Safe (install_from_curseforge env web id mod_id file_id dir user))
        × ((slug : String) → Safe (install_from_marketplace env web id slug dir user))
  installs-IsSafeLog id dir user = (
    (λ version. modrinth-Safe id version dir user),
    (λ mod_id file_id. curseforge-Safe id mod_id file_id dir user),
    λ slug. marketplace-Safe id slug dir user,
  )

-- If every download so far started over HTTPS at one of the six hosts for downloads or at a name
-- below one of them, so does every one that an installation from Modrinth, CurseForge or the
-- marketplace starts, however it ends. This is about the address that a download asks for first,
-- and not about the requests to the catalogs or the redirections that are followed.
pub installs_download_safely :
    (env : Env) (web : Web) (id : RowId) (dir : String) (user : AuthenticatedUser)
    (version : String) (mod_id file_id : ℕ) (slug : String) (w : World)
    → IsSafeLog web w
    → IsSafeLog web (install_from_modrinth env web id version dir user w).1
      × IsSafeLog web (install_from_curseforge env web id mod_id file_id dir user w).1
      × IsSafeLog web (install_from_marketplace env web id slug dir user w).1
installs_download_safely env web id dir user version mod_id file_id slug w safe =
    let (modrinth, curseforge, marketplace) = installs-IsSafeLog env web id dir user in
    (
      (modrinth version).keep w safe,
      (curseforge mod_id file_id).keep w safe,
      (marketplace slug).keep w safe,
    )

module _ (env : Env) (id mod_id : RowId) (dir : String) (user : AuthenticatedUser) (w : World) where
  -- Whoever may access one server can remove the record of a mod of any other: `uninstall` deletes
  -- a file of that name on the first server, and the row, whichever server the row belongs to.
  pub uninstall_foreign :
      (v : ServerView) (m : InstalledMod) (body : ReplyBody)
      → (find_accessible_or_throw id user w).0 ≡ ok v
      → find (λ m. m.id == mod_id) w.installed_mods ≡ some m
      → (m.server_id == id) ≡ false
      → env.daemon w.sent (
          rpc_to v.node_id
            (endpoint_of v.node)
            (Request.delete_file v.uuid (in_dir dir m.file_name))
            w)
        ≡ replied body
      → let (result, w') = uninstall env id mod_id dir user w in
        (result ≡ ok tt) × (w'.installed_mods ≡ delete_rows (λ m. m.id == mod_id) w.installed_mods)
  unfolding uninstall call
  uninstall_foreign v m body h found other answered =
      ground (arith, find_accessible-state id user w)
