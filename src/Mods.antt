-- ===== src/Mods.antt =====
-- ModsService for a single mod or plugin (backend/src/mods/mods.service.ts).
pub mod Packs
pub mod Laws
use elysia_panel.Prelude.{
  ℕ, String, Bool, true, false, Option, none, some, List, [], ◌∷◌, ◌&&◌, not, ◌==◌, same, is_blank,
  ltb, concat, any, find, select, reverse, if◌then◌else◌,
}
use elysia_panel.Prelude.Slices.{has_char, first_part, last_part}
use elysia_panel.World.Schema.{RowId, MetaValue}
use elysia_panel.World.Records.{InstalledMod, ModSource, MarketplaceItem}
use elysia_panel.World.Daemon.{Request}
use elysia_panel.World.State.{World, Env, mods_t}
use elysia_panel.World.Action.{
  Action, ⊤, bad_request, internal, ◌>>=◌, ◌>>◌, pure, throw, throw_if, or_throw, find_or_throw,
  create_row, update_row, delete_row, draw, log, entry,
}
use elysia_panel.Identity.{AuthenticatedUser}
use elysia_panel.NodeClient.{call}
use elysia_panel.Servers.Access.{ServerView, find_accessible_or_throw, endpoint_of}
use elysia_panel.Downloads.{Web, Url, ModrinthFile, ModrinthVersion, CurseForgeFile, download_file}
use elysia_panel.Marketplace.{get, increment_downloads}

abbrev pub first_file : List ModrinthFile → Option ModrinthFile
first_file [] = none
first_file (f ∷ fs) = some f

-- `version.files.find((f) => f.primary) ?? version.files[0]`
abbrev pub primary_file : List ModrinthFile → Option ModrinthFile
primary_file files = elim (find (λ f. f.primary) files) [
  | some f ↦ some f
  | none ↦ first_file files
]

-- `${targetDir}/${name}`
abbrev pub in_dir : String → String → String
in_dir dir name = concat dir (concat "/" name)

-- `version.id.split('.')[0] || versionId`
abbrev pub modrinth_key : String → String → String
modrinth_key id version_id = if same (first_part "." id) "" then version_id else first_part "." id

-- `baseName && baseName.includes('.') ? baseName : `${item.slug}-${item.version}.jar``
abbrev pub file_name_of : MarketplaceItem → String → String
file_name_of item pathname =
    if has_char "." (last_part "/" pathname)
    then last_part "/" pathname
    else concat item.slug (concat "-" (concat item.version ".jar"))

-- The compound key of an installed mod.
abbrev pub is_installed : RowId → String → InstalledMod → Bool
is_installed server_id project_id m = m.server_id == server_id && same m.project_id project_id

unfoldable pub list_installed : RowId → World → List InstalledMod
list_installed server_id w = reverse (select (λ m. m.server_id == server_id) w.installed_mods)

module _ (env : Env) where
  -- `installedMod.upsert`: the row with the key is changed, or the new one is created.
  unfoldable pub upsert_mod :
      RowId → String → (InstalledMod → InstalledMod) → InstalledMod → Action InstalledMod
  upsert_mod server_id project_id change new w =
      elim (any (is_installed server_id project_id) w.installed_mods) [
        | true ↦ update_row mods_t (is_installed server_id project_id) change w
        | false ↦ create_row mods_t (is_installed server_id new.project_id) new w
      ]

  -- `writeToServer`
  unfoldable pub write_to_server : ServerView → String → String → Action ⊤
  write_to_server server path content = do
    call env server.node_id (endpoint_of server.node) (Request.write_file server.uuid path content)
    pure tt

  unfoldable pub uninstall : RowId → RowId → String → AuthenticatedUser → Action ⊤
  uninstall server_id mod_id target_dir user = do
    server ← find_accessible_or_throw server_id user
    installed ← find_or_throw mods_t (λ m. m.id == mod_id)
    call env server.node_id (endpoint_of server.node)
        (Request.delete_file server.uuid (in_dir target_dir installed.file_name))
    delete_row mods_t (λ m. m.id == mod_id)
    log (entry user.id "mod.remove" "Server" server_id)

  -- The rest of `installFromModrinth` once the file is on the server.
  unfoldable pub record_modrinth :
      RowId → String → ModrinthVersion → ModrinthFile → AuthenticatedUser → Action InstalledMod
  record_modrinth server_id version_id version file user = do
    id ← draw env.uuid
    row ←
        upsert_mod server_id (modrinth_key version.id version_id)
          (λ m. record m {
            version_id = version.id;
            file_name = file.filename;
            name = version.name;
          })
          (record {
            id = id;
            server_id = server_id;
            source = ModSource.modrinth;
            project_id = version_id;
            version_id = version.id;
            file_name = file.filename;
            name = version.name;
          })
    log (record (entry user.id "mod.install" "Server" server_id) {
      metadata =
          ("source", MetaValue.text "MODRINTH") ∷ ("versionId", MetaValue.text version_id) ∷ [];
    })
    pure row

  -- The rest of `installFromCurseforge`.
  unfoldable pub record_curseforge :
      RowId → ℕ → ℕ → CurseForgeFile → AuthenticatedUser → Action InstalledMod
  record_curseforge server_id mod_id file_id file user = do
    id ← draw env.uuid
    row ←
        upsert_mod server_id (env.spelled mod_id)
          (λ m. record m { version_id = env.spelled file_id; file_name = file.file_name })
          (record {
            id = id;
            server_id = server_id;
            source = ModSource.curseforge;
            project_id = env.spelled mod_id;
            version_id = env.spelled file_id;
            file_name = file.file_name;
            name = file.file_name;
          })
    log (record (entry user.id "mod.install" "Server" server_id) {
      metadata =
          ("source", MetaValue.text "CURSEFORGE")
          ∷ ("modId", MetaValue.number mod_id)
          ∷ ("fileId", MetaValue.number file_id)
          ∷ [];
    })
    pure row

  -- The rest of `installFromMarketplace`.
  unfoldable pub record_item :
      RowId → String → MarketplaceItem → String → AuthenticatedUser → Action InstalledMod
  unfolding increment_downloads
  record_item server_id slug item file_name user = do
    id ← draw env.uuid
    row ←
        upsert_mod server_id (env.spelled item.id)
          (λ m. record m { version_id = item.version; file_name = file_name; name = item.name })
          (record {
            id = id;
            server_id = server_id;
            source = ModSource.manual;
            project_id = env.spelled item.id;
            version_id = item.version;
            file_name = file_name;
            name = item.name;
          })
    increment_downloads slug
    log (record (entry user.id "mod.install" "Server" server_id) {
      metadata = ("source", MetaValue.text "MARKETPLACE") ∷ ("slug", MetaValue.text slug) ∷ [];
    })
    pure row

-- The item, if it is one that may be installed, and its address.
unfoldable pub free_plugin : String → Action (MarketplaceItem × String)
unfolding get
free_plugin slug = do
  item ← get slug
  throw_if (not (same item.item_type "PLUGIN")) (
      bad_request
        "Seuls les items de type PLUGIN peuvent être installés automatiquement sur un serveur")
  throw_if (ltb 0 item.price_cents)
      (bad_request "Achat requis avant installation (paiement non disponible pour le moment)")
  throw_if (is_blank item.download_url) (bad_request "Cet item n'a pas de fichier associé")
  download_url ← or_throw item.download_url (bad_request "Cet item n'a pas de fichier associé")
  pure (item, download_url)

module _ (env : Env) (web : Web) where
  -- `getVersion` and the choice of the file.
  unfoldable pub modrinth_file : String → Action (ModrinthVersion × ModrinthFile)
  modrinth_file version_id = do
    answer ← draw (web.modrinth_version version_id)
    version ← or_throw answer (internal "request")
    file ←
        or_throw (primary_file version.files)
          (bad_request "Aucun fichier disponible pour cette version Modrinth")
    pure (version, file)

  -- `getFile`
  unfoldable pub curseforge_file : ℕ → ℕ → Action CurseForgeFile
  curseforge_file mod_id file_id = do
    answer ← draw (web.curseforge_file mod_id file_id)
    or_throw answer (internal "request")

  unfoldable pub install_from_modrinth :
      RowId → String → String → AuthenticatedUser → Action InstalledMod
  install_from_modrinth server_id version_id target_dir user = do
    server ← find_accessible_or_throw server_id user
    found ← modrinth_file version_id
    content ← download_file web found.1.url
    write_to_server env server (in_dir target_dir found.1.filename) content
    record_modrinth env server_id version_id found.0 found.1 user

  unfoldable pub install_from_curseforge :
      RowId → ℕ → ℕ → String → AuthenticatedUser → Action InstalledMod
  install_from_curseforge server_id mod_id file_id target_dir user = do
    server ← find_accessible_or_throw server_id user
    file ← curseforge_file mod_id file_id
    content ← download_file web file.download_url
    write_to_server env server (in_dir target_dir file.file_name) content
    record_curseforge env server_id mod_id file_id file user

  -- The name that the file of an item gets: `new URL(…)`, which the check has parsed before.
  abbrev pub item_file_name : MarketplaceItem → String → Action String
  item_file_name item download_url = elim (web.parse_url download_url) [
    | none ↦ throw (internal "Invalid URL")
    | some url ↦ pure (file_name_of item url.pathname)
  ]

  unfoldable pub install_from_marketplace :
      RowId → String → String → AuthenticatedUser → Action InstalledMod
  install_from_marketplace server_id slug target_dir user = do
    server ← find_accessible_or_throw server_id user
    found ← free_plugin slug
    content ← download_file web found.1
    file_name ← item_file_name found.0 found.1
    write_to_server env server (in_dir target_dir file_name) content
    record_item env server_id slug found.0 file_name user
