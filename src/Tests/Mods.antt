-- ===== src/Tests/Mods.antt =====
-- The theorems on installations, at a small instance of the catalogs.
use elysia_panel.Prelude.{ℕ, ◌≤◌, ◌≡◌, true, some, none, [], ◌∷◌, same, if◌then◌else◌}
use elysia_panel.World.Action.{ok}
use elysia_panel.Servers.Access.{ServerView}
use elysia_panel.Downloads.{Web, ManifestFile}
use elysia_panel.Downloads.Laws.{IsSafeLog}
use elysia_panel.Mods.{install_from_modrinth, install_from_curseforge, install_from_marketplace}
use elysia_panel.Mods.Laws.{installs_download_safely}
use elysia_panel.Mods.Packs.{
  install_manifest_files, install_modrinth_modpack, install_curseforge_modpack,
}
use elysia_panel.Mods.Packs.Laws.{packs_download_safely, install_manifest_files_total}
use elysia_panel.Tests.Demo.{env, world, node, template, alice_auth, server, allocation}

-- One version at Modrinth, whose file lies at the content network of Modrinth.
abbrev web : Web
web = record {
  parse_url = λ raw.
      if same raw "https://cdn.modrinth.com/a.jar"
      then some (record { protocol = "https:"; hostname = "cdn.modrinth.com"; pathname = "/a.jar" })
      else some (record { protocol = "http:"; hostname = "10.0.0.1"; pathname = "/" });
  http_get = λ url n. some "data";
  modrinth_version = λ id n. some (record {
    id = "v1";
    name = "a";
    files =
        record { url = "https://cdn.modrinth.com/a.jar"; filename = "a.jar"; primary = true } ∷ [];
  });
  curseforge_file =
      λ mod_id file_id n. some (record { file_name = "b.jar"; download_url = "http://10.0.0.1/" });
  unzip = λ archive. none;
  parse_index = λ text. none;
  parse_manifest = λ text. none;
  replace_start = λ prefix text. text;
}

installs_download_safely_example :
    IsSafeLog web (install_from_modrinth env web 20 "v1" "mods" alice_auth world).1
    × IsSafeLog web (install_from_curseforge env web 20 1 2 "mods" alice_auth world).1
    × IsSafeLog web (install_from_marketplace env web 20 "essentials" "mods" alice_auth world).1
installs_download_safely_example =
    installs_download_safely env web 20 "mods" alice_auth "v1" 1 2 "essentials" world tt

packs_download_safely_example :
    IsSafeLog web (install_modrinth_modpack env web 20 "http://10.0.0.1/" alice_auth world).1
    × IsSafeLog web (install_curseforge_modpack env web 20 "zip" alice_auth world).1
packs_download_safely_example =
    packs_download_safely env web 20 alice_auth "http://10.0.0.1/" "zip" world tt

abbrev view : ServerView
view = record {
  server = server;
  node = node;
  template = template;
  allocations = allocation ∷ [];
  sub_users = record { server_id = 20; user_id = 2; permissions = [] } ∷ [];
}

abbrev wanted : ManifestFile
wanted = record { project_id = 1; file_id = 2 }

install_manifest_files_total_example :
    (n : ℕ) × ((install_manifest_files env web view (wanted ∷ wanted ∷ []) world).0 ≡ ok n)
    × (n ≤ 2)
install_manifest_files_total_example =
    install_manifest_files_total env web view (wanted ∷ wanted ∷ []) world
