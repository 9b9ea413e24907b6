-- ===== src/Seed/Catalog.antt =====
-- The catalogue of backend/prisma/seed.ts: the permissions of the interface, those of a client, and
-- the templates of servers.
use elysia_panel.Prelude.{ℕ, String, List, [], ◌∷◌}
use elysia_panel.World.Schema.{Environment}

-- `{ key, group }`
pub record PermissionSeed : Type 0 where
  pub key : String
  pub group : String

-- `PERMISSIONS`
unfoldable pub permission_seeds : List PermissionSeed
permission_seeds =
    record { key = "users.read"; group = "users" }
    ∷ record { key = "users.create"; group = "users" }
    ∷ record { key = "users.update"; group = "users" }
    ∷ record { key = "users.suspend"; group = "users" }
    ∷ record { key = "users.ban"; group = "users" }
    ∷ record { key = "users.delete"; group = "users" }
    ∷ record { key = "users.impersonate"; group = "users" }
    ∷ record { key = "roles.read"; group = "roles" }
    ∷ record { key = "roles.create"; group = "roles" }
    ∷ record { key = "roles.update"; group = "roles" }
    ∷ record { key = "roles.delete"; group = "roles" }
    ∷ record { key = "audit.read"; group = "audit" }
    ∷ record { key = "nodes.read"; group = "nodes" }
    ∷ record { key = "nodes.create"; group = "nodes" }
    ∷ record { key = "nodes.update"; group = "nodes" }
    ∷ record { key = "nodes.delete"; group = "nodes" }
    ∷ record { key = "nodes.maintenance"; group = "nodes" }
    ∷ record { key = "servers.read.any"; group = "servers" }
    ∷ record { key = "servers.update.any"; group = "servers" }
    ∷ record { key = "servers.delete.any"; group = "servers" }
    ∷ record { key = "servers.suspend"; group = "servers" }
    ∷ record { key = "servers.create"; group = "servers" }
    ∷ record { key = "servers.read"; group = "servers" }
    ∷ record { key = "servers.update"; group = "servers" }
    ∷ record { key = "servers.delete"; group = "servers" }
    ∷ record { key = "servers.power"; group = "servers" }
    ∷ record { key = "servers.console"; group = "servers" }
    ∷ record { key = "servers.subusers"; group = "servers" }
    ∷ record { key = "files.read"; group = "files" }
    ∷ record { key = "files.write"; group = "files" }
    ∷ record { key = "backups.create"; group = "backups" }
    ∷ record { key = "backups.restore"; group = "backups" }
    ∷ record { key = "backups.delete"; group = "backups" }
    ∷ record { key = "mods.install"; group = "mods" }
    ∷ record { key = "mods.remove"; group = "mods" }
    ∷ record { key = "billing.read"; group = "billing" }
    ∷ record { key = "billing.manage"; group = "billing" }
    ∷ record { key = "billing.refund"; group = "billing" }
    ∷ record { key = "marketplace.read"; group = "marketplace" }
    ∷ record { key = "marketplace.publish"; group = "marketplace" }
    ∷ record { key = "support.read.any"; group = "support" }
    ∷ record { key = "support.reply"; group = "support" }
    ∷ record { key = "support.create"; group = "support" }
    ∷ record { key = "monitoring.read"; group = "monitoring" }
    ∷ []

-- `CLIENT_PERMISSIONS`
unfoldable pub client_permissions : List String
client_permissions =
    "servers.create" ∷ "servers.read" ∷ "servers.update" ∷ "servers.delete" ∷ "servers.power"
    ∷ "servers.console" ∷ "servers.subusers" ∷ "files.read" ∷ "files.write" ∷ "backups.create"
    ∷ "backups.restore" ∷ "backups.delete" ∷ "mods.install" ∷ "mods.remove" ∷ "billing.read"
    ∷ "marketplace.read" ∷ "support.create" ∷ []

pub record TemplateSeed : Type 0 where
  pub name : String
  pub game_type : String
  pub description : String
  pub docker_image : String
  pub startup_command : String
  pub default_variables : Environment
  pub min_memory_mb : ℕ

abbrev paper_template : TemplateSeed
paper_template = record {
  name = "Minecraft Paper (dernière version)";
  game_type = "MINECRAFT_JAVA";
  description = "Serveur Paper haute performance, compatible plugins Bukkit/Spigot.";
  docker_image = "itzg/minecraft-server:latest";
  startup_command = "java -Xms{{MEMORY}}M -Xmx{{MEMORY}}M -jar server.jar nogui";
  default_variables = ("EULA", "TRUE") ∷ ("TYPE", "PAPER") ∷ ("MEMORY", "2048") ∷ [];
  min_memory_mb = 1024;
}

abbrev fabric_template : TemplateSeed
fabric_template = record {
  name = "Minecraft Fabric";
  game_type = "MINECRAFT_JAVA";
  description = "Serveur Fabric pour mods légers/performants.";
  docker_image = "itzg/minecraft-server:latest";
  startup_command = "java -Xms{{MEMORY}}M -Xmx{{MEMORY}}M -jar server.jar nogui";
  default_variables = ("EULA", "TRUE") ∷ ("TYPE", "FABRIC") ∷ ("MEMORY", "2048") ∷ [];
  min_memory_mb = 1024;
}

abbrev bedrock_template : TemplateSeed
bedrock_template = record {
  name = "Minecraft Bedrock";
  game_type = "MINECRAFT_BEDROCK";
  description = "Serveur Bedrock officiel (Geyser-compatible côté proxy Java).";
  docker_image = "itzg/minecraft-bedrock-server:latest";
  startup_command = "/bedrock_server";
  default_variables = ("EULA", "TRUE") ∷ [];
  min_memory_mb = 512;
}

abbrev velocity_template : TemplateSeed
velocity_template = record {
  name = "Velocity (proxy)";
  game_type = "MINECRAFT_JAVA";
  description = "Proxy Velocity pour relier plusieurs serveurs backend.";
  docker_image = "itzg/mc-proxy:latest";
  startup_command = "java -Xms{{MEMORY}}M -Xmx{{MEMORY}}M -jar velocity.jar";
  default_variables = ("TYPE", "VELOCITY") ∷ ("MEMORY", "512") ∷ [];
  min_memory_mb = 256;
}

abbrev docker_template : TemplateSeed
docker_template = record {
  name = "Docker générique";
  game_type = "GENERIC_DOCKER";
  description =
      "Fait tourner n'importe quelle image Docker fournie par le client (bot Discord, app web, ...).";
  docker_image = "alpine:latest";
  startup_command = "{{STARTUP_COMMAND}}";
  default_variables = ("STARTUP_COMMAND", "echo \"configurez votre commande de démarrage\"") ∷ [];
  min_memory_mb = 256;
}

-- `templates`
unfoldable pub template_seeds : List TemplateSeed
template_seeds =
    paper_template ∷ fabric_template ∷ bedrock_template ∷ velocity_template ∷ docker_template ∷ []
