-- ===== src/Marketplace.antt =====
-- MarketplaceService (backend/src/marketplace/marketplace.service.ts).
use elysia_panel.Prelude.{
  ℕ, ◌+◌, String, Bool, true, false, Option, none, some, List, [], ◌∷◌, ◌==◌, same, ltb, select,
  if◌then◌else◌,
}
use elysia_panel.World.Schema.{RowId}
use elysia_panel.World.Records.{MarketplaceItem}
use elysia_panel.World.State.{World, Env, items_t}
use elysia_panel.World.Action.{
  Action, ◌>>=◌, ◌>>◌, pure, find_or_throw, create_row, update_row, draw, log, entry,
}

abbrev pub insert_item : MarketplaceItem → List MarketplaceItem → List MarketplaceItem
insert_item t [] = t ∷ []
insert_item t (u ∷ us) =
    let rest = insert_item t us in if ltb t.downloads u.downloads then u ∷ rest else t ∷ u ∷ us

-- `orderBy: { downloads: 'desc' }`
abbrev pub most_downloaded : List MarketplaceItem → List MarketplaceItem
most_downloaded [] = []
most_downloaded (t ∷ ts) = insert_item t (most_downloaded ts)

-- `type ? { type } : undefined`
abbrev pub is_of_type : Option String → MarketplaceItem → Bool
is_of_type none item = true
is_of_type (some t) item = if same t "" then true else same item.item_type t

unfoldable pub list : Option String → World → List MarketplaceItem
list item_type w = most_downloaded (select (is_of_type item_type) w.items)

unfoldable pub get : String → Action MarketplaceItem
get slug = find_or_throw items_t (λ i. same i.slug slug)

unfoldable pub increment_downloads : String → Action MarketplaceItem
increment_downloads slug =
    update_row items_t (λ i. same i.slug slug) (λ i. record i { downloads = i.downloads + 1 })

unfoldable pub verify : RowId → RowId → Action MarketplaceItem
verify id actor_id = do
  item ← update_row items_t (λ i. i.id == id) (λ i. record i { verified = true })
  log (entry actor_id "marketplace.verify" "MarketplaceItem" id)
  pure item

-- The argument of `publish`.
pub record Publish : Type 0 where
  pub item_type : String
  pub name : String
  pub slug : String
  pub description : Option String
  pub author_name : String
  pub price_cents : Option ℕ
  pub version : String
  pub download_url : Option String
  pub repo_url : Option String

abbrev price_or_free : Option ℕ → ℕ
price_or_free none = 0
price_or_free (some p) = p

module _ (env : Env) where
  unfoldable pub publish : Publish → RowId → Action MarketplaceItem
  publish dto actor_id = do
    id ← draw env.uuid
    item ←
        create_row items_t (λ i. same i.slug dto.slug)
          (record {
            id = id;
            item_type = dto.item_type;
            name = dto.name;
            slug = dto.slug;
            description = dto.description;
            author_name = dto.author_name;
            price_cents = price_or_free dto.price_cents;
            version = dto.version;
            download_url = dto.download_url;
            repo_url = dto.repo_url;
            verified = false;
            downloads = 0;
          })
    log (entry actor_id "marketplace.publish" "MarketplaceItem" id)
    pure item
