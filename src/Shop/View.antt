-- ===== src/Shop/View.antt =====
-- tracker.js: PageView and ViewContent.
use full_project.Prelude.{
  ℕ, ◌==◌, Bool, false, ◌&&◌, Option, none, some, [], ◌∷◌, ◌++◌, if◌then◌else◌, String,
}
use full_project.Js.Text.{Text, codes, text_eq}
use full_project.Js.Decimal.{show}
use full_project.Js.Dict.{Dict}
use full_project.Js.Number.{parse_float}
use full_project.Js.Value.{Value, num, end, truthy, or_value, to_text}
use full_project.Page.{Page, Product}
use full_project.Path.{current_path_key, should_send_page_view}
use full_project.Product.{
  VariationInfo, ProductData, attribute_name, content_id_of, selected_id, selected_price,
  add_attributes, product_item, product_payload, product_payload_from_data,
  get_selected_variation_info,
}
use full_project.World.{M, pure, ◌>>=◌, ◌>>◌, when, ask, once}
use full_project.Send.{send_event}

abbrev pub attributes_of : Option VariationInfo → Option (Dict Text)
attributes_of none = none
attributes_of (some v) = some v.attributes

-- The variation that WooCommerce's `found_variation` gives.
pub record FoundVariation : Type 0 where
  pub variation_id : Value
  pub sku : Value
  pub display_price : Value
  pub attributes : Dict Text

unfoldable pub rename_attributes : Dict Text → Dict Text
rename_attributes [] = []
rename_attributes ((k, v) ∷ d) = (attribute_name k, v) ∷ rename_attributes d

abbrev pub some_attributes : Dict Text → Option (Dict Text)
some_attributes [] = none
some_attributes (e ∷ d) = some (e ∷ d)

module _ (p : Page) where
  -- `eventOnce(prefix + id + ':' + currentPathKey(), ttl)`, and `m` if the event is new.
  abbrev pub once_for : String → Text → ℕ → M (Unit {0}) → M (Unit {0})
  once_for prefix id ttl m =
      once p (codes prefix ++ (id ++ (b':' ∷ current_path_key p.location))) ttl >>= λ new.
      when new m

  -- The PageView of the script.
  unfoldable pub send_page_view : M (Unit {0})
  send_page_view = when (p.config.events.pageview && should_send_page_view p.config p.location) (
      once p (codes "PageView:" ++ current_path_key p.location) 600 >>= λ new.
      when new (send_event p "PageView" end false))

  -- A ViewContent of the configured product.
  abbrev pub view_content : Product → Value → Option (Dict Text) → Value → M (Unit {0})
  view_content product id attributes price =
      send_event p "ViewContent"
        (product_payload id
          (add_attributes attributes (product_item id product.name product.category price))
          product.name product.category price product.currency)
        false

  abbrev pub view_selected : Product → Option VariationInfo → M (Unit {0})
  view_selected product variation =
      view_content product (selected_id p.config product variation) (attributes_of variation)
        (num (selected_price product.price variation))

  abbrev product_key : Product → Text
  product_key product = if product.id == 0 then [] else show product.id

  abbrev pub view_product : Option Product → M (Unit {0})
  view_product none = pure tt
  view_product (some product) =
      once_for "ViewContent:" (product_key product) 1800
        (ask (get_selected_variation_info p) >>= view_selected product)

  -- `sendViewContentOnce()`
  unfoldable pub send_view_content_once : M (Unit {0})
  send_view_content_once =
      when (p.config.events.viewcontent && text_eq p.config.page_type (codes "product"))
        (view_product p.config.product)

  abbrev pub view_variation : FoundVariation → Product → M (Unit {0})
  view_variation v product =
      let var_id = to_text v.variation_id in
      once_for "ViewContentVar:" var_id 300 (
        view_content product (content_id_of p.config v.sku var_id)
          (some_attributes (rename_attributes v.attributes))
          (num (parse_float (to_text (or_value v.display_price (num product.price))))))

  abbrev pub view_found : FoundVariation → Option Product → M (Unit {0})
  view_found v none = pure tt
  view_found v (some product) = view_variation v product

  -- The listener of `found_variation`, which is there on a product's page alone.
  unfoldable pub on_found_variation : FoundVariation → M (Unit {0})
  unfolding rename_attributes
  on_found_variation v =
      when
        (p.config.events.viewcontent
          && text_eq p.config.page_type (codes "product")
          && p.has_jquery
          && p.config.enable_variations
          && truthy v.variation_id)
        (view_found v p.config.product)

  -- What the timer of `observeLandingProductCards` runs, a second after half of the card is seen: the
  -- event, if it is new, and whether it was.
  unfoldable pub on_card_seen : ProductData → M Bool
  on_card_seen found =
      once p (codes "ViewContentCard:" ++ (found.id ++ (b':' ∷ current_path_key p.location))) 1800
      >>= λ new.
          when new (send_event p "ViewContent" (product_payload_from_data found) false) >> pure new
