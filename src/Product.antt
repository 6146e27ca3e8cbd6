-- ===== src/Product.antt =====
-- tracker.js: the product that an event is about, from the configuration, from the selected
-- variation or from the document.
pub mod Laws
use full_project.Prelude.{
  ℕ, zero, suc, ◌==◌, Bool, not, ◌&&◌, ◌||◌, Option, none, some, List, [], ◌∷◌, if◌then◌else◌,
  String, is_nil,
}
use full_project.Js.Text.{Text, codes, text_eq, or_text, trim, starts, keep_only, is_digit}
use full_project.Js.Decimal.{show}
use full_project.Js.Dict.{Dict, insert}
use full_project.Js.Number.{Number, whole, is_nan, parse_float, show_number}
use full_project.Js.Attempt.{Attempt, returned, thrown, ◌>>=◌}
use full_project.Js.Value.{
  Value, undefined, null, num, str, arr, obj, dict, Items, nil, cons, Fields, end, field, truthy,
  or_value, is_undefined, to_text, get, put,
}
use full_project.Page.{Page, Product, Config}
use full_project.World.{Dom}

-- `getSelectedVariationInfo()`; a missing `sku` is `null`.
pub record VariationInfo : Type 0 where
  pub id : Text
  pub sku : Value
  pub price : Option Number
  pub attributes : Dict Text

-- What `getProductDataFromElement` gives.
pub record ProductData : Type 0 where
  pub id : Text
  pub raw_id : Text
  pub name : Text
  pub price : Number
  pub currency : Text
  pub category : Text

abbrev drop_chars : ℕ → Text → Text
drop_chars zero s = s
drop_chars (suc n) [] = []
drop_chars (suc n) (c ∷ s) = drop_chars n s

-- `name.replace('attribute_', '')`
unfoldable pub attribute_name : Text → Text
attribute_name [] = []
attribute_name (c ∷ s) =
    let rest = attribute_name s in
    if starts (codes "attribute_") (c ∷ s) then drop_chars 10 (c ∷ s) else c ∷ rest

-- The attribute of that name, or the empty text.
abbrev pub attribute_text : Dom → ℕ → String → Text
attribute_text dom el name = text_of (dom.attribute el name)
  where
    text_of : Option Text → Text
    text_of none = []
    text_of (some s) = s

-- `getText(selector, root)`
unfoldable pub get_text : Dom → String → ℕ → Text
get_text dom selector root = text_at (dom.query_in root selector)
  where
    text_at : Option ℕ → Text
    text_at none = []
    text_at (some el) = trim (dom.text_content el)

-- `parsePrice(value)`; `null` and `undefined` are `none`.
unfoldable pub parse_price : Option Text → Number
parse_price none = whole 0
parse_price (some value) =
    let parsed = parse_float (keep_only (λ c. is_digit c || c == b'.' || c == b'-') value) in
    if is_nan parsed then whole 0 else parsed

-- `v.variation_id`, which throws on `null`.
member : String → Value → Attempt Value
member k undefined = thrown
member k null = thrown
member k (obj fields) = returned (get k fields)
member k v = returned undefined

find_variation : Text → Items → Attempt (Option Value)
unfolding member
find_variation id nil = returned none
find_variation id (cons v items) =
    let rest = find_variation id items in
    member "variation_id" v >>= λ found.
    if text_eq (to_text found) id then returned (some v) else rest

abbrev found_variation : Text → Value → Attempt (Option Value)
unfolding find_variation
found_variation id (arr items) = find_variation id items
found_variation id v = returned none

abbrev fields_of : Option Value → Fields
fields_of (some (obj fields)) = fields
fields_of _ = end

abbrev price_of : Value → Option Number
price_of display_price =
    if is_undefined display_price then none else some (parse_float (to_text display_price))

-- The `try` block: an exception leaves the price and the SKU at `null`.
abbrev found_or_none : Attempt (Option Value) → Fields
found_or_none thrown = end
found_or_none (returned found) = fields_of found

-- One `forEach` over inputs: those that have a value are entered under their short names.
unfoldable pub enter_inputs : Dom → List ℕ → Dict Text → Dict Text
enter_inputs dom [] d = d
enter_inputs dom (el ∷ els) d =
    enter_inputs dom els
      (if is_nil (dom.value el) then d else insert (attribute_name (dom.name el)) (dom.value el) d)

unfoldable pub variation_attributes : Dom → ℕ → Dict Text
variation_attributes dom form =
    enter_inputs dom (dom.query_all_in form "input[type=\"hidden\"][name^=\"attribute_\"]") (
      enter_inputs dom (dom.query_all_in form "input[type=\"radio\"][name^=\"attribute_\"]:checked")
        (enter_inputs dom (dom.query_all_in form "select[name^=\"attribute_\"]") []))

-- `parse_json` is `JSON.parse`.
unfoldable pub variation_of : (Text → Attempt Value) → Dom → ℕ → Text → VariationInfo
unfolding find_variation member
variation_of parse_json dom form variation_id =
    let data_text = attribute_text dom form "data-product_variations" in
    let found =
      if is_nil data_text
      then end
      else found_or_none (parse_json data_text >>= found_variation variation_id) in
    record {
      id = variation_id;
      sku = or_value (get "sku" found) null;
      price = price_of (get "display_price" found);
      attributes = variation_attributes dom form;
    }

-- `getSelectedVariationInfo()`
unfoldable pub get_selected_variation_info : Page → Dom → Option VariationInfo
get_selected_variation_info p dom =
    if p.config.enable_variations then in_form (dom.query "form.cart.variations_form") else none
  where
    chosen : ℕ → Option ℕ → Option VariationInfo
    chosen form none = none
    chosen form (some input) =
        let variation_id = dom.value input in
        if is_nil variation_id || text_eq variation_id (codes "0")
        then none
        else some (variation_of p.parse_json dom form variation_id)

    in_form : Option ℕ → Option VariationInfo
    in_form none = none
    in_form (some form) = chosen form (dom.query_in form "[name=\"variation_id\"], .variation_id")

abbrev pub by_sku : Config → Bool
by_sku cfg = text_eq cfg.content_id_format (codes "sku")

-- `(contentIdFormat === 'sku' && sku) ? sku : String(id)`
unfoldable pub content_id_of : Config → Value → Text → Value
content_id_of cfg sku id = if by_sku cfg && truthy sku then sku else str id

-- The identifier of the configured product, or of its selected variation.
unfoldable pub selected_id : Config → Product → Option VariationInfo → Value
selected_id cfg product none = content_id_of cfg (str product.sku) (show product.id)
selected_id cfg product (some v) = content_id_of cfg v.sku v.id

abbrev pub price_or : Option Number → Number → Number
price_or none x = x
price_or (some y) x = y

-- The price of the selected variation, if it has one, or else `x`.
unfoldable pub selected_price : Number → Option VariationInfo → Number
selected_price x none = x
selected_price x (some v) = price_or v.price x

unfoldable pub add_attributes : Option (Dict Text) → Fields → Fields
add_attributes none item = item
add_attributes (some attributes) item = put "attributes" (dict attributes) item

-- An item of `contents`, with its category.
unfoldable pub product_item : Value → Text → Text → Value → Fields
product_item id name category price = field "id" id (
    field "content_id" id (
      field "content_type" (str (codes "product")) (
        field "content_name" (str name) (
          field "content_category" (str category) (
            field "quantity" (num (whole 1))
              (field "item_price" price (field "price" price end)))))))

-- The payload of one product.
unfoldable pub product_payload : Value → Fields → Text → Text → Value → Text → Fields
product_payload id item name category price currency = field "content_ids" (arr (cons id nil)) (
    field "contents" (arr (cons (obj item) nil)) (
      field "content_name" (str name) (
        field "content_type" (str (codes "product")) (
          field "content_category" (str category)
            (field "value" price (field "currency" (str currency) end))))))

-- `productPayloadFromData(productData)`
unfoldable pub product_payload_from_data : ProductData → Fields
product_payload_from_data d =
    let price = or_value (num d.price) (num (whole 0)) in
    product_payload (str d.id) (product_item (str d.id) d.name d.category price) d.name d.category
      price (or_text d.currency (codes "BDT"))

abbrev pub product_text : (Product → Text) → Option Product → Text
product_text f none = []
product_text f (some product) = f product

module _ (p : Page) (dom : Dom) where
  abbrev pub add_button : ℕ → Option ℕ
  add_button el =
      if dom.matches el ".add_to_cart_button, .single_add_to_cart_button"
      then some el
      else dom.query_in el
          ".add_to_cart_button, .single_add_to_cart_button, [data-product_id], [data-product-id]"

  abbrev pub button_text : Option ℕ → String → Text
  button_text none name = []
  button_text (some button) name = attribute_text dom button name

  abbrev pub configured_id : Option Product → Text
  configured_id none = []
  configured_id (some product) = if product.id == 0 then [] else show product.id

  abbrev configured_price : Option Product → Text
  configured_price none = codes "0"
  configured_price (some product) = show_number product.price

  -- The product's identifier on the page.
  unfoldable pub raw_product_id : ℕ → Text
  raw_product_id el = or_text (attribute_text dom el "data-product_id") (
      or_text (attribute_text dom el "data-product-id") (
        or_text (attribute_text dom el "data-productid") (
          or_text (attribute_text dom el "value") (
            or_text (button_text (add_button el) "data-product_id") (
              or_text (button_text (add_button el) "data-product-id")
                (configured_id p.config.product))))))

  unfoldable pub product_data_for : ℕ → Text → ProductData
  product_data_for el product_id =
      let button = add_button el in
      let sku = or_text (button_text button "data-product_sku") (
        or_text (attribute_text dom el "data-product_sku")
          (attribute_text dom el "data-product-sku")) in
      let name = or_text (button_text button "data-product_name") (
        or_text (attribute_text dom el "data-product_name") (
          or_text (attribute_text dom el "data-product-name") (
            or_text
              (get_text dom
                ".woocommerce-loop-product__title, .product_title, h1, h2, h3, [itemprop=\"name\"]"
                el)
              (product_text (λ x. x.name) p.config.product)))) in
      let price = or_text (button_text button "data-product_price") (
        or_text (attribute_text dom el "data-product_price") (
          or_text (attribute_text dom el "data-product-price") (
            or_text (get_text dom ".price .amount, .price, [data-product-price]" el)
              (configured_price p.config.product)))) in
      record {
        id = if by_sku p.config && not (is_nil sku) then sku else product_id;
        raw_id = product_id;
        name = name;
        price = parse_price (some price);
        currency =
            or_text (product_text (λ x. x.currency) p.config.product)
              (or_text p.config.currency (codes "BDT"));
        category = product_text (λ x. x.category) p.config.product;
      }

  -- `getProductDataFromElement(el)`
  unfoldable pub get_product_data_from_element : Option ℕ → Option ProductData
  get_product_data_from_element none = none
  get_product_data_from_element (some el) =
      let product_id = raw_product_id el in
      if is_nil product_id then none else some (product_data_for el product_id)
