-- ===== src/Shop/AddToCart.antt =====
-- tracker.js: AddToCart, by WooCommerce's own event, by the buttons and by the calls to action of a
-- landing page.
use full_project.Prelude.{
  ℕ, ◌==◌, Bool, true, false, not, ◌&&◌, ◌||◌, Option, none, some, [], if◌then◌else◌, String,
  is_nil,
}
use full_project.Js.Text.{Text, codes, text_eq, or_text, trim}
use full_project.Js.Decimal.{show}
use full_project.Js.Dict.{Dict}
use full_project.Js.Number.{Number, whole, number_truthy, parse_float}
use full_project.Js.Attempt.{returned}
use full_project.Js.Value.{
  Value, num, str, arr, obj, nil, cons, Fields, end, field, truthy, to_text, put,
}
use full_project.Page.{Page, Product}
use full_project.Path.{is_one_page_mode}
use full_project.Content.{is_currency_code}
use full_project.Visitor.{clear_checkout_markers}
use full_project.Product.{
  VariationInfo, ProductData, attribute_text, by_sku, content_id_of, selected_price, add_attributes,
  product_item, product_payload, product_payload_from_data, product_text,
  get_selected_variation_info, get_product_data_from_element,
}
use full_project.World.{Dom, M, pure, ◌>>=◌, ◌>>◌, when, ask}
use full_project.Send.{send_event}
use full_project.Shop.View.{once_for}

abbrev float_of : Text → Number
float_of s = if is_nil s then whole 0 else parse_float s

abbrev number_or : Number → Number → Number
number_or x y = if number_truthy x then x else y

abbrev pub button_attribute : Dom → Option ℕ → String → Text
button_attribute dom none name = []
button_attribute dom (some button) name = attribute_text dom button name

-- What an AddToCart is about.
pub record Added : Type 0 where
  pub pid : Value
  pub name : Text
  pub price : Number
  pub attributes : Option (Dict Text)

-- `!pid || /^[a-z]{3}$/i.test(String(pid).trim())`
unfoldable pub is_rejected_pid : Value → Bool
is_rejected_pid pid = not (truthy pid) || is_currency_code (trim (to_text pid))

module _ (p : Page) where
  abbrev currency : Text
  currency = currency_of p.config.product
    where
      currency_of : Option Product → Text
      currency_of none = codes "BDT"
      currency_of (some product) = product.currency

  abbrev pid_of_product : Product → Value
  pid_of_product product = content_id_of p.config (str product.sku) (show product.id)

  -- No identifier at the button: that of the page's product, or of the product around the button.
  abbrev added_nearby : Dom → Option ℕ → Text → Number → Added
  added_nearby dom none name price = record {
    pid = str [];
    name = name;
    price = price;
    attributes = none;
  }
  added_nearby dom (some button) name price =
      let near = dom.closest button "[data-product_id], [data-product-id]" in
      record {
        pid = str (
            or_text (button_attribute dom near "data-product_id")
              (button_attribute dom near "data-product-id"));
        name = name;
        price = price;
        attributes = none;
      }

  abbrev added_product : Product → Text → Number → Added
  added_product product name price = record {
    pid = pid_of_product product;
    name = or_text name product.name;
    price = number_or price product.price;
    attributes = none;
  }

  abbrev added_without_id : Dom → Option ℕ → Option Product → Text → Number → Added
  added_without_id dom button none name price = added_nearby dom button name price
  added_without_id dom button (some product) name price =
      if product.id == 0
      then added_nearby dom button name price
      else added_product product name price

  -- The identifier at the button is that of another product.
  abbrev added_other : Dom → Option ℕ → Text → Text → Number → Added
  added_other dom button id name price =
      let sku = button_attribute dom button "data-product_sku" in
      record {
        pid = str (if by_sku p.config && not (is_nil sku) then sku else id);
        name = name;
        price = price;
        attributes = none;
      }

  -- `if (cfg.content_id_format === 'sku' && cfg.product.sku) pid = cfg.product.sku;`
  abbrev added_same : Product → Text → Text → Number → Added
  added_same product id name price = record {
    pid = content_id_of p.config (str product.sku) id;
    name = or_text name product.name;
    price = number_or price product.price;
    attributes = none;
  }

  abbrev added_with_id : Dom → Option ℕ → Option Product → Text → Text → Number → Added
  added_with_id dom button none id name price = added_other dom button id name price
  added_with_id dom button (some product) id name price =
      if text_eq (show product.id) id
      then added_same product id name price
      else added_other dom button id name price

  abbrev added_variation : VariationInfo → Text → Number → Added
  added_variation v name price = record {
    pid = content_id_of p.config v.sku v.id;
    name = name;
    price = selected_price price (some v);
    attributes = some v.attributes;
  }

  -- What WooCommerce's `added_to_cart` is about.
  unfoldable pub added_by_jquery : Dom → Option ℕ → Added
  added_by_jquery dom button =
      let id = button_attribute dom button "data-product_id" in
      let name = button_attribute dom button "data-product_name" in
      let price = float_of (button_attribute dom button "data-product_price") in
      elim (get_selected_variation_info p dom) [
        | some v ↦ added_variation v name price
        | none ↦
            if is_nil id
            then added_without_id dom button p.config.product name price
            else added_with_id dom button p.config.product id name price
      ]

  -- The payload of WooCommerce's `added_to_cart`.
  unfoldable pub jquery_payload : Added → Fields
  jquery_payload a =
      let id = str (to_text a.pid) in
      let name = str (or_text a.name (product_text (λ x. x.name) p.config.product)) in
      let item = field "id" id (
        field "content_id" id (
          field "content_type" (str (codes "product")) (
            field "content_name" name (
              field "quantity" (num (whole 1))
                (field "item_price" (num a.price) (field "price" (num a.price) end)))))) in
      field "content_ids" (arr (cons id nil)) (
        field "contents" (arr (cons (obj (add_attributes a.attributes item)) nil)) (
          field "content_name" name (
            field "content_type" (str (codes "product"))
              (field "value" (num a.price) (field "currency" (str currency) end)))))

  -- `eventOnce`, then the markers, then the event.
  unfoldable pub send_add_to_cart : String → Text → Fields → M (Unit {0})
  send_add_to_cart prefix id payload =
      once_for p prefix id 2 (clear_checkout_markers p >> send_event p "AddToCart" payload false)

  unfoldable pub set_fired_via_ajax : M (Unit {0})
  set_fired_via_ajax w = (returned tt, record w { add_to_cart_fired_via_ajax = true })

  abbrev pub send_added : Added → M (Unit {0})
  send_added a =
      when (not (is_rejected_pid a.pid))
        (send_add_to_cart "AddToCart:" (to_text a.pid) (jquery_payload a))

  -- The listener of `added_to_cart`.
  unfoldable pub on_added_to_cart : Option ℕ → M (Unit {0})
  unfolding set_fired_via_ajax
  on_added_to_cart button =
      when (p.config.events.addtocart && p.has_jquery)
        (set_fired_via_ajax >> (ask (λ dom. added_by_jquery dom button) >>= send_added))

  abbrev page_price : Option Product → Number
  page_price none = whole 0
  page_price (some product) = product.price

  abbrev clicked_variation : VariationInfo → Added
  clicked_variation v = record {
    pid = content_id_of p.config v.sku v.id;
    name = product_text (λ x. x.name) p.config.product;
    price = selected_price (page_price p.config.product) (some v);
    attributes = some v.attributes;
  }

  abbrev clicked_product : Dom → ℕ → Option Product → Added
  clicked_product dom button (some product) = record {
    pid = pid_of_product product;
    name = product.name;
    price = product.price;
    attributes = none;
  }
  clicked_product dom button none =
      let sku = attribute_text dom button "data-product_sku" in
      record {
        pid = str (
            if by_sku p.config && not (is_nil sku)
            then sku
            else attribute_text dom button "data-product_id");
        name = attribute_text dom button "data-product_name";
        price = float_of (attribute_text dom button "data-product_price");
        attributes = none;
      }

  abbrev pub is_found : Option ℕ → Bool
  is_found none = false
  is_found (some el) = true

  -- What a click on a button that is not WooCommerce's own adds; nothing while a variation is open.
  unfoldable pub added_by_click : Dom → ℕ → Option Added
  added_by_click dom button = elim (get_selected_variation_info p dom) [
    | some v ↦ some (clicked_variation v)
    | none ↦
        if is_found (dom.query "form.cart.variations_form")
        then none
        else some (clicked_product dom button p.config.product)
  ]

  -- The payload of the click.
  unfoldable pub click_payload : Added → Fields
  click_payload a =
      let id = str (to_text a.pid) in
      let category = product_text (λ x. x.category) p.config.product in
      product_payload id
        (add_attributes a.attributes (product_item id a.name category (num a.price))) a.name
        category (num a.price) currency

  abbrev pub send_clicked : Option Added → M (Unit {0})
  send_clicked none = pure tt
  send_clicked (some a) =
      when (truthy a.pid) (send_add_to_cart "AddToCart:" (to_text a.pid) (click_payload a))

  abbrev pub click_button : Dom → Option ℕ → M (Unit {0})
  click_button dom none = pure tt
  click_button dom (some button) =
      when (not (dom.has_class button "ajax_add_to_cart"))
        (send_clicked (added_by_click dom button))

  -- The listener of clicks on the buttons.
  unfoldable pub on_button_click : ℕ → M (Unit {0})
  on_button_click target w =
      when p.config.events.addtocart
        (click_button w.dom
          (w.dom.closest target ".add_to_cart_button, .single_add_to_cart_button"))
        w

  abbrev or_element : Option ℕ → ℕ → Option ℕ
  or_element none el = some el
  or_element (some near) el = some near

  abbrev pub cta_surface : Dom → ℕ → Option ProductData
  cta_surface dom cta = get_product_data_from_element p dom (
      or_element
        (dom.closest cta
          "[data-buykori-product], [data-product_id], [data-product-id], .product, .wc-block-grid__product")
        cta)

  -- The payload of a call to action.
  unfoldable pub intent_payload : ProductData → Fields
  intent_payload found =
      put "trigger_reason" (str (codes "landing_cta_click")) (product_payload_from_data found)

  abbrev pub send_intent : Option ProductData → M (Unit {0})
  send_intent none = pure tt
  send_intent (some found) = send_add_to_cart "AddToCartIntent:" found.id (intent_payload found)

  abbrev pub click_cta : Dom → Option ℕ → M (Unit {0})
  click_cta dom none = pure tt
  click_cta dom (some cta) =
      when (not (is_found (dom.closest cta ".add_to_cart_button, .single_add_to_cart_button")))
        (send_intent (cta_surface dom cta))

  -- The listener of clicks on a landing page's calls to action.
  unfoldable pub on_cta_click : ℕ → M (Unit {0})
  on_cta_click target w =
      when (p.config.events.addtocart && is_one_page_mode p.config)
        (click_cta w.dom (
          w.dom.closest target
            "[data-buykori-addtocart], [data-buykori-atc], .buykorigw-addtocart-intent"))
        w
