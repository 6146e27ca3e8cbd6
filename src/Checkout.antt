-- ===== src/Checkout.antt =====
-- tracker.js: the event InitiateCheckout, and the listeners and timers that send it.
pub mod Laws
pub mod Handlers
pub mod Guards
pub mod Email
pub mod Orders
pub mod Requests
use full_project.Prelude.{
  ℕ, zero, suc, ◌==◌, Bool, true, false, not, ◌&&◌, ◌||◌, Option, none, some, List, [], ◌∷◌, ◌++◌,
  if◌then◌else◌, String, is_nil, length, leb, all,
}
use full_project.Js.Text.{
  Text, codes, text_eq, or_text, trim, starts, includes, split, keep_only, is_digit, is_space,
}
use full_project.Js.Decimal.{ℤ, pos, negsuc, parse_int}
use full_project.Js.Number.{Number, nan, decimal, whole, is_zero, is_positive, parse_float}
use full_project.Js.Attempt.{Attempt, returned, thrown}
use full_project.Js.Value.{
  Value, undefined, num, str, arr, obj, Items, nil, cons, Fields, end, field, truthy, or_value,
  to_text, get,
}
use full_project.Page.{Page, Product, Config}
use full_project.Path.{current_path, is_thank_you_flow_page, is_one_page_mode, is_order_path}
use full_project.Product.{get_selected_variation_info, selected_id, selected_price, product_item}
use full_project.World.{Dom, World, M, pure, ◌>>=◌, ◌>>◌, when}
use full_project.Send.{send_event}
use full_project.Send.FormFields.{has_strong_customer_data}

-- What `parseInt` gives, as a number.
abbrev pub integer : Option ℤ → Number
integer none = nan
integer (some (pos n)) = whole n
integer (some (negsuc n)) = decimal true (suc n) 0

abbrev pub zero_value : Value
zero_value = num (whole 0)

-- `parseFloat(v || 0)`
abbrev pub float_of : Value → Number
float_of v = parse_float (to_text (or_value v zero_value))

-- `parseInt(v || 0, 10)`
abbrev pub int_of : Value → Number
int_of v = integer (parse_int (to_text (or_value v zero_value)))

-- Whether the value is an array, or a text, with a length.
abbrev pub has_length : Value → Bool
has_length (arr (cons v items)) = true
has_length (str s) = not (is_nil s)
has_length _ = false

abbrev pub exists : Option ℕ → Bool
exists none = false
exists (some el) = true

-- `hasCheckoutSurface()`
unfoldable pub has_checkout_surface : Dom → Bool
has_checkout_surface dom =
    exists (
      dom.query
        "form.checkout, form.woocommerce-checkout, .woocommerce-checkout, .wc-block-checkout, #customer_details, #order_review, #place_order")
    || exists (
        dom.query
          "#billing_email, #billing_phone, input[name=\"billing_email\"], input[name=\"billing_phone\"]")

-- A dot with a character on either side.
pub has_inner_dot : Text → Bool
has_inner_dot (a ∷ b ∷ c ∷ s) = b == b'.' || has_inner_dot (b ∷ c ∷ s)
has_inner_dot _ = false

pub two_parts : List Text → Bool
unfolding has_inner_dot
two_parts (user ∷ host ∷ []) = not (is_nil user) && has_inner_dot host
two_parts _ = false

-- `/^[^\s@]+@[^\s@]+\.[^\s@]+$/`
unfoldable pub validate_email : Text → Bool
unfolding two_parts
validate_email email = all (λ c. not (is_space c)) email && two_parts (split b'@' email)

-- `validatePhone(phone)`
unfoldable pub validate_phone : Text → Bool
validate_phone phone = leb 8 (length (keep_only is_digit phone))

-- What happens to the page, for the listeners and the timers of the checkout. An element is the
-- target of its event; `surface_timer` has the reason that it was set up with.
pub data Trigger : Type 0 where
  surface_timer : Text → Trigger
  field_touched : ℕ → Trigger
  clicked : ℕ → Trigger
  submitted : ℕ → Trigger
  jquery_event : Text → Trigger
  blurred : ℕ → Trigger
  mutation_timer : Trigger

-- A trigger, with the time and the document that it finds.
pub record Moment : Type 0 where
  pub at : ℕ
  pub dom : Dom
  pub trigger : Trigger

abbrev intent_selector : String
intent_selector =
    "#billing_email, #billing_phone, #billing_first_name, input[name^=\"billing_\"], select[name^=\"billing_\"], textarea[name^=\"order_\"], input[autocomplete=\"email\"], input[autocomplete=\"tel\"], input[autocomplete=\"given-name\"], input[autocomplete=\"family-name\"], .woocommerce-checkout input, .woocommerce-checkout select, .wc-block-checkout input, .wc-block-checkout select"

abbrev pub place_order_selector : String
place_order_selector =
    "#place_order, .wc-block-components-checkout-place-order-button, [name=\"woocommerce_checkout_place_order\"]"

abbrev pub checkout_selector : String
checkout_selector =
    ".checkout-button, .wc-forward[href*=\"checkout\"], a[href*=\"checkout\"], [data-buykori-checkout], [data-buykori-checkout-intent], .buykorigw-checkout-intent, .wcf-next-button, .wcf-submit-coupon, .wcf-embed-checkout-form button[type=\"submit\"]"

-- `!target.matches(intentSelector)`, and the types that are passed over.
unfoldable pub is_intent_field : Dom → ℕ → Bool
is_intent_field dom el =
    let kind = dom.input_type el in
    dom.matches el intent_selector
    && not (
        text_eq kind (codes "hidden")
        || text_eq kind (codes "checkbox")
        || text_eq kind (codes "radio"))

module _ (p : Page) where
  -- `isCheckoutFlowPage()`
  unfoldable pub is_checkout_flow_page : Dom → Bool
  is_checkout_flow_page dom =
      let path = current_path p.location in
      if is_thank_you_flow_page p.config p.location
      then false
      else text_eq p.config.page_type (codes "checkout")
        || includes (codes "checkout") path
          && not (is_order_path path || includes (codes "order-pay") path)
        || has_checkout_surface dom

  abbrev has_priced_product : Option Product → Bool
  has_priced_product none = false
  has_priced_product (some product) = is_positive (float_of (num product.price))

  -- `hasCheckoutCartData()`
  unfoldable pub has_checkout_cart_data : Dom → Bool
  has_checkout_cart_data dom =
      let cart = p.config.cart in
      is_positive (float_of (get "value" cart))
      || is_positive (int_of (get "num_items" cart))
      || has_length (get "content_ids" cart)
      || has_length (get "contents" cart)
      || has_priced_product p.config.product
      || is_checkout_flow_page dom

  -- What the payload says of the contents.
  abbrev checkout_fields : Value → Value → Value → Value → Value → Text → Fields
  checkout_fields content_ids contents value currency num_items reason =
      field "content_ids" content_ids (
        field "contents" contents (
          field "content_type" (str (codes "product")) (
            field "value" value (
              field "currency" currency
                (field "num_items" num_items (field "trigger_reason" (str reason) end))))))

  abbrev cart_currency : Option Product → Value
  cart_currency none = str (codes "BDT")
  cart_currency (some product) = str product.currency

  abbrev cart_payload : Text → Fields
  cart_payload reason =
      let cart = p.config.cart in
      checkout_fields (or_value (get "content_ids" cart) (arr nil))
        (or_value (get "contents" cart) (arr nil)) (num (float_of (get "value" cart)))
        (or_value (get "currency" cart) (cart_currency p.config.product))
        (num (int_of (get "num_items" cart))) reason

  abbrev single_payload : Product → Dom → Text → Fields
  single_payload product dom reason =
      let variation = get_selected_variation_info p dom in
      let id = selected_id p.config product variation in
      let price = num (selected_price (float_of (num product.price)) variation) in
      checkout_fields (arr (cons id nil))
        (arr (cons (obj (product_item id product.name product.category price)) nil)) price
        (or_value (get "currency" p.config.cart) (str product.currency)) (num (whole 1)) reason

  abbrev empty_cart_payload : Option Product → Dom → Text → Fields
  empty_cart_payload none dom reason = cart_payload reason
  empty_cart_payload (some product) dom reason = single_payload product dom reason

  -- `checkoutPayload(reason)`: where the cart is worth nothing, the page's product stands for it.
  unfoldable pub checkout_payload : Dom → Text → Fields
  checkout_payload dom reason =
      if is_zero (float_of (get "value" p.config.cart))
      then empty_cart_payload p.config.product dom reason
      else cart_payload reason

  mark_sent : M (Unit {0})
  mark_sent w = (returned tt, record w { initiate_checkout_sent = true })

  -- `sendInitiateCheckoutOnce(reason, synchronous)`
  unfoldable pub send_initiate_checkout_once : Text → Bool → M (Unit {0})
  unfolding mark_sent
  send_initiate_checkout_once reason synchronous w =
      let send =
        (mark_sent >> send_event p "InitiateCheckout" (checkout_payload w.dom reason) synchronous)
          w in
      if not p.config.events.checkout
      then (returned tt, w)
      else if is_thank_you_flow_page p.config p.location
      then (returned tt, w)
      else if w.initiate_checkout_sent
      then (returned tt, w)
      else send

  -- `sendInitiateCheckoutWhenReady(reason, force, synchronous)`
  unfoldable pub send_initiate_checkout_when_ready : Text → Bool → Bool → M (Unit {0})
  send_initiate_checkout_when_ready reason force synchronous w =
      when (force || has_strong_customer_data w.dom)
        (send_initiate_checkout_once reason synchronous) w

  -- `sendInitiateCheckoutOnSurface(reason)`
  unfoldable pub send_initiate_checkout_on_surface : Text → M (Unit {0})
  send_initiate_checkout_on_surface reason w =
      when
        (not (is_one_page_mode p.config)
          && not (is_thank_you_flow_page p.config p.location)
          && has_checkout_surface w.dom)
        (send_initiate_checkout_when_ready (or_text reason (codes "checkout_surface_ready"))
          (has_checkout_cart_data w.dom) false)
        w

  -- `bindCheckoutIntentTracking()`, whose listeners are the triggers below.
  unfoldable pub bind_checkout_intent_tracking : M (Unit {0})
  bind_checkout_intent_tracking w = (returned tt, record w { checkout_intent_bound = true })

  abbrev identify : Dom → ℕ → M (Unit {0})
  identify dom el =
      let value = trim (dom.value el) in
      let is_email =
        dom.matches el "#billing_email, input[name=\"billing_email\"], input[type=\"email\"]" in
      let is_phone =
        dom.matches el "#billing_phone, input[name=\"billing_phone\"], input[type=\"tel\"]" in
      if is_email && validate_email value
      then send_event p "Identify" (field "em" (str value) end) false
      else when (is_phone && validate_phone value)
          (send_event p "Identify" (field "ph" (str value) end) false)

  -- The listeners of `bindCheckoutIntentTracking`, and the functions that the timers and the observer
  -- run.
  unfoldable pub handle : Trigger → Dom → M (Unit {0})
  handle (surface_timer reason) dom = send_initiate_checkout_on_surface reason
  handle (field_touched el) dom = when (is_intent_field dom el) (
      send_initiate_checkout_when_ready (codes "checkout_field_input") (has_checkout_cart_data dom)
        false)
  handle (clicked el) dom =
      when (exists (dom.closest el place_order_selector))
        (send_initiate_checkout_when_ready (codes "place_order_click") true true)
      >> when (exists (dom.closest el checkout_selector)) (
          send_initiate_checkout_when_ready (codes "checkout_button_click")
            (has_checkout_cart_data dom) true)
  handle (submitted el) dom =
      when (dom.matches el "form.checkout, form.woocommerce-checkout, .woocommerce-checkout form")
        (send_initiate_checkout_when_ready (codes "checkout_submit") true true)
  handle (jquery_event kind) dom =
      when (not (is_one_page_mode p.config) || text_eq kind (codes "checkout_place_order")) (
        send_initiate_checkout_when_ready (or_text kind (codes "woocommerce_checkout_event")) true
          false)
  handle (blurred el) dom = identify dom el
  handle mutation_timer dom = when (is_checkout_flow_page dom) (
      bind_checkout_intent_tracking
      >> when (not (is_one_page_mode p.config))
          (send_initiate_checkout_on_surface (codes "checkout_surface_ready")))

  -- The listeners are there once they are bound; a timer needs none.
  abbrev pub is_listening : Trigger → World → Bool
  is_listening (surface_timer reason) w = true
  is_listening mutation_timer w = true
  is_listening _ w = w.checkout_intent_bound

  abbrev pub arrive : Moment → World → World
  arrive m w = record w { now = m.at; dom = m.dom }

  -- One moment: an exception of a handler does not stop the page.
  unfoldable pub step : Moment → World → World
  step m w = (when (is_listening m.trigger w) (handle m.trigger m.dom) (arrive m w)).1

  unfoldable pub run : List Moment → World → World
  run [] w = w
  run (m ∷ ms) w = run ms (step m w)
