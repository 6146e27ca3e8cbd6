-- ===== src/Shop/Cart.antt =====
-- tracker.js: ViewCart, RemoveFromCart, AddPaymentInfo, Lead and Search.
use full_project.Prelude.{ℕ, Bool, true, false, not, ◌&&◌, ◌||◌, Option, if◌then◌else◌, is_nil}
use full_project.Js.Text.{Text, codes, text_eq}
use full_project.Js.Number.{whole}
use full_project.Js.Attempt.{returned}
use full_project.Js.Value.{num, str, arr, nil, cons, Fields, end, field, or_value, get}
use full_project.Page.{Page}
use full_project.Product.{attribute_text}
use full_project.World.{M, ◌>>◌, when}
use full_project.Send.{send_event}
use full_project.Shop.AddToCart.{button_attribute}

module _ (p : Page) where
  -- What ViewCart and AddPaymentInfo say of the cart.
  abbrev cart_fields : Fields
  cart_fields =
      let cart = p.config.cart in
      field "content_ids" (or_value (get "content_ids" cart) (arr nil)) (
        field "contents" (or_value (get "contents" cart) (arr nil)) (
          field "content_type" (str (codes "product")) (
            field "value" (or_value (get "value" cart) (num (whole 0))) (
              field "currency" (or_value (get "currency" cart) (str (codes "BDT")))
                (field "num_items" (or_value (get "num_items" cart) (num (whole 0))) end)))))

  -- The ViewCart of the script.
  unfoldable pub send_view_cart : M (Unit {0})
  send_view_cart =
      when (p.config.events.viewcart && text_eq p.config.page_type (codes "cart"))
        (send_event p "ViewCart" cart_fields false)

  unfoldable pub set_removed : Bool → M (Unit {0})
  set_removed b w = (returned tt, record w { remove_fired_via_jq = b })

  abbrev removal : Text → Fields
  removal id =
      field "content_ids" (arr (cons (str id) nil))
        (field "content_type" (str (codes "product")) end)

  -- The listener of `removed_from_cart`.
  unfoldable pub on_removed_from_cart : Option ℕ → M (Unit {0})
  unfolding set_removed
  on_removed_from_cart button w =
      when (p.config.events.removefromcart && p.has_jquery)
        (set_removed true
          >> send_event p "RemoveFromCart"
              (removal (button_attribute w.dom button "data-product_id")) false)
        w

  -- The listener of `wc-blocks_removed_from_cart`.
  unfoldable pub on_blocks_removed_from_cart : M (Unit {0})
  unfolding set_removed
  on_blocks_removed_from_cart = when (p.config.events.removefromcart && p.has_jquery) (
      set_removed true
      >> send_event p "RemoveFromCart" (field "content_type" (str (codes "product")) end) false)

  -- What the timer of a click on a remove button runs: nothing, if jQuery has told of the removal.
  unfoldable pub on_remove_timer : ℕ → M (Unit {0})
  unfolding set_removed
  on_remove_timer button w =
      let dom = w.dom in
      let is_classic =
        text_eq (dom.tag_name button) (codes "A")
        && not (is_nil (attribute_text dom button "href")) in
      let told = set_removed false w in
      let send =
        send_event p "RemoveFromCart" (removal (attribute_text dom button "data-product_id"))
          is_classic w in
      if w.remove_fired_via_jq then told else send

  -- `fireAddPaymentInfo(method)`
  unfoldable pub fire_add_payment_info : Text → M (Unit {0})
  fire_add_payment_info method w =
      let payload = field "payment_method" (str method) cart_fields in
      let fired = record w { payment_fired = true } in
      let send = send_event p "AddPaymentInfo" payload false fired in
      if w.payment_fired then (returned tt, w) else send

  -- The listener of submitted forms.
  unfoldable pub on_form_submit : ℕ → M (Unit {0})
  on_form_submit form w =
      let dom = w.dom in
      let id = dom.element_id form in
      let is_shop_form =
        dom.has_class form "woocommerce-checkout"
        || dom.has_class form "woocommerce-cart-form"
        || text_eq (attribute_text dom form "role") (codes "search") in
      let is_account_form = text_eq id (codes "loginform") || text_eq id (codes "registerform") in
      when (p.config.events.lead && not is_shop_form && not is_account_form)
        (send_event p "Lead" end false) w

  -- The Search of the script.
  unfoldable pub send_search : M (Unit {0})
  send_search =
      when
        (p.config.events.search
          && text_eq p.config.page_type (codes "search")
          && not (is_nil p.config.search_string))
        (send_event p "Search" (field "search_string" (str p.config.search_string) end) false)
