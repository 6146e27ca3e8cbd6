-- ===== src/Shop/Handlers.antt =====
-- The listeners and the parts of the script that send the shop's events hold within every relation
-- that allows the page's ordinary work.
use full_project.Prelude.{
  ℕ, refl, Bool, true, false, Option, none, some, String, not, if◌then◌else◌,
}
use full_project.Js.Attempt.{Attempt}
use full_project.Js.Text.{Text}
use full_project.Js.Value.{Fields}
use full_project.Product.{VariationInfo, ProductData, get_selected_variation_info}
use full_project.Page.{Page, Product}
use full_project.World.{Dom, World, once}
use full_project.World.Steps.{Steps, pure-Steps, ask-Steps, bind-Steps, then-Steps, when-Steps}
use full_project.Visitor.Effects.{clear_checkout_markers-Sends}
use full_project.World.Effects.{Logs-refl}
use full_project.Send.Names.{IsStart}
use full_project.Send.Calm.{IsCalm, Sends-Steps}
use full_project.Shop.View.{
  FoundVariation, view_product, view_selected, view_found, send_page_view, send_view_content_once,
  on_found_variation, on_card_seen,
}
use full_project.Shop.AddToCart.{
  Added, send_add_to_cart, set_fired_via_ajax, send_added, on_added_to_cart, send_clicked,
  click_button, on_button_click, send_intent, click_cta, on_cta_click, added_by_jquery,
  added_by_click, is_found, cta_surface,
}
use full_project.Shop.Cart.{
  send_view_cart, send_search, set_removed, on_removed_from_cart, on_blocks_removed_from_cart,
  on_remove_timer, on_form_submit,
}

if_told-lem :
    (R : World → World → Type 0) (b : Bool) (w : World) (r s : Attempt (Unit {0}) × World)
    → R w r.1
    → R w s.1
    → R w (if b then r else s).1
if_told-lem R true w r s h g = h
if_told-lem R false w r s h g = g

module _ (p : Page) (R : World → World → Type 0) (c : IsCalm p R) where
  once-Steps : (key : Text) (ttl : ℕ) → Steps R (once p key ttl)
  unfolding once
  once-Steps key ttl = record { steps = λ w. c.quiet w _ (Logs-refl IsStart w, refl, refl) }

  pub send_page_view-Steps : Steps R (send_page_view p)
  unfolding send_page_view
  send_page_view-Steps = when-Steps c.order _ (
      bind-Steps c.order (once-Steps _ _)
        λ new. when-Steps c.order _ (c.event "PageView" _ _ (refl, refl)))

  view_selected-Steps :
      (product : Product) (variation : Option VariationInfo)
      → Steps R (view_selected p product variation)
  view_selected-Steps product variation = c.event "ViewContent" _ _ (refl, refl)

  view_product-Steps : (product : Option Product) → Steps R (view_product p product)
  view_product-Steps none = pure-Steps c.order
  view_product-Steps (some product) = bind-Steps c.order (once-Steps _ _) λ new.
      when-Steps c.order _ (
        bind-Steps c.order (ask-Steps c.order (get_selected_variation_info p))
          (view_selected-Steps product))

  pub send_view_content_once-Steps : Steps R (send_view_content_once p)
  unfolding send_view_content_once
  send_view_content_once-Steps = when-Steps c.order _ (view_product-Steps p.config.product)

  view_found-Steps :
      (v : FoundVariation) (product : Option Product) → Steps R (view_found p v product)
  view_found-Steps v none = pure-Steps c.order
  view_found-Steps v (some product) =
      bind-Steps c.order (once-Steps _ _)
        λ new. when-Steps c.order _ (c.event "ViewContent" _ _ (refl, refl))

  pub on_found_variation-Steps : (v : FoundVariation) → Steps R (on_found_variation p v)
  unfolding on_found_variation
  on_found_variation-Steps v = when-Steps c.order _ (view_found-Steps v p.config.product)

  pub on_card_seen-Steps : (found : ProductData) → Steps R (on_card_seen p found)
  unfolding on_card_seen
  on_card_seen-Steps found = bind-Steps c.order (once-Steps _ _) λ new.
      then-Steps c.order (when-Steps c.order _ (c.event "ViewContent" _ _ (refl, refl)))
        (pure-Steps c.order)

  send_add_to_cart-Steps :
      (prefix : String) (id : Text) (payload : Fields)
      → Steps R (send_add_to_cart p prefix id payload)
  unfolding send_add_to_cart
  send_add_to_cart-Steps prefix id payload = bind-Steps c.order (once-Steps _ _) λ new.
      when-Steps c.order _ (
        then-Steps c.order (Sends-Steps c (clear_checkout_markers-Sends IsStart p))
          (c.event "AddToCart" _ _ (refl, refl)))

  set_fired_via_ajax-Steps : Steps R (set_fired_via_ajax p)
  unfolding set_fired_via_ajax
  set_fired_via_ajax-Steps = record { steps = λ w. c.quiet w _ (Logs-refl IsStart w, refl, refl) }

  send_added-Steps : (a : Added) → Steps R (send_added p a)
  send_added-Steps a = when-Steps c.order _ (send_add_to_cart-Steps _ _ _)

  pub on_added_to_cart-Steps : (button : Option ℕ) → Steps R (on_added_to_cart p button)
  unfolding on_added_to_cart
  on_added_to_cart-Steps button = when-Steps c.order _ (
      then-Steps c.order set_fired_via_ajax-Steps (
        bind-Steps c.order (ask-Steps c.order (λ dom. added_by_jquery p dom button))
          send_added-Steps))

  send_clicked-Steps : (a : Option Added) → Steps R (send_clicked p a)
  send_clicked-Steps none = pure-Steps c.order
  send_clicked-Steps (some a) = when-Steps c.order _ (send_add_to_cart-Steps _ _ _)

  click_button-Steps : (dom : Dom) (button : Option ℕ) → Steps R (click_button p dom button)
  click_button-Steps dom none = pure-Steps c.order
  click_button-Steps dom (some button) =
      when-Steps c.order (not (dom.has_class button "ajax_add_to_cart"))
        (send_clicked-Steps (added_by_click p dom button))

  pub on_button_click-Steps : (target : ℕ) → Steps R (on_button_click p target)
  unfolding on_button_click
  on_button_click-Steps target = record {
    steps = λ w. (when-Steps c.order _ (click_button-Steps w.dom _)).steps w;
  }

  send_intent-Steps : (found : Option ProductData) → Steps R (send_intent p found)
  send_intent-Steps none = pure-Steps c.order
  send_intent-Steps (some found) = send_add_to_cart-Steps _ _ _

  click_cta-Steps : (dom : Dom) (cta : Option ℕ) → Steps R (click_cta p dom cta)
  click_cta-Steps dom none = pure-Steps c.order
  click_cta-Steps dom (some cta) =
      when-Steps c.order
        (not (is_found p (dom.closest cta ".add_to_cart_button, .single_add_to_cart_button")))
        (send_intent-Steps (cta_surface p dom cta))

  pub on_cta_click-Steps : (target : ℕ) → Steps R (on_cta_click p target)
  unfolding on_cta_click
  on_cta_click-Steps target = record {
    steps = λ w. (when-Steps c.order _ (click_cta-Steps w.dom _)).steps w;
  }

  pub send_view_cart-Steps : Steps R (send_view_cart p)
  unfolding send_view_cart
  send_view_cart-Steps = when-Steps c.order _ (c.event "ViewCart" _ _ (refl, refl))

  set_removed-Steps : (b : Bool) → Steps R (set_removed p b)
  unfolding set_removed
  set_removed-Steps b = record { steps = λ w. c.quiet w _ (Logs-refl IsStart w, refl, refl) }

  pub on_removed_from_cart-Steps : (button : Option ℕ) → Steps R (on_removed_from_cart p button)
  unfolding on_removed_from_cart
  on_removed_from_cart-Steps button = record {
    steps = λ w.
        (when-Steps c.order _ (
            then-Steps c.order (set_removed-Steps true)
              (c.event "RemoveFromCart" _ _ (refl, refl)))).steps
          w;
  }

  pub on_blocks_removed_from_cart-Steps : Steps R (on_blocks_removed_from_cart p)
  unfolding on_blocks_removed_from_cart
  on_blocks_removed_from_cart-Steps =
      when-Steps c.order _
        (then-Steps c.order (set_removed-Steps true) (c.event "RemoveFromCart" _ _ (refl, refl)))

  pub on_remove_timer-Steps : (button : ℕ) → Steps R (on_remove_timer p button)
  unfolding on_remove_timer
  on_remove_timer-Steps button = record {
    steps = λ w.
        if_told-lem R w.remove_fired_via_jq w _ _ ((set_removed-Steps false).steps w)
          ((c.event "RemoveFromCart" _ _ (refl, refl)).steps w);
  }

  pub on_form_submit-Steps : (form : ℕ) → Steps R (on_form_submit p form)
  unfolding on_form_submit
  on_form_submit-Steps form = record {
    steps = λ w. (when-Steps c.order _ (c.event "Lead" _ _ (refl, refl))).steps w;
  }

  pub send_search-Steps : Steps R (send_search p)
  unfolding send_search
  send_search-Steps = when-Steps c.order _ (c.event "Search" _ _ (refl, refl))
