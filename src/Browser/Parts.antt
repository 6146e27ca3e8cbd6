-- ===== src/Browser/Parts.antt =====
-- tracker.js: the start of the checkout's tracking with its timers and its observer, the clicks on a
-- remove button, and the ways to tell a payment method.
use full_project.Prelude.{ℕ, Bool, true, false, not, ◌&&◌, Option, none, some, [], if◌then◌else◌}
use full_project.Js.Text.{Text, codes, text_eq}
use full_project.Page.{Page}
use full_project.Path.{is_one_page_mode}
use full_project.World.{Dom, World, Run, pure, ◌>>=◌, ◌>>◌, when}
use full_project.Checkout.{
  mutation_timer, handle, is_checkout_flow_page, bind_checkout_intent_tracking,
}
use full_project.Shop.Cart.{fire_add_payment_info}
use full_project.Browser.{
  Tab, surface_check, start_checkout, surface_changed, remove_check, lift, modify, set_timeout,
  clear_timeout, is_some,
}

abbrev unwatch_checkout : Run Tab (Unit {0})
unwatch_checkout = modify (λ t. record t { watches_checkout = false })

-- `initiateCheckoutSent && checkoutIntentBound`
abbrev pub is_done : World → Bool
is_done w = w.initiate_checkout_sent && w.checkout_intent_bound

abbrev pub wait_for_surface : Run Tab (Unit {0})
wait_for_surface t =
    (clear_timeout t.checkout_timer
        >> (set_timeout 150 surface_changed >>= λ id.
            modify (λ u. record u { checkout_timer = some id })))
      t

-- The callback of `checkoutObserver`.
unfoldable pub on_mutation : Run Tab (Unit {0})
on_mutation t =
    when t.watches_checkout (if is_done t.world then unwatch_checkout else wait_for_surface) t

abbrev pub remove_button : Dom → ℕ → Option ℕ
remove_button dom target =
    or_near (dom.closest target "a.remove[data-product_id], .remove_from_cart_button")
  where
    or_near : Option ℕ → Option ℕ
    or_near none =
        dom.closest target "button.wc-block-cart-item__remove-link, [aria-label*=\"Remove\"]"
    or_near (some button) = some button

abbrev pub wait_for_removal : Option ℕ → Run Tab (Unit {0})
wait_for_removal none = pure tt
wait_for_removal (some button) = set_timeout 0 (remove_check button) >> pure tt

-- The listener of clicks on a remove button.
unfoldable pub on_remove_click : ℕ → Run Tab (Unit {0})
on_remove_click target t = when t.on_removal (wait_for_removal (remove_button t.world.dom target)) t

module _ (p : Page) where
  abbrev pub two_checks : Run Tab (Unit {0})
  two_checks =
      set_timeout 1200 (surface_check (codes "checkout_page_load"))
      >> set_timeout 4000 (surface_check (codes "checkout_delayed_page_load"))
      >> pure tt

  -- `scheduleCheckoutSurfaceChecks('checkout')`
  unfoldable pub schedule_checkout_surface_checks : Run Tab (Unit {0})
  schedule_checkout_surface_checks t = when (is_checkout_flow_page p t.world.dom) two_checks t

  -- What runs with the script, when the document is loaded, and 1.2 seconds after the script.
  unfoldable pub run_start_checkout : Run Tab (Unit {0})
  run_start_checkout =
      lift (bind_checkout_intent_tracking p)
      >> when (not (is_one_page_mode p.config)) schedule_checkout_surface_checks

  -- The part of InitiateCheckout that runs with the script.
  unfoldable pub watch_checkout : Run Tab (Unit {0})
  watch_checkout = when p.config.events.checkout (
      run_start_checkout
      >> modify (λ t. record t { on_checkout_loaded = true })
      >> set_timeout 1200 start_checkout
      >> when p.has_mutation_observer (modify (λ t. record t { watches_checkout = true })))

  abbrev pub unwatch_done : Run Tab (Unit {0})
  unwatch_done t = when (is_checkout_flow_page p t.world.dom && is_done t.world) unwatch_checkout t

  -- What `checkoutObserverTimeout` runs.
  unfoldable pub run_surface_changed : Run Tab (Unit {0})
  run_surface_changed t = (lift (handle p mutation_timer t.world.dom) >> unwatch_done) t

  -- The part of AddPaymentInfo that runs with the script.
  unfoldable pub watch_payment : Run Tab (Unit {0})
  watch_payment =
      when (p.config.events.addpaymentinfo && text_eq p.config.page_type (codes "checkout")) (
        modify (λ t. record t {
          on_payment = true;
          watches_payment =
              p.has_mutation_observer && is_some (t.world.dom.query ".wc-block-checkout, #payment");
        }))

  -- The listener of changes, for the payment method.
  unfoldable pub on_payment_change : ℕ → Run Tab (Unit {0})
  on_payment_change target t =
      when (t.on_payment && text_eq (t.world.dom.name target) (codes "payment_method"))
        (lift (fire_add_payment_info p (t.world.dom.value target))) t

  abbrev value_or_empty : Dom → Option ℕ → Text
  value_or_empty dom none = []
  value_or_empty dom (some el) = dom.value el

  -- The listener of `payment_method_selected`.
  unfoldable pub on_payment_selected : Run Tab (Unit {0})
  on_payment_selected t =
      let dom = t.world.dom in
      when (t.on_payment && p.has_jquery)
        (lift (
          fire_add_payment_info p
            (value_or_empty dom (dom.query ".wc-block-components-radio-control__input:checked"))))
        t

  abbrev pub fire_checked : Dom → Option ℕ → Run Tab (Unit {0})
  fire_checked dom none = pure tt
  fire_checked dom (some el) = lift (fire_add_payment_info p (dom.value el))

  -- The callback of `payObserver`.
  unfoldable pub on_payment_mutation : Run Tab (Unit {0})
  on_payment_mutation t =
      let dom = t.world.dom in
      when t.watches_payment
        (fire_checked dom (
          dom.query
            ".wc-block-components-radio-control__input:checked, input[name=\"radio-control-wc-payment-method-options\"]:checked"))
        t
