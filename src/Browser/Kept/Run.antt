-- ===== src/Browser/Kept/Run.antt =====
-- The script, its timers and its listeners, and any sequence of happenings.
use full_project.Prelude.{refl, ℕ, Bool, true, false, Option, none, some, List, [], ◌∷◌}
use full_project.Page.{Page}
use full_project.World.{World, Run}
use full_project.World.Steps.{
  IsPreorder, Steps, pure-Steps, then-Steps, if-Steps, when-Steps, swallow-Steps,
}
use full_project.Visitor.Effects.{clear_checkout_markers-Sends}
use full_project.World.Effects.{Logs-refl}
use full_project.Send.Names.{IsStart}
use full_project.Send.Calm.{IsCalm, quiet-Steps, Sends-Steps}
use full_project.Checkout.{Trigger, clicked, field_touched, submitted, blurred, jquery_event}
use full_project.Checkout.Handlers.{on_surface-Steps, handle-Steps}
use full_project.Shop.Identity.{
  persist_marketing_params-Sends, persist_tiktok_click_id-Sends, ensure_first_party_cookies-Sends,
}
use full_project.Pixels.Effects.{initialize_hybrid_pixels-Steps}
use full_project.Shop.Handlers.{
  send_page_view-Steps, send_view_content_once-Steps, on_found_variation-Steps,
  on_added_to_cart-Steps, on_button_click-Steps, on_cta_click-Steps, send_view_cart-Steps,
  on_removed_from_cart-Steps, on_blocks_removed_from_cart-Steps, on_remove_timer-Steps,
  on_form_submit-Steps, send_search-Steps,
}
use full_project.Browser.{
  Task, send_view, view_seen, card_seen, surface_check, start_checkout, surface_changed,
  remove_check, Tab, without,
}
use full_project.Browser.Timers.{IsWell-without}
use full_project.Browser.Script.{
  Event, content_loaded, mutation, payment_mutation, click, input, change, submit, blur,
  view_entries, card_entries, checkout_event, found_variation, added_to_cart, removed_from_cart,
  blocks_removed_from_cart, payment_method_selected, timer_fired, fetch_settled, Happening, fresh,
  watch_cards, start, run_task, checkout_listener, load, run_timer, dispatch, arrive, step, run,
  live, listener,
}
use full_project.Browser.Kept.{
  IsKept, Inside, Inside-IsPreorder, Inside-same, modify-Steps, lift-Steps,
}
use full_project.Browser.Kept.Views.{
  on_view_entries-Steps, watch_product-Steps, run_view_seen-Steps,
  observe_landing_product_cards-Steps, on_card_entries-Steps, run_card_seen-Steps,
}
use full_project.Browser.Kept.Parts.{
  on_mutation-Steps, on_remove_click-Steps, run_start_checkout-Steps, watch_checkout-Steps,
  run_surface_changed-Steps, watch_payment-Steps, on_payment_change-Steps,
  on_payment_selected-Steps, on_payment_mutation-Steps,
}

module _ (p : Page) (R : World → World → Type 0) (c : IsCalm p R) where
  order : IsPreorder (Inside R)
  order = Inside-IsPreorder c.order

  pub still : (t : Tab) → Inside R t t
  still = Inside-same c.order

  watch_cards-Steps : Steps (Inside R) (watch_cards p)
  watch_cards-Steps =
      if-Steps order _ (modify-Steps R _ still) (observe_landing_product_cards-Steps p R c)

  pub start-Steps : Steps (Inside R) (start p)
  unfolding start
  start-Steps = when-Steps order _ (
      then-Steps order
        (then-Steps order
          (then-Steps order
            (then-Steps order
              (then-Steps order
                (then-Steps order
                  (then-Steps order
                    (then-Steps order
                      (then-Steps order
                        (then-Steps order
                          (then-Steps order
                            (then-Steps order
                              (then-Steps order
                                (then-Steps order
                                  (lift-Steps (Sends-Steps c (persist_marketing_params-Sends p)))
                                  (lift-Steps (Sends-Steps c (persist_tiktok_click_id-Sends p))))
                                (lift-Steps (Sends-Steps c (ensure_first_party_cookies-Sends p))))
                              (lift-Steps (quiet-Steps c (initialize_hybrid_pixels-Steps p))))
                            (when-Steps order _ (
                              lift-Steps (Sends-Steps c (clear_checkout_markers-Sends IsStart p)))))
                          (lift-Steps (send_page_view-Steps p R c)))
                        (watch_product-Steps p R c))
                      watch_cards-Steps)
                    (modify-Steps R _ still))
                  (watch_checkout-Steps p R c))
                (lift-Steps (send_view_cart-Steps p R c)))
              (modify-Steps R _ still))
            (watch_payment-Steps p R c))
          (modify-Steps R _ still))
        (lift-Steps (send_search-Steps p R c)))

module _ (p : Page) (R : World → World → Type 0) (k : IsKept p R) where
  o : IsPreorder (Inside R)
  o = Inside-IsPreorder k.calm.order

  unchanged : (t : Tab) → Inside R t t
  unchanged = Inside-same k.calm.order

  run_task-Steps : (task : Task) → Steps (Inside R) (run_task p task)
  unfolding run_task
  run_task-Steps send_view = lift-Steps (send_view_content_once-Steps p R k.calm)
  run_task-Steps view_seen = run_view_seen-Steps p R k.calm
  run_task-Steps (card_seen el found) = run_card_seen-Steps p R k.calm el found
  run_task-Steps (surface_check reason) = lift-Steps (on_surface-Steps p R k.calm k.checkout reason)
  run_task-Steps start_checkout = run_start_checkout-Steps p R k.calm
  run_task-Steps surface_changed = run_surface_changed-Steps p R k
  run_task-Steps (remove_check button) = lift-Steps (on_remove_timer-Steps p R k.calm button)

  checkout_listener-Steps : (trigger : Trigger) → Steps (Inside R) (checkout_listener p trigger)
  checkout_listener-Steps trigger = record {
    steps = λ t.
        (when-Steps o _ (lift-Steps (handle-Steps p R k.calm k.checkout trigger t.world.dom))).steps
          t;
  }

  run_timer-Steps : (id : ℕ) (task : Option Task) → Steps (Inside R) (run_timer p id task)
  run_timer-Steps id none = pure-Steps o
  run_timer-Steps id (some task) = then-Steps o (modify-Steps R _ removed) (run_task-Steps task)
    where
      removed : (t : Tab) → Inside R t (record t { timers = without id t.timers })
      removed t = (k.calm.order.refl_lem t.world, IsWell-without id t)

  listener-Steps :
      (b : Bool) {m : Run Tab (Unit {0})} → Steps (Inside R) m → Steps (Inside R) (listener b m)
  listener-Steps b h = swallow-Steps o (when-Steps o b h)

  load-Steps : (b : Bool) → Steps (Inside R) (load p b)
  load-Steps true = pure-Steps o
  load-Steps false = record {
    steps = λ t.
        (then-Steps o
            (then-Steps o (modify-Steps R (λ u. record u { is_loaded = true }) unchanged)
              (listener-Steps t.on_cards_loaded (observe_landing_product_cards-Steps p R k.calm)))
            (listener-Steps t.on_checkout_loaded (run_start_checkout-Steps p R k.calm))).steps
          t;
  }

  click-Steps : (el : ℕ) → Steps (Inside R) (dispatch p (click el))
  unfolding dispatch
  click-Steps el = record {
    steps = λ t.
        (then-Steps o
            (then-Steps o
              (then-Steps o
                (listener-Steps t.on_add_to_cart (lift-Steps (on_cta_click-Steps p R k.calm el)))
                (swallow-Steps o (checkout_listener-Steps (clicked el))))
              (listener-Steps t.on_add_to_cart (lift-Steps (on_button_click-Steps p R k.calm el))))
            (swallow-Steps o (on_remove_click-Steps p R k.calm el))).steps
          t;
  }

  dispatch-lem : (e : Event) (t : Tab) → Inside R t (dispatch p e t).1
  unfolding dispatch
  dispatch-lem content_loaded t = (load-Steps t.is_loaded).steps t
  dispatch-lem mutation t = (on_mutation-Steps p R k.calm).steps t
  dispatch-lem payment_mutation t = (on_payment_mutation-Steps p R k).steps t
  dispatch-lem (click el) t = (click-Steps el).steps t
  dispatch-lem (input el) t = (checkout_listener-Steps (field_touched el)).steps t
  dispatch-lem (change el) t =
      (then-Steps o (swallow-Steps o (checkout_listener-Steps (field_touched el)))
          (swallow-Steps o (on_payment_change-Steps p R k el))).steps
        t
  dispatch-lem (submit el) t =
      (then-Steps o (swallow-Steps o (checkout_listener-Steps (submitted el)))
          (listener-Steps t.on_lead (lift-Steps (on_form_submit-Steps p R k.calm el)))).steps
        t
  dispatch-lem (blur el) t = (checkout_listener-Steps (blurred el)).steps t
  dispatch-lem (view_entries entries) t =
      (when-Steps o _ (on_view_entries-Steps p R k.calm entries)).steps t
  dispatch-lem (card_entries entries) t = (on_card_entries-Steps p R k.calm entries).steps t
  dispatch-lem (checkout_event kind) t =
      (when-Steps o _ (checkout_listener-Steps (jquery_event kind))).steps t
  dispatch-lem (found_variation v) t =
      (when-Steps o _ (lift-Steps (on_found_variation-Steps p R k.calm v))).steps t
  dispatch-lem (added_to_cart button) t =
      (when-Steps o _ (lift-Steps (on_added_to_cart-Steps p R k.calm button))).steps t
  dispatch-lem (removed_from_cart button) t =
      (when-Steps o _ (lift-Steps (on_removed_from_cart-Steps p R k.calm button))).steps t
  dispatch-lem blocks_removed_from_cart t =
      (when-Steps o _ (lift-Steps (on_blocks_removed_from_cart-Steps p R k.calm))).steps t
  dispatch-lem payment_method_selected t = (on_payment_selected-Steps p R k).steps t
  dispatch-lem (timer_fired id) t = (run_timer-Steps id _).steps t
  dispatch-lem (fetch_settled n outcome) t = (lift-Steps (k.settled n outcome)).steps t

  arrive-lem : (h : Happening) (t : Tab) → Inside R t (arrive p h t)
  arrive-lem h t =
      (k.calm.quiet t.world (arrive p h t).world (Logs-refl IsStart t.world, refl, refl), λ e. e)

  run-lem : (hs : List Happening) (t : Tab) → Inside R t (run p hs t)
  unfolding run step
  run-lem [] t = unchanged t
  run-lem (h ∷ hs) t =
      let u = arrive p h t in
      o.trans_lem t (step p h t) (run p hs (step p h t))
        (o.trans_lem t u (step p h t) (arrive-lem h t) (dispatch-lem h.event u))
        (run-lem hs (step p h t))

  pub live-Inside : (hs : List Happening) (w : World) → Inside R (fresh w) (live p hs w)
  live-Inside hs w =
      let t = fresh w in
      o.trans_lem t (start p t).1 (live p hs w) ((start-Steps p R k.calm).steps t)
        (run-lem hs (start p t).1)

  pub live-lem : (hs : List Happening) (w : World) → R (fresh w).world (live p hs w).world
  live-lem hs w = (live-Inside hs w).0
