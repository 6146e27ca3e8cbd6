-- ===== src/Browser/Script.antt =====
-- tracker.js as a whole: what runs when the page loads it, and then what each timer, each callback of
-- an observer and each listener does, in any order.
use full_project.Prelude.{
  ℕ, ◌==◌, Bool, true, false, not, ◌&&◌, Option, none, some, List, [], ◌∷◌, if◌then◌else◌, is_nil,
}
use full_project.Js.Text.{Text}
use full_project.Page.{Page}
use full_project.Path.{is_thank_you_flow_page}
use full_project.Visitor.{
  clear_checkout_markers, persist_marketing_params, persist_tiktok_click_id,
  ensure_first_party_cookies,
}
use full_project.Pixels.{initialize_hybrid_pixels}
use full_project.World.{Dom, World, Run, pure, ◌>>◌, when, swallow}
use full_project.Send.Settle.{Outcome, settle_pending}
use full_project.Checkout.{
  Trigger, field_touched, clicked, submitted, jquery_event, blurred, handle, is_listening,
  send_initiate_checkout_on_surface,
}
use full_project.Shop.View.{
  FoundVariation, send_page_view, send_view_content_once, on_found_variation,
}
use full_project.Shop.AddToCart.{on_added_to_cart, on_button_click, on_cta_click}
use full_project.Shop.Cart.{
  send_view_cart, send_search, on_removed_from_cart, on_blocks_removed_from_cart, on_remove_timer,
  on_form_submit,
}
use full_project.Browser.{
  Task, send_view, view_seen, card_seen, surface_check, start_checkout, surface_changed,
  remove_check, Timer, Tab, lift, modify, without,
}
use full_project.Browser.Views.{
  watch_product, run_view_seen, observe_landing_product_cards, run_card_seen, on_view_entries,
  on_card_entries,
}
use full_project.Browser.Parts.{
  on_mutation, on_remove_click, run_start_checkout, watch_checkout, run_surface_changed,
  watch_payment, on_payment_change, on_payment_selected, on_payment_mutation,
}

-- A tab in which the script has set its variables: all its marks are down, and no `fetch` is pending.
abbrev pub fresh : World → Tab
fresh w = record {
  world = record w {
    initiate_checkout_sent = false;
    checkout_intent_bound = false;
    payment_fired = false;
    remove_fired_via_jq = false;
    add_to_cart_fired_via_ajax = false;
    pending = [];
  };
  timers = [];
  next_id = 1;
  is_loaded = false;
  view_timer = none;
  card_timers = [];
  checkout_timer = none;
  watches_view = false;
  watched_cards = [];
  watches_checkout = false;
  watches_payment = false;
  on_variation = false;
  on_cards_loaded = false;
  on_add_to_cart = false;
  on_checkout_loaded = false;
  on_removal = false;
  on_payment = false;
  on_lead = false;
}

-- What the page tells the script, besides the timers; an element is the target of its event. `input`
-- is also `focusin`, a `fetch` is named by its place among those that are pending, and `view_entries` and `card_entries` tell of each entry whether at least half is
-- in view.
pub data Event : Type 0 where
  content_loaded mutation payment_mutation : Event
  click input change submit blur : ℕ → Event
  view_entries : List Bool → Event
  card_entries : List (ℕ × Bool) → Event
  checkout_event : Text → Event
  found_variation : FoundVariation → Event
  added_to_cart removed_from_cart : Option ℕ → Event
  blocks_removed_from_cart payment_method_selected : Event
  timer_fired : ℕ → Event
  fetch_settled : ℕ → Outcome → Event

-- An event, with the time and the document that it finds.
pub record Happening : Type 0 where
  pub at : ℕ
  pub dom : Dom
  pub event : Event

-- The timer's task, if the timer is there.
abbrev pub task_of : ℕ → List Timer → Option Task
task_of id [] = none
task_of id (timer ∷ timers) =
    let rest = task_of id timers in if timer.id == id then some timer.task else rest

-- A listener, if it is there, whose exception stops nothing else.
abbrev pub listener : Bool → Run Tab (Unit {0}) → Run Tab (Unit {0})
listener is_there m = swallow (when is_there m)

module _ (p : Page) where
  -- The thank-you page has no use for the markers.
  abbrev clear_after_order : Run Tab (Unit {0})
  clear_after_order =
      when (is_thank_you_flow_page p.config p.location) (lift (clear_checkout_markers p))

  abbrev pub watch_cards : Run Tab (Unit {0})
  watch_cards =
      if p.is_loading
      then modify (λ t. record t { on_cards_loaded = true })
      else observe_landing_product_cards p

  -- The script: nothing without an address to send to.
  unfoldable pub start : Run Tab (Unit {0})
  start = when (not (is_nil p.config.ajax_url && is_nil p.config.rest_url)) (
      lift (persist_marketing_params p)
      >> lift (persist_tiktok_click_id p)
      >> lift (ensure_first_party_cookies p)
      >> lift (initialize_hybrid_pixels p)
      >> clear_after_order
      >> lift (send_page_view p)
      >> watch_product p
      >> watch_cards
      >> modify (λ t. record t { on_add_to_cart = p.config.events.addtocart })
      >> watch_checkout p
      >> lift (send_view_cart p)
      >> modify (λ t. record t { on_removal = p.config.events.removefromcart })
      >> watch_payment p
      >> modify (λ t. record t { on_lead = p.config.events.lead })
      >> lift (send_search p))

  -- What a timer runs.
  unfoldable pub run_task : Task → Run Tab (Unit {0})
  run_task send_view = lift (send_view_content_once p)
  run_task view_seen = run_view_seen p
  run_task (card_seen el found) = run_card_seen p el found
  run_task (surface_check reason) = lift (send_initiate_checkout_on_surface p reason)
  run_task start_checkout = run_start_checkout p
  run_task surface_changed = run_surface_changed p
  run_task (remove_check button) = lift (on_remove_timer p button)

  -- The checkout's listener, once it is bound.
  abbrev pub checkout_listener : Trigger → Run Tab (Unit {0})
  checkout_listener trigger t =
      when (is_listening p trigger t.world) (lift (handle p trigger t.world.dom)) t

  abbrev pub run_timer : ℕ → Option Task → Run Tab (Unit {0})
  run_timer id none = pure tt
  run_timer id (some task) =
      modify (λ t. record t { timers = without id t.timers }) >> run_task task

  abbrev pub load : Bool → Run Tab (Unit {0})
  load true t = pure tt t
  load false t =
      (modify (λ u. record u { is_loaded = true })
          >> listener t.on_cards_loaded (observe_landing_product_cards p)
          >> listener t.on_checkout_loaded (run_start_checkout p))
        t

  -- The listeners of an event, in the order in which they run: those that capture it come first. The
  -- exception of one does not stop the next.
  unfoldable pub dispatch : Event → Run Tab (Unit {0})
  dispatch content_loaded t = load t.is_loaded t
  dispatch mutation t = on_mutation t
  dispatch payment_mutation t = on_payment_mutation p t
  dispatch (click el) t =
      (listener t.on_add_to_cart (lift (on_cta_click p el))
          >> swallow (checkout_listener (clicked el))
          >> listener t.on_add_to_cart (lift (on_button_click p el))
          >> swallow (on_remove_click el))
        t
  dispatch (input el) t = checkout_listener (field_touched el) t
  dispatch (change el) t =
      (swallow (checkout_listener (field_touched el)) >> swallow (on_payment_change p el)) t
  dispatch (submit el) t =
      (swallow (checkout_listener (submitted el))
          >> listener t.on_lead (lift (on_form_submit p el)))
        t
  dispatch (blur el) t = checkout_listener (blurred el) t
  dispatch (view_entries entries) t = when t.watches_view (on_view_entries entries) t
  dispatch (card_entries entries) t = on_card_entries p entries t
  dispatch (checkout_event kind) t = when p.has_jquery (checkout_listener (jquery_event kind)) t
  dispatch (found_variation v) t = when t.on_variation (lift (on_found_variation p v)) t
  dispatch (added_to_cart button) t = when t.on_add_to_cart (lift (on_added_to_cart p button)) t
  dispatch (removed_from_cart button) t = when t.on_removal (lift (on_removed_from_cart p button)) t
  dispatch blocks_removed_from_cart t = when t.on_removal (lift (on_blocks_removed_from_cart p)) t
  dispatch payment_method_selected t = on_payment_selected p t
  dispatch (timer_fired id) t = run_timer id (task_of id t.timers) t
  dispatch (fetch_settled n outcome) t = lift (settle_pending p n outcome) t

  abbrev pub arrive : Happening → Tab → Tab
  arrive h t = record t { world = record t.world { now = h.at; dom = h.dom } }

  unfoldable pub step : Happening → Tab → Tab
  step h t = (dispatch h.event (arrive h t)).1

  unfoldable pub run : List Happening → Tab → Tab
  run [] t = t
  run (h ∷ hs) t = run hs (step h t)

  -- The page's life: the script, and then whatever happens.
  abbrev pub live : List Happening → World → Tab
  live hs w = run hs (start (fresh w)).1
