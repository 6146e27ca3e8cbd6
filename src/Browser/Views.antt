-- ===== src/Browser/Views.antt =====
-- tracker.js: the observers that tell when a product, or a product's card, has been in view for a second.
use full_project.Prelude.{
  ℕ, ◌==◌, Bool, true, false, not, ◌&&◌, Option, none, some, List, [], ◌∷◌, if◌then◌else◌, String,
}
use full_project.Js.Text.{codes, text_eq}
use full_project.Page.{Page}
use full_project.Path.{is_one_page_mode}
use full_project.Product.{ProductData, get_product_data_from_element}
use full_project.World.{Dom, Run, pure, ◌>>=◌, ◌>>◌, when, ask}
use full_project.Shop.View.{send_view_content_once, on_card_seen}
use full_project.Browser.{
  Tab, card_seen, view_seen, send_view, lift, modify, set_timeout, clear_timeout, is_some,
}

abbrev card_selector : String
card_selector =
    "[data-buykori-product], [data-product_id], [data-product-id], .products .product, .wc-block-grid__product, .wp-block-woocommerce-product-template .product"

-- `timers[idx]`
abbrev pub timer_of : ℕ → List (ℕ × ℕ) → Option ℕ
timer_of el [] = none
timer_of el ((card, id) ∷ timers) =
    let rest = timer_of el timers in if card == el then some id else rest

abbrev pub contains : ℕ → List ℕ → Bool
contains el [] = false
contains el (x ∷ xs) = let rest = contains el xs in if x == el then true else rest

abbrev remove : ℕ → List ℕ → List ℕ
remove el [] = []
remove el (x ∷ xs) = let rest = remove el xs in if x == el then rest else x ∷ rest

abbrev pub seen_task : ℕ → Run Tab (Unit {0})
seen_task id = modify (λ t. record t { view_timer = some id })

-- The callback of `viewObserver`, for one entry, which tells whether at least half is in view.
unfoldable pub on_view_entry : Bool → Run Tab (Unit {0})
on_view_entry is_seen t =
    let clear = clear_timeout t.view_timer in
    (if is_seen then clear >> (set_timeout 1000 view_seen >>= seen_task) else clear) t

unfoldable pub on_view_entries : List Bool → Run Tab (Unit {0})
on_view_entries [] = pure tt
on_view_entries (e ∷ entries) = on_view_entry e >> on_view_entries entries

-- Whether there is a `productSurface` to observe.
abbrev pub watch_surface : Bool → Run Tab (Unit {0})
watch_surface true = modify (λ t. record t { watches_view = true })
watch_surface false = set_timeout 1200 send_view >> pure tt

module _ (p : Page) where
  -- The part of ViewContent that runs with the script.
  unfoldable pub watch_product : Run Tab (Unit {0})
  watch_product =
      when
        (p.config.events.viewcontent
          && text_eq p.config.page_type (codes "product")
          && is_some p.config.product)
        ((if is_one_page_mode p.config && p.has_intersection_observer
            then lift (
                ask (λ dom. is_some (dom.query ".product, .summary, form.cart, [data-product_id]")))
              >>= watch_surface
            else lift (send_view_content_once p))
          >> when (p.has_jquery && p.config.enable_variations)
              (modify (λ t. record t { on_variation = true })))

  -- What the timer of `viewObserver` runs.
  unfoldable pub run_view_seen : Run Tab (Unit {0})
  run_view_seen = lift (send_view_content_once p) >> modify (λ t. record t { watches_view = false })

  abbrev has_data : Dom → List ℕ → List ℕ
  has_data dom [] = []
  has_data dom (el ∷ els) =
      let rest = has_data dom els in
      if is_some (get_product_data_from_element p dom (some el)) then el ∷ rest else rest

  -- `observeLandingProductCards()`
  unfoldable pub observe_landing_product_cards : Run Tab (Unit {0})
  observe_landing_product_cards =
      when
        (p.config.events.viewcontent
          && is_one_page_mode p.config
          && p.has_intersection_observer
          && not (text_eq p.config.page_type (codes "product") && is_some p.config.product))
        (modify (λ t.
          let dom = t.world.dom in
          record t { watched_cards = has_data dom (dom.query_all card_selector) }))

  abbrev pub keep_timer : ℕ → ℕ → Run Tab (Unit {0})
  keep_timer el id = modify (λ t. record t { card_timers = (el, id) ∷ t.card_timers })

  abbrev pub card_entry : ℕ → Bool → Option ℕ → Option ProductData → Run Tab (Unit {0})
  card_entry el is_seen timer none = pure tt
  card_entry el is_seen timer (some found) =
      let clear = clear_timeout timer in
      if is_seen then clear >> (set_timeout 1000 (card_seen el found) >>= keep_timer el) else clear

  -- The callback of the cards' observer, for one entry.
  unfoldable pub on_card_entry : ℕ × Bool → Run Tab (Unit {0})
  on_card_entry (el, is_seen) t =
      when (contains el t.watched_cards)
        (card_entry el is_seen (timer_of el t.card_timers)
          (get_product_data_from_element p t.world.dom (some el)))
        t

  unfoldable pub on_card_entries : List (ℕ × Bool) → Run Tab (Unit {0})
  on_card_entries [] = pure tt
  on_card_entries (e ∷ entries) = on_card_entry e >> on_card_entries entries

  -- What the timer of a card runs.
  unfoldable pub run_card_seen : ℕ → ProductData → Run Tab (Unit {0})
  run_card_seen el found = lift (on_card_seen p found) >>= λ new.
      when new (modify (λ t. record t { watched_cards = remove el t.watched_cards }))
