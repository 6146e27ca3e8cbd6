-- ===== src/Browser/Kept/Views.antt =====
-- The observers of products and cards.
use full_project.Prelude.{
  ℕ, ◌≡◌, ◌==◌, refl, arith, Bool-cases, inl, inr, Bool, true, false, Option, none, some, List, [],
  ◌∷◌,
}
use full_project.Page.{Page}
use full_project.Product.{ProductData, get_product_data_from_element}
use full_project.World.{World, Run, when, ◌>>◌, ◌>>=◌}
use full_project.World.Steps.{
  IsPreorder, Steps, pure-Steps, bind-Steps, then-Steps, if-Steps, when-Steps, ask-Steps,
}
use full_project.Shop.Handlers.{send_view_content_once-Steps, on_card_seen-Steps}
use full_project.Send.Calm.{IsCalm}
use full_project.Browser.{
  Tab, Task, send_view, view_seen, card_seen, surface_check, start_checkout, surface_changed,
  remove_check, clear_timeout, set_timeout,
}
use full_project.Browser.Timers.{IsLatest, IsOther, renewed}
use full_project.Browser.Views.{
  timer_of, seen_task, keep_timer, watch_surface, watch_product, run_view_seen,
  observe_landing_product_cards, run_card_seen, on_view_entry, on_view_entries, card_entry,
  on_card_entry, on_card_entries, contains,
}
use full_project.Browser.Kept.{
  Inside, Inside-IsPreorder, Inside-same, modify-Steps, lift-Steps, set_timeout-Steps,
  clear_timeout-Steps,
}

module _ (p : Page) (R : World → World → Type 0) (c : IsCalm p R) where
  o : IsPreorder (Inside R)
  o = Inside-IsPreorder c.order

  still : (t : Tab) → Inside R t t
  still = Inside-same c.order

  view-IsLatest :
      (view old checkout : Option ℕ) (cards : List (ℕ × ℕ)) (n id : ℕ) (task : Task)
      → old ≡ view
      → IsOther view id
      → IsLatest old checkout cards id task
      → IsLatest (some n) checkout cards id task
  view-IsLatest view old checkout cards n id send_view e g h = tt
  view-IsLatest none old checkout cards n id view_seen e g h = cc
  view-IsLatest (some m) old checkout cards n id view_seen e g h = ground arith
  view-IsLatest view old checkout cards n id (card_seen el found) e g h = h
  view-IsLatest view old checkout cards n id (surface_check reason) e g h = tt
  view-IsLatest view old checkout cards n id start_checkout e g h = tt
  view-IsLatest view old checkout cards n id surface_changed e g h = h
  view-IsLatest view old checkout cards n id (remove_check button) e g h = tt

  card-IsLatest :
      (card view checkout : Option ℕ) (cards : List (ℕ × ℕ)) (el n id : ℕ) (task : Task)
      → timer_of el cards ≡ card
      → IsOther card id
      → IsLatest view checkout cards id task
      → IsLatest view checkout ((el, n) ∷ cards) id task
  card-IsLatest card view checkout cards el n id send_view e g h = tt
  card-IsLatest card view checkout cards el n id view_seen e g h = h
  card-IsLatest none view checkout cards el n id (card_seen other found) e g h =
      elim (Bool-cases (el == other)) [
        | inl same ↦ absurd (ground arith)
        | inr unlike ↦ rw unlike h
      ]
  card-IsLatest (some m) view checkout cards el n id (card_seen other found) e g h =
      elim (Bool-cases (el == other)) [
        | inl same ↦ absurd (ground arith)
        | inr unlike ↦ rw unlike h
      ]
  card-IsLatest card view checkout cards el n id (surface_check reason) e g h = tt
  card-IsLatest card view checkout cards el n id start_checkout e g h = tt
  card-IsLatest card view checkout cards el n id surface_changed e g h = h
  card-IsLatest card view checkout cards el n id (remove_check button) e g h = tt

  -- A view that is seen again is put off.
  seen-Inside :
      (old : Option ℕ) (t : Tab)
      → t.view_timer ≡ old
      → Inside R t ((clear_timeout old >> (set_timeout 1000 view_seen >>= seen_task)) t).1
  unfolding clear_timeout set_timeout
  seen-Inside none t e = (
    c.order.refl_lem t.world,
    renewed _ _ none t.next_id _ t.timers refl
        (λ x other h.
          view-IsLatest none t.view_timer t.checkout_timer t.card_timers t.next_id x.id x.task e
            other h)
        refl,
  )
  seen-Inside (some id) t e = (
    c.order.refl_lem t.world,
    renewed _ _ (some id) t.next_id _ t.timers refl
        (λ x other h.
          view-IsLatest (some id) t.view_timer t.checkout_timer t.card_timers t.next_id x.id x.task
            e other h)
        refl,
  )

  card-Inside :
      (el : ℕ) (found : ProductData) (old : Option ℕ) (t : Tab)
      → timer_of el t.card_timers ≡ old
      → Inside R t
          ((clear_timeout old >> (set_timeout 1000 (card_seen el found) >>= keep_timer p el)) t).1
  unfolding clear_timeout set_timeout
  card-Inside el found none t e = (
    c.order.refl_lem t.world,
    renewed _ _ none t.next_id _ t.timers refl
        (λ x other h.
          card-IsLatest none t.view_timer t.checkout_timer t.card_timers el t.next_id x.id x.task e
            other h)
        (ground arith),
  )
  card-Inside el found (some id) t e = (
    c.order.refl_lem t.world,
    renewed _ _ (some id) t.next_id _ t.timers refl
        (λ x other h.
          card-IsLatest (some id) t.view_timer t.checkout_timer t.card_timers el t.next_id x.id
            x.task e other h)
        (ground arith),
  )

  on_view_entry-Steps : (e : Bool) → Steps (Inside R) (on_view_entry e)
  unfolding on_view_entry
  on_view_entry-Steps true = record { steps = λ t. seen-Inside t.view_timer t refl }
  on_view_entry-Steps false = record {
    steps = λ t. (clear_timeout-Steps c.order t.view_timer).steps t;
  }

  pub on_view_entries-Steps : (es : List Bool) → Steps (Inside R) (on_view_entries es)
  unfolding on_view_entries
  on_view_entries-Steps [] = pure-Steps o
  on_view_entries-Steps (e ∷ es) = then-Steps o (on_view_entry-Steps e) (on_view_entries-Steps es)

  watch_surface-Steps : (b : Bool) → Steps (Inside R) (watch_surface b)
  watch_surface-Steps true = modify-Steps R _ still
  watch_surface-Steps false = then-Steps o (set_timeout-Steps c.order _ _ refl) (pure-Steps o)

  pub watch_product-Steps : Steps (Inside R) (watch_product p)
  unfolding watch_product
  watch_product-Steps = when-Steps o _ (
      then-Steps o
        (if-Steps o _ (bind-Steps o (lift-Steps (ask-Steps c.order _)) watch_surface-Steps)
          (lift-Steps (send_view_content_once-Steps p R c)))
        (when-Steps o _ (modify-Steps R _ still)))

  pub run_view_seen-Steps : Steps (Inside R) (run_view_seen p)
  unfolding run_view_seen
  run_view_seen-Steps =
      then-Steps o (lift-Steps (send_view_content_once-Steps p R c)) (modify-Steps R _ still)

  pub observe_landing_product_cards-Steps : Steps (Inside R) (observe_landing_product_cards p)
  unfolding observe_landing_product_cards
  observe_landing_product_cards-Steps = when-Steps o _ (modify-Steps R _ still)

  card_entry-Inside :
      (el : ℕ) (is_seen : Bool) (found : Option ProductData) (t : Tab)
      → Inside R t (card_entry p el is_seen (timer_of el t.card_timers) found t).1
  card_entry-Inside el is_seen none t = still t
  card_entry-Inside el true (some found) t = card-Inside el found (timer_of el t.card_timers) t refl
  card_entry-Inside el false (some found) t =
      (clear_timeout-Steps c.order (timer_of el t.card_timers)).steps t

  on_card_entry-Steps : (e : ℕ × Bool) → Steps (Inside R) (on_card_entry p e)
  unfolding on_card_entry
  on_card_entry-Steps (el, is_seen) = record {
    steps = λ t.
        let found = get_product_data_from_element p t.world.dom (some el) in
        watched (contains el t.watched_cards)
          (card_entry p el is_seen (timer_of el t.card_timers) found) t
          (card_entry-Inside el is_seen found t);
  }
    where
      watched :
          (b : Bool) (m : Run Tab (Unit {0})) (t : Tab)
          → Inside R t (m t).1
          → Inside R t (when b m t).1
      watched true m t h = h
      watched false m t h = still t

  pub on_card_entries-Steps : (es : List (ℕ × Bool)) → Steps (Inside R) (on_card_entries p es)
  unfolding on_card_entries
  on_card_entries-Steps [] = pure-Steps o
  on_card_entries-Steps (e ∷ es) = then-Steps o (on_card_entry-Steps e) (on_card_entries-Steps es)

  pub run_card_seen-Steps :
      (el : ℕ) (found : ProductData) → Steps (Inside R) (run_card_seen p el found)
  unfolding run_card_seen
  run_card_seen-Steps el found =
      bind-Steps o (lift-Steps (on_card_seen-Steps p R c found))
        λ new. when-Steps o _ (modify-Steps R _ still)
