-- ===== src/Browser/Kept/Parts.antt =====
-- The start of the checkout's tracking, the remove buttons and the payment methods.
use full_project.Prelude.{ℕ, ◌≡◌, List, refl, arith, Option, none, some}
use full_project.Page.{Page}
use full_project.World.{World, ◌>>◌, ◌>>=◌}
use full_project.World.Steps.{IsPreorder, Steps, pure-Steps, then-Steps, if-Steps, when-Steps}
use full_project.Checkout.{mutation_timer}
use full_project.Checkout.Handlers.{bind-Steps as bind_intent-Steps, handle-Steps}
use full_project.World.{Dom}
use full_project.Send.Calm.{IsCalm}
use full_project.Browser.{
  Tab, Task, send_view, view_seen, card_seen, surface_check, start_checkout, surface_changed,
  remove_check, clear_timeout, set_timeout, modify,
}
use full_project.Browser.Timers.{IsLatest, IsOther, renewed}
use full_project.Browser.Parts.{
  on_mutation, wait_for_surface, wait_for_removal, remove_button, on_remove_click,
  schedule_checkout_surface_checks, run_start_checkout, watch_checkout, unwatch_done,
  run_surface_changed, watch_payment, on_payment_change, on_payment_selected, fire_checked,
  on_payment_mutation, is_done,
}
use full_project.Browser.Kept.{
  IsKept, Inside, Inside-IsPreorder, Inside-same, modify-Steps, lift-Steps, set_timeout-Steps,
}

module _ (p : Page) (R : World → World → Type 0) (c : IsCalm p R) where
  o : IsPreorder (Inside R)
  o = Inside-IsPreorder c.order

  still : (t : Tab) → Inside R t t
  still = Inside-same c.order

  checkout-IsLatest :
      (checkout old view : Option ℕ) (cards : List (ℕ × ℕ)) (n id : ℕ) (task : Task)
      → old ≡ checkout
      → IsOther checkout id
      → IsLatest view old cards id task
      → IsLatest view (some n) cards id task
  checkout-IsLatest checkout old view cards n id send_view e g h = tt
  checkout-IsLatest checkout old view cards n id view_seen e g h = h
  checkout-IsLatest checkout old view cards n id (card_seen el found) e g h = h
  checkout-IsLatest checkout old view cards n id (surface_check reason) e g h = tt
  checkout-IsLatest checkout old view cards n id start_checkout e g h = tt
  checkout-IsLatest none old view cards n id surface_changed e g h = cc
  checkout-IsLatest (some m) old view cards n id surface_changed e g h = ground arith
  checkout-IsLatest checkout old view cards n id (remove_check button) e g h = tt

  -- A change of the document puts the look at the checkout off.
  surface-Inside :
      (old : Option ℕ) (t : Tab)
      → t.checkout_timer ≡ old
      → Inside R t
          ((clear_timeout old
              >> (set_timeout 150 surface_changed >>= λ id.
                  modify (λ u. record u { checkout_timer = some id })))
            t).1
  unfolding clear_timeout set_timeout
  surface-Inside none t e = (
    c.order.refl_lem t.world,
    renewed _ _ none t.next_id _ t.timers refl
        (λ x other h.
          checkout-IsLatest none t.checkout_timer t.view_timer t.card_timers t.next_id x.id x.task e
            other h)
        refl,
  )
  surface-Inside (some id) t e = (
    c.order.refl_lem t.world,
    renewed _ _ (some id) t.next_id _ t.timers refl
        (λ x other h.
          checkout-IsLatest (some id) t.checkout_timer t.view_timer t.card_timers t.next_id x.id
            x.task e other h)
        refl,
  )

  wait_for_surface-Steps : Steps (Inside R) wait_for_surface
  wait_for_surface-Steps = record { steps = λ t. surface-Inside t.checkout_timer t refl }

  pub on_mutation-Steps : Steps (Inside R) on_mutation
  unfolding on_mutation
  on_mutation-Steps = record {
    steps = λ t.
        (when-Steps o t.watches_checkout
            (if-Steps o (is_done t.world) (modify-Steps R _ still) wait_for_surface-Steps)).steps
          t;
  }

  wait_for_removal-Steps : (button : Option ℕ) → Steps (Inside R) (wait_for_removal button)
  wait_for_removal-Steps none = pure-Steps o
  wait_for_removal-Steps (some button) =
      then-Steps o (set_timeout-Steps c.order _ _ refl) (pure-Steps o)

  pub on_remove_click-Steps : (target : ℕ) → Steps (Inside R) (on_remove_click target)
  unfolding on_remove_click
  on_remove_click-Steps target = record {
    steps = λ t.
        (when-Steps o t.on_removal
            (wait_for_removal-Steps (remove_button t.world.dom target))).steps
          t;
  }

  schedule_checkout_surface_checks-Steps : Steps (Inside R) (schedule_checkout_surface_checks p)
  unfolding schedule_checkout_surface_checks
  schedule_checkout_surface_checks-Steps = record {
    steps = λ t.
        (when-Steps o _ (
            then-Steps o
              (then-Steps o (set_timeout-Steps c.order _ _ refl)
                (set_timeout-Steps c.order _ _ refl))
              (pure-Steps o))).steps
          t;
  }

  pub run_start_checkout-Steps : Steps (Inside R) (run_start_checkout p)
  unfolding run_start_checkout
  run_start_checkout-Steps =
      then-Steps o (lift-Steps (bind_intent-Steps p R c))
        (when-Steps o _ schedule_checkout_surface_checks-Steps)

  pub watch_checkout-Steps : Steps (Inside R) (watch_checkout p)
  unfolding watch_checkout
  watch_checkout-Steps = when-Steps o _ (
      then-Steps o
        (then-Steps o (then-Steps o run_start_checkout-Steps (modify-Steps R _ still))
          (set_timeout-Steps c.order _ _ refl))
        (when-Steps o _ (modify-Steps R _ still)))

  pub watch_payment-Steps : Steps (Inside R) (watch_payment p)
  unfolding watch_payment
  watch_payment-Steps = when-Steps o _ (modify-Steps R _ still)

module _ (p : Page) (R : World → World → Type 0) (k : IsKept p R) where
  order : IsPreorder (Inside R)
  order = Inside-IsPreorder k.calm.order

  unwatch_done-Steps : Steps (Inside R) (unwatch_done p)
  unwatch_done-Steps = record {
    steps = λ t. (when-Steps order _ (modify-Steps R _ (still p R k.calm))).steps t;
  }

  pub run_surface_changed-Steps : Steps (Inside R) (run_surface_changed p)
  unfolding run_surface_changed
  run_surface_changed-Steps = record {
    steps = λ t.
        (then-Steps order
            (lift-Steps (handle-Steps p R k.calm k.checkout mutation_timer t.world.dom))
            unwatch_done-Steps).steps
          t;
  }

  pub on_payment_change-Steps : (target : ℕ) → Steps (Inside R) (on_payment_change p target)
  unfolding on_payment_change
  on_payment_change-Steps target = record {
    steps = λ t. (when-Steps order _ (lift-Steps (k.payment _))).steps t;
  }

  pub on_payment_selected-Steps : Steps (Inside R) (on_payment_selected p)
  unfolding on_payment_selected
  on_payment_selected-Steps = record {
    steps = λ t. (when-Steps order _ (lift-Steps (k.payment _))).steps t;
  }

  fire_checked-Steps : (dom : Dom) (el : Option ℕ) → Steps (Inside R) (fire_checked p dom el)
  fire_checked-Steps dom none = pure-Steps order
  fire_checked-Steps dom (some el) = lift-Steps (k.payment _)

  pub on_payment_mutation-Steps : Steps (Inside R) (on_payment_mutation p)
  unfolding on_payment_mutation
  on_payment_mutation-Steps = record {
    steps = λ t. (when-Steps order _ (fire_checked-Steps t.world.dom _)).steps t;
  }
