-- ===== src/Checkout/Orders.antt =====
-- The click on the button that places the order.
use full_project.Prelude.{
  ℕ, ◌≡◌, refl, ◌∙◌, ap, Bool, true, false, not, ◌||◌, List, ◌∷◌, inl, inr, if◌then◌else◌,
}
use full_project.Js.Attempt.{Attempt, returned, thrown}
use full_project.Js.Text.{Text, codes}
use full_project.Page.{Page}
use full_project.Path.{is_thank_you_flow_page}
use full_project.World.{World, M, after, when}
use full_project.Send.{send_event}
use full_project.Send.FormFields.{has_strong_customer_data}
use full_project.Send.Delivery.{send_event-one_id}
use full_project.Checkout.{
  Moment, clicked, exists, place_order_selector, checkout_payload, send_initiate_checkout_once,
  send_initiate_checkout_when_ready, handle, arrive, step, run, is_listening, checkout_selector,
  has_checkout_cart_data,
}
use full_project.Checkout.Guards.{marked}
use full_project.Checkout.Laws.{Between, run-one_checkout}

module _ (p : Page) where
  -- What `sendInitiateCheckoutOnce` sends behind its guards.
  abbrev pub order_event : Moment → World → Attempt (Unit {0}) × World
  order_event m w =
      send_event p "InitiateCheckout" (checkout_payload p m.dom (codes "place_order_click")) true
        (marked (arrive p m w))

  past_guards :
      (b c d : Bool) (r s : Attempt (Unit {0}) × World)
      → b ≡ true
      → c ≡ false
      → d ≡ false
      → (if not b then r else if c then r else if d then r else s) ≡ s
  past_guards b c d r s tracked shop unsent = rw tracked (rw shop (rw unsent refl))

  if-same :
      (b : Bool) (w : World) (r : Attempt (Unit {0}) × World)
      → r.1 ≡ w
      → (if b then (returned tt, w) else r).1 ≡ w
  if-same true w r h = refl
  if-same false w r h = h

  -- Once the flag is up, nothing more is done.
  once-sent :
      (reason : Text) (synchronous : Bool) (w : World)
      → w.initiate_checkout_sent ≡ true
      → (send_initiate_checkout_once p reason synchronous w).1 ≡ w
  unfolding send_initiate_checkout_once
  once-sent reason synchronous w sent =
      if-same (not p.config.events.checkout) w _
        (if-same (is_thank_you_flow_page p.config p.location) w _ (rw sent refl))

  when-same : (b : Bool) (m : M (Unit {0})) (w : World) → (m w).1 ≡ w → (when b m w).1 ≡ w
  when-same true m w h = h
  when-same false m w h = refl

  ready-sent :
      (reason : Text) (force synchronous : Bool) (w : World)
      → w.initiate_checkout_sent ≡ true
      → (send_initiate_checkout_when_ready p reason force synchronous w).1 ≡ w
  unfolding send_initiate_checkout_when_ready
  ready-sent reason force synchronous w sent =
      when-same (force || has_strong_customer_data w.dom)
        (send_initiate_checkout_once p reason synchronous) w (once-sent reason synchronous w sent)

  after-same :
      (r : Attempt (Unit {0}) × World) (k : M (Unit {0}))
      → ((v : World) → v.initiate_checkout_sent ≡ true → (k v).1 ≡ v)
      → r.1.initiate_checkout_sent ≡ true
      → (after r (λ _. k)).1 ≡ r.1
  after-same (returned x, v) k h e = h v e
  after-same (thrown, v) k h e = refl

  module _ (m : Moment) (w : World) (el : ℕ) (is_click : m.trigger ≡ clicked el)
      (on_button : exists (m.dom.closest el place_order_selector) ≡ true)
      (is_bound : w.checkout_intent_bound ≡ true) (is_tracked : p.config.events.checkout ≡ true)
      (in_shop : is_thank_you_flow_page p.config p.location ≡ false)
      (unsent : w.initiate_checkout_sent ≡ false) where
    order_event-sent : (order_event m w).1.initiate_checkout_sent ≡ true
    order_event-sent =
        let given = checkout_payload p m.dom (codes "place_order_click") in
        let (id, (h, k)) =
          send_event-one_id p "InitiateCheckout" given true (marked (arrive p m w)) in
        ap (λ u. u.initiate_checkout_sent) k

    abbrev placed : World → Attempt (Unit {0}) × World
    placed =
        when (exists (m.dom.closest el place_order_selector))
          (send_initiate_checkout_when_ready p (codes "place_order_click") true true)

    abbrev afterwards : M (Unit {0})
    afterwards = when (exists (m.dom.closest el checkout_selector)) (
        send_initiate_checkout_when_ready p (codes "checkout_button_click")
          (has_checkout_cart_data p m.dom) true)

    placed-order_event : placed (arrive p m w) ≡ order_event m w
    unfolding send_initiate_checkout_when_ready send_initiate_checkout_once
    placed-order_event = rw on_button (past_guards _ _ _ _ _ is_tracked in_shop unsent)

    afterwards-same : (v : World) → v.initiate_checkout_sent ≡ true → (afterwards v).1 ≡ v
    afterwards-same v sent =
        let reason = codes "checkout_button_click" in
        let force = has_checkout_cart_data p m.dom in
        when-same (exists (m.dom.closest el checkout_selector))
          (send_initiate_checkout_when_ready p reason force true) v
          (ready-sent reason force true v sent)

    step-order_event : step p m w ≡ (order_event m w).1
    unfolding step handle
    step-order_event =
        let found = arrive p m w in
        ap (λ t. (when (is_listening p t w) (handle p t m.dom) found).1) is_click
        ∙ ap (λ b. (when b (handle p (clicked el) m.dom) found).1) is_bound
        ∙ ap (λ r. (after r (λ _. afterwards)).1) placed-order_event
        ∙ after-same (order_event m w) afterwards afterwards-same order_event-sent

    -- A click on the button that places the order, on a page that tracks checkouts, has its listeners
    -- and is not of the thank-you flow, when nothing has raised the flag: the click does exactly what
    -- the synchronous InitiateCheckout of the reason `place_order_click` does, and the flag is up from
    -- then on, whatever happens later.
    pub step-sends :
        (ms : List Moment)
        → (step p m w ≡ (order_event m w).1) × ((run p (m ∷ ms) w).initiate_checkout_sent ≡ true)
    unfolding run
    step-sends ms =
        let v = step p m w in
        let up = ap (λ u. u.initiate_checkout_sent) step-order_event ∙ order_event-sent in
        (step-order_event, kept v (run p ms v) (run-one_checkout p ms v) up)
      where
        kept :
            (u v : World)
            → Between u v
            → u.initiate_checkout_sent ≡ true
            → v.initiate_checkout_sent ≡ true
        kept u v (inl (h, e)) up = e ∙ up
        kept u v (inr (down, raised, id, more)) up = raised
