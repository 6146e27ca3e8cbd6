-- ===== src/Shop/Again.antt =====
-- AddToCart of one product, by a click and by WooCommerce's `added_to_cart`, within two seconds.
use full_project.Prelude.{◌+◌, ◌<◌, ◌≡◌, refl, ap, ◌∙◌, Bool, true, false, ◌∷◌, ◌++◌, some, not}
use full_project.Js.Attempt.{returned}
use full_project.Js.Text.{Text, codes}
use full_project.Js.Value.{Fields, truthy, to_text}
use full_project.Page.{Page}
use full_project.Path.{current_path_key}
use full_project.Once.{Gate, event_once, ttl_ms}
use full_project.Once.Laws.{Works, event_once_early}
use full_project.World.{World, M, ◌>>◌, when, once}
use full_project.World.Steps.{IsPreorder, Steps, Steps-mono, then-Steps}
use full_project.Visitor.{clear_checkout_markers}
use full_project.Visitor.Effects.{clear_checkout_markers-Sends}
use full_project.Send.{send_event}
use full_project.Send.Delivery.{send_event-one_id}
use full_project.Send.Names.{IsStart}
use full_project.Shop.AddToCart.{
  Added, is_rejected_pid, jquery_payload, click_payload, send_add_to_cart, send_added, send_clicked,
}

abbrev SameGate : World → World → Type 0
SameGate w v = v.gate ≡ w.gate

SameGate-IsPreorder : IsPreorder SameGate
SameGate-IsPreorder = record { refl_lem = λ w. refl; trans_lem = λ u v w h g. g ∙ h }

module _ (p : Page) where
  sent-SameGate :
      (payload : Fields)
      → Steps SameGate (clear_checkout_markers p >> send_event p "AddToCart" payload false)
  sent-SameGate payload =
      then-Steps SameGate-IsPreorder
        (Steps-mono (λ w v (h, k). ap (λ u. u.gate) k) (clear_checkout_markers-Sends IsStart p))
        (record {
          steps = λ w.
              let (id, (h, k)) = send_event-one_id p "AddToCart" payload false w in
              ap (λ u. u.gate) k;
        })

  -- The key of `eventOnce`.
  abbrev pub cart_key : Text → Text
  cart_key id = codes "AddToCart:" ++ (id ++ (b':' ∷ current_path_key p.location))

  -- The click at the time of the world is let through.
  abbrev pub IsNew : Text → World → Type 0
  IsNew id w = (event_once (cart_key id) 2 w.now w.gate).0 ≡ true

  send_add_to_cart-gate :
      (id : Text) (payload : Fields) (w : World)
      → (send_add_to_cart p "AddToCart:" id payload w).1.gate
        ≡ (event_once (cart_key id) 2 w.now w.gate).1
  unfolding send_add_to_cart once
  send_add_to_cart-gate id payload w = of (event_once (cart_key id) 2 w.now w.gate)
    where
      of :
          (r : Bool × Gate)
          → (when r.0
              (clear_checkout_markers p >> send_event p "AddToCart" payload false)
              (record w { gate = r.1 })).1.gate
            ≡ r.1
      of (true, g) = (sent-SameGate payload).steps (record w { gate = g })
      of (false, g) = refl

  send_add_to_cart-again :
      (id : Text) (payload later : Fields) (w v : World)
      → Works w.gate
      → 0 < w.now
      → IsNew id w
      → v.gate ≡ (send_add_to_cart p "AddToCart:" id payload w).1.gate
      → v.now < w.now + ttl_ms 2
      → send_add_to_cart p "AddToCart:" id later v ≡ (returned tt, v)
  unfolding send_add_to_cart once
  send_add_to_cart-again id payload later w v works late new gate early =
      let same = gate ∙ send_add_to_cart-gate id payload w in
      let blocked : event_once (cart_key id) 2 v.now v.gate ≡ (false, v.gate) =
        rw same (event_once_early (cart_key id) 2 w.now v.now w.gate works late new early) in
      rw blocked refl

  -- A later world, whose gate is as the other has left it.
  abbrev pub later_on : World → World → World
  later_on u later = record later { gate = u.gate }

  -- Where the storage works: within two seconds of a click on a button that is let through,
  -- WooCommerce's `added_to_cart` for the same identifier sends nothing and changes nothing, and
  -- within two seconds of an `added_to_cart` that is let through, the click does not either, whatever
  -- else the two say of the product, and whatever the world is like by then, as long as the gate is as
  -- the first has left it.
  pub send_added-again :
      (a b : Added) (w later : World)
      → Works w.gate
      → 0 < w.now
      → truthy a.pid ≡ true
      → is_rejected_pid a.pid ≡ false
      → to_text b.pid ≡ to_text a.pid
      → IsNew (to_text a.pid) w
      → later.now < w.now + ttl_ms 2
      → let clicked = later_on (send_clicked p (some a) w).1 later in
        let told = later_on (send_added p a w).1 later in
        (send_added p b clicked ≡ (returned tt, clicked))
        × (send_clicked p (some b) told ≡ (returned tt, told))
  send_added-again a b w later works late there valid same new early =
      let clicked = later_on (send_clicked p (some a) w).1 later in
      let told = later_on (send_added p a w).1 later in
      (
        quiet (not (is_rejected_pid b.pid))
            (send_add_to_cart p "AddToCart:" (to_text b.pid) (jquery_payload p b)) clicked
            (again (click_payload p a) (jquery_payload p b) clicked early
              (ap (λ c. (when c (send (click_payload p a)) w).1.gate) there)),
        quiet (truthy b.pid) (send_add_to_cart p "AddToCart:" (to_text b.pid) (click_payload p b))
            told
            (again (jquery_payload p a) (click_payload p b) told early
              (ap (λ c. (when (not c) (send (jquery_payload p a)) w).1.gate) valid)),
      )
    where
      send : Fields → M (Unit {0})
      send = send_add_to_cart p "AddToCart:" (to_text a.pid)

      again :
          (payload next : Fields) (v : World)
          → v.now < w.now + ttl_ms 2
          → v.gate ≡ (send_add_to_cart p "AddToCart:" (to_text a.pid) payload w).1.gate
          → send_add_to_cart p "AddToCart:" (to_text b.pid) next v ≡ (returned tt, v)
      again payload next v soon gate =
          rw same (send_add_to_cart-again (to_text a.pid) payload next w v works late new gate soon)

      quiet :
          (c : Bool) (m : M (Unit {0})) (v : World)
          → m v ≡ (returned tt, v)
          → when c m v ≡ (returned tt, v)
      quiet true m v h = h
      quiet false m v h = refl
