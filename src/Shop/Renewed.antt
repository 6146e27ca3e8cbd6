-- ===== src/Shop/Renewed.antt =====
-- The identifier of InitiateCheckout after an AddToCart.
use full_project.Prelude.{◌≡◌, refl, ap, ◌∙◌, true, false, [], ◌∷◌, ◌++◌, String, All}
use full_project.Js.Attempt.{Attempt, returned}
use full_project.Js.Text.{Text, codes, text_eq}
use full_project.Js.Value.{Fields}
use full_project.Page.{Page}
use full_project.Path.{current_path_key}
use full_project.Once.{event_once}
use full_project.Cookie.{get_cookie}
use full_project.Cookie.Laws.{IsPlain, HasOneDomain}
use full_project.Cookie.Cleared.{HasOne}
use full_project.World.{World, M, pure, ◌>>=◌, ◌>>◌, after, when, once}
use full_project.Visitor.{mark_initiate_checkout_sent, clear_checkout_markers}
use full_project.Visitor.Markers.{
  domain, is_accepted, id_cookie, clear_checkout_markers-read, clear_checkout_markers-returned,
  clear_checkout_markers-IsPlain,
}
use full_project.Send.{fresh_event_id, choose_event_id, send_event}
use full_project.Send.Framed.{send_event-Leaves}
use full_project.Send.Marked.{choose_event_id-unread}
use full_project.Shop.AddToCart.{send_add_to_cart}

module _ (p : Page) (payload : Fields) where
  -- What an AddToCart does once the gate has let it through.
  abbrev let_through : M (Unit {0})
  let_through = clear_checkout_markers p >> send_event p "AddToCart" payload false

  after-returned_world :
      (r : Attempt (Unit {0}) × World) (k : M (Unit {0}))
      → r.0 ≡ returned tt
      → (after r (λ x. k)).1 ≡ (k r.1).1
  after-returned_world r k e = ap (λ o. (after (o, r.1) (λ x. k)).1) e

  let_through-unread :
      (w u : World)
      → is_accepted p ≡ true
      → All IsPlain w.jar
      → HasOneDomain (id_cookie p) (domain p) w.jar
      → HasOne (id_cookie p) w.jar
      → u.jar ≡ (let_through w).1.jar
      → get_cookie (id_cookie p) u.now u.jar ≡ returned []
  unfolding text_eq
  let_through-unread w u taken plain one single jar =
      let v = (clear_checkout_markers p w).1 in
      let cleared = ap (λ r. (r, v)) (clear_checkout_markers-returned p w) in
      let (plain_later, same) =
        send_event-Leaves p (id_cookie p) "AddToCart" payload false v refl refl refl
          (clear_checkout_markers-IsPlain p w v cleared plain) in
      let sent =
        after-returned_world (clear_checkout_markers p w) (send_event p "AddToCart" payload false)
          (clear_checkout_markers-returned p w) in
      ap (get_cookie (id_cookie p) u.now) (jar ∙ ap (λ x. x.jar) sent)
      ∙ same u.now
      ∙ clear_checkout_markers-read p w v u.now taken plain one single cleared

-- Once an AddToCart has been let through by its gate, whether its `sendEvent` returns or throws, the
-- next InitiateCheckout takes a fresh identifier and keeps that, so that a new cart is a new checkout:
-- where the browser takes the page's domain, keeps its cookies plain, and had at most one cookie of
-- the identifier's name, of the page's domain, and as long as the cookies are those.
pub send_add_to_cart-fresh :
    (p : Page) (prefix : String) (id : Text) (payload : Fields) (w u : World)
    → is_accepted p ≡ true
    → All IsPlain w.jar
    → HasOneDomain (id_cookie p) (domain p) w.jar
    → HasOne (id_cookie p) w.jar
    → (event_once (codes prefix ++ (id ++ (b':' ∷ current_path_key p.location))) 2 w.now w.gate).0
      ≡ true
    → u.jar ≡ (send_add_to_cart p prefix id payload w).1.jar
    → choose_event_id p "InitiateCheckout" u
      ≡ (fresh_event_id p "InitiateCheckout" >>= λ id. mark_initiate_checkout_sent p id >> pure id)
          u
unfolding send_add_to_cart once
send_add_to_cart-fresh p prefix id payload w u taken plain one single new jar =
    let key = codes prefix ++ (id ++ (b':' ∷ current_path_key p.location)) in
    let gated = record w { gate = (event_once key 2 w.now w.gate).1 } in
    choose_event_id-unread p u (
      let_through-unread p payload gated u taken plain one single
        (jar ∙ ap (λ b. (when b (let_through p payload) gated).1.jar) new))
