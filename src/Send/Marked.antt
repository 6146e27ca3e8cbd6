-- ===== src/Send/Marked.antt =====
-- The identifier of InitiateCheckout from one call to the next, and from one page to the next.
use full_project.Prelude.{◌<◌, ◌≡◌, ◌≢◌, refl, ◌∙◌, ap, true, [], ◌∷◌, All}
use full_project.Js.Attempt.{returned}
use full_project.Js.Text.{Text}
use full_project.Page.{Page}
use full_project.Cookie.{ahead, expiry, get_cookie}
use full_project.Cookie.Laws.{IsPlain, HasOneDomain}
use full_project.Cookie.Cleared.{HasOne}
use full_project.World.{World, pure, ◌>>=◌, ◌>>◌, after, read_cookie}
use full_project.Visitor.{mark_initiate_checkout_sent, clear_checkout_markers}
use full_project.Visitor.Markers.{
  domain, is_accepted, id_cookie, mark_initiate_checkout_sent-read, clear_checkout_markers-read,
}
use full_project.Send.{fresh_event_id, choose_event_id, checkout_event_id}

-- Once `markInitiateCheckoutSent` has kept an identifier, InitiateCheckout takes that identifier and
-- keeps it again, as long as the cookies are those and the marker has not expired: where the browser
-- takes the page's domain, keeps its cookies plain, and has no cookie of that name for another domain.
pub choose_event_id-marked :
    (p : Page) (event_id : Text) (w u : World)
    → is_accepted p ≡ true
    → All IsPlain w.jar
    → HasOneDomain (id_cookie p) (domain p) w.jar
    → event_id ≢ []
    → (mark_initiate_checkout_sent p event_id w).0 ≡ returned tt
    → u.jar ≡ (mark_initiate_checkout_sent p event_id w).1.jar
    → u.now < expiry (ahead 14) w.now
    → choose_event_id p "InitiateCheckout" u
      ≡ (mark_initiate_checkout_sent p event_id >> pure event_id) u
unfolding choose_event_id read_cookie
choose_event_id-marked p [] w u taken plain one some_id marked jar early = absurd (some_id refl)
choose_event_id-marked p (c ∷ event_id) w u taken plain one some_id marked jar early =
    let v = (mark_initiate_checkout_sent p (c ∷ event_id) w).1 in
    let read =
      ap (get_cookie (id_cookie p) u.now) jar
      ∙ mark_initiate_checkout_sent-read p (c ∷ event_id) w v u.now taken plain one some_id
          (ap (λ r. (r, v)) marked) early in
    ap
      (λ r.
        after (after (r, u) (checkout_event_id p))
          (λ id. mark_initiate_checkout_sent p id >> pure id))
      read

-- Where no identifier is read, InitiateCheckout takes a fresh one and keeps that.
pub choose_event_id-unread :
    (p : Page) (u : World)
    → get_cookie (id_cookie p) u.now u.jar ≡ returned []
    → choose_event_id p "InitiateCheckout" u
      ≡ (fresh_event_id p "InitiateCheckout" >>= λ id. mark_initiate_checkout_sent p id >> pure id)
          u
unfolding choose_event_id read_cookie
choose_event_id-unread p u read =
    ap
      (λ r.
        after (after (r, u) (checkout_event_id p))
          (λ id. mark_initiate_checkout_sent p id >> pure id))
      read

-- Once `clearCheckoutMarkers` has run, as AddToCart and the thank-you page have it, InitiateCheckout
-- takes a fresh identifier and keeps that: where the browser takes the page's domain, keeps its
-- cookies plain, and has at most one cookie of that name, of the page's domain.
pub choose_event_id-cleared :
    (p : Page) (w u : World)
    → is_accepted p ≡ true
    → All IsPlain w.jar
    → HasOneDomain (id_cookie p) (domain p) w.jar
    → HasOne (id_cookie p) w.jar
    → (clear_checkout_markers p w).0 ≡ returned tt
    → u.jar ≡ (clear_checkout_markers p w).1.jar
    → choose_event_id p "InitiateCheckout" u
      ≡ (fresh_event_id p "InitiateCheckout" >>= λ id. mark_initiate_checkout_sent p id >> pure id)
          u
choose_event_id-cleared p w u taken plain one single cleared jar =
    let v = (clear_checkout_markers p w).1 in
    let read =
      ap (get_cookie (id_cookie p) u.now) jar
      ∙ clear_checkout_markers-read p w v u.now taken plain one single (ap (λ r. (r, v)) cleared) in
    choose_event_id-unread p u read
