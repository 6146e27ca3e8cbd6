-- ===== src/Examples/Shop.antt =====
-- A shop's page that adds to the cart, and what the theorems say of what is sent of an event.
use full_project.Prelude.{ℕ, ◌≡◌, refl, true, false, none, some, [], All, arith}
use full_project.Js.Attempt.{returned}
use full_project.Js.Text.{Text, codes, trim, text_eq, text_eq_refl}
use full_project.Js.Number.{whole}
use full_project.Js.Value.{str, Fields, end, field, num, to_text}
use full_project.Once.{event_once}
use full_project.Js.Decimal.{parse_int}
use full_project.Js.Dict.{lookup}
use full_project.World.{World, pure, ◌>>=◌, ◌>>◌}
use full_project.World.Effects.{Keeps, Adds}
use full_project.Send.{fresh_event_id, choose_event_id, send_event}
use full_project.Send.Agreement.{Tells, send_event-Tells}
use full_project.Pixels.{UserData, initialize_hybrid_pixels}
use full_project.Pixels.Data.{IsShared, StartsWith, initialize_hybrid_pixels-IsShared}
use full_project.Shop.AddToCart.{
  Added, is_rejected_pid, send_add_to_cart, send_added, send_clicked, send_intent,
}
use full_project.Product.{ProductData}
use full_project.Content.{is_valid_content_id}
use full_project.Shop.Named.{TellsOne, add_to_cart-TellsOne}
use full_project.Shop.Again.{later_on, send_added-again}
use full_project.Js.Uri.{encode_uri, is_scalar, encode_char, is_unreserved}
use full_project.Cookie.{get_cookie, set_cookie_local, store, expiry, ahead}
use full_project.Cookie.Laws.{IsPlain}
use full_project.Cookie.Frame.{get_cookie-other}
use full_project.Visitor.{mark_initiate_checkout_sent}
use full_project.Visitor.Markers.{id_cookie}
use full_project.Send.Framed.{send_event-Leaves}
use full_project.Shop.Renewed.{send_add_to_cart-fresh}
use full_project.Examples.Life.{or_true, marked_world}
use full_project.Examples.{product_location, page_at, world}

abbrev price : Fields
price = field "value" (num (whole 500)) (field "currency" (str (codes "BDT")) end)

send_event-Tells_example :
    (event_data : Fields) × (event_id : Text) × Keeps
      (Tells "AddToCart" event_data event_id)
      world
      (send_event (page_at product_location) "AddToCart" price false world).1
send_event-Tells_example = send_event-Tells (page_at product_location) "AddToCart" price false world

initialize_hybrid_pixels-IsShared_example :
    (d : UserData) × IsShared d
    × Adds
        (StartsWith (page_at product_location) world d)
        world
        (initialize_hybrid_pixels (page_at product_location) world).1
initialize_hybrid_pixels-IsShared_example =
    initialize_hybrid_pixels-IsShared (page_at product_location) world

abbrev clicked_shirt : Added
clicked_shirt = record {
  pid = str (codes "42");
  name = codes "Shirt";
  price = whole 500;
  attributes = none;
}

abbrev told_shirt : Added
told_shirt = record { pid = str (codes "42"); name = []; price = whole 0; attributes = none }

-- A second later.
abbrev second_later : World
second_later = record world { now = 1_700_000_001_000 }

send_added-again_example :
    let clicked =
      later_on
        (page_at product_location)
        (send_clicked (page_at product_location) (some clicked_shirt) world).1
        second_later in
    let told =
      later_on
        (page_at product_location)
        (send_added (page_at product_location) clicked_shirt world).1
        second_later in
    (send_added (page_at product_location) told_shirt clicked ≡ (returned tt, clicked))
    × (send_clicked (page_at product_location) (some told_shirt) told ≡ (returned tt, told))
unfolding event_once is_rejected_pid lookup trim to_text parse_int
send_added-again_example =
    send_added-again (page_at product_location) clicked_shirt told_shirt world second_later
      (refl, refl) (omega arith) refl refl refl refl (omega arith)

send_event-Leaves_example :
    let v = (send_event (page_at product_location) "AddToCart" price false marked_world).1 in
    All IsPlain v.jar
    × ((later : ℕ)
        → get_cookie (codes "_ttclid") later v.jar
          ≡ get_cookie (codes "_ttclid") later marked_world.jar)
unfolding text_eq
send_event-Leaves_example =
    send_event-Leaves (page_at product_location) (codes "_ttclid") "AddToCart" price false
      marked_world refl refl refl (record { name_plain = refl; value_plain = refl }, tt)

-- The cookie of TikTok's click, beside that of the checkout.
get_cookie-other_example :
    get_cookie (id_cookie (page_at product_location)) 1_700_000_000_000 (
      store
        (record {
          name = codes "_ttclid";
          value = codes "abc";
          domain = codes "shop.example";
          expires = some (expiry (ahead 90_000) 1_600_000_000_000);
        })
        marked_world.jar)
    ≡ get_cookie (id_cookie (page_at product_location)) 1_700_000_000_000 marked_world.jar
unfolding text_eq set_cookie_local encode_uri is_scalar encode_char is_unreserved
get_cookie-other_example =
    get_cookie-other (codes "shop.example") (id_cookie (page_at product_location)) (codes "_ttclid")
      (codes "abc") true (ahead 90_000) 1_600_000_000_000 1_700_000_000_000 marked_world.jar _ refl
      refl refl (record { name_plain = refl; value_plain = refl }, tt) refl

send_add_to_cart-fresh_example :
    let u =
      (send_add_to_cart
        (page_at product_location)
        "AddToCart:"
        (codes "42")
        price
        marked_world).1 in
    choose_event_id (page_at product_location) "InitiateCheckout" u
    ≡ (fresh_event_id (page_at product_location) "InitiateCheckout" >>= λ id.
          mark_initiate_checkout_sent (page_at product_location) id >> pure id)
        u
unfolding event_once lookup parse_int
send_add_to_cart-fresh_example =
    send_add_to_cart-fresh (page_at product_location) "AddToCart:" (codes "42") price marked_world
      (send_add_to_cart (page_at product_location) "AddToCart:" (codes "42") price marked_world).1
      (or_true _) (record { name_plain = refl; value_plain = refl }, tt) ((λ k. text_eq_refl _), tt)
      ((λ k. tt), tt) refl refl

abbrev cap : ProductData
cap = record {
  id = codes "cap-7";
  raw_id = codes "7";
  name = codes "Cap";
  price = whole 200;
  currency = codes "BDT";
  category = [];
}

add_to_cart-TellsOne_example :
    TellsOne (codes "42") world (send_added (page_at product_location) clicked_shirt world).1
    × TellsOne
        (codes "42")
        world
        (send_clicked (page_at product_location) (some clicked_shirt) world).1
    × TellsOne (codes "cap-7") world (send_intent (page_at product_location) (some cap) world).1
unfolding to_text is_valid_content_id trim
add_to_cart-TellsOne_example =
    add_to_cart-TellsOne (page_at product_location) clicked_shirt cap world refl refl
