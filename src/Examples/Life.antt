-- ===== src/Examples/Life.antt =====
-- The same page with its timers, observers and listeners, and what the theorems say of its life.
use full_project.Prelude.{
  ℕ, ◌≤◌, Bool, ◌||◌, ◌≡◌, ◌↔◌, ◌⊎◌, refl, true, false, none, ◌&&◌, List, [], ◌∷◌, any, arith,
}
use full_project.Js.Attempt.{returned}
use full_project.Js.Text.{codes, text_eq, lower, includes}
use full_project.Js.Value.{end}
use full_project.Path.{is_thank_you_flow_page, is_order_path, is_order_search, current_path}
use full_project.World.{Dom}
use full_project.Js.Text.{Text, text_eq_refl}
use full_project.Js.Uri.{
  encode_uri, is_scalar, encode_char, is_unreserved, percent_bytes, percent_byte, hex,
}
use full_project.Js.Decimal.{show}
use full_project.Cookie.{
  get_cookie, match_cookie, match_at, match_later, after_prefix, cookie_text, live as live_cookies,
  set_cookie_local, expiry,
}
use full_project.World.{World, pure, ◌>>=◌, ◌>>◌, read_cookie, random_from, write_cookie}
use full_project.Visitor.Stable.{get_external_id-kept}
use full_project.Visitor.Markers.{id_cookie, domain}
use full_project.Visitor.{
  create_visitor_id, get_external_id, clear_checkout_markers, mark_initiate_checkout_sent,
}
use full_project.Send.Marked.{choose_event_id-marked, choose_event_id-cleared}
use full_project.Send.{fresh_event_id, choose_event_id, send_event}
use full_project.Send.FormFields.{has_strong_customer_data}
use full_project.Send.Settle.{answered, failed, settle_fetch}
use full_project.Send.Fallback.{AddsForm, settle_fetch_lem}
use full_project.Send.Thrown.{send_event-IsClean}
use full_project.Send.Customer.{
  is_filled, email_selectors, phone_selectors, has_strong_customer_data_lem,
}
use full_project.Checkout.{Moment, clicked, validate_email, step, run}
use full_project.Checkout.Email.{IsEmail, validate_email_lem}
use full_project.Checkout.Orders.{order_event, step-sends}
use full_project.Checkout.Laws.{Others}
use full_project.Checkout.Requests.{is_sent}
use full_project.Browser.{Tab, start_checkout}
use full_project.Browser.Script.{
  Happening, content_loaded, click, change, payment_method_selected, timer_fired, fetch_settled,
  mutation, view_entries, fresh, start, live,
}
use full_project.Browser.Life.{start-Others, live-Between, live-thank_you, OthersSent, OneSent}
use full_project.Browser.Requests.{OneDelivery, is_fired, live-OneRequest, live-OnePayment}
use full_project.Browser.PutOff.{count, is_surface, is_view, is_card, live-timers}
use full_project.Browser.Settle.{settle, settle-timers}
use full_project.Examples.{product_location, order_location, page_at, button_dom, world}

start-Others_example :
    Others (fresh world).world (start (page_at product_location) (fresh world)).1.world
start-Others_example = start-Others (page_at product_location) (fresh world)

abbrev happenings : List Happening
happenings =
    record { at = 1_700_000_000_400; dom = button_dom; event = content_loaded }
    ∷ record { at = 1_700_000_001_200; dom = button_dom; event = timer_fired 1 }
    ∷ record { at = 1_700_000_002_000; dom = button_dom; event = click 0 }
    ∷ record { at = 1_700_000_003_000; dom = button_dom; event = change 0 }
    ∷ record { at = 1_700_000_003_000; dom = button_dom; event = payment_method_selected }
    ∷ record { at = 1_700_000_004_000; dom = button_dom; event = fetch_settled 0 failed }
    ∷ record { at = 1_700_000_005_000; dom = button_dom; event = fetch_settled 1 (answered false) }
    ∷ []

live-Between_example :
    OneSent (fresh world).world (live (page_at product_location) happenings world).world
live-Between_example = live-Between (page_at product_location) happenings world

live-thank_you_example :
    OthersSent (fresh world).world (live (page_at order_location) happenings world).world
unfolding is_thank_you_flow_page text_eq is_order_path includes current_path lower
live-thank_you_example = live-thank_you (page_at order_location) happenings world refl

live-OneRequest_example :
    OneDelivery "InitiateCheckout" is_sent
      (fresh world).world
      (live (page_at product_location) happenings world).world
live-OneRequest_example = live-OneRequest (page_at product_location) happenings world

live-OnePayment_example :
    OneDelivery "AddPaymentInfo" is_fired
      (fresh world).world
      (live (page_at product_location) happenings world).world
live-OnePayment_example = live-OnePayment (page_at product_location) happenings world

abbrev changes : List Happening
changes =
    record { at = 1_700_000_000_400; dom = button_dom; event = mutation }
    ∷ record { at = 1_700_000_000_450; dom = button_dom; event = view_entries (true ∷ true ∷ []) }
    ∷ record { at = 1_700_000_000_500; dom = button_dom; event = mutation }
    ∷ []

live-timers_example :
    let timers = (live (page_at product_location) changes world).timers in
    (count is_surface timers ≤ 1) × (count is_view timers ≤ 1) × (count (is_card 0) timers ≤ 1)
live-timers_example = live-timers (page_at product_location) changes world 0

abbrev waiting : Tab
waiting = record (fresh world) {
  timers = record { id = 1; delay = 1200; task = start_checkout } ∷ [];
}

-- The second timer of two fires before the first.
abbrev firings : List (ℕ × ℕ × Dom)
firings =
    (0, 1_700_000_001_200, button_dom)
    ∷ (1, 1_700_000_002_400, button_dom)
    ∷ (0, 1_700_000_005_200, button_dom)
    ∷ []

settle-timers_example : (settle (page_at product_location) firings waiting).timers ≡ []
settle-timers_example = settle-timers (page_at product_location) firings waiting (omega arith)

send_event-IsClean_example :
    let after_call = send_event (page_at product_location) "AddToCart" end true world in
    (after_call.0 ≡ returned tt) ⊎ (after_call.1.log ≡ world.log)
send_event-IsClean_example = send_event-IsClean (page_at product_location) "AddToCart" end world

validate_email_example : (validate_email (codes "a@b.com.bd") ≡ true) ↔ IsEmail (codes "a@b.com.bd")
validate_email_example = validate_email_lem (codes "a@b.com.bd")

has_strong_customer_data_example :
    has_strong_customer_data button_dom
    ≡ (any (is_filled button_dom) email_selectors && any (is_filled button_dom) phone_selectors)
has_strong_customer_data_example = has_strong_customer_data_lem button_dom

abbrev order_click : Moment
order_click = record { at = 1_700_000_001_000; dom = button_dom; trigger = clicked 0 }

step-sends_example :
    (step (page_at product_location) order_click world
      ≡ (order_event (page_at product_location) order_click world).1)
    × ((run (page_at product_location) (order_click ∷ []) world).initiate_checkout_sent ≡ true)
unfolding is_thank_you_flow_page text_eq is_order_path is_order_search includes current_path lower
step-sends_example =
    step-sends (page_at product_location) order_click world 0 refl refl refl refl refl refl []

abbrev kept_id : Text
kept_id = codes "wp_InitiateCheckout_1700000000_5500"

abbrev next_page : World
next_page = record (mark_initiate_checkout_sent (page_at product_location) kept_id world).1 {
  now = 1_700_000_600_000;
}

pub or_true : (b : Bool) → (b || true) ≡ true
or_true true = refl
or_true false = refl

choose_event_id-marked_example :
    choose_event_id (page_at product_location) "InitiateCheckout" next_page
    ≡ (mark_initiate_checkout_sent (page_at product_location) kept_id >> pure kept_id) next_page
unfolding mark_initiate_checkout_sent write_cookie set_cookie_local encode_uri is_scalar encode_char
    is_unreserved percent_bytes percent_byte hex expiry show
choose_event_id-marked_example =
    choose_event_id-marked (page_at product_location) kept_id world next_page (or_true _) tt tt
      (λ e. cc) refl refl (omega arith)

abbrev made_id : Text
made_id = codes "bk.1700000000000.5500000000"

abbrev next_visit : World
next_visit = record (get_external_id (page_at product_location) world).1 { now = 1_710_000_000_000 }

get_external_id-kept_example :
    get_external_id (page_at product_location) next_visit ≡ (returned made_id, next_visit)
unfolding get_external_id read_cookie get_cookie match_cookie match_at match_later after_prefix
    cookie_text live_cookies create_visitor_id random_from write_cookie set_cookie_local encode_uri
    is_scalar encode_char is_unreserved percent_bytes percent_byte hex expiry show
get_external_id-kept_example =
    get_external_id-kept (page_at product_location) made_id world next_visit (or_true _) tt tt refl
      refl refl (omega arith)

-- A visitor with the identifier of a checkout.
abbrev pub marked_world : World
marked_world = record world {
  jar =
      record {
        name = id_cookie (page_at product_location);
        value = codes "wp_1";
        domain = domain (page_at product_location);
        expires = none;
      }
      ∷ [];
}

abbrev cleared_world : World
cleared_world = record (clear_checkout_markers (page_at product_location) marked_world).1 {
  now = 1_700_000_700_000;
}

choose_event_id-cleared_example :
    choose_event_id (page_at product_location) "InitiateCheckout" cleared_world
    ≡ (fresh_event_id (page_at product_location) "InitiateCheckout" >>= λ id.
          mark_initiate_checkout_sent (page_at product_location) id >> pure id)
        cleared_world
unfolding clear_checkout_markers write_cookie set_cookie_local encode_uri
choose_event_id-cleared_example =
    choose_event_id-cleared (page_at product_location) marked_world cleared_world (or_true _)
      (record { name_plain = refl; value_plain = refl }, tt) ((λ k. text_eq_refl _), tt)
      ((λ k. tt), tt) refl refl

settle_fetch_example :
    (settle_fetch
        (page_at product_location)
        (answered true)
        "InitiateCheckout"
        end
        kept_id
        marked_world
      ≡ (returned tt, marked_world))
    × AddsForm
        (page_at product_location)
        (answered false)
        "InitiateCheckout"
        end
        kept_id
        marked_world
    × AddsForm (page_at product_location) failed "InitiateCheckout" end kept_id marked_world
settle_fetch_example =
    settle_fetch_lem (page_at product_location) "InitiateCheckout" end kept_id marked_world
