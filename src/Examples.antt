-- ===== src/Examples.antt =====
-- A shop's page, and what the theorems say of it.
pub mod Life
pub mod Shop
use full_project.Prelude.{
  ◌≡◌, refl, true, false, none, some, List, [], ◌∷◌, arith, ◌⊎◌, all, ◌≢◌, ◌≤◌, ◌+◌, ◌↔◌,
}
use full_project.Js.Attempt.{returned, thrown}
use full_project.Js.Text.{Text, trim, includes, lower, codes, text_eq}
use full_project.Js.Uri.{
  encode_uri, is_scalar, encode_char, is_unreserved, percent_bytes, percent_byte, hex,
}
use full_project.Js.Dict.{lookup}
use full_project.Js.Decimal.{parse_int}
use full_project.Js.Number.{whole}
use full_project.Js.Value.{str, num, Fields, end, field, arr, cons, nil, get, truthy, to_text}
use full_project.Page.{Page, Config, Events, Location, Product}
use full_project.Once.{Gate, Call, event_once, run as calls_run, ttl_ms}
use full_project.Once.Laws.{event_once_at_most_once, event_once_again, event_once_memory}
use full_project.Path.{current_path_key, current_path, is_order_path, is_thank_you_flow_page}
use full_project.Path.Laws.{current_path_key-slug, is_slug_char}
use full_project.Campaign.{Marketing, attribute_marketing, normalize_campaign_value}
use full_project.Campaign.Laws.{
  IsSlug, is_source_key, normalize_campaign_value_lem, attribute_marketing_lem,
}
use full_project.Cookie.{
  Cookie, ahead, match_cookie, cookie_text, get_cookie, set_cookie_local, store, expiry,
}
use full_project.Cookie.Laws.{first, match_cookie-text, get_cookie-set_cookie_local}
use full_project.Content.{normalize_event_data, fill_marketing, is_valid_content_id}
use full_project.Content.Laws.{are_clean_ids, are_ok_contents}
use full_project.Content.Payload.{filled, normalize_event_data_complete, fill_marketing_lem}
use full_project.World.{Dom, World}
use full_project.World.Effects.{Keeps}
use full_project.Send.{send_event}
use full_project.Send.Laws.{Carries}
use full_project.Send.Delivery.{requests, sent, send_event-one_request}
use full_project.Checkout.{Moment, clicked, submitted, run}
use full_project.Checkout.Laws.{Between, Others, run-one_checkout}
use full_project.Shop.AddToCart.{is_rejected_pid}
use full_project.Shop.Laws.{is_rejected_pid-valid}
use full_project.Checkout.Requests.{OneRequest, run-OneRequest}

abbrev all_events : Events
all_events = record {
  pageview = true;
  viewcontent = true;
  addtocart = true;
  checkout = true;
  viewcart = true;
  removefromcart = true;
  addpaymentinfo = true;
  lead = true;
  search = true;
}

abbrev shirt : Product
shirt = record {
  id = 42;
  sku = codes "SHIRT-L";
  name = codes "Shirt";
  price = whole 1250;
  currency = codes "BDT";
  category = codes "Clothes";
}

abbrev config : Config
config = record {
  ajax_url = codes "https://shop.com.bd/wp-admin/admin-ajax.php";
  rest_url = codes "https://shop.com.bd/wp-json/buykorigw/v1/event";
  nonce = codes "a1";
  rest_nonce = codes "b2";
  tracking_mode = codes "standard";
  content_id_format = codes "sku";
  currency = codes "BDT";
  page_type = codes "product";
  search_string = [];
  fb_pixel_id = codes "111";
  tt_pixel_id = [];
  enable_hybrid = true;
  enable_variations = false;
  events = all_events;
  product = some shirt;
  cart = end;
}

abbrev pub product_location : Location
product_location = record {
  href = codes "https://shop.com.bd/product/shirt/";
  pathname = codes "/product/shirt/";
  search = [];
  hostname = codes "shop.com.bd";
}

abbrev pub order_location : Location
order_location = record {
  href = codes "https://shop.com.bd/checkout/order-received/7/";
  pathname = codes "/checkout/order-received/7/";
  search = [];
  hostname = codes "shop.com.bd";
}

abbrev pub page_at : Location → Page
page_at location = record {
  config = config;
  location = location;
  title = codes "Shop";
  query_param = λ key. [];
  accepts_domain = λ domain. true;
  draw = λ n. 4_503_599_627_370_496;
  random_words = none;
  parse_json = λ s. thrown;
  has_fetch = true;
  has_beacon = true;
  has_jquery = true;
  has_intersection_observer = true;
  has_mutation_observer = true;
  is_loading = true;
}

-- One element, which is there for every selector.
abbrev pub button_dom : Dom
button_dom = record {
  query = λ selector. some 0;
  query_all = λ selector. 0 ∷ [];
  query_in = λ el selector. some 0;
  query_all_in = λ el selector. [];
  matches = λ el selector. true;
  closest = λ el selector. some 0;
  attribute = λ el name. none;
  has_class = λ el name. false;
  value = λ el. codes "a@b.bd";
  name = λ el. [];
  input_type = λ el. codes "text";
  tag_name = λ el. codes "BUTTON";
  element_id = λ el. [];
  text_content = λ el. [];
}

abbrev working_gate : Gate
working_gate = record {
  storage = record { items = []; readable = true; writable = true };
  memory = [];
}

-- A storage that is full: it can be read, but not written.
abbrev full_gate : Gate
full_gate = record {
  storage = record { items = []; readable = true; writable = false };
  memory = [];
}

abbrev pub world : World
world = record {
  now = 1_700_000_000_000;
  jar = [];
  gate = working_gate;
  drawn = 0;
  dom = button_dom;
  has_fbq = true;
  has_ttq = false;
  pending = [];
  log = [];
  initiate_checkout_sent = false;
  checkout_intent_bound = true;
  payment_fired = false;
  remove_fired_via_jq = false;
  add_to_cart_fired_via_ajax = false;
}

abbrev pub moments : List Moment
moments =
    record { at = 1_700_000_001_000; dom = button_dom; trigger = clicked 0 }
    ∷ record { at = 1_700_000_002_000; dom = button_dom; trigger = submitted 0 }
    ∷ []

abbrev calls : List Call
calls =
    record { key = codes "PageView:shirt"; ttl_seconds = 600; now = 1_700_000_100_000 }
    ∷ record { key = codes "PageView:cart"; ttl_seconds = 600; now = 1_700_000_200_000 }
    ∷ []

abbrev page_view : Text
page_view = codes "PageView:shirt"

event_once_at_most_once_example :
    (calls_run page_view calls (event_once page_view 600 1_700_000_000_000 working_gate).1).0 ≡ 0
unfolding event_once text_eq ttl_ms parse_int lookup
event_once_at_most_once_example =
    event_once_at_most_once page_view 600 1_700_000_000_000 calls working_gate (refl, refl)
      (omega arith) refl ((omega arith, λ e. refl), ((omega arith, λ e. refl), tt))

event_once_again_example :
    ((event_once page_view 600 1_700_000_000_000 working_gate).0 ≡ true)
    × (((event_once page_view 600 1_700_000_700_000
            (event_once page_view 600 1_700_000_000_000 working_gate).1).0
          ≡ true)
        ↔ (1_700_000_000_000 + ttl_ms 600 ≤ 1_700_000_700_000))
unfolding lookup
event_once_again_example =
    event_once_again page_view 600 1_700_000_000_000 1_700_000_700_000 working_gate (refl, refl)
      (omega arith) refl

event_once_memory_example :
    ((event_once page_view 600 1_700_000_000_000 full_gate).0 ≡ true)
    × ((calls_run page_view calls (event_once page_view 600 1_700_000_000_000 full_gate).1).0 ≡ 0)
unfolding lookup
event_once_memory_example =
    event_once_memory page_view 600 1_700_000_000_000 calls full_gate refl refl refl (omega arith)

current_path_key-slug_example :
    (current_path_key product_location ≢ [])
    × (all is_slug_char (current_path_key product_location) ≡ true)
current_path_key-slug_example = current_path_key-slug product_location

abbrev fb_ads : Text
fb_ads = codes " FB Ads! "

normalize_campaign_value_example :
    (normalize_campaign_value "utm_source" (normalize_campaign_value "utm_source" fb_ads)
      ≡ normalize_campaign_value "utm_source" fb_ads)
    × (is_source_key "utm_source" ≡ true
        → (normalize_campaign_value "utm_source" fb_ads ≡ [])
          ⊎ IsSlug true (normalize_campaign_value "utm_source" fb_ads))
normalize_campaign_value_example = normalize_campaign_value_lem "utm_source" fb_ads

abbrev campaign : Marketing
campaign = record {
  utm_source = [];
  utm_medium = codes "cpc";
  utm_campaign = codes "summer";
  utm_content = [];
  utm_term = [];
  campaign_source = codes "newsletter";
}

attribute_marketing_example :
    let m = attribute_marketing campaign [] (codes "fb.1.1.abc") in
    (m.utm_source ≡ codes "facebook") × (m.campaign_source ≡ codes "facebook")
unfolding normalize_campaign_value trim
attribute_marketing_example = attribute_marketing_lem campaign [] (codes "fb.1.1.abc")

abbrev visitor : Cookie
visitor = record {
  name = codes "_buykorigw_vid";
  value = codes "bk.1.2";
  domain = [];
  expires = none;
}

abbrev fbp : Cookie
fbp = record { name = codes "_fbp"; value = codes "fb.1.1.2"; domain = []; expires = none }

match_cookie-text_example :
    match_cookie (codes "_fbp") (cookie_text (visitor ∷ fbp ∷ []))
    ≡ first (codes "_fbp") (visitor ∷ fbp ∷ [])
match_cookie-text_example = match_cookie-text (codes "_fbp") (visitor ∷ fbp ∷ []) refl (
  record { name_plain = refl; value_plain = refl },
  (record { name_plain = refl; value_plain = refl }, tt),
)

abbrev ttclid_cookie : Cookie
ttclid_cookie = record {
  name = codes "_ttclid";
  value = codes "E%20C";
  domain = codes "shop.com.bd";
  expires = some (expiry (ahead 90_000) 1_700_000_000_000);
}

get_cookie-set_cookie_local_example :
    get_cookie (codes "_ttclid") 1_700_000_500_000 (store ttclid_cookie (visitor ∷ []))
    ≡ returned (codes "E C")
unfolding set_cookie_local store text_eq encode_uri is_scalar encode_char is_unreserved
    percent_bytes percent_byte hex expiry
get_cookie-set_cookie_local_example =
    get_cookie-set_cookie_local (codes "shop.com.bd") (codes "_ttclid") (codes "E C") (ahead 90_000)
      1_700_000_000_000 1_700_000_500_000 (visitor ∷ []) (store ttclid_cookie (visitor ∷ [])) refl
      (record { name_plain = refl; value_plain = refl }, tt) (λ e. cc, tt) (λ e. cc) refl
      (omega arith)

abbrev one_item : Fields
one_item =
    field "content_ids" (arr (cons (str (codes " 42 ")) (cons (str (codes "BDT")) nil)))
      (field "value" (num (whole 1250)) end)

normalize_event_data_complete_example :
    let out = normalize_event_data campaign one_item in
    (are_clean_ids (get "content_ids" out) ≡ true)
    × (are_ok_contents (get "contents" out) ≡ true)
    × (truthy (get "content_ids" out) ≡ true → truthy (get "contents" out) ≡ true)
normalize_event_data_complete_example = normalize_event_data_complete campaign one_item

fill_marketing_example :
    let after = fill_marketing campaign one_item in
    (get "utm_source" after ≡ filled (get "utm_source" one_item) campaign.utm_source)
    × (get "utm_medium" after ≡ filled (get "utm_medium" one_item) campaign.utm_medium)
    × (get "utm_campaign" after ≡ filled (get "utm_campaign" one_item) campaign.utm_campaign)
    × (get "utm_content" after ≡ filled (get "utm_content" one_item) campaign.utm_content)
    × (get "utm_term" after ≡ filled (get "utm_term" one_item) campaign.utm_term)
    × (get "campaign_source" after
        ≡ filled (get "campaign_source" one_item) campaign.campaign_source)
fill_marketing_example = fill_marketing_lem campaign one_item

send_event-one_request_example :
    let after_call = send_event (page_at product_location) "AddToCart" one_item false world in
    requests after_call.1.log ≡ sent after_call.0 + requests world.log
send_event-one_request_example =
    send_event-one_request (page_at product_location) "AddToCart" one_item world

run-one_checkout_example : Between world (run (page_at product_location) moments world)
run-one_checkout_example = run-one_checkout (page_at product_location) moments world

is_rejected_pid-valid_example : is_rejected_pid (str (codes "SHIRT-L")) ≡ false
unfolding is_valid_content_id trim to_text
is_rejected_pid-valid_example = is_rejected_pid-valid (str (codes "SHIRT-L")) refl

run-OneRequest_example : OneRequest world (run (page_at product_location) moments world)
run-OneRequest_example = run-OneRequest (page_at product_location) moments world
