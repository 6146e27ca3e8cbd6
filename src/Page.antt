-- ===== src/Page.antt =====
-- What tracker.js is given: `window.buykorigw_config` as includes/frontend-tracking.php writes it,
-- the location, and the browser's answers that stay the same while the page lives.
use full_project.Prelude.{ℕ, Bool, Option}
use full_project.Js.Text.{Text}
use full_project.Js.Number.{Number}
use full_project.Js.Attempt.{Attempt}
use full_project.Js.Value.{Value, Fields}

-- `cfg.product`
pub record Product : Type 0 where
  pub id : ℕ
  pub sku : Text
  pub name : Text
  pub price : Number
  pub currency : Text
  pub category : Text

-- `cfg.events`; where it is missing, every switch is off.
pub record Events : Type 0 where
  pub pageview : Bool
  pub viewcontent : Bool
  pub addtocart : Bool
  pub checkout : Bool
  pub viewcart : Bool
  pub removefromcart : Bool
  pub addpaymentinfo : Bool
  pub lead : Bool
  pub search : Bool

-- `cfg`; a text that is missing is empty, and `cart` is `cfg.cart || {}`.
pub record Config : Type 0 where
  pub ajax_url : Text
  pub rest_url : Text
  pub nonce : Text
  pub rest_nonce : Text
  pub tracking_mode : Text
  pub content_id_format : Text
  pub currency : Text
  pub page_type : Text
  pub search_string : Text
  pub fb_pixel_id : Text
  pub tt_pixel_id : Text
  pub enable_hybrid : Bool
  pub enable_variations : Bool
  pub events : Events
  pub product : Option Product
  pub cart : Fields

-- `window.location`
pub record Location : Type 0 where
  pub href : Text
  pub pathname : Text
  pub search : Text
  pub hostname : Text

-- `query_param` is `new URLSearchParams(location.search).get(name) || ''`, `accepts_domain` tells
-- the domains for which the browser takes a cookie, and `draw` gives the results of
-- `Math.random()`, as multiples of 2 ^ -53, in order. `random_words` are the four words of
-- `crypto.getRandomValues`, where it exists, and `parse_json` is `JSON.parse`. `is_loading` tells
-- whether `document.readyState` is 'loading' when the script runs.
pub record Page : Type 0 where
  pub config : Config
  pub location : Location
  pub title : Text
  pub query_param : Text → Text
  pub accepts_domain : Text → Bool
  pub draw : ℕ → ℕ
  pub random_words : Option (ℕ → ℕ × ℕ × ℕ × ℕ)
  pub parse_json : Text → Attempt Value
  pub has_fetch : Bool
  pub has_beacon : Bool
  pub has_jquery : Bool
  pub has_intersection_observer : Bool
  pub has_mutation_observer : Bool
  pub is_loading : Bool

abbrev pub config_of : Page → Config
config_of p = p.config
