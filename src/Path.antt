-- ===== src/Path.antt =====
-- tracker.js: the page's path, as a key of events, and which flow the page belongs to.
pub mod Laws
use full_project.Prelude.{
  ℕ, Bool, true, false, not, ◌&&◌, ◌||◌, List, [], ◌∷◌, ◌==◌, if◌then◌else◌, leb,
}
use full_project.Js.Text.{
  Text, codes, starts, includes, lower, collapse_slashes, or_text, text_eq, replace_runs, is_upper,
  is_lower, is_digit,
}
use full_project.Page.{Config, Location}

-- `/[^a-zA-Z0-9_-]/` leaves these.
abbrev pub is_key_char : ℕ → Bool
is_key_char c = is_lower c || is_upper c || is_digit c || c == b'_' || c == b'-'

-- `path.replace(/\/+$/, '/') || '/'`
abbrev pub tidy : Text → Text
tidy path = or_text (collapse_slashes path) (codes "/")

unfoldable pub is_funnel_path : Text → Bool
is_funnel_path path =
    starts (codes "/step/checkout") path
    || starts (codes "/checkout") path
    || starts (codes "/cart") path

unfoldable pub is_order_search : Text → Bool
is_order_search search = includes (codes "wcf-order=") search || includes (codes "wcf-key=") search

unfoldable pub is_order_path : Text → Bool
is_order_path path = includes (codes "order-received") path || includes (codes "thank-you") path

unfoldable pub canonical_page_path : Location → Text
canonical_page_path l =
    let path = lower (or_text l.pathname (codes "/")) in
    let search = lower l.search in
    if starts (codes "/product/") path
    then tidy path
    else if is_funnel_path path
    then tidy path
    else if is_order_path path || is_order_search search
    then codes "thankyou"
    else tidy path

unfoldable pub current_path_key : Location → Text
current_path_key l = replace_runs is_key_char false (canonical_page_path l)

-- `currentPath`
unfoldable pub current_path : Location → Text
current_path l = lower l.pathname

unfoldable pub is_thank_you_flow_page : Config → Location → Bool
is_thank_you_flow_page cfg l =
    text_eq cfg.page_type (codes "thankyou")
    || is_order_path (current_path l)
    || is_order_search (lower l.search)

unfoldable pub should_send_page_view : Config → Location → Bool
should_send_page_view cfg l =
    if is_thank_you_flow_page cfg l
    then false
    else if text_eq cfg.page_type (codes "checkout")
    then false
    else true

unfoldable pub is_one_page_mode : Config → Bool
is_one_page_mode cfg = text_eq (or_text cfg.tracking_mode (codes "standard")) (codes "one_page")
