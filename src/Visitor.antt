-- ===== src/Visitor.antt =====
-- tracker.js: who the visitor is, by the identifiers that it keeps in first-party cookies and those
-- of Google Analytics, TikTok and Facebook, and the campaign that brought the visitor.
pub mod Quiet
pub mod Effects
pub mod Markers
pub mod Stable
use full_project.Prelude.{
  ℕ, zero, suc, ◌+◌, ◌/◌, ◌%◌, not, ◌&&◌, ◌||◌, Option, none, some, List, [], ◌∷◌, ◌++◌, ◌==◌,
  if◌then◌else◌, ltb, length, leb, is_nil, String,
}
use full_project.Js.Text.{Text, codes, split, trim, starts, text_eq}
use full_project.Js.Decimal.{show}
use full_project.Js.Uri.{encode_uri}
use full_project.Js.Attempt.{returned, thrown}
use full_project.Page.{Page}
use full_project.Campaign.{Marketing, attribute_marketing, normalize_campaign_value}
use full_project.Cookie.{Days, ahead, back, store, live, cookie_text}
use full_project.Cookie.Domain.{last_parts, join_dots}
use full_project.World.{M, pure, ◌>>=◌, ◌>>◌, when, read_cookie, write_cookie, random_from}

abbrev hex_digit : ℕ → ℕ
hex_digit d = if ltb d 10 then b'0' + d else 87 + d

hex_from : ℕ → ℕ → Text → Text
hex_from zero n out = out
hex_from (suc fuel) n out =
    let longer = hex_digit (n % 16) ∷ out in
    let rest = hex_from fuel (n / 16) longer in if n / 16 == 0 then longer else rest

-- `n.toString(16)`
unfoldable pub show_hex : ℕ → Text
unfolding hex_from
show_hex n = hex_from (suc n) n []

-- `parts[2]`, if there are three.
third_part : List Text → Option Text
third_part (a ∷ b ∷ c ∷ parts) = some c
third_part _ = none

second_part : List Text → Text
second_part (a ∷ b ∷ parts) = b
second_part _ = []

-- One round of the loop of `getGA4SessionId`.
session_of : Text → Option Text
unfolding third_part second_part
session_of cookie =
    let c = trim cookie in
    if starts (codes "_ga_") c then third_part (split b'.' (second_part (split b'=' c))) else none

first_session : List Text → Text
unfolding session_of
first_session [] = []
first_session (cookie ∷ cookies) = elim (session_of cookie) [
  | none ↦ first_session cookies
  | some session ↦ session
]

-- `fb.1.<now>.<rest>`
abbrev pub fb_id : ℕ → Text → Text
fb_id now rest = codes "fb.1." ++ (show now ++ (b'.' ∷ rest))

-- The last part of a text at its dots, as `split('.').pop()`.
abbrev last_part : Text → Text
last_part s = join_dots (last_parts 1 (split b'.' s))

pub now_of : M ℕ
now_of w = (returned w.now, w)

-- The characters of the template `xxxxxxxx-xxxx-4xxx-yxxx-xxxxxxxxxxxx`, with a draw for each `x`
-- and `y`: `r & 0x3 | 0x8` is `8 + r % 4`.
abbrev pub ttp_char : ℕ → ℕ → ℕ
ttp_char c r = if c == b'x' then hex_digit r else hex_digit (8 + r % 4)

module _ (p : Page) where
  abbrev random_words_text : Option (ℕ → ℕ × ℕ × ℕ × ℕ) → M Text
  random_words_text none w = (random_from p 9_000_000_000 1_000_000_000 >>= λ r. pure (show r)) w
  random_words_text (some words) w =
      let (a, b, c, d) = words w.drawn in
      (
        returned (show_hex a ++ (show_hex b ++ (show_hex c ++ show_hex d))),
        record w { drawn = suc w.drawn },
      )

  -- `createVisitorId()`
  unfoldable pub create_visitor_id : M Text
  unfolding now_of
  create_visitor_id = do
    now ← now_of
    rest ← random_words_text p.random_words
    pure (codes "bk." ++ (show now ++ (b'.' ∷ rest)))

  abbrev pub visitor_or_new : Text → M Text
  visitor_or_new [] = do
    created ← create_visitor_id
    write_cookie p (codes "_buykorigw_vid") created (ahead 180_000)
    pure created
  visitor_or_new (c ∷ vid) = pure (c ∷ vid)

  -- `getExternalId()`
  unfoldable pub get_external_id : M Text
  get_external_id = read_cookie p (codes "_buykorigw_vid") >>= visitor_or_new

  -- `getTikTokClickId()`
  unfoldable pub get_tiktok_click_id : M Text
  get_tiktok_click_id =
      let given = p.query_param (codes "ttclid") in
      let stored = read_cookie p (codes "_ttclid") in if is_nil given then stored else pure given

  -- `persistTikTokClickId()`
  unfoldable pub persist_tiktok_click_id : M (Unit {0})
  persist_tiktok_click_id =
      let ttclid = p.query_param (codes "ttclid") in
      when (not (is_nil ttclid)) (write_cookie p (codes "_ttclid") ttclid (ahead 90_000))

  -- `getGA4ClientId()`
  unfoldable pub get_ga4_client_id : M Text
  get_ga4_client_id = read_cookie p (codes "_ga") >>= λ ga.
      let parts = split b'.' ga in
      pure (if leb 4 (length parts) then join_dots (last_parts 2 parts) else [])

  -- `getGA4SessionId()`
  unfoldable pub get_ga4_session_id : M Text
  unfolding first_session
  get_ga4_session_id w = (returned (first_session (split b';' (cookie_text (live w.now w.jar)))), w)

  -- `getQueryParam(key) || getCookie('_buykorigw_' + key)`
  campaign_value : String → M Text
  campaign_value key =
      let given = p.query_param (codes key) in
      let stored = read_cookie p (codes "_buykorigw_" ++ codes key) in
      if is_nil given then stored else pure given

  -- `getMarketingParams()`; the click identifiers are read only where no source is known.
  unfoldable pub get_marketing_params : M Marketing
  unfolding campaign_value
  get_marketing_params = do
    utm_source ← campaign_value "utm_source"
    utm_medium ← campaign_value "utm_medium"
    utm_campaign ← campaign_value "utm_campaign"
    utm_content ← campaign_value "utm_content"
    utm_term ← campaign_value "utm_term"
    campaign_source ← campaign_value "campaign_source"
    let no_source = is_nil (normalize_campaign_value "utm_source" utm_source)
    ttclid ← if no_source then get_tiktok_click_id else pure []
    fbc ← if no_source && is_nil ttclid then read_cookie p (codes "_fbc") else pure []
    pure (
        attribute_marketing
          (record {
            utm_source = utm_source;
            utm_medium = utm_medium;
            utm_campaign = utm_campaign;
            utm_content = utm_content;
            utm_term = utm_term;
            campaign_source = campaign_source;
          })
          ttclid fbc)

  -- `markInitiateCheckoutSent(eventId)`: both markers live for 20 minutes.
  unfoldable pub mark_initiate_checkout_sent : Text → M (Unit {0})
  unfolding now_of
  mark_initiate_checkout_sent event_id = do
    now ← now_of
    write_cookie p (codes "_buykorigw_ic_sent") (show (now / 1000)) (ahead 14)
    when (not (is_nil event_id))
        (write_cookie p (codes "_buykorigw_ic_event_id") event_id (ahead 14))

  -- `clearCheckoutMarkers()`
  unfoldable pub clear_checkout_markers : M (Unit {0})
  clear_checkout_markers = do
    write_cookie p (codes "_buykorigw_ic_sent") [] (back 1000)
    write_cookie p (codes "_buykorigw_ic_event_id") [] (back 1000)

  -- One key of `persistMarketingParams`: a cookie of the host alone, for thirty days.
  unfoldable pub persist_marketing_param : String → M (Unit {0})
  persist_marketing_param key w =
      let value = normalize_campaign_value key (p.query_param (codes key)) in
      if is_nil value then (returned tt, w) else elim (encode_uri value) [
        | thrown ↦ (thrown, w)
        | returned encoded ↦ (
          returned tt,
          record w {
            jar =
                store
                  (record {
                    name = codes "_buykorigw_" ++ codes key;
                    value = encoded;
                    domain = [];
                    expires = some (w.now + 2_592_000_000);
                  })
                  w.jar;
          },
        )
      ]

  -- `persistMarketingParams()`
  unfoldable pub persist_marketing_params : M (Unit {0})
  unfolding persist_marketing_param
  persist_marketing_params = do
    persist_marketing_param "utm_source"
    persist_marketing_param "utm_medium"
    persist_marketing_param "utm_campaign"
    persist_marketing_param "utm_content"
    persist_marketing_param "utm_term"
    persist_marketing_param "campaign_source"

  unfoldable pub ttp_from : Text → M Text
  ttp_from [] = pure []
  ttp_from (c ∷ template) =
      let rest = ttp_from template in
      let drawn = random_from p 16 0 >>= λ r. rest >>= λ s. pure (ttp_char c r ∷ s) in
      let copied = rest >>= λ s. pure (c ∷ s) in
      if c == b'x' then drawn else if c == b'y' then drawn else copied

  -- `if (!getCookie(name)) setCookieLocal(name, value, days)`, where `make` computes the value.
  unfoldable pub ensure_cookie : Text → M Text → Days → M (Unit {0})
  ensure_cookie name make days = do
    current ← read_cookie p name
    when (is_nil current) (make >>= λ value. write_cookie p name value days)

  -- The cookie `_fbc` follows the query's click identifier.
  unfoldable pub ensure_fbc : Text → M (Unit {0})
  unfolding now_of
  ensure_fbc fbclid = do
    current ← read_cookie p (codes "_fbc")
    now ← now_of
    when (is_nil current || not (text_eq (last_part current) fbclid))
        (write_cookie p (codes "_fbc") (fb_id now fbclid) (ahead 90_000))

  unfoldable pub new_fbp : M Text
  unfolding now_of
  new_fbp = do
    now ← now_of
    r ← random_from p 9_000_000_000 1_000_000_000
    pure (fb_id now (show r))

  -- `ensureFirstPartyCookies()`
  unfoldable pub ensure_first_party_cookies : M (Unit {0})
  unfolding ttp_from ensure_cookie ensure_fbc new_fbp
  ensure_first_party_cookies = do
    ensure_cookie (codes "_fbp") new_fbp (ahead 90_000)
    let fbclid = p.query_param (codes "fbclid")
    when (not (is_nil fbclid)) (ensure_fbc fbclid)
    ensure_cookie (codes "_ttp") (ttp_from (codes "xxxxxxxx-xxxx-4xxx-yxxx-xxxxxxxxxxxx"))
        (ahead 90_000)
    ensure_cookie (codes "_buykorigw_vid") create_visitor_id (ahead 180_000)
