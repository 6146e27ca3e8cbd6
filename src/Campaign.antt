-- ===== src/Campaign.antt =====
-- tracker.js: campaign parameters, from the query, from the cookies of an earlier visit, or from the
-- click identifiers of TikTok and Facebook.
pub mod Laws
use full_project.Prelude.{
  ℕ, Bool, true, false, not, ◌&&◌, ◌||◌, List, [], ◌∷◌, ◌++◌, ◌==◌, if◌then◌else◌, leb, length,
  is_nil, any, String,
}
use text.Mathlib.Text.{◌==◌ as str_eq}
use full_project.Js.Text.{
  Text, codes, starts, lower, or_text, text_eq, replace_runs, is_lower, is_digit, trim, strip,
}

-- `.` does not match these.
abbrev is_line_end : ℕ → Bool
is_line_end c = c == 10 || c == 13 || c == 0x2028 || c == 0x2029

unfoldable pub ends : Text → Text → Bool
unfolding text_eq
ends p [] = is_nil p
ends p (c ∷ s) = text_eq p (c ∷ s) || ends p s

-- `/^__.*__$/`
unfoldable pub is_macro : Text → Bool
unfolding starts ends
is_macro s =
    leb 4 (length s) && starts (codes "__") s && ends (codes "__") s && not (any is_line_end s)

abbrev pub is_source_char : ℕ → Bool
is_source_char c = is_lower c || is_digit c

abbrev pub is_underscore : ℕ → Bool
is_underscore c = c == b'_'

-- `value.toLowerCase().replace(/[^a-z0-9]+/g, '_').replace(/^_+|_+$/g, '')`
unfoldable pub slug : Text → Text
unfolding lower replace_runs strip
slug value = strip is_underscore (replace_runs is_source_char false (lower value))

unfoldable pub normalize_campaign_value : String → Text → Text
normalize_campaign_value key given =
    let value = trim given in
    if is_nil value || is_macro value
    then []
    else if str_eq key "utm_source" || str_eq key "campaign_source"
    then slug value
    else value

pub record Marketing : Type 0 where
  pub utm_source : Text
  pub utm_medium : Text
  pub utm_campaign : Text
  pub utm_content : Text
  pub utm_term : Text
  pub campaign_source : Text

-- `if (!out.campaign_source && out.utm_source) out.campaign_source = out.utm_source;`
copy_source : Marketing → Marketing
copy_source m =
    if is_nil m.campaign_source && not (is_nil m.utm_source)
    then record m { campaign_source = m.utm_source }
    else m

from_tiktok : Text → Marketing → Marketing
from_tiktok ttclid m =
    if is_nil m.utm_source && not (is_nil ttclid)
    then record m { utm_source = codes "tiktok" }
    else m

from_facebook : Text → Marketing → Marketing
from_facebook fbc m =
    if is_nil m.utm_source && not (is_nil fbc)
    then record m { utm_source = codes "facebook"; campaign_source = codes "facebook" }
    else m

-- `getMarketingParams` on the values that the query or else the cookie gives for each key, the
-- TikTok click identifier and the cookie `_fbc`.
unfoldable pub attribute_marketing : Marketing → Text → Text → Marketing
unfolding copy_source from_tiktok from_facebook
attribute_marketing given ttclid fbc = from_facebook fbc (
    copy_source (
      from_tiktok ttclid (
        copy_source (record {
          utm_source = normalize_campaign_value "utm_source" given.utm_source;
          utm_medium = normalize_campaign_value "utm_medium" given.utm_medium;
          utm_campaign = normalize_campaign_value "utm_campaign" given.utm_campaign;
          utm_content = normalize_campaign_value "utm_content" given.utm_content;
          utm_term = normalize_campaign_value "utm_term" given.utm_term;
          campaign_source = normalize_campaign_value "campaign_source" given.campaign_source;
        }))))
