-- ===== src/Content.antt =====
-- tracker.js: event payloads, cleaned by `normalizeEventData`, and the prices and products that go
-- into them.
pub mod Laws
pub mod Payload
pub mod Named
use full_project.Prelude.{
  ℕ, zero, suc, ◌+◌, Bool, true, false, not, ◌&&◌, ◌||◌, Option, none, some, List, [], ◌∷◌, ◌==◌,
  if◌then◌else◌, ltb, leb, length, all, String, is_nil,
}
use full_project.Js.Text.{Text, codes, trim, is_upper, is_lower, is_digit, keep_only}
use full_project.Js.Decimal.{ℤ, pos, negsuc, parse_int}
use full_project.Js.Number.{Number, nan, whole, number_truthy, parse_float, is_nan}
use full_project.Js.Value.{
  Value, undefined, null, bool, num, str, arr, obj, dict, Items, nil, cons, Fields, end, field,
  truthy, or_value, is_undefined, is_given, to_text, get, put, remove,
}
use full_project.Campaign.{Marketing}

abbrev is_letter : ℕ → Bool
is_letter c = is_upper c || is_lower c

-- `/^[A-Z]{3}$/i`, the form of a currency code.
abbrev pub is_currency_code : Text → Bool
is_currency_code s = length s == 3 && all is_letter s

-- `isValidContentId(id)`
unfoldable pub is_valid_content_id : Value → Bool
is_valid_content_id id =
    let s = trim (to_text (or_value id (str []))) in not (is_nil s) && not (is_currency_code s)

-- `parseFloat(v) || 0`
unfoldable pub float_or_zero : Value → Value
float_or_zero v = let x = parse_float (to_text v) in num (if number_truthy x then x else whole 0)

-- `Math.max(1, parseInt(quantity || 1, 10))`
unfoldable pub at_least_one : Option ℤ → Number
at_least_one none = nan
at_least_one (some (pos zero)) = whole 1
at_least_one (some (pos (suc n))) = whole (suc n)
at_least_one (some (negsuc n)) = whole 1

unfoldable pub quantity_of : Value → Number
quantity_of quantity = at_least_one (parse_int (to_text (or_value quantity (num (whole 1)))))

-- The fields of `data` that are given, in their order.
unfoldable pub given_fields : Fields → Fields
given_fields end = end
given_fields (field k v r) =
    let rest = given_fields r in if is_given v then field k v rest else rest

abbrev pub trimmed_id : Value → Value
trimmed_id id = str (trim (to_text (or_value id (str []))))

unfoldable pub valid_ids : Items → Items
valid_ids nil = nil
valid_ids (cons id ids) =
    let rest = valid_ids ids in
    if is_valid_content_id (trimmed_id id) then cons (trimmed_id id) rest else rest

-- A value that is no array counts as an array of itself.
abbrev pub as_items : Value → Items
as_items (arr items) = items
as_items v = cons v nil

abbrev pub put_items : String → Items → Fields → Fields
put_items k nil r = remove k r
put_items k (cons v items) r = put k (arr (cons v items)) r

unfoldable pub normalize_content_ids : Fields → Fields
normalize_content_ids out =
    if truthy (get "content_ids" out)
    then put_items "content_ids" (valid_ids (as_items (get "content_ids" out))) out
    else out

-- An item that is no object has none of the fields.
abbrev pub item_fields : Value → Fields
item_fields (obj fields) = fields
item_fields v = end

abbrev pub default_field : String → Value → Fields → Fields
default_field k v r = put k (or_value (get k r) v) r

unfoldable pub price_item : Fields → Fields
price_item item =
    if is_undefined (get "item_price" item) && not (is_undefined (get "price" item))
    then put "item_price" (float_or_zero (get "price" item)) item
    else item

unfoldable pub complete_item : Value → Fields → Fields
complete_item id item =
    let named =
      default_field "content_id" (str (to_text id)) (default_field "id" (str (to_text id)) item) in
    let typed = default_field "content_type" (str (codes "product")) named in
    price_item (put "quantity" (num (quantity_of (get "quantity" typed))) typed)

abbrev pub effective_id : Fields → Value
effective_id item = or_value (get "content_id" item) (get "id" item)

-- The function that `contents` is mapped by; `none` is its `false`.
unfoldable pub normalize_item : Value → Option Value
normalize_item v =
    let item = item_fields v in
    if not (truthy v)
    then none
    else if not (truthy (effective_id item)) || not (is_valid_content_id (effective_id item))
    then none
    else some (obj (complete_item (effective_id item) item))

abbrev pub keep_some : Option Value → Items → Items
keep_some none rest = rest
keep_some (some v) rest = cons v rest

unfoldable pub normalize_items : Items → Items
normalize_items nil = nil
normalize_items (cons v items) = keep_some (normalize_item v) (normalize_items items)

abbrev pub put_contents : Value → Fields → Fields
put_contents (arr items) out = put_items "contents" (normalize_items items) out
put_contents v out = out

unfoldable pub normalize_contents : Fields → Fields
normalize_contents out = put_contents (get "contents" out) out

unfoldable pub items_for : Value → Items → Items
items_for price nil = nil
items_for price (cons id ids) =
    cons
      (obj (
        field "id" (str (to_text id)) (
          field "content_id" (str (to_text id)) (
            field "content_type" (str (codes "product"))
              (field "quantity" (num (whole 1)) (field "item_price" price end))))))
      (items_for price ids)

abbrev pub fallback_price : Items → Value → Value
fallback_price (cons id nil) value = float_or_zero (or_value value (num (whole 0)))
fallback_price ids value = num (whole 0)

-- `if (!out.contents && out.content_ids && out.content_ids.length)`
abbrev pub contents_from : Value → Fields → Fields
contents_from (arr (cons id ids)) out =
    put "contents" (arr (items_for (fallback_price (cons id ids) (get "value" out)) (cons id ids)))
      out
contents_from v out = out

unfoldable pub fallback_contents : Fields → Fields
fallback_contents out =
    if truthy (get "contents" out) then out else contents_from (get "content_ids" out) out

-- `if (!out[key] && marketing[key]) out[key] = marketing[key];`
unfoldable pub fill : String → Text → Fields → Fields
fill k s out = if not (truthy (get k out)) && not (is_nil s) then put k (str s) out else out

unfoldable pub fill_marketing : Marketing → Fields → Fields
fill_marketing m out = fill "campaign_source" m.campaign_source (
    fill "utm_term" m.utm_term (
      fill "utm_content" m.utm_content (
        fill "utm_campaign" m.utm_campaign
          (fill "utm_medium" m.utm_medium (fill "utm_source" m.utm_source out)))))

-- `normalizeEventData(data)`, with what `getMarketingParams` gives.
unfoldable pub normalize_event_data : Marketing → Fields → Fields
normalize_event_data m fields =
    fill_marketing m
      (fallback_contents (normalize_contents (normalize_content_ids (given_fields fields))))
