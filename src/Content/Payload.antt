-- ===== src/Content/Payload.antt =====
-- The payload that `normalizeEventData` returns, as a whole.
use full_project.Prelude.{
  ◌≡◌, refl, true, false, ◌||◌, Option, none, some, if◌then◌else◌, is_nil, arith, Bool-cases, inl,
  inr,
}
use full_project.Js.Text.{Text}
use full_project.Js.Value.{
  Value, undefined, str, arr, Items, nil, cons, Fields, truthy, to_text, get, get-put, get-remove,
}
use full_project.Campaign.{Marketing}
use full_project.Content.Laws.{
  is_clean_id, all_items, are_clean_ids, is_ok_item, are_ok_contents, normalize_content_ids-clean,
  put_contents-other, fallback_contents-other, get-fill, normalize_item-ok, valid_text,
}
use full_project.Content.{
  given_fields, put_items, normalize_content_ids, normalize_item, keep_some, normalize_items,
  put_contents, normalize_contents, items_for, fallback_price, contents_from, fallback_contents,
  fill_marketing, normalize_event_data,
}

all_items-keep_some :
    (o : Option Value) (items : Items)
    → all_items is_ok_item (keep_some o nil) ≡ true
    → all_items is_ok_item items ≡ true
    → all_items is_ok_item (keep_some o items) ≡ true
all_items-keep_some none items h k = k
all_items-keep_some (some v) items h k = ground arith

normalize_items-ok : (items : Items) → all_items is_ok_item (normalize_items items) ≡ true
unfolding normalize_items
normalize_items-ok nil = refl
normalize_items-ok (cons v items) =
    all_items-keep_some (normalize_item v) (normalize_items items) (normalize_item-ok v)
      (normalize_items-ok items)

put_items-ok :
    (items : Items) (out : Fields)
    → all_items is_ok_item items ≡ true
    → are_ok_contents (get "contents" (put_items "contents" items out)) ≡ true
put_items-ok nil out h = rw (get-remove "contents" "contents" out) refl
put_items-ok (cons v items) out h = rw (get-put "contents" "contents" (arr (cons v items)) out) h

put_contents-ok :
    (v : Value) (out : Fields)
    → get "contents" out ≡ v
    → are_ok_contents (get "contents" (put_contents v out)) ≡ true
put_contents-ok (arr items) out e =
    put_items-ok (normalize_items items) out (normalize_items-ok items)
put_contents-ok undefined out e = rw e refl
put_contents-ok v out e = rw e refl

items_for-ok :
    (price : Value) (ids : Items)
    → all_items is_clean_id ids ≡ true
    → all_items is_ok_item (items_for price ids) ≡ true
unfolding items_for get to_text
items_for-ok price nil h = refl
items_for-ok price (cons (str s) ids) h = ground (arith, items_for-ok price ids, valid_text s)
items_for-ok price (cons undefined ids) h = cc
items_for-ok price (cons v ids) h = cc

-- What the contents are after the fallback, and that they are there if identifiers are.
contents_from-ok :
    (v : Value) (out : Fields)
    → are_clean_ids v ≡ true
    → truthy (get "contents" out) ≡ false
    → are_ok_contents (get "contents" out) ≡ true
    → (are_ok_contents (get "contents" (contents_from v out)) ≡ true)
      × (truthy v ≡ true → truthy (get "contents" (contents_from v out)) ≡ true)
contents_from-ok (arr nil) out c t h = (h, λ p. cc)
contents_from-ok (arr (cons id ids)) out c t h =
    let price = fallback_price (cons id ids) (get "value" out) in
    rw (get-put "contents" "contents" (arr (items_for price (cons id ids))) out)
      (unfold items_for in items_for-ok price (cons id ids) c, λ p. unfold items_for in refl)
contents_from-ok undefined out c t h = (h, λ p. cc)
contents_from-ok v out c t h = (h, λ p. ground arith)

fallback_contents-ok :
    (out : Fields)
    → are_clean_ids (get "content_ids" out) ≡ true
    → are_ok_contents (get "contents" out) ≡ true
    → (are_ok_contents (get "contents" (fallback_contents out)) ≡ true)
      × (truthy (get "content_ids" out) ≡ true
          → truthy (get "contents" (fallback_contents out)) ≡ true)
unfolding fallback_contents
fallback_contents-ok out c h = elim (Bool-cases (truthy (get "contents" out))) [
  | inl t ↦ rw t (h, λ p. t)
  | inr f ↦ rw f (contents_from-ok (get "content_ids" out) out c f h)
]

get_contents-fill_marketing :
    (m : Marketing) (out : Fields)
    → (get "contents" (fill_marketing m out) ≡ get "contents" out)
      × (get "content_ids" (fill_marketing m out) ≡ get "content_ids" out)
unfolding fill_marketing
get_contents-fill_marketing m out = (simp get-fill, simp get-fill)

-- Whatever is handed to `normalizeEventData`, the payload that it returns has
--   content identifiers that are falsy, or an array, not empty, of trimmed and valid identifiers;
--   contents that are no array, or an array, not empty, whose items each have both identifiers, the
--   one in front valid, a type, and a quantity that is at least 1 or not a number;
--   and contents wherever it has content identifiers.
pub normalize_event_data_complete :
    (m : Marketing) (fields : Fields)
    → let out = normalize_event_data m fields in
      (are_clean_ids (get "content_ids" out) ≡ true)
      × (are_ok_contents (get "contents" out) ≡ true)
      × (truthy (get "content_ids" out) ≡ true → truthy (get "contents" out) ≡ true)
unfolding normalize_event_data normalize_contents
normalize_event_data_complete m fields =
    let a = normalize_content_ids (given_fields fields) in
    let b = put_contents (get "contents" a) a in
    let (same_contents, same_ids) = get_contents-fill_marketing m (fallback_contents b) in
    let ids_b : get "content_ids" b ≡ get "content_ids" a =
      put_contents-other "content_ids" (get "contents" a) a refl in
    let ids : get "content_ids" (fallback_contents b) ≡ get "content_ids" b =
      fallback_contents-other "content_ids" b refl in
    let clean : are_clean_ids (get "content_ids" b) ≡ true =
      rw ids_b (normalize_content_ids-clean (given_fields fields)) in
    let (ok, there) = fallback_contents-ok b clean (put_contents-ok (get "contents" a) a refl) in
    rw (same_contents, same_ids, ids) (clean, ok, there)

abbrev pub filled : Value → Text → Value
filled v s = if truthy v || is_nil s then v else str s

-- A campaign parameter that the event itself gives is never replaced, and one that it does not give
-- is that of the page, if the page has it.
pub fill_marketing_lem :
    (m : Marketing) (out : Fields)
    → let after = fill_marketing m out in
      (get "utm_source" after ≡ filled (get "utm_source" out) m.utm_source)
      × (get "utm_medium" after ≡ filled (get "utm_medium" out) m.utm_medium)
      × (get "utm_campaign" after ≡ filled (get "utm_campaign" out) m.utm_campaign)
      × (get "utm_content" after ≡ filled (get "utm_content" out) m.utm_content)
      × (get "utm_term" after ≡ filled (get "utm_term" out) m.utm_term)
      × (get "campaign_source" after ≡ filled (get "campaign_source" out) m.campaign_source)
unfolding fill_marketing
fill_marketing_lem m out = (
  simp get-fill (ground arith),
  simp get-fill (ground arith),
  simp get-fill (ground arith),
  simp get-fill (ground arith),
  simp get-fill (ground arith),
  simp get-fill (ground arith),
)
