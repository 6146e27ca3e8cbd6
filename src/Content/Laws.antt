-- ===== src/Content/Laws.antt =====
-- What every payload satisfies after `normalizeEventData`.
use text.Mathlib.Text.{◌==◌ as str_eq}
use text.Mathlib.TextEquality.{eq_iff}
use text.Mathlib.TextPositions.{eq_refl}
use mathlib.Core.Bool.{false≢true}
use full_project.Prelude.{
  zero, suc, ◌≡◌, refl, sym, ◌∙◌, ap, Bool, true, false, not, ◌&&◌, Option, none, some, [], ◌∷◌,
  if◌then◌else◌, leb, String, is_nil, arith, Bool-cases, inl, inr,
}
use full_project.Js.Text.{Text, codes, trim, text_eq, text_eq_refl}
use full_project.Js.Text.Laws.{trim_idem}
use full_project.Js.Decimal.{ℤ, pos, negsuc, parse_int}
use full_project.Js.Number.{nan, whole, decimal}
use full_project.Js.Value.{
  Value, undefined, num, str, arr, obj, dict, Items, nil, cons, Fields, truthy, or_value, to_text,
  get, get-put, get-remove,
}
use full_project.Content.{
  is_currency_code, is_valid_content_id, float_or_zero, at_least_one, quantity_of, valid_ids,
  as_items, put_items, normalize_content_ids, item_fields, price_item, complete_item, effective_id,
  normalize_item, keep_some, normalize_items, put_contents, contents_from, fallback_contents, fill,
}

-- A trimmed text that is a valid identifier.
abbrev pub is_clean_id : Value → Bool
is_clean_id (str s) = text_eq (trim s) s && is_valid_content_id (str s)
is_clean_id v = false

abbrev pub all_items : (Value → Bool) → Items → Bool
all_items p nil = true
all_items p (cons v items) = p v && all_items p items

-- Falsy, or an array that is not empty and holds clean identifiers only.
abbrev pub are_clean_ids : Value → Bool
are_clean_ids (arr nil) = false
are_clean_ids (arr (cons v items)) = all_items is_clean_id (cons v items)
are_clean_ids v = not (truthy v)

valid_ids-clean : (ids : Items) → all_items is_clean_id (valid_ids ids) ≡ true
unfolding valid_ids
valid_ids-clean nil = refl
valid_ids-clean (cons id ids) =
    let s = to_text (or_value id (str [])) in
    ground (arith, valid_ids-clean ids, trim_idem s, text_eq_refl (trim s))

put_items-clean :
    (ids : Items) (out : Fields)
    → all_items is_clean_id ids ≡ true
    → are_clean_ids (get "content_ids" (put_items "content_ids" ids out)) ≡ true
put_items-clean nil out h = rw (get-remove "content_ids" "content_ids" out) refl
put_items-clean (cons v ids) out h =
    rw (get-put "content_ids" "content_ids" (arr (cons v ids)) out) h

falsy-clean : (v : Value) → truthy v ≡ false → are_clean_ids v ≡ true
falsy-clean (arr nil) h = cc
falsy-clean (arr (cons v items)) h = cc
falsy-clean (obj r) h = cc
falsy-clean (dict e) h = cc
falsy-clean undefined h = refl
falsy-clean v h = ground arith

pub normalize_content_ids-clean :
    (out : Fields) → are_clean_ids (get "content_ids" (normalize_content_ids out)) ≡ true
unfolding normalize_content_ids
normalize_content_ids-clean out = elim (Bool-cases (truthy (get "content_ids" out))) [
  | inl t ↦ rw t (
      put_items-clean (valid_ids (as_items (get "content_ids" out))) out
        (valid_ids-clean (as_items (get "content_ids" out))))
  | inr f ↦ rw f (falsy-clean (get "content_ids" out) f)
]

-- Writing the contents leaves the other fields alone.
pub put_items-other :
    (j : String) (items : Items) (out : Fields)
    → str_eq "contents" j ≡ false
    → get j (put_items "contents" items out) ≡ get j out
put_items-other j nil out h = rw (get-remove "contents" j out) (rw h refl)
put_items-other j (cons v items) out h =
    rw (get-put "contents" j (arr (cons v items)) out) (rw h refl)

pub put_contents-other :
    (j : String) (v : Value) (out : Fields)
    → str_eq "contents" j ≡ false
    → get j (put_contents v out) ≡ get j out
put_contents-other j (arr items) out h = put_items-other j (normalize_items items) out h
put_contents-other j undefined out h = refl
put_contents-other j v out h = refl

pub contents_from-other :
    (j : String) (v : Value) (out : Fields)
    → str_eq "contents" j ≡ false
    → get j (contents_from v out) ≡ get j out
contents_from-other j (arr nil) out h = refl
contents_from-other j (arr (cons id ids)) out h = get-put "contents" j _ out ∙ (rw h refl)
contents_from-other j undefined out h = refl
contents_from-other j v out h = refl

pub fallback_contents-other :
    (j : String) (out : Fields)
    → str_eq "contents" j ≡ false
    → get j (fallback_contents out) ≡ get j out
unfolding fallback_contents
fallback_contents-other j out h =
    ground (arith, contents_from-other j (get "content_ids" out) out h)

-- A marketing field is filled only where it is missing, and no other field is touched.
pub get-fill :
    (k j : String) (s : Text) (out : Fields)
    → get j (fill k s out)
      ≡ (if str_eq k j && (not (truthy (get j out)) && not (is_nil s)) then str s else get j out)
unfolding fill
get-fill k j s out = elim (Bool-cases (str_eq k j)) [
  | inl e ↦ rw e (rw ((eq_iff k j).0 e) (same j s out))
  | inr e ↦ rw e (other k j s out e)
]
  where
    same :
        (j : String) (s : Text) (out : Fields)
        → get j (fill j s out)
          ≡ (if not (truthy (get j out)) && not (is_nil s) then str s else get j out)
    same j s out = ground (arith, get-put j j (str s) out, eq_refl j)

    other :
        (k j : String) (s : Text) (out : Fields)
        → str_eq k j ≡ false
        → get j (fill k s out) ≡ get j out
    other k j s out e = ground (arith, get-put k j (str s) out)

-- At least 1, or not a number.
abbrev pub is_ok_quantity : Value → Bool
is_ok_quantity (num nan) = true
is_ok_quantity (num (decimal false n zero)) = leb 1 n
is_ok_quantity v = false

-- An item with both identifiers, a type, a valid identifier in front and a quantity.
abbrev pub is_ok_item : Value → Bool
is_ok_item (obj r) =
    truthy (get "id" r)
    && truthy (get "content_id" r)
    && is_valid_content_id (get "content_id" r)
    && truthy (get "content_type" r)
    && is_ok_quantity (get "quantity" r)
is_ok_item v = false

-- Not an array, or an array that is not empty and whose items are complete.
abbrev pub are_ok_contents : Value → Bool
are_ok_contents (arr nil) = false
are_ok_contents (arr (cons v items)) = all_items is_ok_item (cons v items)
are_ok_contents v = true

at_least_one-ok : (o : Option ℤ) → is_ok_quantity (num (at_least_one o)) ≡ true
unfolding at_least_one
at_least_one-ok none = refl
at_least_one-ok (some (pos zero)) = refl
at_least_one-ok (some (pos (suc n))) = ground arith
at_least_one-ok (some (negsuc n)) = refl

quantity_of-ok : (v : Value) → is_ok_quantity (num (quantity_of v)) ≡ true
unfolding quantity_of
quantity_of-ok v = at_least_one-ok (parse_int (to_text (or_value v (num (whole 1)))))

get-price_item :
    (j : String) (item : Fields)
    → str_eq "item_price" j ≡ false
    → get j (price_item item) ≡ get j item
unfolding price_item
get-price_item j item h =
    ground (arith, get-put "item_price" j (float_or_zero (get "price" item)) item)

pub complete_item-get :
    (id : Value) (item : Fields)
    → (get "id" (complete_item id item) ≡ or_value (get "id" item) (str (to_text id)))
      × (get "content_id" (complete_item id item)
          ≡ or_value (get "content_id" item) (str (to_text id)))
      × (get "content_type" (complete_item id item)
          ≡ or_value (get "content_type" item) (str (codes "product")))
      × (is_ok_quantity (get "quantity" (complete_item id item)) ≡ true)
unfolding complete_item
complete_item-get id item = (
  rw (get-price_item "id" _ refl) (simp get-put),
  rw (get-price_item "content_id" _ refl) (simp get-put),
  rw (get-price_item "content_type" _ refl) (simp get-put),
  rw (get-price_item "quantity" _ refl) (simp get-put (quantity_of-ok _)),
)

-- `isValidContentId` looks at the printed identifier only.
abbrev valid_printed : Text → Bool
valid_printed s = not (is_nil (trim s)) && not (is_currency_code (trim s))

pub valid_text :
    (s : Text)
    → is_valid_content_id (str s) ≡ true
    → (truthy (str s) ≡ true) × (is_valid_content_id (str s) ≡ true)
valid_text [] v = absurd (false≢true (unfold is_valid_content_id to_text trim in v))
valid_text (c ∷ s) v = (refl, v)

or_value-truthy : (a b : Value) → truthy a ≡ true → or_value a b ≡ a
or_value-truthy a b t = rw t refl

or_value-falsy : (a b : Value) → truthy a ≡ false → or_value a b ≡ b
or_value-falsy a b t = rw t refl

pub printed_again : (s : Text) → to_text (or_value (str s) (str [])) ≡ s
unfolding to_text
printed_again [] = refl
printed_again (c ∷ s) = refl

-- A valid identifier is not empty when it is printed.
valid-to_text :
    (id : Value)
    → truthy id ≡ true
    → is_valid_content_id id ≡ true
    → (truthy (str (to_text id)) ≡ true) × (is_valid_content_id (str (to_text id)) ≡ true)
unfolding is_valid_content_id
valid-to_text id t v = valid_text (to_text id) (same v)
  where
    same : is_valid_content_id id ≡ true → is_valid_content_id (str (to_text id)) ≡ true
    same v =
        ap valid_printed
          (printed_again (to_text id) ∙ ap to_text (sym (or_value-truthy id (str []) t)))
        ∙ v

identifiers :
    (a b : Value)
    → let id = or_value a b in
      truthy id ≡ true
      → is_valid_content_id id ≡ true
      → (truthy (or_value b (str (to_text id))) ≡ true)
        × (truthy (or_value a (str (to_text id))) ≡ true)
        × (is_valid_content_id (or_value a (str (to_text id))) ≡ true)
identifiers a b t v = let (full, good) = valid-to_text (or_value a b) t v in ground arith

complete_item-ok :
    (item : Fields)
    → truthy (effective_id item) ≡ true
    → is_valid_content_id (effective_id item) ≡ true
    → is_ok_item (obj (complete_item (effective_id item) item)) ≡ true
complete_item-ok item t v =
    let (i, c, y, q) = complete_item-get (effective_id item) item in
    let (ti, tc, vc) = identifiers (get "content_id" item) (get "id" item) t v in
    rw (i, c, y, q) (rw (ti, tc, vc) (typed (get "content_type" item)))
  where
    typed : (y : Value) → (truthy (or_value y (str (codes "product"))) && true) ≡ true
    typed y = ground arith

pub normalize_item-ok : (v : Value) → all_items is_ok_item (keep_some (normalize_item v) nil) ≡ true
unfolding normalize_item
normalize_item-ok v = ground (arith, complete_item-ok (item_fields v))
