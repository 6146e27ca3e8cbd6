-- ===== src/Content/Named.antt =====
-- The identifier of the payload of one product, through `normalizeEventData`.
use text.Mathlib.Text.{◌==◌ as str_eq}
use mathlib.Core.Bool.{false≢true}
use full_project.Prelude.{
  String, ◌≡◌, refl, sym, ◌∙◌, some, Bool, true, false, [], ◌∷◌, if◌then◌else◌, Bool-cases, inl,
  inr,
}
use full_project.Js.Text.{Text, trim}
use full_project.Js.Value.{
  Value, str, arr, obj, Items, nil, cons, Fields, end, field, is_given, truthy, to_text, get,
  get-put, get-remove,
}
use full_project.Js.Text.Laws.{trim_idem}
use full_project.Campaign.{Marketing}
use full_project.Content.{
  is_valid_content_id, given_fields, trimmed_id, valid_ids, normalize_content_ids, as_items,
  put_items, normalize_item, normalize_items, complete_item, fallback_contents, normalize_contents,
  fill_marketing, normalize_event_data,
}
use full_project.Content.Laws.{
  put_contents-other, fallback_contents-other, get-fill, complete_item-get, printed_again,
  valid_text,
}

get-given_fields :
    (k : String) (r : Fields) → is_given (get k r) ≡ true → get k (given_fields r) ≡ get k r
unfolding get given_fields
get-given_fields k end h = refl
get-given_fields k (field j v r) h = elim (Bool-cases (str_eq j k)) [
  | inl same ↦ let given : is_given v ≡ true = rw same at h in rw given (rw same refl)
  | inr other ↦
      let kept : is_given (get k r) ≡ true = rw other at h in
      rw other (there (is_given v) other (get-given_fields k r kept))
]
  where
    there :
        (b : Bool)
        → str_eq j k ≡ false
        → get k (given_fields r) ≡ get k r
        → get k (if b then field j v (given_fields r) else given_fields r) ≡ get k r
    there true other e = rw other e
    there false other e = e

abbrev pub one_id : Text → Value
one_id id = arr (cons (str id) nil)

trimmed_id-str : (id : Text) → trimmed_id (str id) ≡ str (trim id)
unfolding to_text
trimmed_id-str [] = refl
trimmed_id-str (c ∷ id) = refl

valid_ids-one :
    (id : Text)
    → is_valid_content_id (str (trim id)) ≡ true
    → valid_ids (cons (str id) nil) ≡ cons (str (trim id)) nil
unfolding valid_ids
valid_ids-one id valid = rw (trimmed_id-str id) (rw valid refl)

normalize_content_ids-one :
    (id : Text) (out : Fields)
    → get "content_ids" out ≡ one_id id
    → is_valid_content_id (str (trim id)) ≡ true
    → get "content_ids" (normalize_content_ids out) ≡ one_id (trim id)
unfolding normalize_content_ids
normalize_content_ids-one id out e valid =
    rw e (rw (valid_ids-one id valid) (get-put "content_ids" "content_ids" (one_id (trim id)) out))

-- The only item of the contents has that identifier, under both names.
abbrev pub HasItem : Text → Fields → Type 0
HasItem id fields =
    (item : Fields) × (get "contents" fields ≡ arr (cons (obj item) nil))
    × (get "id" item ≡ str id)
    × (get "content_id" item ≡ str id)

-- An identifier that is valid once it is trimmed is valid as it is.
valid_untrimmed :
    (id : Text)
    → is_valid_content_id (str (trim id)) ≡ true
    → (truthy (str id) ≡ true) × (is_valid_content_id (str id) ≡ true)
unfolding is_valid_content_id
valid_untrimmed id valid =
    valid_text id
      (rw (printed_again id, sym (trim_idem id)) (rw (printed_again (trim id)) at valid))

normalize_item-one :
    (id : Text) (item : Fields)
    → get "id" item ≡ str id
    → get "content_id" item ≡ str id
    → is_valid_content_id (str (trim id)) ≡ true
    → normalize_item (obj item) ≡ some (obj (complete_item (str id) item))
unfolding normalize_item
normalize_item-one [] item e f valid = absurd (false≢true (valid_untrimmed [] valid).0)
normalize_item-one (c ∷ id) item e f valid = rw (e, f) (rw (valid_untrimmed (c ∷ id) valid).1 refl)

complete_item-one :
    (id : Text) (item : Fields)
    → get "id" item ≡ str id
    → get "content_id" item ≡ str id
    → truthy (str id) ≡ true
    → (get "id" (complete_item (str id) item) ≡ str id)
      × (get "content_id" (complete_item (str id) item) ≡ str id)
complete_item-one id item e f there =
    let (a, b, c, d) = complete_item-get (str id) item in
    (rw a (rw e (rw there refl)), rw b (rw f (rw there refl)))

normalize_contents-one :
    (id : Text) (out : Fields)
    → HasItem id out
    → is_valid_content_id (str (trim id)) ≡ true
    → HasItem id (fallback_contents (normalize_contents out))
unfolding normalize_contents normalize_items fallback_contents
normalize_contents-one id out (item, h, e, f) valid =
    let (a, b) = complete_item-one id item e f (valid_untrimmed id valid).0 in
    (
      complete_item (str id) item,
      rw h (rw (normalize_item-one id item e f valid) (simp get-put refl)),
      a,
      b,
    )

-- The contents are not touched by the identifiers.
normalize_content_ids-contents :
    (out : Fields) → get "contents" (normalize_content_ids out) ≡ get "contents" out
unfolding normalize_content_ids
normalize_content_ids-contents out =
    of (truthy (get "content_ids" out)) (valid_ids (as_items (get "content_ids" out)))
  where
    of :
        (b : Bool) (ids : Items)
        → get "contents" (if b then put_items "content_ids" ids out else out) ≡ get "contents" out
    of false ids = refl
    of true nil = get-remove "content_ids" "contents" out
    of true (cons v ids) = get-put "content_ids" "contents" (arr (cons v ids)) out

-- A payload with one identifier that is valid keeps it, trimmed.
pub normalize_event_data-one :
    (m : Marketing) (id : Text) (fields : Fields)
    → get "content_ids" fields ≡ one_id id
    → is_valid_content_id (str (trim id)) ≡ true
    → get "content_ids" (normalize_event_data m fields) ≡ one_id (trim id)
unfolding normalize_event_data normalize_contents fill_marketing
normalize_event_data-one m id fields e valid =
    let given = get-given_fields "content_ids" fields (rw e refl) ∙ e in
    let a = normalize_content_ids (given_fields fields) in
    simp get-fill (
      fallback_contents-other "content_ids" (normalize_contents a) refl
      ∙ put_contents-other "content_ids" (get "contents" a) a refl
      ∙ normalize_content_ids-one id (given_fields fields) given valid)

-- Its only item keeps the identifier as it is, untrimmed.
pub normalize_event_data-item :
    (m : Marketing) (id : Text) (fields : Fields)
    → HasItem id fields
    → is_valid_content_id (str (trim id)) ≡ true
    → HasItem id (normalize_event_data m fields)
unfolding normalize_event_data fill_marketing
normalize_event_data-item m id fields (item, h, e, f) valid =
    let given = get-given_fields "contents" fields (rw h refl) ∙ h in
    let there = normalize_content_ids-contents (given_fields fields) ∙ given in
    let (out, k, a, b) =
      normalize_contents-one id (normalize_content_ids (given_fields fields)) (item, there, e, f)
        valid in
    (out, simp get-fill k, a, b)
