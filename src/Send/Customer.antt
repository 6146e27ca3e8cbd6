-- ===== src/Send/Customer.antt =====
-- When the customer's mail address and telephone number are there.
use text.Mathlib.Text.{◌==◌ as str_eq}
use full_project.Prelude.{
  String, ◌≡◌, refl, ◌∙◌, ap, Bool, true, false, not, ◌&&◌, ◌||◌, Option, none, some, List, [], ◌∷◌,
  if◌then◌else◌, is_nil, any, ℕ,
}
use full_project.Js.Text.{Text, or_text, trim}
use full_project.Js.Value.{str, undefined, Fields, end, truthy, get, put, get-put}
use full_project.World.{Dom}
use full_project.Send.Body.{add_fields-other}
use full_project.Send.FormFields.{
  Selectors, value_at, get_field_value, add_fields, customer_fields, get_customer_data,
  has_strong_customer_data,
}

abbrev has_value : Dom → Option ℕ → Bool
has_value dom none = false
has_value dom (some el) = not (is_nil (trim (dom.value el)))

-- The field that the selector finds has a value that is not blank.
abbrev pub is_filled : Dom → String → Bool
is_filled dom selector = has_value dom (dom.query selector)

abbrev pub email_selectors : List String
email_selectors = "#billing_email" ∷ "input[name=\"billing_email\"]" ∷ "input[type=\"email\"]" ∷ []

abbrev pub phone_selectors : List String
phone_selectors = "#billing_phone" ∷ "input[name=\"billing_phone\"]" ∷ "input[type=\"tel\"]" ∷ []

module _ (dom : Dom) where
  or_text-nil : (a b : Text) → not (is_nil (or_text a b)) ≡ (not (is_nil a) || not (is_nil b))
  or_text-nil [] b = refl
  or_text-nil (c ∷ a) b = refl

  value_at-filled :
      (selector : String)
      → not (is_nil (value_at dom (dom.query selector))) ≡ is_filled dom selector
  value_at-filled selector = of (dom.query selector)
    where
      of : (found : Option ℕ) → not (is_nil (value_at dom found)) ≡ has_value dom found
      of none = refl
      of (some el) = refl

  get_field_value-filled :
      (selectors : List String)
      → not (is_nil (get_field_value dom selectors)) ≡ any (is_filled dom) selectors
  unfolding get_field_value
  get_field_value-filled [] = refl
  get_field_value-filled (selector ∷ selectors) =
      or_text-nil (value_at dom (dom.query selector)) (get_field_value dom selectors)
      ∙ rw (value_at-filled selector) (rw (get_field_value-filled selectors) refl)

  -- The field of that name, where there was none.
  entered :
      (k : String) (selectors : List String) (r : Fields)
      → get k r ≡ undefined
      → str_eq k k ≡ true
      → let value = get_field_value dom selectors in
        truthy (get k (if is_nil value then r else put k (str value) r))
        ≡ any (is_filled dom) selectors
  entered k selectors r none_yet same =
      of (get_field_value dom selectors) ∙ get_field_value-filled selectors
    where
      of :
          (value : Text)
          → truthy (get k (if is_nil value then r else put k (str value) r)) ≡ not (is_nil value)
      of [] = ap truthy none_yet
      of (c ∷ value) = rw (get-put k k (str (c ∷ value)) r) (rw same refl)

  abbrev later : Selectors → Selectors
  later [] = []
  later (entry ∷ rest) = rest

  -- The fields after the first of `getCustomerData`.
  abbrev after_email : Fields
  after_email =
      let value = get_field_value dom email_selectors in
      if is_nil value then end else put "em" (str value) end

  abbrev after_phone : Fields
  after_phone =
      let value = get_field_value dom phone_selectors in
      if is_nil value then after_email else put "ph" (str value) after_email

  email-filled : truthy (get "em" (get_customer_data dom)) ≡ any (is_filled dom) email_selectors
  unfolding get_customer_data add_fields get
  email-filled =
      ap truthy (add_fields-other dom "em" (later customer_fields) after_email refl)
      ∙ entered "em" email_selectors end refl refl

  phone_missing : get "ph" after_email ≡ undefined
  unfolding get
  phone_missing = of (get_field_value dom email_selectors)
    where
      of :
          (value : Text)
          → get "ph" (if is_nil value then end else put "em" (str value) end) ≡ undefined
      of [] = refl
      of (c ∷ value) = get-put "em" "ph" (str (c ∷ value)) end

  phone-filled : truthy (get "ph" (get_customer_data dom)) ≡ any (is_filled dom) phone_selectors
  unfolding get_customer_data add_fields
  phone-filled =
      ap truthy (add_fields-other dom "ph" (later (later customer_fields)) after_phone refl)
      ∙ entered "ph" phone_selectors after_email phone_missing refl

  -- `hasStrongCustomerData` is true exactly if one of the fields for the mail address and one of those
  -- for the telephone number are filled in.
  pub has_strong_customer_data_lem :
      has_strong_customer_data dom
      ≡ (any (is_filled dom) email_selectors && any (is_filled dom) phone_selectors)
  unfolding has_strong_customer_data
  has_strong_customer_data_lem = rw email-filled (rw phone-filled refl)
