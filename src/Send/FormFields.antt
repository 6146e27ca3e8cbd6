-- ===== src/Send/FormFields.antt =====
-- tracker.js: the fields of forms that `sendEvent` and its form take the customer's data from:
-- `getFieldValue`, `getCustomerData`, `appendCustomerData` and `hasStrongCustomerData`.
use full_project.Prelude.{
  ℕ, Bool, ◌&&◌, Option, none, some, List, [], ◌∷◌, if◌then◌else◌, String, is_nil,
}
use full_project.Js.Text.{Text, or_text, trim}
use full_project.Js.Value.{str, Fields, end, truthy, get, put}
use full_project.World.{Dom}

abbrev pub value_at : Dom → Option ℕ → Text
value_at dom none = []
value_at dom (some el) = trim (dom.value el)

-- `getFieldValue(selectors)`: the trimmed value of the first field that has one.
unfoldable pub get_field_value : Dom → List String → Text
get_field_value dom [] = []
get_field_value dom (selector ∷ selectors) =
    or_text (value_at dom (dom.query selector)) (get_field_value dom selectors)

abbrev pub Selectors : Type 0
Selectors = List (String × List String)

-- The fields that are filled in, as `forEach` over the keys adds them.
unfoldable pub add_fields : Dom → Selectors → Fields → Fields
add_fields dom [] r = r
add_fields dom ((key, selectors) ∷ rest) r =
    let value = get_field_value dom selectors in
    add_fields dom rest (if is_nil value then r else put key (str value) r)

-- The fields of `getCustomerData`.
abbrev pub customer_fields : Selectors
customer_fields =
    ("em", "#billing_email" ∷ "input[name=\"billing_email\"]" ∷ "input[type=\"email\"]" ∷ [])
    ∷ ("ph", "#billing_phone" ∷ "input[name=\"billing_phone\"]" ∷ "input[type=\"tel\"]" ∷ [])
    ∷ ("fn", "#billing_first_name" ∷ "input[name=\"billing_first_name\"]" ∷ [])
    ∷ ("ln", "#billing_last_name" ∷ "input[name=\"billing_last_name\"]" ∷ [])
    ∷ ("ct", "#billing_city" ∷ "input[name=\"billing_city\"]" ∷ [])
    ∷ (
      "st",
      "#billing_state" ∷ "select[name=\"billing_state\"], input[name=\"billing_state\"]" ∷ [],
    )
    ∷ ("zp", "#billing_postcode" ∷ "input[name=\"billing_postcode\"]" ∷ [])
    ∷ (
      "country",
      "#billing_country" ∷ "select[name=\"billing_country\"], input[name=\"billing_country\"]" ∷ [],
    )
    ∷ []

-- `piiSelectors` of `sendEvent`.
abbrev pub pii_selectors : Selectors
pii_selectors =
    (
      "em",
      "#billing_email" ∷ "input[name=\"billing_email\"]" ∷ "input[type=\"email\"]"
          ∷ "input[id^=\"email\"]" ∷ "input[autocomplete=\"email\"]" ∷ "#email" ∷ [],
    )
    ∷ (
      "ph",
      "#billing_phone" ∷ "input[name=\"billing_phone\"]" ∷ "input[type=\"tel\"]"
          ∷ "input[id^=\"tel\"]" ∷ "input[autocomplete=\"tel\"]" ∷ "#phone" ∷ [],
    )
    ∷ (
      "fn",
      "#billing_first_name" ∷ "input[name=\"billing_first_name\"]"
          ∷ "input[autocomplete=\"given-name\"]" ∷ "#first-name" ∷ [],
    )
    ∷ (
      "ln",
      "#billing_last_name" ∷ "input[name=\"billing_last_name\"]"
          ∷ "input[autocomplete=\"family-name\"]" ∷ "#last-name" ∷ [],
    )
    ∷ ("ct", "#billing_city" ∷ "input[name=\"billing_city\"]" ∷ [])
    ∷ (
      "st",
      "#billing_state" ∷ "select[name=\"billing_state\"], input[name=\"billing_state\"]" ∷ [],
    )
    ∷ ("zp", "#billing_postcode" ∷ "input[name=\"billing_postcode\"]" ∷ [])
    ∷ (
      "country",
      "#billing_country" ∷ "select[name=\"billing_country\"], input[name=\"billing_country\"]" ∷ [],
    )
    ∷ []

-- `getCustomerData()`
unfoldable pub get_customer_data : Dom → Fields
get_customer_data dom = add_fields dom customer_fields end

-- `appendCustomerData(formData)`
abbrev pub append_customer_data : Dom → Fields → Fields
append_customer_data dom form = add_fields dom customer_fields form

-- `hasStrongCustomerData()`
unfoldable pub has_strong_customer_data : Dom → Bool
has_strong_customer_data dom =
    let fields = get_customer_data dom in truthy (get "em" fields) && truthy (get "ph" fields)
