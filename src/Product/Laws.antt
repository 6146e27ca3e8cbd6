-- ===== src/Product/Laws.antt =====
-- What `getProductDataFromElement` gives is fit for a payload.
use full_project.Prelude.{
  ℕ, ◌≡◌, ◌≢◌, false, Option, none, some, List, [], ◌∷◌, if◌then◌else◌, is_nil,
}
use full_project.Js.Text.{Text, or_text}
use full_project.Js.Number.{is_nan}
use full_project.Page.{Page}
use full_project.World.{Dom}
use full_project.Product.{
  ProductData, button_text, add_button, attribute_text, product_data_for, configured_id,
}

-- An element's product has an identifier and a currency that are not empty, and its price is a
-- number.
abbrev pub IsFit : Option ProductData → Type 0
IsFit none = Unit
IsFit (some d) = (d.id ≢ []) × (d.currency ≢ []) × (is_nan d.price ≡ false)

-- Where the page may name the product of an element: on the element, on its button, in the
-- configuration.
abbrev pub sources : Page → Dom → ℕ → List Text
sources p dom el =
    attribute_text dom el "data-product_id"
    ∷ attribute_text dom el "data-product-id"
    ∷ attribute_text dom el "data-productid"
    ∷ attribute_text dom el "value"
    ∷ button_text p dom (add_button p dom el) "data-product_id"
    ∷ button_text p dom (add_button p dom el) "data-product-id"
    ∷ configured_id p dom p.config.product
    ∷ []

-- None is found, and each source is empty; or data are found, and their raw identifier is the first
-- source that is not.
abbrev pub IsFirst : List Text → Option ProductData → Type 0
IsFirst [] none = Unit
IsFirst [] (some d) = ⊥
IsFirst ([] ∷ rest) found = IsFirst rest found
IsFirst ((c ∷ s) ∷ rest) none = ⊥
IsFirst ((c ∷ s) ∷ rest) (some d) = d.raw_id ≡ c ∷ s

abbrev first_text : List Text → Text
first_text [] = []
first_text (s ∷ rest) = or_text s (first_text rest)

module _ (p : Page) (dom : Dom) (el : ℕ) where
  abbrev data_for : Text → Option ProductData
  data_for id = if is_nil id then none else some (product_data_for p dom el id)
