-- ===== src/Send/Body.antt =====
-- The bodies that `sendEvent` and `buildAjaxFormData` put together.
use text.Mathlib.Text.{◌==◌ as str_eq}
use full_project.Prelude.{
  String, ◌≡◌, refl, ◌∙◌, Bool, true, false, not, ◌&&◌, [], ◌∷◌, if◌then◌else◌, is_nil,
}
use full_project.Js.Text.{Text}
use full_project.Js.Text.Split.{both}
use full_project.Js.Value.{Fields, str, get, put, get-put}
use full_project.Page.{Page}
use full_project.World.{Dom}
use full_project.World.Body.{IsBody}
use full_project.World.Effects.{any-Gives, Gives, ask-Gives}
use full_project.Send.{
  identity_fields, payload_fields, form_fields, build_payload, build_ajax_form_data,
}
use full_project.Send.FormFields.{
  Selectors, get_field_value, add_fields, customer_fields, pii_selectors,
}

module _ (dom : Dom) where
  abbrev pub lacks : String → Selectors → Bool
  lacks k [] = true
  lacks k ((key, selectors) ∷ rest) = not (str_eq key k) && lacks k rest

  -- The fields of other names leave a field as it is.
  pub add_fields-other :
      (k : String) (rest : Selectors) (r : Fields)
      → lacks k rest ≡ true
      → get k (add_fields dom rest r) ≡ get k r
  unfolding add_fields
  add_fields-other k [] r h = refl
  add_fields-other k ((key, selectors) ∷ rest) r h =
      let (other, others) = both (not (str_eq key k)) _ h in
      let value = get_field_value dom selectors in
      add_fields-other k rest (if is_nil value then r else put key (str value) r) others
      ∙ enter (is_nil value) value (differs _ other)
    where
      differs : (b : Bool) → not b ≡ true → b ≡ false
      differs true h = cc
      differs false h = refl

      enter :
          (b : Bool) (value : Text)
          → str_eq key k ≡ false
          → get k (if b then r else put key (str value) r) ≡ get k r
      enter true value h = refl
      enter false value h = get-put key k (str value) r ∙ rw h refl

module _ (p : Page) where
  module _ (name : String) (event_data : Fields) (event_id : Text) where
    payload_fields-IsBody :
        (identity : Fields) (dom : Dom)
        → IsBody name event_data event_id (payload_fields p name event_data event_id identity dom)
    unfolding payload_fields get
    payload_fields-IsBody identity dom = (
      add_fields-other dom "event_name" pii_selectors _ refl,
      add_fields-other dom "event_data" pii_selectors _ refl,
      add_fields-other dom "event_id" pii_selectors _ refl,
    )

    form_fields-IsBody :
        (identity : Fields) (dom : Dom)
        → IsBody name event_data event_id (form_fields p name event_data event_id identity dom)
    unfolding form_fields get
    form_fields-IsBody identity dom = (
      add_fields-other dom "event_name" customer_fields _ refl,
      add_fields-other dom "event_data" customer_fields _ refl,
      add_fields-other dom "event_id" customer_fields _ refl,
    )

    pub build_payload-IsBody :
        Gives (IsBody name event_data event_id) (build_payload p name event_data event_id)
    unfolding build_payload
    build_payload-IsBody =
        ask-Gives (λ x. Unit) (IsBody name event_data event_id)
          (payload_fields p name event_data event_id) (any-Gives (identity_fields p))
          (λ identity dom x. payload_fields-IsBody identity dom)

    pub build_ajax_form_data-IsBody :
        Gives (IsBody name event_data event_id) (build_ajax_form_data p name event_data event_id)
    unfolding build_ajax_form_data
    build_ajax_form_data-IsBody =
        ask-Gives (λ x. Unit) (IsBody name event_data event_id)
          (form_fields p name event_data event_id) (any-Gives (identity_fields p))
          (λ identity dom x. form_fields-IsBody identity dom)
