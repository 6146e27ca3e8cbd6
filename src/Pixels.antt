-- ===== src/Pixels.antt =====
-- tracker.js: `initializeHybridPixels`, with the customer's data that earlier visits left in cookies.
pub mod Effects
pub mod Data
use full_project.Prelude.{
  Bool, true, false, not, ◌&&◌, List, [], ◌∷◌, String, if◌then◌else◌, is_nil,
}
use text.Mathlib.Text.{◌==◌ as str_eq}
use full_project.Js.Text.{Text, codes}
use full_project.Js.Attempt.{returned}
use full_project.Js.Value.{Fields, end, field, str, put}
use full_project.Page.{Page}
use full_project.World.{
  M, pure, ◌>>=◌, ◌>>◌, when, read_cookie, emit, fb_init, tt_load, tt_identify,
}

-- `cookieFields`
abbrev pub cookie_fields : List (String × String)
cookie_fields =
    ("em", "_buykorigw_id_em")
    ∷ ("ph", "_buykorigw_id_ph")
    ∷ ("fn", "_buykorigw_id_fn")
    ∷ ("ln", "_buykorigw_id_ln")
    ∷ ("ct", "_buykorigw_id_ct")
    ∷ ("st", "_buykorigw_id_st")
    ∷ ("zp", "_buykorigw_id_zp")
    ∷ ("country", "_buykorigw_id_country")
    ∷ []

-- `fbUserData` and `ttUserData`
pub record UserData : Type 0 where
  pub fb : Fields
  pub tt : Fields

abbrev pub has_fields : Fields → Bool
has_fields end = false
has_fields (field k v r) = true

abbrev pub no_data : UserData
no_data = record { fb = end; tt = end }

-- TikTok takes the mail address and the telephone number under names of its own.
unfoldable pub enter_value : String → Text → UserData → UserData
enter_value key value d =
    let tt_fields =
      if str_eq key "em"
      then put "email" (str value) d.tt
      else if str_eq key "ph"
      then put "phone_number" (str value) d.tt
      else d.tt in
    record { fb = put key (str value) d.fb; tt = tt_fields }

module _ (p : Page) where
  unfoldable pub read_fields : List (String × String) → UserData → M UserData
  read_fields [] d = pure d
  read_fields ((key, cookie) ∷ rest) d = read_cookie p (codes cookie) >>= λ value.
      read_fields rest (if is_nil value then d else enter_value key value d)

  -- The cached customer data, with the visitor's identifier.
  unfoldable pub read_user_data : M UserData
  read_user_data = do
    d ← read_fields cookie_fields no_data
    external_id ← read_cookie p (codes "_buykorigw_vid")
    pure (
        if is_nil external_id then d else record {
          fb = put "external_id" (str external_id) d.fb;
          tt = put "external_id" (str external_id) d.tt;
        })

  unfoldable pub set_fbq : M (Unit {0})
  set_fbq w = (returned tt, record w { has_fbq = true })

  unfoldable pub set_ttq : M (Unit {0})
  set_ttq w = (returned tt, record w { has_ttq = true })

  -- The loading of Facebook's script, where the page has an identifier and no pixel yet.
  unfoldable pub start_fb : Fields → M (Unit {0})
  unfolding set_fbq
  start_fb found w =
      when (not (is_nil p.config.fb_pixel_id) && not w.has_fbq)
        (set_fbq >> emit (fb_init p.config.fb_pixel_id found)) w

  unfoldable pub start_tt : Fields → M (Unit {0})
  unfolding set_ttq
  start_tt found w =
      when (not (is_nil p.config.tt_pixel_id) && not w.has_ttq)
        (set_ttq
          >> emit (tt_load p.config.tt_pixel_id)
          >> when (has_fields found) (emit (tt_identify found)))
        w

  -- `initializeHybridPixels()`
  unfoldable pub initialize_hybrid_pixels : M (Unit {0})
  initialize_hybrid_pixels =
      when p.config.enable_hybrid (read_user_data >>= λ d. start_fb d.fb >> start_tt d.tt)
