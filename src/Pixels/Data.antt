-- ===== src/Pixels/Data.antt =====
-- Which of the customer's data reach which pixel.
use text.Mathlib.Text.{◌==◌ as str_eq}
use text.Mathlib.TextEquality.{eq_iff}
use full_project.Prelude.{
  String, ◌≡◌, refl, sym, ◌∙◌, ap, Bool, true, false, not, ◌&&◌, ◌||◌, List, [], ◌∷◌, if◌then◌else◌,
  is_nil, Bool-cases, inl, inr,
}
use full_project.Js.Attempt.{Attempt, returned, thrown}
use full_project.Js.Text.{Text}
use full_project.Js.Text.Split.{both}
use full_project.Js.Value.{Value, str, Fields, end, field, get, put, get-put}
use full_project.Page.{Page}
use full_project.World.{
  Effect, fb_init, tt_load, tt_identify, fb_track, tt_track, request, World, after, when, ◌>>◌,
  ◌>>=◌, read_cookie,
}
use full_project.World.Effects.{Keeps, Adds, Keeps-Adds, Given, Gives, bind-Gives, given-Gives}
use full_project.Pixels.{
  UserData, no_data, has_fields, enter_value, read_fields, cookie_fields, read_user_data, start_fb,
  start_tt, initialize_hybrid_pixels,
}
use full_project.Pixels.Effects.{IsInit, order, read_user_data-Sends, start-Adds}

-- The names that TikTok's pixel takes.
abbrev is_tiktok_name : String → Bool
is_tiktok_name k = str_eq k "email" || str_eq k "phone_number" || str_eq k "external_id"

abbrev pub are_tiktok_names : Fields → Bool
are_tiktok_names end = true
are_tiktok_names (field k v r) = is_tiktok_name k && are_tiktok_names r

-- Both pixels are told the same mail address, telephone number and identifier, and TikTok's is told
-- nothing else.
abbrev pub IsShared : UserData → Type 0
IsShared d =
    (get "email" d.tt ≡ get "em" d.fb)
    × (get "phone_number" d.tt ≡ get "ph" d.fb)
    × (get "external_id" d.tt ≡ get "external_id" d.fb)
    × (are_tiktok_names d.tt ≡ true)

put-names :
    (k : String) (v : Value) (r : Fields)
    → is_tiktok_name k ≡ true
    → are_tiktok_names r ≡ true
    → are_tiktok_names (put k v r) ≡ true
unfolding put
put-names k v end h g = rw h refl
put-names k v (field j w r) h g =
    let (first, rest) = both (is_tiktok_name j) (are_tiktok_names r) g in
    elim (Bool-cases (str_eq j k)) [
      | inl same ↦ rw same (rw first rest)
      | inr other ↦ rw other (rw first (put-names k v r h rest))
    ]

enter_value-IsShared :
    (key : String) (value : Text) (d : UserData)
    → str_eq key "external_id" ≡ false
    → IsShared d
    → IsShared (enter_value key value d)
unfolding enter_value
enter_value-IsShared key value d e (a, b, c, n) = elim (Bool-cases (str_eq key "em")) [
  | inl em ↦
      rw ((eq_iff key "em").0 em)
        (simp get-put refl, simp get-put b, simp get-put c, put-names "email" _ d.tt refl n)
  | inr not_em ↦ elim (Bool-cases (str_eq key "ph")) [
    | inl ph ↦
        rw ((eq_iff key "ph").0 ph) (
          simp get-put a,
          simp get-put refl,
          simp get-put c,
          put-names "phone_number" _ d.tt refl n,
        )
    | inr not_ph ↦
        rw (not_em, not_ph)
          (simp get-put (rw not_em a), simp get-put (rw not_ph b), simp get-put (rw e c), n)
  ]
]

abbrev has_no_id : List (String × String) → Bool
has_no_id [] = true
has_no_id ((key, cookie) ∷ rest) = not (str_eq key "external_id") && has_no_id rest

module _ (p : Page) where
  read_fields-IsShared :
      (fields : List (String × String)) (d : UserData)
      → has_no_id fields ≡ true
      → IsShared d
      → Gives IsShared (read_fields p fields d)
  unfolding read_fields
  read_fields-IsShared [] d h g = record { gives = λ w. g }
  read_fields-IsShared ((key, cookie) ∷ rest) d h g =
      let (first, later) = both (not (str_eq key "external_id")) (has_no_id rest) h in
      bind-Gives IsShared (read_cookie p _) λ value.
        read_fields-IsShared rest (if is_nil value then d else enter_value key value d) later
          (entered (is_nil value) value (refused _ first))
    where
      refused : (b : Bool) → not b ≡ true → b ≡ false
      refused true k = cc
      refused false k = refl

      entered :
          (b : Bool) (value : Text)
          → str_eq key "external_id" ≡ false
          → IsShared (if b then d else enter_value key value d)
      entered true value k = g
      entered false value k = enter_value-IsShared key value d k g

  with_id :
      (external_id : Text) (d : UserData)
      → IsShared d
      → IsShared (
          if is_nil external_id then d else record {
            fb = put "external_id" (str external_id) d.fb;
            tt = put "external_id" (str external_id) d.tt;
          })
  with_id [] d g = g
  with_id (x ∷ id) d (a, b, c, n) = (
    simp get-put a,
    simp get-put b,
    simp get-put refl,
    put-names "external_id" (str (x ∷ id)) d.tt refl n,
  )

  read_user_data-IsShared : Gives IsShared (read_user_data p)
  unfolding read_user_data get
  read_user_data-IsShared =
      given-Gives IsShared IsShared
        (read_fields-IsShared cookie_fields no_data refl (refl, refl, refl, refl))
        λ d g.
          bind-Gives IsShared (read_cookie p _)
            λ external_id. record { gives = λ w. with_id external_id d g }

  -- The call starts a pixel that the configuration names and that is not there before, with those data.
  abbrev pub StartsWith : World → UserData → Effect → Type 0
  StartsWith w d (fb_init id found) =
      (p.config.enable_hybrid ≡ true)
      × (is_nil p.config.fb_pixel_id ≡ false)
      × (w.has_fbq ≡ false)
      × (id ≡ p.config.fb_pixel_id)
      × (found ≡ d.fb)
  StartsWith w d (tt_load id) =
      (p.config.enable_hybrid ≡ true)
      × (is_nil p.config.tt_pixel_id ≡ false)
      × (w.has_ttq ≡ false)
      × (id ≡ p.config.tt_pixel_id)
  StartsWith w d (tt_identify found) =
      (p.config.enable_hybrid ≡ true)
      × (is_nil p.config.tt_pixel_id ≡ false)
      × (w.has_ttq ≡ false)
      × (found ≡ d.tt)
      × (has_fields found ≡ true)
  StartsWith w d (fb_track a b c) = ⊥
  StartsWith w d (tt_track a b c) = ⊥
  StartsWith w d (request t r) = ⊥

  both_not : (a b : Bool) → (not a && not b) ≡ true → (a ≡ false) × (b ≡ false)
  both_not true b h = cc
  both_not false true h = cc
  both_not false false h = (refl, refl)

  started-IsInit :
      (w v : World) (d : UserData)
      → p.config.enable_hybrid ≡ true
      → v.has_fbq ≡ w.has_fbq
      → v.has_ttq ≡ w.has_ttq
      → IsInit p (StartsWith w d) d v
  started-IsInit w v d on same_fbq same_ttq = record {
    init = λ h.
        let (named, new) = both_not (is_nil p.config.fb_pixel_id) v.has_fbq h in
        (on, named, sym same_fbq ∙ new, refl, refl);
    load = λ h.
        let (named, new) = both_not (is_nil p.config.tt_pixel_id) v.has_ttq h in
        (on, named, sym same_ttq ∙ new, refl);
    identify = λ h some_data.
        let (named, new) = both_not (is_nil p.config.tt_pixel_id) v.has_ttq h in
        (on, named, sym same_ttq ∙ new, refl, some_data);
  }

  started :
      (w : World) (r : Attempt UserData × World)
      → p.config.enable_hybrid ≡ true
      → ((d : UserData) → Keeps (StartsWith w d) w r.1)
      → Given IsShared r.0
      → (d : UserData) × IsShared d
        × Adds (StartsWith w d) w (after r (λ d. start_fb p d.fb >> start_tt p d.tt)).1
  unfolding get
  started w (returned d, v) on h g =
      let (l, same) = h d in
      (
        d,
        g,
        (order p (StartsWith w d)).trans_lem w v ((start_fb p d.fb >> start_tt p d.tt) v).1
            (Keeps-Adds (StartsWith w d) w v (h d))
            (start-Adds p (StartsWith w d) d v
              (started-IsInit w v d on (ap (λ u. u.has_fbq) same) (ap (λ u. u.has_ttq) same))),
      )
  started w (thrown, v) on h g =
      (no_data, (refl, refl, refl, refl), Keeps-Adds (StartsWith w no_data) w v (h no_data))

  initialized :
      (b : Bool) (w : World)
      → p.config.enable_hybrid ≡ b
      → (d : UserData) × IsShared d
        × Adds
            (StartsWith w d)
            w
            (when b (read_user_data p >>= λ d. start_fb p d.fb >> start_tt p d.tt) w).1
  unfolding get
  initialized true w on =
      started w (read_user_data p w) on (λ d. (read_user_data-Sends p (StartsWith w d)).steps w)
        (read_user_data-IsShared.gives w)
  initialized false w off =
      (no_data, (refl, refl, refl, refl), (order p (StartsWith w no_data)).refl_lem w)

-- While the pixels start, whatever the cookies are and also where reading them throws, nothing leaves
-- the page but the start of a pixel, and only where pixels are enabled at all: Facebook's with the
-- identifier of the configuration, which is not empty, and only if it is not on the page already;
-- TikTok's on the same two conditions, and it is told of the customer only if there are data. What
-- both pixels are told agrees: the mail address, the telephone number and the visitor's identifier are
-- the same under the names of each, and TikTok's is told nothing else.
pub initialize_hybrid_pixels-IsShared :
    (p : Page) (w : World)
    → (d : UserData) × IsShared d × Adds (StartsWith p w d) w (initialize_hybrid_pixels p w).1
unfolding initialize_hybrid_pixels
initialize_hybrid_pixels-IsShared p w = initialized p p.config.enable_hybrid w refl
