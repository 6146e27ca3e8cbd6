-- ===== src/Campaign/Laws.antt =====
-- What `normalizeCampaignValue` and `getMarketingParams` give the ad platforms.
use full_project.Prelude.{
  ℕ, ◌≡◌, refl, ◌∙◌, Bool, true, false, not, ◌&&◌, ◌||◌, [], ◌∷◌, if◌then◌else◌, is_nil, String,
  arith, all, ◌⊎◌, inl, inr, Bool-cases,
}
use text.Mathlib.Text.{◌==◌ as str_eq}
use full_project.Js.Text.{
  Text, codes, lower, or_text, replace_runs, trim, strip, trim_start, trim_end, is_space,
}
use full_project.Js.Text.Laws.{strip_idem, trim_idem, strip_none}
use full_project.Campaign.{
  is_macro, is_source_char, is_underscore, slug, normalize_campaign_value, Marketing,
  attribute_marketing,
}

abbrev pub is_slug_char : ℕ → Bool
is_slug_char c = is_source_char c || is_underscore c

-- Lower-case letters, digits and single underscores between them; the flag says that an underscore
-- stands before.
abbrev pub IsSlug : Bool → Text → Type 0
IsSlug after [] = after ≡ false
IsSlug after (c ∷ s) =
    (is_slug_char c ≡ true) × ((after && is_underscore c) ≡ false) × IsSlug (is_underscore c) s

-- The runs of `replace_runs`, before the ends are stripped.
abbrev IsRuns : Bool → Text → Type 0
IsRuns after [] = Unit
IsRuns after (c ∷ s) =
    (is_slug_char c ≡ true) × ((after && is_underscore c) ≡ false) × IsRuns (is_underscore c) s

replace_runs-IsRuns :
    (in_run : Bool) (s : Text) → IsRuns in_run (replace_runs is_source_char in_run s)
unfolding replace_runs
replace_runs-IsRuns in_run [] = tt
replace_runs-IsRuns in_run (c ∷ s) = ground (arith, replace_runs-IsRuns (not (is_source_char c)) s)

trim_start-IsRuns :
    (after : Bool) (s : Text) → IsRuns after s → IsRuns true (trim_start is_underscore s)
unfolding trim_start
trim_start-IsRuns after [] h = tt
trim_start-IsRuns after (c ∷ s) h = ground (arith, trim_start-IsRuns (is_underscore c) s)

IsSlug-cons :
    (after : Bool) (c : ℕ) (t : Text)
    → is_slug_char c ≡ true
    → (after && is_underscore c) ≡ false
    → (t ≡ []) ⊎ IsSlug (is_underscore c) t
    → let u : Text = (if is_underscore c && is_nil t then [] else c ∷ t) in
      (u ≡ []) ⊎ IsSlug after u
IsSlug-cons after c [] k d o = elim (Bool-cases (is_underscore c)) [
  | inl e ↦ inl (ground arith)
  | inr e ↦ inr (rw e (k, d, e))
]
IsSlug-cons after c (x ∷ t) k d (inl e) = inl (cc)
IsSlug-cons after c (x ∷ t) k d (inr g) = elim (Bool-cases (is_underscore c)) [
  | inl e ↦ inr (rw e (k, d, g))
  | inr e ↦ inr (rw e (k, d, g))
]

trim_end-IsSlug :
    (after : Bool) (s : Text)
    → IsRuns after s
    → (trim_end is_underscore s ≡ []) ⊎ IsSlug after (trim_end is_underscore s)
unfolding trim_end
trim_end-IsSlug after [] h = inl refl
trim_end-IsSlug after (c ∷ s) (k, d, h) =
    IsSlug-cons after c (trim_end is_underscore s) k d (trim_end-IsSlug (is_underscore c) s h)

slug-IsSlug : (value : Text) → (slug value ≡ []) ⊎ IsSlug true (slug value)
unfolding slug strip
slug-IsSlug value = trim_end-IsSlug true _ (
    trim_start-IsRuns false (replace_runs is_source_char false (lower value))
      (replace_runs-IsRuns false (lower value)))

replace_runs_of_IsSlug :
    (in_run after : Bool) (s : Text)
    → (in_run ≡ true → after ≡ true)
    → IsSlug after s
    → replace_runs is_source_char in_run s ≡ s
unfolding replace_runs
replace_runs_of_IsSlug in_run after [] i h = refl
replace_runs_of_IsSlug in_run after (c ∷ s) i h =
    ground (arith, replace_runs_of_IsSlug (not (is_source_char c)) (is_underscore c) s)

lower_of_IsSlug : (after : Bool) (s : Text) → IsSlug after s → lower s ≡ s
unfolding lower
lower_of_IsSlug after [] h = refl
lower_of_IsSlug after (c ∷ s) h = ground (arith, lower_of_IsSlug (is_underscore c) s)

slug_of_IsSlug : (s : Text) → IsSlug true s → slug s ≡ strip is_underscore s
unfolding slug
slug_of_IsSlug s h =
    rw (lower_of_IsSlug true s h) (rw (replace_runs_of_IsSlug false true s (λ e. cc) h) refl)

strip-slug : (value : Text) → strip is_underscore (slug value) ≡ slug value
unfolding slug
strip-slug value = strip_idem is_underscore (replace_runs is_source_char false (lower value))

slug_idem : (value : Text) → slug (slug value) ≡ slug value
slug_idem value = elim (slug-IsSlug value) [
  | inl e ↦ rw e (unfold slug in refl)
  | inr h ↦ slug_of_IsSlug (slug value) h ∙ strip-slug value
]

IsSlug-no_space : (after : Bool) (s : Text) → IsSlug after s → all (λ c. not (is_space c)) s ≡ true
unfolding is_space
IsSlug-no_space after [] h = refl
IsSlug-no_space after (c ∷ s) h = ground (arith, IsSlug-no_space (is_underscore c) s)

IsSlug-not_macro : (s : Text) → IsSlug true s → is_macro s ≡ false
unfolding is_macro
IsSlug-not_macro [] h = refl
IsSlug-not_macro (c ∷ s) h = ground arith

slug_facts : (value : Text) → (trim (slug value) ≡ slug value) × (is_macro (slug value) ≡ false)
slug_facts value = elim (slug-IsSlug value) [
  | inl e ↦ rw e (unfold trim is_macro in (refl, refl))
  | inr h ↦ (
    unfold trim in strip_none is_space (slug value) (IsSlug-no_space true (slug value) h),
    IsSlug-not_macro (slug value) h,
  )
]

trim_nil : trim [] ≡ []
unfolding trim
trim_nil = refl

abbrev pub is_source_key : String → Bool
is_source_key key = str_eq key "utm_source" || str_eq key "campaign_source"

-- A source that a campaign names is empty or a slug: lower-case letters, digits and single
-- underscores between them. Any campaign value is unchanged when it is normalised again, as happens
-- when it comes back from the cookie that an earlier page stored.
pub normalize_campaign_value_lem :
    (key : String) (given : Text)
    → let value = normalize_campaign_value key given in
      (normalize_campaign_value key value ≡ value)
      × (is_source_key key ≡ true → (value ≡ []) ⊎ IsSlug true value)
unfolding normalize_campaign_value
normalize_campaign_value_lem key given = (
  ground (arith, trim_idem given, slug_facts (trim given), slug_idem (trim given), trim_nil),
  λ source. elim (slug-IsSlug (trim given)) [
    | inl e ↦ inl (ground arith)
    | inr h ↦ elim (Bool-cases (is_nil (trim given) || is_macro (trim given))) [
      | inl dropped ↦ inl (ground arith)
      | inr kept ↦ inr (rw (kept, source) h)
    ]
  ],
)

-- The source is what the campaign names, or else the platform whose click identifier is there,
-- TikTok before Facebook. The campaign source is that of the campaign, or else the source, except
-- that the Facebook click identifier, where it decides the source, replaces the campaign source.
pub attribute_marketing_lem :
    (given : Marketing) (ttclid fbc : Text)
    → let named = normalize_campaign_value "utm_source" given.utm_source in
      let campaign = normalize_campaign_value "campaign_source" given.campaign_source in
      let m = attribute_marketing given ttclid fbc in
      let by_facebook = is_nil named && is_nil ttclid && not (is_nil fbc) in
      (m.utm_source
        ≡ or_text named (
            if not (is_nil ttclid)
            then codes "tiktok"
            else if not (is_nil fbc)
            then codes "facebook"
            else []))
      × (m.campaign_source
          ≡ (if by_facebook then codes "facebook" else or_text campaign m.utm_source))
unfolding attribute_marketing
attribute_marketing_lem given ttclid fbc = ground arith
