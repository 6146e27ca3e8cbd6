-- ===== src/Path/Laws.antt =====
-- The path key is a usable key: `canonicalPagePath`, `currentPathKey`.
use full_project.Prelude.{
  ℕ, ◌≡◌, refl, Bool, true, false, not, ◌||◌, [], ◌∷◌, ◌==◌, all, arith, ◌≢◌, all-append,
}
use full_project.Js.Text.{
  Text, codes, lower, collapse_slashes, or_text, replace_runs, lower_char, is_lower, is_digit,
  is_upper,
}
use full_project.Page.{Location}
use full_project.Path.{is_key_char, canonical_page_path, current_path_key, tidy}

abbrev not_upper : ℕ → Bool
not_upper c = not (is_upper c)

-- A lower-case letter, a digit, an underscore or a dash.
abbrev pub is_slug_char : ℕ → Bool
is_slug_char c = is_lower c || is_digit c || c == b'_' || c == b'-'

lower_char-not_upper : (c : ℕ) → all not_upper (lower_char c) ≡ true
unfolding lower_char
lower_char-not_upper c = ground arith

lower-not_upper : (s : Text) → all not_upper (lower s) ≡ true
unfolding lower
lower-not_upper [] = refl
lower-not_upper (c ∷ s) = ground (
  arith,
  all-append not_upper (lower_char c) (lower s),
  lower_char-not_upper c,
  lower-not_upper s,
)

collapse_slashes-not_upper :
    (s : Text) → all not_upper s ≡ true → all not_upper (collapse_slashes s) ≡ true
unfolding collapse_slashes
collapse_slashes-not_upper [] h = refl
collapse_slashes-not_upper (c ∷ s) h = ground (arith, collapse_slashes-not_upper s)

tidy-not_upper : (s : Text) → all not_upper s ≡ true → all not_upper (tidy s) ≡ true
tidy-not_upper s h = ground (arith, collapse_slashes-not_upper s h)

tidy-ne-nil : (s : Text) → tidy s ≢ []
tidy-ne-nil s = ground arith

replace_runs-slug :
    (in_run : Bool) (s : Text)
    → all not_upper s ≡ true
    → all is_slug_char (replace_runs is_key_char in_run s) ≡ true
unfolding replace_runs
replace_runs-slug in_run [] h = refl
replace_runs-slug in_run (c ∷ s) h = ground (arith, replace_runs-slug (not (is_key_char c)) s)

replace_runs-ne-nil : (keep : ℕ → Bool) (s : Text) → s ≢ [] → replace_runs keep false s ≢ []
unfolding replace_runs
replace_runs-ne-nil keep [] h = h
replace_runs-ne-nil keep (c ∷ s) h = ground arith

canonical_page_path-not_upper : (l : Location) → all not_upper (canonical_page_path l) ≡ true
unfolding canonical_page_path
canonical_page_path-not_upper l =
    let path = lower (or_text l.pathname (codes "/")) in
    ground (arith, tidy-not_upper path, lower-not_upper (or_text l.pathname (codes "/")))

canonical_page_path-ne-nil : (l : Location) → canonical_page_path l ≢ []
unfolding canonical_page_path
canonical_page_path-ne-nil l = ground (arith, tidy-ne-nil (lower (or_text l.pathname (codes "/"))))

-- Whatever the location, the key of the page is not empty and is made of lower-case letters, digits,
-- underscores and dashes only.
pub current_path_key-slug :
    (l : Location) → (current_path_key l ≢ []) × (all is_slug_char (current_path_key l) ≡ true)
unfolding current_path_key
current_path_key-slug l = (
  replace_runs-ne-nil is_key_char (canonical_page_path l) (canonical_page_path-ne-nil l),
  replace_runs-slug false (canonical_page_path l) (canonical_page_path-not_upper l),
)
