-- ===== src/Js/Text.antt =====
-- JavaScript strings as lists of code points, and the string methods and regular expressions that
-- assets/js/tracker.js calls.
pub mod Laws
pub mod Split
use Prim.Native.Char.{code}
use full_project.Prelude.{
  ℕ, ◌+◌, ◌≡◌, ◌↔◌, refl, Bool, true, false, not, ◌&&◌, ◌||◌, List, [], ◌∷◌, ◌++◌, String, arith,
  leb, ◌==◌, if◌then◌else◌, all, is_nil,
}

abbrev pub Text : Type 0
Text = List ℕ

-- The code points of a literal.
abbrev pub codes : String → Text
codes String.[] = []
codes (String.◌∷◌ c s) = code c ∷ codes s

unfoldable pub text_eq : Text → Text → Bool
text_eq [] [] = true
text_eq [] (d ∷ t) = false
text_eq (c ∷ s) [] = false
text_eq (c ∷ s) (d ∷ t) = c == d && text_eq s t

-- `s.indexOf(p) === 0`
unfoldable pub starts : Text → Text → Bool
starts [] s = true
starts (c ∷ p) [] = false
starts (c ∷ p) (d ∷ s) = c == d && starts p s

-- `s.indexOf(p) !== -1`
unfoldable pub includes : Text → Text → Bool
unfolding starts
includes p [] = starts p []
includes p (d ∷ s) = starts p (d ∷ s) || includes p s

abbrev pub is_digit : ℕ → Bool
is_digit c = leb b'0' c && leb c b'9'

abbrev pub is_upper : ℕ → Bool
is_upper c = leb b'A' c && leb c b'Z'

abbrev pub is_lower : ℕ → Bool
is_lower c = leb b'a' c && leb c b'z'

-- `toLowerCase` of one character. Outside ASCII only the two characters whose lower case has an
-- ASCII letter are mapped, the dotted capital I and the Kelvin sign; the others keep their place
-- outside ASCII, and no caller tells them apart.
unfoldable pub lower_char : ℕ → Text
lower_char c =
    if is_upper c
    then (c + 32) ∷ []
    else if c == 0x130
    then b'i' ∷ 0x307 ∷ []
    else if c == 0x212A
    then b'k' ∷ []
    else c ∷ []

unfoldable pub lower : Text → Text
unfolding lower_char
lower [] = []
lower (c ∷ s) = lower_char c ++ lower s

-- White space and line ends, as `trim` removes them.
unfoldable pub is_space : ℕ → Bool
is_space c =
    (leb 9 c && leb c 13)
    || c == 32
    || c == 160
    || c == 0x1680
    || (leb 0x2000 c && leb c 0x200A)
    || c == 0x2028
    || c == 0x2029
    || c == 0x202F
    || c == 0x205F
    || c == 0x3000
    || c == 0xFEFF

unfoldable pub trim_start : (ℕ → Bool) → Text → Text
trim_start p [] = []
trim_start p (c ∷ s) = if p c then trim_start p s else c ∷ s

unfoldable pub trim_end : (ℕ → Bool) → Text → Text
trim_end p [] = []
trim_end p (c ∷ s) = let t = trim_end p s in if p c && is_nil t then [] else c ∷ t

unfoldable pub strip : (ℕ → Bool) → Text → Text
unfolding trim_start trim_end
strip p s = trim_end p (trim_start p s)

unfoldable pub trim : Text → Text
unfolding strip is_space
trim s = strip is_space s

-- `s.replace(/[^…]+/g, '_')`: each run of characters that are not kept becomes one underscore. The
-- flag says that the character before was in such a run.
unfoldable pub replace_runs : (ℕ → Bool) → Bool → Text → Text
replace_runs keep in_run [] = []
replace_runs keep in_run (c ∷ s) =
    let rest = replace_runs keep (not (keep c)) s in
    if keep c then c ∷ rest else if in_run then rest else b'_' ∷ rest

-- `s.replace(/[^…]+/g, '')`
unfoldable pub keep_only : (ℕ → Bool) → Text → Text
keep_only p [] = []
keep_only p (c ∷ s) = let rest = keep_only p s in if p c then c ∷ rest else rest

-- `s.replace(/\/+$/, '/')`
unfoldable pub collapse_slashes : Text → Text
collapse_slashes [] = []
collapse_slashes (c ∷ s) =
    let rest = collapse_slashes s in if all (λ d. d == b'/') (c ∷ s) then b'/' ∷ [] else c ∷ rest

-- `a || b` on texts: the empty text is falsy.
abbrev pub or_text : Text → Text → Text
or_text [] b = b
or_text (c ∷ s) b = c ∷ s

-- `s.split(c)` at one character: the first part, and the others.
unfoldable pub split_first : ℕ → Text → Text
split_first sep [] = []
split_first sep (c ∷ s) = if c == sep then [] else c ∷ split_first sep s

abbrev pub add_char : Bool → ℕ → List Text → List Text
add_char cut c [] = (c ∷ []) ∷ []
add_char true c (part ∷ parts) = [] ∷ part ∷ parts
add_char false c (part ∷ parts) = (c ∷ part) ∷ parts

unfoldable pub split : ℕ → Text → List Text
split sep [] = [] ∷ []
split sep (c ∷ s) = add_char (c == sep) c (split sep s)

pub text_eq_iff : (s t : Text) → (text_eq s t ≡ true) ↔ (s ≡ t)
unfolding text_eq
text_eq_iff [] [] = ground arith
text_eq_iff [] (d ∷ t) = ground arith
text_eq_iff (c ∷ s) [] = ground arith
text_eq_iff (c ∷ s) (d ∷ t) = ground (arith, text_eq_iff s t)

pub text_eq_refl : (s : Text) → text_eq s s ≡ true
text_eq_refl s = (text_eq_iff s s).1 refl
