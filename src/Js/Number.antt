-- ===== src/Js/Number.antt =====
-- JavaScript numbers as exact decimals: `parseFloat`, `isNaN`, truth and `String`. The tracker does
-- no arithmetic on its prices, so the rounding to a double is not modelled.
use full_project.Prelude.{
  ℕ, zero, suc, ◌+◌, ◌-◌, ◌*◌, ◌/◌, ◌%◌, ◌≡◌, refl, Bool, true, false, ◌&&◌, ◌||◌, not, Option,
  none, some, [], ◌∷◌, ◌++◌, ◌==◌, if◌then◌else◌, ltb, length,
}
use Prim.Native.Nat.{◌^◌}
use full_project.Js.Text.{Text, codes, is_digit, is_space, trim_start, starts}
use full_project.Js.Decimal.{show, read_digits, starts_digit}

-- `decimal negative digits places` is ± digits / 10 ^ places.
pub data Number : Type 0 where
  nan : Number
  infinite : Bool → Number
  decimal : Bool → ℕ → ℕ → Number

abbrev pub whole : ℕ → Number
whole n = decimal false n 0

abbrev pub is_nan : Number → Bool
is_nan nan = true
is_nan _ = false

-- `x === 0`
abbrev pub is_zero : Number → Bool
is_zero (decimal negative digits places) = digits == 0
is_zero _ = false

-- NaN and 0 are falsy.
abbrev pub number_truthy : Number → Bool
number_truthy x = not (is_nan x || is_zero x)

-- `x > 0`
abbrev pub is_positive : Number → Bool
is_positive (decimal false digits places) = ltb 0 digits
is_positive (infinite false) = true
is_positive _ = false

skip_digits : Text → Text
skip_digits [] = []
skip_digits (c ∷ s) = if is_digit c then skip_digits s else c ∷ s

take_digits : Text → Text
take_digits [] = []
take_digits (c ∷ s) = if is_digit c then c ∷ take_digits s else []

-- The exponent behind the digits, if one is written out: its sign and its value.
signed_exponent : Text → Option (Bool × ℕ)
unfolding read_digits starts_digit
signed_exponent [] = none
signed_exponent (c ∷ s) =
    if c == b'-' && starts_digit s
    then some (true, read_digits s 0)
    else if c == b'+' && starts_digit s
    then some (false, read_digits s 0)
    else if is_digit c
    then some (false, read_digits (c ∷ s) 0)
    else none

exponent : Text → Option (Bool × ℕ)
unfolding signed_exponent
exponent [] = none
exponent (c ∷ s) = if c == b'e' || c == b'E' then signed_exponent s else none

scaled : Bool → ℕ → ℕ → Option (Bool × ℕ) → Number
scaled negative digits places none = decimal negative digits places
scaled negative digits places (some (true, e)) = decimal negative digits (places + e)
scaled negative digits places (some (false, e)) =
    if ltb places e
    then decimal negative (digits * 10 ^ (e - places)) 0
    else decimal negative digits (places - e)

-- The digits behind the point, which may be missing.
fraction : Text → Text
unfolding take_digits
fraction [] = []
fraction (c ∷ s) = if c == b'.' then take_digits s else []

after_fraction : Text → Text
unfolding skip_digits
after_fraction [] = []
after_fraction (c ∷ s) = if c == b'.' then skip_digits s else c ∷ s

-- A decimal literal without its sign: a digit must stand before or behind the point.
unsigned : Bool → Text → Number
unfolding skip_digits take_digits fraction after_fraction exponent scaled read_digits
unsigned negative s =
    let before = take_digits s in
    let behind = fraction (skip_digits s) in
    if starts (codes "Infinity") s
    then infinite negative
    else if starts_digit (before ++ behind)
    then scaled negative (read_digits (before ++ behind) 0) (length behind)
        (exponent (after_fraction (skip_digits s)))
    else nan

signed : Text → Number
unfolding unsigned starts starts_digit
signed [] = nan
signed (c ∷ s) =
    if c == b'-'
    then unsigned true s
    else if c == b'+'
    then unsigned false s
    else unsigned false (c ∷ s)

unfoldable pub parse_float : Text → Number
unfolding signed trim_start is_space
parse_float s = signed (trim_start is_space s)

-- The last zeros behind the point are not printed.
shorten : ℕ → ℕ → ℕ × ℕ
shorten digits zero = (digits, zero)
shorten digits (suc places) =
    let shorter = shorten (digits / 10) places in
    if digits % 10 == 0 then shorter else (digits, suc places)

pad : ℕ → Text → Text
pad zero s = s
pad (suc n) s = b'0' ∷ pad n s

show_decimal : ℕ → ℕ → Text
unfolding show pad
show_decimal digits zero = show digits
show_decimal digits (suc places) =
    let behind = show (digits % 10 ^ suc places) in
    show (digits / 10 ^ suc places) ++ b'.' ∷ pad (suc places - length behind) behind

-- `String(x)`, for magnitudes that JavaScript prints without an exponent.
unfoldable pub show_number : Number → Text
unfolding shorten show_decimal
show_number nan = codes "NaN"
show_number (infinite negative) = codes (if negative then "-Infinity" else "Infinity")
show_number (decimal negative digits places) =
    let (d, p) = shorten digits places in
    if negative && not (digits == 0) then b'-' ∷ show_decimal d p else show_decimal d p

tests :
    (parse_float (codes " 1250.50 BDT") ≡ decimal false 125050 2)
    × (parse_float (codes "-.5e-1x") ≡ decimal true 5 2)
    × (parse_float (codes "BDT") ≡ nan)
    × (show_number (decimal false 125050 2) ≡ codes "1250.5")
    × (show_number (decimal true 5 2) ≡ codes "-0.05")
unfolding parse_float show_number
tests = (refl, refl, refl, refl, refl)
