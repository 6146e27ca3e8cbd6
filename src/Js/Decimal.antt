-- ===== src/Js/Decimal.antt =====
-- `String(n)` of a natural number, and `parseInt(s, 10)`.
use full_project.Prelude.{
  ℕ, zero, suc, ◌+◌, ◌-◌, ◌*◌, ◌/◌, ◌%◌, ◌<◌, ◌≡◌, refl, Bool, true, false, Option, none, some, [],
  ◌∷◌, arith, ◌==◌, if◌then◌else◌,
}
use full_project.Js.Text.{Text, codes, is_digit, is_space, trim_start}

-- `negsuc n` is -(n + 1).
pub data ℤ : Type 0 where
  pos : ℕ → ℤ
  negsuc : ℕ → ℤ

-- The digits of `n` in front of `out`; the fuel bounds their number.
show_from : ℕ → ℕ → Text → Text
show_from zero n out = out
show_from (suc fuel) n out =
    let longer = (b'0' + n % 10) ∷ out in
    let rest = show_from fuel (n / 10) longer in if n / 10 == 0 then longer else rest

unfoldable pub show : ℕ → Text
unfolding show_from
show n = show_from (suc n) n []

-- The number that the leading digits spell behind `n`.
unfoldable pub read_digits : Text → ℕ → ℕ
read_digits [] n = n
read_digits (c ∷ s) n = if is_digit c then read_digits s (n * 10 + (c - b'0')) else n

unfoldable pub starts_digit : Text → Bool
starts_digit [] = false
starts_digit (c ∷ s) = is_digit c

negate : ℕ → ℤ
negate zero = pos 0
negate (suc n) = negsuc n

read_unsigned : Text → Option ℕ
unfolding read_digits starts_digit
read_unsigned s = if starts_digit s then some (read_digits s 0) else none

-- The sign, then the digits; `none` is NaN.
read_signed : Text → Option ℤ
unfolding read_unsigned negate
read_signed [] = none
read_signed (c ∷ s) =
    if c == b'-'
    then elim (read_unsigned s) [ none ↦ none | some n ↦ some (negate n) ]
    else if c == b'+'
    then elim (read_unsigned s) [ none ↦ none | some n ↦ some (pos n) ]
    else elim (read_unsigned (c ∷ s)) [ none ↦ none | some n ↦ some (pos n) ]

unfoldable pub parse_int : Text → Option ℤ
unfolding read_signed trim_start is_space
parse_int s = read_signed (trim_start is_space s)

-- Printing loses nothing, whatever stands behind.
read_digits-show_from :
    (fuel n : ℕ) (out : Text) → n < fuel → read_digits (show_from fuel n out) 0 ≡ read_digits out n
unfolding show_from read_digits
read_digits-show_from zero n out h = absurd (omega arith)
read_digits-show_from (suc fuel) n out h =
    ground (arith, read_digits-show_from fuel (n / 10) ((b'0' + n % 10) ∷ out))

starts_digit-show_from :
    (fuel n : ℕ) (out : Text) → starts_digit out ≡ true → starts_digit (show_from fuel n out) ≡ true
unfolding show_from starts_digit
starts_digit-show_from zero n out h = h
starts_digit-show_from (suc fuel) n out h =
    ground (arith, starts_digit-show_from fuel (n / 10) ((b'0' + n % 10) ∷ out))

pub starts_digit-show : (n : ℕ) → starts_digit (show n) ≡ true
unfolding show_from show starts_digit
starts_digit-show n = ground (arith, starts_digit-show_from n (n / 10) ((b'0' + n % 10) ∷ []))

pub read_digits-show : (n : ℕ) → read_digits (show n) 0 ≡ n
unfolding show read_digits
read_digits-show n = read_digits-show_from (suc n) n [] (omega arith)

parse_int_of_digits :
    (s : Text) → starts_digit s ≡ true → parse_int s ≡ some (pos (read_digits s 0))
unfolding parse_int starts_digit
parse_int_of_digits [] h = ground arith
parse_int_of_digits (c ∷ s) h = ground arith

-- A printed number is read back.
pub parse_int-show : (n : ℕ) → parse_int (show n) ≡ some (pos n)
parse_int-show n =
    let read = parse_int_of_digits (show n) (starts_digit-show n) in
    ground (arith, read, read_digits-show n)

show_runs : show 1_700_000_000_123 ≡ codes "1700000000123"
unfolding show
show_runs = refl
