-- ===== src/Js/Uri.antt =====
-- `encodeURIComponent` and `decodeURIComponent` on code points, through UTF-8.
pub mod Laws
use full_project.Prelude.{
  ℕ, zero, suc, ◌+◌, ◌-◌, ◌*◌, ◌/◌, ◌%◌, Bool, true, false, not, ◌&&◌, ◌||◌, Option, none, some,
  List, [], ◌∷◌, ◌++◌, ◌==◌, if◌then◌else◌, ltb, leb, ◌≡◌, refl,
}
use full_project.Js.Attempt.{Attempt, returned, thrown, ◌>>=◌}
use full_project.Js.Text.{Text, codes, is_digit, is_upper, is_lower}

-- A code point that is no half of a surrogate pair.
unfoldable pub is_scalar : ℕ → Bool
is_scalar c = ltb c 0xD800 || (ltb 0xDFFF c && ltb c 0x110000)

unfoldable pub is_unreserved : ℕ → Bool
is_unreserved c =
    is_digit c
    || is_upper c
    || is_lower c
    || c == b'-'
    || c == b'_'
    || c == b'.'
    || c == b'!'
    || c == b'~'
    || c == b'*'
    || c == 39
    || c == b'('
    || c == b')'

unfoldable pub hex : ℕ → ℕ
hex d = if ltb d 10 then b'0' + d else 55 + d

unfoldable pub percent_byte : ℕ → Text
percent_byte b = b'%' ∷ hex (b / 16) ∷ hex (b % 16) ∷ []

abbrev pub utf8 : ℕ → List ℕ
utf8 c =
    if ltb c 0x80
    then c ∷ []
    else if ltb c 0x800
    then (192 + c / 64) ∷ (128 + c % 64) ∷ []
    else if ltb c 0x10000
    then (224 + c / 4096) ∷ (128 + c / 64 % 64) ∷ (128 + c % 64) ∷ []
    else (240 + c / 262144) ∷ (128 + c / 4096 % 64) ∷ (128 + c / 64 % 64) ∷ (128 + c % 64) ∷ []

unfoldable pub percent_bytes : List ℕ → Text
percent_bytes [] = []
percent_bytes (b ∷ bs) = percent_byte b ++ percent_bytes bs

unfoldable pub encode_char : ℕ → Text
encode_char c = if is_unreserved c then c ∷ [] else percent_bytes (utf8 c)

-- A half of a surrogate pair throws a `URIError`.
unfoldable pub encode_uri : Text → Attempt Text
encode_uri [] = returned []
encode_uri (c ∷ s) =
    if is_scalar c then (encode_uri s >>= λ t. returned (encode_char c ++ t)) else thrown

-- A character as it stands, or a byte that `%` introduces.
pub data Piece : Type 0 where
  plain byte : ℕ → Piece

-- Where the reader stands: between pieces, behind `%`, or behind its first digit.
pub data Seen : Type 0 where
  nothing percent : Seen
  half : ℕ → Seen

unfoldable pub unhex : ℕ → Option ℕ
unhex c =
    if is_digit c
    then some (c - b'0')
    else if leb b'A' c && leb c b'F'
    then some (c - 55)
    else if leb b'a' c && leb c b'f'
    then some (c - 87)
    else none

abbrev pub next_digit : Seen → Option ℕ → Attempt (List Piece × Seen)
next_digit nothing o = thrown
next_digit percent none = thrown
next_digit percent (some d) = returned ([], half d)
next_digit (half h) none = thrown
next_digit (half h) (some d) = returned (byte (h * 16 + d) ∷ [], nothing)

-- The pieces that the next character completes, and where the reader stands then.
unfoldable pub read_piece : Seen → ℕ → Attempt (List Piece × Seen)
read_piece nothing c =
    if c == b'%' then returned ([], percent) else returned (plain c ∷ [], nothing)
read_piece percent c = next_digit percent (unhex c)
read_piece (half h) c = next_digit (half h) (unhex c)

unfoldable pub unescape : Seen → Text → Attempt (List Piece)
unescape nothing [] = returned []
unescape percent [] = thrown
unescape (half h) [] = thrown
unescape seen (c ∷ s) =
    read_piece seen c >>= λ (pieces, seen'). unescape seen' s >>= λ rest. returned (pieces ++ rest)

-- How many bytes of a sequence are to come, its value so far, and the least value that its length
-- may spell.
pub record Pending : Type 0 where
  pub missing : ℕ
  pub value : ℕ
  pub least : ℕ

abbrev pub idle : Pending
idle = record { missing = 0; value = 0; least = 0 }

unfoldable pub lead_byte : ℕ → Attempt (Text × Pending)
lead_byte b =
    if ltb b 128
    then returned (b ∷ [], idle)
    else if leb 192 b && ltb b 224
    then returned ([], record { missing = 1; value = b - 192; least = 0x80 })
    else if leb 224 b && ltb b 240
    then returned ([], record { missing = 2; value = b - 224; least = 0x800 })
    else if leb 240 b && ltb b 248
    then returned ([], record { missing = 3; value = b - 240; least = 0x10000 })
    else thrown

unfoldable pub next_byte : ℕ → ℕ → ℕ → ℕ → Attempt (Text × Pending)
next_byte missing value least b =
    let value' = value * 64 + (b - 128) in
    if not (leb 128 b && ltb b 192)
    then thrown
    else if not (missing == 0)
    then returned ([], record { missing = missing; value = value'; least = least })
    else if leb least value' && is_scalar value'
    then returned (value' ∷ [], idle)
    else thrown

abbrev pub step_in : ℕ → ℕ → ℕ → Piece → Attempt (Text × Pending)
step_in zero value least (plain c) = returned (c ∷ [], idle)
step_in zero value least (byte b) = lead_byte b
step_in (suc missing) value least (plain c) = thrown
step_in (suc missing) value least (byte b) = next_byte missing value least b

abbrev pub step : Pending → Piece → Attempt (Text × Pending)
step p = step_in p.missing p.value p.least

abbrev finish : ℕ → Attempt Text
finish zero = returned []
finish (suc missing) = thrown

unfoldable pub assemble : Pending → List Piece → Attempt Text
assemble p [] = finish p.missing
assemble p (i ∷ is) = step p i >>= λ (out, p'). assemble p' is >>= λ rest. returned (out ++ rest)

unfoldable pub decode_uri : Text → Attempt Text
decode_uri s = unescape nothing s >>= assemble idle

tests :
    (encode_uri (codes "a b;é€") ≡ returned (codes "a%20b%3B%C3%A9%E2%82%AC"))
    × (decode_uri (codes "a%20b%3B%C3%A9%e2%82%ac") ≡ returned (codes "a b;é€"))
    × (decode_uri (codes "100%") ≡ thrown)
    × (decode_uri (codes "%C0%80") ≡ thrown)
unfolding encode_uri is_scalar encode_char is_unreserved percent_bytes percent_byte hex decode_uri
    unescape read_piece unhex assemble lead_byte next_byte
tests = (refl, refl, refl, refl)
