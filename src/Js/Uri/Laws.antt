-- ===== src/Js/Uri/Laws.antt =====
-- `decodeURIComponent` undoes `encodeURIComponent`, and an encoded text has no separator in it.
use native.Mathlib.Decide.{dec_lt}
use full_project.Prelude.{
  ℕ, suc, ◌+◌, ◌*◌, ◌/◌, ◌%◌, ◌<◌, ◌≤◌, ◌≡◌, lt→ltb, ◌≢◌, refl, sym, ◌∙◌, ap, Bool, true, false,
  ◌||◌, some, List, [], ◌∷◌, ◌++◌, ◌==◌, ltb, all, all-append, arith, Bool-cases, inl, inr,
  append_assoc, map,
}
use full_project.Js.Attempt.{>>=-eq-returned, returned-inj, Attempt, returned, thrown, ◌>>=◌}
use full_project.Js.Text.{Text}
use full_project.Js.Uri.{
  is_scalar, is_unreserved, hex, percent_byte, utf8, percent_bytes, encode_char, encode_uri, Piece,
  plain, byte, nothing, unhex, read_piece, unescape, idle, lead_byte, next_byte, assemble,
  decode_uri,
}

unhex-hex : (d : ℕ) → d < 16 → unhex (hex d) ≡ some d
unfolding unhex hex
unhex-hex d h = ground arith

hex-not_percent : (d : ℕ) → d < 16 → (hex d == b'%') ≡ false
unfolding hex
hex-not_percent d h = ground arith

abbrev prepend : List Piece → Attempt (List Piece) → Attempt (List Piece)
prepend pieces m = m >>= λ rest. returned (pieces ++ rest)

unescape-percent_byte :
    (b : ℕ) (s : Text)
    → b < 256
    → unescape nothing (percent_byte b ++ s) ≡ prepend (byte b ∷ []) (unescape nothing s)
unfolding unescape percent_byte read_piece
unescape-percent_byte b s h = ground (arith, unhex-hex (b / 16), unhex-hex (b % 16))

abbrev AreBytes : List ℕ → Type 0
AreBytes [] = Unit
AreBytes (b ∷ bs) = (b < 256) × AreBytes bs

prepend-nil : (m : Attempt (List Piece)) → prepend [] m ≡ m
prepend-nil (returned r) = refl
prepend-nil thrown = refl

prepend-append :
    (ps qs : List Piece) (m : Attempt (List Piece))
    → prepend ps (prepend qs m) ≡ prepend (ps ++ qs) m
prepend-append ps qs (returned r) = ap returned (sym (append_assoc ps qs r))
prepend-append ps qs thrown = refl

unescape-percent_bytes :
    (bs : List ℕ) (s : Text)
    → AreBytes bs
    → unescape nothing (percent_bytes bs ++ s) ≡ prepend (map byte bs) (unescape nothing s)
unfolding percent_bytes
unescape-percent_bytes [] s h = sym (prepend-nil (unescape nothing s))
unescape-percent_bytes (b ∷ bs) s (hb, hbs) = rw append_assoc (
    rw (unescape-percent_byte b (percent_bytes bs ++ s) hb) (
      rw (unescape-percent_bytes bs s hbs)
        (prepend-append (byte b ∷ []) (map byte bs) (unescape nothing s))))

utf8-AreBytes : (c : ℕ) → is_scalar c ≡ true → AreBytes (utf8 c)
unfolding is_scalar
utf8-AreBytes c h = ground arith

unescape-plain :
    (c : ℕ) (s : Text)
    → (c == b'%') ≡ false
    → unescape nothing (c ∷ s) ≡ prepend (plain c ∷ []) (unescape nothing s)
unfolding unescape read_piece
unescape-plain c s h = rw h refl

unreserved-not_percent : (c : ℕ) → is_unreserved c ≡ true → (c == b'%') ≡ false
unfolding is_unreserved
unreserved-not_percent c h = ground arith

abbrev push_text : Text → Attempt Text → Attempt Text
push_text out m = m >>= λ rest. returned (out ++ rest)

assemble_plain :
    (c : ℕ) (is : List Piece) → assemble idle (plain c ∷ is) ≡ push_text (c ∷ []) (assemble idle is)
unfolding assemble
assemble_plain c is = refl

lead_one : (c : ℕ) → c < 0x80 → lead_byte c ≡ returned (c ∷ [], idle)
unfolding lead_byte
lead_one c h = ground arith

lead_two :
    (x : ℕ)
    → x < 32
    → lead_byte (192 + x) ≡ returned ([], record { missing = 1; value = x; least = 0x80 })
unfolding lead_byte
lead_two x h = ground arith

lead_three :
    (x : ℕ)
    → x < 16
    → lead_byte (224 + x) ≡ returned ([], record { missing = 2; value = x; least = 0x800 })
unfolding lead_byte
lead_three x h = ground arith

lead_four :
    (x : ℕ)
    → x < 8
    → lead_byte (240 + x) ≡ returned ([], record { missing = 3; value = x; least = 0x10000 })
unfolding lead_byte
lead_four x h = ground arith

byte_between :
    (missing value least d : ℕ)
    → d < 64
    → next_byte (suc missing) value least (128 + d)
      ≡ returned ([], record { missing = suc missing; value = value * 64 + d; least = least })
unfolding next_byte
byte_between missing value least d h = ground arith

byte_last :
    (value least c : ℕ)
    → is_scalar c ≡ true
    → least ≤ c
    → value ≡ c / 64
    → next_byte 0 value least (128 + c % 64) ≡ returned (c ∷ [], idle)
unfolding next_byte
byte_last value least c h l v = ground arith

push_text-nil : (m : Attempt Text) → push_text [] m ≡ m
push_text-nil (returned r) = refl
push_text-nil thrown = refl

assemble_two :
    (c : ℕ) (is : List Piece)
    → is_scalar c ≡ true
    → 0x80 ≤ c
    → c < 0x800
    → assemble idle (byte (192 + c / 64) ∷ byte (128 + c % 64) ∷ is)
      ≡ push_text (c ∷ []) (assemble idle is)
unfolding assemble
assemble_two c is h lo hi = rw (lead_two (c / 64) (omega arith)) (
    rw (byte_last (c / 64) 0x80 c h lo refl)
      (push_text-nil (push_text (c ∷ []) (assemble idle is))))

assemble_three :
    (c : ℕ) (is : List Piece)
    → is_scalar c ≡ true
    → 0x800 ≤ c
    → c < 0x10000
    → assemble idle (byte (224 + c / 4096) ∷ byte (128 + c / 64 % 64) ∷ byte (128 + c % 64) ∷ is)
      ≡ push_text (c ∷ []) (assemble idle is)
unfolding assemble
assemble_three c is h lo hi = rw (lead_three (c / 4096) (omega arith)) (
    rw (byte_between 0 (c / 4096) 0x800 (c / 64 % 64) (omega arith)) (
      rw (byte_last (c / 4096 * 64 + c / 64 % 64) 0x800 c h lo (omega arith)) (
        ap (push_text []) (push_text-nil (push_text (c ∷ []) (assemble idle is)))
        ∙ push_text-nil (push_text (c ∷ []) (assemble idle is)))))

assemble_four :
    (c : ℕ) (is : List Piece)
    → is_scalar c ≡ true
    → 0x10000 ≤ c
    → c < 0x110000
    → assemble idle (
        byte (240 + c / 262144)
        ∷ byte (128 + c / 4096 % 64)
        ∷ byte (128 + c / 64 % 64)
        ∷ byte (128 + c % 64)
        ∷ is)
      ≡ push_text (c ∷ []) (assemble idle is)
unfolding assemble
assemble_four c is h lo hi = rw (lead_four (c / 262144) (omega arith)) (
    rw (byte_between 1 (c / 262144) 0x10000 (c / 4096 % 64) (omega arith)) (
      rw (byte_between 0 (c / 262144 * 64 + c / 4096 % 64) 0x10000 (c / 64 % 64) (omega arith)) (
        rw
          (byte_last ((c / 262144 * 64 + c / 4096 % 64) * 64 + c / 64 % 64) 0x10000 c h lo
            (omega arith))
          (let m = push_text (c ∷ []) (assemble idle is) in
            ap (λ x. push_text [] (push_text [] x)) (push_text-nil m)
            ∙ ap (push_text []) (push_text-nil m)
            ∙ push_text-nil m))))

assemble_one :
    (c : ℕ) (is : List Piece)
    → c < 0x80
    → assemble idle (byte c ∷ is) ≡ push_text (c ∷ []) (assemble idle is)
unfolding assemble
assemble_one c is h = rw (lead_one c h) refl

scalar-lt : (c : ℕ) → is_scalar c ≡ true → c < 0x110000
unfolding is_scalar
scalar-lt c h = ground arith

ltb_of_not_lt : (a b : ℕ) → ¬ (a < b) → ltb a b ≡ false
ltb_of_not_lt a b h = ground arith

assemble-utf8 :
    (c : ℕ) (is : List Piece)
    → is_scalar c ≡ true
    → assemble idle (map byte (utf8 c) ++ is) ≡ push_text (c ∷ []) (assemble idle is)
assemble-utf8 c is h = elim (dec_lt c 0x80) [
  | yes one ↦ rw (lt→ltb c 0x80 one) (assemble_one c is one)
  | no more ↦ rw (ltb_of_not_lt c 0x80 more) (elim (dec_lt c 0x800) [
    | yes two ↦ rw (lt→ltb c 0x800 two) (assemble_two c is h (omega arith) two)
    | no more' ↦ rw (ltb_of_not_lt c 0x800 more') (elim (dec_lt c 0x10000) [
      | yes three ↦ rw (lt→ltb c 0x10000 three) (assemble_three c is h (omega arith) three)
      | no four ↦
          rw (ltb_of_not_lt c 0x10000 four) (assemble_four c is h (omega arith) (scalar-lt c h))
    ])
  ])
]

decode_push :
    (pieces : List Piece) (c : ℕ)
    → ((is : List Piece) → assemble idle (pieces ++ is) ≡ push_text (c ∷ []) (assemble idle is))
    → (m : Attempt (List Piece))
    → (prepend pieces m >>= assemble idle) ≡ push_text (c ∷ []) (m >>= assemble idle)
decode_push pieces c each (returned is) = each is
decode_push pieces c each thrown = refl

-- One encoded character in front is one decoded character in front.
decode-encode_char :
    (c : ℕ) (t : Text)
    → is_scalar c ≡ true
    → decode_uri (encode_char c ++ t) ≡ push_text (c ∷ []) (decode_uri t)
unfolding decode_uri encode_char
decode-encode_char c t h = elim (Bool-cases (is_unreserved c)) [
  | inl u ↦ rw u (
      rw (unescape-plain c t (unreserved-not_percent c u))
        (decode_push (plain c ∷ []) c (assemble_plain c) (unescape nothing t)))
  | inr r ↦ rw r (
      rw (unescape-percent_bytes (utf8 c) t (utf8-AreBytes c h))
        (decode_push (map byte (utf8 c)) c (λ is. assemble-utf8 c is h) (unescape nothing t)))
]

-- The parts of a successful encoding.
encode_uri-cons :
    (c : ℕ) (s t : Text)
    → encode_uri (c ∷ s) ≡ returned t
    → (is_scalar c ≡ true) × (u : Text) × (encode_uri s ≡ returned u) × (encode_char c ++ u ≡ t)
unfolding encode_uri
encode_uri-cons c s t h = elim (Bool-cases (is_scalar c)) [
  | inl e ↦
      let (u, tail, same) =
        >>=-eq-returned (encode_uri s) (λ u. returned (encode_char c ++ u)) (rw e at h) in
      (e, u, tail, returned-inj same)
  | inr e ↦ let no_more : thrown ≡ returned t = rw e at h in cc
]

-- A text that can be encoded is read back as it was.
pub decode-encode : (s t : Text) → encode_uri s ≡ returned t → decode_uri t ≡ returned s
decode-encode [] t h =
    let e : [] ≡ t = returned-inj (unfold encode_uri in h) in
    rw (← e) (unfold decode_uri unescape assemble in refl)
decode-encode (c ∷ s) t h =
    let (ok, u, tail, same) = encode_uri-cons c s t h in
    rw (← same) (rw (decode-encode_char c u ok) (rw (decode-encode s u tail) refl))

-- What an encoded text is made of.
abbrev pub is_encoded_char : ℕ → Bool
is_encoded_char c = is_unreserved c || c == b'%'

percent_byte-encoded : (b : ℕ) → b < 256 → all is_encoded_char (percent_byte b) ≡ true
unfolding percent_byte hex is_unreserved
percent_byte-encoded b h = ground arith

percent_bytes-encoded : (bs : List ℕ) → AreBytes bs → all is_encoded_char (percent_bytes bs) ≡ true
unfolding percent_bytes
percent_bytes-encoded [] h = refl
percent_bytes-encoded (b ∷ bs) (hb, hbs) =
    rw all-append (rw (percent_byte-encoded b hb) (percent_bytes-encoded bs hbs))

encode_char-encoded : (c : ℕ) → is_scalar c ≡ true → all is_encoded_char (encode_char c) ≡ true
unfolding encode_char
encode_char-encoded c h = elim (Bool-cases (is_unreserved c)) [
  | inl u ↦ rw u (rw u refl)
  | inr r ↦ rw r (percent_bytes-encoded (utf8 c) (utf8-AreBytes c h))
]

utf8-ne-nil : (c : ℕ) (t : Text) → percent_bytes (utf8 c) ++ t ≢ []
unfolding percent_bytes percent_byte
utf8-ne-nil c t = ground arith

encode_char-ne-nil : (c : ℕ) (t : Text) → encode_char c ++ t ≢ []
unfolding encode_char
encode_char-ne-nil c t = elim (Bool-cases (is_unreserved c)) [
  | inl u ↦ rw u (λ e. cc)
  | inr r ↦ rw r (utf8-ne-nil c t)
]

-- An encoded text has only unreserved characters and percent signs, and it is empty only for the
-- empty text.
pub encode_uri-encoded :
    (s t : Text) → encode_uri s ≡ returned t → (all is_encoded_char t ≡ true) × (s ≢ [] → t ≢ [])
encode_uri-encoded [] t h =
    let e : [] ≡ t = returned-inj (unfold encode_uri in h) in
    rw (← e) (refl, λ no_text. absurd (no_text refl))
encode_uri-encoded (c ∷ s) t h =
    let (ok, u, tail, same) = encode_uri-cons c s t h in
    rw (← same) (
      rw all-append (rw (encode_char-encoded c ok) (encode_uri-encoded s u tail).0),
      λ _. encode_char-ne-nil c u,
    )
