-- ===== src/Cookie/Laws.antt =====
-- The regular expression of `getCookie` finds the cookie of the jar, and a cookie that was set is
-- read back.
use full_project.Prelude.{
  ℕ, ◌<◌, ◌≡◌, ◌≢◌, refl, sym, ◌∙◌, ap, Bool, true, false, not, ◌&&◌, ◌||◌, Option, none, some, [],
  ◌∷◌, ◌++◌, ◌==◌, if◌then◌else◌, is_nil, all, All, all-append, append-nil, arith, Bool-cases,
  ==_iff, inl, inr, append_assoc, lt→ltb,
}
use full_project.Js.Attempt.{returned, >>=-eq-returned, returned-inj}
use full_project.Js.Text.{Text, text_eq, text_eq_refl}
use full_project.Js.Uri.{encode_uri, is_unreserved}
use full_project.Js.Uri.Laws.{decode-encode, encode_uri-encoded, is_encoded_char}
use full_project.Cookie.{
  Cookie, Jar, is_live, live, pair_text, cookie_text, after_prefix, until_semicolon, non_empty,
  match_at, match_later, match_cookie, get_cookie, store, Days, expiry, set_cookie_local,
}

abbrev pub is_name_char : ℕ → Bool
is_name_char c = not (c == b'=' || c == b';' || c == b' ')

abbrev pub is_value_char : ℕ → Bool
is_value_char c = not (c == b';' || c == b' ')

-- As the browser keeps its cookies.
pub record IsPlain (c : Cookie) : Type 0 where
  pub name_plain : all is_name_char c.name ≡ true
  pub value_plain : all is_value_char c.value ≡ true

-- The value of the first cookie of that name that is not empty.
unfoldable pub first : Text → Jar → Option Text
first name [] = none
first name (c ∷ jar) =
    if text_eq name c.name && not (is_nil c.value) then some c.value else first name jar

after_prefix-name :
    (name other rest : Text)
    → all is_name_char name ≡ true
    → all is_name_char other ≡ true
    → after_prefix (name ++ (b'=' ∷ [])) (other ++ (b'=' ∷ rest))
      ≡ (if text_eq name other then some rest else none)
unfolding after_prefix text_eq
after_prefix-name [] [] rest h k = refl
after_prefix-name [] (d ∷ other) rest h k = ground arith
after_prefix-name (c ∷ name) [] rest h k = ground arith
after_prefix-name (c ∷ name) (d ∷ other) rest h k =
    ground (arith, after_prefix-name name other rest)

-- The rest of the text is empty, or begins with a semicolon.
abbrev IsCut : Text → Type 0
IsCut [] = Unit
IsCut (c ∷ s) = c ≡ b';'

until_semicolon-value :
    (value rest : Text)
    → all is_value_char value ≡ true
    → IsCut rest
    → until_semicolon (value ++ rest) ≡ value
unfolding until_semicolon
until_semicolon-value [] [] h k = refl
until_semicolon-value [] (c ∷ s) h k = rw k refl
until_semicolon-value (c ∷ value) rest h k = ground (arith, until_semicolon-value value rest)

non_empty_lem : (v : Text) → non_empty v ≡ (if not (is_nil v) then some v else none)
non_empty_lem [] = refl
non_empty_lem (c ∷ v) = refl

abbrev is_no_space : ℕ → Bool
is_no_space c = not (c == b' ')

name-no_space : (s : Text) → all is_name_char s ≡ true → all is_no_space s ≡ true
name-no_space [] h = refl
name-no_space (c ∷ s) h = ground (arith, name-no_space s)

value-no_space : (s : Text) → all is_value_char s ≡ true → all is_no_space s ≡ true
value-no_space [] h = refl
value-no_space (c ∷ s) h = ground (arith, value-no_space s)

pair_text-no_space : (c : Cookie) → IsPlain c → all is_no_space (pair_text c) ≡ true
pair_text-no_space c p =
    rw (all-append is_no_space c.name (b'=' ∷ c.value))
      (rw (name-no_space c.name p.name_plain) (value-no_space c.value p.value_plain))

match_at-pair :
    (name : Text) (c : Cookie) (rest : Text)
    → all is_name_char name ≡ true
    → IsPlain c
    → IsCut rest
    → match_at name (pair_text c ++ rest)
      ≡ (if text_eq name c.name && not (is_nil c.value) then some c.value else none)
unfolding match_at
match_at-pair name c rest h p k = rw (append_assoc c.name (b'=' ∷ c.value) rest) (
    rw (after_prefix-name name c.name (c.value ++ rest) h p.name_plain, match_at)
      (ground (arith, until_semicolon-value c.value rest p.value_plain k, non_empty_lem c.value)))

match_later-skip :
    (name s rest : Text)
    → all (λ c. not (c == b' ')) s ≡ true
    → match_later name (s ++ rest) ≡ match_later name rest
unfolding match_later
match_later-skip name [] rest h = refl
match_later-skip name (c ∷ s) rest h = ground (arith, match_later-skip name s rest)

match_later-pair :
    (name : Text) (c : Cookie) (rest : Text)
    → IsPlain c
    → match_later name (pair_text c ++ rest) ≡ match_later name rest
match_later-pair name c rest p = match_later-skip name (pair_text c) rest (pair_text-no_space c p)

match_later-separator : (name s : Text) → match_later name (b';' ∷ b' ' ∷ s) ≡ match_cookie name s
unfolding match_later match_cookie
match_later-separator name s = refl

match_at-nil : (name : Text) → match_at name [] ≡ none
unfolding match_at after_prefix
match_at-nil [] = refl
match_at-nil (c ∷ name) = refl

match_cookie-pair :
    (name : Text) (c : Cookie) (rest : Text)
    → all is_name_char name ≡ true
    → IsPlain c
    → IsCut rest
    → match_cookie name (pair_text c ++ rest) ≡ (
        if text_eq name c.name && not (is_nil c.value) then some c.value else match_later name rest)
unfolding match_cookie
match_cookie-pair name c rest h p k =
    ground (arith, match_at-pair name c rest h p k, match_later-pair name c rest p)

-- `getCookie` reads `document.cookie` by a regular expression; over cookies as the browser keeps
-- them it finds the first cookie of that name that is not empty, and no part of another cookie.
pub match_cookie-text :
    (name : Text) (jar : Jar)
    → all is_name_char name ≡ true
    → All IsPlain jar
    → match_cookie name (cookie_text jar) ≡ first name jar
unfolding cookie_text first
match_cookie-text name [] h p = unfold match_cookie match_later in rw (match_at-nil name) refl
match_cookie-text name (c ∷ []) h (p, _) =
    ap (match_cookie name) (sym (append-nil (pair_text c)))
    ∙ match_cookie-pair name c [] h p tt
    ∙ unfold match_later in refl
match_cookie-text name (c ∷ d ∷ jar) h (p, ps) =
    match_cookie-pair name c (b';' ∷ b' ' ∷ cookie_text (d ∷ jar)) h p refl
    ∙ ap
        (λ (later : Option Text).
          if text_eq name c.name && not (is_nil c.value) then some c.value else later)
        (match_later-separator name (cookie_text (d ∷ jar)) ∙ match_cookie-text name (d ∷ jar) h ps)

-- Every other cookie of that name has the domain `domain` too.
abbrev pub HasOneDomain : Text → Text → Jar → Type 0
HasOneDomain name domain jar =
    All (λ c. text_eq name c.name ≡ true → text_eq domain c.domain ≡ true) jar

pub live-IsPlain : (now : ℕ) (jar : Jar) → All IsPlain jar → All IsPlain (live now jar)
unfolding live
live-IsPlain now [] p = tt
live-IsPlain now (c ∷ jar) (p, ps) = ground (arith, live-IsPlain now jar ps)

pub store-IsPlain :
    (c : Cookie) (jar : Jar) → IsPlain c → All IsPlain jar → All IsPlain (store c jar)
unfolding store
store-IsPlain c [] p ps = (p, tt)
store-IsPlain c (d ∷ jar) p (q, ps) = ground (arith, store-IsPlain c jar p ps)

first_here :
    (c : Cookie) (jar : Jar) (now : ℕ)
    → is_live now c.expires ≡ true
    → c.value ≢ []
    → first c.name (live now (c ∷ jar)) ≡ some c.value
unfolding first live
first_here c jar now alive given =
    rw alive (rw (text_eq_refl c.name) (given_first c.value given (first c.name (live now jar))))
  where
    given_first :
        (v : Text) → v ≢ [] → (o : Option Text) → (if not (is_nil v) then some v else o) ≡ some v
    given_first [] g o = absurd (g refl)
    given_first (x ∷ v) g o = refl

pub first_other :
    (name : Text) (d : Cookie) (jar : Jar) (now : ℕ)
    → text_eq name d.name ≡ false
    → first name (live now (d ∷ jar)) ≡ first name (live now jar)
unfolding first live
first_other name d jar now other = ground arith

-- After a cookie is stored, it is the first of its name.
first-store :
    (c : Cookie) (jar : Jar) (now : ℕ)
    → HasOneDomain c.name c.domain jar
    → is_live now c.expires ≡ true
    → c.value ≢ []
    → first c.name (live now (store c jar)) ≡ some c.value
unfolding store
first-store c [] now one alive given = first_here c [] now alive given
first-store c (d ∷ jar) now (here, one) alive given = elim (Bool-cases (text_eq c.name d.name)) [
  | inl same ↦ rw (same, here same, store) (first_here c jar now alive given)
  | inr other ↦
      rw other
        (rw (first_other c.name d (store c jar) now other) (first-store c jar now one alive given))
]

-- A character that is not encoded does not occur.
encoded_char-ne :
    (c k : ℕ) → is_encoded_char k ≡ false → is_encoded_char c ≡ true → (c == k) ≡ false
encoded_char-ne c k out h = elim (Bool-cases (c == k)) [
  | inl e ↦ let same : is_encoded_char k ≡ true = rw ((==_iff c k).0 e) at h in cc
  | inr e ↦ e
]

pub encoded-value_plain : (t : Text) → all is_encoded_char t ≡ true → all is_value_char t ≡ true
encoded-value_plain [] h = refl
encoded-value_plain (c ∷ t) h = elim (Bool-cases (is_encoded_char c)) [
  | inl e ↦ rw (encoded_char-ne c b';' (unfold is_unreserved in refl) e) (
      rw (encoded_char-ne c b' ' (unfold is_unreserved in refl) e)
        (encoded-value_plain t (rw e at h)))
  | inr e ↦ let no : false ≡ true = rw e at h in cc
]

-- A value that is not empty is read back from `document.cookie` as it was set, until the cookie
-- expires: where the browser keeps its cookies plain, takes the domain, and has no cookie of that
-- name for another domain.
pub get_cookie-set_cookie_local :
    (domain name value : Text) (days : Days) (now later : ℕ) (jar jar' : Jar)
    → all is_name_char name ≡ true
    → All IsPlain jar
    → HasOneDomain name domain jar
    → value ≢ []
    → set_cookie_local domain true name value days now jar ≡ returned jar'
    → later < expiry days now
    → get_cookie name later jar' ≡ returned value
unfolding get_cookie set_cookie_local
get_cookie-set_cookie_local domain name value days now later jar jar' n p one given set early =
    let (encoded, e, same) = >>=-eq-returned (encode_uri value) _ set in
    let (chars, full) = encode_uri-encoded value encoded e in
    let c : Cookie = record {
      name = name;
      value = encoded;
      domain = domain;
      expires = some (expiry days now);
    } in
    let plain : IsPlain c = record {
      name_plain = n;
      value_plain = encoded-value_plain encoded chars;
    } in
    let jar_is : store c jar ≡ jar' = returned-inj same in
    rw (← jar_is) (
      rw
        (match_cookie-text name (live later (store c jar)) n
          (live-IsPlain later (store c jar) (store-IsPlain c jar plain p)))
        (rw (first-store c jar later one (lt→ltb later (expiry days now) early) (full given))
          (decode-encode value encoded e)))
