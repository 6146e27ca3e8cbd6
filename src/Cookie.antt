-- ===== src/Cookie.antt =====
-- tracker.js: `document.cookie`, with `getCookie` and `setCookieLocal`, and the domain that
-- `getCookieDomain` gives its cookies.
pub mod Domain
pub mod Laws
pub mod Stored
pub mod Cleared
pub mod Frame
use full_project.Prelude.{
  ℕ, ◌+◌, ◌-◌, ◌*◌, ◌/◌, Bool, true, false, not, ◌&&◌, ◌||◌, Option, none, some, List, [], ◌∷◌,
  ◌++◌, ◌==◌, if◌then◌else◌, ltb, is_nil,
}
use full_project.Js.Attempt.{Attempt, returned, thrown, ◌>>=◌}
use full_project.Js.Text.{Text, codes, text_eq}
use full_project.Js.Uri.{encode_uri, decode_uri}

-- A cookie with the path `/`; the domain is the attribute as it was given, empty for a cookie of the
-- host alone, and `expires` is in milliseconds.
pub record Cookie : Type 0 where
  pub name : Text
  pub value : Text
  pub domain : Text
  pub expires : Option ℕ

abbrev pub Jar : Type 0
Jar = List Cookie

abbrev pub is_live : ℕ → Option ℕ → Bool
is_live now none = true
is_live now (some at) = ltb now at

unfoldable pub live : ℕ → Jar → Jar
live now [] = []
live now (c ∷ jar) = let rest = live now jar in if is_live now c.expires then c ∷ rest else rest

abbrev pub pair_text : Cookie → Text
pair_text c = c.name ++ (b'=' ∷ c.value)

-- Reading `document.cookie`.
unfoldable pub cookie_text : Jar → Text
cookie_text [] = []
cookie_text (c ∷ []) = pair_text c
cookie_text (c ∷ d ∷ jar) = pair_text c ++ (b';' ∷ b' ' ∷ cookie_text (d ∷ jar))

unfoldable pub after_prefix : Text → Text → Option Text
after_prefix [] s = some s
after_prefix (c ∷ p) [] = none
after_prefix (c ∷ p) (d ∷ s) = if c == d then after_prefix p s else none

-- `[^;]+` behind the name
unfoldable pub until_semicolon : Text → Text
until_semicolon [] = []
until_semicolon (c ∷ s) = if c == b';' then [] else c ∷ until_semicolon s

abbrev pub non_empty : Text → Option Text
non_empty [] = none
non_empty (c ∷ s) = some (c ∷ s)

-- `name=([^;]+)` at this place.
unfoldable pub match_at : Text → Text → Option Text
match_at name s = elim (after_prefix (name ++ (b'=' ∷ [])) s) [
  | none ↦ none
  | some rest ↦ non_empty (until_semicolon rest)
]

abbrev pub or_else : Option Text → Option Text → Option Text
or_else none o = o
or_else (some s) o = some s

-- ` name=([^;]+)` at the first place that fits.
unfoldable pub match_later : Text → Text → Option Text
match_later name [] = none
match_later name (c ∷ s) =
    or_else (if c == b' ' then match_at name s else none) (match_later name s)

-- `document.cookie.match(new RegExp('(^| )' + name + '=([^;]+)'))`, for a name of letters and
-- underscores.
unfoldable pub match_cookie : Text → Text → Option Text
match_cookie name s = or_else (match_at name s) (match_later name s)

abbrev pub decode_match : Option Text → Attempt Text
decode_match none = returned []
decode_match (some value) = decode_uri value

-- `getCookie(name)`
unfoldable pub get_cookie : Text → ℕ → Jar → Attempt Text
get_cookie name now jar = decode_match (match_cookie name (cookie_text (live now jar)))

abbrev pub same_cookie : Cookie → Cookie → Bool
same_cookie c d = text_eq c.name d.name && text_eq c.domain d.domain

-- The browser's side of an assignment to `document.cookie`: the new cookie takes the place of the
-- one with its name and domain.
unfoldable pub store : Cookie → Jar → Jar
store c [] = c ∷ []
store c (d ∷ jar) = if same_cookie c d then c ∷ jar else d ∷ store c jar

-- Thousandths of a day from now, or back.
pub data Days : Type 0 where
  ahead back : ℕ → Days

-- The date of `expires`; `toUTCString` drops the milliseconds.
unfoldable pub expiry : Days → ℕ → ℕ
expiry (ahead days) now = (now + days * 86400) / 1000 * 1000
expiry (back days) now = (now - days * 86400) / 1000 * 1000

-- `setCookieLocal(name, value, days)` with the domain of `getCookieDomain`. The browser refuses a
-- cookie for a domain that it does not accept.
unfoldable pub set_cookie_local : Text → Bool → Text → Text → Days → ℕ → Jar → Attempt Jar
set_cookie_local domain accepted name value days now jar = encode_uri value >>= λ encoded.
    returned (
      if accepted
      then store
          (record {
            name = name;
            value = encoded;
            domain = domain;
            expires = some (expiry days now);
          })
          jar
      else jar)
