-- ===== src/Cookie/Domain.antt =====
-- tracker.js: `getCookieDomain`, the widest domain that the shop's own cookies may have.
use full_project.Prelude.{
  ℕ, ◌≡◌, refl, Bool, false, not, ◌&&◌, ◌||◌, List, [], ◌∷◌, ◌++◌, ◌==◌, if◌then◌else◌, ltb, is_nil,
  all, any, length,
}
use full_project.Js.Text.{Text, codes, text_eq, split, is_digit, includes, starts}

-- The keys of `commonSecondLevelTlds`.
abbrev pub common_second_level_tlds : List Text
common_second_level_tlds =
    codes "ac"
    ∷ codes "co"
    ∷ codes "com"
    ∷ codes "edu"
    ∷ codes "gov"
    ∷ codes "net"
    ∷ codes "org"
    ∷ []

-- `parts.slice(-n)`
unfoldable pub last_parts : ℕ → List Text → List Text
last_parts n [] = []
last_parts n (part ∷ parts) =
    let rest = last_parts n parts in if ltb n (length (part ∷ parts)) then rest else part ∷ parts

unfoldable pub join_dots : List Text → Text
join_dots [] = []
join_dots (part ∷ []) = part
join_dots (part ∷ next ∷ parts) = part ++ (b'.' ∷ join_dots (next ∷ parts))

-- The look-up also finds the one property of every object that a host's part can name.
abbrev pub is_common_tld : Text → Bool
is_common_tld part =
    any (text_eq part) common_second_level_tlds || text_eq part (codes "constructor")

-- The last part has two letters and the one before is a common second level.
abbrev pub has_country_tld : List Text → Bool
has_country_tld (second ∷ last ∷ []) = length last == 2 && is_common_tld second
has_country_tld _ = false

-- `/^[0-9.]+$/`
abbrev pub is_numeric_host : Text → Bool
is_numeric_host host = not (is_nil host) && all (λ c. is_digit c || c == b'.') host

-- The parts of the host that the domain keeps.
unfoldable pub domain_parts : Text → List Text
domain_parts host =
    let parts = split b'.' host in
    if ltb 2 (length parts) && has_country_tld (last_parts 2 parts)
    then last_parts 3 parts
    else if ltb 2 (length parts)
    then last_parts 2 parts
    else parts

-- What stands behind `; domain=`; empty where the cookie is the host's alone.
unfoldable pub cookie_domain : Text → Text
cookie_domain host =
    if includes (codes ".") host
      && not (is_numeric_host host)
      && not (text_eq host (codes "localhost"))
    then b'.' ∷ join_dots (domain_parts host)
    else []

tests :
    (cookie_domain (codes "www.shop.com.bd") ≡ codes ".shop.com.bd")
    × (cookie_domain (codes "www.shop.com") ≡ codes ".shop.com")
    × (cookie_domain (codes "shop.com") ≡ codes ".shop.com")
    × (cookie_domain (codes "10.0.0.1") ≡ [])
    × (cookie_domain (codes "localhost") ≡ [])
unfolding cookie_domain domain_parts join_dots last_parts split text_eq includes starts
tests = (refl, refl, refl, refl, refl)
