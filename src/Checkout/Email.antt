-- ===== src/Checkout/Email.antt =====
-- Which texts `validateEmail` takes: what its regular expression describes.
use full_project.Prelude.{
  ℕ, ◌≡◌, ◌≢◌, ◌↔◌, refl, sym, ◌∙◌, ap, Bool, true, false, not, ◌&&◌, List, [], ◌∷◌, ◌++◌, ◌==◌,
  ◌⊎◌, all, All, all-append, is_nil, arith, Bool-cases, ==_iff, inl, inr,
}
use full_project.Js.Text.{Text, is_space, split}
use full_project.Js.Text.Split.{
  both, second, is_other, join, join-split, split-other, split-word, split-cut,
}
use full_project.Checkout.{has_inner_dot, two_parts, validate_email}

-- `[^\s@]`
abbrev pub is_plain : ℕ → Bool
is_plain c = not (is_space c) && not (c == b'@')

-- One or more plain characters.
abbrev pub IsWord : Text → Type 0
IsWord s = (s ≢ []) × (all is_plain s ≡ true)

-- `^[^\s@]+@[^\s@]+\.[^\s@]+$`
abbrev pub IsEmail : Text → Type 0
IsEmail s =
    (user host domain : Text) × (s ≡ user ++ (b'@' ∷ (host ++ (b'.' ∷ domain))))
    × IsWord user
    × IsWord host
    × IsWord domain

-- A text with a dot that has a character on either side.
abbrev HasDot : Text → Type 0
HasDot s = (host domain : Text) × (s ≡ host ++ (b'.' ∷ domain)) × (host ≢ []) × (domain ≢ [])

inner_dot-HasDot : (s : Text) → has_inner_dot s ≡ true → HasDot s
unfolding has_inner_dot
inner_dot-HasDot [] h = cc
inner_dot-HasDot (a ∷ []) h = cc
inner_dot-HasDot (a ∷ b ∷ []) h = cc
inner_dot-HasDot (a ∷ b ∷ c ∷ s) h = of (Bool-cases (b == b'.')) (inner_dot-HasDot (b ∷ c ∷ s))
  where
    of :
        ((b == b'.') ≡ true) ⊎ ((b == b'.') ≡ false)
        → (has_inner_dot (b ∷ c ∷ s) ≡ true → HasDot (b ∷ c ∷ s))
        → HasDot (a ∷ b ∷ c ∷ s)
    of (inl e) later =
        (a ∷ [], c ∷ s, ap (λ x. a ∷ x ∷ c ∷ s) ((==_iff b b'.').0 e), (λ e. cc), (λ e. cc))
    of (inr e) later =
        let (host, domain, same, n, m) = later (second _ _ e h) in
        (a ∷ host, domain, ap (λ t. a ∷ t) same, (λ e. cc), m)

HasDot-inner_dot :
    (host domain : Text) → host ≢ [] → domain ≢ [] → has_inner_dot (host ++ (b'.' ∷ domain)) ≡ true
unfolding has_inner_dot
HasDot-inner_dot [] domain n m = absurd (n refl)
HasDot-inner_dot (a ∷ host) [] n m = absurd (m refl)
HasDot-inner_dot (a ∷ []) (d ∷ domain) n m = refl
HasDot-inner_dot (a ∷ b ∷ []) (d ∷ domain) n m =
    rw (HasDot-inner_dot (b ∷ []) (d ∷ domain) (λ e. cc) m) (ground arith)
HasDot-inner_dot (a ∷ b ∷ c ∷ host) (d ∷ domain) n m =
    rw (HasDot-inner_dot (b ∷ c ∷ host) (d ∷ domain) (λ e. cc) m) (ground arith)

two_parts-lem :
    (parts : List Text)
    → two_parts parts ≡ true
    → (user host : Text) × (parts ≡ user ∷ host ∷ []) × (user ≢ []) × (has_inner_dot host ≡ true)
unfolding two_parts
two_parts-lem [] h = cc
two_parts-lem (user ∷ []) h = cc
two_parts-lem ([] ∷ host ∷ []) h = cc
two_parts-lem ((c ∷ user) ∷ host ∷ []) h = (c ∷ user, host, refl, (λ e. cc), h)
two_parts-lem (user ∷ host ∷ more ∷ parts) h = cc

abbrev is_solid : ℕ → Bool
is_solid c = not (is_space c)

is_plain-both :
    (s : Text) → all is_solid s ≡ true → all (is_other b'@') s ≡ true → all is_plain s ≡ true
is_plain-both [] h k = refl
is_plain-both (c ∷ s) h k =
    let (h0, hs) = both (is_solid c) _ h in
    let (k0, ks) = both (is_other b'@' c) _ k in rw h0 (rw k0 (is_plain-both s hs ks))

is_plain-solid : (s : Text) → all is_plain s ≡ true → all is_solid s ≡ true
is_plain-solid [] h = refl
is_plain-solid (c ∷ s) h =
    let (h0, hs) = both (is_plain c) _ h in rw (both (is_solid c) _ h0).0 (is_plain-solid s hs)

is_plain-other : (s : Text) → all is_plain s ≡ true → all (is_other b'@') s ≡ true
is_plain-other [] h = refl
is_plain-other (c ∷ s) h =
    let (h0, hs) = both (is_plain c) _ h in rw (both (is_solid c) _ h0).1 (is_plain-other s hs)

-- Two texts around a character.
all-around :
    (p : ℕ → Bool) (s t : Text) (c : ℕ)
    → all p (s ++ (c ∷ t)) ≡ true
    → (all p s ≡ true) × (all p t ≡ true)
all-around p s t c h =
    let (hs, ht) = both (all p s) _ (sym (all-append p s (c ∷ t)) ∙ h) in (hs, (both (p c) _ ht).1)

around-all :
    (p : ℕ → Bool) (s t : Text) (c : ℕ)
    → all p s ≡ true
    → p c ≡ true
    → all p t ≡ true
    → all p (s ++ (c ∷ t)) ≡ true
around-all p s t c hs hc ht = all-append p s (c ∷ t) ∙ rw hs (rw hc ht)

validate_email-IsEmail : (s : Text) → validate_email s ≡ true → IsEmail s
unfolding validate_email
validate_email-IsEmail s h =
    let (solid, cut) = both (all is_solid s) _ h in
    let (user, rest, parts, some_user, dot) = two_parts-lem (split b'@' s) cut in
    let whole = sym (ap (join b'@') parts) ∙ join-split b'@' s in
    let (user_solid, rest_solid) =
      all-around is_solid user rest b'@' (ap (all is_solid) whole ∙ solid) in
    let (user_other, (rest_other, end)) =
      others (split b'@' s) (user ∷ rest ∷ []) parts (split-other b'@' s) in
    let (host, domain, same, some_host, some_domain) = inner_dot-HasDot rest dot in
    let plain = is_plain-both rest rest_solid rest_other in
    let (host_plain, domain_plain) =
      all-around is_plain host domain b'.' (sym (ap (all is_plain) same) ∙ plain) in
    (
      user,
      host,
      domain,
      sym whole ∙ ap (λ t. user ++ (b'@' ∷ t)) same,
      (some_user, is_plain-both user user_solid user_other),
      (some_host, host_plain),
      (some_domain, domain_plain),
    )
  where
    others :
        (l m : List Text)
        → l ≡ m
        → All (λ part. all (is_other b'@') part ≡ true) l
        → All (λ part. all (is_other b'@') part ≡ true) m
    others l m e h = rw (sym e) h

-- `validateEmail` takes exactly the texts that its regular expression describes: a name, an at sign,
-- and a host with a dot in it, each part of one or more characters that are neither white space nor
-- at signs.
pub validate_email_lem : (s : Text) → (validate_email s ≡ true) ↔ IsEmail s
unfolding validate_email two_parts is_space
validate_email_lem s = (validate_email-IsEmail s, back)
  where
    is_some : (t : Text) → t ≢ [] → is_nil t ≡ false
    is_some [] n = absurd (n refl)
    is_some (c ∷ t) n = refl

    back : IsEmail s → validate_email s ≡ true
    back (user, host, domain, same, (n, u), (m, h), (k, d)) =
        let rest = host ++ (b'.' ∷ domain) in
        let plain = around-all is_plain host domain b'.' h refl d in
        let cut =
          split-cut b'@' user rest (is_plain-other user u)
          ∙ ap (λ parts. user ∷ parts) (split-word b'@' rest (is_plain-other rest plain)) in
        let solid =
          around-all is_solid user rest b'@' (is_plain-solid user u) refl
            (is_plain-solid rest plain) in
        rw same (rw solid (rw cut (rw (is_some user n) (HasDot-inner_dot host domain m k))))
