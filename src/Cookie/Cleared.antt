-- ===== src/Cookie/Cleared.antt =====
-- Cookies that are set to nothing.
use full_project.Prelude.{
  ℕ, ◌≡◌, refl, sym, ◌∙◌, Bool, true, false, inl, inr, none, some, [], ◌∷◌, if◌then◌else◌, all, All,
  Bool-cases,
}
use full_project.Js.Attempt.{returned, >>=-eq-returned, returned-inj}
use full_project.Js.Text.{Text, text_eq, text_eq_refl}
use full_project.Js.Uri.{encode_uri}
use full_project.Cookie.{
  Cookie, Jar, is_live, live, same_cookie, store, Days, expiry, get_cookie, set_cookie_local,
}
use full_project.Cookie.Laws.{
  first, is_name_char, IsPlain, HasOneDomain, store-IsPlain, live-IsPlain, first_other,
  match_cookie-text,
}

-- No cookie of that name.
abbrev pub Lacks : Text → Jar → Type 0
Lacks name jar = All (λ c. text_eq name c.name ≡ false) jar

-- One cookie of that name at most.
abbrev pub HasOne : Text → Jar → Type 0
HasOne name [] = Unit
HasOne name (c ∷ jar) = (text_eq name c.name ≡ true → Lacks name jar) × HasOne name jar

module _ (name : Text) where
  first-Lacks : (now : ℕ) (jar : Jar) → Lacks name jar → first name (live now jar) ≡ none
  unfolding first live
  first-Lacks now [] h = refl
  first-Lacks now (c ∷ jar) (h, hs) = first_other name c jar now h ∙ first-Lacks now jar hs

  store-Lacks :
      (c : Cookie) (jar : Jar)
      → text_eq name c.name ≡ false
      → Lacks name jar
      → Lacks name (store c jar)
  unfolding store
  store-Lacks c [] e h = (e, tt)
  store-Lacks c (d ∷ jar) e (h, hs) = split (same_cookie c d) (store-Lacks c jar e hs)
    where
      split :
          (b : Bool)
          → Lacks name (store c jar)
          → Lacks name (if b then c ∷ jar else d ∷ store c jar)
      split true later = (e, hs)
      split false later = (h, later)

  -- A cookie of another name changes nothing of that.
  pub store-HasOne :
      (c : Cookie) (jar : Jar)
      → text_eq name c.name ≡ false
      → HasOne name jar
      → HasOne name (store c jar)
  unfolding store
  store-HasOne c [] e h = ((λ k. tt), tt)
  store-HasOne c (d ∷ jar) e (h, hs) = split (same_cookie c d) (store-HasOne c jar e hs)
    where
      split :
          (b : Bool)
          → HasOne name (store c jar)
          → HasOne name (if b then c ∷ jar else d ∷ store c jar)
      split true later = ((λ k. let no = sym e ∙ k in cc), hs)
      split false later = ((λ k. store-Lacks c jar e (h k)), later)

-- A cookie with no value is passed over.
first-empty :
    (c : Cookie) (jar : Jar) (now : ℕ)
    → c.value ≡ []
    → first c.name (live now (c ∷ jar)) ≡ first c.name (live now jar)
unfolding first live
first-empty c jar now e = split (is_live now c.expires) (live now jar)
  where
    split :
        (b : Bool) (rest : Jar) → first c.name (if b then c ∷ rest else rest) ≡ first c.name rest
    split true rest = rw (text_eq_refl c.name) (rw e refl)
    split false rest = refl

first-cleared :
    (c : Cookie) (jar : Jar) (now : ℕ)
    → c.value ≡ []
    → HasOneDomain c.name c.domain jar
    → HasOne c.name jar
    → first c.name (live now (store c jar)) ≡ none
unfolding store
first-cleared c [] now e one single = first-empty c [] now e ∙ first-Lacks c.name now [] tt
first-cleared c (d ∷ jar) now e (here, one) (this, single) =
    elim (Bool-cases (text_eq c.name d.name)) [
      | inl same ↦
          rw (same, here same, store)
            (first-empty c jar now e ∙ first-Lacks c.name now jar (this same))
      | inr other ↦
          rw other
            (first_other c.name d (store c jar) now other ∙ first-cleared c jar now e one single)
    ]

-- A cookie of the page's domain that is set to nothing reads as nothing from then on: where the
-- browser keeps its cookies plain, and has no other cookie of that name.
pub get_cookie-cleared :
    (domain name : Text) (days : Days) (now later : ℕ) (jar jar' : Jar)
    → all is_name_char name ≡ true
    → All IsPlain jar
    → HasOneDomain name domain jar
    → HasOne name jar
    → set_cookie_local domain true name [] days now jar ≡ returned jar'
    → get_cookie name later jar' ≡ returned []
unfolding get_cookie set_cookie_local encode_uri
get_cookie-cleared domain name days now later jar jar' n p one single set =
    let c : Cookie = record {
      name = name;
      value = [];
      domain = domain;
      expires = some (expiry days now);
    } in
    let plain : IsPlain c = record { name_plain = n; value_plain = refl } in
    rw (← returned-inj set) (
      rw
        (match_cookie-text name (live later (store c jar)) n
          (live-IsPlain later (store c jar) (store-IsPlain c jar plain p)))
        (rw (first-cleared c jar later refl one single) refl))

-- A cookie of another name leaves at most one cookie of this name.
pub set_cookie_local-HasOne :
    (domain other name value : Text) (accepted : Bool) (days : Days) (now : ℕ) (jar jar' : Jar)
    → set_cookie_local domain accepted other value days now jar ≡ returned jar'
    → text_eq name other ≡ false
    → HasOne name jar
    → HasOne name jar'
unfolding set_cookie_local
set_cookie_local-HasOne domain other name value accepted days now jar jar' set e single =
    let (encoded, h, same) = >>=-eq-returned (encode_uri value) _ set in
    rw (← returned-inj same) (kept accepted _ (store-HasOne name _ jar e single))
  where
    kept : (b : Bool) (next : Jar) → HasOne name next → HasOne name (if b then next else jar)
    kept true next h = h
    kept false next h = single
