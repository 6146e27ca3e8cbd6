-- ===== src/Cookie/Frame.antt =====
-- What an assignment to `document.cookie` leaves of what `getCookie` reads for other names.
use full_project.Prelude.{
  ℕ, ◌≡◌, refl, sym, ap, ◌∙◌, Bool, true, false, [], ◌∷◌, if◌then◌else◌, all, All,
}
use full_project.Js.Attempt.{returned, >>=-eq-returned, returned-inj}
use full_project.Js.Text.{Text, text_eq, text_eq_iff}
use full_project.Js.Text.Split.{both}
use full_project.Js.Uri.{encode_uri}
use full_project.Cookie.{
  Cookie, Jar, is_live, live, same_cookie, store, Days, get_cookie, decode_match, set_cookie_local,
}
use full_project.Cookie.Laws.{
  first, is_name_char, IsPlain, live-IsPlain, first_other, match_cookie-text,
}
use full_project.Cookie.Stored.{set_cookie_local-IsPlain}

module _ (name : Text) where
  first-cons :
      (d : Cookie) (a b : Jar) (now : ℕ)
      → first name (live now a) ≡ first name (live now b)
      → first name (live now (d ∷ a)) ≡ first name (live now (d ∷ b))
  unfolding first live
  first-cons d a b now h = split (is_live now d.expires)
    where
      split :
          (c : Bool)
          → first name (if c then d ∷ live now a else live now a)
            ≡ first name (if c then d ∷ live now b else live now b)
      split true = rw h refl
      split false = h

  first-store_other :
      (c : Cookie) (jar : Jar) (now : ℕ)
      → text_eq name c.name ≡ false
      → first name (live now (store c jar)) ≡ first name (live now jar)
  unfolding store
  first-store_other c [] now e = first_other name c [] now e
  first-store_other c (d ∷ jar) now e =
      split (same_cookie c d) (λ h. (both (text_eq c.name d.name) _ h).0)
        (first-store_other c jar now e)
    where
      split :
          (b : Bool)
          → (b ≡ true → text_eq c.name d.name ≡ true)
          → first name (live now (store c jar)) ≡ first name (live now jar)
          → first name (live now (if b then c ∷ jar else d ∷ store c jar))
            ≡ first name (live now (d ∷ jar))
      split true same h =
          let other : text_eq name d.name ≡ false =
            rw (← (text_eq_iff c.name d.name).0 (same refl)) e in
          first_other name c jar now e ∙ sym (first_other name d jar now other)
      split false same h = first-cons d (store c jar) jar now h

-- A cookie of another name, be it taken by the browser or not, leaves what is read of this one: where
-- the browser keeps its cookies plain.
pub get_cookie-other :
    (domain name other value : Text) (accepted : Bool) (days : Days) (now later : ℕ)
    (jar jar' : Jar)
    → all is_name_char name ≡ true
    → all is_name_char other ≡ true
    → text_eq name other ≡ false
    → All IsPlain jar
    → set_cookie_local domain accepted other value days now jar ≡ returned jar'
    → get_cookie name later jar' ≡ get_cookie name later jar
unfolding get_cookie set_cookie_local
get_cookie-other domain name other value accepted days now later jar jar' n m e p set =
    let plain = set_cookie_local-IsPlain domain other value accepted days now jar jar' set m p in
    let (encoded, h, same) = >>=-eq-returned (encode_uri value) _ set in
    ap decode_match (
      match_cookie-text name (live later jar') n (live-IsPlain later jar' plain)
      ∙ rw (← returned-inj same) (kept accepted _ (first-store_other name _ jar later e))
      ∙ sym (match_cookie-text name (live later jar) n (live-IsPlain later jar p)))
  where
    kept :
        (b : Bool) (next : Jar)
        → first name (live later next) ≡ first name (live later jar)
        → first name (live later (if b then next else jar)) ≡ first name (live later jar)
    kept true next h = h
    kept false next h = refl
