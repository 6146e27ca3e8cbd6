-- ===== src/Cookie/Stored.antt =====
-- What an assignment to `document.cookie` leaves of the other cookies.
use full_project.Prelude.{ℕ, ◌≡◌, refl, Bool, true, false, [], ◌∷◌, if◌then◌else◌, all, All}
use full_project.Js.Attempt.{returned, >>=-eq-returned, returned-inj}
use full_project.Js.Text.{Text, text_eq_refl}
use full_project.Js.Uri.{encode_uri}
use full_project.Js.Uri.Laws.{encode_uri-encoded}
use full_project.Cookie.{Cookie, Jar, same_cookie, store, Days, set_cookie_local}
use full_project.Cookie.Laws.{
  is_name_char, IsPlain, HasOneDomain, store-IsPlain, encoded-value_plain,
}

module _ (domain name value : Text) (accepted : Bool) (days : Days) (now : ℕ) (jar jar' : Jar)
    (set : set_cookie_local domain accepted name value days now jar ≡ returned jar') where
  -- The browser's cookies stay plain.
  pub set_cookie_local-IsPlain : all is_name_char name ≡ true → All IsPlain jar → All IsPlain jar'
  unfolding set_cookie_local
  set_cookie_local-IsPlain n p =
      let (encoded, e, same) = >>=-eq-returned (encode_uri value) _ set in
      let (chars, full) = encode_uri-encoded value encoded e in
      rw (← returned-inj same) (
        kept accepted _ (
          store-IsPlain _ jar
            (record { name_plain = n; value_plain = encoded-value_plain encoded chars }) p))
    where
      kept : (b : Bool) (next : Jar) → All IsPlain next → All IsPlain (if b then next else jar)
      kept true next h = h
      kept false next h = p

  store-HasOneDomain :
      (other : Text) (c : Cookie) (old : Jar)
      → c.domain ≡ domain
      → HasOneDomain other domain old
      → HasOneDomain other domain (store c old)
  unfolding store
  store-HasOneDomain other c [] e h = ((λ k. rw e (text_eq_refl domain)), tt)
  store-HasOneDomain other c (d ∷ old) e (h, hs) =
      split (same_cookie c d) (store-HasOneDomain other c old e hs)
    where
      split :
          (b : Bool)
          → HasOneDomain other domain (store c old)
          → HasOneDomain other domain (if b then c ∷ old else d ∷ store c old)
      split true later = ((λ k. rw e (text_eq_refl domain)), hs)
      split false later = (h, later)

  -- No cookie of a name comes to have another domain.
  pub set_cookie_local-HasOneDomain :
      (other : Text) → HasOneDomain other domain jar → HasOneDomain other domain jar'
  unfolding set_cookie_local
  set_cookie_local-HasOneDomain other one =
      let (encoded, e, same) = >>=-eq-returned (encode_uri value) _ set in
      rw (← returned-inj same) (kept accepted _ (store-HasOneDomain other _ jar refl one))
    where
      kept :
          (b : Bool) (next : Jar)
          → HasOneDomain other domain next
          → HasOneDomain other domain (if b then next else jar)
      kept true next h = h
      kept false next h = one
