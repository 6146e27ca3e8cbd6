-- ===== src/Visitor/Markers.antt =====
-- The cookie of a checkout's identifier, as `markInitiateCheckoutSent` writes it and
-- `clearCheckoutMarkers` clears it.
use full_project.Prelude.{ℕ, ◌<◌, ◌≡◌, ◌≢◌, refl, sym, ap, Bool, true, ◌||◌, [], ◌∷◌, All, is_nil}
use full_project.Js.Attempt.{Attempt, returned, thrown}
use full_project.Js.Uri.{encode_uri}
use full_project.Js.Text.{Text, codes, text_eq}
use full_project.Page.{Page}
use full_project.Cookie.{Jar, Days, ahead, back, expiry, get_cookie, set_cookie_local}
use full_project.Cookie.Domain.{cookie_domain}
use full_project.Cookie.Laws.{IsPlain, HasOneDomain, get_cookie-set_cookie_local}
use full_project.Cookie.Cleared.{HasOne, get_cookie-cleared, set_cookie_local-HasOne}
use full_project.Cookie.Stored.{set_cookie_local-IsPlain, set_cookie_local-HasOneDomain}
use full_project.World.{World, M, after, write_cookie, keep_jar}
use full_project.Visitor.{now_of, mark_initiate_checkout_sent, clear_checkout_markers}

pub after-returned :
    {A B : Type 0} (r : Attempt A × World) (f : A → M B) (b : B) (v : World)
    → after r f ≡ (returned b, v)
    → (a : A) × (u : World) × (r ≡ (returned a, u)) × (f a u ≡ (returned b, v))
after-returned (returned a, u) f b v e = (a, u, refl, e)
after-returned (thrown, u) f b v e = let no = ap (λ r. r.0) e in cc

module _ (p : Page) where
  abbrev pub domain : Text
  domain = cookie_domain p.location.hostname

  -- The browser takes the cookies of the page's domain.
  abbrev pub is_accepted : Bool
  is_accepted = is_nil domain || p.accepts_domain domain

  pub write_cookie-returned :
      (name value : Text) (days : Days) (w v : World)
      → write_cookie p name value days w ≡ (returned tt, v)
      → (v.now ≡ w.now)
        × (set_cookie_local domain is_accepted name value days w.now w.jar ≡ returned v.jar)
  unfolding write_cookie
  write_cookie-returned name value days w v =
      of (set_cookie_local domain is_accepted name value days w.now w.jar)
    where
      of :
          (r : Attempt Jar)
          → keep_jar p w r ≡ (returned tt, v)
          → (v.now ≡ w.now) × (r ≡ returned v.jar)
      of (returned jar) e = (ap (λ x. x.1.now) (sym e), ap (λ x. returned x.1.jar) e)
      of thrown e = let no = ap (λ r. r.0) e in cc

  -- The cookie of the identifier.
  abbrev pub id_cookie : Text
  id_cookie = codes "_buykorigw_ic_event_id"

  -- What `markInitiateCheckoutSent` writes is read back until it expires.
  pub mark_initiate_checkout_sent-read :
      (event_id : Text) (w v : World) (later : ℕ)
      → is_accepted ≡ true
      → All IsPlain w.jar
      → HasOneDomain id_cookie domain w.jar
      → event_id ≢ []
      → mark_initiate_checkout_sent p event_id w ≡ (returned tt, v)
      → later < expiry (ahead 14) w.now
      → get_cookie id_cookie later v.jar ≡ returned event_id
  unfolding mark_initiate_checkout_sent now_of
  mark_initiate_checkout_sent-read [] w v later taken plain one some_id marked early =
      absurd (some_id refl)
  mark_initiate_checkout_sent-read (c ∷ event_id) w v later taken plain one some_id marked early =
      let (a, u, first, second) =
        after-returned (write_cookie p (codes "_buykorigw_ic_sent") _ (ahead 14) w) _ tt v marked in
      let (same_now, sent) = write_cookie-returned _ _ _ w u first in
      let (now_again, written) = write_cookie-returned id_cookie (c ∷ event_id) _ u v second in
      get_cookie-set_cookie_local domain id_cookie (c ∷ event_id) (ahead 14) u.now later u.jar v.jar
        refl (set_cookie_local-IsPlain _ _ _ _ _ _ _ _ sent refl plain)
        (set_cookie_local-HasOneDomain _ _ _ _ _ _ _ _ sent id_cookie one) some_id
        (rw (sym taken) written) (rw same_now early)

  -- `clearCheckoutMarkers` never throws, since there is nothing to encode.
  pub clear_checkout_markers-returned : (w : World) → (clear_checkout_markers p w).0 ≡ returned tt
  unfolding clear_checkout_markers write_cookie set_cookie_local encode_uri
  clear_checkout_markers-returned w = refl

  pub clear_checkout_markers-IsPlain :
      (w v : World)
      → clear_checkout_markers p w ≡ (returned tt, v)
      → All IsPlain w.jar
      → All IsPlain v.jar
  unfolding clear_checkout_markers
  clear_checkout_markers-IsPlain w v cleared plain =
      let (a, u, first, second) =
        after-returned (write_cookie p (codes "_buykorigw_ic_sent") [] (back 1000) w) _ tt v
          cleared in
      let (same_now, sent) = write_cookie-returned _ _ _ w u first in
      let (now_again, gone) = write_cookie-returned id_cookie [] _ u v second in
      set_cookie_local-IsPlain _ _ _ _ _ _ _ _ gone refl
        (set_cookie_local-IsPlain _ _ _ _ _ _ _ _ sent refl plain)

  -- After `clearCheckoutMarkers` the identifier is read no more.
  pub clear_checkout_markers-read :
      (w v : World) (later : ℕ)
      → is_accepted ≡ true
      → All IsPlain w.jar
      → HasOneDomain id_cookie domain w.jar
      → HasOne id_cookie w.jar
      → clear_checkout_markers p w ≡ (returned tt, v)
      → get_cookie id_cookie later v.jar ≡ returned []
  unfolding clear_checkout_markers text_eq
  clear_checkout_markers-read w v later taken plain one single cleared =
      let (a, u, first, second) =
        after-returned (write_cookie p (codes "_buykorigw_ic_sent") [] (back 1000) w) _ tt v
          cleared in
      let (same_now, sent) = write_cookie-returned _ _ _ w u first in
      let (now_again, gone) = write_cookie-returned id_cookie [] _ u v second in
      get_cookie-cleared domain id_cookie (back 1000) u.now later u.jar v.jar refl
        (set_cookie_local-IsPlain _ _ _ _ _ _ _ _ sent refl plain)
        (set_cookie_local-HasOneDomain _ _ _ _ _ _ _ _ sent id_cookie one)
        (set_cookie_local-HasOne _ _ id_cookie _ _ _ _ _ _ sent refl single) (rw (sym taken) gone)
