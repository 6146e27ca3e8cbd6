-- ===== src/Visitor/Stable.antt =====
-- tracker.js, `getExternalId`: the visitor's identifier from one call to the next.
use full_project.Prelude.{ℕ, ◌<◌, ◌≡◌, refl, sym, ◌∙◌, ap, true, none, some, [], ◌∷◌, ◌++◌, All}
use full_project.Js.Attempt.{returned, returned-inj}
use full_project.Js.Decimal.{show}
use full_project.Js.Text.{Text, codes}
use full_project.Page.{Page}
use full_project.Cookie.{ahead, expiry, get_cookie}
use full_project.Cookie.Laws.{IsPlain, HasOneDomain, get_cookie-set_cookie_local}
use full_project.World.{World, M, pure, ◌>>◌, after, read_cookie, write_cookie, random_from}
use full_project.Visitor.{
  now_of, random_words_text, create_visitor_id, visitor_or_new, get_external_id,
}
use full_project.Visitor.Markers.{domain, is_accepted, after-returned, write_cookie-returned}

module _ (p : Page) where
  abbrev pub vid_cookie : Text
  vid_cookie = codes "_buykorigw_vid"

  -- What draws random numbers returns, and changes nothing but their count.
  record Draws (m : M Text) (w : World) : Type 0 where
    text : Text
    drawn : ℕ
    same : m w ≡ (returned text, record w { drawn = drawn })

  random_words_text-Draws : (o : _) (w : World) → Draws (random_words_text p o) w
  unfolding random_from
  random_words_text-Draws none w = record { text = _; drawn = _; same = refl }
  random_words_text-Draws (some words) w = record { text = _; drawn = _; same = refl }

  -- A new identifier is not empty.
  create_visitor_id-some :
      (w : World)
      → (c : ℕ) × (rest : Text) × (n : ℕ) × (create_visitor_id p w
          ≡ (returned (c ∷ rest), record w { drawn = n }))
  unfolding create_visitor_id now_of
  create_visitor_id-some w =
      let d = random_words_text-Draws p.random_words w in
      (
        _,
        _,
        d.drawn,
        ap (λ r. after r (λ rest. pure (codes "bk." ++ (show w.now ++ (b'.' ∷ rest))))) d.same,
      )

  -- Where no identifier is kept, `getExternalId` makes one, and every later call gives the same and
  -- changes nothing, as long as the cookies are those and 180 days have not passed: where the browser
  -- takes the page's domain, keeps its cookies plain, and has no cookie of that name for another
  -- domain.
  pub get_external_id-kept :
      (vid : Text) (w u : World)
      → is_accepted p ≡ true
      → All IsPlain w.jar
      → HasOneDomain vid_cookie (domain p) w.jar
      → (read_cookie p vid_cookie w).0 ≡ returned []
      → (get_external_id p w).0 ≡ returned vid
      → u.jar ≡ (get_external_id p w).1.jar
      → u.now < expiry (ahead 180_000) w.now
      → get_external_id p u ≡ (returned vid, u)
  unfolding get_external_id read_cookie
  get_external_id-kept vid w u taken plain one missing given jar early =
      let (c, rest, n, created) = create_visitor_id-some w in
      let v = (get_external_id p w).1 in
      let made =
        ap (λ r. after (r, w) (visitor_or_new p)) missing
        ∙ ap (λ r. after r (λ id. write_cookie p vid_cookie id (ahead 180_000) >> pure id))
            created in
      let (a, x, wrote, done) =
        after-returned
          (write_cookie p vid_cookie (c ∷ rest) (ahead 180_000) (record w { drawn = n }))
          (λ _. pure (c ∷ rest)) vid v (sym made ∙ ap (λ r. (r, v)) given) in
      let (same_now, set) = write_cookie-returned p vid_cookie (c ∷ rest) _ _ x wrote in
      let same_id = returned-inj (ap (λ r. r.0) done) in
      let same_jar = ap (λ r. r.1.jar) done in
      let kept =
        get_cookie-set_cookie_local (domain p) vid_cookie (c ∷ rest) (ahead 180_000) w.now u.now
          w.jar x.jar refl plain one (λ e. cc) (rw (sym taken) set) early in
      ap (λ r. after (r, u) (visitor_or_new p))
        (ap (get_cookie vid_cookie u.now) (jar ∙ sym same_jar) ∙ kept)
      ∙ ap (λ id. (returned id, u)) same_id
