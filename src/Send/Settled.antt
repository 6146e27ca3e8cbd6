-- ===== src/Send/Settled.antt =====
-- What the handlers of a pending `fetch` do to the measures and to the log when it settles.
use text.Mathlib.Text.{◌==◌ as str_eq}
use full_project.Prelude.{
  String, ℕ, zero, suc, ◌+◌, ◌≤◌, ◌≡◌, refl, ◌∙◌, ap, Bool, true, false, Option, none, some, List,
  [], ◌∷◌, if◌then◌else◌, arith,
}
use full_project.Js.Attempt.{Attempt, returned, thrown}
use full_project.Page.{Page}
use full_project.World.{
  Transport, beacon, form_post, Request, request, Effect, Pending, World, M, after, throw, or_else,
  emit,
}
use full_project.World.Effects.{Keeps, Given}
use full_project.World.Body.{IsBody, is_about-named}
use full_project.Send.Body.{build_ajax_form_data-IsBody}
use full_project.Js.Text.{codes}
use full_project.Js.Value.{str, get}
use full_project.Send.{send_via_ajax, post_form}
use full_project.Send.Settle.{
  Outcome, answered, failed, settle_fetch, settle_found, settle_pending, pick, keep_first,
}
use full_project.Send.Laws.{build_ajax_form_data-Sends}
use full_project.Send.Measure.{
  sample, sample-IsBody, requests_by, is_fetch, is_other, weight, pending_of, fetches_of, forms_of,
}

abbrev Nothing : Effect → Type 0
Nothing e = ⊥

-- What a function that makes one request of a pending event may cost.
abbrev cost : String → Pending → {A : Type 0} → Attempt A → ℕ
cost name x (returned a) = weight name x
cost name x thrown = 0

module _ (name : String) (x : Pending) where
  -- The request is no `fetch` of JSON, and it is there if the function returns.
  abbrev Posted : {A : Type 0} → World → Attempt A × World → Type 0
  Posted w (r, v) =
      (v.pending ≡ w.pending)
      × (requests_by is_fetch name v.log ≡ requests_by is_fetch name w.log)
      × (requests_by is_other name v.log ≤ cost name x r + requests_by is_other name w.log)

  record Posts {A : Type 0} (m : M A) : Type 0 where
    posts : (w : World) → Posted w (m w)

  Posted-trans :
      {A : Type 0} (u w : World) (r : Attempt A × World)
      → (u.pending ≡ w.pending)
      → (requests_by is_fetch name u.log ≡ requests_by is_fetch name w.log)
      → (requests_by is_other name u.log ≤ requests_by is_other name w.log)
      → Posted u r
      → Posted w r
  Posted-trans u w r a b c (d, e, f) = (d ∙ a, e ∙ b, (omega arith))

  after-Posts :
      {A B : Type 0} (Q : A → Type 0) (w : World) (r : Attempt A × World) (f : A → M B)
      → Keeps Nothing w r.1
      → Given Q r.0
      → ((a : A) → Q a → Posts (f a))
      → Posted w (after r f)
  after-Posts Q w (returned a, v) f ((([], e, i), ([], d, j)), k) q h =
      let other = ap (requests_by is_other name) e in
      Posted-trans v w (f a v) d (ap (requests_by is_fetch name) e) (omega arith) ((h a q).posts v)
  after-Posts Q w (thrown, v) f ((([], e, i), ([], d, j)), k) q h =
      let other = ap (requests_by is_other name) e in
      (d, ap (requests_by is_fetch name) e, (omega arith))
  after-Posts Q w r f (((y ∷ new, e, (i, is)), g), k) q h = absurd i
  after-Posts Q w r f ((g, (y ∷ new, e, (i, is))), k) q h =
      absurd (i beacon (sample y) (sample-IsBody y))

  or_else-Posts :
      {A : Type 0} (w : World) (r : Attempt A × World) (k : M A)
      → Posted w r
      → Posts k
      → Posted w (or_else r k)
  or_else-Posts w (returned a, v) k h g = h
  or_else-Posts w (thrown, v) k (a, b, c) g = Posted-trans v w (k v) a b (omega arith) (g.posts v)

  emit-Posts :
      (t : Transport) (r : Request)
      → is_fetch t ≡ false
      → get "event_name" r.body ≡ str (codes x.event_name)
      → Posts (emit (request t r))
  unfolding emit
  emit-Posts t r e k = record {
    posts = λ w. (
      refl,
      rw e refl,
      rw e (
          rw (is_about-named x.event_name name r.body k)
            (one_more (str_eq x.event_name name) (requests_by is_other name w.log))),
    );
  }
    where
      one_more : (b : Bool) (n : ℕ) → (if b then suc n else n) ≤ (if b then 1 else 0) + n
      one_more true n = omega arith
      one_more false n = omega arith

  if-Posts : {A : Type 0} (b : Bool) {m k : M A} → Posts m → Posts k → Posts (if b then m else k)
  if-Posts true h g = h
  if-Posts false h g = g

  throw-Posts : {A : Type 0} → Posts (throw {A = A})
  throw-Posts = record { posts = λ w. (refl, refl, (omega arith)) }

  form-Posts : (p : Page) → Posts (send_via_ajax p x.event_name x.event_data x.event_id)
  unfolding send_via_ajax post_form
  form-Posts p = record {
    posts = λ w.
        after-Posts (IsBody x.event_name x.event_data x.event_id) w _ _
          ((build_ajax_form_data-Sends Nothing p x.event_name x.event_data x.event_id).steps w)
          ((build_ajax_form_data-IsBody p x.event_name x.event_data x.event_id).gives w)
          λ form body.
            if-Posts p.has_beacon (emit-Posts beacon _ refl body.0)
              (if-Posts p.has_fetch (emit-Posts form_post _ refl body.0) throw-Posts);
  }

  settle_fetch-Posts :
      (p : Page) (outcome : Outcome)
      → Posts (settle_fetch p outcome x.event_name x.event_data x.event_id)
  unfolding settle_fetch
  settle_fetch-Posts p (answered true) = record { posts = λ w. (refl, refl, (omega arith)) }
  settle_fetch-Posts p (answered false) = record {
    posts = λ w. or_else-Posts w _ _ ((form-Posts p).posts w) (form-Posts p);
  }
  settle_fetch-Posts p failed = form-Posts p

-- What is left of a sum when one of the pending calls is taken out.
abbrev Leaves : String → ℕ → Option (Pending × List Pending) → Type 0
Leaves name total none = Unit
Leaves name total (some (x, ys)) = total ≡ weight name x + pending_of name ys

pick-Leaves :
    (name : String) (n : ℕ) (xs : List Pending) → Leaves name (pending_of name xs) (pick n xs)
pick-Leaves name n [] = tt
pick-Leaves name zero (z ∷ xs) = refl
pick-Leaves name (suc n) (z ∷ xs) = of (pick n xs) (pick-Leaves name n xs)
  where
    of :
        (found : Option (Pending × List Pending))
        → Leaves name (pending_of name xs) found
        → Leaves name (weight name z + pending_of name xs) (keep_first z found)
    of none h = tt
    of (some (y, zs)) h = omega arith

-- No `fetch` is added, and what a pending one may still lead to is counted before.
settled-measures :
    (p : Page) (name : String) (outcome : Outcome) (w : World)
    (found : Option (Pending × List Pending))
    → Leaves name (pending_of name w.pending) found
    → let v = (settle_found p outcome found w).1 in
      (fetches_of name v ≡ fetches_of name w) × (forms_of name v ≤ forms_of name w)
settled-measures p name outcome w none h = (refl, (omega arith))
settled-measures p name outcome w (some (x, ys)) h =
    let u = record w { pending = ys } in
    let (d, e, g) = (settle_fetch-Posts name x p outcome).posts u in
    let result = (settle_fetch p outcome x.event_name x.event_data x.event_id u).0 in
    (e, bound result _ _ _ _ _ (ap (pending_of name) d) g h)
  where
    bound :
        (r : Attempt (Unit {0})) (a b c d e : ℕ)
        → a ≡ b
        → c ≤ cost name x r + d
        → e ≡ weight name x + b
        → c + a ≤ d + e
    bound (returned t) a b c d e i j k = omega arith
    bound thrown a b c d e i j k = omega arith

pub settle_pending-measures :
    (p : Page) (name : String) (n : ℕ) (outcome : Outcome) (w : World)
    → let v = (settle_pending p n outcome w).1 in
      (fetches_of name v ≡ fetches_of name w) × (forms_of name v ≤ forms_of name w)
unfolding settle_pending
settle_pending-measures p name n outcome w =
    settled-measures p name outcome w (pick n w.pending) (pick-Leaves name n w.pending)
