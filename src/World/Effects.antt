-- ===== src/World/Effects.antt =====
-- Which effects a function may have: `Sends P m` says that `m`, whether it returns or throws, adds
-- effects with the property `P` to the log, takes none away, and changes nothing else but the cookies
-- and the count of the draws.
use full_project.Prelude.{
  ℕ, ◌≡◌, refl, sym, ◌∙◌, ap, Bool, List, [], ◌∷◌, ◌++◌, append_assoc, All, All-append, arith,
  if◌then◌else◌,
}
use full_project.Js.Attempt.{Attempt, returned, thrown}
use full_project.Js.Text.{Text}
use full_project.Page.{Page}
use full_project.Cookie.{Days}
use full_project.World.Body.{IsBody}
use full_project.World.Steps.{
  IsPreorder, Steps, pure-Steps, throw-Steps, ask-Steps, bind-Steps, then-Steps, if-Steps,
  when-Steps, recover-Steps, swallow-Steps,
}
use full_project.World.{
  Dom, Effect, request, Request, Transport, fetch, Pending, World, M, start_fetch, after, pure,
  ◌>>=◌, ◌>>◌, when, throw, recover, swallow, emit, ask, read_cookie, write_cookie, random_from,
}

-- New elements, all with the property, stand before the old.
abbrev pub Grows : {A : Type 0} → (A → Type 0) → List A → List A → Type 0
Grows P old all = (new : List _) × (all ≡ new ++ old) × All P new

-- Every request of the event that the handlers of a `fetch` keep, with its data, has the property.
abbrev pub Answers : (Effect → Type 0) → Pending → Type 0
Answers P x =
    (t : Transport) (r : Request)
    → IsBody x.event_name x.event_data x.event_id r.body
    → P (request t r)

abbrev pub Logs : (Effect → Type 0) → World → World → Type 0
Logs P w w' = Grows P w.log w'.log × Grows (Answers P) w.pending w'.pending

-- A world without what every function may change.
abbrev pub rest : World → World
rest w = record w { jar = []; drawn = 0; log = []; pending = [] }

abbrev pub Keeps : (Effect → Type 0) → World → World → Type 0
Keeps P w w' = Logs P w w' × (rest w' ≡ rest w)

-- The effects, with the marks `initiateCheckoutSent` and `paymentFired` as they were.
abbrev pub Adds : (Effect → Type 0) → World → World → Type 0
Adds P w w' =
    Logs P w w'
    × (w'.initiate_checkout_sent ≡ w.initiate_checkout_sent)
    × (w'.payment_fired ≡ w.payment_fired)

abbrev pub Given : {A : Type 0} → (A → Type 0) → Attempt A → Type 0
Given Q (returned a) = Q a
Given Q thrown = Unit

-- What the function returns, if it returns, has the property.
pub record Gives {A : Type 0} (Q : A → Type 0) (m : M A) : Type 0 where
  pub gives : (w : World) → Given Q (m w).0

pub any-Given : {A : Type 0} (r : Attempt A) → Given (λ a. Unit) r
any-Given (returned a) = tt
any-Given thrown = tt

pub any-Gives : {A : Type 0} (m : M A) → Gives (λ a. Unit) m
any-Gives m = record { gives = λ w. any-Given (m w).0 }

after-Given :
    {A B : Type 0} (Q : B → Type 0) (r : Attempt A × World) (f : A → M B)
    → ((a : A) → Gives Q (f a))
    → Given Q (after r f).0
after-Given Q (returned a, w) f h = (h a).gives w
after-Given Q (thrown, w) f h = tt

pub bind-Gives :
    {A B : Type 0} (Q : B → Type 0) (m : M A) {f : A → M B}
    → ((a : A) → Gives Q (f a))
    → Gives Q (m >>= f)
bind-Gives Q m {f} h = record { gives = λ w. after-Given Q (m w) f h }

after_known-Given :
    {A B : Type 0} (Q : A → Type 0) (T : B → Type 0) (r : Attempt A × World) (f : A → M B)
    → Given Q r.0
    → ((a : A) → Q a → Gives T (f a))
    → Given T (after r f).0
after_known-Given Q T (returned a, w) f q h = (h a q).gives w
after_known-Given Q T (thrown, w) f q h = tt

pub given-Gives :
    {A B : Type 0} (Q : A → Type 0) (T : B → Type 0) {m : M A} {f : A → M B}
    → Gives Q m
    → ((a : A) → Q a → Gives T (f a))
    → Gives T (m >>= f)
given-Gives Q T {m} {f} g h = record { gives = λ w. after_known-Given Q T (m w) f (g.gives w) h }

after-ask :
    {A B : Type 0} (Q : A → Type 0) (T : B → Type 0) (f : A → Dom → B) (r : Attempt A × World)
    → Given Q r.0
    → ((a : A) (dom : Dom) → Q a → T (f a dom))
    → Given T (after r (λ a. ask (f a))).0
after-ask Q T f (returned a, w) h g = g a w.dom h
after-ask Q T f (thrown, w) h g = tt

-- A function whose result is put together with what the document answers.
pub ask-Gives :
    {A B : Type 0} (Q : A → Type 0) (T : B → Type 0) {m : M A} (f : A → Dom → B)
    → Gives Q m
    → ((a : A) (dom : Dom) → Q a → T (f a dom))
    → Gives T (m >>= λ a. ask (f a))
ask-Gives Q T {m} f h g = record { gives = λ w. after-ask Q T f (m w) (h.gives w) g }

abbrev pub Sends : (Effect → Type 0) → {A : Type 0} → M A → Type 0
Sends P m = Steps (Keeps P) m

pub Grows-trans :
    {A : Type 0} (P : A → Type 0) (xs ys zs : List A)
    → Grows P xs ys
    → Grows P ys zs
    → Grows P xs zs
Grows-trans P xs ys zs (new, e, a) (more, f, b) = (
  more ++ new,
  f ∙ ap (λ l. more ++ l) e ∙ sym (append_assoc more new xs),
  All-append P more new b a,
)

module _ (P : Effect → Type 0) where
  pub Logs-refl : (w : World) → Logs P w w
  Logs-refl w = (([], refl, tt), ([], refl, tt))

  pub Logs-trans : (u v w : World) → Logs P u v → Logs P v w → Logs P u w
  Logs-trans u v w (h, k) (g, l) = (
    Grows-trans P u.log v.log w.log h g,
    Grows-trans (Answers P) u.pending v.pending w.pending k l,
  )

  pub Adds-trans : (u v w : World) → Adds P u v → Adds P v w → Adds P u w
  Adds-trans u v w (h, k, i) (g, l, j) = (Logs-trans u v w h g, l ∙ k, j ∙ i)

  pub Keeps-Adds : (w v : World) → Keeps P w v → Adds P w v
  Keeps-Adds w v (h, k) = (h, ap (λ u. u.initiate_checkout_sent) k, ap (λ u. u.payment_fired) k)

  pub Keeps-IsPreorder : IsPreorder (Keeps P)
  Keeps-IsPreorder = record {
    refl_lem = λ w. (Logs-refl w, refl);
    trans_lem = λ u v w (h, k) (g, l). (Logs-trans u v w h g, l ∙ k);
  }

  pub Adds-IsPreorder : IsPreorder (Adds P)
  Adds-IsPreorder = record { refl_lem = λ w. (Logs-refl w, refl, refl); trans_lem = Adds-trans }

  -- A function that leaves the log alone.
  pub quiet-Sends :
      {A : Type 0} {m : M A}
      → ((w : World)
          → ((m w).1.log ≡ w.log) × ((m w).1.pending ≡ w.pending) × (rest (m w).1 ≡ rest w))
      → Sends P m
  quiet-Sends {m} h = record { steps = λ w. let (a, b, c) = h w in ((([], a, tt), ([], b, tt)), c) }

  pub bind-Sends :
      {A B : Type 0} {m : M A} {f : A → M B}
      → Sends P m
      → ((a : A) → Sends P (f a))
      → Sends P (m >>= f)
  bind-Sends = bind-Steps Keeps-IsPreorder

  after_known :
      {A B : Type 0} (Q : A → Type 0) (w : World) (r : Attempt A × World) (f : A → M B)
      → Keeps P w r.1
      → Given Q r.0
      → ((a : A) → Q a → Sends P (f a))
      → Keeps P w (after r f).1
  after_known Q w (returned a, v) f h q k =
      Keeps-IsPreorder.trans_lem w v (f a v).1 h ((k a q).steps v)
  after_known Q w (thrown, v) f h q k = h

  -- The second function may count on what the first one gives.
  pub given-Sends :
      {A B : Type 0} (Q : A → Type 0) {m : M A} {f : A → M B}
      → Sends P m
      → Gives Q m
      → ((a : A) → Q a → Sends P (f a))
      → Sends P (m >>= f)
  given-Sends Q {m} {f} h g k = record {
    steps = λ w. after_known Q w (m w) f (h.steps w) (g.gives w) k;
  }

  pub then-Sends : {A B : Type 0} {m : M A} {k : M B} → Sends P m → Sends P k → Sends P (m >> k)
  then-Sends = then-Steps Keeps-IsPreorder

  pub pure-Sends : {A : Type 0} {a : A} → Sends P (pure a)
  pure-Sends = pure-Steps Keeps-IsPreorder

  pub throw-Sends : {A : Type 0} → Sends P (throw {A = A})
  throw-Sends = throw-Steps Keeps-IsPreorder

  pub when-Sends : (b : Bool) {m : M (Unit {0})} → Sends P m → Sends P (when b m)
  when-Sends = when-Steps Keeps-IsPreorder

  pub if-Sends :
      {A : Type 0} (b : Bool) {m k : M A} → Sends P m → Sends P k → Sends P (if b then m else k)
  if-Sends = if-Steps Keeps-IsPreorder

  pub recover-Sends : {A : Type 0} {m k : M A} → Sends P m → Sends P k → Sends P (recover m k)
  recover-Sends = recover-Steps Keeps-IsPreorder

  pub swallow-Sends : {m : M (Unit {0})} → Sends P m → Sends P (swallow m)
  swallow-Sends = swallow-Steps Keeps-IsPreorder

  pub ask-Sends : {A : Type 0} (f : Dom → A) → Sends P (ask f)
  ask-Sends = ask-Steps Keeps-IsPreorder

  pub emit-Sends : {e : Effect} → P e → Sends P (emit e)
  unfolding emit
  emit-Sends {e} h = record { steps = λ w. (((e ∷ [], refl, (h, tt)), ([], refl, tt)), refl) }

  pub start_fetch-Sends :
      (r : Request) (x : Pending)
      → IsBody x.event_name x.event_data x.event_id r.body
      → Answers P x
      → Sends P (start_fetch r x)
  unfolding start_fetch
  start_fetch-Sends r x body h = record {
    steps = λ w.
        let e = h fetch r body in
        (((request fetch r ∷ [], refl, (e, tt)), (x ∷ [], refl, (h, tt))), refl);
  }

  module _ (p : Page) where
    pub read_cookie-Sends : (name : Text) → Sends P (read_cookie p name)
    unfolding read_cookie
    read_cookie-Sends name = quiet-Sends (λ w. (refl, refl, refl))

    pub write_cookie-Sends :
        (name value : Text) (days : Days) → Sends P (write_cookie p name value days)
    unfolding write_cookie
    write_cookie-Sends name value days =
        quiet-Sends (λ w. (ground arith, ground arith, ground arith))

    pub random_from-Sends : (span base : ℕ) → Sends P (random_from p span base)
    unfolding random_from
    random_from-Sends span base = quiet-Sends (λ w. (refl, refl, refl))
