-- ===== src/World/Steps.antt =====
-- Relations between the worlds before and after a function, and the functions that keep within one.
use full_project.Prelude.{Bool, true, false, if◌then◌else◌}
use full_project.Js.Attempt.{Attempt, returned, thrown}
use full_project.World.{
  Dom, World, Run, pure, after, ◌>>=◌, ◌>>◌, when, throw, swallow, or_else, recover, ask,
}

pub record IsPreorder {S : Type 0} (R : S → S → Type 0) : Type 0 where
  pub refl_lem : (w : S) → R w w
  pub trans_lem : (u v w : S) → R u v → R v w → R u w

-- The function, whether it returns or throws, takes each world to a related one.
pub record Steps {S : Type 0} (R : S → S → Type 0) {A : Type 0} (m : Run S A) : Type 0 where
  pub steps : (w : S) → R w (m w).1

pub Steps-mono :
    {S : Type 0} {Q R : S → S → Type 0} {A : Type 0} {m : Run S A}
    → ((w v : S) → Q w v → R w v)
    → Steps Q m
    → Steps R m
Steps-mono {m} f h = record { steps = λ w. f w (m w).1 (h.steps w) }

module _ {S : Type 0} {R : S → S → Type 0} (o : IsPreorder R) where
  -- A function that leaves the world alone.
  still-Steps : {A : Type 0} (f : S → Attempt A) → Steps R (λ w. (f w, w))
  still-Steps f = record { steps = o.refl_lem }

  pub pure-Steps : {A : Type 0} {a : A} → Steps R (pure a)
  pure-Steps {a} = still-Steps (λ w. returned a)

  pub throw-Steps : {A : Type 0} → Steps R (throw {A = A})
  throw-Steps = still-Steps (λ w. thrown)

  pub after-Steps :
      {A B : Type 0} (w : S) (r : Attempt A × S) (f : A → Run S B)
      → R w r.1
      → ((a : A) → Steps R (f a))
      → R w (after r f).1
  after-Steps w (returned a, v) f h k = o.trans_lem w v (f a v).1 h ((k a).steps v)
  after-Steps w (thrown, v) f h k = h

  pub bind-Steps :
      {A B : Type 0} {m : Run S A} {f : A → Run S B}
      → Steps R m
      → ((a : A) → Steps R (f a))
      → Steps R (m >>= f)
  bind-Steps {m} {f} h k = record { steps = λ w. after-Steps w (m w) f (h.steps w) k }

  pub then-Steps :
      {A B : Type 0} {m : Run S A} {k : Run S B} → Steps R m → Steps R k → Steps R (m >> k)
  then-Steps {m} {k} h g = record { steps = λ w. after-Steps w (m w) (λ _. k) (h.steps w) (λ _. g) }

  pub if-Steps :
      {A : Type 0} (b : Bool) {m k : Run S A} → Steps R m → Steps R k → Steps R (if b then m else k)
  if-Steps true h g = h
  if-Steps false h g = g

  pub when-Steps : (b : Bool) {m : Run S (Unit {0})} → Steps R m → Steps R (when b m)
  when-Steps true h = h
  when-Steps false h = pure-Steps

  or_else-Steps :
      {A : Type 0} (w : S) (r : Attempt A × S) (k : Run S A)
      → R w r.1
      → Steps R k
      → R w (or_else r k).1
  or_else-Steps w (returned a, v) k h g = h
  or_else-Steps w (thrown, v) k h g = o.trans_lem w v (k v).1 h (g.steps v)

  pub recover-Steps : {A : Type 0} {m k : Run S A} → Steps R m → Steps R k → Steps R (recover m k)
  recover-Steps {m} {k} h g = record { steps = λ w. or_else-Steps w (m w) k (h.steps w) g }

  pub swallow-Steps : {m : Run S (Unit {0})} → Steps R m → Steps R (swallow m)
  swallow-Steps h = record { steps = h.steps }

pub ask-Steps :
    {R : World → World → Type 0} (o : IsPreorder R) {A : Type 0} (f : Dom → A) → Steps R (ask f)
ask-Steps o f = record { steps = o.refl_lem }
