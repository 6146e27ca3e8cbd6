-- ===== src/Js/Text/Laws.antt =====
-- Laws of `trim` and of the other texts' operations.
use full_project.Prelude.{ℕ, ◌≡◌, refl, Bool, true, not, [], ◌∷◌, arith, all}
use full_project.Js.Text.{Text, trim_start, trim_end, strip, trim, is_space}

module _ (p : ℕ → Bool) where
  trim_end_idem : (s : Text) → trim_end p (trim_end p s) ≡ trim_end p s
  unfolding trim_end
  trim_end_idem [] = refl
  trim_end_idem (c ∷ s) = ground (arith, trim_end_idem s)

  trim_start-strip :
      (s : Text) → trim_start p (trim_end p (trim_start p s)) ≡ trim_end p (trim_start p s)
  unfolding trim_start trim_end
  trim_start-strip [] = refl
  trim_start-strip (c ∷ s) = ground (arith, trim_start-strip s)

  -- Stripping twice is stripping once.
  pub strip_idem : (s : Text) → strip p (strip p s) ≡ strip p s
  unfolding strip
  strip_idem s = rw (trim_start-strip s) (trim_end_idem (trim_start p s))

  trim_start_none : (s : Text) → all (λ c. not (p c)) s ≡ true → trim_start p s ≡ s
  unfolding trim_start
  trim_start_none [] h = refl
  trim_start_none (c ∷ s) h = ground arith

  trim_end_none : (s : Text) → all (λ c. not (p c)) s ≡ true → trim_end p s ≡ s
  unfolding trim_end
  trim_end_none [] h = refl
  trim_end_none (c ∷ s) h = ground (arith, trim_end_none s)

  -- Where nothing is to be stripped, nothing is.
  pub strip_none : (s : Text) → all (λ c. not (p c)) s ≡ true → strip p s ≡ s
  unfolding strip
  strip_none s h = rw (trim_start_none s h) (trim_end_none s h)

pub trim_idem : (s : Text) → trim (trim s) ≡ trim s
unfolding trim
trim_idem s = strip_idem is_space s
