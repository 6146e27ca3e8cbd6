-- ===== src/Js/Text/Split.antt =====
-- `split` at one character: the parts have none of it, and joined they are the text.
use full_project.Prelude.{
  ℕ, ◌≡◌, ◌≢◌, refl, ◌∙◌, ap, Bool, true, false, not, ◌&&◌, ◌||◌, List, [], ◌∷◌, ◌++◌, ◌==◌, all,
  All, arith, ==_iff,
}
use full_project.Js.Text.{Text, split, add_char}

pub both : (a b : Bool) → (a && b) ≡ true → (a ≡ true) × (b ≡ true)
both true b h = (refl, h)
both false b h = cc

pub second : (a b : Bool) → a ≡ false → (a || b) ≡ true → b ≡ true
second true b e h = cc
second false b e h = h

module _ (sep : ℕ) where
  abbrev pub is_other : ℕ → Bool
  is_other c = not (c == sep)

  abbrev pub join : List Text → Text
  join [] = []
  join (part ∷ []) = part
  join (part ∷ next ∷ parts) = part ++ (sep ∷ join (next ∷ parts))

  join-add_char :
      (cut : Bool) (c : ℕ) (parts : List Text)
      → (cut ≡ true → c ≡ sep)
      → join (add_char cut c parts) ≡ c ∷ join parts
  join-add_char true c [] h = refl
  join-add_char false c [] h = refl
  join-add_char true c (part ∷ parts) h = rw (h refl) refl
  join-add_char false c (part ∷ []) h = refl
  join-add_char false c (part ∷ next ∷ parts) h = refl

  pub join-split : (s : Text) → join (split sep s) ≡ s
  unfolding split
  join-split [] = refl
  join-split (c ∷ s) =
      join-add_char (c == sep) c (split sep s) (==_iff c sep).0 ∙ ap (λ t. c ∷ t) (join-split s)

  add_char-other :
      (cut : Bool) (c : ℕ) (parts : List Text)
      → (cut ≡ false → is_other c ≡ true)
      → All (λ part. all is_other part ≡ true) parts
      → (parts ≢ [])
      → All (λ part. all is_other part ≡ true) (add_char cut c parts)
  add_char-other cut c [] h k n = absurd (n refl)
  add_char-other true c (part ∷ parts) h k n = (refl, k)
  add_char-other false c (part ∷ parts) h (k, ks) n = (rw (h refl) (rw k refl), ks)

  add_char-some : (cut : Bool) (c : ℕ) (parts : List Text) → add_char cut c parts ≢ []
  add_char-some cut c [] = λ e. cc
  add_char-some true c (part ∷ parts) = λ e. cc
  add_char-some false c (part ∷ parts) = λ e. cc

  split-some : (s : Text) → split sep s ≢ []
  unfolding split
  split-some [] = λ e. cc
  split-some (c ∷ s) = add_char-some (c == sep) c (split sep s)

  pub split-other : (s : Text) → All (λ part. all is_other part ≡ true) (split sep s)
  unfolding split
  split-other [] = (refl, tt)
  split-other (c ∷ s) =
      add_char-other (c == sep) c (split sep s) (λ e. rw e refl) (split-other s) (split-some s)

  differs : (c : ℕ) → is_other c ≡ true → (c == sep) ≡ false
  differs c h = ground arith

  add_char-cut : (c : ℕ) (parts : List Text) → parts ≢ [] → add_char true c parts ≡ [] ∷ parts
  add_char-cut c [] n = absurd (n refl)
  add_char-cut c (part ∷ parts) n = refl

  pub split-word : (s : Text) → all is_other s ≡ true → split sep s ≡ s ∷ []
  unfolding split
  split-word [] h = refl
  split-word (c ∷ s) h = let (k, ks) = both _ _ h in rw (differs c k) (rw (split-word s ks) refl)

  pub split-cut :
      (s rest : Text) → all is_other s ≡ true → split sep (s ++ (sep ∷ rest)) ≡ s ∷ split sep rest
  unfolding split
  split-cut [] rest h = rw ((==_iff sep sep).1 refl) (add_char-cut sep _ (split-some rest))
  split-cut (c ∷ s) rest h =
      let (k, ks) = both _ _ h in rw (differs c k) (rw (split-cut s rest ks) refl)
