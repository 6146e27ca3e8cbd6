-- ===== src/Shop/Laws.antt =====
-- AddToCart's own guard beside that of the payload.
use full_project.Prelude.{
  sym, ◌∙◌, Bool-cases, inl, inr, ◌≡◌, refl, Bool, true, false, not, ◌&&◌, ◌||◌,
}
use full_project.Js.Text.{trim}
use full_project.Js.Value.{Value, truthy, to_text}
use full_project.Content.{is_currency_code, is_valid_content_id}
use full_project.Shop.AddToCart.{is_rejected_pid}

-- A falsy identifier counts as the empty text, which is not valid.
is_valid_content_id-falsy : (pid : Value) → truthy pid ≡ false → is_valid_content_id pid ≡ false
unfolding is_valid_content_id to_text trim
is_valid_content_id-falsy pid f = rw f refl

right_false : (a b : Bool) → (not a && not b) ≡ true → b ≡ false
right_false true b h = cc
right_false false true h = cc
right_false false false h = refl

is_valid_content_id-no_code :
    (pid : Value)
    → truthy pid ≡ true
    → is_valid_content_id pid ≡ true
    → (not (truthy pid) || is_currency_code (trim (to_text pid))) ≡ false
unfolding is_valid_content_id
is_valid_content_id-no_code pid t valid = rw t (right_false _ _ (rw t at valid))

-- Every identifier that `isValidContentId` accepts passes the guard of the `added_to_cart` listener, so
-- that the listener drops no event whose identifier the payload could have kept.
pub is_rejected_pid-valid :
    (pid : Value) → is_valid_content_id pid ≡ true → is_rejected_pid pid ≡ false
unfolding is_rejected_pid
is_rejected_pid-valid pid valid = elim (Bool-cases (truthy pid)) [
  | inl t ↦ is_valid_content_id-no_code pid t valid
  | inr f ↦ let no : true ≡ false = sym valid ∙ is_valid_content_id-falsy pid f in cc
]
