-- ===== src/Checkout/Guards.antt =====
-- The guards of `sendInitiateCheckoutOnce`: what holds when nothing is done, and when the event goes
-- out behind all the guards, holds along the function.
use full_project.Prelude.{◌≡◌, refl, Bool, true, false, not, if◌then◌else◌}
use full_project.Js.Attempt.{Attempt}
use full_project.Js.Text.{Text}
use full_project.Page.{Page}
use full_project.Path.{is_thank_you_flow_page}
use full_project.World.{World}
use full_project.World.Steps.{IsPreorder, Steps}
use full_project.Send.{send_event}
use full_project.Checkout.{checkout_payload, send_initiate_checkout_once}

pub if-lem :
    (R : World → Type 0) (b : Bool) (r s : Attempt (Unit {0}) × World)
    → (b ≡ true → R r.1)
    → (b ≡ false → R s.1)
    → R (if b then r else s).1
if-lem R true r s h g = h refl
if-lem R false r s h g = g refl

abbrev pub marked : World → World
marked w = record w { initiate_checkout_sent = true }

pub once-Steps :
    (p : Page) (R : World → World → Type 0)
    → IsPreorder R
    → (reason : Text) (synchronous : Bool)
    → ((w : World)
        → is_thank_you_flow_page p.config p.location ≡ false
        → w.initiate_checkout_sent ≡ false
        → R w
            (send_event p "InitiateCheckout"
              (checkout_payload p w.dom reason)
              synchronous
              (marked w)).1)
    → Steps R (send_initiate_checkout_once p reason synchronous)
unfolding send_initiate_checkout_once
once-Steps p R o reason synchronous sent = record {
  steps = λ w.
      let same = o.refl_lem w in
      if-lem (R w) (not p.config.events.checkout) _ _ (λ h. same)
        λ h.
          if-lem (R w) (is_thank_you_flow_page p.config p.location) _ _ (λ h. same)
            λ shop.
              if-lem (R w) w.initiate_checkout_sent _ _ (λ h. same) λ unsent. sent w shop unsent;
}
