-- ===== src/Browser/Requests.antt =====
-- How many requests a page makes of InitiateCheckout and AddPaymentInfo in its whole life.
use full_project.Prelude.{
  String, ◌≤◌, ℕ, ◌≡◌, refl, sym, ap, Bool, true, false, List, inl, inr, arith,
}
use text.Mathlib.Text.{◌==◌ as str_eq}
use full_project.Browser.Life.{payment-Others}
use full_project.Js.Value.{Fields}
use full_project.Js.Text.{Text}
use full_project.Page.{Page}
use full_project.World.{World}
use full_project.World.Steps.{Steps, Steps-mono}
use full_project.World.Effects.{Logs-refl}
use full_project.Send.Names.{IsNot, IsStart-IsNot, Logs-mono, send_event-Adds}
use full_project.Send.Calm.{IsCalm}
use full_project.Send.Measure.{
  IsMeasure, IsSilent, fetches_of, forms_of, fetches_of-IsMeasure, forms_of-IsMeasure,
}
use full_project.Send.AtMostOne.{send_event-AtMostOne}
use full_project.Send.OneShot.{OneShot, OneShot-IsPreorder, OneShot-quiet}
use full_project.Send.Settled.{settle_pending-measures}
use full_project.Send.Carried.{settle_pending-rest}
use full_project.Send.Delivery.{send_event-one_id}
use full_project.Send.{send_event}
use full_project.Send.Settle.{Outcome, settle_pending}
use full_project.Checkout.{checkout_payload, send_initiate_checkout_once}
use full_project.Checkout.Guards.{if-lem, marked, once-Steps}
use full_project.Checkout.Requests.{OneCheckout-IsCalm, once-OneCheckout, is_sent}
use full_project.Shop.Cart.{fire_add_payment_info}
use full_project.Browser.Script.{Happening, fresh, live}
use full_project.Browser.Kept.Run.{live-lem}

abbrev pub is_fired : World → Bool
is_fired w = w.payment_fired

-- A measure that does not grow when a `fetch` settles.
module _ (p : Page) (measure : World → ℕ)
    (settled : (n : ℕ) (outcome : Outcome) (w : World)
      → measure (settle_pending p n outcome w).1 ≤ measure w) where
  checkout_life :
      IsMeasure "InitiateCheckout" measure
      → (hs : List Happening) (w : World)
      → OneShot measure is_sent (fresh w).world (live p hs w).world
  checkout_life i = live-lem p (OneShot measure is_sent) (record {
    calm = OneCheckout-IsCalm measure i p;
    checkout = once-OneCheckout measure i p;
    payment = λ method.
        Steps-mono (λ w v (h, k). OneShot-quiet measure is_sent "InitiateCheckout" i w v h k)
          (payment-Others p method);
    settled = λ n outcome. record {
      steps = λ w. inl (
        ap (λ u. u.initiate_checkout_sent) (settle_pending-rest p n outcome w),
        settled n outcome w,
      );
    };
  })

  module _ (i : IsMeasure "AddPaymentInfo" measure) where
    other-OnePayment :
        (name : String) (given : Fields) (synchronous : Bool)
        → str_eq name "AddPaymentInfo" ≡ false
        → Steps (OneShot measure is_fired) (send_event p name given synchronous)
    other-OnePayment name given synchronous o =
        Steps-mono (λ w v (h, k, l). OneShot-quiet measure is_fired "AddPaymentInfo" i w v h l)
          (send_event-Adds "AddPaymentInfo" name o p given synchronous)

    OnePayment-IsCalm : IsCalm p (OneShot measure is_fired)
    OnePayment-IsCalm = record {
      order = OneShot-IsPreorder measure is_fired;
      quiet = λ w v (h, k, l).
          OneShot-quiet measure is_fired "AddPaymentInfo" i w v
            (Logs-mono w v (IsStart-IsNot "AddPaymentInfo") h) l;
      event = λ name given synchronous o. other-OnePayment name given synchronous o.1;
    }

    checkout-OnePayment :
        (reason : Text) (synchronous : Bool)
        → Steps (OneShot measure is_fired) (send_initiate_checkout_once p reason synchronous)
    checkout-OnePayment reason synchronous =
        once-Steps p (OneShot measure is_fired) (OneShot-IsPreorder measure is_fired) reason
          synchronous
          λ w shop unsent.
            (OneShot-IsPreorder measure is_fired).trans_lem w (marked w) _
              (OneShot-quiet measure is_fired "AddPaymentInfo" i w (marked w)
                (Logs-refl (IsNot "AddPaymentInfo") w) refl)
              ((other-OnePayment "InitiateCheckout" (checkout_payload p w.dom reason) synchronous
                  refl).steps
                (marked w))

    payment-OnePayment :
        (method : Text) → Steps (OneShot measure is_fired) (fire_add_payment_info p method)
    unfolding fire_add_payment_info
    payment-OnePayment method = record {
      steps = λ w.
          if-lem (OneShot measure is_fired w) w.payment_fired _ _
            (λ h. (OneShot-IsPreorder measure is_fired).refl_lem w)
            λ unfired.
              let fired = record w { payment_fired = true } in
              let (id, (l, k)) = send_event-one_id p "AddPaymentInfo" _ false fired in
              let one =
                send_event-AtMostOne "AddPaymentInfo" measure i p "AddPaymentInfo" _ false in
              let same = i.silent_lem w fired (Logs-refl (IsSilent "AddPaymentInfo") w) in
              inr (unfired, ap is_fired k, rw (sym same) (one.at_most fired));
    }

    payment_life :
        (hs : List Happening) (w : World)
        → OneShot measure is_fired (fresh w).world (live p hs w).world
    payment_life = live-lem p (OneShot measure is_fired) (record {
      calm = OnePayment-IsCalm;
      checkout = checkout-OnePayment;
      payment = payment-OnePayment;
      settled = λ n outcome. record {
        steps = λ w.
            inl
              (ap (λ u. u.payment_fired) (settle_pending-rest p n outcome w), settled n outcome w);
      };
    })

module _ (p : Page) (name : String) (n : ℕ) (outcome : Outcome) (w : World) where
  fetches-settled : fetches_of name (settle_pending p n outcome w).1 ≤ fetches_of name w
  fetches-settled = let (h, k) = settle_pending-measures p name n outcome w in omega arith

  forms-settled : forms_of name (settle_pending p n outcome w).1 ≤ forms_of name w
  forms-settled = (settle_pending-measures p name n outcome w).1

-- The mark stays, and no request of the event is made, or the mark goes up, and at most one request
-- is made by `fetch`, and at most one in another way, as which a `fetch` counts already while it is
-- pending.
abbrev pub OneDelivery : String → (World → Bool) → World → World → Type 0
OneDelivery name mark w v = OneShot (fetches_of name) mark w v × OneShot (forms_of name) mark w v

-- In the whole life of a page, at most one `fetch` of InitiateCheckout is made, and at most one
-- request of it in another way, be it the only one or the form in the place of a `fetch` that has
-- failed; there is none of them while a `fetch` of it is pending, and none of either as long as the
-- flag `initiateCheckoutSent` is down.
pub live-OneRequest :
    (p : Page) (hs : List Happening) (w : World)
    → OneDelivery "InitiateCheckout" is_sent (fresh w).world (live p hs w).world
live-OneRequest p hs w = (
  checkout_life p (fetches_of "InitiateCheckout") (fetches-settled p "InitiateCheckout")
      (fetches_of-IsMeasure "InitiateCheckout") hs w,
  checkout_life p (forms_of "InitiateCheckout") (forms-settled p "InitiateCheckout")
      (forms_of-IsMeasure "InitiateCheckout") hs w,
)

-- In the whole life of a page, at most one `fetch` of AddPaymentInfo is made, and at most one request
-- of it in another way, whether the payment method is told by a change, by jQuery or by the observer
-- and however often; there is none of the latter while a `fetch` of it is pending, and none of either
-- as long as the mark `paymentFired` is down.
pub live-OnePayment :
    (p : Page) (hs : List Happening) (w : World)
    → OneDelivery "AddPaymentInfo" is_fired (fresh w).world (live p hs w).world
live-OnePayment p hs w = (
  payment_life p (fetches_of "AddPaymentInfo") (fetches-settled p "AddPaymentInfo")
      (fetches_of-IsMeasure "AddPaymentInfo") hs w,
  payment_life p (forms_of "AddPaymentInfo") (forms-settled p "AddPaymentInfo")
      (forms_of-IsMeasure "AddPaymentInfo") hs w,
)
