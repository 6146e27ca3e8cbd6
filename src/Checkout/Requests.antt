-- ===== src/Checkout/Requests.antt =====
-- The requests of InitiateCheckout along any interleaving of the checkout's listeners and timers.
use full_project.Prelude.{ℕ, ap, sym, refl, Bool, List, [], inr}
use full_project.Js.Text.{Text}
use full_project.Page.{Page}
use full_project.World.{World}
use full_project.World.Steps.{Steps, Steps-mono}
use full_project.Send.Names.{IsStart-IsNot, Logs-mono, send_event-Adds}
use full_project.Send.Calm.{IsCalm}
use full_project.Send.Measure.{IsMeasure, requests_of, requests_of-IsMeasure}
use full_project.Send.AtMostOne.{send_event-AtMostOne}
use full_project.Send.OneShot.{OneShot, OneShot-IsPreorder, OneShot-quiet}
use full_project.Send.Delivery.{send_event-one_id}
use full_project.Checkout.{Moment, checkout_payload, send_initiate_checkout_once, run}
use full_project.Checkout.Handlers.{run-lem}
use full_project.Checkout.Guards.{marked, once-Steps}

abbrev pub is_sent : World → Bool
is_sent w = w.initiate_checkout_sent

module _ (measure : World → ℕ) (i : IsMeasure "InitiateCheckout" measure) where
  pub OneCheckout-IsCalm : (p : Page) → IsCalm p (OneShot measure is_sent)
  OneCheckout-IsCalm p = record {
    order = OneShot-IsPreorder measure is_sent;
    quiet = λ w v (h, k, l).
        OneShot-quiet measure is_sent "InitiateCheckout" i w v
          (Logs-mono w v (IsStart-IsNot "InitiateCheckout") h) k;
    event = λ name given synchronous o.
        Steps-mono (λ w v (h, k, l). OneShot-quiet measure is_sent "InitiateCheckout" i w v h k)
          (send_event-Adds "InitiateCheckout" name o.0 p given synchronous);
  }

  pub once-OneCheckout :
      (p : Page) (reason : Text) (synchronous : Bool)
      → Steps (OneShot measure is_sent) (send_initiate_checkout_once p reason synchronous)
  once-OneCheckout p reason synchronous =
      once-Steps p (OneShot measure is_sent) (OneShot-IsPreorder measure is_sent) reason synchronous
        λ w shop unsent.
          let given = checkout_payload p w.dom reason in
          let (id, (l, k)) = send_event-one_id p "InitiateCheckout" given synchronous (marked w) in
          let one =
            send_event-AtMostOne "InitiateCheckout" measure i p "InitiateCheckout" given
              synchronous in
          let same = i.silent_lem w (marked w) ((([], refl, tt), ([], refl, tt))) in
          inr (unsent, ap is_sent k, rw (sym same) (one.at_most (marked w)))

-- The flag stays and no request of InitiateCheckout is made, or the flag goes up and at most one is
-- made.
abbrev pub OneRequest : World → World → Type 0
OneRequest = OneShot (requests_of "InitiateCheckout") is_sent

-- Over any sequence of moments, at most one request of InitiateCheckout is made, and none once the
-- flag `initiateCheckoutSent` is up.
pub run-OneRequest : (p : Page) (ms : List Moment) (w : World) → OneRequest w (run p ms w)
run-OneRequest p =
    let measure = requests_of "InitiateCheckout" in
    let i = requests_of-IsMeasure "InitiateCheckout" in
    run-lem p OneRequest (OneCheckout-IsCalm measure i p) (once-OneCheckout measure i p)
