-- ===== src/Checkout/Laws.antt =====
-- InitiateCheckout along any interleaving of the checkout's listeners and timers.
use full_project.Prelude.{◌≡◌, refl, sym, ap, ◌∙◌, Bool, true, false, List, ◌⊎◌, inl, inr}
use full_project.Js.Text.{Text}
use full_project.Page.{Page}
use full_project.Path.{is_thank_you_flow_page}
use full_project.World.{Effect, World}
use full_project.World.Steps.{IsPreorder, Steps, Steps-mono}
use full_project.World.Effects.{Adds, Logs, Logs-refl, Logs-trans}
use full_project.Send.{send_event}
use full_project.Send.Laws.{Carries}
use full_project.Send.Names.{IsNot, IsStart, IsStart-IsNot, Logs-mono, send_event-Adds}
use full_project.Send.Calm.{IsCalm}
use full_project.Send.Delivery.{send_event-one_id}
use full_project.Checkout.{Moment, checkout_payload, send_initiate_checkout_once, run}
use full_project.Checkout.Guards.{marked, once-Steps}
use full_project.Checkout.Handlers.{run-lem}

-- The effect belongs to another event.
abbrev pub IsOther : Effect → Type 0
IsOther = IsNot "InitiateCheckout"

-- The effect belongs to the InitiateCheckout with that identifier, or to another event.
abbrev pub IsOneCheckout : Text → Effect → Type 0
IsOneCheckout id e = Carries "InitiateCheckout" id e ⊎ IsOther e

-- All that is sent belongs to other events, and the flag stays.
abbrev pub Others : World → World → Type 0
Others w v = Logs IsOther w v × (v.initiate_checkout_sent ≡ w.initiate_checkout_sent)

-- What may lie between two worlds: the flag stays and no InitiateCheckout is sent, or the flag goes
-- up and one InitiateCheckout is sent.
abbrev pub Between : World → World → Type 0
Between w v =
    Others w v
    ⊎ ((w.initiate_checkout_sent ≡ false)
        × (v.initiate_checkout_sent ≡ true)
        × (event_id : Text) × Logs (IsOneCheckout event_id) w v)

weaken : (id : Text) (w v : World) → Logs IsOther w v → Logs (IsOneCheckout id) w v
weaken id w v = Logs-mono w v (λ x k. inr k)

Others-trans : (u v w : World) → Others u v → Others v w → Others u w
Others-trans u v w (h, e) (k, f) = (Logs-trans IsOther u v w h k, f ∙ e)

pub Others-IsPreorder : IsPreorder Others
Others-IsPreorder = record { refl_lem = λ w. (Logs-refl IsOther w, refl); trans_lem = Others-trans }

Between-trans : (u v w : World) → Between u v → Between v w → Between u w
Between-trans u v w (inl h) (inl k) = inl (Others-trans u v w h k)
Between-trans u v w (inl (h, e)) (inr (a, b, id, k)) =
    inr (sym e ∙ a, b, id, Logs-trans (IsOneCheckout id) u v w (weaken id u v h) k)
Between-trans u v w (inr (a, b, id, h)) (inl (k, e)) =
    inr (a, e ∙ b, id, Logs-trans (IsOneCheckout id) u v w h (weaken id v w k))
Between-trans u v w (inr (a, b, id, h)) (inr (c, d, j, k)) = cc

Between-IsPreorder : IsPreorder Between
Between-IsPreorder = record {
  refl_lem = λ w. inl (Others-IsPreorder.refl_lem w);
  trans_lem = Between-trans;
}

pub Others-quiet : (w v : World) → Adds IsStart w v → Others w v
Others-quiet w v (h, k, l) = (Logs-mono w v (IsStart-IsNot "InitiateCheckout") h, k)

pub Others-IsCalm : (p : Page) → IsCalm p Others
Others-IsCalm p = record {
  order = Others-IsPreorder;
  quiet = Others-quiet;
  event = λ name given synchronous o.
      Steps-mono (λ w v (h, k, l). (h, k))
        (send_event-Adds "InitiateCheckout" name o.0 p given synchronous);
}

pub Between-IsCalm : (p : Page) → IsCalm p Between
Between-IsCalm p =
    let others = Others-IsCalm p in
    record {
      order = Between-IsPreorder;
      quiet = λ w v h. inl (others.quiet w v h);
      event = λ name given synchronous o.
          Steps-mono (λ w v h. inl h) (others.event name given synchronous o);
    }

pub once-Between :
    (p : Page) (reason : Text) (synchronous : Bool)
    → Steps Between (send_initiate_checkout_once p reason synchronous)
once-Between p reason synchronous =
    once-Steps p Between Between-IsPreorder reason synchronous λ w shop unsent.
      let given = checkout_payload p w.dom reason in
      let (id, (h, k)) = send_event-one_id p "InitiateCheckout" given synchronous (marked w) in
      let v = (send_event p "InitiateCheckout" given synchronous (marked w)).1 in
      inr
        (unsent, ap (λ u. u.initiate_checkout_sent) k, id, Logs-mono (marked w) v (λ x l. inl l) h)

-- Over any sequence of moments, with the listeners' events and the timers in any order and whatever
-- the document looks like at each of them: either the flag `initiateCheckoutSent` stays and all
-- that is sent belongs to other events, or the flag was down and is up, and all that is sent of
-- InitiateCheckout, to the pixels and to the server, has one identifier.
pub run-one_checkout : (p : Page) (ms : List Moment) (w : World) → Between w (run p ms w)
run-one_checkout p = run-lem p Between (Between-IsCalm p) (once-Between p)

pub once-Others :
    (p : Page) (reason : Text) (synchronous : Bool)
    → is_thank_you_flow_page p.config p.location ≡ true
    → Steps Others (send_initiate_checkout_once p reason synchronous)
once-Others p reason synchronous thanks =
    once-Steps p Others Others-IsPreorder reason synchronous λ w shop unsent. cc
