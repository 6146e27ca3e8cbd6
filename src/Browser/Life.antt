-- ===== src/Browser/Life.antt =====
-- What a page sends of InitiateCheckout in its whole life, from the script on.
use full_project.Prelude.{ℕ, ◌≡◌, refl, sym, ◌∙◌, ap, true, false, List, [], inl, inr, ◌⊎◌}
use full_project.Js.Text.{Text}
use full_project.Page.{Page}
use full_project.Path.{is_thank_you_flow_page}
use full_project.World.{World}
use full_project.World.Steps.{IsPreorder, Steps, Steps-mono}
use full_project.Send.Names.{Logs-mono, send_event-Adds}
use full_project.Send.Calm.{IsCalm}
use full_project.Send.Carried.{Carried, Carried-trans, Carried-mono, settle_pending-Carried}
use full_project.Send.Settle.{Outcome, settle_pending}
use full_project.Checkout.Guards.{if-lem}
use full_project.Checkout.Laws.{
  IsOther, IsOneCheckout, Others, Between, Others-IsPreorder, Others-IsCalm, Between-IsCalm,
  once-Between, once-Others,
}
use full_project.Shop.Cart.{fire_add_payment_info}
use full_project.Browser.{Tab}
use full_project.Browser.Script.{Happening, fresh, start, live}
use full_project.Browser.Kept.Run.{start-Steps, live-lem}

-- The script, while it starts on any page, sends nothing of InitiateCheckout and leaves its flag, so
-- that this event is left to the listeners and the timers.
pub start-Others : (p : Page) (t : Tab) → Others t.world (start p t).1.world
start-Others p t = ((start-Steps p Others (Others-IsCalm p)).steps t).0

pub payment-Others : (p : Page) (method : Text) → Steps Others (fire_add_payment_info p method)
unfolding fire_add_payment_info
payment-Others p method = record {
  steps = λ w.
      if-lem (Others w) w.payment_fired _ _ (λ h. Others-IsPreorder.refl_lem w)
        λ h.
          let fired = record w { payment_fired = true } in
          let (l, a, b) =
            (send_event-Adds "InitiateCheckout" "AddPaymentInfo" refl p _ false).steps fired in
          (l, a);
}

-- What holds before holds after.
abbrev Holds : (World → Type 0) → World → World → Type 0
Holds P w v = P w → P v

-- All that has been sent belongs to other events, all that may come of a pending `fetch` does, and
-- the flag is as it was.
abbrev pub OthersSent : World → World → Type 0
OthersSent b w = (w.initiate_checkout_sent ≡ b.initiate_checkout_sent) × Carried IsOther b w

-- The flag is as it was and nothing of InitiateCheckout has been sent, or the flag has gone up, and
-- all of InitiateCheckout that has been sent, and that may come of a pending `fetch`, has one
-- identifier.
abbrev pub OneSent : World → World → Type 0
OneSent b w =
    OthersSent b w
    ⊎ ((b.initiate_checkout_sent ≡ false)
        × (w.initiate_checkout_sent ≡ true)
        × (event_id : Text) × Carried (IsOneCheckout event_id) b w)

module _ (b : World) where
  OthersSent-trans : (w v : World) → Others w v → OthersSent b w → OthersSent b v
  OthersSent-trans w v (l, e) (d, h) = (e ∙ d, Carried-trans IsOther b w v h l)

  OneSent-trans : (w v : World) → Between w v → OneSent b w → OneSent b v
  OneSent-trans w v (inl h) (inl g) = inl (OthersSent-trans w v h g)
  OneSent-trans w v (inl (l, e)) (inr (c, d, id, h)) =
      inr (c, e ∙ d, id, Carried-trans (IsOneCheckout id) b w v h (Logs-mono w v (λ x k. inr k) l))
  OneSent-trans w v (inr (c, d, id, l)) (inl (e, h)) = inr (
    sym e ∙ c,
    d,
    id,
    Carried-trans (IsOneCheckout id) b w v (Carried-mono b w (λ x k. inr k) h) l,
  )
  OneSent-trans w v (inr (c, d, id, l)) (inr (e, g, i, h)) = cc

  module _ (p : Page) (n : ℕ) (outcome : Outcome) where
    OthersSent-settled : Steps (Holds (OthersSent b)) (settle_pending p n outcome)
    OthersSent-settled = record {
      steps = λ w (e, h).
          let (g, same) = settle_pending-Carried IsOther p n outcome b w h in
          (ap (λ u. u.initiate_checkout_sent) same ∙ e, g);
    }

    OneSent-settled : Steps (Holds (OneSent b)) (settle_pending p n outcome)
    OneSent-settled = record { steps = of }
      where
        of : (w : World) → OneSent b w → OneSent b (settle_pending p n outcome w).1
        of w (inl h) = inl (OthersSent-settled.steps w h)
        of w (inr (c, d, id, h)) =
            let (g, same) = settle_pending-Carried (IsOneCheckout id) p n outcome b w h in
            inr (c, ap (λ u. u.initiate_checkout_sent) same ∙ d, id, g)

  Holds-IsPreorder : (P : World → Type 0) → IsPreorder (Holds P)
  Holds-IsPreorder P = record { refl_lem = λ w h. h; trans_lem = λ u v w f g h. g (f h) }

  Holds-IsCalm :
      (p : Page) (P : World → Type 0) (R : World → World → Type 0)
      → ((w v : World) → R w v → Holds P w v)
      → IsCalm p R
      → IsCalm p (Holds P)
  Holds-IsCalm p P R f c = record {
    order = Holds-IsPreorder P;
    quiet = λ w v h. f w v (c.quiet w v h);
    event = λ name given synchronous o. Steps-mono f (c.event name given synchronous o);
  }

-- From the start of the script on and over any sequence of happenings, with the listeners, the
-- timers, the observers and the calls of `fetch` that settle in any order and whatever the document
-- looks like at each of them: either the flag `initiateCheckoutSent` is still down and all that is
-- sent belongs to other events, or the flag is up, and all that is sent of InitiateCheckout, to the
-- pixels and to the server, also where a `fetch` has failed or may yet fail, has one identifier.
pub live-Between :
    (p : Page) (hs : List Happening) (w : World) → OneSent (fresh w).world (live p hs w).world
live-Between p hs w =
    let b = (fresh w).world in
    live-lem p (Holds (OneSent b))
      (record {
        calm = Holds-IsCalm b p (OneSent b) Between (OneSent-trans b) (Between-IsCalm p);
        checkout =
            λ reason synchronous. Steps-mono (OneSent-trans b) (once-Between p reason synchronous);
        payment =
            λ method. Steps-mono (λ w v h. OneSent-trans b w v (inl h)) (payment-Others p method);
        settled = OneSent-settled b p;
      })
      hs w (inl (refl, (([], refl, tt), tt)))

-- On a page of the thank-you flow, nothing of InitiateCheckout is sent in the whole life of the page.
pub live-thank_you :
    (p : Page) (hs : List Happening) (w : World)
    → is_thank_you_flow_page p.config p.location ≡ true
    → OthersSent (fresh w).world (live p hs w).world
live-thank_you p hs w thanks =
    let b = (fresh w).world in
    live-lem p (Holds (OthersSent b))
      (record {
        calm = Holds-IsCalm b p (OthersSent b) Others (OthersSent-trans b) (Others-IsCalm p);
        checkout = λ reason synchronous.
            Steps-mono (OthersSent-trans b) (once-Others p reason synchronous thanks);
        payment = λ method. Steps-mono (OthersSent-trans b) (payment-Others p method);
        settled = OthersSent-settled b p;
      })
      hs w (refl, (([], refl, tt), tt))
