-- ===== src/Checkout/Handlers.antt =====
-- A relation that allows the page's ordinary work holds along all handlers of the checkout as soon as
-- it holds along `sendInitiateCheckoutOnce`.
use full_project.Prelude.{refl, Bool, false, List, [], ◌∷◌}
use full_project.Js.Text.{Text}
use full_project.Page.{Page}
use full_project.World.{Dom, World}
use full_project.World.Steps.{Steps, when-Steps, then-Steps, if-Steps}
use full_project.World.Effects.{Logs-refl}
use full_project.Send.Names.{IsStart}
use full_project.Send.Calm.{IsCalm}
use full_project.Checkout.{
  Trigger, surface_timer, field_touched, clicked, submitted, jquery_event, blurred, mutation_timer,
  Moment, send_initiate_checkout_once, send_initiate_checkout_when_ready,
  send_initiate_checkout_on_surface, bind_checkout_intent_tracking, handle, is_listening, arrive,
  step, run,
}

pub bind-Steps :
    (p : Page) (R : World → World → Type 0) → IsCalm p R → Steps R (bind_checkout_intent_tracking p)
unfolding bind_checkout_intent_tracking
bind-Steps p R c = record { steps = λ w. c.quiet w _ (Logs-refl IsStart w, refl, refl) }

module _ (p : Page) (R : World → World → Type 0) (c : IsCalm p R)
    (once : (reason : Text) (synchronous : Bool)
      → Steps R (send_initiate_checkout_once p reason synchronous)) where
  when_ready-Steps :
      (reason : Text) (force synchronous : Bool)
      → Steps R (send_initiate_checkout_when_ready p reason force synchronous)
  unfolding send_initiate_checkout_when_ready
  when_ready-Steps reason force synchronous = record {
    steps = λ w. (when-Steps c.order _ (once reason synchronous)).steps w;
  }

  pub on_surface-Steps : (reason : Text) → Steps R (send_initiate_checkout_on_surface p reason)
  unfolding send_initiate_checkout_on_surface
  on_surface-Steps reason = record {
    steps = λ w. (when-Steps c.order _ (when_ready-Steps _ _ false)).steps w;
  }

  pub handle-Steps : (t : Trigger) (dom : Dom) → Steps R (handle p t dom)
  unfolding handle
  handle-Steps (surface_timer reason) dom = on_surface-Steps reason
  handle-Steps (field_touched el) dom = when-Steps c.order _ (when_ready-Steps _ _ _)
  handle-Steps (clicked el) dom =
      then-Steps c.order (when-Steps c.order _ (when_ready-Steps _ _ _))
        (when-Steps c.order _ (when_ready-Steps _ _ _))
  handle-Steps (submitted el) dom = when-Steps c.order _ (when_ready-Steps _ _ _)
  handle-Steps (jquery_event kind) dom = when-Steps c.order _ (when_ready-Steps _ _ _)
  handle-Steps (blurred el) dom =
      if-Steps c.order _ (c.event "Identify" _ false (refl, refl))
        (when-Steps c.order _ (c.event "Identify" _ false (refl, refl)))
  handle-Steps mutation_timer dom =
      when-Steps c.order _
        (then-Steps c.order (bind-Steps p R c) (when-Steps c.order _ (on_surface-Steps _)))

  step-lem : (m : Moment) (w : World) → R w (step p m w)
  unfolding step
  step-lem m w =
      c.order.trans_lem w (arrive p m w) (step p m w)
        (c.quiet w _ (Logs-refl IsStart w, refl, refl))
        ((when-Steps c.order (is_listening p m.trigger w) (handle-Steps m.trigger m.dom)).steps
          (arrive p m w))

  pub run-lem : (ms : List Moment) (w : World) → R w (run p ms w)
  unfolding run
  run-lem [] w = c.order.refl_lem w
  run-lem (m ∷ ms) w =
      c.order.trans_lem w (step p m w) (run p ms (step p m w)) (step-lem m w)
        (run-lem ms (step p m w))
