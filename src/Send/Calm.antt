-- ===== src/Send/Calm.antt =====
-- Relations along which a page's ordinary work may run: identifiers, cookies, the start of the pixels
-- and all events but the two that have marks.
use text.Mathlib.Text.{◌==◌ as str_eq}
use full_project.Prelude.{String, ◌≡◌, Bool, false}
use full_project.Js.Value.{Fields}
use full_project.Page.{Page}
use full_project.World.{World, M}
use full_project.World.Steps.{IsPreorder, Steps, Steps-mono}
use full_project.World.Effects.{Adds, Sends, Keeps-Adds}
use full_project.Send.{send_event}
use full_project.Send.Names.{IsStart}

abbrev pub IsOrdinary : String → Type 0
IsOrdinary name = (str_eq name "InitiateCheckout" ≡ false) × (str_eq name "AddPaymentInfo" ≡ false)

pub record IsCalm (p : Page) (R : World → World → Type 0) : Type 0 where
  pub order : IsPreorder R
  pub quiet : (w v : World) → Adds IsStart w v → R w v
  pub event :
      (name : String) (given : Fields) (synchronous : Bool)
      → IsOrdinary name
      → Steps R (send_event p name given synchronous)

module _ {p : Page} {R : World → World → Type 0} (c : IsCalm p R) where
  pub quiet-Steps : {A : Type 0} {m : M A} → Steps (Adds IsStart) m → Steps R m
  quiet-Steps = Steps-mono c.quiet

  pub Sends-Steps : {A : Type 0} {m : M A} → Sends IsStart m → Steps R m
  Sends-Steps h = quiet-Steps (Steps-mono (Keeps-Adds IsStart) h)
