-- ===== src/Send/Names.antt =====
-- Effects by the name of their event: what one event sends is not what another sends.
use text.Mathlib.Text.{◌==◌ as str_eq}
use full_project.Prelude.{String, ◌≡◌, ◌∙◌, ap, Bool, false, List, [], ◌∷◌, All}
use full_project.Js.Text.{Text}
use full_project.Js.Value.{Fields}
use full_project.Page.{Page}
use full_project.World.{
  Effect, fb_init, tt_load, tt_identify, fb_track, tt_track, request, Pending, World,
}
use full_project.World.Body.{is_about, is_about-named}
use full_project.World.Steps.{Steps, Steps-mono}
use full_project.World.Effects.{Sends, Answers, Logs, Adds, Keeps-Adds}
use full_project.Send.{send_event}
use full_project.Send.Laws.{Carries}
use full_project.Send.Delivery.{send_event-one_id}

-- The effect belongs to an event of another name.
abbrev pub IsNot : String → Effect → Type 0
IsNot special (fb_track n params i) = str_eq n special ≡ false
IsNot special (tt_track n params i) = str_eq n special ≡ false
IsNot special (request t r) = is_about special r.body ≡ false
IsNot special e = Unit

-- The effect is the start of a pixel, which belongs to no event.
abbrev pub IsStart : Effect → Type 0
IsStart (fb_track n params i) = ⊥
IsStart (tt_track n params i) = ⊥
IsStart (request t r) = ⊥
IsStart e = Unit

pub All-mono :
    {A : Type 0} {P Q : A → Type 0} → ((a : A) → P a → Q a) → (xs : List A) → All P xs → All Q xs
All-mono f [] h = tt
All-mono f (e ∷ es) (h, hs) = (f e h, All-mono f es hs)

pub Answers-mono :
    {P Q : Effect → Type 0}
    → ((e : Effect) → P e → Q e)
    → (xs : List Pending) → All (Answers P) xs
    → All (Answers Q) xs
Answers-mono f = All-mono (λ x h t r a. f (request t r) (h t r a))

pub Logs-mono :
    {P Q : Effect → Type 0} (w v : World) → ((e : Effect) → P e → Q e) → Logs P w v → Logs Q w v
Logs-mono w v f ((new, e, h), (more, d, g)) =
    ((new, e, All-mono f new h), (more, d, Answers-mono f more g))

pub IsStart-IsNot : (special : String) (e : Effect) → IsStart e → IsNot special e
IsStart-IsNot special (fb_track n params i) h = absurd h
IsStart-IsNot special (tt_track n params i) h = absurd h
IsStart-IsNot special (request t r) h = absurd h
IsStart-IsNot special (fb_init a b) h = tt
IsStart-IsNot special (tt_load a) h = tt
IsStart-IsNot special (tt_identify a) h = tt

module _ (special name : String) (other : str_eq name special ≡ false) where
  -- What carries the name of another event belongs to another event.
  Carries-IsNot : (id : Text) (e : Effect) → Carries name id e → IsNot special e
  Carries-IsNot id (fb_track n params i) (h, k) = ap (λ m. str_eq m special) h ∙ other
  Carries-IsNot id (tt_track n params i) (h, k) = ap (λ m. str_eq m special) h ∙ other
  Carries-IsNot id (request t r) (h, k) = is_about-named name special r.body h ∙ other
  Carries-IsNot id (fb_init a b) h = absurd h
  Carries-IsNot id (tt_load a) h = absurd h
  Carries-IsNot id (tt_identify a) h = absurd h

  send_event-IsNot :
      (p : Page) (given : Fields) (synchronous : Bool)
      → Sends (IsNot special) (send_event p name given synchronous)
  send_event-IsNot p given synchronous = record {
    steps = λ w.
        let (id, (h, k)) = send_event-one_id p name given synchronous w in
        (Logs-mono w (send_event p name given synchronous w).1 (Carries-IsNot id) h, k);
  }

  pub send_event-Adds :
      (p : Page) (given : Fields) (synchronous : Bool)
      → Steps (Adds (IsNot special)) (send_event p name given synchronous)
  send_event-Adds p given synchronous =
      Steps-mono (Keeps-Adds (IsNot special)) (send_event-IsNot p given synchronous)
