-- ===== src/Browser.antt =====
-- tracker.js in its page: the timers, the observers and the listeners that are there, beside the world
-- that the functions change. Each timer and each listener runs to its end before the next one.
pub mod Views
pub mod Parts
pub mod Script
pub mod Timers
pub mod Kept
pub mod Life
pub mod PutOff
pub mod Requests
pub mod Settle
use full_project.Prelude.{
  ℕ, suc, ◌==◌, Bool, false, not, ◌&&◌, ◌||◌, Option, none, some, List, [], ◌∷◌, ◌++◌,
  if◌then◌else◌,
}
use full_project.Js.Attempt.{Attempt, returned}
use full_project.Js.Text.{Text}
use full_project.Product.{ProductData}
use full_project.World.{Dom, World, M, Run, pure}

-- What a timer runs: `sendViewContentOnce`; the same for a product that has been seen; the event of a
-- card; `sendInitiateCheckoutOnSurface` with its reason; the start of the checkout's tracking; the
-- check after the page has changed; and the check after a click on a remove button.
pub data Task : Type 0 where
  send_view view_seen : Task
  card_seen : ℕ → ProductData → Task
  surface_check : Text → Task
  start_checkout surface_changed : Task
  remove_check : ℕ → Task

pub record Timer : Type 0 where
  pub id : ℕ
  pub delay : ℕ
  pub task : Task

-- `view_timer`, `card_timers`, by the element, and `checkout_timer` are the script's `productViewTimer`,
-- `timers` and `checkoutObserverTimeout`. The fields `watches_…` tell whether an observer is connected,
-- with the cards that are observed, and `on_…` whether the listeners of a part are there.
pub record Tab : Type 0 where
  pub world : World
  pub timers : List Timer
  pub next_id : ℕ
  pub is_loaded : Bool
  pub view_timer : Option ℕ
  pub card_timers : List (ℕ × ℕ)
  pub checkout_timer : Option ℕ
  pub watches_view : Bool
  pub watched_cards : List ℕ
  pub watches_checkout : Bool
  pub watches_payment : Bool
  pub on_variation : Bool
  pub on_cards_loaded : Bool
  pub on_add_to_cart : Bool
  pub on_checkout_loaded : Bool
  pub on_removal : Bool
  pub on_payment : Bool
  pub on_lead : Bool

-- A function of the world, in its tab.
unfoldable pub lift : {A : Type 0} → M A → Run Tab A
lift m t = let (r, w) = m t.world in (r, record t { world = w })

abbrev pub modify : (Tab → Tab) → Run Tab (Unit {0})
modify f t = (returned tt, f t)

-- `setTimeout`
unfoldable pub set_timeout : ℕ → Task → Run Tab ℕ
set_timeout delay task t = (
  returned t.next_id,
  record t {
    timers = t.timers ++ (record { id = t.next_id; delay = delay; task = task } ∷ []);
    next_id = suc t.next_id;
  },
)

-- The timers without the one of that identifier.
abbrev pub without : ℕ → List Timer → List Timer
without id [] = []
without id (timer ∷ timers) =
    let rest = without id timers in if timer.id == id then rest else timer ∷ rest

-- `clearTimeout`
unfoldable pub clear_timeout : Option ℕ → Run Tab (Unit {0})
clear_timeout none = pure tt
clear_timeout (some id) = modify (λ t. record t { timers = without id t.timers })

abbrev pub is_some : {A : Type 0} → Option A → Bool
is_some none = Bool.false
is_some (some a) = Bool.true
