-- ===== src/Send/Settle.antt =====
-- tracker.js: what `sendEvent` does when its `fetch` settles.
use full_project.Prelude.{
  ℕ, zero, suc, Bool, true, false, Option, none, some, List, [], ◌∷◌, String,
}
use full_project.Js.Attempt.{returned}
use full_project.Js.Text.{Text}
use full_project.Js.Value.{Fields}
use full_project.Page.{Page}
use full_project.World.{Pending, M, pure, recover}
use full_project.Send.{send_via_ajax}

-- How a `fetch` settles: with a response, which is good or not, or not at all.
pub data Outcome : Type 0 where
  answered : Bool → Outcome
  failed : Outcome

abbrev pub keep_first : {A : Type 0} → A → Option (A × List A) → Option (A × List A)
keep_first x none = none
keep_first x (some (y, ys)) = some (y, x ∷ ys)

-- The element at a place, with the others.
abbrev pub pick : {A : Type 0} → ℕ → List A → Option (A × List A)
pick n [] = none
pick zero (x ∷ xs) = some (x, xs)
pick (suc n) (x ∷ xs) = keep_first x (pick n xs)

module _ (p : Page) where
  -- The handlers of a `fetch`. An exception in `then` comes to `catch`, as a failure does.
  unfoldable pub settle_fetch : Outcome → String → Fields → Text → M (Unit {0})
  settle_fetch (answered true) name event_data event_id = pure tt
  settle_fetch (answered false) name event_data event_id =
      recover (send_via_ajax p name event_data event_id) (send_via_ajax p name event_data event_id)
  settle_fetch failed name event_data event_id = send_via_ajax p name event_data event_id

  abbrev pub settle_found : Outcome → Option (Pending × List Pending) → M (Unit {0})
  settle_found outcome none w = (returned tt, w)
  settle_found outcome (some (x, others)) w =
      settle_fetch outcome x.event_name x.event_data x.event_id (record w { pending = others })

  -- One of the calls of `fetch` that have not settled settles.
  unfoldable pub settle_pending : ℕ → Outcome → M (Unit {0})
  settle_pending n outcome w = settle_found outcome (pick n w.pending) w
