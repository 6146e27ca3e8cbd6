-- ===== src/Send/Fallback.antt =====
-- What the handlers of a `fetch` send when it settles: the form, where it fails.
use full_project.Prelude.{String, ◌+◌, ◌≡◌, refl, true, false}
use full_project.Js.Attempt.{returned}
use full_project.Js.Text.{Text}
use full_project.Js.Value.{Fields}
use full_project.Page.{Page}
use full_project.World.{World}
use full_project.World.Effects.{Keeps, recover-Sends}
use full_project.Send.Settle.{Outcome, answered, failed, settle_fetch}
use full_project.Send.Laws.{Carries, send_via_ajax-Sends}
use full_project.Send.Delivery.{requests, sent, send_via_ajax-Counts, recover-Counts}

-- What a `fetch` that is no success adds: one request if its handlers return and none if they throw,
-- with the name and the identifier of its event.
abbrev pub AddsForm : Page → Outcome → String → Fields → Text → World → Type 0
AddsForm p outcome name event_data event_id w =
    let (result, v) = settle_fetch p outcome name event_data event_id w in
    (requests v.log ≡ sent result + requests w.log) × Keeps (Carries name event_id) w v

-- When a `fetch` settles with a good response, nothing is done. When the response is bad or there is
-- none, exactly one more request goes out if the handlers return, and none if they throw, also where
-- the form is tried twice since an exception in `then` comes to `catch`; and all that is sent belongs
-- to the event and has its identifier.
pub settle_fetch_lem :
    (p : Page) (name : String) (event_data : Fields) (event_id : Text) (w : World)
    → (settle_fetch p (answered true) name event_data event_id w ≡ (returned tt, w))
      × AddsForm p (answered false) name event_data event_id w
      × AddsForm p failed name event_data event_id w
unfolding settle_fetch
settle_fetch_lem p name event_data event_id w =
    let counts = send_via_ajax-Counts p name event_data event_id in
    let sends = send_via_ajax-Sends p name event_data event_id in
    (
      refl,
      (
        (recover-Counts counts counts).counts w,
        (recover-Sends (Carries name event_id) sends sends).steps w,
      ),
      (counts.counts w, sends.steps w),
    )
