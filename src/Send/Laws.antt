-- ===== src/Send/Laws.antt =====
-- What `sendEvent` sends: one identifier for all, and one request.
use full_project.Prelude.{◌≡◌, refl, Bool, true, false, [], ◌∷◌, String, if◌then◌else◌}
use full_project.Js.Text.{Text, codes}
use full_project.Js.Value.{Fields, str, get}
use full_project.Page.{Page}
use full_project.World.{Effect, fb_track, tt_track, request, xhr, beacon, form_post, Pending}
use full_project.World.Body.{IsBody}
use full_project.Send.Body.{build_payload-IsBody, build_ajax_form_data-IsBody}
use full_project.World.Effects.{
  Keeps, Sends, Answers, start_fetch-Sends, given-Sends, bind-Sends, then-Sends, pure-Sends,
  throw-Sends, when-Sends, if-Sends, swallow-Sends, emit-Sends, read_cookie-Sends,
}
use full_project.Visitor.Effects.{is_any_name, Keeps-IsQuiet, mark_initiate_checkout_sent-Sends}
use full_project.Send.Quiet.{
  complete_event_data-Steps, fresh_event_id-Steps, build_ajax_form_data-Steps, build_payload-Steps,
}
use full_project.Send.{
  fresh_event_id, checkout_event_id, choose_event_id, complete_event_data, track_pixels,
  build_ajax_form_data, send_via_ajax, post_form, send_synchronously, send_asynchronously,
  build_payload, dispatch_event, browser_params, pending,
}

-- The effect belongs to the event of that name, with that identifier.
abbrev pub Carries : String → Text → Effect → Type 0
Carries name id (fb_track n params i) = (n ≡ name) × (i ≡ id)
Carries name id (tt_track n params i) = (n ≡ name) × (i ≡ id)
Carries name id (request t r) =
    (get "event_name" r.body ≡ str (codes name)) × (get "event_id" r.body ≡ str id)
Carries name id e = ⊥

module _ (P : Effect → Type 0) (p : Page) where
  pub complete_event_data-Sends : (given : Fields) → Sends P (complete_event_data p given)
  complete_event_data-Sends = complete_event_data-Steps p (Keeps P) is_any_name (Keeps-IsQuiet P p)

  fresh_event_id-Sends : (name : String) → Sends P (fresh_event_id p name)
  fresh_event_id-Sends = fresh_event_id-Steps p (Keeps P) is_any_name (Keeps-IsQuiet P p)

  pub choose_event_id-Sends : (name : String) → Sends P (choose_event_id p name)
  unfolding choose_event_id
  choose_event_id-Sends name =
      if-Sends P _
        (bind-Sends P (bind-Sends P (read_cookie-Sends P p _) of)
          λ event_id. then-Sends P (mark_initiate_checkout_sent-Sends P p event_id) (pure-Sends P))
        (fresh_event_id-Sends name)
    where
      of : (marker : Text) → Sends P (checkout_event_id p marker)
      of [] = fresh_event_id-Sends "InitiateCheckout"
      of (c ∷ marker) = pure-Sends P

  pub build_ajax_form_data-Sends :
      (name : String) (event_data : Fields) (event_id : Text)
      → Sends P (build_ajax_form_data p name event_data event_id)
  build_ajax_form_data-Sends =
      build_ajax_form_data-Steps p (Keeps P) is_any_name (Keeps-IsQuiet P p) refl

  pub build_payload-Sends :
      (name : String) (event_data : Fields) (event_id : Text)
      → Sends P (build_payload p name event_data event_id)
  build_payload-Sends = build_payload-Steps p (Keeps P) is_any_name (Keeps-IsQuiet P p) refl

-- What the pixels and every request of the event, with its data, have.
pub record IsTold (P : Effect → Type 0) (x : Pending) : Type 0 where
  pub facebook : P (fb_track x.event_name (browser_params x.event_data) x.event_id)
  pub tiktok : P (tt_track x.event_name (browser_params x.event_data) x.event_id)
  pub answers : Answers P x

module _ (P : Effect → Type 0) (p : Page) (name : String) (event_data : Fields)
    (event_id : Text) where
  pub send_via_ajax-Answers :
      Answers P (pending p name event_data event_id)
      → Sends P (send_via_ajax p name event_data event_id)
  unfolding send_via_ajax post_form
  send_via_ajax-Answers h =
      given-Sends P (IsBody name event_data event_id)
        (build_ajax_form_data-Sends P p name event_data event_id)
        (build_ajax_form_data-IsBody p name event_data event_id)
        λ form body.
          if-Sends P p.has_beacon (emit-Sends P (h beacon _ body))
            (if-Sends P p.has_fetch (emit-Sends P (h form_post _ body)) (throw-Sends P))

  module _ (told : IsTold P (pending p name event_data event_id)) where
    track_pixels-Sends : Sends P (track_pixels p name event_data event_id)
    unfolding track_pixels
    track_pixels-Sends = record {
      steps = λ w.
          (when-Sends P _ (
              then-Sends P (when-Sends P _ (emit-Sends P told.facebook))
                (when-Sends P _ (emit-Sends P told.tiktok)))).steps
            w;
    }

    transport-Sends :
        (synchronous : Bool) (payload : Fields)
        → IsBody name event_data event_id payload
        → Sends P (
            if synchronous
            then send_synchronously p name event_data event_id payload
            else send_asynchronously p name event_data event_id payload)
    unfolding send_synchronously send_asynchronously
    transport-Sends true payload body = swallow-Sends P (
        if-Sends P _
          (given-Sends P (IsBody name event_data event_id)
            (build_ajax_form_data-Sends P p name event_data event_id)
            (build_ajax_form_data-IsBody p name event_data event_id)
            λ form there. emit-Sends P (told.answers xhr _ there))
          (emit-Sends P (told.answers xhr _ body)))
    transport-Sends false payload body =
        if-Sends P _ (start_fetch-Sends P _ _ body told.answers)
          (send_via_ajax-Answers told.answers)

    pub dispatch_event-told :
        (synchronous : Bool) → Sends P (dispatch_event p name synchronous event_data event_id)
    unfolding dispatch_event
    dispatch_event-told synchronous =
        given-Sends P (IsBody name event_data event_id)
          (build_payload-Sends P p name event_data event_id)
          (build_payload-IsBody p name event_data event_id)
          λ payload body. then-Sends P track_pixels-Sends (transport-Sends synchronous payload body)

module _ (p : Page) (name : String) (event_data : Fields) (event_id : Text) where
  Carries-IsTold : IsTold (Carries name event_id) (pending p name event_data event_id)
  Carries-IsTold = record {
    facebook = (refl, refl);
    tiktok = (refl, refl);
    answers = λ t r (names_it, names_data, names_id). (names_it, names_id);
  }

  pub send_via_ajax-Sends : Sends (Carries name event_id) (send_via_ajax p name event_data event_id)
  send_via_ajax-Sends =
      send_via_ajax-Answers (Carries name event_id) p name event_data event_id
        Carries-IsTold.answers

  pub dispatch_event-Sends :
      (synchronous : Bool)
      → Sends (Carries name event_id) (dispatch_event p name synchronous event_data event_id)
  dispatch_event-Sends =
      dispatch_event-told (Carries name event_id) p name event_data event_id Carries-IsTold
