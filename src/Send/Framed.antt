-- ===== src/Send/Framed.antt =====
-- The cookies that `sendEvent` leaves as they are.
use text.Mathlib.Text.{◌==◌ as str_eq}
use full_project.Prelude.{
  String, ℕ, ◌≡◌, refl, ◌∙◌, Bool, true, false, not, ◌&&◌, if◌then◌else◌, all, All,
}
use full_project.Js.Attempt.{Attempt, returned, thrown}
use full_project.Js.Text.{Text, codes, text_eq}
use full_project.Js.Text.Split.{both}
use full_project.Js.Value.{Fields}
use full_project.Page.{Page}
use full_project.Cookie.{Jar, Days, get_cookie, set_cookie_local}
use full_project.Cookie.Laws.{is_name_char, IsPlain}
use full_project.Cookie.Stored.{set_cookie_local-IsPlain}
use full_project.Cookie.Frame.{get_cookie-other}
use full_project.World.{Effect, Request, Pending, World, emit, start_fetch, write_cookie, keep_jar}
use full_project.World.Steps.{
  IsPreorder, Steps, throw-Steps, bind-Steps, then-Steps, if-Steps, when-Steps, swallow-Steps,
}
use full_project.Visitor.Quiet.{IsQuiet}
use full_project.Visitor.Markers.{domain, is_accepted}
use full_project.Send.{
  choose_event_id, track_pixels, send_via_ajax, post_form, send_synchronously, send_asynchronously,
  dispatch_event, send_event,
}
use full_project.Send.Quiet.{
  complete_event_data-Steps, fresh_event_id-Steps, build_ajax_form_data-Steps, build_payload-Steps,
}

-- The browser's cookies stay plain, and what is read for that name stays, at every later time.
abbrev pub Leaves : Text → World → World → Type 0
Leaves name w v =
    All IsPlain w.jar
    → All IsPlain v.jar × ((later : ℕ) → get_cookie name later v.jar ≡ get_cookie name later w.jar)

-- A cookie of another name, which has characters of a name alone.
abbrev pub is_other_name : Text → Text → Bool
is_other_name name other = not (text_eq name other) && all is_name_char other

module _ (p : Page) (name : Text) (n : all is_name_char name ≡ true) where
  Leaves-trans : (u v w : World) → Leaves name u v → Leaves name v w → Leaves name u w
  Leaves-trans u v w h g plain =
      let (plain_v, same) = h plain in
      let (plain_w, again) = g plain_v in (plain_w, λ later. again later ∙ same later)

  pub o : IsPreorder (Leaves name)
  o = record { refl_lem = λ w plain. (plain, λ later. refl); trans_lem = Leaves-trans }

  write_cookie-Leaves :
      (other value : Text) (days : Days)
      → is_other_name name other ≡ true
      → Steps (Leaves name) (write_cookie p other value days)
  unfolding write_cookie
  write_cookie-Leaves other value days h = record {
    steps = λ w.
        of w (set_cookie_local (domain p) (is_accepted p) other value days w.now w.jar)
          (λ jar e. e);
  }
    where
      differs : (b : Bool) → not b ≡ true → b ≡ false
      differs true k = cc
      differs false k = refl

      of :
          (w : World) (r : Attempt Jar)
          → ((jar : Jar)
              → r ≡ returned jar
              → set_cookie_local (domain p) (is_accepted p) other value days w.now w.jar
                ≡ returned jar)
          → Leaves name w (keep_jar p w r).1
      of w thrown set plain = (plain, λ later. refl)
      of w (returned jar) set plain =
          let (ne, m) = both (not (text_eq name other)) _ h in
          (
            set_cookie_local-IsPlain (domain p) other value (is_accepted p) days w.now w.jar jar
                (set jar refl) m plain,
            λ later.
                get_cookie-other (domain p) name other value (is_accepted p) days w.now later w.jar
                  jar n m (differs _ ne) plain (set jar refl),
          )

  Leaves-IsQuiet : IsQuiet p (Leaves name) (is_other_name name)
  Leaves-IsQuiet = record {
    order = o;
    drawn_lem = λ w k plain. (plain, λ later. refl);
    written = write_cookie-Leaves;
  }

  emit-Leaves : (e : Effect) → Steps (Leaves name) (emit e)
  unfolding emit
  emit-Leaves e = record { steps = λ w plain. (plain, λ later. refl) }

  start_fetch-Leaves : (r : Request) (x : Pending) → Steps (Leaves name) (start_fetch r x)
  unfolding start_fetch
  start_fetch-Leaves r x = record { steps = λ w plain. (plain, λ later. refl) }

  track_pixels-Leaves :
      (event : String) (event_data : Fields) (event_id : Text)
      → Steps (Leaves name) (track_pixels p event event_data event_id)
  unfolding track_pixels
  track_pixels-Leaves event event_data event_id = record {
    steps = λ w.
        (when-Steps o _
            (then-Steps o (when-Steps o _ (emit-Leaves _)) (when-Steps o _ (emit-Leaves _)))).steps
          w;
  }

  module _ (vid_other : is_other_name name (codes "_buykorigw_vid") ≡ true) where
    send_via_ajax-Leaves :
        (event : String) (event_data : Fields) (event_id : Text)
        → Steps (Leaves name) (send_via_ajax p event event_data event_id)
    unfolding send_via_ajax post_form
    send_via_ajax-Leaves event event_data event_id =
        bind-Steps o
          (build_ajax_form_data-Steps p (Leaves name) (is_other_name name) Leaves-IsQuiet vid_other
            event event_data event_id)
          λ form.
            if-Steps o p.has_beacon (emit-Leaves _)
              (if-Steps o p.has_fetch (emit-Leaves _) (throw-Steps o))

    transport-Leaves :
        (event : String) (event_data : Fields) (event_id : Text) (synchronous : Bool)
        (payload : Fields)
        → Steps (Leaves name) (
            if synchronous
            then send_synchronously p event event_data event_id payload
            else send_asynchronously p event event_data event_id payload)
    unfolding send_synchronously send_asynchronously
    transport-Leaves event event_data event_id true payload = swallow-Steps o (
        if-Steps o _
          (bind-Steps o
            (build_ajax_form_data-Steps p (Leaves name) (is_other_name name) Leaves-IsQuiet
              vid_other event event_data event_id)
            λ form. emit-Leaves _)
          (emit-Leaves _))
    transport-Leaves event event_data event_id false payload =
        if-Steps o _ (start_fetch-Leaves _ _) (send_via_ajax-Leaves event event_data event_id)

    pub send_event-Steps :
        (event : String) (given : Fields) (synchronous : Bool)
        → str_eq event "InitiateCheckout" ≡ false
        → Steps (Leaves name) (send_event p event given synchronous)
    unfolding send_event choose_event_id dispatch_event
    send_event-Steps event given synchronous other =
        bind-Steps o
          (complete_event_data-Steps p (Leaves name) (is_other_name name) Leaves-IsQuiet given)
          λ event_data.
            bind-Steps o
              (rw other
                (fresh_event_id-Steps p (Leaves name) (is_other_name name) Leaves-IsQuiet event))
              λ event_id.
                bind-Steps o
                  (build_payload-Steps p (Leaves name) (is_other_name name) Leaves-IsQuiet vid_other
                    event event_data event_id)
                  λ payload.
                    then-Steps o (track_pixels-Leaves event event_data event_id)
                      (transport-Leaves event event_data event_id synchronous payload)

-- Where the browser keeps its cookies plain: an event other than InitiateCheckout, whether `sendEvent`
-- returns or throws, writes no cookie but the visitor's identifier, so that for every other name
-- `getCookie` reads what it read before, then and at every later time.
pub send_event-Leaves :
    (p : Page) (name : Text) (event : String) (given : Fields) (synchronous : Bool) (w : World)
    → all is_name_char name ≡ true
    → is_other_name name (codes "_buykorigw_vid") ≡ true
    → str_eq event "InitiateCheckout" ≡ false
    → All IsPlain w.jar
    → let v = (send_event p event given synchronous w).1 in
      All IsPlain v.jar × ((later : ℕ) → get_cookie name later v.jar ≡ get_cookie name later w.jar)
send_event-Leaves p name event given synchronous w n vid_other other plain =
    (send_event-Steps p name n vid_other event given synchronous other).steps w plain
