-- ===== src/Send/AtMostOne.antt =====
-- A call of `sendEvent` adds at most one to what its requests are counted by, whichever transport it
-- takes.
use full_project.Prelude.{
  String, ℕ, suc, ◌≤◌, ◌≡◌, sym, Bool, true, false, if◌then◌else◌, arith, is_nil, not, ◌&&◌,
}
use full_project.Js.Attempt.{Attempt, returned, thrown}
use full_project.Js.Text.{Text}
use full_project.Js.Value.{Fields}
use full_project.Page.{Page}
use full_project.World.{
  Request, Transport, request, Pending, World, M, ◌>>=◌, ◌>>◌, after, throw, swallow, emit,
  start_fetch,
}
use full_project.World.Effects.{Keeps, Sends}
use full_project.Send.{
  post_form, send_via_ajax, send_synchronously, send_asynchronously, dispatch_event, send_event,
}
use full_project.Send.Laws.{
  complete_event_data-Sends, choose_event_id-Sends, build_payload-Sends, build_ajax_form_data-Sends,
}
use full_project.Send.Delivery.{NoRequest, track_pixels-NoRequest}
use full_project.Send.Names.{Logs-mono}
use full_project.Send.Measure.{IsMeasure, NoRequest-IsSilent}

pub record AtMostOne (measure : World → ℕ) {A : Type 0} (m : M A) : Type 0 where
  pub at_most : (w : World) → measure (m w).1 ≤ suc (measure w)

module _ (name : String) (measure : World → ℕ) (i : IsMeasure name measure) where
  quiet : (w v : World) → Keeps NoRequest w v → measure v ≡ measure w
  quiet w v (h, k) = i.silent_lem w v (Logs-mono w v (NoRequest-IsSilent name) h)

  swallow-AtMostOne : {m : M (Unit {0})} → AtMostOne measure m → AtMostOne measure (swallow m)
  swallow-AtMostOne h = record { at_most = h.at_most }

  after-AtMostOne :
      {A B : Type 0} (w : World) (r : Attempt A × World) (f : A → M B)
      → Keeps NoRequest w r.1
      → ((a : A) → AtMostOne measure (f a))
      → measure (after r f).1 ≤ suc (measure w)
  after-AtMostOne w (returned a, v) f h k = rw (sym (quiet w v h)) ((k a).at_most v)
  after-AtMostOne w (thrown, v) f h k = let e = quiet w v h in omega arith

  bind-AtMostOne :
      {A B : Type 0} {m : M A} {f : A → M B}
      → Sends NoRequest m
      → ((a : A) → AtMostOne measure (f a))
      → AtMostOne measure (m >>= f)
  bind-AtMostOne {m} {f} h k = record { at_most = λ w. after-AtMostOne w (m w) f (h.steps w) k }

  then-AtMostOne :
      {A B : Type 0} {m : M A} {k : M B}
      → Sends NoRequest m
      → AtMostOne measure k
      → AtMostOne measure (m >> k)
  then-AtMostOne {m} {k} h g = record {
    at_most = λ w. after-AtMostOne w (m w) (λ _. k) (h.steps w) (λ _. g);
  }

  if-AtMostOne :
      {A : Type 0} (b : Bool) {m k : M A}
      → AtMostOne measure m
      → AtMostOne measure k
      → AtMostOne measure (if b then m else k)
  if-AtMostOne true h g = h
  if-AtMostOne false h g = g

  emit-AtMostOne : (t : Transport) (r : Request) → AtMostOne measure (emit (request t r))
  unfolding emit
  emit-AtMostOne t r = record { at_most = λ w. i.sent_lem t r w }

  start_fetch-AtMostOne : (r : Request) (x : Pending) → AtMostOne measure (start_fetch r x)
  unfolding start_fetch
  start_fetch-AtMostOne r x = record { at_most = λ w. i.fetched_lem r x w }

  throw-AtMostOne : {A : Type 0} → AtMostOne measure (throw {A = A})
  throw-AtMostOne = record { at_most = λ w. omega arith }

  send_via_ajax-AtMostOne :
      (p : Page) (name : String) (event_data : Fields) (event_id : Text)
      → AtMostOne measure (send_via_ajax p name event_data event_id)
  unfolding send_via_ajax post_form
  send_via_ajax-AtMostOne p name event_data event_id =
      bind-AtMostOne (build_ajax_form_data-Sends NoRequest p name event_data event_id) λ form.
        if-AtMostOne p.has_beacon (emit-AtMostOne _ _)
          (if-AtMostOne p.has_fetch (emit-AtMostOne _ _) throw-AtMostOne)

  transport-AtMostOne :
      (p : Page) (name : String) (event_data : Fields) (event_id : Text) (synchronous : Bool)
      (payload : Fields)
      → AtMostOne measure (
          if synchronous
          then send_synchronously p name event_data event_id payload
          else send_asynchronously p name event_data event_id payload)
  unfolding send_synchronously send_asynchronously
  transport-AtMostOne p name event_data event_id true payload = swallow-AtMostOne (
      if-AtMostOne (is_nil p.config.rest_url)
        (bind-AtMostOne (build_ajax_form_data-Sends NoRequest p name event_data event_id)
          λ form. emit-AtMostOne _ _)
        (emit-AtMostOne _ _))
  transport-AtMostOne p name event_data event_id false payload =
      if-AtMostOne (not (is_nil p.config.rest_url) && p.has_fetch) (start_fetch-AtMostOne _ _)
        (send_via_ajax-AtMostOne p name event_data event_id)

  pub send_event-AtMostOne :
      (p : Page) (event : String) (given : Fields) (synchronous : Bool)
      → AtMostOne measure (send_event p event given synchronous)
  unfolding send_event dispatch_event
  send_event-AtMostOne p event given synchronous =
      bind-AtMostOne (complete_event_data-Sends NoRequest p given) λ event_data.
        bind-AtMostOne (choose_event_id-Sends NoRequest p event) λ event_id.
          bind-AtMostOne (build_payload-Sends NoRequest p event event_data event_id) λ payload.
            then-AtMostOne (track_pixels-NoRequest p event event_data event_id)
              (transport-AtMostOne p event event_data event_id synchronous payload)
