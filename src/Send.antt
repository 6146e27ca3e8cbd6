-- ===== src/Send.antt =====
-- tracker.js: `sendEvent`, from the payload of an event to the pixels and the request, with the form
-- that goes out where the REST route is missing.
pub mod FormFields
pub mod Settle
pub mod Body
pub mod Quiet
pub mod Laws
pub mod Delivery
pub mod Agreement
pub mod Names
pub mod AtMostOne
pub mod Measure
pub mod Settled
pub mod Carried
pub mod OneShot
pub mod Calm
pub mod Thrown
pub mod Customer
pub mod Framed
pub mod Marked
pub mod Fallback
use full_project.Prelude.{
  ℕ, zero, suc, ◌/◌, Bool, true, false, not, ◌&&◌, ◌||◌, Option, none, some, List, [], ◌∷◌, ◌++◌,
  if◌then◌else◌, String, is_nil,
}
use text.Mathlib.Text.{◌==◌ as str_eq}
use full_project.Js.Attempt.{returned}
use full_project.Js.Text.{Text, codes, or_text, trim}
use full_project.Js.Decimal.{show}
use full_project.Js.Number.{parse_float}
use full_project.Js.Value.{
  Value, num, str, obj, Fields, end, field, truthy, is_undefined, to_text, get, put, or_value,
}
use full_project.Page.{Page, Config}
use full_project.Content.{normalize_event_data}
use full_project.World.{
  Dom, Request, Transport, xhr, beacon, form_post, Effect, fb_track, tt_track, request, Pending,
  World, M, pure, after, throw, recover, start_fetch, ◌>>=◌, ◌>>◌, when, swallow, emit, ask,
  read_cookie, random_from,
}
use full_project.Send.FormFields.{add_fields, append_customer_data, pii_selectors}
use full_project.Visitor.{
  get_external_id, get_tiktok_click_id, get_ga4_client_id, get_ga4_session_id, get_marketing_params,
  mark_initiate_checkout_sent,
}

abbrev pub add_given : String → Text → Fields → Fields
add_given k s r = if is_nil s then r else put k (str s) r

abbrev pub add_missing : String → Text → Fields → Fields
add_missing k s r = if truthy (get k r) then r else put k (str s) r

abbrev copy_field : String → Fields → Fields → Fields
copy_field k from r = if is_undefined (get k from) then r else put k (get k from) r

-- `browserParams`
unfoldable pub browser_params : Fields → Fields
browser_params event_data =
    let value = get "value" event_data in
    let start =
      if is_undefined value then end else field "value" (num (parse_float (to_text value))) end in
    copy_field "num_items" event_data (
      copy_field "contents" event_data (
        copy_field "content_ids" event_data (
          copy_field "content_type" event_data
            (copy_field "content_name" event_data (copy_field "currency" event_data start)))))

module _ (p : Page) where
  -- `wp_<name>_<seconds>_<four digits>`
  unfoldable pub fresh_event_id : String → M Text
  fresh_event_id name w =
      (random_from p 9000 1000 >>= λ r. pure (
          codes "wp_"
          ++ (codes name ++ (codes "_" ++ (show (w.now / 1000) ++ (codes "_" ++ show r))))))
        w

  abbrev pub checkout_event_id : Text → M Text
  checkout_event_id [] = fresh_event_id "InitiateCheckout"
  checkout_event_id (c ∷ marker) = pure (c ∷ marker)

  -- The identifier of the event. That of a checkout is kept in a cookie and taken from there.
  unfoldable pub choose_event_id : String → M Text
  choose_event_id name =
      let marked =
        read_cookie p (codes "_buykorigw_ic_event_id") >>= checkout_event_id >>= λ event_id.
        mark_initiate_checkout_sent p event_id >> pure event_id in
      let fresh = fresh_event_id name in if str_eq name "InitiateCheckout" then marked else fresh

  -- The payload without the customer's fields, in the order of its keys.
  unfoldable pub identity_fields : M Fields
  identity_fields = do
    fbp ← read_cookie p (codes "_fbp")
    fbc ← read_cookie p (codes "_fbc")
    ttp ← read_cookie p (codes "_ttp")
    ttclid ← get_tiktok_click_id p
    external_id ← get_external_id p
    ga ← read_cookie p (codes "_ga")
    ga_session_id ← get_ga4_session_id p
    pure (
        field "fbp" (str fbp) (
          field "fbc" (str fbc) (
            field "ttp" (str ttp) (
              field "ttclid" (str ttclid) (
                field "fbclid" (str (p.query_param (codes "fbclid"))) (
                  field "external_id" (str external_id)
                    (field "_ga" (str ga) (field "ga_session_id" (str ga_session_id) end))))))))

  -- `eventData`, normalised and with what the page adds to it.
  unfoldable pub complete_event_data : Fields → M Fields
  complete_event_data given = do
    marketing ← get_marketing_params p
    let normal = normalize_event_data marketing given
    ga4_client_id ← get_ga4_client_id p
    ga4_session_id ← get_ga4_session_id p
    pure (
        add_missing "page_path" (p.location.pathname ++ p.location.search) (
          add_missing "page_location" p.location.href
            (add_given "ga_session_id" ga4_session_id (add_given "_ga" ga4_client_id normal))))

  -- The calls of the two pixels, with the identifier that the request has.
  unfoldable pub track_pixels : String → Fields → Text → M (Unit {0})
  track_pixels name event_data event_id w =
      let params = browser_params event_data in
      let cfg = p.config in
      when (cfg.enable_hybrid && not (str_eq name "Identify"))
        (when (w.has_fbq && not (is_nil cfg.fb_pixel_id)) (emit (fb_track name params event_id))
          >> when (w.has_ttq && not (is_nil cfg.tt_pixel_id))
              (emit (tt_track name params event_id)))
        w

  pub form_fields : String → Fields → Text → Fields → Dom → Fields
  form_fields name event_data event_id identity dom = append_customer_data dom (
      field "action" (str (codes "buykorigw_track_event")) (
        field "nonce" (str p.config.nonce) (
          field "event_name" (str (codes name)) (
            field "event_id" (str event_id) (
              field "event_data" (obj event_data) (
                field "page_url" (or_value (get "page_location" event_data) (str p.location.href))
                  (field "page_title" (str p.title) identity)))))))

  -- `buildAjaxFormData(eventName, eventData, eventId)`; the form's `event_data` is the JSON text of
  -- the object that stands here.
  unfoldable pub build_ajax_form_data : String → Fields → Text → M Fields
  unfolding form_fields
  build_ajax_form_data name event_data event_id =
      identity_fields >>= λ identity. ask (form_fields name event_data event_id identity)

  abbrev form_request : Fields → Request
  form_request form = record { url = p.config.ajax_url; nonce = []; body = form }

  -- Without `sendBeacon` the form goes by `fetch`, which throws where it does not exist.
  unfoldable pub post_form : Fields → M (Unit {0})
  post_form form =
      let form_sent = form_request form in
      if p.has_beacon
      then emit (request beacon form_sent)
      else if p.has_fetch
      then emit (request form_post form_sent)
      else throw

  -- `sendViaAjax(eventName, eventData, eventId)`
  unfoldable pub send_via_ajax : String → Fields → Text → M (Unit {0})
  unfolding post_form
  send_via_ajax name event_data event_id =
      build_ajax_form_data name event_data event_id >>= post_form

  abbrev json_request : Fields → Request
  json_request payload = record {
    url = p.config.rest_url;
    nonce = p.config.rest_nonce;
    body = payload;
  }

  -- The synchronous request, in its `try`.
  unfoldable pub send_synchronously : String → Fields → Text → Fields → M (Unit {0})
  send_synchronously name event_data event_id payload =
      let json = emit (request xhr (json_request payload)) in
      let form = build_ajax_form_data name event_data event_id >>= λ form.
      emit (request xhr (form_request form)) in
      swallow (if is_nil p.config.rest_url then form else json)

  abbrev pub pending : String → Fields → Text → Pending
  pending name event_data event_id = record {
    event_name = name;
    event_data = event_data;
    event_id = event_id;
  }

  unfoldable pub send_asynchronously : String → Fields → Text → Fields → M (Unit {0})
  send_asynchronously name event_data event_id payload =
      let request_sent = json_request payload in
      let json = start_fetch request_sent (pending name event_data event_id) in
      let form = send_via_ajax name event_data event_id in
      if not (is_nil p.config.rest_url) && p.has_fetch then json else form

  pub payload_fields : String → Fields → Text → Fields → Dom → Fields
  payload_fields name event_data event_id identity dom = add_fields dom pii_selectors (
      field "event_name" (str (codes name)) (
        field "event_data" (obj event_data) (
          field "event_id" (str event_id)
            (field "page_url" (str p.location.href) (field "page_title" (str p.title) identity)))))

  -- `JSON.stringify` of the payload is left to the server's side: the body stays an object.
  unfoldable pub build_payload : String → Fields → Text → M Fields
  unfolding payload_fields
  build_payload name event_data event_id =
      identity_fields >>= λ identity. ask (payload_fields name event_data event_id identity)

  -- The event once its data and its identifier are there.
  unfoldable pub dispatch_event : String → Bool → Fields → Text → M (Unit {0})
  dispatch_event name synchronous event_data event_id =
      build_payload name event_data event_id >>= λ payload.
      track_pixels name event_data event_id
      >> (if synchronous
          then send_synchronously name event_data event_id payload
          else send_asynchronously name event_data event_id payload)

  -- `sendEvent(eventName, eventData, synchronous)`
  unfoldable pub send_event : String → Fields → Bool → M (Unit {0})
  send_event name given synchronous = do
    event_data ← complete_event_data given
    event_id ← choose_event_id name
    dispatch_event name synchronous event_data event_id
