-- ===== src/Shop/Named.antt =====
-- The product that an AddToCart names, from the listeners to the shop's server and the pixels.
use text.Mathlib.Text.{◌==◌ as str_eq}
use full_project.Prelude.{
  String, Option, none, some, ◌≡◌, refl, ◌∙◌, Bool, true, false, not, [], ◌∷◌, ◌++◌, if◌then◌else◌,
}
use full_project.Js.Text.{Text, codes, trim}
use full_project.Js.Value.{
  str, obj, dict, arr, cons, nil, Fields, end, field, truthy, to_text, get, put, get-put,
}
use full_project.Js.Dict.{Dict}
use full_project.Campaign.{Marketing}
use full_project.Page.{Page}
use full_project.Product.{
  ProductData, add_attributes, product_item, product_payload, product_payload_from_data,
}
use full_project.Content.{is_valid_content_id, normalize_event_data}
use full_project.Content.Named.{
  one_id, HasItem, normalize_event_data-one, normalize_event_data-item,
}
use full_project.Js.Attempt.{Attempt, returned, thrown}
use full_project.Path.{current_path_key}
use full_project.Once.{event_once}
use full_project.World.{World, M, after, when, once, ◌>>◌}
use full_project.World.Effects.{Gives, bind-Gives, Logs, Logs-refl, Logs-trans}
use full_project.Visitor.Effects.{clear_checkout_markers-Sends}
use full_project.Visitor.{
  clear_checkout_markers, get_marketing_params, get_ga4_client_id, get_ga4_session_id,
}
use full_project.Send.{add_given, add_missing, complete_event_data, send_event}
use full_project.Send.Agreement.{Tells, Tells-IsTold, send_event-told}
use full_project.Shop.AddToCart.{
  Added, is_rejected_pid, jquery_payload, click_payload, intent_payload, send_added, send_clicked,
  send_intent, send_add_to_cart,
}

add_given-other :
    (k j : String) (s : Text) (r : Fields) → str_eq k j ≡ false → get j (add_given k s r) ≡ get j r
add_given-other k j [] r e = refl
add_given-other k j (c ∷ s) r e = get-put k j (str (c ∷ s)) r ∙ rw e refl

add_missing-other :
    (k j : String) (s : Text) (r : Fields)
    → str_eq k j ≡ false
    → get j (add_missing k s r) ≡ get j r
add_missing-other k j s r e = of (truthy (get k r))
  where
    of : (b : Bool) → get j (if b then r else put k (str s) r) ≡ get j r
    of true = refl
    of false = get-put k j (str s) r ∙ rw e refl

add_attributes-other :
    (j : String) (attributes : Option (Dict Text)) (item : Fields)
    → str_eq "attributes" j ≡ false
    → get j (add_attributes attributes item) ≡ get j item
unfolding add_attributes
add_attributes-other j none item e = refl
add_attributes-other j (some entries) item e =
    get-put "attributes" j (dict entries) item ∙ rw e refl

-- The payload names that identifier, and its only item has it.
abbrev IsGiven : Text → Fields → Type 0
IsGiven id given = (get "content_ids" given ≡ one_id id) × HasItem id given

-- The data name that identifier, trimmed, and no other; their only item has it as it is, under both
-- names.
abbrev pub NamesOne : Text → Fields → Type 0
NamesOne id event_data = (get "content_ids" event_data ≡ one_id (trim id)) × HasItem id event_data

module _ (p : Page) (id : Text) (given : Fields) (one : IsGiven id given)
    (valid : is_valid_content_id (str (trim id)) ≡ true) where
  -- What completes the data touches neither the identifiers nor the contents.
  completed :
      (k : String) (m : Marketing) (client session : Text)
      → str_eq "page_path" k ≡ false
      → str_eq "page_location" k ≡ false
      → str_eq "ga_session_id" k ≡ false
      → str_eq "_ga" k ≡ false
      → let fields = add_given "_ga" client (normalize_event_data m given) in
        let named =
          add_missing "page_location" p.location.href (add_given "ga_session_id" session fields) in
        get k (add_missing "page_path" (p.location.pathname ++ p.location.search) named)
        ≡ get k (normalize_event_data m given)
  completed k m client session path location ga_session ga =
      add_missing-other "page_path" k _ _ path
      ∙ add_missing-other "page_location" k _ _ location
      ∙ add_given-other "ga_session_id" k session _ ga_session
      ∙ add_given-other "_ga" k client _ ga

  complete_event_data-NamesOne : Gives (NamesOne id) (complete_event_data p given)
  unfolding complete_event_data
  complete_event_data-NamesOne = bind-Gives (NamesOne id) (get_marketing_params p) λ m.
      bind-Gives (NamesOne id) (get_ga4_client_id p) λ client.
        bind-Gives (NamesOne id) (get_ga4_session_id p) λ session. record {
          gives = λ w.
              let (item, h, a, b) = normalize_event_data-item m id given one.1 valid in
              (
                completed "content_ids" m client session refl refl refl refl
                    ∙ normalize_event_data-one m id given one.0 valid,
                (item, completed "contents" m client session refl refl refl refl ∙ h, a, b),
              );
        }

-- All that is added to the log, and may come of a `fetch`, tells of one AddToCart with such data.
abbrev pub TellsOne : Text → World → World → Type 0
TellsOne id w v =
    (event_data : Fields) × (event_id : Text) × NamesOne id event_data
    × Logs (Tells "AddToCart" event_data event_id) w v

module _ (p : Page) (id : Text) (given : Fields) (one : IsGiven id given)
    (valid : is_valid_content_id (str (trim id)) ≡ true) where
  sample : Fields
  sample =
      let item = field "id" (str id) (field "content_id" (str id) end) in
      field "content_ids" (one_id (trim id)) (field "contents" (arr (cons (obj item) nil)) end)

  sample-NamesOne : NamesOne id sample
  unfolding sample get
  sample-NamesOne =
      (refl, (field "id" (str id) (field "content_id" (str id) end), refl, refl, refl))

  nothing-TellsOne :
      (w v : World)
      → ((event_data : Fields) (event_id : Text) → Logs (Tells "AddToCart" event_data event_id) w v)
      → TellsOne id w v
  nothing-TellsOne w v h = (sample, [], sample-NamesOne, h sample [])

  send_event-TellsOne : (w : World) → TellsOne id w (send_event p "AddToCart" given false w).1
  send_event-TellsOne w =
      let ((event_data, event_id), there, (h, k)) =
        send_event-told (NamesOne id) (Tells "AddToCart") p "AddToCart" given sample sample-NamesOne
          (complete_event_data-NamesOne p id given one valid) (Tells-IsTold p "AddToCart") false
          w in
      (event_data, event_id, there, h)

  after-TellsOne :
      (w : World) (r : Attempt (Unit {0}) × World)
      → ((event_data : Fields) (event_id : Text)
          → Logs (Tells "AddToCart" event_data event_id) w r.1)
      → TellsOne id w (after r (λ x. send_event p "AddToCart" given false)).1
  after-TellsOne w (returned x, v) h =
      let (event_data, event_id, there, l) = send_event-TellsOne v in
      (
        event_data,
        event_id,
        there,
        Logs-trans (Tells "AddToCart" event_data event_id) w v
            (send_event p "AddToCart" given false v).1 (h event_data event_id) l,
      )
  after-TellsOne w (thrown, v) h = nothing-TellsOne w v h

  when-TellsOne :
      (b : Bool) (m : M (Unit {0}))
      → ((w : World) → TellsOne id w (m w).1)
      → (w : World) → TellsOne id w (when b m w).1
  when-TellsOne true m h w = h w
  when-TellsOne false m h w = nothing-TellsOne w w (λ d i. Logs-refl (Tells "AddToCart" d i) w)

  pub send_add_to_cart-TellsOne :
      (prefix : String) (key : Text) (w : World)
      → TellsOne id w (send_add_to_cart p prefix key given w).1
  unfolding send_add_to_cart once
  send_add_to_cart-TellsOne prefix key w =
      let (new, gate) =
        event_once (codes prefix ++ (key ++ (b':' ∷ current_path_key p.location))) 2 w.now w.gate in
      when-TellsOne new (clear_checkout_markers p >> send_event p "AddToCart" given false)
        (λ u.
          after-TellsOne u (clear_checkout_markers p u)
            (λ d i. ((clear_checkout_markers-Sends (Tells "AddToCart" d i) p).steps u).0))
        (record w { gate = gate })

jquery_payload-IsGiven : (p : Page) (a : Added) → IsGiven (to_text a.pid) (jquery_payload p a)
unfolding jquery_payload get
jquery_payload-IsGiven p a = (
  refl,
  (
    _,
    refl,
    add_attributes-other "id" a.attributes _ refl,
    add_attributes-other "content_id" a.attributes _ refl,
  ),
)

click_payload-IsGiven : (p : Page) (a : Added) → IsGiven (to_text a.pid) (click_payload p a)
unfolding click_payload product_payload product_item get
click_payload-IsGiven p a = (
  refl,
  (
    _,
    refl,
    add_attributes-other "id" a.attributes _ refl,
    add_attributes-other "content_id" a.attributes _ refl,
  ),
)

intent_payload-IsGiven : (p : Page) (d : ProductData) → IsGiven d.id (intent_payload p d)
unfolding intent_payload product_payload_from_data product_payload product_item get
intent_payload-IsGiven p d = (
  get-put "trigger_reason" "content_ids" _ _,
  (_, get-put "trigger_reason" "contents" _ _, refl, refl),
)

-- WooCommerce's `added_to_cart`, a click on a button and a call to action, each with an identifier that
-- `isValidContentId` accepts once it is trimmed: all that each of them sends, to the server and to the
-- pixels, tells of one AddToCart. Its `content_ids` hold that identifier, trimmed, and no other; its
-- `contents` hold one item, whose `id` and `content_id` are that identifier as it was given, with the
-- blanks around it.
pub add_to_cart-TellsOne :
    (p : Page) (a : Added) (d : ProductData) (w : World)
    → is_valid_content_id (str (trim (to_text a.pid))) ≡ true
    → is_valid_content_id (str (trim d.id)) ≡ true
    → TellsOne (to_text a.pid) w (send_added p a w).1
      × TellsOne (to_text a.pid) w (send_clicked p (some a) w).1
      × TellsOne d.id w (send_intent p (some d) w).1
add_to_cart-TellsOne p a d w valid valid_data =
    let id = to_text a.pid in
    let told = jquery_payload-IsGiven p a in
    let clicked = click_payload-IsGiven p a in
    let intended = intent_payload-IsGiven p d in
    (
      when-TellsOne p id (jquery_payload p a) told valid (not (is_rejected_pid a.pid))
          (send_add_to_cart p "AddToCart:" id (jquery_payload p a))
          (send_add_to_cart-TellsOne p id (jquery_payload p a) told valid "AddToCart:" id) w,
      when-TellsOne p id (click_payload p a) clicked valid (truthy a.pid)
          (send_add_to_cart p "AddToCart:" id (click_payload p a))
          (send_add_to_cart-TellsOne p id (click_payload p a) clicked valid "AddToCart:" id) w,
      send_add_to_cart-TellsOne p d.id (intent_payload p d) intended valid_data "AddToCartIntent:"
          d.id w,
    )
