-- ===== src/Send/Agreement.antt =====
-- What the pixels and the shop's server are told of one and the same event.
use text.Mathlib.Text.{◌==◌ as str_eq}
use full_project.Prelude.{String, ◌≡◌, refl, Bool, false, [], if◌then◌else◌, arith}
use full_project.Js.Text.{Text, codes}
use full_project.Js.Number.{parse_float}
use full_project.Js.Value.{
  Value, undefined, num, str, obj, Fields, end, field, is_undefined, to_text, get, put, get-put,
}
use full_project.Page.{Page}
use full_project.Js.Attempt.{Attempt, returned, thrown}
use full_project.World.{Effect, fb_track, tt_track, request, World, M, after}
use full_project.World.Effects.{any-Given, any-Gives, Keeps, Keeps-IsPreorder, Given, Gives}
use full_project.Send.{
  copy_field, browser_params, pending, send_event, complete_event_data, choose_event_id,
}
use full_project.Send.Laws.{
  IsTold, complete_event_data-Sends, choose_event_id-Sends, dispatch_event-told,
}

copied : Value → Value → Value
copied v w = if is_undefined v then w else v

get-copy_field :
    (k j : String) (from r : Fields)
    → get j (copy_field k from r) ≡ (if str_eq k j then copied (get k from) (get j r) else get j r)
unfolding copied
get-copy_field k j from r = of (get k from)
  where
    of :
        (v : Value)
        → get j (if is_undefined v then r else put k v r)
          ≡ (if str_eq k j then copied v (get j r) else get j r)
    of undefined = ground arith
    of v = get-put k j v r

copied-undefined : (v : Value) → copied v undefined ≡ v
unfolding copied
copied-undefined undefined = refl
copied-undefined v = refl

-- The price, read as a number.
abbrev value_told : Value → Value
value_told v = if is_undefined v then undefined else num (parse_float (to_text v))

-- The parameters of the pixels say of the event what its data say.
abbrev pub Agrees : Fields → Fields → Type 0
Agrees event_data params =
    (get "value" params ≡ value_told (get "value" event_data))
    × (get "currency" params ≡ get "currency" event_data)
    × (get "content_name" params ≡ get "content_name" event_data)
    × (get "content_type" params ≡ get "content_type" event_data)
    × (get "content_ids" params ≡ get "content_ids" event_data)
    × (get "contents" params ≡ get "contents" event_data)
    × (get "num_items" params ≡ get "num_items" event_data)

start_told :
    (v : Value)
    → get "value"
        (if is_undefined v then end else field "value" (num (parse_float (to_text v))) end)
      ≡ value_told v
unfolding get
start_told undefined = refl
start_told v = refl

start_other :
    (k : String) (v : Value)
    → str_eq "value" k ≡ false
    → get k (if is_undefined v then end else field "value" (num (parse_float (to_text v))) end)
      ≡ undefined
unfolding get
start_other k undefined e = refl
start_other k v e = rw e refl

browser_params-Agrees : (event_data : Fields) → Agrees event_data (browser_params event_data)
unfolding browser_params
browser_params-Agrees event_data =
    let v = get "value" event_data in
    (
      simp get-copy_field (start_told v),
      simp get-copy_field (rw (start_other "currency" v refl) (copied-undefined _)),
      simp get-copy_field (rw (start_other "content_name" v refl) (copied-undefined _)),
      simp get-copy_field (rw (start_other "content_type" v refl) (copied-undefined _)),
      simp get-copy_field (rw (start_other "content_ids" v refl) (copied-undefined _)),
      simp get-copy_field (rw (start_other "contents" v refl) (copied-undefined _)),
      simp get-copy_field (rw (start_other "num_items" v refl) (copied-undefined _)),
    )

abbrev OfEvent : (Fields → Text → Effect → Type 0) → Fields × Text → Effect → Type 0
OfEvent P (event_data, event_id) = P event_data event_id

module _ {I : Type 0} (T : I → Type 0) (P : I → Effect → Type 0) (i : I) (t : T i) where
  after-known :
      {A B : Type 0} (Q : A → Type 0) (w : World) (r : Attempt A × World) (f : A → M B)
      → ((j : I) → Keeps (P j) w r.1)
      → Given Q r.0
      → ((a : A) → Q a → (v : World) → (j : I) × T j × Keeps (P j) v (f a v).1)
      → (j : I) × T j × Keeps (P j) w (after r f).1
  after-known Q w (returned a, v) f h q k =
      let (j, there, g) = k a q v in
      (j, there, (Keeps-IsPreorder (P j)).trans_lem w v (f a v).1 (h j) g)
  after-known Q w (thrown, v) f h q k = (i, t, h i)

-- What holds of all that is told of an event holds of all that one call of `sendEvent` adds; what the
-- data of the event have, once they are complete, those that are told have.
pub send_event-told :
    (Q : Fields → Type 0) (P : Fields → Text → Effect → Type 0) (p : Page) (name : String)
    (given : Fields) (sample : Fields)
    → Q sample
    → Gives Q (complete_event_data p given)
    → ((event_data : Fields) (event_id : Text)
        → IsTold (P event_data event_id) (pending p name event_data event_id))
    → (synchronous : Bool) (w : World)
    → (x : Fields × Text) × Q x.0 × Keeps (OfEvent P x) w (send_event p name given synchronous w).1
unfolding send_event
send_event-told Q P p name given sample q complete told synchronous w =
    after-known (λ x. Q x.0) (OfEvent P) (sample, []) q Q w (complete_event_data p given w) _
      (λ (d, id). (complete_event_data-Sends (P d id) p given).steps w) (complete.gives w)
      λ event_data there v.
        after-known (λ x. Q x.0) (OfEvent P) (event_data, []) there (λ id. Unit) v
          (choose_event_id p name v) _ (λ (d, id). (choose_event_id-Sends (P d id) p name).steps v)
          (any-Given (choose_event_id p name v).0)
          λ event_id x u. (
            (event_data, event_id),
            there,
            (dispatch_event-told (P event_data event_id) p name event_data event_id
                  (told event_data event_id) synchronous).steps
                u,
          )

-- The effect tells of that event, with those data and that identifier.
abbrev pub Tells : String → Fields → Text → Effect → Type 0
Tells name event_data event_id (fb_track n params id) =
    (n ≡ name) × Agrees event_data params × (id ≡ event_id)
Tells name event_data event_id (tt_track n params id) =
    (n ≡ name) × Agrees event_data params × (id ≡ event_id)
Tells name event_data event_id (request t r) =
    (get "event_name" r.body ≡ str (codes name))
    × (get "event_data" r.body ≡ obj event_data)
    × (get "event_id" r.body ≡ str event_id)
Tells name event_data event_id e = ⊥

pub Tells-IsTold :
    (p : Page) (name : String) (event_data : Fields) (event_id : Text)
    → IsTold (Tells name event_data event_id) (pending p name event_data event_id)
Tells-IsTold p name event_data event_id = record {
  facebook = (refl, browser_params-Agrees event_data, refl);
  tiktok = (refl, browser_params-Agrees event_data, refl);
  answers = λ t r body. body;
}

-- All that one call of `sendEvent` sends, whether it returns or throws and on every transport, and all
-- that the handlers of its `fetch` may still send, tells of one event: the body of each request has
-- the same data, and the parameters of both pixels are of these data, with the price read as a number;
-- all have one identifier.
pub send_event-Tells :
    (p : Page) (name : String) (given : Fields) (synchronous : Bool) (w : World)
    → (event_data : Fields) × (event_id : Text) × Keeps
        (Tells name event_data event_id)
        w
        (send_event p name given synchronous w).1
send_event-Tells p name given synchronous w =
    let ((event_data, event_id), x, h) =
      send_event-told (λ d. Unit) (Tells name) p name given end tt
        (any-Gives (complete_event_data p given)) (Tells-IsTold p name) synchronous w in
    (event_data, event_id, h)
