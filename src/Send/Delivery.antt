-- ===== src/Send/Delivery.antt =====
-- `sendEvent` as a whole: which effects it adds, and how many requests.
use full_project.Prelude.{
  ℕ, suc, ◌+◌, ◌≡◌, refl, ◌∙◌, ap, Bool, true, false, List, [], ◌∷◌, ◌++◌, String, All, arith,
  if◌then◌else◌, is_nil, not, ◌&&◌,
}
use full_project.Js.Attempt.{Attempt, returned, thrown}
use full_project.Js.Text.{Text}
use full_project.Js.Value.{Fields}
use full_project.Page.{Page}
use full_project.World.{
  Effect, fb_init, tt_load, tt_identify, fb_track, tt_track, request, Request, Transport, Pending,
  start_fetch, or_else, recover, World, M, ◌>>=◌, ◌>>◌, after, throw, emit,
}
use full_project.World.Effects.{Keeps, Sends, Keeps-IsPreorder, then-Sends, when-Sends, emit-Sends}
use full_project.Send.{
  choose_event_id, complete_event_data, track_pixels, send_via_ajax, post_form, send_asynchronously,
  dispatch_event, send_event, browser_params,
}
use full_project.Send.Laws.{
  Carries, complete_event_data-Sends, choose_event_id-Sends, build_payload-Sends,
  build_ajax_form_data-Sends, dispatch_event-Sends,
}

module _ {I : Type 0} (P : I → Effect → Type 0) (i : I) where
  after-choose :
      {A B : Type 0} (w : World) (r : Attempt A × World) (f : A → M B)
      → ((j : I) → Keeps (P j) w r.1)
      → ((a : A) (v : World) → (j : I) × Keeps (P j) v (f a v).1)
      → (j : I) × Keeps (P j) w (after r f).1
  after-choose w (returned a, v) f h k =
      let (j, g) = k a v in (j, (Keeps-IsPreorder (P j)).trans_lem w v (f a v).1 (h j) g)
  after-choose w (thrown, v) f h k = (i, h i)

-- All that one call of `sendEvent` adds to the log, whether it returns or throws, belongs to the
-- event of that name, and the calls of both pixels and the requests, those of the fallback too,
-- have one and the same identifier; the flag `initiateCheckoutSent` stays.
pub send_event-one_id :
    (p : Page) (name : String) (given : Fields) (synchronous : Bool) (w : World)
    → (event_id : Text) × Keeps (Carries name event_id) w (send_event p name given synchronous w).1
unfolding send_event
send_event-one_id p name given synchronous w =
    after-choose (Carries name) [] w (complete_event_data p given w) _
      (λ id. (complete_event_data-Sends (Carries name id) p given).steps w)
      λ event_data v.
        after-choose (Carries name) [] v (choose_event_id p name v) _
          (λ id. (choose_event_id-Sends (Carries name id) p name).steps v)
          λ event_id u.
            (event_id, (dispatch_event-Sends p name event_data event_id synchronous).steps u)

-- The requests in a log.
abbrev pub requests : List Effect → ℕ
requests [] = 0
requests (request t r ∷ log) = suc (requests log)
requests (fb_init a b ∷ log) = requests log
requests (tt_load a ∷ log) = requests log
requests (tt_identify a ∷ log) = requests log
requests (fb_track a b c ∷ log) = requests log
requests (tt_track a b c ∷ log) = requests log

abbrev pub NoRequest : Effect → Type 0
NoRequest (request t r) = ⊥
NoRequest (fb_init a b) = Unit
NoRequest (tt_load a) = Unit
NoRequest (tt_identify a) = Unit
NoRequest (fb_track a b c) = Unit
NoRequest (tt_track a b c) = Unit

-- One request for a call that returns, none for a call that throws.
abbrev pub sent : {A : Type 0} → Attempt A → ℕ
sent (returned a) = 1
sent thrown = 0

pub record Counts {A : Type 0} (m : M A) : Type 0 where
  pub counts : (w : World) → requests (m w).1.log ≡ sent (m w).0 + requests w.log

requests-append : (new log : List Effect) → All NoRequest new → requests (new ++ log) ≡ requests log
requests-append [] log h = refl
requests-append (request t r ∷ new) log (h, hs) = absurd h
requests-append (fb_init a b ∷ new) log (h, hs) = requests-append new log hs
requests-append (tt_load a ∷ new) log (h, hs) = requests-append new log hs
requests-append (tt_identify a ∷ new) log (h, hs) = requests-append new log hs
requests-append (fb_track a b c ∷ new) log (h, hs) = requests-append new log hs
requests-append (tt_track a b c ∷ new) log (h, hs) = requests-append new log hs

pub requests-quiet : (w v : World) → Keeps NoRequest w v → requests v.log ≡ requests w.log
requests-quiet w v (((new, e, a), g), k) = ap requests e ∙ requests-append new w.log a

none_more : (n : ℕ) → n ≡ 0 + n
none_more n = omega arith

after-Counts :
    {A B : Type 0} (w : World) (r : Attempt A × World) (f : A → M B)
    → Keeps NoRequest w r.1
    → ((a : A) → Counts (f a))
    → requests (after r f).1.log ≡ sent (after r f).0 + requests w.log
after-Counts w (returned a, v) f h k =
    (k a).counts v ∙ ap (λ n. sent (f a v).0 + n) (requests-quiet w v h)
after-Counts w (thrown, v) f h k = requests-quiet w v h ∙ none_more (requests w.log)

pub bind-Counts :
    {A B : Type 0} {m : M A} {f : A → M B}
    → Sends NoRequest m
    → ((a : A) → Counts (f a))
    → Counts (m >>= f)
bind-Counts {m} {f} h k = record { counts = λ w. after-Counts w (m w) f (h.steps w) k }

pub then-Counts :
    {A B : Type 0} {m : M A} {k : M B} → Sends NoRequest m → Counts k → Counts (m >> k)
then-Counts {m} {k} h g = record {
  counts = λ w. after-Counts w (m w) (λ _. k) (h.steps w) (λ _. g);
}

pub emit-Counts : (t : Transport) (r : Request) → Counts (emit (request t r))
unfolding emit
emit-Counts t r = record { counts = λ w. one_more (requests w.log) }
  where
    one_more : (n : ℕ) → suc n ≡ 1 + n
    one_more n = omega arith

start_fetch-Counts : (r : Request) (x : Pending) → Counts (start_fetch r x)
unfolding start_fetch
start_fetch-Counts r x = record { counts = λ w. one_more (requests w.log) }
  where
    one_more : (n : ℕ) → suc n ≡ 1 + n
    one_more n = omega arith

or_else-Counts :
    {A : Type 0} (w : World) (r : Attempt A × World) (k : M A)
    → requests r.1.log ≡ sent r.0 + requests w.log
    → Counts k
    → requests (or_else r k).1.log ≡ sent (or_else r k).0 + requests w.log
or_else-Counts w (returned a, v) k e h = e
or_else-Counts w (thrown, v) k e h = h.counts v ∙ ap (λ n. sent (k v).0 + n) (e ∙ omega arith)

pub recover-Counts : {A : Type 0} {m k : M A} → Counts m → Counts k → Counts (recover m k)
recover-Counts {m} {k} h g = record { counts = λ w. or_else-Counts w (m w) k (h.counts w) g }

throw-Counts : {A : Type 0} → Counts (throw {A = A})
throw-Counts = record { counts = λ w. none_more (requests w.log) }

pub if-Counts :
    {A : Type 0} (b : Bool) {m k : M A} → Counts m → Counts k → Counts (if b then m else k)
if-Counts true h g = h
if-Counts false h g = g

pub track_pixels-NoRequest :
    (p : Page) (name : String) (event_data : Fields) (event_id : Text)
    → Sends NoRequest (track_pixels p name event_data event_id)
unfolding track_pixels
track_pixels-NoRequest p name event_data event_id = record {
  steps = λ w.
      (when-Sends NoRequest _ (
          then-Sends NoRequest
            (when-Sends NoRequest _
              (emit-Sends NoRequest {e = fb_track name (browser_params event_data) event_id} tt))
            (when-Sends NoRequest _ (
              emit-Sends NoRequest {e = tt_track name (browser_params event_data) event_id}
                tt)))).steps
        w;
}

pub send_via_ajax-Counts :
    (p : Page) (name : String) (event_data : Fields) (event_id : Text)
    → Counts (send_via_ajax p name event_data event_id)
unfolding send_via_ajax post_form
send_via_ajax-Counts p name event_data event_id =
    bind-Counts (build_ajax_form_data-Sends NoRequest p name event_data event_id) λ form.
      if-Counts p.has_beacon (emit-Counts _ _)
        (if-Counts p.has_fetch (emit-Counts _ _) throw-Counts)

pub send_asynchronously-Counts :
    (p : Page) (name : String) (event_data : Fields) (event_id : Text) (payload : Fields)
    → Counts (send_asynchronously p name event_data event_id payload)
unfolding send_asynchronously
send_asynchronously-Counts p name event_data event_id payload =
    if-Counts (not (is_nil p.config.rest_url) && p.has_fetch) (start_fetch-Counts _ _)
      (send_via_ajax-Counts p name event_data event_id)

-- A call of `sendEvent` that is not synchronous adds exactly one request to the log when it returns,
-- whatever transport the page offers, and none when it throws.
pub send_event-one_request :
    (p : Page) (name : String) (given : Fields) (w : World)
    → let after_call = send_event p name given false w in
      requests after_call.1.log ≡ sent after_call.0 + requests w.log
unfolding send_event dispatch_event
send_event-one_request p name given w =
    (bind-Counts (complete_event_data-Sends NoRequest p given) λ event_data.
        bind-Counts (choose_event_id-Sends NoRequest p name) λ event_id.
          bind-Counts (build_payload-Sends NoRequest p name event_data event_id) λ payload.
            then-Counts (track_pixels-NoRequest p name event_data event_id)
              (send_asynchronously-Counts p name event_data event_id payload)).counts
      w
