-- ===== src/World.antt =====
-- What tracker.js reads and changes while a page lives, and the monad that its functions run in: an
-- exception leaves the changes that were made before it.
pub mod Body
pub mod Steps
pub mod Effects
use full_project.Prelude.{
  ℕ, suc, ◌+◌, ◌*◌, ◌/◌, Bool, true, false, ◌||◌, Option, List, ◌∷◌, String, is_nil,
}
use full_project.Js.Attempt.{Attempt, returned, thrown}
use full_project.Js.Text.{Text}
use full_project.Js.Value.{Fields}
use full_project.Page.{Page}
use full_project.Once.{Gate, event_once}
use full_project.Cookie.{Jar, Days, get_cookie, set_cookie_local}
use full_project.Cookie.Domain.{cookie_domain}

-- What the document answers; an element is a number. A missing attribute is `none`.
pub record Dom : Type 0 where
  pub query : String → Option ℕ
  pub query_all : String → List ℕ
  pub query_in : ℕ → String → Option ℕ
  pub query_all_in : ℕ → String → List ℕ
  pub matches : ℕ → String → Bool
  pub closest : ℕ → String → Option ℕ
  pub attribute : ℕ → String → Option Text
  pub has_class : ℕ → String → Bool
  pub value : ℕ → Text
  pub name : ℕ → Text
  pub input_type : ℕ → Text
  pub tag_name : ℕ → Text
  pub element_id : ℕ → Text
  pub text_content : ℕ → Text

-- A request to the shop's server; an empty `nonce` is no `X-WP-Nonce` header.
pub record Request : Type 0 where
  pub url : Text
  pub nonce : Text
  pub body : Fields

-- A synchronous XMLHttpRequest, `fetch` of JSON, `sendBeacon` of a form, `fetch` of a form.
pub data Transport : Type 0 where
  xhr fetch beacon form_post : Transport

-- Calls that leave the page: the pixels' and the requests.
pub data Effect : Type 0 where
  fb_init : Text → Fields → Effect
  tt_load : Text → Effect
  tt_identify : Fields → Effect
  fb_track : String → Fields → Text → Effect
  tt_track : String → Fields → Text → Effect
  request : Transport → Request → Effect

-- What the handlers of a `fetch` keep of `sendEvent`, until it settles.
pub record Pending : Type 0 where
  pub event_name : String
  pub event_data : Fields
  pub event_id : Text

-- `log` has the newest effect first, `pending` the newest `fetch` that has not settled. `drawn` counts the calls of `Math.random` and of
-- `getRandomValues`.
pub record World : Type 0 where
  pub now : ℕ
  pub jar : Jar
  pub gate : Gate
  pub drawn : ℕ
  pub dom : Dom
  pub has_fbq : Bool
  pub has_ttq : Bool
  pub log : List Effect
  pub pending : List Pending
  pub initiate_checkout_sent : Bool
  pub checkout_intent_bound : Bool
  pub payment_fired : Bool
  pub remove_fired_via_jq : Bool
  pub add_to_cart_fired_via_ajax : Bool

-- A function that changes a state of the type `S` and may throw.
abbrev pub Run : Type 0 → Type 0 → Type 0
Run S A = S → Attempt A × S

abbrev pub M : Type 0 → Type 0
M A = World → Attempt A × World

module _ {S : Type 0} where
  abbrev pub pure : {A : Type 0} → A → Run S A
  pure a w = (returned a, w)

  abbrev pub after : {A B : Type 0} → Attempt A × S → (A → Run S B) → Attempt B × S
  after (returned a, w) f = f a w
  after (thrown, w) f = (thrown, w)

  infixl 5 ◌>>=◌ ◌>>◌
  abbrev pub ◌>>=◌ : {A B : Type 0} → Run S A → (A → Run S B) → Run S B
  ◌>>=◌ m f w = after (m w) f

  abbrev pub ◌>>◌ : {A B : Type 0} → Run S A → Run S B → Run S B
  ◌>>◌ m k w = after (m w) (λ _. k)

  abbrev pub when : Bool → Run S (Unit {0}) → Run S (Unit {0})
  when true m = m
  when false m = pure tt

  -- An exception.
  abbrev pub throw : {A : Type 0} → Run S A
  throw w = (thrown, w)

  -- `try { … } catch(e) {}`
  abbrev pub swallow : Run S (Unit {0}) → Run S (Unit {0})
  swallow m w = (returned tt, (m w).1)

  abbrev pub or_else : {A : Type 0} → Attempt A × S → Run S A → Attempt A × S
  or_else (returned a, w) k = (returned a, w)
  or_else (thrown, w) k = k w

  -- The second, if the first throws.
  abbrev pub recover : {A : Type 0} → Run S A → Run S A → Run S A
  recover m k w = or_else (m w) k

unfoldable pub emit : Effect → M (Unit {0})
emit e w = (returned tt, record w { log = e ∷ w.log })

-- A `fetch` of JSON, which settles later.
unfoldable pub start_fetch : Request → Pending → M (Unit {0})
start_fetch r x w =
    (returned tt, record w { log = request fetch r ∷ w.log; pending = x ∷ w.pending })

-- The document's answers at this time.
abbrev pub ask : {A : Type 0} → (Dom → A) → M A
ask f w = (returned (f w.dom), w)

module _ (p : Page) where
  -- `getCookie(name)`
  unfoldable pub read_cookie : Text → M Text
  read_cookie name w = (get_cookie name w.now w.jar, w)

  abbrev pub keep_jar : World → Attempt Jar → Attempt (Unit {0}) × World
  keep_jar w (returned jar) = (returned tt, record w { jar = jar })
  keep_jar w thrown = (thrown, w)

  -- `setCookieLocal(name, value, days)`
  unfoldable pub write_cookie : Text → Text → Days → M (Unit {0})
  write_cookie name value days w =
      let domain = cookie_domain p.location.hostname in
      let accepted = is_nil domain || p.accepts_domain domain in
      keep_jar w (set_cookie_local domain accepted name value days w.now w.jar)

  -- `Math.floor(Math.random() * span + base)`, computed without rounding.
  unfoldable pub random_from : ℕ → ℕ → M ℕ
  random_from span base w = (
    returned (p.draw w.drawn * span / 9_007_199_254_740_992 + base),
    record w { drawn = suc w.drawn },
  )

  -- `eventOnce(key, ttlSeconds)`
  unfoldable pub once : Text → ℕ → M Bool
  once key ttl_seconds w =
      let (sent, gate) = event_once key ttl_seconds w.now w.gate in
      (returned sent, record w { gate = gate })
