-- ===== src/Send/Measure.antt =====
-- How many requests of one event there are, and how many more may come of the calls of `fetch` that
-- have not settled.
use text.Mathlib.Text.{◌==◌ as str_eq}
use full_project.Prelude.{
  String, ℕ, suc, ◌+◌, ◌≤◌, ◌≡◌, refl, sym, ◌∙◌, ap, Bool, true, false, not, ◌&&◌, List, [], ◌∷◌,
  ◌++◌, All, if◌then◌else◌, arith,
}
use full_project.World.{
  Effect, fb_init, tt_load, tt_identify, fb_track, tt_track, request, Request, Transport, xhr,
  fetch, beacon, form_post, Pending, World,
}
use full_project.World.Effects.{Answers, Logs}
use full_project.Js.Text.{codes}
use full_project.Js.Value.{str, obj, end, field, get}
use full_project.World.Body.{IsBody, is_about, is_about-named}
use full_project.Send.Delivery.{NoRequest}
use full_project.Send.Names.{IsNot}

-- The effect is no request of that event.
abbrev pub IsSilent : String → Effect → Type 0
IsSilent name (request t r) = is_about name r.body ≡ false
IsSilent name e = Unit

pub IsNot-IsSilent : (name : String) (e : Effect) → IsNot name e → IsSilent name e
IsNot-IsSilent name (request t r) h = h
IsNot-IsSilent name (fb_init a b) h = tt
IsNot-IsSilent name (tt_load a) h = tt
IsNot-IsSilent name (tt_identify a) h = tt
IsNot-IsSilent name (fb_track a b c) h = tt
IsNot-IsSilent name (tt_track a b c) h = tt

pub NoRequest-IsSilent : (name : String) (e : Effect) → NoRequest e → IsSilent name e
NoRequest-IsSilent name (request t r) h = absurd h
NoRequest-IsSilent name (fb_init a b) h = tt
NoRequest-IsSilent name (tt_load a) h = tt
NoRequest-IsSilent name (tt_identify a) h = tt
NoRequest-IsSilent name (fb_track a b c) h = tt
NoRequest-IsSilent name (tt_track a b c) h = tt

-- The requests of the event of that name in a log, by the transports of the test.
abbrev pub requests_by : (Transport → Bool) → String → List Effect → ℕ
requests_by test name [] = 0
requests_by test name (request t r ∷ log) =
    let earlier = requests_by test name log in
    if test t && is_about name r.body then suc earlier else earlier
requests_by test name (fb_init a b ∷ log) = requests_by test name log
requests_by test name (tt_load a ∷ log) = requests_by test name log
requests_by test name (tt_identify a ∷ log) = requests_by test name log
requests_by test name (fb_track a b c ∷ log) = requests_by test name log
requests_by test name (tt_track a b c ∷ log) = requests_by test name log

abbrev pub is_any : Transport → Bool
is_any t = true

abbrev pub is_fetch : Transport → Bool
is_fetch xhr = false
is_fetch fetch = true
is_fetch beacon = false
is_fetch form_post = false

abbrev pub is_other : Transport → Bool
is_other t = not (is_fetch t)

abbrev pub weight : String → Pending → ℕ
weight name x = if str_eq x.event_name name then 1 else 0

abbrev pub pending_of : String → List Pending → ℕ
pending_of name [] = 0
pending_of name (x ∷ xs) = weight name x + pending_of name xs

abbrev pub requests_of : String → World → ℕ
requests_of name w = requests_by is_any name w.log

abbrev pub fetches_of : String → World → ℕ
fetches_of name w = requests_by is_fetch name w.log

-- The requests that are no `fetch`, and those that the pending calls of `fetch` may still lead to.
abbrev pub forms_of : String → World → ℕ
forms_of name w = requests_by is_other name w.log + pending_of name w.pending

-- A request of a pending event.
abbrev pub sample : Pending → Request
sample x = record {
  url = [];
  nonce = [];
  body =
      field "event_name" (str (codes x.event_name))
        (field "event_data" (obj x.event_data) (field "event_id" (str x.event_id) end));
}

pub sample-IsBody : (x : Pending) → IsBody x.event_name x.event_data x.event_id (sample x).body
unfolding get
sample-IsBody x = (refl, refl, refl)

module _ (name : String) where
  requests_by-silent :
      (test : Transport → Bool) (new log : List Effect)
      → All (IsSilent name) new
      → requests_by test name (new ++ log) ≡ requests_by test name log
  requests_by-silent test [] log h = refl
  requests_by-silent test (request t r ∷ new) log (h, hs) =
      none_more (test t) _ h (requests_by-silent test new log hs)
    where
      none_more : (b c : Bool) {m n : ℕ} → c ≡ false → m ≡ n → (if b && c then suc m else m) ≡ n
      none_more b true e k = cc
      none_more true false e k = k
      none_more false false e k = k
  requests_by-silent test (fb_init a b ∷ new) log (h, hs) = requests_by-silent test new log hs
  requests_by-silent test (tt_load a ∷ new) log (h, hs) = requests_by-silent test new log hs
  requests_by-silent test (tt_identify a ∷ new) log (h, hs) = requests_by-silent test new log hs
  requests_by-silent test (fb_track a b c ∷ new) log (h, hs) = requests_by-silent test new log hs
  requests_by-silent test (tt_track a b c ∷ new) log (h, hs) = requests_by-silent test new log hs

  pending_of-silent :
      (more xs : List Pending)
      → All (Answers (IsSilent name)) more
      → pending_of name (more ++ xs) ≡ pending_of name xs
  pending_of-silent [] xs h = refl
  pending_of-silent (x ∷ more) xs (h, hs) =
      let silent = h fetch (sample x) (sample-IsBody x) in
      let other =
        sym (is_about-named x.event_name name (sample x).body (sample-IsBody x).0) ∙ silent in
      let later = pending_of-silent more xs hs in rw other (omega arith)

  pub requests_by-quiet :
      (test : Transport → Bool) (w v : World)
      → Logs (IsSilent name) w v
      → requests_by test name v.log ≡ requests_by test name w.log
  requests_by-quiet test w v ((new, e, h), k) =
      ap (requests_by test name) e ∙ requests_by-silent test new w.log h

  forms_of-quiet : (w v : World) → Logs (IsSilent name) w v → forms_of name v ≡ forms_of name w
  forms_of-quiet w v (h, (more, e, k)) =
      let a = requests_by-quiet is_other w v (h, (more, e, k)) in
      let b = ap (pending_of name) e ∙ pending_of-silent more w.pending k in omega arith

  -- A number of a world that requests of the event alone change, by one at most.
  pub record IsMeasure (measure : World → ℕ) : Type 0 where
    pub silent_lem : (w v : World) → Logs (IsSilent name) w v → measure v ≡ measure w
    pub sent_lem :
        (t : Transport) (r : Request) (w : World)
        → measure (record w { log = request t r ∷ w.log }) ≤ suc (measure w)
    pub fetched_lem :
        (r : Request) (x : Pending) (w : World)
        → measure (record w { log = request fetch r ∷ w.log; pending = x ∷ w.pending })
          ≤ suc (measure w)

  one_more : (b : Bool) (n : ℕ) → (if b then suc n else n) ≤ suc n
  one_more true n = omega arith
  one_more false n = omega arith

  requests_by-IsMeasure : (test : Transport → Bool) → IsMeasure (λ w. requests_by test name w.log)
  requests_by-IsMeasure test = record {
    silent_lem = requests_by-quiet test;
    sent_lem = λ t r w. one_more (test t && is_about name r.body) _;
    fetched_lem = λ r x w. one_more (test fetch && is_about name r.body) _;
  }

  pub requests_of-IsMeasure : IsMeasure (requests_of name)
  requests_of-IsMeasure = requests_by-IsMeasure is_any

  pub fetches_of-IsMeasure : IsMeasure (fetches_of name)
  fetches_of-IsMeasure = requests_by-IsMeasure is_fetch

  pub forms_of-IsMeasure : IsMeasure (forms_of name)
  forms_of-IsMeasure = record {
    silent_lem = forms_of-quiet;
    sent_lem = λ t r w.
        let h = one_more (is_other t && is_about name r.body) (requests_by is_other name w.log) in
        omega arith;
    fetched_lem = λ r x w. at_most_one (str_eq x.event_name name) _ _;
  }
    where
      at_most_one : (b : Bool) (m n : ℕ) → m + ((if b then 1 else 0) + n) ≤ suc (m + n)
      at_most_one true m n = omega arith
      at_most_one false m n = omega arith
