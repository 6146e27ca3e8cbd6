-- ===== src/World/Body.antt =====
-- The bodies of the requests: which event they are about.
use Prim.Native.Char.{code}
use text.Mathlib.Text.{◌==◌ as str_eq}
use text.Mathlib.TextEquality.{eq_iff, Char-path}
use full_project.Prelude.{
  String, ◌≡◌, refl, ◌∙◌, ap, Bool, true, false, ◌==◌, arith, Bool-cases, inl, inr,
}
use full_project.Js.Text.{Text, codes, text_eq, text_eq_refl}
use full_project.Js.Text.Split.{both}
use full_project.Js.Value.{Value, str, obj, Fields, get}

-- The body is that of the event, with its data and its identifier.
abbrev pub IsBody : String → Fields → Text → Fields → Type 0
IsBody name event_data event_id body =
    (get "event_name" body ≡ str (codes name))
    × (get "event_data" body ≡ obj event_data)
    × (get "event_id" body ≡ str event_id)

abbrev names_event : String → Value → Bool
names_event name (str s) = text_eq s (codes name)
names_event name v = false

-- The body names the event of that name.
abbrev pub is_about : String → Fields → Bool
is_about name body = names_event name (get "event_name" body)

codes-eq : (s t : String) → text_eq (codes s) (codes t) ≡ true → s ≡ t
unfolding text_eq
codes-eq String.[] String.[] h = refl
codes-eq String.[] (String.◌∷◌ d t) h = cc
codes-eq (String.◌∷◌ c s) String.[] h = cc
codes-eq (String.◌∷◌ c s) (String.◌∷◌ d t) h =
    let (first, rest) = both (code c == code d) (text_eq (codes s) (codes t)) h in
    let same : code c ≡ code d = ground arith in
    rw (Char-path c d same) (ap (λ u. String.◌∷◌ d u) (codes-eq s t rest))

text_eq-codes : (s t : String) → text_eq (codes s) (codes t) ≡ str_eq s t
text_eq-codes s t = elim (Bool-cases (str_eq s t)) [
  | inl same ↦ rw same (rw ((eq_iff s t).0 same) (text_eq_refl (codes t)))
  | inr other ↦ elim (Bool-cases (text_eq (codes s) (codes t))) [
    | inl equal ↦ let same = (eq_iff s t).1 (codes-eq s t equal) in cc
    | inr unequal ↦ rw (other, unequal) refl
  ]
]

-- A body with the name of an event is about the events of that name and no other.
pub is_about-named :
    (name special : String) (body : Fields)
    → get "event_name" body ≡ str (codes name)
    → is_about special body ≡ str_eq name special
is_about-named name special body h = ap (names_event special) h ∙ text_eq-codes name special
