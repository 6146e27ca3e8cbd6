-- ===== src/Once/Laws.antt =====
-- What `eventOnce` promises over any sequence of calls.
use native.Mathlib.Decide.{dec_le}
use full_project.Prelude.{
  ℕ, ◌+◌, ◌≤◌, ◌<◌, ◌≡◌, refl, Bool, true, false, Option, none, some, List, [], ◌∷◌, arith,
  if◌then◌else◌, All, ◌&&◌, ◌↔◌, Bool-cases, inl, inr,
}
use full_project.Js.Text.{Text, codes, text_eq, text_eq_iff, text_eq_refl, or_text}
use full_project.Js.Decimal.{pos, show, parse_int, parse_int-show, starts_digit-show, starts_digit}
use full_project.Js.Dict.{lookup, lookup-insert}
use full_project.Once.{Gate, storage_key, ttl_ms, is_remembered, event_once, Call, run}

abbrev pub Works : Gate → Type 0
Works g = (g.storage.readable ≡ true) × (g.storage.writable ≡ true)

abbrev pub stamp : Text → Gate → Option Text
stamp key g = lookup (storage_key key) g.storage.items

storage_key_eq : (a b : Text) → text_eq (storage_key a) (storage_key b) ≡ text_eq a b
unfolding text_eq
storage_key_eq a b = refl

or_text_of_digits : (s d : Text) → starts_digit s ≡ true → or_text s d ≡ s
unfolding starts_digit
or_text_of_digits [] d h = ground arith
or_text_of_digits (c ∷ s) d h = refl

parse_stamp : (n : ℕ) → parse_int (or_text (show n) (codes "0")) ≡ some (pos n)
parse_stamp n =
    ground (arith, or_text_of_digits (show n) (codes "0") (starts_digit-show n), parse_int-show n)

-- A call that is let through leaves its time under its own key and touches no other key.
stamp-event_once :
    (key : Text) (ttl now : ℕ) (g : Gate) (other : Text)
    → Works g
    → stamp other (event_once key ttl now g).1 ≡ (
        if text_eq key other
        then if (event_once key ttl now g).0 then some (show now) else stamp other g
        else stamp other g)
unfolding event_once
stamp-event_once key ttl now g other w = ground (
  arith,
  storage_key_eq key other,
  lookup-insert (storage_key key) (storage_key other) (show now) g.storage.items,
)

Works-event_once :
    (key : Text) (ttl now : ℕ) (g : Gate) → Works g → Works (event_once key ttl now g).1
unfolding event_once
Works-event_once key ttl now g w = ground arith

-- Within the time span of a stamp the call is refused, and changes nothing.
event_once_blocked :
    (key : Text) (ttl now at : ℕ) (g : Gate)
    → Works g
    → stamp key g ≡ some (show at)
    → 0 < at
    → now < at + ttl_ms ttl
    → event_once key ttl now g ≡ (false, g)
unfolding event_once
event_once_blocked key ttl now at g w h p q = ground (arith, parse_stamp at)

-- Once the span is over, the next call is let through.
event_once_expired :
    (key : Text) (ttl now at : ℕ) (g : Gate)
    → Works g
    → stamp key g ≡ some (show at)
    → at + ttl_ms ttl ≤ now
    → (event_once key ttl now g).0 ≡ true
unfolding event_once
event_once_expired key ttl now at g w h p = ground (arith, parse_stamp at)

-- The calls for `key` have the span `ttl`, and every call comes before the end of the span of `at`.
abbrev pub InSpan : Text → ℕ → ℕ → Call → Type 0
InSpan key ttl at c = (c.now < at + ttl_ms ttl) × (text_eq c.key key ≡ true → c.ttl_seconds ≡ ttl)

step_blocked :
    (key : Text) (ttl at : ℕ) (c : Call) (g : Gate)
    → Works g
    → stamp key g ≡ some (show at)
    → 0 < at
    → InSpan key ttl at c
    → ((text_eq c.key key && (event_once c.key c.ttl_seconds c.now g).0) ≡ false)
      × (stamp key (event_once c.key c.ttl_seconds c.now g).1 ≡ some (show at))
step_blocked key ttl at c g w h p b = elim (Bool-cases (text_eq c.key key)) [
  | inl same ↦
      let blocked : event_once c.key c.ttl_seconds c.now g ≡ (false, g) =
        event_once_blocked c.key c.ttl_seconds c.now at g w (rw ((text_eq_iff c.key key).0 same) h)
          p (rw (b.1 same) b.0) in
      rw (blocked, same) (refl, h)
  | inr other ↦ ground (arith, stamp-event_once c.key c.ttl_seconds c.now g key)
]

run_blocked :
    (key : Text) (ttl at : ℕ) (cs : List Call) (g : Gate)
    → Works g
    → stamp key g ≡ some (show at)
    → 0 < at
    → All (InSpan key ttl at) cs
    → (run key cs g).0 ≡ 0
unfolding run
run_blocked key ttl at [] g w h p a = refl
run_blocked key ttl at (c ∷ cs) g w h p (b, a) =
    let (quiet, kept) = step_blocked key ttl at c g w h p b in
    rw quiet (
      run_blocked key ttl at cs (event_once c.key c.ttl_seconds c.now g).1
        (Works-event_once c.key c.ttl_seconds c.now g w) kept p a)

-- With a storage that works, a call for `key` that is let through at the time `at` is the only one:
-- whatever calls follow, for this key or for others, as long as each comes before the end of the
-- time span, none for `key` is let through.
pub event_once_at_most_once :
    (key : Text) (ttl at : ℕ) (cs : List Call) (g : Gate)
    → Works g
    → 0 < at
    → (event_once key ttl at g).0 ≡ true
    → All (InSpan key ttl at) cs
    → (run key cs (event_once key ttl at g).1).0 ≡ 0
event_once_at_most_once key ttl at cs g w p sent a =
    run_blocked key ttl at cs (event_once key ttl at g).1 (Works-event_once key ttl at g w)
      (ground (arith, stamp-event_once key ttl at g key, text_eq_refl key)) p a

-- After a call that is let through, the next one within the span is not, and changes nothing.
pub event_once_early :
    (key : Text) (ttl at now : ℕ) (g : Gate)
    → Works g
    → 0 < at
    → (event_once key ttl at g).0 ≡ true
    → now < at + ttl_ms ttl
    → event_once key ttl now (event_once key ttl at g).1 ≡ (false, (event_once key ttl at g).1)
event_once_early key ttl at now g w p sent early =
    event_once_blocked key ttl now at (event_once key ttl at g).1 (Works-event_once key ttl at g w)
      (ground (arith, stamp-event_once key ttl at g key, text_eq_refl key)) p early

event_once_first :
    (key : Text) (ttl now : ℕ) (g : Gate)
    → Works g
    → stamp key g ≡ none
    → (event_once key ttl now g).0 ≡ true
unfolding event_once parse_int
event_once_first key ttl now g w fresh = ground arith

-- With a storage that works, the first call for a key is let through. After a call at the time `at`
-- was let through, the next call for the key is let through exactly when the time span is over.
pub event_once_again :
    (key : Text) (ttl at now : ℕ) (g : Gate)
    → Works g
    → 0 < at
    → stamp key g ≡ none
    → ((event_once key ttl at g).0 ≡ true)
      × (((event_once key ttl now (event_once key ttl at g).1).0 ≡ true) ↔ (at + ttl_ms ttl ≤ now))
event_once_again key ttl at now g w p fresh =
    let first = event_once_first key ttl at g w fresh in
    let w' = Works-event_once key ttl at g w in
    let left : stamp key (event_once key ttl at g).1 ≡ some (show at) =
      ground (arith, stamp-event_once key ttl at g key, text_eq_refl key) in
    (
      first,
      (
        λ again. elim (dec_le (at + ttl_ms ttl) now) [
          | yes over ↦ over
          | no early ↦ absurd (
              ground (arith, event_once_blocked key ttl now at (event_once key ttl at g).1 w' left))
        ],
        λ over. event_once_expired key ttl now at _ w' left over,
      ),
    )

abbrev remembers : Text → Gate → Bool
remembers key g = is_remembered (lookup (storage_key key) g.memory)

-- Reading the storage throws, or writing it does.
abbrev pub Fails : Gate → Type 0
Fails g = (g.storage.readable && g.storage.writable) ≡ false

-- A storage that throws lets nothing be written, and the memory keeps what it remembers.
memory_step :
    (key : Text) (c : Call) (g : Gate)
    → Fails g
    → stamp key g ≡ none
    → remembers key g ≡ true
    → let (sent, g') = event_once c.key c.ttl_seconds c.now g in
      ((text_eq c.key key && sent) ≡ false)
      × Fails g'
      × (stamp key g' ≡ none)
      × (remembers key g' ≡ true)
unfolding event_once parse_int
memory_step key c g fails fresh known = ground (
  arith,
  text_eq_iff c.key key,
  storage_key_eq c.key key,
  lookup-insert (storage_key c.key) (storage_key key) c.now g.memory,
)

memory_run :
    (key : Text) (cs : List Call) (g : Gate)
    → Fails g
    → stamp key g ≡ none
    → remembers key g ≡ true
    → (run key cs g).0 ≡ 0
unfolding run
memory_run key [] g fails fresh known = refl
memory_run key (c ∷ cs) g fails fresh known =
    let (quiet, fails', fresh', known') = memory_step key c g fails fresh known in
    rw quiet (memory_run key cs (event_once c.key c.ttl_seconds c.now g).1 fails' fresh' known')

memory_first :
    (key : Text) (ttl at : ℕ) (g : Gate)
    → Fails g
    → stamp key g ≡ none
    → lookup (storage_key key) g.memory ≡ none
    → 0 < at
    → let (sent, g') = event_once key ttl at g in
      (sent ≡ true) × Fails g' × (stamp key g' ≡ none) × (remembers key g' ≡ true)
unfolding event_once parse_int
memory_first key ttl at g fails fresh forgotten p = ground (
  arith,
  storage_key_eq key key,
  text_eq_refl key,
  lookup-insert (storage_key key) (storage_key key) at g.memory,
)

-- Where reading the storage or writing it throws, as where it is denied or full, the first call for a
-- key of which neither the storage nor the memory knows is let through, and no later one is, whatever
-- calls follow, for this key or for others, at whatever times, for the whole life of the page.
pub event_once_memory :
    (key : Text) (ttl at : ℕ) (cs : List Call) (g : Gate)
    → Fails g
    → stamp key g ≡ none
    → lookup (storage_key key) g.memory ≡ none
    → 0 < at
    → ((event_once key ttl at g).0 ≡ true) × ((run key cs (event_once key ttl at g).1).0 ≡ 0)
event_once_memory key ttl at cs g fails fresh forgotten p =
    let (sent, fails', fresh', known) = memory_first key ttl at g fails fresh forgotten p in
    (sent, memory_run key cs (event_once key ttl at g).1 fails' fresh' known)
