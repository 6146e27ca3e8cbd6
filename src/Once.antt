-- ===== src/Once.antt =====
-- wordpress-plugin/buykori-adsync/assets/js/tracker.js: `eventOnce`, which lets an event through at
-- most once in a while, by `sessionStorage` or, where that throws, by a memory of its own.
pub mod Laws
use full_project.Prelude.{
  ℕ, suc, ◌+◌, ◌*◌, Bool, true, false, Option, none, some, List, [], ◌∷◌, ◌++◌, ltb, ◌==◌, not,
  ◌&&◌, if◌then◌else◌,
}
use full_project.Js.Attempt.{Attempt, returned, thrown, ◌>>=◌}
use full_project.Js.Text.{Text, codes, or_text, text_eq}
use full_project.Js.Decimal.{ℤ, pos, negsuc, show, parse_int}
use full_project.Js.Dict.{Dict, lookup, insert}

-- `sessionStorage`: reading throws where the browser denies storage, writing also when it is full.
pub record Storage : Type 0 where
  pub items : Dict Text
  pub readable : Bool
  pub writable : Bool

-- The storage and `eventOnce.memory`.
pub record Gate : Type 0 where
  pub storage : Storage
  pub memory : Dict ℕ

get_item : Text → Storage → Attempt (Option Text)
get_item k s = if s.readable then returned (lookup k s.items) else thrown

set_item : Text → Text → Storage → Attempt Storage
set_item k v s =
    if s.readable && s.writable then returned (record s { items = insert k v s.items }) else thrown

abbrev pub storage_key : Text → Text
storage_key key = codes "buykorigw_evt_" ++ key

-- `last && (now - last) < ttl`, where NaN and 0 are falsy.
unfoldable pub is_recent : Option ℤ → ℕ → ℕ → Bool
is_recent none now ttl = false
is_recent (some (pos last)) now ttl = not (last == 0) && ltb now (last + ttl)
is_recent (some (negsuc before)) now ttl = ltb (now + suc before) ttl

-- `ttlSeconds || 1800`, in milliseconds.
unfoldable pub ttl_ms : ℕ → ℕ
ttl_ms ttl_seconds = (if ttl_seconds == 0 then 1800 else ttl_seconds) * 1000

abbrev text_or : Option Text → Text → Text
text_or none d = d
text_or (some s) d = or_text s d

-- `return false`, or the write that ends the `try` block.
store_unless : Bool → Text → ℕ → Storage → Attempt (Option Storage)
unfolding set_item
store_unless true key now s = returned none
store_unless false key now s = set_item key (show now) s >>= λ s'. returned (some s')

-- The `try` block: `none` is its early return.
try_storage : Text → ℕ → ℕ → Storage → Attempt (Option Storage)
unfolding get_item is_recent store_unless
try_storage key ttl now s = do
  last ← get_item key s
  store_unless (is_recent (parse_int (text_or last (codes "0"))) now ttl) key now s

abbrev is_remembered : Option ℕ → Bool
is_remembered none = false
is_remembered (some at) = not (at == 0)

-- `eventOnce(key, ttlSeconds)` at the time `now`.
unfoldable pub event_once : Text → ℕ → ℕ → Gate → Bool × Gate
unfolding try_storage ttl_ms
event_once key ttl_seconds now g =
    elim (try_storage (storage_key key) (ttl_ms ttl_seconds) now g.storage) [
      | returned none ↦ (false, g)
      | returned (some s) ↦ (true, record g { storage = s })
      | thrown ↦
          if is_remembered (lookup (storage_key key) g.memory)
          then (false, g)
          else (true, record g { memory = insert (storage_key key) now g.memory })
    ]

pub record Call : Type 0 where
  pub key : Text
  pub ttl_seconds : ℕ
  pub now : ℕ

-- A sequence of calls: how many of those for `key` are let through, and what is left.
unfoldable pub run : Text → List Call → Gate → ℕ × Gate
run key [] g = (0, g)
run key (c ∷ cs) g =
    let (sent, g') = event_once c.key c.ttl_seconds c.now g in
    let (more, g'') = run key cs g' in (if text_eq c.key key && sent then suc more else more, g'')
