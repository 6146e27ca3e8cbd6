-- ===== src/Browser/Timers.antt =====
-- Well-formed timers of a tab: each has an identifier of its own, which has been given out, and those
-- that the script puts off are the last that it has kept.
use full_project.Prelude.{
  ℕ, suc, ◌<◌, ◌==◌, ◌≡◌, refl, Bool, Bool-cases, inl, inr, Option, none, some, true, false, List,
  [], ◌∷◌, ◌++◌, All, All-append, if◌then◌else◌, arith,
}
use full_project.Browser.{
  Task, send_view, view_seen, card_seen, surface_check, start_checkout, surface_changed,
  remove_check, Timer, Tab, without,
}
use full_project.Browser.Views.{timer_of}

abbrev pub AreBelow : ℕ → List Timer → Type 0
AreBelow n timers = All (λ timer. timer.id < n) timers

abbrev pub AreDistinct : List Timer → Type 0
AreDistinct [] = Unit
AreDistinct (timer ∷ timers) =
    All (λ other. (other.id == timer.id) ≡ false) timers × AreDistinct timers

-- The tasks that the script puts off again: a timer for one of them is the timer that the script has
-- kept for it last, the one that it clears when it puts the task off.
abbrev pub IsLatest : Option ℕ → Option ℕ → List (ℕ × ℕ) → ℕ → Task → Type 0
IsLatest view checkout cards id send_view = Unit
IsLatest view checkout cards id view_seen = view ≡ some id
IsLatest view checkout cards id (card_seen el found) = timer_of el cards ≡ some id
IsLatest view checkout cards id (surface_check reason) = Unit
IsLatest view checkout cards id start_checkout = Unit
IsLatest view checkout cards id surface_changed = checkout ≡ some id
IsLatest view checkout cards id (remove_check button) = Unit

abbrev pub AreLatest : Option ℕ → Option ℕ → List (ℕ × ℕ) → List Timer → Type 0
AreLatest view checkout cards timers =
    All (λ timer. IsLatest view checkout cards timer.id timer.task) timers

abbrev pub IsWell : Tab → Type 0
IsWell t =
    AreBelow t.next_id t.timers
    × AreDistinct t.timers
    × AreLatest t.view_timer t.checkout_timer t.card_timers t.timers

-- The task is never put off.
abbrev pub is_plain : Task → Bool
is_plain send_view = true
is_plain view_seen = false
is_plain (card_seen el found) = false
is_plain (surface_check reason) = true
is_plain start_checkout = true
is_plain surface_changed = false
is_plain (remove_check button) = true

plain-IsLatest :
    (view checkout : Option ℕ) (cards : List (ℕ × ℕ)) (id : ℕ) (task : Task)
    → is_plain task ≡ true
    → IsLatest view checkout cards id task
plain-IsLatest view checkout cards id send_view h = tt
plain-IsLatest view checkout cards id view_seen h = cc
plain-IsLatest view checkout cards id (card_seen el found) h = cc
plain-IsLatest view checkout cards id (surface_check reason) h = tt
plain-IsLatest view checkout cards id start_checkout h = tt
plain-IsLatest view checkout cards id surface_changed h = cc
plain-IsLatest view checkout cards id (remove_check button) h = tt

module _ (P : Timer → Type 0) where
  pub All-without : (id : ℕ) (ts : List Timer) → All P ts → All P (without id ts)
  All-without id [] h = tt
  All-without id (t ∷ ts) (h, hs) = split (t.id == id) (All-without id ts hs)
    where
      split :
          (b : Bool)
          → All P (without id ts)
          → All P (if b then without id ts else t ∷ without id ts)
      split true k = k
      split false k = (h, k)

pub AreDistinct-without : (id : ℕ) (ts : List Timer) → AreDistinct ts → AreDistinct (without id ts)
AreDistinct-without id [] h = tt
AreDistinct-without id (t ∷ ts) (h, hs) =
    split (t.id == id) (All-without _ id ts h) (AreDistinct-without id ts hs)
  where
    split :
        (b : Bool)
        → All (λ other. (other.id == t.id) ≡ false) (without id ts)
        → AreDistinct (without id ts)
        → AreDistinct (if b then without id ts else t ∷ without id ts)
    split true h k = k
    split false h k = (h, k)

below_suc :
    (n : ℕ) (timer : Timer) (ts : List Timer)
    → timer.id ≡ n
    → AreBelow n ts
    → AreBelow (suc n) (ts ++ (timer ∷ []))
below_suc n timer [] e h = ((omega arith), tt)
below_suc n timer (t ∷ ts) e (h, hs) = ((omega arith), below_suc n timer ts e hs)

distinct_append :
    (n : ℕ) (timer : Timer) (ts : List Timer)
    → timer.id ≡ n
    → AreBelow n ts
    → AreDistinct ts
    → AreDistinct (ts ++ (timer ∷ []))
distinct_append n timer [] e b h = (tt, tt)
distinct_append n timer (t ∷ ts) e (b, bs) (h, hs) =
    (others ts h, distinct_append n timer ts e bs hs)
  where
    others :
        (us : List Timer)
        → All (λ other. (other.id == t.id) ≡ false) us
        → All (λ other. (other.id == t.id) ≡ false) (us ++ (timer ∷ []))
    others [] k = ((ground arith), tt)
    others (u ∷ us) (k, ks) = (k, others us ks)

-- A new timer takes the next identifier.
pub IsWell-added :
    (delay : ℕ) (task : Task) (t : Tab)
    → is_plain task ≡ true
    → IsWell t
    → IsWell (record t {
      timers = t.timers ++ (record { id = t.next_id; delay = delay; task = task } ∷ []);
      next_id = suc t.next_id;
    })
IsWell-added delay task t plain (b, d, l) =
    let timer : Timer = record { id = t.next_id; delay = delay; task = task } in
    (
      below_suc t.next_id timer t.timers refl b,
      distinct_append t.next_id timer t.timers refl b d,
      All-append _ t.timers (timer ∷ []) l
          (plain-IsLatest t.view_timer t.checkout_timer t.card_timers t.next_id task plain, tt),
    )

pub IsWell-without :
    (id : ℕ) (t : Tab) → IsWell t → IsWell (record t { timers = without id t.timers })
IsWell-without id t (b, d, l) =
    (All-without _ id t.timers b, AreDistinct-without id t.timers d, All-without _ id t.timers l)

-- The timers after `clearTimeout`, and those that it leaves.
abbrev pub cleared : Option ℕ → List Timer → List Timer
cleared none ts = ts
cleared (some id) ts = without id ts

abbrev pub IsOther : Option ℕ → ℕ → Type 0
IsOther none id = Unit
IsOther (some cleared_id) id = (id == cleared_id) ≡ false

module _ (P Q : Timer → Type 0) where
  All-cleared :
      (c : Option ℕ) (ts : List Timer)
      → ((x : Timer) → IsOther c x.id → P x → Q x)
      → All P ts
      → All Q (cleared c ts)
  All-cleared none [] f h = tt
  All-cleared none (x ∷ ts) f (h, hs) = (f x tt h, All-cleared none ts f hs)
  All-cleared (some id) [] f h = tt
  All-cleared (some id) (x ∷ ts) f (h, hs) = elim (Bool-cases (x.id == id)) [
    | inl same ↦ rw same (All-cleared (some id) ts f hs)
    | inr other ↦ rw other (f x other h, All-cleared (some id) ts f hs)
  ]

  -- A timer that is put off: the old one is cleared, and the new one takes the next identifier.
  pub renewed :
      (c : Option ℕ) (n : ℕ) (timer : Timer) (ts : List Timer)
      → timer.id ≡ n
      → ((x : Timer) → IsOther c x.id → P x → Q x)
      → Q timer
      → AreBelow n ts × AreDistinct ts × All P ts
      → AreBelow (suc n) (cleared c ts ++ (timer ∷ []))
        × AreDistinct (cleared c ts ++ (timer ∷ []))
        × All Q (cleared c ts ++ (timer ∷ []))
  renewed c n timer ts e f q (b, d, l) =
      let below = below_cleared c ts b in
      (
        below_suc n timer (cleared c ts) e below,
        distinct_append n timer (cleared c ts) e below (distinct_cleared c ts d),
        All-append Q (cleared c ts) (timer ∷ []) (All-cleared c ts f l) (q, tt),
      )
    where
      below_cleared : (c : Option ℕ) (ts : List Timer) → AreBelow n ts → AreBelow n (cleared c ts)
      below_cleared none ts h = h
      below_cleared (some id) ts h = All-without _ id ts h

      distinct_cleared :
          (c : Option ℕ) (ts : List Timer) → AreDistinct ts → AreDistinct (cleared c ts)
      distinct_cleared none ts h = h
      distinct_cleared (some id) ts h = AreDistinct-without id ts h
