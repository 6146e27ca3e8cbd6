-- ===== src/Browser/PutOff.antt =====
-- The timers that the script puts off: the one of the checkout's observer, the one of the product's and
-- one for each card.
use full_project.Prelude.{
  ℕ, ◌≤◌, ◌≡◌, ◌==◌, refl, sym, Bool, Bool-cases, inl, inr, true, false, Option, some, List, [],
  ◌∷◌, All, if◌then◌else◌, suc, arith,
}
use full_project.Page.{Page}
use full_project.World.{World}
use full_project.Browser.{
  Task, send_view, view_seen, card_seen, surface_check, start_checkout, surface_changed,
  remove_check, Timer,
}
use full_project.Browser.Views.{timer_of}
use full_project.Browser.Timers.{AreDistinct, IsLatest, AreLatest, IsWell}
use full_project.Browser.Script.{Happening, live}
use full_project.Browser.Kept.Run.{live-Inside}

-- How many timers have such a task.
abbrev pub count : (Task → Bool) → List Timer → ℕ
count test [] = 0
count test (timer ∷ timers) =
    let rest = count test timers in if test timer.task then suc rest else rest

abbrev pub is_surface : Task → Bool
is_surface surface_changed = true
is_surface task = false

abbrev pub is_view : Task → Bool
is_view view_seen = true
is_view task = false

abbrev pub is_card : ℕ → Task → Bool
is_card el (card_seen other found) = other == el
is_card el task = false

module _ (test : Task → Bool) (kept : Option ℕ) where
  abbrev AreKept : List Timer → Type 0
  AreKept timers = All (λ timer. test timer.task ≡ true → kept ≡ some timer.id) timers

  none_left :
      (id : ℕ) (ts : List Timer)
      → kept ≡ some id
      → All (λ other. (other.id == id) ≡ false) ts
      → AreKept ts
      → count test ts ≡ 0
  none_left id [] e others h = refl
  none_left id (t ∷ ts) e (other, others) (h, hs) = elim (Bool-cases (test t.task)) [
    | inl has ↦ let also = h has in absurd (ground arith)
    | inr not ↦ rw not (none_left id ts e others hs)
  ]

  at_most_one : (ts : List Timer) → AreDistinct ts → AreKept ts → count test ts ≤ 1
  at_most_one [] d h = omega arith
  at_most_one (t ∷ ts) (other, d) (h, hs) = elim (Bool-cases (test t.task)) [
    | inl has ↦ rw has (let rest = none_left t.id ts (h has) other hs in omega arith)
    | inr not ↦ rw not (at_most_one ts d hs)
  ]

module _ (view checkout : Option ℕ) (cards : List (ℕ × ℕ)) where
  surface_kept :
      (id : ℕ) (task : Task)
      → IsLatest view checkout cards id task
      → is_surface task ≡ true
      → checkout ≡ some id
  surface_kept id surface_changed h e = h
  surface_kept id send_view h e = cc
  surface_kept id view_seen h e = cc
  surface_kept id (card_seen el found) h e = cc
  surface_kept id (surface_check reason) h e = cc
  surface_kept id start_checkout h e = cc
  surface_kept id (remove_check button) h e = cc

  view_kept :
      (id : ℕ) (task : Task)
      → IsLatest view checkout cards id task
      → is_view task ≡ true
      → view ≡ some id
  view_kept id view_seen h e = h
  view_kept id send_view h e = cc
  view_kept id surface_changed h e = cc
  view_kept id (card_seen el found) h e = cc
  view_kept id (surface_check reason) h e = cc
  view_kept id start_checkout h e = cc
  view_kept id (remove_check button) h e = cc

  card_kept :
      (el id : ℕ) (task : Task)
      → IsLatest view checkout cards id task
      → is_card el task ≡ true
      → timer_of el cards ≡ some id
  card_kept el id (card_seen other found) h e =
      let same : other ≡ el = ground arith in rw (sym same) h
  card_kept el id view_seen h e = cc
  card_kept el id send_view h e = cc
  card_kept el id surface_changed h e = cc
  card_kept el id (surface_check reason) h e = cc
  card_kept el id start_checkout h e = cc
  card_kept el id (remove_check button) h e = cc

  kept_of :
      (test : Task → Bool) (kept : Option ℕ) (ts : List Timer)
      → ((id : ℕ) (task : Task)
          → IsLatest view checkout cards id task
          → test task ≡ true
          → kept ≡ some id)
      → AreLatest view checkout cards ts
      → AreKept test kept ts
  kept_of test kept [] f h = tt
  kept_of test kept (t ∷ ts) f (h, hs) = (f t.id t.task h, kept_of test kept ts f hs)

live-IsWell : (p : Page) (hs : List Happening) (w : World) → IsWell (live p hs w)
live-IsWell p hs w =
    (live-Inside p Any
        (record {
          calm = record {
            order = record { refl_lem = λ w. tt; trans_lem = λ u v w h g. tt };
            quiet = λ w v h. tt;
            event = λ name given synchronous o. record { steps = λ w. tt };
          };
          checkout = λ reason synchronous. record { steps = λ w. tt };
          payment = λ method. record { steps = λ w. tt };
          settled = λ n outcome. record { steps = λ w. tt };
        })
        hs w).1
      (tt, tt, tt)
  where
    Any : World → World → Type 0
    Any w v = Unit

-- At every time of a page's life, after any sequence of happenings, at most one timer of the checkout's
-- observer is waiting, at most one of the product's observer and, for each card, at most one of that
-- card.
pub live-timers :
    (p : Page) (hs : List Happening) (w : World) (el : ℕ)
    → let timers = (live p hs w).timers in
      (count is_surface timers ≤ 1) × (count is_view timers ≤ 1) × (count (is_card el) timers ≤ 1)
live-timers p hs w el =
    let t = live p hs w in
    let (b, d, l) = live-IsWell p hs w in
    let view = t.view_timer in
    let checkout = t.checkout_timer in
    let cards = t.card_timers in
    (
      at_most_one is_surface checkout t.timers d (
          kept_of view checkout cards is_surface checkout t.timers
            (surface_kept view checkout cards) l),
      at_most_one is_view view t.timers d
          (kept_of view checkout cards is_view view t.timers (view_kept view checkout cards) l),
      at_most_one (is_card el) (timer_of el cards) t.timers d (
          kept_of view checkout cards (is_card el) (timer_of el cards) t.timers
            (card_kept view checkout cards el) l),
    )
