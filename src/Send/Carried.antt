-- ===== src/Send/Carried.antt =====
-- What is sent between two worlds while calls of `fetch` settle, whose handlers may send more.
use full_project.Prelude.{
  ℕ, zero, suc, ◌≡◌, refl, true, false, Option, none, some, List, [], ◌∷◌, All, All-append,
}
use full_project.Page.{Page}
use full_project.World.{Effect, Pending, World}
use full_project.World.Effects.{
  Sends, Answers, Grows, Grows-trans, Logs, rest, pure-Sends, recover-Sends,
}
use full_project.Send.Settle.{
  Outcome, answered, failed, settle_fetch, settle_found, settle_pending, pick, keep_first,
}
use full_project.Send.Laws.{send_via_ajax-Answers}
use full_project.Send.Names.{All-mono, Answers-mono}

-- All that has been added to the log has the property, and all that may come of the pending calls of
-- `fetch` has it.
abbrev pub Carried : (Effect → Type 0) → World → World → Type 0
Carried P b w = Grows P b.log w.log × All (Answers P) w.pending

settle_fetch-Sends :
    (P : Effect → Type 0) (p : Page) (outcome : Outcome) (x : Pending)
    → Answers P x
    → Sends P (settle_fetch p outcome x.event_name x.event_data x.event_id)
unfolding settle_fetch
settle_fetch-Sends P p (answered true) x h = pure-Sends P
settle_fetch-Sends P p (answered false) x h =
    let form = send_via_ajax-Answers P p x.event_name x.event_data x.event_id h in
    recover-Sends P form form
settle_fetch-Sends P p failed x h = send_via_ajax-Answers P p x.event_name x.event_data x.event_id h

-- What holds of all holds of the one that is taken out and of those that are left.
abbrev Taken : (Pending → Type 0) → Option (Pending × List Pending) → Type 0
Taken Q none = Unit
Taken Q (some (x, ys)) = Q x × All Q ys

pick-Taken : (Q : Pending → Type 0) (n : ℕ) (xs : List Pending) → All Q xs → Taken Q (pick n xs)
pick-Taken Q n [] h = tt
pick-Taken Q zero (z ∷ xs) (h, hs) = (h, hs)
pick-Taken Q (suc n) (z ∷ xs) (h, hs) = of (pick n xs) (pick-Taken Q n xs hs)
  where
    of : (found : Option (Pending × List Pending)) → Taken Q found → Taken Q (keep_first z found)
    of none g = tt
    of (some (y, zs)) (g, gs) = (g, (h, gs))

module _ (P : Effect → Type 0) where
  Answers-grown :
      (old all : List Pending)
      → All (Answers P) old
      → Grows (Answers P) old all
      → All (Answers P) all
  Answers-grown old all h (more, e, g) = rw e (All-append (Answers P) more old g h)

  pub Carried-trans : (b v w : World) → Carried P b v → Logs P v w → Carried P b w
  Carried-trans b v w (h, g) (k, more) =
      (Grows-trans P b.log v.log w.log h k, Answers-grown v.pending w.pending g more)

  settle_found-Carried :
      (p : Page) (outcome : Outcome) (b w : World) (found : Option (Pending × List Pending))
      → Carried P b w
      → Taken (Answers P) found
      → let v = (settle_found p outcome found w).1 in Carried P b v × (rest v ≡ rest w)
  settle_found-Carried p outcome b w none h t = (h, refl)
  settle_found-Carried p outcome b w (some (x, ys)) (h, g) (t, ts) =
      let u = record w { pending = ys } in
      let v = (settle_fetch p outcome x.event_name x.event_data x.event_id u).1 in
      let (l, same) = (settle_fetch-Sends P p outcome x t).steps u in
      (Carried-trans b u v (h, ts) l, same)

  pub settle_pending-Carried :
      (p : Page) (n : ℕ) (outcome : Outcome) (b w : World)
      → Carried P b w
      → let v = (settle_pending p n outcome w).1 in Carried P b v × (rest v ≡ rest w)
  unfolding settle_pending
  settle_pending-Carried p n outcome b w (h, g) =
      settle_found-Carried p outcome b w (pick n w.pending) (h, g)
        (pick-Taken (Answers P) n w.pending g)

pub Carried-mono :
    {P Q : Effect → Type 0} (b w : World)
    → ((e : Effect) → P e → Q e)
    → Carried P b w
    → Carried Q b w
Carried-mono b w f ((new, e, h), g) = ((new, e, All-mono f new h), Answers-mono f w.pending g)

-- Whatever settles, only the log, the cookies, the draws and the pending calls change.
pub settle_pending-rest :
    (p : Page) (n : ℕ) (outcome : Outcome) (w : World)
    → rest (settle_pending p n outcome w).1 ≡ rest w
settle_pending-rest p n outcome w =
    (settle_pending-Carried (λ e. Unit) p n outcome w w (([], refl, tt), any w.pending)).1
  where
    any : (xs : List Pending) → All (Answers (λ e. Unit)) xs
    any [] = tt
    any (x ∷ xs) = ((λ t r body. tt), any xs)
