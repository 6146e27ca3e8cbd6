-- ===== src/Send/Thrown.antt =====
-- The exceptions of a synchronous call of `sendEvent`.
use full_project.Prelude.{String, ◌≡◌, refl, ◌∙◌, Bool, true, false, [], ◌∷◌, ◌⊎◌, inl, inr}
use full_project.Js.Attempt.{Attempt, returned, thrown}
use full_project.Js.Text.{Text}
use full_project.Js.Value.{Fields}
use full_project.Page.{Page}
use full_project.World.{Effect, World, M, ◌>>=◌, ◌>>◌, after, when, emit}
use full_project.World.Effects.{Keeps, Sends}
use full_project.Send.{track_pixels, send_synchronously, dispatch_event, send_event}
use full_project.Send.Laws.{complete_event_data-Sends, choose_event_id-Sends, build_payload-Sends}

-- No effect at all.
abbrev Nothing : Effect → Type 0
Nothing e = ⊥

-- The function returns, or the log is as it was.
record IsClean (m : M (Unit {0})) : Type 0 where
  clean : (w : World) → ((m w).0 ≡ returned tt) ⊎ ((m w).1.log ≡ w.log)

record Returns (m : M (Unit {0})) : Type 0 where
  returns : (w : World) → (m w).0 ≡ returned tt

log_kept : (w v : World) → Keeps Nothing w v → v.log ≡ w.log
log_kept w v ((([], e, a), g), k) = e
log_kept w v (((x ∷ new, e, (a, rest)), g), k) = absurd a

after-IsClean :
    {A : Type 0} (w : World) (r : Attempt A × World) (f : A → M (Unit {0}))
    → r.1.log ≡ w.log
    → ((a : A) → IsClean (f a))
    → ((after r f).0 ≡ returned tt) ⊎ ((after r f).1.log ≡ w.log)
after-IsClean w (returned a, v) f e h = elim ((h a).clean v) [ inl g ↦ inl g | inr g ↦ inr (g ∙ e) ]
after-IsClean w (thrown, v) f e h = inr e

bind-IsClean :
    {A : Type 0} {m : M A} {f : A → M (Unit {0})}
    → Sends Nothing m
    → ((a : A) → IsClean (f a))
    → IsClean (m >>= f)
bind-IsClean {m} {f} h k = record {
  clean = λ w. after-IsClean w (m w) f (log_kept w (m w).1 (h.steps w)) k;
}

emit-Returns : (e : Effect) → Returns (emit e)
unfolding emit
emit-Returns e = record { returns = λ w. refl }

when-Returns : (b : Bool) {m : M (Unit {0})} → Returns m → Returns (when b m)
when-Returns true h = h
when-Returns false h = record { returns = λ w. refl }

then-Returns : {m k : M (Unit {0})} → Returns m → Returns k → Returns (m >> k)
then-Returns {m} {k} h g = record { returns = λ w. of w (m w) (h.returns w) }
  where
    of :
        (w : World) (r : Attempt (Unit {0}) × World)
        → r.0 ≡ returned tt
        → (after r (λ _. k)).0 ≡ returned tt
    of w (returned x, v) e = g.returns v
    of w (thrown, v) e = cc

track_pixels-Returns :
    (p : Page) (name : String) (event_data : Fields) (event_id : Text)
    → Returns (track_pixels p name event_data event_id)
unfolding track_pixels
track_pixels-Returns p name event_data event_id = record {
  returns = λ w.
      (when-Returns _ (
          then-Returns (when-Returns _ (emit-Returns _)) (when-Returns _ (emit-Returns _)))).returns
        w;
}

send_synchronously-Returns :
    (p : Page) (name : String) (event_data : Fields) (event_id : Text) (payload : Fields)
    → Returns (send_synchronously p name event_data event_id payload)
unfolding send_synchronously
send_synchronously-Returns p name event_data event_id payload = record { returns = λ w. refl }

-- A synchronous call of `sendEvent` either returns, or nothing at all has been sent: no call of a
-- pixel and no request goes out before an exception.
pub send_event-IsClean :
    (p : Page) (name : String) (given : Fields) (w : World)
    → let after_call = send_event p name given true w in
      (after_call.0 ≡ returned tt) ⊎ (after_call.1.log ≡ w.log)
unfolding send_event dispatch_event
send_event-IsClean p name given w =
    (bind-IsClean (complete_event_data-Sends Nothing p given) λ event_data.
        bind-IsClean (choose_event_id-Sends Nothing p name) λ event_id.
          bind-IsClean (build_payload-Sends Nothing p name event_data event_id) λ payload. sent (
            then-Returns (track_pixels-Returns p name event_data event_id)
              (send_synchronously-Returns p name event_data event_id payload))).clean
      w
  where
    sent : {m : M (Unit {0})} → Returns m → IsClean m
    sent h = record { clean = λ w. inl (h.returns w) }
