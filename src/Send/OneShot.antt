-- ===== src/Send/OneShot.antt =====
-- An event that a mark lets through once: while the mark is down it may go out, and then the mark is
-- up for good.
use full_project.Prelude.{
  String, ℕ, suc, ◌≤◌, ◌≡◌, refl, sym, ◌∙◌, Bool, true, false, ◌⊎◌, inl, inr, arith,
}
use full_project.World.{World}
use full_project.World.Steps.{IsPreorder}
use full_project.World.Effects.{Logs}
use full_project.Send.Names.{IsNot, Logs-mono}
use full_project.Send.Measure.{IsMeasure, IsNot-IsSilent}

module _ (measure : World → ℕ) (mark : World → Bool) where
  -- The mark stays and nothing is added to the measure, or the mark goes up and at most one is added.
  abbrev pub OneShot : World → World → Type 0
  OneShot w v =
      ((mark v ≡ mark w) × (measure v ≤ measure w))
      ⊎ ((mark w ≡ false) × (mark v ≡ true) × (measure v ≤ suc (measure w)))

  OneShot-trans : (u v w : World) → OneShot u v → OneShot v w → OneShot u w
  OneShot-trans u v w (inl (a, b)) (inl (c, d)) = inl (c ∙ a, (omega arith))
  OneShot-trans u v w (inl (a, b)) (inr (c, d, e)) = inr (sym a ∙ c, d, (omega arith))
  OneShot-trans u v w (inr (a, b, c)) (inl (d, e)) = inr (a, d ∙ b, (omega arith))
  OneShot-trans u v w (inr (a, b, c)) (inr (d, e, f)) = cc

  pub OneShot-IsPreorder : IsPreorder OneShot
  OneShot-IsPreorder = record {
    refl_lem = λ w. inl (refl, (omega arith));
    trans_lem = OneShot-trans;
  }

  pub OneShot-quiet :
      (name : String)
      → IsMeasure name measure
      → (w v : World) → Logs (IsNot name) w v
      → mark v ≡ mark w
      → OneShot w v
  OneShot-quiet name i w v h k =
      let same = i.silent_lem w v (Logs-mono w v (IsNot-IsSilent name) h) in inl (k, (omega arith))
