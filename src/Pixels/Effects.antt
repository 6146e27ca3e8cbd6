-- ===== src/Pixels/Effects.antt =====
-- What leaves the page while the pixels start.
use full_project.Prelude.{
  refl, sym, ◌∙◌, ◌≡◌, Bool, true, false, not, ◌&&◌, is_nil, List, [], ◌∷◌, String,
}
use full_project.Js.Attempt.{Attempt, returned, thrown}
use full_project.Js.Value.{Fields}
use full_project.Page.{Page}
use full_project.World.{World, M, Effect, emit, fb_init, tt_load, tt_identify, after, when, ◌>>◌}
use full_project.World.Steps.{
  IsPreorder, Steps, Steps-mono, pure-Steps, bind-Steps, then-Steps, when-Steps,
}
use full_project.World.Effects.{
  Logs-refl, Adds, Sends, Adds-IsPreorder, Keeps-Adds, bind-Sends, pure-Sends, emit-Sends,
  read_cookie-Sends,
}
use full_project.Pixels.{
  UserData, has_fields, read_fields, read_user_data, start_fb, start_tt, set_fbq, set_ttq,
  initialize_hybrid_pixels,
}
use full_project.Send.Names.{IsStart}

-- What the calls that start the pixels have, with the data of the customer: each is made only where its
-- pixel is configured and is not there yet, and TikTok's is told of the customer only if there are data.
pub record IsInit (p : Page) (P : Effect → Type 0) (d : UserData) (w : World) : Type 0 where
  pub init :
      (not (is_nil p.config.fb_pixel_id) && not w.has_fbq) ≡ true
      → P (fb_init p.config.fb_pixel_id d.fb)
  pub load :
      (not (is_nil p.config.tt_pixel_id) && not w.has_ttq) ≡ true → P (tt_load p.config.tt_pixel_id)
  pub identify :
      (not (is_nil p.config.tt_pixel_id) && not w.has_ttq) ≡ true
      → has_fields d.tt ≡ true
      → P (tt_identify d.tt)

-- Facebook's pixel leaves TikTok's as it is.
abbrev SameTtq : World → World → Type 0
SameTtq w v = v.has_ttq ≡ w.has_ttq

SameTtq-IsPreorder : IsPreorder SameTtq
SameTtq-IsPreorder = record { refl_lem = λ w. refl; trans_lem = λ u v w h g. g ∙ h }

start_fb-SameTtq : (p : Page) (found : Fields) → Steps SameTtq (start_fb p found)
unfolding start_fb set_fbq emit
start_fb-SameTtq p found = record {
  steps = λ w.
      (when-Steps SameTtq-IsPreorder (not (is_nil p.config.fb_pixel_id) && not w.has_fbq) (
          then-Steps SameTtq-IsPreorder {m = set_fbq p}
            {k = emit (fb_init p.config.fb_pixel_id found)} (record { steps = λ v. refl })
            (record { steps = λ v. refl }))).steps
        w;
}

module _ (p : Page) (P : Effect → Type 0) where
  read_fields-Sends :
      (fields : List (String × String)) (d : UserData) → Sends P (read_fields p fields d)
  unfolding read_fields
  read_fields-Sends [] d = pure-Sends P
  read_fields-Sends ((key, cookie) ∷ rest) d =
      bind-Sends P (read_cookie-Sends P p _) λ value. read_fields-Sends rest _

  pub read_user_data-Sends : Sends P (read_user_data p)
  unfolding read_user_data
  read_user_data-Sends =
      bind-Sends P (read_fields-Sends _ _)
        λ d. bind-Sends P (read_cookie-Sends P p _) λ external_id. pure-Sends P

  pub order : IsPreorder (Adds P)
  order = Adds-IsPreorder P

  set_fbq-Steps : Steps (Adds P) (set_fbq p)
  unfolding set_fbq
  set_fbq-Steps = record { steps = λ w. (Logs-refl P w, refl, refl) }

  set_ttq-Steps : Steps (Adds P) (set_ttq p)
  unfolding set_ttq
  set_ttq-Steps = record { steps = λ w. (Logs-refl P w, refl, refl) }

  emit-Steps : {e : Effect} → P e → Steps (Adds P) (emit e)
  emit-Steps h = Steps-mono (Keeps-Adds P) (emit-Sends P h)

  when-Adds :
      (b : Bool) {m : M (Unit {0})} → (b ≡ true → Steps (Adds P) m) → Steps (Adds P) (when b m)
  when-Adds true h = h refl
  when-Adds false h = when-Steps order false (pure-Steps order)

  after-Adds :
      {A B : Type 0} (w : World) (r : Attempt A × World) (f : A → M B)
      → Adds P w r.1
      → ((a : A) → Adds P r.1 (f a r.1).1)
      → Adds P w (after r f).1
  after-Adds w (returned a, v) f h g = order.trans_lem w v (f a v).1 h (g a)
  after-Adds w (thrown, v) f h g = h

  module _ (d : UserData) (w : World) (i : IsInit p P d w) where
    start_fb-Adds : Adds P w (start_fb p d.fb w).1
    unfolding start_fb
    start_fb-Adds =
        (when-Adds (not (is_nil p.config.fb_pixel_id) && not w.has_fbq)
            (λ h. then-Steps order set_fbq-Steps (emit-Steps (i.init h)))).steps
          w

    start_tt-Adds : (v : World) → v.has_ttq ≡ w.has_ttq → Adds P v (start_tt p d.tt v).1
    unfolding start_tt
    start_tt-Adds v same =
        (when-Adds (not (is_nil p.config.tt_pixel_id) && not v.has_ttq) (λ h.
            let here : (not (is_nil p.config.tt_pixel_id) && not w.has_ttq) ≡ true =
              rw (sym same) h in
            then-Steps order (then-Steps order set_ttq-Steps (emit-Steps (i.load here))) (
              when-Adds (has_fields d.tt)
                (λ some_data. emit-Steps (i.identify here some_data))))).steps
          v

    pub start-Adds : Adds P w ((start_fb p d.fb >> start_tt p d.tt) w).1
    start-Adds =
        after-Adds w (start_fb p d.fb w) (λ x. start_tt p d.tt) start_fb-Adds
          λ x. start_tt-Adds (start_fb p d.fb w).1 ((start_fb-SameTtq p d.fb).steps w)

pub initialize_hybrid_pixels-Steps : (p : Page) → Steps (Adds IsStart) (initialize_hybrid_pixels p)
unfolding initialize_hybrid_pixels
initialize_hybrid_pixels-Steps p =
    let o = order p IsStart in
    when-Steps o _ (
      bind-Steps o (Steps-mono (Keeps-Adds IsStart) (read_user_data-Sends p IsStart)) λ d. record {
        steps = λ w.
            start-Adds p IsStart d w
              (record { init = λ h. tt; load = λ h. tt; identify = λ h g. tt });
      })
