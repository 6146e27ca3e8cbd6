-- ===== src/Visitor/Quiet.antt =====
-- Relations along which the visitor's identifiers may be read and made.
use full_project.Prelude.{ℕ, ◌≡◌, Bool, true, [], ◌∷◌, none, some, String, ◌&&◌, is_nil}
use full_project.Js.Text.{Text, codes}
use full_project.Campaign.{attribute_marketing, normalize_campaign_value}
use full_project.Cookie.{Days}
use full_project.Page.{Page}
use full_project.World.{World, read_cookie, write_cookie, random_from}
use full_project.World.Steps.{IsPreorder, Steps, pure-Steps, bind-Steps, then-Steps, if-Steps}
use full_project.Visitor.{
  now_of, random_words_text, create_visitor_id, visitor_or_new, get_external_id,
  get_tiktok_click_id, get_ga4_client_id, get_ga4_session_id, campaign_value, get_marketing_params,
}

-- The relation allows random numbers, and cookies of those names.
pub record IsQuiet (p : Page) (R : World → World → Type 0) (writable : Text → Bool) : Type 0 where
  pub order : IsPreorder R
  pub drawn_lem : (w : World) (n : ℕ) → R w (record w { drawn = n })
  pub written :
      (name value : Text) (days : Days)
      → writable name ≡ true
      → Steps R (write_cookie p name value days)

module _ (p : Page) (R : World → World → Type 0) (writable : Text → Bool)
    (q : IsQuiet p R writable) where
  abbrev o : IsPreorder R
  o = q.order

  pub read-Steps : (name : Text) → Steps R (read_cookie p name)
  unfolding read_cookie
  read-Steps name = record { steps = o.refl_lem }

  pub draw-Steps : (span base : ℕ) → Steps R (random_from p span base)
  unfolding random_from
  draw-Steps span base = record { steps = λ w. q.drawn_lem w _ }

  pub now_of-Steps : Steps R now_of
  unfolding now_of
  now_of-Steps = record { steps = o.refl_lem }

  random_words_text-Steps : Steps R (random_words_text p p.random_words)
  random_words_text-Steps = of p.random_words
    where
      of : (o : _) → Steps R (random_words_text p o)
      of none = bind-Steps o (draw-Steps _ _) (λ r. pure-Steps o)
      of (some words) = record { steps = λ w. q.drawn_lem w _ }

  pub create_visitor_id-Steps : Steps R (create_visitor_id p)
  unfolding create_visitor_id
  create_visitor_id-Steps =
      bind-Steps o now_of-Steps λ now. bind-Steps o random_words_text-Steps λ rest. pure-Steps o

  pub get_external_id-Steps : writable (codes "_buykorigw_vid") ≡ true → Steps R (get_external_id p)
  unfolding get_external_id
  get_external_id-Steps vid_written = bind-Steps o (read-Steps _) of
    where
      of : (vid : Text) → Steps R (visitor_or_new p vid)
      of [] =
          bind-Steps o create_visitor_id-Steps
            λ created. then-Steps o (q.written _ _ _ vid_written) (pure-Steps o)
      of (c ∷ vid) = pure-Steps o

  pub get_tiktok_click_id-Steps : Steps R (get_tiktok_click_id p)
  unfolding get_tiktok_click_id
  get_tiktok_click_id-Steps = if-Steps o _ (read-Steps _) (pure-Steps o)

  pub get_ga4_client_id-Steps : Steps R (get_ga4_client_id p)
  unfolding get_ga4_client_id
  get_ga4_client_id-Steps = bind-Steps o (read-Steps _) λ ga. pure-Steps o

  pub get_ga4_session_id-Steps : Steps R (get_ga4_session_id p)
  unfolding get_ga4_session_id
  get_ga4_session_id-Steps = record { steps = o.refl_lem }

  campaign_value-Steps : (key : String) → Steps R (campaign_value p key)
  unfolding campaign_value
  campaign_value-Steps key = if-Steps o _ (read-Steps _) (pure-Steps o)

  pub get_marketing_params-Steps : Steps R (get_marketing_params p)
  unfolding get_marketing_params
  get_marketing_params-Steps = bind-Steps o (campaign_value-Steps "utm_source") λ a.
      bind-Steps o (campaign_value-Steps "utm_medium") λ b.
        bind-Steps o (campaign_value-Steps "utm_campaign") λ c.
          bind-Steps o (campaign_value-Steps "utm_content") λ d.
            bind-Steps o (campaign_value-Steps "utm_term") λ e.
              bind-Steps o (campaign_value-Steps "campaign_source") λ f.
                bind-Steps o
                  (if-Steps o (is_nil (normalize_campaign_value "utm_source" a))
                    get_tiktok_click_id-Steps (pure-Steps o {a = []}))
                  λ ttclid.
                    bind-Steps o
                      (if-Steps o
                        (is_nil (normalize_campaign_value "utm_source" a) && is_nil ttclid)
                        (read-Steps (codes "_fbc")) (pure-Steps o {a = []}))
                      λ fbc.
                        pure-Steps o
                          {a = attribute_marketing
                            (record {
                              utm_source = a;
                              utm_medium = b;
                              utm_campaign = c;
                              utm_content = d;
                              utm_term = e;
                              campaign_source = f;
                            })
                            ttclid fbc}
