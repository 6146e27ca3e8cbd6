-- ===== src/Shop/Identity.antt =====
-- What the script does with the identifiers when it starts: nothing leaves the page.
use full_project.Prelude.{◌≡◌, [], ◌∷◌, String, arith, ◌==◌}
use full_project.Js.Text.{Text, codes}
use full_project.Page.{Page}
use full_project.World.{World, M}
use full_project.World.Effects.{
  Sends, rest, quiet-Sends, bind-Sends, then-Sends, pure-Sends, when-Sends, if-Sends,
  read_cookie-Sends, write_cookie-Sends, random_from-Sends,
}
use full_project.Cookie.{Days, ahead}
use full_project.Visitor.{
  ensure_cookie, ensure_fbc, new_fbp, ttp_from, ttp_char, ensure_first_party_cookies,
  persist_marketing_param, persist_marketing_params, persist_tiktok_click_id, create_visitor_id,
}
use full_project.Visitor.Effects.{now_of-Sends, create_visitor_id-Sends}
use full_project.Send.Names.{IsStart}

module _ (p : Page) where
  persist_log : (key : String) (w : World) → (persist_marketing_param p key w).1.log ≡ w.log
  unfolding persist_marketing_param
  persist_log key w = ground arith

  persist_pending :
      (key : String) (w : World) → (persist_marketing_param p key w).1.pending ≡ w.pending
  unfolding persist_marketing_param
  persist_pending key w = ground arith

  persist_rest : (key : String) (w : World) → rest (persist_marketing_param p key w).1 ≡ rest w
  unfolding persist_marketing_param
  persist_rest key w = ground arith

  persist_marketing_param-Sends : (key : String) → Sends IsStart (persist_marketing_param p key)
  unfolding persist_marketing_param
  persist_marketing_param-Sends key =
      quiet-Sends IsStart (λ w. (persist_log key w, persist_pending key w, persist_rest key w))

  pub persist_marketing_params-Sends : Sends IsStart (persist_marketing_params p)
  unfolding persist_marketing_params
  persist_marketing_params-Sends = then-Sends IsStart (persist_marketing_param-Sends "utm_source") (
      then-Sends IsStart (persist_marketing_param-Sends "utm_medium") (
        then-Sends IsStart (persist_marketing_param-Sends "utm_campaign") (
          then-Sends IsStart (persist_marketing_param-Sends "utm_content") (
            then-Sends IsStart (persist_marketing_param-Sends "utm_term")
              (persist_marketing_param-Sends "campaign_source")))))

  pub persist_tiktok_click_id-Sends : Sends IsStart (persist_tiktok_click_id p)
  unfolding persist_tiktok_click_id
  persist_tiktok_click_id-Sends = when-Sends IsStart _ (write_cookie-Sends IsStart p _ _ _)

  ttp_from-Sends : (template : Text) → Sends IsStart (ttp_from p template)
  unfolding ttp_from
  ttp_from-Sends [] = pure-Sends IsStart
  ttp_from-Sends (c ∷ template) =
      let rest = ttp_from-Sends template in
      let copied = bind-Sends IsStart rest λ s. pure-Sends IsStart {a = c ∷ s} in
      let drawn =
        bind-Sends IsStart (random_from-Sends IsStart p 16 0)
          λ r. bind-Sends IsStart rest λ s. pure-Sends IsStart {a = ttp_char c r ∷ s} in
      if-Sends IsStart (c == b'x') drawn (if-Sends IsStart (c == b'y') drawn copied)

  ensure_cookie-Sends :
      (name : Text) (make : M Text) (days : Days)
      → Sends IsStart make
      → Sends IsStart (ensure_cookie p name make days)
  unfolding ensure_cookie
  ensure_cookie-Sends name make days h =
      bind-Sends IsStart (read_cookie-Sends IsStart p name) λ current.
        when-Sends IsStart _
          (bind-Sends IsStart h λ value. write_cookie-Sends IsStart p name value days)

  ensure_fbc-Sends : (fbclid : Text) → Sends IsStart (ensure_fbc p fbclid)
  unfolding ensure_fbc
  ensure_fbc-Sends fbclid = bind-Sends IsStart (read_cookie-Sends IsStart p _) λ current.
      bind-Sends IsStart (now_of-Sends IsStart p)
        λ now. when-Sends IsStart _ (write_cookie-Sends IsStart p _ _ _)

  new_fbp-Sends : Sends IsStart (new_fbp p)
  unfolding new_fbp
  new_fbp-Sends =
      bind-Sends IsStart (now_of-Sends IsStart p)
        λ now. bind-Sends IsStart (random_from-Sends IsStart p _ _) λ r. pure-Sends IsStart

  pub ensure_first_party_cookies-Sends : Sends IsStart (ensure_first_party_cookies p)
  unfolding ensure_first_party_cookies
  ensure_first_party_cookies-Sends =
      then-Sends IsStart
        (ensure_cookie-Sends (codes "_fbp") (new_fbp p) (ahead 90_000) new_fbp-Sends)
        (then-Sends IsStart (when-Sends IsStart _ (ensure_fbc-Sends _)) (
          then-Sends IsStart
            (ensure_cookie-Sends (codes "_ttp")
              (ttp_from p (codes "xxxxxxxx-xxxx-4xxx-yxxx-xxxxxxxxxxxx")) (ahead 90_000)
              (ttp_from-Sends (codes "xxxxxxxx-xxxx-4xxx-yxxx-xxxxxxxxxxxx")))
            (ensure_cookie-Sends (codes "_buykorigw_vid") (create_visitor_id p) (ahead 180_000)
              (create_visitor_id-Sends IsStart p))))
