-- ===== src/Visitor/Effects.antt =====
-- Reading and writing the visitor's identifiers sends nothing.
use full_project.Prelude.{refl, Bool, true}
use full_project.Js.Text.{Text}
use full_project.Page.{Page}
use full_project.World.{Effect}
use full_project.World.Effects.{
  Keeps, Sends, Keeps-IsPreorder, Logs-refl, bind-Sends, then-Sends, when-Sends, write_cookie-Sends,
}
use full_project.Visitor.{
  now_of, create_visitor_id, get_external_id, get_tiktok_click_id, get_ga4_client_id,
  get_ga4_session_id, get_marketing_params, mark_initiate_checkout_sent, clear_checkout_markers,
}
use full_project.Visitor.Quiet.{
  IsQuiet, now_of-Steps, create_visitor_id-Steps, get_external_id-Steps, get_tiktok_click_id-Steps,
  get_ga4_client_id-Steps, get_ga4_session_id-Steps, get_marketing_params-Steps,
}

-- Every cookie may be written.
abbrev pub is_any_name : Text → Bool
is_any_name name = true

module _ (P : Effect → Type 0) (p : Page) where
  pub Keeps-IsQuiet : IsQuiet p (Keeps P) is_any_name
  Keeps-IsQuiet = record {
    order = Keeps-IsPreorder P;
    drawn_lem = λ w n. (Logs-refl P w, refl);
    written = λ name value days h. write_cookie-Sends P p name value days;
  }

  pub now_of-Sends : Sends P now_of
  now_of-Sends = now_of-Steps p (Keeps P) is_any_name Keeps-IsQuiet

  pub create_visitor_id-Sends : Sends P (create_visitor_id p)
  create_visitor_id-Sends = create_visitor_id-Steps p (Keeps P) is_any_name Keeps-IsQuiet

  pub get_external_id-Sends : Sends P (get_external_id p)
  get_external_id-Sends = get_external_id-Steps p (Keeps P) is_any_name Keeps-IsQuiet refl

  pub get_tiktok_click_id-Sends : Sends P (get_tiktok_click_id p)
  get_tiktok_click_id-Sends = get_tiktok_click_id-Steps p (Keeps P) is_any_name Keeps-IsQuiet

  pub get_ga4_client_id-Sends : Sends P (get_ga4_client_id p)
  get_ga4_client_id-Sends = get_ga4_client_id-Steps p (Keeps P) is_any_name Keeps-IsQuiet

  pub get_ga4_session_id-Sends : Sends P (get_ga4_session_id p)
  get_ga4_session_id-Sends = get_ga4_session_id-Steps p (Keeps P) is_any_name Keeps-IsQuiet

  pub get_marketing_params-Sends : Sends P (get_marketing_params p)
  get_marketing_params-Sends = get_marketing_params-Steps p (Keeps P) is_any_name Keeps-IsQuiet

  pub mark_initiate_checkout_sent-Sends :
      (event_id : Text) → Sends P (mark_initiate_checkout_sent p event_id)
  unfolding mark_initiate_checkout_sent
  mark_initiate_checkout_sent-Sends event_id = bind-Sends P now_of-Sends λ now.
      then-Sends P (write_cookie-Sends P p _ _ _) (when-Sends P _ (write_cookie-Sends P p _ _ _))

  pub clear_checkout_markers-Sends : Sends P (clear_checkout_markers p)
  unfolding clear_checkout_markers
  clear_checkout_markers-Sends =
      then-Sends P (write_cookie-Sends P p _ _ _) (write_cookie-Sends P p _ _ _)
