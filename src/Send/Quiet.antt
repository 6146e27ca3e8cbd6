-- ===== src/Send/Quiet.antt =====
-- Relations along which an event's data, its identifier and its bodies may be put together.
use full_project.Prelude.{◌≡◌, Bool, true, String}
use full_project.Js.Text.{Text, codes}
use full_project.Js.Value.{Fields}
use full_project.Page.{Page}
use full_project.World.{World}
use full_project.World.Steps.{IsPreorder, Steps, pure-Steps, bind-Steps, ask-Steps}
use full_project.Visitor.Quiet.{
  IsQuiet, read-Steps, draw-Steps, get_external_id-Steps, get_tiktok_click_id-Steps,
  get_ga4_client_id-Steps, get_ga4_session_id-Steps, get_marketing_params-Steps,
}
use full_project.Send.{
  fresh_event_id, identity_fields, complete_event_data, build_ajax_form_data, build_payload,
}

module _ (p : Page) (R : World → World → Type 0) (writable : Text → Bool)
    (q : IsQuiet p R writable) where
  abbrev o : IsPreorder R
  o = q.order

  pub complete_event_data-Steps : (given : Fields) → Steps R (complete_event_data p given)
  unfolding complete_event_data
  complete_event_data-Steps given =
      bind-Steps o (get_marketing_params-Steps p R writable q) λ marketing.
        bind-Steps o (get_ga4_client_id-Steps p R writable q)
          λ client. bind-Steps o (get_ga4_session_id-Steps p R writable q) λ session. pure-Steps o

  pub fresh_event_id-Steps : (name : String) → Steps R (fresh_event_id p name)
  unfolding fresh_event_id
  fresh_event_id-Steps name = record {
    steps = λ w. (bind-Steps o (draw-Steps p R writable q 9000 1000) λ r. pure-Steps o).steps w;
  }

  module _ (vid_written : writable (codes "_buykorigw_vid") ≡ true) where
    identity_fields-Steps : Steps R (identity_fields p)
    unfolding identity_fields
    identity_fields-Steps = bind-Steps o (read-Steps p R writable q _) λ fbp.
        bind-Steps o (read-Steps p R writable q _) λ fbc.
          bind-Steps o (read-Steps p R writable q _) λ ttp.
            bind-Steps o (get_tiktok_click_id-Steps p R writable q) λ ttclid.
              bind-Steps o (get_external_id-Steps p R writable q vid_written) λ external_id.
                bind-Steps o (read-Steps p R writable q _) λ ga.
                  bind-Steps o (get_ga4_session_id-Steps p R writable q)
                    λ ga_session_id. pure-Steps o

    pub build_ajax_form_data-Steps :
        (name : String) (event_data : Fields) (event_id : Text)
        → Steps R (build_ajax_form_data p name event_data event_id)
    unfolding build_ajax_form_data
    build_ajax_form_data-Steps name event_data event_id =
        bind-Steps o identity_fields-Steps λ identity. ask-Steps o _

    pub build_payload-Steps :
        (name : String) (event_data : Fields) (event_id : Text)
        → Steps R (build_payload p name event_data event_id)
    unfolding build_payload
    build_payload-Steps name event_data event_id =
        bind-Steps o identity_fields-Steps λ identity. ask-Steps o _
