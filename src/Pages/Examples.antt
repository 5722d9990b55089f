-- ===== src/Pages/Examples.antt =====
-- The pages of the sample site, for its administrator and without a session.
use billsons_forms.Sessions.{get_user_from_session_token}
use billsons_forms.Auth.{get_current_user, require_admin, require_user}
use billsons_forms.Base.{lit, none, refl, some, text_beq, ◌≡◌}
use billsons_forms.Http.{redirect}
use billsons_forms.Forms.Samples.{contact_site, sample_forms}
use billsons_forms.Origins.{text_ltb}
use billsons_forms.Pages.Laws.{IsPage, get_page-IsPage}
use billsons_forms.Pages.{answers, endpoint_edit_route, get_page, users_route}
use billsons_forms.Platform.Samples.{request_with}

get_page-IsPage_example :
    IsPage sample_forms text_ltb
      (λ id. id)
      (endpoint_edit_route 1)
      (request_with (some (lit "r")) (some (lit "s")))
      contact_site
      5
      (get_page sample_forms text_ltb
        (λ id. id)
        (endpoint_edit_route 1)
        (request_with (some (lit "r")) (some (lit "s")))
        contact_site
        5)
get_page-IsPage_example =
    get_page-IsPage sample_forms text_ltb (λ id. id) (endpoint_edit_route 1)
      (request_with (some (lit "r")) (some (lit "s"))) contact_site 5

no_session :
    get_page sample_forms text_ltb (λ id. id) users_route (request_with none none) contact_site 5
    ≡ answers (redirect (lit "/login"))
unfolding get_page require_admin require_user get_current_user get_user_from_session_token text_beq
    lit text_ltb
no_session = refl
