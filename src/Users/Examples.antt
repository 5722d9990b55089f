-- ===== src/Users/Examples.antt =====
-- An administrator creates a user, edits one and deactivates one.
use billsons_forms.Strings.{contains_text, strip}
use billsons_forms.Base.{
  In, [], ap, arith, contains, delete_where, find, here, inl, inr, lit, nat_eq, none, refl, some,
  sym, text_beq, text_beq_iff, text_beq_refl, text_eq, there, true, update_where, ◌∙◌, ◌∷◌, ◌≡◌,
  ◌≢◌, ◌⊎◌,
}
use billsons_forms.Models.{User}
use billsons_forms.Http.{Request, redirect_with_cookie}
use billsons_forms.RateLimit.{check_rate_limit, upsert}
use billsons_forms.Sessions.{delete_user_sessions, get_user_from_session_token}
use billsons_forms.Platform.Samples.{ada, request_with, root_user, sample, site}
use billsons_forms.Auth.{create_audit_log, login_submit, password_errors}
use billsons_forms.Users.{
  UserForm, create_user, edit_user, post, post_new, user_create_submit, user_deactivate_submit,
  user_edit_submit,
}
use billsons_forms.Users.Laws.{IsAdminRequest, IsUserTable, post-Change, post-IsUserTable}
use billsons_forms.Users.Changes.{Change}
use billsons_forms.Users.Access.{create-login, get_user-deactivate, get_user-user_edit_submit}

abbrev admin_request : Request
admin_request = request_with (some (lit "r")) (some (lit "s"))

abbrev grace : UserForm
grace = record {
  username = lit " grace ";
  display_name = lit "Grace";
  password = lit "hopper hopper";
  role = lit "user";
  is_active = true;
}

post-Change_example :
    ((post sample (post_new grace) [] (lit "s") admin_request 5 site).1 ≡ site)
    ⊎ ((admin : User) × IsAdminRequest sample [] admin_request 5 (lit "s") site admin
        × Change sample [] admin_request 5 admin
            (post_new grace)
            site
            (post sample (post_new grace) [] (lit "s") admin_request 5 site).1)
post-Change_example = post-Change sample [] admin_request 5 (post_new grace) (lit "s") site

names_differ : lit "root" ≢ lit "ada"
unfolding text_beq lit
names_differ e = let h = (text_beq_iff (lit "root") (lit "ada")).1 e in cc

site-IsUserTable : IsUserTable site.users
unfolding text_beq lit
site-IsUserTable = record {
  table = record {
    keyed = (((λ e. omega arith), tt), (tt, tt));
    below = (omega arith, (omega arith, tt));
  };
  unique = two_names;
}
  where
    two_names :
        (r q : User)
        → In r (root_user ∷ ada ∷ [])
        → In q (root_user ∷ ada ∷ [])
        → r.username ≡ q.username
        → r.id ≡ q.id
    two_names r q (here e) (here f) same = ap (λ (x : User). x.id) (sym e ∙ f)
    two_names r q (here e) (there (here f)) same = absurd (
        names_differ
          (ap (λ (x : User). x.username) e ∙ (same ∙ ap (λ (x : User). x.username) (sym f))))
    two_names r q (there (here e)) (here f) same = absurd (
        names_differ
          (ap (λ (x : User). x.username) f ∙ (sym same ∙ ap (λ (x : User). x.username) (sym e))))
    two_names r q (there (here e)) (there (here f)) same = ap (λ (x : User). x.id) (sym e ∙ f)
    two_names r q (there (there i)) j same = elim i [ ]
    two_names r q i (there (there j)) same = elim j [ ]

post-IsUserTable_example :
    IsUserTable (post sample (post_new grace) [] (lit "s") admin_request 5 site).1.users
post-IsUserTable_example =
    post-IsUserTable sample [] admin_request 5 (post_new grace) (lit "s") site site-IsUserTable

create-login_example :
    (login_submit sample
      (request_with none none)
      (lit " grace ")
      (lit "hopper hopper")
      []
      (lit "t")
      9
      (user_create_submit sample grace [] admin_request (inr root_user) 5 site).1).0
    ≡ redirect_with_cookie (lit "/dashboard") (lit "t")
unfolding user_create_submit create_user contains text_beq lit strip password_errors contains_text
    find check_rate_limit upsert create_audit_log
create-login_example =
    create-login sample [] admin_request root_user 5 site grace (request_with none none) []
      (lit "t") 9 (λ salt password. rw (text_beq_refl password) refl) refl refl refl refl

abbrev ada_renamed : UserForm
ada_renamed = record {
  username = lit "ada";
  display_name = lit "Ada";
  password = lit "analytical engine";
  role = lit "user";
  is_active = true;
}

get_user-user_edit_submit_example : root_user.id ≢ 2
unfolding find strip lit user_edit_submit edit_user contains text_beq password_errors contains_text
    get_user_from_session_token create_audit_log delete_user_sessions delete_where update_where
get_user-user_edit_submit_example =
    get_user-user_edit_submit sample [] admin_request root_user 5 site 2 ada_renamed ada (lit "r") 9
      root_user refl (inl refl) refl refl

get_user-deactivate_example : root_user.id ≢ 2
unfolding find lit user_deactivate_submit text_beq get_user_from_session_token create_audit_log
    delete_user_sessions delete_where update_where
get_user-deactivate_example =
    get_user-deactivate sample [] admin_request root_user 5 site 2 ada (lit "r") 9 root_user refl
      refl
