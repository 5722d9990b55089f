-- ===== src/Scripts/Examples.antt =====
-- The script on an empty database.
use billsons_forms.Base.{[], contains, find, lit, nat_eq, refl, text_beq, text_eq, ◌≡◌}
use billsons_forms.Models.{Database, empty}
use billsons_forms.Strings.{contains_text, strip}
use billsons_forms.Network.{ok}
use billsons_forms.Auth.{password_errors}
use billsons_forms.Platform.Samples.{sample, site}
use billsons_forms.Scripts.{create_admin}

abbrev no_users : Database
no_users = record site { users = empty }

create_admin_runs :
    (create_admin sample (lit " root ") (lit "Root") (lit "correct horse battery") [] no_users).0
    ≡ ok (lit "Admin user 'root' created.")
unfolding create_admin strip lit password_errors contains_text contains text_beq find
create_admin_runs = refl
