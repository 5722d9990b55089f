-- ===== src/Email.antt =====
-- app/services/email.py: the mail that is made of a snapshot, and what becomes of its errors. The
-- SMTP library is a parameter: how building the message and the session with the server end.
pub mod Laws
use billsons_forms.Base.{
  Bool, List, Option, Text, [], if◌then◌else◌, lit, map, nat_eq, none, some, text_eq, ℕ, ◌&&◌, ◌++◌,
  ◌==◌, ◌∷◌,
}
use billsons_forms.Strings.{Unicode, join, or_empty, or_none, strip, truthy}
use billsons_forms.Snapshot.{DeliverySnapshot}

pub data SmtpCommand : Type 0 where
  starttls : SmtpCommand
  login : Text → Text → SmtpCommand
  send_message : SmtpCommand

-- The message's headers and body, and the session that sends it.
pub record Mail : Type 0 where
  pub subject : Text
  pub from : Text × Text
  pub to : Text
  pub reply_to : Option Text
  pub body : Text
  pub implicit_tls : Bool
  pub host : Text
  pub port : ℕ
  pub commands : List SmtpCommand

-- How it ends: the server takes the mail, refuses the recipients, the sender or the login, another
-- SMTPException or OSError is raised, or an exception of a named type that is none of these.
pub data SmtpOutcome : Type 0 where
  sent : SmtpOutcome
  refused smtp_error : Text → SmtpOutcome
  other_error : Text → Text → SmtpOutcome

pub record SmtpLibrary (Value : Type 0) : Type 0 where
  pub session : Mail → SmtpOutcome
  -- `str(value)` of a JSON value.
  pub show : Value → Text

-- The exceptions that the worker tells apart.
pub data DeliveryError : Type 0 where
  permanent_email_error temporary_email_error : Text → DeliveryError
  unexpected_error : Text → Text → DeliveryError

abbrev pub classify : SmtpOutcome → Option DeliveryError
classify sent = none
classify (refused message) = some (permanent_email_error message)
classify (smtp_error message) = some (temporary_email_error message)
classify (other_error name message) = some (unexpected_error name message)

abbrev truthy_login : Option Text → Option Text → List SmtpCommand
truthy_login none password = []
truthy_login (some user) none = []
truthy_login (some user) (some password) =
    if truthy user && truthy password then login user password ∷ [] else []

module _ {Value : Type 0} (u : Unicode) (smtp : SmtpLibrary Value) where
  abbrev field_line : Text × Value → Text
  field_line (key, value) = key ++ lit ": " ++ smtp.show value

  unfoldable pub build_submission_email_body : List (Text × Value) → Text
  build_submission_email_body payload =
      join (10 ∷ []) (lit "New form submission" ∷ [] ∷ map field_line payload)

  unfoldable pub mail_of : DeliverySnapshot Value → Mail
  mail_of s =
      let security = strip u (u.lower s.smtp_security) in
      record {
        subject = s.subject;
        from = (or_empty s.sender_name, s.sender_email);
        to = join (lit ", ") s.recipients;
        reply_to = or_none (or_empty s.reply_to_email);
        body = build_submission_email_body s.submitted_fields;
        implicit_tls = security == lit "ssl";
        host = s.smtp_host;
        port = s.smtp_port;
        commands =
            (if security == lit "starttls" then starttls ∷ [] else [])
            ++ truthy_login s.smtp_username s.smtp_password
            ++ send_message ∷ [];
      }

  unfoldable pub send_submission_email : DeliverySnapshot Value → Option DeliveryError
  send_submission_email s = classify (smtp.session (mail_of s))

  -- `send_test_email`: the mail of a snapshot, with another subject and body.
  unfoldable pub test_mail : DeliverySnapshot Value → Mail
  test_mail s = record (mail_of s) {
    subject = lit "Billson's Forms — SMTP configuration test";
    body =
        lit
          "This is a configuration test from Billson's Forms. No form submission data is included.";
  }

  unfoldable pub send_test_email : DeliverySnapshot Value → Option DeliveryError
  send_test_email s = classify (smtp.session (test_mail s))
