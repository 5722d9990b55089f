-- ===== src/Snapshot/Samples.antt =====
-- A snapshot and a codec for it, for the examples.
use billsons_forms.Base.{Text, [], if◌then◌else◌, lit, none, some, text_beq, ◌∷◌}
use billsons_forms.Snapshot.{Codec, DeliverySnapshot}

abbrev pub mail : DeliverySnapshot Text
mail = record {
  submitted_fields = (lit "name", lit "Ada") ∷ [];
  recipients = lit "a@b.c" ∷ [];
  sender_email = lit "f@b.c";
  sender_name = none;
  subject = lit "New form submission";
  smtp_host = lit "b.c";
  smtp_port = 587;
  smtp_username = none;
  smtp_password = none;
  smtp_security = lit "starttls";
  reply_to_email = none;
}

-- A codec for one snapshot, and a cipher that puts the nonce in front.
abbrev pub codec : Codec Text
codec = record {
  dump = λ s. s.subject;
  load = λ t. if text_beq t mail.subject then some mail else none;
  encrypt = λ nonce t. 1 ∷ t;
  decrypt = λ t. elim t [ [] ↦ none | c ∷ cs ↦ some cs ];
}
