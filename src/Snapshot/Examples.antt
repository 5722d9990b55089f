-- ===== src/Snapshot/Examples.antt =====
-- A snapshot that is stored and read back.
use billsons_forms.Snapshot.Samples.{codec, mail}
use billsons_forms.Strings.{contains_text, ends_with, split_char, split_last, starts_with, strip}
use billsons_forms.Base.{[], contains, lit, nat_eq, none, refl, some, text_beq, text_eq, ◌≡◌}
use billsons_forms.Models.{EmailDeliveryJob, empty}
use billsons_forms.Network.{
  contains_unsafe_text, dns_host, is_dns_label, is_email, normalize_hostname, ok,
}
use billsons_forms.Queue.{enqueue_payload}
use billsons_forms.Snapshot.{
  create_delivery_snapshot, decrypt_job_snapshot, decrypt_value, encrypt_value, enqueue_delivery,
  has_duplicates, is_valid,
}
use billsons_forms.Snapshot.Laws.{IsDeliverable, decrypt_job_snapshot-IsDeliverable}
use billsons_forms.Platform.Samples.{sample_network, sample_settings, sample_unicode}

created_runs : create_delivery_snapshot sample_unicode sample_network codec mail ≡ some mail
unfolding lit text_beq strip starts_with ends_with contains_text contains split_char split_last
    normalize_hostname contains_unsafe_text dns_host is_dns_label is_email has_duplicates is_valid
    create_delivery_snapshot
created_runs = refl

abbrev stored : EmailDeliveryJob
stored =
    (enqueue_delivery sample_unicode sample_network codec sample_settings empty none mail [] 5).0

stored_runs : decrypt_job_snapshot sample_unicode sample_network codec stored ≡ ok mail
unfolding lit text_beq strip starts_with ends_with contains_text contains split_char split_last
    normalize_hostname contains_unsafe_text dns_host is_dns_label is_email has_duplicates is_valid
    decrypt_job_snapshot decrypt_value encrypt_value enqueue_delivery enqueue_payload
stored_runs = refl

decrypt_job_snapshot-IsDeliverable_example : IsDeliverable sample_unicode sample_network codec mail
decrypt_job_snapshot-IsDeliverable_example =
    decrypt_job_snapshot-IsDeliverable sample_unicode sample_network codec stored mail stored_runs
