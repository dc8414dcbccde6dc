-- ===== src/DomainService/Examples.antt =====
-- The theorems on the domain service and on host names, at one domain and a resolver that answers.
use elite_gate.Prelude.{◌≡◌, refl, ◌++◌, true, false, [], ◌∷◌, none, some, here}
use elite_gate.Text.{
  codes, plain, text_eq, has_prefix, ends_with, contains, split, trim_left, trim_right, trim_space,
  to_lower, trim_suffix,
}
use elite_gate.Table.{exec, find}
use elite_gate.Table.Effects.{Rows}
use elite_gate.Domain.{
  completed, CustomDomain, is_verified, not_started, requesting_certificate, pending_verification,
  same_status,
}
use elite_gate.DomainRepo.{Store}
use elite_gate.DomainRepo.Tenants.{Confined}
use elite_gate.DomainRepo.Fixtures.{row_at, table_at}
use elite_gate.DomainRepo.Creation.{create, hostname_exists}
use elite_gate.DomainRepo.Requests.{
  get_by_id_for_project, enqueue_provisioning, update_returning, set_restarted,
}
use elite_gate.Hostname.{normalize_hostname, accepted, looks_like_url, valid_hostname_label}
use elite_gate.Hostname.Laws.{IsHostname, normalize_hostname-IsHostname, normalize_hostname_again}
use elite_gate.DomainService.{
  DomainEnv, txt_records, cname, verification_prefix, record_name_of, VerificationRecord, created,
  create_custom_domain, serves_domain, verify_custom_domain, load_domain,
}
use elite_gate.DomainService.Lifecycle.{
  activation, activation_queued, activate_custom_domain, activate_loaded,
  check_custom_domain_routing, delete_custom_domain, retry_deprovisioning, retry_provisioning,
}
use elite_gate.DomainService.Roundtrip.{create_then_verify}
use elite_gate.DomainService.Ownership.{service-Confined}
use elite_gate.DomainService.Proofs.{Shown, verify_custom_domain-Shown}
use elite_gate.DomainService.Activation.{IsQueued, activate_custom_domain-IsQueued}

shop_test :
    normalize_hostname plain (λ t. false) (codes " Shop.Example.COM.")
    ≡ some (codes "shop.example.com")
unfolding normalize_hostname accepted looks_like_url valid_hostname_label trim_space trim_left
    trim_right to_lower trim_suffix contains has_prefix split ends_with text_eq
shop_test = refl

normalize_hostname-IsHostname_example : IsHostname (codes "shop.example.com")
normalize_hostname-IsHostname_example =
    normalize_hostname-IsHostname plain (λ t. false) (codes " Shop.Example.COM.")
      (codes "shop.example.com") shop_test

normalize_hostname_again_example :
    normalize_hostname plain (λ t. false) (codes "shop.example.com")
    ≡ some (codes "shop.example.com")
normalize_hostname_again_example =
    normalize_hostname_again plain (λ t. false) (codes " Shop.Example.COM.")
      (codes "shop.example.com") shop_test

abbrev answer : VerificationRecord
answer = record {
  name = record_name_of (codes "shop.example.com");
  value = verification_prefix ++ codes "t0k-en";
}

abbrev env : DomainEnv
env = record {
  unicode = plain;
  parses_ip = λ t. false;
  sha256_hex = λ t. t;
  lookup_txt = λ name. txt_records ((verification_prefix ++ codes "t0k-en") ∷ []);
  lookup_cname = λ host. cname (codes "gate.example.com");
  gateway_public_host = codes "gate.example.com";
  automation_enabled = true;
  token = some (codes "t0k-en");
  new_id = 5;
  db_now = 9;
}

abbrev empty : Store
empty = record { up = true; accepts = λ rows. true; rows = []; gateways = [] }

made : (create_custom_domain env empty 7 (codes " Shop.Example.COM.")).1 ≡ created 5 answer
unfolding create_custom_domain create hostname_exists normalize_hostname accepted looks_like_url
    valid_hostname_label trim_space trim_left trim_right to_lower trim_suffix contains has_prefix
    split ends_with text_eq
made = refl

create_then_verify_example :
    (d : CustomDomain) × ((verify_custom_domain env
        (create_custom_domain env empty 7 (codes " Shop.Example.COM.")).0
        7
        5).1
      ≡ serves_domain d)
    × (d.id ≡ 5)
    × (is_verified d.status ≡ true)
create_then_verify_example =
    create_then_verify env env empty 7 5 (codes " Shop.Example.COM.") (codes "t0k-en") answer
      ((verification_prefix ++ codes "t0k-en") ∷ []) made refl refl refl refl refl (here refl)

abbrev unverified : Store
unverified = record {
  up = true;
  accepts = λ rows. true;
  rows =
      record (row_at 1 not_started) {
        status = pending_verification;
        verification_token_hash = codes "t0k-en";
        verification_record_name = record_name_of (codes "shop.example.com");
      }
      ∷ [];
  gateways = [];
}

verify_custom_domain-Shown_example :
    Rows (Shown env unverified 7 1) unverified.rows (verify_custom_domain env unverified 7 1).0.rows
verify_custom_domain-Shown_example = verify_custom_domain-Shown env unverified 7 1 (tt, tt)

service-Confined_example :
    Confined 1 7 (table_at not_started) (verify_custom_domain env (table_at not_started) 7 1).0
    × Confined 1 7
        (table_at not_started)
        (check_custom_domain_routing env (table_at not_started) 7 1).0
    × Confined 1 7
        (table_at not_started)
        (activate_custom_domain env
          (table_at completed)
          (table_at not_started)
          (table_at not_started)
          7
          1).0
    × Confined 1 7
        (table_at not_started)
        (delete_custom_domain env (table_at not_started) (table_at not_started) 7 1).0
    × Confined 1 7 (table_at not_started) (retry_deprovisioning env (table_at not_started) 7 1).0
    × Confined 1 7 (table_at not_started) (retry_provisioning env (table_at not_started) 7 1).0
service-Confined_example =
    service-Confined env (table_at not_started) 7 1 (table_at completed) (table_at not_started)

abbrev fresh : Store
fresh = table_at not_started

abbrev started : CustomDomain
started = record (row_at 1 not_started) {
  provisioning_status = requesting_certificate;
  provisioning_started_at = some 9;
  provisioning_attempts = 0;
  next_retry_at = some 9;
  provisioning_error = none;
  locked_at = none;
  locked_by = none;
  lease_token = none;
  updated_at = 9;
}

queued_test :
    (activate_custom_domain env fresh fresh fresh 7 1).1 ≡ activation started activation_queued
unfolding activate_custom_domain activate_loaded load_domain get_by_id_for_project
    enqueue_provisioning update_returning set_restarted find exec same_status
queued_test = refl

activate_custom_domain-IsQueued_example : IsQueued env fresh fresh 7 1 started
activate_custom_domain-IsQueued_example =
    activate_custom_domain-IsQueued env fresh fresh fresh 7 1 started queued_test
