-- ===== src/DomainRepo/Fixtures.antt =====
-- Two rows and a gateway for the examples.
use elite_gate.Prelude.{ℕ, true, [], ◌∷◌, none, some}
use elite_gate.Text.{codes}
use elite_gate.Domain.{
  CustomDomain, ProvisioningStatus, verified, ready, requesting_certificate, attaching_certificate,
}
use elite_gate.DomainRepo.{Store, GatewayRow}
use elite_gate.DomainRepo.Claims.{HasKeys}

abbrev pub row_at : ℕ → ProvisioningStatus → CustomDomain
row_at id at = record {
  id = id;
  project_id = 7;
  hostname = codes "shop.example.com";
  status = verified;
  verification_token_hash = [];
  verification_record_name = [];
  certificate_arn = some (codes "arn:cert");
  certificate_status = none;
  failure_reason = none;
  verified_at = none;
  activated_at = none;
  last_checked_at = none;
  created_at = id;
  updated_at = 0;
  deleted_at = none;
  routing_target = none;
  routing_status = ready;
  routing_checked_at = none;
  routing_error = none;
  certificate_managed = true;
  provisioning_status = at;
  certificate_validation_name = none;
  certificate_validation_value = none;
  certificate_requested_at = none;
  certificate_issued_at = none;
  certificate_attached_at = none;
  provisioning_started_at = none;
  provisioning_completed_at = none;
  deprovisioning_started_at = none;
  provisioning_error = none;
  provisioning_attempts = 0;
  next_retry_at = none;
  listener_rule_arn = some (codes "arn:rule");
  listener_rule_priority = none;
  locked_at = none;
  locked_by = none;
  lease_token = none;
}

abbrev pub gateway : GatewayRow
gateway = record {
  external_id = codes "gw-1";
  project_id = 7;
  is_dedicated = true;
  is_active = true;
  is_completed = true;
  target_group_arn = some (codes "arn:tg");
  provisioned_at = some 3;
  created_at = 1;
  deleted_at = none;
}

-- A table with one row in a state and a second row that is waiting for a certificate.
abbrev pub table_at : ProvisioningStatus → Store
table_at at = record {
  up = true;
  accepts = λ rows. true;
  rows = row_at 1 at ∷ row_at 2 requesting_certificate ∷ [];
  gateways = gateway ∷ [];
}

-- The first row under the lease 9.
abbrev pub leased_table : Store
leased_table = record {
  up = true;
  accepts = λ rows. true;
  rows =
      record (row_at 1 attaching_certificate) { lease_token = some 9; locked_at = some 0 }
      ∷ row_at 2 requesting_certificate
      ∷ [];
  gateways = [];
}

pub table_at-HasKeys : (at : ProvisioningStatus) → HasKeys (table_at at).rows
table_at-HasKeys at = ((λ e. cc, tt), (tt, tt))

pub leased_table-HasKeys : HasKeys leased_table.rows
leased_table-HasKeys = ((λ e. cc, tt), (tt, tt))
