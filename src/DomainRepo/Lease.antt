-- ===== src/DomainRepo/Lease.antt =====
-- custom_domain_repo.go: the statements that a worker makes under its lease.
use elite_gate.Prelude.{ℕ, ◌+◌, Bool, ◌&&◌, Option, none, some, ◌==◌}
use elite_gate.Text.{Text, codes}
use elite_gate.Domain.{
  CustomDomain, ProvisioningStatus, same_status, attaching_certificate, completed, deprovisioning,
  deprovisioned, deprovision_failed, active,
}
use elite_gate.DomainRepo.{
  Store, Done, stale_lease, coalesce_bool, clear_lease, guarded, check_stale_or_transition_error,
}
use elite_gate.Table.{is_null, holds, coalesce}

-- WHERE id = $1 AND lease_token = $2 AND provisioning_status = … AND deleted_at IS NULL
abbrev pub leased : ℕ → ℕ → ProvisioningStatus → CustomDomain → Bool
leased id lease expected r =
    r.id == id
    && holds r.lease_token lease
    && same_status r.provisioning_status expected
    && is_null r.deleted_at

-- The same without the test of deleted_at.
abbrev pub leased_or_deleted : ℕ → ℕ → ProvisioningStatus → CustomDomain → Bool
leased_or_deleted id lease expected r =
    r.id == id && holds r.lease_token lease && same_status r.provisioning_status expected

pub record AdvanceParams : Type 0 where
  pub id : ℕ
  pub lease_token : ℕ
  pub expected_status : ProvisioningStatus
  pub new_status : ProvisioningStatus
  pub certificate_arn : Option Text
  pub certificate_status : Option Text
  pub certificate_managed : Option Bool
  pub certificate_validation_name : Option Text
  pub certificate_validation_value : Option Text
  pub certificate_requested_at : Option ℕ
  pub certificate_issued_at : Option ℕ
  pub certificate_attached_at : Option ℕ
  pub next_retry_at : Option ℕ

set_advanced : AdvanceParams → ℕ → CustomDomain → CustomDomain
set_advanced p now r = record r {
  provisioning_status = p.new_status;
  certificate_arn = coalesce p.certificate_arn r.certificate_arn;
  certificate_status = coalesce p.certificate_status r.certificate_status;
  certificate_managed = coalesce_bool p.certificate_managed r.certificate_managed;
  certificate_validation_name =
      coalesce p.certificate_validation_name r.certificate_validation_name;
  certificate_validation_value =
      coalesce p.certificate_validation_value r.certificate_validation_value;
  certificate_requested_at = coalesce p.certificate_requested_at r.certificate_requested_at;
  certificate_issued_at = coalesce p.certificate_issued_at r.certificate_issued_at;
  certificate_attached_at = coalesce p.certificate_attached_at r.certificate_attached_at;
  next_retry_at = p.next_retry_at;
  provisioning_error = none;
  locked_at = none;
  locked_by = none;
  lease_token = none;
  updated_at = now;
}

unfoldable pub advance_provisioning_state : Store → ℕ → AdvanceParams → Done
unfolding guarded check_stale_or_transition_error set_advanced
advance_provisioning_state db now p =
    guarded db (leased p.id p.lease_token p.expected_status) (set_advanced p now)
      (check_stale_or_transition_error db p.id p.lease_token p.expected_status)

set_polled : ℕ → ℕ → CustomDomain → CustomDomain
set_polled now next_poll_at r = record (clear_lease now r) { next_retry_at = some next_poll_at }

unfoldable pub schedule_provisioning_poll : Store → ℕ → ℕ → ℕ → ProvisioningStatus → ℕ → Done
unfolding guarded check_stale_or_transition_error set_polled
schedule_provisioning_poll db now id lease expected next_poll_at =
    guarded db (leased id lease expected) (set_polled now next_poll_at)
      (check_stale_or_transition_error db id lease expected)

set_retried : ℕ → ℕ → Text → CustomDomain → CustomDomain
set_retried now next_retry_at reason r = record (clear_lease now r) {
  provisioning_attempts = r.provisioning_attempts + 1;
  provisioning_error = some reason;
  next_retry_at = some next_retry_at;
}

unfoldable pub schedule_provisioning_retry :
    Store → ℕ → ℕ → ℕ → ProvisioningStatus → ℕ → Text → Done
unfolding guarded check_stale_or_transition_error set_retried
schedule_provisioning_retry db now id lease expected next_retry_at reason =
    guarded db (leased id lease expected) (set_retried now next_retry_at reason)
      (check_stale_or_transition_error db id lease expected)

set_failed : ℕ → Text → CustomDomain → CustomDomain
set_failed now reason r = record (clear_lease now r) {
  provisioning_status = ProvisioningStatus.failed;
  provisioning_error = some reason;
  provisioning_attempts = r.provisioning_attempts + 1;
  next_retry_at = none;
}

unfoldable pub mark_provisioning_failed : Store → ℕ → ℕ → ℕ → ProvisioningStatus → Text → Done
unfolding guarded check_stale_or_transition_error set_failed
mark_provisioning_failed db now id lease expected reason =
    guarded db (leased id lease expected) (set_failed now reason)
      (check_stale_or_transition_error db id lease expected)

set_completed : ℕ → Text → ℕ → CustomDomain → CustomDomain
set_completed now rule_arn priority r = record (clear_lease now r) {
  status = active;
  provisioning_status = completed;
  certificate_status = some (codes "issued");
  certificate_attached_at = coalesce r.certificate_attached_at (some now);
  provisioning_completed_at = some now;
  activated_at = coalesce r.activated_at (some now);
  listener_rule_arn = some rule_arn;
  listener_rule_priority = some priority;
  provisioning_error = none;
  next_retry_at = none;
}

unfoldable pub mark_provisioning_completed : Store → ℕ → ℕ → ℕ → Text → ℕ → Done
unfolding guarded check_stale_or_transition_error set_completed
mark_provisioning_completed db now id lease rule_arn priority =
    guarded db (leased id lease attaching_certificate) (set_completed now rule_arn priority)
      (check_stale_or_transition_error db id lease attaching_certificate)

set_deprovisioned : ℕ → CustomDomain → CustomDomain
set_deprovisioned now r = record (clear_lease now r) {
  deleted_at = some now;
  provisioning_status = deprovisioned;
  next_retry_at = none;
}

unfoldable pub mark_deprovisioned : Store → ℕ → ℕ → ℕ → Done
unfolding guarded check_stale_or_transition_error set_deprovisioned
mark_deprovisioned db now id lease =
    guarded db (leased_or_deleted id lease deprovisioning) (set_deprovisioned now)
      (check_stale_or_transition_error db id lease deprovisioning)

set_deprovision_failed : ℕ → Text → CustomDomain → CustomDomain
set_deprovision_failed now reason r = record (clear_lease now r) {
  provisioning_status = deprovision_failed;
  provisioning_error = some reason;
}

unfoldable pub mark_deprovision_failed : Store → ℕ → ℕ → ℕ → Text → Done
unfolding guarded check_stale_or_transition_error set_deprovision_failed
mark_deprovision_failed db now id lease reason =
    guarded db (leased_or_deleted id lease deprovisioning) (set_deprovision_failed now reason)
      (check_stale_or_transition_error db id lease deprovisioning)

unfoldable pub release_provisioning_lease : Store → ℕ → ℕ → ℕ → Done
unfolding guarded
release_provisioning_lease db now id lease =
    guarded db (λ r. r.id == id && holds r.lease_token lease && is_null r.deleted_at)
      (clear_lease now) stale_lease
