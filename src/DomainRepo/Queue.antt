-- ===== src/DomainRepo/Queue.antt =====
-- custom_domain_repo.go, ClaimNextProvisioningJob. `now` is the worker's clock, from which the
-- expiry of old locks is taken, and `db_now` is NOW(); `token` is the new uuid.
use elite_gate.Prelude.{
  ℕ, Bool, true, false, ◌&&◌, List, Option, none, some, if◌then◌else◌, ◌==◌, ℤ,
}
use elite_gate.Text.{Text}
use elite_gate.Table.{exec, is_null}
use elite_gate.Table.Order.{lock_timeout_of, is_due, is_free, earlier_retry, first_of}
use elite_gate.Domain.{
  CustomDomain, ProvisioningJob, ProvisioningStatus, requesting_certificate,
  waiting_for_validation_record, waiting_for_dns, waiting_for_certificate, attaching_certificate,
  deprovisioning,
}
use elite_gate.DomainRepo.{Store, RepoError, database_error}

unfoldable pub job_of : CustomDomain → ProvisioningJob
job_of r = record {
  id = r.id;
  project_id = r.project_id;
  hostname = r.hostname;
  status = r.status;
  routing_status = r.routing_status;
  provisioning_status = r.provisioning_status;
  certificate_arn = r.certificate_arn;
  certificate_status = r.certificate_status;
  certificate_managed = r.certificate_managed;
  certificate_validation_name = r.certificate_validation_name;
  certificate_validation_value = r.certificate_validation_value;
  listener_rule_arn = r.listener_rule_arn;
  listener_rule_priority = r.listener_rule_priority;
  provisioning_attempts = r.provisioning_attempts;
  next_retry_at = r.next_retry_at;
  provisioning_started_at = r.provisioning_started_at;
  locked_at = r.locked_at;
  locked_by = r.locked_by;
  lease_token = r.lease_token;
  deleted_at = r.deleted_at;
}

-- provisioning_status IN (…)
abbrev pub is_queued : ProvisioningStatus → Bool
is_queued requesting_certificate = true
is_queued waiting_for_validation_record = true
is_queued waiting_for_dns = true
is_queued waiting_for_certificate = true
is_queued attaching_certificate = true
is_queued deprovisioning = true
is_queued _ = false

unfoldable pub is_claimable : ℕ → ℕ → ℕ → CustomDomain → Bool
is_claimable now db_now timeout r =
    is_null r.deleted_at
    && is_queued r.provisioning_status
    && is_due db_now r.next_retry_at
    && is_free now timeout r.locked_at

unfoldable pub sorts_before : CustomDomain → CustomDomain → Bool
sorts_before r s = earlier_retry r.next_retry_at s.next_retry_at r.created_at s.created_at

-- The first row of the sorted selection.
unfoldable pub first_job : (CustomDomain → Bool) → List CustomDomain → Option CustomDomain
unfolding sorts_before first_of
first_job = first_of sorts_before

unfoldable pub set_claimed : ℕ → Text → ℕ → CustomDomain → CustomDomain
set_claimed db_now worker token r = record r {
  locked_at = some db_now;
  locked_by = some worker;
  lease_token = some token;
  updated_at = db_now;
}

pub data Claim : Type 0 where
  claim_error : RepoError → Claim
  no_job : Claim
  claimed : ProvisioningJob → Claim

abbrev pub claim_row : Store → ℕ → Text → ℕ → Option CustomDomain → Store × Claim
claim_row db db_now worker token none = (db, no_job)
claim_row db db_now worker token (some r) = (
  record db { rows = exec (λ s. s.id == r.id) (set_claimed db_now worker token) db.rows },
  claimed (job_of (set_claimed db_now worker token r)),
)

unfoldable pub claim_next_provisioning_job : Store → ℕ → ℕ → Text → ℤ → ℕ → Store × Claim
unfolding is_claimable first_job exec set_claimed job_of
claim_next_provisioning_job db now db_now worker timeout token =
    if db.up
    then claim_row db db_now worker token
        (first_job (is_claimable now db_now (lock_timeout_of timeout)) db.rows)
    else (db, claim_error database_error)
