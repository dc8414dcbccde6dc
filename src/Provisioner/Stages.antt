-- ===== src/Provisioner/Stages.antt =====
-- provisioner.go: from the request of the certificate to its issue.
use elite_gate.Prelude.{
  ℕ, ◌+◌, true, false, ◌||◌, not, [], ◌∷◌, Option, none, some, if◌then◌else◌, leb,
}
use elite_gate.Text.{Text, is_empty, codes, text_eq}
use elite_gate.Domain.{
  ProvisioningJob, ProvisioningStatus, requesting_certificate, waiting_for_validation_record,
  waiting_for_dns, attaching_certificate,
}
use elite_gate.DomainRepo.{Store}
use elite_gate.Table.{coalesce}
use elite_gate.DomainRepo.Lease.{
  AdvanceParams, advance_provisioning_state, schedule_provisioning_poll,
  schedule_provisioning_retry, mark_provisioning_failed,
}
use elite_gate.Provisioner.{
  Env, Answer, ok, fails, CloudError, CertificateDetails, Calls, requests, describes, Outcome,
  lease_token_missing, ends_with_repo, is_blank, deref, retry_at, generate_acm_idempotency_token,
}
use elite_gate.Provisioner.Errors.{
  Reason, reason_text, ErrorCategory, transient, terminal, classify_aws_error,
  missing_arn_validation, missing_arn_dns, failed_validation, unknown_status, unrecognized_status,
  AcmStatus, issued, pending_validation, broken, other, upper_status, read_status, broken_reason,
}

-- A handler's first test.
abbrev pub with_lease : Store → Option ℕ → (ℕ → Outcome) → Outcome
with_lease db none k = record { store = db; calls = []; error = some lease_token_missing }
with_lease db (some lease) k = k lease

module _ (e : Env) (db : Store) (job : ProvisioningJob) (lease : ℕ) where
  open e use {unicode, cloud, poll_interval, now, db_now}

  unfoldable pub fail_at : Calls → ProvisioningStatus → Reason → Outcome
  fail_at calls at reason =
      ends_with_repo calls (mark_provisioning_failed db db_now job.id lease at (reason_text reason))

  unfoldable pub retry_after : Calls → ProvisioningStatus → Reason → Outcome
  retry_after calls at reason =
      ends_with_repo calls (
        schedule_provisioning_retry db db_now job.id lease at (retry_at e job) (reason_text reason))

  unfoldable pub poll_after : Calls → ProvisioningStatus → Outcome
  poll_after calls at =
      ends_with_repo calls
        (schedule_provisioning_poll db db_now job.id lease at (now + poll_interval))

  -- What every stage does with an error of AWS.
  abbrev pub by_category : Calls → ProvisioningStatus → ErrorCategory × Reason → Outcome
  by_category calls at (terminal, reason) = fail_at calls at reason
  by_category calls at (transient, reason) = retry_after calls at reason

  unfoldable pub fail_or_retry : Calls → ProvisioningStatus → CloudError → Outcome
  unfolding fail_at retry_after
  fail_or_retry calls at err = by_category calls at (classify_aws_error unicode err)

  -- The advance to waiting_for_validation_record.
  unfoldable pub request_params : Text → AdvanceParams
  request_params arn = record {
    id = job.id;
    lease_token = lease;
    expected_status = requesting_certificate;
    new_status = waiting_for_validation_record;
    certificate_arn = some arn;
    certificate_status = some (codes "pending_validation");
    certificate_managed = some true;
    certificate_validation_name = none;
    certificate_validation_value = none;
    certificate_requested_at = some now;
    certificate_issued_at = none;
    certificate_attached_at = none;
    next_retry_at = some now;
  }

  unfoldable pub after_request : Answer Text → Outcome
  unfolding fail_or_retry request_params
  after_request (fails err) = fail_or_retry ((requests, false) ∷ []) requesting_certificate err
  after_request (ok arn) =
      ends_with_repo ((requests, true) ∷ [])
        (advance_provisioning_state db db_now (request_params arn))

  unfoldable pub request_stage : Outcome
  unfolding after_request
  request_stage =
      if not (is_blank job.certificate_arn)
      then ends_with_repo []
          (advance_provisioning_state db db_now (request_params (deref job.certificate_arn)))
      else after_request
          (cloud.request_certificate job.hostname (generate_acm_idempotency_token e job.id))

  -- The advance to waiting_for_dns.
  unfoldable pub validation_params : CertificateDetails → AdvanceParams
  validation_params d = record {
    id = job.id;
    lease_token = lease;
    expected_status = waiting_for_validation_record;
    new_status = waiting_for_dns;
    certificate_arn = none;
    certificate_status = some d.status;
    certificate_managed = none;
    certificate_validation_name = some d.validation_name;
    certificate_validation_value = some d.validation_value;
    certificate_requested_at = none;
    certificate_issued_at = none;
    certificate_attached_at = none;
    next_retry_at = some (now + poll_interval);
  }

  unfoldable pub validation_described : Answer CertificateDetails → Outcome
  unfolding fail_or_retry fail_at poll_after validation_params
  validation_described (fails err) =
      fail_or_retry ((describes, false) ∷ []) waiting_for_validation_record err
  validation_described (ok d) =
      if text_eq d.status (codes "FAILED") || not (is_empty d.failure_reason)
      then fail_at ((describes, true) ∷ []) waiting_for_validation_record
          (failed_validation d.failure_reason)
      else if is_empty d.validation_name || is_empty d.validation_value
      then poll_after ((describes, true) ∷ []) waiting_for_validation_record
      else ends_with_repo ((describes, true) ∷ [])
          (advance_provisioning_state db db_now (validation_params d))

  unfoldable pub validation_stage : Outcome
  unfolding validation_described fail_at
  validation_stage =
      if is_blank job.certificate_arn
      then fail_at [] waiting_for_validation_record missing_arn_validation
      else validation_described (cloud.describe_certificate (deref job.certificate_arn))

  -- The advance to attaching_certificate.
  unfoldable pub issued_params : CertificateDetails → AdvanceParams
  issued_params d = record {
    id = job.id;
    lease_token = lease;
    expected_status = waiting_for_dns;
    new_status = attaching_certificate;
    certificate_arn = none;
    certificate_status = some (codes "issued");
    certificate_managed = none;
    certificate_validation_name = none;
    certificate_validation_value = none;
    certificate_requested_at = none;
    certificate_issued_at = coalesce d.issued_at (some now);
    certificate_attached_at = none;
    next_retry_at = some now;
  }

  unfoldable pub dns_by_status : CertificateDetails → Text → AcmStatus → Outcome
  unfolding fail_at retry_after poll_after issued_params
  dns_by_status d s issued =
      ends_with_repo ((describes, true) ∷ [])
        (advance_provisioning_state db db_now (issued_params d))
  dns_by_status d s pending_validation = poll_after ((describes, true) ∷ []) waiting_for_dns
  dns_by_status d s broken =
      fail_at ((describes, true) ∷ []) waiting_for_dns (broken_reason unicode d.failure_reason s)
  dns_by_status d s other =
      if leb 5 job.provisioning_attempts
      then fail_at ((describes, true) ∷ []) waiting_for_dns (unknown_status s)
      else retry_after ((describes, true) ∷ []) waiting_for_dns (unrecognized_status s)

  unfoldable pub dns_described : Answer CertificateDetails → Outcome
  unfolding fail_or_retry dns_by_status
  dns_described (fails err) = fail_or_retry ((describes, false) ∷ []) waiting_for_dns err
  dns_described (ok d) = let s = upper_status unicode d.status in dns_by_status d s (read_status s)

  unfoldable pub dns_stage : Outcome
  unfolding dns_described fail_at
  dns_stage =
      if is_blank job.certificate_arn
      then fail_at [] waiting_for_dns missing_arn_dns
      else dns_described (cloud.describe_certificate (deref job.certificate_arn))

unfoldable pub handle_requesting_certificate : Env → Store → ProvisioningJob → Outcome
unfolding request_stage
handle_requesting_certificate e db job = with_lease db job.lease_token (request_stage e db job)

unfoldable pub handle_waiting_for_validation_record : Env → Store → ProvisioningJob → Outcome
unfolding validation_stage
handle_waiting_for_validation_record e db job =
    with_lease db job.lease_token (validation_stage e db job)

unfoldable pub handle_waiting_for_dns : Env → Store → ProvisioningJob → Outcome
unfolding dns_stage
handle_waiting_for_dns e db job = with_lease db job.lease_token (dns_stage e db job)
