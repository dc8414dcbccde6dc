-- ===== src/Provisioner/Leaves.antt =====
-- provisioner.go: the last statement of each handler, and the edges it makes a row follow.
use elite_gate.Prelude.{
  ℕ, ◌≡◌, refl, Bool, true, false, [], ◌∷◌, if◌then◌else◌, ◌++◌, ◌≢◌, ◌⊎◌, ◌&&◌, not, ◌||◌,
}
use elite_gate.Text.{Text, is_empty, codes, text_eq, trim_space}
use elite_gate.Domain.{
  ProvisioningJob, ProvisioningStatus, requesting_certificate, waiting_for_validation_record,
  waiting_for_dns, attaching_certificate, completed, failed, deprovisioning, deprovisioned,
  deprovision_failed,
}
use elite_gate.DomainRepo.{Store}
use elite_gate.DomainRepo.Lease.{
  AdvanceParams, advance_provisioning_state, mark_provisioning_completed, mark_deprovisioned,
  mark_deprovision_failed,
}
use elite_gate.DomainRepo.Ingress.{
  ProjectGatewayIngress, ingress, get_active_project_gateway_ingress,
}
use elite_gate.Provisioner.{
  Env, Answer, ok, fails, CloudError, CertificateDetails, Calls, Outcome, ends_with_repo, is_blank,
  deref, describes, ensures_rule,
}
use elite_gate.Provisioner.Errors.{
  Reason, reason_text, ErrorCategory, transient, terminal, classify_aws_error, AcmStatus, issued,
  pending_validation, broken, other, upper_status, read_status, failed_validation,
  is_resource_not_found_err,
}
use elite_gate.Provisioner.Stages.{
  fail_at, retry_after, poll_after, by_category, fail_or_retry, request_params, validation_params,
  issued_params, request_stage, after_request, validation_described, validation_stage,
  dns_by_status, dns_described, dns_stage,
}
use elite_gate.Provisioner.Attaching.{attached}

-- The edges of the provisioning life that a worker follows, and staying.
infix 40 ◌⟶◌
pub data ◌⟶◌ : ProvisioningStatus → ProvisioningStatus → Type 0 where
  stays : {s : ProvisioningStatus} → s ⟶ s
  requested : requesting_certificate ⟶ waiting_for_validation_record
  recorded : waiting_for_validation_record ⟶ waiting_for_dns
  validated : waiting_for_dns ⟶ attaching_certificate
  activated : attaching_certificate ⟶ completed
  fails_requesting : requesting_certificate ⟶ failed
  fails_recording : waiting_for_validation_record ⟶ failed
  fails_dns : waiting_for_dns ⟶ failed
  fails_attaching : attaching_certificate ⟶ failed
  removed : deprovisioning ⟶ deprovisioned
  not_removed : deprovisioning ⟶ deprovision_failed

-- What has to have happened for a domain to go live.
pub record Activated (e : Env) (db : Store) (job : ProvisioningJob) : Type 0 where
  pub managed : job.certificate_managed ≡ true
  pub details : CertificateDetails
  pub described : e.cloud.describe_certificate (deref job.certificate_arn) ≡ ok details
  pub is_issued : read_status (upper_status e.unicode details.status) ≡ issued
  pub listener : e.cloud.attach_certificate e.listener_arn (deref job.certificate_arn) ≡ ok tt
  pub gateway : ProjectGatewayIngress
  pub found : get_active_project_gateway_ingress db job.project_id ≡ ingress gateway
  pub rule_arn : Text
  pub priority : ℕ
  pub routed :
      e.cloud.ensure_host_rule e.listener_arn job.hostname gateway.target_group_arn 40001 50000
      ≡ ok (rule_arn, priority)

-- A deletion that worked, or whose target was gone already.
abbrev pub Gone : Env → Answer (Unit {0}) → Type 0
Gone e a =
    (a ≡ ok tt)
    ⊎ ((err : CloudError) × (a ≡ fails err) × (is_resource_not_found_err e.unicode err ≡ true))

abbrev pub has_rule : Env → ProvisioningJob → Bool
has_rule e job =
    not (is_empty (trim_space e.unicode (deref job.listener_rule_arn))) && e.has_load_balancer

abbrev pub owns_certificate : ProvisioningJob → Bool
owns_certificate job = not (is_blank job.certificate_arn) && job.certificate_managed

-- What has to have happened for a domain to be gone: its host rule, and the certificate that the
-- gate owns, off the listener and deleted, each where its manager is configured.
pub record Dismantled (e : Env) (job : ProvisioningJob) : Type 0 where
  pub rule : has_rule e job ≡ true → Gone e (e.cloud.delete_host_rule (deref job.listener_rule_arn))
  pub detached :
      owns_certificate job ≡ true
      → (not (is_empty e.listener_arn) && e.has_load_balancer) ≡ true
      → Gone e (e.cloud.detach_certificate e.listener_arn (deref job.certificate_arn))
  pub deleted :
      owns_certificate job ≡ true
      → e.has_certificates ≡ true
      → Gone e (e.cloud.delete_certificate (deref job.certificate_arn))

module _ (e : Env) (db : Store) (job : ProvisioningJob) (lease : ℕ) where
  pub data Leaf (stage : ProvisioningStatus) : Outcome → Type 0 where
    gives_up :
        (calls : Calls) (reason : Reason)
        → stage ⟶ failed
        → Leaf stage (fail_at e db job lease calls stage reason)
    retries :
        (calls : Calls) (reason : Reason)
        → Leaf stage (retry_after e db job lease calls stage reason)
    polls : (calls : Calls) → Leaf stage (poll_after e db job lease calls stage)
    advances :
        (calls : Calls) (p : AdvanceParams)
        → p.id ≡ job.id
        → p.lease_token ≡ lease
        → p.expected_status ≡ stage
        → stage ⟶ p.new_status
        → p.new_status ≢ completed
        → p.new_status ≢ deprovisioned
        → Leaf stage (ends_with_repo calls (advance_provisioning_state db e.db_now p))
    completes :
        (v : Activated e db job)
        → stage ≡ attaching_certificate
        → Leaf stage (
            ends_with_repo
              (attached ++ (ensures_rule, true) ∷ [])
              (mark_provisioning_completed db e.db_now job.id lease v.rule_arn v.priority))
    removes :
        (calls : Calls)
        → Dismantled e job
        → stage ≡ deprovisioning
        → Leaf stage (ends_with_repo calls (mark_deprovisioned db e.db_now job.id lease))
    keeps :
        (calls : Calls) (reason : Reason)
        → stage ≡ deprovisioning
        → Leaf stage (
            ends_with_repo calls
              (mark_deprovision_failed db e.db_now job.id lease (reason_text reason)))

  pub if-Leaf :
      {stage : ProvisioningStatus} {o q : Outcome} (b : Bool)
      → Leaf stage o
      → Leaf stage q
      → Leaf stage (if b then o else q)
  if-Leaf true v w = v
  if-Leaf false v w = w

  by_category-Leaf :
      (stage : ProvisioningStatus) (calls : Calls) (c : ErrorCategory × Reason)
      → stage ⟶ failed
      → Leaf stage (by_category e db job lease calls stage c)
  by_category-Leaf stage calls (terminal, reason) h = gives_up calls reason h
  by_category-Leaf stage calls (transient, reason) h = retries calls reason

  pub fail_or_retry-Leaf :
      (stage : ProvisioningStatus) (calls : Calls) (err : CloudError)
      → stage ⟶ failed
      → Leaf stage (fail_or_retry e db job lease calls stage err)
  unfolding fail_or_retry
  fail_or_retry-Leaf stage calls err h =
      by_category-Leaf stage calls (classify_aws_error e.unicode err) h

  after_request-Leaf :
      (a : Answer Text) → Leaf requesting_certificate (after_request e db job lease a)
  unfolding after_request
  after_request-Leaf (fails err) = fail_or_retry-Leaf _ _ err fails_requesting
  after_request-Leaf (ok arn) = advances _ _ refl refl refl requested (λ h. cc) (λ h. cc)

  pub request_stage-Leaf : Leaf requesting_certificate (request_stage e db job lease)
  unfolding request_stage request_params
  request_stage-Leaf =
      if-Leaf _ (advances _ _ refl refl refl requested (λ h. cc) (λ h. cc)) (after_request-Leaf _)

  validation_described-Leaf :
      (a : Answer CertificateDetails)
      → Leaf waiting_for_validation_record (validation_described e db job lease a)
  unfolding validation_described validation_params
  validation_described-Leaf (fails err) = fail_or_retry-Leaf _ _ err fails_recording
  validation_described-Leaf (ok d) =
      let calls : Calls = (describes, true) ∷ [] in
      if-Leaf (text_eq d.status (codes "FAILED") || not (is_empty d.failure_reason))
        (gives_up calls (failed_validation d.failure_reason) fails_recording)
        (if-Leaf (is_empty d.validation_name || is_empty d.validation_value) (polls calls) (
          advances calls (validation_params e db job lease d) refl refl refl recorded (λ h. cc)
            (λ h. cc)))

  pub validation_stage-Leaf : Leaf waiting_for_validation_record (validation_stage e db job lease)
  unfolding validation_stage
  validation_stage-Leaf = if-Leaf _ (gives_up _ _ fails_recording) (validation_described-Leaf _)

  dns_by_status-Leaf :
      (d : CertificateDetails) (s : Text) (a : AcmStatus)
      → Leaf waiting_for_dns (dns_by_status e db job lease d s a)
  unfolding dns_by_status issued_params
  dns_by_status-Leaf d s issued = advances _ _ refl refl refl validated (λ h. cc) (λ h. cc)
  dns_by_status-Leaf d s pending_validation = polls _
  dns_by_status-Leaf d s broken = gives_up _ _ fails_dns
  dns_by_status-Leaf d s other = if-Leaf _ (gives_up _ _ fails_dns) (retries _ _)

  dns_described-Leaf :
      (a : Answer CertificateDetails) → Leaf waiting_for_dns (dns_described e db job lease a)
  unfolding dns_described
  dns_described-Leaf (fails err) = fail_or_retry-Leaf _ _ err fails_dns
  dns_described-Leaf (ok d) = dns_by_status-Leaf d _ _

  pub dns_stage-Leaf : Leaf waiting_for_dns (dns_stage e db job lease)
  unfolding dns_stage
  dns_stage-Leaf = if-Leaf _ (gives_up _ _ fails_dns) (dns_described-Leaf _)
