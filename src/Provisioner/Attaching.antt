-- ===== src/Provisioner/Attaching.antt =====
-- provisioner.go, handleAttachingCertificate: the listener, the project's gateway, the host rule.
use elite_gate.Prelude.{ℕ, true, false, not, [], ◌∷◌, ◌++◌, if◌then◌else◌}
use elite_gate.Text.{Text, codes}
use elite_gate.Domain.{ProvisioningJob, attaching_certificate}
use elite_gate.DomainRepo.{Store, RepoError, gateway_ingress_not_ready}
use elite_gate.DomainRepo.Lease.{mark_provisioning_completed}
use elite_gate.DomainRepo.Ingress.{
  IngressReply, ingress, no_ingress, get_active_project_gateway_ingress,
}
use elite_gate.Provisioner.{
  Env, Answer, ok, fails, CertificateDetails, Calls, describes, attaches, ensures_rule, Outcome,
  ends_with_repo, is_blank, deref, host_rule_target_conflict,
}
use elite_gate.Provisioner.Errors.{
  Reason, missing_arn_attaching, not_managed, unrecognized_attaching, ingress_not_ready,
  ingress_query_failed, routed_elsewhere, AcmStatus, issued, pending_validation, broken, other,
  upper_status, read_status, broken_reason,
}
use elite_gate.Provisioner.Stages.{with_lease, fail_at, retry_after, poll_after, fail_or_retry}

abbrev pub seen : Calls
seen = (describes, true) ∷ []

abbrev pub attached : Calls
attached = (describes, true) ∷ (attaches, true) ∷ []

module _ (e : Env) (db : Store) (job : ProvisioningJob) (lease : ℕ) where
  open e use {unicode, cloud, listener_arn, db_now, driver_error}

  -- 4. and 5.: the host rule, and the end.
  unfoldable pub rule_ensured : Answer (Text × ℕ) → Outcome
  unfolding fail_at fail_or_retry
  rule_ensured (fails err) =
      let calls = attached ++ (ensures_rule, false) ∷ [] in
      if err.is_a host_rule_target_conflict
      then fail_at e db job lease calls attaching_certificate routed_elsewhere
      else fail_or_retry e db job lease calls attaching_certificate err
  rule_ensured (ok (rule_arn, priority)) =
      ends_with_repo (attached ++ (ensures_rule, true) ∷ [])
        (mark_provisioning_completed db db_now job.id lease rule_arn priority)

  abbrev pub ingress_reason : RepoError → Reason
  ingress_reason gateway_ingress_not_ready = ingress_not_ready
  ingress_reason _ =
      ingress_query_failed (codes "get active project gateway ingress: " ++ driver_error)

  -- 3.: the target group of the project's gateway.
  unfoldable pub ingress_resolved : IngressReply → Outcome
  unfolding rule_ensured retry_after
  ingress_resolved (no_ingress err) =
      retry_after e db job lease attached attaching_certificate (ingress_reason err)
  ingress_resolved (ingress g) =
      rule_ensured (cloud.ensure_host_rule listener_arn job.hostname g.target_group_arn 40001 50000)

  -- 2.: the listener.
  unfoldable pub listener_attached : Answer (Unit {0}) → Outcome
  unfolding ingress_resolved fail_or_retry
  listener_attached (fails err) =
      fail_or_retry e db job lease (seen ++ (attaches, false) ∷ []) attaching_certificate err
  listener_attached (ok _) = ingress_resolved (get_active_project_gateway_ingress db job.project_id)

  -- 1.: the certificate again.
  unfoldable pub attaching_by_status : CertificateDetails → Text → AcmStatus → Outcome
  unfolding listener_attached fail_at retry_after poll_after
  attaching_by_status d s issued =
      listener_attached (cloud.attach_certificate listener_arn (deref job.certificate_arn))
  attaching_by_status d s pending_validation = poll_after e db job lease seen attaching_certificate
  attaching_by_status d s broken =
      fail_at e db job lease seen attaching_certificate (broken_reason unicode d.failure_reason s)
  attaching_by_status d s other =
      retry_after e db job lease seen attaching_certificate (unrecognized_attaching s)

  unfoldable pub attaching_described : Answer CertificateDetails → Outcome
  unfolding attaching_by_status fail_or_retry
  attaching_described (fails err) =
      fail_or_retry e db job lease ((describes, false) ∷ []) attaching_certificate err
  attaching_described (ok d) =
      let s = upper_status unicode d.status in attaching_by_status d s (read_status s)

  unfoldable pub attaching_stage : Outcome
  unfolding attaching_described fail_at
  attaching_stage =
      if is_blank job.certificate_arn
      then fail_at e db job lease [] attaching_certificate missing_arn_attaching
      else if not job.certificate_managed
      then fail_at e db job lease [] attaching_certificate not_managed
      else attaching_described (cloud.describe_certificate (deref job.certificate_arn))

unfoldable pub handle_attaching_certificate : Env → Store → ProvisioningJob → Outcome
unfolding attaching_stage
handle_attaching_certificate e db job = with_lease db job.lease_token (attaching_stage e db job)
