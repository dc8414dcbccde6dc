-- ===== src/Provisioner/LastSteps.antt =====
-- provisioner.go, handleAttachingCertificate: the calls before its last statement.
use elite_gate.Prelude.{ℕ, ◌≡◌, refl, Bool, true, false, [], if◌then◌else◌, not}
use elite_gate.Text.{Text}
use elite_gate.Domain.{ProvisioningJob, attaching_certificate}
use elite_gate.DomainRepo.{Store}
use elite_gate.DomainRepo.Ingress.{
  ProjectGatewayIngress, IngressReply, ingress, no_ingress, get_active_project_gateway_ingress,
}
use elite_gate.Provisioner.{
  Env, Answer, ok, fails, CertificateDetails, deref, host_rule_target_conflict,
}
use elite_gate.Provisioner.Errors.{
  not_managed, AcmStatus, issued, pending_validation, broken, other, upper_status, read_status,
}
use elite_gate.Provisioner.Stages.{fail_at}
use elite_gate.Provisioner.Attaching.{
  rule_ensured, ingress_resolved, listener_attached, attaching_by_status, attaching_described,
  attaching_stage,
}
use elite_gate.Provisioner.Leaves.{
  Leaf, if-Leaf, fail_or_retry-Leaf, fails_attaching, gives_up, retries, polls, completes,
}

module _ (e : Env) (db : Store) (job : ProvisioningJob) (lease : ℕ) where
  module _ (managed : job.certificate_managed ≡ true) (d : CertificateDetails)
      (described : e.cloud.describe_certificate (deref job.certificate_arn) ≡ ok d) where
    module _ (is_issued : read_status (upper_status e.unicode d.status) ≡ issued)
        (listener : e.cloud.attach_certificate e.listener_arn (deref job.certificate_arn) ≡ ok tt)
        (g : ProjectGatewayIngress)
        (found : get_active_project_gateway_ingress db job.project_id ≡ ingress g) where
      rule_ensured-Leaf :
          (a : Answer (Text × ℕ))
          → e.cloud.ensure_host_rule e.listener_arn job.hostname g.target_group_arn 40001 50000 ≡ a
          → Leaf e db job lease attaching_certificate (rule_ensured e db job lease a)
      unfolding rule_ensured
      rule_ensured-Leaf (fails err) h =
          if-Leaf e db job lease (err.is_a host_rule_target_conflict) (gives_up _ _ fails_attaching)
            (fail_or_retry-Leaf e db job lease _ _ err fails_attaching)
      rule_ensured-Leaf (ok (rule, priority)) h =
          completes
            (record {
              managed = managed;
              details = d;
              described = described;
              is_issued = is_issued;
              listener = listener;
              gateway = g;
              found = found;
              rule_arn = rule;
              priority = priority;
              routed = h;
            })
            refl

    module _ (is_issued : read_status (upper_status e.unicode d.status) ≡ issued)
        (listener : e.cloud.attach_certificate e.listener_arn (deref job.certificate_arn)
          ≡ ok tt) where
      ingress_resolved-Leaf :
          (a : IngressReply)
          → get_active_project_gateway_ingress db job.project_id ≡ a
          → Leaf e db job lease attaching_certificate (ingress_resolved e db job lease a)
      unfolding ingress_resolved
      ingress_resolved-Leaf (no_ingress err) h = retries _ _
      ingress_resolved-Leaf (ingress g) h = rule_ensured-Leaf is_issued listener g h _ refl

    listener_attached-Leaf :
        read_status (upper_status e.unicode d.status) ≡ issued
        → (a : Answer (Unit {0}))
        → e.cloud.attach_certificate e.listener_arn (deref job.certificate_arn) ≡ a
        → Leaf e db job lease attaching_certificate (listener_attached e db job lease a)
    unfolding listener_attached
    listener_attached-Leaf i (fails err) h =
        fail_or_retry-Leaf e db job lease _ _ err fails_attaching
    listener_attached-Leaf i (ok u) h = ingress_resolved-Leaf i h _ refl

    attaching_by_status-Leaf :
        (a : AcmStatus)
        → read_status (upper_status e.unicode d.status) ≡ a
        → Leaf e db job lease attaching_certificate
            (attaching_by_status e db job lease d (upper_status e.unicode d.status) a)
    unfolding attaching_by_status
    attaching_by_status-Leaf issued h = listener_attached-Leaf h _ refl
    attaching_by_status-Leaf pending_validation h = polls _
    attaching_by_status-Leaf broken h = gives_up _ _ fails_attaching
    attaching_by_status-Leaf other h = retries _ _

  attaching_described-Leaf :
      job.certificate_managed ≡ true
      → (a : Answer CertificateDetails)
      → e.cloud.describe_certificate (deref job.certificate_arn) ≡ a
      → Leaf e db job lease attaching_certificate (attaching_described e db job lease a)
  unfolding attaching_described
  attaching_described-Leaf m (fails err) h =
      fail_or_retry-Leaf e db job lease _ _ err fails_attaching
  attaching_described-Leaf m (ok d) h = attaching_by_status-Leaf m d h _ refl

  managed-Leaf :
      (b : Bool)
      → job.certificate_managed ≡ b
      → Leaf e db job lease attaching_certificate (
          if not b
          then fail_at e db job lease [] attaching_certificate not_managed
          else attaching_described e db job lease
              (e.cloud.describe_certificate (deref job.certificate_arn)))
  managed-Leaf false m = gives_up _ _ fails_attaching
  managed-Leaf true m = attaching_described-Leaf m _ refl

  pub attaching_stage-Leaf :
      Leaf e db job lease attaching_certificate (attaching_stage e db job lease)
  unfolding attaching_stage
  attaching_stage-Leaf =
      if-Leaf e db job lease _ (gives_up _ _ fails_attaching) (managed-Leaf _ refl)
