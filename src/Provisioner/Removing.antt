-- ===== src/Provisioner/Removing.antt =====
-- provisioner.go, handleDeprovisioning: the host rule, the listener, the certificate, the row.
use elite_gate.Prelude.{ℕ, true, false, ◌&&◌, not, [], ◌∷◌, ◌++◌, if◌then◌else◌}
use elite_gate.Text.{is_empty, trim_space}
use elite_gate.Domain.{ProvisioningJob, deprovisioning}
use elite_gate.DomainRepo.{Store}
use elite_gate.DomainRepo.Lease.{mark_deprovision_failed, mark_deprovisioned}
use elite_gate.Provisioner.{
  Env, Answer, ok, fails, Call, Calls, deletes_certificate, detaches, deletes_rule, Outcome,
  ends_with_repo, is_blank, deref,
}
use elite_gate.Provisioner.Errors.{
  Reason, reason_text, ErrorCategory, transient, terminal, classify_aws_error,
  is_resource_not_found_err,
}
use elite_gate.Provisioner.Stages.{with_lease, retry_after}

module _ (e : Env) (db : Store) (job : ProvisioningJob) (lease : ℕ) where
  open e use {unicode, cloud, listener_arn, db_now, has_load_balancer, has_certificates}

  abbrev pub stop_by : Calls → ErrorCategory × Reason → Outcome
  stop_by calls (transient, reason) = retry_after e db job lease calls deprovisioning reason
  stop_by calls (terminal, reason) =
      ends_with_repo calls (mark_deprovision_failed db db_now job.id lease (reason_text reason))

  -- The test after each call: `err != nil && !isResourceNotFoundErr(err)`.
  unfoldable pub after_removal : Calls → Call → Answer (Unit {0}) → (Calls → Outcome) → Outcome
  unfolding retry_after
  after_removal calls call (ok _) k = k (calls ++ (call, true) ∷ [])
  after_removal calls call (fails err) k =
      if is_resource_not_found_err unicode err
      then k (calls ++ (call, true) ∷ [])
      else stop_by (calls ++ (call, false) ∷ []) (classify_aws_error unicode err)

  -- Step 4.
  unfoldable pub finish_removal : Calls → Outcome
  finish_removal calls = ends_with_repo calls (mark_deprovisioned db db_now job.id lease)

  -- Step 3.
  unfoldable pub remove_certificate : Calls → Outcome
  unfolding after_removal finish_removal
  remove_certificate calls =
      if has_certificates
      then after_removal calls deletes_certificate
          (cloud.delete_certificate (deref job.certificate_arn)) finish_removal
      else finish_removal calls

  -- Step 2.
  unfoldable pub remove_from_listener : Calls → Outcome
  unfolding after_removal remove_certificate
  remove_from_listener calls =
      if not (is_empty listener_arn) && has_load_balancer
      then after_removal calls detaches
          (cloud.detach_certificate listener_arn (deref job.certificate_arn)) remove_certificate
      else remove_certificate calls

  -- The test of the ownership of the certificate.
  unfoldable pub remove_owned : Calls → Outcome
  unfolding remove_from_listener finish_removal
  remove_owned calls =
      if not (is_blank job.certificate_arn) && job.certificate_managed
      then remove_from_listener calls
      else finish_removal calls

  -- Step 1.
  unfoldable pub removing_stage : Outcome
  unfolding after_removal remove_owned
  removing_stage =
      if not (is_empty (trim_space unicode (deref job.listener_rule_arn))) && has_load_balancer
      then after_removal [] deletes_rule (cloud.delete_host_rule (deref job.listener_rule_arn))
          remove_owned
      else remove_owned []

unfoldable pub handle_deprovisioning : Env → Store → ProvisioningJob → Outcome
unfolding removing_stage
handle_deprovisioning e db job = with_lease db job.lease_token (removing_stage e db job)
