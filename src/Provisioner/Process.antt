-- ===== src/Provisioner/Process.antt =====
-- provisioner.go, ProcessNextJob: claim a job and give it to the handler of its status.
use elite_gate.Prelude.{ℕ, ◌*◌, ◌^◌, Bool, true, false, [], Option, none, some, pos}
use elite_gate.Domain.{
  ProvisioningJob, ProvisioningStatus, requesting_certificate, waiting_for_validation_record,
  waiting_for_dns, attaching_certificate, deprovisioning,
}
use elite_gate.DomainRepo.{Store}
use elite_gate.DomainRepo.Lease.{release_provisioning_lease}
use elite_gate.DomainRepo.Queue.{Claim, claim_error, no_job, claimed, claim_next_provisioning_job}
use elite_gate.Provisioner.{Env, Outcome, repo_error}
use elite_gate.Provisioner.Stages.{
  handle_requesting_certificate, handle_waiting_for_validation_record, handle_waiting_for_dns,
}
use elite_gate.Provisioner.Attaching.{handle_attaching_certificate}
use elite_gate.Provisioner.Removing.{handle_deprovisioning}

-- The default case: the lease is given back, and what that answers is ignored.
abbrev pub release_unhandled : Env → Store → ℕ → Option ℕ → Store
release_unhandled e db id none = db
release_unhandled e db id (some lease) = (release_provisioning_lease db e.db_now id lease).0

unfoldable pub dispatch : Env → Store → ProvisioningJob → ProvisioningStatus → Outcome
unfolding handle_requesting_certificate handle_waiting_for_validation_record handle_waiting_for_dns
    handle_attaching_certificate handle_deprovisioning release_provisioning_lease
dispatch e db job requesting_certificate = handle_requesting_certificate e db job
dispatch e db job waiting_for_validation_record = handle_waiting_for_validation_record e db job
dispatch e db job waiting_for_dns = handle_waiting_for_dns e db job
dispatch e db job attaching_certificate = handle_attaching_certificate e db job
dispatch e db job deprovisioning = handle_deprovisioning e db job
dispatch e db job _ = record {
  store = release_unhandled e db job.id job.lease_token;
  calls = [];
  error = none;
}

-- Whether a job was processed.
abbrev pub process_claim : Env → Store × Claim → Outcome × Bool
process_claim e (db, claim_error err) =
    (record { store = db; calls = []; error = some (repo_error err) }, false)
process_claim e (db, no_job) = (record { store = db; calls = []; error = none }, false)
process_claim e (db, claimed job) = (dispatch e db job job.provisioning_status, true)

-- `token` is the uuid that the claim makes.
unfoldable pub process_next_job : Env → ℕ → Store → Outcome × Bool
unfolding dispatch claim_next_provisioning_job
process_next_job e token db =
    process_claim e
      (claim_next_provisioning_job db e.now e.db_now e.worker_id (pos (300 * 10 ^ 9)) token)
