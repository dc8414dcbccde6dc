-- ===== src/DomainRepo/Examples.antt =====
-- The theorems on the statements at a table of two rows.
use elite_gate.Prelude.{refl, none, pos}
use elite_gate.Text.{codes}
use elite_gate.Table.{find}
use elite_gate.Domain.{
  deprovisioning, deprovision_failed, attaching_certificate, completed, waiting_for_dns, ready,
}
use elite_gate.DomainRepo.{Store}
use elite_gate.Table.Order.{lock_timeout_of}
use elite_gate.DomainRepo.Queue.{claim_next_provisioning_job}
use elite_gate.DomainRepo.Claiming.{Claiming, claim_next_provisioning_job_lem}
use elite_gate.DomainRepo.Lease.{
  AdvanceParams, release_provisioning_lease, advance_provisioning_state, schedule_provisioning_poll,
  schedule_provisioning_retry, mark_provisioning_failed, mark_provisioning_completed,
  mark_deprovisioned, mark_deprovision_failed,
}
use elite_gate.DomainRepo.Replies.{Overtaken, enqueue_deprovisioning_lem}
use elite_gate.DomainRepo.Requests.{
  update_returning, reread, get_by_id_for_project, enqueue_provisioning,
  reset_provisioning_for_retry, enqueue_deprovisioning, reset_deprovisioning_for_retry, mark_active,
  update_routing_status, mark_verified, record_verification_failure, soft_delete,
}
use elite_gate.DomainRepo.Tenants.{Confined, requests-Confined}
use elite_gate.DomainRepo.Spent.{Refuses, stale_worker-Refuses}
use elite_gate.DomainRepo.OneWrite.{Spends, lease_op-Spends}
use elite_gate.DomainRepo.Fixtures.{table_at, leased_table, table_at-HasKeys, leased_table-HasKeys}

abbrev waiting : Store
waiting = table_at attaching_certificate

claim_next_provisioning_job_lem_example :
    Claiming waiting 5 5
      (lock_timeout_of (pos 60))
      (codes "w")
      9
      (claim_next_provisioning_job waiting 5 5 (codes "w") (pos 60) 9)
claim_next_provisioning_job_lem_example =
    claim_next_provisioning_job_lem waiting 5 5 (codes "w") (pos 60) 9 refl
      (table_at-HasKeys attaching_certificate)

requests-Confined_example :
    Confined 1 7 waiting (enqueue_provisioning waiting waiting 5 1 7).0
    × Confined 1 7 waiting (reset_provisioning_for_retry waiting 5 1 7 waiting_for_dns).0
    × Confined 1 7 waiting (enqueue_deprovisioning waiting waiting 5 1 7).0
    × Confined 1 7 waiting (reset_deprovisioning_for_retry waiting 5 1 7).0
    × Confined 1 7 waiting (mark_active waiting 5 1 7).0
    × Confined 1 7 waiting (update_routing_status waiting 5 1 7 ready (codes "t") none).0
    × Confined 1 7 waiting (mark_verified waiting 5 1 7).0
    × Confined 1 7 waiting (record_verification_failure waiting 5 1 7 (codes "no TXT")).0
    × Confined 1 7 waiting (soft_delete waiting 5 1 7).0
requests-Confined_example =
    requests-Confined waiting waiting 5 1 7 waiting_for_dns ready (codes "t") none (codes "no TXT")

abbrev to_completed : AdvanceParams
to_completed = record {
  id = 1;
  lease_token = 9;
  expected_status = attaching_certificate;
  new_status = completed;
  certificate_arn = none;
  certificate_status = none;
  certificate_managed = none;
  certificate_validation_name = none;
  certificate_validation_value = none;
  certificate_requested_at = none;
  certificate_issued_at = none;
  certificate_attached_at = none;
  next_retry_at = none;
}

stale_worker-Refuses_example :
    Refuses waiting (advance_provisioning_state waiting 5 to_completed)
    × Refuses waiting (schedule_provisioning_poll waiting 5 1 9 attaching_certificate 20)
    × Refuses waiting
        (schedule_provisioning_retry waiting 5 1 9 attaching_certificate 20 (codes "r"))
    × Refuses waiting (mark_provisioning_failed waiting 5 1 9 attaching_certificate (codes "r"))
    × Refuses waiting (mark_provisioning_completed waiting 5 1 9 (codes "r") 3)
    × Refuses waiting (mark_deprovisioned waiting 5 1 9)
    × Refuses waiting (mark_deprovision_failed waiting 5 1 9 (codes "r"))
    × Refuses waiting (release_provisioning_lease waiting 5 1 9)
stale_worker-Refuses_example =
    stale_worker-Refuses waiting 5 1 9 attaching_certificate to_completed 20 (codes "r") 3
      ((λ e h. cc), ((λ e h. cc), tt)) refl refl

lease_op-Spends_example :
    Spends 1 9 leased_table (advance_provisioning_state leased_table 5 to_completed)
    × Spends 1 9 leased_table
        (schedule_provisioning_poll leased_table 5 1 9 attaching_certificate 20)
    × Spends 1 9 leased_table
        (schedule_provisioning_retry leased_table 5 1 9 attaching_certificate 20 (codes "r"))
    × Spends 1 9 leased_table
        (mark_provisioning_failed leased_table 5 1 9 attaching_certificate (codes "r"))
    × Spends 1 9 leased_table (mark_provisioning_completed leased_table 5 1 9 (codes "r") 3)
    × Spends 1 9 leased_table (mark_deprovisioned leased_table 5 1 9)
    × Spends 1 9 leased_table (mark_deprovision_failed leased_table 5 1 9 (codes "r"))
    × Spends 1 9 leased_table (release_provisioning_lease leased_table 5 1 9)
lease_op-Spends_example =
    lease_op-Spends leased_table 5 1 9 attaching_certificate to_completed 20 (codes "r") 3
      leased_table-HasKeys

-- A worker marks the removal failed between the two statements.
enqueue_deprovisioning_lem_example :
    Overtaken (table_at deprovisioning) (table_at deprovision_failed) 1 7
unfolding enqueue_deprovisioning update_returning reread get_by_id_for_project find
enqueue_deprovisioning_lem_example =
    enqueue_deprovisioning_lem (table_at deprovisioning) (table_at deprovision_failed) 1 7 5 refl
