-- ===== src/Provisioner/Examples.antt =====
-- The theorems on ProcessNextJob at a table of two rows and a cloud that answers every call.
use elite_gate.Prelude.{◌*◌, ◌^◌, ◌≤◌, ◌≡◌, refl, ◌⊎◌, [], ◌∷◌, map, none, true, false, All, arith}
use elite_gate.Text.{codes, plain, text_eq, to_upper, trim_space}
use elite_gate.Provisioner.Errors.{read_status, upper_status}
use elite_gate.DomainRepo.Ingress.{get_active_project_gateway_ingress}
use elite_gate.DomainRepo.Lease.{mark_provisioning_completed}
use elite_gate.Domain.{
  attaching_certificate, requesting_certificate, deprovisioning, completed, deprovisioned,
  same_status,
}
use elite_gate.DomainRepo.{Store}
use elite_gate.Table.Effects.{Rows}
use elite_gate.DomainRepo.Queue.{is_claimable, set_claimed, job_of}
use elite_gate.DomainRepo.Fixtures.{table_at, table_at-HasKeys}
use elite_gate.Provisioner.{
  Env, Cloud, ok, deletes_rule, detaches, deletes_certificate, calculate_retry_delay,
}
use elite_gate.Provisioner.Process.{process_next_job}
use elite_gate.Provisioner.Leaves.{◌⟶◌, Activated, Dismantled}
use elite_gate.Provisioner.Leases.{IsFree, process_next_job-IsFree}
use elite_gate.Provisioner.Ticks.{claimed_store}
use elite_gate.Provisioner.Effects.{
  process_next_job-Rows, process_next_job-Activated, process_next_job-Dismantled,
}
use elite_gate.Provisioner.Retries.{calculate_retry_delay_lem}

abbrev cloud : Cloud
cloud = record {
  request_certificate = λ host token. ok (codes "arn:cert");
  describe_certificate = λ arn. ok (record {
    arn = arn;
    status = codes "ISSUED";
    validation_name = [];
    validation_value = [];
    failure_reason = [];
    issued_at = none;
  });
  delete_certificate = λ arn. ok tt;
  attach_certificate = λ listener arn. ok tt;
  detach_certificate = λ listener arn. ok tt;
  ensure_host_rule = λ listener host group low high. ok (codes "arn:rule", low);
  delete_host_rule = λ arn. ok tt;
}

abbrev env : Env
env = record {
  unicode = plain;
  cloud = cloud;
  has_load_balancer = true;
  has_certificates = true;
  worker_id = codes "w";
  listener_arn = codes "arn:listener";
  poll_interval = 30;
  now = 5;
  db_now = 5;
  hex_digest = λ id. codes "00";
  driver_error = codes "down";
}

abbrev up : Store
up = table_at attaching_certificate

abbrev down : Store
down = table_at deprovisioning

process_next_job-Rows_example :
    Rows
      (λ r s.
        (s ≡ r)
        ⊎ ((is_claimable 5 5 (300 * 10 ^ 9) r ≡ true)
            × (r.provisioning_status ⟶ s.provisioning_status)
            × (s.id ≡ r.id)
            × (s.project_id ≡ r.project_id)
            × (s.hostname ≡ r.hostname)))
      up.rows
      (process_next_job env 9 up).0.store.rows
process_next_job-Rows_example =
    process_next_job-Rows env 9 up (table_at-HasKeys attaching_certificate)

process_next_job-Activated_example :
    Rows
      (λ r s.
        (same_status s.provisioning_status completed ≡ false)
        ⊎ (s ≡ r)
        ⊎ Activated env (claimed_store env 9 up) (job_of (set_claimed 5 (codes "w") 9 r)))
      up.rows
      (process_next_job env 9 up).0.store.rows
process_next_job-Activated_example =
    process_next_job-Activated env 9 up (table_at-HasKeys attaching_certificate)

process_next_job-Dismantled_example :
    Rows
      (λ r s.
        (same_status s.provisioning_status deprovisioned ≡ false)
        ⊎ (s ≡ r)
        ⊎ Dismantled env (job_of (set_claimed 5 (codes "w") 9 r)))
      down.rows
      (process_next_job env 9 down).0.store.rows
process_next_job-Dismantled_example =
    process_next_job-Dismantled env 9 down (table_at-HasKeys deprovisioning)

process_next_job-IsFree_example : All (IsFree 9) (process_next_job env 9 up).0.store.rows
process_next_job-IsFree_example =
    process_next_job-IsFree env 9 up refl (λ rows. refl) (table_at-HasKeys attaching_certificate)
      ((λ h. cc), ((λ h. cc), tt))

calculate_retry_delay_lem_example :
    (calculate_retry_delay 2 ≤ calculate_retry_delay 4)
    × (15 * 10 ^ 9 ≤ calculate_retry_delay 2)
    × (calculate_retry_delay 4 ≤ 300 * 10 ^ 9)
calculate_retry_delay_lem_example = calculate_retry_delay_lem 2 4 (omega arith)

-- The first row goes live.
goes_live :
    map (λ r. r.provisioning_status) (process_next_job env 9 up).0.store.rows
    ≡ completed ∷ requesting_certificate ∷ []
unfolding process_next_job read_status text_eq upper_status to_upper trim_space
    get_active_project_gateway_ingress mark_provisioning_completed same_status
goes_live = refl

-- The first row goes away, by three calls.
goes_away :
    (process_next_job env 9 down).0.calls
    ≡ (deletes_rule, true) ∷ (detaches, true) ∷ (deletes_certificate, true) ∷ []
unfolding process_next_job trim_space
goes_away = refl
