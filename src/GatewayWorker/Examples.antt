-- ===== src/GatewayWorker/Examples.antt =====
-- The theorems on ProcessNextJob of gateways at a table of two rows and a cloud that answers every
-- call.
use elite_gate.Prelude.{◌≡◌, refl, ◌⊎◌, ◌≢◌, ◌++◌, true, false, [], ◌∷◌, none, some, pos, List}
use elite_gate.Text.{Text, codes, plain}
use elite_gate.Table.Effects.{Rows}
use elite_gate.Provisioner.{ok}
use elite_gate.Gateways.{waiting_for_target_health, deprovisioning, deprovisioned, completed}
use elite_gate.Gateways.Queue.{gateway_job_of}
use elite_gate.Gateways.Invariant.{IsSound}
use elite_gate.Gateways.Examples.{fleet_at, fleet_at-IsSound}
use elite_gate.GatewayWorker.{GatewayEnv, GatewayCloud}
use elite_gate.GatewayWorker.Names.{
  gateway_target_group_name, gateway_hostname, gateway_resource_suffix,
}
use elite_gate.GatewayWorker.Labels.{IsLabel, gateway_names-IsLabel}
use elite_gate.GatewayWorker.Process.{process_next_gateway_job}
use elite_gate.GatewayWorker.Steps.{IsServing, IsRemoved}
use elite_gate.GatewayWorker.Teardown.{is_handled}
use elite_gate.GatewayWorker.Ticked.{Ticked, is_due_for}
use elite_gate.GatewayWorker.Effects.{
  process_next_gateway_job-IsServing, process_next_gateway_job-IsRemoved,
  process_next_gateway_job-unlocked,
}
use elite_gate.GatewayWorker.History.{
  GatewayOp, ticks, queues_removal, apply_ops, apply_ops-IsSound,
}

abbrev sha : Text → Text
sha t = codes "0123456789abcdef"

abbrev cloud : GatewayCloud
cloud = record {
  create_target_group = λ name vpc. ok (codes "arn:tg");
  register_target = λ arn instance port. ok tt;
  get_target_health = λ arn instance port. ok (codes "healthy");
  create_host_rule = λ listener host arn priority. ok (codes "arn:rule");
  delete_host_rule = λ arn. ok tt;
  deregister_target = λ arn instance port. ok tt;
  delete_target_group = λ arn. ok tt;
}

abbrev env : GatewayEnv
env = record {
  unicode = plain;
  cloud = cloud;
  containers = some (λ id. ok tt);
  worker_id = codes "w";
  listener_arn = codes "arn:listener";
  vpc_id = codes "vpc";
  instance_id = codes "i";
  base_domain = codes "example.com";
  priority_min = pos 1000;
  priority_max = pos 1009;
  now = 5;
  db_now = 5;
  sha256_hex = sha;
  driver_error = codes "down";
  decimal = λ n. codes "0";
}

process_next_gateway_job-IsServing_example :
    Rows
      (λ r s. (s.provisioning_status ≢ completed) ⊎ (s ≡ r) ⊎ IsServing env (gateway_job_of 3 r))
      (fleet_at waiting_for_target_health).rows
      (process_next_gateway_job env 3 (fleet_at waiting_for_target_health)).0.table.rows
process_next_gateway_job-IsServing_example =
    process_next_gateway_job-IsServing env 3 (fleet_at waiting_for_target_health)
      (fleet_at-IsSound waiting_for_target_health).ids

process_next_gateway_job-IsRemoved_example :
    Rows
      (λ r s.
        (s.provisioning_status ≢ deprovisioned)
        ⊎ (s ≡ r)
        ⊎ ((r.provisioning_status ≡ deprovisioning) × IsRemoved env (gateway_job_of 3 r)))
      (fleet_at deprovisioning).rows
      (process_next_gateway_job env 3 (fleet_at deprovisioning)).0.table.rows
process_next_gateway_job-IsRemoved_example =
    process_next_gateway_job-IsRemoved env 3 (fleet_at deprovisioning)
      (fleet_at-IsSound deprovisioning).ids

process_next_gateway_job-unlocked_example :
    Rows
      (λ r s.
        (s.lease_token ≡ r.lease_token)
        ⊎ (s.lease_token ≡ none)
        ⊎ ((is_handled s.provisioning_status ≡ false) × (is_due_for env r ≡ true)))
      (fleet_at deprovisioning).rows
      (process_next_gateway_job env 3 (fleet_at deprovisioning)).0.table.rows
process_next_gateway_job-unlocked_example =
    process_next_gateway_job-unlocked env 3 (fleet_at deprovisioning) (λ rows. refl)
      (fleet_at-IsSound deprovisioning).ids

abbrev delete_and_work : List GatewayOp
delete_and_work = queues_removal 4 (codes "gw_a1") (pos 0) ∷ ticks env 3 ∷ []

apply_ops-IsSound_example : IsSound (apply_ops delete_and_work (fleet_at completed)).rows
apply_ops-IsSound_example =
    apply_ops-IsSound delete_and_work (fleet_at completed) (fleet_at-IsSound completed)

gateway_names-IsLabel_example :
    IsLabel 26 (gateway_target_group_name plain sha (codes "gw_A_1"))
    × ((label : Text) × IsLabel 23 label
        × (gateway_hostname plain sha (codes "gw_A_1") (codes "example.com")
            ≡ label ++ codes "." ++ codes "example.com"))
gateway_names-IsLabel_example =
    gateway_names-IsLabel plain sha (codes "gw_A_1") (codes "example.com") refl refl

gateway_resource_suffix_test : gateway_resource_suffix plain sha (codes "gw_A_1") ≡ codes "a-1"
unfolding gateway_resource_suffix
gateway_resource_suffix_test = refl
