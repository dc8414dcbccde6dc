-- ===== src/GatewayWorker.antt =====
-- cmd/worker/gateway_provisioner.go: one claimed job of a dedicated gateway.
-- The load balancer and the containers are interfaces: what they answer during one call is a
-- record, and the calls that are made are listed in their order.
pub mod Names
pub mod Labels
pub mod Handlers
pub mod Process
pub mod Steps
pub mod Leaves
pub mod Teardown
pub mod Ticked
pub mod Ticks
pub mod Effects
pub mod History
pub mod Examples
use elite_gate.Prelude.{
  ℕ, ◌+◌, ◌*◌, ◌^◌, Bool, true, false, List, [], ◌∷◌, ◌++◌, Option, none, some, if◌then◌else◌, ltb,
  leb, take, length, ℤ,
}
use elite_gate.Text.{Text, Unicode, trim_space, codes}
use elite_gate.Provisioner.{Answer, ok, fails, calculate_retry_delay}
use elite_gate.Gateways.{
  GatewayTable, GatewayRepoError, Saved, gateway_not_found, stale_gateway_ingress_lease,
  database_failure, invalid_priority_range, no_priority_available, invalid_host_port,
}
use elite_gate.Gateways.Queue.{GatewayProvisioningJob}
use elite_gate.Gateways.Ingress.{mark_gateway_ingress_failed, schedule_gateway_ingress_retry}

-- DedicatedGatewayLoadBalancerManager.
pub record GatewayCloud : Type 0 where
  pub create_target_group : Text → Text → Answer Text
  pub register_target : Text → Text → ℕ → Answer (Unit {0})
  pub get_target_health : Text → Text → ℕ → Answer Text
  pub create_host_rule : Text → Text → Text → ℕ → Answer Text
  pub delete_host_rule : Text → Answer (Unit {0})
  pub deregister_target : Text → Text → ℕ → Answer (Unit {0})
  pub delete_target_group : Text → Answer (Unit {0})

pub data GatewayCall : Type 0 where
  creates_group registers_target asks_health creates_host_rule : GatewayCall
  deletes_host_rule deregisters_target deletes_group removes_container : GatewayCall

-- A call, and whether it answered without an error.
abbrev pub GatewayCalls : Type 0
GatewayCalls = List (GatewayCall × Bool)

-- GatewayProvisioner, its clock, NOW() of the database, SHA-256 in hex, and the text of the
-- database driver's error while it is down, and %d of fmt, during one call. `containers` is Decommission of the
-- container manager, none where that is nil.
pub record GatewayEnv : Type 0 where
  pub unicode : Unicode
  pub cloud : GatewayCloud
  pub containers : Option (Text → Answer (Unit {0}))
  pub worker_id : Text
  pub listener_arn : Text
  pub vpc_id : Text
  pub instance_id : Text
  pub base_domain : Text
  pub priority_min : ℤ
  pub priority_max : ℤ
  pub now : ℕ
  pub db_now : ℕ
  pub sha256_hex : Text → Text
  pub driver_error : Text
  pub decimal : ℕ → Text

-- The values that NewGatewayProvisioner sets, in nanoseconds.
abbrev pub max_retries : ℕ
max_retries = 10

abbrev pub health_poll_interval : ℕ
health_poll_interval = 15 * 10 ^ 9

pub data GatewayWorkerError : Type 0 where
  unsupported_status : GatewayWorkerError
  gateway_repo_error : GatewayRepoError → GatewayWorkerError

pub record GatewayOutcome : Type 0 where
  pub table : GatewayTable
  pub calls : GatewayCalls
  pub error : Option GatewayWorkerError

abbrev pub wrapped_error : Option GatewayRepoError → Option GatewayWorkerError
wrapped_error none = none
wrapped_error (some err) = some (gateway_repo_error err)

-- `return p.repo.…`, after the calls so far.
abbrev pub returns_saved : GatewayCalls → Saved → GatewayOutcome
returns_saved calls (db, err) = record { table = db; calls = calls; error = wrapped_error err }

-- err.Error() of an error of the repository.
abbrev pub error_text : GatewayEnv → GatewayRepoError → Text
error_text e gateway_not_found = codes "gateway not found"
error_text e stale_gateway_ingress_lease = codes "gateway ingress job lease is stale"
error_text e invalid_priority_range = codes "invalid ALB listener priority range"
error_text e no_priority_available = codes "no ALB listener-rule priority is available"
error_text e invalid_host_port = codes "invalid Docker host port"
error_text e database_failure = e.driver_error

-- message[:1000] where it is longer.
unfoldable pub stored_message : GatewayEnv → Text → Text
unfolding trim_space
stored_message e message =
    let trimmed = trim_space e.unicode message in
    if ltb 1000 (length trimmed) then take 1000 trimmed else trimmed

module _ (e : GatewayEnv) (db : GatewayTable) (job : GatewayProvisioningJob) where
  unfoldable pub retry_or_fail : GatewayCalls → Text → GatewayOutcome
  unfolding stored_message mark_gateway_ingress_failed schedule_gateway_ingress_retry
      calculate_retry_delay
  retry_or_fail calls message =
      if leb max_retries (job.retry_count + 1)
      then returns_saved calls (
          mark_gateway_ingress_failed db e.db_now job.external_id job.lease_token
            (stored_message e message))
      else returns_saved calls (
          schedule_gateway_ingress_retry db e.db_now job.external_id job.lease_token
            (stored_message e message) (e.now + calculate_retry_delay (job.retry_count + 1)))

  unfoldable pub fail_job : GatewayCalls → Text → GatewayOutcome
  unfolding mark_gateway_ingress_failed
  fail_job calls message =
      returns_saved calls
        (mark_gateway_ingress_failed db e.db_now job.external_id job.lease_token message)
