-- ===== src/GatewayWorker/Process.antt =====
-- gateway_provisioner.go, ProcessNextJob: claim a job and give it to the handler of its status.
use elite_gate.Prelude.{ℕ, ◌*◌, ◌^◌, Bool, true, false, [], none, some, pos}
use elite_gate.Gateways.{
  GatewayTable, IngressStatus, container_ready, registering_target, creating_listener_rule,
  waiting_for_target_health, deprovisioning,
}
use elite_gate.Gateways.Queue.{
  GatewayProvisioningJob, GatewayClaim, claim_fails, no_gateway_job, gateway_claimed,
  claim_next_gateway_ingress_job,
}
use elite_gate.GatewayWorker.{GatewayEnv, GatewayOutcome, unsupported_status, gateway_repo_error}
use elite_gate.GatewayWorker.Handlers.{
  handle_container_ready, handle_registering_target, handle_creating_listener_rule,
  handle_waiting_for_target_health, handle_gateway_deprovisioning,
}

unfoldable pub dispatch_gateway :
    GatewayEnv → GatewayTable → GatewayProvisioningJob → IngressStatus → GatewayOutcome
dispatch_gateway e db job container_ready = handle_container_ready e job db
dispatch_gateway e db job registering_target = handle_registering_target e job db
dispatch_gateway e db job creating_listener_rule = handle_creating_listener_rule e job db
dispatch_gateway e db job waiting_for_target_health = handle_waiting_for_target_health e job db
dispatch_gateway e db job deprovisioning = handle_gateway_deprovisioning e job db
dispatch_gateway e db job _ = record { table = db; calls = []; error = some unsupported_status }

-- Whether a job was processed.
abbrev pub process_gateway_claim : GatewayEnv → GatewayTable × GatewayClaim → GatewayOutcome × Bool
process_gateway_claim e (db, claim_fails err) =
    (record { table = db; calls = []; error = some (gateway_repo_error err) }, false)
process_gateway_claim e (db, no_gateway_job) =
    (record { table = db; calls = []; error = none }, false)
process_gateway_claim e (db, gateway_claimed job) =
    (dispatch_gateway e db job job.provisioning_status, true)

-- `token` is the uuid that the claim makes.
unfoldable pub process_next_gateway_job : GatewayEnv → ℕ → GatewayTable → GatewayOutcome × Bool
process_next_gateway_job e token db =
    process_gateway_claim e
      (claim_next_gateway_ingress_job db e.now e.db_now e.worker_id (pos (300 * 10 ^ 9)) token)
