-- ===== src/GatewayWorker/Handlers.antt =====
-- gateway_provisioner.go: the handlers of the statuses.
use elite_gate.Prelude.{
  ◌+◌, true, false, ◌&&◌, ◌||◌, not, [], ◌∷◌, ◌++◌, Option, none, some, if◌then◌else◌, ltb,
}
use elite_gate.Text.{Text, codes, is_empty, text_eq, to_lower, trim_space}
use elite_gate.Provisioner.{Answer, ok, fails}
use elite_gate.Gateways.{GatewayTable}
use elite_gate.Gateways.Queue.{GatewayProvisioningJob}
use elite_gate.Gateways.Priority.{
  Reservation, reserved, not_reserved, reserve_gateway_listener_rule_priority,
}
use elite_gate.Gateways.Ingress.{
  mark_gateway_target_group_created, mark_gateway_target_registered,
  mark_gateway_listener_rule_created, mark_gateway_ingress_active, reschedule_gateway_health_check,
  mark_gateway_decommissioned,
}
use elite_gate.GatewayWorker.{
  GatewayEnv, GatewayCall, GatewayCalls, GatewayOutcome, returns_saved, retry_or_fail, fail_job,
  error_text, health_poll_interval, creates_group, registers_target, asks_health, creates_host_rule,
  deletes_host_rule, deregisters_target, deletes_group, removes_container,
}
use elite_gate.GatewayWorker.Names.{gateway_target_group_name, gateway_hostname}

module _ (e : GatewayEnv) (job : GatewayProvisioningJob) where
  abbrev pub bad_port_message : Text
  bad_port_message = codes "invalid Docker host port " ++ e.decimal job.host_port

  unfoldable pub host_of : Text
  host_of = gateway_hostname e.unicode e.sha256_hex job.external_id e.base_domain

  module _ (db : GatewayTable) where
    unfoldable pub group_created : Answer Text → GatewayOutcome
    group_created (fails err) = retry_or_fail e db job ((creates_group, false) ∷ []) err.message
    group_created (ok arn) =
        returns_saved ((creates_group, true) ∷ [])
          (mark_gateway_target_group_created db e.db_now job.external_id job.lease_token arn)

    unfoldable pub handle_container_ready : GatewayOutcome
    handle_container_ready =
        if ltb job.host_port 1 || ltb 65535 job.host_port
        then fail_job e db job [] bad_port_message
        else group_created (
            e.cloud.create_target_group
              (gateway_target_group_name e.unicode e.sha256_hex job.external_id) e.vpc_id)

    unfoldable pub target_registered : Answer (Unit {0}) → GatewayOutcome
    target_registered (fails err) =
        retry_or_fail e db job ((registers_target, false) ∷ []) err.message
    target_registered (ok _) =
        returns_saved ((registers_target, true) ∷ [])
          (mark_gateway_target_registered db e.db_now job.external_id job.lease_token)

    unfoldable pub handle_registering_target : GatewayOutcome
    handle_registering_target =
        if is_empty job.target_group_arn
        then fail_job e db job [] (codes "target group ARN is missing")
        else target_registered
            (e.cloud.register_target job.target_group_arn e.instance_id job.host_port)

    unfoldable pub rule_created : Answer Text → GatewayOutcome
    rule_created (fails err) = retry_or_fail e db job ((creates_host_rule, false) ∷ []) err.message
    rule_created (ok arn) = returns_saved ((creates_host_rule, true) ∷ []) (
        mark_gateway_listener_rule_created db e.db_now job.external_id job.lease_token arn
          (e.now + health_poll_interval))

    unfoldable pub health_read : Text → GatewayOutcome
    health_read state =
        if text_eq state (codes "healthy")
        then returns_saved ((asks_health, true) ∷ []) (
            mark_gateway_ingress_active db e.db_now job.external_id job.lease_token host_of
              (codes "https://" ++ host_of))
        else if text_eq state (codes "unhealthy")
        then retry_or_fail e db job ((asks_health, true) ∷ [])
            (codes "ALB reports the dedicated gateway target as unhealthy")
        else returns_saved ((asks_health, true) ∷ []) (
            reschedule_gateway_health_check db e.db_now job.external_id job.lease_token
              (e.now + health_poll_interval))

    unfoldable pub health_answered : Answer Text → GatewayOutcome
    health_answered (fails err) = retry_or_fail e db job ((asks_health, false) ∷ []) err.message
    health_answered (ok state) = health_read (to_lower e.unicode (trim_space e.unicode state))

    unfoldable pub handle_waiting_for_target_health : GatewayOutcome
    handle_waiting_for_target_health =
        if is_empty job.target_group_arn
        then fail_job e db job [] (codes "target group ARN is missing during health check")
        else health_answered
            (e.cloud.get_target_health job.target_group_arn e.instance_id job.host_port)

    -- The test after each deletion.
    unfoldable pub after_step :
        GatewayCalls
        → GatewayCall
        → Text
        → Answer (Unit {0})
        → (GatewayCalls → GatewayOutcome)
        → GatewayOutcome
    after_step calls call prefix (ok _) k = k (calls ++ (call, true) ∷ [])
    after_step calls call prefix (fails err) k =
        retry_or_fail e db job (calls ++ (call, false) ∷ []) (prefix ++ err.message)

    unfoldable pub finish_gateway : GatewayCalls → GatewayOutcome
    finish_gateway calls =
        returns_saved calls
          (mark_gateway_decommissioned db e.db_now job.external_id job.lease_token)

    unfoldable pub remove_container :
        GatewayCalls → Option (Text → Answer (Unit {0})) → GatewayOutcome
    remove_container calls none =
        retry_or_fail e db job calls (codes "Docker container manager is not configured")
    remove_container calls (some decommission) =
        after_step calls removes_container (codes "remove gateway container: ")
          (decommission job.external_id) finish_gateway

    unfoldable pub remove_group : GatewayCalls → GatewayOutcome
    remove_group calls =
        if not (is_empty job.target_group_arn)
        then after_step calls deletes_group (codes "delete gateway target group: ")
            (e.cloud.delete_target_group job.target_group_arn)
            (λ done. remove_container done e.containers)
        else remove_container calls e.containers

    unfoldable pub remove_target : GatewayCalls → GatewayOutcome
    remove_target calls =
        if not (is_empty job.target_group_arn) && ltb 0 job.host_port
        then after_step calls deregisters_target (codes "deregister gateway target: ")
            (e.cloud.deregister_target job.target_group_arn e.instance_id job.host_port)
            remove_group
        else remove_group calls

    unfoldable pub handle_gateway_deprovisioning : GatewayOutcome
    handle_gateway_deprovisioning =
        if not (is_empty job.listener_rule_arn)
        then after_step [] deletes_host_rule (codes "delete gateway listener rule: ")
            (e.cloud.delete_host_rule job.listener_rule_arn) remove_target
        else remove_target []

  -- The table after the reservation is the one that the next statement sees.
  unfoldable pub priority_reserved : GatewayTable × Reservation → GatewayOutcome
  priority_reserved (db, not_reserved err) = retry_or_fail e db job [] (error_text e err)
  priority_reserved (db, reserved priority) =
      rule_created db
        (e.cloud.create_host_rule e.listener_arn host_of job.target_group_arn priority)

  unfoldable pub handle_creating_listener_rule : GatewayTable → GatewayOutcome
  handle_creating_listener_rule db =
      if is_empty job.target_group_arn
      then fail_job e db job [] (codes "target group ARN is missing before listener-rule creation")
      else priority_reserved (
          reserve_gateway_listener_rule_priority db e.db_now job.external_id job.lease_token
            e.priority_min e.priority_max)
