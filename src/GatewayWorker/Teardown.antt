-- ===== src/GatewayWorker/Teardown.antt =====
-- gateway_provisioner.go, handleDeprovisioning: what has gone before its last statement.
use elite_gate.Prelude.{
  ℕ, ◌<◌, ◌≡◌, refl, Bool, true, false, ◌&&◌, not, Option, none, some, ltb, arith, true_not_false,
}
use elite_gate.Text.{Text, is_empty}
use elite_gate.Provisioner.{Answer, ok}
use elite_gate.Gateways.{
  GatewayTable, IngressStatus, container_ready, registering_target, creating_listener_rule,
  waiting_for_target_health, deprovisioning,
}
use elite_gate.Gateways.Queue.{GatewayProvisioningJob}
use elite_gate.GatewayWorker.{GatewayEnv, GatewayCalls}
use elite_gate.GatewayWorker.Handlers.{
  finish_gateway, remove_container, remove_group, remove_target, handle_gateway_deprovisioning,
}
use elite_gate.GatewayWorker.Process.{dispatch_gateway}
use elite_gate.GatewayWorker.Steps.{
  Leaf, removes, Handled, plain, rule_stays, target_stays, group_stays, no_containers,
  container_stays,
}
use elite_gate.GatewayWorker.Leaves.{
  if-Leaf, retry_or_fail-Leaf, after_step-Leaf, handle_container_ready-Leaf,
  handle_registering_target-Leaf, handle_waiting_for_target_health-Leaf,
  handle_creating_listener_rule-Handled,
}

module _ (e : GatewayEnv) (job : GatewayProvisioningJob) where
  -- What the steps so far have done.
  abbrev RuleGone : Type 0
  RuleGone =
      is_empty job.listener_rule_arn ≡ false
      → e.cloud.delete_host_rule job.listener_rule_arn ≡ ok tt

  abbrev TargetGone : Type 0
  TargetGone =
      is_empty job.target_group_arn ≡ false
      → 0 < job.host_port
      → e.cloud.deregister_target job.target_group_arn e.instance_id job.host_port ≡ ok tt

  abbrev GroupGone : Type 0
  GroupGone =
      is_empty job.target_group_arn ≡ false
      → e.cloud.delete_target_group job.target_group_arn ≡ ok tt

  module _ (o : Option ℕ) (db : GatewayTable) where
    remove_container-Leaf :
        (calls : GatewayCalls) (containers : Option (Text → Answer (Unit {0})))
        → e.containers ≡ containers
        → RuleGone
        → TargetGone
        → GroupGone
        → Leaf e job db deprovisioning o (remove_container e job db calls containers)
    unfolding remove_container finish_gateway
    remove_container-Leaf calls none h rule target group =
        retry_or_fail-Leaf e job o db _ _ (no_containers h)
    remove_container-Leaf calls (some decommission) h rule target group =
        after_step-Leaf e job o db _ _ _ _ _ (λ err f. container_stays decommission err h f)
          (λ gone done.
            removes done
              (record {
                rule = rule;
                target = target;
                group = group;
                decommission = decommission;
                configured = h;
                container = gone;
              })
              refl)

    remove_group-Leaf :
        (calls : GatewayCalls)
        → RuleGone
        → TargetGone
        → Leaf e job db deprovisioning o (remove_group e job db calls)
    unfolding remove_group
    remove_group-Leaf calls rule target =
        if-Leaf e job o db (not (is_empty job.target_group_arn))
          (λ _.
            after_step-Leaf e job o db _ _ _ _ _ (λ err f. group_stays err f)
              (λ gone done. remove_container-Leaf done _ refl rule target (λ _. gone)))
          (λ no_group.
            remove_container-Leaf calls _ refl rule target
              (λ has_group. absurd (true_not_false (ground arith))))

    remove_target-Leaf :
        (calls : GatewayCalls)
        → RuleGone
        → Leaf e job db deprovisioning o (remove_target e job db calls)
    unfolding remove_target
    remove_target-Leaf calls rule =
        if-Leaf e job o db (not (is_empty job.target_group_arn) && ltb 0 job.host_port)
          (λ _.
            after_step-Leaf e job o db _ _ _ _ _ (λ err f. target_stays err f)
              (λ gone done. remove_group-Leaf done rule (λ _ _. gone)))
          (λ no_target.
            remove_group-Leaf calls rule (λ a b. absurd (true_not_false (ground arith))))

    handle_gateway_deprovisioning-Leaf :
        Leaf e job db deprovisioning o (handle_gateway_deprovisioning e job db)
    unfolding handle_gateway_deprovisioning
    handle_gateway_deprovisioning-Leaf =
        if-Leaf e job o db (not (is_empty job.listener_rule_arn))
          (λ _.
            after_step-Leaf e job o db _ _ _ _ _ (λ err f. rule_stays err f)
              (λ gone done. remove_target-Leaf done (λ _. gone)))
          (λ no_rule. remove_target-Leaf _ (λ a. absurd (true_not_false (ground arith))))

-- The statuses that ProcessNextJob has a case for.
abbrev pub is_handled : IngressStatus → Bool
is_handled container_ready = true
is_handled registering_target = true
is_handled creating_listener_rule = true
is_handled waiting_for_target_health = true
is_handled deprovisioning = true
is_handled _ = false

pub dispatch_gateway-Handled :
    (e : GatewayEnv) (db : GatewayTable) (job : GatewayProvisioningJob) (at : IngressStatus)
    → is_handled at ≡ true
    → Handled e job db at (dispatch_gateway e db job at)
unfolding dispatch_gateway
dispatch_gateway-Handled e db job container_ready h =
    plain (λ o. handle_container_ready-Leaf e job o db)
dispatch_gateway-Handled e db job registering_target h =
    plain (λ o. handle_registering_target-Leaf e job o db)
dispatch_gateway-Handled e db job creating_listener_rule h =
    handle_creating_listener_rule-Handled e job db
dispatch_gateway-Handled e db job waiting_for_target_health h =
    plain (λ o. handle_waiting_for_target_health-Leaf e job o db)
dispatch_gateway-Handled e db job deprovisioning h =
    plain (λ o. handle_gateway_deprovisioning-Leaf e job o db)
dispatch_gateway-Handled e db job _ h = absurd (true_not_false (ground arith))
