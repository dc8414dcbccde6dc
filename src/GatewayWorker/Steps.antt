-- ===== src/GatewayWorker/Steps.antt =====
-- gateway_provisioner.go: the step that a worker makes on the row of its job, by status.
use elite_gate.Prelude.{
  ℕ, ◌+◌, ◌≤◌, ◌<◌, ◌≡◌, ◌⊎◌, true, false, ◌++◌, ◌||◌, Option, none, some, Any, ltb, pos,
}
use elite_gate.Text.{Text, codes, is_empty, text_eq, to_lower, trim_space}
use elite_gate.Table.{exec}
use elite_gate.Provisioner.{Answer, CloudError, ok, fails, calculate_retry_delay}
use elite_gate.Gateways.{
  Gateway, GatewayTable, GatewayRepoError, IngressStatus, container_ready, registering_target,
  creating_listener_rule, waiting_for_target_health, deprovisioning, is_held,
}
use elite_gate.Gateways.Queue.{GatewayProvisioningJob}
use elite_gate.Gateways.Priority.{
  set_priority, not_reserved, reserve_gateway_listener_rule_priority,
}
use elite_gate.Gateways.Reserving.{IsLeastFree}
use elite_gate.Gateways.Ingress.{
  set_target_group, set_target_registered, set_rule_created, set_health_rescheduled,
  set_ingress_active, set_ingress_retried, set_ingress_failed, ensure_gateway_ingress_updated,
  mark_gateway_decommissioned,
}
use elite_gate.GatewayWorker.{
  GatewayEnv, GatewayOutcome, GatewayCalls, returns_saved, health_poll_interval, max_retries,
}
use elite_gate.GatewayWorker.Names.{gateway_target_group_name}
use elite_gate.GatewayWorker.Handlers.{host_of}

-- What a handler does not go on with, by status.
pub data Malformed (job : GatewayProvisioningJob) : IngressStatus → Type 0 where
  bad_port : (ltb job.host_port 1 || ltb 65535 job.host_port) ≡ true → Malformed job container_ready
  no_group_to_join : is_empty job.target_group_arn ≡ true → Malformed job registering_target
  no_group_to_serve : is_empty job.target_group_arn ≡ true → Malformed job creating_listener_rule
  no_group_to_ask : is_empty job.target_group_arn ≡ true → Malformed job waiting_for_target_health

module _ (e : GatewayEnv) (job : GatewayProvisioningJob) where
  -- What has to have happened for a gateway to go live.
  pub record IsServing : Type 0 where
    pub state : Text
    pub answered :
        e.cloud.get_target_health job.target_group_arn e.instance_id job.host_port ≡ ok state
    pub healthy : text_eq (to_lower e.unicode (trim_space e.unicode state)) (codes "healthy") ≡ true

  -- What has to have happened for a gateway to be gone: its host rule, its target, its target
  -- group and its container, each where there is one.
  pub record IsRemoved : Type 0 where
    pub rule :
        is_empty job.listener_rule_arn ≡ false
        → e.cloud.delete_host_rule job.listener_rule_arn ≡ ok tt
    pub target :
        is_empty job.target_group_arn ≡ false
        → 0 < job.host_port
        → e.cloud.deregister_target job.target_group_arn e.instance_id job.host_port ≡ ok tt
    pub group :
        is_empty job.target_group_arn ≡ false
        → e.cloud.delete_target_group job.target_group_arn ≡ ok tt
    pub decommission : Text → Answer (Unit {0})
    pub configured : e.containers ≡ some decommission
    pub container : decommission job.external_id ≡ ok tt

  -- The answers for which a handler tries again, by status.
  pub data Failure : IngressStatus → Type 0 where
    group_fails :
        (err : CloudError)
        → e.cloud.create_target_group
            (gateway_target_group_name e.unicode e.sha256_hex job.external_id)
            e.vpc_id
          ≡ fails err
        → Failure container_ready
    register_fails :
        (err : CloudError)
        → e.cloud.register_target job.target_group_arn e.instance_id job.host_port ≡ fails err
        → Failure registering_target
    reserve_fails :
        (db : GatewayTable) (err : GatewayRepoError)
        → (reserve_gateway_listener_rule_priority db e.db_now job.external_id job.lease_token
            e.priority_min e.priority_max).1
          ≡ not_reserved err
        → Failure creating_listener_rule
    rule_fails :
        (priority : ℕ) (err : CloudError)
        → e.cloud.create_host_rule e.listener_arn (host_of e job) job.target_group_arn priority
          ≡ fails err
        → Failure creating_listener_rule
    health_fails :
        (err : CloudError)
        → e.cloud.get_target_health job.target_group_arn e.instance_id job.host_port ≡ fails err
        → Failure waiting_for_target_health
    unhealthy :
        (state : Text)
        → e.cloud.get_target_health job.target_group_arn e.instance_id job.host_port ≡ ok state
        → text_eq (to_lower e.unicode (trim_space e.unicode state)) (codes "unhealthy") ≡ true
        → Failure waiting_for_target_health
    rule_stays :
        (err : CloudError)
        → e.cloud.delete_host_rule job.listener_rule_arn ≡ fails err
        → Failure deprovisioning
    target_stays :
        (err : CloudError)
        → e.cloud.deregister_target job.target_group_arn e.instance_id job.host_port ≡ fails err
        → Failure deprovisioning
    group_stays :
        (err : CloudError)
        → e.cloud.delete_target_group job.target_group_arn ≡ fails err
        → Failure deprovisioning
    no_containers : e.containers ≡ none → Failure deprovisioning
    container_stays :
        (decommission : Text → Answer (Unit {0})) (err : CloudError)
        → e.containers ≡ some decommission
        → decommission job.external_id ≡ fails err
        → Failure deprovisioning

  -- The statement for a status, where the row has a listener priority or none.
  pub data Step : IngressStatus → Option ℕ → (Gateway → Gateway) → Type 0 where
    groups :
        {o : Option ℕ} (arn : Text)
        → e.cloud.create_target_group
            (gateway_target_group_name e.unicode e.sha256_hex job.external_id)
            e.vpc_id
          ≡ ok arn
        → Step container_ready o (set_target_group e.db_now arn)
    registers :
        {o : Option ℕ}
        → e.cloud.register_target job.target_group_arn e.instance_id job.host_port ≡ ok tt
        → Step registering_target o (set_target_registered e.db_now)
    rules :
        (priority : ℕ) (arn : Text)
        → e.cloud.create_host_rule e.listener_arn (host_of e job) job.target_group_arn priority
          ≡ ok arn
        → Step creating_listener_rule
            (some priority)
            (set_rule_created e.db_now arn (e.now + health_poll_interval))
    goes_live :
        {o : Option ℕ}
        → IsServing
        → Step waiting_for_target_health o
            (set_ingress_active e.db_now (host_of e job) (codes "https://" ++ host_of e job))
    rechecks :
        {o : Option ℕ} (state : Text)
        → e.cloud.get_target_health job.target_group_arn e.instance_id job.host_port ≡ ok state
        → text_eq (to_lower e.unicode (trim_space e.unicode state)) (codes "healthy") ≡ false
        → text_eq (to_lower e.unicode (trim_space e.unicode state)) (codes "unhealthy") ≡ false
        → Step waiting_for_target_health o
            (set_health_rescheduled e.db_now (e.now + health_poll_interval))
    retries :
        {at : IngressStatus} {o : Option ℕ} (message : Text)
        → job.retry_count + 1 < max_retries
        → Failure at
        → Step at o (
            set_ingress_retried e.db_now message
              (e.now + calculate_retry_delay (job.retry_count + 1)))
    gives_up :
        {at : IngressStatus} {o : Option ℕ} (message : Text)
        → ((max_retries ≤ job.retry_count + 1) × Failure at) ⊎ Malformed job at
        → Step at o (set_ingress_failed e.db_now message)

  -- The last statement of a handler.
  pub data Leaf (db : GatewayTable) (at : IngressStatus) (o : Option ℕ)
      : GatewayOutcome → Type 0 where
    writes :
        {change : Gateway → Gateway} (calls : GatewayCalls)
        → Step at o change
        → Leaf db at o (
            returns_saved calls
              (ensure_gateway_ingress_updated db job.external_id job.lease_token change))
    removes :
        (calls : GatewayCalls)
        → IsRemoved
        → at ≡ deprovisioning
        → Leaf db at o (
            returns_saved calls
              (mark_gateway_decommissioned db e.db_now job.external_id job.lease_token))

  -- The table that the last statement sees, and the listener priority of the held row in it, where
  -- the handler asks for one.
  pub data Prepared (db : GatewayTable) : IngressStatus → Option ℕ → GatewayTable → Type 0 where
    kept :
        (r : Gateway) (n : ℕ)
        → Any (λ s. s ≡ r) db.rows
        → is_held job.external_id job.lease_token r ≡ true
        → r.listener_rule_priority ≡ some n
        → Prepared db creating_listener_rule (some n) db
    reserves :
        {low high : ℕ} (p : ℕ)
        → e.priority_min ≡ pos low
        → e.priority_max ≡ pos high
        → IsLeastFree db.rows low high p
        → Prepared db creating_listener_rule (some p) (record db {
          rows = exec (is_held job.external_id job.lease_token) (set_priority e.db_now p) db.rows;
        })

  pub data Handled (db : GatewayTable) (at : IngressStatus) : GatewayOutcome → Type 0 where
    plain : {out : GatewayOutcome} → ((o : Option ℕ) → Leaf db at o out) → Handled db at out
    handles :
        {o : Option ℕ} {then_db : GatewayTable} {out : GatewayOutcome}
        → Prepared db at o then_db
        → Leaf then_db at o out
        → Handled db at out
