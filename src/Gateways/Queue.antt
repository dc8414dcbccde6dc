-- ===== src/Gateways/Queue.antt =====
-- gateway_ingress_queue.go, ClaimNextGatewayIngressJob. `now` is the worker's clock, from which the
-- expiry of old locks is taken, and `db_now` is NOW(); `token` is the new uuid.
use elite_gate.Prelude.{ℕ, Bool, true, false, ◌&&◌, [], Option, none, some, if◌then◌else◌, ℤ}
use elite_gate.Text.{Text, text_eq}
use elite_gate.Table.{exec, is_null}
use elite_gate.Table.Order.{lock_timeout_of, is_due, is_free, earlier_retry, first_of}
use elite_gate.Gateways.{
  Gateway, GatewayTable, IngressStatus, container_ready, creating_target_group, registering_target,
  waiting_for_target_health, creating_listener_rule, deprovisioning, GatewayRepoError,
  database_failure,
}

pub record GatewayProvisioningJob : Type 0 where
  pub external_id : Text
  pub project_id : ℕ
  pub host_port : ℕ
  pub target_group_arn : Text
  pub listener_rule_arn : Text
  pub listener_rule_priority : ℕ
  pub provisioning_status : IngressStatus
  pub retry_count : ℕ
  pub lease_token : ℕ

abbrev pub or_zero : Option ℕ → ℕ
or_zero none = 0
or_zero (some n) = n

abbrev pub or_empty : Option Text → Text
or_empty none = []
or_empty (some t) = t

unfoldable pub gateway_job_of : ℕ → Gateway → GatewayProvisioningJob
gateway_job_of token r = record {
  external_id = r.external_id;
  project_id = r.project_id;
  host_port = or_zero r.host_port;
  target_group_arn = or_empty r.target_group_arn;
  listener_rule_arn = or_empty r.listener_rule_arn;
  listener_rule_priority = or_zero r.listener_rule_priority;
  provisioning_status = r.provisioning_status;
  retry_count = r.retry_count;
  lease_token = token;
}

-- provisioning_status IN (…)
abbrev pub is_ingress_queued : IngressStatus → Bool
is_ingress_queued container_ready = true
is_ingress_queued creating_target_group = true
is_ingress_queued registering_target = true
is_ingress_queued waiting_for_target_health = true
is_ingress_queued creating_listener_rule = true
is_ingress_queued deprovisioning = true
is_ingress_queued _ = false

unfoldable pub is_ingress_claimable : ℕ → ℕ → ℕ → Gateway → Bool
is_ingress_claimable now db_now timeout r =
    is_null r.deleted_at
    && is_ingress_queued r.provisioning_status
    && is_due db_now r.next_retry_at
    && is_free now timeout r.locked_at

unfoldable pub queued_before : Gateway → Gateway → Bool
queued_before r s = earlier_retry r.next_retry_at s.next_retry_at r.created_at s.created_at

unfoldable pub set_locked : ℕ → Text → ℕ → Gateway → Gateway
set_locked db_now worker token r = record r {
  locked_at = some db_now;
  locked_by = some worker;
  lease_token = some token;
  updated_at = db_now;
}

pub data GatewayClaim : Type 0 where
  claim_fails : GatewayRepoError → GatewayClaim
  no_gateway_job : GatewayClaim
  gateway_claimed : GatewayProvisioningJob → GatewayClaim

abbrev pub lock_row : GatewayTable → ℕ → Text → ℕ → Option Gateway → GatewayTable × GatewayClaim
lock_row db db_now worker token none = (db, no_gateway_job)
lock_row db db_now worker token (some r) = (
  record db {
    rows = exec (λ s. text_eq s.external_id r.external_id) (set_locked db_now worker token) db.rows;
  },
  gateway_claimed (gateway_job_of token r),
)

unfoldable pub claim_next_gateway_ingress_job :
    GatewayTable → ℕ → ℕ → Text → ℤ → ℕ → GatewayTable × GatewayClaim
unfolding is_ingress_claimable queued_before first_of exec set_locked gateway_job_of
claim_next_gateway_ingress_job db now db_now worker timeout token =
    if db.up
    then lock_row db db_now worker token
        (first_of queued_before (is_ingress_claimable now db_now (lock_timeout_of timeout)) db.rows)
    else (db, claim_fails database_failure)
