-- ===== src/Gateways/Ingress.antt =====
-- gateway_ingress_state.go and MarkGatewayDecommissioned of gateway_deprovision_repo.go: the
-- statements that a worker makes under its lease. `now` is NOW().
use elite_gate.Prelude.{ℕ, ◌+◌, Bool, true, false, ◌&&◌, [], none, some}
use elite_gate.Text.{Text, codes}
use elite_gate.Gateways.{
  Gateway, GatewayTable, GatewayStatus, IngressStatus, registering_target, creating_listener_rule,
  waiting_for_target_health, completed, deprovisioning, deprovisioned, active, decommissioned,
  Saved, is_held, saves, unlocked, stale_gateway_ingress_lease,
}

-- ensureGatewayIngressUpdated after an update of the held row.
unfoldable pub ensure_gateway_ingress_updated :
    GatewayTable → Text → ℕ → (Gateway → Gateway) → Saved
unfolding saves
ensure_gateway_ingress_updated db id lease change =
    saves db (is_held id lease) change stale_gateway_ingress_lease

-- The next stage, at once.
abbrev stepped : IngressStatus → ℕ → Gateway → Gateway
stepped stage now r = record (unlocked now r) {
  provisioning_status = stage;
  provisioning_error = none;
  next_retry_at = some now;
}

abbrev pub set_target_group : ℕ → Text → Gateway → Gateway
set_target_group now arn r = record (stepped registering_target now r) {
  target_group_arn = some arn;
}

unfoldable pub mark_gateway_target_group_created : GatewayTable → ℕ → Text → ℕ → Text → Saved
unfolding ensure_gateway_ingress_updated
mark_gateway_target_group_created db now id lease arn =
    ensure_gateway_ingress_updated db id lease (set_target_group now arn)

abbrev pub set_target_registered : ℕ → Gateway → Gateway
set_target_registered now r = stepped creating_listener_rule now r

unfoldable pub mark_gateway_target_registered : GatewayTable → ℕ → Text → ℕ → Saved
unfolding ensure_gateway_ingress_updated
mark_gateway_target_registered db now id lease =
    ensure_gateway_ingress_updated db id lease (set_target_registered now)

abbrev pub set_rule_created : ℕ → Text → ℕ → Gateway → Gateway
set_rule_created now arn next_check_at r = record (stepped waiting_for_target_health now r) {
  listener_rule_arn = some arn;
  next_retry_at = some next_check_at;
}

unfoldable pub mark_gateway_listener_rule_created : GatewayTable → ℕ → Text → ℕ → Text → ℕ → Saved
unfolding ensure_gateway_ingress_updated
mark_gateway_listener_rule_created db now id lease arn next_check_at =
    ensure_gateway_ingress_updated db id lease (set_rule_created now arn next_check_at)

abbrev pub set_health_rescheduled : ℕ → ℕ → Gateway → Gateway
set_health_rescheduled now next_check_at r = record (unlocked now r) {
  next_retry_at = some next_check_at;
}

unfoldable pub reschedule_gateway_health_check : GatewayTable → ℕ → Text → ℕ → ℕ → Saved
unfolding ensure_gateway_ingress_updated
reschedule_gateway_health_check db now id lease next_check_at =
    ensure_gateway_ingress_updated db id lease (set_health_rescheduled now next_check_at)

abbrev pub set_ingress_active : ℕ → Text → Text → Gateway → Gateway
set_ingress_active now hostname public_endpoint r = record (unlocked now r) {
  public_host = some hostname;
  public_port = some (codes "443");
  public_endpoint = some public_endpoint;
  status = active;
  provisioning_status = completed;
  provisioning_error = none;
  next_retry_at = none;
  provisioned_at = some now;
}

unfoldable pub mark_gateway_ingress_active : GatewayTable → ℕ → Text → ℕ → Text → Text → Saved
unfolding ensure_gateway_ingress_updated
mark_gateway_ingress_active db now id lease hostname public_endpoint =
    ensure_gateway_ingress_updated db id lease (set_ingress_active now hostname public_endpoint)

abbrev pub set_ingress_retried : ℕ → Text → ℕ → Gateway → Gateway
set_ingress_retried now message next_retry_at r = record (unlocked now r) {
  retry_count = r.retry_count + 1;
  provisioning_error = some message;
  next_retry_at = some next_retry_at;
}

unfoldable pub schedule_gateway_ingress_retry : GatewayTable → ℕ → Text → ℕ → Text → ℕ → Saved
unfolding ensure_gateway_ingress_updated
schedule_gateway_ingress_retry db now id lease message next_retry_at =
    ensure_gateway_ingress_updated db id lease (set_ingress_retried now message next_retry_at)

abbrev pub set_ingress_failed : ℕ → Text → Gateway → Gateway
set_ingress_failed now message r = record (unlocked now r) {
  status = GatewayStatus.failed;
  provisioning_status = IngressStatus.failed;
  provisioning_error = some message;
  next_retry_at = none;
}

unfoldable pub mark_gateway_ingress_failed : GatewayTable → ℕ → Text → ℕ → Text → Saved
unfolding ensure_gateway_ingress_updated
mark_gateway_ingress_failed db now id lease message =
    ensure_gateway_ingress_updated db id lease (set_ingress_failed now message)

abbrev pub is_deprovisioning : IngressStatus → Bool
is_deprovisioning deprovisioning = true
is_deprovisioning _ = false

abbrev pub is_leaving : Text → ℕ → Gateway → Bool
is_leaving id lease r = is_held id lease r && is_deprovisioning r.provisioning_status

abbrev pub set_decommissioned : ℕ → Gateway → Gateway
set_decommissioned now r = record (unlocked now r) {
  status = decommissioned;
  provisioning_status = deprovisioned;
  provisioning_error = none;
  public_host = some [];
  public_port = some [];
  public_endpoint = none;
  host_port = none;
  target_group_arn = none;
  listener_rule_arn = none;
  listener_rule_priority = none;
  next_retry_at = none;
  deleted_at = some now;
}

unfoldable pub mark_gateway_decommissioned : GatewayTable → ℕ → Text → ℕ → Saved
unfolding saves
mark_gateway_decommissioned db now id lease =
    saves db (is_leaving id lease) (set_decommissioned now) stale_gateway_ingress_lease
