-- ===== src/DomainService/Status.antt =====
-- custom_domain_service.go, GetProvisioningStatus: what a project's members see of a domain.
use elite_gate.Prelude.{ℕ, Bool, true, false, ◌||◌, not, Option, none, some, if◌then◌else◌}
use elite_gate.Text.{Text, Unicode, codes, is_empty, text_eq, trim_space, to_upper}
use elite_gate.Domain.{
  CustomDomain, DomainStatus, RoutingStatus, ProvisioningStatus, waiting_for_validation_record,
  waiting_for_dns,
}
use elite_gate.DomainRepo.{Store}
use elite_gate.DomainRepo.Ingress.{
  IngressReply, ingress, no_ingress, get_active_project_gateway_ingress,
}
use elite_gate.DomainRepo.Requests.{Reply, row, refused}
use elite_gate.DomainService.{DomainEnv, ServiceError, not_found_or, load_domain}

pub record ProvisioningStatusResponse : Type 0 where
  pub id : ℕ
  pub hostname : Text
  pub status : DomainStatus
  pub routing_status : RoutingStatus
  pub provisioning_status : ProvisioningStatus
  pub certificate_status : Option Text
  pub certificate_validation_name : Option Text
  pub certificate_validation_value : Option Text
  pub last_error : Option Text
  pub attempts : ℕ
  pub next_retry_at : Option ℕ
  pub certificate_issued_at : Option ℕ
  pub certificate_attached_at : Option ℕ
  pub activated_at : Option ℕ
  pub gateway_external_id : Option Text
  pub gateway_type : Option Text
  pub host_routing_active : Bool

pub data StatusReply : Type 0 where
  status_of : ProvisioningStatusResponse → StatusReply
  no_status : ServiceError → StatusReply

unfoldable pub sanitize_provisioning_error : Unicode → Text → Text
sanitize_provisioning_error u message =
    let upper = to_upper u (trim_space u message) in
    if text_eq upper (codes "DOMAIN_VALIDATION_TIMED_OUT")
      || text_eq upper (codes "VALIDATION_TIMED_OUT")
    then codes "ACM domain validation timed out"
    else if text_eq upper (codes "FAILURE_REASON_NO_AVAILABLE_CONTACTS")
    then codes "ACM validation failed: no available contacts"
    else if text_eq upper (codes "FAILURE_REASON_ADDITIONAL_VERIFICATION_REQUIRED")
    then codes "ACM validation failed: additional verification required"
    else if text_eq upper (codes "REVOKED")
    then codes "ACM certificate was revoked"
    else if text_eq upper (codes "EXPIRED")
    then codes "ACM certificate expired"
    else if text_eq upper (codes "INACTIVE")
    then codes "ACM certificate is inactive"
    else codes "An error occurred during certificate provisioning. Please retry or contact support."

abbrev pub shows_validation : ProvisioningStatus → Bool
shows_validation waiting_for_validation_record = true
shows_validation waiting_for_dns = true
shows_validation _ = false

module _ (u : Unicode) where
  abbrev pub sanitized : Option Text → Option Text
  sanitized none = none
  sanitized (some message) =
      if is_empty message then none else some (sanitize_provisioning_error u message)

  -- A text that is not blank.
  abbrev pub has_text : Option Text → Bool
  has_text none = false
  has_text (some t) = not (is_empty (trim_space u t))

  abbrev pub external_id_of : IngressReply → Option Text
  external_id_of (no_ingress err) = none
  external_id_of (ingress g) =
      if is_empty (trim_space u g.external_id) then none else some (trim_space u g.external_id)

  abbrev pub response_of : Store → ℕ → CustomDomain → ProvisioningStatusResponse
  response_of db project r = record {
    id = r.id;
    hostname = r.hostname;
    status = r.status;
    routing_status = r.routing_status;
    provisioning_status = r.provisioning_status;
    certificate_status = r.certificate_status;
    certificate_validation_name =
        if shows_validation r.provisioning_status then r.certificate_validation_name else none;
    certificate_validation_value =
        if shows_validation r.provisioning_status then r.certificate_validation_value else none;
    last_error = sanitized r.provisioning_error;
    attempts = r.provisioning_attempts;
    next_retry_at = r.next_retry_at;
    certificate_issued_at = r.certificate_issued_at;
    certificate_attached_at = r.certificate_attached_at;
    activated_at = r.activated_at;
    gateway_external_id =
        if has_text r.listener_rule_arn
        then external_id_of (get_active_project_gateway_ingress db project)
        else none;
    gateway_type = if has_text r.listener_rule_arn then some (codes "dedicated") else none;
    host_routing_active = has_text r.listener_rule_arn;
  }

abbrev pub status_loaded : Unicode → Store → ℕ → Reply → StatusReply
status_loaded u db project (refused err) = no_status (not_found_or err)
status_loaded u db project (row r) = status_of (response_of u db project r)

unfoldable pub get_provisioning_status : DomainEnv → Store → ℕ → ℕ → StatusReply
get_provisioning_status e db project id =
    status_loaded e.unicode db project (load_domain db id project)
