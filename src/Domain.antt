-- ===== src/Domain.antt =====
-- internal/domain/custom_domain.go: the statuses and the rows of custom domains.
-- A uuid is a number, a time.Time a number of nanoseconds, a nil pointer or SQL NULL `none`.
pub mod Laws
use elite_gate.Prelude.{ℕ, Bool, true, false, Option, none, some, ◌==◌}
use elite_gate.Text.{Text, text_eq}

pub data DomainStatus : Type 0 where
  pending_verification verified pending_dns pending_certificate active : DomainStatus
  verification_failed certificate_failed disabled deleting : DomainStatus

pub data RoutingStatus : Type 0 where
  pending ready failed : RoutingStatus

pub data ProvisioningStatus : Type 0 where
  not_started requesting_certificate waiting_for_validation_record : ProvisioningStatus
  waiting_for_dns waiting_for_certificate attaching_certificate completed : ProvisioningStatus
  failed deprovisioning deprovisioned deprovision_failed : ProvisioningStatus

abbrev place : ProvisioningStatus → ℕ
place not_started = 0
place requesting_certificate = 1
place waiting_for_validation_record = 2
place waiting_for_dns = 3
place waiting_for_certificate = 4
place attaching_certificate = 5
place completed = 6
place failed = 7
place deprovisioning = 8
place deprovisioned = 9
place deprovision_failed = 10

-- The comparison of two status texts.
unfoldable pub same_status : ProvisioningStatus → ProvisioningStatus → Bool
same_status a b = place a == place b

abbrev pub is_verified : DomainStatus → Bool
is_verified verified = true
is_verified _ = false

abbrev pub is_active : DomainStatus → Bool
is_active active = true
is_active _ = false

abbrev pub is_ready : RoutingStatus → Bool
is_ready ready = true
is_ready _ = false

pub record CustomDomain : Type 0 where
  pub id : ℕ
  pub project_id : ℕ
  pub hostname : Text
  pub status : DomainStatus
  pub verification_token_hash : Text
  pub verification_record_name : Text
  pub certificate_arn : Option Text
  pub certificate_status : Option Text
  pub failure_reason : Option Text
  pub verified_at : Option ℕ
  pub activated_at : Option ℕ
  pub last_checked_at : Option ℕ
  pub created_at : ℕ
  pub updated_at : ℕ
  pub deleted_at : Option ℕ
  pub routing_target : Option Text
  pub routing_status : RoutingStatus
  pub routing_checked_at : Option ℕ
  pub routing_error : Option Text
  pub certificate_managed : Bool
  pub provisioning_status : ProvisioningStatus
  pub certificate_validation_name : Option Text
  pub certificate_validation_value : Option Text
  pub certificate_requested_at : Option ℕ
  pub certificate_issued_at : Option ℕ
  pub certificate_attached_at : Option ℕ
  pub provisioning_started_at : Option ℕ
  pub provisioning_completed_at : Option ℕ
  pub deprovisioning_started_at : Option ℕ
  pub provisioning_error : Option Text
  pub provisioning_attempts : ℕ
  pub next_retry_at : Option ℕ
  pub listener_rule_arn : Option Text
  pub listener_rule_priority : Option ℕ
  pub locked_at : Option ℕ
  pub locked_by : Option Text
  pub lease_token : Option ℕ

pub record ProvisioningJob : Type 0 where
  pub id : ℕ
  pub project_id : ℕ
  pub hostname : Text
  pub status : DomainStatus
  pub routing_status : RoutingStatus
  pub provisioning_status : ProvisioningStatus
  pub certificate_arn : Option Text
  pub certificate_status : Option Text
  pub certificate_managed : Bool
  pub certificate_validation_name : Option Text
  pub certificate_validation_value : Option Text
  pub listener_rule_arn : Option Text
  pub listener_rule_priority : Option ℕ
  pub provisioning_attempts : ℕ
  pub next_retry_at : Option ℕ
  pub provisioning_started_at : Option ℕ
  pub locked_at : Option ℕ
  pub locked_by : Option Text
  pub lease_token : Option ℕ
  pub deleted_at : Option ℕ
