-- ===== src/DomainService/Lifecycle.antt =====
-- custom_domain_service.go: routing, activation, retries and deletion.
use elite_gate.Prelude.{ℕ, Bool, true, false, ◌||◌, not, ◌++◌, Option, none, some, if◌then◌else◌}
use elite_gate.Text.{Text, Unicode, codes, is_empty, text_eq, trim_space, to_lower, trim_suffix}
use elite_gate.Domain.{
  CustomDomain, ProvisioningStatus, same_status, requesting_certificate,
  waiting_for_validation_record, waiting_for_dns, waiting_for_certificate, attaching_certificate,
  completed, deprovision_failed, RoutingStatus, ready, is_verified, is_active, is_ready,
}
use elite_gate.DomainRepo.{Store}
use elite_gate.DomainRepo.Requests.{
  Reply, row, refused, update_routing_status, enqueue_provisioning, reset_provisioning_for_retry,
  enqueue_deprovisioning, reset_deprovisioning_for_retry,
}
use elite_gate.DomainService.{
  DomainEnv, CnameAnswer, cname, cname_fails, ServiceError, not_verified, cname_not_found,
  routing_mismatch, routing_not_ready, automation_disabled, not_eligible, wraps, Served,
  serves_domain, rejects, not_found_or, served, load_domain,
}

-- job.CertificateARN != nil && *job.CertificateARN != "", and its like.
abbrev pub is_given : Option Text → Bool
is_given none = false
is_given (some t) = not (is_empty t)

abbrev pub is_issued_text : Option Text → Bool
is_issued_text none = false
is_issued_text (some t) = text_eq t (codes "issued")

-- The error of a repository call is passed on or wrapped as it is.
abbrev pub served_as_is : Store × Reply → Store × Served
served_as_is (db, row r) = (db, serves_domain r)
served_as_is (db, refused e) = (db, rejects (wraps e))

unfoldable pub normalize_cname : Unicode → Text → Text
normalize_cname u name = trim_suffix b'.' (to_lower u (trim_space u name))

-- The state from which performRetry starts again.
unfoldable pub retry_target : CustomDomain → ProvisioningStatus
retry_target r =
    if not (is_given r.certificate_arn)
    then requesting_certificate
    else if not (is_given r.certificate_validation_name)
    then waiting_for_validation_record
    else if is_issued_text r.certificate_status
    then attaching_certificate
    else waiting_for_dns

-- The statuses of a provisioning that is under way.
abbrev pub in_progress : ProvisioningStatus → Bool
in_progress requesting_certificate = true
in_progress waiting_for_validation_record = true
in_progress waiting_for_dns = true
in_progress waiting_for_certificate = true
in_progress attaching_certificate = true
in_progress _ = false

pub data ActivationState : Type 0 where
  activation_queued activation_in_progress activation_already_active : ActivationState

pub data Activation : Type 0 where
  activation : CustomDomain → ActivationState → Activation
  not_activated : ServiceError → Activation

abbrev pub queued_activation : Store × Reply → Store × Activation
queued_activation (db, row r) = (db, activation r activation_queued)
queued_activation (db, refused e) = (db, not_activated (wraps e))

module _ (e : DomainEnv) where
  abbrev pub set_routing_failed : Store → CustomDomain → Text → Store
  set_routing_failed db r reason =
      (update_routing_status db e.db_now r.id r.project_id RoutingStatus.failed
        (normalize_cname e.unicode e.gateway_public_host) (some reason)).0

  unfoldable pub check_by_cname : Store → CustomDomain → CnameAnswer → Store × Served
  check_by_cname db r (cname_fails err) =
      (set_routing_failed db r (codes "DNS CNAME lookup failed: " ++ err), rejects cname_not_found)
  check_by_cname db r (cname target) =
      let expected = normalize_cname e.unicode e.gateway_public_host in
      let actual = normalize_cname e.unicode target in
      if text_eq actual expected
      then served_as_is (update_routing_status db e.db_now r.id r.project_id ready expected none)
      else (
        set_routing_failed db r (codes "expected " ++ expected ++ codes ", got " ++ actual),
        rejects routing_mismatch,
      )

  abbrev pub check_loaded : Store → Reply → Store × Served
  check_loaded db (refused err) = (db, rejects (not_found_or err))
  check_loaded db (row r) =
      if is_verified r.status || is_active r.status
      then check_by_cname db r (e.lookup_cname r.hostname)
      else (db, rejects not_verified)

  unfoldable pub check_custom_domain_routing : Store → ℕ → ℕ → Store × Served
  check_custom_domain_routing db project id = check_loaded db (load_domain db id project)

  -- performRetry
  unfoldable pub perform_retry : Store → CustomDomain → Store × Reply
  perform_retry db r = reset_provisioning_for_retry db e.db_now r.id r.project_id (retry_target r)

  -- The UPDATE finds the store `db`, and the query after an UPDATE that took no row finds `seen`.
  unfoldable pub activate_loaded : Store → Store → ℕ → ℕ → Reply → Store × Activation
  activate_loaded db seen project id (refused err) = (db, not_activated (not_found_or err))
  activate_loaded db seen project id (row r) =
      if is_active r.status || same_status r.provisioning_status completed
      then (db, activation r activation_already_active)
      else if in_progress r.provisioning_status
      then (db, activation r activation_in_progress)
      else if not (is_verified r.status)
      then (db, not_activated not_verified)
      else if not (is_ready r.routing_status)
      then (db, not_activated routing_not_ready)
      else if same_status r.provisioning_status ProvisioningStatus.failed
      then queued_activation (perform_retry db r)
      else queued_activation (enqueue_provisioning db seen e.db_now id project)

  -- The row is loaded from `read`; other statements may run before the UPDATE, on `db`.
  unfoldable pub activate_custom_domain : Store → Store → Store → ℕ → ℕ → Store × Activation
  activate_custom_domain read db seen project id =
      if e.automation_enabled
      then activate_loaded db seen project id (load_domain read id project)
      else (db, not_activated automation_disabled)

  unfoldable pub delete_custom_domain : Store → Store → ℕ → ℕ → Store × Served
  delete_custom_domain db seen project id =
      if e.automation_enabled
      then served (enqueue_deprovisioning db seen e.db_now id project)
      else (db, rejects automation_disabled)

  abbrev pub retry_removal : Store → ℕ → ℕ → Reply → Store × Served
  retry_removal db project id (refused err) = (db, rejects (not_found_or err))
  retry_removal db project id (row r) =
      if same_status r.provisioning_status deprovision_failed
      then served_as_is (reset_deprovisioning_for_retry db e.db_now id project)
      else (db, rejects not_eligible)

  unfoldable pub retry_deprovisioning : Store → ℕ → ℕ → Store × Served
  retry_deprovisioning db project id =
      if e.automation_enabled
      then retry_removal db project id (load_domain db id project)
      else (db, rejects automation_disabled)

  abbrev pub retry_loaded : Store → Reply → Store × Served
  retry_loaded db (refused err) = (db, rejects (not_found_or err))
  retry_loaded db (row r) =
      if not (same_status r.provisioning_status ProvisioningStatus.failed)
      then (db, rejects not_eligible)
      else if not (is_verified r.status)
      then (db, rejects not_verified)
      else if not (is_ready r.routing_status)
      then (db, rejects routing_not_ready)
      else served_as_is (perform_retry db r)

  unfoldable pub retry_provisioning : Store → ℕ → ℕ → Store × Served
  retry_provisioning db project id =
      if e.automation_enabled
      then retry_loaded db (load_domain db id project)
      else (db, rejects automation_disabled)
