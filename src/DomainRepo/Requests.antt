-- ===== src/DomainRepo/Requests.antt =====
-- custom_domain_repo.go: the statements behind the requests of a project's members.
use elite_gate.Prelude.{
  ℕ, Bool, true, false, ◌&&◌, ◌||◌, not, Option, none, some, if◌then◌else◌, ◌==◌,
}
use elite_gate.Text.{Text}
use elite_gate.Domain.{
  CustomDomain, ProvisioningStatus, same_status, not_started, requesting_certificate,
  waiting_for_validation_record, waiting_for_dns, waiting_for_certificate, attaching_certificate,
  completed, deprovisioning, deprovisioned, deprovision_failed, RoutingStatus, active, verified,
  is_verified, is_ready,
}
use elite_gate.DomainRepo.{
  Store, Done, guarded, RepoError, custom_domain_not_found, domain_not_eligible,
  domain_not_eligible_for_retry, domain_already_deprovisioned, database_error, clear_lease,
}
use elite_gate.Table.{is_null, exec, find}

-- A row, or an error.
pub data Reply : Type 0 where
  row : CustomDomain → Reply
  refused : RepoError → Reply

-- WHERE id = $1 AND project_id = $2 AND deleted_at IS NULL
abbrev pub owned : ℕ → ℕ → CustomDomain → Bool
owned id project r = r.id == id && r.project_id == project && is_null r.deleted_at

-- The row that an UPDATE … RETURNING gives back, or what to do for no row.
abbrev pub returning : (CustomDomain → CustomDomain) → Reply → Option CustomDomain → Reply
returning change missed none = missed
returning change missed (some r) = row (change r)

unfoldable pub update_returning :
    Store → (CustomDomain → Bool) → (CustomDomain → CustomDomain) → Reply → Store × Reply
unfolding exec find
update_returning db test change missed =
    if db.up
    then (
      record db { rows = exec test change db.rows },
      returning change missed (find test db.rows),
    )
    else (db, refused database_error)

abbrev pub or_not_found : Option CustomDomain → Reply
or_not_found none = refused custom_domain_not_found
or_not_found (some r) = row r

-- GetByIDForProject
unfoldable pub get_by_id_for_project : Store → ℕ → ℕ → Reply
unfolding find
get_by_id_for_project db id project = or_not_found (find (owned id project) db.rows)

-- The query after an UPDATE that took no row is a second statement: `seen` is the store that it
-- finds, with whatever other requests and workers have done in between.
unfoldable pub reread : Store → ℕ → ℕ → Reply
unfolding get_by_id_for_project
reread seen id project =
    if seen.up then get_by_id_for_project seen id project else refused database_error

unfoldable pub set_restarted : ProvisioningStatus → ℕ → CustomDomain → CustomDomain
set_restarted target now r = record (clear_lease now r) {
  provisioning_status = target;
  provisioning_started_at = some now;
  provisioning_attempts = 0;
  next_retry_at = some now;
  provisioning_error = none;
}

abbrev pub is_startable : ProvisioningStatus → Bool
is_startable not_started = true
is_startable ProvisioningStatus.failed = true
is_startable _ = false

abbrev pub is_under_way : ProvisioningStatus → Bool
is_under_way requesting_certificate = true
is_under_way waiting_for_validation_record = true
is_under_way waiting_for_dns = true
is_under_way waiting_for_certificate = true
is_under_way attaching_certificate = true
is_under_way completed = true
is_under_way _ = false

abbrev pub enqueue_missed : Reply → Reply
enqueue_missed (refused e) = refused e
enqueue_missed (row r) =
    if not (is_verified r.status) || not (is_ready r.routing_status)
    then refused domain_not_eligible
    else if is_under_way r.provisioning_status
    then row r
    else refused domain_not_eligible

unfoldable pub enqueue_provisioning : Store → Store → ℕ → ℕ → ℕ → Store × Reply
unfolding update_returning reread set_restarted
enqueue_provisioning db seen now id project =
    update_returning db
      (λ r.
        owned id project r
        && is_verified r.status
        && is_ready r.routing_status
        && is_startable r.provisioning_status)
      (set_restarted requesting_certificate now) (enqueue_missed (reread seen id project))

unfoldable pub reset_provisioning_for_retry : Store → ℕ → ℕ → ℕ → ProvisioningStatus → Store × Reply
unfolding update_returning set_restarted
reset_provisioning_for_retry db now id project target =
    update_returning db
      (λ r. owned id project r && same_status r.provisioning_status ProvisioningStatus.failed)
      (set_restarted target now) (refused domain_not_eligible_for_retry)

abbrev pub is_going : ProvisioningStatus → Bool
is_going deprovisioning = true
is_going deprovisioned = true
is_going _ = false

unfoldable pub set_deprovisioning : ℕ → CustomDomain → CustomDomain
set_deprovisioning now r = record (clear_lease now r) {
  provisioning_status = deprovisioning;
  deprovisioning_started_at = some now;
  next_retry_at = some now;
  provisioning_error = none;
}

abbrev pub deprovision_missed : Reply → Reply
deprovision_missed (refused e) = refused e
deprovision_missed (row r) =
    if is_going r.provisioning_status || not (is_null r.deleted_at)
    then row r
    else refused domain_already_deprovisioned

unfoldable pub enqueue_deprovisioning : Store → Store → ℕ → ℕ → ℕ → Store × Reply
unfolding update_returning reread set_deprovisioning
enqueue_deprovisioning db seen now id project =
    update_returning db (λ r. owned id project r && not (is_going r.provisioning_status))
      (set_deprovisioning now) (deprovision_missed (reread seen id project))

unfoldable pub reset_deprovisioning_for_retry : Store → ℕ → ℕ → ℕ → Store × Reply
unfolding update_returning set_deprovisioning
reset_deprovisioning_for_retry db now id project =
    update_returning db
      (λ r. owned id project r && same_status r.provisioning_status deprovision_failed)
      (λ r. record (set_deprovisioning now r) { provisioning_attempts = 0 })
      (refused domain_not_eligible_for_retry)

set_active : ℕ → CustomDomain → CustomDomain
set_active now r = record r { status = active; activated_at = some now; updated_at = now }

unfoldable pub mark_active : Store → ℕ → ℕ → ℕ → Store × Reply
unfolding update_returning set_active
mark_active db now id project =
    update_returning db
      (λ r. owned id project r && is_verified r.status && is_ready r.routing_status)
      (set_active now) (refused custom_domain_not_found)

set_routing : RoutingStatus → Text → Option Text → ℕ → CustomDomain → CustomDomain
set_routing status target routing_error now r = record r {
  routing_status = status;
  routing_target = some target;
  routing_checked_at = some now;
  routing_error = routing_error;
  updated_at = now;
}

unfoldable pub update_routing_status :
    Store → ℕ → ℕ → ℕ → RoutingStatus → Text → Option Text → Store × Reply
unfolding update_returning set_routing
update_routing_status db now id project status target routing_error =
    update_returning db (owned id project) (set_routing status target routing_error now)
      (refused custom_domain_not_found)

unfoldable pub set_verified : ℕ → CustomDomain → CustomDomain
set_verified now r = record r {
  status = verified;
  verified_at = some now;
  last_checked_at = some now;
  failure_reason = none;
  updated_at = now;
}

unfoldable pub mark_verified : Store → ℕ → ℕ → ℕ → Store × Reply
unfolding update_returning set_verified
mark_verified db now id project =
    update_returning db (owned id project) (set_verified now) (refused custom_domain_not_found)

unfoldable pub record_verification_failure : Store → ℕ → ℕ → ℕ → Text → Done
unfolding guarded
record_verification_failure db now id project reason =
    guarded db (owned id project)
      (λ r. record r { last_checked_at = some now; failure_reason = some reason; updated_at = now })
      custom_domain_not_found

unfoldable pub soft_delete : Store → ℕ → ℕ → ℕ → Done
unfolding guarded
soft_delete db now id project =
    guarded db (owned id project) (λ r. record r { deleted_at = some now; updated_at = now })
      custom_domain_not_found
