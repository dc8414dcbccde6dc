-- ===== src/DomainRepo/Creation.antt =====
-- custom_domain_repo.go: HostnameExists and Create.
use elite_gate.Prelude.{
  ℕ, Bool, false, ◌&&◌, ◌||◌, not, ◌∷◌, Option, none, some, if◌then◌else◌, leb, ◌==◌, any, map,
  length,
}
use elite_gate.Text.{Text, codes, text_eq, lower_byte}
use elite_gate.Table.{is_null}
use elite_gate.Domain.{CustomDomain, pending_verification, pending, not_started}
use elite_gate.DomainRepo.{Store, RepoError, database_error}

-- LOWER(hostname) = LOWER($1) AND deleted_at IS NULL, on ASCII.
abbrev pub has_hostname : Text → CustomDomain → Bool
has_hostname hostname r =
    text_eq (map lower_byte r.hostname) (map lower_byte hostname) && is_null r.deleted_at

-- none while the database is down.
unfoldable pub hostname_exists : Store → Text → Option Bool
unfolding text_eq
hostname_exists db hostname = if db.up then some (any (has_hostname hostname) db.rows) else none

-- The columns that the caller of Create sets; Create and the table fill in the others.
abbrev pub new_domain : ℕ → ℕ → ℕ → Text → Text → Text → Text → CustomDomain
new_domain now id project hostname token_hash record_name target = record {
  id = id;
  project_id = project;
  hostname = hostname;
  status = pending_verification;
  verification_token_hash = token_hash;
  verification_record_name = record_name;
  certificate_arn = none;
  certificate_status = some (codes "not_requested");
  failure_reason = none;
  verified_at = none;
  activated_at = none;
  last_checked_at = none;
  created_at = now;
  updated_at = now;
  deleted_at = none;
  routing_target = some target;
  routing_status = pending;
  routing_checked_at = none;
  routing_error = none;
  certificate_managed = false;
  provisioning_status = not_started;
  certificate_validation_name = none;
  certificate_validation_value = none;
  certificate_requested_at = none;
  certificate_issued_at = none;
  certificate_attached_at = none;
  provisioning_started_at = none;
  provisioning_completed_at = none;
  deprovisioning_started_at = none;
  provisioning_error = none;
  provisioning_attempts = 0;
  next_retry_at = none;
  listener_rule_arn = none;
  listener_rule_priority = none;
  locked_at = none;
  locked_by = none;
  lease_token = none;
}

pub data CreateError : Type 0 where
  hostname_conflict : CreateError
  create_fails : RepoError → CreateError

-- The columns hostname and verification_record_name are VARCHAR(253).
abbrev pub fits_columns : CustomDomain → Bool
fits_columns r = leb (length r.hostname) 253 && leb (length r.verification_record_name) 253

-- The unique keys: the ID, and the hostname of the live rows. Both are answered as a conflict.
abbrev pub collides : CustomDomain → CustomDomain → Bool
collides new r = r.id == new.id || has_hostname new.hostname r

unfoldable pub create : Store → CustomDomain → Store × Option CreateError
unfolding text_eq
create db new =
    if not db.up || not (fits_columns new)
    then (db, some (create_fails database_error))
    else if any (collides new) db.rows
    then (db, some hostname_conflict)
    else (record db { rows = new ∷ db.rows }, none)
