-- ===== src/DomainRepo.antt =====
-- internal/storage/custom_domain_repo.go: the statements of the provisioning queue.
-- A statement is one atomic step on the table. `up` is false while the database answers every
-- statement with an error, and then no row changes. The clock of the database is an argument.
pub mod Effects
pub mod Lease
pub mod Queue
pub mod First
pub mod Claims
pub mod Claiming
pub mod Requests
pub mod Creation
pub mod Tenants
pub mod Spent
pub mod OneWrite
pub mod Replies
pub mod Fixtures
pub mod Examples
pub mod Ingress
use elite_gate.Prelude.{
  ℕ, suc, ◌+◌, ◌*◌, ◌^◌, Bool, true, false, ◌&&◌, ◌||◌, not, List, [], ◌∷◌, Option, none, some,
  if◌then◌else◌, ltb, leb, ◌==◌, map, tally, ℤ, pos, negsuc, any,
}
use elite_gate.Text.{Text, codes}
use elite_gate.Table.{exec, find, is_null, holds}
use elite_gate.Domain.{
  CustomDomain, ProvisioningJob, ProvisioningStatus, same_status, DomainStatus, RoutingStatus,
  not_started, requesting_certificate, waiting_for_validation_record, waiting_for_dns,
  waiting_for_certificate, attaching_certificate, completed, deprovisioning, deprovisioned,
  deprovision_failed, active, is_verified, is_ready, is_active,
}

pub data RepoError : Type 0 where
  custom_domain_not_found stale_lease invalid_state_transition : RepoError
  domain_not_eligible domain_not_eligible_for_retry domain_already_deprovisioned : RepoError
  gateway_ingress_not_ready database_error : RepoError

-- A row of gateways, with the columns that the ingress query reads.
pub record GatewayRow : Type 0 where
  pub external_id : Text
  pub project_id : ℕ
  pub is_dedicated : Bool
  pub is_active : Bool
  pub is_completed : Bool
  pub target_group_arn : Option Text
  pub provisioned_at : Option ℕ
  pub created_at : ℕ
  pub deleted_at : Option ℕ

-- `accepts` is what PostgreSQL says of the rows that an UPDATE would leave: its CHECK constraints,
-- unique indexes, column widths and encoding.
pub record Store : Type 0 where
  pub up : Bool
  pub accepts : List CustomDomain → Bool
  pub rows : List CustomDomain
  pub gateways : List GatewayRow

-- COALESCE of a BOOLEAN.
abbrev coalesce_bool : Option Bool → Bool → Bool
coalesce_bool none old = old
coalesce_bool (some b) old = b

-- What a call answers: the new store, and nil or an error.
abbrev pub Done : Type 0
Done = Store × Option RepoError

abbrev clear_lease : ℕ → CustomDomain → CustomDomain
clear_lease now r = record r {
  locked_at = none;
  locked_by = none;
  lease_token = none;
  updated_at = now;
}

stale_of : Option CustomDomain → ℕ → ProvisioningStatus → RepoError
stale_of none lease expected = custom_domain_not_found
stale_of (some r) lease expected =
    if not (is_null r.deleted_at)
    then stale_lease
    else if not (holds r.lease_token lease)
    then stale_lease
    else if not (same_status r.provisioning_status expected)
    then invalid_state_transition
    else stale_lease

-- checkStaleOrTransitionError
unfoldable pub check_stale_or_transition_error : Store → ℕ → ℕ → ProvisioningStatus → RepoError
unfolding find stale_of
check_stale_or_transition_error db id lease expected =
    if db.up then stale_of (find (λ r. r.id == id) db.rows) lease expected else database_error

-- ExecContext, RowsAffected, and the error for no row.
unfoldable pub guarded :
    Store → (CustomDomain → Bool) → (CustomDomain → CustomDomain) → RepoError → Done
unfolding exec
guarded db test change missed =
    if db.up
    then (if any test db.rows
        then (if db.accepts (exec test change db.rows)
            then (record db { rows = exec test change db.rows }, none)
            else (db, some database_error))
        else (db, some missed))
    else (db, some database_error)
