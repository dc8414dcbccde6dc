-- ===== src/Provisioner.antt =====
-- cmd/worker/provisioner.go: one claimed job through AWS and the repository.
-- The two AWS managers are interfaces: `Cloud` holds what they answer during one call, and the
-- calls that are made are listed in their order. Logging and metrics are left out.
pub mod Errors
pub mod Stages
pub mod Attaching
pub mod Removing
pub mod Process
pub mod Leaves
pub mod LastSteps
pub mod Dismantling
pub mod RowEffects
pub mod Processing
pub mod Leases
pub mod Ticks
pub mod Effects
pub mod Retries
pub mod Examples
use elite_gate.Prelude.{
  ℕ, ◌+◌, ◌*◌, ◌^◌, Bool, true, false, ◌||◌, List, [], ◌∷◌, ◌++◌, Option, none, some, if◌then◌else◌,
  leb, ◌==◌, take,
}
use elite_gate.Text.{Text, Unicode, is_empty, codes}
use elite_gate.Domain.{CustomDomain, ProvisioningJob, ProvisioningStatus}
use elite_gate.DomainRepo.{Store, RepoError, Done}

-- The types that errors.As and errors.Is ask for.
pub data ErrorKind : Type 0 where
  resource_not_found invalid_parameter access_denied throttling limit_exceeded : ErrorKind
  host_rule_target_conflict : ErrorKind

pub record CloudError : Type 0 where
  pub is_a : ErrorKind → Bool
  pub message : Text

pub data Answer {ℓ} (A : Type ℓ) : Type ℓ where
  ok : A → Answer A
  fails : CloudError → Answer A

pub record CertificateDetails : Type 0 where
  pub arn : Text
  pub status : Text
  pub validation_name : Text
  pub validation_value : Text
  pub failure_reason : Text
  pub issued_at : Option ℕ

-- CertificateManager and CustomDomainLoadBalancerManager.
pub record Cloud : Type 0 where
  pub request_certificate : Text → Text → Answer Text
  pub describe_certificate : Text → Answer CertificateDetails
  pub delete_certificate : Text → Answer (Unit {0})
  pub attach_certificate : Text → Text → Answer (Unit {0})
  pub detach_certificate : Text → Text → Answer (Unit {0})
  pub ensure_host_rule : Text → Text → Text → ℕ → ℕ → Answer (Text × ℕ)
  pub delete_host_rule : Text → Answer (Unit {0})

pub data Call : Type 0 where
  requests describes deletes_certificate attaches detaches ensures_rule deletes_rule : Call

-- A call, and whether its answer let the handler go on: no error, or, on the way down, one that
-- says that the thing is gone.
abbrev pub Calls : Type 0
Calls = List (Call × Bool)

-- The Provisioner, its clock, NOW() of the database, SHA-256 in hex, and the text of the database
-- driver's error while it is down, during one call.
pub record Env : Type 0 where
  pub unicode : Unicode
  pub cloud : Cloud
  pub has_load_balancer : Bool
  pub has_certificates : Bool
  pub worker_id : Text
  pub listener_arn : Text
  pub poll_interval : ℕ
  pub now : ℕ
  pub db_now : ℕ
  pub hex_digest : ℕ → Text
  pub driver_error : Text

pub data WorkerError : Type 0 where
  lease_token_missing : WorkerError
  repo_error : RepoError → WorkerError

-- The store, the calls made and nil or an error.
pub record Outcome : Type 0 where
  pub store : Store
  pub calls : Calls
  pub error : Option WorkerError

abbrev wrapped : Option RepoError → Option WorkerError
wrapped none = none
wrapped (some e) = some (repo_error e)

-- `return p.repo.…`, after the calls so far.
abbrev pub ends_with_repo : Calls → Done → Outcome
ends_with_repo calls (db, e) = record { store = db; calls = calls; error = wrapped e }

-- job.CertificateARN == nil || *job.CertificateARN == ""
abbrev pub is_blank : Option Text → Bool
is_blank none = true
is_blank (some t) = is_empty t

abbrev pub deref : Option Text → Text
deref none = []
deref (some t) = t

-- 15s, 30s, 1m, 2m, then 5m.
unfoldable pub calculate_retry_delay : ℕ → ℕ
calculate_retry_delay attempts =
    if leb attempts 1
    then 15 * 10 ^ 9
    else if attempts == 2
    then 30 * 10 ^ 9
    else if attempts == 3
    then 60 * 10 ^ 9
    else if attempts == 4
    then 120 * 10 ^ 9
    else 300 * 10 ^ 9

-- "eg" and the first 30 hex digits of the digest of the domain's ID.
unfoldable pub generate_acm_idempotency_token : Env → ℕ → Text
generate_acm_idempotency_token e id = codes "eg" ++ take 30 (e.hex_digest id)

abbrev pub retry_at : Env → ProvisioningJob → ℕ
retry_at e job = e.now + calculate_retry_delay (job.provisioning_attempts + 1)
