-- ===== src/DomainService.antt =====
-- internal/admin/service/custom_domain_service.go: the requests of a project's members.
-- The DNS answers, the random token and the clock of the database of one request are a record.
pub mod Lifecycle
pub mod Status
pub mod Roundtrip
pub mod Ownership
pub mod Proofs
pub mod Resuming
pub mod Activation
pub mod Examples
use elite_gate.Prelude.{
  ℕ, Bool, true, false, ◌&&◌, ◌||◌, not, List, [], ◌∷◌, ◌++◌, Option, none, some, if◌then◌else◌,
  ◌==◌, length,
}
use elite_gate.Text.{Text, Unicode, codes, is_empty, text_eq, has_prefix, trim_prefix, trim_space}
use elite_gate.Domain.{CustomDomain, is_verified, is_active}
use elite_gate.DomainRepo.{Store, RepoError, Done, custom_domain_not_found, database_error}
use elite_gate.DomainRepo.Requests.{
  Reply, row, refused, get_by_id_for_project, mark_verified, record_verification_failure,
}
use elite_gate.DomainRepo.Creation.{
  CreateError, hostname_conflict, create_fails, hostname_exists, new_domain, create,
}
use elite_gate.Hostname.{normalize_hostname}

-- The errors of the service; `wraps` is any other error of the repository.
pub data ServiceError : Type 0 where
  invalid_hostname already_exists no_such_domain record_not_found : ServiceError
  token_mismatch not_verified cname_not_found routing_mismatch : ServiceError
  routing_not_ready automation_disabled not_eligible : ServiceError
  no_random_bytes txt_lookup_failed : ServiceError
  wraps : RepoError → ServiceError

pub data TxtAnswer : Type 0 where
  txt_records : List Text → TxtAnswer
  txt_not_found txt_fails : TxtAnswer

pub data CnameAnswer : Type 0 where
  cname : Text → CnameAnswer
  cname_fails : Text → CnameAnswer

-- CustomDomainService, its resolver and its repository's clock, during one request. `token` is
-- what base64 makes of the random bytes, none where there are none, and `new_id` the new uuid.
pub record DomainEnv : Type 0 where
  pub unicode : Unicode
  pub parses_ip : Text → Bool
  pub sha256_hex : Text → Text
  pub lookup_txt : Text → TxtAnswer
  pub lookup_cname : Text → CnameAnswer
  pub gateway_public_host : Text
  pub automation_enabled : Bool
  pub token : Option Text
  pub new_id : ℕ
  pub db_now : ℕ

pub data Served : Type 0 where
  serves_domain : CustomDomain → Served
  rejects : ServiceError → Served

abbrev pub not_found_or : RepoError → ServiceError
not_found_or custom_domain_not_found = no_such_domain
not_found_or e = wraps e

-- `return s.repo.…`, with the error for a missing row.
abbrev pub served : Store × Reply → Store × Served
served (db, row r) = (db, serves_domain r)
served (db, refused e) = (db, rejects (not_found_or e))

-- GetByIDForProject, which fails while the database is down.
unfoldable pub load_domain : Store → ℕ → ℕ → Reply
load_domain db id project =
    if db.up then get_by_id_for_project db id project else refused database_error

-- GetCustomDomain
unfoldable pub get_custom_domain : Store → ℕ → ℕ → Served
get_custom_domain db project id = (served (db, load_domain db id project)).1

abbrev pub verification_prefix : Text
verification_prefix = codes "elitegate-verification="

abbrev pub record_name_of : Text → Text
record_name_of hostname = codes "_elitegate-verification" ++ codes "." ++ hostname

-- The record that the owner of the domain has to publish.
pub record VerificationRecord : Type 0 where
  pub name : Text
  pub value : Text

pub data Created : Type 0 where
  created : ℕ → VerificationRecord → Created
  not_created : ServiceError → Created

module _ (e : DomainEnv) where
  -- The end of CreateCustomDomain, by the error of Create.
  abbrev pub registered : VerificationRecord → Store × Option CreateError → Store × Created
  registered v (db, none) = (db, created e.new_id v)
  registered v (db, some hostname_conflict) = (db, not_created already_exists)
  registered v (db, some (create_fails err)) = (db, not_created (wraps err))

  abbrev pub register_with : Store → ℕ → Text → Option Text → Store × Created
  register_with db project hostname none = (db, not_created no_random_bytes)
  register_with db project hostname (some token) =
      registered (record { name = record_name_of hostname; value = verification_prefix ++ token })
        (create db (
          new_domain e.db_now e.new_id project hostname (e.sha256_hex token)
            (record_name_of hostname) e.gateway_public_host))

  abbrev pub register_unless : Store → ℕ → Text → Option Bool → Store × Created
  register_unless db project hostname none = (db, not_created (wraps database_error))
  register_unless db project hostname (some true) = (db, not_created already_exists)
  register_unless db project hostname (some false) = register_with db project hostname e.token

  abbrev pub register_hostname : Store → ℕ → Option Text → Store × Created
  register_hostname db project none = (db, not_created invalid_hostname)
  register_hostname db project (some hostname) =
      register_unless db project hostname (hostname_exists db hostname)

  unfoldable pub create_custom_domain : Store → ℕ → Text → Store × Created
  create_custom_domain db project raw_hostname =
      register_hostname db project (normalize_hostname e.unicode e.parses_ip raw_hostname)

  -- One TXT record: secureHashEqual of the token's hash and the expected one.
  unfoldable pub matches_token : Text → Text → Bool
  matches_token expected txt =
      let trimmed = trim_space e.unicode txt in
      let token = trim_space e.unicode (trim_prefix trimmed verification_prefix) in
      has_prefix trimmed verification_prefix
      && not (is_empty token)
      && length (e.sha256_hex token) == length expected
      && text_eq (e.sha256_hex token) expected

  unfoldable pub contains_matching_verification_token : List Text → Text → Bool
  contains_matching_verification_token [] expected = false
  contains_matching_verification_token (t ∷ ts) expected =
      matches_token expected t || contains_matching_verification_token ts expected

  -- What recording a failure answers is logged only.
  abbrev pub verification_fails : Store → CustomDomain → Text → ServiceError → Store × Served
  verification_fails db r reason err =
      ((record_verification_failure db e.db_now r.id r.project_id reason).0, rejects err)

  unfoldable pub verify_by_txt : Store → CustomDomain → TxtAnswer → Store × Served
  verify_by_txt db r txt_fails = (db, rejects txt_lookup_failed)
  verify_by_txt db r txt_not_found =
      verification_fails db r (codes "DNS verification TXT record missing") record_not_found
  verify_by_txt db r (txt_records records) =
      if contains_matching_verification_token records r.verification_token_hash
      then served (mark_verified db e.db_now r.id r.project_id)
      else verification_fails db r (codes "DNS verification token does not match") token_mismatch

  abbrev pub verify_loaded : Store → Reply → Store × Served
  verify_loaded db (refused err) = (db, rejects (not_found_or err))
  verify_loaded db (row r) =
      if is_verified r.status || is_active r.status
      then (db, serves_domain r)
      else verify_by_txt db r (e.lookup_txt r.verification_record_name)

  unfoldable pub verify_custom_domain : Store → ℕ → ℕ → Store × Served
  verify_custom_domain db project id = verify_loaded db (load_domain db id project)
