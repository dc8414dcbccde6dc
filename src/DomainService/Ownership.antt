-- ===== src/DomainService/Ownership.antt =====
-- custom_domain_service.go: which rows a request reaches, and what a verification asks for.
use elite_gate.Prelude.{
  ℕ, ◌≡◌, refl, ◌∙◌, ap, inl, Bool, true, false, ◌||◌, not, [], Option, none, some, if◌then◌else◌,
  Any, arith,
}
use mathlib.Core.Path.{subst}
use elite_gate.Text.{Text}
use elite_gate.Table.{find}
use elite_gate.Table.Effects.{Rows-refl, find-some}
use elite_gate.Domain.{
  CustomDomain, ProvisioningStatus, not_started, is_verified, is_active, is_ready, same_status,
  RoutingStatus, pending, completed,
}
use elite_gate.DomainRepo.{Store, database_error}
use elite_gate.DomainRepo.Requests.{
  Reply, row, refused, owned, get_by_id_for_project, mark_verified, record_verification_failure,
  or_not_found, update_routing_status, reset_provisioning_for_retry, enqueue_provisioning,
  enqueue_deprovisioning, reset_deprovisioning_for_retry,
}
use elite_gate.DomainRepo.Tenants.{Confined, requests-Confined}
use elite_gate.DomainService.{
  DomainEnv, TxtAnswer, txt_records, txt_not_found, txt_fails, CnameAnswer, cname, cname_fails,
  rejects, ServiceError, served, load_domain, verification_fails, verify_by_txt, verify_loaded,
  verify_custom_domain,
}
use elite_gate.DomainService.Lifecycle.{
  served_as_is, queued_activation, in_progress, retry_target, set_routing_failed, check_by_cname,
  check_loaded, check_custom_domain_routing, perform_retry, activate_loaded, activate_custom_domain,
  delete_custom_domain, retry_removal, retry_deprovisioning, retry_loaded, retry_provisioning,
  normalize_cname,
}

found-owned :
    (db : Store) (id project : ℕ) (r : CustomDomain) (o : Option CustomDomain)
    → find (owned id project) db.rows ≡ o
    → or_not_found o ≡ row r
    → (owned id project r ≡ true) × Any (λ y. y ≡ r) db.rows
found-owned db id project r none h k = absurd cc
found-owned db id project r (some s) h k =
    let same : s ≡ r = cc in find-some (owned id project) db.rows r (h ∙ ap some same)

loaded-owned :
    (db : Store) (id project : ℕ) (r : CustomDomain) (b : Bool)
    → (if b then get_by_id_for_project db id project else refused database_error) ≡ row r
    → (owned id project r ≡ true) × Any (λ y. y ≡ r) db.rows
unfolding get_by_id_for_project
loaded-owned db id project r true h = found-owned db id project r _ refl h
loaded-owned db id project r false h = absurd cc

pub load_domain-owned :
    (db : Store) (id project : ℕ) (r : CustomDomain)
    → load_domain db id project ≡ row r
    → (owned id project r ≡ true) × Any (λ y. y ≡ r) db.rows
unfolding load_domain
load_domain-owned db id project r h = loaded-owned db id project r db.up h

-- The rows after a call that answers something.
record Within {A : Type 0} (db : Store) (id project : ℕ) (o : Store × A) : Type 0 where
  confined : Confined id project db o.0

module _ (db : Store) (id project : ℕ) where
  stays-Confined : Confined id project db db
  stays-Confined = Rows-refl _ db.rows (λ r. inl refl)

  stays-Within : {A : Type 0} (a : A) → Within db id project (db, a)
  stays-Within a = record { confined = stays-Confined }

  if-Within :
      {A : Type 0} (b : Bool) {o q : Store × A}
      → Within db id project o
      → Within db id project q
      → Within db id project (if b then o else q)
  if-Within true v w = v
  if-Within false v w = w

  -- A statement on the ID and the project of a loaded row.
  loaded-Confined :
      (r : CustomDomain) (after : Store)
      → owned id project r ≡ true
      → Confined r.id r.project_id db after
      → Confined id project db after
  loaded-Confined r after h v =
      let same_id : r.id ≡ id = ground arith in
      let same_project : r.project_id ≡ project = ground arith in
      subst (λ i. Confined i project db after) same_id
        (subst (λ p. Confined r.id p db after) same_project v)

  served-Within : (o : Store × Reply) → Within db id project o → Within db id project (served o)
  served-Within (d, row r) v = record { confined = v.confined }
  served-Within (d, refused err) v = record { confined = v.confined }

  served_as_is-Within :
      (o : Store × Reply) → Within db id project o → Within db id project (served_as_is o)
  served_as_is-Within (d, row r) v = record { confined = v.confined }
  served_as_is-Within (d, refused err) v = record { confined = v.confined }

  queued_activation-Within :
      (o : Store × Reply) → Within db id project o → Within db id project (queued_activation o)
  queued_activation-Within (d, row r) v = record { confined = v.confined }
  queued_activation-Within (d, refused err) v = record { confined = v.confined }

module _ (e : DomainEnv) (db : Store) (project id : ℕ) where
  module _ (r : CustomDomain) (h : owned id project r ≡ true) where
    verified-Within : Within db id project (mark_verified db e.db_now r.id r.project_id)
    verified-Within = record {
      confined =
          loaded-Confined db id project r (mark_verified db e.db_now r.id r.project_id).0 h
            (requests-Confined db db e.db_now r.id r.project_id not_started pending [] none []).6;
    }

    failure-Within :
        (reason : Text) (err : ServiceError)
        → Within db id project (verification_fails e db r reason err)
    failure-Within reason err = record {
      confined =
          loaded-Confined db id project r
            (record_verification_failure db e.db_now r.id r.project_id reason).0 h
            (requests-Confined db db e.db_now r.id r.project_id not_started pending [] none
              reason).7;
    }

    routing-Within :
        (status : RoutingStatus) (target : Text) (reason : Option Text)
        → Within db id project
            (update_routing_status db e.db_now r.id r.project_id status target reason)
    routing-Within status target reason = record {
      confined =
          loaded-Confined db id project r
            (update_routing_status db e.db_now r.id r.project_id status target reason).0 h
            (requests-Confined db db e.db_now r.id r.project_id not_started status target reason
              []).5;
    }

    perform_retry-Within : Within db id project (perform_retry e db r)
    unfolding perform_retry
    perform_retry-Within = record {
      confined =
          loaded-Confined db id project r
            (reset_provisioning_for_retry db e.db_now r.id r.project_id (retry_target r)).0 h
            (requests-Confined db db e.db_now r.id r.project_id (retry_target r) pending [] none
              []).1;
    }

    verify_by_txt-Within : (a : TxtAnswer) → Within db id project (verify_by_txt e db r a)
    unfolding verify_by_txt
    verify_by_txt-Within txt_fails = stays-Within db id project _
    verify_by_txt-Within txt_not_found = failure-Within _ _
    verify_by_txt-Within (txt_records records) =
        if-Within db id project _ (served-Within db id project _ verified-Within)
          (failure-Within _ _)

    unrouted-Within :
        (reason : Text) (err : ServiceError)
        → Within db id project (set_routing_failed e db r reason, rejects err)
    unrouted-Within reason err = record {
      confined =
          (routing-Within RoutingStatus.failed (normalize_cname e.unicode e.gateway_public_host)
            (some reason)).confined;
    }

    check_by_cname-Within : (a : CnameAnswer) → Within db id project (check_by_cname e db r a)
    unfolding check_by_cname
    check_by_cname-Within (cname_fails err) = unrouted-Within _ _
    check_by_cname-Within (cname target) =
        if-Within db id project _ (served_as_is-Within db id project _ (routing-Within _ _ _))
          (unrouted-Within _ _)

  enqueue-Within :
      (seen : Store) → Within db id project (enqueue_provisioning db seen e.db_now id project)
  enqueue-Within seen = record {
    confined = (requests-Confined db seen e.db_now id project not_started pending [] none []).0;
  }

  removal-Within :
      (seen : Store) → Within db id project (enqueue_deprovisioning db seen e.db_now id project)
  removal-Within seen = record {
    confined = (requests-Confined db seen e.db_now id project not_started pending [] none []).2;
  }

  removal_retry-Within :
      Within db id project (reset_deprovisioning_for_retry db e.db_now id project)
  removal_retry-Within = record {
    confined = (requests-Confined db db e.db_now id project not_started pending [] none []).3;
  }

  verify_loaded-Within :
      (o : Reply) → load_domain db id project ≡ o → Within db id project (verify_loaded e db o)
  verify_loaded-Within (refused err) h = stays-Within db id project _
  verify_loaded-Within (row r) h =
      if-Within db id project _ (stays-Within db id project _)
        (verify_by_txt-Within r (load_domain-owned db id project r h).0 _)

  check_loaded-Within :
      (o : Reply) → load_domain db id project ≡ o → Within db id project (check_loaded e db o)
  check_loaded-Within (refused err) h = stays-Within db id project _
  check_loaded-Within (row r) h =
      if-Within db id project _ (check_by_cname-Within r (load_domain-owned db id project r h).0 _)
        (stays-Within db id project _)

  activate_loaded-Within :
      (seen : Store) (o : Reply)
      → ((r : CustomDomain) → o ≡ row r → owned id project r ≡ true)
      → Within db id project (activate_loaded e db seen project id o)
  unfolding activate_loaded
  activate_loaded-Within seen (refused err) h = stays-Within db id project _
  activate_loaded-Within seen (row r) h =
      if-Within db id project (is_active r.status || same_status r.provisioning_status completed)
        (stays-Within db id project _)
        (if-Within db id project (in_progress r.provisioning_status) (stays-Within db id project _)
          (if-Within db id project (not (is_verified r.status)) (stays-Within db id project _) (
            if-Within db id project (not (is_ready r.routing_status)) (stays-Within db id project _)
              (if-Within db id project (same_status r.provisioning_status ProvisioningStatus.failed)
                (queued_activation-Within db id project _ (perform_retry-Within r (h r refl)))
                (queued_activation-Within db id project _ (enqueue-Within seen))))))

  retry_removal-Within : (o : Reply) → Within db id project (retry_removal e db project id o)
  retry_removal-Within (refused err) = stays-Within db id project _
  retry_removal-Within (row r) =
      if-Within db id project _ (served_as_is-Within db id project _ removal_retry-Within)
        (stays-Within db id project _)

  retry_loaded-Within :
      (o : Reply) → load_domain db id project ≡ o → Within db id project (retry_loaded e db o)
  retry_loaded-Within (refused err) h = stays-Within db id project _
  retry_loaded-Within (row r) h =
      if-Within db id project (not (same_status r.provisioning_status ProvisioningStatus.failed))
        (stays-Within db id project _)
        (if-Within db id project (not (is_verified r.status)) (stays-Within db id project _) (
          if-Within db id project (not (is_ready r.routing_status)) (stays-Within db id project _) (
            served_as_is-Within db id project _
              (perform_retry-Within r (load_domain-owned db id project r h).0))))

  -- Each request of a project's member on a domain, whatever DNS answers, leaves every row as it is
  -- except a row that is not deleted and has both the domain's ID and the project's; and it keeps
  -- that row's ID, project and hostname. An activation may be loaded from another store, and the
  -- query after an UPDATE that took no row may find another one.
  pub service-Confined :
      (read seen : Store)
      → Confined id project db (verify_custom_domain e db project id).0
        × Confined id project db (check_custom_domain_routing e db project id).0
        × Confined id project db (activate_custom_domain e read db seen project id).0
        × Confined id project db (delete_custom_domain e db seen project id).0
        × Confined id project db (retry_deprovisioning e db project id).0
        × Confined id project db (retry_provisioning e db project id).0
  unfolding verify_custom_domain check_custom_domain_routing activate_custom_domain
      delete_custom_domain retry_deprovisioning retry_provisioning
  service-Confined read seen = (
    (verify_loaded-Within _ refl).confined,
    (check_loaded-Within _ refl).confined,
    (if-Within db id project _
        (activate_loaded-Within seen _ (λ r h. (load_domain-owned read id project r h).0))
        (stays-Within db id project _)).confined,
    (if-Within db id project _ (served-Within db id project _ (removal-Within seen))
        (stays-Within db id project _)).confined,
    (if-Within db id project _ (retry_removal-Within _) (stays-Within db id project _)).confined,
    (if-Within db id project _ (retry_loaded-Within _ refl)
        (stays-Within db id project _)).confined,
  )
