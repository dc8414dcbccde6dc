-- ===== src/DomainRepo/Tenants.antt =====
-- custom_domain_repo.go: the rows that the request of one project reaches.
use elite_gate.Prelude.{
  ℕ, ◌≡◌, refl, ◌⊎◌, inl, inr, Bool, true, false, Option, arith, if◌then◌else◌,
}
use elite_gate.Text.{Text}
use elite_gate.Domain.{CustomDomain, ProvisioningStatus, RoutingStatus}
use elite_gate.DomainRepo.{Store, RepoError, guarded}
use elite_gate.Table.Effects.{Rows, Rows-refl, exec-Rows}
use elite_gate.DomainRepo.Effects.{guarded-Rows}
use elite_gate.DomainRepo.Requests.{
  Reply, owned, update_returning, enqueue_provisioning, reset_provisioning_for_retry,
  enqueue_deprovisioning, reset_deprovisioning_for_retry, mark_active, update_routing_status,
  mark_verified, record_verification_failure, soft_delete,
}

-- Each row stays, or is a live row with the ID and of the project; no row changes its owner.
abbrev pub Confined : ℕ → ℕ → Store → Store → Type 0
Confined id project db after =
    Rows
      (λ r s.
        (s ≡ r)
        ⊎ ((owned id project r ≡ true)
            × (s.id ≡ r.id)
            × (s.project_id ≡ r.project_id)
            × (s.hostname ≡ r.hostname)))
      db.rows after.rows

if-Confined :
    (id project : ℕ) (db : Store) (b : Bool) (o : Store × Reply) (down : Reply)
    → Confined id project db o.0
    → Confined id project db (if b then o else (db, down)).0
if-Confined id project db true o down v = v
if-Confined id project db false o down v = Rows-refl _ db.rows (λ r. inl refl)

module _ (id project : ℕ) (db : Store) (test : CustomDomain → Bool)
    (change : CustomDomain → CustomDomain)
    (reads : (r : CustomDomain) → test r ≡ true → owned id project r ≡ true)
    (keeps : (r : CustomDomain)
      → ((change r).id ≡ r.id)
        × ((change r).project_id ≡ r.project_id)
        × ((change r).hostname ≡ r.hostname)) where
  update-Confined :
      (missed : Reply) → Confined id project db (update_returning db test change missed).0
  unfolding update_returning
  update-Confined missed = if-Confined id project db db.up _ _ (
      exec-Rows _ test change (λ r. inl refl)
        (λ r h. inr (reads r h, (keeps r).0, (keeps r).1, (keeps r).2)) db.rows)

  guarded-Confined : (missed : RepoError) → Confined id project db (guarded db test change missed).0
  guarded-Confined missed =
      guarded-Rows _ test change (λ r. inl refl)
        (λ r h. inr (reads r h, (keeps r).0, (keeps r).1, (keeps r).2)) db missed

-- Each request on a domain, made for a project, whatever its second query sees, leaves every row as it is except a row that is not
-- deleted and has both the domain's ID and the project's; and it keeps that row's ID, project and
-- hostname.
pub requests-Confined :
    (db seen : Store) (now id project : ℕ) (to : ProvisioningStatus) (routing : RoutingStatus)
    (target : Text) (err : Option Text) (why : Text)
    → Confined id project db (enqueue_provisioning db seen now id project).0
      × Confined id project db (reset_provisioning_for_retry db now id project to).0
      × Confined id project db (enqueue_deprovisioning db seen now id project).0
      × Confined id project db (reset_deprovisioning_for_retry db now id project).0
      × Confined id project db (mark_active db now id project).0
      × Confined id project db (update_routing_status db now id project routing target err).0
      × Confined id project db (mark_verified db now id project).0
      × Confined id project db (record_verification_failure db now id project why).0
      × Confined id project db (soft_delete db now id project).0
unfolding enqueue_provisioning reset_provisioning_for_retry enqueue_deprovisioning
    reset_deprovisioning_for_retry mark_active update_routing_status mark_verified
    record_verification_failure soft_delete
requests-Confined db seen now id project to routing target err why = (
  update-Confined id project db _ _ (λ r h. ground arith) (λ r. (refl, refl, refl)) _,
  update-Confined id project db _ _ (λ r h. ground arith) (λ r. (refl, refl, refl)) _,
  update-Confined id project db _ _ (λ r h. ground arith) (λ r. (refl, refl, refl)) _,
  update-Confined id project db _ _ (λ r h. ground arith) (λ r. (refl, refl, refl)) _,
  update-Confined id project db _ _ (λ r h. ground arith) (λ r. (refl, refl, refl)) _,
  update-Confined id project db _ _ (λ r h. h) (λ r. (refl, refl, refl)) _,
  update-Confined id project db _ _ (λ r h. h) (λ r. (refl, refl, refl)) _,
  guarded-Confined id project db _ _ (λ r h. h) (λ r. (refl, refl, refl)) _,
  guarded-Confined id project db _ _ (λ r h. h) (λ r. (refl, refl, refl)) _,
)
