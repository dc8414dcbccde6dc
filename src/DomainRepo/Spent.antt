-- ===== src/DomainRepo/Spent.antt =====
-- custom_domain_repo.go: the statements of a worker that has lost its lease.
use elite_gate.Prelude.{
  true_not_false, ℕ, ◌≡◌, refl, ◌≢◌, inl, inr, Bool, true, false, ◌&&◌, List, [], ◌∷◌, some, none,
  arith, if◌then◌else◌, ◌==◌, any, All, Bool-cases,
}
use elite_gate.Text.{Text}
use elite_gate.Domain.{CustomDomain, ProvisioningStatus, attaching_certificate, deprovisioning}
use elite_gate.DomainRepo.{Store, Done, RepoError, guarded}
use elite_gate.Table.{holds, is_null}
use elite_gate.DomainRepo.Lease.{
  AdvanceParams, leased, leased_or_deleted, release_provisioning_lease, advance_provisioning_state,
  schedule_provisioning_poll, schedule_provisioning_retry, mark_provisioning_failed,
  mark_provisioning_completed, mark_deprovisioned, mark_deprovision_failed,
}

-- No row with an ID is held under a lease.
abbrev pub IsSpent : ℕ → ℕ → Store → Type 0
IsSpent id lease db = All (λ r. r.id ≡ id → r.lease_token ≢ some lease) db.rows

-- The store as it was, and an error.
abbrev pub Refuses : Store → Done → Type 0
Refuses db o = (o.0 ≡ db) × (o.1 ≢ none)

none_passes :
    (id lease : ℕ) (test : CustomDomain → Bool) (rs : List CustomDomain)
    → ((r : CustomDomain) → test r ≡ true → (r.id ≡ id) × (r.lease_token ≡ some lease))
    → All (λ r. r.id ≡ id → r.lease_token ≢ some lease) rs
    → any test rs ≡ false
none_passes id lease test [] reads v = refl
none_passes id lease test (r ∷ rs) reads (p, v) = elim (Bool-cases (test r)) [
  | inl e ↦ absurd (p (reads r e).0 (reads r e).1)
  | inr e ↦ rw e (none_passes id lease test rs reads v)
]

if_Refuses :
    (db : Store) (a b : Bool) (o : Done) (missed down : RepoError)
    → b ≡ false
    → Refuses db (if a then (if b then o else (db, some missed)) else (db, some down))
if_Refuses db true true o missed down h = absurd (true_not_false h)
if_Refuses db true false o missed down h = (refl, λ e. cc)
if_Refuses db false b o missed down h = (refl, λ e. cc)

guarded-Refuses :
    (id lease : ℕ) (db : Store) (test : CustomDomain → Bool) (change : CustomDomain → CustomDomain)
    (missed : RepoError)
    → ((r : CustomDomain) → test r ≡ true → (r.id ≡ id) × (r.lease_token ≡ some lease))
    → IsSpent id lease db
    → Refuses db (guarded db test change missed)
unfolding guarded
guarded-Refuses id lease db test change missed reads v =
    if_Refuses db db.up (any test db.rows) _ missed _ (none_passes id lease test db.rows reads v)

pub leased_reads :
    (id lease : ℕ) (at : ProvisioningStatus) (r : CustomDomain)
    → leased id lease at r ≡ true
    → (r.id ≡ id) × (r.lease_token ≡ some lease)
leased_reads id lease at r h = ground arith

pub leased_or_deleted_reads :
    (id lease : ℕ) (at : ProvisioningStatus) (r : CustomDomain)
    → leased_or_deleted id lease at r ≡ true
    → (r.id ≡ id) × (r.lease_token ≡ some lease)
leased_or_deleted_reads id lease at r h = ground arith

pub release_reads :
    (id lease : ℕ) (r : CustomDomain)
    → (r.id == id && holds r.lease_token lease && is_null r.deleted_at) ≡ true
    → (r.id ≡ id) × (r.lease_token ≡ some lease)
release_reads id lease r h = ground arith

-- A worker whose lease is on no row with the ID any more, because the row was given to another
-- worker, reset by a request or written under the lease already, changes nothing with any of the
-- statements that a worker makes, and each answers an error.
pub stale_worker-Refuses :
    (db : Store) (now id lease : ℕ) (at : ProvisioningStatus) (p : AdvanceParams) (t : ℕ)
    (why : Text) (priority : ℕ)
    → IsSpent id lease db
    → p.id ≡ id
    → p.lease_token ≡ lease
    → Refuses db (advance_provisioning_state db now p)
      × Refuses db (schedule_provisioning_poll db now id lease at t)
      × Refuses db (schedule_provisioning_retry db now id lease at t why)
      × Refuses db (mark_provisioning_failed db now id lease at why)
      × Refuses db (mark_provisioning_completed db now id lease why priority)
      × Refuses db (mark_deprovisioned db now id lease)
      × Refuses db (mark_deprovision_failed db now id lease why)
      × Refuses db (release_provisioning_lease db now id lease)
unfolding advance_provisioning_state schedule_provisioning_poll schedule_provisioning_retry
    mark_provisioning_failed mark_provisioning_completed mark_deprovisioned mark_deprovision_failed
    release_provisioning_lease
stale_worker-Refuses db now id lease at p t why priority v i l = (
  guarded-Refuses id lease db _ _ _
      (λ r h. leased_reads id lease p.expected_status r (rw⁻¹ (i, l) h)) v,
  guarded-Refuses id lease db _ _ _ (leased_reads id lease at) v,
  guarded-Refuses id lease db _ _ _ (leased_reads id lease at) v,
  guarded-Refuses id lease db _ _ _ (leased_reads id lease at) v,
  guarded-Refuses id lease db _ _ _ (leased_reads id lease attaching_certificate) v,
  guarded-Refuses id lease db _ _ _ (leased_or_deleted_reads id lease deprovisioning) v,
  guarded-Refuses id lease db _ _ _ (leased_or_deleted_reads id lease deprovisioning) v,
  guarded-Refuses id lease db _ _ _ (release_reads id lease) v,
)
