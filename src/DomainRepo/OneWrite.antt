-- ===== src/DomainRepo/OneWrite.antt =====
-- custom_domain_repo.go: the statements of a worker, one after another under one lease.
use elite_gate.Prelude.{
  All-map, true_not_false, none_not_some, ℕ, ◌≡◌, refl, sym, ◌∙◌, ◌≢◌, ◌⊎◌, inl, inr, Bool, true,
  false, List, [], ◌∷◌, some, none, if◌then◌else◌, any, All, Bool-cases,
}
use elite_gate.Text.{Text}
use elite_gate.Domain.{CustomDomain, ProvisioningStatus, attaching_certificate, deprovisioning}
use elite_gate.DomainRepo.{Store, Done, RepoError, guarded}
use elite_gate.Table.{exec}
use elite_gate.Table.Effects.{exec-All}
use elite_gate.DomainRepo.Claims.{HasKeys}
use elite_gate.DomainRepo.Lease.{
  AdvanceParams, release_provisioning_lease, advance_provisioning_state, schedule_provisioning_poll,
  schedule_provisioning_retry, mark_provisioning_failed, mark_provisioning_completed,
  mark_deprovisioned, mark_deprovision_failed,
}
use elite_gate.DomainRepo.Spent.{IsSpent, leased_reads, leased_or_deleted_reads, release_reads}

any-absurd :
    (test : CustomDomain → Bool) (rs : List CustomDomain)
    → All (λ s. test s ≢ true) rs
    → any test rs ≢ true
any-absurd test [] v h = true_not_false (sym h)
any-absurd test (r ∷ rs) (p, v) h = elim (Bool-cases (test r)) [
  | inl e ↦ p e
  | inr e ↦ any-absurd test rs v (rw e at h)
]

-- With distinct keys, a test that asks for an ID and passes somewhere passes on the row with it.
keyed :
    (id : ℕ) (test : CustomDomain → Bool) (rs : List CustomDomain)
    → HasKeys rs
    → ((r : CustomDomain) → test r ≡ true → r.id ≡ id)
    → any test rs ≡ true
    → All (λ r. r.id ≡ id → test r ≡ true) rs
keyed id test [] keys reads h = tt
keyed id test (r ∷ rs) (p, keys) reads h = elim (Bool-cases (test r)) [
  | inl e ↦ (λ _. e, All-map rs (λ s n same. absurd (n (same ∙ sym (reads r e)))) p)
  | inr e ↦ (
    λ same.
        absurd (any-absurd test rs (All-map rs (λ s n t. n (reads s t ∙ sym same)) p) (rw e at h)),
    keyed id test rs keys reads (rw e at h),
  )
]

-- An error and the store as it was, or the lease is used up.
abbrev pub Spends : ℕ → ℕ → Store → Done → Type 0
Spends id lease db o = ((o.0 ≡ db) × (o.1 ≢ none)) ⊎ ((o.1 ≡ none) × IsSpent id lease o.0)

if_Spends :
    (id lease : ℕ) (db : Store) (a b c : Bool) (o : Store) (missed down : RepoError)
    → (b ≡ true → IsSpent id lease o)
    → Spends id lease db (
        if a
        then (if b then (if c then (o, none) else (db, some down)) else (db, some missed))
        else (db, some down))
if_Spends id lease db true true true o missed down h = inr (refl, h refl)
if_Spends id lease db true true false o missed down h = inl (refl, λ e. cc)
if_Spends id lease db true false c o missed down h = inl (refl, λ e. cc)
if_Spends id lease db false b c o missed down h = inl (refl, λ e. cc)

guarded-Spends :
    (id lease : ℕ) (db : Store) (test : CustomDomain → Bool) (change : CustomDomain → CustomDomain)
    (missed : RepoError)
    → HasKeys db.rows
    → ((r : CustomDomain) → test r ≡ true → (r.id ≡ id) × (r.lease_token ≡ some lease))
    → ((r : CustomDomain) → (change r).lease_token ≡ none)
    → Spends id lease db (guarded db test change missed)
unfolding guarded
guarded-Spends id lease db test change missed keys reads frees =
    if_Spends id lease db db.up (any test db.rows) (db.accepts (exec test change db.rows)) _ missed
      _
      (λ h.
        exec-All (λ r. r.id ≡ id → test r ≡ true) (λ r. r.id ≡ id → r.lease_token ≢ some lease) test
          change (λ r p t same k. none_not_some (sym (frees r) ∙ k))
          (λ r p f same k. true_not_false (sym (p same) ∙ f)) db.rows
          (keyed id test db.rows keys (λ r t. (reads r t).0) h))

-- Each statement that a worker makes under a lease either answers an error and changes nothing, or
-- answers none and uses the lease up: no row with the ID holds it afterwards. The rows have
-- distinct keys.
pub lease_op-Spends :
    (db : Store) (now id lease : ℕ) (at : ProvisioningStatus) (p : AdvanceParams) (t : ℕ)
    (why : Text) (priority : ℕ)
    → HasKeys db.rows
    → Spends p.id p.lease_token db (advance_provisioning_state db now p)
      × Spends id lease db (schedule_provisioning_poll db now id lease at t)
      × Spends id lease db (schedule_provisioning_retry db now id lease at t why)
      × Spends id lease db (mark_provisioning_failed db now id lease at why)
      × Spends id lease db (mark_provisioning_completed db now id lease why priority)
      × Spends id lease db (mark_deprovisioned db now id lease)
      × Spends id lease db (mark_deprovision_failed db now id lease why)
      × Spends id lease db (release_provisioning_lease db now id lease)
unfolding advance_provisioning_state schedule_provisioning_poll schedule_provisioning_retry
    mark_provisioning_failed mark_provisioning_completed mark_deprovisioned mark_deprovision_failed
    release_provisioning_lease
lease_op-Spends db now id lease at p t why priority keys = (
  guarded-Spends p.id p.lease_token db _ _ _ keys
      (leased_reads p.id p.lease_token p.expected_status) (λ r. refl),
  guarded-Spends id lease db _ _ _ keys (leased_reads id lease at) (λ r. refl),
  guarded-Spends id lease db _ _ _ keys (leased_reads id lease at) (λ r. refl),
  guarded-Spends id lease db _ _ _ keys (leased_reads id lease at) (λ r. refl),
  guarded-Spends id lease db _ _ _ keys (leased_reads id lease attaching_certificate) (λ r. refl),
  guarded-Spends id lease db _ _ _ keys (leased_or_deleted_reads id lease deprovisioning)
      (λ r. refl),
  guarded-Spends id lease db _ _ _ keys (leased_or_deleted_reads id lease deprovisioning)
      (λ r. refl),
  guarded-Spends id lease db _ _ _ keys (release_reads id lease) (λ r. refl),
)
