-- ===== src/Provisioner/RowEffects.antt =====
-- What a handler's run does to each row of the table.
use elite_gate.Prelude.{ℕ, ◌≡◌, refl, ◌⊎◌, inl, inr, Bool, true, none, some, arith}
use elite_gate.Domain.{
  CustomDomain, ProvisioningJob, ProvisioningStatus, completed, attaching_certificate,
  deprovisioning, deprovisioned, deprovision_failed, failed,
}
use elite_gate.Domain.Laws.{same_status_iff}
use elite_gate.DomainRepo.{Store, RepoError, guarded}
use elite_gate.Table.Effects.{Rows}
use elite_gate.DomainRepo.Effects.{guarded-Rows}
use elite_gate.DomainRepo.Lease.{
  leased, leased_or_deleted, advance_provisioning_state, schedule_provisioning_poll,
  schedule_provisioning_retry, mark_provisioning_failed, mark_provisioning_completed,
  mark_deprovisioned, mark_deprovision_failed,
}
use elite_gate.Provisioner.{Env, Outcome}
use elite_gate.Provisioner.Stages.{fail_at, retry_after, poll_after}
use elite_gate.Provisioner.Leaves.{
  ◌⟶◌, stays, activated, removed, not_removed, Activated, Dismantled, Leaf, gives_up, retries,
  polls, advances, completes, removes, keeps,
}

-- A row that a worker held and gave back. `L` is what has to hold for a row that became completed,
-- `G` for one that became deprovisioned.
pub record Moved (L G : Type 0) (id lease : ℕ) (r s : CustomDomain) : Type 0 where
  pub it : r.id ≡ id
  pub held : r.lease_token ≡ some lease
  pub edge : r.provisioning_status ⟶ s.provisioning_status
  pub kept : (s.id ≡ r.id) × (s.project_id ≡ r.project_id) × (s.hostname ≡ r.hostname)
  pub free : (s.lease_token ≡ none) × (s.locked_at ≡ none)
  pub live : s.provisioning_status ≡ completed → (r.provisioning_status ≡ completed) ⊎ L
  pub gone : s.provisioning_status ≡ deprovisioned → (r.provisioning_status ≡ deprovisioned) ⊎ G

abbrev pub Worked : Type 0 → Type 0 → ℕ → ℕ → CustomDomain → CustomDomain → Type 0
Worked L G id lease r s = (s ≡ r) ⊎ Moved L G id lease r s

pub leased_lem :
    (id lease : ℕ) (at : ProvisioningStatus) (r : CustomDomain)
    → leased id lease at r ≡ true
    → (r.id ≡ id) × (r.lease_token ≡ some lease) × (r.provisioning_status ≡ at)
leased_lem id lease at r h = ground (arith, same_status_iff r.provisioning_status at)

pub leased_or_deleted_lem :
    (id lease : ℕ) (at : ProvisioningStatus) (r : CustomDomain)
    → leased_or_deleted id lease at r ≡ true
    → (r.id ≡ id) × (r.lease_token ≡ some lease) × (r.provisioning_status ≡ at)
leased_or_deleted_lem id lease at r h = ground (arith, same_status_iff r.provisioning_status at)

module _ (e : Env) (db : Store) (job : ProvisioningJob) (lease : ℕ) where
  abbrev AtJob : CustomDomain → CustomDomain → Type 0
  AtJob = Worked (Activated e db job) (Dismantled e job) job.id lease

  -- A statement under the lease whose change frees the row and follows an edge.
  under_lease :
      (stage to : ProvisioningStatus) (test : CustomDomain → Bool)
      (change : CustomDomain → CustomDomain) (missed : RepoError)
      → ((r : CustomDomain)
          → test r ≡ true
          → (r.id ≡ job.id) × (r.lease_token ≡ some lease) × (r.provisioning_status ≡ stage))
      → stage ⟶ to
      → ((r : CustomDomain)
          → ((change r).id ≡ r.id)
            × ((change r).project_id ≡ r.project_id)
            × ((change r).hostname ≡ r.hostname))
      → ((r : CustomDomain) → ((change r).lease_token ≡ none) × ((change r).locked_at ≡ none))
      → ((r : CustomDomain) → r.provisioning_status ≡ stage → (change r).provisioning_status ≡ to)
      → (to ≡ completed → (stage ≡ completed) ⊎ Activated e db job)
      → (to ≡ deprovisioned → (stage ≡ deprovisioned) ⊎ Dismantled e job)
      → Rows AtJob db.rows (guarded db test change missed).0.rows
  under_lease stage to test change missed reads edge kept free moves live gone =
      guarded-Rows AtJob test change (λ r. inl refl)
        (λ r h.
          let (it, held, at) = reads r h in
          inr (record {
            it = it;
            held = held;
            edge = rw (moves r at, at) edge;
            kept = kept r;
            free = free r;
            live = rw (moves r at, at) live;
            gone = rw (moves r at, at) gone;
          }))
        db missed

  pub Leaf-Worked :
      {stage : ProvisioningStatus} {o : Outcome}
      → Leaf e db job lease stage o
      → Rows AtJob db.rows o.store.rows
  unfolding fail_at retry_after poll_after mark_provisioning_failed schedule_provisioning_retry
      schedule_provisioning_poll advance_provisioning_state mark_provisioning_completed
      mark_deprovisioned mark_deprovision_failed
  Leaf-Worked {stage} (gives_up calls why edge) =
      under_lease stage failed _ _ _ (leased_lem job.id lease stage) edge (λ r. (refl, refl, refl))
        (λ r. (refl, refl)) (λ r at. refl) (λ h. cc) (λ h. cc)
  Leaf-Worked {stage} (retries calls why) =
      under_lease stage stage _ _ _ (leased_lem job.id lease stage) stays (λ r. (refl, refl, refl))
        (λ r. (refl, refl)) (λ r at. at) inl inl
  Leaf-Worked {stage} (polls calls) =
      under_lease stage stage _ _ _ (leased_lem job.id lease stage) stays (λ r. (refl, refl, refl))
        (λ r. (refl, refl)) (λ r at. at) inl inl
  Leaf-Worked {stage} (advances calls p i l s edge n d) =
      rw (i, l, s)
        (under_lease stage p.new_status _ _ _ (leased_lem job.id lease stage) edge
          (λ r. (refl, refl, refl)) (λ r. (refl, refl)) (λ r at. refl) (λ h. absurd (n h))
          (λ h. absurd (d h)))
  Leaf-Worked {stage} (completes v at) =
      under_lease attaching_certificate completed _ _ _
        (leased_lem job.id lease attaching_certificate) activated (λ r. (refl, refl, refl))
        (λ r. (refl, refl)) (λ r at. refl) (λ h. inr v) (λ h. cc)
  Leaf-Worked {stage} (removes calls passed at) =
      under_lease deprovisioning deprovisioned _ _ _
        (leased_or_deleted_lem job.id lease deprovisioning) removed (λ r. (refl, refl, refl))
        (λ r. (refl, refl)) (λ r at. refl) (λ h. cc) (λ h. inr passed)
  Leaf-Worked {stage} (keeps calls why at) =
      under_lease deprovisioning deprovision_failed _ _ _
        (leased_or_deleted_lem job.id lease deprovisioning) not_removed (λ r. (refl, refl, refl))
        (λ r. (refl, refl)) (λ r at. refl) (λ h. cc) (λ h. cc)
