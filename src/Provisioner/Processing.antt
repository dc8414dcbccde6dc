-- ===== src/Provisioner/Processing.antt =====
-- ProcessNextJob as a whole: the claim, the handler, and what is left of the table.
use elite_gate.Prelude.{ℕ, ◌≡◌, refl, sym, ap, ◌⊎◌, inl, inr, true, ◌&&◌, some, arith, ◌==◌}
use mathlib.Core.Path.{subst}
use elite_gate.Domain.{
  CustomDomain, ProvisioningJob, ProvisioningStatus, requesting_certificate,
  waiting_for_validation_record, waiting_for_dns, attaching_certificate, deprovisioning,
}
use elite_gate.DomainRepo.{Store}
use elite_gate.Table.{holds, is_null}
use elite_gate.Table.Effects.{Rows}
use elite_gate.DomainRepo.Effects.{guarded-Rows}
use elite_gate.DomainRepo.Lease.{release_provisioning_lease}
use elite_gate.Provisioner.{Env, Outcome}
use elite_gate.Provisioner.Stages.{
  with_lease, handle_requesting_certificate, handle_waiting_for_validation_record,
  handle_waiting_for_dns,
}
use elite_gate.Provisioner.Attaching.{handle_attaching_certificate}
use elite_gate.Provisioner.Removing.{handle_deprovisioning}
use elite_gate.Provisioner.Process.{dispatch, release_unhandled}
use elite_gate.Provisioner.Leaves.{
  stays, Leaf, Activated, Dismantled, request_stage-Leaf, validation_stage-Leaf, dns_stage-Leaf,
}
use elite_gate.Provisioner.LastSteps.{attaching_stage-Leaf}
use elite_gate.Provisioner.Dismantling.{removing_stage-Leaf}
use elite_gate.Provisioner.RowEffects.{Worked, Leaf-Worked}

held-Leaf :
    (e : Env) (db : Store) (job : ProvisioningJob) (lease : ℕ) (s : ProvisioningStatus)
    (k : ℕ → Outcome)
    → job.lease_token ≡ some lease
    → Leaf e db job lease s (k lease)
    → Leaf e db job lease s (with_lease db job.lease_token k)
held-Leaf e db job lease s k h v = subst (λ o. Leaf e db job lease s (with_lease db o k)) (sym h) v

-- A run of the dispatcher under a lease: one of the handlers' last statements, or the lease given
-- back.
pub dispatch-Leaf :
    (e : Env) (db : Store) (job : ProvisioningJob) (lease : ℕ) (s : ProvisioningStatus)
    → job.lease_token ≡ some lease
    → Leaf e db job lease s (dispatch e db job s)
      ⊎ ((dispatch e db job s).store ≡ (release_provisioning_lease db e.db_now job.id lease).0)
unfolding dispatch handle_requesting_certificate handle_waiting_for_validation_record
    handle_waiting_for_dns handle_attaching_certificate handle_deprovisioning
dispatch-Leaf e db job lease requesting_certificate h =
    inl (held-Leaf e db job lease _ _ h (request_stage-Leaf e db job lease))
dispatch-Leaf e db job lease waiting_for_validation_record h =
    inl (held-Leaf e db job lease _ _ h (validation_stage-Leaf e db job lease))
dispatch-Leaf e db job lease waiting_for_dns h =
    inl (held-Leaf e db job lease _ _ h (dns_stage-Leaf e db job lease))
dispatch-Leaf e db job lease attaching_certificate h =
    inl (held-Leaf e db job lease _ _ h (attaching_stage-Leaf e db job lease))
dispatch-Leaf e db job lease deprovisioning h =
    inl (held-Leaf e db job lease _ _ h (removing_stage-Leaf e db job lease))
dispatch-Leaf e db job lease _ h = inr (ap (release_unhandled e db job.id) h)

at_lease :
    (id lease : ℕ) (r : CustomDomain)
    → (r.id == id && holds r.lease_token lease && is_null r.deleted_at) ≡ true
    → (r.id ≡ id) × (r.lease_token ≡ some lease)
at_lease id lease r h = ground arith

released-Rows :
    (e : Env) (db : Store) (job : ProvisioningJob) (lease : ℕ) (L G : Type 0)
    → Rows
        (Worked L G job.id lease)
        db.rows
        (release_provisioning_lease db e.db_now job.id lease).0.rows
unfolding release_provisioning_lease
released-Rows e db job lease L G =
    guarded-Rows (Worked L G job.id lease) _ _ (λ r. inl refl)
      (λ r h.
        let (it, held) = at_lease job.id lease r h in
        inr (record {
          it = it;
          held = held;
          edge = stays;
          kept = (refl, refl, refl);
          free = (refl, refl);
          live = inl;
          gone = inl;
        }))
      db _

pub dispatch-Rows :
    (e : Env) (db : Store) (job : ProvisioningJob) (lease : ℕ) (s : ProvisioningStatus)
    → job.lease_token ≡ some lease
    → let o = dispatch e db job s in
      Rows (Worked (Activated e db job) (Dismantled e job) job.id lease) db.rows o.store.rows
dispatch-Rows e db job lease s h = elim (dispatch-Leaf e db job lease s h) [
  | inl v ↦ Leaf-Worked e db job lease v
  | inr v ↦
      subst (λ t. Rows (Worked (Activated e db job) (Dismantled e job) job.id lease) db.rows t.rows)
        (sym v) (released-Rows e db job lease _ _)
]
