-- ===== src/Provisioner/Effects.antt =====
-- provisioner.go, ProcessNextJob: what a call can bring about.
use elite_gate.Prelude.{
  true_not_false, Bool-cases, ℕ, ◌≡◌, refl, sym, ◌∙◌, ap, ◌⊎◌, inl, inr, ◌≢◌, true, ◌*◌, ◌^◌, false,
  arith,
}
use elite_gate.Domain.Laws.{same_status_iff}
use elite_gate.Domain.{same_status, CustomDomain, ProvisioningStatus, completed, deprovisioned}
use elite_gate.DomainRepo.{Store}
use elite_gate.Table.Effects.{Rows, Rows-map}
use elite_gate.DomainRepo.Queue.{job_of, is_claimable, is_queued, set_claimed}
use elite_gate.DomainRepo.Claims.{HasKeys}
use elite_gate.Provisioner.{Env}
use elite_gate.Provisioner.Process.{process_next_job}
use elite_gate.Provisioner.Leaves.{◌⟶◌, Activated, Dismantled}
use elite_gate.Provisioner.Ticks.{Progress, claimed_store, tick-Rows}

due-is_queued :
    (now db_now timeout : ℕ) (r : CustomDomain)
    → is_claimable now db_now timeout r ≡ true
    → is_queued r.provisioning_status ≡ true
unfolding is_claimable
due-is_queued now db_now timeout r h = ground arith

not_queued :
    (now db_now timeout : ℕ) (r : CustomDomain) (at : ProvisioningStatus)
    → is_queued at ≡ false
    → is_claimable now db_now timeout r ≡ true
    → r.provisioning_status ≢ at
not_queued now db_now timeout r at idle due h =
    true_not_false (sym (due-is_queued now db_now timeout r due) ∙ ap is_queued h ∙ idle)

not_before :
    {W : Type 0} (now db_now timeout : ℕ) (r : CustomDomain) (at : ProvisioningStatus)
    → is_queued at ≡ false
    → is_claimable now db_now timeout r ≡ true
    → (r.provisioning_status ≡ at) ⊎ W
    → W
not_before now db_now timeout r at idle due (inl was) =
    absurd (not_queued now db_now timeout r at idle due was)
not_before now db_now timeout r at idle due (inr w) = w

module _ (e : Env) (token : ℕ) (db : Store) (r s : CustomDomain) where
  moves :
      (s ≡ r) ⊎ Progress e token db r s
      → (s ≡ r)
        ⊎ ((is_claimable e.now e.db_now (300 * 10 ^ 9) r ≡ true)
            × (r.provisioning_status ⟶ s.provisioning_status)
            × (s.id ≡ r.id)
            × (s.project_id ≡ r.project_id)
            × (s.hostname ≡ r.hostname))
  moves (inl same) = inl same
  moves (inr p) = inr (p.due, p.edge, p.kept.0, p.kept.1, p.kept.2)

  goes_live :
      (s ≡ r) ⊎ Progress e token db r s
      → (same_status s.provisioning_status completed ≡ false)
        ⊎ (s ≡ r)
        ⊎ Activated e db (job_of (set_claimed e.db_now e.worker_id token r))
  goes_live (inl same) = inr (inl same)
  goes_live (inr p) = elim (Bool-cases (same_status s.provisioning_status completed)) [
    | inr e ↦ inl e
    | inl e ↦
        let h = (same_status_iff s.provisioning_status completed).0 e in
        inr (inr (not_before _ _ _ r completed refl p.due (p.live h)))
  ]

  goes_away :
      (s ≡ r) ⊎ Progress e token db r s
      → (same_status s.provisioning_status deprovisioned ≡ false)
        ⊎ (s ≡ r)
        ⊎ Dismantled e (job_of (set_claimed e.db_now e.worker_id token r))
  goes_away (inl same) = inr (inl same)
  goes_away (inr p) = elim (Bool-cases (same_status s.provisioning_status deprovisioned)) [
    | inr e ↦ inl e
    | inl e ↦
        let h = (same_status_iff s.provisioning_status deprovisioned).0 e in
        inr (inr (not_before _ _ _ r deprovisioned refl p.due (p.gone h)))
  ]

-- One call of ProcessNextJob leaves each row as it is, or the row was due for a claim, keeps its
-- ID, project and hostname, and its provisioning status stays or follows an edge of the life that
-- the worker drives. The rows have distinct keys; the cloud's answers are arbitrary.
pub process_next_job-Rows :
    (e : Env) (token : ℕ) (db : Store)
    → HasKeys db.rows
    → Rows
        (λ r s.
          (s ≡ r)
          ⊎ ((is_claimable e.now e.db_now (300 * 10 ^ 9) r ≡ true)
              × (r.provisioning_status ⟶ s.provisioning_status)
              × (s.id ≡ r.id)
              × (s.project_id ≡ r.project_id)
              × (s.hostname ≡ r.hostname)))
        db.rows
        (process_next_job e token db).0.store.rows
process_next_job-Rows e token db keys =
    Rows-map _ _ _ _ (moves e token _) (tick-Rows e token db keys)

-- After one call of ProcessNextJob a row is completed only if it is unchanged, or if the call
-- found its certificate managed and issued, attached it to the listener, found the target group of
-- the project's active gateway and ensured the host rule for the row's hostname with it. The rows
-- have distinct keys.
pub process_next_job-Activated :
    (e : Env) (token : ℕ) (db : Store)
    → HasKeys db.rows
    → Rows
        (λ r s.
          (same_status s.provisioning_status completed ≡ false)
          ⊎ (s ≡ r)
          ⊎ Activated e
              (claimed_store e token db)
              (job_of (set_claimed e.db_now e.worker_id token r)))
        db.rows
        (process_next_job e token db).0.store.rows
process_next_job-Activated e token db keys =
    Rows-map _ _ _ _ (goes_live e token _) (tick-Rows e token db keys)

-- After one call of ProcessNextJob a row is deprovisioned only if it is unchanged, or if its host
-- rule, where it has one, is deleted, and the certificate that the gate owns is detached from the
-- listener and deleted, each with no error or one that says it was gone, and each as far as its
-- manager and the listener are configured. The rows have distinct keys.
pub process_next_job-Dismantled :
    (e : Env) (token : ℕ) (db : Store)
    → HasKeys db.rows
    → Rows
        (λ r s.
          (same_status s.provisioning_status deprovisioned ≡ false)
          ⊎ (s ≡ r)
          ⊎ Dismantled e (job_of (set_claimed e.db_now e.worker_id token r)))
        db.rows
        (process_next_job e token db).0.store.rows
process_next_job-Dismantled e token db keys =
    Rows-map _ _ _ _ (goes_away e token _) (tick-Rows e token db keys)
