-- ===== src/Provisioner/Ticks.antt =====
-- provisioner.go, ProcessNextJob: what one call does to the whole table.
use elite_gate.Prelude.{
  ℕ, ◌≡◌, refl, sym, ◌∙◌, ap, ◌⊎◌, inl, inr, Bool, true, pos, ◌*◌, ◌^◌, if◌then◌else◌, false,
}
use mathlib.Core.Path.{subst}
use elite_gate.Domain.{CustomDomain, completed, deprovisioned}
use elite_gate.DomainRepo.{Store}
use elite_gate.Table.Effects.{Rows, Rows-refl, Rows-trans}
use elite_gate.Table.Order.{lock_timeout_of}
use elite_gate.DomainRepo.Queue.{
  Claim, job_of, is_claimable, set_claimed, claim_next_provisioning_job,
}
use elite_gate.DomainRepo.Claims.{HasKeys, Chosen, Taking, waits, takes, claim_row-Taking}
use elite_gate.Provisioner.{Env}
use elite_gate.Provisioner.Process.{process_claim, process_next_job}
use elite_gate.Provisioner.Leaves.{◌⟶◌, stays, Activated, Dismantled}
use elite_gate.Provisioner.RowEffects.{Worked}
use elite_gate.Provisioner.Processing.{dispatch-Rows}

-- A row that the call worked on. `db` is the table after the claim.
pub record Progress (e : Env) (token : ℕ) (db : Store) (r s : CustomDomain) : Type 0 where
  pub due : is_claimable e.now e.db_now (lock_timeout_of (pos (300 * 10 ^ 9))) r ≡ true
  pub edge : r.provisioning_status ⟶ s.provisioning_status
  pub kept : (s.id ≡ r.id) × (s.project_id ≡ r.project_id) × (s.hostname ≡ r.hostname)
  pub live :
      s.provisioning_status ≡ completed
      → (r.provisioning_status ≡ completed)
        ⊎ Activated e db (job_of (set_claimed e.db_now e.worker_id token r))
  pub gone :
      s.provisioning_status ≡ deprovisioned
      → (r.provisioning_status ≡ deprovisioned)
        ⊎ Dismantled e (job_of (set_claimed e.db_now e.worker_id token r))

module _ (e : Env) (token : ℕ) where
  abbrev claim_of : CustomDomain → CustomDomain
  claim_of = set_claimed e.db_now e.worker_id token

  abbrev claimable : CustomDomain → Bool
  claimable = is_claimable e.now e.db_now (lock_timeout_of (pos (300 * 10 ^ 9)))

  abbrev AtRow : Store → CustomDomain → CustomDomain → CustomDomain → Type 0
  AtRow db c =
      Worked (Activated e db (job_of (claim_of c))) (Dismantled e (job_of (claim_of c))) c.id token

  on_claimed :
      (db : Store) (r u : CustomDomain)
      → claimable r ≡ true
      → AtRow db r (claim_of r) u
      → Progress e token db r u
  unfolding set_claimed
  on_claimed db r u due (inl q) = record {
    due = due;
    edge = rw q stays;
    kept = rw q (refl, refl, refl);
    live = λ h. inl (sym (ap (λ x. x.provisioning_status) q) ∙ h);
    gone = λ h. inl (sym (ap (λ x. x.provisioning_status) q) ∙ h);
  }
  on_claimed db r u due (inr m) = record {
    due = due;
    edge = m.edge;
    kept = m.kept;
    live = m.live;
    gone = m.gone;
  }

  on_row :
      (db : Store) (c : CustomDomain)
      → claimable c ≡ true
      → (r s u : CustomDomain) → Chosen c claim_of r s
      → AtRow db c s u
      → (u ≡ r) ⊎ Progress e token db r u
  on_row db c due r s u (inl (here, changed)) worked =
      let w = subst (λ x. AtRow db c x u) changed worked in
      let v = subst (λ c. (claimable c ≡ true) × AtRow db c (claim_of r) u) (sym here) (due, w) in
      inr (on_claimed db r u v.0 v.1)
  on_row db c due r s u (inr (other, same)) (inl q) = inl (q ∙ same)
  on_row db c due r s u (inr (other, same)) (inr m) =
      absurd (other (ap (λ x. x.id) (sym same) ∙ m.it))

  on_table :
      (db : Store) (o : Store × Claim)
      → Taking db claimable claim_of o
      → let p = process_claim e o in
        Rows (λ r s. (s ≡ r) ⊎ Progress e token o.0 r s) db.rows p.0.store.rows
  unfolding job_of set_claimed
  on_table db o (waits none_due) = Rows-refl _ db.rows (λ r. inl refl)
  on_table db o (takes c rows first changed) =
      Rows-trans _ _ _ db.rows rows _ (on_row _ c first.passes) changed
        (dispatch-Rows e _ (job_of (claim_of c)) token c.provisioning_status refl)

  if-Rows :
      (R : Store → CustomDomain → CustomDomain → Type 0) (db : Store) (b : Bool)
      (o q : Store × Claim)
      → (b ≡ true → Rows (R o.0) db.rows (process_claim e o).0.store.rows)
      → (b ≡ false → Rows (R q.0) db.rows (process_claim e q).0.store.rows)
      → let x = if b then o else q in Rows (R x.0) db.rows (process_claim e x).0.store.rows
  if-Rows R db true o q h k = h refl
  if-Rows R db false o q h k = k refl

-- The table after the claim of one call.
abbrev pub claimed_store : Env → ℕ → Store → Store
claimed_store e token db =
    (claim_next_provisioning_job db e.now e.db_now e.worker_id (pos (300 * 10 ^ 9)) token).0

pub tick-Rows :
    (e : Env) (token : ℕ) (db : Store)
    → HasKeys db.rows
    → Rows
        (λ r s. (s ≡ r) ⊎ Progress e token (claimed_store e token db) r s)
        db.rows
        (process_next_job e token db).0.store.rows
unfolding process_next_job claim_next_provisioning_job
tick-Rows e token db keys =
    if-Rows e token (λ d r s. (s ≡ r) ⊎ Progress e token d r s) db db.up _ _
      (λ up. on_table e token db _ (claim_row-Taking db e.db_now e.worker_id token _ _ keys refl))
      (λ down. Rows-refl _ db.rows (λ r. inl refl))
