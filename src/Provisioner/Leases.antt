-- ===== src/Provisioner/Leases.antt =====
-- provisioner.go, ProcessNextJob: the lease of a call.
use elite_gate.Prelude.{
  true_not_false, none_not_some, ℕ, ◌≡◌, refl, sym, ◌∙◌, ap, inl, inr, ◌≢◌, Bool, true, false, List,
  [], ◌∷◌, none, some, All, pos, ◌*◌, ◌^◌, if◌then◌else◌, ◌&&◌, ◌==◌, arith,
}
use mathlib.Core.Path.{subst}
use elite_gate.Text.{Text}
use elite_gate.Domain.{CustomDomain, ProvisioningJob, ProvisioningStatus}
use elite_gate.Domain.Laws.{same_status_iff}
use elite_gate.DomainRepo.{Store, RepoError, guarded}
use elite_gate.Table.{holds, is_null}
use elite_gate.Table.Effects.{Rows, exec-All}
use elite_gate.DomainRepo.Effects.{guarded-rows}
use elite_gate.DomainRepo.Lease.{
  leased, leased_or_deleted, release_provisioning_lease, advance_provisioning_state,
  schedule_provisioning_poll, schedule_provisioning_retry, mark_provisioning_failed,
  mark_provisioning_completed, mark_deprovisioned, mark_deprovision_failed,
}
use elite_gate.Table.Order.{lock_timeout_of}
use elite_gate.DomainRepo.Queue.{
  Claim, job_of, is_claimable, set_claimed, claim_next_provisioning_job,
}
use elite_gate.DomainRepo.Claims.{HasKeys, Chosen, Taking, waits, takes, claim_row-Taking}
use elite_gate.Provisioner.{Env, Outcome}
use elite_gate.Provisioner.Process.{dispatch, process_claim, process_next_job}
use elite_gate.Provisioner.Stages.{fail_at, retry_after, poll_after}
use elite_gate.Provisioner.Leaves.{
  Leaf, gives_up, retries, polls, advances, completes, removes, keeps,
}
use elite_gate.Provisioner.Processing.{dispatch-Leaf}

-- No row is held under a token.
abbrev pub IsFree : ℕ → CustomDomain → Type 0
IsFree token r = r.lease_token ≢ some token

-- A row that is held under a token is the job's, in the job's state, and not deleted.
abbrev pub HeldAt : ℕ → ℕ → ProvisioningStatus → CustomDomain → Type 0
HeldAt id token at r = r.lease_token ≡ some token → leased id token at r ≡ true

leased-leased_or_deleted :
    (id token : ℕ) (at : ProvisioningStatus) (r : CustomDomain)
    → leased id token at r ≡ true
    → leased_or_deleted id token at r ≡ true
leased-leased_or_deleted id token at r h = ground arith

leased-release :
    (id token : ℕ) (at : ProvisioningStatus) (r : CustomDomain)
    → leased id token at r ≡ true
    → (r.id == id && holds r.lease_token token && is_null r.deleted_at) ≡ true
leased-release id token at r h = ground arith

module _ (id token : ℕ) (at : ProvisioningStatus) (db : Store) (up : db.up ≡ true)
    (accepts_all : (rows : List CustomDomain) → db.accepts rows ≡ true)
    (held : All (HeldAt id token at) db.rows) where
  freed :
      (test : CustomDomain → Bool) (change : CustomDomain → CustomDomain) (missed : RepoError)
      → ((r : CustomDomain) → leased id token at r ≡ true → test r ≡ true)
      → ((r : CustomDomain) → (change r).lease_token ≡ none)
      → All (IsFree token) (guarded db test change missed).0.rows
  freed test change missed reads frees =
      subst (All (IsFree token)) (sym (guarded-rows db test change missed up accepts_all)) (
        exec-All (HeldAt id token at) (IsFree token) test change
          (λ r p t h. none_not_some (sym (frees r) ∙ h))
          (λ r p f h. true_not_false (sym (reads r (p h)) ∙ f)) db.rows held)

Leaf-IsFree :
    (e : Env) (db : Store) (job : ProvisioningJob) (token : ℕ) (at : ProvisioningStatus)
    → db.up ≡ true
    → ((rows : List CustomDomain) → db.accepts rows ≡ true)
    → All (HeldAt job.id token at) db.rows
    → {o : Outcome} → Leaf e db job token at o
    → All (IsFree token) o.store.rows
unfolding fail_at retry_after poll_after mark_provisioning_failed schedule_provisioning_retry
    schedule_provisioning_poll advance_provisioning_state mark_provisioning_completed
    mark_deprovisioned mark_deprovision_failed
Leaf-IsFree e db job token at up ok held (gives_up calls why edge) =
    freed job.id token at db up ok held _ _ _ (λ r h. h) (λ r. refl)
Leaf-IsFree e db job token at up ok held (retries calls why) =
    freed job.id token at db up ok held _ _ _ (λ r h. h) (λ r. refl)
Leaf-IsFree e db job token at up ok held (polls calls) =
    freed job.id token at db up ok held _ _ _ (λ r h. h) (λ r. refl)
Leaf-IsFree e db job token at up ok held (advances calls p i l s edge n d) =
    freed job.id token at db up ok held _ _ _ (λ r h. rw (i, l, s) h) (λ r. refl)
Leaf-IsFree e db job token at up ok held (completes v same) =
    freed job.id token at db up ok held _ _ _
      (λ r h. subst (λ s. leased job.id token s r ≡ true) same h) (λ r. refl)
Leaf-IsFree e db job token at up ok held (removes calls v same) =
    freed job.id token at db up ok held _ _ _
      (λ r h. leased-leased_or_deleted _ _ _ r (subst (λ s. leased job.id token s r ≡ true) same h))
      (λ r. refl)
Leaf-IsFree e db job token at up ok held (keeps calls why same) =
    freed job.id token at db up ok held _ _ _
      (λ r h. leased-leased_or_deleted _ _ _ r (subst (λ s. leased job.id token s r ≡ true) same h))
      (λ r. refl)

dispatch-IsFree :
    (e : Env) (db : Store) (job : ProvisioningJob) (token : ℕ) (at : ProvisioningStatus)
    → db.up ≡ true
    → ((rows : List CustomDomain) → db.accepts rows ≡ true)
    → job.lease_token ≡ some token
    → All (HeldAt job.id token at) db.rows
    → All (IsFree token) (dispatch e db job at).store.rows
unfolding release_provisioning_lease
dispatch-IsFree e db job token at up ok h held = elim (dispatch-Leaf e db job token at h) [
  | inl v ↦ Leaf-IsFree e db job token at up ok held v
  | inr v ↦
      subst (λ d. All (IsFree token) d.rows) (sym v)
        (freed job.id token at db up ok held _ _ _ (leased-release job.id token at) (λ r. refl))
]

claimed-leased :
    (now db_now timeout : ℕ) (worker : Text) (token : ℕ) (c : CustomDomain)
    → is_claimable now db_now timeout c ≡ true
    → leased c.id token c.provisioning_status (set_claimed db_now worker token c) ≡ true
unfolding set_claimed is_claimable
claimed-leased now db_now timeout worker token c due =
    ground (arith, same_status_iff c.provisioning_status c.provisioning_status)

-- After a claim the new token is on the claimed row only.
claimed-HeldAt :
    (now db_now timeout : ℕ) (worker : Text) (token : ℕ) (c : CustomDomain)
    (rs ss : List CustomDomain)
    → is_claimable now db_now timeout c ≡ true
    → All (IsFree token) rs
    → Rows (Chosen c (set_claimed db_now worker token)) rs ss
    → All (HeldAt c.id token c.provisioning_status) ss
claimed-HeldAt now db_now timeout worker token c [] [] due free v = tt
claimed-HeldAt now db_now timeout worker token c [] (s ∷ ss) due free v = absurd v
claimed-HeldAt now db_now timeout worker token c (r ∷ rs) [] due free v = absurd v
claimed-HeldAt now db_now timeout worker token c (r ∷ rs) (s ∷ ss) due (f, free)
      (inl (it, changed), v) =
    (
      λ _.
          subst (λ x. leased c.id token c.provisioning_status x ≡ true)
            (sym (changed ∙ ap (set_claimed db_now worker token) it))
            (claimed-leased now db_now timeout worker token c due),
      claimed-HeldAt now db_now timeout worker token c rs ss due free v,
    )
claimed-HeldAt now db_now timeout worker token c (r ∷ rs) (s ∷ ss) due (f, free)
      (inr (other, same), v) =
    (
      λ h. absurd (f (sym (ap (λ x. x.lease_token) same) ∙ h)),
      claimed-HeldAt now db_now timeout worker token c rs ss due free v,
    )

taken-IsFree :
    (e : Env) (token : ℕ) (db : Store) (o : Store × Claim)
    → db.up ≡ true
    → ((rows : List CustomDomain) → db.accepts rows ≡ true)
    → All (IsFree token) db.rows
    → Taking db
        (is_claimable e.now e.db_now (lock_timeout_of (pos (300 * 10 ^ 9))))
        (set_claimed e.db_now e.worker_id token)
        o
    → All (IsFree token) (process_claim e o).0.store.rows
unfolding job_of set_claimed
taken-IsFree e token db o up ok free (waits none_due) = free
taken-IsFree e token db o up ok free (takes c rows first changed) =
    dispatch-IsFree e (record db { rows = rows })
      (job_of (set_claimed e.db_now e.worker_id token c)) token c.provisioning_status up ok refl
      (claimed-HeldAt _ _ _ _ token c db.rows rows first.passes free changed)

if_true :
    (e : Env) (token : ℕ) (b : Bool) (o down : Store × Claim)
    → b ≡ true
    → All (IsFree token) (process_claim e o).0.store.rows
    → All (IsFree token) (process_claim e (if b then o else down)).0.store.rows
if_true e token true o down h v = v
if_true e token false o down h v = absurd (true_not_false (sym h))

-- While the database is up and refuses no update for a constraint, a call of ProcessNextJob leaves no
-- row under the token of its claim: whatever the handler did, the lease is given back. The rows have distinct keys, and no row held
-- the new token before.
pub process_next_job-IsFree :
    (e : Env) (token : ℕ) (db : Store)
    → db.up ≡ true
    → ((rows : List CustomDomain) → db.accepts rows ≡ true)
    → HasKeys db.rows
    → All (IsFree token) db.rows
    → All (IsFree token) (process_next_job e token db).0.store.rows
unfolding process_next_job claim_next_provisioning_job
process_next_job-IsFree e token db up ok keys free = if_true e token db.up _ _ up (
    taken-IsFree e token db _ up ok free
      (claim_row-Taking db e.db_now e.worker_id token _ _ keys refl))
