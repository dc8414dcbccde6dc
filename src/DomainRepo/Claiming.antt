-- ===== src/DomainRepo/Claiming.antt =====
-- custom_domain_repo.go, ClaimNextProvisioningJob: which rows may be taken, in which order, and what
-- a claim does to the one that it takes.
use elite_gate.Prelude.{
  All-map, ℕ, ◌+◌, ◌≤◌, ◌<◌, ◌≡◌, ◌≢◌, ◌⊎◌, inl, inr, ◌∙◌, ap, arith, Any, true_not_false, refl,
  sym, true, List, Option, none, some, All, ℤ,
}
use elite_gate.Text.{Text}
use elite_gate.Domain.{
  CustomDomain, ProvisioningJob, ProvisioningStatus, requesting_certificate,
  waiting_for_validation_record, waiting_for_dns, waiting_for_certificate, attaching_certificate,
  deprovisioning,
}
use elite_gate.Table.{is_null}
use elite_gate.DomainRepo.{Store}
use elite_gate.Table.Effects.{Rows, Rows-map}
use elite_gate.Table.Order.{lock_timeout_of, is_due, is_free, earlier_retry}
use elite_gate.DomainRepo.Queue.{
  Claim, claimed, no_job, job_of, set_claimed, is_queued, is_claimable, first_job, sorts_before,
  claim_next_provisioning_job,
}
use elite_gate.DomainRepo.Claims.{HasKeys, Taking, waits, takes, claim_row-Taking, taken_if}

-- The statuses that a claim takes up.
pub data Queued : ProvisioningStatus → Type 0 where
  requests : Queued requesting_certificate
  awaits_record : Queued waiting_for_validation_record
  awaits_dns : Queued waiting_for_dns
  awaits_certificate : Queued waiting_for_certificate
  attaches : Queued attaching_certificate
  goes : Queued deprovisioning

-- A row that a worker may take: not deleted, in a status of the queue, due at the clock of the
-- database, and not locked since the expiry of old locks.
pub record MayBeTaken (now db_now timeout : ℕ) (r : CustomDomain) : Type 0 where
  pub live : r.deleted_at ≡ none
  pub queued : Queued r.provisioning_status
  pub due : (r.next_retry_at ≡ none) ⊎ ((t : ℕ) × (r.next_retry_at ≡ some t) × (t ≤ db_now))
  pub free : (r.locked_at ≡ none) ⊎ ((t : ℕ) × (r.locked_at ≡ some t) × (t + timeout ≤ now))

-- The rows that come before another: without a retry time before those with one, then the earlier
-- retry, then the earlier creation.
pub data Precedes (r s : CustomDomain) : Type 0 where
  untimed : (t : ℕ) → r.next_retry_at ≡ none → s.next_retry_at ≡ some t → Precedes r s
  sooner : (t v : ℕ) → r.next_retry_at ≡ some t → s.next_retry_at ≡ some v → t < v → Precedes r s
  older : r.next_retry_at ≡ s.next_retry_at → r.created_at < s.created_at → Precedes r s

-- The row of a claim, before and after, and the job that is answered for it.
pub record Locks (db_now : ℕ) (worker : Text) (token : ℕ) (c d : CustomDomain)
    (job : ProvisioningJob) : Type 0 where
  pub token_set : d.lease_token ≡ some token
  pub worker_set : d.locked_by ≡ some worker
  pub time_set : d.locked_at ≡ some db_now
  pub rest_kept : d ≡ record c {
    locked_at = d.locked_at;
    locked_by = d.locked_by;
    lease_token = d.lease_token;
    updated_at = d.updated_at;
  }
  pub answered_id : job.id ≡ c.id
  pub answered_state : job.provisioning_status ≡ c.provisioning_status
  pub answered_token : job.lease_token ≡ some token

-- What a claim does to the table and answers.
pub data Claiming (db : Store) (now db_now timeout : ℕ) (worker : Text) (token : ℕ)
    : Store × Claim → Type 0 where
  finds_none :
      All (λ r. ¬ MayBeTaken now db_now timeout r) db.rows
      → Claiming db now db_now timeout worker token (db, no_job)
  locks_first :
      (c d : CustomDomain) (job : ProvisioningJob) (rows : List CustomDomain)
      → MayBeTaken now db_now timeout c
      → Any (λ r. r ≡ c) db.rows
      → All (λ r. MayBeTaken now db_now timeout r → ¬ Precedes r c) db.rows
      → Locks db_now worker token c d job
      → Rows (λ r s. ((r ≡ c) × (s ≡ d)) ⊎ ((r.id ≢ c.id) × (s ≡ r))) db.rows rows
      → Claiming db now db_now timeout worker token (record db { rows = rows }, claimed job)

is_queued-Queued : (p : ProvisioningStatus) → is_queued p ≡ true → Queued p
is_queued-Queued requesting_certificate h = requests
is_queued-Queued waiting_for_validation_record h = awaits_record
is_queued-Queued waiting_for_dns h = awaits_dns
is_queued-Queued waiting_for_certificate h = awaits_certificate
is_queued-Queued attaching_certificate h = attaches
is_queued-Queued deprovisioning h = goes
is_queued-Queued _ h = absurd (true_not_false (sym h))

Queued-is_queued : (p : ProvisioningStatus) → Queued p → is_queued p ≡ true
Queued-is_queued p requests = refl
Queued-is_queued p awaits_record = refl
Queued-is_queued p awaits_dns = refl
Queued-is_queued p awaits_certificate = refl
Queued-is_queued p attaches = refl
Queued-is_queued p goes = refl

null-none : (o : Option ℕ) → is_null o ≡ true → o ≡ none
null-none none h = refl
null-none (some t) h = absurd (true_not_false (sym h))

due-time :
    (now : ℕ) (o : Option ℕ)
    → is_due now o ≡ true
    → (o ≡ none) ⊎ ((t : ℕ) × (o ≡ some t) × (t ≤ now))
due-time now none h = inl refl
due-time now (some t) h = inr (t, refl, ground arith)

time-due :
    (now : ℕ) (o : Option ℕ)
    → (o ≡ none) ⊎ ((t : ℕ) × (o ≡ some t) × (t ≤ now))
    → is_due now o ≡ true
time-due now o (inl h) = rw h refl
time-due now o (inr (t, h, l)) = rw h (ground arith)

free-time :
    (now timeout : ℕ) (o : Option ℕ)
    → is_free now timeout o ≡ true
    → (o ≡ none) ⊎ ((t : ℕ) × (o ≡ some t) × (t + timeout ≤ now))
free-time now timeout none h = inl refl
free-time now timeout (some t) h = inr (t, refl, ground arith)

time-free :
    (now timeout : ℕ) (o : Option ℕ)
    → (o ≡ none) ⊎ ((t : ℕ) × (o ≡ some t) × (t + timeout ≤ now))
    → is_free now timeout o ≡ true
time-free now timeout o (inl h) = rw h refl
time-free now timeout o (inr (t, h, l)) = rw h (ground arith)

module _ (now db_now timeout : ℕ) (r : CustomDomain) where
  is_claimable-MayBeTaken :
      is_claimable now db_now timeout r ≡ true → MayBeTaken now db_now timeout r
  unfolding is_claimable
  is_claimable-MayBeTaken h = record {
    live = null-none r.deleted_at (ground arith);
    queued = is_queued-Queued r.provisioning_status (ground arith);
    due = due-time db_now r.next_retry_at (ground arith);
    free = free-time now timeout r.locked_at (ground arith);
  }

  MayBeTaken-is_claimable :
      MayBeTaken now db_now timeout r → is_claimable now db_now timeout r ≡ true
  unfolding is_claimable
  MayBeTaken-is_claimable v =
      rw
        (
          v.live,
          Queued-is_queued r.provisioning_status v.queued,
          time-due db_now r.next_retry_at v.due,
        )
        (time-free now timeout r.locked_at v.free)

same_retry : (o : Option ℕ) (c d : ℕ) → c < d → earlier_retry o o c d ≡ true
same_retry none c d l = ground arith
same_retry (some t) c d l = ground arith

Precedes-sorts_before : (r s : CustomDomain) → Precedes r s → sorts_before r s ≡ true
unfolding sorts_before
Precedes-sorts_before r s (untimed t h k) = rw (h, k) refl
Precedes-sorts_before r s (sooner t v h k l) = rw (h, k) (ground arith)
Precedes-sorts_before r s (older h l) =
    rw h (same_retry s.next_retry_at r.created_at s.created_at l)

module _ (db : Store) (now db_now timeout : ℕ) (worker : Text) (token : ℕ) where
  set_claimed-Locks :
      (c : CustomDomain)
      → Locks db_now worker token c
          (set_claimed db_now worker token c)
          (job_of (set_claimed db_now worker token c))
  unfolding set_claimed job_of
  set_claimed-Locks c = record {
    token_set = refl;
    worker_set = refl;
    time_set = refl;
    rest_kept = refl;
    answered_id = refl;
    answered_state = refl;
    answered_token = refl;
  }

  Taking-Claiming :
      (o : Store × Claim)
      → Taking db (is_claimable now db_now timeout) (set_claimed db_now worker token) o
      → Claiming db now db_now timeout worker token o
  Taking-Claiming o (waits none_due) = finds_none (
      All-map db.rows
        (λ r h v. true_not_false (sym (MayBeTaken-is_claimable now db_now timeout r v) ∙ h))
        none_due)
  Taking-Claiming o (takes c rows first changed) =
      locks_first c (set_claimed db_now worker token c) _ rows
        (is_claimable-MayBeTaken now db_now timeout c first.passes) first.member
        (All-map db.rows
          (λ r h v p. true_not_false (
            sym (Precedes-sorts_before r c p) ∙ h (MayBeTaken-is_claimable now db_now timeout r v)))
          first.least)
        (set_claimed-Locks c)
        (Rows-map _ _ db.rows rows
          (λ r s v. elim v [
            | inl hit ↦ inl (hit.0, hit.1 ∙ ap (set_claimed db_now worker token) hit.0)
            | inr miss ↦ inr miss
          ])
          changed)

-- While the database is up, a claim either finds that no row may be taken and changes nothing, or it
-- locks exactly one row at the clock of the database, for the worker and under the new token,
-- changing nothing else of it but updated_at, and answers that row's job; no row that may be taken
-- precedes it by next retry, those without one first, and creation. A row may be taken that is not
-- deleted, in one of the six statuses of the queue, due, and not locked or locked longer ago than
-- the timeout. The rows have distinct keys.
pub claim_next_provisioning_job_lem :
    (db : Store) (now db_now : ℕ) (worker : Text) (timeout : ℤ) (token : ℕ)
    → db.up ≡ true
    → HasKeys db.rows
    → Claiming db now db_now
        (lock_timeout_of timeout)
        worker
        token
        (claim_next_provisioning_job db now db_now worker timeout token)
unfolding claim_next_provisioning_job first_job
claim_next_provisioning_job_lem db now db_now worker timeout token up keys =
    Taking-Claiming db now db_now (lock_timeout_of timeout) worker token _
      (taken_if _ up (claim_row-Taking db db_now worker token _ _ keys refl))
