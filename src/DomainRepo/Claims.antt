-- ===== src/DomainRepo/Claims.antt =====
-- custom_domain_repo.go, ClaimNextProvisioningJob: which row a claim takes, and what it leaves.
use elite_gate.Prelude.{
  ℕ, ◌≡◌, sym, Bool, true, false, List, Option, none, some, ==_iff, ◌==◌, All, if◌then◌else◌,
}
use mathlib.Core.Path.{subst}
use elite_gate.Text.{Text}
use elite_gate.Domain.{CustomDomain}
use elite_gate.DomainRepo.{Store}
use elite_gate.Table.Effects.{Rows}
use elite_gate.Table.Order.{IsFirst, first_of-IsFirst, first_of-none}
use elite_gate.Table.Keys
use elite_gate.DomainRepo.First.{sorts_before-IsOrder}
use elite_gate.DomainRepo.Queue.{
  Claim, claimed, no_job, job_of, set_claimed, first_job, sorts_before, claim_row,
}

-- id is the primary key.
abbrev pub HasKeys : List CustomDomain → Type 0
HasKeys = Keys.HasKeys (λ r. r.id)

-- A table in which one row changed.
abbrev pub Chosen :
    CustomDomain → (CustomDomain → CustomDomain) → CustomDomain → CustomDomain → Type 0
Chosen = Keys.Chosen (λ r. r.id)

-- What a claim does: nothing where no row passes, else it changes the first row of those that pass
-- and answers its job.
pub data Taking (db : Store) (test : CustomDomain → Bool) (change : CustomDomain → CustomDomain)
    : Store × Claim → Type 0 where
  waits : All (λ r. test r ≡ false) db.rows → Taking db test change (db, no_job)
  takes :
      (c : CustomDomain) (rows : List CustomDomain)
      → IsFirst sorts_before test db.rows c
      → Rows (Chosen c change) db.rows rows
      → Taking db test change (record db { rows = rows }, claimed (job_of (change c)))

pub claim_row-Taking :
    (db : Store) (db_now : ℕ) (worker : Text) (token : ℕ) (test : CustomDomain → Bool)
    (found : Option CustomDomain)
    → HasKeys db.rows
    → first_job test db.rows ≡ found
    → Taking db test (set_claimed db_now worker token) (claim_row db db_now worker token found)
unfolding first_job
claim_row-Taking db db_now worker token test none keys h =
    waits (first_of-none sorts_before sorts_before-IsOrder test db.rows h)
claim_row-Taking db db_now worker token test (some c) keys h =
    let v = first_of-IsFirst sorts_before sorts_before-IsOrder test db.rows c h in
    takes c _ v (
      Keys.Chosen-Rows (λ r. r.id) ◌==◌ ==_iff c _ db.rows
        (Keys.HasKeys-IsOnly (λ r. r.id) c db.rows keys v.member))

pub taken_if :
    {db : Store} {test : CustomDomain → Bool} {change : CustomDomain → CustomDomain} {b : Bool}
    {o : Store × Claim} (down : Store × Claim)
    → b ≡ true
    → Taking db test change o
    → Taking db test change (if b then o else down)
taken_if {db} {test} {change} {b} {o} down h v =
    subst (λ b. Taking db test change (if b then o else down)) (sym h) v
