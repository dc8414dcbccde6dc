-- ===== src/Gateways/Claims.antt =====
-- gateway_ingress_queue.go, ClaimNextGatewayIngressJob: which row a claim takes, and what it leaves.
use elite_gate.Prelude.{
  ℕ, ◌≡◌, refl, sym, Bool, true, false, List, Option, none, some, All, if◌then◌else◌, ℤ, arith,
}
use mathlib.Core.Path.{subst}
use elite_gate.Text.{Text, text_eq}
use elite_gate.Text.Laws.{text_eq_iff}
use elite_gate.Table.Effects.{Rows}
use elite_gate.Table.Order.{
  IsFirst, IsOrder, first_of, lock_timeout_of, first_of-IsFirst, first_of-none,
}
use elite_gate.Table.Keys
use elite_gate.Gateways.{Gateway, GatewayTable}
use elite_gate.Gateways.Queue.{
  GatewayClaim, no_gateway_job, gateway_claimed, gateway_job_of, set_locked, is_ingress_claimable,
  queued_before, lock_row, claim_next_gateway_ingress_job,
}

-- external_id is unique.
abbrev pub HasIds : List Gateway → Type 0
HasIds = Keys.HasKeys (λ r. r.external_id)

-- A table in which one row changed.
abbrev pub ChosenId : Gateway → (Gateway → Gateway) → Gateway → Gateway → Type 0
ChosenId = Keys.Chosen (λ r. r.external_id)

queued_before-IsOrder : IsOrder queued_before
unfolding queued_before
queued_before-IsOrder = record {
  trans = λ a b c h k. ground arith;
  irrefl = λ a. ground arith;
  asym = λ a b h. ground arith;
}

-- What a claim does: nothing where no row passes, else it locks the first row of those that pass
-- and answers its job.
pub data Locking (db : GatewayTable) (test : Gateway → Bool) (change : Gateway → Gateway)
    (token : ℕ) : GatewayTable × GatewayClaim → Type 0 where
  idles : All (λ r. test r ≡ false) db.rows → Locking db test change token (db, no_gateway_job)
  locks :
      (c : Gateway) (rows : List Gateway)
      → IsFirst queued_before test db.rows c
      → Rows (ChosenId c change) db.rows rows
      → Locking db test change token
          (record db { rows = rows }, gateway_claimed (gateway_job_of token c))

lock_row-Locking :
    (db : GatewayTable) (db_now : ℕ) (worker : Text) (token : ℕ) (test : Gateway → Bool)
    (found : Option Gateway)
    → HasIds db.rows
    → first_of queued_before test db.rows ≡ found
    → Locking db test (set_locked db_now worker token) token (lock_row db db_now worker token found)
lock_row-Locking db db_now worker token test none keys h =
    idles (first_of-none queued_before queued_before-IsOrder test db.rows h)
lock_row-Locking db db_now worker token test (some c) keys h =
    let v = first_of-IsFirst queued_before queued_before-IsOrder test db.rows c h in
    locks c _ v (
      Keys.Chosen-Rows (λ r. r.external_id) text_eq text_eq_iff c _ db.rows
        (Keys.HasKeys-IsOnly (λ r. r.external_id) c db.rows keys v.member))

if-Locking :
    {db : GatewayTable} {test : Gateway → Bool} {change : Gateway → Gateway} {token : ℕ} {b : Bool}
    {o : GatewayTable × GatewayClaim} (down : GatewayTable × GatewayClaim)
    → b ≡ true
    → Locking db test change token o
    → Locking db test change token (if b then o else down)
if-Locking {db} {test} {change} {token} {b} {o} down h v =
    subst (λ b. Locking db test change token (if b then o else down)) (sym h) v

pub claim_next_gateway_ingress_job_lem :
    (db : GatewayTable) (now db_now : ℕ) (worker : Text) (timeout : ℤ) (token : ℕ)
    → db.up ≡ true
    → HasIds db.rows
    → Locking db
        (is_ingress_claimable now db_now (lock_timeout_of timeout))
        (set_locked db_now worker token)
        token
        (claim_next_gateway_ingress_job db now db_now worker timeout token)
unfolding claim_next_gateway_ingress_job
claim_next_gateway_ingress_job_lem db now db_now worker timeout token up keys =
    if-Locking _ up (lock_row-Locking db db_now worker token _ _ keys refl)
