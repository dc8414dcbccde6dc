-- ===== src/Gateways/Effects.antt =====
-- internal/storage: what one statement of GatewayRepo does to each row.
use elite_gate.Prelude.{◌≡◌, ◌⊎◌, false, refl, sym, Bool, true, Bool-cases, inl, inr, any}
use elite_gate.Table.{exec}
use elite_gate.Table.Effects.{Rows, Rows-refl, exec-Rows, exec_none}
use elite_gate.Gateways.{Gateway, GatewayTable, GatewayRepoError, saves}

module _ (R : Gateway → Gateway → Type 0) (test : Gateway → Bool) (change : Gateway → Gateway)
    (stays : (r : Gateway) → R r r) (moves : (r : Gateway) → test r ≡ true → R r (change r)) where
  -- A statement leaves each row, or changes it where the test holds.
  pub saves-Rows :
      (db : GatewayTable) (missed : GatewayRepoError)
      → Rows R db.rows (saves db test change missed).0.rows
  unfolding saves
  saves-Rows db missed = elim (Bool-cases db.up) [
    | inr down ↦ rw down (Rows-refl R db.rows stays)
    | inl up ↦ rw up (elim (Bool-cases (any test db.rows)) [
      | inl some_row ↦ rw some_row (elim (Bool-cases (db.accepts (exec test change db.rows))) [
        | inl taken ↦ rw taken (exec-Rows R test change stays moves db.rows)
        | inr not_taken ↦ rw not_taken (Rows-refl R db.rows stays)
      ])
      | inr no_row ↦ rw no_row (Rows-refl R db.rows stays)
    ])
  ]

-- While the database is up, the rows after a statement are those of its update, also where no row
-- passed the test; or the update was refused, and they are as they were.
pub saves-rows :
    (db : GatewayTable) (test : Gateway → Bool) (change : Gateway → Gateway)
    (missed : GatewayRepoError)
    → db.up ≡ true
    → ((saves db test change missed).0.rows ≡ exec test change db.rows)
      ⊎ (((saves db test change missed).0.rows ≡ db.rows)
          × (db.accepts (exec test change db.rows) ≡ false))
unfolding saves
saves-rows db test change missed up = elim (Bool-cases (any test db.rows)) [
  | inr e ↦ rw (up, e) (inl (sym (exec_none test change db.rows e)))
  | inl e ↦ elim (Bool-cases (db.accepts (exec test change db.rows))) [
    | inl taken ↦ rw (up, e, taken) (inl refl)
    | inr not_taken ↦ rw (up, e, not_taken) (inr (refl, refl))
  ]
]
