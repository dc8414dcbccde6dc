-- ===== src/DomainRepo/Effects.antt =====
-- What one guarded statement does to each row.
use elite_gate.Prelude.{List, ◌≡◌, refl, sym, Bool, true, Bool-cases, inl, inr, any}
use elite_gate.Domain.{CustomDomain}
use elite_gate.Table.{exec}
use elite_gate.Table.Effects.{Rows, Rows-refl, exec-Rows, exec_none}
use elite_gate.DomainRepo.{Store, RepoError, guarded}

module _ (R : CustomDomain → CustomDomain → Type 0) (test : CustomDomain → Bool)
    (change : CustomDomain → CustomDomain) (stays : (r : CustomDomain) → R r r)
    (moves : (r : CustomDomain) → test r ≡ true → R r (change r)) where
  -- A statement leaves each row, or changes it where the test holds.
  pub guarded-Rows :
      (db : Store) (missed : RepoError) → Rows R db.rows (guarded db test change missed).0.rows
  unfolding guarded
  guarded-Rows db missed = elim (Bool-cases db.up) [
    | inr down ↦ rw down (Rows-refl R db.rows stays)
    | inl up ↦ rw up (elim (Bool-cases (any test db.rows)) [
      | inl some_row ↦ rw some_row (elim (Bool-cases (db.accepts (exec test change db.rows))) [
        | inl taken ↦ rw taken (exec-Rows R test change stays moves db.rows)
        | inr not_taken ↦ rw not_taken (Rows-refl R db.rows stays)
      ])
      | inr no_row ↦ rw no_row (Rows-refl R db.rows stays)
    ])
  ]

-- While the database is up and accepts every table, the rows after a statement are those of its update, also where no row
-- passed the test.
pub guarded-rows :
    (db : Store) (test : CustomDomain → Bool) (change : CustomDomain → CustomDomain)
    (missed : RepoError)
    → db.up ≡ true
    → ((rows : List CustomDomain) → db.accepts rows ≡ true)
    → (guarded db test change missed).0.rows ≡ exec test change db.rows
unfolding guarded
guarded-rows db test change missed up takes = elim (Bool-cases (any test db.rows)) [
  | inl e ↦ rw (up, e, takes (exec test change db.rows)) refl
  | inr e ↦ rw (up, e) (sym (exec_none test change db.rows e))
]
