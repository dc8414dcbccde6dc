-- ===== src/Table.antt =====
-- internal/storage: what the repositories use of SQL, on a table as the list of its rows.
pub mod Effects
pub mod Order
pub mod Keys
use elite_gate.Prelude.{
  ℕ, Bool, true, false, List, [], ◌∷◌, Option, none, some, if◌then◌else◌, ◌==◌,
}

-- IS NULL, column = value, COALESCE
abbrev pub is_null {ℓ} : {A : Type ℓ} → Option A → Bool
is_null none = true
is_null (some _) = false

abbrev pub holds : Option ℕ → ℕ → Bool
holds none n = false
holds (some m) n = m == n

abbrev pub coalesce {ℓ} : {A : Type ℓ} → Option A → Option A → Option A
coalesce none old = old
coalesce (some a) old = some a

module _ {A : Type 0} where
  -- UPDATE … SET … WHERE …
  unfoldable pub exec : (A → Bool) → (A → A) → List A → List A
  exec test change [] = []
  exec test change (r ∷ rs) = (if test r then change r else r) ∷ exec test change rs

  -- SELECT … WHERE …, the first row.
  unfoldable pub find : (A → Bool) → List A → Option A
  find test [] = none
  find test (r ∷ rs) = if test r then some r else find test rs
