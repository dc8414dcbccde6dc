-- ===== src/Table/Effects.antt =====
-- What one UPDATE does to each row of a table.
use elite_gate.Prelude.{
  ◌≡◌, refl, ◌⊎◌, Bool, true, false, List, [], ◌∷◌, arith, Bool-cases, inl, inr, any, All, Any,
  here, there, none, some, some_injective, none_not_some, some_not_none, if◌then◌else◌,
}
use mathlib.Core.Path.{subst}
use elite_gate.Table.{exec, find}

module _ {A : Type 0} where
  -- The rows of two tables, one by one.
  abbrev pub Rows : (A → A → Type 0) → List A → List A → Type 0
  Rows R [] [] = Unit
  Rows R (r ∷ rs) (s ∷ ss) = R r s × Rows R rs ss
  Rows R [] (s ∷ ss) = ⊥
  Rows R (r ∷ rs) [] = ⊥

  pub Rows-refl : (R : A → A → Type 0) (rs : List A) → ((r : A) → R r r) → Rows R rs rs
  Rows-refl R [] h = tt
  Rows-refl R (r ∷ rs) h = (h r, Rows-refl R rs h)

  pub Rows-map :
      (R S : A → A → Type 0) (rs ss : List A)
      → ((r s : A) → R r s → S r s)
      → Rows R rs ss
      → Rows S rs ss
  Rows-map R S [] [] h v = tt
  Rows-map R S (r ∷ rs) (s ∷ ss) h (p, v) = (h r s p, Rows-map R S rs ss h v)
  Rows-map R S [] (s ∷ ss) h v = v
  Rows-map R S (r ∷ rs) [] h v = v

  pub Rows-trans :
      (R S T : A → A → Type 0) (rs ss us : List A)
      → ((r s u : A) → R r s → S s u → T r u)
      → Rows R rs ss
      → Rows S ss us
      → Rows T rs us
  Rows-trans R S T [] [] [] h v w = tt
  Rows-trans R S T (r ∷ rs) (s ∷ ss) (u ∷ us) h (p, v) (q, w) =
      (h r s u p q, Rows-trans R S T rs ss us h v w)
  Rows-trans R S T [] (s ∷ ss) us h v w = absurd v
  Rows-trans R S T (r ∷ rs) [] us h v w = absurd v
  Rows-trans R S T [] [] (u ∷ us) h v w = w
  Rows-trans R S T (r ∷ rs) (s ∷ ss) [] h v w = absurd w

  -- A predicate that each row keeps.
  pub Rows-All :
      (R : A → A → Type 0) (P : A → Type 0) (rs ss : List A)
      → ((r s : A) → R r s → P r → P s)
      → Rows R rs ss
      → All P rs
      → All P ss
  Rows-All R P [] [] h v w = tt
  Rows-All R P (r ∷ rs) (s ∷ ss) h (p, v) (q, w) = (h r s p q, Rows-All R P rs ss h v w)
  Rows-All R P [] (s ∷ ss) h v w = absurd v
  Rows-All R P (r ∷ rs) [] h v w = absurd v

  pub Rows-with :
      (P : A → Type 0) (R : A → A → Type 0) (rs ss : List A)
      → All P rs
      → Rows R rs ss
      → Rows (λ r s. P r × R r s) rs ss
  Rows-with P R [] [] w v = tt
  Rows-with P R (r ∷ rs) (s ∷ ss) (q, w) (p, v) = ((q, p), Rows-with P R rs ss w v)
  Rows-with P R [] (s ∷ ss) w v = absurd v
  Rows-with P R (r ∷ rs) [] w v = absurd v

  module _ (R : A → A → Type 0) (test : A → Bool) (change : A → A) (stays : (r : A) → R r r)
      (moves : (r : A) → test r ≡ true → R r (change r)) where
    pub exec-Rows : (rs : List A) → Rows R rs (exec test change rs)
    unfolding exec
    exec-Rows [] = tt
    exec-Rows (r ∷ rs) = elim (Bool-cases (test r)) [
      | inl hit ↦ rw hit (moves r hit, exec-Rows rs)
      | inr miss ↦ rw miss (stays r, exec-Rows rs)
    ]

  -- A predicate after a statement that runs.
  pub exec-All :
      (P Q : A → Type 0) (test : A → Bool) (change : A → A)
      → ((r : A) → P r → test r ≡ true → Q (change r))
      → ((r : A) → P r → test r ≡ false → Q r)
      → (rs : List A) → All P rs
      → All Q (exec test change rs)
  unfolding exec
  exec-All P Q test change hit miss [] v = tt
  exec-All P Q test change hit miss (r ∷ rs) (p, v) = elim (Bool-cases (test r)) [
    | inl e ↦ rw e (hit r p e, exec-All P Q test change hit miss rs v)
    | inr e ↦ rw e (miss r p e, exec-All P Q test change hit miss rs v)
  ]

  pub exec_none :
      (test : A → Bool) (change : A → A) (rs : List A)
      → any test rs ≡ false
      → exec test change rs ≡ rs
  unfolding exec
  exec_none test change [] h = refl
  exec_none test change (r ∷ rs) h = ground (arith, exec_none test change rs)

  -- What an UPDATE does to one row.
  abbrev pub Executed : (A → Bool) → (A → A) → A → A → Type 0
  Executed test change r s = ((test r ≡ true) × (s ≡ change r)) ⊎ ((test r ≡ false) × (s ≡ r))

  if-Executed :
      (test : A → Bool) (change : A → A) (r : A) (b : Bool)
      → test r ≡ b
      → Executed test change r (if b then change r else r)
  if-Executed test change r true e = inl (e, refl)
  if-Executed test change r false e = inr (e, refl)

  pub exec-Executed :
      (test : A → Bool) (change : A → A) (rs : List A)
      → Rows (Executed test change) rs (exec test change rs)
  unfolding exec
  exec-Executed test change [] = tt
  exec-Executed test change (r ∷ rs) =
      (if-Executed test change r (test r) refl, exec-Executed test change rs)

  pub find-some :
      (test : A → Bool) (rs : List A) (r : A)
      → find test rs ≡ some r
      → (test r ≡ true) × Any (λ y. y ≡ r) rs
  unfolding find
  find-some test [] r h = absurd (none_not_some h)
  find-some test (x ∷ xs) r h = elim (Bool-cases (test x)) [
    | inl e ↦
        let same =
          some_injective (subst (λ b. (if b then some x else find test xs) ≡ some r) e h) in
        (subst (λ y. test y ≡ true) same e, here same)
    | inr e ↦
        let v =
          find-some test xs r (subst (λ b. (if b then some x else find test xs) ≡ some r) e h) in
        (v.0, there v.1)
  ]

  pub find-none :
      (test : A → Bool) (rs : List A) → find test rs ≡ none → All (λ r. test r ≡ false) rs
  unfolding find
  find-none test [] h = tt
  find-none test (x ∷ xs) h = elim (Bool-cases (test x)) [
    | inl e ↦ absurd (some_not_none (subst (λ b. (if b then some x else find test xs) ≡ none) e h))
    | inr e ↦ (e, find-none test xs (subst (λ b. (if b then some x else find test xs) ≡ none) e h))
  ]
