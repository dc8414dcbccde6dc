-- ===== src/Table/Keys.antt =====
-- internal/storage: tables with a unique key.
use elite_gate.Prelude.{
  true_not_false, ◌≡◌, refl, sym, ◌∙◌, ◌⊎◌, inl, inr, ◌≢◌, ◌↔◌, Bool, true, List, [], ◌∷◌, All, Any,
  here, there, Bool-cases,
}
use mathlib.Core.Path.{subst}
use elite_gate.Table.{exec}
use elite_gate.Table.Effects.{Rows}

module _ {A K : Type 0} (key : A → K) where
  -- The key is unique.
  abbrev pub HasKeys : List A → Type 0
  HasKeys [] = Unit
  HasKeys (r ∷ rs) = All (λ s. key s ≢ key r) rs × HasKeys rs

  -- The row with a row's ID is that row.
  abbrev pub IsOnly : A → List A → Type 0
  IsOnly c = All λ r. key r ≡ key c → r ≡ c

  IsOnly-of_ne : (c : A) (rs : List A) → All (λ s. key s ≢ key c) rs → IsOnly c rs
  IsOnly-of_ne c [] h = tt
  IsOnly-of_ne c (r ∷ rs) (p, h) = (λ e. absurd (p e), IsOnly-of_ne c rs h)

  All-Any : (P : A → Type 0) (c : A) (rs : List A) → All P rs → Any (λ y. y ≡ c) rs → P c
  All-Any P c (r ∷ rs) (p, h) (here e) = subst P e p
  All-Any P c (r ∷ rs) (p, h) (there m) = All-Any P c rs h m
  All-Any P c [] h m = elim m [ ]

  pub HasKeys-IsOnly : (c : A) (rs : List A) → HasKeys rs → Any (λ y. y ≡ c) rs → IsOnly c rs
  HasKeys-IsOnly c [] k m = tt
  HasKeys-IsOnly c (r ∷ rs) (p, k) (here e) =
      (λ _. e, IsOnly-of_ne c rs (subst (λ z. All (λ s. key s ≢ key z) rs) e p))
  HasKeys-IsOnly c (r ∷ rs) (p, k) (there m) =
      (λ e. absurd (All-Any (λ s. key s ≢ key r) c rs p m (sym e)), HasKeys-IsOnly c rs k m)

  All-other_key :
      (k : K) (rs ss : List A)
      → Rows (λ r s. key s ≡ key r) rs ss
      → All (λ r. key r ≢ k) rs
      → All (λ s. key s ≢ k) ss
  All-other_key k [] [] v h = tt
  All-other_key k (r ∷ rs) (s ∷ ss) (p, v) (n, h) = (λ e. n (sym p ∙ e), All-other_key k rs ss v h)
  All-other_key k [] (s ∷ ss) v h = absurd v
  All-other_key k (r ∷ rs) [] v h = absurd v

  -- Keys stay unique where each row keeps its key.
  pub Rows-HasKeys : (rs ss : List A) → Rows (λ r s. key s ≡ key r) rs ss → HasKeys rs → HasKeys ss
  Rows-HasKeys [] [] v h = tt
  Rows-HasKeys (r ∷ rs) (s ∷ ss) (p, v) (n, h) = (
    subst (λ k. All (λ x. key x ≢ k) ss) (sym p) (All-other_key (key r) rs ss v n),
    Rows-HasKeys rs ss v h,
  )
  Rows-HasKeys [] (s ∷ ss) v h = absurd v
  Rows-HasKeys (r ∷ rs) [] v h = absurd v

  -- A table in which one row changed.
  abbrev pub Chosen : A → (A → A) → A → A → Type 0
  Chosen c change r s = ((r ≡ c) × (s ≡ change r)) ⊎ ((key r ≢ key c) × (s ≡ r))

  module _ (eq : K → K → Bool) (eq_iff : (a b : K) → (eq a b ≡ true) ↔ (a ≡ b)) where
    pub Chosen-Rows :
        (c : A) (change : A → A) (rs : List A)
        → IsOnly c rs
        → Rows (Chosen c change) rs (exec (λ s. eq (key s) (key c)) change rs)
    unfolding exec
    Chosen-Rows c change [] h = tt
    Chosen-Rows c change (r ∷ rs) (p, h) = elim (Bool-cases (eq (key r) (key c))) [
      | inl e ↦ rw e (inl (p ((eq_iff (key r) (key c)).0 e), refl), Chosen-Rows c change rs h)
      | inr e ↦ rw e (
        inr (λ same. absurd (true_not_false (sym ((eq_iff (key r) (key c)).1 same) ∙ e)), refl),
        Chosen-Rows c change rs h,
      )
    ]
