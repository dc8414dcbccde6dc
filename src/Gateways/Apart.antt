-- ===== src/Gateways/Apart.antt =====
-- internal/storage: the priorities of live rows, and what keeps them apart.
use elite_gate.Prelude.{
  ℕ, ◌≡◌, refl, sym, ◌∙◌, inl, inr, true, false, List, [], ◌∷◌, All, any, arith, Bool-cases,
  true_not_false, ◌≢◌,
}
use mathlib.Core.Path.{subst}
use elite_gate.Text.{Text}
use elite_gate.Text.Laws.{text_eq_iff}
use elite_gate.Table.{exec}
use elite_gate.Table.Effects.{Rows}
use elite_gate.Gateways.{Gateway, is_held}
use elite_gate.Gateways.Priority.{uses_priority, set_priority}
use elite_gate.Gateways.Claims.{HasIds}

-- No priority is used by both rows.
abbrev pub Differ : Gateway → Gateway → Type 0
Differ r s = (n : ℕ) → uses_priority n r ≡ true → uses_priority n s ≡ false

-- No priority is used by two live rows: the unique index on listener_rule_priority.
abbrev pub IsApart : List Gateway → Type 0
IsApart [] = Unit
IsApart (r ∷ rs) = All (Differ r) rs × IsApart rs

-- A row that uses no priority that it did not use before.
abbrev pub Sheds : Gateway → Gateway → Type 0
Sheds r s = (n : ℕ) → uses_priority n s ≡ true → uses_priority n r ≡ true

Differ-Sheds : (r s t u : Gateway) → Sheds r s → Sheds t u → Differ r t → Differ s u
Differ-Sheds r s t u a b h n used = elim (Bool-cases (uses_priority n u)) [
  | inl e ↦ absurd (true_not_false (sym (b n e) ∙ h n (a n used)))
  | inr e ↦ e
]

All-Sheds :
    (r s : Gateway) (rs ss : List Gateway)
    → Sheds r s
    → Rows Sheds rs ss
    → All (Differ r) rs
    → All (Differ s) ss
All-Sheds r s [] [] a v h = tt
All-Sheds r s (t ∷ rs) (u ∷ ss) a (b, v) (p, h) =
    (Differ-Sheds r s t u a b p, All-Sheds r s rs ss a v h)
All-Sheds r s [] (u ∷ ss) a v h = absurd v
All-Sheds r s (t ∷ rs) [] a v h = absurd v

pub Sheds-IsApart : (rs ss : List Gateway) → Rows Sheds rs ss → IsApart rs → IsApart ss
Sheds-IsApart [] [] v h = tt
Sheds-IsApart (r ∷ rs) (s ∷ ss) (a, v) (p, h) = (All-Sheds r s rs ss a v p, Sheds-IsApart rs ss v h)
Sheds-IsApart [] (s ∷ ss) v h = absurd v
Sheds-IsApart (r ∷ rs) [] v h = absurd v

module _ (now p : ℕ) (id : Text) (lease : ℕ) where
  held_id : (r : Gateway) → is_held id lease r ≡ true → r.external_id ≡ id
  held_id r h = (text_eq_iff r.external_id id).0 (ground arith)

  -- No other row has the key of a held row.
  not_held :
      (rs : List Gateway)
      → All (λ s. s.external_id ≢ id) rs
      → exec (is_held id lease) (set_priority now p) rs ≡ rs
  unfolding exec
  not_held [] h = refl
  not_held (r ∷ rs) (n, h) = elim (Bool-cases (is_held id lease r)) [
    | inl e ↦ absurd (n (held_id r e))
    | inr e ↦ rw (e, not_held rs h) refl
  ]

  free_of :
      (rs : List Gateway)
      → any (uses_priority p) rs ≡ false
      → All (λ s. uses_priority p s ≡ false) rs
  free_of [] h = tt
  free_of (r ∷ rs) h = (ground arith, free_of rs (ground arith))

  only_p : (r : Gateway) (n : ℕ) → uses_priority n (set_priority now p r) ≡ true → p ≡ n
  only_p r n h = ground arith

  Differ-set :
      (r : Gateway) (rs : List Gateway)
      → All (λ s. uses_priority p s ≡ false) rs
      → All (Differ (set_priority now p r)) rs
  Differ-set r [] h = tt
  Differ-set r (s ∷ rs) (free, h) =
      (λ n used. subst (λ m. uses_priority m s ≡ false) (only_p r n used) free, Differ-set r rs h)

  -- A row that does not use p differs from the rows after the update.
  Differ-updated :
      (r : Gateway) (rs : List Gateway)
      → uses_priority p r ≡ false
      → All (Differ r) rs
      → All (Differ r) (exec (is_held id lease) (set_priority now p) rs)
  unfolding exec
  Differ-updated r [] free h = tt
  Differ-updated r (s ∷ rs) free (d, h) = (
    elim (Bool-cases (is_held id lease s)) [
      | inl e ↦ rw e (λ n used. elim (Bool-cases (uses_priority n (set_priority now p s))) [
        | inl k ↦
            absurd (
              true_not_false
                (sym used ∙ subst (λ m. uses_priority m r ≡ false) (only_p s n k) free))
        | inr k ↦ k
      ])
      | inr e ↦ rw e d
    ],
    Differ-updated r rs free h,
  )

  -- A free priority that is written to a held row keeps the priorities apart.
  pub set_priority-IsApart :
      (rs : List Gateway)
      → HasIds rs
      → any (uses_priority p) rs ≡ false
      → IsApart rs
      → IsApart (exec (is_held id lease) (set_priority now p) rs)
  unfolding exec
  set_priority-IsApart [] keys free v = tt
  set_priority-IsApart (r ∷ rs) (other, keys) free (d, v) = elim (Bool-cases (is_held id lease r)) [
    | inl e ↦
        let rest = not_held rs (subst (λ k. All (λ s. s.external_id ≢ k) rs) (held_id r e) other) in
        rw (e, rest) (Differ-set r rs (free_of rs (ground arith)), v)
    | inr e ↦
        rw e (Differ-updated r rs (ground arith) d, set_priority-IsApart rs keys (ground arith) v)
  ]
