-- ===== src/Table/Order.antt =====
-- internal/storage: the jobs that a claim may take, and the order in which it takes them.
use elite_gate.Prelude.{
  true_not_false, none_not_some, some_injective, ℕ, ◌+◌, ◌*◌, ◌^◌, ◌≡◌, refl, sym, ◌∙◌, inl, inr,
  Bool, true, false, ◌&&◌, ◌||◌, List, [], ◌∷◌, Option, none, some, All, Any, here, there,
  Bool-cases, if◌then◌else◌, ltb, leb, ◌==◌, ℤ, pos, negsuc,
}
use mathlib.Core.Path.{subst}

-- 5 * time.Minute for a timeout that is not positive.
abbrev pub lock_timeout_of : ℤ → ℕ
lock_timeout_of (pos t) = if ltb 0 t then t else 300 * 10 ^ 9
lock_timeout_of (negsuc t) = 300 * 10 ^ 9

abbrev pub is_due : ℕ → Option ℕ → Bool
is_due db_now none = true
is_due db_now (some t) = leb t db_now

-- locked_at <= now - timeout
abbrev pub is_free : ℕ → ℕ → Option ℕ → Bool
is_free now timeout none = true
is_free now timeout (some t) = leb (t + timeout) now

-- ORDER BY next_retry_at ASC NULLS FIRST, created_at ASC
abbrev pub earlier_retry : Option ℕ → Option ℕ → ℕ → ℕ → Bool
earlier_retry none none c d = ltb c d
earlier_retry none (some _) c d = true
earlier_retry (some _) none c d = false
earlier_retry (some t) (some u) c d = ltb t u || (t == u && ltb c d)

module _ {A : Type 0} (before : A → A → Bool) where
  abbrev pub better : Option A → A → A
  better none r = r
  better (some s) r = if before s r then s else r

  -- The first row of the sorted selection.
  unfoldable pub first_of : (A → Bool) → List A → Option A
  first_of test [] = none
  first_of test (r ∷ rs) =
      let rest = first_of test rs in if test r then some (better rest r) else rest

-- The row that the sorted selection starts with.
pub record IsFirst {A : Type 0} (before : A → A → Bool) (test : A → Bool) (rs : List A) (c : A)
    : Type 0 where
  pub passes : test c ≡ true
  pub member : Any (λ y. y ≡ c) rs
  pub least : All (λ r. test r ≡ true → before r c ≡ false) rs

-- A strict order in which not coming before is transitive.
pub record IsOrder {A : Type 0} (before : A → A → Bool) : Type 0 where
  pub trans : (a b c : A) → before a b ≡ false → before b c ≡ false → before a c ≡ false
  pub irrefl : (a : A) → before a a ≡ false
  pub asym : (a b : A) → before a b ≡ true → before b a ≡ false

module _ {A : Type 0} (before : A → A → Bool) (law : IsOrder before) where
  All-least :
      (test : A → Bool) (c d : A) (rs : List A)
      → before c d ≡ false
      → All (λ r. test r ≡ true → before r c ≡ false) rs
      → All (λ r. test r ≡ true → before r d ≡ false) rs
  All-least test c d [] h v = tt
  All-least test c d (r ∷ rs) h (p, v) = (λ t. law.trans r c d (p t) h, All-least test c d rs h v)

  first_hit :
      (test : A → Bool) (r : A) (rs : List A)
      → test r ≡ true
      → first_of before test (r ∷ rs) ≡ some (better before (first_of before test rs) r)
  unfolding first_of
  first_hit test r rs e = rw e refl

  first_miss :
      (test : A → Bool) (r : A) (rs : List A)
      → test r ≡ false
      → first_of before test (r ∷ rs) ≡ first_of before test rs
  unfolding first_of
  first_miss test r rs e = rw e refl

  All-vacuous :
      (test : A → Bool) (d : A) (rs : List A)
      → first_of before test rs ≡ none
      → All (λ r. test r ≡ true → before r d ≡ false) rs
  All-vacuous test d [] h = tt
  All-vacuous test d (r ∷ rs) h = elim (Bool-cases (test r)) [
    | inl e ↦ absurd (none_not_some (sym h ∙ first_hit test r rs e))
    | inr e ↦ (
      λ t. absurd (true_not_false (sym t ∙ e)),
      All-vacuous test d rs (sym (first_miss test r rs e) ∙ h),
    )
  ]

  -- The better of the first row and the first of the rest.
  better-IsFirst :
      (test : A → Bool) (r : A) (rs : List A) (c : A)
      → test r ≡ true
      → IsFirst before test rs c
      → IsFirst before test (r ∷ rs) (better before (some c) r)
  better-IsFirst test r rs c e v = elim (Bool-cases (before c r)) [
    | inl first ↦ rw first (record {
      passes = v.passes;
      member = there v.member;
      least = (λ _. law.asym c r first, v.least);
    })
    | inr later ↦ rw later (record {
      passes = e;
      member = here refl;
      least = (λ _. law.irrefl r, All-least test c r rs later v.least);
    })
  ]

  first_of_cons :
      (test : A → Bool) (r : A) (rs : List A) (c : A) (rest : Option A)
      → first_of before test rs ≡ rest
      → ((d : A) → rest ≡ some d → IsFirst before test rs d)
      → test r ≡ true
      → better before rest r ≡ c
      → IsFirst before test (r ∷ rs) c
  first_of_cons test r rs c none w v e h = subst (IsFirst before test (r ∷ rs)) h (record {
    passes = e;
    member = here refl;
    least = (λ _. law.irrefl r, All-vacuous test r rs w);
  })
  first_of_cons test r rs c (some d) w v e h =
      subst (IsFirst before test (r ∷ rs)) h (better-IsFirst test r rs d e (v d refl))

  pub first_of-IsFirst :
      (test : A → Bool) (rs : List A) (c : A)
      → first_of before test rs ≡ some c
      → IsFirst before test rs c
  unfolding first_of
  first_of-IsFirst test [] c h = absurd (none_not_some h)
  first_of-IsFirst test (r ∷ rs) c h = elim (Bool-cases (test r)) [
    | inl e ↦
        first_of_cons test r rs c (first_of before test rs) refl
          (λ d k. first_of-IsFirst test rs d k) e (some_injective (sym (first_hit test r rs e) ∙ h))
    | inr e ↦
        let v = first_of-IsFirst test rs c (sym (first_miss test r rs e) ∙ h) in
        record {
          passes = v.passes;
          member = there v.member;
          least = (λ t. absurd (true_not_false (sym t ∙ e)), v.least);
        }
  ]

  pub first_of-none :
      (test : A → Bool) (rs : List A)
      → first_of before test rs ≡ none
      → All (λ r. test r ≡ false) rs
  first_of-none test [] h = tt
  first_of-none test (r ∷ rs) h = elim (Bool-cases (test r)) [
    | inl e ↦ absurd (none_not_some (sym h ∙ first_hit test r rs e))
    | inr e ↦ (e, first_of-none test rs (sym (first_miss test r rs e) ∙ h))
  ]
