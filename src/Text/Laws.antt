-- ===== src/Text/Laws.antt =====
-- Laws of the operations on texts.
use elite_gate.Prelude.{◌≡◌, refl, ◌↔◌, true, [], ◌∷◌, ◌++◌, arith}
use elite_gate.Text.{Text, text_eq, has_prefix, skip, trim_prefix}

pub text_eq_iff : (s t : Text) → (text_eq s t ≡ true) ↔ (s ≡ t)
unfolding text_eq
text_eq_iff [] [] = ground arith
text_eq_iff [] (y ∷ ys) = ground arith
text_eq_iff (x ∷ xs) [] = ground arith
text_eq_iff (x ∷ xs) (y ∷ ys) = ground (arith, text_eq_iff xs ys)

pub text_eq_refl : (s : Text) → text_eq s s ≡ true
text_eq_refl s = (text_eq_iff s s).1 refl

-- A text has a prefix exactly when it is the prefix and the rest of it.
pub has_prefix-skip : (s p : Text) → has_prefix s p ≡ true → s ≡ p ++ skip s p
unfolding has_prefix skip
has_prefix-skip s [] h = refl
has_prefix-skip [] (y ∷ ys) h = ground arith
has_prefix-skip (x ∷ xs) (y ∷ ys) h = ground (arith, has_prefix-skip xs ys)

pub has_prefix-append : (p s : Text) → has_prefix (p ++ s) p ≡ true
unfolding has_prefix
has_prefix-append [] s = refl
has_prefix-append (x ∷ p) s = ground (arith, has_prefix-append p s)

pub skip-append : (p s : Text) → skip (p ++ s) p ≡ s
unfolding skip
skip-append [] s = refl
skip-append (x ∷ p) s = skip-append p s

pub trim_prefix-append : (p s : Text) → trim_prefix (p ++ s) p ≡ s
unfolding trim_prefix
trim_prefix-append p s = rw (has_prefix-append p s, skip-append p s) refl
