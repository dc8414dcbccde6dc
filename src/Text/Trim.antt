-- ===== src/Text/Trim.antt =====
-- The operations of the package strings on texts that they leave as they are.
use elite_gate.Prelude.{
  ℕ, ◌≡◌, refl, Bool, true, false, ◌&&◌, not, List, [], ◌∷◌, map, ltb, ◌==◌, all, arith,
}
use elite_gate.Text.{
  Text, Unicode, is_ascii, is_space, lower_byte, trim_left, trim_right, trim_space, to_lower,
  trim_suffix, ends_with, keep,
}

pub all-map {ℓ} :
    {A : Type ℓ} (p q : A → Bool) (s : List A)
    → ((c : A) → p c ≡ true → q c ≡ true)
    → all p s ≡ true
    → all q s ≡ true
all-map p q [] h k = refl
all-map p q (x ∷ xs) h k = ground (arith, h x, all-map p q xs h)

-- ASCII without white space.
abbrev pub is_plain_byte : ℕ → Bool
is_plain_byte c = ltb c 128 && not (is_space c)

trim_left-plain : (s : Text) → all is_plain_byte s ≡ true → trim_left is_space s ≡ s
unfolding trim_left
trim_left-plain [] h = refl
trim_left-plain (x ∷ xs) h = ground arith

trim_right-plain : (s : Text) → all is_plain_byte s ≡ true → trim_right is_space s ≡ s
unfolding trim_right
trim_right-plain [] h = refl
trim_right-plain (x ∷ xs) h =
    let rest = trim_right-plain xs (ground arith) in rw rest (kept x xs (ground arith))
  where
    kept : (x : ℕ) (xs : Text) → is_space x ≡ false → keep is_space x xs ≡ x ∷ xs
    kept x [] e = rw e refl
    kept x (y ∷ ys) e = refl

plain-ascii : (s : Text) → all is_plain_byte s ≡ true → is_ascii s ≡ true
plain-ascii s h = all-map is_plain_byte (λ c. ltb c 128) s (λ c k. ground arith) h

pub trim_space-plain : (u : Unicode) (s : Text) → all is_plain_byte s ≡ true → trim_space u s ≡ s
unfolding trim_space
trim_space-plain u s h = rw (plain-ascii s h, trim_left-plain s h, trim_right-plain s h) refl

map-lower : (s : Text) → all (λ c. lower_byte c == c) s ≡ true → map lower_byte s ≡ s
map-lower [] h = refl
map-lower (x ∷ xs) h =
    let rest = map-lower xs (ground arith) in
    let first : lower_byte x ≡ x = ground arith in rw (first, rest) refl

pub to_lower-plain :
    (u : Unicode) (s : Text)
    → is_ascii s ≡ true
    → all (λ c. lower_byte c == c) s ≡ true
    → to_lower u s ≡ s
unfolding to_lower
to_lower-plain u s h k = rw (h, map-lower s k) refl

pub trim_suffix-plain : (b : ℕ) (s : Text) → ends_with b s ≡ false → trim_suffix b s ≡ s
unfolding trim_suffix ends_with
trim_suffix-plain b [] h = refl
trim_suffix-plain b (x ∷ []) h = ground arith
trim_suffix-plain b (x ∷ y ∷ s) h = rw (trim_suffix-plain b (y ∷ s) h) refl
