-- ===== src/Text.antt =====
-- Go strings as lists of bytes, with what the program uses of the package strings.
-- Outside ASCII the Unicode tables of the standard library are the parameter `Unicode`.
pub mod Laws
pub mod Trim
use Prim.Native.Char.{code}
use elite_gate.Prelude.{
  ℕ, suc, ◌+◌, String, Bool, true, false, ◌&&◌, ◌||◌, not, List, [], ◌∷◌, map, if◌then◌else◌, ltb,
  leb, ◌==◌, all, any, length,
}

abbrev pub Text : Type 0
Text = List ℕ

-- The bytes of an ASCII literal.
abbrev pub codes : String → Text
codes String.[] = []
codes (String.◌∷◌ c s) = code c ∷ codes s

unfoldable pub text_eq : Text → Text → Bool
text_eq [] [] = true
text_eq (x ∷ xs) (y ∷ ys) = x == y && text_eq xs ys
text_eq _ _ = false

abbrev pub is_empty : Text → Bool
is_empty [] = true
is_empty (_ ∷ _) = false

-- strings.HasPrefix
unfoldable pub has_prefix : Text → Text → Bool
has_prefix s [] = true
has_prefix [] (y ∷ ys) = false
has_prefix (x ∷ xs) (y ∷ ys) = x == y && has_prefix xs ys

-- s[len(p):]
unfoldable pub skip : Text → Text → Text
skip s [] = s
skip [] (y ∷ ys) = []
skip (x ∷ xs) (y ∷ ys) = skip xs ys

-- strings.TrimPrefix
unfoldable pub trim_prefix : Text → Text → Text
unfolding has_prefix skip
trim_prefix s p = if has_prefix s p then skip s p else s

-- strings.HasSuffix for one byte.
unfoldable pub ends_with : ℕ → Text → Bool
ends_with b [] = false
ends_with b (x ∷ []) = x == b
ends_with b (x ∷ y ∷ s) = ends_with b (y ∷ s)

-- strings.TrimSuffix for one byte.
unfoldable pub trim_suffix : ℕ → Text → Text
trim_suffix b [] = []
trim_suffix b (x ∷ []) = if x == b then [] else x ∷ []
trim_suffix b (x ∷ y ∷ s) = x ∷ trim_suffix b (y ∷ s)

-- strings.Contains
unfoldable pub contains : Text → Text → Bool
unfolding has_prefix
contains [] sub = is_empty sub
contains (x ∷ xs) sub = has_prefix (x ∷ xs) sub || contains xs sub

-- strings.Contains for one byte.
abbrev pub has_byte : ℕ → Text → Bool
has_byte b = any λ c. c == b

-- The bytes before the end at which `drops` holds no more: strings.TrimRightFunc, TrimLeftFunc.
unfoldable pub trim_left : (ℕ → Bool) → Text → Text
trim_left drops [] = []
trim_left drops (x ∷ xs) = if drops x then trim_left drops xs else x ∷ xs

abbrev pub keep : (ℕ → Bool) → ℕ → Text → Text
keep drops x [] = if drops x then [] else x ∷ []
keep drops x (y ∷ ys) = x ∷ y ∷ ys

unfoldable pub trim_right : (ℕ → Bool) → Text → Text
trim_right drops [] = []
trim_right drops (x ∷ xs) = keep drops x (trim_right drops xs)

-- strings.Split at one byte: never empty.
abbrev pub push_first : ℕ → List Text → List Text
push_first x [] = (x ∷ []) ∷ []
push_first x (p ∷ ps) = (x ∷ p) ∷ ps

unfoldable pub split : ℕ → Text → List Text
split sep [] = [] ∷ []
split sep (x ∷ xs) = let rest = split sep xs in if x == sep then [] ∷ rest else push_first x rest

abbrev pub is_ascii : Text → Bool
is_ascii = all λ c. ltb c 128

-- '\t' to '\r', and ' '.
abbrev pub is_space : ℕ → Bool
is_space c = (leb 9 c && leb c 13) || c == 32

abbrev pub lower_byte : ℕ → ℕ
lower_byte c = if leb b'A' c && leb c b'Z' then c + 32 else c

abbrev pub upper_byte : ℕ → ℕ
upper_byte c = if leb b'a' c && leb c b'z' then Prim.Native.Nat.◌-◌ c 32 else c

-- What the package strings does to a text that is not all ASCII.
pub record Unicode : Type 0 where
  pub trim : Text → Text
  pub lower : Text → Text
  pub upper : Text → Text
  pub fold_eq : Text → Text → Bool
  pub runes : Text → List ℕ

module _ (u : Unicode) where
  -- strings.TrimSpace
  unfoldable pub trim_space : Text → Text
  unfolding trim_left trim_right
  trim_space s = if is_ascii s then trim_right is_space (trim_left is_space s) else u.trim s

  -- strings.ToLower
  unfoldable pub to_lower : Text → Text
  to_lower s = if is_ascii s then map lower_byte s else u.lower s

  -- strings.ToUpper
  unfoldable pub to_upper : Text → Text
  to_upper s = if is_ascii s then map upper_byte s else u.upper s

  -- for _, char := range s
  unfoldable pub runes_of : Text → List ℕ
  runes_of s = if is_ascii s then s else u.runes s

  -- strings.EqualFold
  unfoldable pub equal_fold : Text → Text → Bool
  unfolding text_eq
  equal_fold s t =
      if is_ascii s && is_ascii t
      then text_eq (map lower_byte s) (map lower_byte t)
      else u.fold_eq s t

-- Tables that leave every text as it is, for tests.
abbrev pub plain : Unicode
plain = record { trim = λ s. s; lower = λ s. s; upper = λ s. s; fold_eq = text_eq; runes = λ s. s }
