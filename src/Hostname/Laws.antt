-- ===== src/Hostname/Laws.antt =====
-- internal/helper/domain.go, NormalizeHostname: what a normal host name looks like.
use elite_gate.Prelude.{
  ℕ, ◌≤◌, ◌≡◌, ◌≢◌, ◌⊎◌, ◌∙◌, ◌++◌, ap, All, and_true, refl, sym, inl, inr, Bool, true, false, ◌&&◌,
  ◌||◌, not, List, [], ◌∷◌, none, some, if◌then◌else◌, ◌==◌, all, length, arith, Bool-cases,
  true_not_false, none_not_some, some_injective,
}
use mathlib.Core.Path.{subst}
use elite_gate.Text.{
  Text, Unicode, codes, has_prefix, is_empty, lower_byte, ends_with, split, push_first,
}
use elite_gate.Text.Trim.{
  all-map, is_plain_byte, trim_space-plain, to_lower-plain, trim_suffix-plain,
}
use elite_gate.Hostname.{
  is_hostname_byte, valid_hostname_label, accepted, cleaned_hostname, normalize_hostname,
}

-- A letter, a digit, a dash or a dot.
abbrev pub is_host_byte : ℕ → Bool
is_host_byte c = is_hostname_byte c || c == b'.'

-- 1 to 63 letters in lower case, digits and dashes, with no dash at an edge.
pub record IsHostLabel (l : Text) : Type 0 where
  pub filled : 1 ≤ length l
  pub brief : length l ≤ 63
  pub letters : All (λ c. ((b'a' ≤ c) × (c ≤ b'z')) ⊎ ((b'0' ≤ c) × (c ≤ b'9')) ⊎ (c ≡ b'-')) l
  pub first : (rest : Text) → l ≢ b'-' ∷ rest
  pub last : (before : Text) → l ≢ before ++ b'-' ∷ []

-- Lower case, at most 253 bytes, and at least three labels.
pub record IsHostname (s : Text) : Type 0 where
  pub bytes : all is_host_byte s ≡ true
  pub short : length s ≤ 253
  pub labels : 3 ≤ length (split b'.' s)
  pub each : All IsHostLabel (split b'.' s)
  pub end : ends_with b'.' s ≡ false

push_first-all :
    (p : ℕ → Bool) (x : ℕ) (ps : List Text)
    → all (all p) (push_first x ps) ≡ true
    → (p x && all (all p) ps) ≡ true
push_first-all p x [] h = ground arith
push_first-all p x (q ∷ qs) h = ground arith

split-bytes :
    (p : ℕ → Bool) (sep : ℕ) (s : Text)
    → all (all p) (split sep s) ≡ true
    → all (λ c. p c || c == sep) s ≡ true
unfolding split
split-bytes p sep [] h = refl
split-bytes p sep (x ∷ xs) h = elim (Bool-cases (x == sep)) [
  | inl e ↦
      let rest = split-bytes p sep xs (
        subst
          (λ b. all (all p) (if b then [] ∷ split sep xs else push_first x (split sep xs)) ≡ true) e
          h) in
      ground arith
  | inr e ↦
      let first = push_first-all p x (split sep xs) (
        subst
          (λ b. all (all p) (if b then [] ∷ split sep xs else push_first x (split sep xs)) ≡ true) e
          h) in
      let rest = split-bytes p sep xs (ground arith) in ground arith
]

abbrev after_first : List Text → List Text
after_first [] = []
after_first (p ∷ ps) = ps

abbrev is_filled : Text → Bool
is_filled label = not (is_empty label)

after_push :
    (x : ℕ) (ps : List Text)
    → all is_filled (after_first (push_first x ps)) ≡ true
    → all is_filled (after_first ps) ≡ true
after_push x [] h = refl
after_push x (p ∷ ps) h = h

after_all : (ps : List Text) → all is_filled ps ≡ true → all is_filled (after_first ps) ≡ true
after_all [] h = h
after_all (p ∷ ps) h = ground arith

split-end :
    (sep : ℕ) (s : Text)
    → all is_filled (after_first (split sep s)) ≡ true
    → ends_with sep s ≡ false
unfolding split ends_with
split-end sep [] h = refl
split-end sep (x ∷ []) h = elim (Bool-cases (x == sep)) [
  | inl e ↦ absurd (
      true_not_false (
        sym (
          subst
            (λ b. all is_filled (after_first (if b then [] ∷ [] ∷ [] else (x ∷ []) ∷ [])) ≡ true) e
            h)))
  | inr e ↦ e
]
split-end sep (x ∷ y ∷ s) h = elim (Bool-cases (x == sep)) [
  | inl e ↦ split-end sep (y ∷ s) (
      after_all (split sep (y ∷ s)) (
        subst
          (λ b.
            all is_filled
              (after_first (if b then [] ∷ split sep (y ∷ s) else push_first x (split sep (y ∷ s))))
            ≡ true)
          e h))
  | inr e ↦ split-end sep (y ∷ s) (
      after_push x (split sep (y ∷ s)) (
        subst
          (λ b.
            all is_filled
              (after_first (if b then [] ∷ split sep (y ∷ s) else push_first x (split sep (y ∷ s))))
            ≡ true)
          e h))
]

label-bytes : (l : Text) → valid_hostname_label l ≡ true → all is_hostname_byte l ≡ true
unfolding valid_hostname_label
label-bytes l h = ground arith

label-filled : (l : Text) → valid_hostname_label l ≡ true → is_filled l ≡ true
unfolding valid_hostname_label
label-filled l h = ground arith

ends_with-last : (b : ℕ) (before : Text) → ends_with b (before ++ b ∷ []) ≡ true
unfolding ends_with
ends_with-last b [] = ground arith
ends_with-last b (x ∷ []) = ground arith
ends_with-last b (x ∷ y ∷ s) = ends_with-last b (y ∷ s)

all-All :
    {A : Type 0} (p : A → Bool) (P : A → Type 0) (xs : List A)
    → ((x : A) → p x ≡ true → P x)
    → all p xs ≡ true
    → All P xs
all-All p P [] f h = tt
all-All p P (x ∷ xs) f h =
    let both = and_true (p x) (all p xs) h in (f x both.0, all-All p P xs f both.1)

filled-length : (l : Text) → is_empty l ≡ false → 1 ≤ length l
filled-length [] h = absurd (true_not_false h)
filled-length (x ∷ xs) h = omega arith

byte_kind :
    (c : ℕ)
    → is_hostname_byte c ≡ true
    → ((b'a' ≤ c) × (c ≤ b'z')) ⊎ ((b'0' ≤ c) × (c ≤ b'9')) ⊎ (c ≡ b'-')
byte_kind c h = ground arith

dash_first : (rest : Text) → has_prefix (b'-' ∷ rest) (codes "-") ≡ true
unfolding has_prefix
dash_first rest = refl

valid-IsHostLabel : (l : Text) → valid_hostname_label l ≡ true → IsHostLabel l
unfolding valid_hostname_label
valid-IsHostLabel l h =
    let nonempty : is_empty l ≡ false = ground arith in
    let front : has_prefix l (codes "-") ≡ false = ground arith in
    let back : ends_with b'-' l ≡ false = ground arith in
    record {
      filled = filled-length l nonempty;
      brief = ground arith;
      letters = all-All is_hostname_byte _ l byte_kind (label-bytes l h);
      first = λ rest e.
          true_not_false
            (sym (dash_first rest) ∙ ap (λ t. has_prefix t (codes "-")) (sym e) ∙ front);
      last = λ before e.
          true_not_false (sym (ends_with-last b'-' before) ∙ ap (ends_with b'-') (sym e) ∙ back);
    }

accepted-IsHostname :
    (parses_ip : Text → Bool) (s : Text) → accepted parses_ip s ≡ true → IsHostname s
unfolding accepted
accepted-IsHostname parses_ip s h =
    let each : all valid_hostname_label (split b'.' s) ≡ true = ground arith in
    record {
      bytes =
          split-bytes is_hostname_byte b'.' s
            (all-map valid_hostname_label (all is_hostname_byte) (split b'.' s) label-bytes each);
      short = ground arith;
      labels = ground arith;
      each = all-All valid_hostname_label IsHostLabel (split b'.' s) valid-IsHostLabel each;
      end = split-end b'.' s (
          after_all (split b'.' s)
            (all-map valid_hostname_label is_filled (split b'.' s) label-filled each));
    }

host-plain : (c : ℕ) → is_host_byte c ≡ true → is_plain_byte c ≡ true
host-plain c h = ground arith

host-lower : (c : ℕ) → is_host_byte c ≡ true → (lower_byte c == c) ≡ true
host-lower c h = ground arith

module _ (u : Unicode) (parses_ip : Text → Bool) where
  cleaned_hostname-IsHostname : (s : Text) → IsHostname s → cleaned_hostname u s ≡ s
  cleaned_hostname-IsHostname s v =
      let plain = all-map is_host_byte is_plain_byte s host-plain v.bytes in
      rw
        (
          trim_space-plain u s plain,
          to_lower-plain u s (all-map is_plain_byte _ s (λ c k. ground arith) plain)
              (all-map is_host_byte _ s host-lower v.bytes),
        )
        (trim_suffix-plain b'.' s v.end)

  normalize-accepted :
      (input s : Text) (b : Bool)
      → accepted parses_ip (cleaned_hostname u input) ≡ b
      → (if b then some (cleaned_hostname u input) else none) ≡ some s
      → accepted parses_ip s ≡ true
  normalize-accepted input s true e h =
      subst (λ t. accepted parses_ip t ≡ true) (some_injective h) e
  normalize-accepted input s false e h = absurd (none_not_some h)

  accepted-normal :
      (s : Text) → accepted parses_ip s ≡ true → normalize_hostname u parses_ip s ≡ some s
  unfolding normalize_hostname
  accepted-normal s h =
      rw (cleaned_hostname-IsHostname s (accepted-IsHostname parses_ip s h), h) refl

  -- What NormalizeHostname answers is a host name: only letters in lower case, digits, dashes and
  -- dots, at most 253 bytes, no dot at its end, and three labels or more, each of 1 to 63 letters,
  -- digits and dashes that neither begins nor ends with a dash.
  pub normalize_hostname-IsHostname :
      (input s : Text) → normalize_hostname u parses_ip input ≡ some s → IsHostname s
  unfolding normalize_hostname
  normalize_hostname-IsHostname input s h =
      accepted-IsHostname parses_ip s (normalize-accepted input s _ refl h)

  -- What NormalizeHostname answers is its own normal form.
  pub normalize_hostname_again :
      (input s : Text)
      → normalize_hostname u parses_ip input ≡ some s
      → normalize_hostname u parses_ip s ≡ some s
  unfolding normalize_hostname
  normalize_hostname_again input s h = accepted-normal s (normalize-accepted input s _ refl h)
