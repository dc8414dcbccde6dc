-- ===== src/Router/Paths.antt =====
-- matcher.go: what the two path tests accept.
use elite_gate.Prelude.{
  ℕ, ◌≡◌, ◌≢◌, ◌↔◌, inl, inr, refl, sym, ap, true, false, List, [], ◌∷◌, ◌++◌, arith, length,
  ==_iff, ◌==◌, Bool-cases, length-append,
}
use mathlib.Core.Path.{subst}
use elite_gate.Text.{Text, codes, has_prefix, skip, ends_with}
use elite_gate.Text.Laws.{
  text_eq_iff, text_eq_refl, has_prefix-skip, has_prefix-append, skip-append,
}
use elite_gate.Router.{match_boundary_prefix, match_segments, match_parametric, split_path}

-- A path at a pattern, below it after a slash, or any continuation of a pattern that ends in one.
pub data Under (pattern : Text) : Text → Type 0 where
  at : Under pattern pattern
  below : (rest : Text) → Under pattern (pattern ++ b'/' ∷ rest)
  within : (rest : Text) → ends_with b'/' pattern ≡ true → Under pattern (pattern ++ rest)

-- Segment by segment: a segment with a colon takes any segment but the empty one, and every other
-- segment itself.
pub data Fits : List Text → List Text → Type 0 where
  ends : Fits [] []
  takes :
      (name r : Text) (ps rs : List Text) → r ≢ [] → Fits ps rs → Fits ((b':' ∷ name) ∷ ps) (r ∷ rs)
  equals :
      (p : Text) (ps rs : List Text)
      → has_prefix p (codes ":") ≡ false
      → Fits ps rs
      → Fits (p ∷ ps) (p ∷ rs)

nil_not_cons : {A : Type 0} {x : A} {xs : List A} → [] ≢ x ∷ xs
nil_not_cons h = cc

-- The turn of the loop for a segment with a colon, and for one without.
match_segments-param :
    (name r : Text) (ps rs : List Text)
    → match_segments ((b':' ∷ name) ∷ ps) (r ∷ rs) ≡ true
    → (r ≢ []) × (match_segments ps rs ≡ true)
unfolding match_segments
match_segments-param name [] ps rs h = ground arith
match_segments-param name (x ∷ r) ps rs h = ((λ e. nil_not_cons (sym e)), h)

match_segments-literal :
    (p r : Text) (ps rs : List Text)
    → has_prefix p (codes ":") ≡ false
    → match_segments (p ∷ ps) (r ∷ rs) ≡ true
    → (p ≡ r) × (match_segments ps rs ≡ true)
unfolding match_segments
match_segments-literal p r ps rs e h = ground (arith, text_eq_iff p r)

colon_first :
    (c : ℕ) (p r : Text) (ps rs : List Text)
    → c ≡ b':'
    → match_segments ((c ∷ p) ∷ ps) (r ∷ rs) ≡ true
    → (match_segments ps rs ≡ true → Fits ps rs)
    → Fits ((c ∷ p) ∷ ps) (r ∷ rs)
colon_first c p r ps rs e h k =
    let (filled, rest) =
      match_segments-param p r ps rs
        (subst (λ c. match_segments ((c ∷ p) ∷ ps) (r ∷ rs) ≡ true) e h) in
    subst (λ c. Fits ((c ∷ p) ∷ ps) (r ∷ rs)) (sym e) (takes p r ps rs filled (k rest))

match_segments-Fits :
    (ps rs : List Text) → length ps ≡ length rs → match_segments ps rs ≡ true → Fits ps rs
unfolding has_prefix
match_segments-Fits [] [] l h = ends
match_segments-Fits [] (r ∷ rs) l h = ground arith
match_segments-Fits (p ∷ ps) [] l h = ground arith
match_segments-Fits ([] ∷ ps) (r ∷ rs) l h =
    let (same, rest) = match_segments-literal [] r ps rs refl h in
    subst (λ r. Fits ([] ∷ ps) (r ∷ rs)) same
      (equals [] ps rs refl (match_segments-Fits ps rs (omega arith) rest))
match_segments-Fits ((c ∷ p) ∷ ps) (r ∷ rs) l h = elim (Bool-cases (c == b':')) [
  | inl e ↦
      colon_first c p r ps rs ((==_iff c b':').0 e) h
        (λ m. match_segments-Fits ps rs (omega arith) m)
  | inr e ↦
      let (same, rest) = match_segments-literal (c ∷ p) r ps rs (ground (arith, e)) h in
      subst (λ r. Fits ((c ∷ p) ∷ ps) (r ∷ rs)) same
        (equals (c ∷ p) ps rs (ground (arith, e)) (match_segments-Fits ps rs (omega arith) rest))
]

Fits-match_segments :
    {ps rs : List Text} → Fits ps rs → (length ps ≡ length rs) × (match_segments ps rs ≡ true)
unfolding match_segments
Fits-match_segments ends = (refl, refl)
Fits-match_segments (takes name [] ps rs filled f) = absurd (filled refl)
Fits-match_segments (takes name (x ∷ r) ps rs filled f) =
    let (l, m) = Fits-match_segments f in (omega arith, m)
Fits-match_segments (equals p ps rs literal f) =
    let (l, m) = Fits-match_segments f in (omega arith, ground (arith, text_eq_refl p))

parametric_tests :
    (pattern path : Text)
    → match_parametric pattern path ≡ true
    → (length (split_path pattern) ≡ length (split_path path))
      × (match_segments (split_path pattern) (split_path path) ≡ true)
unfolding match_parametric
parametric_tests pattern path h = ground arith

tests_parametric :
    (pattern path : Text)
    → (length (split_path pattern) ≡ length (split_path path))
      × (match_segments (split_path pattern) (split_path path) ≡ true)
    → match_parametric pattern path ≡ true
unfolding match_parametric
tests_parametric pattern path (l, m) = ground arith

-- The parametric test accepts a path exactly when its segments fit the pattern's one by one.
pub match_parametric_iff :
    (pattern path : Text)
    → (match_parametric pattern path ≡ true) ↔ Fits (split_path pattern) (split_path path)
match_parametric_iff pattern path = (
  λ h. let (l, m) = parametric_tests pattern path h in match_segments-Fits _ _ l m,
  λ f. tests_parametric pattern path (Fits-match_segments f),
)

append_nil : (s : Text) → s ++ [] ≡ s
append_nil [] = refl
append_nil (x ∷ s) = ap (λ t. x ∷ t) (append_nil s)

at_slash :
    (pattern : Text) (c : ℕ) (rest : Text)
    → (c == b'/') ≡ true
    → Under pattern (pattern ++ c ∷ rest)
at_slash pattern c rest e =
    subst (λ d. Under pattern (pattern ++ d ∷ rest)) (sym ((==_iff c b'/').0 e)) (below rest)

match_boundary_prefix-Under :
    (pattern t : Text)
    → match_boundary_prefix pattern (pattern ++ t) ≡ true
    → Under pattern (pattern ++ t)
unfolding match_boundary_prefix has_prefix
match_boundary_prefix-Under pattern [] h = subst (Under pattern) (sym (append_nil pattern)) at
match_boundary_prefix-Under pattern (c ∷ rest) h = elim (Bool-cases (ends_with b'/' pattern)) [
  | inl e ↦ within (c ∷ rest) e
  | inr e ↦ elim (Bool-cases (c == b'/')) [
    | inl slash ↦ at_slash pattern c rest slash
    | inr other ↦ ground (
      arith,
      has_prefix-append pattern (c ∷ rest),
      skip-append pattern (c ∷ rest),
      length-append pattern (c ∷ rest),
    )
  ]
]

Under-match_boundary_prefix :
    {pattern path : Text} → Under pattern path → match_boundary_prefix pattern path ≡ true
unfolding match_boundary_prefix has_prefix
Under-match_boundary_prefix {pattern} at =
    ground (arith, has_prefix-append pattern [], append_nil pattern)
Under-match_boundary_prefix {pattern} (below rest) = ground (
  arith,
  has_prefix-append pattern (b'/' ∷ rest),
  skip-append pattern (b'/' ∷ rest),
  length-append pattern (b'/' ∷ rest),
)
Under-match_boundary_prefix {pattern} (within rest slash) =
    ground (arith, has_prefix-append pattern rest)

accepted-has_prefix :
    (pattern path : Text)
    → match_boundary_prefix pattern path ≡ true
    → has_prefix path pattern ≡ true
unfolding match_boundary_prefix
accepted-has_prefix pattern path h = ground arith

prefix_accepted :
    (pattern path : Text)
    → has_prefix path pattern ≡ true
    → match_boundary_prefix pattern path ≡ true
    → Under pattern path
prefix_accepted pattern path p h =
    let e = has_prefix-skip path pattern p in
    subst (Under pattern) (sym e) (
      match_boundary_prefix-Under pattern (skip path pattern)
        (subst (λ q. match_boundary_prefix pattern q ≡ true) e h))

-- The prefix test accepts a path exactly when it is the pattern, lies below it after a slash, or
-- continues a pattern that ends in a slash: /users takes /users and /users/7 but not /users2.
pub match_boundary_prefix_iff :
    (pattern path : Text) → (match_boundary_prefix pattern path ≡ true) ↔ Under pattern path
match_boundary_prefix_iff pattern path = (
  λ h. prefix_accepted pattern path (accepted-has_prefix pattern path h) h,
  Under-match_boundary_prefix,
)
