-- ===== src/LoadBalancer/Fairness.antt =====
-- round_robin.go over consecutive requests.
use native.Mathlib.Nat.{mod-lt, div-add-mod', add-zero, zero-add, add-suc, suc-add}
use mathlib.Core.Path.{ap₂}
use elite_gate.Prelude.{
  ℤ, pos, negsuc, ℕ, zero, suc, ◌+◌, ◌-◌, ◌%◌, ◌*◌, ◌/◌, ◌^◌, ◌≤◌, ◌<◌, ◌≡◌, refl, ap, ◌∙◌, sym,
  Bool, List, [], ◌∷◌, ◌++◌, map, Option, none, false, some, arith, length, length-append,
  length-replicate, get_elem?, take, drop, tally, tally-append, take-append-drop, replicate,
  if◌then◌else◌, Bool-cases, inl, inr,
}
use elite_gate.LoadBalancer.{
  Target, RoundRobin, round_robin_pick, expand_by_weight, slots, clamp_weight, all_equal,
}

module _ {ℓ} {A : Type ℓ} where
  -- The elements at `start`, `start + 1`, … modulo the length.
  visit : List A → ℕ → ℕ → List (Option A)
  visit e start zero = []
  visit e start (suc k) = get_elem? e (start % length e) ∷ visit e (suc start) k

  visit-append :
      (e : List A) (start j k : ℕ)
      → visit e start (j + k) ≡ visit e start j ++ visit e (start + j) k
  unfolding visit
  visit-append e start zero k = rw (zero-add, add-zero) refl
  visit-append e start (suc j) k =
      rw (suc-add j k, add-suc start j)
        (ap (λ r. get_elem? e (start % length e) ∷ r)
          (visit-append e (suc start) j k ∙ rw suc-add refl))

  drop-get_elem? :
      (e : List A) (i : ℕ)
      → i < length e
      → (x : A) × (get_elem? e i ≡ some x) × (drop i e ≡ x ∷ drop (suc i) e)
  drop-get_elem? [] i h = elim h [ ]
  drop-get_elem? (x ∷ e) zero h = (x, refl, refl)
  drop-get_elem? (x ∷ e) (suc i) h = drop-get_elem? e i (omega arith)

  -- A run that does not pass the end reads a segment.
  visit-segment :
      (e : List A) (start q i k : ℕ)
      → start ≡ q * length e + i
      → i + k ≤ length e
      → visit e start k ≡ map some (take k (drop i e))
  unfolding visit
  visit-segment e start q i zero m h = refl
  visit-segment e start q i (suc k) m h =
      let below : i < length e = omega arith in
      let at : start % length e ≡ i = rw m (grind arith) in
      let (x, found, rest) = drop-get_elem? e i below in
      rw (at, found, rest)
        (ap (λ r. some x ∷ r) (visit-segment e (suc start) q (suc i) k (omega arith) (omega arith)))

  take_all : (n : ℕ) (xs : List A) → length xs ≤ n → take n xs ≡ xs
  take_all zero [] h = refl
  take_all zero (x ∷ xs) h = absurd (omega arith)
  take_all (suc n) [] h = refl
  take_all (suc n) (x ∷ xs) h = ap (λ r. x ∷ r) (take_all n xs (omega arith))

  length-drop : (n : ℕ) (xs : List A) → length (drop n xs) ≡ length xs - n
  length-drop zero xs = omega arith
  length-drop (suc n) [] = omega arith
  length-drop (suc n) (x ∷ xs) = omega (arith, length-drop n xs)

  -- One round visits the slots from `i` to the end, then those before `i`.
  visit-round :
      (e : List A) (start q i : ℕ)
      → start ≡ q * length e + i
      → i < length e
      → visit e start (length e) ≡ map some (drop i e) ++ map some (take i e)
  visit-round e start q i m h =
      let n = length e - i in
      let cut : length e ≡ n + i = omega arith in
      let turn : start + n ≡ (q + 1) * length e + 0 = grind arith in
      ap (visit e start) cut
      ∙ visit-append e start n i
      ∙ ap₂ ◌++◌
          (visit-segment e start q i n m (omega arith)
            ∙ ap (map some) (take_all n (drop i e) (omega (arith, length-drop i e))))
          (visit-segment e (start + n) (q + 1) 0 i turn (omega arith))

  tally-map :
      (p : Option A → Bool) (xs : List A) → tally p (map some xs) ≡ tally (λ x. p (some x)) xs
  tally-map p [] = refl
  tally-map p (x ∷ xs) = ap (λ n. (if p (some x) then 1 else 0) + n) (tally-map p xs)

  tally-round :
      (p : Option A → Bool) (e : List A) (start : ℕ)
      → 0 < length e
      → tally p (visit e start (length e)) ≡ tally (λ x. p (some x)) e
  tally-round p e start h =
      let i = start % length e in
      let low : i < length e = mod-lt start h in
      let whole : start ≡ start / length e * length e + i = sym (div-add-mod' start (length e)) in
      let parts = tally-append (λ x. p (some x)) (take i e) (drop i e) in
      let joined = ap (tally (λ x. p (some x))) (take-append-drop i e) in
      rw
        (
          visit-round e start (start / length e) i whole low,
          tally-append p (map some (drop i e)) (map some (take i e)),
          tally-map p (drop i e),
          tally-map p (take i e),
        )
        (omega (arith, parts, joined))

clamp_weight-pos : (w : ℤ) → 0 < clamp_weight w
unfolding clamp_weight
clamp_weight-pos (pos w) = ground arith
clamp_weight-pos (negsuc w) = ground arith

-- The answers to `n` requests in a row for one pool.
abbrev pub round_robin_run : ℕ → RoundRobin → List Target → List (Option Target)
round_robin_run zero r pool = []
round_robin_run (suc n) r pool =
    (round_robin_pick r pool).1 ∷ round_robin_run n (round_robin_pick r pool).0 pool

run-visit :
    (n : ℕ) (r : RoundRobin) (t s : Target) (ts : List Target)
    → r.counter + n < 2 ^ 64
    → round_robin_run n r (t ∷ s ∷ ts) ≡ visit (expand_by_weight (t ∷ s ∷ ts)) (suc r.counter) n
unfolding round_robin_pick visit
run-visit zero r t s ts h = refl
run-visit (suc n) r t s ts h =
    let step : (r.counter + 1) % 2 ^ 64 ≡ suc r.counter = omega arith in
    rw step (
      ap (λ l. get_elem? e (suc r.counter % length e) ∷ l)
        (run-visit n (record { counter = suc r.counter }) t s ts (omega arith)))
  where
    e : List Target
    e = expand_by_weight (t ∷ s ∷ ts)

pub expand_by_weight-pos : (t : Target) (ts : List Target) → 0 < length (expand_by_weight (t ∷ ts))
unfolding expand_by_weight
expand_by_weight-pos t ts =
    let first : 0 < clamp_weight t.weight = clamp_weight-pos t.weight in
    ground (
      arith,
      length-append (replicate (clamp_weight t.weight) t) (slots ts),
      length-replicate (clamp_weight t.weight) t,
    )

-- How often a target with `p` is due in one round: once each where all weights are equal, and
-- else as often as its weight says, held between 1 and 100.
abbrev weighted : (Target → Bool) → List Target → ℕ
weighted p [] = 0
weighted p (t ∷ ts) = (if p t then clamp_weight t.weight else 0) + weighted p ts

abbrev pub share : (Target → Bool) → List Target → ℕ
share p pool = if all_equal pool then tally p pool else weighted p pool

tally-replicate :
    (p : Target → Bool) (n : ℕ) (t : Target) → tally p (replicate n t) ≡ (if p t then n else 0)
tally-replicate p zero t = ground arith
tally-replicate p (suc n) t = ground (arith, tally-replicate p n t)

tally-slots : (p : Target → Bool) (ts : List Target) → tally p (slots ts) ≡ weighted p ts
unfolding slots
tally-slots p [] = refl
tally-slots p (t ∷ ts) =
    tally-append p (replicate (clamp_weight t.weight) t) (slots ts)
    ∙ ap₂ ◌+◌ (tally-replicate p (clamp_weight t.weight) t) (tally-slots p ts)

tally-expand_by_weight :
    (p : Target → Bool) (ts : List Target) → tally p (expand_by_weight ts) ≡ share p ts
unfolding expand_by_weight
tally-expand_by_weight p ts = elim (Bool-cases (all_equal ts)) [
  | inl same ↦ rw same refl
  | inr other ↦ rw other (tally-slots p ts)
]

abbrev pub answers : (Target → Bool) → Option Target → Bool
answers p none = false
answers p (some t) = p t

-- Over one round, as many requests as the weighted list of a pool of two or more has slots, every
-- set of targets is picked exactly as often as its share says, wherever the counter stands, as
-- long as the counter does not wrap round within the round.
pub round_robin_share :
    (r : RoundRobin) (t s : Target) (ts : List Target) (p : Target → Bool)
    → r.counter + length (expand_by_weight (t ∷ s ∷ ts)) < 2 ^ 64
    → tally (answers p) (round_robin_run (length (expand_by_weight (t ∷ s ∷ ts))) r (t ∷ s ∷ ts))
      ≡ share p (t ∷ s ∷ ts)
round_robin_share r t s ts p h =
    ap (tally (answers p)) (run-visit _ r t s ts h)
    ∙ tally-round (answers p) (expand_by_weight (t ∷ s ∷ ts)) (suc r.counter)
        (expand_by_weight-pos t (s ∷ ts))
    ∙ tally-expand_by_weight p (t ∷ s ∷ ts)
