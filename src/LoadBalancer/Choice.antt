-- ===== src/LoadBalancer/Choice.antt =====
-- loadbalancer.go: what Pick answers, for both strategies.
use native.Mathlib.Nat.{mod-lt}
use elite_gate.Prelude.{
  ℕ, zero, suc, ◌+◌, ◌%◌, ◌^◌, ◌<◌, ◌≡◌, refl, List, [], ◌∷◌, ◌++◌, some, none, arith, length,
  replicate, get_elem?, Any, here, there, Bool-cases, ◌⊎◌, inl, inr,
}
use elite_gate.LoadBalancer.{
  Target, RoundRobin, Strategy, round_robin, least_conn, slots, clamp_weight, expand_by_weight,
  all_equal, round_robin_pick, least_conn_pick, pick, LeastConn,
}
use elite_gate.LoadBalancer.Fairness.{expand_by_weight-pos}
use elite_gate.LoadBalancer.LeastLoaded.{IsLeast, least_conn_pick_lem}

get_elem?-Any :
    (e : List Target) (i : ℕ)
    → i < length e
    → (x : Target) × (get_elem? e i ≡ some x) × Any (λ y. y ≡ x) e
get_elem?-Any [] i h = elim h [ ]
get_elem?-Any (x ∷ e) zero h = (x, refl, here refl)
get_elem?-Any (x ∷ e) (suc i) h =
    let (y, found, m) = get_elem?-Any e i (omega arith) in (y, found, there m)

Any-append_left {ℓ κ} :
    {A : Type ℓ} {P : A → Type κ} {xs : List A} (ys : List A) → Any P xs → Any P (xs ++ ys)
Any-append_left ys (here p) = here p
Any-append_left ys (there m) = there (Any-append_left ys m)

Any-append_right {ℓ κ} :
    {A : Type ℓ} {P : A → Type κ} (xs : List A) {ys : List A} → Any P ys → Any P (xs ++ ys)
Any-append_right [] m = m
Any-append_right (x ∷ xs) m = there (Any-append_right xs m)

Any-split {ℓ κ} :
    {A : Type ℓ} {P : A → Type κ} (xs : List A) {ys : List A}
    → Any P (xs ++ ys)
    → Any P xs ⊎ Any P ys
Any-split [] m = inr m
Any-split (x ∷ xs) (here p) = inl (here p)
Any-split (x ∷ xs) (there m) = elim (Any-split xs m) [ inl a ↦ inl (there a) | inr b ↦ inr b ]

Any-replicate : {x : Target} (n : ℕ) (t : Target) → Any (λ y. y ≡ x) (replicate n t) → t ≡ x
Any-replicate zero t m = elim m [ ]
Any-replicate (suc n) t (here e) = e
Any-replicate (suc n) t (there m) = Any-replicate n t m

slots-Any : {x : Target} (ts : List Target) → Any (λ y. y ≡ x) (slots ts) → Any (λ y. y ≡ x) ts
unfolding slots
slots-Any [] m = elim m [ ]
slots-Any (t ∷ ts) m = elim (Any-split (replicate (clamp_weight t.weight) t) m) [
  | inl a ↦ here (Any-replicate (clamp_weight t.weight) t a)
  | inr b ↦ there (slots-Any ts b)
]

expand_by_weight-Any :
    {x : Target} (ts : List Target) → Any (λ y. y ≡ x) (expand_by_weight ts) → Any (λ y. y ≡ x) ts
unfolding expand_by_weight
expand_by_weight-Any ts m = elim (Bool-cases (all_equal ts)) [
  | inl same ↦ rw same at m
  | inr other ↦ slots-Any ts (rw other at m)
]

round_robin_pick_found :
    (r : RoundRobin) (t : Target) (ts : List Target)
    → (x : Target) × ((round_robin_pick r (t ∷ ts)).1 ≡ some x) × Any (λ y. y ≡ x) (t ∷ ts)
unfolding round_robin_pick
round_robin_pick_found r t [] = (t, refl, here refl)
round_robin_pick_found r t (s ∷ ts) =
    let pool = t ∷ s ∷ ts in
    let (x, found, m) =
      get_elem?-Any (expand_by_weight pool)
        ((r.counter + 1) % 2 ^ 64 % length (expand_by_weight pool))
        (mod-lt _ (expand_by_weight-pos t (s ∷ ts))) in
    (x, found, expand_by_weight-Any pool m)

IsLeast-Any :
    (l : LeastConn) (pool : List Target) (t : Target) → IsLeast l pool t → Any (λ y. y ≡ t) pool
IsLeast-Any l pool t v = rw v.stands (Any-append_right v.before (here refl))

-- A pool with a target always gets an answer, whatever the strategy and its state, and the answer
-- is a target of the pool; an empty pool gets ErrNoHealthyTargets and changes no state.
pub pick_found :
    (s : Strategy)
    → ((t : Target) (ts : List Target)
        → (x : Target) × ((pick s (t ∷ ts)).1 ≡ some x) × Any (λ y. y ≡ x) (t ∷ ts))
      × (pick s [] ≡ (s, none))
unfolding pick round_robin_pick least_conn_pick
pick_found (round_robin r) = (λ t ts. round_robin_pick_found r t ts, refl)
pick_found (least_conn l) = (
  λ t ts.
      let (x, found, least, _) = least_conn_pick_lem l t ts in
      (x, found, IsLeast-Any l (t ∷ ts) x least),
  refl,
)
