-- ===== src/LoadBalancer.antt =====
-- internal/gateway/loadbalancer: the two strategies that pick a backend.
-- An int is a `ℤ`; a mutex makes each call one step.
pub mod Fairness
pub mod LeastLoaded
pub mod Choice
pub mod InFlight
mod Examples
use elite_gate.Prelude.{
  ℕ, zero, suc, ◌+◌, ◌-◌, ◌%◌, ◌^◌, Bool, true, false, ◌&&◌, ◌||◌, List, [], ◌∷◌, ◌++◌, Option,
  none, some, if◌then◌else◌, ltb, leb, ◌==◌, length, get_elem?, replicate, all, ℤ, pos, negsuc,
  int_eq,
}
use elite_gate.Text.{Text, text_eq, codes}
use elite_gate.TextMap.{TextMap, lookup, insert, remove}

pub record Target : Type 0 where
  pub id : Text
  pub url : Text
  pub weight : ℤ

-- The counter is an atomic uint64.
pub record RoundRobin : Type 0 where
  pub counter : ℕ

abbrev pub max_weight : ℕ
max_weight = 100

-- The weight between 1 and `max_weight`.
unfoldable pub clamp_weight : ℤ → ℕ
clamp_weight (negsuc _) = 1
clamp_weight (pos w) = if ltb w 1 then 1 else if ltb max_weight w then max_weight else w

unfoldable pub slots : List Target → List Target
slots [] = []
slots (t ∷ ts) = replicate (clamp_weight t.weight) t ++ slots ts

abbrev all_equal : List Target → Bool
all_equal [] = true
all_equal (t ∷ ts) = all (λ s. int_eq s.weight t.weight) ts

unfoldable pub expand_by_weight : List Target → List Target
unfolding slots clamp_weight
expand_by_weight pool = if all_equal pool then pool else slots pool

-- `none` is ErrNoHealthyTargets.
unfoldable pub round_robin_pick : RoundRobin → List Target → RoundRobin × Option Target
unfolding expand_by_weight
round_robin_pick r [] = (r, none)
round_robin_pick r (t ∷ []) = (r, some t)
round_robin_pick r (t ∷ s ∷ ts) =
    let expanded = expand_by_weight (t ∷ s ∷ ts) in
    let next = (r.counter + 1) % 2 ^ 64 in
    (record { counter = next }, get_elem? expanded (next % length expanded))

-- Requests in flight for each Target.ID; an absent key counts 0.
pub record LeastConn : Type 0 where
  pub in_flight : TextMap ℕ

abbrev or_zero : Option ℕ → ℕ
or_zero none = 0
or_zero (some c) = c

unfoldable pub load : LeastConn → Target → ℕ
load l t = or_zero (lookup t.id l.in_flight)

-- The loop over pool[1:].
unfoldable pub least_loaded : LeastConn → Target → ℕ → List Target → Target
least_loaded l best best_count [] = best
least_loaded l best best_count (t ∷ ts) =
    let c = load l t in
    least_loaded l (if ltb c best_count then t else best)
      (if ltb c best_count then c else best_count) ts

unfoldable pub least_conn_pick : LeastConn → List Target → LeastConn × Option Target
unfolding least_loaded
least_conn_pick l [] = (l, none)
least_conn_pick l (t ∷ ts) =
    let best = least_loaded l t (load l t) ts in
    (record { in_flight = insert best.id (load l best + 1) l.in_flight }, some best)

abbrev lowered : LeastConn → Target → Option ℕ → LeastConn
lowered l t none = l
lowered l t (some c) =
    if leb c 1
    then record { in_flight = remove t.id l.in_flight }
    else record { in_flight = insert t.id (c - 1) l.in_flight }

unfoldable pub least_conn_release : LeastConn → Target → LeastConn
least_conn_release l t = lowered l t (lookup t.id l.in_flight)

-- The interface Strategy over its two implementations.
pub data Strategy : Type 0 where
  round_robin : RoundRobin → Strategy
  least_conn : LeastConn → Strategy

unfoldable pub new_strategy : Text → Strategy
new_strategy name =
    if text_eq name (codes "least_conn")
    then least_conn (record { in_flight = [] })
    else round_robin (record { counter = 0 })

unfoldable pub strategy_name : Strategy → Text
strategy_name (round_robin _) = codes "round_robin"
strategy_name (least_conn _) = codes "least_conn"

abbrev tag {ℓ κ} : {A : Type ℓ} {B : Type κ} → (A → Strategy) → A × B → Strategy × B
tag f (a, b) = (f a, b)

unfoldable pub pick : Strategy → List Target → Strategy × Option Target
unfolding round_robin_pick least_conn_pick
pick (round_robin r) pool = tag round_robin (round_robin_pick r pool)
pick (least_conn l) pool = tag least_conn (least_conn_pick l pool)

unfoldable pub release : Strategy → Target → Strategy
unfolding least_conn_release
release (round_robin r) t = round_robin r
release (least_conn l) t = least_conn (least_conn_release l t)
