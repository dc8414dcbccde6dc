-- ===== src/Router/Best.antt =====
-- matcher.go, MatchHTTP: the route that the loop ends with.
use elite_gate.Prelude.{
  ℕ, suc, ◌+◌, ◌<◌, ◌≤◌, ◌≡◌, ◌⊎◌, inl, inr, refl, sym, ap, Bool, true, false, ◌&&◌, not, List, [],
  ◌∷◌, ◌++◌, Option, none, some, if◌then◌else◌, ℤ, pos, negsuc, int_le, leb, All, arith, length,
  Bool-cases,
}
use mathlib.Core.Path.{subst}
use elite_gate.Text.{Text, Unicode, text_eq, codes, has_byte}
use elite_gate.Router.{
  Route, match_parametric, match_boundary_prefix, is_candidate, match_score, consider, consider_all,
  match_http,
}

-- Scores from 0 on: -1 is 0.
abbrev pub shift : ℤ → ℕ
shift (pos n) = suc n
shift (negsuc _) = 0

-- 0 for a route that cannot serve the request, and else its score and one.
abbrev pub rank : Unicode → Text → Text → Route → ℕ
rank u path method rt = if is_candidate u method rt then shift (match_score rt path) else 0

-- The first of the routes with the highest rank, where that is above a bound.
pub record IsFirstBest (value : Route → ℕ) (bound : ℕ) (routes : List Route) (best : Route)
    : Type 0 where
  pub before : List Route
  pub after : List Route
  pub stands : routes ≡ before ++ best ∷ after
  pub above : bound < value best
  pub first : All (λ s. value s < value best) before
  pub highest : All (λ s. value s ≤ value best) after

below_above : (a b c : ℕ) → a ≤ b → b < c → a < c
below_above a b c h k = omega arith

above_above : (a b c : ℕ) → a < b → b < c → a < c
above_above a b c h k = omega arith

-- The scores of the matcher are -1 and the numbers from 0 on.
data IsScore : ℤ → Type 0 where
  misses : IsScore (negsuc 0)
  scores : (n : ℕ) → IsScore (pos n)

if-IsScore : (b : Bool) (n : ℕ) {z : ℤ} → IsScore z → IsScore (if b then pos n else z)
if-IsScore true n v = scores _
if-IsScore false n v = v

match_score-IsScore : (rt : Route) (path : Text) → IsScore (match_score rt path)
unfolding match_score
match_score-IsScore rt path = if-IsScore (text_eq rt.path path) _ (
    if-IsScore (has_byte b':' rt.path && match_parametric rt.path path) (500000 + length rt.path) (
      if-IsScore (not (text_eq rt.match_type (codes "exact")) && match_boundary_prefix rt.path path)
        (length rt.path) misses))

-- A turn of the loop keeps the best route, or takes a route that ranks higher.
abbrev Turned : Option Route × ℤ → Route → ℤ → ℕ → Option Route × ℤ → Type 0
Turned best rt score k next =
    ((k ≤ shift best.1) × (next ≡ best))
    ⊎ ((shift best.1 < k) × (next ≡ (some rt, score)) × (shift score ≡ k))

turn_at :
    (c : Bool) (score b : ℤ) (o : Option Route) (rt : Route)
    → IsScore score
    → IsScore b
    → Turned
        (o, b)
        rt
        score
        (if c then shift score else 0)
        (if not c then (o, b) else if int_le score b then (o, b) else (some rt, score))
turn_at false score b o rt v w = inl (omega arith, refl)
turn_at true _ _ o rt misses misses = inl (omega arith, refl)
turn_at true _ _ o rt misses (scores n) = inl (omega arith, refl)
turn_at true _ _ o rt (scores m) misses = inr (omega arith, refl, refl)
turn_at true _ _ o rt (scores m) (scores n) = elim (Bool-cases (leb m n)) [
  | inl e ↦ inl (ground (arith, e), rw e refl)
  | inr e ↦ inr (ground (arith, e), rw e refl, refl)
]

-- The loop ends with the best route so far and nothing above it, or with the first highest.
abbrev Ended : (Route → ℕ) → Option Route → ℕ → List Route → Option Route → Type 0
Ended value best bound routes result =
    ((result ≡ best) × All (λ s. value s ≤ bound) routes)
    ⊎ ((r : Route) × (result ≡ some r) × IsFirstBest value bound routes r)

-- The routes that follow a turn which kept the best.
Ended-keep :
    (value : Route → ℕ) (o : Option Route) (bound : ℕ) (rt : Route) (rts : List Route)
    (result : Option Route)
    → value rt ≤ bound
    → Ended value o bound rts result
    → Ended value o bound (rt ∷ rts) result
Ended-keep value o bound rt rts result h (inl (e, v)) = inl (e, (h, v))
Ended-keep value o bound rt rts result h (inr (r, e, v)) = inr (
  r,
  e,
  record {
    before = rt ∷ v.before;
    after = v.after;
    stands = ap (λ xs. rt ∷ xs) v.stands;
    above = v.above;
    first = (below_above _ _ _ h v.above, v.first);
    highest = v.highest;
  },
)

-- The routes that follow a turn which took the route.
Ended-take :
    (value : Route → ℕ) (o : Option Route) (bound : ℕ) (rt : Route) (rts : List Route)
    (result : Option Route)
    → bound < value rt
    → Ended value (some rt) (value rt) rts result
    → Ended value o bound (rt ∷ rts) result
Ended-take value o bound rt rts result h (inl (e, v)) =
    inr (
      rt,
      e,
      record { before = []; after = rts; stands = refl; above = h; first = tt; highest = v },
    )
Ended-take value o bound rt rts result h (inr (r, e, v)) = inr (
  r,
  e,
  record {
    before = rt ∷ v.before;
    after = v.after;
    stands = ap (λ xs. rt ∷ xs) v.stands;
    above = above_above _ _ _ h v.above;
    first = (v.above, v.first);
    highest = v.highest;
  },
)

module _ (u : Unicode) (path method : Text) where
  abbrev Loop : Option Route × ℤ → List Route → Type 0
  Loop best rts =
      Ended (rank u path method) best.0 (shift best.1) rts (consider_all u path method best rts).0

  Loop-Turned :
      (best : Option Route × ℤ) (rt : Route) (rts : List Route)
      → ((next : Option Route × ℤ) → IsScore next.1 → Loop next rts)
      → IsScore best.1
      → Turned best rt
          (match_score rt path)
          (rank u path method rt)
          (consider u path method best rt)
      → Loop best (rt ∷ rts)
  unfolding consider_all
  Loop-Turned best rt rts go v (inl (h, e)) = Ended-keep _ _ _ rt rts _ h (
      subst
        (λ n.
          Ended (rank u path method) best.0 (shift best.1) rts (consider_all u path method n rts).0)
        (sym e) (go best v))
  Loop-Turned best rt rts go v (inr (h, e, k)) = Ended-take _ _ _ rt rts _ h (
      subst
        (λ n.
          Ended (rank u path method) (some rt) (rank u path method rt) rts
            (consider_all u path method n rts).0)
        (sym e)
        (subst
          (λ b.
            Ended (rank u path method) (some rt) b rts
              (consider_all u path method (some rt, match_score rt path) rts).0)
          k (go (some rt, match_score rt path) (match_score-IsScore rt path))))

  loop : (best : Option Route × ℤ) (rts : List Route) → IsScore best.1 → Loop best rts
  unfolding consider_all consider
  loop best [] v = inl (refl, tt)
  loop (o, b) (rt ∷ rts) v =
      Loop-Turned (o, b) rt rts (λ next w. loop next rts w) v
        (turn_at (is_candidate u method rt) (match_score rt path) b o rt
          (match_score-IsScore rt path) v)

-- MatchHTTP answers no route exactly when no enabled HTTP route that allows the method scores, and
-- else the first of the routes with the highest score.
pub match_http_lem :
    (u : Unicode) (path method : Text) (routes : List Route)
    → ((match_http u path method routes ≡ none) × All (λ s. rank u path method s ≤ 0) routes)
      ⊎ ((r : Route) × (match_http u path method routes ≡ some r)
          × IsFirstBest (rank u path method) 0 routes r)
unfolding match_http
match_http_lem u path method routes = loop u path method (none, negsuc 0) routes misses
