-- ===== src/Router/Exact.antt =====
-- matcher.go, MatchHTTP: the routes with the very path of the request.
use elite_gate.Prelude.{
  ℕ, ◌+◌, ◌<◌, ◌≤◌, ◌≡◌, inl, inr, refl, sym, Bool, true, false, List, [], ◌∷◌, ◌++◌, some,
  if◌then◌else◌, pos, negsuc, All, Any, here, there, arith, length,
}
use mathlib.Core.Path.{subst}
use elite_gate.Text.{Text, Unicode, text_eq}
use elite_gate.Text.Laws.{text_eq_iff}
use elite_gate.Router.{Route, is_candidate, match_score, match_http}
use elite_gate.Router.Best.{shift, rank, IsFirstBest, match_http_lem}

weaken : (a b : ℕ) → a < b → a ≤ b
weaken a b h = omega arith

above : (a b : ℕ) → 1000000 < a → a ≤ b → 1000000 < b
above a b h k = omega arith

too_high : (a : ℕ) → 1000000 < a → a ≤ 0 → ⊥
too_high a h k = omega arith

best_of_All :
    (value : Route → ℕ) (best : Route) (before after : List Route)
    → All (λ s. value s < value best) before
    → All (λ s. value s ≤ value best) after
    → All (λ s. value s ≤ value best) (before ++ best ∷ after)
best_of_All value best [] after v w = (omega arith, w)
best_of_All value best (s ∷ before) after (p, v) w =
    (weaken _ _ p, best_of_All value best before after v w)

-- Of the four outcomes of a score only the exact one is above a million.
only_exact :
    (c e p q : Bool) (n : ℕ)
    → n < 500000
    → 1000000 < (
        if c
        then shift (
            if e
            then pos (1000000 + n)
            else if p
            then pos (500000 + n)
            else if q
            then pos n
            else negsuc 0)
        else 0)
    → e ≡ true
only_exact c true p q n l h = refl
only_exact false false p q n l h = absurd (omega arith)
only_exact true false true q n l h = absurd (omega arith)
only_exact true false false true n l h = absurd (omega arith)
only_exact true false false false n l h = absurd (omega arith)

module _ (u : Unicode) (path method : Text) where
  IsExact-rank :
      (s : Route)
      → is_candidate u method s ≡ true
      → text_eq s.path path ≡ true
      → 1000000 < rank u path method s
  unfolding match_score
  IsExact-rank s c e = rw (c, e) (omega arith)

  rank-IsExact :
      (r : Route)
      → length r.path < 500000
      → 1000000 < rank u path method r
      → text_eq r.path path ≡ true
  unfolding match_score
  rank-IsExact r l h = only_exact _ _ _ _ (length r.path) l h

  candidate_wins :
      (routes : List Route) (r : Route)
      → All (λ s. length s.path < 500000) routes
      → All (λ s. rank u path method s ≤ rank u path method r) routes
      → Any (λ s. (is_candidate u method s ≡ true) × (s.path ≡ path)) routes
      → 1000000 < rank u path method r
  candidate_wins (s ∷ routes) r (l, short) (h, v) (here (c, e)) =
      above _ _ (IsExact-rank s c ((text_eq_iff s.path path).1 e)) h
  candidate_wins (s ∷ routes) r (l, short) (h, v) (there m) = candidate_wins routes r short v m
  candidate_wins [] r short v m = elim m [ ]

  is_short :
      (before after : List Route) (r : Route)
      → All (λ s. length s.path < 500000) (before ++ r ∷ after)
      → length r.path < 500000
  is_short [] after r (l, v) = l
  is_short (s ∷ before) after r (l, v) = is_short before after r v

  first_best_wins :
      (routes : List Route) (r : Route)
      → All (λ s. length s.path < 500000) routes
      → IsFirstBest (rank u path method) 0 routes r
      → Any (λ s. (is_candidate u method s ≡ true) × (s.path ≡ path)) routes
      → r.path ≡ path
  first_best_wins routes r short v m = (text_eq_iff r.path path).0 (
      rank-IsExact r
        (is_short v.before v.after r (subst (All (λ s. length s.path < 500000)) v.stands short))
        (candidate_wins routes r short
          (subst (All (λ s. rank u path method s ≤ rank u path method r)) (sym v.stands)
            (best_of_All (rank u path method) r v.before v.after v.first v.highest))
          m))

  none_candidate :
      (routes : List Route)
      → All (λ s. rank u path method s ≤ 0) routes
      → Any (λ s. (is_candidate u method s ≡ true) × (s.path ≡ path)) routes
      → ⊥
  none_candidate (s ∷ routes) (h, v) (here (c, e)) =
      too_high _ (IsExact-rank s c ((text_eq_iff s.path path).1 e)) h
  none_candidate (s ∷ routes) (h, v) (there m) = none_candidate routes v m
  none_candidate [] v m = elim m [ ]

-- When an enabled HTTP route that allows the method has the very path of the request, MatchHTTP
-- answers a route with that path, whatever parametric and prefix routes there are and in whatever
-- order. The paths of the routes are shorter than 500000 bytes.
pub exact_path_wins :
    (u : Unicode) (path method : Text) (routes : List Route)
    → All (λ s. length s.path < 500000) routes
    → Any (λ s. (is_candidate u method s ≡ true) × (s.path ≡ path)) routes
    → (r : Route) × (match_http u path method routes ≡ some r) × (r.path ≡ path)
exact_path_wins u path method routes short m = elim (match_http_lem u path method routes) [
  | inl (e, v) ↦ absurd (none_candidate u path method routes v m)
  | inr (r, e, v) ↦ (r, e, first_best_wins u path method routes r short v m)
]
