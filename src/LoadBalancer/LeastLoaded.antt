-- ===== src/LoadBalancer/LeastLoaded.antt =====
-- least_conn.go, Pick: which target of the pool it chooses.
use elite_gate.Prelude.{
  ◌+◌, ◌<◌, ◌≤◌, ◌≡◌, refl, ◌⊎◌, inl, inr, List, [], ◌∷◌, ◌++◌, some, arith, ltb, Bool-cases, All,
  ap, if◌then◌else◌, ltb→lt,
}
use elite_gate.Text.{text_eq}
use elite_gate.Text.Laws.{text_eq_iff}
use elite_gate.TextMap.{lookup, insert, lookup-insert}
use elite_gate.LoadBalancer.{Target, LeastConn, load, or_zero, least_loaded, least_conn_pick}

-- The first target of the pool with the fewest requests in flight.
pub record IsLeast (l : LeastConn) (pool : List Target) (t : Target) : Type 0 where
  pub before : List Target
  pub after : List Target
  pub stands : pool ≡ before ++ t ∷ after
  pub fewer : All (λ s. load l t < load l s) before
  pub fewest : All (λ s. load l t ≤ load l s) after

module _ (l : LeastConn) where
  -- Where the loop ends, from the best so far.
  abbrev Found : Target → List Target → Target → Type 0
  Found b ts r =
      ((r ≡ b) × All (λ s. load l b ≤ load l s) ts) ⊎ (IsLeast l ts r × (load l r < load l b))

  All-weaken :
      (b r : Target) (ts : List Target)
      → load l r < load l b
      → All (λ s. load l b ≤ load l s) ts
      → All (λ s. load l r < load l s) ts
  All-weaken b r [] h a = tt
  All-weaken b r (t ∷ ts) h (p, a) = (omega arith, All-weaken b r ts h a)

  least_loaded-Found : (b : Target) (ts : List Target) → Found b ts (least_loaded l b (load l b) ts)
  unfolding least_loaded
  least_loaded-Found b [] = inl (refl, tt)
  least_loaded-Found b (t ∷ ts) = elim (Bool-cases (ltb (load l t) (load l b))) [
    | inl less ↦ rw less (inr (take_over (ltb→lt _ _ less) (least_loaded-Found t ts)))
    | inr more ↦ rw more (pass_by (ground arith) (least_loaded-Found b ts))
  ]
    where
      take_over :
          {r : Target}
          → load l t < load l b
          → Found t ts r
          → IsLeast l (t ∷ ts) r × (load l r < load l b)
      take_over h (inl (e, a)) =
          rw e (record { before = []; after = ts; stands = refl; fewer = tt; fewest = a }, h)
      take_over h (inr (v, k)) = (
        record {
          before = t ∷ v.before;
          after = v.after;
          stands = ap (λ r. t ∷ r) v.stands;
          fewer = (k, v.fewer);
          fewest = v.fewest;
        },
        omega arith,
      )

      pass_by : {r : Target} → load l b ≤ load l t → Found b ts r → Found b (t ∷ ts) r
      pass_by h (inl (e, a)) = inl (e, (h, a))
      pass_by h (inr (v, k)) = inr (
        record {
          before = t ∷ v.before;
          after = v.after;
          stands = ap (λ r. t ∷ r) v.stands;
          fewer = (omega arith, v.fewer);
          fewest = v.fewest;
        },
        k,
      )

  pub chosen-IsLeast :
      (b : Target) (ts : List Target) → IsLeast l (b ∷ ts) (least_loaded l b (load l b) ts)
  chosen-IsLeast b ts = close (least_loaded-Found b ts)
    where
      close : {r : Target} → Found b ts r → IsLeast l (b ∷ ts) r
      close (inl (e, a)) =
          rw e (record { before = []; after = ts; stands = refl; fewer = tt; fewest = a })
      close (inr (v, k)) = record {
        before = b ∷ v.before;
        after = v.after;
        stands = ap (λ r. b ∷ r) v.stands;
        fewer = (k, v.fewer);
        fewest = v.fewest;
      }

bump-load :
    (l : LeastConn) (r s : Target)
    → load (record { in_flight = insert r.id (load l r + 1) l.in_flight }) s
      ≡ (if text_eq r.id s.id then load l s + 1 else load l s)
unfolding load
bump-load l r s = elim (Bool-cases (text_eq r.id s.id)) [
  | inl same ↦
      rw (lookup-insert r.id s.id (load l r + 1) l.in_flight, same)
        (ap (λ k. or_zero (lookup k l.in_flight) + 1) ((text_eq_iff r.id s.id).0 same))
  | inr other ↦ rw (lookup-insert r.id s.id (load l r + 1) l.in_flight, other) refl
]

-- What least_conn hands out for a pool that is not empty is the first target with the fewest
-- requests in flight, and only the count of that target's ID changes, by one.
pub least_conn_pick_lem :
    (l : LeastConn) (t : Target) (ts : List Target)
    → (r : Target) × ((least_conn_pick l (t ∷ ts)).1 ≡ some r)
      × IsLeast l (t ∷ ts) r
      × ((s : Target)
          → load (least_conn_pick l (t ∷ ts)).0 s
            ≡ (if text_eq r.id s.id then load l s + 1 else load l s))
unfolding least_conn_pick
least_conn_pick_lem l t ts =
    (_, refl, chosen-IsLeast l t ts, bump-load l (least_loaded l t (load l t) ts))
