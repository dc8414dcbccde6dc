-- ===== src/LoadBalancer/Examples.antt =====
-- The theorems at concrete pools.
use elite_gate.Prelude.{
  pos, ◌+◌, ◌≡◌, refl, List, [], ◌∷◌, some, none, Any, arith, tally, if◌then◌else◌,
}
use elite_gate.Text.{codes, text_eq}
use elite_gate.LoadBalancer.{
  Target, RoundRobin, LeastConn, expand_by_weight, least_conn_pick, least_conn_release, load,
  round_robin, pick, round_robin_pick,
}
use elite_gate.TextMap.{lookup, insert, remove}
use elite_gate.LoadBalancer.Choice.{pick_found}
use elite_gate.LoadBalancer.Fairness.{round_robin_run, answers, round_robin_share}
use elite_gate.LoadBalancer.LeastLoaded.{IsLeast, least_conn_pick_lem}
use elite_gate.LoadBalancer.InFlight.{Reach, rest, next, starts, ends, idle, Reach-load}

abbrev target_a : Target
target_a = record { id = codes "a"; url = codes "http://a"; weight = pos 3 }

abbrev target_b : Target
target_b = record { id = codes "b"; url = codes "http://b"; weight = pos 1 }

abbrev start : RoundRobin
start = record { counter = 6 }

round_robin_share_example :
    tally
      (answers (λ t. text_eq t.id (codes "a")))
      (round_robin_run 4 start (target_a ∷ target_b ∷ []))
    ≡ 3
unfolding round_robin_pick text_eq expand_by_weight
round_robin_share_example =
    round_robin_share start target_a target_b [] (λ t. text_eq t.id (codes "a")) (omega arith)

abbrev busy : LeastConn
busy = record { in_flight = (codes "a", 2) ∷ [] }

least_conn_pick_lem_example :
    (r : Target) × ((least_conn_pick busy (target_a ∷ target_b ∷ [])).1 ≡ some r)
    × IsLeast busy (target_a ∷ target_b ∷ []) r
    × ((s : Target)
        → load (least_conn_pick busy (target_a ∷ target_b ∷ [])).0 s
          ≡ (if text_eq r.id s.id then load busy s + 1 else load busy s))
least_conn_pick_lem_example = least_conn_pick_lem busy target_a (target_b ∷ [])

-- Two requests start and the first one ends.
history : Reach idle (record {
  balancer = record { in_flight = (codes "b", 1) ∷ [] };
  open_requests = target_b ∷ [];
})
unfolding least_conn_pick least_conn_release load lookup insert remove text_eq
history =
    next
      (next (next rest (starts (target_a ∷ target_b ∷ []) _ target_a refl))
        (starts (target_a ∷ target_b ∷ []) _ target_b refl))
      (ends (target_b ∷ []) [] target_a refl)

Reach-load_example : load (record { in_flight = (codes "b", 1) ∷ [] }) target_b ≡ 1
unfolding text_eq
Reach-load_example = Reach-load history target_b

pick_found_example :
    ((t : Target) (ts : List Target)
      → (x : Target) × ((pick (round_robin start) (t ∷ ts)).1 ≡ some x) × Any (λ y. y ≡ x) (t ∷ ts))
    × (pick (round_robin start) [] ≡ (round_robin start, none))
pick_found_example = pick_found (round_robin start)
