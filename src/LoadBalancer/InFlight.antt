-- ===== src/LoadBalancer/InFlight.antt =====
-- least_conn.go over a whole history of requests: Pick when one starts, Release when it ends.
use elite_gate.Prelude.{
  ℕ, zero, suc, ◌+◌, ◌≡◌, refl, ap, ◌-◌, List, [], ◌∷◌, ◌++◌, Option, none, some, arith, tally,
  tally-append,
}
use elite_gate.Text.{Text, text_eq}
use elite_gate.Text.Laws.{text_eq_iff}
use elite_gate.TextMap.{lookup, insert, lookup-insert, lookup-remove}
use elite_gate.LoadBalancer.{Target, LeastConn, load, or_zero, least_conn_pick, least_conn_release}

-- The balancer, and the targets of the requests that it has picked and not yet released.
pub record Serving : Type 0 where
  pub balancer : LeastConn
  pub open_requests : List Target

pub data Step (s : Serving) : Serving → Type 0 where
  starts :
      (pool : List Target) (next : LeastConn) (t : Target)
      → least_conn_pick s.balancer pool ≡ (next, some t)
      → Step s (record { balancer = next; open_requests = t ∷ s.open_requests })
  ends :
      (before after : List Target) (t : Target)
      → s.open_requests ≡ before ++ t ∷ after
      → Step s
          (record { balancer = least_conn_release s.balancer t; open_requests = before ++ after })

pub data Reach (s : Serving) : Serving → Type 0 where
  rest : Reach s s
  next : {t u : Serving} → Reach s t → Step t u → Reach s u

abbrev entry : ℕ → Option ℕ
entry zero = none
entry (suc n) = some (suc n)

abbrev pub opened : Text → List Target → ℕ
opened k = tally λ t. text_eq t.id k

-- A key is stored exactly while it has requests in flight, with their number.
abbrev pub IsExact : Serving → Type 0
IsExact s = (k : Text) → lookup k s.balancer.in_flight ≡ entry (opened k s.open_requests)

abbrev pub idle : Serving
idle = record { balancer = record { in_flight = [] }; open_requests = [] }

idle-IsExact : IsExact idle
unfolding lookup
idle-IsExact k = refl

-- A pick that answers `t` has added one to the entry of `t`.
pick-in_flight :
    (l next : LeastConn) (pool : List Target) (t : Target)
    → least_conn_pick l pool ≡ (next, some t)
    → next.in_flight ≡ insert t.id (or_zero (lookup t.id l.in_flight) + 1) l.in_flight
unfolding least_conn_pick load
pick-in_flight l n [] t e = cc
pick-in_flight l n (p ∷ ps) t e = cc

pick-IsExact :
    (s : Serving) (pool : List Target) (next : LeastConn) (t : Target)
    → least_conn_pick s.balancer pool ≡ (next, some t)
    → IsExact s
    → IsExact (record { balancer = next; open_requests = t ∷ s.open_requests })
pick-IsExact s pool n t e v k =
    rw (pick-in_flight s.balancer n pool t e, lookup-insert t.id k _ s.balancer.in_flight)
      (ground (arith, v t.id, v k, text_eq_iff t.id k))

release-IsExact :
    (s : Serving) (before after : List Target) (t : Target)
    → s.open_requests ≡ before ++ t ∷ after
    → IsExact s
    → IsExact
        (record { balancer = least_conn_release s.balancer t; open_requests = before ++ after })
unfolding least_conn_release
release-IsExact s before after t e v k = ground (
  arith,
  v t.id,
  v k,
  text_eq_iff t.id k,
  text_eq_iff t.id t.id,
  ap (opened k) e,
  ap (opened t.id) e,
  tally-append (λ x. text_eq x.id k) before (t ∷ after),
  tally-append (λ x. text_eq x.id k) before after,
  tally-append (λ x. text_eq x.id t.id) before (t ∷ after),
  lookup-insert t.id k (or_zero (lookup t.id s.balancer.in_flight) - 1) s.balancer.in_flight,
  lookup-remove t.id k s.balancer.in_flight,
)

pub Step-IsExact : {s u : Serving} → Step s u → IsExact s → IsExact u
Step-IsExact {s} (starts pool n t e) v = pick-IsExact s pool n t e v
Step-IsExact {s} (ends before after t e) v = release-IsExact s before after t e v

Reach-IsExact : {s : Serving} → Reach idle s → IsExact s
Reach-IsExact rest = idle-IsExact
Reach-IsExact (next r st) = Step-IsExact st (Reach-IsExact r)

-- After any sequence of picks and releases from an idle balancer, the count of each target is
-- the number of requests that were picked for its ID and not yet released.
pub Reach-load :
    {s : Serving} → Reach idle s → (t : Target) → load s.balancer t ≡ opened t.id s.open_requests
unfolding load
Reach-load r t = ground (arith, Reach-IsExact r t.id)
