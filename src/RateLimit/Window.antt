-- ===== src/RateLimit/Window.antt =====
-- memory_limiter.go over whole histories of calls: the requests granted in a window.
use elite_gate.Prelude.{
  ℕ, ◌+◌, ◌≤◌, ◌<◌, and_true, ◌≡◌, refl, ap, List, [], ◌∷◌, arith, leb, tally, true, false, Bool,
  ◌&&◌, if◌then◌else◌, ℤ, pos, negsuc, at_least, Bool-cases, inl, inr,
}
use elite_gate.Text.{Text, text_eq}
use elite_gate.Text.Laws.{text_eq_iff}
use elite_gate.RateLimit.{
  sliding_window, Op, checks, counts, cleans, Answer, decided, run, new_memory_limiter,
}
use elite_gate.RateLimit.Ideal.{Log, in_window, ideal_step, ideal_run, IsTimely}
use elite_gate.RateLimit.Refinement.{run-ideal_run}

-- The requests of `key` from `a` on, and no later than one window after it.
abbrev pub within : Text → ℕ → Text × ℕ → Bool
within key a (k, t) = text_eq k key && (leb a t && leb t (a + sliding_window))

-- What the answers granted, the newest first.
abbrev grant : ℕ × Op → Answer → Log → Log
grant (now, checks key limit) (decided r) log = if r.allowed then (key, now) ∷ log else log
grant _ _ log = log

abbrev pub granted : List (ℕ × Op) → List Answer → Log → Log
granted (e ∷ es) (a ∷ as') log = granted es as' (grant e a log)
granted _ _ log = log

-- No check of `key` asks for more than `l`.
abbrev IsAtMost : ℕ → ℤ → Type 0
IsAtMost l (pos n) = n ≤ l
IsAtMost l (negsuc n) = Unit {0}

abbrev OpIsAtMost : Text → ℕ → Op → Type 0
OpIsAtMost key l (checks k limit) = text_eq k key ≡ true → IsAtMost l limit
OpIsAtMost key l _ = Unit {0}

abbrev pub IsLimited : Text → ℕ → List (ℕ × Op) → Type 0
IsLimited key l [] = Unit {0}
IsLimited key l ((now, op) ∷ es) = OpIsAtMost key l op × IsLimited key l es

tally-within-le :
    (log : Log) (key : Text) (a now : ℕ)
    → now ≤ a + sliding_window
    → tally (within key a) log ≤ in_window log key now
tally-within-le [] key a now h = omega arith
tally-within-le ((k, t) ∷ log) key a now h = ground (arith, tally-within-le log key a now h)

abbrev Bounded : Text → ℕ → Log → Type 0
Bounded key l log = (a : ℕ) → tally (within key a) log ≤ l

lt_of_room : (n l : ℕ) (limit : ℤ) → at_least n limit ≡ false → IsAtMost l limit → n < l
lt_of_room n l (pos x) h c = ground arith
lt_of_room n l (negsuc x) h c = cc

-- A request that the window has room for keeps every window within the limit.
within_room :
    (key k : Text) (l : ℕ) (log : Log) (now : ℕ) (limit : ℤ) (a : ℕ)
    → OpIsAtMost key l (checks k limit)
    → at_least (in_window log k now) limit ≡ false
    → tally (within key a) log ≤ l
    → tally (within key a) ((k, now) ∷ log) ≤ l
within_room key k l log now limit a h room b = elim (Bool-cases (within key a (k, now))) [
  | inr outside ↦ rw outside (omega arith)
  | inl inside ↦
      let same : text_eq k key ≡ true = (and_true (text_eq k key) _ inside).0 in
      let late : now ≤ a + sliding_window = ground arith in
      let below : in_window log k now < l =
        lt_of_room (in_window log k now) l limit room (h same) in
      let moved : in_window log k now ≡ in_window log key now =
        ap (λ j. in_window log j now) ((text_eq_iff k key).0 same) in
      rw inside (omega (arith, tally-within-le log key a now late, below, moved))
]

ideal_step-Bounded :
    (key : Text) (l : ℕ) (log : Log) (now : ℕ) (op : Op)
    → OpIsAtMost key l op
    → Bounded key l log
    → Bounded key l (grant (now, op) (ideal_step log (now, op)).1 log)
      × ((ideal_step log (now, op)).0 ≡ grant (now, op) (ideal_step log (now, op)).1 log)
unfolding ideal_step
ideal_step-Bounded key l log now (counts k) h b = (b, refl)
ideal_step-Bounded key l log now cleans h b = (b, refl)
ideal_step-Bounded key l log now (checks k limit) h b =
    elim (Bool-cases (at_least (in_window log k now) limit)) [
      | inl full ↦ rw full (b, refl)
      | inr room ↦ rw room (λ a. within_room key k l log now limit a h room (b a), refl)
    ]

ideal_run-Bounded :
    (key : Text) (l : ℕ) (log : Log) (es : List (ℕ × Op))
    → IsLimited key l es
    → Bounded key l log
    → Bounded key l (granted es (ideal_run log es) log)
unfolding ideal_run
ideal_run-Bounded key l log [] h b = b
ideal_run-Bounded key l log ((now, op) ∷ es) (p, h) b =
    let (kept, same) = ideal_step-Bounded key l log now op p b in
    rw same (ideal_run-Bounded key l (grant (now, op) (ideal_step log (now, op)).1 log) es h kept)

-- While the clock does not run backwards, no stretch of 60 seconds, wherever it starts, holds more
-- granted requests of a key than the largest limit that the key is checked with.
pub granted_at_most :
    (rpm : ℤ) (es : List (ℕ × Op)) (key : Text) (l a : ℕ)
    → IsTimely 0 es
    → IsLimited key l es
    → tally (within key a) (granted es (run (new_memory_limiter rpm) es) []) ≤ l
granted_at_most rpm es key l a timely limited =
    rw (run-ideal_run rpm es timely) (ideal_run-Bounded key l [] es limited (λ c. omega arith) a)
