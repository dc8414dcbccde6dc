-- ===== src/RateLimit/Ideal.antt =====
-- What a sliding-window limiter promises: it keeps every request that it granted, and counts those
-- of the last window.
use elite_gate.Prelude.{
  ℕ, suc, ◌+◌, ◌-◌, ◌≤◌, Bool, true, false, ◌&&◌, List, [], ◌∷◌, if◌then◌else◌, leb, tally, ℤ,
  at_least,
}
use elite_gate.Text.{Text, text_eq}
use elite_gate.RateLimit.{
  sliding_window, remaining_of, Op, checks, counts, cleans, Answer, decided, counted, cleaned,
}

-- The granted requests, the newest first.
abbrev pub Log : Type 0
Log = List (Text × ℕ)

abbrev pub since : Text → ℕ → Text × ℕ → Bool
since key from (k, t) = text_eq k key && leb from t

-- The requests of `key` granted in the window that ends now.
abbrev pub in_window : Log → Text → ℕ → ℕ
in_window log key now = tally (since key (now - sliding_window)) log

abbrev decide : Log → ℕ → Text → ℤ → ℕ → Log × Answer
decide log now key limit n =
    if at_least n limit
    then (log, decided (record { allowed = false; remaining = 0; reset_at = now + sliding_window }))
    else (
      (key, now) ∷ log,
      decided (record {
        allowed = true;
        remaining = remaining_of limit (suc n);
        reset_at = now + sliding_window;
      }),
    )

unfoldable pub ideal_step : Log → ℕ × Op → Log × Answer
ideal_step log (now, checks key limit) = decide log now key limit (in_window log key now)
ideal_step log (now, counts key) = (log, counted (in_window log key now))
ideal_step log (now, cleans) = (log, cleaned)

unfoldable pub ideal_run : Log → List (ℕ × Op) → List Answer
ideal_run log [] = []
ideal_run log (e ∷ es) = (ideal_step log e).1 ∷ ideal_run (ideal_step log e).0 es

-- The times of the calls never fall.
abbrev pub IsTimely : ℕ → List (ℕ × Op) → Type 0
IsTimely last [] = Unit {0}
IsTimely last ((now, op) ∷ es) = (last ≤ now) × IsTimely now es
