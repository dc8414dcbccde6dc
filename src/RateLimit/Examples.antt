-- ===== src/RateLimit/Examples.antt =====
-- The theorems at a concrete history, and runs of the limiter.
use elite_gate.Prelude.{ℕ, ◌+◌, ◌≤◌, ◌≡◌, refl, List, [], ◌∷◌, arith, tally, pos, true, false}
use elite_gate.Text.{Text, codes, text_eq}
use elite_gate.TextMap.{lookup, insert, refresh}
use elite_gate.RateLimit.{
  Op, checks, counts, cleans, run, step, new_memory_limiter, decided, counted, cleaned,
  sliding_window,
}
use elite_gate.RateLimit.Ideal.{ideal_run}
use elite_gate.RateLimit.Refinement.{run-ideal_run}
use elite_gate.RateLimit.Window.{within, granted, granted_at_most}

abbrev key : Text
key = codes "10.0.0.1:/x"

-- One request a minute: the second one is refused, and the third one comes late enough.
abbrev history : List (ℕ × Op)
history =
    (5, checks key (pos 1))
    ∷ (7, checks key (pos 1))
    ∷ (9, cleans)
    ∷ (6 + sliding_window, checks key (pos 1))
    ∷ (6 + sliding_window, counts key)
    ∷ []

history_answers :
    run (new_memory_limiter (pos 1)) history
    ≡ decided (record { allowed = true; remaining = 0; reset_at = 5 + sliding_window })
      ∷ decided (record { allowed = false; remaining = 0; reset_at = 7 + sliding_window })
      ∷ cleaned
      ∷ decided
          (record { allowed = true; remaining = 0; reset_at = 6 + sliding_window + sliding_window })
      ∷ counted 1
      ∷ []
unfolding run step new_memory_limiter lookup insert refresh text_eq
history_answers = refl

run-ideal_run_example : run (new_memory_limiter (pos 1)) history ≡ ideal_run [] history
run-ideal_run_example = run-ideal_run (pos 1) history (omega arith)

granted_at_most_example :
    tally (within key 6) (granted history (run (new_memory_limiter (pos 1)) history) []) ≤ 1
unfolding text_eq
granted_at_most_example = granted_at_most (pos 1) history key 1 6 (omega arith) (omega arith)
