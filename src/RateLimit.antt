-- ===== src/RateLimit.antt =====
-- internal/ratelimit/memory_limiter.go: the in-memory sliding window.
-- A time.Time is a number of nanoseconds, so a cutoff before time 0 is 0; the clock is an argument
-- of each call. The mutex makes each call one step.
pub mod Rising
pub mod Ideal
pub mod Refinement
pub mod Window
mod Examples
use elite_gate.Prelude.{
  ℕ, suc, ◌+◌, ◌-◌, ◌*◌, ◌^◌, Bool, true, false, List, [], ◌∷◌, ◌++◌, Option, none, some,
  if◌then◌else◌, ltb, length, ℤ, pos, negsuc, at_least,
}
use elite_gate.Text.{Text}
use elite_gate.TextMap.{TextMap, lookup, insert, refresh}

pub record MemoryLimiter : Type 0 where
  pub requests : TextMap (List ℕ)
  pub requests_per_min : ℤ

pub record RateResult : Type 0 where
  pub allowed : Bool
  pub remaining : ℕ
  pub reset_at : ℕ

-- 60 * time.Second
abbrev pub sliding_window : ℕ
sliding_window = 60 * 10 ^ 9

unfoldable pub new_memory_limiter : ℤ → MemoryLimiter
new_memory_limiter rpm = record { requests = []; requests_per_min = rpm }

-- Drops the leading timestamps before the cutoff.
unfoldable pub trim : List ℕ → ℕ → List ℕ
trim [] cutoff = []
trim (e ∷ es) cutoff = if ltb e cutoff then trim es cutoff else e ∷ es

abbrev or_nil : Option (List ℕ) → List ℕ
or_nil none = []
or_nil (some es) = es

-- m.requests[key]
abbrev pub entries_of : MemoryLimiter → Text → List ℕ
entries_of m key = or_nil (lookup key m.requests)

abbrev store : MemoryLimiter → Text → List ℕ → MemoryLimiter
store m key es = record m { requests = insert key es m.requests }

-- limit - n, and 0 where that is negative.
abbrev pub remaining_of : ℤ → ℕ → ℕ
remaining_of (pos l) n = l - n
remaining_of (negsuc l) n = 0

unfoldable pub check_and_consume : MemoryLimiter → ℕ → Text → ℤ → MemoryLimiter × RateResult
unfolding trim
check_and_consume m now key limit =
    let entries = trim (entries_of m key) (now - sliding_window) in
    if at_least (length entries) limit
    then (
      store m key entries,
      record { allowed = false; remaining = 0; reset_at = now + sliding_window },
    )
    else (
      store m key (entries ++ now ∷ []),
      record {
        allowed = true;
        remaining = remaining_of limit (length (entries ++ now ∷ []));
        reset_at = now + sliding_window;
      },
    )

unfoldable pub allow_with_limit : MemoryLimiter → ℕ → Text → ℤ → MemoryLimiter × Bool
unfolding check_and_consume
allow_with_limit m now key limit =
    let (after, result) = check_and_consume m now key limit in (after, result.allowed)

unfoldable pub allow : MemoryLimiter → ℕ → Text → MemoryLimiter × Bool
unfolding allow_with_limit
allow m now key = allow_with_limit m now key m.requests_per_min

unfoldable pub count : MemoryLimiter → ℕ → Text → MemoryLimiter × ℕ
unfolding trim
count m now key =
    let entries = trim (entries_of m key) (now - sliding_window) in
    (store m key entries, length entries)

abbrev or_gone : List ℕ → Option (List ℕ)
or_gone [] = none
or_gone (e ∷ es) = some (e ∷ es)

-- One tick of StartCleanup.
unfoldable pub cleanup : MemoryLimiter → ℕ → MemoryLimiter
unfolding trim refresh
cleanup m now = record m {
  requests = refresh (λ es. or_gone (trim es (now - sliding_window))) m.requests;
}

-- The calls of a limiter, each made at a time.
pub data Op : Type 0 where
  checks : Text → ℤ → Op
  counts : Text → Op
  cleans : Op

pub data Answer : Type 0 where
  decided : RateResult → Answer
  counted : ℕ → Answer
  cleaned : Answer

abbrev as_answer {ℓ} : {A : Type ℓ} → (A → Answer) → MemoryLimiter × A → MemoryLimiter × Answer
as_answer f (m, a) = (m, f a)

pub step : MemoryLimiter → ℕ × Op → MemoryLimiter × Answer
unfolding check_and_consume count cleanup
step m (now, checks key limit) = as_answer decided (check_and_consume m now key limit)
step m (now, counts key) = as_answer counted (count m now key)
step m (now, cleans) = (cleanup m now, cleaned)

pub run : MemoryLimiter → List (ℕ × Op) → List Answer
run m [] = []
run m (e ∷ es) = (step m e).1 ∷ run (step m e).0 es
