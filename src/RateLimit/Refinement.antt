-- ===== src/RateLimit/Refinement.antt =====
-- memory_limiter.go beside the ideal sliding window.
use mathlib.Core.Path.{ap₂}
use elite_gate.Prelude.{
  ℕ, suc, ◌-◌, ◌≤◌, ◌≡◌, refl, ap, sym, ◌∙◌, Option, none, some, List, [], ◌∷◌, ◌++◌, arith, leb,
  tally, length, tally-append, length-append, if◌then◌else◌, false, Bool-cases, inl, inr, ℤ,
  at_least,
}
use elite_gate.Text.{Text, text_eq}
use elite_gate.Text.Laws.{text_eq_iff, text_eq_refl}
use elite_gate.TextMap.{lookup, lookup-insert, lookup-refresh, and_then}
use elite_gate.RateLimit.{
  MemoryLimiter, sliding_window, trim, entries_of, store, or_gone, or_nil, cleanup, Op, checks,
  counts, cleans, counted, step, run, new_memory_limiter,
}
use elite_gate.RateLimit.Ideal.{Log, since, in_window, ideal_step, ideal_run, IsTimely}
use elite_gate.RateLimit.Rising.{
  Rising, Rising-upper, Rising-push, trim-Rising, tally-trim, length-trim,
}

-- The store and the log tell the same of every window that ends at `last` or later.
pub record Agrees (m : MemoryLimiter) (log : Log) (last : ℕ) : Type 0 where
  pub rising : (k : Text) → Rising 0 last (entries_of m k)
  pub tallied :
      (k : Text) (c : ℕ)
      → last - sliding_window ≤ c
      → tally (leb c) (entries_of m k) ≡ tally (since k c) log

entries_of-store :
    (m : MemoryLimiter) (key k : Text) (es : List ℕ)
    → entries_of (store m key es) k ≡ (if text_eq key k then es else entries_of m k)
entries_of-store m key k es = ground (arith, lookup-insert key k es m.requests)

or_nil-or_gone : (es : List ℕ) → or_nil (or_gone es) ≡ es
or_nil-or_gone [] = refl
or_nil-or_gone (e ∷ es) = refl

swept :
    (o : Option (List ℕ)) (c : ℕ)
    → or_nil (and_then o (λ es. or_gone (trim es c))) ≡ trim (or_nil o) c
unfolding trim
swept none c = refl
swept (some es) c = or_nil-or_gone (trim es c)

entries_of-cleanup :
    (m : MemoryLimiter) (now : ℕ) (k : Text)
    → entries_of (cleanup m now) k ≡ trim (entries_of m k) (now - sliding_window)
unfolding cleanup
entries_of-cleanup m now k =
    rw (lookup-refresh (λ es. or_gone (trim es (now - sliding_window))) k m.requests)
      (swept (lookup k m.requests) (now - sliding_window))

Agrees-later :
    (m : MemoryLimiter) (log : Log) (last now : ℕ)
    → last ≤ now
    → Agrees m log last
    → Agrees m log now
Agrees-later m log last now h v = record {
  rising = λ k. Rising-upper 0 last now (entries_of m k) h (v.rising k);
  tallied = λ k c p. v.tallied k c (omega arith);
}

-- A store under `key` that is in order and agrees with the log, where the other keys kept theirs.
Agrees-store :
    (m : MemoryLimiter) (log log' : Log) (now : ℕ) (key : Text) (es : List ℕ)
    → Agrees m log now
    → Rising 0 now es
    → ((c : ℕ) → now - sliding_window ≤ c → tally (leb c) es ≡ tally (since key c) log')
    → ((k : Text) (c : ℕ) → text_eq key k ≡ false → tally (since k c) log' ≡ tally (since k c) log)
    → Agrees (store m key es) log' now
Agrees-store m log log' now key es v r same others = record {
  rising = λ k. elim (Bool-cases (text_eq key k)) [
    | inl e ↦ rw (lookup-insert key k es m.requests, e) r
    | inr e ↦ rw (lookup-insert key k es m.requests, e) (v.rising k)
  ];
  tallied = λ k c h. elim (Bool-cases (text_eq key k)) [
    | inl e ↦
        rw (lookup-insert key k es m.requests, e)
          (same c h ∙ ap (λ j. tally (since j c) log') ((text_eq_iff key k).0 e))
    | inr e ↦ rw (lookup-insert key k es m.requests, e) (v.tallied k c h ∙ sym (others k c e))
  ];
}

-- A key whose leading timestamps are trimmed at the cutoff of now.
Agrees-trim :
    (m : MemoryLimiter) (log : Log) (now : ℕ) (key : Text)
    → Agrees m log now
    → Agrees (store m key (trim (entries_of m key) (now - sliding_window))) log now
Agrees-trim m log now key v =
    Agrees-store m log log now key (trim (entries_of m key) (now - sliding_window)) v
      (trim-Rising 0 now (now - sliding_window) (entries_of m key) (v.rising key))
      (λ c h. tally-trim (now - sliding_window) c (entries_of m key) h ∙ v.tallied key c h)
      (λ k c e. refl)

-- A granted request is written down on both sides.
Agrees-push :
    (m : MemoryLimiter) (log : Log) (now : ℕ) (key : Text)
    → Agrees m log now
    → Agrees
        (store m key (trim (entries_of m key) (now - sliding_window) ++ now ∷ []))
        ((key, now) ∷ log)
        now
Agrees-push m log now key v =
    Agrees-store m log ((key, now) ∷ log) now key (es ++ now ∷ []) v
      (Rising-push 0 now es (trim-Rising 0 now cutoff (entries_of m key) (v.rising key)))
      (λ c h. ground (
        arith,
        tally-append (leb c) es (now ∷ []),
        tally-trim cutoff c (entries_of m key) h,
        v.tallied key c h,
        text_eq_refl key,
      ))
      (λ k c e. ground arith)
  where
    cutoff : ℕ
    cutoff = now - sliding_window

    es : List ℕ
    es = trim (entries_of m key) cutoff

Agrees-cleanup :
    (m : MemoryLimiter) (log : Log) (now : ℕ) → Agrees m log now → Agrees (cleanup m now) log now
Agrees-cleanup m log now v = record {
  rising = λ k.
      rw (entries_of-cleanup m now k)
        (trim-Rising 0 now (now - sliding_window) (entries_of m k) (v.rising k));
  tallied = λ k c h.
      rw (entries_of-cleanup m now k)
        (tally-trim (now - sliding_window) c (entries_of m k) h ∙ v.tallied k c h);
}

-- The length that the store reads is the number of requests in the window.
length-in_window :
    (m : MemoryLimiter) (log : Log) (now : ℕ) (key : Text)
    → Agrees m log now
    → length (trim (entries_of m key) (now - sliding_window)) ≡ in_window log key now
length-in_window m log now key v =
    length-trim (now - sliding_window) 0 now (entries_of m key) (v.rising key)
    ∙ v.tallied key (now - sliding_window) (omega arith)

-- One call at a time that is not before the last one: the same answer, and the two sides agree on.
step-Agrees :
    (m : MemoryLimiter) (log : Log) (now : ℕ) (op : Op)
    → Agrees m log now
    → ((step m (now, op)).1 ≡ (ideal_step log (now, op)).1)
      × Agrees (step m (now, op)).0 (ideal_step log (now, op)).0 now
unfolding step ideal_step
step-Agrees m log now (checks key limit) v =
    let es = trim (entries_of m key) (now - sliding_window) in
    let n = length-in_window m log now key v in
    let grown : length (es ++ now ∷ []) ≡ suc (in_window log key now) =
      omega (arith, length-append es (now ∷ []), n) in
    elim (Bool-cases (at_least (in_window log key now) limit)) [
      | inl full ↦ rw (n, full) (refl, Agrees-trim m log now key v)
      | inr room ↦ rw (n, room) (rw grown refl, Agrees-push m log now key v)
    ]
step-Agrees m log now (counts key) v =
    (ap counted (length-in_window m log now key v), Agrees-trim m log now key v)
step-Agrees m log now cleans v = (refl, Agrees-cleanup m log now v)

run-ideal_run_from :
    (m : MemoryLimiter) (log : Log) (last : ℕ) (es : List (ℕ × Op))
    → Agrees m log last
    → IsTimely last es
    → run m es ≡ ideal_run log es
unfolding run ideal_run
run-ideal_run_from m log last [] v h = refl
run-ideal_run_from m log last ((now, op) ∷ es) v (p, h) =
    let (same, next) = step-Agrees m log now op (Agrees-later m log last now p v) in
    ap₂ ◌∷◌ same
      (run-ideal_run_from (step m (now, op)).0 (ideal_step log (now, op)).0 now es next h)

-- While the clock does not run backwards, a new limiter gives every call (checks with any keys and
-- limits, counts, and cleanup ticks anywhere between) the answer of the ideal window, which
-- remembers all granted requests: allowed or not, what remains, and when it resets.
pub run-ideal_run :
    (rpm : ℤ) (es : List (ℕ × Op))
    → IsTimely 0 es
    → run (new_memory_limiter rpm) es ≡ ideal_run [] es
unfolding new_memory_limiter lookup
run-ideal_run rpm es h =
    run-ideal_run_from (new_memory_limiter rpm) [] 0 es
      (record { rising = λ k. omega arith; tallied = λ k c p. refl }) h
