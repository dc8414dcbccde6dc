-- ===== src/RateLimit/Rising.antt =====
-- Timestamps in order, and what trim does to them.
use elite_gate.Prelude.{ℕ, ◌≤◌, ◌≡◌, List, [], ◌∷◌, ◌++◌, arith, leb, tally, length, refl}
use elite_gate.RateLimit.{trim}

-- The times rise from `lo` on, and none is past `hi`.
abbrev pub Rising : ℕ → ℕ → List ℕ → Type 0
Rising lo hi [] = lo ≤ hi
Rising lo hi (e ∷ es) = (lo ≤ e) × Rising e hi es

pub Rising-lower : (lo' lo hi : ℕ) (es : List ℕ) → lo' ≤ lo → Rising lo hi es → Rising lo' hi es
Rising-lower lo' lo hi [] h r = omega arith
Rising-lower lo' lo hi (e ∷ es) h (p, r) = (omega arith, r)

pub Rising-upper : (lo hi hi' : ℕ) (es : List ℕ) → hi ≤ hi' → Rising lo hi es → Rising lo hi' es
Rising-upper lo hi hi' [] h r = omega arith
Rising-upper lo hi hi' (e ∷ es) h (p, r) = (p, Rising-upper e hi hi' es h r)

pub Rising-push : (lo now : ℕ) (es : List ℕ) → Rising lo now es → Rising lo now (es ++ now ∷ [])
Rising-push lo now [] r = omega arith
Rising-push lo now (e ∷ es) (p, r) = (p, Rising-push e now es r)

pub trim-Rising : (lo hi c : ℕ) (es : List ℕ) → Rising lo hi es → Rising lo hi (trim es c)
unfolding trim
trim-Rising lo hi c [] r = r
trim-Rising lo hi c (e ∷ es) (p, r) =
    ground (arith, trim-Rising lo hi c es (Rising-lower lo e hi es p r), p, r)

-- Trimming at an earlier cutoff changes no count from `d` on.
pub tally-trim : (c d : ℕ) (es : List ℕ) → c ≤ d → tally (leb d) (trim es c) ≡ tally (leb d) es
unfolding trim
tally-trim c d [] h = refl
tally-trim c d (e ∷ es) h = ground (arith, tally-trim c d es h)

tally_above : (c lo hi : ℕ) (es : List ℕ) → c ≤ lo → Rising lo hi es → tally (leb c) es ≡ length es
tally_above c lo hi [] h r = refl
tally_above c lo hi (e ∷ es) h (p, r) = ground (arith, tally_above c e hi es (omega arith) r)

-- What is left after a trim is all that stands from the cutoff on.
pub length-trim :
    (c lo hi : ℕ) (es : List ℕ) → Rising lo hi es → length (trim es c) ≡ tally (leb c) es
unfolding trim
length-trim c lo hi [] r = refl
length-trim c lo hi (e ∷ es) (p, r) =
    ground (arith, length-trim c e hi es r, λ (h : c ≤ e). tally_above c e hi es h r)
