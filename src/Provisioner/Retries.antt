-- ===== src/Provisioner/Retries.antt =====
-- provisioner.go, CalculateRetryDelay: the back-off.
use elite_gate.Prelude.{ℕ, ◌*◌, ◌^◌, ◌≤◌, arith}
use elite_gate.Provisioner.{calculate_retry_delay}

-- The retry delay never shrinks as the attempts grow, is at least 15 seconds and at most 5 minutes.
pub calculate_retry_delay_lem :
    (a b : ℕ)
    → a ≤ b
    → (calculate_retry_delay a ≤ calculate_retry_delay b)
      × (15 * 10 ^ 9 ≤ calculate_retry_delay a)
      × (calculate_retry_delay b ≤ 300 * 10 ^ 9)
unfolding calculate_retry_delay
calculate_retry_delay_lem a b h = (ground arith, ground arith, ground arith)
