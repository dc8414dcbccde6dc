-- ===== src/Domain/Laws.antt =====
-- Laws of the status comparison.
use elite_gate.Prelude.{◌≡◌, ◌↔◌, true, arith}
use elite_gate.Domain.{ProvisioningStatus, place, same_status}

unplace : (a b : ProvisioningStatus) → place a ≡ place b → a ≡ b
unplace a b h = ground arith

pub same_status_iff : (a b : ProvisioningStatus) → (same_status a b ≡ true) ↔ (a ≡ b)
unfolding same_status
same_status_iff a b = ground (arith, unplace a b)
