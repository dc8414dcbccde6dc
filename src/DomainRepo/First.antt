-- ===== src/DomainRepo/First.antt =====
-- custom_domain_repo.go, ClaimNextProvisioningJob: the order of the claimable rows.
use elite_gate.Prelude.{arith}
use elite_gate.Table.Order.{IsOrder}
use elite_gate.DomainRepo.Queue.{sorts_before}

pub sorts_before-IsOrder : IsOrder sorts_before
unfolding sorts_before
sorts_before-IsOrder = record {
  trans = λ a b c h k. ground arith;
  irrefl = λ a. ground arith;
  asym = λ a b h. ground arith;
}
