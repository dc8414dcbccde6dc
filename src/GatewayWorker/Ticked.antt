-- ===== src/GatewayWorker/Ticked.antt =====
-- gateway_provisioner.go, ProcessNextJob: what a call may do to a row.
use elite_gate.Prelude.{
  ℕ, ◌≤◌, refl, pos, Option, some, List, [], ◌∷◌, Any, here, there, ◌*◌, ◌^◌, ◌≡◌, sym, ◌∙◌, ap,
  ◌⊎◌, inl, inr, ◌≢◌, Bool, true, false, arith, true_not_false,
}
use mathlib.Core.Path.{subst}
use elite_gate.Text.Laws.{text_eq_iff, text_eq_refl}
use elite_gate.Table.Effects.{Executed, Rows}
use elite_gate.Gateways.{Gateway, deprovisioning, is_held}
use elite_gate.Gateways.Ingress.{is_leaving, set_decommissioned}
use elite_gate.Gateways.Priority.{set_priority}
use elite_gate.Gateways.Queue.{gateway_job_of, is_ingress_claimable, set_locked}
use elite_gate.Gateways.Claims.{ChosenId}
use elite_gate.GatewayWorker.{GatewayEnv}
use elite_gate.GatewayWorker.Steps.{IsRemoved, Step}
use elite_gate.GatewayWorker.Teardown.{is_handled}

-- WHERE of the claim, with the lock timeout of five minutes.
abbrev pub is_due_for : GatewayEnv → Gateway → Bool
is_due_for e = is_ingress_claimable e.now e.db_now (300 * 10 ^ 9)

abbrev pub locked_for : GatewayEnv → ℕ → Gateway → Gateway
locked_for e token = set_locked e.db_now e.worker_id token

-- A priority of the configured range.
pub record InRange (e : GatewayEnv) (p : ℕ) : Type 0 where
  pub low : ℕ
  pub high : ℕ
  pub min : e.priority_min ≡ pos low
  pub max : e.priority_max ≡ pos high
  pub from : low ≤ p
  pub to : p ≤ high

module _ (e : GatewayEnv) (token : ℕ) (accepts : List Gateway → Bool) where
  -- What a call may do to a row: nothing; lock it, where the status has no handler; lock it and make
  -- a step of its status, for a listener rule under the row's priority or one reserved first; lock
  -- it and take it away; or lock it, with or without a priority, where the database refuses rows.
  pub data Ticked : Gateway → Gateway → Type 0 where
    rests : {r : Gateway} → Ticked r r
    strands :
        {r : Gateway}
        → is_due_for e r ≡ true
        → is_handled r.provisioning_status ≡ false
        → Ticked r (locked_for e token r)
    steps :
        {r : Gateway} {change : Gateway → Gateway}
        → is_due_for e r ≡ true
        → Step e (gateway_job_of token r) r.provisioning_status r.listener_rule_priority change
        → Ticked r (change (locked_for e token r))
    reserves_and_steps :
        {r : Gateway} {change : Gateway → Gateway} (p : ℕ)
        → InRange e p
        → is_due_for e r ≡ true
        → Step e (gateway_job_of token r) r.provisioning_status (some p) change
        → Ticked r (change (set_priority e.db_now p (locked_for e token r)))
    leaves :
        {r : Gateway}
        → is_due_for e r ≡ true
        → IsRemoved e (gateway_job_of token r)
        → r.provisioning_status ≡ deprovisioning
        → Ticked r (set_decommissioned e.db_now (locked_for e token r))
    stalls :
        {r : Gateway} (rows : List Gateway)
        → is_due_for e r ≡ true
        → accepts rows ≡ false
        → Ticked r (locked_for e token r)
    reserves_and_stalls :
        {r : Gateway} (p : ℕ) (rows : List Gateway)
        → InRange e p
        → is_due_for e r ≡ true
        → accepts rows ≡ false
        → Ticked r (set_priority e.db_now p (locked_for e token r))

  locked_held :
      (c : Gateway)
      → is_due_for e c ≡ true
      → is_held c.external_id token (locked_for e token c) ≡ true
  unfolding set_locked is_ingress_claimable
  locked_held c due = ground (arith, text_eq_refl c.external_id)

  -- The claimed row when the last statement comes, and the priority that the handler has for it.
  abbrev pub Ready : Gateway → Option ℕ → Gateway → Type 0
  Ready c o s =
      ((s ≡ locked_for e token c) × (o ≡ c.listener_rule_priority))
      ⊎ ((p : ℕ) × (s ≡ set_priority e.db_now p (locked_for e token c))
          × (o ≡ some p)
          × InRange e p)

  abbrev pub Readied : Gateway → Option ℕ → Gateway → Gateway → Type 0
  Readied c o r s = ((r ≡ c) × Ready c o s) ⊎ ((r.external_id ≢ c.external_id) × (s ≡ r))

  Ready-held :
      (c s : Gateway) (o : Option ℕ)
      → is_due_for e c ≡ true
      → Ready c o s
      → is_held c.external_id token s ≡ true
  Ready-held c s o due (inl (same, _)) =
      subst (λ x. is_held c.external_id token x ≡ true) (sym same) (locked_held c due)
  Ready-held c s o due (inr (p, same, _, _)) =
      subst (λ x. is_held c.external_id token x ≡ true) (sym same) (locked_held c due)

  Ready-status :
      (c s : Gateway) (o : Option ℕ) → Ready c o s → s.provisioning_status ≡ c.provisioning_status
  unfolding set_locked
  Ready-status c s o (inl (same, _)) = ap (λ x. x.provisioning_status) same
  Ready-status c s o (inr (p, same, _, _)) = ap (λ x. x.provisioning_status) same

  held_elsewhere :
      {W : Type 0} (c r : Gateway)
      → r.external_id ≢ c.external_id
      → is_held c.external_id token r ≡ true
      → W
  held_elsewhere c r other h =
      absurd (other ((text_eq_iff r.external_id c.external_id).0 (ground arith)))

  pub chosen-Readied :
      (c r s : Gateway) (o : Option ℕ)
      → o ≡ c.listener_rule_priority
      → ChosenId c (locked_for e token) r s
      → Readied c o r s
  chosen-Readied c r s o same (inl (it, changed)) =
      inl (it, inl (changed ∙ ap (locked_for e token) it, same))
  chosen-Readied c r s o same (inr v) = inr v

  -- The row that is held under the new token is the claimed one.
  pub chosen-held :
      (c r : Gateway) (rs ss : List Gateway)
      → Rows (ChosenId c (locked_for e token)) rs ss
      → Any (λ s. s ≡ r) ss
      → is_held c.external_id token r ≡ true
      → r ≡ locked_for e token c
  chosen-held c r [] (s ∷ ss) v m h = absurd v
  chosen-held c r (x ∷ rs) (s ∷ ss) (inl (it, changed), v) (here same) h =
      sym same ∙ changed ∙ ap (locked_for e token) it
  chosen-held c r (x ∷ rs) (s ∷ ss) (inr (other, kept), v) (here same) h =
      held_elsewhere c x other
        (subst (λ y. is_held c.external_id token y ≡ true) (sym same ∙ kept) h)
  chosen-held c r (x ∷ rs) (s ∷ ss) (p, v) (there m) h = chosen-held c r rs ss v m h
  chosen-held c r rs [] v m h = elim m [ ]

  pub reserved-Readied :
      (c r s t : Gateway) (p : ℕ)
      → is_due_for e c ≡ true
      → InRange e p
      → ChosenId c (locked_for e token) r s
      → Executed (is_held c.external_id token) (set_priority e.db_now p) s t
      → Readied c (some p) r t
  reserved-Readied c r s t p due range (inl (it, changed)) (inl (hit, set)) = inl (
    it,
    inr (p, set ∙ ap (set_priority e.db_now p) (changed ∙ ap (locked_for e token) it), refl, range),
  )
  reserved-Readied c r s t p due range (inl (it, changed)) (inr (miss, same)) = absurd (
      true_not_false (
        sym (
          subst (λ x. is_held c.external_id token x ≡ true)
            (sym (changed ∙ ap (locked_for e token) it)) (locked_held c due))
        ∙ miss))
  reserved-Readied c r s t p due range (inr (other, same)) (inl (hit, set)) =
      held_elsewhere c r other (subst (λ x. is_held c.external_id token x ≡ true) same hit)
  reserved-Readied c r s t p due range (inr (other, same)) (inr (miss, kept)) =
      inr (other, kept ∙ same)

  pub moved :
      (c r s t : Gateway) (o : Option ℕ) (change : Gateway → Gateway)
      → is_due_for e c ≡ true
      → Step e (gateway_job_of token c) c.provisioning_status o change
      → Readied c o r s
      → Executed (is_held c.external_id token) change s t
      → Ticked r t
  moved c r s t o change due step (inl (it, inl (ready, own))) (inl (hit, set)) =
      subst (λ x. Ticked x t) (sym it)
        (subst (Ticked c) (sym (set ∙ ap change ready)) (
          steps due
            (subst (λ x. Step e (gateway_job_of token c) c.provisioning_status x change) own step)))
  moved c r s t o change due step (inl (it, inr (p, ready, own, range))) (inl (hit, set)) =
      subst (λ x. Ticked x t) (sym it)
        (subst (Ticked c) (sym (set ∙ ap change ready)) (
          reserves_and_steps p range due
            (subst (λ x. Step e (gateway_job_of token c) c.provisioning_status x change) own step)))
  moved c r s t o change due step (inl (it, ready)) (inr (miss, same)) =
      absurd (true_not_false (sym (Ready-held c s o due ready) ∙ miss))
  moved c r s t o change due step (inr (other, same)) (inl (hit, set)) =
      held_elsewhere c r other (subst (λ x. is_held c.external_id token x ≡ true) same hit)
  moved c r s t o change due step (inr (other, same)) (inr (miss, kept)) =
      subst (Ticked r) (sym (kept ∙ same)) rests

  pub stalled :
      (c r s : Gateway) (o : Option ℕ) (rows : List Gateway)
      → is_due_for e c ≡ true
      → accepts rows ≡ false
      → Readied c o r s
      → Ticked r s
  stalled c r s o rows due refusal (inl (it, inl (ready, own))) =
      subst (λ x. Ticked x s) (sym it) (subst (Ticked c) (sym ready) (stalls rows due refusal))
  stalled c r s o rows due refusal (inl (it, inr (p, ready, own, range))) =
      subst (λ x. Ticked x s) (sym it)
        (subst (Ticked c) (sym ready) (reserves_and_stalls p rows range due refusal))
  stalled c r s o rows due refusal (inr (other, same)) = subst (Ticked r) (sym same) rests

  pub left :
      (c r s t : Gateway) (o : Option ℕ)
      → is_due_for e c ≡ true
      → IsRemoved e (gateway_job_of token c)
      → c.provisioning_status ≡ deprovisioning
      → Readied c o r s
      → Executed (is_leaving c.external_id token) (set_decommissioned e.db_now) s t
      → Ticked r t
  left c r s t o due gone at (inl (it, inl (ready, own))) (inl (hit, set)) =
      subst (λ x. Ticked x t) (sym it)
        (subst (Ticked c) (sym (set ∙ ap (set_decommissioned e.db_now) ready)) (leaves due gone at))
  left c r s t o due gone at (inl (it, inr (p, ready, own, range))) (inl (hit, set)) =
      subst (λ x. Ticked x t) (sym it)
        (subst (Ticked c) (sym (set ∙ ap (set_decommissioned e.db_now) ready)) (leaves due gone at))
  left c r s t o due gone at (inl (it, ready)) (inr (miss, same)) = absurd (
      true_not_false
        (sym (leaving_now (Ready-status c s o ready ∙ at) (Ready-held c s o due ready)) ∙ miss))
    where
      leaving_now :
          s.provisioning_status ≡ deprovisioning
          → is_held c.external_id token s ≡ true
          → is_leaving c.external_id token s ≡ true
      leaving_now a h = ground arith
  left c r s t o due gone at (inr (other, same)) (inl (hit, set)) =
      held_elsewhere c r other
        (subst (λ x. is_held c.external_id token x ≡ true) same (ground arith))
  left c r s t o due gone at (inr (other, same)) (inr (miss, kept)) =
      subst (Ticked r) (sym (kept ∙ same)) rests
