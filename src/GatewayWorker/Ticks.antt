-- ===== src/GatewayWorker/Ticks.antt =====
-- gateway_provisioner.go, ProcessNextJob: what a call does to each row.
use elite_gate.Prelude.{
  ℕ, Bool, Option, some, ◌∙◌, ap, ◌*◌, ◌^◌, ◌≡◌, refl, sym, inl, inr, true, false, List, Bool-cases,
  true_not_false, pos,
}
use mathlib.Core.Path.{subst}
use elite_gate.Table.Effects.{Rows, Rows-refl, Rows-map, Rows-trans, exec-Executed}
use elite_gate.Gateways.{
  Gateway, GatewayTable, IngressStatus, container_ready, registering_target, creating_listener_rule,
  waiting_for_target_health, deprovisioning, is_held, database_failure, stale_gateway_ingress_lease,
}
use elite_gate.Gateways.Effects.{saves-rows}
use elite_gate.Gateways.Ingress.{
  ensure_gateway_ingress_updated, mark_gateway_decommissioned, is_leaving, set_decommissioned,
}
use elite_gate.Gateways.Priority.{set_priority}
use elite_gate.Gateways.Queue
use elite_gate.Gateways.Queue.{
  GatewayProvisioningJob, GatewayClaim, gateway_job_of, is_ingress_claimable, set_locked,
  claim_next_gateway_ingress_job,
}
use elite_gate.Gateways.Claims.{
  HasIds, ChosenId, Locking, idles, locks, claim_next_gateway_ingress_job_lem,
}
use elite_gate.GatewayWorker.{GatewayEnv, GatewayOutcome}
use elite_gate.GatewayWorker.Process.{
  dispatch_gateway, process_gateway_claim, process_next_gateway_job,
}
use elite_gate.GatewayWorker.Steps.{
  Leaf, writes, removes, Prepared, kept, reserves, Handled, plain, handles,
}
use elite_gate.GatewayWorker.Teardown.{is_handled, dispatch_gateway-Handled}
use elite_gate.GatewayWorker.Ticked.{
  is_due_for, locked_for, Ticked, rests, strands, Readied, chosen-Readied, chosen-held,
  reserved-Readied, moved, stalled, left,
}

module _ (e : GatewayEnv) (token : ℕ) where
  Leaf-Rows :
      (db : GatewayTable) (c : Gateway) (rs : List Gateway) (o : Option ℕ) {out : GatewayOutcome}
      → db.up ≡ true
      → is_due_for e c ≡ true
      → Rows (Readied e token db.accepts c o) rs db.rows
      → Leaf e (gateway_job_of token c) db c.provisioning_status o out
      → Rows (Ticked e token db.accepts) rs out.table.rows
  unfolding gateway_job_of ensure_gateway_ingress_updated mark_gateway_decommissioned
  Leaf-Rows db c rs o up due v (writes {change} calls step) =
      elim (saves-rows db (is_held c.external_id token) change stale_gateway_ingress_lease up) [
        | inl done ↦ subst (Rows (Ticked e token db.accepts) rs) (sym done) (
            Rows-trans _ _ _ rs db.rows _
              (λ r s t. moved e token db.accepts c r s t o change due step) v
              (exec-Executed (is_held c.external_id token) change db.rows))
        | inr still ↦
            subst (Rows (Ticked e token db.accepts) rs) (sym still.0)
              (Rows-map _ _ rs db.rows (λ r s. stalled e token db.accepts c r s o _ due still.1) v)
      ]
  Leaf-Rows db c rs o up due v (removes calls gone at) =
      elim (saves-rows db (is_leaving c.external_id token) (set_decommissioned e.db_now)
        stale_gateway_ingress_lease up) [
          | inl done ↦ subst (Rows (Ticked e token db.accepts) rs) (sym done) (
              Rows-trans _ _ _ rs db.rows _ (λ r s t. left e token db.accepts c r s t o due gone at)
                v
                (exec-Executed (is_leaving c.external_id token) (set_decommissioned e.db_now)
                  db.rows))
          | inr still ↦
              subst (Rows (Ticked e token db.accepts) rs) (sym still.0) (
                Rows-map _ _ rs db.rows (λ r s. stalled e token db.accepts c r s o _ due still.1) v)
        ]

  Prepared-Rows :
      {db : GatewayTable} (c : Gateway) (rs : List Gateway) {at : IngressStatus} {o : Option ℕ}
      {then_db : GatewayTable}
      → is_due_for e c ≡ true
      → Rows (ChosenId c (locked_for e token)) rs db.rows
      → Prepared e (gateway_job_of token c) db at o then_db
      → Rows (Readied e token db.accepts c o) rs then_db.rows
  unfolding gateway_job_of set_locked
  Prepared-Rows {db} c rs due v (kept r n member held own) =
      let it = chosen-held e token db.accepts c r rs db.rows v member held in
      Rows-map _ _ rs db.rows
        (λ x y.
          chosen-Readied e token db.accepts c x y (some n)
            (sym own ∙ ap (λ z. z.listener_rule_priority) it))
        v
  Prepared-Rows {db} c rs due v (reserves {low} {high} p l h free) =
      Rows-trans _ _ _ rs db.rows _
        (λ r s t.
          reserved-Readied e token db.accepts c r s t p due
            (record { low = low; high = high; min = l; max = h; from = free.from; to = free.to }))
        v (exec-Executed (is_held c.external_id token) (set_priority e.db_now p) db.rows)

  Prepared-up :
      {db : GatewayTable} {job : GatewayProvisioningJob} {at : IngressStatus} {o : Option ℕ}
      {then_db : GatewayTable}
      → Prepared e job db at o then_db
      → (then_db.up ≡ db.up) × (then_db.accepts ≡ db.accepts)
  Prepared-up (kept r n member held own) = (refl, refl)
  Prepared-up (reserves p l h free) = (refl, refl)

  Handled-Rows :
      (db : GatewayTable) (c : Gateway) (rs : List Gateway) {out : GatewayOutcome}
      → db.up ≡ true
      → is_due_for e c ≡ true
      → Rows (ChosenId c (locked_for e token)) rs db.rows
      → Handled e (gateway_job_of token c) db c.provisioning_status out
      → Rows (Ticked e token db.accepts) rs out.table.rows
  Handled-Rows db c rs up due v (plain leaf) =
      Leaf-Rows db c rs c.listener_rule_priority up due
        (Rows-map _ _ rs db.rows
          (λ r s. chosen-Readied e token db.accepts c r s c.listener_rule_priority refl) v)
        (leaf c.listener_rule_priority)
  Handled-Rows db c rs {out} up due v (handles {o} {then_db} prepared leaf) =
      let same = Prepared-up prepared in
      subst (λ f. Rows (Ticked e token f) rs out.table.rows) same.1
        (Leaf-Rows then_db c rs o (same.0 ∙ up) due
          (subst (λ f. Rows (Readied e token f c o) rs then_db.rows) (sym same.1)
            (Prepared-Rows c rs due v prepared))
          leaf)

  stranded :
      (ok : List Gateway → Bool) (c r s : Gateway)
      → is_due_for e c ≡ true
      → is_handled c.provisioning_status ≡ false
      → ChosenId c (locked_for e token) r s
      → Ticked e token ok r s
  stranded ok c r s due h (inl (it, changed)) = subst (Ticked e token ok r) (sym changed) (
      strands (subst (λ x. is_due_for e x ≡ true) (sym it) due)
        (subst (λ x. is_handled x.provisioning_status ≡ false) (sym it) h))
  stranded ok c r s due h (inr (other, same)) = subst (Ticked e token ok r) (sym same) rests

  pub dispatch_gateway-unhandled :
      (db : GatewayTable) (job : GatewayProvisioningJob) (at : IngressStatus)
      → is_handled at ≡ false
      → (dispatch_gateway e db job at).table ≡ db
  unfolding dispatch_gateway
  dispatch_gateway-unhandled db job container_ready h = absurd (true_not_false h)
  dispatch_gateway-unhandled db job registering_target h = absurd (true_not_false h)
  dispatch_gateway-unhandled db job creating_listener_rule h = absurd (true_not_false h)
  dispatch_gateway-unhandled db job waiting_for_target_health h = absurd (true_not_false h)
  dispatch_gateway-unhandled db job deprovisioning h = absurd (true_not_false h)
  dispatch_gateway-unhandled db job _ h = refl

  dispatched :
      (db : GatewayTable) (c : Gateway) (rows : List Gateway)
      → db.up ≡ true
      → is_due_for e c ≡ true
      → Rows (ChosenId c (locked_for e token)) db.rows rows
      → Rows
          (Ticked e token db.accepts)
          db.rows
          (dispatch_gateway e
            (record db { rows = rows })
            (gateway_job_of token c)
            c.provisioning_status).table.rows
  dispatched db c rows up due v = elim (Bool-cases (is_handled c.provisioning_status)) [
    | inl h ↦
        Handled-Rows (record db { rows = rows }) c db.rows up due v
          (dispatch_gateway-Handled e _ (gateway_job_of token c) c.provisioning_status h)
    | inr h ↦
        subst (λ d. Rows (Ticked e token db.accepts) db.rows d.rows)
          (sym (dispatch_gateway-unhandled (record db { rows = rows }) _ c.provisioning_status h))
          (Rows-map _ _ db.rows rows (λ r s. stranded db.accepts c r s due h) v)
  ]

  claimed-Rows :
      (db : GatewayTable) (o : GatewayTable × GatewayClaim)
      → db.up ≡ true
      → Locking db (is_due_for e) (locked_for e token) token o
      → Rows (Ticked e token db.accepts) db.rows (process_gateway_claim e o).0.table.rows
  unfolding gateway_job_of
  claimed-Rows db o up (idles nothing) = Rows-refl (Ticked e token db.accepts) db.rows (λ r. rests)
  claimed-Rows db o up (locks c rows first v) = dispatched db c rows up first.passes v

  pub claim_when_down :
      (db : GatewayTable)
      → db.up ≡ false
      → claim_next_gateway_ingress_job db e.now e.db_now e.worker_id (pos (300 * 10 ^ 9)) token
        ≡ (db, Queue.claim_fails database_failure)
  unfolding claim_next_gateway_ingress_job
  claim_when_down db down = rw down refl

  pub process_next_gateway_job-Rows :
      (db : GatewayTable)
      → HasIds db.rows
      → Rows (Ticked e token db.accepts) db.rows (process_next_gateway_job e token db).0.table.rows
  unfolding process_next_gateway_job
  process_next_gateway_job-Rows db keys = elim (Bool-cases db.up) [
    | inl up ↦
        claimed-Rows db _ up
          (claim_next_gateway_ingress_job_lem db e.now e.db_now e.worker_id _ token up keys)
    | inr down ↦
        subst
          (λ o. Rows (Ticked e token db.accepts) db.rows (process_gateway_claim e o).0.table.rows)
          (sym (claim_when_down db down))
          (Rows-refl (Ticked e token db.accepts) db.rows (λ r. rests))
  ]
