-- ===== src/GatewayWorker/History.antt =====
-- cmd/worker/gateway_provisioner.go and internal/storage: calls of the worker and requests of the
-- control plane, one after the other, on one table.
use elite_gate.Prelude.{
  ℕ, Option, none, ◌≡◌, refl, sym, ◌∙◌, ap, inl, inr, Bool, List, [], ◌∷◌, arith, Bool-cases, ℤ,
}
use mathlib.Core.Path.{subst}
use elite_gate.Text.{Text}
use elite_gate.Table.Effects.{Rows-map, Rows-All}
use elite_gate.Table.Keys
use elite_gate.Gateways.{Gateway, GatewayTable, GatewayStatus, IngressStatus}
use elite_gate.Gateways.Effects.{saves-Rows}
use elite_gate.Gateways.Ingress.{
  ensure_gateway_ingress_updated, mark_gateway_decommissioned, set_decommissioned,
}
use elite_gate.Gateways.Queue.{GatewayProvisioningJob, GatewayClaim, gateway_job_of, set_locked}
use elite_gate.Gateways.Claims.{
  HasIds, ChosenId, Locking, idles, locks, claim_next_gateway_ingress_job_lem,
}
use elite_gate.Gateways.Apart.{IsApart, Sheds, Sheds-IsApart, set_priority-IsApart}
use elite_gate.Gateways.Requests.{
  mark_container_ready, provision, register_gateway, update_status, decommission,
}
use elite_gate.Gateways.Draining.{mark_draining, queue_gateway_deprovisioning}
use elite_gate.Gateways.Invariant.{
  IsSound, mark_container_ready-IsSound, register_gateway-IsSound, update_status-IsSound,
  decommission-IsSound, provision-IsSound, mark_draining-IsSound,
  queue_gateway_deprovisioning-IsSound,
}
use elite_gate.GatewayWorker.{GatewayEnv, GatewayOutcome}
use elite_gate.GatewayWorker.Process.{
  dispatch_gateway, process_gateway_claim, process_next_gateway_job,
}
use elite_gate.GatewayWorker.Steps.{
  Step, groups, registers, rules, goes_live, rechecks, retries, gives_up, Leaf, writes, removes,
  Prepared, kept, reserves, Handled, plain, handles,
}
use elite_gate.GatewayWorker.Teardown.{is_handled, dispatch_gateway-Handled}
use elite_gate.GatewayWorker.Ticked.{
  is_due_for, locked_for, Ticked, rests, strands, steps, reserves_and_steps, leaves, stalls,
  reserves_and_stalls,
}
use elite_gate.GatewayWorker.Ticks.{
  process_next_gateway_job-Rows, dispatch_gateway-unhandled, claim_when_down,
}
use elite_gate.GatewayWorker.Effects.{Ticked-retries}

module _ (e : GatewayEnv) (job : GatewayProvisioningJob) where
  Step-Sheds :
      {at : IngressStatus} {o : Option ℕ} {change : Gateway → Gateway} (x : Gateway)
      → Step e job at o change
      → Sheds x (change x)
  Step-Sheds x (groups arn a) n h = h
  Step-Sheds x (registers a) n h = h
  Step-Sheds x (rules p arn a) n h = h
  Step-Sheds x (goes_live v) n h = h
  Step-Sheds x (rechecks state a b c) n h = h
  Step-Sheds x (retries m l why) n h = h
  Step-Sheds x (gives_up m l) n h = h

  Step-id :
      {at : IngressStatus} {o : Option ℕ} {change : Gateway → Gateway} (x : Gateway)
      → Step e job at o change
      → (change x).external_id ≡ x.external_id
  Step-id x (groups arn a) = refl
  Step-id x (registers a) = refl
  Step-id x (rules p arn a) = refl
  Step-id x (goes_live v) = refl
  Step-id x (rechecks state a b c) = refl
  Step-id x (retries m l why) = refl
  Step-id x (gives_up m l) = refl

  Leaf-IsApart :
      (db : GatewayTable) {at : IngressStatus} (o : Option ℕ) {out : GatewayOutcome}
      → IsApart db.rows
      → Leaf e job db at o out
      → IsApart out.table.rows
  unfolding ensure_gateway_ingress_updated mark_gateway_decommissioned
  Leaf-IsApart db o h (writes {change} calls step) =
      Sheds-IsApart db.rows _
        (saves-Rows Sheds _ change (λ r n k. k) (λ r k. Step-Sheds r step) db _) h
  Leaf-IsApart db o h (removes calls gone at) =
      Sheds-IsApart db.rows _
        (saves-Rows Sheds _ (set_decommissioned e.db_now) (λ r n k. k) (λ r k n used. ground arith)
          db _)
        h

  Prepared-IsApart :
      (db : GatewayTable) {at : IngressStatus} {o : Option ℕ} {then_db : GatewayTable}
      → HasIds db.rows
      → IsApart db.rows
      → Prepared e job db at o then_db
      → IsApart then_db.rows
  Prepared-IsApart db keys h (kept r n member held own) = h
  Prepared-IsApart db keys h (reserves p l k free) =
      set_priority-IsApart e.db_now p job.external_id job.lease_token db.rows keys free.free h

  Handled-IsApart :
      (db : GatewayTable) {at : IngressStatus} {o : GatewayOutcome}
      → HasIds db.rows
      → IsApart db.rows
      → Handled e job db at o
      → IsApart o.table.rows
  Handled-IsApart db keys h (plain leaf) = Leaf-IsApart db none h (leaf none)
  Handled-IsApart db keys h (handles {o} {then_db} prepared leaf) =
      Leaf-IsApart then_db o (Prepared-IsApart db keys h prepared) leaf

module _ (e : GatewayEnv) (token : ℕ) where
  Chosen-id :
      (c r s : Gateway) → ChosenId c (locked_for e token) r s → s.external_id ≡ r.external_id
  unfolding set_locked
  Chosen-id c r s (inl (it, changed)) = ap (λ x. x.external_id) changed
  Chosen-id c r s (inr (other, same)) = ap (λ x. x.external_id) same

  Chosen-Sheds : (c r s : Gateway) → ChosenId c (locked_for e token) r s → Sheds r s
  unfolding set_locked
  Chosen-Sheds c r s v = elim v [
    | inl w ↦
        subst (λ x. Sheds x s) (sym w.0)
          (subst (Sheds c) (sym (w.1 ∙ ap (locked_for e token) w.0)) (λ n h. h))
    | inr w ↦ subst (Sheds r) (sym w.1) (λ n h. h)
  ]

  dispatched-IsApart :
      (db : GatewayTable) (job : GatewayProvisioningJob) (at : IngressStatus)
      → HasIds db.rows
      → IsApart db.rows
      → IsApart (dispatch_gateway e db job at).table.rows
  dispatched-IsApart db job at keys h = elim (Bool-cases (is_handled at)) [
    | inl k ↦ Handled-IsApart e job db keys h (dispatch_gateway-Handled e db job at k)
    | inr k ↦ subst (λ d. IsApart d.rows) (sym (dispatch_gateway-unhandled e token db job at k)) h
  ]

  claimed-IsApart :
      (db : GatewayTable) (o : GatewayTable × GatewayClaim)
      → HasIds db.rows
      → IsApart db.rows
      → Locking db (is_due_for e) (locked_for e token) token o
      → IsApart (process_gateway_claim e o).0.table.rows
  claimed-IsApart db o keys h (idles nothing) = h
  claimed-IsApart db o keys h (locks c rows first v) =
      dispatched-IsApart (record db { rows = rows }) (gateway_job_of token c) _
        (Keys.Rows-HasKeys (λ r. r.external_id) db.rows rows
          (Rows-map _ _ db.rows rows (Chosen-id c) v) keys)
        (Sheds-IsApart db.rows rows (Rows-map _ _ db.rows rows (Chosen-Sheds c) v) h)

  tick-IsApart :
      (db : GatewayTable)
      → HasIds db.rows
      → IsApart db.rows
      → IsApart (process_next_gateway_job e token db).0.table.rows
  unfolding process_next_gateway_job
  tick-IsApart db keys h = elim (Bool-cases db.up) [
    | inl up ↦
        claimed-IsApart db _ keys h
          (claim_next_gateway_ingress_job_lem db e.now e.db_now e.worker_id _ token up keys)
    | inr down ↦
        subst (λ o. IsApart (process_gateway_claim e o).0.table.rows)
          (sym (claim_when_down e token db down)) h
  ]

  Ticked-id :
      (ok : List Gateway → Bool) (r s : Gateway)
      → Ticked e token ok r s
      → s.external_id ≡ r.external_id
  unfolding set_locked
  Ticked-id ok r s rests = refl
  Ticked-id ok r s (strands due h) = refl
  Ticked-id ok r s (steps due step) = Step-id e _ (locked_for e token r) step
  Ticked-id ok r s (reserves_and_steps p range due step) = Step-id e _ _ step
  Ticked-id ok r s (leaves due gone at) = refl
  Ticked-id ok r s (stalls rows due no_rows) = refl
  Ticked-id ok r s (reserves_and_stalls p rows range due no_rows) = refl

  tick-IsSound :
      (db : GatewayTable)
      → IsSound db.rows
      → IsSound (process_next_gateway_job e token db).0.table.rows
  tick-IsSound db sound =
      let v = process_next_gateway_job-Rows e token db sound.ids in
      record {
        ids =
            Keys.Rows-HasKeys (λ r. r.external_id) db.rows _
              (Rows-map _ _ db.rows _ (Ticked-id db.accepts) v) sound.ids;
        apart = tick-IsApart db sound.ids sound.apart;
        unspent = Rows-All _ _ db.rows _ (Ticked-retries e token db.accepts) v sound.unspent;
      }

-- A call of the worker, a request, or the database going down or up.
pub data GatewayOp : Type 0 where
  ticks : GatewayEnv → ℕ → GatewayOp
  provisions : ℕ → Text → ℕ → Text → GatewayOp
  readies : ℕ → Text → Text → Text → Text → Text → GatewayOp
  registers_at : ℕ → Text → Text → Text → Text → Text → GatewayOp
  updates_status : ℕ → Text → GatewayStatus → GatewayOp
  decommissions : ℕ → Text → GatewayOp
  drains_at : ℕ → Text → GatewayOp
  queues_removal : ℕ → Text → ℤ → GatewayOp
  turns_database : Bool → GatewayOp

pub apply_op : GatewayOp → GatewayTable → GatewayTable
apply_op (ticks e token) db = (process_next_gateway_job e token db).0.table
apply_op (provisions now id project plan) db = (provision db now id project plan).0
apply_op (readies now id ip port public_host public_port) db =
    (mark_container_ready db now id ip port public_host public_port).0
apply_op (registers_at now id ip port public_host public_port) db =
    (register_gateway db now id ip port public_host public_port).0
apply_op (updates_status now id status) db = (update_status db now id status).0
apply_op (decommissions now id) db = (decommission db now id).0
apply_op (drains_at now id) db = (mark_draining db now id).0
apply_op (queues_removal now id timeout) db = (queue_gateway_deprovisioning db now id timeout).0
apply_op (turns_database b) db = record db { up = b }

apply_op-IsSound :
    (op : GatewayOp) (db : GatewayTable) → IsSound db.rows → IsSound (apply_op op db).rows
unfolding apply_op
apply_op-IsSound (ticks e token) db h = tick-IsSound e token db h
apply_op-IsSound (provisions now id project plan) db h = provision-IsSound db h now id project plan
apply_op-IsSound (readies now id ip port public_host public_port) db h =
    mark_container_ready-IsSound db h now id ip port public_host public_port
apply_op-IsSound (registers_at now id ip port public_host public_port) db h =
    register_gateway-IsSound db h now id ip port public_host public_port
apply_op-IsSound (updates_status now id status) db h = update_status-IsSound db h now id status
apply_op-IsSound (decommissions now id) db h = decommission-IsSound db h now id
apply_op-IsSound (drains_at now id) db h = mark_draining-IsSound db h now id
apply_op-IsSound (queues_removal now id timeout) db h =
    queue_gateway_deprovisioning-IsSound db h now id timeout
apply_op-IsSound (turns_database b) db h = h

pub apply_ops : List GatewayOp → GatewayTable → GatewayTable
apply_ops [] db = db
apply_ops (op ∷ ops) db = apply_ops ops (apply_op op db)

-- After any sequence of worker calls and requests, with arbitrary answers of AWS and Docker and
-- with the database going down and up, the table is sound: external IDs are distinct, no two live
-- rows use the same listener priority, and every retry count is below ten. It was sound before.
pub apply_ops-IsSound :
    (ops : List GatewayOp) (db : GatewayTable) → IsSound db.rows → IsSound (apply_ops ops db).rows
unfolding apply_ops
apply_ops-IsSound [] db h = h
apply_ops-IsSound (op ∷ ops) db h =
    apply_ops-IsSound ops (apply_op op db) (apply_op-IsSound op db h)
