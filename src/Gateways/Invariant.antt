-- ===== src/Gateways/Invariant.antt =====
-- internal/storage: what holds of the table of gateways at all times, and the requests.
use elite_gate.Prelude.{
  ℕ, ◌<◌, ◌≡◌, refl, sym, Bool, true, false, ◌&&◌, ◌||◌, not, List, [], ◌∷◌, Option, none, some,
  All, any, arith, Bool-cases, true_not_false, inl, inr, if◌then◌else◌, ltb, ℤ, ◌≢◌, ◌∙◌,
}
use elite_gate.Text.{Text, text_eq}
use elite_gate.Text.Laws.{text_eq_iff}
use elite_gate.Table.{exec, find}
use elite_gate.Table.Effects.{Rows, Rows-map, Rows-All, exec-Rows}
use elite_gate.Table.Keys
use elite_gate.Gateways.{Gateway, GatewayTable, GatewayStatus, GatewayRepoError, saves}
use elite_gate.Gateways.Effects.{saves-Rows}
use elite_gate.Gateways.Claims.{HasIds}
use elite_gate.Gateways.Apart.{IsApart, Sheds, Differ, Sheds-IsApart}
use elite_gate.Gateways.Requests.{
  atoi, save_container, mark_container_ready, new_gateway, provision, register_gateway,
  update_status, decommission,
}
use elite_gate.Gateways.Draining.{
  drain_row, mark_draining, may_drain, may_leave, set_queued, queue_row,
  queue_gateway_deprovisioning, timeout_or_zero,
}

-- The tenth failure ends a job.
abbrev pub IsUnspent : Gateway → Type 0
IsUnspent r = r.retry_count < 10

pub record IsSound (rows : List Gateway) : Type 0 where
  pub ids : HasIds rows
  pub apart : IsApart rows
  pub unspent : All IsUnspent rows

pub record Kept (r s : Gateway) : Type 0 where
  pub id : s.external_id ≡ r.external_id
  pub sheds : Sheds r s
  pub unspent : IsUnspent r → IsUnspent s

pub Kept-refl : (r : Gateway) → Kept r r
Kept-refl r = record { id = refl; sheds = λ n h. h; unspent = λ h. h }

pub Kept-IsSound : (rs ss : List Gateway) → Rows Kept rs ss → IsSound rs → IsSound ss
Kept-IsSound rs ss v h = record {
  ids = Keys.Rows-HasKeys (λ r. r.external_id) rs ss (Rows-map _ _ rs ss (λ r s k. k.id) v) h.ids;
  apart = Sheds-IsApart rs ss (Rows-map _ _ rs ss (λ r s k. k.sheds) v) h.apart;
  unspent = Rows-All Kept IsUnspent rs ss (λ r s k. k.unspent) v h.unspent;
}

if-IsSound :
    {A : Type 0} (o q : GatewayTable × A) (b : Bool)
    → IsSound o.0.rows
    → IsSound q.0.rows
    → IsSound (if b then o else q).0.rows
if-IsSound o q true v w = v
if-IsSound o q false v w = w

module _ (db : GatewayTable) (sound : IsSound db.rows) where
  saves-IsSound :
      (test : Gateway → Bool) (change : Gateway → Gateway) (missed : GatewayRepoError)
      → ((r : Gateway) → test r ≡ true → Kept r (change r))
      → IsSound (saves db test change missed).0.rows
  saves-IsSound test change missed moves =
      Kept-IsSound db.rows _ (saves-Rows Kept test change Kept-refl moves db missed) sound

  exec-IsSound :
      (test : Gateway → Bool) (change : Gateway → Gateway)
      → ((r : Gateway) → test r ≡ true → Kept r (change r))
      → IsSound (exec test change db.rows)
  exec-IsSound test change moves =
      Kept-IsSound db.rows _ (exec-Rows Kept test change Kept-refl moves db.rows) sound

  save_container-IsSound :
      (now : ℕ) (id ip port public_host public_port : Text) (n : Option ℕ)
      → IsSound (save_container db now id ip port public_host public_port n).0.rows
  unfolding save_container
  save_container-IsSound now id ip port public_host public_port none = sound
  save_container-IsSound now id ip port public_host public_port (some n) =
      elim (Bool-cases (ltb n 1 || ltb 65535 n)) [
        | inl bad ↦ rw bad sound
        | inr good ↦ rw good (
            saves-IsSound _ _ _
              (λ r h. record { id = refl; sheds = λ n k. k; unspent = λ k. omega arith }))
      ]

  pub mark_container_ready-IsSound :
      (now : ℕ) (id ip port public_host public_port : Text)
      → IsSound (mark_container_ready db now id ip port public_host public_port).0.rows
  unfolding mark_container_ready
  mark_container_ready-IsSound now id ip port public_host public_port =
      save_container-IsSound now id ip port public_host public_port (atoi public_port)

  pub register_gateway-IsSound :
      (now : ℕ) (id ip port public_host public_port : Text)
      → IsSound (register_gateway db now id ip port public_host public_port).0.rows
  unfolding register_gateway
  register_gateway-IsSound now id ip port public_host public_port =
      saves-IsSound _ _ _ (λ r h. record { id = refl; sheds = λ n k. k; unspent = λ k. k })

  pub update_status-IsSound :
      (now : ℕ) (id : Text) (status : GatewayStatus)
      → IsSound (update_status db now id status).0.rows
  unfolding update_status
  update_status-IsSound now id status =
      saves-IsSound _ _ _ (λ r h. record { id = refl; sheds = λ n k. k; unspent = λ k. k })

  pub decommission-IsSound : (now : ℕ) (id : Text) → IsSound (decommission db now id).0.rows
  unfolding decommission
  decommission-IsSound now id =
      saves-IsSound _ _ _
        (λ r h. record { id = refl; sheds = λ n k. ground arith; unspent = λ k. k })

  no_such_id :
      (id : Text) (rs : List Gateway)
      → any (λ r. text_eq r.external_id id) rs ≡ false
      → All (λ s. s.external_id ≢ id) rs
  no_such_id id [] h = tt
  no_such_id id (r ∷ rs) h = (
    λ e. true_not_false (sym ((text_eq_iff r.external_id id).1 e) ∙ (ground arith)),
    no_such_id id rs (ground arith),
  )

  no_priority :
      (r : Gateway) (rs : List Gateway) → r.listener_rule_priority ≡ none → All (Differ r) rs
  no_priority r [] h = tt
  no_priority r (s ∷ rs) h = (λ n used. ground arith, no_priority r rs h)

  pub provision-IsSound :
      (now : ℕ) (id : Text) (project : ℕ) (plan : Text)
      → IsSound (provision db now id project plan).0.rows
  unfolding provision
  provision-IsSound now id project plan =
      elim (Bool-cases (db.up && not (any (λ r. text_eq r.external_id id) db.rows))) [
        | inr taken ↦ rw taken sound
        | inl fresh ↦ rw fresh (record {
          ids = (no_such_id id db.rows (ground arith), sound.ids);
          apart = (no_priority (new_gateway now id project plan) db.rows refl, sound.apart);
          unspent = (omega arith, sound.unspent);
        })
      ]

  drain_row-IsSound :
      (now : ℕ) (id : Text) (found : Option Gateway) → IsSound (drain_row db now id found).0.rows
  unfolding drain_row
  drain_row-IsSound now id none = sound
  drain_row-IsSound now id (some r) =
      exec-IsSound _ _ (λ r h. record { id = refl; sheds = λ n k. k; unspent = λ k. k })

  pub mark_draining-IsSound : (now : ℕ) (id : Text) → IsSound (mark_draining db now id).0.rows
  unfolding mark_draining
  mark_draining-IsSound now id =
      if-IsSound _ _ db.up (drain_row-IsSound now id (find (may_drain id) db.rows)) sound

  set_queued-Kept : (now timeout : ℕ) (r : Gateway) → Kept r (set_queued now timeout r)
  unfolding set_queued
  set_queued-Kept now timeout r = record {
    id = refl;
    sheds = λ n k. k;
    unspent = λ k. ground arith;
  }

  queue_row-IsSound :
      (now : ℕ) (id : Text) (timeout : ℕ) (found : Option Gateway)
      → IsSound (queue_row db now id timeout found).0.rows
  unfolding queue_row
  queue_row-IsSound now id timeout none = sound
  queue_row-IsSound now id timeout (some r) =
      exec-IsSound _ _ (λ r h. set_queued-Kept now timeout r)

  pub queue_gateway_deprovisioning-IsSound :
      (now : ℕ) (id : Text) (timeout : ℤ)
      → IsSound (queue_gateway_deprovisioning db now id timeout).0.rows
  unfolding queue_gateway_deprovisioning
  queue_gateway_deprovisioning-IsSound now id timeout =
      if-IsSound _ _ db.up
        (queue_row-IsSound now id (timeout_or_zero timeout) (find (may_leave id) db.rows)) sound
