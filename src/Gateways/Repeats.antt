-- ===== src/Gateways/Repeats.antt =====
-- gateway_deprovision_repo.go, QueueGatewayDeprovisioning: a delete that is asked for again.
use elite_gate.Prelude.{
  ℕ, ◌≡◌, refl, sym, ◌∙◌, ap, inl, inr, Bool, true, false, List, [], ◌∷◌, Option, none, some, arith,
  Bool-cases, true_not_false, if◌then◌else◌, ℤ, none_not_some, Option-cases,
}
use mathlib.Core.Path.{subst}
use elite_gate.Text.{Text, text_eq}
use elite_gate.Table.{exec, find}
use elite_gate.Gateways.{Gateway, GatewayTable, database_failure}
use elite_gate.Gateways.Draining.{
  may_leave, set_queued, ready_at, time_or, Queued, queued, already_decommissioned, not_queued,
  missed_queue, queue_row, timeout_or_zero, queue_gateway_deprovisioning,
}

find-exec :
    (test : Gateway → Bool) (change : Gateway → Gateway) (rs : List Gateway) (r : Gateway)
    → ((x : Gateway) → test x ≡ true → test (change x) ≡ true)
    → find test rs ≡ some r
    → find test (exec test change rs) ≡ some (change r)
unfolding find exec
find-exec test change [] r keeps h = absurd (none_not_some h)
find-exec test change (x ∷ xs) r keeps h = elim (Bool-cases (test x)) [
  | inl e ↦
      let same : some x ≡ some r = subst (λ b. (if b then some x else find test xs) ≡ some r) e h in
      rw (e, keeps x e) (ap (λ o. elim o [ none ↦ none | some y ↦ some (change y) ]) same)
  | inr e ↦
      let rest : find test xs ≡ some r =
        subst (λ b. (if b then some x else find test xs) ≡ some r) e h in
      rw (e, e) (find-exec test change xs r keeps rest)
]

may_leave-set_queued :
    (now timeout : ℕ) (id : Text) (r : Gateway)
    → may_leave id r ≡ true
    → may_leave id (set_queued now timeout r) ≡ true
unfolding set_queued
may_leave-set_queued now timeout id r h = ground arith

abbrev is_queued_reply : Queued → Bool
is_queued_reply (queued a b) = true
is_queued_reply already_decommissioned = false
is_queued_reply (not_queued err) = false

missed_queue-none : (o : Option Gateway) → is_queued_reply (missed_queue o) ≡ false
missed_queue-none none = refl
missed_queue-none (some r) = ground arith

if_so : {A : Type 0} (x y : A) (b : Bool) → b ≡ true → (if b then x else y) ≡ x
if_so x y true h = refl
if_so x y false h = absurd (true_not_false (sym h))

module _ (id : Text) where
  queued_row :
      (db : GatewayTable) (now : ℕ) (timeout : ℤ) (r : Gateway)
      → db.up ≡ true
      → find (may_leave id) db.rows ≡ some r
      → queue_gateway_deprovisioning db now id timeout
        ≡ queue_row db now id (timeout_or_zero timeout) (some r)
  unfolding queue_gateway_deprovisioning
  queued_row db now timeout r up h =
      if_so _ _ db.up up ∙ ap (queue_row db now id (timeout_or_zero timeout)) h

  -- The reply to a row that is in the queue already.
  again_row :
      (db : GatewayTable) (now later : ℕ) (timeout again : ℤ) (r : Gateway)
      → db.up ≡ true
      → find (may_leave id) db.rows ≡ some r
      → (queue_gateway_deprovisioning
          (record db {
            rows = exec (may_leave id) (set_queued now (timeout_or_zero timeout)) db.rows;
          })
          later
          id
          again).1
        ≡ queued (time_or r.drain_started_at now) (ready_at now (timeout_or_zero timeout) r)
  unfolding queue_row set_queued
  again_row db now later timeout again r up h =
      ap (λ o. o.1)
        (queued_row
          (record db {
            rows = exec (may_leave id) (set_queued now (timeout_or_zero timeout)) db.rows;
          })
          later again (set_queued now (timeout_or_zero timeout) r) up
          (find-exec (may_leave id) (set_queued now (timeout_or_zero timeout)) db.rows r
            (may_leave-set_queued now (timeout_or_zero timeout) id) h))

  repeated :
      (db : GatewayTable) (now later : ℕ) (timeout again : ℤ) (d t : ℕ) (r : Gateway)
      → db.up ≡ true
      → find (may_leave id) db.rows ≡ some r
      → (queue_gateway_deprovisioning db now id timeout).1 ≡ queued d t
      → (queue_gateway_deprovisioning
          (queue_gateway_deprovisioning db now id timeout).0
          later
          id
          again).1
        ≡ queued d t
  unfolding queue_row
  repeated db now later timeout again d t r up h w =
      let e = queued_row db now timeout r up h in
      ap (λ o. (queue_gateway_deprovisioning o.0 later id again).1) e
      ∙ again_row db now later timeout again r up h
      ∙ ap (λ o. o.1) (sym e)
      ∙ w

-- A delete of a gateway that is asked for again with no other statement in between, at any clock and
-- with any drain timeout, is answered the times of the first answer: the drain does not begin anew.
pub queue_gateway_deprovisioning_again :
    (db : GatewayTable) (id : Text) (now later : ℕ) (timeout again : ℤ) (d t : ℕ)
    → (queue_gateway_deprovisioning db now id timeout).1 ≡ queued d t
    → (queue_gateway_deprovisioning
        (queue_gateway_deprovisioning db now id timeout).0
        later
        id
        again).1
      ≡ queued d t
unfolding queue_gateway_deprovisioning queue_row
queue_gateway_deprovisioning_again db id now later timeout again d t w = elim (Bool-cases db.up) [
  | inr down ↦ absurd (true_not_false (sym (ap is_queued_reply (sym (reply_down down) ∙ w))))
  | inl up ↦ elim (Option-cases (find (may_leave id) db.rows)) [
    | inl h ↦ absurd (
        true_not_false (sym (ap is_queued_reply (sym (reply_none up h) ∙ w)) ∙ missed_queue-none _))
    | inr (r, h) ↦ repeated id db now later timeout again d t r up h w
  ]
]
  where
    reply_down :
        db.up ≡ false
        → (queue_gateway_deprovisioning db now id timeout).1 ≡ not_queued database_failure
    reply_down h = rw h refl

    reply_none :
        db.up ≡ true
        → find (may_leave id) db.rows ≡ none
        → (queue_gateway_deprovisioning db now id timeout).1
          ≡ missed_queue (find (λ r. text_eq r.external_id id) db.rows)
    reply_none up h =
        ap (λ o. o.1) (if_so _ _ db.up up ∙ ap (queue_row db now id (timeout_or_zero timeout)) h)
