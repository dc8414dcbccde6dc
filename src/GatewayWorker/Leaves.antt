-- ===== src/GatewayWorker/Leaves.antt =====
-- gateway_provisioner.go: the last statement of each handler.
use elite_gate.Prelude.{
  ℕ, suc, ◌+◌, ap, Option, some, [], ◌≡◌, refl, inl, inr, Bool, true, false, if◌then◌else◌, leb,
  arith, ℤ,
}
use elite_gate.Text.{Text, codes, text_eq, to_lower, trim_space}
use elite_gate.Provisioner.{Answer, CloudError, ok, fails}
use elite_gate.Gateways.{
  GatewayTable, GatewayRepoError, IngressStatus, container_ready, registering_target,
  creating_listener_rule, waiting_for_target_health, deprovisioning,
}
use elite_gate.Gateways.Queue.{GatewayProvisioningJob}
use elite_gate.Gateways.Priority.{Reservation, not_reserved, reserve_gateway_listener_rule_priority}
use elite_gate.Gateways.Reserving.{
  Reserves, bad_range, no_database, no_lease, keeps, none_left, takes,
  reserve_gateway_listener_rule_priority_lem,
}
use elite_gate.Gateways.Ingress.{
  mark_gateway_target_group_created, mark_gateway_target_registered,
  mark_gateway_listener_rule_created, mark_gateway_ingress_active, reschedule_gateway_health_check,
  mark_gateway_ingress_failed, schedule_gateway_ingress_retry,
}
use elite_gate.GatewayWorker.{
  GatewayEnv, GatewayCall, GatewayCalls, GatewayOutcome, max_retries, retry_or_fail, fail_job,
  error_text,
}
use elite_gate.GatewayWorker.Handlers.{
  host_of, group_created, handle_container_ready, target_registered, handle_registering_target,
  rule_created, priority_reserved, handle_creating_listener_rule, health_read, health_answered,
  handle_waiting_for_target_health, after_step,
}
use elite_gate.GatewayWorker.Names.{gateway_target_group_name}
use elite_gate.GatewayWorker.Steps.{
  bad_port, no_group_to_join, no_group_to_serve, no_group_to_ask, Failure, group_fails,
  register_fails, reserve_fails, rule_fails, health_fails, unhealthy, groups, registers, rules,
  goes_live, rechecks, retries, gives_up, Leaf, writes, Malformed, kept, reserves, Handled, plain,
  handles,
}

module _ (e : GatewayEnv) (job : GatewayProvisioningJob) (o : Option ℕ) where
  module _ {at : IngressStatus} (db : GatewayTable) where
    pub if-Leaf :
        {p q : GatewayOutcome} (b : Bool)
        → (b ≡ true → Leaf e job db at o p)
        → (b ≡ false → Leaf e job db at o q)
        → Leaf e job db at o (if b then p else q)
    if-Leaf true v w = v refl
    if-Leaf false v w = w refl

    pub retry_or_fail-Leaf :
        (calls : GatewayCalls) (message : Text)
        → Failure e job at
        → Leaf e job db at o (retry_or_fail e db job calls message)
    unfolding retry_or_fail mark_gateway_ingress_failed schedule_gateway_ingress_retry
    retry_or_fail-Leaf calls message why =
        if-Leaf (leb max_retries (job.retry_count + 1))
          (λ spent. writes calls (gives_up _ (inl (ground arith, why))))
          (λ left. writes calls (retries _ (ground arith) why))

    fail_job-Leaf :
        (calls : GatewayCalls) (message : Text)
        → Malformed job at
        → Leaf e job db at o (fail_job e db job calls message)
    unfolding fail_job mark_gateway_ingress_failed
    fail_job-Leaf calls message h = writes calls (gives_up message (inr h))

  module _ (db : GatewayTable) where
    group_created-Leaf :
        (a : Answer Text)
        → e.cloud.create_target_group
            (gateway_target_group_name e.unicode e.sha256_hex job.external_id)
            e.vpc_id
          ≡ a
        → Leaf e job db container_ready o (group_created e job db a)
    unfolding mark_gateway_target_group_created group_created
    group_created-Leaf (fails err) h = retry_or_fail-Leaf db _ _ (group_fails err h)
    group_created-Leaf (ok arn) h = writes _ (groups arn h)

    pub handle_container_ready-Leaf :
        Leaf e job db container_ready o (handle_container_ready e job db)
    unfolding handle_container_ready
    handle_container_ready-Leaf =
        if-Leaf db _ (λ bad. fail_job-Leaf db _ _ (bad_port bad)) (λ _. group_created-Leaf _ refl)

    target_registered-Leaf :
        (a : Answer (Unit {0}))
        → e.cloud.register_target job.target_group_arn e.instance_id job.host_port ≡ a
        → Leaf e job db registering_target o (target_registered e job db a)
    unfolding mark_gateway_target_registered target_registered
    target_registered-Leaf (fails err) h = retry_or_fail-Leaf db _ _ (register_fails err h)
    target_registered-Leaf (ok _) h = writes _ (registers h)

    pub handle_registering_target-Leaf :
        Leaf e job db registering_target o (handle_registering_target e job db)
    unfolding handle_registering_target
    handle_registering_target-Leaf =
        if-Leaf db _ (λ bad. fail_job-Leaf db _ _ (no_group_to_join bad))
          (λ _. target_registered-Leaf _ refl)

    health_read-Leaf :
        (state : Text)
        → e.cloud.get_target_health job.target_group_arn e.instance_id job.host_port ≡ ok state
        → Leaf e job db waiting_for_target_health o
            (health_read e job db (to_lower e.unicode (trim_space e.unicode state)))
    unfolding mark_gateway_ingress_active reschedule_gateway_health_check health_read
    health_read-Leaf state h =
        if-Leaf db _
          (λ up. writes _ (goes_live (record { state = state; answered = h; healthy = up })))
          (λ not_up.
            if-Leaf db
              (text_eq (to_lower e.unicode (trim_space e.unicode state)) (codes "unhealthy"))
              (λ ill. retry_or_fail-Leaf db _ _ (unhealthy state h ill))
              (λ not_ill. writes _ (rechecks state h not_up not_ill)))

    health_answered-Leaf :
        (a : Answer Text)
        → e.cloud.get_target_health job.target_group_arn e.instance_id job.host_port ≡ a
        → Leaf e job db waiting_for_target_health o (health_answered e job db a)
    unfolding health_answered
    health_answered-Leaf (fails err) h = retry_or_fail-Leaf db _ _ (health_fails err h)
    health_answered-Leaf (ok state) h = health_read-Leaf state h

    pub handle_waiting_for_target_health-Leaf :
        Leaf e job db waiting_for_target_health o (handle_waiting_for_target_health e job db)
    unfolding handle_waiting_for_target_health
    handle_waiting_for_target_health-Leaf =
        if-Leaf db _ (λ bad. fail_job-Leaf db _ _ (no_group_to_ask bad))
          (λ _. health_answered-Leaf _ refl)

    pub after_step-Leaf :
        (calls : GatewayCalls) (call : GatewayCall) (prefix : Text) (a : Answer (Unit {0}))
        (k : GatewayCalls → GatewayOutcome)
        → ((err : CloudError) → a ≡ fails err → Failure e job deprovisioning)
        → (a ≡ ok tt → (done : GatewayCalls) → Leaf e job db deprovisioning o (k done))
        → Leaf e job db deprovisioning o (after_step e job db calls call prefix a k)
    unfolding after_step
    after_step-Leaf calls call prefix (ok _) k w v = v refl _
    after_step-Leaf calls call prefix (fails err) k w v = retry_or_fail-Leaf db _ _ (w err refl)

module _ (e : GatewayEnv) (job : GatewayProvisioningJob) where
  rule_created-Leaf :
      (db : GatewayTable) (priority : ℕ) (a : Answer Text)
      → e.cloud.create_host_rule e.listener_arn (host_of e job) job.target_group_arn priority ≡ a
      → Leaf e job db creating_listener_rule (some priority) (rule_created e job db a)
  unfolding mark_gateway_listener_rule_created rule_created
  rule_created-Leaf db priority (fails err) h =
      retry_or_fail-Leaf e job _ db _ _ (rule_fails priority err h)
  rule_created-Leaf db priority (ok arn) h = writes _ (rules priority arn h)

  reserve_failed :
      (db after : GatewayTable) (err : GatewayRepoError)
      → reserve_gateway_listener_rule_priority db e.db_now job.external_id job.lease_token
          e.priority_min e.priority_max
        ≡ (after, not_reserved err)
      → Handled e job after creating_listener_rule (retry_or_fail e after job [] (error_text e err))
  reserve_failed db after err same =
      plain (λ o. retry_or_fail-Leaf e job o after _ _ (reserve_fails db err (ap (λ v. v.1) same)))

  priority_reserved-Handled :
      (db : GatewayTable) (low high : ℤ) (v : GatewayTable × Reservation)
      → e.priority_min ≡ low
      → e.priority_max ≡ high
      → reserve_gateway_listener_rule_priority db e.db_now job.external_id job.lease_token
          e.priority_min e.priority_max
        ≡ v
      → Reserves db e.db_now job.external_id job.lease_token low high v
      → Handled e job db creating_listener_rule (priority_reserved e job v)
  unfolding priority_reserved
  priority_reserved-Handled db low high v l h same (bad_range _) = reserve_failed db db _ same
  priority_reserved-Handled db low high v l h same (no_database _ _) = reserve_failed db db _ same
  priority_reserved-Handled db low high v l h same (no_lease _ _ _) = reserve_failed db db _ same
  priority_reserved-Handled db low high v l h same (keeps r n free_now old) =
      handles (kept r (suc n) free_now.member free_now.held old) (rule_created-Leaf db _ _ refl)
  priority_reserved-Handled db low high v l h same (none_left _ _ _ _) = reserve_failed db db _ same
  priority_reserved-Handled db low high v l h same (takes r p room unset free) =
      handles (reserves p l h free) (rule_created-Leaf _ _ _ refl)

  if-Handled :
      {db : GatewayTable} {at : IngressStatus} {p q : GatewayOutcome} (b : Bool)
      → (b ≡ true → Handled e job db at p)
      → (b ≡ false → Handled e job db at q)
      → Handled e job db at (if b then p else q)
  if-Handled true v w = v refl
  if-Handled false v w = w refl

  pub handle_creating_listener_rule-Handled :
      (db : GatewayTable)
      → Handled e job db creating_listener_rule (handle_creating_listener_rule e job db)
  unfolding handle_creating_listener_rule
  handle_creating_listener_rule-Handled db =
      if-Handled _ (λ bad. plain (λ o. fail_job-Leaf e job o db _ _ (no_group_to_serve bad)))
        (λ _. priority_reserved-Handled db _ _ _ refl refl refl (
          reserve_gateway_listener_rule_priority_lem db e.db_now job.external_id job.lease_token
            e.priority_min e.priority_max))
