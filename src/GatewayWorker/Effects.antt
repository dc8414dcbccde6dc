-- ===== src/GatewayWorker/Effects.antt =====
-- gateway_provisioner.go, ProcessNextJob: what a call can bring about.
use elite_gate.Prelude.{
  ℕ, Bool, List, Option, ◌<◌, ◌≡◌, refl, sym, ◌∙◌, ap, ◌⊎◌, inl, inr, ◌≢◌, true, false, none, arith,
  true_not_false,
}
use elite_gate.Table.Effects.{Rows, Rows-map}
use elite_gate.Gateways.{
  Gateway, GatewayTable, IngressStatus, completed, deprovisioning, deprovisioned,
}
use elite_gate.Gateways.Queue.{
  GatewayProvisioningJob, gateway_job_of, is_ingress_claimable, is_ingress_queued, set_locked,
}
use elite_gate.Gateways.Claims.{HasIds}
use elite_gate.GatewayWorker.{GatewayEnv, max_retries}
use elite_gate.GatewayWorker.Process.{process_next_gateway_job}
use elite_gate.GatewayWorker.Steps.{
  IsServing, IsRemoved, Step, groups, registers, rules, goes_live, rechecks, retries, gives_up,
}
use elite_gate.GatewayWorker.Teardown.{is_handled}
use elite_gate.GatewayWorker.Ticked.{
  is_due_for, locked_for, Ticked, rests, strands, steps, reserves_and_steps, leaves, stalls,
  reserves_and_stalls,
}
use elite_gate.GatewayWorker.Ticks.{process_next_gateway_job-Rows}

due-queued :
    (e : GatewayEnv) (r : Gateway) (at : IngressStatus)
    → is_ingress_queued at ≡ false
    → is_due_for e r ≡ true
    → r.provisioning_status ≢ at
unfolding is_ingress_claimable
due-queued e r at idle due h =
    let queued : is_ingress_queued r.provisioning_status ≡ true = ground arith in
    true_not_false (sym queued ∙ ap is_ingress_queued h ∙ idle)

module _ (e : GatewayEnv) (job : GatewayProvisioningJob) where
  Step-completed :
      (x : Gateway) {at : IngressStatus} {o : Option ℕ} {change : Gateway → Gateway}
      → x.provisioning_status ≡ at
      → at ≢ completed
      → Step e job at o change
      → ((change x).provisioning_status ≢ completed) ⊎ IsServing e job
  Step-completed x h n (groups arn a) = inl (λ k. cc)
  Step-completed x h n (registers a) = inl (λ k. cc)
  Step-completed x h n (rules p arn a) = inl (λ k. cc)
  Step-completed x h n (goes_live v) = inr v
  Step-completed x h n (rechecks state a b c) = inl (λ k. n (sym h ∙ k))
  Step-completed x h n (retries m l why) = inl (λ k. n (sym h ∙ k))
  Step-completed x h n (gives_up m l) = inl (λ k. cc)

  Step-deprovisioned :
      (x : Gateway) {at : IngressStatus} {o : Option ℕ} {change : Gateway → Gateway}
      → x.provisioning_status ≡ at
      → at ≢ deprovisioned
      → Step e job at o change
      → (change x).provisioning_status ≢ deprovisioned
  Step-deprovisioned x h n (groups arn a) = λ k. cc
  Step-deprovisioned x h n (registers a) = λ k. cc
  Step-deprovisioned x h n (rules p arn a) = λ k. cc
  Step-deprovisioned x h n (goes_live v) = λ k. cc
  Step-deprovisioned x h n (rechecks state a b c) = λ k. n (sym h ∙ k)
  Step-deprovisioned x h n (retries m l why) = λ k. n (sym h ∙ k)
  Step-deprovisioned x h n (gives_up m l) = λ k. cc

  -- Every step gives the lease back, and none begins a tenth retry.
  Step-unlocked :
      (x : Gateway) {at : IngressStatus} {o : Option ℕ} {change : Gateway → Gateway}
      → Step e job at o change
      → (change x).lease_token ≡ none
  Step-unlocked x (groups arn a) = refl
  Step-unlocked x (registers a) = refl
  Step-unlocked x (rules p arn a) = refl
  Step-unlocked x (goes_live v) = refl
  Step-unlocked x (rechecks state a b c) = refl
  Step-unlocked x (retries m l why) = refl
  Step-unlocked x (gives_up m l) = refl

  Step-retries :
      (x : Gateway) {at : IngressStatus} {o : Option ℕ} {change : Gateway → Gateway}
      → x.retry_count ≡ job.retry_count
      → x.retry_count < max_retries
      → Step e job at o change
      → (change x).retry_count < max_retries
  Step-retries x h l (groups arn a) = l
  Step-retries x h l (registers a) = l
  Step-retries x h l (rules p arn a) = l
  Step-retries x h l (goes_live v) = l
  Step-retries x h l (rechecks state a b c) = l
  Step-retries x h l (retries m k why) = omega (arith, h, k)
  Step-retries x h l (gives_up m k) = l

module _ (e : GatewayEnv) (token : ℕ) (ok : List Gateway → Bool) where
  Ticked-completed :
      (r s : Gateway)
      → Ticked e token ok r s
      → (s.provisioning_status ≢ completed) ⊎ (s ≡ r) ⊎ IsServing e (gateway_job_of token r)
  unfolding set_locked
  Ticked-completed r s rests = inr (inl refl)
  Ticked-completed r s (strands due h) = inl (due-queued e r completed refl due)
  Ticked-completed r s (steps due step) =
      live (Step-completed e _ (locked_for e token r) refl (due-queued e r completed refl due) step)
    where
      live : {A B C : Type 0} → A ⊎ C → A ⊎ B ⊎ C
      live (inl a) = inl a
      live (inr c) = inr (inr c)
  Ticked-completed r s (reserves_and_steps p range due step) =
      live (Step-completed e _ _ refl (due-queued e r completed refl due) step)
    where
      live : {A B C : Type 0} → A ⊎ C → A ⊎ B ⊎ C
      live (inl a) = inl a
      live (inr c) = inr (inr c)
  Ticked-completed r s (leaves due gone at) = inl (λ k. cc)
  Ticked-completed r s (stalls rows due no_rows) = inl (due-queued e r completed refl due)
  Ticked-completed r s (reserves_and_stalls p rows range due no_rows) =
      inl (due-queued e r completed refl due)

  Ticked-deprovisioned :
      (r s : Gateway)
      → Ticked e token ok r s
      → (s.provisioning_status ≢ deprovisioned)
        ⊎ (s ≡ r)
        ⊎ ((r.provisioning_status ≡ deprovisioning) × IsRemoved e (gateway_job_of token r))
  unfolding set_locked
  Ticked-deprovisioned r s rests = inr (inl refl)
  Ticked-deprovisioned r s (strands due h) = inl (due-queued e r deprovisioned refl due)
  Ticked-deprovisioned r s (steps due step) = inl (
      Step-deprovisioned e _ (locked_for e token r) refl (due-queued e r deprovisioned refl due)
        step)
  Ticked-deprovisioned r s (reserves_and_steps p range due step) =
      inl (Step-deprovisioned e _ _ refl (due-queued e r deprovisioned refl due) step)
  Ticked-deprovisioned r s (leaves due gone at) = inr (inr (at, gone))
  Ticked-deprovisioned r s (stalls rows due no_rows) = inl (due-queued e r deprovisioned refl due)
  Ticked-deprovisioned r s (reserves_and_stalls p rows range due no_rows) =
      inl (due-queued e r deprovisioned refl due)

  -- What a call leaves under its token: a row that no handler takes.
  Ticked-unlocked :
      ((rows : List Gateway) → ok rows ≡ true)
      → (r s : Gateway) → Ticked e token ok r s
      → (s.lease_token ≡ r.lease_token)
        ⊎ (s.lease_token ≡ none)
        ⊎ ((is_handled s.provisioning_status ≡ false) × (is_due_for e r ≡ true))
  unfolding set_locked
  Ticked-unlocked all r s rests = inl refl
  Ticked-unlocked all r s (strands due h) = inr (inr (h, due))
  Ticked-unlocked all r s (steps due step) = inr (inl (Step-unlocked e _ _ step))
  Ticked-unlocked all r s (reserves_and_steps p range due step) =
      inr (inl (Step-unlocked e _ _ step))
  Ticked-unlocked all r s (leaves due gone at) = inr (inl refl)
  Ticked-unlocked all r s (stalls rows due no_rows) =
      absurd (true_not_false (sym (all rows) ∙ no_rows))
  Ticked-unlocked all r s (reserves_and_stalls p rows range due no_rows) =
      absurd (true_not_false (sym (all rows) ∙ no_rows))

  pub Ticked-retries :
      (r s : Gateway)
      → Ticked e token ok r s
      → r.retry_count < max_retries
      → s.retry_count < max_retries
  unfolding set_locked gateway_job_of
  Ticked-retries r s rests l = l
  Ticked-retries r s (strands due h) l = l
  Ticked-retries r s (steps due step) l = Step-retries e _ _ refl l step
  Ticked-retries r s (reserves_and_steps p range due step) l = Step-retries e _ _ refl l step
  Ticked-retries r s (leaves due gone at) l = l
  Ticked-retries r s (stalls rows due no_rows) l = l
  Ticked-retries r s (reserves_and_stalls p rows range due no_rows) l = l

module _ (e : GatewayEnv) (token : ℕ) where
  -- After a call of ProcessNextJob, a row is not completed, or as it was before, or the load
  -- balancer has answered that its target is healthy.
  pub process_next_gateway_job-IsServing :
      (db : GatewayTable)
      → HasIds db.rows
      → Rows
          (λ r s.
            (s.provisioning_status ≢ completed) ⊎ (s ≡ r) ⊎ IsServing e (gateway_job_of token r))
          db.rows
          (process_next_gateway_job e token db).0.table.rows
  process_next_gateway_job-IsServing db keys =
      Rows-map _ _ db.rows _ (Ticked-completed e token db.accepts)
        (process_next_gateway_job-Rows e token db keys)

  -- After a call of ProcessNextJob, a row is not deprovisioned, or as it was before, or it was to
  -- be deprovisioned and every removal has answered without an error: of its host rule, its target
  -- and its target group, each where the row has one, and of its container.
  pub process_next_gateway_job-IsRemoved :
      (db : GatewayTable)
      → HasIds db.rows
      → Rows
          (λ r s.
            (s.provisioning_status ≢ deprovisioned)
            ⊎ (s ≡ r)
            ⊎ ((r.provisioning_status ≡ deprovisioning) × IsRemoved e (gateway_job_of token r)))
          db.rows
          (process_next_gateway_job e token db).0.table.rows
  process_next_gateway_job-IsRemoved db keys =
      Rows-map _ _ db.rows _ (Ticked-deprovisioned e token db.accepts)
        (process_next_gateway_job-Rows e token db keys)

  -- Where the database refuses no update, after a call of ProcessNextJob the lease of a row is what
  -- it was, or is given back, or the row was claimed in a status that ProcessNextJob has no case for.
  pub process_next_gateway_job-unlocked :
      (db : GatewayTable)
      → ((rows : List Gateway) → db.accepts rows ≡ true)
      → HasIds db.rows
      → Rows
          (λ r s.
            (s.lease_token ≡ r.lease_token)
            ⊎ (s.lease_token ≡ none)
            ⊎ ((is_handled s.provisioning_status ≡ false) × (is_due_for e r ≡ true)))
          db.rows
          (process_next_gateway_job e token db).0.table.rows
  process_next_gateway_job-unlocked db all keys =
      Rows-map _ _ db.rows _ (Ticked-unlocked e token db.accepts all)
        (process_next_gateway_job-Rows e token db keys)
