-- ===== src/Provisioner/Dismantling.antt =====
-- provisioner.go, handleDeprovisioning: the calls before its last statement.
use elite_gate.Prelude.{ℕ, ◌≡◌, refl, Bool, true, false, [], ◌∷◌, ◌++◌, if◌then◌else◌, inl, inr}
use elite_gate.Domain.{ProvisioningJob, deprovisioning}
use elite_gate.DomainRepo.{Store}
use elite_gate.Provisioner.{CloudError, Env, Answer, ok, fails, Call, Calls, Outcome, deref}
use elite_gate.Provisioner.Errors.{
  Reason, ErrorCategory, transient, terminal, is_resource_not_found_err, classify_aws_error,
}
use elite_gate.Provisioner.Removing.{
  stop_by, after_removal, finish_removal, remove_certificate, remove_from_listener, remove_owned,
  removing_stage,
}
use elite_gate.Provisioner.Leaves.{
  Gone, has_rule, owns_certificate, Dismantled, Leaf, retries, removes, keeps,
}

module _ (e : Env) (db : Store) (job : ProvisioningJob) (lease : ℕ) where
  stop_by-Leaf :
      (calls : Calls) (c : ErrorCategory × Reason)
      → Leaf e db job lease deprovisioning (stop_by e db job lease calls c)
  stop_by-Leaf calls (transient, reason) = retries calls reason
  stop_by-Leaf calls (terminal, reason) = keeps calls reason refl

  not_found-Leaf :
      (calls : Calls) (err : CloudError) (b : Bool) (o : Outcome)
      → is_resource_not_found_err e.unicode err ≡ b
      → (Gone e (fails err) → Leaf e db job lease deprovisioning o)
      → Leaf e db job lease deprovisioning
          (if b then o else stop_by e db job lease calls (classify_aws_error e.unicode err))
  not_found-Leaf calls err true o h k = k (inr (err, refl, h))
  not_found-Leaf calls err false o h k = stop_by-Leaf calls _

  -- One optional call on the way down.
  removal-Leaf :
      (b : Bool) (calls : Calls) (call : Call) (a : Answer (Unit {0})) (k : Calls → Outcome)
      → ((cs : Calls) → (b ≡ true → Gone e a) → Leaf e db job lease deprovisioning (k cs))
      → Leaf e db job lease deprovisioning
          (if b then after_removal e db job lease calls call a k else k calls)
  unfolding after_removal
  removal-Leaf true calls call (ok u) k h = h _ (λ _. inl refl)
  removal-Leaf true calls call (fails err) k h =
      not_found-Leaf (calls ++ (call, false) ∷ []) err _ _ refl (λ g. h _ (λ _. g))
  removal-Leaf false calls call a k h = h calls (λ t. cc)

  finish_removal-Leaf :
      (calls : Calls)
      → Dismantled e job
      → Leaf e db job lease deprovisioning (finish_removal e db job lease calls)
  unfolding finish_removal
  finish_removal-Leaf calls v = removes calls v refl

  remove_from_listener-Leaf :
      (calls : Calls)
      → (has_rule e job ≡ true → Gone e (e.cloud.delete_host_rule (deref job.listener_rule_arn)))
      → Leaf e db job lease deprovisioning (remove_from_listener e db job lease calls)
  unfolding remove_from_listener remove_certificate
  remove_from_listener-Leaf calls rule =
      removal-Leaf _ calls _ _ (remove_certificate e db job lease) (λ cs detached.
        removal-Leaf _ cs _ _ (finish_removal e db job lease) (λ ds deleted.
          finish_removal-Leaf ds
            (record { rule = rule; detached = λ _. detached; deleted = λ _. deleted })))

  remove_owned-Leaf :
      (b : Bool) (calls : Calls)
      → owns_certificate job ≡ b
      → (has_rule e job ≡ true → Gone e (e.cloud.delete_host_rule (deref job.listener_rule_arn)))
      → Leaf e db job lease deprovisioning (
          if b
          then remove_from_listener e db job lease calls
          else finish_removal e db job lease calls)
  remove_owned-Leaf true calls h rule = remove_from_listener-Leaf calls rule
  remove_owned-Leaf false calls h rule =
      finish_removal-Leaf calls (record { rule = rule; detached = λ t. cc; deleted = λ t. cc })

  pub removing_stage-Leaf : Leaf e db job lease deprovisioning (removing_stage e db job lease)
  unfolding removing_stage remove_owned
  removing_stage-Leaf =
      removal-Leaf _ [] _ _ (remove_owned e db job lease)
        (λ cs rule. remove_owned-Leaf _ cs refl rule)
