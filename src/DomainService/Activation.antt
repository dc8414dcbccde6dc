-- ===== src/DomainService/Activation.antt =====
-- custom_domain_service.go, ActivateCustomDomain: when a provisioning is queued, and from where.
use elite_gate.Prelude.{
  ℕ, ◌≡◌, refl, sym, ◌∙◌, ap, ◌⊎◌, inl, inr, Bool, true, false, ◌||◌, not, Option, none, some,
  if◌then◌else◌, arith, true_not_false,
}
use mathlib.Core.Path.{subst}
use elite_gate.Table.{find, exec}
use elite_gate.Domain.Laws.{same_status_iff}
use elite_gate.Domain.{
  CustomDomain, ProvisioningStatus, requesting_certificate, completed, same_status, is_verified,
  is_active, is_ready,
}
use elite_gate.DomainRepo.{
  Store, RepoError, database_error, domain_not_eligible, domain_not_eligible_for_retry,
}
use elite_gate.DomainRepo.Requests.{
  Reply, row, refused, returning, update_returning, reread, set_restarted, enqueue_missed,
  is_under_way, enqueue_provisioning, reset_provisioning_for_retry,
}
use elite_gate.DomainService.{DomainEnv, load_domain}
use elite_gate.DomainService.Lifecycle.{
  in_progress, retry_target, activation_queued, activation_in_progress, activation_already_active,
  Activation, activation, not_activated, queued_activation, perform_retry, activate_loaded,
  activate_custom_domain,
}
use elite_gate.DomainService.Resuming.{ResumesAt, retry_target-ResumesAt}

-- What a queued activation has found, and the state that the answered domain is in. Where another
-- request has queued the domain in between, that is the row which the last query finds.
pub record IsQueued (e : DomainEnv) (read seen : Store) (project id : ℕ) (d : CustomDomain)
    : Type 0 where
  pub loaded : CustomDomain
  pub found : load_domain read id project ≡ row loaded
  pub verified : is_verified loaded.status ≡ true
  pub ready : is_ready loaded.routing_status ≡ true
  pub starts :
      (d.provisioning_status ≡ requesting_certificate)
      ⊎ ((reread seen id project ≡ row d) × (is_under_way d.provisioning_status ≡ true))
      ⊎ ((loaded.provisioning_status ≡ ProvisioningStatus.failed)
          × ResumesAt loaded d.provisioning_status)

abbrev is_queued_answer : Activation → Bool
is_queued_answer (activation r activation_queued) = true
is_queued_answer (activation r activation_in_progress) = false
is_queued_answer (activation r activation_already_active) = false
is_queued_answer (not_activated err) = false

not_queued_answer :
    {W : Type 0} (a : Activation) (d : CustomDomain)
    → is_queued_answer a ≡ false
    → a ≡ activation d activation_queued
    → W
not_queued_answer a d h k = absurd (true_not_false (sym (ap is_queued_answer k) ∙ h))

queued-row :
    (o : Store × Reply) (d : CustomDomain)
    → (queued_activation o).1 ≡ activation d activation_queued
    → o.1 ≡ row d
queued-row (db, row r) d h = ap reply_of h
  where
    reply_of : Activation → Reply
    reply_of (activation s state) = row s
    reply_of (not_activated err) = refused database_error
queued-row (db, refused err) d h = not_queued_answer _ d refl h

row_injective : (r s : CustomDomain) → row r ≡ row s → r ≡ s
row_injective r s h = ap row_of h
  where
    row_of : Reply → CustomDomain
    row_of (row t) = t
    row_of (refused err) = r

not_refused : {W : Type 0} (err : RepoError) (r : CustomDomain) → refused err ≡ row r → W
not_refused err r h = absurd (true_not_false (sym (ap is_row h)))
  where
    is_row : Reply → Bool
    is_row (row t) = true
    is_row (refused e) = false

-- The row of an UPDATE … RETURNING is a changed one, or what is answered for no row.
returned :
    (db : Store) (test : CustomDomain → Bool) (change : CustomDomain → CustomDomain)
    (missed : Reply) (d : CustomDomain)
    → (update_returning db test change missed).1 ≡ row d
    → ((r : CustomDomain) × (change r ≡ d)) ⊎ ((db.up ≡ true) × (missed ≡ row d))
unfolding update_returning
returned db test change missed d h = by_up db.up refl h
  where
    by_found :
        (o : Option CustomDomain)
        → db.up ≡ true
        → returning change missed o ≡ row d
        → ((r : CustomDomain) × (change r ≡ d)) ⊎ ((db.up ≡ true) × (missed ≡ row d))
    by_found none up k = inr (up, k)
    by_found (some r) up k = inl (r, row_injective (change r) d k)

    by_up :
        (b : Bool)
        → db.up ≡ b
        → (if◌then◌else◌ {A = Store × Reply} b
            (
              record db { rows = exec test change db.rows },
              returning change missed (find test db.rows),
            )
            (db, refused database_error)).1
          ≡ row d
        → ((r : CustomDomain) × (change r ≡ d)) ⊎ ((db.up ≡ true) × (missed ≡ row d))
    by_up true up k = by_found (find test db.rows) up k
    by_up false up k = not_refused database_error d k

module _ (e : DomainEnv) (read db seen : Store) (project id : ℕ) (d : CustomDomain) where
  retried-ResumesAt :
      (r : CustomDomain) → (perform_retry e db r).1 ≡ row d → ResumesAt r d.provisioning_status
  unfolding perform_retry reset_provisioning_for_retry set_restarted
  retried-ResumesAt r h =
      elim (returned db _ (set_restarted (retry_target r) e.db_now)
        (refused domain_not_eligible_for_retry) d h) [
          | inl v ↦
              subst (ResumesAt r) (ap (λ x. x.provisioning_status) v.1) (retry_target-ResumesAt r)
          | inr v ↦ not_refused _ d v.1
        ]

  if_row :
      (b : Bool) (x : CustomDomain)
      → (if b then row x else refused domain_not_eligible) ≡ row d
      → (b ≡ true) × (x ≡ d)
  if_row true x h = (refl, row_injective x d h)
  if_row false x h = not_refused _ d h

  if_not_refused :
      (b : Bool) (o : Reply) → (if b then refused domain_not_eligible else o) ≡ row d → o ≡ row d
  if_not_refused true o h = not_refused _ d h
  if_not_refused false o h = h

  missed-under_way :
      (o : Reply)
      → enqueue_missed o ≡ row d
      → (o ≡ row d) × (is_under_way d.provisioning_status ≡ true)
  missed-under_way (refused err) h = not_refused err d h
  missed-under_way (row r) h =
      let v = if_row _ r (if_not_refused _ _ h) in
      (ap row v.1, subst (λ x. is_under_way x.provisioning_status ≡ true) v.1 v.0)

  enqueued-state :
      (enqueue_provisioning db seen e.db_now id project).1 ≡ row d
      → (d.provisioning_status ≡ requesting_certificate)
        ⊎ ((reread seen id project ≡ row d) × (is_under_way d.provisioning_status ≡ true))
  unfolding enqueue_provisioning set_restarted
  enqueued-state k =
      elim (returned db _ (set_restarted requesting_certificate e.db_now)
        (enqueue_missed (reread seen id project)) d k) [
          | inl v ↦ inl (sym (ap (λ x. x.provisioning_status) v.1))
          | inr v ↦ inr (missed-under_way _ v.1)
        ]

  queued_state :
      {r : CustomDomain}
      → (d.provisioning_status ≡ requesting_certificate)
        ⊎ ((reread seen id project ≡ row d) × (is_under_way d.provisioning_status ≡ true))
      → (d.provisioning_status ≡ requesting_certificate)
        ⊎ ((reread seen id project ≡ row d) × (is_under_way d.provisioning_status ≡ true))
        ⊎ ((r.provisioning_status ≡ ProvisioningStatus.failed) × ResumesAt r d.provisioning_status)
  queued_state (inl v) = inl v
  queued_state (inr v) = inr (inl v)

  -- A reply that says "queued" only where it may.
  record Earned (o : Store × Activation) : Type 0 where
    holds : o.1 ≡ activation d activation_queued → IsQueued e read seen project id d

  if-Earned :
      {o q : Store × Activation} (b : Bool)
      → (b ≡ true → Earned o)
      → (b ≡ false → Earned q)
      → Earned (if b then o else q)
  if-Earned true v w = v refl
  if-Earned false v w = w refl

  otherwise-Earned : (a : Activation) → is_queued_answer a ≡ false → Earned (db, a)
  otherwise-Earned a h = record { holds = λ k. not_queued_answer a d h k }

  loaded-Earned :
      (o : Reply)
      → load_domain read id project ≡ o
      → Earned (activate_loaded e db seen project id o)
  unfolding activate_loaded
  loaded-Earned (refused err) f = otherwise-Earned _ refl
  loaded-Earned (row r) f =
      if-Earned (is_active r.status || same_status r.provisioning_status completed)
        (λ _. otherwise-Earned _ refl)
        (λ undone.
          if-Earned (in_progress r.provisioning_status) (λ _. otherwise-Earned _ refl)
            (λ waits.
              if-Earned (not (is_verified r.status)) (λ _. otherwise-Earned _ refl)
                (λ known.
                  if-Earned (not (is_ready r.routing_status)) (λ _. otherwise-Earned _ refl)
                    (λ routed. started r f undone waits known routed))))
    where
      started :
          (r : CustomDomain)
          → load_domain read id project ≡ row r
          → (is_active r.status || same_status r.provisioning_status completed) ≡ false
          → in_progress r.provisioning_status ≡ false
          → not (is_verified r.status) ≡ false
          → not (is_ready r.routing_status) ≡ false
          → Earned (
              if same_status r.provisioning_status ProvisioningStatus.failed
              then queued_activation (perform_retry e db r)
              else queued_activation (enqueue_provisioning db seen e.db_now id project))
      started r f undone waits known routed =
          if-Earned (same_status r.provisioning_status ProvisioningStatus.failed)
            (λ failed. record {
              holds = λ k. record {
                loaded = r;
                found = f;
                verified = ground arith;
                ready = ground arith;
                starts =
                    inr (
                      inr ((same_status_iff _ _).0 failed, retried-ResumesAt r (queued-row _ d k)));
              };
            })
            (λ _. record {
              holds = λ k. record {
                loaded = r;
                found = f;
                verified = ground arith;
                ready = ground arith;
                starts = queued_state (enqueued-state (queued-row _ d k));
              };
            })

  -- ActivateCustomDomain answers "queued" only where it has loaded a domain of the project that is
  -- verified and whose routing is ready. The answered domain then requests a certificate; or its
  -- provisioning had failed and it resumes at the first step that the loaded row has nothing of; or
  -- the last query finds it under way, after others have queued it. Other statements may run between
  -- the load, the UPDATE and that query.
  pub activate_custom_domain-IsQueued :
      (activate_custom_domain e read db seen project id).1 ≡ activation d activation_queued
      → IsQueued e read seen project id d
  unfolding activate_custom_domain
  activate_custom_domain-IsQueued h =
      (if-Earned e.automation_enabled (λ _. loaded-Earned _ refl)
          (λ _. otherwise-Earned _ refl)).holds
        h
