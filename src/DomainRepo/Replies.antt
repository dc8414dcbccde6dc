-- ===== src/DomainRepo/Replies.antt =====
-- custom_domain_repo.go, EnqueueDeprovisioning: when it answers ErrDomainAlreadyDeprovisioned.
use elite_gate.Prelude.{
  ℕ, ◌≡◌, refl, sym, ◌∙◌, ap, Bool, true, false, ◌&&◌, ◌||◌, not, Option, none, some, All, Any,
  arith, if◌then◌else◌, Bool-cases, inl, inr, All-map, true_not_false,
}
use elite_gate.Domain.{CustomDomain}
use elite_gate.DomainRepo.{Store, database_error, domain_already_deprovisioned}
use elite_gate.Table.{find, is_null}
use elite_gate.Table.Effects.{find-some, find-none}
use elite_gate.DomainRepo.Requests.{
  Reply, row, refused, owned, returning, or_not_found, is_going, set_deprovisioning,
  deprovision_missed, update_returning, get_by_id_for_project, reread, enqueue_deprovisioning,
}

-- The domain was on its way out, or gone, at the UPDATE, and stands in another status at the query.
pub record Overtaken (db seen : Store) (id project : ℕ) : Type 0 where
  pub going_at_update :
      All (λ r. owned id project r ≡ true → is_going r.provisioning_status ≡ true) db.rows
  pub later : CustomDomain
  pub is_there : Any (λ r. r ≡ later) seen.rows
  pub is_owned : owned id project later ≡ true
  pub has_left : is_going later.provisioning_status ≡ false

abbrev is_refusal : Reply → Bool
is_refusal (refused domain_already_deprovisioned) = true
is_refusal _ = false

never :
    {W : Type 0} (a : Reply) → is_refusal a ≡ false → a ≡ refused domain_already_deprovisioned → W
never a h e = absurd (true_not_false (sym (ap is_refusal e) ∙ h))

module _ (db seen : Store) (id project : ℕ) where
  left_by :
      (rest : All (λ r. owned id project r ≡ true → is_going r.provisioning_status ≡ true) db.rows)
      (o : Option CustomDomain)
      → find (owned id project) seen.rows ≡ o
      → deprovision_missed (or_not_found o) ≡ refused domain_already_deprovisioned
      → Overtaken db seen id project
  left_by rest none f h = never _ refl h
  left_by rest (some r) f h =
      let hit = find-some (owned id project) seen.rows r f in
      elim (Bool-cases (is_going r.provisioning_status || not (is_null r.deleted_at))) [
        | inl k ↦ never (row r) refl (sym (going k) ∙ h)
        | inr k ↦ record {
          going_at_update = rest;
          later = r;
          is_there = hit.1;
          is_owned = hit.0;
          has_left = ground arith;
        }
      ]
    where
      going :
          (is_going r.provisioning_status || not (is_null r.deleted_at)) ≡ true
          → deprovision_missed (row r) ≡ row r
      going k = rw k refl

  missed_by :
      (rest : All (λ r. owned id project r ≡ true → is_going r.provisioning_status ≡ true) db.rows)
      (b : Bool)
      → deprovision_missed
          (if b then get_by_id_for_project seen id project else refused database_error)
        ≡ refused domain_already_deprovisioned
      → Overtaken db seen id project
  unfolding get_by_id_for_project
  missed_by rest true h = left_by rest _ refl h
  missed_by rest false h = never _ refl h

  returned_by :
      (now : ℕ) (o : Option CustomDomain)
      → find (λ r. owned id project r && not (is_going r.provisioning_status)) db.rows ≡ o
      → returning (set_deprovisioning now) (deprovision_missed (reread seen id project)) o
        ≡ refused domain_already_deprovisioned
      → Overtaken db seen id project
  unfolding reread
  returned_by now (some r) f h = never (row (set_deprovisioning now r)) refl h
  returned_by now none f h =
      missed_by
        (All-map db.rows (λ r miss own. ground (arith, miss, own))
          (find-none (λ r. owned id project r && not (is_going r.provisioning_status)) db.rows f))
        seen.up h

  answered_by :
      (now : ℕ) (b : Bool) (after : Store)
      → (if◌then◌else◌ {A = Store × Reply} b
          (
            after,
            returning
                (set_deprovisioning now)
                (deprovision_missed (reread seen id project))
                (find (λ r. owned id project r && not (is_going r.provisioning_status)) db.rows),
          )
          (db, refused database_error)).1
        ≡ refused domain_already_deprovisioned
      → Overtaken db seen id project
  answered_by now true after h = returned_by now _ refl h
  answered_by now false after h = never _ refl h

  -- EnqueueDeprovisioning answers ErrDomainAlreadyDeprovisioned only where the domain was overtaken
  -- between its two statements: at the UPDATE every live row with the domain's ID and project was on
  -- its way out or gone, and at the query one of them stands in a status that is neither.
  pub enqueue_deprovisioning_lem :
      (now : ℕ)
      → (enqueue_deprovisioning db seen now id project).1 ≡ refused domain_already_deprovisioned
      → Overtaken db seen id project
  unfolding enqueue_deprovisioning update_returning
  enqueue_deprovisioning_lem now h = answered_by now db.up _ h
