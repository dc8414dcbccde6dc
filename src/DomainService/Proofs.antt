-- ===== src/DomainService/Proofs.antt =====
-- custom_domain_service.go, VerifyCustomDomain: what a verified domain has been shown.
use elite_gate.Prelude.{
  ℕ, ◌≡◌, ◌∙◌, ◌++◌, ap, refl, sym, ◌⊎◌, inl, inr, Bool, true, false, ◌||◌, List, [], ◌∷◌,
  if◌then◌else◌, Any, here, there, arith, Bool-cases, true_not_false,
}
use mathlib.Core.Path.{subst}
use elite_gate.Text.{Text, is_empty, has_prefix, skip, trim_prefix, trim_space}
use elite_gate.Text.Laws.{text_eq_iff, has_prefix-skip}
use elite_gate.Table.Effects.{Rows, Rows-refl, Rows-map, Rows-with, exec-Rows}
use elite_gate.Table.Keys
use elite_gate.Domain.{CustomDomain, is_verified, is_active}
use elite_gate.DomainRepo.{Store}
use elite_gate.DomainRepo.Claims.{HasKeys}
use elite_gate.DomainRepo.Effects.{guarded-Rows}
use elite_gate.DomainRepo.Requests.{
  Reply, row, refused, owned, update_returning, mark_verified, set_verified,
  record_verification_failure,
}
use elite_gate.DomainService.{
  DomainEnv, TxtAnswer, txt_records, txt_not_found, txt_fails, served, load_domain,
  verification_prefix, matches_token, contains_matching_verification_token, verify_by_txt,
  verify_loaded, verify_custom_domain,
}
use elite_gate.DomainService.Ownership.{load_domain-owned}

-- A TXT record that is the prefix and a token whose SHA-256 is the stored hash, each with white
-- space around it.
pub record IsProof (e : DomainEnv) (hash txt : Text) : Type 0 where
  pub rest : Text
  pub written : trim_space e.unicode txt ≡ verification_prefix ++ rest
  pub nonempty : is_empty (trim_space e.unicode rest) ≡ false
  pub hashed : e.sha256_hex (trim_space e.unicode rest) ≡ hash

-- The resolver answers such a record under the domain's verification name.
pub record IsProven (e : DomainEnv) (r : CustomDomain) : Type 0 where
  pub records : List Text
  pub found : e.lookup_txt r.verification_record_name ≡ txt_records records
  pub proof : Any (IsProof e r.verification_token_hash) records

trim_prefix-skip : (s p : Text) → has_prefix s p ≡ true → trim_prefix s p ≡ skip s p
unfolding trim_prefix
trim_prefix-skip s p h = rw h refl

module _ (e : DomainEnv) where
  matches_token-IsProof : (hash txt : Text) → matches_token e hash txt ≡ true → IsProof e hash txt
  unfolding matches_token
  matches_token-IsProof hash txt h =
      let prefixed : has_prefix (trim_space e.unicode txt) verification_prefix ≡ true =
        ground arith in
      let cut = trim_prefix-skip (trim_space e.unicode txt) verification_prefix prefixed in
      record {
        rest = trim_prefix (trim_space e.unicode txt) verification_prefix;
        written = has_prefix-skip _ _ prefixed ∙ ap (λ t. verification_prefix ++ t) (sym cut);
        nonempty = ground arith;
        hashed = (text_eq_iff _ hash).0 (ground arith);
      }

  contains-IsProof :
      (hash : Text) (records : List Text)
      → contains_matching_verification_token e records hash ≡ true
      → Any (IsProof e hash) records
  unfolding contains_matching_verification_token
  contains-IsProof hash [] h = absurd (true_not_false (sym h))
  contains-IsProof hash (t ∷ ts) h = elim (Bool-cases (matches_token e hash t)) [
    | inl m ↦ here (matches_token-IsProof hash t m)
    | inr m ↦ there (contains-IsProof hash ts (ground arith))
  ]

module _ (e : DomainEnv) (db : Store) (project id : ℕ) where
  -- A row keeps its status, or it is the project's and proven.
  abbrev pub Shown : CustomDomain → CustomDomain → Type 0
  Shown r s = (s.status ≡ r.status) ⊎ ((owned id project r ≡ true) × IsProven e r)

  -- What the caller does after an answer of the repository.
  record ShownBy {A : Type 0} (o : Store × A) : Type 0 where
    rows : Rows Shown db.rows o.0.rows

  keeps-Shown : {A : Type 0} (a : A) → ShownBy (db, a)
  keeps-Shown a = record { rows = Rows-refl Shown db.rows (λ r. inl refl) }

  if-Shown :
      {A : Type 0} (b : Bool) {o q : Store × A}
      → (b ≡ true → ShownBy o)
      → (b ≡ false → ShownBy q)
      → ShownBy (if b then o else q)
  if-Shown true v w = v refl
  if-Shown false v w = w refl

  served-Shown : (o : Store × Reply) → ShownBy o → ShownBy (served o)
  served-Shown (d, row r) v = record { rows = v.rows }
  served-Shown (d, refused err) v = record { rows = v.rows }

  failure-Shown :
      (c : CustomDomain) (reason : Text)
      → Rows Shown db.rows (record_verification_failure db e.db_now c.id c.project_id reason).0.rows
  unfolding record_verification_failure
  failure-Shown c reason =
      guarded-Rows Shown (owned c.id c.project_id) _ (λ r. inl refl) (λ r h. inl refl) db _

  proven-Shown :
      (c r s : CustomDomain)
      → owned id project c ≡ true
      → IsProven e c
      → (r.id ≡ c.id → r ≡ c)
      → (s.status ≡ r.status) ⊎ (owned c.id c.project_id r ≡ true)
      → Shown r s
  proven-Shown c r s own proven only (inl same) = inl same
  proven-Shown c r s own proven only (inr hit) =
      let it : r ≡ c = only (ground arith) in
      inr (subst (λ x. owned id project x ≡ true) (sym it) own, subst (IsProven e) (sym it) proven)

  verified-Shown :
      (c : CustomDomain)
      → HasKeys db.rows
      → (owned id project c ≡ true) × Any (λ y. y ≡ c) db.rows
      → IsProven e c
      → ShownBy (mark_verified db e.db_now c.id c.project_id)
  unfolding mark_verified update_returning
  verified-Shown c keys (own, member) proven =
      if-Shown db.up
        (λ up. record {
          rows =
              Rows-map _ _ db.rows _ (λ r s v. proven-Shown c r s own proven v.0 v.1)
                (Rows-with _ _ db.rows _ (Keys.HasKeys-IsOnly (λ r. r.id) c db.rows keys member) (
                  exec-Rows (λ r s. (s.status ≡ r.status) ⊎ (owned c.id c.project_id r ≡ true))
                    (owned c.id c.project_id) (set_verified e.db_now) (λ r. inl refl) (λ r h. inr h)
                    db.rows));
        })
        (λ down. keeps-Shown _)

  by_txt-Shown :
      (c : CustomDomain) (a : TxtAnswer)
      → HasKeys db.rows
      → (owned id project c ≡ true) × Any (λ y. y ≡ c) db.rows
      → e.lookup_txt c.verification_record_name ≡ a
      → ShownBy (verify_by_txt e db c a)
  unfolding verify_by_txt
  by_txt-Shown c txt_fails keys own found = keeps-Shown _
  by_txt-Shown c txt_not_found keys own found = record { rows = failure-Shown c _ }
  by_txt-Shown c (txt_records records) keys own found =
      if-Shown (contains_matching_verification_token e records c.verification_token_hash)
        (λ h. served-Shown _ (
          verified-Shown c keys own (record {
            records = records;
            found = found;
            proof = contains-IsProof e c.verification_token_hash records h;
          })))
        (λ h. record { rows = failure-Shown c _ })

  loaded-Shown :
      (o : Reply) → HasKeys db.rows → load_domain db id project ≡ o → ShownBy (verify_loaded e db o)
  loaded-Shown (refused err) keys h = keeps-Shown _
  loaded-Shown (row c) keys h =
      if-Shown (is_verified c.status || is_active c.status) (λ done. keeps-Shown _)
        (λ open_yet. by_txt-Shown c _ keys (load_domain-owned db id project c h) refl)

  -- A call of VerifyCustomDomain changes the status of no row, except of a live row with the
  -- domain's ID and project for which the resolver answers, under the row's verification name, a
  -- TXT record that reads, white space aside, as the prefix and then a token that is not empty and
  -- whose SHA-256 is the stored hash. The IDs are distinct.
  pub verify_custom_domain-Shown :
      HasKeys db.rows → Rows Shown db.rows (verify_custom_domain e db project id).0.rows
  unfolding verify_custom_domain
  verify_custom_domain-Shown keys = (loaded-Shown _ keys refl).rows
