-- ===== src/DomainService/Resuming.antt =====
-- custom_domain_service.go, performRetry: where a failed provisioning takes up its work.
use elite_gate.Prelude.{
  ℕ, ◌≢◌, [], ◌∷◌, ◌≡◌, refl, sym, ◌∙◌, ap, ◌⊎◌, inl, inr, true, false, Option, none, some,
  Bool-cases, true_not_false,
}
use elite_gate.Text.{Text, codes, text_eq}
use elite_gate.Text.Laws.{text_eq_iff}
use elite_gate.Domain.{
  CustomDomain, ProvisioningStatus, requesting_certificate, waiting_for_validation_record,
  waiting_for_dns, attaching_certificate,
}
use elite_gate.DomainService.Lifecycle.{retry_target, is_given, is_issued_text}

abbrev pub IsBlank : Option Text → Type 0
IsBlank o = (o ≡ none) ⊎ (o ≡ some [])

abbrev pub IsFilled : Option Text → Type 0
IsFilled o = (x : ℕ) × (rest : Text) × (o ≡ some (x ∷ rest))

-- Where a failed provisioning takes up its work: at the first step that its row has nothing of.
pub data ResumesAt (r : CustomDomain) : ProvisioningStatus → Type 0 where
  has_no_certificate : IsBlank r.certificate_arn → ResumesAt r requesting_certificate
  has_no_record :
      IsFilled r.certificate_arn
      → IsBlank r.certificate_validation_name
      → ResumesAt r waiting_for_validation_record
  has_issued :
      IsFilled r.certificate_arn
      → IsFilled r.certificate_validation_name
      → r.certificate_status ≡ some (codes "issued")
      → ResumesAt r attaching_certificate
  has_not_issued :
      IsFilled r.certificate_arn
      → IsFilled r.certificate_validation_name
      → r.certificate_status ≢ some (codes "issued")
      → ResumesAt r waiting_for_dns

given_cases :
    (o : Option Text) → ((is_given o ≡ false) × IsBlank o) ⊎ ((is_given o ≡ true) × IsFilled o)
given_cases none = inl (refl, inl refl)
given_cases (some []) = inl (refl, inr refl)
given_cases (some (x ∷ rest)) = inr (refl, (x, rest, refl))

issued_text : (o : Option Text) → is_issued_text o ≡ true → o ≡ some (codes "issued")
issued_text none h = absurd (true_not_false (sym h))
issued_text (some t) h = ap some ((text_eq_iff t (codes "issued")).0 h)

text_issued : is_issued_text (some (codes "issued")) ≡ true
unfolding text_eq
text_issued = refl

pub retry_target-ResumesAt : (r : CustomDomain) → ResumesAt r (retry_target r)
unfolding retry_target
retry_target-ResumesAt r = elim (given_cases r.certificate_arn) [
  | inl blank ↦ rw (blank.0) (has_no_certificate blank.1)
  | inr arn ↦ elim (given_cases r.certificate_validation_name) [
    | inl blank ↦ rw (arn.0, blank.0) (has_no_record arn.1 blank.1)
    | inr name ↦ elim (Bool-cases (is_issued_text r.certificate_status)) [
      | inl issued ↦
          rw (arn.0, name.0, issued)
            (has_issued arn.1 name.1 (issued_text r.certificate_status issued))
      | inr other ↦
          rw (arn.0, name.0, other)
            (has_not_issued arn.1 name.1
              (λ same. true_not_false (sym (ap is_issued_text same ∙ text_issued) ∙ other)))
    ]
  ]
]
