-- ===== src/Provisioner/Errors.antt =====
-- provisioner.go: the reading of AWS errors, and the texts that are stored.
use elite_gate.Prelude.{Bool, ◌||◌, not, ◌++◌, if◌then◌else◌, [], ◌∷◌, any}
use elite_gate.Text.{
  Text, Unicode, codes, contains, text_eq, to_lower, to_upper, trim_space, is_empty,
}
use elite_gate.Provisioner.{
  CloudError, resource_not_found, invalid_parameter, access_denied, throttling, limit_exceeded,
}

pub data ErrorCategory : Type 0 where
  transient terminal : ErrorCategory

-- The messages of the handlers.
pub data Reason : Type 0 where
  no_reason certificate_not_found invalid_request iam_denied service_transient : Reason
  operation_failed : Text → Reason
  missing_arn_validation missing_arn_dns missing_arn_attaching not_managed : Reason
  failed_validation : Text → Reason
  unknown_status unrecognized_status unrecognized_attaching : Text → Reason
  ingress_not_ready : Reason
  ingress_query_failed : Text → Reason
  routed_elsewhere : Reason
  validation_timed_out no_contacts more_verification revoked expired inactive : Reason
  certificate_failed : Text → Reason
  issuance_failed : Reason

unfoldable pub reason_text : Reason → Text
reason_text no_reason = []
reason_text certificate_not_found = codes "ACM certificate resource not found"
reason_text invalid_request = codes "Invalid parameters for ACM certificate request"
reason_text iam_denied = codes "AWS IAM access denied for ACM operation"
reason_text service_transient = codes "AWS ACM service transient error / throttling"
reason_text (operation_failed t) = codes "AWS ACM operation failed transiently: " ++ t
reason_text missing_arn_validation =
    codes "Missing ACM certificate ARN in waiting_for_validation_record state"
reason_text missing_arn_dns = codes "Missing ACM certificate ARN in waiting_for_dns state"
reason_text missing_arn_attaching =
    codes "Missing ACM certificate ARN in attaching_certificate state"
reason_text not_managed = codes "Certificate not managed by EliteGate"
reason_text (failed_validation t) = codes "ACM certificate failed validation: " ++ t
reason_text (unknown_status t) = codes "Unknown ACM certificate status: " ++ t
reason_text (unrecognized_status t) = codes "Unrecognized ACM status: " ++ t
reason_text (unrecognized_attaching t) = codes "Unrecognized ACM status during attachment: " ++ t
reason_text ingress_not_ready = codes "Project dedicated gateway ingress is not ready"
reason_text (ingress_query_failed t) = codes "Failed to query active project gateway ingress: " ++ t
reason_text routed_elsewhere =
    codes "Custom domain hostname is already routed to another target group"
reason_text validation_timed_out = codes "ACM domain validation timed out"
reason_text no_contacts = codes "ACM validation failed: no available contacts"
reason_text more_verification = codes "ACM validation failed: additional verification required"
reason_text revoked = codes "ACM certificate was revoked"
reason_text expired = codes "ACM certificate expired"
reason_text inactive = codes "ACM certificate is inactive"
reason_text (certificate_failed t) = codes "ACM certificate failed: " ++ t
reason_text issuance_failed = codes "ACM certificate issuance failed"

-- ClassifyAWSError, for an error that is not nil.
unfoldable pub classify_aws_error : Unicode → CloudError → ErrorCategory × Reason
classify_aws_error u err =
    let lowered = to_lower u err.message in
    if err.is_a resource_not_found || contains lowered (codes "resourcenotfoundexception")
    then (terminal, certificate_not_found)
    else if err.is_a invalid_parameter
        || contains lowered (codes "invalidparameterexception")
        || contains lowered (codes "invalid domain")
    then (terminal, invalid_request)
    else if err.is_a access_denied
        || contains lowered (codes "accessdeniedexception")
        || contains lowered (codes "access denied")
    then (terminal, iam_denied)
    else if err.is_a throttling
        || err.is_a limit_exceeded
        || contains lowered (codes "throttling")
        || contains lowered (codes "toomanyrequests")
        || contains lowered (codes "limitexceeded")
        || contains lowered (codes "timeout")
        || contains lowered (codes "connection refused")
        || contains lowered (codes "503")
        || contains lowered (codes "500")
    then (transient, service_transient)
    else (transient, operation_failed err.message)

unfoldable pub is_resource_not_found_err : Unicode → CloudError → Bool
is_resource_not_found_err u err =
    let lowered = to_lower u err.message in
    err.is_a resource_not_found
    || contains lowered (codes "resourcenotfoundexception")
    || contains lowered (codes "not found")
    || contains lowered (codes "does not exist")

-- SanitizeACMFailureReason
unfoldable pub sanitize_acm_failure_reason : Unicode → Text → Reason
sanitize_acm_failure_reason u reason =
    let key = to_upper u (trim_space u reason) in
    if text_eq key (codes "DOMAIN_VALIDATION_TIMED_OUT")
      || text_eq key (codes "VALIDATION_TIMED_OUT")
    then validation_timed_out
    else if text_eq key (codes "FAILURE_REASON_NO_AVAILABLE_CONTACTS")
    then no_contacts
    else if text_eq key (codes "FAILURE_REASON_ADDITIONAL_VERIFICATION_REQUIRED")
    then more_verification
    else if text_eq key (codes "REVOKED")
    then revoked
    else if text_eq key (codes "EXPIRED")
    then expired
    else if text_eq key (codes "INACTIVE")
    then inactive
    else if not (is_empty reason)
    then certificate_failed reason
    else issuance_failed

-- The cases of the switch on the trimmed status in upper case.
pub data AcmStatus : Type 0 where
  issued pending_validation broken other : AcmStatus

unfoldable pub upper_status : Unicode → Text → Text
upper_status u status = to_upper u (trim_space u status)

unfoldable pub read_status : Text → AcmStatus
read_status s =
    if text_eq s (codes "ISSUED")
    then issued
    else if text_eq s (codes "PENDING_VALIDATION")
    then pending_validation
    else if any (λ t. text_eq s t)
        (codes "FAILED"
          ∷ codes "VALIDATION_TIMED_OUT"
          ∷ codes "REVOKED"
          ∷ codes "EXPIRED"
          ∷ codes "INACTIVE"
          ∷ [])
    then broken
    else other

-- The message for a broken certificate.
unfoldable pub broken_reason : Unicode → Text → Text → Reason
unfolding sanitize_acm_failure_reason
broken_reason u failure_reason status =
    if is_empty failure_reason
    then sanitize_acm_failure_reason u status
    else sanitize_acm_failure_reason u failure_reason
