-- ===== src/Tpm/Types.antt =====
-- The errors and the payloads of src/tpm.rs. A `u64` size or index is a number.
use tex_attestation_server.Prelude.{ℕ, Bool, Option, List, ◌++◌}
use tex_attestation_server.Text.{Text, lit}
use tex_attestation_server.Attestation.{AttestationError}
use tex_attestation_server.Attestation

pub data TpmError : Type 0 where
  not_implemented : Text → TpmError
  invalid_input : Text → TpmError
  internal : Text → TpmError

-- `Display`
unfoldable pub display_error : TpmError → Text
display_error (not_implemented msg) = lit "TPM backend unavailable: " ++ msg
display_error (invalid_input msg) = lit "invalid TPM input: " ++ msg
display_error (internal msg) = lit "internal TPM error: " ++ msg

-- `From<AttestationError>`
unfoldable pub from_attestation : AttestationError → TpmError
from_attestation Attestation.not_implemented =
    not_implemented (lit "TDX attestation is not implemented on this host")
from_attestation (Attestation.invalid_input msg) = invalid_input msg
from_attestation (Attestation.internal msg) = internal msg

pub record MeasuredFile : Type 0 where
  pub name : Text
  pub hash : Text
  pub size : ℕ

pub record FolderMeasurement : Type 0 where
  pub directory : Text
  pub hash_algorithm : Text
  pub measurement : List MeasuredFile
  pub total_hash : Text

pub record TpmMeasurement : Type 0 where
  pub time_stamp : Text
  pub measurement : List MeasuredFile
  pub total_hash : Text

pub record InformationTpmResponse : Type 0 where
  pub backend : Text
  pub simulator : Text
  pub tcti : Text
  pub measured_directory : Text
  pub hash_algorithm : Text
  pub pcr_index : ℕ
  pub measurement : TpmMeasurement
  pub pcr_value : Text
  pub ak_handle : Text
  pub ak_pubkey : Option Text

pub record QuoteTpmRequest : Type 0 where
  pub nonce : Option Text
  pub challenge : Option Text
  pub nonce_size : Option ℕ
  pub mask : Option Text

pub record TpmEvidence : Type 0 where
  pub quote : Text
  pub quote_size : ℕ
  pub signature : Text
  pub message : Text
  pub pcrs : Text
  pub signature_size : ℕ
  pub message_size : ℕ
  pub nonce : Text
  pub nonce_size : ℕ
  pub pcr_index : ℕ
  pub hash_algorithm : Text
  pub ak_handle : Text

pub record TdxEvidence : Type 0 where
  pub report : Text
  pub nonce : Text
  pub nonce_size : ℕ

pub record QuoteEvidence : Type 0 where
  pub tpm : TpmEvidence
  pub tdx : Option TdxEvidence

-- `QuoteTpmResponse` and `AttestationAllResponse`, which have the same fields.
pub record QuoteTpmResponse : Type 0 where
  pub status : ℕ
  pub measurement : TpmMeasurement
  pub pcr_value : Text
  pub pcr_index : ℕ
  pub hash_algorithm : Text
  pub evidence : QuoteEvidence
  pub ak_pubkey : Text

pub record AttestationAllResponse : Type 0 where
  pub status : ℕ
  pub measurement : TpmMeasurement
  pub pcr_value : Text
  pub pcr_index : ℕ
  pub hash_algorithm : Text
  pub evidence : QuoteEvidence
  pub ak_pubkey : Text

pub record VerifyAllResponse : Type 0 where
  pub trusted : Bool
  pub tpm_trusted : Bool
  pub tdx_trusted : Bool

abbrev pub rc_success : ℕ
rc_success = 0
