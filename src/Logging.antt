-- ===== src/Logging.antt =====
-- src/logging.rs: the lines of the audit log. The log file is the text that it holds.
pub mod Lines
pub mod Sink
pub mod Append
pub mod Once
pub mod Opening
use tex_attestation_server.Prelude.{
  ℕ, Bool, true, false, ◌||◌, Option, none, some, List, [], ◌∷◌, ◌++◌, any, ◌==◌, if◌then◌else◌,
}
use tex_attestation_server.Text.{Bytes, Text, lit}
use tex_attestation_server.Text.Trim.{has_whitespace}
use tex_attestation_server.Text.Decimal.{decimal}

-- `replace('\\', "\\\\").replace('"', "\\\"")`
unfoldable pub escape_quotes : Text → Text
escape_quotes [] = []
escape_quotes (c ∷ s) =
    if c == b'\\'
    then b'\\' ∷ b'\\' ∷ escape_quotes s
    else if c == b'"'
    then b'\\' ∷ b'"' ∷ escape_quotes s
    else c ∷ escape_quotes s

unfoldable pub needs_quotes : Text → Bool
needs_quotes value = has_whitespace value || any (λ c. (c == b'"') || (c == b'=')) value

unfoldable pub quote_if_needed : Text → Text
quote_if_needed [] = b'"' ∷ b'"' ∷ []
quote_if_needed (c ∷ s) =
    if needs_quotes (c ∷ s) then b'"' ∷ (escape_quotes (c ∷ s) ++ b'"' ∷ []) else c ∷ s

abbrev pub Field : Type 0
Field = Text × Text

unfoldable pub fields_text : List Field → Text
fields_text [] = []
fields_text ((key, value) ∷ rest) =
    b' ' ∷ (key ++ (b'=' ∷ (quote_if_needed value ++ fields_text rest)))

-- The line of one event, with its time stamp.
unfoldable pub event_line : Text → Text → Text → List Field → Text
event_line stamp level message fields =
    stamp ++ (b' ' ∷ (level ++ (b' ' ∷ (message ++ (fields_text fields ++ b'\n' ∷ [])))))

-- `event`: without a sink nothing is written.
unfoldable pub event : Option Bytes → Text → Text → Text → List Field → Option Bytes
event none stamp level message fields = none
event (some log) stamp level message fields = some (log ++ event_line stamp level message fields)

unfoldable pub log_request : Option Bytes → Text → Text → Text → Option Text → Option Bytes
log_request sink stamp method uri client = event sink stamp (lit "INFO") (lit "event=request") (
    (lit "method", method)
    ∷ (lit "uri", uri)
    ∷ (lit "client", elim client [ none ↦ lit "-" | some ip ↦ ip ])
    ∷ [])

unfoldable pub log_response : Option Bytes → Text → Text → Text → ℕ → ℕ → Option Bytes
log_response sink stamp method uri status latency_ms =
    event sink stamp (lit "INFO") (lit "event=response") (
      (lit "method", method)
      ∷ (lit "uri", uri)
      ∷ (lit "status", decimal status)
      ∷ (lit "latency_ms", decimal latency_ms)
      ∷ [])

unfoldable pub log_error : Option Bytes → Text → Text → Text → ℕ → Text → Option Bytes
log_error sink stamp method uri status message =
    event sink stamp (lit "ERROR") (lit "event=error") (
      (lit "method", method)
      ∷ (lit "uri", uri)
      ∷ (lit "status", decimal status)
      ∷ (lit "message", message)
      ∷ [])
