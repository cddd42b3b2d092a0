-- ===== src/Tests/Answers.antt =====
-- Tests of what the server prints and answers: the JSON strings and the route of a report.
use tex_attestation_server.Prelude.{◌≡◌, ◌↔◌, true, none, some, [], ◌∷◌, replicate}
use tex_attestation_server.Prelude.Result.{ok, err}
use tex_attestation_server.Text.{Text}
use tex_attestation_server.Tpm.Machine.{Machine}
use tex_attestation_server.Metrics.{escape}
use tex_attestation_server.Metrics.Json.{unescape, unescape-escape}
use tex_attestation_server.Api.{Json, verify_report}
use tex_attestation_server.Api.Trust.{Trusted, verify_report-Trusted}
use tex_attestation_server.Tests.Host.{test_host, test_config}

-- A quote, a backslash, a line break, a control character and a letter of two bytes.
abbrev odd_text : Text
odd_text = b'"' ∷ b'\\' ∷ b'\n' ∷ 1 ∷ 0xc3 ∷ 0xa9 ∷ []

unescape-escape_example : unescape (escape odd_text) ≡ some odd_text
unescape-escape_example = unescape-escape odd_text

abbrev at_rest : Machine (Unit {0})
at_rest = record { world = tt; scratch_counter = 0; ak_pubkey = none }

-- Bodies that hold the report alone.
abbrev bare : Json
bare = record {
  report_field = λ text. ok text;
  quote_request = λ text. err text;
  all_response = λ text. err text;
}

abbrev zero_report : Text
zero_report = replicate 2048 b'0'

verify_report-Trusted_example :
    (verify_report test_host test_config bare (ok zero_report) at_rest).0
      ≡ ok (record { trusted = true })
    ↔ Trusted test_host test_config bare (ok zero_report) at_rest
verify_report-Trusted_example =
    verify_report-Trusted test_host test_config bare (ok zero_report) at_rest
