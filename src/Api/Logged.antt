-- ===== src/Api/Logged.antt =====
-- What the server of src/api.rs and src/lib.rs logs of the requests that it refuses.
use tex_attestation_server.Prelude.{ℕ, ◌≡◌, Option, none, some, ◌++◌, ◌⊎◌}
use tex_attestation_server.Prelude.Result.{Result}
use tex_attestation_server.Text.{Bytes, Text, lit}
use tex_attestation_server.Text.Decimal.{decimal}
use tex_attestation_server.Logging.{quote_if_needed}
use tex_attestation_server.Tpm.Machine.{Machine}
use tex_attestation_server.Api.{ErrorResponse}
use tex_attestation_server.Api.Routes.{catcher, Incoming, failed, default_page, Reply}

-- The line of the log on a refused request: when, which request, the status and the message.
pub entry : Text → Incoming → ℕ → Text → Text
entry stamp req status message =
    stamp
    ++ (lit " ERROR event=error method="
        ++ (quote_if_needed req.method
            ++ (lit " uri="
                ++ (quote_if_needed req.uri
                    ++ (lit " status="
                        ++ (quote_if_needed (decimal status)
                            ++ (lit " message=" ++ (quote_if_needed message ++ lit "\n"))))))))

-- The second log is the first one with the line behind it; where there is no log, there is none.
abbrev pub Appended : Option Bytes → Text → Option Bytes → Type 0
Appended none line after = after ≡ none
Appended (some log) line after = after ≡ some (log ++ line)

-- A reply is a success that logs nothing, or an error whose status and message stand in the line
-- behind the log, or a page of Rocket for a code that has no catcher.
abbrev pub Logged : Option Bytes → Text → Incoming → Option Bytes × Reply → Type 0
Logged sink stamp req (sink', (status, body)) =
    ((status ≡ 200) × (sink' ≡ sink))
    ⊎ ((e : ErrorResponse) × (body ≡ failed e)
        × Appended sink (entry stamp req status e.error) sink')
    ⊎ ((catcher status ≡ none) × (body ≡ default_page) × (sink' ≡ sink))
