-- ===== src/Lib.antt =====
-- The attestation server answers challenges of a verifier on a TDX machine: it measures a folder
-- into a PCR of a TPM, quotes the PCR for a nonce, has the TDX module make a report for the same
-- nonce, verifies such evidence, decodes reports, and runs a script that attests the GPUs. It
-- also keeps an audit log and, in debug builds, timing records.
--
-- Prelude and its children hold the shared types, lists measured by native numbers, results and
-- the monad of the backends: a function from a world to a result and the next world, where an
-- error keeps what was done before it. Text models the strings of Rust as UTF-8 bytes. Outside
-- holds what the server calls and does not implement, all of it parameters: the crates hex,
-- base64 and sha2 with their laws, programs, files, devices and the clock.
--
-- Attestation (attestation.rs) makes and verifies reports through the devices: report_data_from,
-- generate_tdx_report, verify_tdx_report. Kmod (kmod/tdx_verify.c and its header,
-- kmod/tdx_verify_uapi.h) is the kernel module behind the device that verifies: the handler of
-- the ioctl and the TDCALL, over a kernel that is a parameter. Report (report.rs) decodes a
-- report. Tpm (tpm.rs) is split by its parts: Tpm.Types (payloads, errors), Tpm.Config
-- (TpmConfig), Tpm.Nonce (normalize_nonce, resolved_nonce), Tpm.Folder (measure_folder and the
-- walk below it), Tpm.Machine (the state behind the lock, and Scratch), Tpm.Command (the tpm2
-- programs), Tpm.Cycle (measure_and_extend, create_quote, information_tpm, quote_tpm) and
-- Tpm.Combined (attestation_all, verify_all). Gpu (gpu.rs) parses the output of the script.
-- Logging (logging.rs) writes the lines of the log, and Logging.Sink has the sink, init, the
-- panic hook and the fairing. Metrics (metrics.rs) keeps the timing record and prints it, and
-- Metrics.Scope has the recorders of the requests, the request of each thread, the spans and the
-- write of the file. Api (api.rs) has the handlers and the error responses, Api.Evidence and
-- Api.Refusal carry what holds of the backend to the routes, Api.Routes the routes and catchers
-- that lib.rs mounts, Api.Launch what lib.rs sets up. Clock has the time stamps and
-- civil_from_days, which tpm.rs, logging.rs and metrics.rs repeat. The Rust sources are in the
-- directory src of the repository. The modules below a part prove what is listed here about it.
--
-- information_tpm, quote_tpm and attestation_all hold the lock of the TPM state from their start
-- to their end, so that each is a function on the state of Tpm.Machine. verify_all takes no lock;
-- it is such a function too, on files in a scratch directory of its own, and what other requests
-- do to the world while it runs is not modelled. What every step of a transaction keeps is proved
-- once, for any host, in the modules named Keeping, and that the steps but one leave the cached
-- key in those named Leaving. To state the order of commands, Tpm.Machine.Recording wraps a host
-- into one that also notes every command that resets, extends or quotes a PCR;
-- Tpm.Machine.Scratch wraps one that notes the directories that are left. What the programs of
-- tpm2-tools do to the PCR is a record of laws, Tpm.Cycle.Pcr; what they do to the Attestation
-- Key is one in Tpm.Command.Key, what signing and checking a quote mean is SignerLaws in
-- Tpm.Cycle.Signed and CheckquoteLaws in Tpm.Combined.Verdict, what the TDX module does with its
-- own reports is MacLaws in Tpm.Combined.Genuine, and that a file holds what was written to it is
-- FileLaws in Outside. What a machine needs to verify evidence is Available in
-- Tpm.Combined.Answering. The walk of the folder has fuel for the depth of the tree, Host.depth,
-- beyond which the source would use up its stack; printing a number n has n + 1 rounds, which are
-- more than its digits. Counters of machine width keep their wrap-around.
--
-- Simplified: the file of the log is the text in the sink, which an event extends at its end, and
-- a write or a lock of it that fails is left out; the walk of a folder and the reads of its files
-- see one state of the disk; the arrival of a request, its recorder and the load of the counter
-- of those in flight are one step of begin_request.
--
-- Not modelled: Rocket itself, whose choice of a route or of a code that a catcher answers is a
-- parameter, and main.rs; serde_json, whose readings of a body are a parameter; in the kernel
-- module the registration of the device and the lines of the kernel log; the script and the
-- simulator; the metrics and log calls inside the backends; the output on the console; the
-- working directory of the GPU script; the memory addresses of the structs given to ioctl.
pub mod Prelude
pub mod Text
pub mod Clock
pub mod Outside
pub mod Attestation
pub mod Report
pub mod Kmod
pub mod Tpm
pub mod Gpu
pub mod Logging
pub mod Metrics
pub mod Api
pub mod Tests
