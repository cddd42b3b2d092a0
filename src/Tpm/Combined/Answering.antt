-- ===== src/Tpm/Combined/Answering.antt =====
-- When `verify_all` of src/tpm.rs answers: the steps of it that can fail, forward.
use tex_attestation_server.Prelude.{ℕ, ◌≡◌, refl, Bool, true, some, length, take, drop, ◌==◌, ◌&&◌}
use tex_attestation_server.Prelude.Result.{ok}
use tex_attestation_server.Prelude.Monad.{>>=-ok, map_err-ok, lift}
use tex_attestation_server.Text.{Bytes, Text, lit}
use tex_attestation_server.Text.Utf8.{utf8_valid}
use tex_attestation_server.Outside.{Output}
use tex_attestation_server.Attestation.{
  tdreport_len, tdx_success, tdx_verify_device, tdx_verify_report, verify_tdx_report,
  verify_tdx_report_hardware, from_le_bytes,
}
use tex_attestation_server.Attestation.Binding.{check_length-ok}
use tex_attestation_server.Attestation.Verdict.{request as ioctl_data}
use tex_attestation_server.Tpm.Types.{
  from_attestation, TdxEvidence, TpmEvidence, AttestationAllResponse, VerifyAllResponse,
}
use tex_attestation_server.Tpm.Config.{TpmConfig}
use tex_attestation_server.Tpm.Machine.{
  Host, Machine, on_world, arg, join, scratch_dir, with_scratch, new_scratch,
}
use tex_attestation_server.Tpm.Combined.{
  decode_blob, write_file, checkquote_args, run_checkquote, decode_report, verify_quote_body,
  verify_quote, required_tdx, verify_all,
}

-- A machine that can verify, in every state of the world: the scratch directory that is next has file
-- names in UTF-8, it can be created, its three files can be written, tpm2_checkquote runs on them, and
-- the device of the TDX module opens and answers an `ioctl` with a report of 1024 bytes on the
-- descriptor that it opened.
pub record Available {W : Type 0} (h : Host W) (config : TpmConfig) (counter : ℕ) : Type 0 where
  pub sig_name : utf8_valid (join (scratch_dir h counter) (lit "verify.sig")) ≡ true
  pub msg_name : utf8_valid (join (scratch_dir h counter) (lit "verify.msg")) ≡ true
  pub ak_name : utf8_valid (join (scratch_dir h counter) (lit "verify.ak.pem")) ≡ true
  pub creates : (w : W) → (h.system.create_dir_all (scratch_dir h counter) w).0 ≡ ok tt
  pub writes_sig :
      (bytes : Bytes) (w : W)
      → (h.system.write (join (scratch_dir h counter) (lit "verify.sig")) bytes w).0 ≡ ok tt
  pub writes_msg :
      (bytes : Bytes) (w : W)
      → (h.system.write (join (scratch_dir h counter) (lit "verify.msg")) bytes w).0 ≡ ok tt
  pub writes_ak :
      (bytes : Bytes) (w : W)
      → (h.system.write (join (scratch_dir h counter) (lit "verify.ak.pem")) bytes w).0 ≡ ok tt
  pub runs :
      (evidence : TpmEvidence) (w : W)
      → (output : Output) × ((h.system.spawn
            (lit "tpm2_checkquote")
            (checkquote_args h config evidence
              (join (scratch_dir h counter) (lit "verify.ak.pem"))
              (join (scratch_dir h counter) (lit "verify.msg"))
              (join (scratch_dir h counter) (lit "verify.sig")))
            w).0
          ≡ ok output)
  pub opens : (w : W) → (fd : ℕ) × ((h.system.open_device tdx_verify_device w).0 ≡ ok fd)
  pub answers :
      (fd : ℕ) (report : Bytes) (w : W)
      → (h.system.open_device tdx_verify_device w).0 ≡ ok fd
      → length report ≡ tdreport_len
      → (reply : Bytes) × ((h.system.ioctl fd tdx_verify_report
            (ioctl_data report)
            (h.system.open_device tdx_verify_device w).1).0
          ≡ ok reply)

module _ {W : Type 0} (h : Host W) (config : TpmConfig) where
  arg-valid :
      (dir name : Bytes) (m : Machine W)
      → utf8_valid (join dir name) ≡ true
      → (arg dir name m).0 ≡ ok (join dir name)
  unfolding arg
  arg-valid dir name m valid = rw valid refl

  module _ (counter : ℕ) (can : Available h config counter) where
    write_file-writes :
        (path problem : Text) (bytes : Bytes) (m : Machine W)
        → (h.system.write path bytes m.world).0 ≡ ok tt
        → (write_file h config path bytes problem m).0 ≡ ok tt
    unfolding write_file
    write_file-writes path problem bytes m writes = map_err-ok _ writes

    verify_tdx_report-answers :
        (report : Bytes) (w : W)
        → length report ≡ tdreport_len
        → (trusted : Bool) × ((verify_tdx_report h.system report w).0 ≡ ok trusted)
    unfolding verify_tdx_report verify_tdx_report_hardware
    verify_tdx_report-answers report w sized =
        let (fd, opened) = can.opens w in
        let (reply, answered) = can.answers fd report w opened sized in
        (
          from_le_bytes (take 8 (drop tdreport_len reply)) == tdx_success,
          rw (check_length-ok report sized) (rw opened (rw answered refl)),
        )

    run_checkquote-answers :
        (evidence : TpmEvidence) (m : Machine W)
        → (trusted : Bool) × ((run_checkquote h config
              (checkquote_args h config evidence
                (join (scratch_dir h counter) (lit "verify.ak.pem"))
                (join (scratch_dir h counter) (lit "verify.msg"))
                (join (scratch_dir h counter) (lit "verify.sig")))
              m).0
            ≡ ok trusted)
    unfolding run_checkquote
    run_checkquote-answers evidence m =
        let (output, ran) = can.runs evidence m.world in (output.success, rw ran refl)

    module _ (request : AttestationAllResponse) (s g : Bytes)
        (ds : decode_blob h.crates request.evidence.tpm.signature ≡ ok s)
        (dg : decode_blob h.crates request.evidence.tpm.message ≡ ok g) where
      body-answers :
          (m : Machine W)
          → (trusted : Bool) × ((verify_quote_body h config request (scratch_dir h counter) m).0
              ≡ ok trusted)
      unfolding verify_quote_body
      body-answers m =
          let dir = scratch_dir h counter in
          let m1 = (arg dir (lit "verify.sig") m).1 in
          let m2 = (arg dir (lit "verify.msg") m1).1 in
          let m3 = (arg dir (lit "verify.ak.pem") m2).1 in
          let sp = join dir (lit "verify.sig") in
          let gp = join dir (lit "verify.msg") in
          let kp = join dir (lit "verify.ak.pem") in
          let m4 = (write_file h config sp s (lit "quote signature cannot be written: ") m3).1 in
          let m5 = (write_file h config gp g (lit "quote message cannot be written: ") m4).1 in
          let m6 =
            (write_file h config kp request.ak_pubkey
              (lit "Attestation Key public part cannot be written: ") m5).1 in
          let (trusted, ran) = run_checkquote-answers request.evidence.tpm m6 in
          (
            trusted,
            >>=-ok (lift (decode_blob h.crates request.evidence.tpm.signature)) _ m ds (
                >>=-ok (lift (decode_blob h.crates request.evidence.tpm.message)) _ m dg (
                  >>=-ok (arg dir (lit "verify.sig")) _ m (arg-valid dir _ m can.sig_name) (
                    >>=-ok (arg dir (lit "verify.msg")) _ m1 (arg-valid dir _ m1 can.msg_name) (
                      >>=-ok (arg dir (lit "verify.ak.pem")) _ m2 (arg-valid dir _ m2 can.ak_name) (
                        >>=-ok (write_file h config sp s _) _ m3
                          (write_file-writes sp _ s m3 (can.writes_sig s m3.world))
                          (>>=-ok (write_file h config gp g _) _ m4
                            (write_file-writes gp _ g m4 (can.writes_msg g m4.world))
                            (>>=-ok (write_file h config kp request.ak_pubkey _) _ m5
                              (write_file-writes kp _ request.ak_pubkey m5
                                (can.writes_ak request.ak_pubkey m5.world))
                              ran))))))),
          )

      new_scratch-dir :
          (m : Machine W)
          → m.scratch_counter ≡ counter
          → (new_scratch h m).0 ≡ ok (scratch_dir h counter)
      unfolding new_scratch
      new_scratch-dir m is = rw is (rw (can.creates m.world) refl)

      verify_quote-answers :
          (m : Machine W)
          → m.scratch_counter ≡ counter
          → (trusted : Bool) × ((verify_quote h config request m).0 ≡ ok trusted)
      unfolding verify_quote with_scratch
      verify_quote-answers m is =
          let (trusted, answered) = body-answers (new_scratch h m).1 in
          (trusted, >>=-ok (new_scratch h) _ m (new_scratch-dir m is) answered)

  -- Where the machine can verify, well-formed evidence is answered: it has a report of 1024 bytes in
  -- hex, and a signature and a message that decode.
  pub verify_all-answers :
      (request : AttestationAllResponse) (m : Machine W) (tdx : TdxEvidence)
      (report signature message : Bytes)
      → Available h config m.scratch_counter
      → request.evidence.tdx ≡ some tdx
      → decode_report h.crates tdx ≡ ok report
      → length report ≡ tdreport_len
      → decode_blob h.crates request.evidence.tpm.signature ≡ ok signature
      → decode_blob h.crates request.evidence.tpm.message ≡ ok message
      → (v : VerifyAllResponse) × ((verify_all h config request m).0 ≡ ok v)
  unfolding verify_all required_tdx
  verify_all-answers request m tdx report signature message can there decoded sized ds dg =
      let (a, reported) = verify_tdx_report-answers m.scratch_counter can report m.world sized in
      let m1 = (on_world (verify_tdx_report h.system report) from_attestation m).1 in
      let (b, quoted) =
        verify_quote-answers m.scratch_counter can request signature message ds dg m1 refl in
      (
        record { trusted = b && a; tpm_trusted = b; tdx_trusted = a },
        >>=-ok (lift (required_tdx h config request.evidence.tdx)) _ m (rw there refl) (
            >>=-ok (lift (decode_report h.crates tdx)) _ m decoded (
              >>=-ok (on_world (verify_tdx_report h.system report) from_attestation) _ m
                (map_err-ok _ reported) (>>=-ok (verify_quote h config request) _ m1 quoted refl))),
      )
