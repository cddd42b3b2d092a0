-- ===== src/Tpm/Combined/Checking.antt =====
-- What `verify_quote` of src/tpm.rs runs, and on what files.
use tex_attestation_server.Prelude.{◌≡◌, ◌≢◌, refl, sym, ap, ◌∙◌, Bool, false, List, arith}
use tex_attestation_server.Prelude.Result.{Result, ok, err}
use tex_attestation_server.Prelude.Monad.{lift, >>=-split, map_err-eq-ok}
use tex_attestation_server.Text.{Bytes, Text, lit, equal, equal_iff}
use tex_attestation_server.Outside.{Output, IoError, FileLaws}
use tex_attestation_server.Tpm.Types.{AttestationAllResponse}
use tex_attestation_server.Tpm.Config.{TpmConfig}
use tex_attestation_server.Tpm.Machine.{Host, Machine, arg, join, with_scratch, new_scratch}
use tex_attestation_server.Tpm.Machine.Keeping.{arg-ok}
use tex_attestation_server.Tpm.Machine.Apart.{join-injective}
use tex_attestation_server.Tpm.Combined.{
  decode_blob, write_file, checkquote_args, verdict, run_checkquote, verify_quote_body,
  verify_quote,
}

-- Two files of one directory.
apart : (dir a b p q : Text) → equal a b ≡ false → p ≡ join dir a → q ≡ join dir b → p ≢ q
apart dir a b p q differ ep eq same =
    cc (differ, (equal_iff a b).1 (join-injective dir (sym ep ∙ same ∙ eq)))

names_differ :
    (equal (lit "verify.sig") (lit "verify.msg") ≡ false)
    × (equal (lit "verify.sig") (lit "verify.ak.pem") ≡ false)
    × (equal (lit "verify.msg") (lit "verify.ak.pem") ≡ false)
unfolding equal lit
names_differ = (refl, refl, refl)

module _ {W : Type 0} (h : Host W) (config : TpmConfig) where
  write_file-ok :
      (path problem : Text) (bytes : Bytes) (m m' : Machine W)
      → write_file h config path bytes problem m ≡ (ok tt, m')
      → ((h.system.write path bytes m.world).0 ≡ ok tt)
        × (m'.world ≡ (h.system.write path bytes m.world).1)
  unfolding write_file
  write_file-ok path problem bytes m m' e =
      (map_err-eq-ok _ _ (λ i. (e i).0), λ i. (sym e i).1.world)

  verdict-ok :
      (r : Result IoError Output) (b : Bool)
      → verdict h config r ≡ ok b
      → (output : Output) × (r ≡ ok output) × (output.success ≡ b)
  verdict-ok (ok output) b e = (output, refl, cc e)
  verdict-ok (err e) b eq = absurd (ground arith)

  run_checkquote-ok :
      (args : List Text) (m m' : Machine W) (b : Bool)
      → run_checkquote h config args m ≡ (ok b, m')
      → (output : Output) × ((h.system.spawn (lit "tpm2_checkquote") args m.world).0 ≡ ok output)
        × (output.success ≡ b)
  unfolding run_checkquote
  run_checkquote-ok args m m' b e = verdict-ok _ b (λ i. (e i).0)

  -- `tpm2_checkquote` ran and exited as `verdict` says, on the nonce and the hash algorithm of the
  -- evidence, and on three files that then held the key of the request and the message and the
  -- signature of its evidence.
  pub record Checked (request : AttestationAllResponse) (trusted : Bool) : Type 0 where
    pub signature : Bytes
    pub message : Bytes
    pub decoded_signature : decode_blob h.crates request.evidence.tpm.signature ≡ ok signature
    pub decoded_message : decode_blob h.crates request.evidence.tpm.message ≡ ok message
    pub ak_path : Text
    pub msg_path : Text
    pub sig_path : Text
    pub before : Machine W
    pub ak_read : h.system.read ak_path before.world ≡ ok request.ak_pubkey
    pub msg_read : h.system.read msg_path before.world ≡ ok message
    pub sig_read : h.system.read sig_path before.world ≡ ok signature
    pub output : Output
    pub ran :
        (h.system.spawn
          (lit "tpm2_checkquote")
          (checkquote_args h config request.evidence.tpm ak_path msg_path sig_path)
          before.world).0
        ≡ ok output
    pub exit : output.success ≡ trusted

  module _ (files : FileLaws h.system) where
    written-read :
        (path problem : Text) (bytes : Bytes) (m m' : Machine W)
        → write_file h config path bytes problem m ≡ (ok tt, m')
        → h.system.read path m'.world ≡ ok bytes
    written-read path problem bytes m m' e =
        let (wrote, world) = write_file-ok path problem bytes m m' e in
        ap (h.system.read path) world ∙ files.written path bytes m.world wrote

    other-read :
        (path other problem : Text) (bytes : Bytes) (m m' : Machine W)
        → write_file h config path bytes problem m ≡ (ok tt, m')
        → path ≢ other
        → h.system.read other m'.world ≡ h.system.read other m.world
    other-read path other problem bytes m m' e differ =
        let (wrote, world) = write_file-ok path problem bytes m m' e in
        ap (h.system.read other) world ∙ files.others path other bytes m.world differ

    module _ (request : AttestationAllResponse) where
      body-Checked :
          (scratch : Bytes) (m m' : Machine W) (trusted : Bool)
          → verify_quote_body h config request scratch m ≡ (ok trusted, m')
          → Checked request trusted
      unfolding verify_quote_body
      body-Checked scratch m m' trusted eq =
          let (s, m1, e1, h1) =
            >>=-split (lift (decode_blob h.crates request.evidence.tpm.signature)) _ m eq in
          let (g, m2, e2, h2) =
            >>=-split (lift (decode_blob h.crates request.evidence.tpm.message)) _ m1 h1 in
          let (sp, m3, e3, h3) = >>=-split (arg scratch (lit "verify.sig")) _ m2 h2 in
          let (gp, m4, e4, h4) = >>=-split (arg scratch (lit "verify.msg")) _ m3 h3 in
          let (kp, m5, e5, h5) = >>=-split (arg scratch (lit "verify.ak.pem")) _ m4 h4 in
          let (_, m6, e6, h6) = >>=-split (write_file h config sp s _) _ m5 h5 in
          let (_, m7, e7, h7) = >>=-split (write_file h config gp g _) _ m6 h6 in
          let (_, m8, e8, h8) = >>=-split (write_file h config kp request.ak_pubkey _) _ m7 h7 in
          let (output, ran, exit) = run_checkquote-ok _ m8 m' trusted h8 in
          let at_s = arg-ok scratch (lit "verify.sig") sp m2 λ i. (e3 i).0 in
          let at_g = arg-ok scratch (lit "verify.msg") gp m3 λ i. (e4 i).0 in
          let at_k = arg-ok scratch (lit "verify.ak.pem") kp m4 λ i. (e5 i).0 in
          let (sg, sk, gk) = names_differ in
          let gs : gp ≢ sp = λ same. apart scratch _ _ sp gp sg at_s at_g (sym same) in
          let ks : kp ≢ sp = λ same. apart scratch _ _ sp kp sk at_s at_k (sym same) in
          let kg : kp ≢ gp = λ same. apart scratch _ _ gp kp gk at_g at_k (sym same) in
          record {
            signature = s;
            message = g;
            decoded_signature = λ i. (e1 i).0;
            decoded_message = λ i. (e2 i).0;
            ak_path = kp;
            msg_path = gp;
            sig_path = sp;
            before = m8;
            ak_read = written-read kp _ request.ak_pubkey m7 m8 e8;
            msg_read = other-read kp gp _ _ m7 m8 e8 kg ∙ written-read gp _ g m6 m7 e7;
            sig_read =
                other-read kp sp _ _ m7 m8 e8 ks
                ∙ other-read gp sp _ _ m6 m7 e7 gs
                ∙ written-read sp _ s m5 m6 e6;
            output = output;
            ran = ran;
            exit = exit;
          }

      pub quote-Checked :
          (m m' : Machine W) (trusted : Bool)
          → verify_quote h config request m ≡ (ok trusted, m')
          → Checked request trusted
      unfolding verify_quote with_scratch
      quote-Checked m m' trusted eq =
          let (dir, m1, e1, h1) = >>=-split (new_scratch h) _ m eq in
          body-Checked dir m1 _ trusted
            λ i. ((h1 i).0, (verify_quote_body h config request dir m1).1)
