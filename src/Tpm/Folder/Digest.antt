-- ===== src/Tpm/Folder/Digest.antt =====
-- What the total digest of a folder covers: the framing of `measure_folder` in src/tpm.rs.
use tex_attestation_server.Prelude.{
  ℕ, ◌^◌, ◌%◌, ◌≤◌, ◌<◌, ◌≡◌, refl, sym, ap, ◌∙◌, List, [], ◌∷◌, ◌++◌, map, arith, length, take,
  drop, All, append_assoc, length-append, take-append, drop-append,
}
use tex_attestation_server.Prelude.Result.{ok, map_err, >>=-eq-ok, ok-inj}
use tex_attestation_server.Text.{Bytes, Text}
use tex_attestation_server.Outside.{Crates, ShaLaws}
use tex_attestation_server.Attestation.{to_le_bytes, from_le_bytes}
use tex_attestation_server.Attestation.Binding.{from_le_bytes-to_le_bytes, length-to_le_bytes}
use tex_attestation_server.Tpm.Types.{MeasuredFile}
use tex_attestation_server.Tpm.Folder.{Files, Entry, frame, measure_entries}

append-split :
    (n : ℕ) (a a' b b' : Bytes)
    → length a ≡ n
    → length a' ≡ n
    → a ++ b ≡ a' ++ b'
    → (a ≡ a') × (b ≡ b')
append-split n a a' b b' h h' e = (
  sym (take-append n a b h) ∙ ap (take n) e ∙ take-append n a' b' h',
  sym (drop-append n a b h) ∙ ap (drop n) e ∙ drop-append n a' b' h',
)

-- The frames of names and digests, one behind the other.
stream : List (Text × Bytes) → Bytes
stream [] = []
stream ((name, digest) ∷ rest) = frame name digest ++ stream rest

-- A name whose length a `u64` holds, and a digest of 32 bytes.
abbrev IsFramed : Text × Bytes → Type 0
IsFramed (name, digest) = (length name < 2 ^ 64) × (length digest ≡ 32)

length-frame : (name : Text) (digest rest : Bytes) → 8 ≤ length (frame name digest ++ rest)
unfolding frame
length-frame name digest rest = omega (
  arith,
  length-append (to_le_bytes 8 (length name % 2 ^ 64) ++ (name ++ digest)) rest,
  length-append (to_le_bytes 8 (length name % 2 ^ 64)) (name ++ digest),
  length-to_le_bytes 8 (length name % 2 ^ 64),
)

length-read : (n : ℕ) → n < 2 ^ 64 → n ≡ from_le_bytes (to_le_bytes 8 (n % 2 ^ 64))
length-read n l = omega (arith, from_le_bytes-to_le_bytes 8 (n % 2 ^ 64) (omega arith))

frame-split :
    (name name' : Text) (digest digest' rest rest' : Bytes)
    → IsFramed (name, digest)
    → IsFramed (name', digest')
    → frame name digest ++ rest ≡ frame name' digest' ++ rest'
    → (name ≡ name') × (digest ≡ digest') × (rest ≡ rest')
unfolding frame
frame-split name name' digest digest' rest rest' (l, d) (l', d') e =
    let n = to_le_bytes 8 (length name % 2 ^ 64) in
    let n' = to_le_bytes 8 (length name' % 2 ^ 64) in
    let (e1, e2) =
      append-split 8 n n' ((name ++ digest) ++ rest) ((name' ++ digest') ++ rest')
        (length-to_le_bytes 8 _) (length-to_le_bytes 8 _)
        (sym (append_assoc n (name ++ digest) rest)
          ∙ e
          ∙ append_assoc n' (name' ++ digest') rest') in
    let same : length name ≡ length name' =
      length-read (length name) l ∙ ap from_le_bytes e1 ∙ sym (length-read (length name') l') in
    let (e3, e4) =
      append-split (length name) name name' (digest ++ rest) (digest' ++ rest') refl (sym same)
        (sym (append_assoc name digest rest) ∙ e2 ∙ append_assoc name' digest' rest') in
    let (e5, e6) = append-split 32 digest digest' rest rest' d d' e4 in (e3, e5, e6)

stream-injective :
    (s t : List (Text × Bytes)) → All IsFramed s → All IsFramed t → stream s ≡ stream t → s ≡ t
unfolding stream
stream-injective [] [] h k e = refl
stream-injective [] ((name, digest) ∷ t) h k e =
    absurd (omega (arith, length-frame name digest (stream t), ap length e))
stream-injective ((name, digest) ∷ s) [] h k e =
    absurd (omega (arith, length-frame name digest (stream s), ap length e))
stream-injective ((name, digest) ∷ s) ((name', digest') ∷ t) h k e =
    let (e1, e2, e3) = frame-split name name' digest digest' (stream s) (stream t) h.0 k.0 e in
    let rest = stream-injective s t h.1 k.1 e3 in λ i. (e1 i, e2 i) ∷ rest i

-- A name and the digest of its file, as a row of the measurement shows them.
abbrev pub named : MeasuredFile → Text × Text
named row = (row.name, row.hash)

-- What was fed and shown, by the framed names and digests.
record Measured (c : Crates) (fed : Bytes) (rows : List MeasuredFile) : Type 0 where
  frames : List (Text × Bytes)
  framed : All IsFramed frames
  is_fed : fed ≡ stream frames
  shown : map named rows ≡ map (λ f. (f.0, c.hex_encode f.1)) frames

entries-Measured :
    (c : Crates) (laws : ShaLaws c) (fs : Files) (entries : List Entry) (fed : Bytes)
    (rows : List MeasuredFile)
    → All (λ e. length e.0 < 2 ^ 64) entries
    → measure_entries c fs entries ≡ ok (fed, rows)
    → Measured c fed rows
unfolding measure_entries stream
entries-Measured c laws fs [] fed rows small h =
    let same = ok-inj h in
    record {
      frames = [];
      framed = tt;
      is_fed = λ i. (sym same i).0;
      shown = λ i. map named (sym same i).1;
    }
entries-Measured c laws fs ((name, path) ∷ rest) fed rows small h =
    let (contents, e1, h1) = >>=-eq-ok (map_err _ (fs.read path)) _ h in
    let ((more, others), e2, h2) = >>=-eq-ok (measure_entries c fs rest) _ h1 in
    let ih = entries-Measured c laws fs rest more others small.1 e2 in
    let same = ok-inj h2 in
    record {
      frames = (name, c.sha256 contents) ∷ ih.frames;
      framed = ((small.0, laws.sha256-length contents), ih.framed);
      is_fed = (λ i. (sym same i).0) ∙ ap (◌++◌ (frame name (c.sha256 contents))) ih.is_fed;
      shown =
          (λ i. map named (sym same i).1)
          ∙ ap (◌∷◌ (name, c.hex_encode (c.sha256 contents))) ih.shown;
    }

-- The bytes that the total digest is taken of determine the measured names and the digests of the
-- files, in their order: no two measurements of different names or contents' digests are fed the same
-- bytes, since every name has its length in front and every digest has 32 bytes. Names are shorter
-- than 2 ^ 64 bytes.
pub measure_entries-injective :
    (c : Crates) (fs fs' : Files) (entries entries' : List Entry) (fed fed' : Bytes)
    (rows rows' : List MeasuredFile)
    → ShaLaws c
    → All (λ e. length e.0 < 2 ^ 64) entries
    → All (λ e. length e.0 < 2 ^ 64) entries'
    → measure_entries c fs entries ≡ ok (fed, rows)
    → measure_entries c fs' entries' ≡ ok (fed', rows')
    → fed ≡ fed'
    → map named rows ≡ map named rows'
measure_entries-injective c fs fs' entries entries' fed fed' rows rows' laws small small' h h'
      same =
    let a = entries-Measured c laws fs entries fed rows small h in
    let b = entries-Measured c laws fs' entries' fed' rows' small' h' in
    a.shown
    ∙ ap (map (λ f. (f.0, c.hex_encode f.1)))
        (stream-injective a.frames b.frames a.framed b.framed (sym a.is_fed ∙ same ∙ b.is_fed))
    ∙ sym b.shown
