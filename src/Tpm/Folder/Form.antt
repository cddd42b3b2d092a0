-- ===== src/Tpm/Folder/Form.antt =====
-- The form of a folder measurement of src/tpm.rs: its rows and its digests.
use tex_attestation_server.Prelude.{
  ℕ, ◌*◌, ◌≡◌, sym, ap, ◌∙◌, Bool, true, false, List, [], ◌∷◌, ◌⊎◌, inl, inr, map, length, All,
  Bool-cases, if◌then◌else◌,
}
use mathlib.Core.Path.{subst}
use tex_attestation_server.Prelude.Result.{Result, ok, err, map_err}
use tex_attestation_server.Prelude.Result
use tex_attestation_server.Text.{Bytes, Text}
use tex_attestation_server.Outside.{Crates, HexLaws, ShaLaws, is_hex_digit}
use tex_attestation_server.Tpm.Types.{MeasuredFile, FolderMeasurement}
use tex_attestation_server.Tpm.Folder.{
  Files, Entry, bytes_le, insert, sort, entry_le, relative_name, collect_regular_files,
  measure_entries, measure_folder,
}
use tex_attestation_server.Tpm.Folder.Sorting.{bytes_le-total, bytes_le_trans}

module _ {A : Type 0} (le : A → A → Bool) where
  -- Every element is in front of all that follow it.
  unfoldable pub Ascending : List A → Type 0
  Ascending [] = Unit
  Ascending (x ∷ l) = All (λ y. le x y ≡ true) l × Ascending l

  module _ (total : (a b : A) → (le a b ≡ true) ⊎ (le b a ≡ true))
      (transitive : (a b c : A) → le a b ≡ true → le b c ≡ true → le a c ≡ true) where
    behind : (x y : A) → le x y ≡ false → le y x ≡ true
    behind x y f = elim (total x y) [ inl t ↦ cc (f, t) | inr t ↦ t ]

    insert-above :
        (a x : A) (l : List A)
        → le a x ≡ true
        → All (λ y. le a y ≡ true) l
        → All (λ y. le a y ≡ true) (insert le x l)
    unfolding insert
    insert-above a x [] h k = (h, tt)
    insert-above a x (y ∷ l) h k = elim (Bool-cases (le x y)) [
      | inl t ↦ rw t (h, k)
      | inr f ↦ rw f (k.0, insert-above a x l h k.1)
    ]

    above-All :
        (x y : A) (l : List A)
        → le x y ≡ true
        → All (λ z. le y z ≡ true) l
        → All (λ z. le x z ≡ true) l
    above-All x y [] h k = tt
    above-All x y (z ∷ l) h k = (transitive x y z h k.0, above-All x y l h k.1)

    insert-Ascending : (x : A) (l : List A) → Ascending l → Ascending (insert le x l)
    unfolding insert Ascending
    insert-Ascending x [] h = (tt, tt)
    insert-Ascending x (y ∷ l) h = elim (Bool-cases (le x y)) [
      | inl t ↦ rw t ((t, above-All x y l t h.0), h)
      | inr f ↦ rw f (insert-above y x l (behind x y f) h.0, insert-Ascending x l h.1)
    ]

    pub sort-Ascending : (l : List A) → Ascending (sort le l)
    unfolding sort Ascending
    sort-Ascending [] = tt
    sort-Ascending (x ∷ l) = insert-Ascending x (sort le l) (sort-Ascending l)

map-All :
    {A B : Type 0} (f : A → B) (P : B → Type 0) (l : List A)
    → All (λ a. P (f a)) l
    → All P (map f l)
map-All f P [] h = tt
map-All f P (x ∷ l) h = (h.0, map-All f P l h.1)

names-Ascending :
    (l : List Entry) → Ascending entry_le l → Ascending bytes_le (map (λ (e : Entry). e.0) l)
unfolding Ascending
names-Ascending [] h = tt
names-Ascending (x ∷ l) h =
    (map-All (λ (e : Entry). e.0) (λ n. bytes_le x.0 n ≡ true) l h.0, names-Ascending l h.1)

-- A digest in hex: 64 lowercase digits.
abbrev pub IsDigest : Text → Type 0
IsDigest s = (length s ≡ 64) × All (λ d. is_hex_digit d ≡ true) s

abbrev pub HasDigest : MeasuredFile → Type 0
HasDigest row = IsDigest row.hash

module _ (c : Crates) (hex : HexLaws c) (sha : ShaLaws c) where
  hex_encode-IsDigest : (b : Bytes) → IsDigest (c.hex_encode (c.sha256 b))
  hex_encode-IsDigest b = (
    hex.encode-length (c.sha256 b) ∙ ap (λ n. 2 * n) (sha.sha256-length b),
    hex.encode-digits (c.sha256 b),
  )

  -- The rows are those of the entries, in their order, each with a digest.
  measure_entries-rows :
      (fs : Files) (l : List Entry) (fed : Bytes) (rows : List MeasuredFile)
      → measure_entries c fs l ≡ ok (fed, rows)
      → (map (λ (r : MeasuredFile). r.name) rows ≡ map (λ (e : Entry). e.0) l) × All HasDigest rows
  unfolding measure_entries
  measure_entries-rows fs [] fed rows h =
      let same : [] ≡ rows = λ i. (Result.ok-inj h i).1 in
      (ap (map (λ (r : MeasuredFile). r.name)) (sym same), subst (All HasDigest) same tt)
  measure_entries-rows fs (x ∷ l) fed rows h =
      let (contents, e1, h1) = Result.>>=-eq-ok (map_err _ (fs.read x.1)) _ h in
      let ((fed', rows'), e2, h2) = Result.>>=-eq-ok (measure_entries c fs l) _ h1 in
      let (names, digests) = measure_entries-rows fs l fed' rows' e2 in
      let row : MeasuredFile = record {
        name = x.0;
        hash = c.hex_encode (c.sha256 contents);
        size = length contents;
      } in
      let same : row ∷ rows' ≡ rows = λ i. (Result.ok-inj h2 i).1 in
      (
        ap (map (λ (r : MeasuredFile). r.name)) (sym same) ∙ ap (λ t. x.0 ∷ t) names,
        subst (All HasDigest) same (hex_encode-IsDigest contents, digests),
      )

  -- A measurement in its form.
  abbrev pub IsCanonical : FolderMeasurement → Type 0
  IsCanonical folder =
      Ascending bytes_le (map (λ (r : MeasuredFile). r.name) folder.measurement)
      × All HasDigest folder.measurement
      × IsDigest folder.total_hash

  entries-Ascending :
      (l : List Entry) → Ascending bytes_le (map (λ (e : Entry). e.0) (sort entry_le l))
  entries-Ascending l = names-Ascending (sort entry_le l) (
      sort-Ascending entry_le (λ a b. bytes_le-total a.0 b.0) (λ a b d. bytes_le_trans a.0 b.0 d.0)
        l)

  -- Whatever the order in which the disk lists its entries, a measurement has its rows in the
  -- ascending order of their names, and the digest of every row and the total digest are 64 lowercase
  -- hexadecimal digits, by the laws of the hex and sha2 crates.
  pub measure_folder-IsCanonical :
      (fs : Files) (depth : ℕ) (dir : Bytes) (folder : FolderMeasurement)
      → measure_folder c fs depth dir ≡ ok folder
      → IsCanonical folder
  unfolding measure_folder
  measure_folder-IsCanonical fs depth dir folder e =
      let (is_dir, e1, h1) = Result.>>=-eq-ok (map_err _ (fs.root_is_dir dir)) _ e in
      let (_, e2, h2) = Result.>>=-eq-ok (if is_dir then ok tt else err _) _ h1 in
      let (root, e3, h3) = Result.>>=-eq-ok (map_err _ (fs.root_path dir)) _ h2 in
      let (files, e4, h4) = Result.>>=-eq-ok (collect_regular_files fs root depth root) _ h3 in
      let entries = sort entry_le (map (λ path. (relative_name root path, path)) files) in
      let ((fed, rows), e5, h5) = Result.>>=-eq-ok (measure_entries c fs entries) _ h4 in
      let (names, digests) = measure_entries-rows fs entries fed rows e5 in
      subst IsCanonical (Result.ok-inj h5) (
        subst (Ascending bytes_le) (sym names)
            (entries-Ascending (map (λ path. (relative_name root path, path)) files)),
        digests,
        hex_encode-IsDigest fed,
      )
