-- ===== src/Tpm/Folder/Measured.antt =====
-- When a folder is measured: `measure_folder` of src/tpm.rs, on files below it that can be read.
use tex_attestation_server.Prelude.{
  ℕ, zero, suc, ◌≡◌, refl, sym, true, false, List, [], ◌∷◌, ◌++◌, All, All-map, All-append, map,
  length, Bool-cases, inl, inr,
}
use tex_attestation_server.Prelude.Result.{Result, ok, Result-cases, map_err, >>=-eq-ok, ok-inj}
use tex_attestation_server.Prelude.Monad.{map_err-eq-ok}
use mathlib.Core.Path.{subst}
use mathlib.Core.List.{Mem, mem-cons_self, mem-cons_of_mem}
use tex_attestation_server.Text.{Bytes, Text}
use tex_attestation_server.Outside.{Crates}
use tex_attestation_server.Tpm.Types.{TpmError, MeasuredFile, FolderMeasurement}
use tex_attestation_server.Tpm.Folder.{
  FilePath, FileType, symlink, directory, file, other, follow_link, starts_with, Files, sort,
  child_paths, visit_kind, visit, visit_all, collect_regular_files, path_le, Entry, entry_le,
  relative_name, measure_entries, measure_folder, frame, display,
}
use tex_attestation_server.Tpm.Config.{default_hash_algorithm}
use tex_attestation_server.Tpm.Folder.Walk.{Measurable, collect_regular_files-Measurable}
use tex_attestation_server.Tpm.Folder.Depth.{IsReadable, collect_regular_files-IsReadable, sort-All}
use tex_attestation_server.Tpm.Folder.Complete.{Child, child, Below, here, deeper}

module _ (fs : Files) (root : FilePath) where
  follow_link-All :
      (Q : FilePath → Type 0) (path : FilePath) → Q path → All Q (follow_link fs root path)
  unfolding follow_link
  follow_link-All Q path q = elim (Result-cases (fs.canonicalize path)) [
    | inr (e, bad) ↦ rw (bad, follow_link) tt
    | inl (target, is) ↦ elim (Bool-cases (starts_with target root)) [
      | inr outside ↦ rw (is, follow_link) rw outside tt
      | inl inside ↦ elim (Result-cases (fs.is_file target)) [
        | inr (e, bad) ↦ rw (is, follow_link) rw inside rw bad tt
        | inl (true, lands) ↦ rw (is, follow_link) rw inside rw lands (q, tt)
        | inl (false, lands) ↦ rw (is, follow_link) rw inside rw lands tt
      ]
    ]
  ]

  child_paths-Child :
      (dir : FilePath) (all entries : List (Result Text Bytes)) (children : List FilePath)
      → fs.read_dir dir ≡ ok all
      → ((name : Bytes) → Mem (ok name) entries → Mem (ok name) all)
      → child_paths dir entries ≡ ok children
      → All (Child fs dir) children
  unfolding child_paths
  child_paths-Child dir all [] children is among h = subst (All (Child fs dir)) (ok-inj h) tt
  child_paths-Child dir all (entry ∷ rest) children is among h =
      let (name, e, h1) = >>=-eq-ok (map_err _ entry) _ h in
      let (others, e1, h2) = >>=-eq-ok (child_paths dir rest) _ h1 in
      let same = map_err-eq-ok _ entry e in
      let there = among name (subst (λ x. Mem (ok name) (x ∷ rest)) (sym same) mem-cons_self) in
      subst (All (Child fs dir)) (ok-inj h2) (
        child all name is there,
        child_paths-Child dir all rest others is (λ n m. among n (mem-cons_of_mem entry m)) e1,
      )

  visit_kind-Below :
      (below : FilePath → Result TpmError (List FilePath)) (dir path : FilePath) (kind : FileType)
      (out : List FilePath)
      → ((found : List FilePath) → below path ≡ ok found → All (λ p. Below fs p path) found)
      → Child fs dir path
      → fs.symlink_metadata path ≡ ok kind
      → visit_kind fs root below path kind ≡ ok out
      → All (λ p. Below fs p dir) out
  unfolding visit_kind
  visit_kind-Below below dir path symlink out ih c is e =
      subst (All (λ p. Below fs p dir)) (ok-inj e) (follow_link-All _ path (here dir c))
  visit_kind-Below below dir path directory out ih c is e =
      All-map _ _ out (λ p b. deeper dir path c is b) (ih out e)
  visit_kind-Below below dir path file out ih c is e =
      subst (All (λ p. Below fs p dir)) (ok-inj e) (here dir c, tt)
  visit_kind-Below below dir path other out ih c is e =
      subst (All (λ p. Below fs p dir)) (ok-inj e) tt

  visit_all-Below :
      (below : FilePath → Result TpmError (List FilePath)) (dir : FilePath)
      (paths out : List FilePath)
      → ((path : FilePath) (found : List FilePath)
          → below path ≡ ok found
          → All (λ p. Below fs p path) found)
      → All (Child fs dir) paths
      → visit_all fs root below paths ≡ ok out
      → All (λ p. Below fs p dir) out
  unfolding visit_all visit
  visit_all-Below below dir [] out ih c e = subst (All (λ p. Below fs p dir)) (ok-inj e) tt
  visit_all-Below below dir (path ∷ rest) out ih c e =
      let (first, e1, h1) = >>=-eq-ok (visit fs root below path) _ e in
      let (more, e2, h2) = >>=-eq-ok (visit_all fs root below rest) _ h1 in
      let (kind, e3, h3) = >>=-eq-ok (map_err _ (fs.symlink_metadata path)) _ e1 in
      subst (All (λ p. Below fs p dir)) (ok-inj h2) (
        All-append _ first more
          (visit_kind-Below below dir path kind first (ih path) c.0 (map_err-eq-ok _ _ e3) h3)
          (visit_all-Below below dir rest more ih c.1 e2))

  -- A walk collects nothing but what is below the directory.
  walk-Below :
      (fuel : ℕ) (dir : FilePath) (found : List FilePath)
      → collect_regular_files fs root fuel dir ≡ ok found
      → All (λ p. Below fs p dir) found
  unfolding collect_regular_files
  walk-Below zero dir found e = absurd (cc e)
  walk-Below (suc fuel) dir found e =
      let (entries, e1, h1) = >>=-eq-ok (map_err _ (fs.read_dir dir)) _ e in
      let (children, e2, h2) = >>=-eq-ok (child_paths dir entries) _ h1 in
      visit_all-Below (collect_regular_files fs root fuel) dir (sort path_le children) found
        (walk-Below fuel)
        (sort-All path_le _ children
          (child_paths-Child dir entries entries children (map_err-eq-ok _ _ e1) (λ n m. m) e2))
        h2

-- A file below the folder that can be measured can be read.
abbrev pub FilesReadable : Files → FilePath → Type 0
FilesReadable fs root =
    (path : FilePath)
    → Below fs path root
    → Measurable fs root path
    → (contents : Bytes) × (fs.read path ≡ ok contents)

both-All :
    {P Q R : FilePath → Type 0} (l : List FilePath)
    → ((p : FilePath) → P p → Q p → R p)
    → All P l
    → All Q l
    → All R l
both-All [] f a b = tt
both-All (p ∷ l) f a b = (f p a.0 b.0, both-All l f a.1 b.1)

measure_entries-eq-ok :
    (c : Crates) (fs : Files) (entries : List Entry)
    → All (λ (e : Entry). (contents : Bytes) × (fs.read e.1 ≡ ok contents)) entries
    → (r : Bytes × List MeasuredFile) × (measure_entries c fs entries ≡ ok r)
unfolding measure_entries
measure_entries-eq-ok c fs [] h = (([], []), refl)
measure_entries-eq-ok c fs ((name, path) ∷ rest) h =
    let (contents, is) = h.0 in
    let ((fed, rows), e) = measure_entries-eq-ok c fs rest h.1 in
    let digest = c.sha256 contents in
    let row : MeasuredFile = record {
      name = name;
      hash = c.hex_encode digest;
      size = length contents;
    } in
    ((frame name digest ++ fed, row ∷ rows), rw (is, e) refl)

named_entries :
    (root : FilePath) (P : FilePath → Type 0) (files : List FilePath)
    → All P files
    → All (λ (e : Entry). P e.1) (map (λ path. (relative_name root path, path)) files)
named_entries root P [] h = tt
named_entries root P (path ∷ rest) h = (h.0, named_entries root P rest h.1)

-- A folder is measured: where the folder is a directory whose path resolves, every directory below
-- it can be listed and every child has a type, the tree is nested `n` deep at most, and every file
-- below it that may be measured can be read, `measure_folder` returns a measurement.
pub measure_folder-eq-ok :
    (c : Crates) (fs : Files) (dir : Bytes) (root : FilePath) (n : ℕ)
    → fs.root_is_dir dir ≡ ok true
    → fs.root_path dir ≡ ok root
    → IsReadable fs n root
    → FilesReadable fs root
    → (measured : FolderMeasurement) × (measure_folder c fs n dir ≡ ok measured)
unfolding measure_folder
measure_folder-eq-ok c fs dir root n is_dir is readable reads =
    let (files, e) = collect_regular_files-IsReadable fs root n root readable in
    let all = collect_regular_files-Measurable fs root n root files e in
    let entries = map (λ path. (relative_name root path, path)) files in
    let ((fed, rows), e') = measure_entries-eq-ok c fs (sort entry_le entries) (
      sort-All entry_le _ entries (
        named_entries root _ files
          (both-All files reads (walk-Below fs root n root files e) all))) in
    let measured : FolderMeasurement = record {
      directory = display root;
      hash_algorithm = default_hash_algorithm;
      measurement = rows;
      total_hash = c.hex_encode (c.sha256 fed);
    } in
    (measured, rw (is_dir, is, e, e') refl)
