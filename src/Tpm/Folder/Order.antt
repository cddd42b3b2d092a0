-- ===== src/Tpm/Folder/Order.antt =====
-- How the walk of src/tpm.rs depends on the order in which `read_dir` lists a directory.
use tex_attestation_server.Prelude.{
  ℕ, zero, suc, ◌≡◌, refl, sym, ap, ◌∙◌, List, [], ◌∷◌, ◌++◌, if◌then◌else◌, inl, inr,
}
use tex_attestation_server.Prelude.Result.{
  Result, ok, err, map_err, >>=-eq-ok, ok-inj, Result-cases,
}
use tex_attestation_server.Prelude.Monad.{map_err-eq-ok}
use mathlib.Core.Path.{subst}
use mathlib.Core.HLevel.{⊥_prop}
use mathlib.Core.Logic.{∥∥₁_elim, ∥∥₁_map}
use mathlib.Core.List.{Perm, Permᴰ}
use mathlib.Core.List.Permᴰ
use tex_attestation_server.Text.{Bytes, Text}
use tex_attestation_server.Outside.{Crates}
use tex_attestation_server.Tpm.Types.{TpmError, FolderMeasurement}
use tex_attestation_server.Tpm.Folder.{
  FilePath, FileType, Files, sort, child_paths, visit_kind, visit, visit_all, collect_regular_files,
  follow_link, symlink, directory, file, other, path_le, Entry, measure_entries, measure_folder,
}
use tex_attestation_server.Tpm.Folder.Sorting.{sort-Perm, path_le-IsOrder}

abbrev pub Listing : Type 0
Listing = FilePath → Result Text (List (Result Text Bytes))

-- The same disk, whose directories are listed in another way.
abbrev pub relist : Files → Listing → Files
relist fs listing = record fs { read_dir = listing }

-- Every directory that can be read lists the same entries, in some order.
abbrev pub SameEntries : Files → Listing → Type 0
SameEntries fs listing =
    (dir : FilePath) (entries : List (Result Text Bytes))
    → fs.read_dir dir ≡ ok entries
    → (entries' : List (Result Text Bytes)) × (listing dir ≡ ok entries') × Perm entries entries'

path_set : IsSet FilePath
path_set = hlevel

child_paths-uncons :
    (dir : FilePath) (entry : Result Text Bytes) (rest : List (Result Text Bytes))
    {children : List FilePath}
    → child_paths dir (entry ∷ rest) ≡ ok children
    → (name : Bytes) × (others : List FilePath) × (entry ≡ ok name)
      × (child_paths dir rest ≡ ok others)
      × (children ≡ (dir ++ name ∷ []) ∷ others)
unfolding child_paths
child_paths-uncons dir entry rest h =
    let (name, e, h1) = >>=-eq-ok (map_err _ entry) _ h in
    let (others, e1, h2) = >>=-eq-ok (child_paths dir rest) _ h1 in
    (name, others, map_err-eq-ok _ _ e, e1, sym (ok-inj h2))

child_paths-cons :
    (dir : FilePath) (rest : List (Result Text Bytes)) {entry : Result Text Bytes} {name : Bytes}
    {others : List FilePath}
    → entry ≡ ok name
    → child_paths dir rest ≡ ok others
    → child_paths dir (entry ∷ rest) ≡ ok ((dir ++ name ∷ []) ∷ others)
unfolding child_paths
child_paths-cons dir rest e h = rw (e, h, child_paths) refl

child_paths-Permᴰ :
    (dir : FilePath) {entries entries' : List (Result Text Bytes)} {children : List FilePath}
    → Permᴰ entries entries'
    → child_paths dir entries ≡ ok children
    → (others : List FilePath) × (child_paths dir entries' ≡ ok others) × Permᴰ children others
child_paths-Permᴰ dir Permᴰ.nil h = (_, h, Permᴰ.refl _)
child_paths-Permᴰ dir (Permᴰ.cons {a = a} {l₁ = l} {l₂ = l'} same p) h =
    let (name, rest, e, e1, is) = child_paths-uncons dir a l h in
    let (rest', e2, q) = child_paths-Permᴰ dir p e1 in
    let first = dir ++ name ∷ [] in
    (
      first ∷ rest',
      child_paths-cons dir l' (sym same ∙ e) e2,
      subst (λ c. Permᴰ c (first ∷ rest')) (sym is) (Permᴰ.cons refl q),
    )
child_paths-Permᴰ dir (Permᴰ.swap {a = a} {b = b} {a' = b'} {b' = a'} {l = l} same same') h =
    let (name, rest, e, e1, is) = child_paths-uncons dir a (b ∷ l) h in
    let (name', rest', e', e1', is') = child_paths-uncons dir b l e1 in
    let first = dir ++ name ∷ [] in
    let second = dir ++ name' ∷ [] in
    (
      second ∷ first ∷ rest',
      child_paths-cons dir (a' ∷ l) (sym same' ∙ e') (child_paths-cons dir l (sym same ∙ e) e1'),
      subst (λ c. Permᴰ c (second ∷ first ∷ rest')) (sym (is ∙ ap (◌∷◌ first) is'))
          (Permᴰ.swap refl refl),
    )
child_paths-Permᴰ dir (Permᴰ.trans p q) h =
    let (middle, e, p') = child_paths-Permᴰ dir p h in
    let (others, f, q') = child_paths-Permᴰ dir q e in (others, f, Permᴰ.trans p' q')

not_both :
    {r : Result TpmError (List FilePath)} {e : TpmError} {l : List FilePath}
    → r ≡ err e
    → r ≡ ok l
    → ⊥
not_both h k = cc (h, k)

-- The children of a directory that was listed in another order, sorted.
child_paths-Perm :
    (dir : FilePath) {entries entries' : List (Result Text Bytes)} {children : List FilePath}
    → Perm entries entries'
    → child_paths dir entries ≡ ok children
    → (others : List FilePath) × (child_paths dir entries' ≡ ok others)
      × (sort path_le children ≡ sort path_le others)
child_paths-Perm dir {entries' = entries'} {children} p h =
    elim (Result-cases (child_paths dir entries')) [
      | inr (e, f) ↦
          absurd (∥∥₁_elim p ⊥_prop λ d. let (o, g, q) = child_paths-Permᴰ dir d h in not_both f g)
      | inl (others, e) ↦ (
        others,
        e,
        sort-Perm path_le path_le-IsOrder path_set (
            ∥∥₁_map p λ d.
              let (o, g, q) = child_paths-Permᴰ dir d h in
              subst (Permᴰ children) (ok-inj (sym g ∙ e)) q),
      )
    ]

-- A callee that answers at least what another one does.
abbrev pub AnswersMore :
    (FilePath → Result TpmError (List FilePath))
    → (FilePath → Result TpmError (List FilePath))
    → Type 0
AnswersMore below below' =
    (dir : FilePath) (found : List FilePath) → below dir ≡ ok found → below' dir ≡ ok found

module _ (fs : Files) (root : FilePath) (listing : Listing)
    (below below' : FilePath → Result TpmError (List FilePath))
    (more : AnswersMore below below') where
  visit_kind_mono :
      (path : FilePath) (kind : FileType) {found : List FilePath}
      → visit_kind fs root below path kind ≡ ok found
      → visit_kind (relist fs listing) root below' path kind ≡ ok found
  unfolding visit_kind follow_link
  visit_kind_mono path symlink h = h
  visit_kind_mono path directory h = more path _ h
  visit_kind_mono path file h = h
  visit_kind_mono path other h = h

  visit_mono :
      (path : FilePath) {found : List FilePath}
      → visit fs root below path ≡ ok found
      → visit (relist fs listing) root below' path ≡ ok found
  unfolding visit
  visit_mono path h =
      let (kind, e, h1) = >>=-eq-ok (map_err _ (fs.symlink_metadata path)) _ h in
      rw e (visit_kind_mono path kind h1)

  pub visit_all_mono :
      (paths : List FilePath) {found : List FilePath}
      → visit_all fs root below paths ≡ ok found
      → visit_all (relist fs listing) root below' paths ≡ ok found
  unfolding visit_all
  visit_all_mono [] h = h
  visit_all_mono (path ∷ rest) h =
      let (here, e, h1) = >>=-eq-ok (visit fs root below path) _ h in
      let (others, e1, h2) = >>=-eq-ok (visit_all fs root below rest) _ h1 in
      rw (visit_mono path e, visit_all_mono rest e1) h2

module _ (fs : Files) (root : FilePath) (listing : Listing) (same : SameEntries fs listing) where
  collect_regular_files-relist :
      (fuel : ℕ)
      → AnswersMore
          (collect_regular_files fs root fuel)
          (collect_regular_files (relist fs listing) root fuel)
  unfolding collect_regular_files
  collect_regular_files-relist zero dir found h = cc h
  collect_regular_files-relist (suc fuel) dir found h =
      let (entries, e, h1) = >>=-eq-ok (map_err _ (fs.read_dir dir)) _ h in
      let (children, e1, h2) = >>=-eq-ok (child_paths dir entries) _ h1 in
      let (entries', f, p) = same dir entries (map_err-eq-ok _ _ e) in
      let (children', f1, q) = child_paths-Perm dir p e1 in
      rw (f, f1)
        (subst
          (λ c.
            visit_all (relist fs listing) root (collect_regular_files (relist fs listing) root fuel)
              c
            ≡ ok found)
          q
          (visit_all_mono fs root listing _ _ (collect_regular_files-relist fuel)
            (sort path_le children) h2))

measure_entries-relist :
    (c : Crates) (fs : Files) (listing : Listing) (entries : List Entry)
    → measure_entries c (relist fs listing) entries ≡ measure_entries c fs entries
unfolding measure_entries
measure_entries-relist c fs listing [] = refl
measure_entries-relist c fs listing ((name, path) ∷ rest) =
    rw (measure_entries-relist c fs listing rest) refl

-- The measurement of a folder does not depend on the order in which the file system lists the
-- entries of its directories: where a folder can be measured, a disk that lists the same entries of
-- every directory in any other order, and is the same in all else, gives the same measurement.
pub measure_folder-relist :
    (c : Crates) (fs : Files) (listing : Listing) (depth : ℕ) (dir : Bytes)
    (measured : FolderMeasurement)
    → SameEntries fs listing
    → measure_folder c fs depth dir ≡ ok measured
    → measure_folder c (relist fs listing) depth dir ≡ ok measured
unfolding measure_folder
measure_folder-relist c fs listing depth dir measured same h =
    let (is_dir, e, h1) = >>=-eq-ok (map_err _ (fs.root_is_dir dir)) _ h in
    let (_, e1, h2) = >>=-eq-ok (if is_dir then ok tt else err _) _ h1 in
    let (root, e2, h3) = >>=-eq-ok (map_err _ (fs.root_path dir)) _ h2 in
    let (files, e3, h4) = >>=-eq-ok (collect_regular_files fs root depth root) _ h3 in
    rw (e, e1, e2)
      (rw (collect_regular_files-relist fs root listing same depth root files e3)
        (rw (measure_entries-relist c fs listing) h4))
