-- ===== src/Tpm/Folder/Depth.antt =====
-- How deep the walk of src/tpm.rs goes, and when it ends with an answer.
use tex_attestation_server.Prelude.{
  ℕ, zero, suc, ◌≤◌, ◌≡◌, refl, sym, ap, ◌∙◌, List, [], ◌∷◌, ◌++◌, arith, All, All-map, Bool,
  Bool-cases, inl, inr,
}
use tex_attestation_server.Prelude.Result.{Result, ok, Result-cases, ok-inj}
use mathlib.Core.Path.{subst}
use tex_attestation_server.Text.{Bytes, Text}
use tex_attestation_server.Outside.{Crates}
use tex_attestation_server.Tpm.Types.{TpmError}
use tex_attestation_server.Tpm.Folder.{
  FilePath, FileType, symlink, directory, file, other, Files, insert, sort, child_paths, visit_kind,
  visit, visit_all, collect_regular_files, path_le, measure_folder,
}

-- The tree below a directory is nested `n` deep at most. A directory that cannot be listed has no
-- children.
unfoldable pub IsShallow : Files → ℕ → FilePath → Type 0
IsShallow fs zero dir = ⊥
IsShallow fs (suc n) dir =
    (entries : List (Result Text Bytes)) (children : List FilePath)
    → fs.read_dir dir ≡ ok entries
    → child_paths dir entries ≡ ok children
    → All (λ p. fs.symlink_metadata p ≡ ok directory → IsShallow fs n p) children

module _ {A : Type 0} (le : A → A → Bool) (P : A → Type 0) where
  insert-All : (x : A) (l : List A) → P x → All P l → All P (insert le x l)
  unfolding insert
  insert-All x [] px h = (px, tt)
  insert-All x (y ∷ l) px h = elim (Bool-cases (le x y)) [
    | inl t ↦ rw t (px, h)
    | inr f ↦ rw f (h.0, insert-All x l px h.1)
  ]

  pub sort-All : (l : List A) → All P l → All P (sort le l)
  unfolding sort
  sort-All [] h = tt
  sort-All (x ∷ l) h = insert-All x (sort le l) h.0 (sort-All l h.1)

module _ (fs : Files) (root : FilePath) where
  abbrev Agree :
      (FilePath → Result TpmError (List FilePath))
      → (FilePath → Result TpmError (List FilePath))
      → FilePath
      → Type 0
  Agree below below' path = fs.symlink_metadata path ≡ ok directory → below' path ≡ below path

  module _ (below below' : FilePath → Result TpmError (List FilePath)) where
    visit_kind-Agree :
        (path : FilePath) (kind : FileType)
        → fs.symlink_metadata path ≡ ok kind
        → Agree below below' path
        → visit_kind fs root below' path kind ≡ visit_kind fs root below path kind
    unfolding visit_kind
    visit_kind-Agree path symlink is h = refl
    visit_kind-Agree path directory is h = h is
    visit_kind-Agree path file is h = refl
    visit_kind-Agree path other is h = refl

    visit-Agree :
        (path : FilePath)
        → Agree below below' path
        → visit fs root below' path ≡ visit fs root below path
    unfolding visit
    visit-Agree path h = elim (Result-cases (fs.symlink_metadata path)) [
      | inl (kind, is) ↦ rw is (visit_kind-Agree path kind is h)
      | inr (e, is) ↦ rw is refl
    ]

    visit_all-Agree :
        (paths : List FilePath)
        → All (Agree below below') paths
        → visit_all fs root below' paths ≡ visit_all fs root below paths
    unfolding visit_all
    visit_all-Agree [] h = refl
    visit_all-Agree (path ∷ rest) h = rw (visit-Agree path h.0, visit_all-Agree rest h.1) refl

  collect_regular_files-IsShallow :
      (n m : ℕ) (dir : FilePath)
      → IsShallow fs n dir
      → n ≤ m
      → collect_regular_files fs root m dir ≡ collect_regular_files fs root n dir
  unfolding collect_regular_files IsShallow
  collect_regular_files-IsShallow zero m dir shallow le = absurd shallow
  collect_regular_files-IsShallow (suc n) zero dir shallow le = absurd (omega arith)
  collect_regular_files-IsShallow (suc n) (suc m) dir shallow le =
      elim (Result-cases (fs.read_dir dir)) [
        | inr (e, is) ↦ rw is refl
        | inl (entries, is) ↦ elim (Result-cases (child_paths dir entries)) [
          | inr (e, is') ↦ rw (is, is') refl
          | inl (children, is') ↦
              rw (is, is')
                (visit_all-Agree (collect_regular_files fs root n) (collect_regular_files fs root m)
                  (sort path_le children)
                  (sort-All path_le _ children (
                    All-map _ _ children
                      (λ p below is_dir.
                        collect_regular_files-IsShallow n m p (below is_dir) (omega arith))
                      (shallow entries children is is'))))
        ]
      ]

-- A walk ends: where the tree below the measured directory is nested `n` deep at most, any fuel from
-- `n` on gives the measurement, or the error, that `n` gives, so the bound on the depth does not show.
pub measure_folder-IsShallow :
    (c : Crates) (fs : Files) (dir : Bytes) (root : FilePath) (n m : ℕ)
    → fs.root_path dir ≡ ok root
    → IsShallow fs n root
    → n ≤ m
    → measure_folder c fs m dir ≡ measure_folder c fs n dir
unfolding measure_folder
measure_folder-IsShallow c fs dir root n m is shallow le =
    rw (is, collect_regular_files-IsShallow fs root n m root shallow le) refl

-- A tree that can be walked: every directory can be listed, and every child has a type.
unfoldable pub IsReadable : Files → ℕ → FilePath → Type 0
IsReadable fs zero dir = ⊥
IsReadable fs (suc n) dir =
    (entries : List (Result Text Bytes)) × (children : List FilePath) × (fs.read_dir dir
      ≡ ok entries)
    × (child_paths dir entries ≡ ok children)
    × All
        (λ p.
          (kind : FileType) × (fs.symlink_metadata p ≡ ok kind)
          × (kind ≡ directory → IsReadable fs n p))
        children

pub IsReadable-IsShallow :
    (fs : Files) (n : ℕ) (dir : FilePath) → IsReadable fs n dir → IsShallow fs n dir
unfolding IsReadable IsShallow
IsReadable-IsShallow fs zero dir readable = absurd readable
IsReadable-IsShallow fs (suc n) dir readable = λ entries children e e'.
    let (entries', children', f, f', all) = readable in
    let same = ok-inj (sym f ∙ e) in
    let same' = ok-inj (sym f' ∙ ap (child_paths dir) same ∙ e') in
    subst (All (λ p. fs.symlink_metadata p ≡ ok directory → IsShallow fs n p)) same' (
      All-map _ _ children' (λ p w is. IsReadable-IsShallow fs n p (w.2 (ok-inj (sym w.1 ∙ is))))
        all)

-- What a part of a walk finds.
abbrev Found : Result TpmError (List FilePath) → Type 0
Found r = (found : List FilePath) × (r ≡ ok found)

module _ (fs : Files) (root : FilePath) where
  module _ (below : FilePath → Result TpmError (List FilePath)) where
    abbrev Walks : FilePath → Type 0
    Walks path =
        (kind : FileType) × (fs.symlink_metadata path ≡ ok kind)
        × (kind ≡ directory → Found (below path))

    visit_kind-Found :
        (path : FilePath) (kind : FileType)
        → (kind ≡ directory → Found (below path))
        → Found (visit_kind fs root below path kind)
    unfolding visit_kind
    visit_kind-Found path symlink h = (_, refl)
    visit_kind-Found path directory h = h refl
    visit_kind-Found path file h = (_, refl)
    visit_kind-Found path other h = (_, refl)

    visit_all-Found :
        (paths : List FilePath) → All Walks paths → Found (visit_all fs root below paths)
    unfolding visit_all visit
    visit_all-Found [] h = ([], refl)
    visit_all-Found (path ∷ rest) h =
        let (kind, is, down) = h.0 in
        let (here, e) = visit_kind-Found path kind down in
        let (more, e') = visit_all-Found rest h.1 in (here ++ more, rw (is, e, e') refl)

  pub collect_regular_files-IsReadable :
      (n : ℕ) (dir : FilePath) → IsReadable fs n dir → Found (collect_regular_files fs root n dir)
  unfolding collect_regular_files IsReadable
  collect_regular_files-IsReadable zero dir readable = absurd readable
  collect_regular_files-IsReadable (suc n) dir readable =
      let (entries, children, e, e', all) = readable in
      let (found, f) = visit_all-Found (collect_regular_files fs root n) (sort path_le children) (
        sort-All path_le _ children (
          All-map _ _ children
            (λ p w. (w.0, w.1, λ is. collect_regular_files-IsReadable n p (w.2 is))) all)) in
      (found, rw (e, e') f)
