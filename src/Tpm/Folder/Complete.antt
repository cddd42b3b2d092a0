-- ===== src/Tpm/Folder/Complete.antt =====
-- What the walk of src/tpm.rs does not miss.
use tex_attestation_server.Prelude.{
  ℕ, zero, suc, ◌≡◌, refl, sym, ap, ◌∙◌, Bool, List, [], ◌∷◌, ◌++◌, Bool-cases, inl, inr,
}
use tex_attestation_server.Prelude.Result.{Result, ok, map_err, >>=-eq-ok, ok-inj}
use tex_attestation_server.Prelude.Monad.{map_err-eq-ok}
use mathlib.Core.Path.{subst}
use mathlib.Core.Logic.Or
use mathlib.Core.List.{
  Mem, Mem-prop, not-mem-nil, mem-cons_self, mem-cons_of_mem, eq-or-mem_of_mem-cons,
  mem-append_left, mem-append_right,
}
use tex_attestation_server.Text.{Bytes, Text}
use tex_attestation_server.Tpm.Types.{TpmError}
use tex_attestation_server.Tpm.Folder.{
  FilePath, directory, Files, insert, sort, child_paths, visit_kind, visit, visit_all,
  collect_regular_files, path_le,
}
use tex_attestation_server.Tpm.Folder.Walk.{Measurable, regular, linked, kept}

-- The path of a name that a directory lists.
pub data Child (fs : Files) (dir : FilePath) : FilePath → Type 0 where
  child :
      (entries : List (Result Text Bytes)) (name : Bytes)
      → fs.read_dir dir ≡ ok entries
      → Mem (ok name) entries
      → Child fs dir (dir ++ name ∷ [])

-- The paths below a directory: its children, and what is below a child that is a directory.
pub data Below (fs : Files) (path : FilePath) : FilePath → Type 0 where
  here : (dir : FilePath) → Child fs dir path → Below fs path dir
  deeper :
      (dir middle : FilePath)
      → Child fs dir middle
      → fs.symlink_metadata middle ≡ ok directory
      → Below fs path middle
      → Below fs path dir

module _ {A : Type 0} (le : A → A → Bool) where
  insert-Mem : (a x : A) (l : List A) → Mem a (x ∷ l) → Mem a (insert le x l)
  unfolding insert
  insert-Mem a x [] m = m
  insert-Mem a x (y ∷ l) m = elim (Bool-cases (le x y)) [
    | inl t ↦ rw t m
    | inr f ↦ rw f (
        Or.elim Mem-prop (eq-or-mem_of_mem-cons m)
          (λ e. mem-cons_of_mem y (insert-Mem a x l (subst (λ b. Mem a (b ∷ l)) e mem-cons_self)))
          (λ m'.
            Or.elim Mem-prop (eq-or-mem_of_mem-cons m')
              (λ e. subst (λ b. Mem a (b ∷ insert le x l)) e mem-cons_self)
              (λ rest. mem-cons_of_mem y (insert-Mem a x l (mem-cons_of_mem x rest)))))
  ]

  sort-Mem : (a : A) (l : List A) → Mem a l → Mem a (sort le l)
  unfolding sort
  sort-Mem a [] m = m
  sort-Mem a (x ∷ l) m = insert-Mem a x (sort le l) (
      Or.elim Mem-prop (eq-or-mem_of_mem-cons m)
        (λ e. subst (λ b. Mem a (b ∷ sort le l)) e mem-cons_self)
        (λ rest. mem-cons_of_mem x (sort-Mem a l rest)))

child_paths-Mem :
    (dir : FilePath) (name : Bytes) (entries : List (Result Text Bytes)) (children : List FilePath)
    → Mem (ok name) entries
    → child_paths dir entries ≡ ok children
    → Mem (dir ++ name ∷ []) children
unfolding child_paths
child_paths-Mem dir name [] children m h = absurd (not-mem-nil m)
child_paths-Mem dir name (entry ∷ rest) children m h =
    let (first, e, h1) = >>=-eq-ok (map_err _ entry) _ h in
    let (others, e1, h2) = >>=-eq-ok (child_paths dir rest) _ h1 in
    subst (Mem (dir ++ name ∷ [])) (ok-inj h2) (
      Or.elim Mem-prop (eq-or-mem_of_mem-cons m)
        (λ same.
          let e2 = ok-inj (same ∙ map_err-eq-ok _ _ e) in
          subst (λ n. Mem (dir ++ name ∷ []) ((dir ++ n ∷ []) ∷ others)) e2 mem-cons_self)
        (λ later. mem-cons_of_mem _ (child_paths-Mem dir name rest others later e1)))

module _ (fs : Files) (root : FilePath) where
  visit_all-Mem :
      (below : FilePath → Result TpmError (List FilePath)) (path q : FilePath)
      (paths found : List FilePath)
      → Mem path paths
      → ((part : List FilePath) → visit fs root below path ≡ ok part → Mem q part)
      → visit_all fs root below paths ≡ ok found
      → Mem q found
  unfolding visit_all
  visit_all-Mem below path q [] found m h e = absurd (not-mem-nil m)
  visit_all-Mem below path q (first ∷ rest) found m h e =
      let (part, e1, h1) = >>=-eq-ok (visit fs root below first) _ e in
      let (more, e2, h2) = >>=-eq-ok (visit_all fs root below rest) _ h1 in
      subst (Mem q) (ok-inj h2) (
        Or.elim Mem-prop (eq-or-mem_of_mem-cons m)
          (λ same. mem-append_left more (h part (ap (visit fs root below) same ∙ e1)))
          (λ later. mem-append_right part (visit_all-Mem below path q rest more later h e2)))

  visit_one :
      (below : FilePath → Result TpmError (List FilePath)) (path : FilePath)
      → Measurable fs root path
      → visit fs root below path ≡ ok (path ∷ [])
  unfolding visit visit_kind
  visit_one below path (regular is) = rw is refl
  visit_one below path (linked target link is inside lands) =
      rw link (ap ok (sym (kept fs root path target is inside lands)))

  visit_directory :
      (below : FilePath → Result TpmError (List FilePath)) (path : FilePath)
      → fs.symlink_metadata path ≡ ok directory
      → visit fs root below path ≡ below path
  unfolding visit visit_kind
  visit_directory below path is = rw is refl

  through_child :
      (fuel : ℕ) (dir : FilePath) (found : List FilePath) (path q : FilePath)
      → Child fs dir path
      → collect_regular_files fs root (suc fuel) dir ≡ ok found
      → ((part : List FilePath)
          → visit fs root (collect_regular_files fs root fuel) path ≡ ok part
          → Mem q part)
      → Mem q found
  unfolding collect_regular_files
  through_child fuel dir found path q (child entries name is m) e h =
      let (entries', e1, h1) = >>=-eq-ok (map_err _ (fs.read_dir dir)) _ e in
      let (children, e2, h2) = >>=-eq-ok (child_paths dir entries') _ h1 in
      let m' = subst (Mem (ok name)) (ok-inj (sym is ∙ map_err-eq-ok _ _ e1)) m in
      visit_all-Mem (collect_regular_files fs root fuel) path q (sort path_le children) found
        (sort-Mem path_le path children (child_paths-Mem dir name entries' children m' e2)) h h2

  -- The walk misses nothing: whatever a walk that succeeds collects, it collects every regular file
  -- below the directory, at any depth, and every link there that leads to a regular file inside the
  -- root.
  pub collect_regular_files-Below :
      (fuel : ℕ) (dir : FilePath) (found : List FilePath) (path : FilePath)
      → collect_regular_files fs root fuel dir ≡ ok found
      → Below fs path dir
      → Measurable fs root path
      → Mem path found
  unfolding collect_regular_files
  collect_regular_files-Below zero dir found path e below can = absurd (cc e)
  collect_regular_files-Below (suc fuel) dir found path e (here _ c) can =
      let walk = collect_regular_files fs root fuel in
      through_child fuel dir found path path c e
        λ part e1. subst (Mem path) (ok-inj (sym (visit_one walk path can) ∙ e1)) mem-cons_self
  collect_regular_files-Below (suc fuel) dir found path e (deeper _ middle c is_dir below) can =
      through_child fuel dir found middle path c e λ part e1.
        collect_regular_files-Below fuel middle part path
          (sym (visit_directory (collect_regular_files fs root fuel) middle is_dir) ∙ e1) below can
