-- ===== src/Tpm/Folder/Walk.antt =====
-- What the walk of src/tpm.rs collects: `collect_regular_files`.
use tex_attestation_server.Prelude.{
  ℕ, zero, suc, ◌≡◌, refl, sym, true, false, List, [], ◌∷◌, All, All-append, Bool-cases, inl, inr,
}
use tex_attestation_server.Prelude.Result.{Result, ok, map_err, >>=-eq-ok, ok-inj, Result-cases}
use mathlib.Core.Path.{subst}
use tex_attestation_server.Prelude.Monad.{map_err-eq-ok}
use tex_attestation_server.Tpm.Types.{TpmError}
use tex_attestation_server.Tpm.Folder.{
  FilePath, FileType, symlink, directory, file, other, Files, starts_with, sort, child_paths,
  follow_link, visit_kind, visit, visit_all, collect_regular_files, path_le,
}

-- A path that may be measured: a regular file, or a link that leads to one inside the root.
pub data Measurable (fs : Files) (root path : FilePath) : Type 0 where
  regular : fs.symlink_metadata path ≡ ok file → Measurable fs root path
  linked :
      (target : FilePath)
      → fs.symlink_metadata path ≡ ok symlink
      → fs.canonicalize path ≡ ok target
      → starts_with target root ≡ true
      → fs.is_file target ≡ ok true
      → Measurable fs root path

module _ (fs : Files) (root : FilePath) where
  skipped :
      (path : FilePath)
      → follow_link fs root path ≡ []
      → All (Measurable fs root) (follow_link fs root path)
  skipped path e = subst (All (Measurable fs root)) (sym e) tt

  pub kept :
      (path target : FilePath)
      → fs.canonicalize path ≡ ok target
      → starts_with target root ≡ true
      → fs.is_file target ≡ ok true
      → path ∷ [] ≡ follow_link fs root path
  unfolding follow_link
  kept path target is inside lands = rw (is, follow_link) rw inside rw lands refl

  follow_link-Measurable :
      (path : FilePath)
      → fs.symlink_metadata path ≡ ok symlink
      → All (Measurable fs root) (follow_link fs root path)
  unfolding follow_link
  follow_link-Measurable path link = elim (Result-cases (fs.canonicalize path)) [
    | inr (e, bad) ↦ skipped path (rw (bad, follow_link) refl)
    | inl (target, is) ↦ elim (Bool-cases (starts_with target root)) [
      | inr outside ↦ skipped path (rw (is, follow_link) rw outside refl)
      | inl inside ↦ elim (Result-cases (fs.is_file target)) [
        | inr (e, bad) ↦ skipped path (rw (is, follow_link) rw inside rw bad refl)
        | inl (true, lands) ↦
            subst (All (Measurable fs root)) (kept path target is inside lands)
              (linked target link is inside lands, tt)
        | inl (false, lands) ↦ skipped path (rw (is, follow_link) rw inside rw lands refl)
      ]
    ]
  ]

  visit_kind-Measurable :
      (below : FilePath → Result TpmError (List FilePath)) (path : FilePath) (kind : FileType)
      (out : List FilePath)
      → ((dir : FilePath) (found : List FilePath)
          → below dir ≡ ok found
          → All (Measurable fs root) found)
      → fs.symlink_metadata path ≡ ok kind
      → visit_kind fs root below path kind ≡ ok out
      → All (Measurable fs root) out
  unfolding visit_kind
  visit_kind-Measurable below path symlink out ih is e =
      subst (All (Measurable fs root)) (ok-inj e) (follow_link-Measurable path is)
  visit_kind-Measurable below path directory out ih is e = ih path out e
  visit_kind-Measurable below path file out ih is e =
      subst (All (Measurable fs root)) (ok-inj e) (regular is, tt)
  visit_kind-Measurable below path other out ih is e =
      subst (All (Measurable fs root)) (ok-inj e) tt

  visit_all-Measurable :
      (below : FilePath → Result TpmError (List FilePath)) (paths out : List FilePath)
      → ((dir : FilePath) (found : List FilePath)
          → below dir ≡ ok found
          → All (Measurable fs root) found)
      → visit_all fs root below paths ≡ ok out
      → All (Measurable fs root) out
  unfolding visit_all visit
  visit_all-Measurable below [] out ih e = subst (All (Measurable fs root)) (ok-inj e) tt
  visit_all-Measurable below (path ∷ rest) out ih e =
      let (here, e1, h1) = >>=-eq-ok (visit fs root below path) _ e in
      let (more, e2, h2) = >>=-eq-ok (visit_all fs root below rest) _ h1 in
      let (kind, e3, h3) = >>=-eq-ok (map_err _ (fs.symlink_metadata path)) _ e1 in
      subst (All (Measurable fs root)) (ok-inj h2) (
        All-append (Measurable fs root) here more
          (visit_kind-Measurable below path kind here ih (map_err-eq-ok _ _ e3) h3)
          (visit_all-Measurable below rest more ih e2))

  -- Every path that the walk collects is a regular file, or a link whose target is a regular file
  -- inside the root: no link leads out of the measured folder, and no other kind of node is measured.
  pub collect_regular_files-Measurable :
      (fuel : ℕ) (dir : FilePath) (found : List FilePath)
      → collect_regular_files fs root fuel dir ≡ ok found
      → All (Measurable fs root) found
  unfolding collect_regular_files
  collect_regular_files-Measurable zero dir found e = absurd (cc e)
  collect_regular_files-Measurable (suc fuel) dir found e =
      let (entries, e1, h1) = >>=-eq-ok (map_err _ (fs.read_dir dir)) _ e in
      let (children, e2, h2) = >>=-eq-ok (child_paths dir entries) _ h1 in
      visit_all-Measurable (collect_regular_files fs root fuel) (sort path_le children) found
        (collect_regular_files-Measurable fuel) h2
