-- ===== src/Tests/Folder.antt =====
-- Tests of the folder measurement: a folder with a file, a link and a directory that has a file.
use tex_attestation_server.Prelude.{
  ◌≡◌, refl, Bool, true, false, ◌&&◌, List, [], ◌∷◌, ◌++◌, arith, if◌then◌else◌,
}
use tex_attestation_server.Prelude.Result.{Result, ok, err, ok-inj}
use mathlib.Core.List.{Perm, Mem, mem-cons_self, mem-cons_of_mem}
use mathlib.Core.List.Perm
use mathlib.Core.Path.{subst}
use tex_attestation_server.Text.{Bytes, Text, equal}
use tex_attestation_server.Tpm.Types.{FolderMeasurement}
use tex_attestation_server.Tpm.Folder.{
  FilePath, FileType, symlink, directory, file, Files, measure_folder, collect_regular_files,
  child_paths,
}
use tex_attestation_server.Tpm.Folder.Walk.{regular}
use tex_attestation_server.Tpm.Folder.Order.{Listing, relist, SameEntries, measure_folder-relist}
use tex_attestation_server.Tpm.Folder.Depth.{
  IsReadable, IsReadable-IsShallow, measure_folder-IsShallow, collect_regular_files-IsReadable,
}
use tex_attestation_server.Tpm.Folder.Complete.{child, here, deeper, collect_regular_files-Below}
use tex_attestation_server.Tpm.Folder.Measured.{FilesReadable, measure_folder-eq-ok}
use tex_attestation_server.Tests.Codec.{test_crates}

-- The folder is "s", and "d" the directory in it.
abbrev tree_listing : Listing
tree_listing [] = err []
tree_listing (s ∷ []) = ok (ok (b'a' ∷ []) ∷ ok (b'd' ∷ []) ∷ ok (b'l' ∷ []) ∷ [])
tree_listing (s ∷ d ∷ p) = ok (ok (b'b' ∷ []) ∷ [])

abbrev other_listing : Listing
other_listing [] = err []
other_listing (s ∷ []) = ok (ok (b'd' ∷ []) ∷ ok (b'a' ∷ []) ∷ ok (b'l' ∷ []) ∷ [])
other_listing (s ∷ d ∷ p) = ok (ok (b'b' ∷ []) ∷ [])

abbrev equal_paths : FilePath → FilePath → Bool
equal_paths [] [] = true
equal_paths (a ∷ p) (b ∷ q) = equal a b && equal_paths p q
equal_paths _ _ = false

abbrev kind_of : FilePath → FileType
kind_of path =
    if equal_paths path ((b's' ∷ []) ∷ (b'd' ∷ []) ∷ [])
    then directory
    else if equal_paths path ((b's' ∷ []) ∷ (b'l' ∷ []) ∷ [])
    then symlink
    else file

abbrev tree : Files
tree = record {
  root_is_dir = λ dir. ok true;
  root_path = λ dir. ok ((b's' ∷ []) ∷ []);
  read_dir = tree_listing;
  symlink_metadata = λ path. ok (kind_of path);
  canonicalize = λ path. ok ((b's' ∷ []) ∷ (b'a' ∷ []) ∷ []);
  is_file = λ path. ok true;
  read = λ path. ok (1 ∷ 2 ∷ []);
}

abbrev root : FilePath
root = (b's' ∷ []) ∷ []

tree-IsReadable : IsReadable tree 2 root
unfolding IsReadable child_paths equal
tree-IsReadable = (
  ok (b'a' ∷ []) ∷ ok (b'd' ∷ []) ∷ ok (b'l' ∷ []) ∷ [],
  (root ++ (b'a' ∷ []) ∷ []) ∷ (root ++ (b'd' ∷ []) ∷ []) ∷ (root ++ (b'l' ∷ []) ∷ []) ∷ [],
  refl,
  refl,
  (
    (file, refl, λ e. absurd (cc e)),
    (
      (
        directory,
        refl,
        λ e. (
          ok (b'b' ∷ []) ∷ [],
          (root ++ (b'd' ∷ []) ∷ (b'b' ∷ []) ∷ []) ∷ [],
          refl,
          refl,
          ((file, refl, λ e'. absurd (cc e')), tt),
        ),
      ),
      ((symlink, refl, λ e. absurd (cc e)), tt),
    ),
  ),
)

files_readable : FilesReadable tree root
files_readable path below m = (_, refl)

measure_folder-eq-ok_example :
    (measured : FolderMeasurement) × (measure_folder test_crates tree 2 (b's' ∷ []) ≡ ok measured)
measure_folder-eq-ok_example =
    measure_folder-eq-ok test_crates tree (b's' ∷ []) root 2 refl refl tree-IsReadable
      files_readable

tree_measured :
    (measured : FolderMeasurement) × (measure_folder test_crates tree 2 (b's' ∷ []) ≡ ok measured)
tree_measured =
    measure_folder-eq-ok test_crates tree (b's' ∷ []) root 2 refl refl tree-IsReadable
      files_readable

abbrev reordered : List (Result Text Bytes)
reordered = ok (b'd' ∷ []) ∷ ok (b'a' ∷ []) ∷ ok (b'l' ∷ []) ∷ []

abbrev only : List (Result Text Bytes)
only = ok (b'b' ∷ []) ∷ []

same_entries : SameEntries tree other_listing
same_entries [] entries e = absurd (cc e)
same_entries (s ∷ []) entries e =
    (reordered, refl, subst (λ l. Perm l reordered) (ok-inj e) (Perm.swap _ _ _))
same_entries (s ∷ d ∷ p) entries e = (only, refl, subst (λ l. Perm l only) (ok-inj e) Perm.rfl)

measure_folder-relist_example :
    measure_folder test_crates (relist tree other_listing) 2 (b's' ∷ []) ≡ ok tree_measured.0
measure_folder-relist_example =
    measure_folder-relist test_crates tree other_listing 2 (b's' ∷ []) tree_measured.0 same_entries
      tree_measured.1

measure_folder-IsShallow_example :
    measure_folder test_crates tree 7 (b's' ∷ []) ≡ measure_folder test_crates tree 2 (b's' ∷ [])
measure_folder-IsShallow_example =
    measure_folder-IsShallow test_crates tree (b's' ∷ []) root 2 7 refl
      (IsReadable-IsShallow tree 2 root tree-IsReadable) (omega arith)

tree_found : (found : List FilePath) × (collect_regular_files tree root 2 root ≡ ok found)
tree_found = collect_regular_files-IsReadable tree root 2 root tree-IsReadable

middle_is : tree.symlink_metadata ((b's' ∷ []) ∷ (b'd' ∷ []) ∷ []) ≡ ok directory
unfolding equal
middle_is = refl

kind_is : tree.symlink_metadata ((b's' ∷ []) ∷ (b'd' ∷ []) ∷ (b'b' ∷ []) ∷ []) ≡ ok file
unfolding equal
kind_is = refl

collect_regular_files-Below_example :
    Mem ((b's' ∷ []) ∷ (b'd' ∷ []) ∷ (b'b' ∷ []) ∷ []) tree_found.0
collect_regular_files-Below_example =
    collect_regular_files-Below tree root 2 root tree_found.0
      ((b's' ∷ []) ∷ (b'd' ∷ []) ∷ (b'b' ∷ []) ∷ []) tree_found.1
      (deeper root ((b's' ∷ []) ∷ (b'd' ∷ []) ∷ [])
        (child _ (b'd' ∷ []) refl (mem-cons_of_mem _ mem-cons_self)) middle_is
        (here _ (child _ (b'b' ∷ []) refl mem-cons_self)))
      (regular kind_is)
