-- ===== src/Tpm/Folder.antt =====
-- The folder measurement of src/tpm.rs. The file system is a parameter: what each call answers, for
-- one state of the disk. A path is the list of its components, as the standard library compares
-- paths, and the root of the file system is the component "/".
pub mod Walk
pub mod Digest
pub mod Sorting
pub mod Order
pub mod Depth
pub mod Complete
pub mod Measured
pub mod Form
use tex_attestation_server.Prelude.{
  ℕ, zero, suc, ◌^◌, ◌%◌, Bool, true, false, not, ◌&&◌, ◌||◌, Option, none, some, List, [], ◌∷◌,
  ◌++◌, map, ltb, ◌==◌, if◌then◌else◌, length,
}
use tex_attestation_server.Prelude.Result.{Result, ok, err, ◌>>=◌, map_err}
use tex_attestation_server.Text.{Bytes, Text, lit, equal}
use tex_attestation_server.Text.Search.{replace}
use tex_attestation_server.Text.Utf8.{from_utf8_lossy}
use tex_attestation_server.Outside.{Crates}
use tex_attestation_server.Attestation.{to_le_bytes}
use tex_attestation_server.Tpm.Types.{TpmError, internal, MeasuredFile, FolderMeasurement}
use tex_attestation_server.Tpm.Config.{default_hash_algorithm}

abbrev pub FilePath : Type 0
FilePath = List Bytes

pub data FileType : Type 0 where
  symlink directory file other : FileType

-- `std::fs` at one state of the disk. An error is its message.
pub record Files : Type 0 where
  -- `metadata(root).is_dir()`, `canonicalize(root)`
  pub root_is_dir : Bytes → Result Text Bool
  pub root_path : Bytes → Result Text FilePath
  -- the names in a directory, in the order of `read_dir`
  pub read_dir : FilePath → Result Text (List (Result Text Bytes))
  pub symlink_metadata : FilePath → Result Text FileType
  pub canonicalize : FilePath → Result Text FilePath
  -- `metadata(path).is_file()`
  pub is_file : FilePath → Result Text Bool
  pub read : FilePath → Result Text Bytes

-- `path.display()` and `to_string_lossy`
path_bytes : FilePath → Bytes
path_bytes [] = []
path_bytes (c ∷ []) = c
path_bytes (c ∷ d ∷ p) =
    if equal c (b'/' ∷ []) then c ++ path_bytes (d ∷ p) else c ++ b'/' ∷ path_bytes (d ∷ p)

unfoldable pub display : FilePath → Text
unfolding path_bytes
display p = from_utf8_lossy (path_bytes p)

-- `Path::strip_prefix`
unfoldable pub strip_prefix : FilePath → FilePath → Option FilePath
strip_prefix [] p = some p
strip_prefix (r ∷ root) [] = none
strip_prefix (r ∷ root) (c ∷ p) = if equal r c then strip_prefix root p else none

-- `Path::starts_with`
unfoldable pub starts_with : FilePath → FilePath → Bool
unfolding strip_prefix
starts_with p root = elim (strip_prefix root p) [ none ↦ false | some _ ↦ true ]

-- The order of byte strings, and of paths by their components: less or equal.
unfoldable pub bytes_le : Bytes → Bytes → Bool
bytes_le [] t = true
bytes_le (a ∷ s) [] = false
bytes_le (a ∷ s) (b ∷ t) = ltb a b || ((a == b) && bytes_le s t)

unfoldable pub path_le : FilePath → FilePath → Bool
path_le [] q = true
path_le (a ∷ p) [] = false
path_le (a ∷ p) (b ∷ q) = if equal a b then path_le p q else bytes_le a b

-- A stable sort: an element goes in front of those that are not smaller.
module _ {A : Type 0} (le : A → A → Bool) where
  unfoldable pub insert : A → List A → List A
  insert x [] = x ∷ []
  insert x (y ∷ l) = if le x y then x ∷ y ∷ l else y ∷ insert x l

  unfoldable pub sort : List A → List A
  unfolding insert
  sort [] = []
  sort (x ∷ l) = insert x (sort l)

read_error : Text → FilePath → Text → Text → TpmError
read_error what p problem e = internal (what ++ (display p ++ (problem ++ e)))

-- The loop over the entries of `read_dir`.
unfoldable pub child_paths : FilePath → List (Result Text Bytes) → Result TpmError (List FilePath)
unfolding read_error
child_paths dir [] = ok []
child_paths dir (entry ∷ rest) = do
  name ← map_err (read_error (lit "directory entry below ") dir (lit " cannot be read: ")) entry
  others ← child_paths dir rest
  ok ((dir ++ name ∷ []) ∷ others)

module _ (fs : Files) (root : FilePath) where
  -- A link is kept if it stays inside the root and lands on a regular file.
  unfoldable pub follow_link : FilePath → List FilePath
  follow_link path = elim (fs.canonicalize path) [
    | err _ ↦ []
    | ok target ↦
        if starts_with target root
        then elim (fs.is_file target) [
          | err _ ↦ []
          | ok regular ↦ if regular then path ∷ [] else []
        ]
        else []
  ]

  -- What one child adds, by its kind. The argument `below` is the recursive call, on a directory.
  unfoldable pub visit_kind :
      (FilePath → Result TpmError (List FilePath))
      → FilePath
      → FileType
      → Result TpmError (List FilePath)
  visit_kind below path symlink = ok (follow_link path)
  visit_kind below path directory = below path
  visit_kind below path file = ok (path ∷ [])
  visit_kind below path other = ok []

  unfoldable pub visit :
      (FilePath → Result TpmError (List FilePath)) → FilePath → Result TpmError (List FilePath)
  unfolding read_error visit_kind
  visit below path = do
    kind ←
        map_err (read_error (lit "metadata of ") path (lit " cannot be read: "))
          (fs.symlink_metadata path)
    visit_kind below path kind

  unfoldable pub visit_all :
      (FilePath → Result TpmError (List FilePath)) → List FilePath → Result TpmError (List FilePath)
  visit_all below [] = ok []
  visit_all below (path ∷ rest) = do
    here ← visit below path
    more ← visit_all below rest
    ok (here ++ more)

  -- The files below `dir`, in the order in which they are pushed. The fuel bounds the depth of
  -- directories; `deep` stands for the end of the stack.
  unfoldable pub collect_regular_files : ℕ → FilePath → Result TpmError (List FilePath)
  unfolding read_error
  collect_regular_files zero dir = err (internal (lit "deep"))
  collect_regular_files (suc fuel) dir = do
    entries ←
        map_err (read_error (lit "directory ") dir (lit " cannot be read: ")) (fs.read_dir dir)
    children ← child_paths dir entries
    visit_all (collect_regular_files fuel) (sort path_le children)

-- The name of a file: its path below the root, with `/` between the parts.
unfoldable pub relative_name : FilePath → FilePath → Text
unfolding path_bytes
relative_name root path = elim (strip_prefix root path) [
  | none ↦ replace b'\\' b'/' (display path)
  | some rest ↦ replace b'\\' b'/' (display rest)
]

abbrev pub Entry : Type 0
Entry = Text × FilePath

-- `u64_le(len(name)) || name || digest`
unfoldable pub frame : Text → Bytes → Bytes
frame name digest = to_le_bytes 8 (length name % 2 ^ 64) ++ (name ++ digest)

-- The loop over the sorted entries: the bytes that the total digest was fed, and the rows.
unfoldable pub measure_entries :
    Crates → Files → List Entry → Result TpmError (Bytes × List MeasuredFile)
unfolding read_error
measure_entries c fs [] = ok ([], [])
measure_entries c fs ((name, path) ∷ rest) = do
  contents ←
      map_err (read_error (lit "measured file ") path (lit " cannot be read: ")) (fs.read path)
  (fed, rows) ← measure_entries c fs rest
  let digest = c.sha256 contents
  ok (
    frame name digest ++ fed,
    record { name = name; hash = c.hex_encode digest; size = length contents } ∷ rows,
  )

abbrev pub entry_le : Entry → Entry → Bool
entry_le a b = bytes_le a.0 b.0

-- `measure_folder`, with fuel for the depth of the directory tree.
unfoldable pub measure_folder : Crates → Files → ℕ → Bytes → Result TpmError FolderMeasurement
measure_folder c fs depth dir = do
  is_dir ←
      map_err
        (λ e.
          internal
            (lit "measured directory " ++ (from_utf8_lossy dir ++ (lit " cannot be read: " ++ e))))
        (fs.root_is_dir dir)
  _ ←
      (if is_dir
        then ok tt
        else err
            (internal (lit "measured path " ++ (from_utf8_lossy dir ++ lit " is not a directory"))))
  root ←
      map_err
        (λ e. internal (
          lit "measured directory " ++ (from_utf8_lossy dir ++ (lit " cannot be resolved: " ++ e))))
        (fs.root_path dir)
  files ← collect_regular_files fs root depth root
  (fed, rows) ←
      measure_entries c fs (sort entry_le (map (λ path. (relative_name root path, path)) files))
  ok (record {
    directory = display root;
    hash_algorithm = default_hash_algorithm;
    measurement = rows;
    total_hash = c.hex_encode (c.sha256 fed);
  })
