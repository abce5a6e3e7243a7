-- ===== src/Files.antt =====
-- Files as records, and their initialisation: system/files.c and system/include/files.h.
use virtual_file_system_c.Prelude.{
  ℕ, Bool, true, Option, none, List, [], ◌∷◌, leb, if◌then◌else◌, update, copy,
}
use virtual_file_system_c.Settings.{max_name_length}
use virtual_file_system_c.Status.{Result, done, error, insufficient_array_passed}

-- `ChunkExtent`
pub record ChunkExtent : Type 0 where
  pub is_empty : Bool
  pub start : ℕ
  pub chunk_amount : ℕ

-- A `Folder *` that is not NULL: the address of the entry store's root, or of one of its folders.
pub data FolderRef : Type 0 where
  root : FolderRef
  slot : ℕ → FolderRef

-- `File`. The name is the array behind `name`, and `none` the NULL parent. The array has
-- `max_name_length` bytes: file_init writes its null inside of it, rename_file faults where it would
-- write behind it, and what reads the name of a file in use stops at a null inside of it.
pub record File : Type 0 where
  pub allocated_size : ℕ
  pub parent_folder : Option FolderRef
  pub data_chunk_extents : List ChunkExtent
  pub name : ℕ → ℕ

-- `init_empty_extensions`: the loop over the array.
unfoldable pub init_empty_extensions : List ChunkExtent → List ChunkExtent
init_empty_extensions [] = []
init_empty_extensions (e ∷ es) = record e { is_empty = true } ∷ init_empty_extensions es

-- `file_init`, on the file that is there before.
unfoldable pub file_init : File → (file_name : ℕ → ℕ) → (file_name_length : ℕ) → Result File
file_init f file_name file_name_length =
    if leb max_name_length file_name_length
    then error insufficient_array_passed
    else done (record {
      allocated_size = 0;
      parent_folder = none;
      data_chunk_extents = init_empty_extensions f.data_chunk_extents;
      name = update (copy f.name 0 file_name 0 file_name_length) file_name_length 0;
    })
