-- ===== src/Relocation.antt =====
-- Entries are renamed and moved: system/entry_relocation.c.
pub mod Cycles
pub mod Moves
pub mod Renames
use virtual_file_system_c.Prelude.{ℕ, zero, suc, ◌+◌, Bool, true, false, Option, none, some}
use virtual_file_system_c.Settings.{max_name_length, max_sub_folders_amount}
use virtual_file_system_c.Status.{
  Outcome, ok, fail, fault, Act, ◌>>=◌, ◌>>◌, lift, Result, done, error, ◌>>>◌, invalid_argument,
  invalid_root_operation, attempted_to_enforce_cyclic_relation, recursive_operation_limit_exceeded,
}
use virtual_file_system_c.Files.{File, FolderRef}
use virtual_file_system_c.Names.{set_entry_name, name_fits}
use virtual_file_system_c.Folders.{
  Folder, VfsEntryStore, folder_at, put_folder, put_file, same_folder, name_length,
  get_available_sub_file_position, get_available_sub_folder_position,
}
use virtual_file_system_c.Folders.Validate.{validate_sub_entry_name}
use virtual_file_system_c.Folders.Links.{
  link_file, set_sub_folder, set_parent, unlink_sub_file, unlink_sub_folder,
}

-- `rename_file`. The name that `validate_sub_entry_name` lets through may have `max_name_length`
-- chars, and its null is then written behind the array of the file.
unfoldable pub rename_file : ℕ → (name : ℕ → ℕ) (name_length : ℕ) → Act VfsEntryStore (Unit {0})
unfolding name_fits
rename_file f name length s = elim ((s.files f).parent_folder) [
  | none ↦ fail invalid_argument s
  | some p ↦ elim (validate_sub_entry_name s p name length) [
    | error c ↦ fail c s
    | done u ↦ elim (name_fits max_name_length name length) [
      | false ↦ fault
      | true ↦
          ok tt (
            put_file f (record (s.files f) { name = set_entry_name name length (s.files f).name })
              s)
    ]
  ]
]

-- `rename_folder` behind the test for the root
unfoldable pub rename_sub_folder :
    FolderRef → (name : ℕ → ℕ) (name_length : ℕ) → Act VfsEntryStore (Unit {0})
rename_sub_folder r name length s = elim ((folder_at s r).parent_folder) [
  | none ↦ fail invalid_argument s
  | some p ↦ elim (validate_sub_entry_name s p name length) [
    | error c ↦ fail c s
    | done u ↦ ok tt (
        put_folder r
          (record (folder_at s r) { name = set_entry_name name length (folder_at s r).name }) s)
  ]
]

-- `rename_folder`
unfoldable pub rename_folder :
    FolderRef → (name : ℕ → ℕ) (name_length : ℕ) → Act VfsEntryStore (Unit {0})
unfolding rename_sub_folder
rename_folder r name length s = elim ((folder_at s r).is_root) [
  | true ↦ fail invalid_root_operation s
  | false ↦ rename_sub_folder r name length s
]

-- `move_file`
unfoldable pub move_file : ℕ → FolderRef → Act VfsEntryStore (Unit {0})
move_file f p = do
  lift (λ s. validate_sub_entry_name s p (s.files f).name (name_length (s.files f).name))
  i ← lift (λ s. get_available_sub_file_position (folder_at s p))
  unlink_sub_file f
  λ s. ok tt (link_file f p i s)

-- `for (i = 0; i < n; i++)` around a test of a sub folder that may fail.
unfoldable pub check_sub_folders :
    (rounds i : ℕ) → (ℕ → Option FolderRef) → (FolderRef → Result (Unit {0})) → Result (Unit {0})
check_sub_folders zero i subs check = done tt
check_sub_folders (suc k) i subs check = elim (subs i) [
  | none ↦ check_sub_folders k (i + 1) subs check
  | some q ↦ check q >>> λ u. check_sub_folders k (i + 1) subs check
]

-- `validate_no_cyclic_move`, on the number of calls that may be open still: `MAX_FOLDER_DEPTH` less
-- `step_count`.
unfoldable pub validate_no_cyclic_move :
    VfsEntryStore → (new_parent : FolderRef) (calls : ℕ) (folder : FolderRef) → Result (Unit {0})
unfolding check_sub_folders
validate_no_cyclic_move s p zero r = error recursive_operation_limit_exceeded
validate_no_cyclic_move s p (suc k) r = elim (same_folder p r) [
  | true ↦ error attempted_to_enforce_cyclic_relation
  | false ↦
      check_sub_folders max_sub_folders_amount 0 ((folder_at s r).sub_folders)
        (validate_no_cyclic_move s p k)
]

-- `new_parent->sub_folders[i] = folder; folder->parent_folder = new_parent;`
unfoldable pub link_folder : FolderRef → FolderRef → ℕ → VfsEntryStore → VfsEntryStore
link_folder r p i s = set_parent r (some p) (set_sub_folder p i (some r) s)

-- `move_folder`. `MAX_FOLDER_DEPTH` is 10.
unfoldable pub move_folder : FolderRef → FolderRef → Act VfsEntryStore (Unit {0})
unfolding link_folder
move_folder r p = do
  lift (λ s. validate_sub_entry_name s p (folder_at s r).name (name_length (folder_at s r).name))
  lift (λ s. validate_no_cyclic_move s p 10 r)
  i ← lift (λ s. get_available_sub_folder_position (folder_at s p))
  unlink_sub_folder r true
  λ s. ok tt (link_folder r p i s)
