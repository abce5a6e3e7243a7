-- ===== src/Entries.antt =====
-- The entry store, system/vfs_entry_store.c: it owns the files and folders of the tree, and says by
-- two maps which of them are in use.
pub mod Frame
pub mod Made
pub mod Untouched
pub mod Whole
pub mod OneFile
pub mod Calls
pub mod Contents
pub mod Create
pub mod Delete
pub mod Fresh
pub mod Remove
pub mod Prune
pub mod Recursive
pub mod Sound
use virtual_file_system_c.Prelude.{
  ℕ, zero, suc, ◌+◌, Bool, true, false, not, Option, none, some, leb, if◌then◌else◌, update, fill,
  first_index,
}
use virtual_file_system_c.Settings.{
  vfs_max_files_amount, vfs_max_folders_amount, max_sub_files_amount, max_sub_folders_amount,
}
use virtual_file_system_c.Status.{
  Outcome, ok, fail, fault, Act, ◌>>=◌, ◌>>◌, pure, raise, lift, Result, done, error, no_space,
  unknown_entry, uninitialised_entry, attempted_to_delete_folder_with_sub_entries,
  recursive_operation_limit_exceeded,
}
use virtual_file_system_c.Storage.{StorageMan}
use virtual_file_system_c.Files.{File, FolderRef, root, slot, file_init}
use virtual_file_system_c.FileStorage.{Disk}
use virtual_file_system_c.FileLogic.Delete.{file_delete_data}
use virtual_file_system_c.Folders.{
  Folder, VfsEntryStore, folder_at, put_file, root_folder_init, has_sub_entries,
}
use virtual_file_system_c.Folders.Links.{
  sub_file_init, sub_folder_init, unlink_sub_file, unlink_sub_folder,
}

-- The entry store and the storage manager, which the operations on both are given.
pub record Vfs : Type 0 where
  pub entries : VfsEntryStore
  pub man : StorageMan

-- A call that works on the entry store alone.
unfoldable pub on_entries : {A : Type 0} → Act VfsEntryStore A → Act Vfs A
on_entries act v = elim (act v.entries) [
  | ok a s ↦ ok a (record v { entries = s })
  | fail c s ↦ fail c (record v { entries = s })
  | fault ↦ fault
]

-- What an operation on a file and the storage manager leaves in the whole.
abbrev pub put_disk : ℕ → Disk → Vfs → Vfs
put_disk f d v = record v { entries = put_file f d.file v.entries; man = d.man }

-- A call that works on the file `f` and the storage manager.
unfoldable pub on_file : {A : Type 0} → ℕ → Act Disk A → Act Vfs A
on_file f act v = elim (act (record { file = v.entries.files f; man = v.man })) [
  | ok a d ↦ ok a (put_disk f d v)
  | fail c d ↦ fail c (put_disk f d v)
  | fault ↦ fault
]

-- `vfs_entry_store_init`
unfoldable pub vfs_entry_store_init : VfsEntryStore → VfsEntryStore
vfs_entry_store_init s = record s {
  files_allocation_map = fill s.files_allocation_map 0 vfs_max_files_amount false;
  folders_allocation_map = fill s.folders_allocation_map 0 vfs_max_folders_amount false;
  root_folder = root_folder_init s.root_folder;
}

-- `validate_vfs_folder`. The pointer may be NULL, which is below the array.
unfoldable pub validate_vfs_folder : Option FolderRef → VfsEntryStore → Result (Unit {0})
validate_vfs_folder none s = error unknown_entry
validate_vfs_folder (some root) s = done tt
validate_vfs_folder (some (slot i)) s =
    if leb vfs_max_folders_amount i
    then error unknown_entry
    else if s.folders_allocation_map i
    then done tt
    else error uninitialised_entry

-- `get_available_allocation_map_position`
unfoldable pub get_available_allocation_map_position :
    (allocation_map : ℕ → Bool) (allocation_map_length : ℕ) → Result ℕ
get_available_allocation_map_position map length = elim (first_index length 0 (λ i. not (map i))) [
  | some i ↦ done i
  | none ↦ error no_space
]

-- `get_available_file_position`
unfoldable pub get_available_file_position : VfsEntryStore → Result ℕ
unfolding get_available_allocation_map_position
get_available_file_position s =
    get_available_allocation_map_position s.files_allocation_map vfs_max_files_amount

-- `get_available_folder_position`
unfoldable pub get_available_folder_position : VfsEntryStore → Result ℕ
unfolding get_available_allocation_map_position
get_available_folder_position s =
    get_available_allocation_map_position s.folders_allocation_map vfs_max_folders_amount

-- `entry_store->files_allocation_map[i] = b`
abbrev pub mark_file : ℕ → Bool → VfsEntryStore → VfsEntryStore
mark_file i b s = record s { files_allocation_map = update s.files_allocation_map i b }

-- `entry_store->folders_allocation_map[i] = b`
abbrev pub mark_folder : ℕ → Bool → VfsEntryStore → VfsEntryStore
mark_folder i b s = record s { folders_allocation_map = update s.folders_allocation_map i b }

-- `file_init(&entry_store->files[i], ...)`
unfoldable pub init_file_at : ℕ → (name : ℕ → ℕ) (name_length : ℕ) → Act VfsEntryStore (Unit {0})
init_file_at i name length s = elim (file_init (s.files i) name length) [
  | done f ↦ ok tt (put_file i f s)
  | error c ↦ fail c s
]

-- `vfs_sub_file_init`; the result is what `out_file` is set to.
unfoldable pub vfs_sub_file_init :
    (file_name : ℕ → ℕ) (file_name_length : ℕ) → FolderRef → Act VfsEntryStore ℕ
unfolding init_file_at
vfs_sub_file_init name length p = do
  lift (validate_vfs_folder (some p))
  i ← lift get_available_file_position
  init_file_at i name length
  sub_file_init i p
  λ s. ok i (mark_file i true s)

-- `vfs_sub_folder_init`; the result is what `out_folder` is set to.
unfoldable pub vfs_sub_folder_init :
    (folder_name : ℕ → ℕ) (folder_name_length : ℕ) → FolderRef → Act VfsEntryStore FolderRef
vfs_sub_folder_init name length p = do
  lift (validate_vfs_folder (some p))
  i ← lift get_available_folder_position
  sub_folder_init (slot i) name length p
  λ s. ok (slot i) (mark_folder i true s)

-- `delete_flat_folder`, for a folder of the array.
unfoldable pub delete_flat_folder : FolderRef → Act VfsEntryStore (Unit {0})
delete_flat_folder root = unlink_sub_folder root false >> λ s. fault
delete_flat_folder (slot i) = unlink_sub_folder (slot i) false >> λ s. ok tt (mark_folder i false s)

-- `delete_vfs_file`
unfoldable pub delete_vfs_file : ℕ → Act Vfs (Unit {0})
unfolding on_entries on_file
delete_vfs_file f = do
  on_entries (lift (λ s. validate_vfs_folder (s.files f).parent_folder s))
  if leb vfs_max_files_amount f then raise unknown_entry else pure tt
  on_entries (unlink_sub_file f)
  on_file f file_delete_data
  on_entries (λ s. ok tt (mark_file f false s))

-- `for (i = 0; i < n; i++)` around a body that may return.
unfoldable pub for_each : {S : Type 0} → (rounds i : ℕ) → (ℕ → Act S (Unit {0})) → Act S (Unit {0})
for_each zero i body = pure tt
for_each (suc k) i body = body i >> for_each k (i + 1) body

-- `if (cur_folder->sub_files[i] != NULL) ...`
unfoldable pub delete_sub_file : FolderRef → ℕ → Act Vfs (Unit {0})
delete_sub_file r i v = elim ((folder_at v.entries r).sub_files i) [
  | none ↦ ok tt v
  | some f ↦ delete_vfs_file f v
]

-- `if (cur_folder->sub_folders[i] != NULL) ...`, with the recursive call.
unfoldable pub delete_sub_folder :
    (FolderRef → Act Vfs (Unit {0})) → FolderRef → ℕ → Act Vfs (Unit {0})
delete_sub_folder rec r i v = elim ((folder_at v.entries r).sub_folders i) [
  | none ↦ ok tt v
  | some q ↦ rec q v
]

-- `delete_children_recursive`, on the number of calls that may be open still: `MAX_FOLDER_DEPTH + 1`
-- less `cur_step`.
unfoldable pub delete_children_recursive : ℕ → FolderRef → Act Vfs (Unit {0})
unfolding on_entries
delete_children_recursive zero r = raise recursive_operation_limit_exceeded
delete_children_recursive (suc k) r = do
  on_entries (lift (validate_vfs_folder (some r)))
  for_each max_sub_files_amount 0 (delete_sub_file r)
  for_each max_sub_folders_amount 0 (delete_sub_folder (delete_children_recursive k) r)
  on_entries (delete_flat_folder r)

-- `delete_vfs_folder` of a folder that is established.
unfoldable pub delete_established_folder : FolderRef → (force : Bool) → Act Vfs (Unit {0})
unfolding on_entries
delete_established_folder r force v =
    if has_sub_entries (folder_at v.entries r)
    then (if force
        then delete_children_recursive 11 r v
        else fail attempted_to_delete_folder_with_sub_entries v)
    else on_entries (delete_flat_folder r) v

-- `delete_vfs_folder`
unfoldable pub delete_vfs_folder : FolderRef → (force : Bool) → Act Vfs (Unit {0})
unfolding on_entries delete_established_folder
delete_vfs_folder r force =
    on_entries (lift (validate_vfs_folder (some r))) >> delete_established_folder r force
