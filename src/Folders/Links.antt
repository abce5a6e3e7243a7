-- ===== src/Folders/Links.antt =====
-- Entries are linked to a folder and unlinked: `sub_file_init`, `sub_folder_init`, `unlink_sub_file`
-- and `unlink_sub_folder` of system/folders.c.
use virtual_file_system_c.Prelude.{
  ℕ, Bool, false, ◌&&◌, not, Option, none, some, if◌then◌else◌, update,
}
use virtual_file_system_c.Status.{
  ok, fail, fault, Act, ◌>>=◌, ◌>>◌, lift, null_pointer_passed, invalid_root_operation,
  attempted_to_delete_folder_with_sub_entries, done, error,
}
use virtual_file_system_c.Names.{set_entry_name}
use virtual_file_system_c.Files.{FolderRef}
use virtual_file_system_c.Folders.{
  Folder, VfsEntryStore, folder_at, put_folder, put_file, name_length, folder_free_sub_entries,
  get_available_sub_file_position, get_available_sub_folder_position, find_sub_file_index,
  find_sub_folder_index, has_sub_entries,
}
use virtual_file_system_c.Folders.Validate.{validate_sub_entry_name}

-- `folder->sub_files[i] = file`
abbrev pub set_sub_file : FolderRef → ℕ → Option ℕ → VfsEntryStore → VfsEntryStore
set_sub_file p i x s =
    put_folder p (record (folder_at s p) { sub_files = update (folder_at s p).sub_files i x }) s

-- `folder->sub_folders[i] = sub_folder`
abbrev pub set_sub_folder : FolderRef → ℕ → Option FolderRef → VfsEntryStore → VfsEntryStore
set_sub_folder p i x s =
    put_folder p (record (folder_at s p) { sub_folders = update (folder_at s p).sub_folders i x }) s

-- `file->parent_folder = x`
abbrev pub set_file_parent : ℕ → Option FolderRef → VfsEntryStore → VfsEntryStore
set_file_parent f x s = put_file f (record (s.files f) { parent_folder = x }) s

-- `folder->parent_folder = x`
abbrev pub set_parent : FolderRef → Option FolderRef → VfsEntryStore → VfsEntryStore
set_parent r x s = put_folder r (record (folder_at s r) { parent_folder = x }) s

-- `parent_folder->sub_files[i] = file; file->parent_folder = parent_folder;`
unfoldable pub link_file : ℕ → FolderRef → ℕ → VfsEntryStore → VfsEntryStore
link_file f p i s = set_file_parent f (some p) (set_sub_file p i (some f) s)

-- `sub_file_init`
unfoldable pub sub_file_init : ℕ → FolderRef → Act VfsEntryStore (Unit {0})
unfolding link_file
sub_file_init f p = do
  lift (λ s. validate_sub_entry_name s p (s.files f).name (name_length (s.files f).name))
  i ← lift (λ s. get_available_sub_file_position (folder_at s p))
  λ s. ok tt (link_file f p i s)

-- The assignments at the end of `sub_folder_init`.
unfoldable pub link_new_folder :
    FolderRef → (name : ℕ → ℕ) (name_length : ℕ) → FolderRef → ℕ → VfsEntryStore → VfsEntryStore
unfolding folder_free_sub_entries
link_new_folder r name length p i s =
    let f : Folder = record (folder_free_sub_entries (folder_at s r)) {
      name = set_entry_name name length (folder_at s r).name;
      is_root = false;
      parent_folder = some p;
    } in
    set_sub_folder p i (some r) (put_folder r f s)

-- `sub_folder_init`
unfoldable pub sub_folder_init :
    FolderRef → (name : ℕ → ℕ) (name_length : ℕ) → FolderRef → Act VfsEntryStore (Unit {0})
unfolding link_new_folder
sub_folder_init r name length p = do
  lift (λ s. validate_sub_entry_name s p name length)
  i ← lift (λ s. get_available_sub_folder_position (folder_at s p))
  λ s. ok tt (link_new_folder r name length p i s)

-- `file->parent_folder->sub_files[i] = NULL; file->parent_folder = NULL;`
unfoldable pub cut_file : ℕ → FolderRef → ℕ → VfsEntryStore → VfsEntryStore
cut_file f p i s = set_file_parent f none (set_sub_file p i none s)

-- `unlink_sub_file`
unfoldable pub unlink_sub_file : ℕ → Act VfsEntryStore (Unit {0})
unfolding cut_file
unlink_sub_file f s = elim ((s.files f).parent_folder) [
  | none ↦ fail null_pointer_passed s
  | some p ↦ elim (find_sub_file_index (folder_at s p) f) [
    | error c ↦ fail c s
    | done i ↦ ok tt (cut_file f p i s)
  ]
]

-- `sub_folder->parent_folder->sub_folders[i] = NULL; sub_folder->parent_folder = NULL;`
unfoldable pub cut_folder : FolderRef → FolderRef → ℕ → VfsEntryStore → VfsEntryStore
cut_folder r p i s = set_parent r none (set_sub_folder p i none s)

-- `unlink_sub_folder` behind its tests. `find_sub_folder_index` reads through the parent.
unfoldable pub unlink_from_parent : FolderRef → Act VfsEntryStore (Unit {0})
unfolding cut_folder
unlink_from_parent r s = elim ((folder_at s r).parent_folder) [
  | none ↦ fault
  | some p ↦ elim (find_sub_folder_index (folder_at s p) r) [
    | error c ↦ fail c s
    | done i ↦ ok tt (cut_folder r p i s)
  ]
]

-- `unlink_sub_folder`
unfoldable pub unlink_sub_folder : FolderRef → (force : Bool) → Act VfsEntryStore (Unit {0})
unfolding unlink_from_parent
unlink_sub_folder r force s =
    if (folder_at s r).is_root
    then fail invalid_root_operation s
    else if has_sub_entries (folder_at s r) && not force
    then fail attempted_to_delete_folder_with_sub_entries s
    else unlink_from_parent r s
