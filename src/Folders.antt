-- ===== src/Folders.antt =====
-- The folder tree: system/folders.c, over the arrays of system/include/vfs_entry_store.h. A `File *`
-- is the index of the file in the store, and a `Folder *` a `FolderRef`.
pub mod Links
pub mod Linking
pub mod Named
pub mod Unique
pub mod Validate
use virtual_file_system_c.Prelude.{
  ℕ, zero, suc, ◌+◌, ◌-◌, Bool, true, false, ◌&&◌, ◌||◌, not, Option, none, some, List, [], ◌∷◌,
  ltb, leb, ◌==◌, if◌then◌else◌, update, is_null, first_index,
}
use virtual_file_system_c.Settings.{max_name_length, max_sub_files_amount, max_sub_folders_amount}
use virtual_file_system_c.Status.{
  StatusCode, Outcome, ok, fail, fault, Act, ◌>>=◌, ◌>>◌, Result, done, error, lift, no_space,
  data_over_flow, insufficient_array_passed, invalid_charecter_in_identifier,
  identifier_not_available, null_pointer_passed, search_target_not_found, invalid_root_operation,
  attempted_to_delete_folder_with_sub_entries,
}
use virtual_file_system_c.Files.{File, FolderRef, root, slot}
use virtual_file_system_c.Names.{set_entry_name, name_eq, name_chars_are_valid}

-- `Folder`. An array of pointers is a function from indices, and `none` is NULL.
pub record Folder : Type 0 where
  pub parent_folder : Option FolderRef
  pub is_root : Bool
  pub name : ℕ → ℕ
  pub sub_files : ℕ → Option ℕ
  pub sub_folders : ℕ → Option FolderRef

-- `VFSEntryStore`
pub record VfsEntryStore : Type 0 where
  pub files : ℕ → File
  pub folders : ℕ → Folder
  pub files_allocation_map : ℕ → Bool
  pub folders_allocation_map : ℕ → Bool
  pub root_folder : Folder

-- `VFSNode`
pub data VfsNode : Type 0 where
  file_node : ℕ → VfsNode
  folder_node : FolderRef → VfsNode

-- `a == b` on pointers to folders.
abbrev pub same_folder : FolderRef → FolderRef → Bool
same_folder root root = true
same_folder root (slot j) = false
same_folder (slot i) root = false
same_folder (slot i) (slot j) = i == j

-- `*folder`
abbrev pub folder_at : VfsEntryStore → FolderRef → Folder
folder_at s root = s.root_folder
folder_at s (slot i) = s.folders i

abbrev put_root : FolderRef → Folder → Folder → Folder
put_root root f old = f
put_root (slot i) f old = old

abbrev put_slot : FolderRef → Folder → (ℕ → Folder) → ℕ → Folder
put_slot root f folders = folders
put_slot (slot i) f folders = update folders i f

-- `*folder = f`
abbrev pub put_folder : FolderRef → Folder → VfsEntryStore → VfsEntryStore
put_folder r f s = record s {
  folders = put_slot r f s.folders;
  root_folder = put_root r f s.root_folder;
}

-- `*file = f`
abbrev pub put_file : ℕ → File → VfsEntryStore → VfsEntryStore
put_file i f s = record s { files = update s.files i f }

-- `strlen`, of a string that has its null within `bound` chars.
unfoldable pub strlen : (bound i : ℕ) → (ℕ → ℕ) → ℕ
strlen zero i s = 0
strlen (suc k) i s = let rest = strlen k (i + 1) s in if s i == 0 then 0 else suc rest

-- `strlen(entry->name)`, for a name within its array.
unfoldable pub name_length : (ℕ → ℕ) → ℕ
unfolding strlen
name_length name = strlen (max_name_length + 1) 0 name

-- `strncmp(s, literal, n) == 0` for a literal of `n` chars and an `s` without a null before.
unfoldable pub starts_with : (s : ℕ → ℕ) (i : ℕ) (literal : List ℕ) → Bool
starts_with s i [] = true
starts_with s i (c ∷ cs) = s i == c && starts_with s (i + 1) cs

-- `root_name`
abbrev pub root_name : List ℕ
root_name = b'r' ∷ b'o' ∷ b'o' ∷ b't' ∷ []

-- `root_name_length`
abbrev pub root_name_length : ℕ
root_name_length = 4

-- `folder_free_sub_entries`
unfoldable pub folder_free_sub_entries : Folder → Folder
folder_free_sub_entries f = record f { sub_folders = λ i. none; sub_files = λ i. none }

-- What `strcpy(folder->name, root_name)` leaves in the array.
unfoldable pub copy_literal : List ℕ → (i : ℕ) → (ℕ → ℕ) → ℕ → ℕ
copy_literal [] i out = update out i 0
copy_literal (c ∷ cs) i out = copy_literal cs (i + 1) (update out i c)

-- `root_folder_init`
unfoldable pub root_folder_init : Folder → Folder
unfolding folder_free_sub_entries copy_literal
root_folder_init f = record (folder_free_sub_entries f) {
  name = copy_literal root_name 0 f.name;
  is_root = true;
  parent_folder = none;
}

-- `get_available_sub_folder_position`
unfoldable pub get_available_sub_folder_position : Folder → Result ℕ
get_available_sub_folder_position f =
    elim (first_index max_sub_folders_amount 0 (λ i. is_null (f.sub_folders i))) [
      | some i ↦ done i
      | none ↦ error no_space
    ]

-- `get_available_sub_file_position`
unfoldable pub get_available_sub_file_position : Folder → Result ℕ
get_available_sub_file_position f =
    elim (first_index max_sub_files_amount 0 (λ i. is_null (f.sub_files i))) [
      | some i ↦ done i
      | none ↦ error no_space
    ]

abbrev pub is_file : ℕ → Option ℕ → Bool
is_file f none = false
is_file f (some g) = g == f

abbrev pub is_folder : FolderRef → Option FolderRef → Bool
is_folder p none = false
is_folder p (some q) = same_folder q p

-- `find_sub_file_index`
unfoldable pub find_sub_file_index : Folder → ℕ → Result ℕ
find_sub_file_index p f =
    elim (first_index max_sub_files_amount 0 (λ i. is_file f (p.sub_files i))) [
      | some i ↦ done i
      | none ↦ error search_target_not_found
    ]

-- The loop of `find_sub_folder_index`, over the sub folders of the parent.
unfoldable pub find_sub_folder_index : Folder → FolderRef → Result ℕ
find_sub_folder_index p r =
    elim (first_index max_sub_folders_amount 0 (λ i. is_folder r (p.sub_folders i))) [
      | some i ↦ done i
      | none ↦ error search_target_not_found
    ]

-- `has_sub_entries`
unfoldable pub has_sub_entries : Folder → Bool
has_sub_entries f =
    not (is_null (first_index max_sub_files_amount 0 (λ i. not (is_null (f.sub_files i)))))
    || not (is_null (first_index max_sub_folders_amount 0 (λ i. not (is_null (f.sub_folders i)))))

-- A loop over an array of entries that compares the name of each with a given one, and stops at the
-- first that is equal. `entries i` is the name of the entry at `i`, `none` for NULL.
unfoldable pub search_names :
    (rounds i : ℕ) (entries : ℕ → Option (ℕ → ℕ)) (name : ℕ → ℕ) (length : ℕ) → Result (Option ℕ)
search_names zero i entries name length = done none
search_names (suc k) i entries name length = elim (entries i) [
  | none ↦ search_names k (i + 1) entries name length
  | some entry ↦ elim (name_eq entry name length) [
    | error c ↦ error c
    | done true ↦ done (some i)
    | done false ↦ search_names k (i + 1) entries name length
  ]
]

-- `parent_folder->sub_files[i]->name`
abbrev pub file_names : VfsEntryStore → Folder → ℕ → Option (ℕ → ℕ)
file_names s f i = elim (f.sub_files i) [ none ↦ none | some g ↦ some ((s.files g).name) ]

-- `parent_folder->sub_folders[i]->name`
abbrev pub folder_names : VfsEntryStore → Folder → ℕ → Option (ℕ → ℕ)
folder_names s f i = elim (f.sub_folders i) [ none ↦ none | some q ↦ some ((folder_at s q).name) ]
