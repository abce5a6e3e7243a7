-- ===== src/Tree/Places.antt =====
-- What the searches of system/folders.c and system/vfs_entry_store.c say when they succeed.
use virtual_file_system_c.Prelude.{
  ℕ, ◌<◌, ◌≡◌, refl, ap, Bool, true, false, not, Option, none, some, arith, is_null, first_index,
  First, first_index-First,
}
use virtual_file_system_c.Settings.{
  vfs_max_files_amount, vfs_max_folders_amount, max_sub_files_amount, max_sub_folders_amount,
}
use virtual_file_system_c.Status.{StatusCode, done, error, no_space, search_target_not_found}
use virtual_file_system_c.Files.{FolderRef, root, slot}
use virtual_file_system_c.Folders.{
  Folder, VfsEntryStore, is_file, is_folder, get_available_sub_file_position,
  get_available_sub_folder_position, find_sub_file_index, find_sub_folder_index, has_sub_entries,
}
use virtual_file_system_c.Entries.{
  validate_vfs_folder, get_available_file_position, get_available_folder_position,
  get_available_allocation_map_position,
}
use virtual_file_system_c.Tree.Linked.{same_folder_eq}
use virtual_file_system_c.Tree.Valid.{shape}

-- A search that succeeds has found an index that passes its test.
First-found :
    (k : ℕ) (test : ℕ → Bool) (c : StatusCode) (i : ℕ)
    → (elim (first_index k 0 test) [ some j ↦ done j | none ↦ error c ]) ≡ done i
    → (i < k) × (test i ≡ true)
First-found k test c i = found (first_index k 0 test) (first_index-First k 0 test)
  where
    found :
        (o : Option ℕ)
        → First test 0 k o
        → (elim o [ some j ↦ done j | none ↦ error c ]) ≡ done i
        → (i < k) × (test i ≡ true)
    found none h e = absurd cc
    found (some j) (a, b, d, _) e =
        let same : j ≡ i = cc in (omega (arith, same), ground (arith, same))

null_none : {A : Type 0} (o : Option A) → is_null o ≡ true → o ≡ none
null_none none h = refl
null_none (some a) h = cc

is_file-found : (f : ℕ) (o : Option ℕ) → is_file f o ≡ true → o ≡ some f
is_file-found f none h = cc
is_file-found f (some g) h = ap some (ground arith)

is_folder-found : (p : FolderRef) (o : Option FolderRef) → is_folder p o ≡ true → o ≡ some p
is_folder-found p none h = cc
is_folder-found p (some q) h = ap some (same_folder_eq q p h)

pub free_sub_file :
    (f : Folder) (i : ℕ)
    → get_available_sub_file_position f ≡ done i
    → (i < 10) × (f.sub_files i ≡ none)
unfolding get_available_sub_file_position
free_sub_file f i e =
    let (a, b) = First-found max_sub_files_amount (λ j. is_null (f.sub_files j)) no_space i e in
    (a, null_none (f.sub_files i) b)

pub free_sub_folder :
    (f : Folder) (i : ℕ)
    → get_available_sub_folder_position f ≡ done i
    → (i < 10) × (f.sub_folders i ≡ none)
unfolding get_available_sub_folder_position
free_sub_folder f i e =
    let (a, b) = First-found max_sub_folders_amount (λ j. is_null (f.sub_folders j)) no_space i e in
    (a, null_none (f.sub_folders i) b)

pub found_sub_file :
    (p : Folder) (f i : ℕ) → find_sub_file_index p f ≡ done i → (i < 10) × (p.sub_files i ≡ some f)
unfolding find_sub_file_index
found_sub_file p f i e =
    let (a, b) =
      First-found max_sub_files_amount (λ j. is_file f (p.sub_files j)) search_target_not_found i
        e in
    (a, is_file-found f (p.sub_files i) b)

pub found_sub_folder :
    (p : Folder) (r : FolderRef) (i : ℕ)
    → find_sub_folder_index p r ≡ done i
    → (i < 10) × (p.sub_folders i ≡ some r)
unfolding find_sub_folder_index
found_sub_folder p r i e =
    let (a, b) =
      First-found max_sub_folders_amount (λ j. is_folder r (p.sub_folders j))
        search_target_not_found i e in
    (a, is_folder-found r (p.sub_folders i) b)

none_found :
    {A : Type 0} (k : ℕ) (entries : ℕ → Option A)
    → not (is_null (first_index k 0 (λ i. not (is_null (entries i))))) ≡ false
    → (i : ℕ) → i < k
    → entries i ≡ none
none_found {A} k entries =
    found (first_index k 0 (λ i. not (is_null (entries i))))
      (first_index-First k 0 (λ i. not (is_null (entries i))))
  where
    found :
        (o : Option ℕ)
        → First (λ i. not (is_null (entries i))) 0 k o
        → not (is_null o) ≡ false
        → (i : ℕ) → i < k
        → entries i ≡ none
    found none h e i lt = null_none (entries i) (ground (arith, h i))
    found (some j) h e i lt = absurd cc

pub no_sub_entries :
    (f : Folder)
    → has_sub_entries f ≡ false
    → ((i : ℕ) → i < 10 → f.sub_folders i ≡ none) × ((i : ℕ) → i < 10 → f.sub_files i ≡ none)
unfolding has_sub_entries
no_sub_entries f e = (
  none_found max_sub_folders_amount f.sub_folders (ground arith),
  none_found max_sub_files_amount f.sub_files (ground arith),
)

pub established :
    (p : FolderRef) (s : VfsEntryStore)
    → validate_vfs_folder (some p) s ≡ done tt
    → (shape s).home p ≡ true
unfolding validate_vfs_folder
established root s e = refl
established (slot i) s e = ground arith

pub free_file :
    (s : VfsEntryStore) (i : ℕ)
    → get_available_file_position s ≡ done i
    → (i < vfs_max_files_amount) × ((shape s).live_file i ≡ false)
unfolding get_available_file_position get_available_allocation_map_position
free_file s i e =
    let (a, b) =
      First-found vfs_max_files_amount (λ j. not (s.files_allocation_map j)) no_space i e in
    (a, ground arith)

pub free_folder :
    (s : VfsEntryStore) (i : ℕ)
    → get_available_folder_position s ≡ done i
    → (i < vfs_max_folders_amount) × ((shape s).live_folder (slot i) ≡ false)
unfolding get_available_folder_position get_available_allocation_map_position
free_folder s i e =
    let (a, b) =
      First-found vfs_max_folders_amount (λ j. not (s.folders_allocation_map j)) no_space i e in
    (a, ground arith)

pub establish :
    (p : FolderRef) (s : VfsEntryStore)
    → (shape s).home p ≡ true
    → validate_vfs_folder (some p) s ≡ done tt
unfolding validate_vfs_folder
establish root s e = refl
establish (slot i) s e = ground arith

-- A file that stands in a folder is found there.
pub find_sub_file :
    (p : Folder) (f k : ℕ)
    → k < 10
    → p.sub_files k ≡ some f
    → (i : ℕ) × (find_sub_file_index p f ≡ done i)
unfolding find_sub_file_index
find_sub_file p f k lt there =
    found (first_index max_sub_files_amount 0 (λ j. is_file f (p.sub_files j)))
      (first_index-First max_sub_files_amount 0 (λ j. is_file f (p.sub_files j)))
  where
    found :
        (o : Option ℕ)
        → First (λ j. is_file f (p.sub_files j)) 0 max_sub_files_amount o
        → (i : ℕ) × ((elim o [ some j ↦ done j | none ↦ error search_target_not_found ]) ≡ done i)
    found none h = absurd (ground (arith, h k (omega arith) (omega arith), there))
    found (some i) h = (i, refl)
