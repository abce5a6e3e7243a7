-- ===== src/Tests/Trees.antt =====
-- Runs of the theorems on the tree of entries.
use virtual_file_system_c.Prelude.{
  none_not, ℕ, zero, suc, ◌≡◌, refl, true, false, none, first_index, fill, copy,
}
use virtual_file_system_c.Status.{
  StatusCode, Outcome, ok, fail, fault, done, attempted_to_enforce_cyclic_relation,
}
use virtual_file_system_c.Status.After.{After, succeeds, fails}
use virtual_file_system_c.Files.{root, slot, file_init, init_empty_extensions}
use virtual_file_system_c.FileStorage.Valid.{IsDisk}
use virtual_file_system_c.Names.{
  set_entry_name, set_entry_name_loop, name_eq, name_eq_loop, name_chars_are_valid,
}
use virtual_file_system_c.Folders.{
  Folder, VfsEntryStore, search_names, strlen, name_length, starts_with, root_folder_init,
  folder_free_sub_entries, copy_literal, get_available_sub_folder_position,
  get_available_sub_file_position,
}
use virtual_file_system_c.Folders.Links.{sub_file_init, sub_folder_init, link_file, link_new_folder}
use virtual_file_system_c.Folders.Validate.{
  validate_sub_entry_name, validate_availability, sub_entry_name_is_unique,
}
use virtual_file_system_c.Folders.Linking.{Same}
use virtual_file_system_c.Entries.{
  Vfs, vfs_entry_store_init, vfs_sub_file_init, vfs_sub_folder_init, init_file_at,
  validate_vfs_folder, get_available_file_position, get_available_folder_position,
  get_available_allocation_map_position, delete_vfs_file,
}
use virtual_file_system_c.Entries.Create.{
  FileAdded, FolderAdded, Scratched, vfs_sub_file_init-Steps, vfs_sub_folder_init-Step,
}
use virtual_file_system_c.Entries.Remove.{disk_of, FileRemoved, delete_vfs_file-FileRemoved}
use virtual_file_system_c.Relocation.{move_folder, validate_no_cyclic_move, check_sub_folders}
use virtual_file_system_c.Relocation.Moves.{FolderMoved, move_folder-Step}
use virtual_file_system_c.Relocation.Cycles.{Finds, Within, validate_no_cyclic_move-Finds}
use virtual_file_system_c.Reach.{
  Leaves, by_success, by_failure, Reachable, init, make_file, make_folder, Reachable-IsTree,
}
use virtual_file_system_c.Tree.Rooted.{Below}
use virtual_file_system_c.Tree.Valid.{shape, IsTree}
use virtual_file_system_c.Tests.Data.{blank_file, fresh_man}
use virtual_file_system_c.Tests.Valid.{fresh_disk-IsDisk}

abbrev blank_folder : Folder
blank_folder = record {
  parent_folder = none;
  is_root = false;
  name = λ _. 0;
  sub_files = λ _. none;
  sub_folders = λ _. none;
}

abbrev pub blank_store : VfsEntryStore
blank_store = record {
  files = λ _. blank_file;
  folders = λ _. blank_folder;
  files_allocation_map = λ _. true;
  folders_allocation_map = λ _. true;
  root_folder = blank_folder;
}

abbrev pub name_of : ℕ → ℕ → ℕ
name_of c zero = c
name_of c (suc i) = 0

abbrev pub new_store : VfsEntryStore
new_store = vfs_entry_store_init blank_store

abbrev pub state_after : {A : Type 0} → Outcome VfsEntryStore A → VfsEntryStore
state_after (ok a t) = t
state_after (fail c t) = t
state_after fault = blank_store

-- `mkdir a`, `mkdir b`, `touch c`
abbrev pub store_a : VfsEntryStore
store_a = state_after (vfs_sub_folder_init (name_of 97) 1 root new_store)

abbrev pub store_b : VfsEntryStore
store_b = state_after (vfs_sub_folder_init (name_of 98) 1 root store_a)

abbrev store_c : VfsEntryStore
store_c = state_after (vfs_sub_file_init (name_of 99) 1 root store_b)

pub leaves :
    {A : Type 0} {good : A → VfsEntryStore → Type 0} {bad : StatusCode → VfsEntryStore → Type 0}
    → {o : Outcome VfsEntryStore A} → After good bad o
    → Leaves o (state_after o)
leaves (succeeds h) = by_success
leaves (fails h) = by_failure

pub reach_a : Reachable store_a
reach_a =
    make_folder (name_of 97) 1 root (init blank_store)
      (leaves (vfs_sub_folder_init-Step (name_of 97) 1 root new_store))

reach_b : Reachable store_b
reach_b =
    make_folder (name_of 98) 1 root reach_a
      (leaves (vfs_sub_folder_init-Step (name_of 98) 1 root store_a))

reach_c : Reachable store_c
reach_c =
    make_file (name_of 99) 1 root reach_b
      (leaves (vfs_sub_file_init-Steps (name_of 99) 1 root store_b))

IsTree-b : IsTree (shape store_b)
IsTree-b = Reachable-IsTree store_b reach_b

IsTree-c : IsTree (shape store_c)
IsTree-c = Reachable-IsTree store_c reach_c

used_folders : ((shape store_b).home (slot 0) ≡ true) × ((shape store_b).home (slot 1) ≡ true)
unfolding vfs_sub_folder_init vfs_sub_file_init init_file_at file_init init_empty_extensions
    validate_vfs_folder get_available_folder_position get_available_file_position
    get_available_allocation_map_position first_index vfs_entry_store_init fill copy sub_folder_init
    sub_file_init link_file link_new_folder validate_sub_entry_name validate_availability
    sub_entry_name_is_unique name_chars_are_valid search_names name_eq name_eq_loop root_folder_init
    folder_free_sub_entries copy_literal get_available_sub_folder_position
    get_available_sub_file_position set_entry_name set_entry_name_loop strlen name_length
    starts_with validate_no_cyclic_move check_sub_folders
used_folders = (refl, refl)

used_c : ((shape store_c).live_file 0 ≡ true) × ((shape store_c).home (slot 1) ≡ true)
unfolding vfs_sub_folder_init vfs_sub_file_init init_file_at file_init init_empty_extensions
    validate_vfs_folder get_available_folder_position get_available_file_position
    get_available_allocation_map_position first_index vfs_entry_store_init fill copy sub_folder_init
    sub_file_init link_file link_new_folder validate_sub_entry_name validate_availability
    sub_entry_name_is_unique name_chars_are_valid search_names name_eq name_eq_loop root_folder_init
    folder_free_sub_entries copy_literal get_available_sub_folder_position
    get_available_sub_file_position set_entry_name set_entry_name_loop strlen name_length
    starts_with validate_no_cyclic_move check_sub_folders
used_c = (refl, refl)

vfs_sub_file_init-Steps_example :
    After
      (FileAdded root store_b)
      (Scratched store_b)
      (vfs_sub_file_init (name_of 99) 1 root store_b)
vfs_sub_file_init-Steps_example = vfs_sub_file_init-Steps (name_of 99) 1 root store_b

vfs_sub_folder_init-Step_example :
    After
      (FolderAdded root store_a)
      (Same store_a)
      (vfs_sub_folder_init (name_of 98) 1 root store_a)
vfs_sub_folder_init-Step_example = vfs_sub_folder_init-Step (name_of 98) 1 root store_a

move_folder-Step_example :
    After
      (λ u t. FolderMoved (slot 0) (slot 1) store_b t)
      (Same store_b)
      (move_folder (slot 0) (slot 1) store_b)
move_folder-Step_example =
    move_folder-Step (slot 0) (slot 1) store_b IsTree-b used_folders.0 used_folders.1

-- `a` has no sub folders.
flat_a : Within (shape store_b).subs 1 (slot 0)
unfolding vfs_sub_folder_init vfs_sub_file_init init_file_at file_init init_empty_extensions
    validate_vfs_folder get_available_folder_position get_available_file_position
    get_available_allocation_map_position first_index vfs_entry_store_init fill copy sub_folder_init
    sub_file_init link_file link_new_folder validate_sub_entry_name validate_availability
    sub_entry_name_is_unique name_chars_are_valid search_names name_eq name_eq_loop root_folder_init
    folder_free_sub_entries copy_literal get_available_sub_folder_position
    get_available_sub_file_position set_entry_name set_entry_name_loop strlen name_length
    starts_with validate_no_cyclic_move check_sub_folders
flat_a = λ k q lt e. absurd (none_not e)

validate_no_cyclic_move-Finds_example :
    Finds
      (validate_no_cyclic_move store_b (slot 1) 1 (slot 0))
      attempted_to_enforce_cyclic_relation
      (Below (shape store_b).subs (slot 0) (slot 1))
validate_no_cyclic_move-Finds_example =
    validate_no_cyclic_move-Finds store_b (slot 1) 1 (slot 0) flat_a

no_cycle_b : validate_no_cyclic_move store_b (slot 1) 10 (slot 0) ≡ done tt
unfolding vfs_sub_folder_init vfs_sub_file_init init_file_at file_init init_empty_extensions
    validate_vfs_folder get_available_folder_position get_available_file_position
    get_available_allocation_map_position first_index vfs_entry_store_init fill copy sub_folder_init
    sub_file_init link_file link_new_folder validate_sub_entry_name validate_availability
    sub_entry_name_is_unique name_chars_are_valid search_names name_eq name_eq_loop root_folder_init
    folder_free_sub_entries copy_literal get_available_sub_folder_position
    get_available_sub_file_position set_entry_name set_entry_name_loop strlen name_length
    starts_with validate_no_cyclic_move check_sub_folders
no_cycle_b = refl

abbrev vfs_c : Vfs
vfs_c = record { entries = store_c; man = fresh_man }

IsDisk-c : IsDisk (disk_of 0 vfs_c)
unfolding vfs_sub_folder_init vfs_sub_file_init init_file_at file_init init_empty_extensions
    validate_vfs_folder get_available_folder_position get_available_file_position
    get_available_allocation_map_position first_index vfs_entry_store_init fill copy sub_folder_init
    sub_file_init link_file link_new_folder validate_sub_entry_name validate_availability
    sub_entry_name_is_unique name_chars_are_valid search_names name_eq name_eq_loop root_folder_init
    folder_free_sub_entries copy_literal get_available_sub_folder_position
    get_available_sub_file_position set_entry_name set_entry_name_loop strlen name_length
    starts_with validate_no_cyclic_move check_sub_folders
IsDisk-c = record {
  man_valid = fresh_disk-IsDisk.man_valid;
  slots = fresh_disk-IsDisk.slots;
  compact = fresh_disk-IsDisk.compact;
  sized = fresh_disk-IsDisk.sized;
  distinct = fresh_disk-IsDisk.distinct;
  taken = fresh_disk-IsDisk.taken;
  in_range = fresh_disk-IsDisk.in_range;
  small = fresh_disk-IsDisk.small;
}

delete_vfs_file-FileRemoved_example :
    (w : Vfs) × (delete_vfs_file 0 vfs_c ≡ ok tt w) × FileRemoved 0 vfs_c w
delete_vfs_file-FileRemoved_example = delete_vfs_file-FileRemoved 0 vfs_c IsTree-c used_c.0 IsDisk-c
