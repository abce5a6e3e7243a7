-- ===== src/Tests/Recursion.antt =====
-- Runs of the theorems on a store with a folder in a folder.
use virtual_file_system_c.Prelude.{◌≡◌, refl, true, first_index, fill, copy}
use virtual_file_system_c.Status.{}
use virtual_file_system_c.Status.After.{After}
use virtual_file_system_c.Files.{slot, file_init, init_empty_extensions}
use virtual_file_system_c.Names.{
  set_entry_name, set_entry_name_loop, name_eq, name_eq_loop, name_chars_are_valid,
}
use virtual_file_system_c.Folders.{
  VfsEntryStore, search_names, strlen, name_length, starts_with, root_folder_init,
  folder_free_sub_entries, copy_literal, get_available_sub_folder_position,
  get_available_sub_file_position,
}
use virtual_file_system_c.Folders.Links.{sub_file_init, sub_folder_init, link_file, link_new_folder}
use virtual_file_system_c.Folders.Validate.{
  validate_sub_entry_name, validate_availability, sub_entry_name_is_unique,
}
use virtual_file_system_c.Entries.{
  vfs_entry_store_init, vfs_sub_file_init, vfs_sub_folder_init, init_file_at, validate_vfs_folder,
  get_available_file_position, get_available_folder_position, get_available_allocation_map_position,
}
use virtual_file_system_c.Entries.Create.{vfs_sub_folder_init-Step}
use virtual_file_system_c.Relocation.{validate_no_cyclic_move, check_sub_folders}
use virtual_file_system_c.Relocation.Moves.{}
use virtual_file_system_c.Relocation.Cycles.{}
use virtual_file_system_c.Reach.{Reachable, make_folder, Reachable-IsTree}
use virtual_file_system_c.Tree.Valid.{shape}
use virtual_file_system_c.Prelude.{[], ◌∷◌, ltb, length, if◌then◌else◌}
use virtual_file_system_c.Status.{ok, fault}
use virtual_file_system_c.Folders.{folder_node}
use virtual_file_system_c.NodePaths.{get_parent_folders}
use virtual_file_system_c.NodePaths.Parents.{Chain, top, above, get_parent_folders-Chain}
use virtual_file_system_c.Tests.Trees.{store_a, name_of, reach_a, leaves, state_after}

-- `mkdir a`, `mkdir a/b`
abbrev store_d : VfsEntryStore
store_d = state_after (vfs_sub_folder_init (name_of 98) 1 (slot 0) store_a)

reach_d : Reachable store_d
reach_d =
    make_folder (name_of 98) 1 (slot 0) reach_a
      (leaves (vfs_sub_folder_init-Step (name_of 98) 1 (slot 0) store_a))

used_d : (shape store_d).home (slot 1) ≡ true
unfolding vfs_sub_folder_init vfs_sub_file_init init_file_at file_init init_empty_extensions
    validate_vfs_folder get_available_folder_position get_available_file_position
    get_available_allocation_map_position first_index vfs_entry_store_init fill copy sub_folder_init
    sub_file_init link_file link_new_folder validate_sub_entry_name validate_availability
    sub_entry_name_is_unique name_chars_are_valid search_names name_eq name_eq_loop root_folder_init
    folder_free_sub_entries copy_literal get_available_sub_folder_position
    get_available_sub_file_position set_entry_name set_entry_name_loop strlen name_length
    starts_with validate_no_cyclic_move check_sub_folders
used_d = refl

Chain-d : Chain (shape store_d).parent (slot 1) (slot 0 ∷ [])
unfolding vfs_sub_folder_init vfs_sub_file_init init_file_at file_init init_empty_extensions
    validate_vfs_folder get_available_folder_position get_available_file_position
    get_available_allocation_map_position first_index vfs_entry_store_init fill copy sub_folder_init
    sub_file_init link_file link_new_folder validate_sub_entry_name validate_availability
    sub_entry_name_is_unique name_chars_are_valid search_names name_eq name_eq_loop root_folder_init
    folder_free_sub_entries copy_literal get_available_sub_folder_position
    get_available_sub_file_position set_entry_name set_entry_name_loop strlen name_length
    starts_with validate_no_cyclic_move check_sub_folders
Chain-d = above 0 refl (top refl)

get_parent_folders-Chain_example :
    get_parent_folders (folder_node (slot 1)) store_d
    ≡ (if ltb 9 (length (slot 0 ∷ [])) then fault else ok (slot 0 ∷ []) store_d)
get_parent_folders-Chain_example =
    get_parent_folders-Chain 1 (slot 0 ∷ []) store_d (Reachable-IsTree store_d reach_d) used_d
      Chain-d
