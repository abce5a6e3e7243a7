-- ===== src/Tests/EntryNames.antt =====
-- Runs of the theorems on the names of entries.
use mathlib.Core.Path.{subst}
use virtual_file_system_c.Prelude.{
  none_not, some_inj, ℕ, zero, suc, ◌≡◌, refl, sym, ap, ◌∙◌, update, ◌↔◌, Option, none, some, [],
  ◌∷◌, arith, first_index, fill, copy,
}
use virtual_file_system_c.Status.{done}
use virtual_file_system_c.Files.{FolderRef, root, slot, file_init, init_empty_extensions}
use virtual_file_system_c.Names.{
  set_entry_name, set_entry_name_loop, name_eq, name_eq_loop, name_chars_are_valid,
}
use virtual_file_system_c.Names.Text.{Holds}
use virtual_file_system_c.Folders.{
  folder_at, search_names, file_names, folder_names, strlen, name_length, starts_with,
  root_folder_init, folder_free_sub_entries, copy_literal, get_available_sub_folder_position,
  get_available_sub_file_position,
}
use virtual_file_system_c.Folders.Links.{sub_file_init, sub_folder_init, link_file, link_new_folder}
use virtual_file_system_c.Folders.Validate.{
  validate_sub_entry_name, validate_availability, sub_entry_name_is_unique,
}
use virtual_file_system_c.Folders.Named.{Terminated, Searched, search_names-Searched}
use virtual_file_system_c.Folders.Unique.{Unused, WellFormed, validate_sub_entry_name-Unused}
use virtual_file_system_c.Entries.{
  vfs_entry_store_init, vfs_sub_file_init, vfs_sub_folder_init, init_file_at, validate_vfs_folder,
  get_available_file_position, get_available_folder_position, get_available_allocation_map_position,
}
use virtual_file_system_c.Entries.Create.{}
use virtual_file_system_c.Relocation.{validate_no_cyclic_move, check_sub_folders}
use virtual_file_system_c.Relocation.Moves.{}
use virtual_file_system_c.Relocation.Cycles.{}
use virtual_file_system_c.Reach.{}
use virtual_file_system_c.Tests.Trees.{store_b, name_of}

-- Two entries, with a gap before them.
abbrev entries_there : ℕ → Option (ℕ → ℕ)
entries_there zero = none
entries_there (suc zero) = some (name_of 97)
entries_there (suc (suc i)) = some (name_of 98)

entries_there-Terminated : Terminated entries_there
entries_there-Terminated zero e h = absurd cc
entries_there-Terminated (suc zero) e h =
    (97 ∷ [], subst (λ n. Holds n 0 (97 ∷ [])) (some_inj h) (refl, omega arith, refl))
entries_there-Terminated (suc (suc i)) e h =
    (98 ∷ [], subst (λ n. Holds n 0 (98 ∷ [])) (some_inj h) (refl, omega arith, refl))

search_names-Searched_example :
    Searched entries_there (name_of 98) 1 10 0 (search_names 10 0 entries_there (name_of 98) 1)
search_names-Searched_example =
    search_names-Searched entries_there (name_of 98) 1 10 0 (omega arith) entries_there-Terminated

-- The root of `store_b` has the sub folders `a` and `b`, and no file.
files_b-Terminated : Terminated (file_names store_b (folder_at store_b root))
unfolding vfs_sub_folder_init vfs_sub_file_init init_file_at file_init init_empty_extensions
    validate_vfs_folder get_available_folder_position get_available_file_position
    get_available_allocation_map_position first_index vfs_entry_store_init fill copy sub_folder_init
    sub_file_init link_file link_new_folder validate_sub_entry_name validate_availability
    sub_entry_name_is_unique name_chars_are_valid search_names name_eq name_eq_loop root_folder_init
    folder_free_sub_entries copy_literal get_available_sub_folder_position
    get_available_sub_file_position set_entry_name set_entry_name_loop strlen name_length
    starts_with validate_no_cyclic_move check_sub_folders
files_b-Terminated j e h = absurd (none_not h)

update_twice :
    (f : ℕ → Option FolderRef) (a b : Option FolderRef) (j : ℕ)
    → update (update f 0 a) 1 b (suc (suc j)) ≡ f (suc (suc j))
update_twice f a b j = ground arith

name_elsewhere : (j : ℕ) → folder_names store_b (folder_at store_b root) (suc (suc j)) ≡ none
unfolding vfs_sub_folder_init vfs_sub_file_init init_file_at file_init init_empty_extensions
    validate_vfs_folder get_available_folder_position get_available_file_position
    get_available_allocation_map_position first_index vfs_entry_store_init fill copy sub_folder_init
    sub_file_init link_file link_new_folder validate_sub_entry_name validate_availability
    sub_entry_name_is_unique name_chars_are_valid search_names name_eq name_eq_loop root_folder_init
    folder_free_sub_entries copy_literal get_available_sub_folder_position
    get_available_sub_file_position set_entry_name set_entry_name_loop strlen name_length
    starts_with validate_no_cyclic_move check_sub_folders
name_elsewhere j =
    ap (λ o. elim o [ none ↦ none | some q ↦ some ((folder_at store_b q).name) ])
      (update_twice (λ _. none) (some (slot 0)) (some (slot 1)) j)

folders_b-Terminated : Terminated (folder_names store_b (folder_at store_b root))
unfolding vfs_sub_folder_init vfs_sub_file_init init_file_at file_init init_empty_extensions
    validate_vfs_folder get_available_folder_position get_available_file_position
    get_available_allocation_map_position first_index vfs_entry_store_init fill copy sub_folder_init
    sub_file_init link_file link_new_folder validate_sub_entry_name validate_availability
    sub_entry_name_is_unique name_chars_are_valid search_names name_eq name_eq_loop root_folder_init
    folder_free_sub_entries copy_literal get_available_sub_folder_position
    get_available_sub_file_position set_entry_name set_entry_name_loop strlen name_length
    starts_with validate_no_cyclic_move check_sub_folders
folders_b-Terminated zero e h =
    (97 ∷ [], subst (λ n. Holds n 0 (97 ∷ [])) (some_inj h) (refl, omega arith, refl))
folders_b-Terminated (suc zero) e h =
    (98 ∷ [], subst (λ n. Holds n 0 (98 ∷ [])) (some_inj h) (refl, omega arith, refl))
folders_b-Terminated (suc (suc j)) e h = absurd (none_not (sym (name_elsewhere j) ∙ h))

validate_sub_entry_name-Unused_example :
    (validate_sub_entry_name store_b root (name_of 99) 1 ≡ done tt) ↔ (
      WellFormed (name_of 99) 1
      × Unused (file_names store_b (folder_at store_b root)) (name_of 99) 1
      × Unused (folder_names store_b (folder_at store_b root)) (name_of 99) 1)
validate_sub_entry_name-Unused_example =
    validate_sub_entry_name-Unused store_b root (name_of 99) 1 files_b-Terminated
      folders_b-Terminated
