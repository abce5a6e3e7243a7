-- ===== src/Folders/Validate.antt =====
-- The check of the name of a new entry: `validate_sub_entry_name` of system/folders.c.
use virtual_file_system_c.Prelude.{
  ℕ, Bool, true, false, none, some, ltb, ◌==◌, if◌then◌else◌, is_null,
}
use virtual_file_system_c.Settings.{max_name_length, max_sub_files_amount, max_sub_folders_amount}
use virtual_file_system_c.Status.{
  Result, done, error, data_over_flow, insufficient_array_passed, invalid_charecter_in_identifier,
  identifier_not_available,
}
use virtual_file_system_c.Names.{name_chars_are_valid}
use virtual_file_system_c.Files.{FolderRef}
use virtual_file_system_c.Folders.{
  VfsEntryStore, folder_at, search_names, file_names, folder_names, starts_with, root_name,
  root_name_length,
}

-- `sub_entry_name_is_unique`
unfoldable pub sub_entry_name_is_unique :
    VfsEntryStore → FolderRef → (name : ℕ → ℕ) (name_length : ℕ) → Result Bool
sub_entry_name_is_unique s p name length =
    elim (search_names max_sub_files_amount 0 (file_names s (folder_at s p)) name length) [
      | error c ↦ error c
      | done (some i) ↦ done false
      | done none ↦
          elim (search_names max_sub_folders_amount 0 (folder_names s (folder_at s p)) name
            length) [ error c ↦ error c | done found ↦ done (is_null found) ]
    ]

-- The end of `validate_sub_entry_name`, for a name of valid chars.
unfoldable pub validate_availability :
    VfsEntryStore → FolderRef → (entry_name : ℕ → ℕ) (entry_name_length : ℕ) → Result (Unit {0})
unfolding sub_entry_name_is_unique starts_with
validate_availability s p name length =
    if (if length == root_name_length then starts_with name 0 root_name else false)
    then error identifier_not_available
    else elim (sub_entry_name_is_unique s p name length) [
      | error c ↦ error c
      | done true ↦ done tt
      | done false ↦ error identifier_not_available
    ]

-- `validate_sub_entry_name`
unfoldable pub validate_sub_entry_name :
    VfsEntryStore → FolderRef → (entry_name : ℕ → ℕ) (entry_name_length : ℕ) → Result (Unit {0})
unfolding validate_availability
validate_sub_entry_name s p name length =
    if ltb max_name_length length
    then error data_over_flow
    else if length == 0
    then error insufficient_array_passed
    else if name_chars_are_valid length 0 name
    then validate_availability s p name length
    else error invalid_charecter_in_identifier
