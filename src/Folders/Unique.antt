-- ===== src/Folders/Unique.antt =====
-- `validate_sub_entry_name` of system/folders.c: which names a new entry of a folder may have.
use virtual_file_system_c.Prelude.{
  ℕ, ◌≤◌, ◌<◌, ◌≡◌, ◌↔◌, refl, inl, inr, ◌⊎◌, true, false, Option, none, some, arith, ◌==◌,
  if◌then◌else◌,
}
use virtual_file_system_c.Settings.{max_name_length}
use virtual_file_system_c.Status.{Result, done, error}
use virtual_file_system_c.Names.{name_chars_are_valid}
use virtual_file_system_c.Files.{FolderRef}
use virtual_file_system_c.Folders.{
  VfsEntryStore, folder_at, file_names, folder_names, search_names, starts_with, root_name,
}
use virtual_file_system_c.Folders.Validate.{
  sub_entry_name_is_unique, validate_availability, validate_sub_entry_name,
}
use virtual_file_system_c.Folders.Named.{Terminated, NameAt, Searched, search_names-Searched}

-- No entry of an array has the name.
abbrev pub Unused : (ℕ → Option (ℕ → ℕ)) → (name : ℕ → ℕ) (length : ℕ) → Type 0
Unused entries name length = (j : ℕ) → j < 10 → ¬ NameAt entries name length j

-- The rules for the chars of a name, whatever the folder holds.
abbrev pub WellFormed : (name : ℕ → ℕ) (length : ℕ) → Type 0
WellFormed name length =
    (0 < length)
    × (length ≤ max_name_length)
    × (name_chars_are_valid length 0 name ≡ true)
    × ((if length == 4 then starts_with name 0 root_name else false) ≡ false)

module _ (entries : ℕ → Option (ℕ → ℕ)) (name : ℕ → ℕ) (length : ℕ) where
  -- A search of ten entries gives an index, or says that the name is unused.
  search_names-Unused :
      0 < length
      → Terminated entries
      → ((search_names 10 0 entries name length ≡ done none) × Unused entries name length)
        ⊎ ((j : ℕ) × (search_names 10 0 entries name length ≡ done (some j))
            × (j < 10)
            × NameAt entries name length j)
  search_names-Unused pos ends =
      found (search_names 10 0 entries name length)
        (search_names-Searched entries name length 10 0 pos ends)
    where
      found :
          (r : Result (Option ℕ))
          → Searched entries name length 10 0 r
          → ((r ≡ done none) × Unused entries name length)
            ⊎ ((j : ℕ) × (r ≡ done (some j)) × (j < 10) × NameAt entries name length j)
      found (error c) h = absurd h
      found (done none) h = inl (refl, λ j lt. h j (omega arith) lt)
      found (done (some j)) (a, b, c, d) = inr (j, refl, omega (arith, b), c)

-- What the search for the name says in the end.
module _ (s : VfsEntryStore) (p : FolderRef) (name : ℕ → ℕ) (length : ℕ) where
  abbrev files_there : ℕ → Option (ℕ → ℕ)
  files_there = file_names s (folder_at s p)

  abbrev folders_there : ℕ → Option (ℕ → ℕ)
  folders_there = folder_names s (folder_at s p)

  unique_cases :
      0 < length
      → Terminated files_there
      → Terminated folders_there
      → ((sub_entry_name_is_unique s p name length ≡ done true)
          × Unused files_there name length
          × Unused folders_there name length)
        ⊎ ((sub_entry_name_is_unique s p name length ≡ done false)
            × ¬ (Unused files_there name length × Unused folders_there name length))
  unfolding sub_entry_name_is_unique
  unique_cases pos f g = elim (search_names-Unused files_there name length pos f) [
    | inr (j, e, lt, at) ↦ inr (rw (e, sub_entry_name_is_unique) refl, λ (free, _). free j lt at)
    | inl (e, no_file) ↦ elim (search_names-Unused folders_there name length pos g) [
      | inr (j, e', lt, at) ↦
          inr (rw (e, e', sub_entry_name_is_unique) refl, λ (_, free). free j lt at)
      | inl (e', no_folder) ↦ inl (rw (e, e', sub_entry_name_is_unique) refl, no_file, no_folder)
    ]
  ]

  -- When the names in a folder end with a null, the check of a new name succeeds exactly when the
  -- name has 1 to MAX_NAME_LENGTH chars, all of them valid, is not `root`, and no file and no sub
  -- folder of the folder has it.
  pub validate_sub_entry_name-Unused :
      Terminated (file_names s (folder_at s p))
      → Terminated (folder_names s (folder_at s p))
      → (validate_sub_entry_name s p name length ≡ done tt) ↔ (
          WellFormed name length
          × Unused (file_names s (folder_at s p)) name length
          × Unused (folder_names s (folder_at s p)) name length)
  unfolding validate_sub_entry_name validate_availability
  validate_sub_entry_name-Unused f g = (
    λ e.
        let pos : 0 < length = ground (arith, e) in
        elim (unique_cases pos f g) [
          | inl (u, a, b) ↦ ((pos, ground (arith, e), ground (arith, e), ground (arith, e)), a, b)
          | inr (u, _) ↦ absurd (ground (arith, e, u))
        ],
    λ ((pos, short, chars, other), a, b). elim (unique_cases pos f g) [
      | inl (u, _, _) ↦ ground (arith, pos, short, chars, other, u)
      | inr (_, h) ↦ absurd (h (a, b))
    ],
  )
