-- ===== src/Entries/Frame.antt =====
-- The data of files under the operations on the tree: system/folders.c,
-- system/vfs_entry_store.c and system/entry_relocation.c.
use virtual_file_system_c.Prelude.{
  ℕ, ◌≡◌, refl, ◌∙◌, inl, inr, Bool, true, false, ◌==◌, not, ◌&&◌, List, arith, Bool-cases,
  Option-cases,
}
use virtual_file_system_c.Status.After.{Result-cases}
use virtual_file_system_c.Status.Keeps.{Leaves, leaves_rules}
use virtual_file_system_c.Names.{name_fits}
use virtual_file_system_c.Names.Text.{EndsWithin, set_entry_name-EndsWithin}
use mathlib.Core.Path.{subst}
use virtual_file_system_c.Settings.{max_name_length}
use virtual_file_system_c.Files.{ChunkExtent, File, FolderRef, root, slot}
use virtual_file_system_c.Folders.{
  Folder, VfsEntryStore, has_sub_entries, folder_at, put_file, put_folder, find_sub_file_index,
  find_sub_folder_index,
}
use virtual_file_system_c.Folders.Links.{
  link_file, link_new_folder, cut_file, cut_folder, sub_file_init, sub_folder_init, unlink_sub_file,
  unlink_sub_folder, unlink_from_parent,
}
use virtual_file_system_c.Folders.Validate.{validate_sub_entry_name}
use virtual_file_system_c.Entries.{mark_folder, vfs_sub_folder_init}
use virtual_file_system_c.Relocation.{
  link_folder, move_file, move_folder, rename_file, rename_folder, rename_sub_folder,
}

-- What a file has stored.
abbrev pub file_data : File → ℕ × List ChunkExtent
file_data f = (f.allocated_size, f.data_chunk_extents)

-- The same files are in use, with the same data, and names that end inside their arrays do so still.
pub record SameData (s t : VfsEntryStore) : Type 0 where
  pub in_use : t.files_allocation_map ≡ s.files_allocation_map
  pub stored : (g : ℕ) → file_data (t.files g) ≡ file_data (s.files g)
  pub named :
      (g : ℕ)
      → EndsWithin max_name_length (s.files g).name
      → EndsWithin max_name_length (t.files g).name

pub SameData-refl : (s : VfsEntryStore) → SameData s s
SameData-refl s = record { in_use = refl; stored = λ g. refl; named = λ g h. h }

SameData-trans : {s t u : VfsEntryStore} → SameData s t → SameData t u → SameData s u
SameData-trans a b = record {
  in_use = b.in_use ∙ a.in_use;
  stored = λ g. b.stored g ∙ a.stored g;
  named = λ g h. b.named g (a.named g h);
}

SameData-put_folder :
    (r : FolderRef) (f : Folder) (s : VfsEntryStore) → SameData s (put_folder r f s)
SameData-put_folder root f s = record { in_use = refl; stored = λ g. refl; named = λ g h. h }
SameData-put_folder (slot i) f s = record { in_use = refl; stored = λ g. refl; named = λ g h. h }

SameData-put_file :
    (i : ℕ) (f : File) (s : VfsEntryStore)
    → file_data f ≡ file_data (s.files i)
    → (EndsWithin max_name_length (s.files i).name → EndsWithin max_name_length f.name)
    → SameData s (put_file i f s)
SameData-put_file i f s e n = record { in_use = refl; stored = stored_there; named = named_there }
  where
    stored_there : (g : ℕ) → file_data ((put_file i f s).files g) ≡ file_data (s.files g)
    stored_there g = ground (arith, e)

    named_there :
        (g : ℕ)
        → EndsWithin max_name_length (s.files g).name
        → EndsWithin max_name_length ((put_file i f s).files g).name
    named_there g h = elim (Bool-cases (g == i)) [
      | inl same ↦
          subst (λ x. EndsWithin max_name_length x.name) (there same)
            (n (subst (λ x. EndsWithin max_name_length (s.files x).name) (equal same) h))
      | inr other ↦ subst (λ x. EndsWithin max_name_length x.name) (elsewhere other) h
    ]
      where
        equal : (g == i) ≡ true → g ≡ i
        equal same = ground arith

        there : (g == i) ≡ true → f ≡ (put_file i f s).files g
        there same = ground (arith, same)

        elsewhere : (g == i) ≡ false → s.files g ≡ (put_file i f s).files g
        elsewhere other = ground (arith, other)

SameData-link_file :
    (f : ℕ) (p : FolderRef) (i : ℕ) (s t : VfsEntryStore)
    → SameData s t
    → SameData s (link_file f p i t)
unfolding link_file
SameData-link_file f p i s t h =
    SameData-trans h
      (SameData-trans (SameData-put_folder p _ t) (SameData-put_file f _ _ refl (λ h. h)))

SameData-cut_file :
    (f : ℕ) (p : FolderRef) (i : ℕ) (s : VfsEntryStore) → SameData s (cut_file f p i s)
unfolding cut_file
SameData-cut_file f p i s =
    SameData-trans (SameData-put_folder p _ s) (SameData-put_file f _ _ refl (λ h. h))

-- Two folders are written to.
SameData-two_folders :
    (p r : FolderRef) (f g : Folder) (s t : VfsEntryStore)
    → SameData s t
    → SameData s (put_folder r g (put_folder p f t))
SameData-two_folders p r f g s t h =
    SameData-trans h
      (SameData-trans (SameData-put_folder p f t) (SameData-put_folder r g (put_folder p f t)))

pub sub_file_init-SameData :
    (f : ℕ) (p : FolderRef) (s t : VfsEntryStore)
    → SameData s t
    → Leaves (SameData s) (sub_file_init f p t)
unfolding sub_file_init
sub_file_init-SameData f p s t h = search (leaves_rules, SameData-link_file)

unlink_sub_file-SameData :
    (f : ℕ) (s t : VfsEntryStore) → SameData s t → Leaves (SameData s) (unlink_sub_file f t)
unfolding unlink_sub_file
unlink_sub_file-SameData f s t h = elim (Option-cases ((t.files f).parent_folder)) [
  | inl e ↦ rw (e, unlink_sub_file) h
  | inr (p, e) ↦ elim (Result-cases (find_sub_file_index (folder_at t p) f)) [
    | inl (i, at) ↦ rw (e, at, unlink_sub_file) (SameData-trans h (SameData-cut_file f p i t))
    | inr (c, at) ↦ rw (e, at, unlink_sub_file) h
  ]
]

unlink_from_parent-SameData :
    (r : FolderRef) (s t : VfsEntryStore)
    → SameData s t
    → Leaves (SameData s) (unlink_from_parent r t)
unfolding unlink_from_parent cut_folder
unlink_from_parent-SameData r s t h = elim (Option-cases ((folder_at t r).parent_folder)) [
  | inl e ↦ rw (e, unlink_from_parent) tt
  | inr (p, e) ↦ elim (Result-cases (find_sub_folder_index (folder_at t p) r)) [
    | inl (i, at) ↦ rw (e, at, unlink_from_parent) (SameData-two_folders p r _ _ s t h)
    | inr (c, at) ↦ rw (e, at, unlink_from_parent) h
  ]
]

unlink_sub_folder-SameData :
    (r : FolderRef) (force : Bool) (s t : VfsEntryStore)
    → SameData s t
    → Leaves (SameData s) (unlink_sub_folder r force t)
unfolding unlink_sub_folder
unlink_sub_folder-SameData r force s t h = elim (Bool-cases (folder_at t r).is_root) [
  | inl top ↦ rw (top, unlink_sub_folder) h
  | inr other ↦ elim (Bool-cases (has_sub_entries (folder_at t r) && not force)) [
    | inl full ↦ rw (other, full, unlink_sub_folder) h
    | inr flat ↦ rw (other, flat, unlink_sub_folder) (unlink_from_parent-SameData r s t h)
  ]
]

pub move_file-SameData :
    (f : ℕ) (p : FolderRef) (s : VfsEntryStore) → Leaves (SameData s) (move_file f p s)
unfolding move_file
move_file-SameData f p s =
    search (leaves_rules, SameData-refl, unlink_sub_file-SameData, SameData-link_file) depth 8

pub move_folder-SameData :
    (r p : FolderRef) (s : VfsEntryStore) → Leaves (SameData s) (move_folder r p s)
unfolding move_folder link_folder
move_folder-SameData r p s =
    search (leaves_rules, SameData-refl, unlink_sub_folder-SameData, SameData-two_folders) depth 8

sub_folder_init-SameData :
    (r : FolderRef) (name : ℕ → ℕ) (length : ℕ) (p : FolderRef) (s t : VfsEntryStore)
    → SameData s t
    → Leaves (SameData s) (sub_folder_init r name length p t)
unfolding sub_folder_init link_new_folder
sub_folder_init-SameData r name length p s t h = search (leaves_rules, SameData-two_folders)

SameData-mark_folder :
    (j : ℕ) (b : Bool) (s t : VfsEntryStore) → SameData s t → SameData s (mark_folder j b t)
SameData-mark_folder j b s t h = record { in_use = h.in_use; stored = h.stored; named = h.named }

pub vfs_sub_folder_init-SameData :
    (name : ℕ → ℕ) (length : ℕ) (p : FolderRef) (s : VfsEntryStore)
    → Leaves (SameData s) (vfs_sub_folder_init name length p s)
unfolding vfs_sub_folder_init
vfs_sub_folder_init-SameData name length p s =
    search (leaves_rules, SameData-refl, sub_folder_init-SameData, SameData-mark_folder) depth 8

pub rename_file-SameData :
    (f : ℕ) (name : ℕ → ℕ) (length : ℕ) (s : VfsEntryStore)
    → Leaves (SameData s) (rename_file f name length s)
unfolding rename_file
rename_file-SameData f name length s = elim (Option-cases ((s.files f).parent_folder)) [
  | inl e ↦ rw (e, rename_file) (SameData-refl s)
  | inr (p, e) ↦ elim (Result-cases (validate_sub_entry_name s p name length)) [
    | inl (u, good) ↦ elim (Bool-cases (name_fits max_name_length name length)) [
      | inl fits ↦
          rw (e, good, fits, rename_file)
            (SameData-put_file f _ s refl
              (λ h. set_entry_name-EndsWithin max_name_length name length (s.files f).name fits))
      | inr long ↦ rw (e, good, long, rename_file) tt
    ]
    | inr (c, bad) ↦ rw (e, bad, rename_file) (SameData-refl s)
  ]
]

pub rename_folder-SameData :
    (r : FolderRef) (name : ℕ → ℕ) (length : ℕ) (s : VfsEntryStore)
    → Leaves (SameData s) (rename_folder r name length s)
unfolding rename_folder rename_sub_folder
rename_folder-SameData r name length s = elim (Bool-cases (folder_at s r).is_root) [
  | inl top ↦ rw (top, rename_folder) (SameData-refl s)
  | inr other ↦ elim (Option-cases ((folder_at s r).parent_folder)) [
    | inl e ↦ rw (other, e, rename_folder, rename_sub_folder) (SameData-refl s)
    | inr (p, e) ↦ elim (Result-cases (validate_sub_entry_name s p name length)) [
      | inl (u, good) ↦
          rw (other, e, good, rename_folder, rename_sub_folder) (SameData-put_folder r _ s)
      | inr (c, bad) ↦ rw (other, e, bad, rename_folder, rename_sub_folder) (SameData-refl s)
    ]
  ]
]
