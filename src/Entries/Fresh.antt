-- ===== src/Entries/Fresh.antt =====
-- `vfs_entry_store_init` of system/vfs_entry_store.c makes a tree.
use virtual_file_system_c.Prelude.{
  ℕ, ◌≡◌, refl, Bool, true, false, ◌&&◌, not, Option, none, arith, fill_lem,
}
use virtual_file_system_c.Settings.{vfs_max_files_amount, vfs_max_folders_amount}
use virtual_file_system_c.Files.{FolderRef, root, slot}
use virtual_file_system_c.Folders.{
  VfsEntryStore, same_folder, root_folder_init, folder_free_sub_entries,
}
use virtual_file_system_c.Entries.{vfs_entry_store_init}
use virtual_file_system_c.Tree.Linked.{Linked}
use virtual_file_system_c.Tree.Rooted.{Rooted, at_root}
use virtual_file_system_c.Tree.Valid.{shape, IsTree}

Linked-empty :
    {N : Type 0} {home : FolderRef → Bool} {live : N → Bool} {parent : N → Option FolderRef}
    → {subs : FolderRef → ℕ → Option N} → ((n : N) → live n ≡ false)
    → ((p : FolderRef) (k : ℕ) → home p ≡ true → subs p k ≡ none)
    → Linked home live parent subs
Linked-empty dead bare = record {
  up = λ n e. absurd (ground (arith, dead n, e));
  down = λ p k n h lt e. absurd (ground (arith, bare p k h, e));
  once = λ p j k n h a b c d. absurd (ground (arith, bare p j h, c));
}

module _ (s : VfsEntryStore) where
  no_folder : (r : FolderRef) → (shape (vfs_entry_store_init s)).live_folder r ≡ false
  unfolding vfs_entry_store_init
  no_folder root = refl
  no_folder (slot i) =
      ground (arith, fill_lem s.folders_allocation_map 0 vfs_max_folders_amount false i)

  no_home : (i : ℕ) → (shape (vfs_entry_store_init s)).home (slot i) ≡ false
  no_home i = no_folder (slot i)

  no_file : (f : ℕ) → (shape (vfs_entry_store_init s)).live_file f ≡ false
  unfolding vfs_entry_store_init
  no_file f = ground (arith, fill_lem s.files_allocation_map 0 vfs_max_files_amount false f)

  no_subs :
      (r : FolderRef) (k : ℕ)
      → (shape (vfs_entry_store_init s)).home r ≡ true
      → (shape (vfs_entry_store_init s)).subs r k ≡ none
  unfolding vfs_entry_store_init root_folder_init folder_free_sub_entries
  no_subs root k h = refl
  no_subs (slot i) k h = absurd (ground (arith, no_home i, h))

  no_files :
      (r : FolderRef) (k : ℕ)
      → (shape (vfs_entry_store_init s)).home r ≡ true
      → (shape (vfs_entry_store_init s)).files r k ≡ none
  unfolding vfs_entry_store_init root_folder_init folder_free_sub_entries
  no_files root k h = refl
  no_files (slot i) k h = absurd (ground (arith, no_home i, h))

  paths :
      (r : FolderRef)
      → (shape (vfs_entry_store_init s)).home r ≡ true
      → Rooted (shape (vfs_entry_store_init s)).parent r
  paths root h = at_root
  paths (slot i) h = absurd (ground (arith, no_home i, h))

  flags :
      (r : FolderRef)
      → (shape (vfs_entry_store_init s)).home r ≡ true
      → (shape (vfs_entry_store_init s)).is_root r ≡ same_folder root r
  unfolding vfs_entry_store_init root_folder_init folder_free_sub_entries
  flags root h = refl
  flags (slot i) h = absurd (ground (arith, no_home i, h))

  uses :
      (r : FolderRef)
      → (shape (vfs_entry_store_init s)).live_folder r
        ≡ ((shape (vfs_entry_store_init s)).home r && not (same_folder root r))
  uses root = refl
  uses (slot i) = ground (arith, no_home i, no_folder (slot i))

  -- An entry store that has been initialised is a tree with the root alone: no file and no folder of
  -- the arrays is in use, and the root is empty.
  pub vfs_entry_store_init-IsTree :
      IsTree (shape (vfs_entry_store_init s))
      × ((f : ℕ) → (shape (vfs_entry_store_init s)).live_file f ≡ false)
      × ((r : FolderRef) → (shape (vfs_entry_store_init s)).live_folder r ≡ false)
      × ((r : FolderRef) (k : ℕ)
          → (shape (vfs_entry_store_init s)).home r ≡ true
          → ((shape (vfs_entry_store_init s)).subs r k ≡ none)
            × ((shape (vfs_entry_store_init s)).files r k ≡ none))
  unfolding vfs_entry_store_init root_folder_init folder_free_sub_entries
  vfs_entry_store_init-IsTree = (
    record {
      folders_linked = Linked-empty no_folder no_subs;
      files_linked = Linked-empty no_file no_files;
      rooted = paths;
      flagged = flags;
      top = refl;
      proper = uses;
      top_home = refl;
    },
    no_file,
    no_folder,
    λ r k h. (no_subs r k h, no_files r k h),
  )
