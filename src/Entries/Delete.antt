-- ===== src/Entries/Delete.antt =====
-- Entries are deleted: `delete_flat_folder` and `delete_vfs_file` of system/vfs_entry_store.c.
use mathlib.Core.Path.{subst}
use virtual_file_system_c.Prelude.{some, ℕ, ◌<◌, ◌≡◌, refl, sym, ap, ◌∙◌, true, false, none, arith}
use virtual_file_system_c.Status.{ok, fault}
use virtual_file_system_c.Status.After.{After, succeeds, After-bind_outcome}
use virtual_file_system_c.Files.{FolderRef, root, slot}
use virtual_file_system_c.Folders.{same_folder, VfsEntryStore, folder_at}
use virtual_file_system_c.Folders.Linking.{FolderCut, Same, unlink_sub_folder-FolderCut}
use virtual_file_system_c.Entries.{mark_folder, delete_flat_folder}
use virtual_file_system_c.Tree.Valid.{shape, IsTree, with_live_folder}
use virtual_file_system_c.Tree.Places.{no_sub_entries}
use virtual_file_system_c.Tree.Marks.{shape-mark_folder}
use virtual_file_system_c.Tree.Linked.{set_at, set_sub}
use virtual_file_system_c.Tree.Grow.{IsTree-parent}
use virtual_file_system_c.Tree.Steps.{Step, remove_folder}

-- The folder is not in use any more, and the store has made one move of a tree. No file is changed,
-- nothing new stands in a folder, and the other folders in use stay in use.
pub record FolderRemoved (r : FolderRef) (s t : VfsEntryStore) : Type 0 where
  pub free : (shape t).home r ≡ false
  pub step : Step (shape s) (shape t)
  pub files : t.files ≡ s.files
  pub lives : (shape t).live_file ≡ (shape s).live_file
  pub homes : (shape t).home ≡ set_at same_folder r false (shape s).home
  pub shrinks :
      (p : FolderRef) (k : ℕ) (q : FolderRef)
      → (shape t).subs p k ≡ some q
      → (shape s).subs p k ≡ some q
  pub places : (shape t).files ≡ (shape s).files

cut_flat :
    (j : ℕ) (s t : VfsEntryStore)
    → IsTree (shape s)
    → (shape s).home (slot j) ≡ true
    → ((i : ℕ) → i < 10 → (shape s).subs (slot j) i ≡ none)
    → ((i : ℕ) → i < 10 → (shape s).files (slot j) i ≡ none)
    → FolderCut (slot j) s t
    → FolderRemoved (slot j) s (mark_folder j false t)
cut_flat j s t tree used no_folders no_files (q, k, up, few, there, seen, same) =
    let (_, home_q, _, _) = IsTree-parent (slot j) q tree used up in
    let after =
      shape-mark_folder j false t (ground (arith, used))
      ∙ ap (λ x. with_live_folder (slot j) false x) seen in
    record {
      free = subst (λ x. x.home (slot j) ≡ false) (sym after) (ground arith);
      step =
          subst (Step (shape s)) (sym after)
            (remove_folder j q k home_q few there no_folders no_files);
      files = same;
      lives = ap (λ x. x.live_file) after;
      homes = ap (λ x. x.home) after;
      places = ap (λ x. x.files) after;
      shrinks = λ p i r e. less q k p i r (sym (ap (λ x. x.subs p i) after) ∙ e);
    }
  where
    less :
        (q : FolderRef) (k : ℕ) (p : FolderRef) (i : ℕ) (r : FolderRef)
        → set_sub q k none (shape s).subs p i ≡ some r
        → (shape s).subs p i ≡ some r
    less q k p i r e = ground (arith, e)

-- Deleting a folder of a tree that is in use, without its entries, never faults. On success the folder
-- is free and the store has made one move of a tree: a folder without entries left. On failure, as
-- for the root and for a folder with entries, nothing is changed.
pub delete_flat_folder-Step :
    (r : FolderRef) (s : VfsEntryStore)
    → IsTree (shape s)
    → (shape s).home r ≡ true
    → After (λ u t. FolderRemoved r s t) (Same s) (delete_flat_folder r s)
unfolding delete_flat_folder
delete_flat_folder-Step root s tree h =
    After-bind_outcome (λ u t. fault) (unlink_sub_folder-FolderCut root false s tree h)
      (λ u t (_, other, _). absurd (ground (arith, other)))
delete_flat_folder-Step (slot j) s tree h =
    After-bind_outcome (λ u t. ok tt (mark_folder j false t))
      (unlink_sub_folder-FolderCut (slot j) false s tree h)
      (λ u t (cut, _, flat).
        let (no_folders, no_files) = no_sub_entries (folder_at s (slot j)) (flat refl) in
        succeeds (cut_flat j s t tree h no_folders no_files cut))
