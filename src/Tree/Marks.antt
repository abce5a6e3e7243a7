-- ===== src/Tree/Marks.antt =====
-- The two allocation maps of system/vfs_entry_store.c, as they are seen through the pointers.
use mathlib.Core.Path.{fun_ext}
use virtual_file_system_c.Prelude.{ℕ, ◌<◌, ◌≡◌, refl, Bool, true, false, ◌&&◌, arith, ltb, ◌==◌, ap}
use virtual_file_system_c.Settings.{vfs_max_files_amount, vfs_max_folders_amount}
use virtual_file_system_c.Files.{FolderRef, root, slot}
use virtual_file_system_c.Folders.{Folder, VfsEntryStore, same_folder, folder_at}
use virtual_file_system_c.Entries.{mark_file, mark_folder}
use virtual_file_system_c.Tree.Linked.{set_at}
use virtual_file_system_c.Tree.Valid.{shape, in_use, with_live_file, with_live_folder}

-- `entry_store->files_allocation_map[f] = b`
pub shape-mark_file :
    (f : ℕ) (b : Bool) (s : VfsEntryStore)
    → f < vfs_max_files_amount
    → shape (mark_file f b s) ≡ with_live_file f b (shape s)
shape-mark_file f b s h = λ i. record (shape s) {
  home = fun_ext (homes true) i;
  live_folder = fun_ext (homes false) i;
  parent = fun_ext (λ r. ap (λ (g : Folder). g.parent_folder) (folders r)) i;
  subs = fun_ext (λ r. ap (λ (g : Folder). g.sub_folders) (folders r)) i;
  files = fun_ext (λ r. ap (λ (g : Folder). g.sub_files) (folders r)) i;
  is_root = fun_ext (λ r. ap (λ (g : Folder). g.is_root) (folders r)) i;
  live_file = fun_ext lives i;
}
  where
    homes : (c : Bool) (r : FolderRef) → in_use c (mark_file f b s) r ≡ in_use c s r
    homes c root = refl
    homes c (slot j) = refl

    folders : (r : FolderRef) → folder_at (mark_file f b s) r ≡ folder_at s r
    folders root = refl
    folders (slot j) = refl

    lives :
        (g : ℕ)
        → (ltb g vfs_max_files_amount && (mark_file f b s).files_allocation_map g)
          ≡ set_at ◌==◌ f b (λ e. ltb e vfs_max_files_amount && s.files_allocation_map e) g
    lives g = ground arith

-- `entry_store->folders_allocation_map[j] = b`
pub shape-mark_folder :
    (j : ℕ) (b : Bool) (s : VfsEntryStore)
    → j < vfs_max_folders_amount
    → shape (mark_folder j b s) ≡ with_live_folder (slot j) b (shape s)
shape-mark_folder j b s h = λ i. record (shape s) {
  home = fun_ext (homes true) i;
  live_folder = fun_ext (homes false) i;
  parent = fun_ext (λ r. ap (λ (g : Folder). g.parent_folder) (folders r)) i;
  subs = fun_ext (λ r. ap (λ (g : Folder). g.sub_folders) (folders r)) i;
  files = fun_ext (λ r. ap (λ (g : Folder). g.sub_files) (folders r)) i;
  is_root = fun_ext (λ r. ap (λ (g : Folder). g.is_root) (folders r)) i;
}
  where
    homes :
        (c : Bool) (r : FolderRef)
        → in_use c (mark_folder j b s) r ≡ set_at same_folder (slot j) b (in_use c s) r
    homes c root = refl
    homes c (slot l) = ground arith

    folders : (r : FolderRef) → folder_at (mark_folder j b s) r ≡ folder_at s r
    folders root = refl
    folders (slot l) = refl
