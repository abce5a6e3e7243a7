-- ===== src/Tree/Seen.antt =====
-- The assignments of system/folders.c, as they are seen through the pointers.
use mathlib.Core.Path.{fun_ext}
use virtual_file_system_c.Prelude.{
  ℕ, ◌≡◌, refl, Bool, true, false, ◌&&◌, Option, arith, ltb, ◌==◌, if◌then◌else◌, update, ap, ◌∙◌,
}
use virtual_file_system_c.Settings.{vfs_max_files_amount}
use virtual_file_system_c.Files.{File, FolderRef, root, slot}
use virtual_file_system_c.Folders.{
  Folder, VfsEntryStore, same_folder, folder_at, put_folder, put_file,
}
use virtual_file_system_c.Folders.Links.{set_sub_file, set_sub_folder, set_parent}
use virtual_file_system_c.Tree.Linked.{set_at, set_sub, same_folder_eq}
use virtual_file_system_c.Tree.Valid.{
  shape, in_use, with_sub, with_parent, with_file, with_file_parent,
}

-- A store is read back folder by folder.
pub folder_at-put_folder :
    (p : FolderRef) (f : Folder) (s : VfsEntryStore) (r : FolderRef)
    → folder_at (put_folder p f s) r ≡ (if same_folder p r then f else folder_at s r)
folder_at-put_folder root f s root = refl
folder_at-put_folder root f s (slot j) = refl
folder_at-put_folder (slot i) f s root = refl
folder_at-put_folder (slot i) f s (slot j) = ground arith

-- What is in use is said by the maps alone.
in_use-put_folder :
    (b : Bool) (p : FolderRef) (f : Folder) (s : VfsEntryStore) (r : FolderRef)
    → in_use b (put_folder p f s) r ≡ in_use b s r
in_use-put_folder b p f s root = refl
in_use-put_folder b p f s (slot i) = refl

-- A folder is replaced by one that differs in some fields.
pub shape-put_folder :
    (p : FolderRef) (f : Folder) (s : VfsEntryStore)
    → shape (put_folder p f s) ≡ record (shape s) {
      parent = set_at same_folder p f.parent_folder (λ r. (folder_at s r).parent_folder);
      subs = set_at same_folder p f.sub_folders (λ r. (folder_at s r).sub_folders);
      files = set_at same_folder p f.sub_files (λ r. (folder_at s r).sub_files);
      is_root = set_at same_folder p f.is_root (λ r. (folder_at s r).is_root);
    }
shape-put_folder p f s = λ i. record {
  home = fun_ext (in_use-put_folder true p f s) i;
  live_folder = fun_ext (in_use-put_folder false p f s) i;
  live_file = λ g. ltb g vfs_max_files_amount && s.files_allocation_map g;
  parent = fun_ext parents i;
  subs = fun_ext subs i;
  file_parent = λ g. (s.files g).parent_folder;
  files = fun_ext files i;
  is_root = fun_ext flags i;
}
  where
    parents :
        (r : FolderRef)
        → (folder_at (put_folder p f s) r).parent_folder
          ≡ set_at same_folder p f.parent_folder (λ q. (folder_at s q).parent_folder) r
    parents r = ground (arith, folder_at-put_folder p f s r)

    subs :
        (r : FolderRef)
        → (folder_at (put_folder p f s) r).sub_folders
          ≡ set_at same_folder p f.sub_folders (λ q. (folder_at s q).sub_folders) r
    subs r = ground (arith, folder_at-put_folder p f s r)

    files :
        (r : FolderRef)
        → (folder_at (put_folder p f s) r).sub_files
          ≡ set_at same_folder p f.sub_files (λ q. (folder_at s q).sub_files) r
    files r = ground (arith, folder_at-put_folder p f s r)

    flags :
        (r : FolderRef)
        → (folder_at (put_folder p f s) r).is_root
          ≡ set_at same_folder p f.is_root (λ q. (folder_at s q).is_root) r
    flags r = ground (arith, folder_at-put_folder p f s r)

pub set_at_self :
    {A : Type 0} (f : FolderRef → A) (p : FolderRef) → set_at same_folder p (f p) f ≡ f
set_at_self f p = fun_ext λ r. ground (arith, same_folder_eq p r)

set_at-update :
    {N : Type 0} (subs : FolderRef → ℕ → Option N) (p : FolderRef) (k : ℕ) (x : Option N)
    → set_at same_folder p (update (subs p) k x) subs ≡ set_sub p k x subs
set_at-update subs p k x = fun_ext λ r. fun_ext λ j. ground (arith, same_folder_eq p r)

-- `folder->sub_folders[k] = x`
pub shape-set_sub_folder :
    (p : FolderRef) (k : ℕ) (x : Option FolderRef) (s : VfsEntryStore)
    → shape (set_sub_folder p k x s) ≡ with_sub p k x (shape s)
shape-set_sub_folder p k x s =
    shape-put_folder p
      (record (folder_at s p) { sub_folders = update (folder_at s p).sub_folders k x }) s
    ∙ λ i. record (shape s) {
      parent = set_at_self (λ r. (folder_at s r).parent_folder) p i;
      subs = set_at-update (λ r. (folder_at s r).sub_folders) p k x i;
      files = set_at_self (λ r. (folder_at s r).sub_files) p i;
      is_root = set_at_self (λ r. (folder_at s r).is_root) p i;
    }

-- `folder->sub_files[k] = x`
pub shape-set_sub_file :
    (p : FolderRef) (k : ℕ) (x : Option ℕ) (s : VfsEntryStore)
    → shape (set_sub_file p k x s) ≡ with_file p k x (shape s)
shape-set_sub_file p k x s =
    shape-put_folder p (record (folder_at s p) { sub_files = update (folder_at s p).sub_files k x })
      s
    ∙ λ i. record (shape s) {
      parent = set_at_self (λ r. (folder_at s r).parent_folder) p i;
      subs = set_at_self (λ r. (folder_at s r).sub_folders) p i;
      files = set_at-update (λ r. (folder_at s r).sub_files) p k x i;
      is_root = set_at_self (λ r. (folder_at s r).is_root) p i;
    }

-- `folder->parent_folder = x`
pub shape-set_parent :
    (p : FolderRef) (x : Option FolderRef) (s : VfsEntryStore)
    → shape (set_parent p x s) ≡ with_parent p x (shape s)
shape-set_parent p x s = shape-put_folder p (record (folder_at s p) { parent_folder = x }) s ∙ λ i.
    record (shape s) {
      parent = set_at same_folder p x (λ r. (folder_at s r).parent_folder);
      subs = set_at_self (λ r. (folder_at s r).sub_folders) p i;
      files = set_at_self (λ r. (folder_at s r).sub_files) p i;
      is_root = set_at_self (λ r. (folder_at s r).is_root) p i;
    }

-- `*file = g`
pub shape-put_file :
    (f : ℕ) (g : File) (s : VfsEntryStore)
    → shape (put_file f g s) ≡ with_file_parent f g.parent_folder (shape s)
shape-put_file f g s = λ i. record (shape s) {
  home = fun_ext (homes true) i;
  live_folder = fun_ext (homes false) i;
  parent = fun_ext (λ r. ap (λ (h : Folder). h.parent_folder) (folders r)) i;
  subs = fun_ext (λ r. ap (λ (h : Folder). h.sub_folders) (folders r)) i;
  files = fun_ext (λ r. ap (λ (h : Folder). h.sub_files) (folders r)) i;
  is_root = fun_ext (λ r. ap (λ (h : Folder). h.is_root) (folders r)) i;
  file_parent = fun_ext parents i;
}
  where
    homes : (b : Bool) (r : FolderRef) → in_use b (put_file f g s) r ≡ in_use b s r
    homes b root = refl
    homes b (slot j) = refl

    folders : (r : FolderRef) → folder_at (put_file f g s) r ≡ folder_at s r
    folders root = refl
    folders (slot j) = refl

    parents :
        (e : ℕ)
        → ((put_file f g s).files e).parent_folder
          ≡ set_at ◌==◌ f g.parent_folder (λ h. (s.files h).parent_folder) e
    parents e = ground arith
