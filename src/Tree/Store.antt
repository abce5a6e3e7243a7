-- ===== src/Tree/Store.antt =====
-- The assignments that link and unlink an entry, one after the other, as they are seen.
use virtual_file_system_c.Prelude.{ℕ, ◌≡◌, ap, ◌∙◌, false, Option, none, some}
use virtual_file_system_c.Files.{FolderRef}
use virtual_file_system_c.Names.{set_entry_name}
use virtual_file_system_c.Folders.{
  Folder, VfsEntryStore, folder_at, put_folder, folder_free_sub_entries,
}
use virtual_file_system_c.Folders.Links.{
  set_sub_file, set_sub_folder, set_file_parent, link_file, link_new_folder, cut_file, cut_folder,
}
use virtual_file_system_c.Relocation.{link_folder}
use virtual_file_system_c.Tree.Valid.{
  shape, with_sub, with_parent, with_file, with_file_parent, with_bare,
}
use virtual_file_system_c.Tree.Seen.{
  shape-put_folder, shape-put_file, shape-set_sub_file, shape-set_sub_folder, shape-set_parent,
}

shape-set_file_parent :
    (f : ℕ) (x : Option FolderRef) (s : VfsEntryStore)
    → shape (set_file_parent f x s) ≡ with_file_parent f x (shape s)
shape-set_file_parent f x s = shape-put_file f (record (s.files f) { parent_folder = x }) s

pub shape-link_file :
    (f : ℕ) (p : FolderRef) (i : ℕ) (s : VfsEntryStore)
    → shape (link_file f p i s) ≡ with_file_parent f (some p) (with_file p i (some f) (shape s))
unfolding link_file
shape-link_file f p i s =
    shape-set_file_parent f (some p) (set_sub_file p i (some f) s)
    ∙ ap (with_file_parent f (some p)) (shape-set_sub_file p i (some f) s)

pub shape-cut_file :
    (f : ℕ) (p : FolderRef) (i : ℕ) (s : VfsEntryStore)
    → shape (cut_file f p i s) ≡ with_file_parent f none (with_file p i none (shape s))
unfolding cut_file
shape-cut_file f p i s =
    shape-set_file_parent f none (set_sub_file p i none s)
    ∙ ap (with_file_parent f none) (shape-set_sub_file p i none s)

pub shape-link_folder :
    (r p : FolderRef) (i : ℕ) (s : VfsEntryStore)
    → shape (link_folder r p i s) ≡ with_parent r (some p) (with_sub p i (some r) (shape s))
unfolding link_folder
shape-link_folder r p i s =
    shape-set_parent r (some p) (set_sub_folder p i (some r) s)
    ∙ ap (with_parent r (some p)) (shape-set_sub_folder p i (some r) s)

pub shape-cut_folder :
    (r p : FolderRef) (i : ℕ) (s : VfsEntryStore)
    → shape (cut_folder r p i s) ≡ with_parent r none (with_sub p i none (shape s))
unfolding cut_folder
shape-cut_folder r p i s =
    shape-set_parent r none (set_sub_folder p i none s)
    ∙ ap (with_parent r none) (shape-set_sub_folder p i none s)

pub shape-link_new_folder :
    (r : FolderRef) (name : ℕ → ℕ) (length : ℕ) (p : FolderRef) (i : ℕ) (s : VfsEntryStore)
    → shape (link_new_folder r name length p i s)
      ≡ with_sub p i (some r) (with_bare r (some p) (shape s))
unfolding link_new_folder folder_free_sub_entries
shape-link_new_folder r name length p i s =
    let f : Folder = record (folder_free_sub_entries (folder_at s r)) {
      name = set_entry_name name length (folder_at s r).name;
      is_root = false;
      parent_folder = some p;
    } in
    shape-set_sub_folder p i (some r) (put_folder r f s)
    ∙ ap (with_sub p i (some r)) (shape-put_folder r f s)
