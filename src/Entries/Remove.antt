-- ===== src/Entries/Remove.antt =====
-- `delete_vfs_file` of system/vfs_entry_store.c: the file leaves the tree and gives back its chunks.
use mathlib.Core.Path.{fun_ext, subst}
use virtual_file_system_c.Prelude.{
  ℕ, ◌<◌, ◌≡◌, refl, sym, ap, ◌∙◌, true, false, none, some, arith, leb, ◌==◌,
}
use virtual_file_system_c.Settings.{vfs_max_files_amount}
use virtual_file_system_c.Status.{ok, ◌>>=◌, ◌>>◌, lift, pure, done}
use virtual_file_system_c.Files.{File, FolderRef}
use virtual_file_system_c.FileStorage.{Disk}
use virtual_file_system_c.FileStorage.Valid.{IsDisk}
use virtual_file_system_c.FileLogic.Delete.{file_delete_data}
use virtual_file_system_c.FileLogic.Delete.Clear.{Cleared, file_delete_data-Cleared}
use virtual_file_system_c.Folders.{VfsEntryStore, folder_at, put_file, find_sub_file_index}
use virtual_file_system_c.Folders.Links.{unlink_sub_file, cut_file}
use virtual_file_system_c.Entries.{
  Vfs, on_entries, on_file, validate_vfs_folder, mark_file, delete_vfs_file,
}
use virtual_file_system_c.Tree.Valid.{shape, IsTree, with_file, with_file_parent, with_live_file}
use virtual_file_system_c.Tree.Linked.{set_at, set_sub}
use virtual_file_system_c.Tree.Places.{establish, find_sub_file, found_sub_file}
use virtual_file_system_c.Tree.Seen.{shape-put_file}
use virtual_file_system_c.Tree.Store.{shape-cut_file}
use virtual_file_system_c.Tree.Marks.{shape-mark_file}
use virtual_file_system_c.Tree.Steps.{Step, remove_file}

-- A file of the store and the storage manager.
abbrev pub disk_of : ℕ → Vfs → Disk
disk_of f v = record { file = v.entries.files f; man = v.man }

-- The same without its parent.
abbrev pub cut_disk : ℕ → Vfs → Disk
cut_disk f v = record { file = record (v.entries.files f) { parent_folder = none }; man = v.man }

IsDisk-cut : (f : ℕ) (v : Vfs) → IsDisk (disk_of f v) → IsDisk (cut_disk f v)
IsDisk-cut f v d = record {
  man_valid = d.man_valid;
  slots = d.slots;
  compact = d.compact;
  sized = d.sized;
  distinct = d.distinct;
  taken = d.taken;
  in_range = d.in_range;
  small = d.small;
}

same_file : (f : ℕ) (g : File) (s : VfsEntryStore) → g ≡ (put_file f g s).files f
same_file f g s = ground arith

-- What deleting the file `f` does: it is free, the store has made one move of a tree, its chunks are
-- given back, no folder holds a file that it did not hold, and the other files are as before.
pub record FileRemoved (f : ℕ) (v w : Vfs) : Type 0 where
  pub free : (shape w.entries).live_file f ≡ false
  pub step : Step (shape v.entries) (shape w.entries)
  pub lives : (shape w.entries).live_file ≡ set_at ◌==◌ f false (shape v.entries).live_file
  pub homes : (shape w.entries).home ≡ (shape v.entries).home
  pub subs : (shape w.entries).subs ≡ (shape v.entries).subs
  pub cleared : Cleared (cut_disk f v) (disk_of f w)
  pub shrinks :
      (q : FolderRef) (k g : ℕ)
      → (shape w.entries).files q k ≡ some g
      → (shape v.entries).files q k ≡ some g
  pub others : (g : ℕ) → (f == g) ≡ false → w.entries.files g ≡ v.entries.files g

unlink_run :
    (f : ℕ) (p : FolderRef) (i : ℕ) (s : VfsEntryStore)
    → (s.files f).parent_folder ≡ some p
    → find_sub_file_index (folder_at s p) f ≡ done i
    → unlink_sub_file f s ≡ ok tt (cut_file f p i s)
unfolding unlink_sub_file
unlink_run f p i s up at = rw (up, at, unlink_sub_file) refl

-- The run of `delete_vfs_file` on a file that stands at `i` in `p`.
delete_run :
    (f : ℕ) (p : FolderRef) (i : ℕ) (v : Vfs) (d : Disk)
    → (v.entries.files f).parent_folder ≡ some p
    → validate_vfs_folder (some p) v.entries ≡ done tt
    → leb vfs_max_files_amount f ≡ false
    → unlink_sub_file f v.entries ≡ ok tt (cut_file f p i v.entries)
    → file_delete_data (disk_of f (record v { entries = cut_file f p i v.entries })) ≡ ok tt d
    → delete_vfs_file f v
      ≡ ok tt (record {
        entries = mark_file f false (put_file f d.file (cut_file f p i v.entries));
        man = d.man;
      })
unfolding delete_vfs_file on_entries on_file cut_file
delete_run f p i v d up valid small cut gone =
    rw (up, valid, small, cut, gone, delete_vfs_file, on_entries, on_file, lift, ◌>>=◌, ◌>>◌, pure)
      refl

left_shape :
    (f : ℕ) (p : FolderRef) (i : ℕ) (v : Vfs) (g : File)
    → f < vfs_max_files_amount
    → g.parent_folder ≡ none
    → shape (mark_file f false (put_file f g (cut_file f p i v.entries)))
      ≡ with_live_file f false (with_file_parent f none (with_file p i none (shape v.entries)))
left_shape f p i v g small bare =
    let x = shape v.entries in
    shape-mark_file f false (put_file f g (cut_file f p i v.entries)) small
    ∙ ap (λ y. with_live_file f false y)
        (shape-put_file f g (cut_file f p i v.entries)
          ∙ ap (λ y. with_file_parent f g.parent_folder y) (shape-cut_file f p i v.entries)
          ∙ ap (λ o. with_file_parent f o (with_file_parent f none (with_file p i none x))) bare
          ∙ again)
  where
    again :
        with_file_parent f none (with_file_parent f none (with_file p i none (shape v.entries)))
        ≡ with_file_parent f none (with_file p i none (shape v.entries))
    again = λ j. record (with_file p i none (shape v.entries)) { file_parent = fun_ext twice j }
      where
        twice :
            (g : ℕ)
            → set_at ◌==◌ f none (set_at ◌==◌ f none (shape v.entries).file_parent) g
              ≡ set_at ◌==◌ f none (shape v.entries).file_parent g
        twice g = ground arith

cut_there :
    (f : ℕ) (p : FolderRef) (i : ℕ) (v : Vfs)
    → disk_of f (record v { entries = cut_file f p i v.entries }) ≡ cut_disk f v
unfolding cut_file
cut_there f p i v = λ j. record {
  file = sym (same_file f (record (v.entries.files f) { parent_folder = none }) v.entries) j;
  man = v.man;
}

other_file :
    (f : ℕ) (p : FolderRef) (i : ℕ) (g : File) (s : VfsEntryStore) (h : ℕ)
    → (f == h) ≡ false
    → (mark_file f false (put_file f g (cut_file f p i s))).files h ≡ s.files h
unfolding cut_file
other_file f p i g s h e = ground (arith, e)

cut_less :
    (p : FolderRef) (i : ℕ) (q : FolderRef) (k g : ℕ) (v : Vfs)
    → set_sub p i none (shape v.entries).files q k ≡ some g
    → (shape v.entries).files q k ≡ some g
cut_less p i q k g v e = ground (arith, e)

-- Deleting a file of a tree that is in use, and whose extents are valid for the storage manager,
-- succeeds. The file is free then, the store has made one move of a tree, exactly the file's chunks
-- are free besides those that were, and no other file is changed.
pub delete_vfs_file-FileRemoved :
    (f : ℕ) (v : Vfs)
    → IsTree (shape v.entries)
    → (shape v.entries).live_file f ≡ true
    → IsDisk (disk_of f v)
    → (w : Vfs) × (delete_vfs_file f v ≡ ok tt w) × FileRemoved f v w
delete_vfs_file-FileRemoved f v tree used d =
    let (p, k, up, h, lt, there) = tree.files_linked.up f used in
    let (i, at) = find_sub_file (folder_at v.entries p) f k lt there in
    let (few, found) = found_sub_file (folder_at v.entries p) f i at in
    let (e, gone, c) = file_delete_data-Cleared (IsDisk-cut f v d) in
    let seen = left_shape f p i v e.file (ground (arith, used)) c.parent in
    let s = put_file f e.file (cut_file f p i v.entries) in
    (
      record { entries = mark_file f false s; man = e.man },
      delete_run f p i v e up (establish p v.entries h) (ground arith)
          (unlink_run f p i v.entries up at) (ap file_delete_data (cut_there f p i v) ∙ gone),
      record {
        free = ground (arith, used);
        step = subst (Step (shape v.entries)) (sym seen) (remove_file f p i h few found);
        lives = ap (λ y. y.live_file) seen;
        homes = ap (λ y. y.home) seen;
        subs = ap (λ y. y.subs) seen;
        cleared =
            subst (Cleared (cut_disk f v))
              (λ j. record { file = same_file f e.file (cut_file f p i v.entries) j; man = e.man })
              c;
        shrinks = λ q k g e'. cut_less p i q k g v (sym (ap (λ y. y.files q k) seen) ∙ e');
        others = λ g other. other_file f p i e.file v.entries g other;
      },
    )
