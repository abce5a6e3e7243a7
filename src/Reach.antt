-- ===== src/Reach.antt =====
-- The entry stores that the operations of the file system make, one after the other, from the one
-- that `vfs_entry_store_init` makes: system/vfs_entry_store.c and system/entry_relocation.c.
use mathlib.Core.Path.{fun_ext, subst}
use virtual_file_system_c.Prelude.{
  ℕ, ◌≡◌, refl, sym, ap, ◌∙◌, inl, inr, true, Option, arith, ◌==◌, Option-cases, Bool-cases,
}
use virtual_file_system_c.Status.{StatusCode, Outcome, ok, fail}
use virtual_file_system_c.Status.After.{After, succeeds, fails, Result-cases, After-mono}
use virtual_file_system_c.Files.{FolderRef}
use virtual_file_system_c.Settings.{max_name_length}
use virtual_file_system_c.Status.Keeps
use virtual_file_system_c.FileStorage.Valid.{IsDisk}
use virtual_file_system_c.Names.{set_entry_name, name_fits}
use virtual_file_system_c.Folders.{VfsEntryStore, folder_at, put_folder}
use virtual_file_system_c.Folders.Validate.{validate_sub_entry_name}
use virtual_file_system_c.Entries.{
  Vfs, vfs_entry_store_init, vfs_sub_file_init, vfs_sub_folder_init, delete_flat_folder,
  delete_vfs_file,
}
use virtual_file_system_c.Relocation.{
  move_file, move_folder, rename_file, rename_folder, rename_sub_folder,
}
use virtual_file_system_c.Relocation.Moves.{move_file-Step, move_folder-Step}
use virtual_file_system_c.Entries.Create.{vfs_sub_file_init-Steps, vfs_sub_folder_init-Step}
use virtual_file_system_c.Entries.Delete.{delete_flat_folder-Step}
use virtual_file_system_c.Entries.Remove.{disk_of, delete_vfs_file-FileRemoved}
use virtual_file_system_c.Entries.Fresh.{vfs_entry_store_init-IsTree}
use virtual_file_system_c.Tree.Linked.{set_at}
use virtual_file_system_c.Tree.Valid.{shape, IsTree}
use virtual_file_system_c.Tree.Files.{IsTree-scratch_file}
use virtual_file_system_c.Tree.Seen.{shape-put_folder, shape-put_file, set_at_self}
use virtual_file_system_c.Tree.Steps.{Step-IsTree, Steps-IsTree}

-- The state that a call leaves, whatever it returns.
pub data Leaves {A : Type 0} : Outcome VfsEntryStore A → VfsEntryStore → Type 0 where
  by_success : {a : A} {t : VfsEntryStore} → Leaves (ok a t) t
  by_failure : {c : StatusCode} {t : VfsEntryStore} → Leaves (fail c t) t

-- Calls on entries that are in use, with any names and any outcome. A file is deleted when its
-- extents are valid for the storage manager.
pub data Reachable : VfsEntryStore → Type 0 where
  init : (s : VfsEntryStore) → Reachable (vfs_entry_store_init s)
  make_file :
      {s t : VfsEntryStore} (name : ℕ → ℕ) (length : ℕ) (p : FolderRef)
      → Reachable s
      → Leaves (vfs_sub_file_init name length p s) t
      → Reachable t
  make_folder :
      {s t : VfsEntryStore} (name : ℕ → ℕ) (length : ℕ) (p : FolderRef)
      → Reachable s
      → Leaves (vfs_sub_folder_init name length p s) t
      → Reachable t
  relocate_file :
      {s t : VfsEntryStore} (f : ℕ) (p : FolderRef)
      → Reachable s
      → (shape s).live_file f ≡ true
      → (shape s).home p ≡ true
      → Leaves (move_file f p s) t
      → Reachable t
  relocate_folder :
      {s t : VfsEntryStore} (r p : FolderRef)
      → Reachable s
      → (shape s).home r ≡ true
      → (shape s).home p ≡ true
      → Leaves (move_folder r p s) t
      → Reachable t
  name_file :
      {s t : VfsEntryStore} (f : ℕ) (name : ℕ → ℕ) (length : ℕ)
      → Reachable s
      → Leaves (rename_file f name length s) t
      → Reachable t
  name_folder :
      {s t : VfsEntryStore} (r : FolderRef) (name : ℕ → ℕ) (length : ℕ)
      → Reachable s
      → Leaves (rename_folder r name length s) t
      → Reachable t
  delete_folder :
      {s t : VfsEntryStore} (r : FolderRef)
      → Reachable s
      → (shape s).home r ≡ true
      → Leaves (delete_flat_folder r s) t
      → Reachable t
  delete_file :
      {v w : Vfs} (f : ℕ)
      → Reachable v.entries
      → (shape v.entries).live_file f ≡ true
      → IsDisk (disk_of f v)
      → delete_vfs_file f v ≡ ok tt w
      → Reachable w.entries

left :
    {A : Type 0} {P : VfsEntryStore → Type 0} {o : Outcome VfsEntryStore A} {t : VfsEntryStore}
    → After (λ a u. P u) (λ c u. P u) o
    → Leaves o t
    → P t
left (succeeds h) by_success = h
left (fails h) by_failure = h

left_from :
    {A : Type 0} (P : VfsEntryStore → Type 0) {o : Outcome VfsEntryStore A} {t : VfsEntryStore}
    → Keeps.Leaves P o
    → Leaves o t
    → P t
left_from P h by_success = h
left_from P h by_failure = h

-- A new name is not seen by the pointers.
pub rename_file-shape :
    (f : ℕ) (name : ℕ → ℕ) (length : ℕ) (s : VfsEntryStore)
    → Keeps.Leaves (λ t. shape t ≡ shape s) (rename_file f name length s)
unfolding rename_file
rename_file-shape f name length s = elim (Option-cases ((s.files f).parent_folder)) [
  | inl e ↦ rw (e, rename_file) refl
  | inr (p, e) ↦ elim (Result-cases (validate_sub_entry_name s p name length)) [
    | inr (c, bad) ↦ rw (e, bad, rename_file) refl
    | inl (u, good) ↦ elim (Bool-cases (name_fits max_name_length name length)) [
      | inr long ↦ rw (e, good, long, rename_file) tt
      | inl fits ↦
          rw (e, good, fits, rename_file)
            (shape-put_file f
                (record (s.files f) { name = set_entry_name name length (s.files f).name }) s
              ∙ λ i. record (shape s) {
                file_parent = file_self (λ g. (s.files g).parent_folder) f i;
              })
    ]
  ]
]
  where
    file_self : (m : ℕ → Option FolderRef) (g : ℕ) → set_at ◌==◌ g (m g) m ≡ m
    file_self m g = fun_ext λ h. ground arith

pub rename_folder-shape :
    (r : FolderRef) (name : ℕ → ℕ) (length : ℕ) (s : VfsEntryStore)
    → After (λ u t. shape t ≡ shape s) (λ c t. shape t ≡ shape s) (rename_folder r name length s)
unfolding rename_folder rename_sub_folder
rename_folder-shape r name length s = elim (Bool-cases (folder_at s r).is_root) [
  | inl top ↦ rw (top, rename_folder) (fails refl)
  | inr other ↦ elim (Option-cases ((folder_at s r).parent_folder)) [
    | inl e ↦ rw (other, e, rename_folder, rename_sub_folder) (fails refl)
    | inr (p, e) ↦ elim (Result-cases (validate_sub_entry_name s p name length)) [
      | inr (c, bad) ↦ rw (other, e, bad, rename_folder, rename_sub_folder) (fails refl)
      | inl (u, good) ↦
          let f = record (folder_at s r) {
            name = set_entry_name name length (folder_at s r).name;
          } in
          rw (other, e, good, rename_folder, rename_sub_folder)
            (succeeds {t = put_folder r f s} (
              shape-put_folder r f s ∙ λ i. record (shape s) {
                parent = set_at_self (λ q. (folder_at s q).parent_folder) r i;
                subs = set_at_self (λ q. (folder_at s q).sub_folders) r i;
                files = set_at_self (λ q. (folder_at s q).sub_files) r i;
                is_root = set_at_self (λ q. (folder_at s q).is_root) r i;
              }))
    ]
  ]
]

keeps :
    {A : Type 0} {good : A → VfsEntryStore → Type 0} {bad : StatusCode → VfsEntryStore → Type 0}
    → {o : Outcome VfsEntryStore A} {t : VfsEntryStore} → After good bad o
    → ((a : A) (u : VfsEntryStore) → good a u → IsTree (shape u))
    → ((c : StatusCode) (u : VfsEntryStore) → bad c u → IsTree (shape u))
    → Leaves o t
    → IsTree (shape t)
keeps h f g l = left {P = λ u. IsTree (shape u)} (After-mono h f g) l

pub Reachable-IsTree : (s : VfsEntryStore) → Reachable s → IsTree (shape s)
Reachable-IsTree s (init u) = let (t, _, _, _) = vfs_entry_store_init-IsTree u in t
Reachable-IsTree t (make_file {s} name length p r l) =
    let tree = Reachable-IsTree s r in
    keeps (vfs_sub_file_init-Steps name length p s)
      (λ i u (_, _, _, steps). Steps-IsTree steps tree)
      (λ c u h. elim h [
        | inl same ↦ subst (λ v. IsTree (shape v)) (sym same) tree
        | inr (i, f, free, same) ↦
            subst IsTree (sym (ap shape same ∙ shape-put_file i f s))
              (IsTree-scratch_file i f.parent_folder tree free)
      ])
      l
Reachable-IsTree t (make_folder {s} name length p r l) =
    let tree = Reachable-IsTree s r in
    keeps (vfs_sub_folder_init-Step name length p s) (λ i u (_, _, _, step). Step-IsTree step tree)
      (λ c u same. subst (λ v. IsTree (shape v)) (sym same) tree) l
Reachable-IsTree t (relocate_file {s} f p r a b l) =
    let tree = Reachable-IsTree s r in
    keeps (move_file-Step f p s tree a b) (λ i u (_, step). Step-IsTree step tree)
      (λ c u same. subst (λ v. IsTree (shape v)) (sym same) tree) l
Reachable-IsTree t (relocate_folder {s} q p r a b l) =
    let tree = Reachable-IsTree s r in
    keeps (move_folder-Step q p s tree a b) (λ i u (_, step). Step-IsTree step tree)
      (λ c u same. subst (λ v. IsTree (shape v)) (sym same) tree) l
Reachable-IsTree t (name_file {s} f name length r l) =
    let tree = Reachable-IsTree s r in
    subst IsTree (sym (left_from (λ u. shape u ≡ shape s) (rename_file-shape f name length s) l))
      tree
Reachable-IsTree t (name_folder {s} q name length r l) =
    let tree = Reachable-IsTree s r in
    keeps (rename_folder-shape q name length s) (λ i u e. subst IsTree (sym e) tree)
      (λ c u e. subst IsTree (sym e) tree) l
Reachable-IsTree t (delete_folder {s} q r a l) =
    let tree = Reachable-IsTree s r in
    keeps (delete_flat_folder-Step q s tree a) (λ i u gone. Step-IsTree gone.step tree)
      (λ c u same. subst (λ v. IsTree (shape v)) (sym same) tree) l
Reachable-IsTree t (delete_file {v} {w} f r a d e) =
    let tree = Reachable-IsTree v.entries r in
    let (w', e', gone) = delete_vfs_file-FileRemoved f v tree a d in
    let same : w' ≡ w = cc in
    subst (λ x. IsTree (shape x.entries)) same (Step-IsTree gone.step tree)
