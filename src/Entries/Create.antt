-- ===== src/Entries/Create.antt =====
-- New entries: `vfs_sub_file_init` and `vfs_sub_folder_init` of system/vfs_entry_store.c.
use mathlib.Core.Path.{subst}
use virtual_file_system_c.Prelude.{
  ℕ, ◌<◌, ◌≡◌, refl, sym, ap, ◌∙◌, ◌⊎◌, inl, inr, true, false, none, some, arith,
}
use virtual_file_system_c.Settings.{vfs_max_files_amount, vfs_max_folders_amount}
use virtual_file_system_c.Status.{StatusCode, ok, ◌>>=◌, ◌>>◌, lift, done}
use virtual_file_system_c.Status.After.{
  After, succeeds, fails, Result-cases, After-bind_outcome, After-mono,
}
use virtual_file_system_c.Files.{File, FolderRef, slot, file_init}
use virtual_file_system_c.Folders.{VfsEntryStore, put_file}
use virtual_file_system_c.Folders.Linking.{
  FileLinked, FolderMade, Same, sub_file_init-FileLinked, sub_folder_init-FolderMade,
}
use virtual_file_system_c.Entries.{
  validate_vfs_folder, get_available_file_position, get_available_folder_position, init_file_at,
  mark_file, mark_folder, vfs_sub_file_init, vfs_sub_folder_init,
}
use virtual_file_system_c.Tree.Valid.{
  shape, with_file, with_file_parent, with_live_file, with_live_folder,
}
use virtual_file_system_c.Tree.Places.{established, free_file, free_folder}
use virtual_file_system_c.Tree.Seen.{shape-put_file}
use virtual_file_system_c.Tree.Marks.{shape-mark_file, shape-mark_folder}
use virtual_file_system_c.Tree.Steps.{Step, Steps, stay, go, add_file, add_folder, scratch_file}

file_init-parent :
    (f g : File) (name : ℕ → ℕ) (length : ℕ)
    → file_init f name length ≡ done g
    → g.parent_folder ≡ none
unfolding file_init
file_init-parent f g name length e = ground arith

-- The file `i` was free and is in use now, in the folder `p`.
abbrev pub FileAdded : FolderRef → VfsEntryStore → ℕ → VfsEntryStore → Type 0
FileAdded p s i t =
    ((shape s).live_file i ≡ false)
    × ((shape t).live_file i ≡ true)
    × ((shape t).file_parent i ≡ some p)
    × Steps (shape s) (shape t)

-- Linking the file that `file_init` has set up.
link_set_up :
    (i : ℕ) (f : File) (p : FolderRef) (s t : VfsEntryStore)
    → i < vfs_max_files_amount
    → (shape s).live_file i ≡ false
    → (shape s).home p ≡ true
    → f.parent_folder ≡ none
    → FileLinked i p (put_file i f s) t
    → FileAdded p s i (mark_file i true t)
link_set_up i f p s t lt free h bare (k, few, empty, seen) =
    let before = shape-put_file i f s in
    let after =
      shape-mark_file i true t lt
      ∙ ap (λ x. with_live_file i true x)
          (seen ∙ ap (λ x. with_file_parent i (some p) (with_file p k (some i) x)) before) in
    (
      free,
      subst (λ x. x.live_file i ≡ true) (sym after) (ground arith),
      subst (λ x. x.file_parent i ≡ some p) (sym after) (ground arith),
      subst (Steps (shape s)) (sym after)
          (go (scratch_file i f.parent_folder free) (go (add_file i p k free h few empty) stay)),
    )

-- A call of `vfs_sub_file_init` that fails has written to a file that is not in use, at most.
abbrev pub Scratched : VfsEntryStore → StatusCode → VfsEntryStore → Type 0
Scratched s c t =
    (t ≡ s) ⊎ ((i : ℕ) × (f : File) × ((shape s).live_file i ≡ false) × (t ≡ put_file i f s))

-- Making a file never faults, whatever the store holds. On success the file that is returned was free,
-- is in use now and has the given folder as its parent, and the store has made moves of a tree. On
-- failure nothing is changed, or one file that is not in use has been written to.
pub vfs_sub_file_init-Steps :
    (name : ℕ → ℕ) (length : ℕ) (p : FolderRef) (s : VfsEntryStore)
    → After (FileAdded p s) (Scratched s) (vfs_sub_file_init name length p s)
unfolding vfs_sub_file_init init_file_at
vfs_sub_file_init-Steps name length p s = elim (Result-cases (validate_vfs_folder (some p) s)) [
  | inr (c, e) ↦ rw (e, vfs_sub_file_init, lift, ◌>>=◌, ◌>>◌) (fails (inl refl))
  | inl (u, e) ↦ elim (Result-cases (get_available_file_position s)) [
    | inr (c, full) ↦ rw (e, full, vfs_sub_file_init, lift, ◌>>=◌, ◌>>◌) (fails (inl refl))
    | inl (i, at) ↦ elim (Result-cases (file_init (s.files i) name length)) [
      | inr (c, bad) ↦
          rw (e, at, bad, vfs_sub_file_init, lift, ◌>>=◌, ◌>>◌, init_file_at) (fails (inl refl))
      | inl (f, good) ↦
          let (lt, free) = free_file s i at in
          rw (e, at, good, vfs_sub_file_init, lift, ◌>>=◌, ◌>>◌, init_file_at)
            (After-bind_outcome (λ u t. ok i (mark_file i true t))
              (After-mono (sub_file_init-FileLinked i p (put_file i f s))
                (λ u t linked.
                  link_set_up i f p s t lt free (established p s e)
                    (file_init-parent (s.files i) f name length good) linked)
                (λ c t same. inr (i, f, free, same)))
              (λ u t added. succeeds added))
    ]
  ]
]

-- The folder `r` was free and is in use now, in the folder `p`.
abbrev pub FolderAdded : FolderRef → VfsEntryStore → FolderRef → VfsEntryStore → Type 0
FolderAdded p s r t =
    ((shape s).home r ≡ false)
    × ((shape t).home r ≡ true)
    × ((shape t).parent r ≡ some p)
    × Step (shape s) (shape t)

link_new :
    (j : ℕ) (p : FolderRef) (s t : VfsEntryStore)
    → j < vfs_max_folders_amount
    → (shape s).live_folder (slot j) ≡ false
    → (shape s).home p ≡ true
    → FolderMade (slot j) p s t
    → FolderAdded p s (slot j) (mark_folder j true t)
link_new j p s t lt free h (k, few, empty, seen) =
    let after = shape-mark_folder j true t lt ∙ ap (λ x. with_live_folder (slot j) true x) seen in
    (
      free,
      subst (λ x. x.home (slot j) ≡ true) (sym after) (ground arith),
      subst (λ x. x.parent (slot j) ≡ some p) (sym after) (ground arith),
      subst (Step (shape s)) (sym after) (add_folder j p k free h few empty),
    )

-- Making a folder never faults, whatever the store holds. On success the folder that is returned was
-- free, is in use now and has the given folder as its parent, and the store has made one move of a
-- tree. On failure nothing is changed.
pub vfs_sub_folder_init-Step :
    (name : ℕ → ℕ) (length : ℕ) (p : FolderRef) (s : VfsEntryStore)
    → After (FolderAdded p s) (Same s) (vfs_sub_folder_init name length p s)
unfolding vfs_sub_folder_init
vfs_sub_folder_init-Step name length p s = elim (Result-cases (validate_vfs_folder (some p) s)) [
  | inr (c, e) ↦ rw (e, vfs_sub_folder_init, lift, ◌>>=◌, ◌>>◌) (fails refl)
  | inl (u, e) ↦ elim (Result-cases (get_available_folder_position s)) [
    | inr (c, full) ↦ rw (e, full, vfs_sub_folder_init, lift, ◌>>=◌, ◌>>◌) (fails refl)
    | inl (j, at) ↦
        let (lt, free) = free_folder s j at in
        rw (e, at, vfs_sub_folder_init, lift, ◌>>=◌, ◌>>◌)
          (After-bind_outcome (λ u t. ok (slot j) (mark_folder j true t))
            (sub_folder_init-FolderMade (slot j) name length p s)
            (λ u t made. succeeds (link_new j p s t lt free (established p s e) made)))
  ]
]
