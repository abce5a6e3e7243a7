-- ===== src/Folders/Linking.antt =====
-- `sub_file_init`, `sub_folder_init`, `unlink_sub_file` and `unlink_sub_folder` of system/folders.c:
-- what each leaves of the tree, whatever it returns.
use virtual_file_system_c.Prelude.{
  ℕ, ◌<◌, ◌≡◌, refl, inl, inr, Bool, true, false, ◌&&◌, not, none, some, arith, Bool-cases,
  Option-cases,
}
use virtual_file_system_c.Status.{StatusCode, ◌>>=◌, ◌>>◌, lift}
use virtual_file_system_c.Status.After.{After, succeeds, fails, Result-cases, After-mono}
use virtual_file_system_c.Files.{FolderRef, root, slot}
use virtual_file_system_c.Folders.{
  VfsEntryStore, folder_at, same_folder, get_available_sub_file_position,
  get_available_sub_folder_position, find_sub_file_index, find_sub_folder_index, has_sub_entries,
  name_length,
}
use virtual_file_system_c.Folders.Validate.{validate_sub_entry_name}
use virtual_file_system_c.Folders.Links.{
  sub_file_init, sub_folder_init, unlink_sub_file, unlink_sub_folder, unlink_from_parent, link_file,
  link_new_folder,
}
use virtual_file_system_c.Tree.Valid.{
  shape, IsTree, with_sub, with_parent, with_file, with_file_parent, with_bare,
}
use virtual_file_system_c.Tree.Places.{
  free_sub_file, free_sub_folder, found_sub_file, found_sub_folder,
}
use virtual_file_system_c.Tree.Store.{
  shape-link_file, shape-link_new_folder, shape-cut_file, shape-cut_folder,
}

-- A call that fails and has changed nothing.
abbrev pub Same : VfsEntryStore → StatusCode → VfsEntryStore → Type 0
Same s c t = t ≡ s

-- A free place of the folder `p` among its files, or its sub folders, and what is in it.
abbrev pub FileLinked : ℕ → FolderRef → VfsEntryStore → VfsEntryStore → Type 0
FileLinked f p s t =
    (k : ℕ) × (k < 10)
    × ((shape s).files p k ≡ none)
    × (shape t ≡ with_file_parent f (some p) (with_file p k (some f) (shape s)))

abbrev pub FolderMade : FolderRef → FolderRef → VfsEntryStore → VfsEntryStore → Type 0
FolderMade r p s t =
    (k : ℕ) × (k < 10)
    × ((shape s).subs p k ≡ none)
    × (shape t ≡ with_sub p k (some r) (with_bare r (some p) (shape s)))

-- The place that an entry had at its parent, now empty.
abbrev pub FileCut : ℕ → VfsEntryStore → VfsEntryStore → Type 0
FileCut f s t =
    (p : FolderRef) × (k : ℕ) × ((shape s).file_parent f ≡ some p)
    × (k < 10)
    × ((shape s).files p k ≡ some f)
    × (shape t ≡ with_file_parent f none (with_file p k none (shape s)))

abbrev pub FolderCut : FolderRef → VfsEntryStore → VfsEntryStore → Type 0
FolderCut r s t =
    (p : FolderRef) × (k : ℕ) × ((shape s).parent r ≡ some p)
    × (k < 10)
    × ((shape s).subs p k ≡ some r)
    × (shape t ≡ with_parent r none (with_sub p k none (shape s)))
    × (t.files ≡ s.files)

pub sub_file_init-FileLinked :
    (f : ℕ) (p : FolderRef) (s : VfsEntryStore)
    → After (λ u t. FileLinked f p s t) (Same s) (sub_file_init f p s)
unfolding sub_file_init
sub_file_init-FileLinked f p s =
    let valid = validate_sub_entry_name s p (s.files f).name (name_length (s.files f).name) in
    elim (Result-cases valid) [
      | inr (c, e) ↦ rw (e, sub_file_init, lift, ◌>>=◌, ◌>>◌) (fails refl)
      | inl (u, e) ↦ elim (Result-cases (get_available_sub_file_position (folder_at s p))) [
        | inr (c, no_place) ↦ rw (e, no_place, sub_file_init, lift, ◌>>=◌, ◌>>◌) (fails refl)
        | inl (i, at) ↦
            let (lt, empty) = free_sub_file (folder_at s p) i at in
            rw (e, at, sub_file_init, lift, ◌>>=◌, ◌>>◌)
              (succeeds {t = link_file f p i s} (i, lt, empty, shape-link_file f p i s))
      ]
    ]

pub sub_folder_init-FolderMade :
    (r : FolderRef) (name : ℕ → ℕ) (length : ℕ) (p : FolderRef) (s : VfsEntryStore)
    → After (λ u t. FolderMade r p s t) (Same s) (sub_folder_init r name length p s)
unfolding sub_folder_init
sub_folder_init-FolderMade r name length p s =
    elim (Result-cases (validate_sub_entry_name s p name length)) [
      | inr (c, e) ↦ rw (e, sub_folder_init, lift, ◌>>=◌, ◌>>◌) (fails refl)
      | inl (u, e) ↦ elim (Result-cases (get_available_sub_folder_position (folder_at s p))) [
        | inr (c, no_place) ↦ rw (e, no_place, sub_folder_init, lift, ◌>>=◌, ◌>>◌) (fails refl)
        | inl (i, at) ↦
            let (lt, empty) = free_sub_folder (folder_at s p) i at in
            rw (e, at, sub_folder_init, lift, ◌>>=◌, ◌>>◌)
              (succeeds {t = link_new_folder r name length p i s}
                (i, lt, empty, shape-link_new_folder r name length p i s))
      ]
    ]

pub unlink_sub_file-FileCut :
    (f : ℕ) (s : VfsEntryStore) → After (λ u t. FileCut f s t) (Same s) (unlink_sub_file f s)
unfolding unlink_sub_file
unlink_sub_file-FileCut f s = elim (Option-cases ((s.files f).parent_folder)) [
  | inl e ↦ rw (e, unlink_sub_file) (fails refl)
  | inr (p, e) ↦ elim (Result-cases (find_sub_file_index (folder_at s p) f)) [
    | inr (c, no_index) ↦ rw (e, no_index, unlink_sub_file) (fails refl)
    | inl (i, at) ↦
        let (lt, there) = found_sub_file (folder_at s p) f i at in
        rw (e, at, unlink_sub_file) (succeeds (p, i, refl, lt, there, shape-cut_file f p i s))
  ]
]

pub unlink_from_parent-FolderCut :
    (r p : FolderRef) (s : VfsEntryStore)
    → (shape s).parent r ≡ some p
    → After (λ u t. FolderCut r s t) (Same s) (unlink_from_parent r s)
unfolding unlink_from_parent
unlink_from_parent-FolderCut r p s e =
    elim (Result-cases (find_sub_folder_index (folder_at s p) r)) [
      | inr (c, no_index) ↦ rw (e, no_index, unlink_from_parent) (fails refl)
      | inl (i, at) ↦
          let (lt, there) = found_sub_folder (folder_at s p) r i at in
          rw (e, at, unlink_from_parent)
            (succeeds (p, i, refl, lt, there, shape-cut_folder r p i s, refl))
    ]

-- Behind the tests of `unlink_sub_folder`: the folder is not the root, and without `force` it has no
-- entries.
pub unlink_sub_folder-FolderCut :
    (r : FolderRef) (force : Bool) (s : VfsEntryStore)
    → IsTree (shape s)
    → (shape s).home r ≡ true
    → After
        (λ u t.
          FolderCut r s t
          × (same_folder root r ≡ false)
          × (force ≡ false → has_sub_entries (folder_at s r) ≡ false))
        (Same s)
        (unlink_sub_folder r force s)
unfolding unlink_sub_folder
unlink_sub_folder-FolderCut root force s t h = rw (t.flagged root h, unlink_sub_folder) (fails refl)
unlink_sub_folder-FolderCut (slot j) force s t h =
    let flag = t.flagged (slot j) h in
    let (p, k, a, b, c, d) = t.folders_linked.up (slot j) (ground (arith, t.proper (slot j), h)) in
    elim (Bool-cases (has_sub_entries (folder_at s (slot j)) && not force)) [
      | inl blocked ↦ rw (flag, blocked, unlink_sub_folder) (fails refl)
      | inr free ↦
          rw (flag, free, unlink_sub_folder)
            (After-mono (unlink_from_parent-FolderCut (slot j) p s a)
              (λ u t cut. (cut, refl, λ e. ground (arith, free, e))) (λ c t e. e))
    ]
