-- ===== src/Relocation/Moves.antt =====
-- `move_file` and `move_folder` of system/entry_relocation.c, on the tree.
use mathlib.Core.Path.{subst}
use virtual_file_system_c.Prelude.{
  ℕ, ◌<◌, ◌≡◌, refl, sym, ap, ◌∙◌, inl, inr, true, none, some, arith,
}
use virtual_file_system_c.Status.{ok, ◌>>=◌, ◌>>◌, lift}
use virtual_file_system_c.Status.After.{After, succeeds, fails, Result-cases, After-bind_outcome}
use virtual_file_system_c.Files.{FolderRef}
use virtual_file_system_c.Folders.{
  VfsEntryStore, folder_at, name_length, get_available_sub_file_position,
  get_available_sub_folder_position,
}
use virtual_file_system_c.Folders.Validate.{validate_sub_entry_name}
use virtual_file_system_c.Folders.Links.{link_file}
use virtual_file_system_c.Folders.Linking.{
  FileCut, FolderCut, Same, unlink_sub_file-FileCut, unlink_sub_folder-FolderCut,
}
use virtual_file_system_c.Relocation.{move_file, move_folder, link_folder, validate_no_cyclic_move}
use virtual_file_system_c.Relocation.Cycles.{validate_no_cyclic_move-apart}
use virtual_file_system_c.Tree.Linked.{same_folder_refl}
use virtual_file_system_c.Tree.Rooted.{Below}
use virtual_file_system_c.Tree.Valid.{
  shape, IsTree, with_sub, with_parent, with_file, with_file_parent,
}
use virtual_file_system_c.Tree.Places.{free_sub_file, free_sub_folder}
use virtual_file_system_c.Tree.Store.{shape-link_file, shape-link_folder}
use virtual_file_system_c.Tree.Grow.{IsTree-parent}
use virtual_file_system_c.Tree.Steps.{Step, relocate_file, relocate_folder}

-- The entry stands in `p` now, and the store has made one move of a tree.
abbrev pub FileMoved : ℕ → FolderRef → VfsEntryStore → VfsEntryStore → Type 0
FileMoved f p s t = ((shape t).file_parent f ≡ some p) × Step (shape s) (shape t)

abbrev pub FolderMoved : FolderRef → FolderRef → VfsEntryStore → VfsEntryStore → Type 0
FolderMoved r p s t = ((shape t).parent r ≡ some p) × Step (shape s) (shape t)

relink_file :
    (f : ℕ) (p : FolderRef) (k : ℕ) (s t : VfsEntryStore)
    → IsTree (shape s)
    → (shape s).live_file f ≡ true
    → (shape s).home p ≡ true
    → k < 10
    → (shape s).files p k ≡ none
    → FileCut f s t
    → FileMoved f p s (link_file f p k t)
relink_file f p k s t tree live h lt empty (q, j, up, few, there, seen) =
    let (q', i, e, home_q, _, _) = tree.files_linked.up f live in
    let same : q' ≡ q = ground (arith, e, up) in
    let after =
      shape-link_file f p k t
      ∙ ap (λ x. with_file_parent f (some p) (with_file p k (some f) x)) seen in
    (
      subst (λ x. x.file_parent f ≡ some p) (sym after) (ground arith),
      subst (Step (shape s)) (sym after)
          (relocate_file f q j p k (ground (arith, same, home_q)) few there h lt empty),
    )

-- Moving a file of a tree that is in use to a folder that is in use never faults. On success the folder
-- is the file's parent, and the store has made one move of a tree, from the file's old place to a
-- place that was empty. On failure nothing is changed.
pub move_file-Step :
    (f : ℕ) (p : FolderRef) (s : VfsEntryStore)
    → IsTree (shape s)
    → (shape s).live_file f ≡ true
    → (shape s).home p ≡ true
    → After (λ u t. FileMoved f p s t) (Same s) (move_file f p s)
unfolding move_file
move_file-Step f p s tree live h =
    elim (Result-cases
      (validate_sub_entry_name s p (s.files f).name (name_length (s.files f).name))) [
        | inr (c, e) ↦ rw (e, move_file, lift, ◌>>=◌, ◌>>◌) (fails refl)
        | inl (u, e) ↦ elim (Result-cases (get_available_sub_file_position (folder_at s p))) [
          | inr (c, full) ↦ rw (e, full, move_file, lift, ◌>>=◌, ◌>>◌) (fails refl)
          | inl (k, at) ↦
              let (lt, empty) = free_sub_file (folder_at s p) k at in
              rw (e, at, move_file, lift, ◌>>=◌, ◌>>◌)
                (After-bind_outcome (λ u t. ok tt (link_file f p k t)) (unlink_sub_file-FileCut f s)
                  (λ u t cut. succeeds (relink_file f p k s t tree live h lt empty cut)))
        ]
      ]

relink_folder :
    (r p : FolderRef) (k : ℕ) (s t : VfsEntryStore)
    → IsTree (shape s)
    → (shape s).home r ≡ true
    → (shape s).home p ≡ true
    → k < 10
    → (shape s).subs p k ≡ none
    → ¬ Below (shape s).subs r p
    → FolderCut r s t
    → FolderMoved r p s (link_folder r p k t)
relink_folder r p k s t tree used h lt empty apart (q, j, up, few, there, seen, _) =
    let (_, home_q, _, _) = IsTree-parent r q tree used up in
    let after =
      shape-link_folder r p k t ∙ ap (λ x. with_parent r (some p) (with_sub p k (some r) x)) seen in
    (
      subst (λ x. x.parent r ≡ some p) (sym after) (ground (arith, same_folder_refl r)),
      subst (Step (shape s)) (sym after)
          (relocate_folder r q j p k home_q few there h lt empty apart),
    )

-- Moving a folder of a tree that is in use to another that is in use never faults. On success the new
-- parent is the folder's parent, and the store has made one move of a tree: to a place that was
-- empty, of a folder that was not inside the one that moved. On failure nothing is changed.
pub move_folder-Step :
    (r p : FolderRef) (s : VfsEntryStore)
    → IsTree (shape s)
    → (shape s).home r ≡ true
    → (shape s).home p ≡ true
    → After (λ u t. FolderMoved r p s t) (Same s) (move_folder r p s)
unfolding move_folder
move_folder-Step r p s tree used h =
    elim (Result-cases
      (validate_sub_entry_name s p (folder_at s r).name (name_length (folder_at s r).name))) [
        | inr (c, e) ↦ rw (e, move_folder, lift, ◌>>=◌, ◌>>◌) (fails refl)
        | inl (u, e) ↦ elim (Result-cases (validate_no_cyclic_move s p 10 r)) [
          | inr (c, cycle) ↦ rw (e, cycle, move_folder, lift, ◌>>=◌, ◌>>◌) (fails refl)
          | inl (v, sound) ↦
              elim (Result-cases (get_available_sub_folder_position (folder_at s p))) [
                | inr (c, full) ↦ rw (e, sound, full, move_folder, lift, ◌>>=◌, ◌>>◌) (fails refl)
                | inl (k, at) ↦
                    let (lt, empty) = free_sub_folder (folder_at s p) k at in
                    let apart = validate_no_cyclic_move-apart s p 10 r sound in
                    rw (e, sound, at, move_folder, lift, ◌>>=◌, ◌>>◌)
                      (After-bind_outcome (λ u t. ok tt (link_folder r p k t))
                        (unlink_sub_folder-FolderCut r true s tree used)
                        (λ u t (cut, _, _).
                          succeeds (relink_folder r p k s t tree used h lt empty apart cut)))
              ]
        ]
      ]
