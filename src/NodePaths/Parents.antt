-- ===== src/NodePaths/Parents.antt =====
-- `get_parent_folders` of system/path_utils.c on a tree.
use virtual_file_system_c.Prelude.{
  ℕ, zero, suc, ◌+◌, ◌≡◌, refl, ◌∙◌, true, false, Option, some, List, [], ◌∷◌, arith, ltb, ◌==◌,
  if◌then◌else◌, length, Bool-cases, inl, inr,
}
use virtual_file_system_c.Status.{ok, fault}
use virtual_file_system_c.Files.{FolderRef, root, slot}
use virtual_file_system_c.Folders.{VfsEntryStore, folder_node}
use virtual_file_system_c.NodePaths.{parent_folders_loop, parents_from, get_parent_folders}
use virtual_file_system_c.Tree.Valid.{shape, IsTree}
use virtual_file_system_c.Tree.Grow.{IsTree-parent}

-- The folders above a folder, from the closest on and without the root.
pub data Chain (parent : FolderRef → Option FolderRef) : FolderRef → List FolderRef → Type 0 where
  top : {r : FolderRef} → parent r ≡ some root → Chain parent r []
  above :
      {r : FolderRef} {ps : List FolderRef} (i : ℕ)
      → parent r ≡ some (slot i)
      → Chain parent (slot i) ps
      → Chain parent r (slot i ∷ ps)

-- The search ends at a folder that says that it is the root.
loop_ends :
    (k i : ℕ) (r p : FolderRef) (s : VfsEntryStore)
    → (shape s).parent r ≡ some p
    → (shape s).is_root p ≡ true
    → parent_folders_loop (suc k) i r s ≡ ok [] s
unfolding parent_folders_loop
loop_ends k i r p s up flag = rw (up, flag, parent_folders_loop) refl

from_ends :
    (o : Option FolderRef) (p : FolderRef) (s : VfsEntryStore)
    → o ≡ some p
    → (shape s).is_root p ≡ true
    → parents_from o s ≡ ok [] s
unfolding parents_from
from_ends o p s up flag = rw (up, flag, parents_from) refl

parent_folders_loop-Chain :
    (k i : ℕ) (r : FolderRef) (ps : List FolderRef) (s : VfsEntryStore)
    → IsTree (shape s)
    → (shape s).home r ≡ true
    → i + k ≡ 9
    → Chain (shape s).parent r ps
    → parent_folders_loop (suc k) i r s ≡ (if ltb k (length ps) then fault else ok ps s)
unfolding parent_folders_loop
parent_folders_loop-Chain k i r [] s t h e (top up) =
    loop_ends k i r root s up (t.flagged root t.top_home) ∙ ground arith
parent_folders_loop-Chain zero i r (slot j ∷ ps) s t h e (above _ up c) =
    let (_, used, _, _) = IsTree-parent r (slot j) t h up in
    let last : (i == 9) ≡ true = ground (arith, e) in
    rw (up, t.flagged (slot j) used, last, parent_folders_loop) (ground arith)
parent_folders_loop-Chain (suc k) i r (slot j ∷ ps) s t h e (above _ up c) =
    let (_, used, _, _) = IsTree-parent r (slot j) t h up in
    let inside : (i == 9) ≡ false = ground (arith, e) in
    let rest = parent_folders_loop-Chain k (i + 1) (slot j) ps s t used (omega (arith, e)) c in
    elim (Bool-cases (ltb k (length ps))) [
      | inl long ↦
          rw (up, t.flagged (slot j) used, inside, rest, long, parent_folders_loop)
            (ground (arith, long))
      | inr short ↦
          rw (up, t.flagged (slot j) used, inside, rest, short, parent_folders_loop)
            (ground (arith, short))
    ]
parent_folders_loop-Chain zero i r (root ∷ ps) s t h e c = elim c [ ]
parent_folders_loop-Chain (suc k) i r (root ∷ ps) s t h e c = elim c [ ]

-- For a folder of a tree that is in use, other than the root, with `ps` as the folders above it, the
-- search of the parents gives exactly these while they are 9 at most. For a deeper folder it writes
-- behind the end of the array of MAX_PATH_NODES_AMOUNT - 1 that its caller passes.
pub get_parent_folders-Chain :
    (i : ℕ) (ps : List FolderRef) (s : VfsEntryStore)
    → IsTree (shape s)
    → (shape s).home (slot i) ≡ true
    → Chain (shape s).parent (slot i) ps
    → get_parent_folders (folder_node (slot i)) s ≡ (if ltb 9 (length ps) then fault else ok ps s)
unfolding get_parent_folders parents_from
get_parent_folders-Chain i [] s t h (top up) =
    rw (t.flagged (slot i) h, get_parent_folders)
      (from_ends ((shape s).parent (slot i)) root s up (t.flagged root t.top_home))
get_parent_folders-Chain i (slot j ∷ ps) s t h (above _ up c) =
    let (_, used, _, _) = IsTree-parent (slot i) (slot j) t h up in
    let rest = parent_folders_loop-Chain 8 1 (slot j) ps s t used refl c in
    elim (Bool-cases (ltb 8 (length ps))) [
      | inl long ↦
          rw
            (
              t.flagged (slot i) h,
              up,
              t.flagged (slot j) used,
              rest,
              long,
              get_parent_folders,
              parents_from,
            )
            (ground (arith, long))
      | inr short ↦
          rw
            (
              t.flagged (slot i) h,
              up,
              t.flagged (slot j) used,
              rest,
              short,
              get_parent_folders,
              parents_from,
            )
            (ground (arith, short))
    ]
get_parent_folders-Chain i (root ∷ ps) s t h c = elim c [ ]
