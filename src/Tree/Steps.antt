-- ===== src/Tree/Steps.antt =====
-- The moves that a tree of entries makes, told by what is seen of the store alone.
use virtual_file_system_c.Prelude.{ℕ, ◌<◌, ◌≡◌, true, false, Option, none, some}
use virtual_file_system_c.Files.{FolderRef, slot}
use virtual_file_system_c.Tree.Rooted.{Below}
use virtual_file_system_c.Tree.Valid.{
  Shape, IsTree, with_file, with_file_parent, with_live_file, with_sub, with_parent,
  with_live_folder, with_bare,
}
use virtual_file_system_c.Tree.Files.{
  IsTree-attach_file, IsTree-detach_file, IsTree-move_file, IsTree-scratch_file,
}
use virtual_file_system_c.Tree.Grow.{IsTree-attach_folder, IsTree-detach_folder}
use virtual_file_system_c.Tree.Move.{IsTree-move_folder}

-- `scratch_file` is a write to a file that is not in use.
pub data Step (x : Shape) : Shape → Type 0 where
  add_file :
      (f : ℕ) (p : FolderRef) (k : ℕ)
      → x.live_file f ≡ false
      → x.home p ≡ true
      → k < 10
      → x.files p k ≡ none
      → Step x (with_live_file f true (with_file_parent f (some p) (with_file p k (some f) x)))
  remove_file :
      (f : ℕ) (p : FolderRef) (k : ℕ)
      → x.home p ≡ true
      → k < 10
      → x.files p k ≡ some f
      → Step x (with_live_file f false (with_file_parent f none (with_file p k none x)))
  relocate_file :
      (f : ℕ) (q : FolderRef) (j : ℕ) (p : FolderRef) (k : ℕ)
      → x.home q ≡ true
      → j < 10
      → x.files q j ≡ some f
      → x.home p ≡ true
      → k < 10
      → x.files p k ≡ none
      → Step x (
          with_file_parent f
            (some p)
            (with_file p k (some f) (with_file_parent f none (with_file q j none x))))
  scratch_file :
      (f : ℕ) (v : Option FolderRef) → x.live_file f ≡ false → Step x (with_file_parent f v x)
  add_folder :
      (j : ℕ) (p : FolderRef) (k : ℕ)
      → x.live_folder (slot j) ≡ false
      → x.home p ≡ true
      → k < 10
      → x.subs p k ≡ none
      → Step x (
          with_live_folder
            (slot j)
            true
            (with_sub p k (some (slot j)) (with_bare (slot j) (some p) x)))
  remove_folder :
      (j : ℕ) (p : FolderRef) (k : ℕ)
      → x.home p ≡ true
      → k < 10
      → x.subs p k ≡ some (slot j)
      → ((i : ℕ) → i < 10 → x.subs (slot j) i ≡ none)
      → ((i : ℕ) → i < 10 → x.files (slot j) i ≡ none)
      → Step x (with_live_folder (slot j) false (with_parent (slot j) none (with_sub p k none x)))
  relocate_folder :
      (r q : FolderRef) (j : ℕ) (p : FolderRef) (k : ℕ)
      → x.home q ≡ true
      → j < 10
      → x.subs q j ≡ some r
      → x.home p ≡ true
      → k < 10
      → x.subs p k ≡ none
      → ¬ Below x.subs r p
      → Step x (
          with_parent r (some p) (with_sub p k (some r) (with_parent r none (with_sub q j none x))))

pub Step-IsTree : {x y : Shape} → Step x y → IsTree x → IsTree y
Step-IsTree (add_file f p k a b c d) t = IsTree-attach_file f p k t a b c d
Step-IsTree (remove_file f p k a b c) t = IsTree-detach_file f p k t a b c
Step-IsTree (relocate_file f q j p k a b c d e g) t = IsTree-move_file f q j p k t a b c d e g
Step-IsTree (scratch_file f v a) t = IsTree-scratch_file f v t a
Step-IsTree (add_folder j p k a b c d) t = IsTree-attach_folder j p k t a b c d
Step-IsTree (remove_folder j p k a b c d e) t = IsTree-detach_folder j p k t a b c d e
Step-IsTree (relocate_folder r q j p k a b c d e g h) t =
    IsTree-move_folder r q j p k t a b c d e g h

-- Any number of moves.
pub data Steps : Shape → Shape → Type 0 where
  stay : {x : Shape} → Steps x x
  go : {x y z : Shape} → Step x y → Steps y z → Steps x z

pub Steps-IsTree : {x y : Shape} → Steps x y → IsTree x → IsTree y
Steps-IsTree stay t = t
Steps-IsTree (go s ss) t = Steps-IsTree ss (Step-IsTree s t)

pub Steps-append : {x y z : Shape} → Steps x y → Steps y z → Steps x z
Steps-append stay u = u
Steps-append (go s ss) u = go s (Steps-append ss u)
