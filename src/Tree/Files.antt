-- ===== src/Tree/Files.antt =====
-- The tree when a file comes, goes, or moves to another folder.
use mathlib.Core.Path.{fun_ext, subst}
use virtual_file_system_c.Prelude.{ℕ, ◌<◌, ◌≡◌, Bool, true, false, Option, none, some, arith, ◌==◌}
use virtual_file_system_c.Files.{FolderRef}
use virtual_file_system_c.Tree.Linked.{Linked, set_at, set_sub, Linked-attach, Linked-detach}
use virtual_file_system_c.Tree.Valid.{Shape, IsTree, with_file, with_file_parent, with_live_file}

-- A tree in which the files stand elsewhere.
IsTree-files :
    {x : Shape} {live : ℕ → Bool} {parent : ℕ → Option FolderRef} {files : FolderRef → ℕ → Option ℕ}
    → IsTree x
    → Linked x.home live parent files
    → IsTree (record x { live_file = live; file_parent = parent; files = files })
IsTree-files t l = record {
  folders_linked = t.folders_linked;
  files_linked = l;
  rooted = t.rooted;
  flagged = t.flagged;
  top = t.top;
  proper = t.proper;
  top_home = t.top_home;
}

file_eq : (m n : ℕ) → (m == n) ≡ true → m ≡ n
file_eq m n h = ground arith

file_refl : (n : ℕ) → (n == n) ≡ true
file_refl n = ground arith

-- A new file.
pub IsTree-attach_file :
    {x : Shape} (f : ℕ) (p : FolderRef) (k : ℕ)
    → IsTree x
    → x.live_file f ≡ false
    → x.home p ≡ true
    → k < 10
    → x.files p k ≡ none
    → IsTree (with_live_file f true (with_file_parent f (some p) (with_file p k (some f) x)))
IsTree-attach_file f p k t a b c d =
    IsTree-files t (Linked-attach ◌==◌ file_eq file_refl f p k t.files_linked a b c d)

-- A file goes.
pub IsTree-detach_file :
    {x : Shape} (f : ℕ) (p : FolderRef) (k : ℕ)
    → IsTree x
    → x.home p ≡ true
    → k < 10
    → x.files p k ≡ some f
    → IsTree (with_live_file f false (with_file_parent f none (with_file p k none x)))
IsTree-detach_file f p k t a b c =
    IsTree-files t (Linked-detach ◌==◌ file_eq file_refl f p k t.files_linked a b c)

-- Taken away and put back in use is unchanged.
set_at-back :
    (live : ℕ → Bool) (f : ℕ) → live f ≡ true → set_at ◌==◌ f true (set_at ◌==◌ f false live) ≡ live
set_at-back live f h = fun_ext λ g. ground (arith, file_eq f g)

-- A file moves.
pub IsTree-move_file :
    {x : Shape} (f : ℕ) (q : FolderRef) (j : ℕ) (p : FolderRef) (k : ℕ)
    → IsTree x
    → x.home q ≡ true
    → j < 10
    → x.files q j ≡ some f
    → x.home p ≡ true
    → k < 10
    → x.files p k ≡ none
    → IsTree (
        with_file_parent f
          (some p)
          (with_file p k (some f) (with_file_parent f none (with_file q j none x))))
IsTree-move_file {x} f q j p k t a b c d e empty =
    let (live, _) = t.files_linked.down q j f a b c in
    let gone = Linked-detach ◌==◌ file_eq file_refl f q j t.files_linked a b c in
    let back =
      Linked-attach ◌==◌ file_eq file_refl f p k gone (ground (arith, file_refl f)) d e
        (ground (arith, empty)) in
    IsTree-files t (
      subst
        (λ l.
          Linked x.home l (set_at ◌==◌ f (some p) (set_at ◌==◌ f none x.file_parent))
            (set_sub p k (some f) (set_sub q j none x.files)))
        (set_at-back x.live_file f live) back)

-- A file that is not in use is written.
pub IsTree-scratch_file :
    {x : Shape} (f : ℕ) (v : Option FolderRef)
    → IsTree x
    → x.live_file f ≡ false
    → IsTree (with_file_parent f v x)
IsTree-scratch_file {x} f v t free = IsTree-files t (record {
  up = λ n e.
      let (q, j, a, b, c, d) = t.files_linked.up n e in
      (q, j, ground (arith, e, free, a, file_eq f n), b, c, d);
  down = λ p k n h lt e. ground (arith, t.files_linked.down p k n h lt e, free, file_eq f n);
  once = t.files_linked.once;
})
