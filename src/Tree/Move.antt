-- ===== src/Tree/Move.antt =====
-- The tree when a folder moves into a folder that is not below it.
use mathlib.Core.Path.{fun_ext, subst}
use virtual_file_system_c.Prelude.{
  ℕ, ◌<◌, ◌≡◌, sym, true, false, Option, none, some, arith, inl, inr, Bool-cases,
}
use virtual_file_system_c.Files.{FolderRef, root}
use virtual_file_system_c.Folders.{same_folder}
use virtual_file_system_c.Tree.Linked.{
  Linked, set_at, set_sub, same_folder_eq, same_folder_refl, Linked-attach, Linked-detach,
}
use virtual_file_system_c.Tree.Rooted.{
  Rooted, under, Rooted-keep, Rooted-reset, Below, here, Below-down,
}
use virtual_file_system_c.Tree.Valid.{Shape, IsTree, with_sub, with_parent}
use virtual_file_system_c.Tree.Grow.{IsTree-parent}

set_at-again :
    {A : Type 0} (r : FolderRef) (u v : A) (m : FolderRef → A)
    → set_at same_folder r v (set_at same_folder r u m) ≡ set_at same_folder r v m
set_at-again r u v m = fun_ext λ q. ground arith

set_at-back :
    {A : Type 0} (r : FolderRef) (u : A) (m : FolderRef → A)
    → set_at same_folder r (m r) (set_at same_folder r u m) ≡ m
set_at-back r u m = fun_ext λ q. ground (arith, same_folder_eq r q)

-- The path of a folder that is not below the one that moves stays.
path_kept :
    {x : Shape} (r : FolderRef) (y : Option FolderRef) (q : FolderRef)
    → IsTree x
    → x.home q ≡ true
    → ¬ Below x.subs r q
    → Rooted (set_at same_folder r y x.parent) q
path_kept {x} r y q t h apart =
    Rooted-keep r y (λ p. (x.home p ≡ true) × ¬ Below x.subs r p) differs above (h, apart)
      (t.rooted q h)
  where
    differs : (p : FolderRef) → (x.home p ≡ true) × ¬ Below x.subs r p → same_folder r p ≡ false
    differs p (a, b) = elim (Bool-cases (same_folder r p)) [
      | inl same ↦ absurd (b (subst (Below x.subs r) (same_folder_eq r p same) (here r)))
      | inr other ↦ other
    ]

    above :
        (p s : FolderRef)
        → (x.home p ≡ true) × ¬ Below x.subs r p
        → x.parent p ≡ some s
        → (x.home s ≡ true) × ¬ Below x.subs r s
    above p s (a, b) e =
        let (k, c, d, f) = IsTree-parent p s t a e in (c, λ under_r. b (Below-down k under_r d f))

pub IsTree-move_folder :
    {x : Shape} (r q : FolderRef) (j : ℕ) (p : FolderRef) (k : ℕ)
    → IsTree x
    → x.home q ≡ true
    → j < 10
    → x.subs q j ≡ some r
    → x.home p ≡ true
    → k < 10
    → x.subs p k ≡ none
    → ¬ Below x.subs r p
    → IsTree
        (with_parent r (some p) (with_sub p k (some r) (with_parent r none (with_sub q j none x))))
IsTree-move_folder {x} r q j p k t a b c d e empty apart = record {
  folders_linked =
      subst
        (λ l.
          Linked x.home l (set_at same_folder r (some p) (set_at same_folder r none x.parent))
            (set_sub p k (some r) (set_sub q j none x.subs)))
        live_again back;
  files_linked = t.files_linked;
  rooted = λ s h.
      subst (λ m. Rooted m s) (sym (set_at-again r none (some p) x.parent))
        (Rooted-reset r (some p)
          (under (ground (arith, same_folder_refl r)) (path_kept r (some p) p t d apart))
          (t.rooted s h));
  flagged = t.flagged;
  top = ground (arith, t.top, t.proper r, live, same_folder_eq r root);
  proper = t.proper;
  top_home = t.top_home;
}
  where
    live : x.live_folder r ≡ true
    live = let (l, _) = t.folders_linked.down q j r a b c in l

    gone :
        Linked x.home
          (set_at same_folder r false x.live_folder)
          (set_at same_folder r none x.parent)
          (set_sub q j none x.subs)
    gone = Linked-detach same_folder same_folder_eq same_folder_refl r q j t.folders_linked a b c

    back :
        Linked x.home
          (set_at same_folder r true (set_at same_folder r false x.live_folder))
          (set_at same_folder r (some p) (set_at same_folder r none x.parent))
          (set_sub p k (some r) (set_sub q j none x.subs))
    back =
        Linked-attach same_folder same_folder_eq same_folder_refl r p k gone
          (ground (arith, same_folder_refl r)) d e (ground (arith, empty))

    live_again :
        set_at same_folder r true (set_at same_folder r false x.live_folder) ≡ x.live_folder
    live_again = fun_ext λ s. ground (arith, live, same_folder_eq r s)
