-- ===== src/Tree/Grow.antt =====
-- The tree when a folder is made or removed.
use virtual_file_system_c.Prelude.{
  ℕ, ◌<◌, ◌≡◌, true, false, none, some, arith, inl, inr, Bool-cases,
}
use virtual_file_system_c.Files.{FolderRef, root, slot}
use virtual_file_system_c.Folders.{same_folder}
use virtual_file_system_c.Tree.Linked.{
  set_at, same_folder_eq, same_folder_refl, Linked-attach, Linked-detach, Linked-grow,
  Linked-shrink, Linked-clear,
}
use virtual_file_system_c.Tree.Rooted.{Rooted, under, Rooted-keep}
use virtual_file_system_c.Tree.Valid.{
  Shape, IsTree, with_sub, with_parent, with_live_folder, with_bare,
}

-- The parent of a folder in use is in use, and holds it.
pub IsTree-parent :
    {x : Shape} (q p : FolderRef)
    → IsTree x
    → x.home q ≡ true
    → x.parent q ≡ some p
    → (k : ℕ) × (x.home p ≡ true) × (k < 10) × (x.subs p k ≡ some q)
IsTree-parent root p t h e = absurd (ground (arith, t.top, e))
IsTree-parent {x} (slot i) p t h e =
    let (p_up, k, a, b, c, d) =
      t.folders_linked.up (slot i) (ground (arith, t.proper (slot i), h)) in
    let same : p_up ≡ p = ground (arith, a, e) in
    (k, ground (arith, same, b), c, ground (arith, same, d))

-- A new folder.
pub IsTree-attach_folder :
    {x : Shape} (j : ℕ) (p : FolderRef) (k : ℕ)
    → IsTree x
    → x.live_folder (slot j) ≡ false
    → x.home p ≡ true
    → k < 10
    → x.subs p k ≡ none
    → IsTree (
        with_live_folder
          (slot j)
          true
          (with_sub p k (some (slot j)) (with_bare (slot j) (some p) x)))
IsTree-attach_folder {x} j p k t free h lt empty = record {
  folders_linked =
      Linked-attach same_folder same_folder_eq same_folder_refl (slot j) p k
        (Linked-grow (slot j) (Linked-clear (slot j) (λ i. none) t.folders_linked absent)
          (λ i l. ground (arith, same_folder_refl (slot j))))
        free (ground (arith, h)) lt (ground (arith, empty));
  files_linked =
      Linked-grow (slot j) (Linked-clear (slot j) (λ i. none) t.files_linked absent)
        (λ i l. ground (arith, same_folder_refl (slot j)));
  rooted = paths;
  flagged = λ r e. ground (arith, e, t.flagged r, same_folder_eq (slot j) r);
  top = t.top;
  proper = λ r. ground (arith, t.proper r, same_folder_eq (slot j) r);
  top_home = t.top_home;
}
  where
    absent : x.home (slot j) ≡ false
    absent = ground (arith, t.proper (slot j), free)

    kept :
        (q : FolderRef) → x.home q ≡ true → Rooted (set_at same_folder (slot j) (some p) x.parent) q
    kept q e =
        Rooted-keep (slot j) (some p) (λ r. x.home r ≡ true)
          (λ r a. ground (arith, a, absent, same_folder_eq (slot j) r))
          (λ r s a b. let (_, c, _, _) = IsTree-parent r s t a b in c) e (t.rooted q e)

    paths :
        (q : FolderRef)
        → set_at same_folder (slot j) true x.home q ≡ true
        → Rooted (set_at same_folder (slot j) (some p) x.parent) q
    paths q e = elim (Bool-cases (same_folder (slot j) q)) [
      | inl same ↦ under (ground (arith, same)) (kept p h)
      | inr other ↦ kept q (ground (arith, other, e))
    ]

-- A folder without entries goes.
pub IsTree-detach_folder :
    {x : Shape} (j : ℕ) (p : FolderRef) (k : ℕ)
    → IsTree x
    → x.home p ≡ true
    → k < 10
    → x.subs p k ≡ some (slot j)
    → ((i : ℕ) → i < 10 → x.subs (slot j) i ≡ none)
    → ((i : ℕ) → i < 10 → x.files (slot j) i ≡ none)
    → IsTree (with_live_folder (slot j) false (with_parent (slot j) none (with_sub p k none x)))
IsTree-detach_folder {x} j p k t h lt there no_folders no_files = record {
  folders_linked =
      Linked-shrink (slot j)
        (Linked-detach same_folder same_folder_eq same_folder_refl (slot j) p k t.folders_linked h
          lt there)
        (λ i l. ground (arith, no_folders i l));
  files_linked = Linked-shrink (slot j) t.files_linked no_files;
  rooted = λ q e.
      Rooted-keep (slot j) none (λ r. (x.home r ≡ true) × (same_folder (slot j) r ≡ false))
        (λ r (_, a). a) above (ground (arith, e), ground (arith, e))
        (t.rooted q (ground (arith, e)));
  flagged = λ r e. ground (arith, e, t.flagged r);
  top = t.top;
  proper = λ r. ground (arith, t.proper r, same_folder_eq (slot j) r);
  top_home = t.top_home;
}
  where
    above :
        (q r : FolderRef)
        → (x.home q ≡ true) × (same_folder (slot j) q ≡ false)
        → x.parent q ≡ some r
        → (x.home r ≡ true) × (same_folder (slot j) r ≡ false)
    above q r (a, b) e =
        let (i, c, d, f) = IsTree-parent q r t a e in
        (c, ground (arith, f, no_folders i d, same_folder_eq (slot j) r))
