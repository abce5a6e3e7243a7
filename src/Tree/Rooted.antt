-- ===== src/Tree/Rooted.antt =====
-- No folder is inside itself: the parents of each lead up to the root.
use virtual_file_system_c.Prelude.{ℕ, ◌<◌, ◌≡◌, false, Option, some, arith, Bool-cases, inl, inr}
use mathlib.Core.Path.{subst}
use virtual_file_system_c.Files.{FolderRef, root}
use virtual_file_system_c.Folders.{same_folder}
use virtual_file_system_c.Tree.Linked.{same_folder_eq, set_at}

pub data Rooted (parent : FolderRef → Option FolderRef) : FolderRef → Type 0 where
  at_root : Rooted parent root
  under : {q p : FolderRef} → parent q ≡ some p → Rooted parent p → Rooted parent q

-- The folders in the tree below a folder, itself included.
pub data Below (subs : FolderRef → ℕ → Option FolderRef) : FolderRef → FolderRef → Type 0 where
  here : (r : FolderRef) → Below subs r r
  down : {r q x : FolderRef} (k : ℕ) → k < 10 → subs r k ≡ some q → Below subs q x → Below subs r x

pub Below-down :
    {subs : FolderRef → ℕ → Option FolderRef} {r q x : FolderRef} (k : ℕ)
    → Below subs r q
    → k < 10
    → subs q k ≡ some x
    → Below subs r x
Below-down k (here r) lt e = down k lt e (here _)
Below-down k (down j l h b) lt e = down j l h (Below-down k b lt e)

module _ {parent : FolderRef → Option FolderRef} (r : FolderRef) (y : Option FolderRef) where
  -- The path of a folder that does not lead through `r` stays when `r` is moved.
  pub Rooted-keep :
      (P : FolderRef → Type 0)
      → ((q : FolderRef) → P q → same_folder r q ≡ false)
      → ((q p : FolderRef) → P q → parent q ≡ some p → P p)
      → {q : FolderRef} → P q
      → Rooted parent q
      → Rooted (set_at same_folder r y parent) q
  Rooted-keep P apart up h at_root = at_root
  Rooted-keep P apart up {q} h (under {p = p} e path) =
      under (ground (arith, apart q h, e)) (Rooted-keep P apart up (up q p h e) path)

  -- When `r` has a path again, so has every folder that had one.
  pub Rooted-reset :
      {q : FolderRef}
      → Rooted (set_at same_folder r y parent) r
      → Rooted parent q
      → Rooted (set_at same_folder r y parent) q
  Rooted-reset new at_root = at_root
  Rooted-reset {q} new (under e path) = elim (Bool-cases (same_folder r q)) [
    | inl same ↦ subst (Rooted (set_at same_folder r y parent)) (same_folder_eq r q same) new
    | inr other ↦ under (ground (arith, other, e)) (Rooted-reset new path)
  ]
