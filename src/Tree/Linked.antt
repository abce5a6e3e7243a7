-- ===== src/Tree/Linked.antt =====
-- Entries linked to folders by two pointers, the entry's to its parent and the parent's to the entry,
-- as Folder and File of system/include/folders.h and system/include/files.h are.
use virtual_file_system_c.Prelude.{
  ℕ, ◌<◌, ◌≡◌, refl, inl, inr, Bool, true, false, ◌&&◌, Option, none, some, arith, ◌==◌,
  if◌then◌else◌, Bool-cases,
}
use virtual_file_system_c.Files.{FolderRef, root, slot}
use virtual_file_system_c.Folders.{same_folder}

pub same_folder_eq : (p q : FolderRef) → same_folder p q ≡ true → p ≡ q
same_folder_eq root root h = refl
same_folder_eq root (slot j) h = cc
same_folder_eq (slot i) root h = cc
same_folder_eq (slot i) (slot j) h = ground arith

pub same_folder_refl : (p : FolderRef) → same_folder p p ≡ true
same_folder_refl root = refl
same_folder_refl (slot i) = ground arith

-- The entries of a kind: which are in use, where each stands, and what each folder holds.
-- `home` says which folders are in use.
pub record Linked {N : Type 0} (home : FolderRef → Bool) (live : N → Bool)
    (parent : N → Option FolderRef) (subs : FolderRef → ℕ → Option N) : Type 0 where
  pub up :
      (n : N)
      → live n ≡ true
      → (p : FolderRef) × (k : ℕ) × (parent n ≡ some p)
        × (home p ≡ true)
        × (k < 10)
        × (subs p k ≡ some n)
  pub down :
      (p : FolderRef) (k : ℕ) (n : N)
      → home p ≡ true
      → k < 10
      → subs p k ≡ some n
      → (live n ≡ true) × (parent n ≡ some p)
  pub once :
      (p : FolderRef) (j k : ℕ) (n : N)
      → home p ≡ true
      → j < 10
      → k < 10
      → subs p j ≡ some n
      → subs p k ≡ some n
      → j ≡ k

-- An assignment to one entry of an array, and to one of an array in a folder.
module _ {N : Type 0} (same : N → N → Bool) where
  abbrev pub set_at : {A : Type 0} → N → A → (N → A) → N → A
  set_at n v f m = if same n m then v else f m

abbrev pub set_sub :
    {N : Type 0} → FolderRef → ℕ → Option N → (FolderRef → ℕ → Option N) → FolderRef → ℕ → Option N
set_sub p k v subs q j = if same_folder p q && k == j then v else subs q j

module _ {N : Type 0} (same : N → N → Bool) (same_eq : (m n : N) → same m n ≡ true → m ≡ n)
    (same_refl : (n : N) → same n n ≡ true) where
  -- An entry that is not in use is put into an empty place.
  pub Linked-attach :
      {home : FolderRef → Bool} {live : N → Bool} {parent : N → Option FolderRef}
      → {subs : FolderRef → ℕ → Option N} (n : N) (p : FolderRef) (k : ℕ)
      → Linked home live parent subs
      → live n ≡ false
      → home p ≡ true
      → k < 10
      → subs p k ≡ none
      → Linked home
          (set_at same n true live)
          (set_at same n (some p) parent)
          (set_sub p k (some n) subs)
  Linked-attach {home} {live} {parent} {subs} n p k l free h lt empty = record {
    up = above;
    down = below;
    once = single;
  }
    where
      above :
          (m : N)
          → set_at same n true live m ≡ true
          → (q : FolderRef) × (j : ℕ) × (set_at same n (some p) parent m ≡ some q)
            × (home q ≡ true)
            × (j < 10)
            × (set_sub p k (some n) subs q j ≡ some m)
      above m e = elim (Bool-cases (same n m)) [
        | inl new ↦
            (p, k, ground (arith, new), h, lt, ground (arith, same_folder_refl p, same_eq n m new))
        | inr old ↦
            let (q, j, a, b, c, d) = l.up m (ground (arith, old, e)) in
            (q, j, ground (arith, old, a), b, c, ground (arith, d, empty, same_folder_eq p q))
      ]

      below :
          (q : FolderRef) (j : ℕ) (m : N)
          → home q ≡ true
          → j < 10
          → set_sub p k (some n) subs q j ≡ some m
          → (set_at same n true live m ≡ true) × (set_at same n (some p) parent m ≡ some q)
      below q j m a b e =
          ground (arith, same_folder_eq p q, same_eq n m, same_refl n, l.down q j m a b)

      single :
          (q : FolderRef) (i j : ℕ) (m : N)
          → home q ≡ true
          → i < 10
          → j < 10
          → set_sub p k (some n) subs q i ≡ some m
          → set_sub p k (some n) subs q j ≡ some m
          → i ≡ j
      single q i j m a b c d e =
          ground
            (arith, same_folder_eq p q, l.down q i m a b, l.down q j m a c, l.once q i j m a b c)

  -- An entry in use is taken out of its place.
  pub Linked-detach :
      {home : FolderRef → Bool} {live : N → Bool} {parent : N → Option FolderRef}
      → {subs : FolderRef → ℕ → Option N} (n : N) (p : FolderRef) (k : ℕ)
      → Linked home live parent subs
      → home p ≡ true
      → k < 10
      → subs p k ≡ some n
      → Linked home (set_at same n false live) (set_at same n none parent) (set_sub p k none subs)
  Linked-detach {home} {live} {parent} {subs} n p k l h lt there = record {
    up = above;
    down = below;
    once = single;
  }
    where
      above :
          (m : N)
          → set_at same n false live m ≡ true
          → (q : FolderRef) × (j : ℕ) × (set_at same n none parent m ≡ some q)
            × (home q ≡ true)
            × (j < 10)
            × (set_sub p k none subs q j ≡ some m)
      above m e = elim (Bool-cases (same n m)) [
        | inl gone ↦ absurd (ground (arith, gone, e))
        | inr other ↦
            let (q, j, a, b, c, d) = l.up m (ground (arith, other, e)) in
            (
              q,
              j,
              ground (arith, other, a),
              b,
              c,
              ground (arith, d, there, same_folder_eq p q, same_refl n, other),
            )
      ]

      below :
          (q : FolderRef) (j : ℕ) (m : N)
          → home q ≡ true
          → j < 10
          → set_sub p k none subs q j ≡ some m
          → (set_at same n false live m ≡ true) × (set_at same n none parent m ≡ some q)
      below q j m a b e = ground (
        arith,
        same_folder_refl p,
        same_eq n m,
        l.down q j m a b,
        l.down p k n h lt there,
        l.once p j k n h b lt,
      )

      single :
          (q : FolderRef) (i j : ℕ) (m : N)
          → home q ≡ true
          → i < 10
          → j < 10
          → set_sub p k none subs q i ≡ some m
          → set_sub p k none subs q j ≡ some m
          → i ≡ j
      single q i j m a b c d e = ground (arith, l.once q i j m a b c)

-- A folder that comes into use, without entries.
pub Linked-grow :
    {N : Type 0} {home : FolderRef → Bool} {live : N → Bool} {parent : N → Option FolderRef}
    → {subs : FolderRef → ℕ → Option N} (r : FolderRef) → Linked home live parent subs
    → ((k : ℕ) → k < 10 → subs r k ≡ none)
    → Linked (set_at same_folder r true home) live parent subs
Linked-grow {N} {home} {live} {parent} {subs} r l bare = record {
  up = λ n e. let (q, j, a, b, c, d) = l.up n e in (q, j, a, ground (arith, b), c, d);
  down = λ p k n h lt e. ground (arith, bare k lt, same_folder_eq r p, l.down p k n);
  once = λ p j k n h a b c d. ground (arith, bare j a, same_folder_eq r p, l.once p j k n);
}

-- A folder without entries that goes out of use.
pub Linked-shrink :
    {N : Type 0} {home : FolderRef → Bool} {live : N → Bool} {parent : N → Option FolderRef}
    → {subs : FolderRef → ℕ → Option N} (r : FolderRef) → Linked home live parent subs
    → ((k : ℕ) → k < 10 → subs r k ≡ none)
    → Linked (set_at same_folder r false home) live parent subs
Linked-shrink {N} {home} {live} {parent} {subs} r l bare = record {
  up = λ n e.
      let (q, j, a, b, c, d) = l.up n e in
      (q, j, a, ground (arith, b, d, bare j c, same_folder_eq r q), c, d);
  down = λ p k n h lt e. ground (arith, h, l.down p k n);
  once = λ p j k n h a b c d. ground (arith, h, l.once p j k n);
}

-- The places of a folder that is not in use say nothing.
pub Linked-clear :
    {N : Type 0} {home : FolderRef → Bool} {live : N → Bool} {parent : N → Option FolderRef}
    → {subs : FolderRef → ℕ → Option N} (r : FolderRef) (bare : ℕ → Option N)
    → Linked home live parent subs
    → home r ≡ false
    → Linked home live parent (set_at same_folder r bare subs)
Linked-clear {N} {home} {live} {parent} {subs} r bare l free = record {
  up = λ n e.
      let (q, j, a, b, c, d) = l.up n e in
      (q, j, a, b, c, ground (arith, b, d, free, same_folder_eq r q));
  down = λ p k n h lt e. ground (arith, h, free, same_folder_eq r p, l.down p k n);
  once = λ p j k n h a b c d. ground (arith, h, free, same_folder_eq r p, l.once p j k n);
}
