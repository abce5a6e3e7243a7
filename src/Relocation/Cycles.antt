-- ===== src/Relocation/Cycles.antt =====
-- `validate_no_cyclic_move` of system/entry_relocation.c searches the whole tree below a folder.
use virtual_file_system_c.Prelude.{
  none_not, some_inj, ℕ, zero, suc, ◌+◌, ◌≤◌, ◌<◌, ◌≡◌, refl, sym, ◌∙◌, ◌⊎◌, inl, inr, false,
  Option, some, arith, Bool-cases, Option-cases, ◌==◌,
}
use mathlib.Core.Path.{subst}
use virtual_file_system_c.Status.{
  StatusCode, Result, done, error, ◌>>>◌, attempted_to_enforce_cyclic_relation,
}
use virtual_file_system_c.Files.{FolderRef}
use virtual_file_system_c.Folders.{VfsEntryStore, same_folder, folder_at}
use virtual_file_system_c.Relocation.{check_sub_folders, validate_no_cyclic_move}
use virtual_file_system_c.Tree.Linked.{same_folder_eq, same_folder_refl}
use virtual_file_system_c.Tree.Rooted.{Below, here, down}
use virtual_file_system_c.Tree.Valid.{shape}

-- What a search of a part of the tree finds: nothing, or what the code `c` stands for.
abbrev pub Finds : Result (Unit {0}) → StatusCode → Type 0 → Type 0
Finds r c B = ((r ≡ done tt) × ¬ B) ⊎ ((r ≡ error c) × B)

-- Whether an index from `i` on, `k` of them, has a folder with a property.
abbrev Among : (FolderRef → Type 0) → (ℕ → Option FolderRef) → (k i : ℕ) → Type 0
Among B subs k i = (j : ℕ) × (q : FolderRef) × (i ≤ j) × (j < i + k) × (subs j ≡ some q) × B q

Among-later :
    (B : FolderRef → Type 0) (subs : ℕ → Option FolderRef) (k i : ℕ)
    → Among B subs k (i + 1)
    → Among B subs (suc k) i
Among-later B subs k i (j, q, a, b, e, h) = (j, q, omega arith, omega arith, e, h)

Among-now :
    (B : FolderRef → Type 0) (subs : ℕ → Option FolderRef) (k i : ℕ)
    → ((q : FolderRef) → subs i ≡ some q → ¬ B q)
    → Among B subs (suc k) i
    → Among B subs k (i + 1)
Among-now B subs k i apart (j, q, a, b, e, h) = elim (Bool-cases (i == j)) [
  | inl same ↦ absurd (apart q (subst (λ l. subs l ≡ some q) (ground arith) e) h)
  | inr other ↦ (j, q, ground arith, omega arith, e, h)
]

Finds-later :
    {r : Result (Unit {0})} {c : StatusCode} (B : FolderRef → Type 0) (subs : ℕ → Option FolderRef)
    → (k i : ℕ) → Finds r c (Among B subs k (i + 1))
    → ((q : FolderRef) → subs i ≡ some q → ¬ B q)
    → Finds r c (Among B subs (suc k) i)
Finds-later B subs k i (inl (good, none_there)) apart =
    inl (good, λ m. none_there (Among-now B subs k i apart m))
Finds-later B subs k i (inr (bad, m)) apart = inr (bad, Among-later B subs k i m)

check_sub_folders-Finds :
    (c : StatusCode) (B : FolderRef → Type 0) (subs : ℕ → Option FolderRef)
    → (check : FolderRef → Result (Unit {0})) (k i : ℕ)
    → ((j : ℕ) (q : FolderRef) → j < i + k → subs j ≡ some q → Finds (check q) c (B q))
    → Finds (check_sub_folders k i subs check) c (Among B subs k i)
unfolding check_sub_folders
check_sub_folders-Finds c B subs check zero i h =
    inl (refl, λ (j, q, a, b, _, _). absurd (omega arith))
check_sub_folders-Finds c B subs check (suc k) i h =
    let rest = check_sub_folders-Finds c B subs check k (i + 1) (λ j q lt. h j q (omega arith)) in
    elim (Option-cases (subs i)) [
      | inl e ↦
          rw (e, check_sub_folders)
            (Finds-later B subs k i rest (λ q at. absurd (none_not (sym e ∙ at))))
      | inr (q, e) ↦ elim (h i q (omega arith) e) [
        | inl (good, apart) ↦
            rw (e, good, check_sub_folders, ◌>>>◌)
              (Finds-later B subs k i rest
                (λ s at. subst (λ t. ¬ B t) (some_inj (sym e ∙ at)) apart))
        | inr (bad, b) ↦
            rw (e, bad, check_sub_folders, ◌>>>◌)
              (inr (refl, (i, q, omega arith, omega arith, e, b)))
      ]
    ]

-- Every chain of sub folders from a folder on, itself included, has `n` folders at most.
abbrev pub Within : (FolderRef → ℕ → Option FolderRef) → ℕ → FolderRef → Type 0
Within subs zero r = ⊥
Within subs (suc n) r = (k : ℕ) (q : FolderRef) → k < 10 → subs r k ≡ some q → Within subs n q

Below-split :
    {subs : FolderRef → ℕ → Option FolderRef} {r p : FolderRef}
    → Below subs r p
    → (r ≡ p) ⊎ Among (λ q. Below subs q p) (subs r) 10 0
Below-split (here r) = inl refl
Below-split (down {q = q} k lt e b) = inr (k, q, omega arith, lt, e, b)

Finds-Below :
    {o : Result (Unit {0})} {c : StatusCode} (s : VfsEntryStore) (p r : FolderRef)
    → same_folder p r ≡ false
    → Finds o c (Among (λ q. Below (shape s).subs q p) ((folder_at s r).sub_folders) 10 0)
    → Finds o c (Below (shape s).subs r p)
Finds-Below s p r other (inr (bad, (k, q, a, lt, e, b))) = inr (bad, down k lt e b)
Finds-Below s p r other (inl (good, none_there)) = inl (
  good,
  λ b. elim (Below-split b) [
    | inl same ↦ absurd (ground (arith, other, same, same_folder_refl p))
    | inr m ↦ none_there m
  ],
)

-- A search with one call for each level of the folder that moves, or more, tells whether the new
-- parent is inside it: it succeeds exactly when it is not, and otherwise fails with
-- ATTEMPTED_TO_ENFORCE_CYCLIC_RELATION.
pub validate_no_cyclic_move-Finds :
    (s : VfsEntryStore) (p : FolderRef) (calls : ℕ) (r : FolderRef)
    → Within (shape s).subs calls r
    → Finds
        (validate_no_cyclic_move s p calls r)
        attempted_to_enforce_cyclic_relation
        (Below (shape s).subs r p)
unfolding validate_no_cyclic_move
validate_no_cyclic_move-Finds s p zero r w = absurd w
validate_no_cyclic_move-Finds s p (suc n) r w = elim (Bool-cases (same_folder p r)) [
  | inl same ↦
      rw (same, validate_no_cyclic_move)
        (inr (refl, subst (Below (shape s).subs r) (sym (same_folder_eq p r same)) (here r)))
  | inr other ↦
      rw (other, validate_no_cyclic_move)
        (Finds-Below s p r other (
          check_sub_folders-Finds attempted_to_enforce_cyclic_relation
            (λ q. Below (shape s).subs q p) ((folder_at s r).sub_folders)
            (validate_no_cyclic_move s p n) 10 0
            (λ j q lt at. validate_no_cyclic_move-Finds s p n q (w j q lt at))))
]

-- A loop that succeeds has found every sub folder good.
check_sub_folders-all :
    (k i : ℕ) (subs : ℕ → Option FolderRef) (check : FolderRef → Result (Unit {0}))
    → check_sub_folders k i subs check ≡ done tt
    → (j : ℕ) (q : FolderRef) → i ≤ j
    → j < i + k
    → subs j ≡ some q
    → check q ≡ done tt
unfolding check_sub_folders
check_sub_folders-all zero i subs check e j q a b at = absurd (omega arith)
check_sub_folders-all (suc k) i subs check e j q a b at = ground (
  arith,
  at,
  λ (h : check_sub_folders k (i + 1) subs check ≡ done tt) (l : i + 1 ≤ j) (m : j < i + 1 + k).
      check_sub_folders-all k (i + 1) subs check h j q l m at,
)

-- The search is sound whatever the depth: when it succeeds, the new parent is not inside.
pub validate_no_cyclic_move-apart :
    (s : VfsEntryStore) (p : FolderRef) (calls : ℕ) (r : FolderRef)
    → validate_no_cyclic_move s p calls r ≡ done tt
    → ¬ Below (shape s).subs r p
unfolding validate_no_cyclic_move
validate_no_cyclic_move-apart s p zero r e b = absurd (ground arith)
validate_no_cyclic_move-apart s p (suc n) r e b = elim (Bool-cases (same_folder p r)) [
  | inl same ↦ absurd (ground arith)
  | inr other ↦ elim (Below-split b) [
    | inl same ↦ absurd (ground (arith, other, same, same_folder_refl p))
    | inr (k, q, a, lt, at, rest) ↦
        validate_no_cyclic_move-apart s p n q
          (check_sub_folders-all 10 0 ((folder_at s r).sub_folders) (validate_no_cyclic_move s p n)
            (ground arith) k q a lt at)
          rest
  ]
]
