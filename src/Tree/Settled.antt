-- ===== src/Tree/Settled.antt =====
-- A folder that a pointer may be left to: it is in use, or all its places are empty and it has no
-- parent.
use virtual_file_system_c.Prelude.{ℕ, ◌<◌, ◌≡◌, ◌⊎◌, inl, inr, true, false, none, arith, Bool-cases}
use mathlib.Core.Path.{subst}
use virtual_file_system_c.Files.{FolderRef, slot}
use virtual_file_system_c.Folders.{same_folder}
use virtual_file_system_c.Tree.Linked.{same_folder_eq}
use virtual_file_system_c.Tree.Valid.{Shape, IsTree}
use virtual_file_system_c.Tree.Steps.{
  Step, add_file, remove_file, relocate_file, scratch_file, add_folder, remove_folder,
  relocate_folder, Steps, stay, go, Step-IsTree,
}

abbrev pub IsBare : Shape → FolderRef → Type 0
IsBare x r =
    ((i : ℕ) → i < 10 → x.subs r i ≡ none)
    × ((i : ℕ) → i < 10 → x.files r i ≡ none)
    × (x.parent r ≡ none)

abbrev pub IsSettled : Shape → FolderRef → Type 0
IsSettled x r = (x.home r ≡ true) ⊎ IsBare x r

-- A folder that is in use, or another one.
which :
    (x : Shape) (p r : FolderRef) → x.home p ≡ true → (x.home r ≡ true) ⊎ (same_folder p r ≡ false)
which x p r h = elim (Bool-cases (same_folder p r)) [
  | inl same ↦ inl (subst (λ q. x.home q ≡ true) (same_folder_eq p r same) h)
  | inr other ↦ inr other
]

pub Step-IsSettled :
    {x y : Shape} → Step x y → IsTree x → (r : FolderRef) → IsSettled x r → IsSettled y r
Step-IsSettled (add_file f p k a b c d) t r (inl h) = inl h
Step-IsSettled {x = x} (add_file f p k a b c d) t r (inr (e, g, u)) = elim (which x p r b) [
  | inl used ↦ inl used
  | inr other ↦ inr (e, λ i lt. ground (arith, other, g i lt), u)
]
Step-IsSettled (remove_file f p k a b c) t r (inl h) = inl h
Step-IsSettled (remove_file f p k a b c) t r (inr (e, g, u)) =
    inr (e, λ i lt. ground (arith, g i lt), u)
Step-IsSettled (relocate_file f q j p k a b c d e' g') t r (inl h) = inl h
Step-IsSettled {x = x} (relocate_file f q j p k a b c d e' g') t r (inr (e, g, u)) =
    elim (which x p r d) [
      | inl used ↦ inl used
      | inr other ↦ inr (e, λ i lt. ground (arith, other, g i lt), u)
    ]
Step-IsSettled (scratch_file f v a) t r h = h
Step-IsSettled (add_folder j p k a b c d) t r (inl h) = inl (ground (arith, h))
Step-IsSettled {x = x} (add_folder j p k a b c d) t r (inr (e, g, u)) = elim (which x p r b) [
  | inl used ↦ inl (ground (arith, used))
  | inr other ↦ elim (Bool-cases (same_folder (slot j) r)) [
    | inl same ↦ inl (ground (arith, same))
    | inr elsewhere ↦ inr (
      λ i lt. ground (arith, other, elsewhere, e i lt),
      λ i lt. ground (arith, elsewhere, g i lt),
      ground (arith, elsewhere, u),
    )
  ]
]
Step-IsSettled {x = x} (remove_folder j p k a b c d e) t r (inl h) =
    elim (Bool-cases (same_folder (slot j) r)) [
      | inl same ↦
          let here = same_folder_eq (slot j) r same in
          inr (
            λ i lt. ground (arith, subst (λ q. x.subs q i ≡ none) here (d i lt)),
            λ i lt. subst (λ q. x.files q i ≡ none) here (e i lt),
            ground (arith, same),
          )
      | inr other ↦ inl (ground (arith, other, h))
    ]
Step-IsSettled (remove_folder j p k a b c d e') t r (inr (e, g, u)) =
    inr (λ i lt. ground (arith, e i lt), g, ground (arith, u))
Step-IsSettled (relocate_folder r' q j p k a b c d e' g' h') t r (inl h) = inl h
Step-IsSettled {x = x} (relocate_folder r' q j p k a b c d e' g' h') t r (inr (e, g, u)) =
    elim (which x p r d) [
      | inl used ↦ inl used
      | inr other ↦ elim (Bool-cases (same_folder r' r)) [
        | inl same ↦
            let (live, _) = t.folders_linked.down q j r' a b c in
            inl (
              subst (λ o. x.home o ≡ true) (same_folder_eq r' r same)
                (ground (arith, t.proper r', live)))
        | inr elsewhere ↦
            inr (λ i lt. ground (arith, other, e i lt), g, ground (arith, elsewhere, u))
      ]
    ]

pub Steps-IsSettled :
    {x y : Shape} → Steps x y → IsTree x → (r : FolderRef) → IsSettled x r → IsSettled y r
Steps-IsSettled stay t r h = h
Steps-IsSettled (go s ss) t r h = Steps-IsSettled ss (Step-IsTree s t) r (Step-IsSettled s t r h)
