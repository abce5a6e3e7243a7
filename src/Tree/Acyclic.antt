-- ===== src/Tree/Acyclic.antt =====
-- In a tree no folder is below one of its own sub folders.
use mathlib.Core.Path.{subst}
use virtual_file_system_c.Prelude.{
  some_inj, ℕ, ◌<◌, ◌≡◌, refl, sym, ◌∙◌, ◌⊎◌, inl, inr, true, Option, some, arith,
}
use virtual_file_system_c.Files.{FolderRef}
use virtual_file_system_c.Tree.Rooted.{Rooted, at_root, under, Below, here, down}
use virtual_file_system_c.Tree.Valid.{Shape, IsTree}
use virtual_file_system_c.Tree.Grow.{IsTree-parent}

-- The last step down to a folder.
Below-last :
    {subs : FolderRef → ℕ → Option FolderRef} {r p : FolderRef}
    → Below subs r p
    → (r ≡ p) ⊎ ((y : FolderRef) × (k : ℕ) × Below subs r y × (k < 10) × (subs y k ≡ some p))
Below-last (here r) = inl refl
Below-last (down {r = r} {q = q} k lt e b) = elim (Below-last b) [
  | inl same ↦ inr (r, k, here r, lt, e ∙ (λ i. some (same i)))
  | inr (y, j, c, l, f) ↦ inr (y, j, down k lt e c, l, f)
]

pub IsTree-sub :
    {x : Shape} (t : IsTree x) (p q : FolderRef) (k : ℕ)
    → x.home p ≡ true
    → k < 10
    → x.subs p k ≡ some q
    → (x.home q ≡ true) × (x.parent q ≡ some p)
IsTree-sub t p q k h lt e =
    let (live, up) = t.folders_linked.down p k q h lt e in (ground (arith, live, t.proper q), up)

-- All that is below a folder in use is in use.
pub Below-home :
    {x : Shape} (t : IsTree x) {r p : FolderRef}
    → Below x.subs r p
    → x.home r ≡ true
    → x.home p ≡ true
Below-home t (here r) h = h
Below-home t (down {r = r} {q = q} k lt e b) h =
    let (used, _) = IsTree-sub t r q k h lt e in Below-home t b used

no_cycle :
    {x : Shape} (t : IsTree x) {q : FolderRef} (p : FolderRef)
    → Rooted x.parent q
    → x.home q ≡ true
    → x.parent q ≡ some p
    → Below x.subs q p
    → ⊥
no_cycle t p at_root h e b = absurd (ground (arith, t.top, e))
no_cycle {x} t {q} p (under {p = s} up path) h e b =
    let same : p ≡ s = some_inj (sym e ∙ up) in
    let b' : Below x.subs q s = subst (Below x.subs q) same b in
    let (k, used, lt, there) = IsTree-parent q s t h up in
    elim (Below-last b') [
      | inl top ↦ no_cycle t s path used (subst (λ r. x.parent r ≡ some s) top up) (here s)
      | inr (y, j, c, l, f) ↦
          let (_, above) = IsTree-sub t y s j (Below-home t c h) l f in
          no_cycle t y path used above (down k lt there c)
    ]

pub IsTree-apart :
    {x : Shape} (t : IsTree x) (r q : FolderRef) (k : ℕ)
    → x.home r ≡ true
    → k < 10
    → x.subs r k ≡ some q
    → ¬ Below x.subs q r
IsTree-apart t r q k h lt e b =
    let (used, up) = IsTree-sub t r q k h lt e in no_cycle t r (t.rooted q used) used up b
