-- ===== src/Prelude/Search.antt =====
-- Loops over an array that return at the first index which passes a test.
use Prim.Native.Nat.{ℕ, zero, suc, ◌+◌, ◌≤◌, ◌<◌}
use mathlib.Core.Path.{◌≡◌, sym, ap, ◌∙◌}
use mathlib.Core.Logic.{◌⊎◌, inl, inr}
use mathlib.Core.Bool.{Bool, true, false}
use mathlib.Core.Option.{Option, none, some}
use native.Mathlib.Omega.{arith}
use virtual_file_system_c.Prelude.Tests.{◌==◌, Bool-cases}

abbrev pub is_null {ℓ} : {A : Type ℓ} → Option A → Bool
is_null none = true
is_null (some a) = false

-- The rounds left, and `i`.
unfoldable pub first_index : (rounds i : ℕ) → (ℕ → Bool) → Option ℕ
first_index zero i test = none
first_index (suc k) i test = elim (test i) [ true ↦ some i | false ↦ first_index k (i + 1) test ]

-- What such a loop gives, for `k` rounds from `i` on.
abbrev pub First : (ℕ → Bool) → (i k : ℕ) → Option ℕ → Type 0
First test i k none = (j : ℕ) → i ≤ j → j < i + k → test j ≡ false
First test i k (some p) =
    (i ≤ p) × (p < i + k) × (test p ≡ true) × ((j : ℕ) → i ≤ j → j < p → test j ≡ false)

eq-or-above : (i j : ℕ) → i ≤ j → (i ≡ j) ⊎ (i + 1 ≤ j)
eq-or-above i j h = elim (Bool-cases (i == j)) [
  | inl same ↦ inl (ground arith)
  | inr other ↦ inr (ground arith)
]

First-later :
    (k i : ℕ) (test : ℕ → Bool)
    → test i ≡ false
    → (found : Option ℕ) → First test (i + 1) k found
    → First test i (suc k) found
First-later k i test out none h = λ j a b. elim (eq-or-above i j a) [
  | inl same ↦ ap test (sym same) ∙ out
  | inr above ↦ h j above (omega arith)
]
First-later k i test out (some p) (a, b, c, d) = (
  omega arith,
  omega arith,
  c,
  λ j u v. elim (eq-or-above i j u) [
    | inl same ↦ ap test (sym same) ∙ out
    | inr above ↦ d j above v
  ],
)

-- The loop gives the first index that passes the test, or none passes.
pub first_index-First : (k i : ℕ) (test : ℕ → Bool) → First test i k (first_index k i test)
unfolding first_index
first_index-First zero i test = λ j a b. absurd (omega arith)
first_index-First (suc k) i test = elim (Bool-cases (test i)) [
  | inl is ↦ rw (is, first_index) (omega arith, omega arith, is, λ j a b. absurd (omega arith))
  | inr out ↦
      rw (out, first_index)
        (First-later k i test out (first_index k (i + 1) test) (first_index-First k (i + 1) test))
]
