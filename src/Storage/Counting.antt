-- ===== src/Storage/Counting.antt =====
-- How many entries of an allocation map are free, and how the writes to the map change that.
use virtual_file_system_c.Prelude.{
  ℕ, zero, suc, ◌+◌, ◌≤◌, ◌<◌, ◌≡◌, refl, Bool, true, false, arith, if◌then◌else◌, update, fill,
}

-- The free entries below `n`.
unfoldable pub count_free : (ℕ → Bool) → ℕ → ℕ
count_free map zero = 0
count_free map (suc n) = count_free map n + (if map n then 0 else 1)

-- The entries from `p` on, `n` of them, are free.
abbrev pub FreeRun : (ℕ → Bool) → ℕ → ℕ → Type 0
FreeRun map p n = (j : ℕ) → p ≤ j → j < p + n → map j ≡ false

pub count_free-le : (map : ℕ → Bool) (n : ℕ) → count_free map n ≤ n
unfolding count_free
count_free-le map zero = omega arith
count_free-le map (suc n) = ground (arith, count_free-le map n)

-- A write above the range that is counted.
pub count_free-update_above :
    (map : ℕ → Bool) (p : ℕ) (v : Bool) (n : ℕ)
    → n ≤ p
    → count_free (update map p v) n ≡ count_free map n
unfolding count_free
count_free-update_above map p v zero h = refl
count_free-update_above map p v (suc n) h = ground (arith, count_free-update_above map p v n)

-- A free entry is taken.
pub count_free-take :
    (map : ℕ → Bool) (p n : ℕ)
    → p < n
    → map p ≡ false
    → count_free (update map p true) n + 1 ≡ count_free map n
unfolding count_free
count_free-take map p zero h e = elim h [ ]
count_free-take map p (suc n) h e =
    ground (arith, count_free-take map p n, count_free-update_above map p true n)

-- A taken entry is freed.
pub count_free-release :
    (map : ℕ → Bool) (p n : ℕ)
    → p < n
    → map p ≡ true
    → count_free (update map p false) n ≡ count_free map n + 1
unfolding count_free
count_free-release map p zero h e = elim h [ ]
count_free-release map p (suc n) h e =
    ground (arith, count_free-release map p n, count_free-update_above map p false n)

-- An entry is written that is there already.
pub count_free-same :
    (map : ℕ → Bool) (p : ℕ) (v : Bool) (n : ℕ)
    → map p ≡ v
    → count_free (update map p v) n ≡ count_free map n
unfolding count_free
count_free-same map p v zero e = refl
count_free-same map p v (suc n) e = ground (arith, count_free-same map p v n)

-- A run of free entries is taken.
pub count_free-fill :
    (map : ℕ → Bool) (p k n : ℕ)
    → p + k ≤ n
    → FreeRun map p k
    → count_free (fill map p k true) n + k ≡ count_free map n
unfolding fill
count_free-fill map p zero n h free = omega arith
count_free-fill map p (suc k) n h free = omega (
  arith,
  count_free-fill (update map p true) (p + 1) k n (omega arith) rest,
  count_free-take map p n (omega arith) (free p (omega arith) (omega arith)),
)
  where
    rest : FreeRun (update map p true) (p + 1) k
    rest j lo hi = ground (arith, free j)

-- With nothing taken every entry counts.
pub count_free-all : (map : ℕ → Bool) (n : ℕ) → FreeRun map 0 n → count_free map n ≡ n
unfolding count_free
count_free-all map zero free = refl
count_free-all map (suc n) free = ground (
  arith,
  count_free-all map n (λ j lo hi. free j lo (omega arith)),
  free n (omega arith) (omega arith),
)

-- A run of free entries is no longer than the count.
pub run-le-count_free :
    (map : ℕ → Bool) (p k n : ℕ) → p + k ≤ n → FreeRun map p k → k ≤ count_free map n
run-le-count_free map p k n h free = omega (arith, count_free-fill map p k n h free)
