-- ===== src/Storage/FirstRun.antt =====
-- The search of `challoc` of system/storage.c for the first run of free chunks.
use virtual_file_system_c.Prelude.{
  ℕ, zero, suc, ◌+◌, ◌≤◌, ◌<◌, ◌≡◌, refl, inl, inr, Bool, true, false, Option, none, some, arith,
  lt→leb, le→leb, Bool-cases, lt-cases,
}
use virtual_file_system_c.Settings.{chunks_amount}
use virtual_file_system_c.Storage.{challoc_loop}
use virtual_file_system_c.Storage.Counting.{FreeRun}

-- What a first-fit search for `amount` free entries below `n` gives.
abbrev pub FirstRun : (ℕ → Bool) → ℕ → ℕ → Option ℕ → Type 0
FirstRun map amount n none = (q : ℕ) → q + amount ≤ n → ¬ FreeRun map q amount
FirstRun map amount n (some p) =
    FreeRun map p amount × (p + amount ≤ n) × ((q : ℕ) → q < p → ¬ FreeRun map q amount)

-- What the loop has found out at index `i`: a run of `count` from `cur` on, and nothing before.
record Scanned (map : ℕ → Bool) (amount i cur count : ℕ) : Type 0 where
  adds : cur + count ≡ i
  short : count < amount
  run : FreeRun map cur count
  before : (q : ℕ) → q < cur → ¬ FreeRun map q amount

module _ {map : ℕ → Bool} {amount i cur count : ℕ} (s : Scanned map amount i cur count) where
  open s use {adds, short, run, before}

  Scanned-taken : map i ≡ true → Scanned map amount (i + 1) (i + 1) 0
  Scanned-taken e = record {
    adds = omega arith;
    short = omega arith;
    run = λ j lo hi. absurd (omega arith);
    before = λ q h free. elim (lt-cases q cur) [
      | inl lt ↦ before q lt free
      | inr le ↦ ground (arith, free i)
    ];
  }

  longer : map i ≡ false → FreeRun map cur (count + 1)
  longer e j lo hi = ground (arith, run j)

  Scanned-free : map i ≡ false → count + 1 < amount → Scanned map amount (i + 1) cur (count + 1)
  Scanned-free e h = record { adds = omega arith; short = h; run = longer e; before = before }

challoc_loop-FirstRun :
    (map : ℕ → Bool) (amount n k i cur count : ℕ)
    → i + k ≡ n
    → Scanned map amount i cur count
    → FirstRun map amount n (challoc_loop map amount k i cur count)
unfolding challoc_loop
challoc_loop-FirstRun map amount n zero i cur count e s = λ q h free. s.before q (omega arith) free
challoc_loop-FirstRun map amount n (suc k) i cur count e s = elim (Bool-cases (map i)) [
  | inl taken ↦
      rw (taken, challoc_loop)
        (challoc_loop-FirstRun map amount n k (i + 1) (i + 1) 0 (omega arith)
          (Scanned-taken s taken))
  | inr free ↦ elim (lt-cases (count + 1) amount) [
    | inl more ↦
        rw (free, lt→leb amount (count + 1) more, challoc_loop)
          (challoc_loop-FirstRun map amount n k (i + 1) cur (count + 1) (omega arith)
            (Scanned-free s free more))
    | inr enough ↦
        rw (free, le→leb amount (count + 1) enough, challoc_loop)
          (λ j lo hi. longer s free j lo (omega arith), omega arith, s.before)
  ]
]

-- The search of `challoc` is a first-fit search of the whole map.
pub challoc-FirstRun :
    (map : ℕ → Bool) (amount : ℕ)
    → 0 < amount
    → FirstRun map amount chunks_amount (challoc_loop map amount chunks_amount 0 0 0)
challoc-FirstRun map amount h =
    challoc_loop-FirstRun map amount chunks_amount chunks_amount 0 0 0 refl (record {
      adds = refl;
      short = h;
      run = λ j lo hi. absurd (omega arith);
      before = λ q lt free. absurd (omega arith);
    })
