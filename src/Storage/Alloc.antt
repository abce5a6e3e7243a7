-- ===== src/Storage/Alloc.antt =====
-- The allocator `challoc` and `chfree` of system/storage.c.
use virtual_file_system_c.Prelude.{
  ℕ, ◌+◌, ◌≤◌, ◌<◌, ◌≡◌, refl, Bool, true, false, Option, none, some, arith, fill_lem, inside,
  if◌then◌else◌, lt→leb, update, sub_size, add_size, ◌==◌,
}
use virtual_file_system_c.Settings.{chunks_amount}
use virtual_file_system_c.Status.{ok, fail, no_space}
use virtual_file_system_c.Storage.{StorageMan, challoc, challoc_loop, mark_as_allocated, chfree}
use virtual_file_system_c.Storage.Counting.{
  count_free, FreeRun, count_free-fill, count_free-le, count_free-release, count_free-same,
}
use virtual_file_system_c.Storage.Valid.{IsValid}
use virtual_file_system_c.Storage.FirstRun.{FirstRun, challoc-FirstRun}

pub mark_lem :
    (map : ℕ → Bool) (p n j : ℕ)
    → mark_as_allocated map p n j ≡ (if inside p n j then true else map j)
unfolding mark_as_allocated
mark_lem map p n j = fill_lem map p n true j

mark-count_free :
    (map : ℕ → Bool) (p n : ℕ)
    → p + n ≤ chunks_amount
    → FreeRun map p n
    → count_free (mark_as_allocated map p n) chunks_amount + n ≡ count_free map chunks_amount
unfolding mark_as_allocated
mark-count_free map p n h free = count_free-fill map p n chunks_amount h free

-- What a successful `challoc` did.
pub record Allocated (m : StorageMan) (amount p : ℕ) (m' : StorageMan) : Type 0 where
  pub was_free : FreeRun m.allocation_map p amount
  pub in_range : p + amount ≤ chunks_amount
  pub first : (q : ℕ) → q < p → ¬ FreeRun m.allocation_map q amount
  pub map : (j : ℕ) → m'.allocation_map j ≡ (if inside p amount j then true else m.allocation_map j)
  pub count : m'.free_chunk_count + amount ≡ m.free_chunk_count
  pub bytes : m'.storage ≡ m.storage
  pub valid : IsValid m'

-- What `challoc` returns for an amount that it accepts.
pub data Alloc (m : StorageMan) (amount : ℕ) : Type 0 where
  got :
      (p : ℕ) (m' : StorageMan)
      → challoc amount m ≡ ok p m'
      → Allocated m amount p m'
      → Alloc m amount
  full :
      challoc amount m ≡ fail no_space m
      → ((q : ℕ) → q + amount ≤ chunks_amount → ¬ FreeRun m.allocation_map q amount)
      → Alloc m amount

module _ {m : StorageMan} (v : IsValid m) {amount : ℕ} (pos : 0 < amount)
    (fits : amount ≤ chunks_amount) where
  open v use {counted, room}

  challoc-got :
      (p : ℕ)
      → challoc_loop m.allocation_map amount chunks_amount 0 0 0 ≡ some p
      → FirstRun m.allocation_map amount chunks_amount (some p)
      → Alloc m amount
  unfolding challoc
  challoc-got p e (run, range, first) =
      let marked = mark-count_free m.allocation_map p amount range run in
      let few = count_free-le m.allocation_map chunks_amount in
      got p
        (record m {
          allocation_map = mark_as_allocated m.allocation_map p amount;
          free_chunk_count = sub_size m.free_chunk_count amount;
        })
        (ground (arith, e))
        (record {
          was_free = run;
          in_range = range;
          first = first;
          map = mark_lem m.allocation_map p amount;
          count = omega (arith, marked, few, counted);
          bytes = refl;
          valid = record { counted = omega (arith, marked, few, counted); room = room };
        })

  challoc-full :
      challoc_loop m.allocation_map amount chunks_amount 0 0 0 ≡ none
      → FirstRun m.allocation_map amount chunks_amount none
      → Alloc m amount
  unfolding challoc
  challoc-full e none_fits = full (ground (arith, e)) none_fits

  challoc-cases :
      (o : Option ℕ)
      → challoc_loop m.allocation_map amount chunks_amount 0 0 0 ≡ o
      → FirstRun m.allocation_map amount chunks_amount o
      → Alloc m amount
  challoc-cases none e r = challoc-full e r
  challoc-cases (some p) e r = challoc-got p e r

  -- On a valid manager `challoc` of 1 to 500 chunks is decided: it takes the first run of free
  -- chunks that is long enough and stays valid, or says NO_SPACE and there is no such run.
  pub challoc_decides : Alloc m amount
  challoc_decides = challoc-cases _ refl (challoc-FirstRun m.allocation_map amount pos)

-- On a valid manager `challoc` refuses more chunks than are free, up to 500, though the test for
-- that has no effect in the code: the search finds no run, and the manager is unchanged.
pub challoc-over_free :
    {m : StorageMan} (amount : ℕ)
    → IsValid m
    → m.free_chunk_count < amount
    → amount ≤ chunks_amount
    → challoc amount m ≡ fail no_space m
challoc-over_free amount v h fits = elim (challoc_decides v (omega arith) fits) [
  | got p m' e a ↦ absurd (omega (arith, a.count))
  | full e none_fits ↦ e
]

-- `chfree` of a taken chunk in range of a valid manager: the chunk is free, the count is one more,
-- the other chunks and the bytes are as before, and the manager stays valid.
pub chfree-taken :
    {m : StorageMan} (p : ℕ)
    → IsValid m
    → p < chunks_amount
    → m.allocation_map p ≡ true
    → (m' : StorageMan) × (chfree p m ≡ ok tt m')
      × IsValid m'
      × (m'.free_chunk_count ≡ m.free_chunk_count + 1)
      × ((j : ℕ) → m'.allocation_map j ≡ (if p == j then false else m.allocation_map j))
      × (m'.storage ≡ m.storage)
unfolding chfree
chfree-taken {m} p v h e =
    let released = count_free-release m.allocation_map p chunks_amount h e in
    let few = count_free-le (update m.allocation_map p false) chunks_amount in
    let m' : StorageMan = record m {
      allocation_map = update m.allocation_map p false;
      free_chunk_count = add_size m.free_chunk_count 1;
    } in
    (
      m',
      rw (lt→leb chunks_amount p h),
      record { counted = omega (arith, released, few, v.counted); room = v.room },
      omega (arith, released, few, v.counted),
      λ j. refl,
      refl,
    )

-- `chfree` of a chunk in range of a valid manager that is already free succeeds and breaks the
-- invariant.
pub chfree-free :
    {m : StorageMan} (p : ℕ)
    → IsValid m
    → p < chunks_amount
    → m.allocation_map p ≡ false
    → (m' : StorageMan) × (chfree p m ≡ ok tt m') × (¬ IsValid m')
unfolding chfree
chfree-free {m} p v h e =
    let same = count_free-same m.allocation_map p false chunks_amount e in
    let few = count_free-le m.allocation_map chunks_amount in
    (
      record m {
        allocation_map = update m.allocation_map p false;
        free_chunk_count = add_size m.free_chunk_count 1;
      },
      rw (lt→leb chunks_amount p h),
      λ w. omega (arith, same, few, v.counted, w.counted),
    )
