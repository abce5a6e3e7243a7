-- ===== src/Storage.antt =====
-- The storage manager: system/storage.c and system/include/storage.h. The storage and the
-- allocation map are the regions behind the two pointers; `Storage.Valid` has their bounds.
pub mod Counting
pub mod FirstRun
pub mod Valid
pub mod Alloc
pub mod Chunks
use virtual_file_system_c.Prelude.{
  ℕ, zero, suc, ◌+◌, ◌-◌, ◌*◌, ◌/◌, Bool, true, false, ◌||◌, Option, none, some, ltb, leb, ◌==◌,
  if◌then◌else◌, add_size, sub_size, update, fill, copy,
}
use virtual_file_system_c.Settings.{chunk_size, chunks_amount, storage_bytes, eoc_operator}
use virtual_file_system_c.Status.{
  StatusCode, Outcome, ok, fail, Act, Result, done, error, insufficient_array_passed,
  invalid_argument, no_space, index_out_of_bounds, data_over_flow, free_chunk_access_attempt,
  invalid_operation,
}

-- `StorageMan`
pub record StorageMan : Type 0 where
  pub storage : ℕ → ℕ
  pub storage_size : ℕ
  pub free_chunk_count : ℕ
  pub allocation_map : ℕ → Bool

-- `get_chunk_addr`: the offset of a chunk in the storage, for a position in range.
abbrev pub get_chunk_addr : ℕ → ℕ
get_chunk_addr chunk_pos = chunk_pos * chunk_size

-- `allocation_map_init`
unfoldable pub allocation_map_init : (ℕ → Bool) → ℕ → Bool
allocation_map_init map = fill map 0 chunks_amount false

-- `storage_man_init`
unfoldable pub storage_man_init :
    (storage : ℕ → ℕ) (storage_size : ℕ) (map : ℕ → Bool) → ℕ → Result StorageMan
storage_man_init storage storage_size map map_size =
    if ltb storage_size storage_bytes
    then error insufficient_array_passed
    else if ltb map_size chunks_amount
    then error insufficient_array_passed
    else done (record {
      storage = storage;
      storage_size = storage_size;
      free_chunk_count = storage_size / chunk_size;
      allocation_map = allocation_map_init map;
    })

-- `storage_man_create`: what `malloc` returns is given, `none` for NULL.
unfoldable pub storage_man_create : Option (ℕ → ℕ) → Option (ℕ → Bool) → Result StorageMan
storage_man_create none map = error StatusCode.allocation_failed
storage_man_create (some storage) none = error StatusCode.allocation_failed
storage_man_create (some storage) (some map) =
    storage_man_init storage storage_bytes map (storage_bytes / chunk_size)

-- `mark_as_allocated`
unfoldable pub mark_as_allocated : (ℕ → Bool) → ℕ → ℕ → ℕ → Bool
mark_as_allocated map offset amount = fill map offset amount true

-- The loop of `challoc`, with the rounds left, `i`, `cur_pos` and
-- `available_continuous_chunks_count`.
unfoldable pub challoc_loop : (ℕ → Bool) → ℕ → ℕ → (i cur_pos count : ℕ) → Option ℕ
challoc_loop map amount zero i cur_pos count = none
challoc_loop map amount (suc k) i cur_pos count = elim (map i) [
  | true ↦ challoc_loop map amount k (i + 1) (i + 1) 0
  | false ↦ elim (leb amount (count + 1)) [
    | true ↦ some cur_pos
    | false ↦ challoc_loop map amount k (i + 1) cur_pos (count + 1)
  ]
]

challoc_found : ℕ → Option ℕ → Act StorageMan ℕ
challoc_found amount none m = fail no_space m
challoc_found amount (some pos) m = ok pos (record m {
  allocation_map = mark_as_allocated m.allocation_map pos amount;
  free_chunk_count = sub_size m.free_chunk_count amount;
})

-- `challoc`. The statement `NO_SPACE;` under `amount > free_chunk_count` has no effect.
unfoldable pub challoc : ℕ → Act StorageMan ℕ
unfolding challoc_found
challoc amount m =
    if amount == 0 || ltb chunks_amount amount
    then fail invalid_argument m
    else challoc_found amount (challoc_loop m.allocation_map amount chunks_amount 0 0 0) m

-- `chfree`
unfoldable pub chfree : ℕ → Act StorageMan (Unit {0})
chfree chunk_pos m =
    if leb chunks_amount chunk_pos
    then fail index_out_of_bounds m
    else ok tt (record m {
      allocation_map = update m.allocation_map chunk_pos false;
      free_chunk_count = add_size m.free_chunk_count 1;
    })

-- `chwrite`, with the memory of `data` and the offset of the pointer in it.
unfoldable pub chwrite : ℕ → (ℕ → ℕ) → ℕ → ℕ → Act StorageMan (Unit {0})
chwrite chunk_pos bytes offset len m =
    if ltb chunk_size len
    then fail data_over_flow m
    else if leb chunks_amount chunk_pos
    then fail index_out_of_bounds m
    else if m.allocation_map chunk_pos
    then ok tt (record m { storage = copy m.storage (get_chunk_addr chunk_pos) bytes offset len })
    else fail free_chunk_access_attempt m

-- `chread`, with the memory of `out_data_array` and the offset of the pointer in it; the result is
-- that memory afterwards.
unfoldable pub chread : ℕ → (ℕ → ℕ) → ℕ → ℕ → StorageMan → Result (ℕ → ℕ)
chread chunk_index out offset len m =
    if ltb len chunk_size
    then error insufficient_array_passed
    else if leb chunks_amount chunk_index
    then error index_out_of_bounds
    else if m.allocation_map chunk_index
    then done (copy out offset m.storage (get_chunk_addr chunk_index) chunk_size)
    else error free_chunk_access_attempt

-- `chtrunc`. Its last test cannot fail: the position has been checked.
unfoldable pub chtrunc : ℕ → ℕ → Act StorageMan (Unit {0})
chtrunc chunk_index amount m =
    if leb chunks_amount chunk_index
    then fail index_out_of_bounds m
    else if ltb chunk_size amount
    then fail index_out_of_bounds m
    else if amount == 0
    then fail invalid_operation m
    else ok tt (record m {
      storage =
          fill m.storage (get_chunk_addr chunk_index + (chunk_size - amount)) amount eoc_operator;
    })
