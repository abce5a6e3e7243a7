-- ===== src/Storage/Valid.antt =====
-- The storage manager's invariant, and the operations that set it up.
use virtual_file_system_c.Prelude.{ℕ, ◌≤◌, ◌<◌, ◌≡◌, refl, Bool, false, some, arith, fill_lem}
use virtual_file_system_c.Settings.{chunks_amount, storage_bytes}
use virtual_file_system_c.Status.{done}
use virtual_file_system_c.Storage.{
  StorageMan, storage_man_init, storage_man_create, allocation_map_init,
}
use virtual_file_system_c.Storage.Counting.{count_free, count_free-all}

-- The free count is the number of free entries, and the storage holds every chunk.
pub record IsValid (m : StorageMan) : Type 0 where
  pub counted : m.free_chunk_count ≡ count_free m.allocation_map chunks_amount
  pub room : storage_bytes ≤ m.storage_size

pub free-fresh : (map : ℕ → Bool) (j : ℕ) → j < chunks_amount → allocation_map_init map j ≡ false
unfolding allocation_map_init
free-fresh map j h = ground (arith, fill_lem map 0 chunks_amount false j)

-- `storage_man_create` with memory for both arrays gives a valid manager of 500 chunks, all free,
-- whatever that memory held.
pub storage_man_create-IsValid :
    (storage : ℕ → ℕ) (map : ℕ → Bool)
    → (m : StorageMan) × (storage_man_create (some storage) (some map) ≡ done m)
      × IsValid m
      × (m.free_chunk_count ≡ chunks_amount)
      × ((j : ℕ) → j < chunks_amount → m.allocation_map j ≡ false)
unfolding storage_man_create storage_man_init
storage_man_create-IsValid storage map = (
  record {
    storage = storage;
    storage_size = storage_bytes;
    free_chunk_count = chunks_amount;
    allocation_map = allocation_map_init map;
  },
  refl,
  record {
    counted = omega (
      arith,
      count_free-all (allocation_map_init map) chunks_amount (λ j lo hi. free-fresh map j hi),
    );
    room = omega arith;
  },
  refl,
  free-fresh map,
)
