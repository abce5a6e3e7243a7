-- ===== src/FileStorage/FreeChunks.antt =====
-- `free_chunk_extent` of system/file_storage.c gives a run of chunks back.
use virtual_file_system_c.Prelude.{
  ℕ, zero, suc, ◌+◌, ◌<◌, ◌≡◌, refl, ◌∙◌, true, false, arith, if◌then◌else◌, inside,
}
use virtual_file_system_c.Settings.{chunks_amount}
use virtual_file_system_c.Status.{ok, bind-ok}
use virtual_file_system_c.Storage.{StorageMan, chfree}
use virtual_file_system_c.Storage.Valid.{IsValid}
use virtual_file_system_c.Storage.Alloc.{chfree-taken}
use virtual_file_system_c.FileStorage.{free_chunk_extent}
use virtual_file_system_c.FileStorage.Owned.{}

-- A run of taken chunks has been freed.
pub record Freed (m : StorageMan) (cur k : ℕ) (m' : StorageMan) : Type 0 where
  pub valid : IsValid m'
  pub map : (j : ℕ) → m'.allocation_map j ≡ (if inside cur k j then false else m.allocation_map j)
  pub count : m'.free_chunk_count ≡ m.free_chunk_count + k
  pub bytes : m'.storage ≡ m.storage

pub free_chunk_extent_lem :
    (k cur : ℕ) {m : StorageMan}
    → IsValid m
    → ((j : ℕ) → inside cur k j ≡ true → (j < chunks_amount) × (m.allocation_map j ≡ true))
    → (m' : StorageMan) × (free_chunk_extent k cur m ≡ ok tt m') × Freed m cur k m'
unfolding free_chunk_extent
free_chunk_extent_lem zero cur {m} v taken =
    (m, refl, record { valid = v; map = λ j. ground arith; count = omega arith; bytes = refl })
free_chunk_extent_lem (suc k) cur {m} v taken =
    let (n, e, vn, count, map, bytes) =
      chfree-taken cur v (taken cur (ground arith)).0 (taken cur (ground arith)).1 in
    let (m', e', f) =
      free_chunk_extent_lem k (cur + 1) vn
        (λ j i. ((taken j (ground arith)).0, map j ∙ ground (arith, taken j))) in
    (
      m',
      bind-ok (chfree cur) (λ _. free_chunk_extent k (cur + 1)) e ∙ e',
      record {
        valid = f.valid;
        map = λ j. ground (arith, f.map j, map j);
        count = omega (arith, f.count, count);
        bytes = f.bytes ∙ bytes;
      },
    )
