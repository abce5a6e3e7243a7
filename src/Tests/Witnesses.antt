-- ===== src/Tests/Witnesses.antt =====
-- The theorems on the storage and on files, each at an input where its hypotheses hold.
use virtual_file_system_c.Prelude.{
  ℕ, ◌+◌, ◌<◌, ◌≡◌, refl, true, false, some, List, arith, if◌then◌else◌, ltb, leb, set, fill, copy,
}
use virtual_file_system_c.Settings.{chunk_size, chunks_amount}
use virtual_file_system_c.Status.{ok, done, error, index_out_of_bounds}
use virtual_file_system_c.Storage.{
  StorageMan, challoc_loop, mark_as_allocated, storage_man_create, challoc, chfree, chwrite, chread,
}
use virtual_file_system_c.Storage.Valid.{IsValid, storage_man_create-IsValid}
use virtual_file_system_c.Storage.Alloc.{Alloc, challoc_decides, chfree-free}
use virtual_file_system_c.Storage.Chunks.{chread-chwrite}
use virtual_file_system_c.Files.{ChunkExtent}
use virtual_file_system_c.FileStorage.{
  Disk, on_man, file_allocate_chunks, record_extent, get_available_chunk_extent_index,
  file_free_chunk_extent, file_owns_chunk, file_write_chunk, chunk_extent_left_shift,
}
use virtual_file_system_c.FileStorage.Owned.{file_chunks, range, contains}
use virtual_file_system_c.FileStorage.Allocate.{Allocation, file_allocate_chunks-Allocation}
use virtual_file_system_c.FileStorage.Release.{Removed, emptied, chunk_extent_left_shift_lem}
use virtual_file_system_c.FileStorage.Free.{Released, file_free_chunk_extent-Released}
use virtual_file_system_c.FileLogic.Index.{get_chunk_index}
use virtual_file_system_c.FileLogic.Index.Position.{chunk_at, get_chunk_index_lem}
use virtual_file_system_c.FileLogic.Read.{file_read_at}
use virtual_file_system_c.FileLogic.Read.Correct.{file_read_at-Fills, file_read_at-out_of_bounds}
use virtual_file_system_c.FileLogic.Append.{file_append}
use virtual_file_system_c.FileLogic.RoundTrip.{file_read_at-file_append}
use virtual_file_system_c.FileLogic.Append.Correct.{AppendOutcome, file_append-AppendOutcome}
use virtual_file_system_c.FileLogic.Delete.{file_delete_data}
use virtual_file_system_c.FileLogic.Delete.Clear.{Cleared, file_delete_data-Cleared}
use virtual_file_system_c.Files.{File, file_init}
use virtual_file_system_c.FileStorage.Start.{file_init-IsDisk}
use virtual_file_system_c.FileStorage.Valid.{IsDisk}
use virtual_file_system_c.Tests.Data.{fresh_disk, after, used_man, used_file, used_disk}
use virtual_file_system_c.Tests.Valid.{fresh_disk-IsDisk, used_man-IsValid, used_disk-IsDisk}
use virtual_file_system_c.FileStorage.Placed.{used_extent}
use virtual_file_system_c.FileLogic.Read.Filled.{Fills}

file_append-AppendOutcome_example : AppendOutcome (λ i. i + 40) 11 used_disk
file_append-AppendOutcome_example =
    file_append-AppendOutcome (λ i. i + 40) 11 used_disk-IsDisk (omega arith) (omega arith)

file_read_at-Fills_example :
    Fills used_disk 6 (λ _. 0) 5 12 (file_read_at used_disk 6 12 (λ _. 0, 5) 20)
file_read_at-Fills_example =
    file_read_at-Fills 6 12 (λ _. 0) 5 20 used_disk-IsDisk (omega arith) (omega arith) (omega arith)

file_delete_data-Cleared_example :
    (t : Disk) × (file_delete_data used_disk ≡ ok tt t) × Cleared used_disk t
file_delete_data-Cleared_example = file_delete_data-Cleared used_disk-IsDisk

challoc_decides_example : Alloc used_man 4
challoc_decides_example = challoc_decides used_man-IsValid (omega arith) (omega arith)

abbrev first_extent : ChunkExtent
first_extent = used_extent 2 1

file_free_chunk_extent-Released_example :
    (t : Disk) × (file_free_chunk_extent 0 used_disk ≡ ok tt t)
    × Released used_disk 0 first_extent t
file_free_chunk_extent-Released_example =
    file_free_chunk_extent-Released 0 first_extent used_disk-IsDisk refl refl

file_allocate_chunks-Allocation_example : Allocation used_disk 7
file_allocate_chunks-Allocation_example =
    file_allocate_chunks-Allocation 7 used_disk-IsDisk (omega arith) (omega arith)

file_read_at-out_of_bounds_example :
    file_read_at used_disk 20 5 (λ _. 0, 0) 8 ≡ error index_out_of_bounds
file_read_at-out_of_bounds_example =
    file_read_at-out_of_bounds 20 5 (λ _. 0, 0) 8 used_disk-IsDisk (omega arith) (omega arith)
      (omega arith) (omega arith) (omega arith)

get_chunk_index_example :
    get_chunk_index used_file 2
    ≡ (if ltb 2 3 then done (chunk_at used_file 2) else error index_out_of_bounds)
get_chunk_index_example = get_chunk_index_lem 2 used_disk-IsDisk

chunk_extent_left_shift_example :
    (out : List ChunkExtent) × (chunk_extent_left_shift 0
        (set (used_file.data_chunk_extents) 0 (emptied first_extent))
      ≡ done out)
    × Removed (used_file.data_chunk_extents) 0 first_extent out
chunk_extent_left_shift_example =
    chunk_extent_left_shift_lem (used_file.data_chunk_extents) 0 first_extent
      (used_disk-IsDisk.compact) refl refl

chread-chwrite_example :
    (m' : StorageMan) × (out' : ℕ → ℕ) × (chwrite 1 (λ i. i) 3 chunk_size used_man ≡ ok tt m')
    × (chread 1 (λ _. 0) 4 9 m' ≡ done out')
    × ((k : ℕ) → k < chunk_size → out' (4 + k) ≡ 3 + k)
    × IsValid m'
chread-chwrite_example =
    chread-chwrite 1 (λ i. i) 3 (λ _. 0) 4 9 used_man-IsValid (omega arith) refl (omega arith)

chfree-free_example : (m' : StorageMan) × (chfree 9 used_man ≡ ok tt m') × (¬ IsValid m')
chfree-free_example = chfree-free 9 used_man-IsValid (omega arith) refl

storage_man_create-IsValid_example :
    (m : StorageMan) × (storage_man_create (some (λ i. i)) (some (λ j. leb 7 j)) ≡ done m)
    × IsValid m
    × (m.free_chunk_count ≡ chunks_amount)
    × ((j : ℕ) → j < chunks_amount → m.allocation_map j ≡ false)
storage_man_create-IsValid_example = storage_man_create-IsValid (λ i. i) (λ j. leb 7 j)

used-contains : contains (file_chunks (used_disk.file.data_chunk_extents)) 2 ≡ true
unfolding contains file_chunks range
used-contains = refl

append_succeeds :
    file_append (λ i. i + 40) 11 fresh_disk
    ≡ ok tt (after (file_append (λ i. i + 40) 11 fresh_disk))
unfolding after file_append file_allocate_chunks on_man challoc challoc_loop mark_as_allocated fill
    copy chwrite file_write_chunk file_owns_chunk record_extent get_available_chunk_extent_index
append_succeeds = refl

file_read_at-file_append_example :
    (out : ℕ → ℕ) × (file_read_at
        (after (file_append (λ i. i + 40) 11 fresh_disk))
        0
        11
        (λ _. 0, 2)
        11
      ≡ done (out, 13))
    × ((k : ℕ) → k < 11 → out (2 + k) ≡ k + 40)
file_read_at-file_append_example =
    file_read_at-file_append (λ i. i + 40) 11 (λ _. 0) 2 fresh_disk-IsDisk (omega arith)
      (omega arith) append_succeeds

file_init-IsDisk_example :
    (f : File) × (file_init used_file (λ i. i + 97) 3 ≡ done f)
    × IsDisk (record { file = f; man = used_man })
    × (f.allocated_size ≡ 0)
    × ((k : ℕ) → k < 3 → f.name k ≡ k + 97)
    × (f.name 3 ≡ 0)
file_init-IsDisk_example =
    file_init-IsDisk used_file used_man (λ i. i + 97) 3 used_man-IsValid refl (omega arith)
