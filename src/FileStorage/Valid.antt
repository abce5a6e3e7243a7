-- ===== src/FileStorage/Valid.antt =====
-- The invariant that ties a file to the storage manager.
use virtual_file_system_c.Prelude.{ℕ, ◌+◌, ◌≤◌, ◌<◌, ◌≡◌, ◌⊎◌, true, false, List, [], ◌∷◌, length}
use virtual_file_system_c.Settings.{chunks_amount, max_file_chunk_extents_amount}
use virtual_file_system_c.Files.{ChunkExtent}
use virtual_file_system_c.Storage.Valid.{IsValid}
use virtual_file_system_c.Status.{ok, Act}
use virtual_file_system_c.Storage.{StorageMan}
use virtual_file_system_c.FileStorage.{Disk, on_man}
use virtual_file_system_c.FileStorage.Owned.{file_chunks, contains, Distinct}

abbrev pub AllEmpty : List ChunkExtent → Type 0
AllEmpty [] = Unit
AllEmpty (e ∷ es) = (e.is_empty ≡ true) × AllEmpty es

-- Extents in use come first, and each has a chunk.
abbrev pub Compact : List ChunkExtent → Type 0
Compact [] = Unit
Compact (e ∷ es) =
    ((e.is_empty ≡ true) × AllEmpty es) ⊎ ((e.is_empty ≡ false) × (0 < e.chunk_amount) × Compact es)

-- What the file layer keeps true of a file and the manager.
pub record IsDisk (s : Disk) : Type 0 where
  pub man_valid : IsValid s.man
  pub slots : length s.file.data_chunk_extents ≡ max_file_chunk_extents_amount
  pub compact : Compact s.file.data_chunk_extents
  pub sized : s.file.allocated_size ≡ length (file_chunks s.file.data_chunk_extents)
  pub distinct : Distinct (file_chunks s.file.data_chunk_extents)
  pub taken :
      (c : ℕ)
      → contains (file_chunks s.file.data_chunk_extents) c ≡ true
      → s.man.allocation_map c ≡ true
  pub in_range :
      (c : ℕ) → contains (file_chunks s.file.data_chunk_extents) c ≡ true → c < chunks_amount
  pub small : s.file.allocated_size + s.man.free_chunk_count ≤ chunks_amount

-- A call of the storage manager that succeeds.
pub on_man-ok :
    {A : Type 0} (act : Act StorageMan A) {s : Disk} {a : A} {m : StorageMan}
    → act s.man ≡ ok a m
    → on_man act s ≡ ok a (record s { man = m })
unfolding on_man
on_man-ok act e = rw (e, on_man)
