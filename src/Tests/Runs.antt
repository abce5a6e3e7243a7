-- ===== src/Tests/Runs.antt =====
-- Whole runs of the file operations.
use virtual_file_system_c.Prelude.{ℕ, zero, suc, ◌+◌, ◌≡◌, refl, List, [], ◌∷◌, fill, copy}
use virtual_file_system_c.Status.{◌>>◌, done, error}
use virtual_file_system_c.Storage.{challoc, chwrite, chread, mark_as_allocated, challoc_loop}
use virtual_file_system_c.FileStorage.{
  Disk, on_man, file_allocate_chunks, file_write_chunk, file_read_chunk, file_owns_chunk,
  record_extent, get_available_chunk_extent_index,
}
use virtual_file_system_c.FileLogic.Index.{get_chunk_index}
use virtual_file_system_c.FileLogic.Read.{file_read_at, read_chunk_from_until}
use virtual_file_system_c.FileLogic.Append.{file_append}
use virtual_file_system_c.Tests.Data.{fresh_disk, after}

-- `[buffer + at, buffer + at + n)`
bytes : (ℕ → ℕ) → ℕ → ℕ → List ℕ
bytes f at zero = []
bytes f at (suc n) = f at ∷ bytes f (at + 1) n

read_back : Disk → ℕ → ℕ → List ℕ
unfolding bytes
read_back s offset amount = elim (file_read_at s offset amount (λ _. 0, 5) 500) [
  | done (out, at) ↦ bytes out 5 amount
  | error c ↦ []
]

-- Two appends of 11 and 3 bytes leave three chunks, the last bytes of each filled with 0x1e.
append_twice :
    read_back
      (after ((file_append (λ i. i + 40) 11 >> file_append (λ i. i + 70) 3) fresh_disk))
      6
      14
    ≡ 46 ∷ 47 ∷ 48 ∷ 49 ∷ 50 ∷ 30 ∷ 30 ∷ 30 ∷ 30 ∷ 30 ∷ 70 ∷ 71 ∷ 72 ∷ 30 ∷ []
unfolding read_back after file_append file_read_at read_chunk_from_until file_allocate_chunks on_man
    challoc challoc_loop mark_as_allocated fill copy chwrite chread file_write_chunk file_read_chunk
    file_owns_chunk get_chunk_index record_extent get_available_chunk_extent_index
append_twice = refl
