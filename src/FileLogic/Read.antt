-- ===== src/FileLogic/Read.antt =====
-- Positional reads: `file_read_at` of system/file_logic.c and what it calls. A buffer is a memory
-- with the offset of the pointer.
pub mod Correct
pub mod Filled
use virtual_file_system_c.Prelude.{
  ℕ, zero, suc, ◌+◌, ◌-◌, ◌*◌, ◌/◌, ◌%◌, ltb, leb, ◌==◌, if◌then◌else◌, add_size, copy,
}
use virtual_file_system_c.Settings.{chunk_size}
use virtual_file_system_c.Status.{
  ◌>>>◌, Result, done, error, index_out_of_bounds, invalid_operation, insufficient_array_passed,
  data_over_flow,
}
use virtual_file_system_c.FileStorage.{Disk, file_read_chunk}
use virtual_file_system_c.FileLogic.Index.{get_chunk_index}

-- A buffer, and where the pointer `*buffer` stands in it.
abbrev pub Cursor : Type 0
Cursor = (ℕ → ℕ) × ℕ

-- `read_chunk_from_until`. `chread` fills all of `temp_buffer` before it is read.
unfoldable pub read_chunk_from_until :
    Disk → (start_offset amount relative_chunk_index : ℕ) → Cursor → Result Cursor
read_chunk_from_until s start_offset amount relative_chunk_index (buffer, at) =
    if ltb chunk_size (start_offset + amount)
    then error data_over_flow
    else get_chunk_index s.file relative_chunk_index >>> λ chunk_index.
        file_read_chunk chunk_index (λ _. 0) 0 chunk_size s >>> λ temp_buffer.
        let upper_lim =
          if ltb (start_offset + amount) chunk_size then start_offset + amount else chunk_size in
        done (
          copy buffer at temp_buffer start_offset (upper_lim - start_offset),
          at + (upper_lim - start_offset),
        )

-- `read_full_chunks_and_update_buffer_pointer`, with the rounds left.
unfoldable pub read_full_chunks : Disk → (rounds relative_chunk_index : ℕ) → Cursor → Result Cursor
read_full_chunks s zero relative_chunk_index cursor = done cursor
read_full_chunks s (suc k) relative_chunk_index (buffer, at) =
    get_chunk_index s.file relative_chunk_index >>> λ chunk_index.
    file_read_chunk chunk_index buffer at chunk_size s >>> λ filled.
    read_full_chunks s k (relative_chunk_index + 1) (filled, at + chunk_size)

-- `file_read_at` behind its first partial chunk of `first` bytes.
unfoldable pub read_rest : Disk → (first_index first amount : ℕ) → Cursor → Result Cursor
unfolding read_full_chunks
read_rest s first_index first amount cursor =
    let full_chunks_amount = (amount - first) / chunk_size in
    let final_size = (amount - first) % chunk_size in
    (if ltb 0 full_chunks_amount
      then read_full_chunks s full_chunks_amount (first_index + 1) cursor
      else done cursor)
    >>> λ next.
        if final_size == 0
        then done next
        else read_chunk_from_until s 0 final_size (first_index + full_chunks_amount + 1) next

-- `file_read_at`. The sum of `offset` and `amount` may wrap.
unfoldable pub file_read_at :
    Disk → (offset amount : ℕ) → Cursor → (buffer_size : ℕ) → Result Cursor
unfolding read_rest
file_read_at s offset amount cursor buffer_size =
    if ltb (s.file.allocated_size * chunk_size) (add_size offset amount)
    then error index_out_of_bounds
    else if amount == 0
    then error invalid_operation
    else if ltb buffer_size amount
    then error insufficient_array_passed
    else let first_offset = offset % chunk_size in
      let first_index = offset / chunk_size in
      let first_size = chunk_size - first_offset in
      if leb amount first_size
      then read_chunk_from_until s first_offset amount first_index cursor
      else read_chunk_from_until s first_offset first_size first_index cursor >>> λ next.
          read_rest s first_index first_size amount next
