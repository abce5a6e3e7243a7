-- ===== src/FileLogic/Append.antt =====
-- Appending: `file_append` of system/file_logic.c and what it calls.
pub mod Correct
pub mod Data
pub mod Write
pub mod Wrote
use virtual_file_system_c.Prelude.{
  ℕ, zero, suc, ◌+◌, ◌-◌, ◌*◌, ◌%◌, none, some, ltb, ◌==◌, if◌then◌else◌, get_elem?, copy, fill,
}
use virtual_file_system_c.Settings.{chunk_size, eoc_operator}
use virtual_file_system_c.Status.{
  ok, fail, fault, Act, ◌>>=◌, ◌>>◌, pure, invalid_operation, data_over_flow,
}
use virtual_file_system_c.FileStorage.{
  Disk, file_allocate_chunks, file_free_chunk_extent, file_write_chunk,
}
use virtual_file_system_c.FileLogic.Index.{uses_full_chunks, get_chunks_amount}

-- `get_remaining_data`, for `data_amount` up to a chunk's size.
unfoldable pub get_remaining_data : (ℕ → ℕ) → (data_start data_amount : ℕ) → ℕ → ℕ
get_remaining_data bytes data_start data_amount =
    fill (copy (λ _. 0) 0 bytes data_start data_amount) data_amount (chunk_size - data_amount)
      eoc_operator

-- `status = ...; if (status != SUCCESS) { file_free_chunk_extent(...); return status; }`
unfoldable pub or_roll_back : {A : Type 0} → ℕ → Act Disk A → Act Disk A
or_roll_back index act s = elim (act s) [
  | ok a t ↦ ok a t
  | fail c t ↦ elim (file_free_chunk_extent index t) [
    | ok u r ↦ fail c r
    | fail d r ↦ fail c r
    | fault ↦ fault
  ]
  | fault ↦ fault
]

-- The loop of `file_append` over the full chunks, with the rounds left, `cur_chunk` and
-- `cur_data_addrs`; the result is where these stand at the end.
unfoldable pub write_full_chunks :
    ℕ → (rounds cur_chunk : ℕ) → (ℕ → ℕ) → (cur_data_addrs : ℕ) → Act Disk (ℕ × ℕ)
unfolding or_roll_back
write_full_chunks index zero cur_chunk bytes cur_data_addrs = pure (cur_chunk, cur_data_addrs)
write_full_chunks index (suc k) cur_chunk bytes cur_data_addrs =
    or_roll_back index (file_write_chunk cur_chunk bytes cur_data_addrs chunk_size)
    >> write_full_chunks index k (cur_chunk + 1) bytes (cur_data_addrs + chunk_size)

-- `allocated_chunk_extent->start`
unfoldable pub extent_start : ℕ → Act Disk ℕ
extent_start i s = elim (get_elem? s.file.data_chunk_extents i) [
  | none ↦ fault
  | some e ↦ ok e.start s
]

-- The end of `file_append`: the chunk that is filled in part, if there is one.
unfoldable pub write_final_chunk : (ℕ → ℕ) → (data_length index : ℕ) → ℕ × ℕ → Act Disk (Unit {0})
unfolding uses_full_chunks get_remaining_data or_roll_back
write_final_chunk bytes data_length index (cur_chunk, cur_data_addrs) =
    if uses_full_chunks data_length
    then pure tt
    else or_roll_back index (
        file_write_chunk cur_chunk
          (get_remaining_data bytes cur_data_addrs (data_length % chunk_size)) 0 chunk_size)

-- `chunks_needed - !uses_full_chunks(data_length)`
unfoldable pub full_chunks : ℕ → ℕ
unfolding get_chunks_amount
full_chunks data_length =
    get_chunks_amount data_length - (if uses_full_chunks data_length then 0 else 1)

-- `file_append` from the allocation on.
unfoldable pub write_data : (ℕ → ℕ) → (data_length index : ℕ) → Act Disk (Unit {0})
unfolding full_chunks extent_start write_full_chunks write_final_chunk
write_data bytes data_length index = do
  start ← extent_start index
  next ← write_full_chunks index (full_chunks data_length) start bytes 0
  write_final_chunk bytes data_length index next

-- `file_append`
unfoldable pub file_append : (ℕ → ℕ) → ℕ → Act Disk (Unit {0})
unfolding get_chunks_amount write_data
file_append bytes data_length s =
    if ltb (s.man.free_chunk_count * chunk_size) data_length
    then fail data_over_flow s
    else if data_length == 0
    then fail invalid_operation s
    else (file_allocate_chunks (get_chunks_amount data_length) >>= write_data bytes data_length) s
