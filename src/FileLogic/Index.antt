-- ===== src/FileLogic/Index.antt =====
-- Bytes to chunks, and positions in a file to chunks of the storage: `get_chunks_amount` and
-- `get_chunk_index` of system/file_logic.c.
pub mod Position
use virtual_file_system_c.Prelude.{
  ℕ, ◌+◌, ◌-◌, ◌/◌, ◌%◌, Bool, List, [], ◌∷◌, ltb, leb, ◌==◌, if◌then◌else◌,
}
use virtual_file_system_c.Settings.{chunk_size}
use virtual_file_system_c.Status.{
  Result, done, error, index_out_of_bounds, chunk_does_not_belong_to_file,
  not_found_chunks_terminated,
}
use virtual_file_system_c.Files.{ChunkExtent, File}

-- `uses_full_chunks`
unfoldable pub uses_full_chunks : ℕ → Bool
uses_full_chunks data_length = data_length % chunk_size == 0

-- `get_chunks_amount`
unfoldable pub get_chunks_amount : ℕ → ℕ
unfolding uses_full_chunks
get_chunks_amount data_length =
    if uses_full_chunks data_length then data_length / chunk_size else data_length / chunk_size + 1

-- The loop of `get_chunk_index`, with `cur_chunk_extent_relative_start`.
unfoldable pub get_chunk_index_loop : List ChunkExtent → (position relative_start : ℕ) → Result ℕ
get_chunk_index_loop [] position relative_start = error chunk_does_not_belong_to_file
get_chunk_index_loop (e ∷ es) position relative_start =
    if e.is_empty
    then error not_found_chunks_terminated
    else if ltb position (relative_start + e.chunk_amount)
    then done (e.start + (position - relative_start))
    else get_chunk_index_loop es position (relative_start + e.chunk_amount)

-- `get_chunk_index`
unfoldable pub get_chunk_index : File → ℕ → Result ℕ
unfolding get_chunk_index_loop
get_chunk_index f position =
    if leb f.allocated_size position
    then error index_out_of_bounds
    else get_chunk_index_loop f.data_chunk_extents position 0
