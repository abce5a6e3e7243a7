-- ===== src/FileLogic/Index/Position.antt =====
-- `get_chunk_index` against the list of a file's chunks.
use virtual_file_system_c.Prelude.{
  ℕ, ◌+◌, ◌-◌, ◌*◌, ◌/◌, ◌%◌, ◌≤◌, ◌<◌, ◌≡◌, ap, sym, ◌∙◌, inl, inr, List, [], ◌∷◌, ◌++◌, arith,
  length, get_or, get_or-append_left, get_or-append_right, ltb, lt→ltb, le→ltb, lt→leb, le→leb,
  if◌then◌else◌, Bool-cases, lt-cases,
}
use virtual_file_system_c.Settings.{chunk_size}
use virtual_file_system_c.Status.{done, error, index_out_of_bounds}
use virtual_file_system_c.Files.{ChunkExtent, File}
use virtual_file_system_c.FileStorage.{Disk}
use virtual_file_system_c.FileStorage.Owned.{
  file_chunks, range, length-range, get_or-range, length-file_chunks_used,
}
use virtual_file_system_c.FileStorage.Valid.{IsDisk}
use virtual_file_system_c.FileLogic.Index.{get_chunk_index, get_chunk_index_loop}

-- The chunk at a position of the file, position 0 for its first chunk.
abbrev pub chunk_at : File → ℕ → ℕ
chunk_at f position = get_or (file_chunks f.data_chunk_extents) position 0

-- The byte at a position of the file, in the storage as it is.
abbrev pub file_byte : Disk → ℕ → ℕ
file_byte s k = s.man.storage (chunk_at s.file (k / chunk_size) * chunk_size + k % chunk_size)

-- Past the chunks of the first extent.
get_or-range_past :
    (s n : ℕ) (ys : List ℕ) (i : ℕ) → n ≤ i → get_or (range s n ++ ys) i 0 ≡ get_or ys (i - n) 0
get_or-range_past s n ys i h =
    ap (λ k. get_or (range s n ++ ys) k 0) (omega (arith, length-range s n))
    ∙ get_or-append_right (range s n) ys (i - n) 0

in_range :
    (e : ChunkExtent) (es : List ChunkExtent) (i : ℕ)
    → i < e.chunk_amount
    → get_or (range e.start e.chunk_amount ++ file_chunks es) i 0 ≡ e.start + i
in_range e es i h =
    get_or-append_left (range e.start e.chunk_amount) (file_chunks es) i 0
      (omega (arith, length-range e.start e.chunk_amount))
    ∙ get_or-range e.start e.chunk_amount i 0 h

behind :
    (e : ChunkExtent) (es : List ChunkExtent) (position start : ℕ)
    → start + e.chunk_amount ≤ position
    → get_or (file_chunks es) (position - (start + e.chunk_amount)) 0
      ≡ get_or (range e.start e.chunk_amount ++ file_chunks es) (position - start) 0
behind e es position start past =
    ap (λ k. get_or (file_chunks es) k 0) (omega arith)
    ∙ sym
        (get_or-range_past e.start e.chunk_amount (file_chunks es) (position - start) (omega arith))

get_chunk_index_loop_lem :
    (es : List ChunkExtent) (position start : ℕ)
    → start ≤ position
    → position < start + length (file_chunks es)
    → get_chunk_index_loop es position start ≡ done (get_or (file_chunks es) (position - start) 0)
unfolding get_chunk_index_loop file_chunks
get_chunk_index_loop_lem [] position start lo hi = absurd (omega arith)
get_chunk_index_loop_lem (e ∷ es) position start lo hi = elim (Bool-cases e.is_empty) [
  | inl empty ↦ absurd (ground arith)
  | inr used ↦ elim (lt-cases position (start + e.chunk_amount)) [
    | inl here ↦
        rw (used, lt→ltb position (start + e.chunk_amount) here)
          (ap done (sym (in_range e es (position - start) (omega arith))))
    | inr past ↦
        rw (used, le→ltb position (start + e.chunk_amount) past)
          (get_chunk_index_loop_lem es position (start + e.chunk_amount) past
              (omega (arith, length-file_chunks_used e es used))
            ∙ ap done (behind e es position start past))
  ]
]

-- `get_chunk_index` finds the chunk at every position of a valid file, and refuses the positions
-- behind its end.
pub get_chunk_index_lem :
    {s : Disk} (position : ℕ)
    → IsDisk s
    → get_chunk_index s.file position ≡ (
        if ltb position (s.file.allocated_size)
        then done (chunk_at s.file position)
        else error index_out_of_bounds)
unfolding get_chunk_index
get_chunk_index_lem {s} position v = elim (lt-cases position s.file.allocated_size) [
  | inl h ↦
      rw (lt→ltb position s.file.allocated_size h, lt→leb s.file.allocated_size position h)
        (get_chunk_index_loop_lem s.file.data_chunk_extents position 0 (omega arith)
            (omega (arith, v.sized))
          ∙ ap (λ k. done (chunk_at s.file k)) (omega arith))
  | inr h ↦ rw (le→ltb position s.file.allocated_size h, le→leb s.file.allocated_size position h)
]
