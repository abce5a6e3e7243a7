-- ===== src/FileLogic/Delete.antt =====
-- Deleting: `file_truncate_by` and `file_delete_data` of system/file_logic.c.
pub mod Clear
use virtual_file_system_c.Prelude.{
  ℕ, zero, suc, ◌+◌, ◌-◌, ◌*◌, ◌/◌, ◌%◌, true, false, none, some, List, [], ◌∷◌, ltb, leb, ◌==◌,
  if◌then◌else◌, get_elem?,
}
use virtual_file_system_c.Settings.{chunk_size, max_file_chunk_extents_amount}
use virtual_file_system_c.Status.{
  ok, fail, fault, Act, ◌>>=◌, ◌>>◌, lift, Result, done, error, index_out_of_bounds, file_is_empty,
}
use virtual_file_system_c.Storage.{chtrunc}
use virtual_file_system_c.Files.{ChunkExtent}
use virtual_file_system_c.FileStorage.{
  Disk, on_man, file_free_chunk_extent, file_truncate_chunk_extent,
}

-- `file_get_last_chunk_extent`: the loop, with `i` and the index of `cur_chunk_extent`.
unfoldable pub last_extent_loop : List ChunkExtent → (i last : ℕ) → ℕ
last_extent_loop [] i last = last
last_extent_loop (e ∷ es) i last = if e.is_empty then last else last_extent_loop es (i + 1) i

-- `file_get_last_chunk_extent`: the index of the extent. The loop breaks at the first empty extent
-- with `cur_chunk_extent` at the one before, or at the first, which is then empty itself.
unfoldable pub file_get_last_chunk_extent : Disk → Result ℕ
unfolding last_extent_loop
file_get_last_chunk_extent s = elim (s.file.data_chunk_extents) [
  | [] ↦ error file_is_empty
  | e ∷ es ↦ if e.is_empty then error file_is_empty else done (last_extent_loop es 1 0)
]

-- The loop of `file_truncate_by` that deletes whole extents. The first number is one more than the
-- index of `cur_chunk_extent`; the result is what it is at the end, 0 if the pointer has left the
-- array at its start, and `deleted_chunks_count`.
unfoldable pub delete_extents_loop : (position deleted full : ℕ) → Act Disk (ℕ × ℕ)
delete_extents_loop zero deleted full s = ok (0, deleted) s
delete_extents_loop (suc i) deleted full s = elim (get_elem? s.file.data_chunk_extents i) [
  | none ↦ fault
  | some e ↦ elim (ltb full (deleted + e.chunk_amount)) [
    | true ↦ ok (suc i, deleted) s
    | false ↦ elim (file_free_chunk_extent i s) [
      | fail c t ↦ fail c t
      | fault ↦ fault
      | ok u t ↦ elim (get_elem? t.file.data_chunk_extents i) [
        | none ↦ fault
        | some freed ↦ delete_extents_loop i (deleted + freed.chunk_amount) full t
      ]
    ]
  ]
]

-- The end of `file_truncate_by`, for the chunk that loses some bytes.
unfoldable pub truncate_final_chunk : (i amount : ℕ) → Act Disk (Unit {0})
truncate_final_chunk i amount t = elim (get_elem? t.file.data_chunk_extents i) [
  | none ↦ fault
  | some e ↦
      if amount % chunk_size == 0
      then ok tt t
      else on_man (chtrunc (e.start + e.chunk_amount - 1) (amount % chunk_size)) t
]

-- `file_truncate_by` behind that loop. It reads `cur_chunk_extent->is_empty` first, which is outside
-- the array if the loop has deleted every extent.
unfoldable pub truncate_final_extent : (amount full : ℕ) → ℕ × ℕ → Act Disk (Unit {0})
unfolding truncate_final_chunk
truncate_final_extent amount full (zero, deleted) s = fault
truncate_final_extent amount full (suc i, deleted) s =
    elim (get_elem? s.file.data_chunk_extents i) [
      | none ↦ fault
      | some e ↦
          if e.is_empty
          then (if deleted == full then ok tt s else fail index_out_of_bounds s)
          else if leb e.chunk_amount (full - deleted)
          then fail index_out_of_bounds s
          else (file_truncate_chunk_extent i (full - deleted) >> truncate_final_chunk i amount) s
    ]

-- `file_truncate_by`
unfoldable pub file_truncate_by : ℕ → Act Disk (Unit {0})
unfolding file_get_last_chunk_extent delete_extents_loop truncate_final_extent
file_truncate_by amount s =
    if ltb (s.file.allocated_size * chunk_size) amount
    then fail index_out_of_bounds s
    else (lift file_get_last_chunk_extent >>= λ last.
          delete_extents_loop (suc last) 0 (amount / chunk_size)
          >>= truncate_final_extent amount (amount / chunk_size))
        s

-- The loop of `file_delete_data`, on fuel: each round advances the index or deletes an extent.
unfoldable pub delete_data_loop : (fuel index : ℕ) → Act Disk (Unit {0})
delete_data_loop zero index s = fault
delete_data_loop (suc k) index s = elim (ltb index max_file_chunk_extents_amount) [
  | false ↦ ok tt s
  | true ↦ elim (get_elem? s.file.data_chunk_extents index) [
    | none ↦ fault
    | some e ↦ elim (e.is_empty) [
      | true ↦ delete_data_loop k (index + 1) s
      | false ↦ elim (file_free_chunk_extent index s) [
        | ok u t ↦ delete_data_loop k index t
        | fail c t ↦ fail c t
        | fault ↦ fault
      ]
    ]
  ]
]

-- `file_delete_data`. Ten extents and ten positions: 21 rounds are enough.
unfoldable pub file_delete_data : Act Disk (Unit {0})
unfolding delete_data_loop
file_delete_data = delete_data_loop 21 0
