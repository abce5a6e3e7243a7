-- ===== src/FileLogic/Append/Data.antt =====
-- `file_append` of system/file_logic.c behind the allocation of the chunks.
use virtual_file_system_c.Prelude.{
  ℕ, ◌+◌, ◌-◌, ◌*◌, ◌/◌, ◌≤◌, ◌<◌, ◌≡◌, ap, ◌∙◌, some, true, arith, inside, get_elem?,
}
use virtual_file_system_c.Settings.{chunk_size}
use virtual_file_system_c.Status.{ok, bind-ok}
use virtual_file_system_c.FileStorage.{Disk}
use virtual_file_system_c.FileStorage.Owned.{file_chunks, contains}
use virtual_file_system_c.FileStorage.Valid.{IsDisk}
use virtual_file_system_c.FileStorage.Allocate.{}
use virtual_file_system_c.FileLogic.Index.{get_chunks_amount, uses_full_chunks}
use virtual_file_system_c.FileLogic.Append.{
  write_data, full_chunks, write_full_chunks, write_final_chunk, extent_start,
}
use virtual_file_system_c.FileLogic.Append.Write.{
  padded, full_chunks_lem, write_full_chunks_lem, write_final_chunk_lem,
}
use virtual_file_system_c.FileStorage.Placed.{used_extent}
use virtual_file_system_c.FileLogic.Append.Wrote.{
  Wrote, Wrote-IsDisk, Wrote-append, Wrote-ext, Wrote-cast,
}

pub get_chunks_amount_lem :
    (len : ℕ)
    → (len ≤ get_chunks_amount len * chunk_size)
      × (get_chunks_amount len * chunk_size < len + chunk_size)
unfolding get_chunks_amount uses_full_chunks
get_chunks_amount_lem len = ground arith

padded_full :
    (src : ℕ → ℕ) (len j : ℕ) → j < len / chunk_size * chunk_size → src (0 + j) ≡ padded src len j
unfolding padded
padded_full src len j h = ground arith

extent_start_lem :
    (index first amount : ℕ) (s : Disk)
    → get_elem? s.file.data_chunk_extents index ≡ some (used_extent first amount)
    → extent_start index s ≡ ok first s
unfolding extent_start
extent_start_lem index first amount s e = rw (e, extent_start)

-- Everything behind the allocation succeeds.
pub write_data_lem :
    (src : ℕ → ℕ) (len index first : ℕ) {s : Disk}
    → IsDisk s
    → get_elem? s.file.data_chunk_extents index ≡ some (used_extent first (get_chunks_amount len))
    → ((c : ℕ)
        → inside first (get_chunks_amount len) c ≡ true
        → contains (file_chunks s.file.data_chunk_extents) c ≡ true)
    → (t : Disk) × (write_data src len index s ≡ ok tt t)
      × Wrote (padded src len) s first (get_chunks_amount len) t
unfolding write_data
write_data_lem src len index first {s} v e mine =
    let full = len / chunk_size in
    let enough = get_chunks_amount_lem len in
    let (m, e1, w) =
      write_full_chunks_lem index full first src 0 v (λ j h. mine (first + j) (ground arith)) in
    let e1' : write_full_chunks index (full_chunks len) first src 0 s
        ≡ ok (first + full, full * chunk_size) m =
      ap (λ k. write_full_chunks index k first src 0 s) (full_chunks_lem len)
      ∙ e1
      ∙ ap (λ d. ok (first + full, d) m) (omega arith) in
    let (t, e2, x) =
      write_final_chunk_lem src len index (first + full) (Wrote-IsDisk w v)
        (λ h. rw w.file (mine (first + full) (ground arith))) in
    (
      t,
      bind-ok (extent_start index) _ (extent_start_lem index first (get_chunks_amount len) s e)
          ∙ bind-ok (write_full_chunks index (full_chunks len) first src 0)
              (write_final_chunk src len index) e1'
          ∙ e2,
      Wrote-cast (omega (arith, enough)) (
          Wrote-append (padded src len) first full (get_chunks_amount len - full)
            (Wrote-ext (λ j h. padded_full src len j h) w) x),
    )
