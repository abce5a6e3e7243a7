-- ===== src/FileLogic/Append/Correct.antt =====
-- `file_append` of system/file_logic.c adds its data behind the bytes of the file.
use virtual_file_system_c.Prelude.{
  ℕ, ◌+◌, ◌*◌, ◌/◌, ◌%◌, ◌≤◌, ◌<◌, ◌≡◌, ap, ◌∙◌, ◌⊎◌, inl, inr, Bool-cases, true, false, ◌++◌,
  arith, le→ltb, pos→ne_zero, get_or, get_or-append_left, get_or-append_right,
}
use virtual_file_system_c.Settings.{chunk_size, chunks_amount}
use virtual_file_system_c.Status.{
  ok, fail, bind-ok, bind-fail, ◌>>=◌, no_space, file_chunk_extent_limit_exceeded,
}
use virtual_file_system_c.Storage.Chunks.{byte_at}
use virtual_file_system_c.Storage.Counting.{FreeRun}
use virtual_file_system_c.FileStorage.{Disk, file_allocate_chunks}
use virtual_file_system_c.FileStorage.Owned.{
  file_chunks, range, get_or-range, contains-append, contains-range, contains-get_or, contains,
}
use virtual_file_system_c.FileStorage.Valid.{IsDisk}
use virtual_file_system_c.FileStorage.Allocate.{
  extended, no_run, no_slot, Extended, AllUsed, file_allocate_chunks-Allocation,
}
use virtual_file_system_c.FileLogic.Index.{get_chunks_amount}
use virtual_file_system_c.FileLogic.Index.Position.{chunk_at, file_byte}
use virtual_file_system_c.FileLogic.Append.{write_data, file_append}
use virtual_file_system_c.FileLogic.Append.Write.{padded}
use virtual_file_system_c.FileLogic.Append.Data.{get_chunks_amount_lem, write_data_lem}
use virtual_file_system_c.FileLogic.Append.Wrote.{Wrote, Wrote-IsDisk}

-- What a successful append of `len` bytes did to a file and the manager.
pub record Appended (src : ℕ → ℕ) (len : ℕ) (s t : Disk) : Type 0 where
  pub valid : IsDisk t
  pub size : t.file.allocated_size ≡ s.file.allocated_size + get_chunks_amount len
  pub kept : (k : ℕ) → k < s.file.allocated_size * chunk_size → file_byte t k ≡ file_byte s k
  pub added :
      (k : ℕ)
      → k < get_chunks_amount len * chunk_size
      → file_byte t (s.file.allocated_size * chunk_size + k) ≡ padded src len k
  pub others :
      (c b : ℕ)
      → s.man.allocation_map c ≡ true
      → b < chunk_size
      → (t.man.allocation_map c ≡ true) × (byte_at t.man c b ≡ byte_at s.man c b)
  pub name : t.file.name ≡ s.file.name
  pub parent : t.file.parent_folder ≡ s.file.parent_folder
  pub fresh :
      (c : ℕ)
      → contains (file_chunks t.file.data_chunk_extents) c ≡ true
      → (contains (file_chunks s.file.data_chunk_extents) c ≡ true)
        ⊎ (s.man.allocation_map c ≡ false)

module _ (src : ℕ → ℕ) (len index first : ℕ) {s m t : Disk} (v : IsDisk s)
    (x : Extended s (get_chunks_amount len) index first m)
    (w : Wrote (padded src len) m first (get_chunks_amount len) t) where
  chunks_now :
      file_chunks t.file.data_chunk_extents
      ≡ file_chunks s.file.data_chunk_extents ++ range first (get_chunks_amount len)
  chunks_now = ap (λ f. file_chunks (f.data_chunk_extents)) w.file ∙ x.chunks

  old_chunk : (q : ℕ) → q < s.file.allocated_size → chunk_at t.file q ≡ chunk_at s.file q
  old_chunk q h =
      ap (λ xs. get_or xs q 0) chunks_now
      ∙ get_or-append_left (file_chunks s.file.data_chunk_extents)
          (range first (get_chunks_amount len)) q 0 (omega (arith, v.sized))

  new_chunk :
      (q : ℕ) → q < get_chunks_amount len → chunk_at t.file (s.file.allocated_size + q) ≡ first + q
  new_chunk q h =
      ap (λ xs. get_or xs (s.file.allocated_size + q) 0) chunks_now
      ∙ ap
          (λ n.
            get_or (file_chunks s.file.data_chunk_extents ++ range first (get_chunks_amount len))
              (n + q) 0)
          v.sized
      ∙ get_or-append_right (file_chunks s.file.data_chunk_extents)
          (range first (get_chunks_amount len)) q 0
      ∙ get_or-range first (get_chunks_amount len) q 0 h

  old_bytes :
      (c b : ℕ)
      → s.man.allocation_map c ≡ true
      → b < chunk_size
      → byte_at t.man c b ≡ byte_at s.man c b
  old_bytes c b taken h =
      w.old c b (ground (arith, x.allocated.was_free c)) h
      ∙ ap (λ st. st (c * chunk_size + b)) x.allocated.bytes

  still_taken : (c : ℕ) → s.man.allocation_map c ≡ true → t.man.allocation_map c ≡ true
  still_taken c taken = ap (λ f. f c) w.map ∙ x.allocated.map c ∙ ground arith

  fresh_chunk :
      (c : ℕ)
      → contains (file_chunks t.file.data_chunk_extents) c ≡ true
      → (contains (file_chunks s.file.data_chunk_extents) c ≡ true)
        ⊎ (s.man.allocation_map c ≡ false)
  fresh_chunk c h = elim (Bool-cases (contains (file_chunks s.file.data_chunk_extents) c)) [
    | inl mine ↦ inl mine
    | inr other ↦ inr (
        ground (
          arith,
          other,
          h,
          ap (λ xs. contains xs c) chunks_now,
          contains-append (file_chunks s.file.data_chunk_extents)
              (range first (get_chunks_amount len)) c,
          contains-range first (get_chunks_amount len) c,
          x.allocated.was_free c,
        ))
  ]

  -- The parts of a successful append together.
  appended_lem : Appended src len s t
  appended_lem = record {
    valid = Wrote-IsDisk w x.valid;
    size = ap (λ f. f.allocated_size) w.file ∙ x.size;
    kept = λ k h.
        ap (λ c. byte_at t.man c (k % chunk_size)) (old_chunk (k / chunk_size) (omega arith))
        ∙ old_bytes (chunk_at s.file (k / chunk_size)) (k % chunk_size)
            (v.taken (chunk_at s.file (k / chunk_size)) (
              contains-get_or (file_chunks s.file.data_chunk_extents) (k / chunk_size) 0
                (omega (arith, v.sized))))
            (omega arith);
    added = λ k h.
        ap (λ q. byte_at t.man (chunk_at t.file q) ((s.file.allocated_size * 8 + k) % 8))
          (omega arith)
        ∙ ap (byte_at t.man (chunk_at t.file (s.file.allocated_size + k / 8))) (omega arith)
        ∙ ap (λ c. byte_at t.man c (k % 8)) (new_chunk (k / 8) (omega arith))
        ∙ w.new (k / 8) (k % 8) (omega arith) (omega arith)
        ∙ ap (padded src len) (omega arith);
    others = λ c b taken h. (still_taken c taken, old_bytes c b taken h);
    name = ap (λ f. f.name) w.file ∙ x.name;
    parent = ap (λ f. f.parent_folder) w.file ∙ x.parent;
    fresh = fresh_chunk;
  }

-- The outcomes of `file_append` for data that is not longer than the free chunks.
pub data AppendOutcome (src : ℕ → ℕ) (len : ℕ) (s : Disk) : Type 0 where
  appended :
      (t : Disk) → file_append src len s ≡ ok tt t → Appended src len s t → AppendOutcome src len s
  no_run_of_chunks :
      file_append src len s ≡ fail no_space s
      → ((q : ℕ)
          → q + get_chunks_amount len ≤ chunks_amount
          → ¬ FreeRun s.man.allocation_map q (get_chunks_amount len))
      → AppendOutcome src len s
  no_extent :
      file_append src len s ≡ fail file_chunk_extent_limit_exceeded s
      → AllUsed s.file.data_chunk_extents
      → AppendOutcome src len s

module _ (src : ℕ → ℕ) (len : ℕ) {s : Disk} (v : IsDisk s) (some_bytes : 0 < len)
    (room : len ≤ s.man.free_chunk_count * chunk_size) where
  -- Past the guards.
  file_append-guards :
      file_append src len s
      ≡ (file_allocate_chunks (get_chunks_amount len) >>= write_data src len) s
  unfolding file_append
  file_append-guards =
      rw (le→ltb (s.man.free_chunk_count * chunk_size) len room, pos→ne_zero len some_bytes)

  Extended-AppendOutcome :
      (index first : ℕ) (m : Disk)
      → file_allocate_chunks (get_chunks_amount len) s ≡ ok index m
      → Extended s (get_chunks_amount len) index first m
      → AppendOutcome src len s
  Extended-AppendOutcome index first m e x =
      let (t, e', w) = write_data_lem src len index first x.valid x.extent (λ c h. rw x.chunks (
        ground (
          arith,
          h,
          contains-append (file_chunks s.file.data_chunk_extents)
              (range first (get_chunks_amount len)) c,
          contains-range first (get_chunks_amount len) c,
        ))) in
      appended t
        (file_append-guards
          ∙ bind-ok (file_allocate_chunks (get_chunks_amount len)) (write_data src len) e
          ∙ e')
        (appended_lem src len index first v x w)

  -- Appending at least one byte, and no more than the free chunks hold, to a valid file either puts
  -- the data behind the bytes of the file, padded to whole chunks with the end-of-chunk byte, keeps
  -- those bytes and every chunk in use, and leaves a valid disk; or changes nothing, and then no
  -- run of free chunks is long enough or no extent is empty.
  pub file_append-AppendOutcome : AppendOutcome src len s
  file_append-AppendOutcome =
      let enough = get_chunks_amount_lem len in
      elim (file_allocate_chunks-Allocation (get_chunks_amount len) v (omega (arith, enough))
        (omega (arith, enough, v.small))) [
          | extended index first m e x ↦ Extended-AppendOutcome index first m e x
          | no_run e none_fits ↦
              no_run_of_chunks
                (file_append-guards
                  ∙ bind-fail (file_allocate_chunks (get_chunks_amount len)) (write_data src len) e)
                none_fits
          | no_slot e used ↦
              no_extent
                (file_append-guards
                  ∙ bind-fail (file_allocate_chunks (get_chunks_amount len)) (write_data src len) e)
                used
        ]
