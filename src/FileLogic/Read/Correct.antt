-- ===== src/FileLogic/Read/Correct.antt =====
-- `file_read_at` gives the bytes of the file at the positions asked for.
use virtual_file_system_c.Prelude.{
  ℕ, zero, suc, ◌+◌, ◌-◌, ◌*◌, ◌/◌, ◌%◌, ◌^◌, ◌≤◌, ◌<◌, ◌≡◌, refl, ap, ◌∙◌, inl, inr, true, arith,
  ltb, lt→ltb, le→ltb, lt→leb, le→leb, if◌then◌else◌, lt-cases, copy, copy_in, copy_out, add_size,
  ◌==◌, pos→ne_zero,
}
use virtual_file_system_c.Settings.{chunk_size, chunks_amount}
use virtual_file_system_c.Status.{◌>>>◌, Result, done, error, index_out_of_bounds}
use virtual_file_system_c.Storage.Chunks.{byte_at, chread_lem}
use virtual_file_system_c.FileStorage.{Disk, file_read_chunk, file_owns_chunk}
use virtual_file_system_c.FileStorage.Owned.{
  file_chunks, contains, contains-get_or, file_owns_chunk-contains,
}
use virtual_file_system_c.FileStorage.Valid.{IsDisk}
use virtual_file_system_c.FileLogic.Index.{get_chunk_index}
use virtual_file_system_c.FileLogic.Index.Position.{chunk_at, file_byte, get_chunk_index_lem}
use virtual_file_system_c.FileLogic.Read.{
  Cursor, read_chunk_from_until, read_full_chunks, read_rest, file_read_at,
}
use virtual_file_system_c.FileLogic.Read.Filled.{
  Filled, Fills, fills, Filled-nil, Filled-append, Filled-ext, Fills-cast,
}

module _ {s : Disk} (v : IsDisk s) where
  -- A chunk of the file can be read.
  read_chunk_lem :
      (position : ℕ) (buf : ℕ → ℕ) (at : ℕ)
      → position < s.file.allocated_size
      → (out : ℕ → ℕ) × (file_read_chunk (chunk_at s.file position) buf at chunk_size s ≡ done out)
        × Filled (byte_at s.man (chunk_at s.file position)) buf at chunk_size out
  unfolding file_read_chunk
  read_chunk_lem position buf at h =
      let c = chunk_at s.file position in
      let mine : contains (file_chunks s.file.data_chunk_extents) c ≡ true =
        contains-get_or (file_chunks s.file.data_chunk_extents) position 0
          (omega (arith, v.sized)) in
      let owned : file_owns_chunk s.file.data_chunk_extents c ≡ true =
        file_owns_chunk-contains s.file.data_chunk_extents c ∙ mine in
      let (out, read, inner, outer) =
        chread_lem s.man c (v.in_range c mine) (v.taken c mine) buf at chunk_size (omega arith) in
      (
        out,
        rw (lt→leb chunks_amount c (v.in_range c mine), owned) read,
        record { inner = inner; outer = outer },
      )

  -- The bytes of one chunk are bytes of the file.
  byte_of_chunk :
      (position k : ℕ)
      → k < chunk_size
      → byte_at s.man (chunk_at s.file position) k ≡ file_byte s (position * chunk_size + k)
  byte_of_chunk position k h =
      ap (λ q. byte_at s.man (chunk_at s.file q) k) (omega arith)
      ∙ ap (byte_at s.man (chunk_at s.file ((position * 8 + k) / 8))) (omega arith)

  found :
      (position : ℕ)
      → position < s.file.allocated_size
      → get_chunk_index s.file position ≡ done (chunk_at s.file position)
  found position h = get_chunk_index_lem position v ∙ rw (lt→ltb position s.file.allocated_size h)

  -- One reading step behind another.
  Fills-then :
      {offset : ℕ} {buf : ℕ → ℕ} {at n : ℕ} {r : Result Cursor} (k : ℕ) (f : Cursor → Result Cursor)
      → Fills s offset buf at n r
      → ((out : ℕ → ℕ) → Fills s (offset + n) out (at + n) k (f (out, at + n)))
      → Fills s offset buf at (n + k) (r >>> f)
  Fills-then {offset} {buf} {at} {n} {r} k f (fills out e first) next = go (next out)
    where
      go :
          Fills s (offset + n) out (at + n) k (f (out, at + n))
          → Fills s offset buf at (n + k) (r >>> f)
      go (fills out' e' second) = fills out' (rw e (e' ∙ ap (λ j. done (out', j)) (omega arith))) (
          Filled-append (λ j. file_byte s (offset + j)) at n k first
            (Filled-ext (λ j lt. ap (file_byte s) (omega arith)) second))

  read_full_chunks-Fills :
      (k position : ℕ) (buf : ℕ → ℕ) (at : ℕ)
      → position + k ≤ s.file.allocated_size
      → Fills s
          (position * chunk_size)
          buf
          at
          (k * chunk_size)
          (read_full_chunks s k position (buf, at))
  unfolding read_full_chunks
  read_full_chunks-Fills zero position buf at h =
      fills buf (ap (λ j. done (buf, j)) (omega arith)) (Filled-nil _ buf at)
  read_full_chunks-Fills (suc k) position buf at h =
      let (out, read, filled) = read_chunk_lem position buf at (omega arith) in
      rw (found position (omega arith), read)
        (Fills-cast refl (omega arith) (
          Fills-then (k * chunk_size) (read_full_chunks s k (position + 1))
            (fills out refl (Filled-ext (byte_of_chunk position) filled))
            (λ next.
              Fills-cast (omega arith) refl
                (read_full_chunks-Fills k (position + 1) next (at + chunk_size) (omega arith)))))

  -- A part of one chunk.
  read_chunk_from_until-Fills :
      (start amount position : ℕ) (buf : ℕ → ℕ) (at : ℕ)
      → start + amount ≤ chunk_size
      → position < s.file.allocated_size
      → Fills s
          (position * chunk_size + start)
          buf
          at
          amount
          (read_chunk_from_until s start amount position (buf, at))
  unfolding read_chunk_from_until
  read_chunk_from_until-Fills start amount position buf at fits h =
      let (temp, read, filled) = read_chunk_lem position (λ _. 0) 0 h in
      let upper = if ltb (start + amount) chunk_size then start + amount else chunk_size in
      let e : upper - start ≡ amount = ground arith in
      rw (le→ltb chunk_size (start + amount) fits, found position h, read, e)
        (fills (copy buf at temp start amount) refl (record {
          inner = λ k lt.
              copy_in buf at temp start amount (at + k) (ground arith)
              ∙ ap temp (omega arith)
              ∙ filled.inner (start + k) (omega arith)
              ∙ byte_of_chunk position (start + k) (omega arith)
              ∙ ap (file_byte s) (omega arith);
          outer = λ j out. copy_out buf at temp start amount j out;
        }))

  -- The full chunks behind the first partial chunk.
  full_chunks-Fills :
      (k position : ℕ) (buf : ℕ → ℕ) (at : ℕ)
      → position + k ≤ s.file.allocated_size
      → Fills s
          (position * chunk_size)
          buf
          at
          (k * chunk_size)
          (if ltb 0 k then read_full_chunks s k position (buf, at) else done (buf, at))
  full_chunks-Fills zero position buf at h =
      fills buf (ap (λ j. done (buf, j)) (omega arith)) (Filled-nil _ buf at)
  full_chunks-Fills (suc k) position buf at h =
      rw (lt→ltb 0 (suc k) (omega arith)) (read_full_chunks-Fills (suc k) position buf at h)

  -- The final partial chunk.
  final-Fills :
      (final position : ℕ) (buf : ℕ → ℕ) (at : ℕ)
      → final < chunk_size
      → position * chunk_size + final ≤ s.file.allocated_size * chunk_size
      → Fills s (position * chunk_size) buf at final (
          if final == 0 then done (buf, at) else read_chunk_from_until s 0 final position (buf, at))
  final-Fills zero position buf at h e =
      fills buf (ap (λ j. done (buf, j)) (omega arith)) (Filled-nil _ buf at)
  final-Fills (suc final) position buf at h e = rw (pos→ne_zero (suc final) (omega arith)) (
      Fills-cast {offset = position * chunk_size + 0} (omega arith) refl
        (read_chunk_from_until-Fills 0 (suc final) position buf at (omega arith) (omega arith)))

  read_rest-Fills :
      (first_index first amount : ℕ) (buf : ℕ → ℕ) (at : ℕ)
      → first ≤ amount
      → (first_index + 1) * chunk_size + (amount - first) ≤ s.file.allocated_size * chunk_size
      → Fills s
          ((first_index + 1) * chunk_size)
          buf
          at
          (amount - first)
          (read_rest s first_index first amount (buf, at))
  unfolding read_rest
  read_rest-Fills first_index first amount buf at le h =
      let full = (amount - first) / chunk_size in
      let final = (amount - first) % chunk_size in
      Fills-cast refl (omega arith) (
        Fills-then final
          (λ next.
            if final == 0
            then done next
            else read_chunk_from_until s 0 final (first_index + full + 1) next)
          (full_chunks-Fills full (first_index + 1) buf at (omega arith))
          (λ out. Fills-cast (omega arith) refl (
            final-Fills final (first_index + full + 1) out (at + full * chunk_size) (omega arith)
              (omega arith))))

-- Reading at least one byte inside a valid file, into a buffer that is large enough, succeeds: the
-- buffer gets the bytes at the positions asked for, in order, and nothing else of it changes. The
-- pointer ends behind what has been read.
pub file_read_at-Fills :
    {s : Disk} (offset amount : ℕ) (buf : ℕ → ℕ) (at buffer_size : ℕ)
    → IsDisk s
    → 0 < amount
    → offset + amount ≤ s.file.allocated_size * chunk_size
    → amount ≤ buffer_size
    → Fills s offset buf at amount (file_read_at s offset amount (buf, at) buffer_size)
unfolding file_read_at
file_read_at-Fills {s} offset amount buf at buffer_size v some_bytes inside_file room =
    rw
      (
        le→ltb (s.file.allocated_size * chunk_size) (add_size offset amount)
            (omega (arith, v.small)),
        pos→ne_zero amount some_bytes,
        le→ltb buffer_size amount room,
      )
      (elim (lt-cases (chunk_size - offset % chunk_size) amount) [
        | inr one_chunk ↦ rw (le→leb amount (chunk_size - offset % chunk_size) one_chunk) (
            Fills-cast (omega arith) refl (
              read_chunk_from_until-Fills v (offset % chunk_size) amount (offset / chunk_size) buf
                at (omega arith) (omega arith)))
        | inl more ↦
            let first = chunk_size - offset % chunk_size in
            rw (lt→leb amount (chunk_size - offset % chunk_size) more) (
              Fills-cast (omega arith) (omega arith) (
                Fills-then v (amount - first) (read_rest s (offset / chunk_size) first amount)
                  (read_chunk_from_until-Fills v (offset % chunk_size) first (offset / chunk_size)
                    buf at (omega arith) (omega arith))
                  (λ out. Fills-cast (omega arith) refl (
                    read_rest-Fills v (offset / chunk_size) first amount out (at + first)
                      (omega arith) (omega arith)))))
      ])

-- A read of at least one byte that ends behind a valid file is refused, even where the sum of
-- `offset` and `amount` wraps: for an offset of 64 bits, and an amount that fits a buffer of at
-- most 2^63 bytes.
pub file_read_at-out_of_bounds :
    {s : Disk} (offset amount : ℕ) (cursor : Cursor) (buffer_size : ℕ)
    → IsDisk s
    → 0 < amount
    → amount ≤ buffer_size
    → buffer_size ≤ 2 ^ 63
    → offset < 2 ^ 64
    → s.file.allocated_size * chunk_size < offset + amount
    → file_read_at s offset amount cursor buffer_size ≡ error index_out_of_bounds
unfolding file_read_at read_chunk_from_until
file_read_at-out_of_bounds {s} offset amount (buf, at) buffer_size v some_bytes room few word past =
    elim (lt-cases (s.file.allocated_size * chunk_size) (add_size offset amount)) [
      | inl refused ↦
          rw (lt→ltb (s.file.allocated_size * chunk_size) (add_size offset amount) refused)
      | inr wrapped ↦
          let far : s.file.allocated_size ≤ offset / chunk_size = omega (arith, v.small) in
          let none_there : get_chunk_index s.file (offset / chunk_size)
              ≡ error index_out_of_bounds =
            get_chunk_index_lem (offset / chunk_size) v
            ∙ rw (le→ltb (offset / chunk_size) s.file.allocated_size far) in
          ground (arith, none_there)
    ]
