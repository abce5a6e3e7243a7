-- ===== src/FileStorage/Free.antt =====
-- `file_free_chunk_extent` of system/file_storage.c as a whole.
use virtual_file_system_c.Prelude.{
  ℕ, ◌+◌, ◌≡◌, refl, ap, sym, ◌∙◌, true, false, ◌||◌, some, List, ◌++◌, arith, length,
  length-append, get_elem?, set, sub_size, inside,
}
use virtual_file_system_c.Status.{ok, done, bind-ok, ◌>>◌}
use virtual_file_system_c.Storage.{StorageMan}
use virtual_file_system_c.Files.{ChunkExtent}
use virtual_file_system_c.FileStorage.{
  Disk, on_man, free_chunk_extent, forget_extent, file_free_chunk_extent, chunk_extent_left_shift,
}
use virtual_file_system_c.FileStorage.Owned.{
  file_chunks, range, contains, contains-range, contains-append, length-range, Distinct,
  Distinct-append, Distinct-left, Distinct-right, Distinct-Disjoint,
}
use virtual_file_system_c.FileStorage.Valid.{IsDisk, on_man-ok}
use virtual_file_system_c.FileStorage.Release.{Removed, chunk_extent_left_shift_lem, emptied}
use virtual_file_system_c.FileStorage.FreeChunks.{Freed, free_chunk_extent_lem}

-- What freeing the extent `e` at index `i` did.
pub record Released (s : Disk) (i : ℕ) (e : ChunkExtent) (t : Disk) : Type 0 where
  pub valid : IsDisk t
  pub removed : Removed s.file.data_chunk_extents i e t.file.data_chunk_extents
  pub size : t.file.allocated_size + e.chunk_amount ≡ s.file.allocated_size
  pub man : Freed s.man e.start e.chunk_amount t.man
  pub name : t.file.name ≡ s.file.name
  pub parent : t.file.parent_folder ≡ s.file.parent_folder

-- The chunks of the extent are the file's.
owned_part :
    {es : List ChunkExtent} {i : ℕ} {e : ChunkExtent} {out : List ChunkExtent}
    → (r : Removed es i e out) (c : ℕ) → inside e.start e.chunk_amount c ≡ true
    → contains (file_chunks es) c ≡ true
owned_part {e} r c h =
    ap (λ xs. contains xs c) r.was
    ∙ ground (
      arith,
      h,
      contains-append r.before (range e.start e.chunk_amount ++ r.after) c,
      contains-append (range e.start e.chunk_amount) r.after c,
      contains-range e.start e.chunk_amount c,
    )

module _ {s : Disk} (v : IsDisk s) {i : ℕ} {e : ChunkExtent} {out : List ChunkExtent}
    {m : StorageMan} (r : Removed s.file.data_chunk_extents i e out)
    (f : Freed s.man e.start e.chunk_amount m) where
  open r use {before, after, was, now}

  mine : List ℕ
  mine = range e.start e.chunk_amount

  parts :
      (c : ℕ)
      → contains (file_chunks s.file.data_chunk_extents) c
        ≡ (contains before c || (contains (range e.start e.chunk_amount) c || contains after c))
  parts c =
      ap (λ xs. contains xs c) was
      ∙ contains-append before (range e.start e.chunk_amount ++ after) c
      ∙ ap (λ b. contains before c || b) (contains-append (range e.start e.chunk_amount) after c)

  was-Distinct : Distinct (before ++ (range e.start e.chunk_amount ++ after))
  was-Distinct = rw was at v.distinct

  rest-Distinct : Distinct (range e.start e.chunk_amount ++ after)
  rest-Distinct = Distinct-right before (range e.start e.chunk_amount ++ after) was-Distinct

  -- The chunks that stay are none of the freed.
  left :
      (c : ℕ)
      → contains (before ++ after) c ≡ true
      → (contains (file_chunks s.file.data_chunk_extents) c ≡ true)
        × (inside e.start e.chunk_amount c ≡ false)
  left c h = ground (
    arith,
    h,
    parts c,
    contains-append before after c,
    contains-append (range e.start e.chunk_amount) after c,
    contains-range e.start e.chunk_amount c,
    Distinct-Disjoint before (range e.start e.chunk_amount ++ after) was-Distinct c,
    Distinct-Disjoint (range e.start e.chunk_amount) after rest-Distinct c,
  )

  left-Distinct : Distinct (before ++ after)
  left-Distinct =
      Distinct-append before after
        (Distinct-left before (range e.start e.chunk_amount ++ after) was-Distinct)
        (Distinct-right (range e.start e.chunk_amount) after rest-Distinct)
        (λ c h. ground (
          arith,
          h,
          contains-append (range e.start e.chunk_amount) after c,
          Distinct-Disjoint before (range e.start e.chunk_amount ++ after) was-Distinct c,
        ))

  sizes : length (before ++ after) + e.chunk_amount ≡ s.file.allocated_size
  sizes = omega (
    arith,
    length-append before after,
    length-append before (range e.start e.chunk_amount ++ after),
    length-append (range e.start e.chunk_amount) after,
    length-range e.start e.chunk_amount,
    v.sized,
    ap length was,
  )

  -- The disk afterwards.
  abbrev after_free : Disk
  after_free = record s {
    man = m;
    file = record (s.file) {
      data_chunk_extents = out;
      allocated_size = sub_size s.file.allocated_size e.chunk_amount;
    };
  }

  released_size : sub_size s.file.allocated_size e.chunk_amount ≡ length (before ++ after)
  released_size = omega (arith, sizes, v.small)

  released : Released s i e after_free
  released = record {
    valid = record {
      man_valid = f.valid;
      slots = r.size ∙ v.slots;
      compact = r.compact;
      sized = released_size ∙ sym (ap length now);
      distinct = rw now left-Distinct;
      taken = rw now (λ c h. ground (arith, left c h, f.map c, v.taken c));
      in_range = rw now (λ c h. v.in_range c (left c h).0);
      small = omega (arith, released_size, sizes, v.small, f.count);
    };
    removed = r;
    size = omega (arith, released_size, sizes);
    man = f;
    name = refl;
    parent = refl;
  }

forget_extent_lem :
    (i : ℕ) (e : ChunkExtent) (s : Disk) {out : List ChunkExtent}
    → chunk_extent_left_shift i (set s.file.data_chunk_extents i (emptied e)) ≡ done out
    → forget_extent i e s
      ≡ ok tt (record s {
        file = record (s.file) {
          data_chunk_extents = out;
          allocated_size = sub_size s.file.allocated_size e.chunk_amount;
        };
      })
unfolding forget_extent
forget_extent_lem i e s h = rw (h, forget_extent)

free_step :
    (i : ℕ) (e : ChunkExtent) (s : Disk)
    → get_elem? s.file.data_chunk_extents i ≡ some e
    → e.is_empty ≡ false
    → file_free_chunk_extent i s
      ≡ (on_man (free_chunk_extent e.chunk_amount e.start) >> forget_extent i e) s
unfolding file_free_chunk_extent
free_step i e s at used = ground arith

-- Freeing an extent in use of a valid file gives its chunks back, keeps the file's other chunks in
-- order and every other chunk as it is, and leaves a valid disk.
pub file_free_chunk_extent-Released :
    {s : Disk} (i : ℕ) (e : ChunkExtent)
    → IsDisk s
    → get_elem? s.file.data_chunk_extents i ≡ some e
    → e.is_empty ≡ false
    → (t : Disk) × (file_free_chunk_extent i s ≡ ok tt t) × Released s i e t
file_free_chunk_extent-Released {s} i e v at used =
    let (out, shifted, r) =
      chunk_extent_left_shift_lem s.file.data_chunk_extents i e v.compact at used in
    let (m, freed, f) =
      free_chunk_extent_lem e.chunk_amount e.start v.man_valid
        (λ c h. (v.in_range c (owned_part r c h), v.taken c (owned_part r c h))) in
    (
      after_free v r f,
      free_step i e s at used
          ∙ bind-ok (on_man (free_chunk_extent e.chunk_amount e.start)) (λ _. forget_extent i e)
              (on_man-ok (free_chunk_extent e.chunk_amount e.start) freed)
          ∙ forget_extent_lem i e (record s { man = m }) shifted,
      released v r f,
    )

-- The chunks of the file are those that stay and those of the extent.
pub Released-chunks :
    {s t : Disk} {i : ℕ} {e : ChunkExtent}
    → Released s i e t
    → (c : ℕ)
    → contains (file_chunks s.file.data_chunk_extents) c
      ≡ (inside e.start e.chunk_amount c || contains (file_chunks t.file.data_chunk_extents) c)
Released-chunks {s} {t} {e} r c =
    let before = r.removed.before in
    let after = r.removed.after in
    let split = contains-append before (range e.start e.chunk_amount ++ after) c in
    let was = ap (λ xs. contains xs c) r.removed.was in
    let now = ap (λ xs. contains xs c) r.removed.now in
    ground (
      arith,
      was,
      now,
      split,
      contains-append (range e.start e.chunk_amount) after c,
      contains-append before after c,
      contains-range e.start e.chunk_amount c,
    )
