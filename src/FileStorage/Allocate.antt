-- ===== src/FileStorage/Allocate.antt =====
-- `file_allocate_chunks` of system/file_storage.c gives a file new chunks behind its others.
use virtual_file_system_c.Prelude.{
  ℕ, ◌+◌, ◌≤◌, ◌<◌, ◌≡◌, refl, ◌∙◌, true, false, Option, none, some, List, [], ◌∷◌, ◌++◌, arith,
  length-set, length-append, get_elem?, set, add_size,
}
use virtual_file_system_c.Settings.{chunks_amount}
use virtual_file_system_c.Status.{ok, fail, no_space, file_chunk_extent_limit_exceeded}
use virtual_file_system_c.Storage.Counting.{FreeRun}
use virtual_file_system_c.Storage.{StorageMan, challoc}
use virtual_file_system_c.Storage.Alloc.{Alloc, got, full, Allocated, challoc_decides}
use virtual_file_system_c.Files.{ChunkExtent}
use virtual_file_system_c.FileStorage.{
  Disk, on_man, get_available_chunk_extent_index, record_extent, file_allocate_chunks,
}
use virtual_file_system_c.FileStorage.Owned.{
  file_chunks, range, contains, contains-range, contains-append, length-range, Distinct, Disjoint,
  Distinct-append, Distinct-range,
}
use virtual_file_system_c.FileStorage.Valid.{IsDisk}
use virtual_file_system_c.FileStorage.Placed.{used_extent, Placed, available-Placed}

-- What a successful `file_allocate_chunks` did.
pub record Extended (s : Disk) (amount index first : ℕ) (s' : Disk) : Type 0 where
  pub valid : IsDisk s'
  pub extent : get_elem? s'.file.data_chunk_extents index ≡ some (used_extent first amount)
  pub chunks :
      file_chunks s'.file.data_chunk_extents
      ≡ file_chunks s.file.data_chunk_extents ++ range first amount
  pub allocated : Allocated s.man amount first s'.man
  pub size : s'.file.allocated_size ≡ s.file.allocated_size + amount
  pub name : s'.file.name ≡ s.file.name
  pub parent : s'.file.parent_folder ≡ s.file.parent_folder

module _ {s : Disk} (v : IsDisk s) {amount first : ℕ} {m : StorageMan}
    (a : Allocated s.man amount first m) where
  abbrev old : List ℕ
  old = file_chunks s.file.data_chunk_extents

  new-Disjoint : Disjoint old (range first amount)
  new-Disjoint c mine = ground (arith, contains-range first amount c, v.taken c mine, a.was_free c)

  new-Distinct : Distinct (old ++ range first amount)
  new-Distinct =
      Distinct-append old (range first amount) v.distinct (Distinct-range first amount) new-Disjoint

  new_taken : (c : ℕ) → contains (old ++ range first amount) c ≡ true → m.allocation_map c ≡ true
  new_taken c h = ground (
    arith,
    h,
    contains-append old (range first amount) c,
    contains-range first amount c,
    a.map c,
    v.taken c,
  )

  new_in_range : (c : ℕ) → contains (old ++ range first amount) c ≡ true → c < chunks_amount
  new_in_range c h = ground (
    arith,
    h,
    contains-append old (range first amount) c,
    contains-range first amount c,
    a.in_range,
    v.in_range c,
  )

  -- The disk after the assignments that follow `challoc`.
  extend :
      (i : ℕ)
      → Placed s.file.data_chunk_extents first amount i
      → (s' : Disk) × (record_extent i first amount (record s { man = m }) ≡ ok i s')
        × Extended s amount i first s'
  unfolding record_extent
  extend i p =
      let es = set s.file.data_chunk_extents i (used_extent first amount) in
      let size : add_size s.file.allocated_size amount ≡ s.file.allocated_size + amount =
        omega (arith, v.small, a.count) in
      let longer = length-append old (range first amount) in
      (
        record {
          man = m;
          file = record (s.file) {
            data_chunk_extents = es;
            allocated_size = add_size s.file.allocated_size amount;
          };
        },
        refl,
        record {
          valid = record {
            man_valid = a.valid;
            slots = length-set s.file.data_chunk_extents i (used_extent first amount) ∙ v.slots;
            compact = p.compact;
            sized = rw p.chunks (omega (arith, size, longer, length-range first amount, v.sized));
            distinct = rw p.chunks new-Distinct;
            taken = rw p.chunks new_taken;
            in_range = rw p.chunks new_in_range;
            small = omega (arith, size, v.small, a.count);
          };
          extent = p.there;
          chunks = p.chunks;
          allocated = a;
          size = size;
          name = refl;
          parent = refl;
        },
      )

abbrev pub AllUsed : List ChunkExtent → Type 0
AllUsed [] = Unit
AllUsed (e ∷ es) = (e.is_empty ≡ false) × AllUsed es

none_available-AllUsed :
    (es : List ChunkExtent) (base : ℕ)
    → get_available_chunk_extent_index es base ≡ none
    → AllUsed es
unfolding get_available_chunk_extent_index
none_available-AllUsed [] base e = tt
none_available-AllUsed (x ∷ es) base e =
    (ground arith, none_available-AllUsed es (base + 1) (ground arith))

-- The outcomes of `file_allocate_chunks`.
pub data Allocation (s : Disk) (amount : ℕ) : Type 0 where
  extended :
      (i first : ℕ) (s' : Disk)
      → file_allocate_chunks amount s ≡ ok i s'
      → Extended s amount i first s'
      → Allocation s amount
  no_run :
      file_allocate_chunks amount s ≡ fail no_space s
      → ((q : ℕ) → q + amount ≤ chunks_amount → ¬ FreeRun s.man.allocation_map q amount)
      → Allocation s amount
  no_slot :
      file_allocate_chunks amount s ≡ fail file_chunk_extent_limit_exceeded s
      → AllUsed s.file.data_chunk_extents
      → Allocation s amount

-- The calls of `file_allocate_chunks` in turn.
module _ (s : Disk) (amount : ℕ) {i : ℕ}
    (free : get_available_chunk_extent_index s.file.data_chunk_extents 0 ≡ some i) where
  run_found :
      {first : ℕ} {m : StorageMan} {s' : Disk}
      → challoc amount s.man ≡ ok first m
      → record_extent i first amount (record s { man = m }) ≡ ok i s'
      → file_allocate_chunks amount s ≡ ok i s'
  unfolding file_allocate_chunks on_man
  run_found e e' = ground arith

  run_missing :
      challoc amount s.man ≡ fail no_space s.man → file_allocate_chunks amount s ≡ fail no_space s
  unfolding file_allocate_chunks on_man
  run_missing e = ground arith

-- On a valid disk `file_allocate_chunks` of 1 to 500 chunks either gives the file a run of chunks
-- that were free, put behind its others, and keeps the disk valid; or leaves the disk as it is, for
-- the reason that it names: no run is long enough, or every extent of the file is in use.
pub file_allocate_chunks-Allocation :
    {s : Disk} (amount : ℕ) → IsDisk s → 0 < amount → amount ≤ chunks_amount → Allocation s amount
unfolding file_allocate_chunks
file_allocate_chunks-Allocation {s} amount v pos fits = go _ refl
  where
    with_run :
        (i : ℕ)
        → get_available_chunk_extent_index s.file.data_chunk_extents 0 ≡ some i
        → Alloc s.man amount
        → Allocation s amount
    with_run i e (got first m e' a) =
        let (i', at, p) =
          available-Placed first amount pos s.file.data_chunk_extents 0 v.compact e in
        let same : i' ≡ i = omega (arith, at) in
        let (s', e'', x) = extend v a i (rw same at p) in
        extended i first s' (run_found s amount e e' e'') x
    with_run i e (full e' none_fits) = no_run (run_missing s amount e e') none_fits

    go :
        (o : Option ℕ)
        → get_available_chunk_extent_index s.file.data_chunk_extents 0 ≡ o
        → Allocation s amount
    go none e = no_slot (ground arith) (none_available-AllUsed s.file.data_chunk_extents 0 e)
    go (some i) e = with_run i e (challoc_decides v.man_valid pos fits)
