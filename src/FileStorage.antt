-- ===== src/FileStorage.antt =====
-- The file storage layer, which enforces that a file touches its own chunks only:
-- system/file_storage.c. A pointer to a chunk extent is its index in the file's array.
pub mod Allocate
pub mod Free
pub mod FreeChunks
pub mod Placed
pub mod Owned
pub mod Release
pub mod Start
pub mod Valid
use virtual_file_system_c.Prelude.{
  ℕ, zero, suc, ◌+◌, ◌-◌, Bool, true, false, ◌&&◌, not, Option, none, some, List, [], ◌∷◌, ltb, leb,
  ◌==◌, if◌then◌else◌, add_size, sub_size, get_elem?, set,
}
use virtual_file_system_c.Settings.{chunks_amount}
use virtual_file_system_c.Status.{
  StatusCode, Outcome, ok, fail, fault, Act, ◌>>=◌, ◌>>◌, pure, raise, Result, done, error,
  invalid_argument, index_out_of_bounds, file_chunk_extent_limit_exceeded,
  chunk_does_not_belong_to_file,
}
use virtual_file_system_c.Storage.{StorageMan, challoc, chfree, chwrite, chread}
use virtual_file_system_c.Files.{ChunkExtent, File}

-- What the operations work on: the file and the storage manager that their pointers lead to.
pub record Disk : Type 0 where
  pub file : File
  pub man : StorageMan

-- A call of the storage manager.
unfoldable pub on_man : {A : Type 0} → Act StorageMan A → Act Disk A
on_man act s = elim (act s.man) [
  | ok a m ↦ ok a (record s { man = m })
  | fail c m ↦ fail c (record s { man = m })
  | fault ↦ fault
]

abbrev pub with_extents : List ChunkExtent → File → File
with_extents es f = record f { data_chunk_extents = es }

-- `get_available_chunk_extent_index`, with `i`; `none` is -1.
unfoldable pub get_available_chunk_extent_index : List ChunkExtent → ℕ → Option ℕ
get_available_chunk_extent_index [] i = none
get_available_chunk_extent_index (e ∷ es) i =
    if e.is_empty then some i else get_available_chunk_extent_index es (i + 1)

-- The assignments of `file_allocate_chunks` after `challoc` has succeeded.
unfoldable pub record_extent : (index first amount : ℕ) → Act Disk ℕ
record_extent index first amount s =
    let e : ChunkExtent = record { is_empty = false; start = first; chunk_amount = amount } in
    ok index (record s {
      file = record (s.file) {
        data_chunk_extents = set s.file.data_chunk_extents index e;
        allocated_size = add_size s.file.allocated_size amount;
      };
    })

-- `file_allocate_chunks`; the result is the index of the extent.
unfoldable pub file_allocate_chunks : ℕ → Act Disk ℕ
file_allocate_chunks amount s =
    elim (get_available_chunk_extent_index s.file.data_chunk_extents 0) [
      | none ↦ fail file_chunk_extent_limit_exceeded s
      | some i ↦ (on_man (challoc amount) >>= λ first. record_extent i first amount) s
    ]

-- `free_chunk_extent`: the loop, with the rounds left and `cur_pos`.
unfoldable pub free_chunk_extent : (rounds cur_pos : ℕ) → Act StorageMan (Unit {0})
free_chunk_extent zero cur_pos = pure tt
free_chunk_extent (suc k) cur_pos = chfree cur_pos >> free_chunk_extent k (cur_pos + 1)

-- `chunk_extent_copy_range`
unfoldable pub chunk_extent_copy_range : ChunkExtent → ChunkExtent → ChunkExtent
chunk_extent_copy_range target from = record target {
  chunk_amount = from.chunk_amount;
  start = from.start;
}

-- The loop of `chunk_extent_left_shift`: the extent at `empty_position`, and those behind it.
unfoldable pub left_shift_loop : ChunkExtent → List ChunkExtent → List ChunkExtent
unfolding chunk_extent_copy_range
left_shift_loop e [] = record e { is_empty = true } ∷ []
left_shift_loop e (next ∷ es) =
    if next.is_empty
    then record e { is_empty = true } ∷ next ∷ es
    else chunk_extent_copy_range e next ∷ left_shift_loop next es

-- `chunk_extent_left_shift` at the first extent of a part of the array.
unfoldable pub left_shift_here : ChunkExtent → List ChunkExtent → Result (List ChunkExtent)
unfolding left_shift_loop
left_shift_here e [] = if e.is_empty then done (e ∷ []) else error invalid_argument
left_shift_here e (next ∷ es) =
    if e.is_empty
    then (if next.is_empty
        then done (e ∷ next ∷ es)
        else done (left_shift_loop (record e { is_empty = false }) (next ∷ es)))
    else error invalid_argument

-- `chunk_extent_left_shift`
unfoldable pub chunk_extent_left_shift :
    (empty_position : ℕ) → List ChunkExtent → Result (List ChunkExtent)
unfolding left_shift_here
chunk_extent_left_shift i [] = error invalid_argument
chunk_extent_left_shift zero (e ∷ es) = left_shift_here e es
chunk_extent_left_shift (suc i) (e ∷ es) = elim (chunk_extent_left_shift i es) [
  | done r ↦ done (e ∷ r)
  | error c ↦ error c
]

-- The end of `file_free_chunk_extent`, when the chunks of the extent `e` at `i` are free.
unfoldable pub forget_extent : ℕ → ChunkExtent → Act Disk (Unit {0})
unfolding chunk_extent_left_shift
forget_extent i e s =
    let f : File = record (s.file) {
      data_chunk_extents = set s.file.data_chunk_extents i (record e { is_empty = true });
      allocated_size = sub_size s.file.allocated_size e.chunk_amount;
    } in
    elim (chunk_extent_left_shift i f.data_chunk_extents) [
      | done es ↦ ok tt (record s { file = with_extents es f })
      | error c ↦ fail c (record s { file = f })
    ]

-- `file_free_chunk_extent`
unfoldable pub file_free_chunk_extent : ℕ → Act Disk (Unit {0})
file_free_chunk_extent i s = elim (get_elem? s.file.data_chunk_extents i) [
  | none ↦ fault
  | some e ↦
      if e.is_empty
      then fail invalid_argument s
      else (on_man (free_chunk_extent e.chunk_amount e.start) >> forget_extent i e) s
]

-- `file_owns_chunk`
unfoldable pub file_owns_chunk : List ChunkExtent → ℕ → Bool
file_owns_chunk [] chunk_pos = false
file_owns_chunk (e ∷ es) chunk_pos =
    if e.is_empty
    then false
    else if leb e.start chunk_pos && ltb chunk_pos (e.start + e.chunk_amount)
    then true
    else file_owns_chunk es chunk_pos

-- `file_write_chunk`
unfoldable pub file_write_chunk : ℕ → (ℕ → ℕ) → ℕ → ℕ → Act Disk (Unit {0})
file_write_chunk chunk_pos bytes offset len s =
    if leb chunks_amount chunk_pos
    then fail invalid_argument s
    else if file_owns_chunk s.file.data_chunk_extents chunk_pos
    then on_man (chwrite chunk_pos bytes offset len) s
    else fail chunk_does_not_belong_to_file s

-- `file_read_chunk`
unfoldable pub file_read_chunk : ℕ → (ℕ → ℕ) → ℕ → ℕ → Disk → Result (ℕ → ℕ)
file_read_chunk chunk_pos out offset len s =
    if leb chunks_amount chunk_pos
    then error invalid_argument
    else if file_owns_chunk s.file.data_chunk_extents chunk_pos
    then chread chunk_pos out offset len s.man
    else error chunk_does_not_belong_to_file

-- One round of the loop of `file_truncate_chunk_extent`, after `chfree`.
unfoldable pub drop_last_chunk : ℕ → Act Disk (Unit {0})
drop_last_chunk i s = elim (get_elem? s.file.data_chunk_extents i) [
  | none ↦ fault
  | some e ↦ ok tt (record s {
    file = record (s.file) {
      data_chunk_extents =
          set s.file.data_chunk_extents i (record e { chunk_amount = sub_size e.chunk_amount 1 });
      allocated_size = sub_size s.file.allocated_size 1;
    };
  })
]

-- The loop, with the rounds left and `cur_chunk`.
unfoldable pub truncate_extent_loop : ℕ → (rounds cur_chunk : ℕ) → Act Disk (Unit {0})
truncate_extent_loop i zero cur_chunk = pure tt
truncate_extent_loop i (suc k) cur_chunk =
    on_man (chfree cur_chunk) >> (drop_last_chunk i >> truncate_extent_loop i k (cur_chunk + 1))

-- `file_truncate_chunk_extent`
unfoldable pub file_truncate_chunk_extent : ℕ → ℕ → Act Disk (Unit {0})
file_truncate_chunk_extent i amount s = elim (get_elem? s.file.data_chunk_extents i) [
  | none ↦ fault
  | some e ↦
      if e.is_empty
      then fail invalid_argument s
      else if ltb e.chunk_amount amount
      then fail index_out_of_bounds s
      else if amount == e.chunk_amount
      then file_free_chunk_extent i s
      else truncate_extent_loop i amount (e.start + e.chunk_amount - amount) s
]
