-- ===== src/FileLogic/Delete/Clear.antt =====
-- `file_delete_data` of system/file_logic.c gives back all that a file holds.
use virtual_file_system_c.Prelude.{
  ℕ, zero, suc, ◌+◌, ◌-◌, ◌<◌, ◌≡◌, refl, ap, ◌∙◌, inl, inr, true, false, some, List, [], ◌∷◌,
  arith, ltb, if◌then◌else◌, length, get_elem?, Bool-cases,
}
use virtual_file_system_c.Settings.{max_file_chunk_extents_amount}
use virtual_file_system_c.Status.{ok}
use virtual_file_system_c.Files.{ChunkExtent}
use virtual_file_system_c.FileStorage.{Disk, file_free_chunk_extent}
use virtual_file_system_c.FileStorage.Owned.{file_chunks, contains, live, live-le}
use virtual_file_system_c.FileStorage.Valid.{AllEmpty, Compact, IsDisk}
use virtual_file_system_c.FileStorage.Free.{
  Released, Released-chunks, file_free_chunk_extent-Released,
}
use virtual_file_system_c.FileLogic.Delete.{delete_data_loop, file_delete_data}
use virtual_file_system_c.FileStorage.Placed.{AllEmpty-no_chunks}

-- What deleting all data did: the file has no chunks, exactly those that it had are free now, and
-- nothing else of the manager is changed.
pub record Cleared (s t : Disk) : Type 0 where
  pub valid : IsDisk t
  pub empty : t.file.allocated_size ≡ 0
  pub no_chunks : file_chunks t.file.data_chunk_extents ≡ []
  pub map :
      (c : ℕ)
      → t.man.allocation_map c ≡ (
          if contains (file_chunks s.file.data_chunk_extents) c
          then false
          else s.man.allocation_map c)
  pub count : t.man.free_chunk_count ≡ s.man.free_chunk_count + s.file.allocated_size
  pub bytes : t.man.storage ≡ s.man.storage
  pub name : t.file.name ≡ s.file.name
  pub parent : t.file.parent_folder ≡ s.file.parent_folder

AllEmpty-at :
    (es : List ChunkExtent) (i : ℕ)
    → AllEmpty es
    → i < length es
    → (e : ChunkExtent) × (get_elem? es i ≡ some e) × (e.is_empty ≡ true)
AllEmpty-at [] i h lt = absurd (omega arith)
AllEmpty-at (e ∷ es) zero (h, _) lt = (e, refl, h)
AllEmpty-at (e ∷ es) (suc i) (_, h) lt = AllEmpty-at es i h (omega arith)

-- With nothing in use the loop runs to the end of the array.
skip_empty :
    (k index : ℕ) {s : Disk}
    → AllEmpty s.file.data_chunk_extents
    → length s.file.data_chunk_extents ≡ max_file_chunk_extents_amount
    → max_file_chunk_extents_amount - index < k
    → delete_data_loop k index s ≡ ok tt s
unfolding delete_data_loop
skip_empty zero index h slots few = absurd (omega arith)
skip_empty (suc k) index {s} h slots few =
    elim (Bool-cases (ltb index max_file_chunk_extents_amount)) [
      | inr past ↦ rw (past, delete_data_loop)
      | inl here ↦
          let (e, at, empty) = AllEmpty-at s.file.data_chunk_extents index h (ground arith) in
          rw (here, at, empty, delete_data_loop) (skip_empty k (index + 1) h slots (ground arith))
    ]

Cleared-nothing : {s : Disk} → IsDisk s → AllEmpty s.file.data_chunk_extents → Cleared s s
unfolding contains
Cleared-nothing {s} v h =
    let none_there = AllEmpty-no_chunks s.file.data_chunk_extents h in
    let size : s.file.allocated_size ≡ 0 = v.sized ∙ ap length none_there in
    record {
      valid = v;
      empty = size;
      no_chunks = none_there;
      map = λ c. rw none_there;
      count = omega (arith, size);
      bytes = refl;
      name = refl;
      parent = refl;
    }

Cleared-then :
    {s m t : Disk} {i : ℕ} {e : ChunkExtent} → Released s i e m → Cleared m t → Cleared s t
Cleared-then {s} {m} {t} {e} r c = record {
  valid = c.valid;
  empty = c.empty;
  no_chunks = c.no_chunks;
  map = λ j. c.map j ∙ freed_map j;
  count = omega (arith, c.count, r.man.count, r.size);
  bytes = c.bytes ∙ r.man.bytes;
  name = c.name ∙ r.name;
  parent = c.parent ∙ r.parent;
}
  where
    freed_map :
        (j : ℕ)
        → (if contains (file_chunks m.file.data_chunk_extents) j
            then false
            else m.man.allocation_map j)
          ≡ (if contains (file_chunks s.file.data_chunk_extents) j
              then false
              else s.man.allocation_map j)
    freed_map j = ground (arith, Released-chunks r j, r.man.map j)

Compact-at_zero :
    (es : List ChunkExtent)
    → Compact es
    → 0 < live es
    → (e : ChunkExtent) × (get_elem? es 0 ≡ some e) × (e.is_empty ≡ false)
unfolding live
Compact-at_zero [] c h = absurd (omega arith)
Compact-at_zero (e ∷ es) (inl (empty, _)) h = absurd (ground arith)
Compact-at_zero (e ∷ es) (inr (used, _, _)) h = (e, refl, used)

Compact-AllEmpty : (es : List ChunkExtent) → Compact es → live es ≡ 0 → AllEmpty es
unfolding live
Compact-AllEmpty [] c h = tt
Compact-AllEmpty (e ∷ es) (inl all) h = all
Compact-AllEmpty (e ∷ es) (inr (used, _, _)) h = absurd (ground arith)

-- One round with an extent in use at the start.
free_round :
    (k : ℕ) (s : Disk) {m : Disk} {e : ChunkExtent}
    → get_elem? s.file.data_chunk_extents 0 ≡ some e
    → e.is_empty ≡ false
    → file_free_chunk_extent 0 s ≡ ok tt m
    → delete_data_loop (suc k) 0 s ≡ delete_data_loop k 0 m
unfolding delete_data_loop
free_round k s at used freed = rw (at, used, freed, delete_data_loop)

delete_data_loop-Cleared :
    (n k : ℕ) {s : Disk}
    → IsDisk s
    → live s.file.data_chunk_extents ≡ n
    → n + max_file_chunk_extents_amount < k
    → (t : Disk) × (delete_data_loop k 0 s ≡ ok tt t) × Cleared s t
delete_data_loop-Cleared zero k {s} v e few =
    let h = Compact-AllEmpty s.file.data_chunk_extents v.compact e in
    (s, skip_empty k 0 h v.slots (omega arith), Cleared-nothing v h)
delete_data_loop-Cleared (suc n) zero v e few = absurd (omega arith)
delete_data_loop-Cleared (suc n) (suc k) {s} v e few =
    let (x, at, used) = Compact-at_zero s.file.data_chunk_extents v.compact (omega arith) in
    let (m, freed, r) = file_free_chunk_extent-Released 0 x v at used in
    let (t, done_rest, c) =
      delete_data_loop-Cleared n k r.valid (omega (arith, r.removed.counted)) (omega arith) in
    (t, free_round k s at used freed ∙ done_rest, Cleared-then r c)

-- Deleting all data of a valid file succeeds: the loop ends, the file is empty, exactly its chunks
-- are free afterwards, and nothing else of the manager is changed.
pub file_delete_data-Cleared :
    {s : Disk} → IsDisk s → (t : Disk) × (file_delete_data s ≡ ok tt t) × Cleared s t
unfolding file_delete_data
file_delete_data-Cleared {s} v =
    delete_data_loop-Cleared (live s.file.data_chunk_extents) 21 v refl
      (omega (arith, live-le s.file.data_chunk_extents, v.slots))
