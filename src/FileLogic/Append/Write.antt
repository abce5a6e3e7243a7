-- ===== src/FileLogic/Append/Write.antt =====
-- The writes of `file_append`, system/file_logic.c: they reach chunks that the file owns, so none
-- fails and nothing is rolled back.
use virtual_file_system_c.Prelude.{
  ℕ, zero, suc, ◌+◌, ◌-◌, ◌*◌, ◌/◌, ◌%◌, ◌<◌, ◌≡◌, refl, ap, ap₂, ◌∙◌, inl, inr, true, arith, ltb,
  lt→leb, if◌then◌else◌, copy, copy_in, fill_lem, Bool-cases, ◌==◌,
}
use virtual_file_system_c.Settings.{chunk_size, chunks_amount, eoc_operator}
use virtual_file_system_c.Status.{ok, Act, bind-ok}
use virtual_file_system_c.Storage.{chwrite}
use virtual_file_system_c.Storage.Chunks.{byte_at, chwrite_lem}
use virtual_file_system_c.FileStorage.{Disk, on_man, file_owns_chunk, file_write_chunk}
use virtual_file_system_c.FileStorage.Owned.{file_chunks, contains, file_owns_chunk-contains}
use virtual_file_system_c.FileStorage.Valid.{IsDisk, on_man-ok}
use virtual_file_system_c.FileLogic.Index.{uses_full_chunks, get_chunks_amount}
use virtual_file_system_c.FileLogic.Append.{
  or_roll_back, write_full_chunks, write_final_chunk, full_chunks, get_remaining_data,
}
use virtual_file_system_c.FileLogic.Append.Wrote.{
  Wrote, Wrote-IsDisk, Wrote-nil, Wrote-append, Wrote-ext, Wrote-cast,
}

-- A write of a whole chunk to one of the chunks of a valid file succeeds, puts the bytes there, and
-- changes no other chunk.
pub file_write_chunk_lem :
    {s : Disk} (c : ℕ) (src : ℕ → ℕ) (offset : ℕ)
    → IsDisk s
    → contains (file_chunks s.file.data_chunk_extents) c ≡ true
    → (t : Disk) × (file_write_chunk c src offset chunk_size s ≡ ok tt t)
      × Wrote (λ j. src (offset + j)) s c 1 t
unfolding file_write_chunk on_man
file_write_chunk_lem {s} c src offset v mine =
    let (m', e, new, _, same) =
      chwrite_lem s.man c (v.in_range c mine) (v.taken c mine) src offset chunk_size
        (omega arith) in
    let owned : file_owns_chunk s.file.data_chunk_extents c ≡ true =
      file_owns_chunk-contains s.file.data_chunk_extents c ∙ mine in
    (
      record s { man = m' },
      rw (lt→leb chunks_amount c (v.in_range c mine), owned)
          (on_man-ok (chwrite c src offset chunk_size) e),
      record {
        file = refl;
        map = same.map;
        count = same.count;
        size = same.size;
        new = λ j b h lt.
            ap (λ d. byte_at m' d b) (omega arith)
            ∙ new b lt
            ∙ ap (λ d. src (offset + d)) (omega arith);
        old = λ d b out lt. same.bytes d b (ground arith) lt;
      },
    )

or_roll_back-ok :
    {A : Type 0} (index : ℕ) (act : Act Disk A) {s t : Disk} {a : A}
    → act s ≡ ok a t
    → or_roll_back index act s ≡ ok a t
unfolding or_roll_back
or_roll_back-ok index act e = rw (e, or_roll_back)

-- The loop over the full chunks.
pub write_full_chunks_lem :
    (index k cur : ℕ) (src : ℕ → ℕ) (offset : ℕ) {s : Disk}
    → IsDisk s
    → ((j : ℕ) → j < k → contains (file_chunks s.file.data_chunk_extents) (cur + j) ≡ true)
    → (t : Disk) × (write_full_chunks index k cur src offset s
        ≡ ok (cur + k, offset + k * chunk_size) t)
      × Wrote (λ j. src (offset + j)) s cur k t
unfolding write_full_chunks
write_full_chunks_lem index zero cur src offset {s} v mine = (s, ground arith, Wrote-nil _ s cur)
write_full_chunks_lem index (suc k) cur src offset {s} v mine =
    let (m, e, w) = file_write_chunk_lem cur src offset v (
      ap (contains (file_chunks s.file.data_chunk_extents)) (omega arith) ∙ mine 0 (omega arith)) in
    let rest : (j : ℕ)
        → j < k
        → contains (file_chunks m.file.data_chunk_extents) (cur + 1 + j) ≡ true =
      λ j h. rw w.file (
        ap (contains (file_chunks s.file.data_chunk_extents)) (omega arith)
        ∙ mine (suc j) (omega arith)) in
    let (t, e', x) =
      write_full_chunks_lem index k (cur + 1) src (offset + chunk_size) (Wrote-IsDisk w v) rest in
    (
      t,
      bind-ok (or_roll_back index (file_write_chunk cur src offset chunk_size))
            (λ _. write_full_chunks index k (cur + 1) src (offset + chunk_size))
            (or_roll_back-ok index (file_write_chunk cur src offset chunk_size) e)
          ∙ e'
          ∙ ap₂ (λ a b. ok (a, b) t) (omega arith) (omega arith),
      Wrote-cast (omega arith) (
          Wrote-append (λ j. src (offset + j)) cur 1 k w
            (Wrote-ext (λ j h. ap src (omega arith)) x)),
    )

-- What `file_append` stores: the data, and the end-of-chunk byte up to the end of the last chunk.
unfoldable pub padded : (ℕ → ℕ) → ℕ → ℕ → ℕ
padded src len j = if ltb j len then src j else eoc_operator

-- The buffer of the last chunk.
get_remaining_data_lem :
    (src : ℕ → ℕ) (start n b : ℕ)
    → n < chunk_size
    → b < chunk_size
    → get_remaining_data src start n b ≡ (if ltb b n then src (start + b) else eoc_operator)
unfolding get_remaining_data
get_remaining_data_lem src start n b few h = ground (
  arith,
  fill_lem (copy (λ _. 0) 0 src start n) n (8 - n) eoc_operator b,
  copy_in (λ _. 0) 0 src start n b,
)

final_byte :
    (src : ℕ → ℕ) (len j : ℕ)
    → j < chunk_size
    → get_remaining_data src (len / chunk_size * chunk_size) (len % chunk_size) (0 + j)
      ≡ padded src len (len / chunk_size * chunk_size + j)
unfolding padded
final_byte src len j h =
    ap (get_remaining_data src (len / chunk_size * chunk_size) (len % chunk_size)) (omega arith)
    ∙ get_remaining_data_lem src (len / chunk_size * chunk_size) (len % chunk_size) j (omega arith)
        h
    ∙ ground arith

pub full_chunks_lem : (len : ℕ) → full_chunks len ≡ len / chunk_size
unfolding full_chunks uses_full_chunks
full_chunks_lem len = ground arith

-- The chunk that is filled in part, if there is one.
pub write_final_chunk_lem :
    (src : ℕ → ℕ) (len index cur : ℕ) {s : Disk}
    → IsDisk s
    → (cur < cur + (get_chunks_amount len - len / chunk_size)
        → contains (file_chunks s.file.data_chunk_extents) cur ≡ true)
    → (t : Disk) × (write_final_chunk src len index (cur, len / chunk_size * chunk_size) s
        ≡ ok tt t)
      × Wrote
          (λ j. padded src len (len / chunk_size * chunk_size + j))
          s
          cur
          (get_chunks_amount len - len / chunk_size)
          t
unfolding write_final_chunk uses_full_chunks get_chunks_amount padded
write_final_chunk_lem src len index cur {s} v mine = elim (Bool-cases (len % chunk_size == 0)) [
  | inl whole ↦ rw whole (s, refl, Wrote-cast (omega arith) (Wrote-nil _ s cur))
  | inr part ↦
      let rest = get_remaining_data src (len / chunk_size * chunk_size) (len % chunk_size) in
      let (t, e, w) = file_write_chunk_lem cur rest 0 v (mine (ground arith)) in
      rw part (
        t,
        or_roll_back-ok index (file_write_chunk cur rest 0 chunk_size) e,
        Wrote-cast (omega arith) (Wrote-ext (λ j h. final_byte src len j (omega arith)) w),
      )
]
