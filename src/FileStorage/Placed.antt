-- ===== src/FileStorage/Placed.antt =====
-- A new extent in the first empty place of the array of a file of system/include/files.h.
use virtual_file_system_c.Prelude.{
  ℕ, suc, ◌+◌, ◌<◌, ◌≡◌, refl, inl, inr, true, false, some, List, [], ◌∷◌, ◌++◌, arith, length,
  get_elem?, set,
}
use mathlib.Core.List.{append-nil, append_assoc}
use virtual_file_system_c.Files.{ChunkExtent}
use virtual_file_system_c.FileStorage.{get_available_chunk_extent_index}
use virtual_file_system_c.FileStorage.Owned.{file_chunks, range}
use virtual_file_system_c.FileStorage.Valid.{AllEmpty, Compact}

pub AllEmpty-no_chunks : (es : List ChunkExtent) → AllEmpty es → file_chunks es ≡ []
unfolding file_chunks
AllEmpty-no_chunks [] h = refl
AllEmpty-no_chunks (e ∷ es) (h, _) = rw h

abbrev pub used_extent : ℕ → ℕ → ChunkExtent
used_extent first amount = record { is_empty = false; start = first; chunk_amount = amount }

-- What putting an extent at index `i` does to compact extents.
pub record Placed (es : List ChunkExtent) (first amount i : ℕ) : Type 0 where
  pub in_array : i < length es
  pub there : get_elem? (set es i (used_extent first amount)) i ≡ some (used_extent first amount)
  pub chunks :
      file_chunks (set es i (used_extent first amount)) ≡ file_chunks es ++ range first amount
  pub compact : Compact (set es i (used_extent first amount))

module _ (first amount : ℕ) (pos : 0 < amount) where
  Placed-here :
      (e : ChunkExtent) (es : List ChunkExtent)
      → e.is_empty ≡ true
      → AllEmpty es
      → Placed (e ∷ es) first amount 0
  unfolding file_chunks
  Placed-here e es h rest = record {
    in_array = omega arith;
    there = refl;
    chunks = rw (h, AllEmpty-no_chunks es rest, append-nil);
    compact = inr (refl, pos, Compact_of_AllEmpty es rest);
  }
    where
      Compact_of_AllEmpty : (xs : List ChunkExtent) → AllEmpty xs → Compact xs
      Compact_of_AllEmpty [] h = tt
      Compact_of_AllEmpty (x ∷ xs) (h, hs) = inl (h, hs)

  Placed-behind :
      (e : ChunkExtent) (es : List ChunkExtent) (i : ℕ)
      → e.is_empty ≡ false
      → 0 < e.chunk_amount
      → Placed es first amount i
      → Placed (e ∷ es) first amount (suc i)
  unfolding file_chunks
  Placed-behind e es i h some_chunk p = record {
    in_array = omega (arith, p.in_array);
    there = p.there;
    chunks = rw (h, p.chunks, append_assoc);
    compact = inr (h, some_chunk, p.compact);
  }

  -- The first empty extent is a place for new chunks behind the others.
  pub available-Placed :
      (es : List ChunkExtent) (base : ℕ) {j : ℕ}
      → Compact es
      → get_available_chunk_extent_index es base ≡ some j
      → (i : ℕ) × (j ≡ base + i) × Placed es first amount i
  unfolding get_available_chunk_extent_index
  available-Placed [] base c e = cc
  available-Placed (x ∷ es) base (inl (empty, rest)) e =
      (0, ground arith, Placed-here x es empty rest)
  available-Placed (x ∷ es) base {j} (inr (used, some_chunk, c)) e =
      let there : get_available_chunk_extent_index es (base + 1) ≡ some j = ground arith in
      let (i, at, p) = available-Placed es (base + 1) c there in
      (suc i, omega (arith, at), Placed-behind x es i used some_chunk p)
