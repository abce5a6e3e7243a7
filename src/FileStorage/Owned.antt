-- ===== src/FileStorage/Owned.antt =====
-- The chunks that a file owns, in the order of its data, against `file_owns_chunk`.
use virtual_file_system_c.Prelude.{
  ℕ, zero, suc, ◌+◌, ◌≤◌, ◌<◌, ◌≡◌, refl, ap, Bool, true, false, ◌&&◌, ◌||◌, List, [], ◌∷◌, ◌++◌,
  arith, ltb, leb, ◌==◌, if◌then◌else◌, length, length-append, get_or,
}
use virtual_file_system_c.Files.{ChunkExtent}
use virtual_file_system_c.FileStorage.{file_owns_chunk}

-- `n` chunks from `s` on.
unfoldable pub range : ℕ → ℕ → List ℕ
range s zero = []
range s (suc n) = s ∷ range (s + 1) n

-- The chunks of the extents before the first empty one.
unfoldable pub file_chunks : List ChunkExtent → List ℕ
file_chunks [] = []
file_chunks (e ∷ es) = if e.is_empty then [] else range e.start e.chunk_amount ++ file_chunks es

unfoldable pub contains : List ℕ → ℕ → Bool
contains [] c = false
contains (x ∷ xs) c = (x == c) || contains xs c

pub length-range : (s n : ℕ) → length (range s n) ≡ n
unfolding range
length-range s zero = refl
length-range s (suc n) = ap suc (length-range (s + 1) n)

pub get_or-range : (s n i d : ℕ) → i < n → get_or (range s n) i d ≡ s + i
unfolding range
get_or-range s zero i d h = elim h [ ]
get_or-range s (suc n) zero d h = omega arith
get_or-range s (suc n) (suc i) d h = omega (arith, get_or-range (s + 1) n i d (omega arith))

pub contains-range : (s n c : ℕ) → contains (range s n) c ≡ (leb s c && ltb c (s + n))
unfolding range contains
contains-range s zero c = ground arith
contains-range s (suc n) c = ground (arith, contains-range (s + 1) n c)

pub contains-append :
    (xs ys : List ℕ) (c : ℕ) → contains (xs ++ ys) c ≡ (contains xs c || contains ys c)
unfolding contains
contains-append [] ys c = refl
contains-append (x ∷ xs) ys c = ground (arith, contains-append xs ys c)

pub contains-get_or : (xs : List ℕ) (i d : ℕ) → i < length xs → contains xs (get_or xs i d) ≡ true
unfolding contains
contains-get_or [] i d h = elim h [ ]
contains-get_or (x ∷ xs) zero d h = ground arith
contains-get_or (x ∷ xs) (suc i) d h = ground (arith, contains-get_or xs i d)

-- `file_owns_chunk` says whether a chunk is among those of the extents before the first empty one.
pub file_owns_chunk-contains :
    (es : List ChunkExtent) (c : ℕ) → file_owns_chunk es c ≡ contains (file_chunks es) c
unfolding file_owns_chunk file_chunks contains
file_owns_chunk-contains [] c = refl
file_owns_chunk-contains (e ∷ es) c = ground (
  arith,
  file_owns_chunk-contains es c,
  contains-append (range e.start e.chunk_amount) (file_chunks es) c,
  contains-range e.start e.chunk_amount c,
)

-- Every entry is different from those behind it.
abbrev pub Distinct : List ℕ → Type 0
Distinct [] = Unit
Distinct (x ∷ xs) = (contains xs x ≡ false) × Distinct xs

-- No chunk is in both lists.
abbrev pub Disjoint : List ℕ → List ℕ → Type 0
Disjoint xs ys = (c : ℕ) → contains xs c ≡ true → contains ys c ≡ false

pub Distinct-append :
    (xs ys : List ℕ) → Distinct xs → Distinct ys → Disjoint xs ys → Distinct (xs ++ ys)
unfolding contains
Distinct-append [] ys dx dy apart = dy
Distinct-append (x ∷ xs) ys (new, dx) dy apart = (
  rw (contains-append xs ys x, new) (apart x (ground arith)),
  Distinct-append xs ys dx dy (λ c h. apart c (ground arith)),
)

pub Distinct-range : (s n : ℕ) → Distinct (range s n)
unfolding range
Distinct-range s zero = tt
Distinct-range s (suc n) =
    (rw (contains-range (s + 1) n s) (ground arith), Distinct-range (s + 1) n)

pub Distinct-left : (xs ys : List ℕ) → Distinct (xs ++ ys) → Distinct xs
unfolding contains
Distinct-left [] ys d = tt
Distinct-left (x ∷ xs) ys (new, d) =
    (ground (arith, contains-append xs ys x, new), Distinct-left xs ys d)

pub Distinct-right : (xs ys : List ℕ) → Distinct (xs ++ ys) → Distinct ys
Distinct-right [] ys d = d
Distinct-right (x ∷ xs) ys (new, d) = Distinct-right xs ys d

pub Distinct-Disjoint : (xs ys : List ℕ) → Distinct (xs ++ ys) → Disjoint xs ys
unfolding contains
Distinct-Disjoint [] ys d c h = cc
Distinct-Disjoint (x ∷ xs) ys (new, d) c h =
    ground (arith, contains-append xs ys x, new, Distinct-Disjoint xs ys d c)

-- An extent in use puts its chunks before those of the extents behind it.
pub length-file_chunks_used :
    (e : ChunkExtent) (es : List ChunkExtent)
    → e.is_empty ≡ false
    → length (file_chunks (e ∷ es)) ≡ e.chunk_amount + length (file_chunks es)
unfolding file_chunks
length-file_chunks_used e es used =
    rw (used, length-append) (omega (arith, length-range e.start e.chunk_amount))

pub file_chunks-used :
    (e : ChunkExtent) (es : List ChunkExtent)
    → e.is_empty ≡ false
    → file_chunks (e ∷ es) ≡ range e.start e.chunk_amount ++ file_chunks es
unfolding file_chunks
file_chunks-used e es used =
    ap (λ b. if b then [] else range e.start e.chunk_amount ++ file_chunks es) used

pub file_chunks-empty :
    (e : ChunkExtent) (es : List ChunkExtent) → e.is_empty ≡ true → file_chunks (e ∷ es) ≡ []
unfolding file_chunks
file_chunks-empty e es empty =
    ap (λ b. if b then [] else range e.start e.chunk_amount ++ file_chunks es) empty

-- The extents before the first empty one.
unfoldable pub live : List ChunkExtent → ℕ
live [] = 0
live (e ∷ es) = if e.is_empty then 0 else suc (live es)

pub live-used :
    (e : ChunkExtent) (es : List ChunkExtent) → e.is_empty ≡ false → live (e ∷ es) ≡ suc (live es)
unfolding live
live-used e es used = ap (λ b. if b then 0 else suc (live es)) used

pub live-empty : (e : ChunkExtent) (es : List ChunkExtent) → e.is_empty ≡ true → live (e ∷ es) ≡ 0
unfolding live
live-empty e es empty = ap (λ b. if b then 0 else suc (live es)) empty

pub live-le : (es : List ChunkExtent) → live es ≤ length es
unfolding live
live-le [] = omega arith
live-le (e ∷ es) = ground (arith, live-le es)
