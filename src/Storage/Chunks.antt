-- ===== src/Storage/Chunks.antt =====
-- Reading, writing and truncating one chunk: `chwrite`, `chread` and `chtrunc` of system/storage.c.
use virtual_file_system_c.Prelude.{
  ℕ, ◌+◌, ◌-◌, ◌*◌, ◌≤◌, ◌<◌, ◌≡◌, ◌≢◌, refl, ◌∙◌, true, false, arith, fill, fill_lem, inside,
  lt→leb, le→ltb, copy, copy_in, copy_out,
}
use virtual_file_system_c.Settings.{chunk_size, chunks_amount, eoc_operator}
use virtual_file_system_c.Status.{ok, fail, done, error, free_chunk_access_attempt}
use virtual_file_system_c.Storage.{StorageMan, get_chunk_addr, chwrite, chread, chtrunc}
use virtual_file_system_c.Storage.Valid.{IsValid}

-- Byte `k` of chunk `c`.
abbrev pub byte_at : StorageMan → ℕ → ℕ → ℕ
byte_at m c k = m.storage (c * chunk_size + k)

-- Two managers that differ at most in the bytes of chunk `c`.
pub record SameButChunk (c : ℕ) (m m' : StorageMan) : Type 0 where
  pub map : m'.allocation_map ≡ m.allocation_map
  pub count : m'.free_chunk_count ≡ m.free_chunk_count
  pub size : m'.storage_size ≡ m.storage_size
  pub bytes : (d k : ℕ) → d ≢ c → k < chunk_size → byte_at m' d k ≡ byte_at m d k

pub SameButChunk-IsValid :
    {c : ℕ} {m m' : StorageMan} → SameButChunk c m m' → IsValid m → IsValid m'
SameButChunk-IsValid s v = record {
  counted = rw (s.map, s.count) v.counted;
  room = rw s.size v.room;
}

-- The first bytes of one chunk are none of another.
apart : (c d k n : ℕ) → d ≢ c → k < 8 → n ≤ 8 → inside (c * 8) n (d * 8 + k) ≡ false
apart c d k n ne hi fits = ground arith

module _ (m : StorageMan) (c : ℕ) (h : c < chunks_amount) (taken : m.allocation_map c ≡ true) where
  -- `chwrite` to a taken chunk puts the given bytes at its start, keeps the rest of the chunk, and
  -- touches nothing else.
  pub chwrite_lem :
      (src : ℕ → ℕ) (offset n : ℕ)
      → n ≤ chunk_size
      → (m' : StorageMan) × (chwrite c src offset n m ≡ ok tt m')
        × ((k : ℕ) → k < n → byte_at m' c k ≡ src (offset + k))
        × ((k : ℕ) → n ≤ k → k < chunk_size → byte_at m' c k ≡ byte_at m c k)
        × SameButChunk c m m'
  unfolding chwrite
  chwrite_lem src offset n fits = (
    record m { storage = copy m.storage (get_chunk_addr c) src offset n },
    rw (le→ltb chunk_size n fits, lt→leb chunks_amount c h, taken),
    λ k lt. ground (arith, copy_in m.storage (c * 8) src offset n (c * 8 + k)),
    λ k lo hi. copy_out m.storage (c * 8) src offset n (c * 8 + k) (ground arith),
    record {
      map = refl;
      count = refl;
      size = refl;
      bytes = λ d k ne hi.
          copy_out m.storage (c * 8) src offset n (d * 8 + k) (apart c d k n ne hi fits);
    },
  )

  -- `chread` of a taken chunk puts its bytes where the pointer shows, and nothing else.
  pub chread_lem :
      (out : ℕ → ℕ) (offset n : ℕ)
      → chunk_size ≤ n
      → (out' : ℕ → ℕ) × (chread c out offset n m ≡ done out')
        × ((k : ℕ) → k < chunk_size → out' (offset + k) ≡ byte_at m c k)
        × ((j : ℕ) → inside offset chunk_size j ≡ false → out' j ≡ out j)
  unfolding chread
  chread_lem out offset n fits = (
    copy out offset m.storage (get_chunk_addr c) chunk_size,
    rw (le→ltb n chunk_size fits, lt→leb chunks_amount c h, taken),
    λ k lt. ground (arith, copy_in out offset m.storage (c * 8) 8 (offset + k)),
    λ j e. copy_out out offset m.storage (c * 8) 8 j e,
  )

-- `chtrunc` of `n` bytes, from 1 to 8, of a chunk in range puts the end-of-chunk byte over the last
-- `n` of the chunk, keeps those before, and touches nothing else.
pub chtrunc_lem :
    (m : StorageMan) (c n : ℕ)
    → c < chunks_amount
    → 0 < n
    → n ≤ chunk_size
    → (m' : StorageMan) × (chtrunc c n m ≡ ok tt m')
      × ((k : ℕ) → k < chunk_size - n → byte_at m' c k ≡ byte_at m c k)
      × ((k : ℕ) → chunk_size - n ≤ k → k < chunk_size → byte_at m' c k ≡ eoc_operator)
      × SameButChunk c m m'
unfolding chtrunc
chtrunc_lem m c n h some_bytes fits =
    let start = c * 8 + (8 - n) in
    (
      record m { storage = fill m.storage start n eoc_operator },
      ground arith,
      λ k lt. ground (arith, fill_lem m.storage start n eoc_operator (c * 8 + k)),
      λ k lo hi. ground (arith, fill_lem m.storage start n eoc_operator (c * 8 + k)),
      record {
        map = refl;
        count = refl;
        size = refl;
        bytes = λ d k ne hi. ground (arith, fill_lem m.storage start n eoc_operator (d * 8 + k));
      },
    )

-- On a valid manager, the 8 bytes that `chwrite` puts into a taken chunk in range are what `chread`
-- then gives, in an array that is large enough, and the manager stays valid.
pub chread-chwrite :
    {m : StorageMan} (c : ℕ) (src : ℕ → ℕ) (offset : ℕ) (out : ℕ → ℕ) (at n : ℕ)
    → IsValid m
    → c < chunks_amount
    → m.allocation_map c ≡ true
    → chunk_size ≤ n
    → (m' : StorageMan) × (out' : ℕ → ℕ) × (chwrite c src offset chunk_size m ≡ ok tt m')
      × (chread c out at n m' ≡ done out')
      × ((k : ℕ) → k < chunk_size → out' (at + k) ≡ src (offset + k))
      × IsValid m'
chread-chwrite {m} c src offset out at n v h taken fits =
    let (m', written, new, _, same) = chwrite_lem m c h taken src offset chunk_size (omega arith) in
    let (out', read, got, _) = chread_lem m' c h (rw same.map taken) out at n fits in
    (m', out', written, read, λ k lt. got k lt ∙ new k lt, SameButChunk-IsValid same v)

-- A free chunk in range can be neither written nor read: with lengths that would do, both calls
-- give FREE_CHUNK_ACCESS_ATTEMPT.
pub free_chunk-refused :
    (m : StorageMan) (c : ℕ) (src out : ℕ → ℕ) (offset n len : ℕ)
    → c < chunks_amount
    → m.allocation_map c ≡ false
    → n ≤ chunk_size
    → chunk_size ≤ len
    → (chwrite c src offset n m ≡ fail free_chunk_access_attempt m)
      × (chread c out offset len m ≡ error free_chunk_access_attempt)
unfolding chwrite chread
free_chunk-refused m c src out offset n len h free short long = ground arith
