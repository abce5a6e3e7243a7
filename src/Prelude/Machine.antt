-- ===== src/Prelude/Machine.antt =====
-- `size_t` arithmetic, and memory: a region behind a pointer is a function from offsets.
use Prim.Native.Nat.{ℕ, zero, suc, ◌+◌, ◌-◌, ◌%◌, ◌^◌}
use mathlib.Core.Path.{◌≡◌, refl}
use mathlib.Core.Bool.{Bool, true, false, ◌&&◌}
use native.Mathlib.Omega.{arith}
use virtual_file_system_c.Prelude.Tests.{leb, ltb, ◌==◌, if◌then◌else◌}

-- `size_t` is 64 bits wide and wraps.
abbrev pub add_size : ℕ → ℕ → ℕ
add_size a b = (a + b) % 2 ^ 64

abbrev pub sub_size : ℕ → ℕ → ℕ
sub_size a b = (a + 2 ^ 64 - b) % 2 ^ 64

-- An assignment to one element.
abbrev pub update : {A : Type 0} → (ℕ → A) → ℕ → A → ℕ → A
update f i v j = if i == j then v else f j

abbrev pub inside : ℕ → ℕ → ℕ → Bool
inside p n j = leb p j && ltb j (p + n)

-- `for (i = 0; i < n; i++) dst[i] = v;` with `dst` at offset `p`.
unfoldable pub fill : {A : Type 0} → (ℕ → A) → ℕ → ℕ → A → ℕ → A
fill f p zero v = f
fill f p (suc n) v = fill (update f p v) (p + 1) n v

-- `for (i = 0; i < n; i++) dst[i] = src[i];` with the pointers at offsets `d` and `s`.
unfoldable pub copy : (ℕ → ℕ) → ℕ → (ℕ → ℕ) → ℕ → ℕ → ℕ → ℕ
copy dst d src s zero = dst
copy dst d src s (suc n) = copy (update dst d (src s)) (d + 1) src (s + 1) n

-- What `fill` leaves at each index.
pub fill_lem :
    {A : Type 0} (f : ℕ → A) (p n : ℕ) (v : A) (j : ℕ)
    → fill f p n v j ≡ (if inside p n j then v else f j)
unfolding fill
fill_lem f p zero v j = ground arith
fill_lem f p (suc n) v j = ground (arith, fill_lem (update f p v) (p + 1) n v j)

-- What `copy` leaves outside the bytes written.
pub copy_out :
    (dst : ℕ → ℕ) (d : ℕ) (src : ℕ → ℕ) (s n j : ℕ)
    → inside d n j ≡ false
    → copy dst d src s n j ≡ dst j
unfolding copy
copy_out dst d src s zero j h = refl
copy_out dst d src s (suc n) j h =
    ground (arith, copy_out (update dst d (src s)) (d + 1) src (s + 1) n j)

-- What `copy` leaves at a byte written.
pub copy_in :
    (dst : ℕ → ℕ) (d : ℕ) (src : ℕ → ℕ) (s n j : ℕ)
    → inside d n j ≡ true
    → copy dst d src s n j ≡ src (s + (j - d))
unfolding copy
copy_in dst d src s zero j h = absurd (ground arith)
copy_in dst d src s (suc n) j h = ground (
  arith,
  copy_out (update dst d (src s)) (d + 1) src (s + 1) n j,
  copy_in (update dst d (src s)) (d + 1) src (s + 1) n j,
)
