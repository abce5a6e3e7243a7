-- ===== src/FileLogic/Read/Filled.antt =====
-- A part of a buffer filled by the reads of system/file_logic.c.
use virtual_file_system_c.Prelude.{
  ℕ, ◌+◌, ◌-◌, ◌<◌, ◌≡◌, refl, ap, ◌∙◌, inl, inr, false, arith, lt-cases, inside,
}
use virtual_file_system_c.Status.{Result, done}
use virtual_file_system_c.FileStorage.{Disk}
use virtual_file_system_c.FileLogic.Index.Position.{file_byte}
use virtual_file_system_c.FileLogic.Read.{Cursor}

-- `out` is `buf` with the bytes `bytes 0`, `bytes 1`, … put at `at`, `n` of them.
pub record Filled (bytes : ℕ → ℕ) (buf : ℕ → ℕ) (at n : ℕ) (out : ℕ → ℕ) : Type 0 where
  pub inner : (k : ℕ) → k < n → out (at + k) ≡ bytes k
  pub outer : (j : ℕ) → inside at n j ≡ false → out j ≡ buf j

-- A call that fills a part of the buffer from position `offset` of the file, and leaves the pointer
-- behind it.
pub data Fills (s : Disk) (offset : ℕ) (buf : ℕ → ℕ) (at n : ℕ) (r : Result Cursor) : Type 0 where
  fills :
      (out : ℕ → ℕ)
      → r ≡ done (out, at + n)
      → Filled (λ k. file_byte s (offset + k)) buf at n out
      → Fills s offset buf at n r

pub Filled-nil : (bytes buf : ℕ → ℕ) (at : ℕ) → Filled bytes buf at 0 buf
Filled-nil bytes buf at = record { inner = λ k h. absurd (omega arith); outer = λ j h. refl }

pub Filled-append :
    (bytes : ℕ → ℕ) {buf mid out : ℕ → ℕ} (at n k : ℕ)
    → Filled bytes buf at n mid
    → Filled (λ j. bytes (n + j)) mid (at + n) k out
    → Filled bytes buf at (n + k) out
Filled-append bytes {buf} {mid} {out} at n k f g = record {
  inner = λ j h. elim (lt-cases j n) [
    | inl here ↦ g.outer (at + j) (ground arith) ∙ f.inner j here
    | inr past ↦ ap out (omega arith) ∙ g.inner (j - n) (omega arith) ∙ ap bytes (omega arith)
  ];
  outer = λ j h. g.outer j (ground arith) ∙ f.outer j (ground arith);
}

pub Filled-ext :
    {bytes bytes' buf out : ℕ → ℕ} {at n : ℕ}
    → ((j : ℕ) → j < n → bytes j ≡ bytes' j)
    → Filled bytes buf at n out
    → Filled bytes' buf at n out
Filled-ext e f = record { inner = λ k h. f.inner k h ∙ e k h; outer = f.outer }

pub Fills-cast :
    {s : Disk} {offset offset' at n n' : ℕ} {buf : ℕ → ℕ} {r : Result Cursor}
    → offset ≡ offset'
    → n ≡ n'
    → Fills s offset buf at n r
    → Fills s offset' buf at n' r
Fills-cast e d f = rw (← e, ← d) f
