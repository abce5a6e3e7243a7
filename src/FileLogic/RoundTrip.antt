-- ===== src/FileLogic/RoundTrip.antt =====
-- What `file_append` of system/file_logic.c stores, `file_read_at` gives back.
use virtual_file_system_c.Prelude.{ℕ, ◌+◌, ◌*◌, ◌≤◌, ◌<◌, ◌≡◌, ◌∙◌, arith}
use mathlib.Core.Path.{subst}
use virtual_file_system_c.Settings.{chunk_size}
use virtual_file_system_c.Status.{Result, ok, done}
use virtual_file_system_c.FileStorage.{Disk}
use virtual_file_system_c.FileStorage.Valid.{IsDisk}
use virtual_file_system_c.FileLogic.Read.{Cursor, file_read_at}
use virtual_file_system_c.FileLogic.Read.Correct.{file_read_at-Fills}
use virtual_file_system_c.FileLogic.Append.{file_append}
use virtual_file_system_c.FileLogic.Append.Write.{padded}
use virtual_file_system_c.FileLogic.Append.Correct.{
  appended, no_run_of_chunks, no_extent, Appended, file_append-AppendOutcome,
}
use virtual_file_system_c.FileLogic.Read.Filled.{Fills, fills}
use virtual_file_system_c.FileLogic.Append.Data.{get_chunks_amount_lem}

-- A read of data that has been put behind the bytes of a file.
read-Appended :
    (src : ℕ → ℕ) (len : ℕ) {s t : Disk} (buf : ℕ → ℕ) (at : ℕ) {r : Result Cursor}
    → Appended src len s t
    → Fills t (s.file.allocated_size * chunk_size) buf at len r
    → (out : ℕ → ℕ) × (r ≡ done (out, at + len)) × ((k : ℕ) → k < len → out (at + k) ≡ src k)
unfolding padded
read-Appended src len buf at a (fills out e f) = (
  out,
  e,
  λ k h. f.inner k h ∙ a.added k (omega (arith, get_chunks_amount_lem len)) ∙ ground arith,
)

-- Data of at least one byte, no longer than the free chunks, that `file_append` has stored behind a
-- valid file is read back by `file_read_at` at the position where the file ended before, into a
-- buffer of its length.
pub file_read_at-file_append :
    (src : ℕ → ℕ) (len : ℕ) {s t : Disk} (buf : ℕ → ℕ) (at : ℕ)
    → IsDisk s
    → 0 < len
    → len ≤ s.man.free_chunk_count * chunk_size
    → file_append src len s ≡ ok tt t
    → (out : ℕ → ℕ) × (file_read_at t (s.file.allocated_size * chunk_size) len (buf, at) len
        ≡ done (out, at + len))
      × ((k : ℕ) → k < len → out (at + k) ≡ src k)
file_read_at-file_append src len {s} {t} buf at v some_bytes room e =
    elim (file_append-AppendOutcome src len v some_bytes room) [
      | appended t' e' a' ↦
          let a : Appended src len s t = subst (Appended src len s) (cc) a' in
          read-Appended src len buf at a (
            file_read_at-Fills (s.file.allocated_size * chunk_size) len buf at len a.valid
              some_bytes (omega (arith, get_chunks_amount_lem len, a.size)) (omega arith))
      | no_run_of_chunks e' h ↦ cc
      | no_extent e' h ↦ cc
    ]
