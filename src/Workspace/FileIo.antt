-- ===== src/Workspace/FileIo.antt =====
-- The data of files by their paths: workspace/file_io.c.
use virtual_file_system_c.Prelude.{ℕ, ◌*◌, ltb, ◌==◌, if◌then◌else◌}
use virtual_file_system_c.Settings.{chunk_size}
use virtual_file_system_c.Status.{
  Act, ◌>>=◌, lift, Result, done, error, ◌>>>◌, insufficient_array_passed,
}
use virtual_file_system_c.FileStorage.{Disk}
use virtual_file_system_c.FileLogic.Append.{file_append}
use virtual_file_system_c.FileLogic.Delete.{file_delete_data, file_truncate_by}
use virtual_file_system_c.FileLogic.Read.{file_read_at}
use virtual_file_system_c.Entries.{on_file}
use virtual_file_system_c.Queries.{CString}
use virtual_file_system_c.Workspace.{Workspace, on_vfs, ws_resolve_path}
use virtual_file_system_c.Workspace.Ops.{file_only}

-- `ws_file_append`
unfoldable pub ws_file_append :
    CString → (bytes : ℕ → ℕ) (data_length : ℕ) → Act Workspace (Unit {0})
ws_file_append path bytes data_length = do
  f ← lift (λ w. ws_resolve_path w path >>> file_only)
  on_vfs (on_file f (file_append bytes data_length))

-- `ws_file_clear`
unfoldable pub ws_file_clear : CString → Act Workspace (Unit {0})
ws_file_clear path = do
  f ← lift (λ w. ws_resolve_path w path >>> file_only)
  on_vfs (on_file f file_delete_data)

-- `ws_file_truncate`
unfoldable pub ws_file_truncate : CString → (amount : ℕ) → Act Workspace (Unit {0})
ws_file_truncate path amount = do
  f ← lift (λ w. ws_resolve_path w path >>> file_only)
  on_vfs (on_file f (file_truncate_by amount))

-- A file of the workspace with the storage manager.
abbrev pub file_disk : Workspace → ℕ → Disk
file_disk w f = record { file = w.vfs.entries.files f; man = w.vfs.man }

-- `ws_file_read_all` of the file: the buffer, and `*out_data_amount`.
unfoldable pub read_whole : Disk → (buffer : ℕ → ℕ) (buffer_size : ℕ) → Result ((ℕ → ℕ) × ℕ)
read_whole s buffer buffer_size =
    if ltb buffer_size (s.file.allocated_size * chunk_size)
    then error insufficient_array_passed
    else if s.file.allocated_size == 0
    then done (buffer, 0)
    else file_read_at s 0 (s.file.allocated_size * chunk_size) (buffer, 0) buffer_size
      >>> λ (out, end). done (out, s.file.allocated_size * chunk_size)

-- `ws_file_read_all`
unfoldable pub ws_file_read_all :
    Workspace → CString → (buffer : ℕ → ℕ) (buffer_size : ℕ) → Result ((ℕ → ℕ) × ℕ)
unfolding read_whole
ws_file_read_all w path buffer buffer_size =
    ws_resolve_path w path >>> file_only >>> λ f. read_whole (file_disk w f) buffer buffer_size

-- `ws_file_read_at`: the buffer.
unfoldable pub ws_file_read_at :
    Workspace → CString → (offset amount : ℕ) (buffer : ℕ → ℕ) (buffer_size : ℕ) → Result (ℕ → ℕ)
ws_file_read_at w path offset amount buffer buffer_size =
    if ltb buffer_size amount
    then error insufficient_array_passed
    else ws_resolve_path w path >>> file_only >>> λ f.
        file_read_at (file_disk w f) offset amount (buffer, 0) buffer_size >>> λ (out, end).
        done out
