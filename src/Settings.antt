-- ===== src/Settings.antt =====
-- The limits of system/include/settings.h.
use virtual_file_system_c.Prelude.{ℕ}

abbrev pub chunk_size : ℕ
chunk_size = 8

abbrev pub chunks_amount : ℕ
chunks_amount = 500

abbrev pub storage_bytes : ℕ
storage_bytes = 4000

abbrev pub max_file_chunk_extents_amount : ℕ
max_file_chunk_extents_amount = 10

-- EOC_OPERATOR fills the unused end of a file's last chunk.
abbrev pub eoc_operator : ℕ
eoc_operator = 0x1e

abbrev pub max_name_length : ℕ
max_name_length = 32

abbrev pub max_sub_files_amount : ℕ
max_sub_files_amount = 10

abbrev pub max_sub_folders_amount : ℕ
max_sub_folders_amount = 10

abbrev pub path_delimiter : ℕ
path_delimiter = b'/'

abbrev pub max_path_nodes_amount : ℕ
max_path_nodes_amount = 10

abbrev pub vfs_max_files_amount : ℕ
vfs_max_files_amount = 50

abbrev pub vfs_max_folders_amount : ℕ
vfs_max_folders_amount = 50
