-- ===== src/Tests/Data.antt =====
-- Inputs that the tests and the witnesses share.
use virtual_file_system_c.Prelude.{true, false, none, [], ◌∷◌, ltb}
use virtual_file_system_c.Status.{Outcome, ok, fail, fault}
use virtual_file_system_c.Storage.{StorageMan}
use virtual_file_system_c.Files.{ChunkExtent, File}
use virtual_file_system_c.FileStorage.{Disk}

abbrev pub blank_extent : ChunkExtent
blank_extent = record { is_empty = true; start = 0; chunk_amount = 0 }

abbrev pub blank_file : File
blank_file = record {
  allocated_size = 0;
  parent_folder = none;
  data_chunk_extents =
      blank_extent ∷ blank_extent ∷ blank_extent ∷ blank_extent ∷ blank_extent ∷ blank_extent
      ∷ blank_extent ∷ blank_extent ∷ blank_extent ∷ blank_extent ∷ [];
  name = λ _. 0;
}

-- A manager as `storage_man_create` gives it, with every chunk free.
abbrev pub fresh_man : StorageMan
fresh_man = record {
  storage = λ _. 0;
  storage_size = 4000;
  free_chunk_count = 500;
  allocation_map = λ _. false;
}

-- A file with no data.
abbrev pub fresh_disk : Disk
fresh_disk = record { file = blank_file; man = fresh_man }

-- A file that owns chunks 0 to 2, after which 497 are free.
abbrev pub used_man : StorageMan
used_man = record {
  storage = λ i. i;
  storage_size = 4000;
  free_chunk_count = 497;
  allocation_map = λ j. ltb j 3;
}

abbrev pub used_file : File
used_file = record {
  allocated_size = 3;
  parent_folder = none;
  data_chunk_extents =
      record { is_empty = false; start = 2; chunk_amount = 1 }
      ∷ record { is_empty = false; start = 0; chunk_amount = 2 }
      ∷ blank_extent
      ∷ blank_extent
      ∷ blank_extent
      ∷ blank_extent
      ∷ blank_extent
      ∷ blank_extent
      ∷ blank_extent
      ∷ blank_extent
      ∷ [];
  name = λ _. 0;
}

abbrev pub used_disk : Disk
used_disk = record { file = used_file; man = used_man }

-- What a call leaves behind.
unfoldable pub after : Outcome Disk (Unit {0}) → Disk
after (ok u s) = s
after (fail c s) = s
after fault = fresh_disk
