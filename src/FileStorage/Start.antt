-- ===== src/FileStorage/Start.antt =====
-- A file that `file_init` of system/files.c has set up, for the layer of system/file_storage.c.
use virtual_file_system_c.Prelude.{
  ℕ, suc, sym, ◌<◌, ◌≡◌, refl, ap, ◌∙◌, inl, none, List, [], ◌∷◌, arith, length, lt→leb, update,
  copy, copy_in,
}
use virtual_file_system_c.Settings.{chunks_amount, max_file_chunk_extents_amount, max_name_length}
use virtual_file_system_c.Status.{done}
use virtual_file_system_c.Storage.{StorageMan}
use virtual_file_system_c.Storage.Counting.{count_free-le}
use virtual_file_system_c.Storage.Valid.{IsValid}
use virtual_file_system_c.Files.{ChunkExtent, File, init_empty_extensions, file_init}
use virtual_file_system_c.FileStorage.Owned.{contains}
use virtual_file_system_c.FileStorage.Valid.{AllEmpty, Compact, IsDisk}
use virtual_file_system_c.FileStorage.Placed.{AllEmpty-no_chunks}

pub init_empty_extensions-AllEmpty : (es : List ChunkExtent) → AllEmpty (init_empty_extensions es)
unfolding init_empty_extensions
init_empty_extensions-AllEmpty [] = tt
init_empty_extensions-AllEmpty (e ∷ es) = (refl, init_empty_extensions-AllEmpty es)

pub length-init_empty_extensions :
    (es : List ChunkExtent) → length (init_empty_extensions es) ≡ length es
unfolding init_empty_extensions
length-init_empty_extensions [] = refl
length-init_empty_extensions (e ∷ es) = ap suc (length-init_empty_extensions es)

AllEmpty-Compact : (es : List ChunkExtent) → AllEmpty es → Compact es
AllEmpty-Compact [] h = tt
AllEmpty-Compact (e ∷ es) (h, hs) = inl (h, hs)

-- A file without chunks is a valid one.
pub no_chunks-IsDisk :
    {f : File} {m : StorageMan}
    → IsValid m
    → length f.data_chunk_extents ≡ max_file_chunk_extents_amount
    → AllEmpty f.data_chunk_extents
    → f.allocated_size ≡ 0
    → IsDisk (record { file = f; man = m })
unfolding contains
no_chunks-IsDisk {f} {m} v slots empty size =
    let no_chunks = AllEmpty-no_chunks f.data_chunk_extents empty in
    record {
      man_valid = v;
      slots = slots;
      compact = AllEmpty-Compact f.data_chunk_extents empty;
      sized = size ∙ sym (ap length no_chunks);
      distinct = rw no_chunks tt;
      taken = λ c h. absurd (ground (arith, no_chunks, h));
      in_range = λ c h. absurd (ground (arith, no_chunks, h));
      small = omega (arith, size, v.counted, count_free-le m.allocation_map chunks_amount);
    }

-- `file_init` with a name of less than 32 chars succeeds on any memory for a file: with any valid
-- manager the new file is a valid one without data, and it has the name, with a null behind it.
pub file_init-IsDisk :
    (f : File) (m : StorageMan) (name : ℕ → ℕ) (name_length : ℕ)
    → IsValid m
    → length f.data_chunk_extents ≡ max_file_chunk_extents_amount
    → name_length < max_name_length
    → (f' : File) × (file_init f name name_length ≡ done f')
      × IsDisk (record { file = f'; man = m })
      × (f'.allocated_size ≡ 0)
      × ((k : ℕ) → k < name_length → f'.name k ≡ name k)
      × (f'.name name_length ≡ 0)
unfolding file_init
file_init-IsDisk f m name name_length v slots fits = (
  record {
    allocated_size = 0;
    parent_folder = none;
    data_chunk_extents = init_empty_extensions f.data_chunk_extents;
    name = update (copy f.name 0 name 0 name_length) name_length 0;
  },
  rw (lt→leb max_name_length name_length fits),
  no_chunks-IsDisk v (length-init_empty_extensions f.data_chunk_extents ∙ slots)
      (init_empty_extensions-AllEmpty f.data_chunk_extents) refl,
  refl,
  λ k h. ground (arith, copy_in f.name 0 name 0 name_length k),
  ground arith,
)
