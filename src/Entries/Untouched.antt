-- ===== src/Entries/Untouched.antt =====
-- What the entry store of system/vfs_entry_store.c keeps while no file changes its data.
use virtual_file_system_c.Prelude.{ℕ, ◌≡◌, sym, ap, true, false, arith}
use mathlib.Core.Path.{subst}
use virtual_file_system_c.Files.{File}
use virtual_file_system_c.Storage.{StorageMan}
use virtual_file_system_c.FileStorage.Owned.{file_chunks, contains}
use virtual_file_system_c.FileStorage.Valid.{IsDisk}
use virtual_file_system_c.Folders.{VfsEntryStore}
use virtual_file_system_c.Folders.Links.{}
use virtual_file_system_c.Entries.{Vfs}
use virtual_file_system_c.Entries.Sound.{IsVfs}
use virtual_file_system_c.Relocation.{}
use virtual_file_system_c.Tree.Valid.{shape, IsTree}
use virtual_file_system_c.Entries.Frame.{SameData, file_data}

-- Validity of a file is about its data and the storage manager alone.
pub IsDisk-file_data :
    (f g : File) (m : StorageMan)
    → file_data g ≡ file_data f
    → IsDisk (record { file = f; man = m })
    → IsDisk (record { file = g; man = m })
IsDisk-file_data f g m e d =
    subst
      (λ x.
        IsDisk
          (record { file = record g { allocated_size = x.0; data_chunk_extents = x.1 }; man = m }))
      (sym e) moved
  where
    moved : IsDisk (record {
      file = record g {
        allocated_size = f.allocated_size;
        data_chunk_extents = f.data_chunk_extents;
      };
      man = m;
    })
    moved = record {
      man_valid = d.man_valid;
      slots = d.slots;
      compact = d.compact;
      sized = d.sized;
      distinct = d.distinct;
      taken = d.taken;
      in_range = d.in_range;
      small = d.small;
    }

-- A tree with the same data is sound.
pub IsVfs-SameData :
    (v : Vfs) (t : VfsEntryStore)
    → IsVfs v
    → IsTree (shape t)
    → SameData v.entries t
    → IsVfs (record v { entries = t })
IsVfs-SameData v t s tree d = record {
  tree = tree;
  disks = λ f e.
      IsDisk-file_data (v.entries.files f) (t.files f) v.man (d.stored f) (s.disks f (live f e));
  apart = λ f g c a b other mine.
      elim_chunks g c (s.apart f g c (live f a) (live g b) other (chunks f c mine));
}
  where
    live : (f : ℕ) → (shape t).live_file f ≡ true → (shape v.entries).live_file f ≡ true
    live f e = ground (arith, ap (λ m. m f) d.in_use, e)

    chunks :
        (f c : ℕ)
        → contains (file_chunks (t.files f).data_chunk_extents) c ≡ true
        → contains (file_chunks (v.entries.files f).data_chunk_extents) c ≡ true
    chunks f c e = subst (λ x. contains (file_chunks x.1) c ≡ true) (d.stored f) e

    elim_chunks :
        (f c : ℕ)
        → contains (file_chunks (v.entries.files f).data_chunk_extents) c ≡ false
        → contains (file_chunks (t.files f).data_chunk_extents) c ≡ false
    elim_chunks f c e = subst (λ x. contains (file_chunks x.1) c ≡ false) (sym (d.stored f)) e
