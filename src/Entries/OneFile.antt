-- ===== src/Entries/OneFile.antt =====
-- What a call on the data of one file leaves of the entry store of system/vfs_entry_store.c.
use virtual_file_system_c.Prelude.{
  ℕ, ◌≡◌, sym, ap, ◌∙◌, ◌⊎◌, inl, inr, Bool, true, false, arith, ◌==◌, length, Bool-cases,
}
use mathlib.Core.Path.{fun_ext, subst}
use virtual_file_system_c.Settings.{chunks_amount, max_name_length}
use virtual_file_system_c.Names.Text.{EndsWithin}
use virtual_file_system_c.FileStorage.{Disk}
use virtual_file_system_c.FileStorage.Owned.{file_chunks, contains}
use virtual_file_system_c.FileStorage.Valid.{IsDisk}
use virtual_file_system_c.Folders.{put_file}
use virtual_file_system_c.Entries.{Vfs, put_disk}
use virtual_file_system_c.Entries.Remove.{disk_of}
use virtual_file_system_c.Entries.Prune.{Slots, Named}
use virtual_file_system_c.Entries.Sound.{taken-count_free}
use virtual_file_system_c.Tree.Linked.{set_at}
use virtual_file_system_c.Tree.Valid.{shape, IsTree, with_file_parent}
use virtual_file_system_c.Tree.Seen.{shape-put_file}
use virtual_file_system_c.Entries.Whole.{IsStore}

-- A call on the data of one file: it may take chunks that were free and give back its own.
pub record DiskMoved (s t : Disk) : Type 0 where
  pub valid : IsDisk t
  pub parent : t.file.parent_folder ≡ s.file.parent_folder
  pub name : t.file.name ≡ s.file.name
  pub fresh :
      (c : ℕ)
      → contains (file_chunks t.file.data_chunk_extents) c ≡ true
      → (contains (file_chunks s.file.data_chunk_extents) c ≡ true)
        ⊎ (s.man.allocation_map c ≡ false)
  pub others :
      (c : ℕ)
      → s.man.allocation_map c ≡ true
      → contains (file_chunks s.file.data_chunk_extents) c ≡ false
      → t.man.allocation_map c ≡ true

module _ (f : ℕ) (v : Vfs) (d : Disk) (s : IsStore v)
    (live_f : (shape v.entries).live_file f ≡ true) (m : DiskMoved (disk_of f v) d) where
  -- The chunks of another file.
  abbrev chunks_of : ℕ → ℕ → Bool
  chunks_of g c = contains (file_chunks (v.entries.files g).data_chunk_extents) c

  taken_still :
      (g c : ℕ)
      → (shape v.entries).live_file g ≡ true
      → (g == f) ≡ false
      → chunks_of g c ≡ true
      → d.man.allocation_map c ≡ true
  taken_still g c live other mine =
      m.others c ((s.sound.disks g live).taken c mine) (s.sound.apart g f c live live_f other mine)

  other-IsDisk :
      (g : ℕ)
      → (shape v.entries).live_file g ≡ true
      → (g == f) ≡ false
      → IsDisk (record { file = v.entries.files g; man = d.man })
  other-IsDisk g live other =
      let mine = s.sound.disks g live in
      let fits =
        taken-count_free (file_chunks (v.entries.files g).data_chunk_extents) d.man.allocation_map
          chunks_amount mine.distinct (λ c h. taken_still g c live other h) mine.in_range in
      record {
        man_valid = m.valid.man_valid;
        slots = mine.slots;
        compact = mine.compact;
        sized = mine.sized;
        distinct = mine.distinct;
        taken = λ c h. taken_still g c live other h;
        in_range = mine.in_range;
        small = omega (arith, fits, mine.sized, m.valid.man_valid.counted);
      }

  -- The file in question, or another.
  file_there : (g : ℕ) → (g == f) ≡ true → d.file ≡ (put_file f d.file v.entries).files g
  file_there g same = ground (arith, same)

  file_elsewhere :
      (g : ℕ) → (g == f) ≡ false → v.entries.files g ≡ (put_file f d.file v.entries).files g
  file_elsewhere g other = ground (arith, other)

  abbrev moved_chunks : ℕ → Bool
  moved_chunks c = contains (file_chunks d.file.data_chunk_extents) c

  -- No other file has a chunk that the file has now.
  new_apart :
      (g c : ℕ)
      → (shape v.entries).live_file g ≡ true
      → (g == f) ≡ false
      → chunks_of g c ≡ true
      → moved_chunks c ≡ false
  new_apart g c live other mine = elim (Bool-cases (moved_chunks c)) [
    | inr lacks ↦ lacks
    | inl has ↦ elim (m.fresh c has) [
      | inl his ↦ absurd (ground (arith, his, s.sound.apart g f c live live_f other mine))
      | inr free ↦ absurd (ground (arith, free, (s.sound.disks g live).taken c mine))
    ]
  ]

  new_apart_back :
      (g c : ℕ)
      → (shape v.entries).live_file g ≡ true
      → (g == f) ≡ false
      → moved_chunks c ≡ true
      → chunks_of g c ≡ false
  new_apart_back g c live other his = elim (Bool-cases (chunks_of g c)) [
    | inr lacks ↦ lacks
    | inl has ↦ absurd (ground (arith, his, new_apart g c live other has))
  ]

  moved_apart :
      (g h c : ℕ)
      → (shape v.entries).live_file g ≡ true
      → (shape v.entries).live_file h ≡ true
      → (g == h) ≡ false
      → contains (file_chunks ((put_file f d.file v.entries).files g).data_chunk_extents) c ≡ true
      → contains (file_chunks ((put_file f d.file v.entries).files h).data_chunk_extents) c ≡ false
  moved_apart g h c a b other mine = elim (Bool-cases (g == f)) [
    | inl first ↦
        let not_second : (h == f) ≡ false = ground (arith, first, other) in
        subst (λ x. contains (file_chunks x.data_chunk_extents) c ≡ false)
          (file_elsewhere h not_second)
          (new_apart_back h c b not_second (
            subst (λ x. contains (file_chunks x.data_chunk_extents) c ≡ true)
              (sym (file_there g first)) mine))
    | inr not_first ↦
        let his : chunks_of g c ≡ true =
          subst (λ x. contains (file_chunks x.data_chunk_extents) c ≡ true)
            (sym (file_elsewhere g not_first)) mine in
        elim (Bool-cases (h == f)) [
          | inl second ↦
              subst (λ x. contains (file_chunks x.data_chunk_extents) c ≡ false)
                (file_there h second) (new_apart g c a not_first his)
          | inr not_second ↦
              subst (λ x. contains (file_chunks x.data_chunk_extents) c ≡ false)
                (file_elsewhere h not_second) (s.sound.apart g h c a b other his)
        ]
  ]

  -- The tree does not see the data of files.
  pub put_disk-shape : shape (put_file f d.file v.entries) ≡ shape v.entries
  put_disk-shape =
      shape-put_file f d.file v.entries
      ∙ ap (λ p. with_file_parent f p (shape v.entries)) m.parent
      ∙ λ i. record (shape v.entries) { file_parent = fun_ext parent_self i }
    where
      parent_self :
          (g : ℕ)
          → set_at ◌==◌ f
              (v.entries.files f).parent_folder
              (λ h. (v.entries.files h).parent_folder)
              g
            ≡ (v.entries.files g).parent_folder
      parent_self g = ground arith

  pub IsStore-DiskMoved : IsStore (put_disk f d v)
  IsStore-DiskMoved = record {
    sound = record {
      tree = subst IsTree (sym put_disk-shape) s.sound.tree;
      disks = disks;
      apart = moved_apart;
    };
    man_valid = m.valid.man_valid;
    slots = slots;
    named = named;
  }
    where
      named : Named (put_file f d.file v.entries)
      named g live = elim (Bool-cases (g == f)) [
        | inl same ↦
            subst (λ x. EndsWithin max_name_length x.name) (file_there g same)
              (subst (EndsWithin max_name_length) (sym m.name) (s.named f live_f))
        | inr other ↦
            subst (λ x. EndsWithin max_name_length x.name) (file_elsewhere g other) (s.named g live)
      ]

      disks :
          (g : ℕ)
          → (shape v.entries).live_file g ≡ true
          → IsDisk (record { file = (put_file f d.file v.entries).files g; man = d.man })
      disks g live = elim (Bool-cases (g == f)) [
        | inl same ↦
            subst (λ x. IsDisk (record { file = x; man = d.man })) (file_there g same) m.valid
        | inr other ↦
            subst (λ x. IsDisk (record { file = x; man = d.man })) (file_elsewhere g other)
              (other-IsDisk g live other)
      ]

      slots : Slots (put_file f d.file v.entries)
      slots g = elim (Bool-cases (g == f)) [
        | inl same ↦ ap (λ x. length x.data_chunk_extents) (sym (file_there g same)) ∙ m.valid.slots
        | inr other ↦
            ap (λ x. length x.data_chunk_extents) (sym (file_elsewhere g other)) ∙ s.slots g
      ]
