-- ===== src/Entries/Whole.antt =====
-- The invariant of the entry store and the storage manager: system/vfs_entry_store.c,
-- system/entry_relocation.c and system/file_logic.c.
use virtual_file_system_c.Prelude.{
  ℕ, ◌≡◌, sym, ap, ◌∙◌, inl, inr, true, false, ltb, ◌&&◌, arith, ◌==◌, length, Bool-cases,
}
use mathlib.Core.Path.{subst}
use virtual_file_system_c.Settings.{
  max_file_chunk_extents_amount, max_name_length, vfs_max_files_amount,
}
use virtual_file_system_c.Names.Text.{EndsWithin}
use virtual_file_system_c.Storage.Valid.{IsValid}
use virtual_file_system_c.FileStorage.Owned.{file_chunks, contains}
use virtual_file_system_c.FileStorage.Valid.{IsDisk}
use virtual_file_system_c.FileStorage.Placed.{AllEmpty-no_chunks}
use virtual_file_system_c.FileStorage.Start.{no_chunks-IsDisk}
use virtual_file_system_c.Folders.{VfsEntryStore}
use virtual_file_system_c.Entries.{Vfs}
use virtual_file_system_c.Entries.Frame.{SameData}
use virtual_file_system_c.Entries.Untouched.{IsDisk-file_data, IsVfs-SameData}
use virtual_file_system_c.Entries.Made.{OneBlank, Blanked}
use virtual_file_system_c.Entries.Prune.{Slots, Named}
use virtual_file_system_c.Entries.Sound.{IsVfs}
use virtual_file_system_c.Tree.Valid.{shape, IsTree}

-- The entries are a tree, the files in use are valid and share no chunk, the manager counts its
-- free chunks, each file slot has all its extents, and the names of the files in use end inside their
-- arrays.
pub record IsStore (v : Vfs) : Type 0 where
  pub sound : IsVfs v
  pub man_valid : IsValid v.man
  pub slots : Slots v.entries
  pub named : Named v.entries

pub IsStore-SameData :
    (v : Vfs) (t : VfsEntryStore)
    → IsStore v
    → IsTree (shape t)
    → SameData v.entries t
    → IsStore (record v { entries = t })
IsStore-SameData v t s tree d = record {
  sound = IsVfs-SameData v t s.sound tree d;
  man_valid = s.man_valid;
  slots = λ f. ap (λ x. length x.1) (d.stored f) ∙ s.slots f;
  named = λ f live.
      d.named f (s.named f (ap (λ m. ltb f vfs_max_files_amount && m f) (sym d.in_use) ∙ live));
}

same_index : (f g : ℕ) → (f == g) ≡ true → g ≡ f
same_index f g e = ground arith

module _ (i : ℕ) (v : Vfs) (t : VfsEntryStore) (s : IsStore v) (b : OneBlank i v.entries t) where
  new_chunks : (c : ℕ) → contains (file_chunks (t.files i).data_chunk_extents) c ≡ false
  unfolding contains
  new_chunks c =
      ap (λ xs. contains xs c) (AllEmpty-no_chunks (t.files i).data_chunk_extents b.empty)

  new-IsDisk : IsDisk (record { file = t.files i; man = v.man })
  new-IsDisk = no_chunks-IsDisk s.man_valid b.slots b.empty b.size

  IsDisk-at :
      (g : ℕ) → (shape t).live_file g ≡ true → IsDisk (record { file = t.files g; man = v.man })
  IsDisk-at g live = elim (Bool-cases (g == i)) [
    | inl same ↦
        subst (λ h. IsDisk (record { file = t.files h; man = v.man })) (same_index g i same)
          new-IsDisk
    | inr other ↦
        IsDisk-file_data (v.entries.files g) (t.files g) v.man (b.others g other)
          (s.sound.disks g (b.live g other live))
  ]

  apart_at :
      (f g c : ℕ)
      → (shape t).live_file f ≡ true
      → (shape t).live_file g ≡ true
      → (f == g) ≡ false
      → contains (file_chunks (t.files f).data_chunk_extents) c ≡ true
      → contains (file_chunks (t.files g).data_chunk_extents) c ≡ false
  apart_at f g c live_f live_g other mine = elim (Bool-cases (g == i)) [
    | inl same ↦
        subst (λ h. contains (file_chunks (t.files h).data_chunk_extents) c ≡ false)
          (same_index g i same) (new_chunks c)
    | inr his ↦ elim (Bool-cases (f == i)) [
      | inl same ↦
          let none_there : contains (file_chunks (t.files f).data_chunk_extents) c ≡ false =
            subst (λ h. contains (file_chunks (t.files h).data_chunk_extents) c ≡ false)
              (same_index f i same) (new_chunks c) in
          absurd (ground (arith, none_there, mine))
      | inr hers ↦
          subst (λ x. contains (file_chunks x.1) c ≡ false) (sym (b.others g his))
            (s.sound.apart f g c (b.live f hers live_f) (b.live g his live_g) other
              (subst (λ x. contains (file_chunks x.1) c ≡ true) (b.others f hers) mine))
    ]
  ]

  pub IsStore-OneBlank : IsTree (shape t) → IsStore (record v { entries = t })
  IsStore-OneBlank tree = record {
    sound = record { tree = tree; disks = IsDisk-at; apart = apart_at };
    man_valid = s.man_valid;
    slots = slot_at;
    named = named_at;
  }
    where
      named_at : Named t
      named_at g live = elim (Bool-cases (g == i)) [
        | inl same ↦
            subst (λ h. EndsWithin max_name_length (t.files h).name) (same_index g i same) b.named
        | inr other ↦ b.others_named g other (s.named g (b.live g other live))
      ]

      slot_at : Slots t
      slot_at g = elim (Bool-cases (g == i)) [
        | inl same ↦
            subst (λ h. length (t.files h).data_chunk_extents ≡ max_file_chunk_extents_amount)
              (same_index g i same) b.slots
        | inr other ↦ ap (λ x. length x.1) (b.others g other) ∙ s.slots g
      ]

pub IsStore-Blanked :
    (v : Vfs) (t : VfsEntryStore)
    → IsStore v
    → Blanked v.entries t
    → IsTree (shape t)
    → IsStore (record v { entries = t })
IsStore-Blanked v t s (inl d) tree = IsStore-SameData v t s tree d
IsStore-Blanked v t s (inr (i, b)) tree = IsStore-OneBlank i v t s b tree
