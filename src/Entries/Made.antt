-- ===== src/Entries/Made.antt =====
-- `vfs_sub_file_init` of system/vfs_entry_store.c: a file without data is added.
use virtual_file_system_c.Prelude.{
  ℕ, ◌≡◌, sym, ap, ◌∙◌, ◌⊎◌, inl, inr, Bool, true, false, some, arith, ◌==◌, length,
}
use mathlib.Core.Path.{subst}
use virtual_file_system_c.Settings.{max_file_chunk_extents_amount, max_name_length}
use virtual_file_system_c.Status.{Outcome, ok, fail, fault, done, ◌>>=◌, ◌>>◌, lift}
use virtual_file_system_c.Status.After.{Result-cases}
use virtual_file_system_c.Status.Keeps.{Leaves, Leaves-mono}
use virtual_file_system_c.Files.{File, FolderRef, file_init, init_empty_extensions}
use virtual_file_system_c.FileStorage.Valid.{AllEmpty}
use virtual_file_system_c.FileStorage.Start.{
  init_empty_extensions-AllEmpty, length-init_empty_extensions,
}
use virtual_file_system_c.Names.Text.{EndsWithin}
use virtual_file_system_c.Folders.{VfsEntryStore, put_file}
use virtual_file_system_c.Folders.Links.{sub_file_init}
use virtual_file_system_c.Entries.{
  mark_file, vfs_sub_file_init, init_file_at, validate_vfs_folder, get_available_file_position,
}
use virtual_file_system_c.Entries.Frame.{file_data, SameData, SameData-refl, sub_file_init-SameData}
use virtual_file_system_c.Entries.Prune.{Slots}
use virtual_file_system_c.Tree.Valid.{shape}
use virtual_file_system_c.Tree.Places.{free_file}

-- One file that was not in use has no data, and a name that ends inside its array, whether it is in
-- use now or not; the others are as before.
pub record OneBlank (at : ℕ) (s t : VfsEntryStore) : Type 0 where
  pub free : (shape s).live_file at ≡ false
  pub slots : length (t.files at).data_chunk_extents ≡ max_file_chunk_extents_amount
  pub empty : AllEmpty (t.files at).data_chunk_extents
  pub size : (t.files at).allocated_size ≡ 0
  pub named : EndsWithin max_name_length (t.files at).name
  pub others_named :
      (g : ℕ)
      → (g == at) ≡ false
      → EndsWithin max_name_length (s.files g).name
      → EndsWithin max_name_length (t.files g).name
  pub others : (g : ℕ) → (g == at) ≡ false → file_data (t.files g) ≡ file_data (s.files g)
  pub live :
      (g : ℕ) → (g == at) ≡ false → (shape t).live_file g ≡ true → (shape s).live_file g ≡ true

file_init-blank :
    (f g : File) (name : ℕ → ℕ) (length : ℕ)
    → file_init f name length ≡ done g
    → (g.data_chunk_extents ≡ init_empty_extensions f.data_chunk_extents) × (g.allocated_size ≡ 0)
unfolding file_init
file_init-blank f g name length e = (ground arith, ground arith)

file_init-EndsWithin :
    (f g : File) (name : ℕ → ℕ) (length : ℕ)
    → file_init f name length ≡ done g
    → EndsWithin max_name_length g.name
unfolding file_init
file_init-EndsWithin f g name length e = (length, ground arith, null_there)
  where
    null_there : g.name length ≡ 0
    null_there = ground arith

-- The store with the file that `file_init` has set up, after calls that keep the data.
OneBlank-set_up :
    (i : ℕ) (g : File) (s t : VfsEntryStore)
    → (shape s).live_file i ≡ false
    → length (s.files i).data_chunk_extents ≡ max_file_chunk_extents_amount
    → (g.data_chunk_extents ≡ init_empty_extensions (s.files i).data_chunk_extents)
      × (g.allocated_size ≡ 0)
    → EndsWithin max_name_length g.name
    → SameData (put_file i g s) t
    → OneBlank i s t
OneBlank-set_up i g s t free ten (blank, zero_size) ends d = record {
  named = d.named i (subst (λ x. EndsWithin max_name_length x.name) there ends);
  others_named =
      λ h other e. d.named h (subst (λ x. EndsWithin max_name_length x.name) (elsewhere h other) e);
  free = free;
  slots = ap length extents ∙ length-init_empty_extensions (s.files i).data_chunk_extents ∙ ten;
  empty =
      subst AllEmpty (sym extents) (init_empty_extensions-AllEmpty (s.files i).data_chunk_extents);
  size = ap (λ x. x.0) here ∙ zero_size;
  others = λ h other. d.stored h ∙ ground (arith, other);
  live = λ h other e. ground (arith, ap (λ m. m h) d.in_use, e);
}
  where
    there : g ≡ (put_file i g s).files i
    there = ground arith

    elsewhere : (h : ℕ) → (h == i) ≡ false → s.files h ≡ (put_file i g s).files h
    elsewhere h other = ground (arith, other)

    here : file_data (t.files i) ≡ file_data g
    here = d.stored i ∙ ground arith

    extents : (t.files i).data_chunk_extents ≡ init_empty_extensions (s.files i).data_chunk_extents
    extents = ap (λ x. x.1) here ∙ blank

OneBlank-mark_file :
    (i : ℕ) (b : Bool) (s t : VfsEntryStore) → OneBlank i s t → OneBlank i s (mark_file i b t)
OneBlank-mark_file i b s t h = record {
  free = h.free;
  slots = h.slots;
  empty = h.empty;
  size = h.size;
  named = h.named;
  others_named = h.others_named;
  others = h.others;
  live = λ g other e. h.live g other (ground (arith, other, e));
}

-- What a call of `vfs_sub_file_init` does to the data of files.
abbrev pub Blanked : VfsEntryStore → VfsEntryStore → Type 0
Blanked s t = SameData s t ⊎ ((i : ℕ) × OneBlank i s t)

pub vfs_sub_file_init-Blanked :
    (name : ℕ → ℕ) (length : ℕ) (p : FolderRef) (s : VfsEntryStore)
    → Slots s
    → Leaves (Blanked s) (vfs_sub_file_init name length p s)
unfolding vfs_sub_file_init init_file_at
vfs_sub_file_init-Blanked name length p s ten =
    elim (Result-cases (validate_vfs_folder (some p) s)) [
      | inr (c, e) ↦ rw (e, vfs_sub_file_init, lift, ◌>>=◌, ◌>>◌) (inl (SameData-refl s))
      | inl (u, e) ↦ elim (Result-cases (get_available_file_position s)) [
        | inr (c, full) ↦ rw (e, full, vfs_sub_file_init, lift, ◌>>=◌, ◌>>◌) (inl (SameData-refl s))
        | inl (i, at) ↦ elim (Result-cases (file_init (s.files i) name length)) [
          | inr (c, bad) ↦
              rw (e, at, bad, vfs_sub_file_init, lift, ◌>>=◌, ◌>>◌, init_file_at)
                (inl (SameData-refl s))
          | inl (g, good) ↦
              let (lt, free) = free_file s i at in
              let blank = file_init-blank (s.files i) g name length good in
              rw (e, at, good, vfs_sub_file_init, lift, ◌>>=◌, ◌>>◌, init_file_at)
                (linked i (sub_file_init i p (put_file i g s)) (
                  Leaves-mono (sub_file_init i p (put_file i g s))
                    (λ t d.
                      OneBlank-set_up i g s t free (ten i) blank
                        (file_init-EndsWithin (s.files i) g name length good) d)
                    (sub_file_init-SameData i p (put_file i g s) (put_file i g s)
                      (SameData-refl (put_file i g s)))))
        ]
      ]
    ]
  where
    linked :
        (i : ℕ) (o : Outcome VfsEntryStore (Unit {0}))
        → Leaves (OneBlank i s) o
        → Leaves
            (Blanked s)
            (elim o [ ok u t ↦ ok i (mark_file i true t) | fail c t ↦ fail c t | fault ↦ fault ])
    linked i (ok u t) h = inr (i, OneBlank-mark_file i true s t h)
    linked i (fail c t) h = inr (i, h)
    linked i fault h = tt
