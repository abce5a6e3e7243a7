-- ===== src/Entries/Prune.antt =====
-- `delete_children_recursive` and `delete_vfs_folder` of system/vfs_entry_store.c, on the whole store.
use mathlib.Core.Path.{subst}
use virtual_file_system_c.Prelude.{
  ℕ, zero, suc, ◌+◌, ◌<◌, ◌≡◌, refl, sym, ap, ◌∙◌, ◌⊎◌, inl, inr, true, false, Option, some, arith,
  Option-cases, Bool-cases, ◌==◌, length,
}
use virtual_file_system_c.Settings.{max_file_chunk_extents_amount, max_name_length}
use virtual_file_system_c.Names.Text.{EndsWithin}
use virtual_file_system_c.Storage.Valid.{IsValid}
use virtual_file_system_c.Status.{StatusCode, Act}
use virtual_file_system_c.Status.After.{After, succeeds, After-bind_outcome, After-mono}
use virtual_file_system_c.Files.{FolderRef}
use virtual_file_system_c.Folders.{VfsEntryStore, folder_at}
use virtual_file_system_c.Entries.{
  Vfs, for_each, delete_sub_file, delete_sub_folder, delete_children_recursive,
}
use virtual_file_system_c.Entries.Delete.{FolderRemoved}
use virtual_file_system_c.Entries.Remove.{FileRemoved, delete_vfs_file-FileRemoved}
use virtual_file_system_c.Entries.Sound.{IsVfs, IsVfs-FileRemoved}
use virtual_file_system_c.FileStorage.Valid.{IsDisk}
use virtual_file_system_c.FileStorage.Owned.{file_chunks, contains}
use virtual_file_system_c.Tree.Rooted.{Below, here, down}
use virtual_file_system_c.Tree.Acyclic.{IsTree-apart}
use virtual_file_system_c.Tree.Linked.{set_at}
use virtual_file_system_c.Tree.Valid.{shape}
use virtual_file_system_c.Tree.Steps.{Steps, stay, go, Steps-append, Step-IsTree}

-- Every file slot, in use or not, has all its extents.
abbrev pub Slots : VfsEntryStore → Type 0
Slots s = (f : ℕ) → length (s.files f).data_chunk_extents ≡ max_file_chunk_extents_amount

pub Slots-FileRemoved : (f : ℕ) (v w : Vfs) → Slots v.entries → FileRemoved f v w → Slots w.entries
Slots-FileRemoved f v w ten gone g = elim (Bool-cases (f == g)) [
  | inl same ↦
      subst (λ h. length (w.entries.files h).data_chunk_extents ≡ max_file_chunk_extents_amount)
        (eq f g same) gone.cleared.valid.slots
  | inr other ↦ ap (λ x. length x.data_chunk_extents) (gone.others g other) ∙ ten g
]
  where
    eq : (a b : ℕ) → (a == b) ≡ true → a ≡ b
    eq a b e = ground arith

-- The name of every file in use ends inside its array.
abbrev pub Named : VfsEntryStore → Type 0
Named s = (f : ℕ) → (shape s).live_file f ≡ true → EndsWithin max_name_length (s.files f).name

pub Named-FileRemoved : (f : ℕ) (v w : Vfs) → Named v.entries → FileRemoved f v w → Named w.entries
Named-FileRemoved f v w ends gone g live = elim (Bool-cases (f == g)) [
  | inl same ↦ absurd (ground (arith, ap (λ m. m g) gone.lives, live, same))
  | inr other ↦
      subst (λ x. EndsWithin max_name_length x.name) (sym (gone.others g other))
        (ends g (before f g v w gone.lives live other))
]
  where
    before :
        (f g : ℕ) (v w : Vfs)
        → (shape w.entries).live_file ≡ set_at ◌==◌ f false (shape v.entries).live_file
        → (shape w.entries).live_file g ≡ true
        → (f == g) ≡ false
        → (shape v.entries).live_file g ≡ true
    before f g v w lives live other = back g f v other (sym (ap (λ m. m g) lives) ∙ live)
      where
        back :
            (g f : ℕ) (v : Vfs)
            → (f == g) ≡ false
            → set_at ◌==◌ f false (shape v.entries).live_file g ≡ true
            → (shape v.entries).live_file g ≡ true
        back g f v other e = ground (arith, other, e)

-- A file is in use, with the data, the chunks, the parent and the name that it had.
abbrev pub FileStays : ℕ → Vfs → Vfs → Type 0
FileStays f v w = ((shape w.entries).live_file f ≡ true) × (w.entries.files f ≡ v.entries.files f)

-- A file stands in `r` or in a folder below.
abbrev pub FileBelow : FolderRef → ℕ → Vfs → Type 0
FileBelow r f v =
    (q : FolderRef) × (k : ℕ) × Below (shape v.entries).subs r q
    × ((shape v.entries).files q k ≡ some f)

-- A part of the tree below `r` is gone: the store is sound, no folder holds a sub folder or a file
-- that it did not hold, and everything that was in use is in use or was below `r`.
pub record Pruned (r : FolderRef) (v w : Vfs) : Type 0 where
  pub sound : IsVfs w
  pub steps : Steps (shape v.entries) (shape w.entries)
  pub man_valid : IsValid v.man → IsValid w.man
  pub slots : Slots v.entries → Slots w.entries
  pub named : Named v.entries → Named w.entries
  pub shrinks :
      (p : FolderRef) (k : ℕ) (q : FolderRef)
      → (shape w.entries).subs p k ≡ some q
      → (shape v.entries).subs p k ≡ some q
  pub stays :
      (x : FolderRef)
      → (shape v.entries).home x ≡ true
      → ((shape w.entries).home x ≡ true) ⊎ Below (shape v.entries).subs r x
  pub files_shrink :
      (p : FolderRef) (k f : ℕ)
      → (shape w.entries).files p k ≡ some f
      → (shape v.entries).files p k ≡ some f
  pub files_stay :
      (f : ℕ) → (shape v.entries).live_file f ≡ true → FileStays f v w ⊎ FileBelow r f v

Below-shrinks :
    {subs subs' : FolderRef → ℕ → Option FolderRef} {r x : FolderRef}
    → ((p : FolderRef) (k : ℕ) (q : FolderRef) → subs' p k ≡ some q → subs p k ≡ some q)
    → Below subs' r x
    → Below subs r x
Below-shrinks h (here r) = here r
Below-shrinks h (down {r = r} {q = q} k lt e b) = down k lt (h r k q e) (Below-shrinks h b)

pub Pruned-nothing : (r : FolderRef) (v : Vfs) → IsVfs v → Pruned r v v
Pruned-nothing r v s = record {
  sound = s;
  steps = stay;
  man_valid = λ m. m;
  slots = λ ten. ten;
  named = λ ends. ends;
  shrinks = λ p k q e. e;
  stays = λ x h. inl h;
  files_shrink = λ p k f e. e;
  files_stay = λ f live. inl (live, refl);
}

-- First above `r`, then above one of its sub folders.
Pruned-then :
    (r q : FolderRef) (k : ℕ) (v u w : Vfs)
    → k < 10
    → (shape u.entries).subs r k ≡ some q
    → Pruned r v u
    → Pruned q u w
    → Pruned r v w
Pruned-then r q k v u w lt e a b = record {
  sound = b.sound;
  steps = Steps-append a.steps b.steps;
  man_valid = λ m. b.man_valid (a.man_valid m);
  slots = λ ten. b.slots (a.slots ten);
  named = λ ends. b.named (a.named ends);
  shrinks = λ p i s h. a.shrinks p i s (b.shrinks p i s h);
  stays = λ x h. elim (a.stays x h) [
    | inr gone ↦ inr gone
    | inl still ↦ elim (b.stays x still) [
      | inl used ↦ inl used
      | inr gone ↦ inr (down k lt (a.shrinks r k q e) (Below-shrinks a.shrinks gone))
    ]
  ];
  files_shrink = λ p i f h. a.files_shrink p i f (b.files_shrink p i f h);
  files_stay = λ f live. elim (a.files_stay f live) [
    | inr gone ↦ inr gone
    | inl (used, same) ↦ elim (b.files_stay f used) [
      | inl (used', same') ↦ inl (used', same' ∙ same)
      | inr (p, i, gone, there) ↦ inr (
        p,
        i,
        down k lt (a.shrinks r k q e) (Below-shrinks a.shrinks gone),
        a.files_shrink p i f there,
      )
    ]
  ];
}

-- The state of the loops of `delete_children_recursive`: the folder itself is there still.
abbrev pub Clearing : FolderRef → Vfs → Vfs → Type 0
Clearing r v u = Pruned r v u × ((shape u.entries).home r ≡ true)

-- A loop whose rounds keep a property.
pub for_each-After :
    {S : Type 0} {Inv : S → Type 0} {bad : StatusCode → S → Type 0}
    → (k i : ℕ) (body : ℕ → Act S (Unit {0})) (s : S)
    → ((j : ℕ) (t : S) → j < i + k → Inv t → After (λ u t'. Inv t') bad (body j t))
    → Inv s
    → After (λ u t. Inv t) bad (for_each k i body s)
unfolding for_each
for_each-After zero i body s step h = succeeds h
for_each-After (suc k) i body s step h =
    After-bind_outcome (λ u. for_each k (i + 1) body) (step i s (omega arith) h)
      (λ u t inv. for_each-After k (i + 1) body t (λ j t' lt. step j t' (omega (arith, lt))) inv)

kept :
    (f g : ℕ) (u : Vfs)
    → (f == g) ≡ false
    → (shape u.entries).live_file g ≡ true
    → set_at ◌==◌ f false (shape u.entries).live_file g ≡ true
kept f g u other still = ground (arith, other, still)

same_index : (f g : ℕ) → (f == g) ≡ true → f ≡ g
same_index f g e = ground arith

pub clear_file :
    (r : FolderRef) (v : Vfs) (i : ℕ) (u : Vfs)
    → i < 10
    → Clearing r v u
    → After (λ x w. Clearing r v w) (λ c w. Pruned r v w) (delete_sub_file r i u)
unfolding delete_sub_file
clear_file r v i u lt (a, h) = elim (Option-cases ((folder_at u.entries r).sub_files i)) [
  | inl e ↦ rw (e, delete_sub_file) (succeeds (a, h))
  | inr (f, e) ↦
      let (live, _) = a.sound.tree.files_linked.down r i f h lt e in
      let (w, run, gone) =
        delete_vfs_file-FileRemoved f u a.sound.tree live (a.sound.disks f live) in
      rw (e, run, delete_sub_file)
        (succeeds {t = w} (
          record {
            sound = IsVfs-FileRemoved f u w a.sound live gone;
            steps = Steps-append a.steps (go gone.step stay);
            man_valid = λ m. gone.cleared.valid.man_valid;
            slots = λ ten. Slots-FileRemoved f u w (a.slots ten) gone;
            named = λ ends. Named-FileRemoved f u w (a.named ends) gone;
            shrinks = λ p k q h'. a.shrinks p k q (sym (ap (λ m. m p k) gone.subs) ∙ h');
            stays = λ x used. elim (a.stays x used) [
              | inl still ↦ inl (ap (λ m. m x) gone.homes ∙ still)
              | inr below ↦ inr below
            ];
            files_shrink = λ p k g h'. a.files_shrink p k g (gone.shrinks p k g h');
            files_stay = λ g used. elim (a.files_stay g used) [
              | inr below ↦ inr below
              | inl (still, same) ↦ elim (Bool-cases (f == g)) [
                | inl eq ↦
                    inr (r, i, here r, a.files_shrink r i g (e ∙ ap some (same_index f g eq)))
                | inr other ↦
                    inl (
                      ap (λ m. m g) gone.lives ∙ kept f g u other still,
                      gone.others g other ∙ same,
                    )
              ]
            ];
          },
          ap (λ m. m r) gone.homes ∙ h,
        ))
]

pub clear_folder :
    (n : ℕ) (r : FolderRef) (v : Vfs) (i : ℕ) (u : Vfs)
    → ((q : FolderRef) (t : Vfs)
        → IsVfs t
        → After (λ x w. Pruned q t w) (λ c w. Pruned q t w) (delete_children_recursive n q t))
    → i < 10
    → Clearing r v u
    → After
        (λ x w. Clearing r v w)
        (λ c w. Pruned r v w)
        (delete_sub_folder (delete_children_recursive n) r i u)
unfolding delete_sub_folder
clear_folder n r v i u rec lt (a, h) = elim (Option-cases ((folder_at u.entries r).sub_folders i)) [
  | inl e ↦ rw (e, delete_sub_folder) (succeeds (a, h))
  | inr (q, e) ↦
      rw (e, delete_sub_folder)
        (After-mono (rec q u a.sound)
          (λ x w b. (Pruned-then r q i v u w lt e a b, still_there q e w b))
          (λ c w b. Pruned-then r q i v u w lt e a b))
]
  where
    still_there :
        (q : FolderRef)
        → (shape u.entries).subs r i ≡ some q
        → (w : Vfs) → Pruned q u w
        → (shape w.entries).home r ≡ true
    still_there q e w b = elim (b.stays r h) [
      | inl used ↦ used
      | inr below ↦ absurd (IsTree-apart a.sound.tree r q i h lt e below)
    ]

-- The folder itself goes.
pub IsVfs-FolderRemoved :
    (r : FolderRef) (u : Vfs) (t : VfsEntryStore)
    → IsVfs u
    → FolderRemoved r u.entries t
    → IsVfs (record u { entries = t })
IsVfs-FolderRemoved r u t s gone = record {
  tree = Step-IsTree gone.step s.tree;
  disks = λ f e.
      subst (λ m. IsDisk (record { file = m f; man = u.man })) (sym gone.files)
        (s.disks f (live f e));
  apart = λ f g c a b other.
      subst
        (λ m.
          contains (file_chunks (m f).data_chunk_extents) c ≡ true
          → contains (file_chunks (m g).data_chunk_extents) c ≡ false)
        (sym gone.files) (s.apart f g c (live f a) (live g b) other);
}
  where
    live : (f : ℕ) → (shape t).live_file f ≡ true → (shape u.entries).live_file f ≡ true
    live f e = sym (ap (λ m. m f) gone.lives) ∙ e
