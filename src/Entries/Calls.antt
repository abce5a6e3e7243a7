-- ===== src/Entries/Calls.antt =====
-- The invariant of the entry store and the storage manager under the calls of
-- system/vfs_entry_store.c and system/entry_relocation.c.
use virtual_file_system_c.Prelude.{ℕ, ◌≡◌, sym, ap, ◌∙◌, inl, inr, Bool, true}
use mathlib.Core.Path.{subst}
use virtual_file_system_c.Status.{Outcome, ok, fail, fault, Act}
use virtual_file_system_c.Status.After.{After, succeeds, fails, After-mono}
use virtual_file_system_c.Status.Keeps.{Leaves, Leaves-mono, After-Leaves}
use virtual_file_system_c.Files.{FolderRef}
use virtual_file_system_c.FileLogic.Append.Correct.{}
use virtual_file_system_c.Folders.{VfsEntryStore}
use virtual_file_system_c.Folders.Linking.{Same}
use virtual_file_system_c.Entries.{
  Vfs, on_entries, vfs_sub_file_init, vfs_sub_folder_init, delete_vfs_file, delete_vfs_folder,
}
use virtual_file_system_c.Entries.Create.{vfs_sub_file_init-Steps, vfs_sub_folder_init-Step}
use virtual_file_system_c.Entries.Frame.{
  SameData, move_file-SameData, move_folder-SameData, rename_file-SameData, rename_folder-SameData,
  vfs_sub_folder_init-SameData,
}
use virtual_file_system_c.Entries.Made.{Blanked, vfs_sub_file_init-Blanked}
use virtual_file_system_c.Entries.Prune.{Named-FileRemoved, Pruned, Slots-FileRemoved}
use virtual_file_system_c.Entries.Recursive.{delete_vfs_folder-Deleted}
use virtual_file_system_c.Entries.Remove.{delete_vfs_file-FileRemoved}
use virtual_file_system_c.Entries.Sound.{IsVfs-FileRemoved}
use virtual_file_system_c.Entries.Whole.{IsStore, IsStore-SameData, IsStore-Blanked}
use virtual_file_system_c.Reach.{rename_file-shape, rename_folder-shape}
use virtual_file_system_c.Relocation.{move_file, move_folder, rename_file, rename_folder}
use virtual_file_system_c.Relocation.Moves.{move_file-Step, move_folder-Step}
use virtual_file_system_c.Tree.Seen.{shape-put_file}
use virtual_file_system_c.Tree.Settled.{IsSettled, Step-IsSettled, Steps-IsSettled}
use virtual_file_system_c.Tree.Steps.{scratch_file, Steps, stay, go, Steps-IsTree}
use virtual_file_system_c.Tree.Valid.{shape}

-- The store is sound, and a pointer to a folder that was in use or had no entries is such a one still.
pub record Kept (v w : Vfs) : Type 0 where
  pub store : IsStore w
  pub settled : (r : FolderRef) → IsSettled (shape v.entries) r → IsSettled (shape w.entries) r

-- A call that does not fault and keeps the store, whether it succeeds or fails.
abbrev pub Keeps : {A : Type 0} → Vfs → Outcome Vfs A → Type 0
Keeps v o = After (λ a w. Kept v w) (λ c w. Kept v w) o

Kept-refl : (v : Vfs) → IsStore v → Kept v v
Kept-refl v s = record { store = s; settled = λ r h. h }

Kept-same :
    (v : Vfs) (t : VfsEntryStore) → IsStore v → t ≡ v.entries → Kept v (record v { entries = t })
Kept-same v t s same = subst (λ x. Kept v (record v { entries = x })) (sym same) (Kept-refl v s)

Kept-SameData :
    (v : Vfs) (t : VfsEntryStore)
    → IsStore v
    → Steps (shape v.entries) (shape t)
    → SameData v.entries t
    → Kept v (record v { entries = t })
Kept-SameData v t s steps d = record {
  store = IsStore-SameData v t s (Steps-IsTree steps s.sound.tree) d;
  settled = λ r h. Steps-IsSettled steps s.sound.tree r h;
}

on_entries-Keeps :
    {A : Type 0} (v : Vfs) (o : Outcome VfsEntryStore A)
    → After (λ a t. Kept v (record v { entries = t })) (λ c t. Kept v (record v { entries = t })) o
    → Keeps v (elim o [
      | ok a s ↦ ok a (record v { entries = s })
      | fail c s ↦ fail c (record v { entries = s })
      | fault ↦ fault
    ])
on_entries-Keeps v (ok a t) (succeeds h) = succeeds {t = record v { entries = t }} h
on_entries-Keeps v (fail c t) (fails h) = fails {t = record v { entries = t }} h
on_entries-Keeps v fault h = elim h [ ]

-- A call that moves entries of the tree, or does nothing.
moving-Keeps :
    {A : Type 0} {good : A → VfsEntryStore → Type 0} (v : Vfs) (act : Act VfsEntryStore A)
    → IsStore v
    → After good (Same v.entries) (act v.entries)
    → ((a : A) (t : VfsEntryStore) → good a t → Steps (shape v.entries) (shape t))
    → Leaves (SameData v.entries) (act v.entries)
    → Keeps v (on_entries act v)
unfolding on_entries
moving-Keeps v act s h steps d = on_entries-Keeps v (act v.entries) (
    After-mono (After-Leaves (SameData v.entries) h d)
      (λ a t (g, e). Kept-SameData v t s (steps a t g) e) (λ c t (same, e). Kept-same v t s same))

pub move_file-Keeps :
    (f : ℕ) (p : FolderRef) (v : Vfs)
    → IsStore v
    → (shape v.entries).live_file f ≡ true
    → (shape v.entries).home p ≡ true
    → Keeps v (on_entries (move_file f p) v)
move_file-Keeps f p v s live h =
    moving-Keeps v (move_file f p) s (move_file-Step f p v.entries s.sound.tree live h)
      (λ u t (e, step). go step stay) (move_file-SameData f p v.entries)

pub move_folder-Keeps :
    (r p : FolderRef) (v : Vfs)
    → IsStore v
    → (shape v.entries).home r ≡ true
    → (shape v.entries).home p ≡ true
    → Keeps v (on_entries (move_folder r p) v)
move_folder-Keeps r p v s live h =
    moving-Keeps v (move_folder r p) s (move_folder-Step r p v.entries s.sound.tree live h)
      (λ u t (e, step). go step stay) (move_folder-SameData r p v.entries)

pub vfs_sub_folder_init-Keeps :
    (name : ℕ → ℕ) (length : ℕ) (p : FolderRef) (v : Vfs)
    → IsStore v
    → Keeps v (on_entries (vfs_sub_folder_init name length p) v)
vfs_sub_folder_init-Keeps name length p v s =
    moving-Keeps v (vfs_sub_folder_init name length p) s
      (vfs_sub_folder_init-Step name length p v.entries) (λ r t (_, _, _, step). go step stay)
      (vfs_sub_folder_init-SameData name length p v.entries)

-- A call that changes names.
naming-Keeps :
    (v : Vfs) (act : Act VfsEntryStore (Unit {0}))
    → IsStore v
    → After (λ u t. shape t ≡ shape v.entries) (λ c t. shape t ≡ shape v.entries) (act v.entries)
    → Leaves (SameData v.entries) (act v.entries)
    → Keeps v (on_entries act v)
unfolding on_entries
naming-Keeps v act s h d = on_entries-Keeps v (act v.entries) (
    After-mono (After-Leaves (SameData v.entries) h d)
      (λ u t (e, k). Kept-SameData v t s (subst (Steps (shape v.entries)) (sym e) stay) k)
      (λ c t (e, k). Kept-SameData v t s (subst (Steps (shape v.entries)) (sym e) stay) k))

on_entries-Leaves :
    {A : Type 0} (P : Vfs → Type 0) (v : Vfs) (o : Outcome VfsEntryStore A)
    → Leaves (λ t. P (record v { entries = t })) o
    → Leaves P (elim o [
      | ok a s ↦ ok a (record v { entries = s })
      | fail c s ↦ fail c (record v { entries = s })
      | fault ↦ fault
    ])
on_entries-Leaves P v (ok a t) h = h
on_entries-Leaves P v (fail c t) h = h
on_entries-Leaves P v fault h = tt

Leaves-both :
    {S A : Type 0} (P Q : S → Type 0) (o : Outcome S A)
    → Leaves P o
    → Leaves Q o
    → Leaves (λ t. P t × Q t) o
Leaves-both P Q (ok a t) h k = (h, k)
Leaves-both P Q (fail c t) h k = (h, k)
Leaves-both P Q fault h k = tt

-- A new name that does not fit into the array of the file is written behind it.
pub rename_file-Kept :
    (f : ℕ) (name : ℕ → ℕ) (length : ℕ) (v : Vfs)
    → IsStore v
    → Leaves (Kept v) (on_entries (rename_file f name length) v)
unfolding on_entries
rename_file-Kept f name length v s =
    let o = rename_file f name length v.entries in
    on_entries-Leaves (Kept v) v o (
      Leaves-mono o
        (λ t (e, k). Kept-SameData v t s (subst (Steps (shape v.entries)) (sym e) stay) k)
        (Leaves-both (λ t. shape t ≡ shape v.entries) (SameData v.entries) o
          (rename_file-shape f name length v.entries)
          (rename_file-SameData f name length v.entries)))

pub rename_folder-Keeps :
    (r : FolderRef) (name : ℕ → ℕ) (length : ℕ) (v : Vfs)
    → IsStore v
    → Keeps v (on_entries (rename_folder r name length) v)
rename_folder-Keeps r name length v s =
    naming-Keeps v (rename_folder r name length) s (rename_folder-shape r name length v.entries)
      (rename_folder-SameData r name length v.entries)

pub vfs_sub_file_init-Keeps :
    (name : ℕ → ℕ) (length : ℕ) (p : FolderRef) (v : Vfs)
    → IsStore v
    → Keeps v (on_entries (vfs_sub_file_init name length p) v)
unfolding on_entries
vfs_sub_file_init-Keeps name length p v s =
    on_entries-Keeps v (vfs_sub_file_init name length p v.entries) (
      After-mono
        (After-Leaves _ (vfs_sub_file_init-Steps name length p v.entries)
          (vfs_sub_file_init-Blanked name length p v.entries s.slots))
        (λ i t ((_, _, _, steps), b). made t steps b)
        (λ c t (h, b). elim h [
          | inl same ↦ Kept-same v t s same
          | inr (i, f, free, same) ↦
              made t
                (subst (Steps (shape v.entries))
                  (sym (ap shape same ∙ shape-put_file i f v.entries))
                  (go (scratch_file i f.parent_folder free) stay))
                b
        ]))
  where
    made :
        (t : VfsEntryStore)
        → Steps (shape v.entries) (shape t)
        → Blanked v.entries t
        → Kept v (record v { entries = t })
    made t steps b = record {
      store = IsStore-Blanked v t s b (Steps-IsTree steps s.sound.tree);
      settled = λ r h. Steps-IsSettled steps s.sound.tree r h;
    }

pub delete_vfs_file-Keeps :
    (f : ℕ) (v : Vfs)
    → IsStore v
    → (shape v.entries).live_file f ≡ true
    → Keeps v (delete_vfs_file f v)
delete_vfs_file-Keeps f v s live =
    let (w, run, gone) = delete_vfs_file-FileRemoved f v s.sound.tree live (s.sound.disks f live) in
    rw run (
      succeeds {t = w} (record {
        store = record {
          sound = IsVfs-FileRemoved f v w s.sound live gone;
          man_valid = gone.cleared.valid.man_valid;
          slots = Slots-FileRemoved f v w s.slots gone;
          named = Named-FileRemoved f v w s.named gone;
        };
        settled = λ r h. Step-IsSettled gone.step s.sound.tree r h;
      }))

Kept-Pruned : (r : FolderRef) (v w : Vfs) → IsStore v → Pruned r v w → Kept v w
Kept-Pruned r v w s p = record {
  store = record {
    sound = p.sound;
    man_valid = p.man_valid s.man_valid;
    slots = p.slots s.slots;
    named = p.named s.named;
  };
  settled = λ q h. Steps-IsSettled p.steps s.sound.tree q h;
}

pub delete_vfs_folder-Keeps :
    (r : FolderRef) (force : Bool) (v : Vfs) → IsStore v → Keeps v (delete_vfs_folder r force v)
delete_vfs_folder-Keeps r force v s =
    After-mono (delete_vfs_folder-Deleted r force v s.sound) (λ u w (p, _). Kept-Pruned r v w s p)
      (λ c w p. Kept-Pruned r v w s p)
