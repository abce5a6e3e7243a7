-- ===== src/Entries/Recursive.antt =====
-- `delete_children_recursive` and `delete_vfs_folder` of system/vfs_entry_store.c: every outcome.
use virtual_file_system_c.Prelude.{
  ℕ, zero, suc, ◌≡◌, sym, ap, ◌∙◌, inl, inr, Bool, true, false, some, arith, Bool-cases, length,
}
use mathlib.Core.Path.{subst}
use virtual_file_system_c.Status.{Outcome, ok, fail, fault, ◌>>=◌, ◌>>◌, lift}
use virtual_file_system_c.Status.After.{
  After, succeeds, fails, Result-cases, After-bind_outcome, After-mono,
}
use virtual_file_system_c.Settings.{max_name_length}
use virtual_file_system_c.Names.Text.{EndsWithin}
use virtual_file_system_c.Files.{FolderRef}
use virtual_file_system_c.Folders.{VfsEntryStore, folder_at, same_folder, has_sub_entries}
use virtual_file_system_c.Folders.Linking.{Same}
use virtual_file_system_c.Entries.{
  Vfs, on_entries, validate_vfs_folder, delete_flat_folder, for_each, delete_sub_file,
  delete_sub_folder, delete_children_recursive, delete_established_folder, delete_vfs_folder,
}
use virtual_file_system_c.Entries.Delete.{FolderRemoved, delete_flat_folder-Step}
use virtual_file_system_c.Entries.Sound.{IsVfs}
use virtual_file_system_c.Entries.Prune.{
  Pruned, Clearing, Pruned-nothing, for_each-After, clear_file, clear_folder, IsVfs-FolderRemoved,
}
use virtual_file_system_c.Tree.Linked.{set_at, same_folder_eq}
use virtual_file_system_c.Tree.Rooted.{Below, here}
use virtual_file_system_c.Tree.Valid.{shape}
use virtual_file_system_c.Tree.Steps.{stay, go, Steps-append}
use virtual_file_system_c.Tree.Places.{established}

-- The folder is not in use any more, and nothing outside of it has gone.
abbrev pub Deleted : FolderRef → Vfs → Vfs → Type 0
Deleted r v w = Pruned r v w × ((shape w.entries).home r ≡ false)

Pruned-removed :
    (r : FolderRef) (v u : Vfs) (t : VfsEntryStore)
    → Pruned r v u
    → FolderRemoved r u.entries t
    → Deleted r v (record u { entries = t })
Pruned-removed r v u t a gone = (
  record {
    sound = IsVfs-FolderRemoved r u t a.sound gone;
    steps = Steps-append a.steps (go gone.step stay);
    man_valid = a.man_valid;
    named = λ ends f live.
        subst (λ m. EndsWithin max_name_length (m f).name) (sym gone.files)
          (a.named ends f (sym (ap (λ m. m f) gone.lives) ∙ live));
    slots = λ ten f. ap (λ m. length (m f).data_chunk_extents) gone.files ∙ a.slots ten f;
    shrinks = λ p k q e. a.shrinks p k q (gone.shrinks p k q e);
    stays = λ x h. elim (a.stays x h) [
      | inr below ↦ inr below
      | inl still ↦ elim (Bool-cases (same_folder r x)) [
        | inl same ↦ inr (subst (Below (shape v.entries).subs r) (same_folder_eq r x same) (here r))
        | inr other ↦ inl (ap (λ m. m x) gone.homes ∙ kept x other still)
      ]
    ];
    files_shrink = λ p k f e. a.files_shrink p k f (sym (ap (λ m. m p k) gone.places) ∙ e);
    files_stay = λ f live. elim (a.files_stay f live) [
      | inr below ↦ inr below
      | inl (still, same) ↦ inl (ap (λ m. m f) gone.lives ∙ still, ap (λ m. m f) gone.files ∙ same)
    ];
  },
  gone.free,
)
  where
    kept :
        (x : FolderRef)
        → same_folder r x ≡ false
        → (shape u.entries).home x ≡ true
        → set_at same_folder r false (shape u.entries).home x ≡ true
    kept x other still = ground (arith, other, still)

-- Deleting the folder itself, in a state behind the loops or in the first.
flat_outcome :
    (r : FolderRef) (v u : Vfs) (o : Outcome VfsEntryStore (Unit {0}))
    → Pruned r v u
    → After (λ x t. FolderRemoved r u.entries t) (Same u.entries) o
    → After
        (λ x w. Deleted r v w)
        (λ c w. Pruned r v w)
        (elim o [
          | ok a s ↦ ok a (record u { entries = s })
          | fail c s ↦ fail c (record u { entries = s })
          | fault ↦ fault
        ])
flat_outcome r v u (ok x t) a (succeeds gone) =
    succeeds {t = record u { entries = t }} (Pruned-removed r v u t a gone)
flat_outcome r v u (fail c t) a (fails same) =
    fails {t = record u { entries = t }}
      (subst (λ s. Pruned r v (record u { entries = s })) (sym same) a)
flat_outcome r v u fault a h = elim h [ ]

delete_flat-Deleted :
    (r : FolderRef) (v u : Vfs)
    → Clearing r v u
    → After (λ x w. Deleted r v w) (λ c w. Pruned r v w) (on_entries (delete_flat_folder r) u)
unfolding on_entries
delete_flat-Deleted r v u (a, h) =
    flat_outcome r v u (delete_flat_folder r u.entries) a
      (delete_flat_folder-Step r u.entries a.sound.tree h)

-- The steps of the recursion behind the check of the folder.
delete_rest :
    (n : ℕ) (r : FolderRef) (v : Vfs)
    → ((q : FolderRef) (t : Vfs)
        → IsVfs t
        → After (λ x w. Pruned q t w) (λ c w. Pruned q t w) (delete_children_recursive n q t))
    → Clearing r v v
    → After
        (λ x w. Deleted r v w)
        (λ c w. Pruned r v w)
        ((for_each 10 0 (delete_sub_file r)
            >> (for_each 10 0 (delete_sub_folder (delete_children_recursive n) r)
                >> on_entries (delete_flat_folder r)))
          v)
delete_rest n r v rec start =
    After-bind_outcome
      (λ x.
        for_each 10 0 (delete_sub_folder (delete_children_recursive n) r)
        >> on_entries (delete_flat_folder r))
      (for_each-After {Inv = Clearing r v} 10 0 (delete_sub_file r) v
        (λ i u lt inv. clear_file r v i u (omega (arith, lt)) inv) start)
      (λ x u cleared.
        After-bind_outcome (λ y. on_entries (delete_flat_folder r))
          (for_each-After {Inv = Clearing r v} 10 0
            (delete_sub_folder (delete_children_recursive n) r) u
            (λ i t lt inv. clear_folder n r v i t rec (omega (arith, lt)) inv) cleared)
          (λ y t emptied. delete_flat-Deleted r v t emptied))

delete_children_recursive-Deleted :
    (n : ℕ) (r : FolderRef) (v : Vfs)
    → IsVfs v
    → After (λ x w. Deleted r v w) (λ c w. Pruned r v w) (delete_children_recursive n r v)
unfolding delete_children_recursive on_entries
delete_children_recursive-Deleted zero r v s = fails (Pruned-nothing r v s)
delete_children_recursive-Deleted (suc n) r v s =
    elim (Result-cases (validate_vfs_folder (some r) v.entries)) [
      | inr (c, e) ↦
          rw (e, delete_children_recursive, lift, ◌>>=◌, ◌>>◌, on_entries)
            (fails (Pruned-nothing r v s))
      | inl (x, e) ↦
          rw (e, delete_children_recursive, lift, ◌>>=◌, ◌>>◌, on_entries)
            (delete_rest n r v
              (λ q t sound.
                After-mono (delete_children_recursive-Deleted n q t sound) (λ y w (b, _). b)
                  (λ c w b. b))
              (Pruned-nothing r v s, established r v.entries e))
    ]

established_folder :
    (r : FolderRef) (force : Bool) (v : Vfs)
    → IsVfs v
    → (shape v.entries).home r ≡ true
    → After (λ x w. Deleted r v w) (λ c w. Pruned r v w) (delete_established_folder r force v)
unfolding delete_established_folder on_entries
established_folder r force v s h = elim (Bool-cases (has_sub_entries (folder_at v.entries r))) [
  | inr flat ↦
      rw (flat, delete_established_folder) (delete_flat-Deleted r v v (Pruned-nothing r v s, h))
  | inl full ↦ elim (Bool-cases force) [
    | inl all ↦
        rw (full, all, delete_established_folder) (delete_children_recursive-Deleted 11 r v s)
    | inr kept ↦ rw (full, kept, delete_established_folder) (fails (Pruned-nothing r v s))
  ]
]

pub delete_vfs_folder-Deleted :
    (r : FolderRef) (force : Bool) (v : Vfs)
    → IsVfs v
    → After (λ x w. Deleted r v w) (λ c w. Pruned r v w) (delete_vfs_folder r force v)
unfolding delete_vfs_folder delete_established_folder on_entries
delete_vfs_folder-Deleted r force v s =
    elim (Result-cases (validate_vfs_folder (some r) v.entries)) [
      | inr (c, e) ↦
          rw (e, delete_vfs_folder, lift, ◌>>=◌, ◌>>◌, on_entries) (fails (Pruned-nothing r v s))
      | inl (x, e) ↦
          rw (e, delete_vfs_folder, lift, ◌>>=◌, ◌>>◌, on_entries)
            (established_folder r force v s (established r v.entries e))
    ]
