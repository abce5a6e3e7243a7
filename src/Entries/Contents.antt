-- ===== src/Entries/Contents.antt =====
-- The invariant of the entry store under calls on the data of a file: file_append and
-- file_delete_data of system/file_logic.c.
use virtual_file_system_c.Prelude.{
  ℕ, ◌≡◌, refl, sym, ◌∙◌, inl, inr, true, arith, ◌*◌, ltb, ◌==◌, Bool-cases,
}
use mathlib.Core.Path.{subst}
use virtual_file_system_c.Settings.{chunk_size}
use virtual_file_system_c.Status.{Outcome, ok, fail, fault}
use virtual_file_system_c.Status.After.{After, succeeds, fails}
use virtual_file_system_c.FileStorage.{Disk}
use virtual_file_system_c.FileStorage.Owned.{contains}
use virtual_file_system_c.FileStorage.Valid.{IsDisk}
use virtual_file_system_c.FileLogic.Append.{file_append}
use virtual_file_system_c.FileLogic.Append.Correct.{
  Appended, AppendOutcome, appended, no_run_of_chunks, no_extent, file_append-AppendOutcome,
}
use virtual_file_system_c.FileLogic.Delete.{file_delete_data}
use virtual_file_system_c.FileLogic.Delete.Clear.{Cleared, file_delete_data-Cleared}
use virtual_file_system_c.Entries.{Vfs, on_file, put_disk}
use virtual_file_system_c.Entries.Remove.{disk_of}
use virtual_file_system_c.Entries.Whole.{IsStore}
use virtual_file_system_c.Entries.OneFile.{DiskMoved, IsStore-DiskMoved, put_disk-shape}
use virtual_file_system_c.Tree.Settled.{IsSettled}
use virtual_file_system_c.Tree.Steps.{}
use virtual_file_system_c.Tree.Valid.{shape}
use virtual_file_system_c.Entries.Calls.{Kept, Keeps}

DiskMoved-Appended : (bytes : ℕ → ℕ) (len : ℕ) (s t : Disk) → Appended bytes len s t → DiskMoved s t
DiskMoved-Appended bytes len s t a = record {
  valid = a.valid;
  parent = a.parent;
  name = a.name;
  fresh = a.fresh;
  others = λ c taken other. let (still, _) = a.others c 0 taken (omega arith) in still;
}

DiskMoved-Cleared : (s t : Disk) → Cleared s t → DiskMoved s t
unfolding contains
DiskMoved-Cleared s t c = record {
  valid = c.valid;
  parent = c.parent;
  name = c.name;
  fresh = λ k h. absurd (ground (arith, c.no_chunks, h));
  others = λ k taken other. c.map k ∙ ground (arith, taken, other);
}

Kept-DiskMoved :
    (f : ℕ) (v : Vfs) (d : Disk)
    → IsStore v
    → (shape v.entries).live_file f ≡ true
    → DiskMoved (disk_of f v) d
    → Kept v (put_disk f d v)
Kept-DiskMoved f v d s live m = record {
  store = IsStore-DiskMoved f v d s live m;
  settled = λ r h. subst (λ x. IsSettled x r) (sym (put_disk-shape f v d s live m)) h;
}

-- A call on the data of a file in use, which leaves it as it was if it fails.
data-Keeps :
    (f : ℕ) (v : Vfs) (o : Outcome Disk (Unit {0}))
    → IsStore v
    → (shape v.entries).live_file f ≡ true
    → After (λ u d. DiskMoved (disk_of f v) d) (λ c d. DiskMoved (disk_of f v) d) o
    → Keeps v (elim o [
      | ok a d ↦ ok a (put_disk f d v)
      | fail c d ↦ fail c (put_disk f d v)
      | fault ↦ fault
    ])
data-Keeps f v (ok u d) s live (succeeds m) =
    succeeds {t = put_disk f d v} (Kept-DiskMoved f v d s live m)
data-Keeps f v (fail c d) s live (fails m) =
    fails {t = put_disk f d v} (Kept-DiskMoved f v d s live m)
data-Keeps f v fault s live h = elim h [ ]

DiskMoved-refl : (s : Disk) → IsDisk s → DiskMoved s s
DiskMoved-refl s d = record {
  valid = d;
  parent = refl;
  name = refl;
  fresh = λ c h. inl h;
  others = λ c taken other. taken;
}

file_append-DiskMoved :
    (bytes : ℕ → ℕ) (len : ℕ) (s : Disk)
    → IsDisk s
    → After (λ u d. DiskMoved s d) (λ c d. DiskMoved s d) (file_append bytes len s)
unfolding file_append
file_append-DiskMoved bytes len s d =
    elim (Bool-cases (ltb (s.man.free_chunk_count * chunk_size) len)) [
      | inl full ↦ rw (full, file_append) (fails (DiskMoved-refl s d))
      | inr room ↦ elim (Bool-cases (len == 0)) [
        | inl nothing ↦ rw (room, nothing, file_append) (fails (DiskMoved-refl s d))
        | inr some_bytes ↦ outcome (
            file_append-AppendOutcome bytes len d (ground (arith, some_bytes))
              (ground (arith, room)))
      ]
    ]
  where
    outcome :
        AppendOutcome bytes len s
        → After (λ u t. DiskMoved s t) (λ c t. DiskMoved s t) (file_append bytes len s)
    outcome (appended t e a) = rw e (succeeds (DiskMoved-Appended bytes len s t a))
    outcome (no_run_of_chunks e h) = rw e (fails (DiskMoved-refl s d))
    outcome (no_extent e h) = rw e (fails (DiskMoved-refl s d))

pub file_append-Keeps :
    (bytes : ℕ → ℕ) (len f : ℕ) (v : Vfs)
    → IsStore v
    → (shape v.entries).live_file f ≡ true
    → Keeps v (on_file f (file_append bytes len) v)
unfolding on_file
file_append-Keeps bytes len f v s live =
    data-Keeps f v (file_append bytes len (disk_of f v)) s live
      (file_append-DiskMoved bytes len (disk_of f v) (s.sound.disks f live))

pub file_delete_data-Keeps :
    (f : ℕ) (v : Vfs)
    → IsStore v
    → (shape v.entries).live_file f ≡ true
    → Keeps v (on_file f file_delete_data v)
unfolding on_file
file_delete_data-Keeps f v s live =
    let (d, run, cleared) = file_delete_data-Cleared (s.sound.disks f live) in
    data-Keeps f v (file_delete_data (disk_of f v)) s live
      (rw run (succeeds (DiskMoved-Cleared (disk_of f v) d cleared)))
