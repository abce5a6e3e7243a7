-- ===== src/Entries/Sound.antt =====
-- The files of an entry store and the chunks of the storage manager together.
use mathlib.Core.Path.{subst}
use virtual_file_system_c.Prelude.{
  ℕ, ◌+◌, ◌≤◌, ◌<◌, ◌≡◌, sym, ap, ◌∙◌, inl, inr, Bool, true, false, List, [], ◌∷◌, arith, ◌==◌,
  update, length, Bool-cases,
}
use virtual_file_system_c.Settings.{chunks_amount}
use virtual_file_system_c.Storage.Counting.{count_free, count_free-le, count_free-release}
use virtual_file_system_c.FileStorage.Owned.{file_chunks, contains, Distinct}
use virtual_file_system_c.FileStorage.Valid.{IsDisk}
use virtual_file_system_c.Entries.{Vfs}
use virtual_file_system_c.Entries.Remove.{disk_of, FileRemoved}
use virtual_file_system_c.Tree.Linked.{set_at}
use virtual_file_system_c.Tree.Valid.{shape, IsTree}
use virtual_file_system_c.Tree.Steps.{Step-IsTree}

-- Chunks that are taken, each once, and those that are free fit side by side.
pub taken-count_free :
    (xs : List ℕ) (map : ℕ → Bool) (n : ℕ)
    → Distinct xs
    → ((c : ℕ) → contains xs c ≡ true → map c ≡ true)
    → ((c : ℕ) → contains xs c ≡ true → c < n)
    → length xs + count_free map n ≤ n
unfolding contains
taken-count_free [] map n d t r = omega (arith, count_free-le map n)
taken-count_free (x ∷ xs) map n (new, d) t r =
    let freed = count_free-release map x n (r x (ground arith)) (t x (ground arith)) in
    let rest = taken-count_free xs (update map x false) n d kept (λ c h. r c (ground (arith, h))) in
    omega (arith, freed, rest)
  where
    kept : (c : ℕ) → contains xs c ≡ true → update map x false c ≡ true
    kept c h = elim (Bool-cases (x == c)) [
      | inl same ↦
          absurd (ground (arith, new, subst (λ y. contains xs y ≡ true) (sym (eq x c same)) h))
      | inr other ↦ ground (arith, other, t c (ground (arith, h)))
    ]
      where
        eq : (a b : ℕ) → (a == b) ≡ true → a ≡ b
        eq a b e = ground arith

-- The entries are a tree, every file in use is valid for the storage manager, and no two of them
-- share a chunk.
pub record IsVfs (v : Vfs) : Type 0 where
  pub tree : IsTree (shape v.entries)
  pub disks : (f : ℕ) → (shape v.entries).live_file f ≡ true → IsDisk (disk_of f v)
  pub apart :
      (f g c : ℕ)
      → (shape v.entries).live_file f ≡ true
      → (shape v.entries).live_file g ≡ true
      → (f == g) ≡ false
      → contains (file_chunks (v.entries.files f).data_chunk_extents) c ≡ true
      → contains (file_chunks (v.entries.files g).data_chunk_extents) c ≡ false

still_live :
    (f g : ℕ) (v w : Vfs)
    → FileRemoved f v w
    → (shape w.entries).live_file g ≡ true
    → ((shape v.entries).live_file g ≡ true) × ((f == g) ≡ false)
still_live f g v w r e = other (sym (ap (λ m. m g) r.lives) ∙ e)
  where
    other :
        set_at ◌==◌ f false (shape v.entries).live_file g ≡ true
        → ((shape v.entries).live_file g ≡ true) × ((f == g) ≡ false)
    other h = ground (arith, h)

-- A file that stays is valid for the storage manager that got the other's chunks.
kept-IsDisk :
    (f g : ℕ) (v w : Vfs)
    → IsVfs v
    → FileRemoved f v w
    → (shape v.entries).live_file f ≡ true
    → (shape v.entries).live_file g ≡ true
    → (f == g) ≡ false
    → IsDisk (record { file = v.entries.files g; man = w.man })
kept-IsDisk f g v w s r live_f live_g other =
    let d = s.disks g live_g in
    record {
      man_valid = r.cleared.valid.man_valid;
      slots = d.slots;
      compact = d.compact;
      sized = d.sized;
      distinct = d.distinct;
      taken = taken d;
      in_range = d.in_range;
      small =
          let fits =
            taken-count_free (file_chunks (v.entries.files g).data_chunk_extents)
              w.man.allocation_map chunks_amount d.distinct (taken d) d.in_range in
          omega (arith, fits, d.sized, r.cleared.valid.man_valid.counted);
    }
  where
    taken :
        IsDisk (disk_of g v)
        → (c : ℕ) → contains (file_chunks (v.entries.files g).data_chunk_extents) c ≡ true
        → w.man.allocation_map c ≡ true
    taken d c h =
        let mine = d.taken c h in
        let his = s.apart g f c live_g live_f (ground (arith, other)) h in
        r.cleared.map c ∙ ground (arith, mine, his)

pub IsVfs-FileRemoved :
    (f : ℕ) (v w : Vfs)
    → IsVfs v
    → (shape v.entries).live_file f ≡ true
    → FileRemoved f v w
    → IsVfs w
IsVfs-FileRemoved f v w s live_f r = record {
  tree = Step-IsTree r.step s.tree;
  disks = λ g e.
      let (live_g, other) = still_live f g v w r e in
      subst (λ h. IsDisk (record { file = h; man = w.man })) (sym (r.others g other))
        (kept-IsDisk f g v w s r live_f live_g other);
  apart = λ g h c a b other.
      let (live_g, fg) = still_live f g v w r a in
      let (live_h, fh) = still_live f h v w r b in
      subst
        (λ x.
          contains (file_chunks x.data_chunk_extents) c ≡ true
          → contains (file_chunks (w.entries.files h).data_chunk_extents) c ≡ false)
        (sym (r.others g fg))
        (subst
          (λ y.
            contains (file_chunks (v.entries.files g).data_chunk_extents) c ≡ true
            → contains (file_chunks y.data_chunk_extents) c ≡ false)
          (sym (r.others h fh)) (s.apart g h c live_g live_h other));
}
