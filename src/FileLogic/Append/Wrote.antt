-- ===== src/FileLogic/Append/Wrote.antt =====
-- What the writes of `file_append` of system/file_logic.c do to the storage.
use virtual_file_system_c.Prelude.{
  ℕ, ◌+◌, ◌-◌, ◌*◌, ◌<◌, ◌≡◌, refl, ap, ◌∙◌, inl, inr, false, arith, inside, lt-cases,
}
use virtual_file_system_c.Settings.{chunk_size}
use virtual_file_system_c.Storage.Chunks.{byte_at}
use virtual_file_system_c.FileStorage.{Disk}
use virtual_file_system_c.FileStorage.Valid.{IsDisk}
use virtual_file_system_c.FileLogic.Append.{}

-- `t` is `s` with the chunks from `cur` on, `k` of them, overwritten by `bytes`.
pub record Wrote (bytes : ℕ → ℕ) (s : Disk) (cur k : ℕ) (t : Disk) : Type 0 where
  pub file : t.file ≡ s.file
  pub map : t.man.allocation_map ≡ s.man.allocation_map
  pub count : t.man.free_chunk_count ≡ s.man.free_chunk_count
  pub size : t.man.storage_size ≡ s.man.storage_size
  pub new :
      (j b : ℕ) → j < k → b < chunk_size → byte_at t.man (cur + j) b ≡ bytes (j * chunk_size + b)
  pub old :
      (d b : ℕ) → inside cur k d ≡ false → b < chunk_size → byte_at t.man d b ≡ byte_at s.man d b

pub Wrote-IsDisk :
    {bytes : ℕ → ℕ} {s t : Disk} {cur k : ℕ} → Wrote bytes s cur k t → IsDisk s → IsDisk t
Wrote-IsDisk w v = record {
  man_valid = record {
    counted = rw (w.map, w.count) v.man_valid.counted;
    room = rw w.size v.man_valid.room;
  };
  slots = rw w.file v.slots;
  compact = rw w.file v.compact;
  sized = rw w.file v.sized;
  distinct = rw w.file v.distinct;
  taken = rw (w.file, w.map) v.taken;
  in_range = rw w.file v.in_range;
  small = rw (w.file, w.count) v.small;
}

pub Wrote-nil : (bytes : ℕ → ℕ) (s : Disk) (cur : ℕ) → Wrote bytes s cur 0 s
Wrote-nil bytes s cur = record {
  file = refl;
  map = refl;
  count = refl;
  size = refl;
  new = λ j b h. absurd (omega arith);
  old = λ d b h lt. refl;
}

pub Wrote-append :
    (bytes : ℕ → ℕ) {s m t : Disk} (cur k l : ℕ)
    → Wrote bytes s cur k m
    → Wrote (λ j. bytes (k * chunk_size + j)) m (cur + k) l t
    → Wrote bytes s cur (k + l) t
Wrote-append bytes {s} {m} {t} cur k l w x = record {
  file = x.file ∙ w.file;
  map = x.map ∙ w.map;
  count = x.count ∙ w.count;
  size = x.size ∙ w.size;
  new = λ j b h lt. elim (lt-cases j k) [
    | inl here ↦ x.old (cur + j) b (ground arith) lt ∙ w.new j b here lt
    | inr past ↦
        ap (λ c. byte_at t.man c b) (omega arith)
        ∙ x.new (j - k) b (omega arith) lt
        ∙ ap bytes (omega arith)
  ];
  old = λ d b h lt. x.old d b (ground arith) lt ∙ w.old d b (ground arith) lt;
}

pub Wrote-ext :
    {bytes bytes' : ℕ → ℕ} {s t : Disk} {cur k : ℕ}
    → ((j : ℕ) → j < k * chunk_size → bytes j ≡ bytes' j)
    → Wrote bytes s cur k t
    → Wrote bytes' s cur k t
Wrote-ext e w = record {
  file = w.file;
  map = w.map;
  count = w.count;
  size = w.size;
  new = λ j b h lt. w.new j b h lt ∙ e (j * chunk_size + b) (omega arith);
  old = w.old;
}

pub Wrote-cast :
    {bytes : ℕ → ℕ} {s t : Disk} {cur k k' : ℕ}
    → k ≡ k'
    → Wrote bytes s cur k t
    → Wrote bytes s cur k' t
Wrote-cast e w = rw (← e) w
