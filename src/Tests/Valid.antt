-- ===== src/Tests/Valid.antt =====
-- The shared inputs are valid.
use virtual_file_system_c.Prelude.{ℕ, ◌<◌, ◌≡◌, refl, inl, inr, [], ◌∷◌, true, false, arith, ltb}
use virtual_file_system_c.Storage.Counting.{count_free}
use virtual_file_system_c.Storage.Valid.{IsValid}
use virtual_file_system_c.FileStorage.Owned.{file_chunks, range, contains}
use virtual_file_system_c.FileStorage.Valid.{AllEmpty, IsDisk}
use virtual_file_system_c.Tests.Data.{blank_extent, fresh_man, fresh_disk, used_man, used_disk}

count_free-fresh : count_free (λ _. false) 500 ≡ 500
unfolding count_free
count_free-fresh = refl

count_free-used : count_free (λ j. ltb j 3) 500 ≡ 497
unfolding count_free
count_free-used = refl

pub fresh_man-IsValid : IsValid fresh_man
fresh_man-IsValid = record { counted = omega (arith, count_free-fresh); room = omega arith }

pub used_man-IsValid : IsValid used_man
used_man-IsValid = record { counted = omega (arith, count_free-used); room = omega arith }

used-low : (c : ℕ) → contains (file_chunks (used_disk.file.data_chunk_extents)) c ≡ true → c < 3
unfolding file_chunks range contains
used-low c h = ground arith

blanks-AllEmpty : AllEmpty (
    blank_extent ∷ blank_extent ∷ blank_extent ∷ blank_extent ∷ blank_extent ∷ blank_extent
    ∷ blank_extent ∷ [])
blanks-AllEmpty = (refl, (refl, (refl, (refl, (refl, (refl, (refl, tt)))))))

pub used_disk-IsDisk : IsDisk used_disk
unfolding file_chunks range contains
used_disk-IsDisk = record {
  man_valid = used_man-IsValid;
  slots = refl;
  compact = inr (refl, omega arith, inr (refl, omega arith, inl (refl, blanks-AllEmpty)));
  sized = refl;
  distinct = (refl, (refl, (refl, tt)));
  taken = λ c h. ground (arith, used-low c h);
  in_range = λ c h. omega (arith, used-low c h);
  small = omega arith;
}

pub fresh_disk-IsDisk : IsDisk fresh_disk
unfolding file_chunks range contains
fresh_disk-IsDisk = record {
  man_valid = fresh_man-IsValid;
  slots = refl;
  compact = inl (refl, (refl, (refl, blanks-AllEmpty)));
  sized = refl;
  distinct = tt;
  taken = λ c h. ground arith;
  in_range = λ c h. ground arith;
  small = omega arith;
}
