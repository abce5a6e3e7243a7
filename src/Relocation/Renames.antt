-- ===== src/Relocation/Renames.antt =====
-- `rename_file` of system/entry_relocation.c and the array of the name.
use virtual_file_system_c.Prelude.{
  ℕ, zero, suc, ◌+◌, ◌≤◌, ◌<◌, ◌≡◌, ◌≢◌, ap, ◌∙◌, true, none, some, arith, ltb, inl, inr,
  Bool-cases, Option-cases, update,
}
use mathlib.Core.Path.{subst}
use virtual_file_system_c.Settings.{max_name_length}
use virtual_file_system_c.Status.{
  StatusCode, Outcome, ok, fail, fault, done, error, invalid_argument,
}
use virtual_file_system_c.Status.After.{Result-cases}
use virtual_file_system_c.Files.{FolderRef}
use virtual_file_system_c.Names.{
  set_entry_name, set_entry_name_loop, name_end, name_fits, name_chars_are_valid,
}
use virtual_file_system_c.Names.Chars.{name_chars_are_valid-IsNameChar}
use virtual_file_system_c.Folders.{VfsEntryStore, put_file}
use virtual_file_system_c.Folders.Validate.{validate_sub_entry_name}
use virtual_file_system_c.Relocation.{rename_file}

zero_plus : (n : ℕ) → 0 + n ≡ n
zero_plus n = omega arith

-- An array holds the name, with a null behind it.
abbrev pub Stored : (array name : ℕ → ℕ) (length : ℕ) → Type 0
Stored array name length = ((j : ℕ) → j < length → array j ≡ name j) × (array length ≡ 0)

set_entry_name_loop-prefix :
    (k i : ℕ) (name out : ℕ → ℕ) (j : ℕ)
    → ((m : ℕ) → i ≤ m → m < i + k → name m ≢ 0)
    → ((m : ℕ) → m < i → out m ≡ name m)
    → j < i + k
    → set_entry_name_loop k i name out j ≡ name j
unfolding set_entry_name_loop
set_entry_name_loop-prefix zero i name out j chars before lt = ground (arith, before j)
set_entry_name_loop-prefix (suc k) i name out j chars before lt = ground (
  arith,
  chars i (omega arith) (omega arith),
  set_entry_name_loop-prefix k (i + 1) name (update out i (name i)) j
      (λ m lo hi. chars m (omega (arith, lo)) (omega (arith, hi)))
      (λ m h. ground (arith, before m, h)) (omega (arith, lt)),
)

set_entry_name_loop-null :
    (k i : ℕ) (name out : ℕ → ℕ)
    → ((m : ℕ) → i ≤ m → m < i + k → name m ≢ 0)
    → set_entry_name_loop k i name out (i + k) ≡ 0
unfolding set_entry_name_loop
set_entry_name_loop-null zero i name out chars = ground arith
set_entry_name_loop-null (suc k) i name out chars = ground (
  arith,
  chars i (omega arith) (omega arith),
  set_entry_name_loop-null k (i + 1) name (update out i (name i))
      (λ m lo hi. chars m (omega (arith, lo)) (omega (arith, hi))),
)

name_end_lem :
    (k i : ℕ) (name : ℕ → ℕ)
    → ((m : ℕ) → i ≤ m → m < i + k → name m ≢ 0)
    → name_end k i name ≡ i + k
unfolding name_end
name_end_lem zero i name chars = omega arith
name_end_lem (suc k) i name chars = ground (
  arith,
  chars i (omega arith) (omega arith),
  name_end_lem k (i + 1) name (λ m lo hi. chars m (omega (arith, lo)) (omega (arith, hi))),
)

-- The four outcomes of giving the file `f` a new name.
pub data Renaming (f : ℕ) (name : ℕ → ℕ) (length : ℕ) (s : VfsEntryStore)
    : Outcome VfsEntryStore (Unit {0}) → Type 0 where
  no_parent : (s.files f).parent_folder ≡ none → Renaming f name length s (fail invalid_argument s)
  refused :
      (p : FolderRef) (c : StatusCode)
      → (s.files f).parent_folder ≡ some p
      → validate_sub_entry_name s p name length ≡ error c
      → Renaming f name length s (fail c s)
  written_behind :
      (p : FolderRef)
      → (s.files f).parent_folder ≡ some p
      → validate_sub_entry_name s p name length ≡ done tt
      → length ≡ max_name_length
      → Renaming f name length s fault
  renamed :
      (p : FolderRef) (new : ℕ → ℕ)
      → (s.files f).parent_folder ≡ some p
      → validate_sub_entry_name s p name length ≡ done tt
      → length < max_name_length
      → Stored new name length
      → Renaming f name length s (ok tt (put_file f (record (s.files f) { name = new }) s))

module _ (name : ℕ → ℕ) (length : ℕ) where
  not_null :
      name_chars_are_valid length 0 name ≡ true → (m : ℕ) → 0 ≤ m → m < 0 + length → name m ≢ 0
  not_null e m lo hi =
      let (valid, _) = name_chars_are_valid-IsNameChar name length in
      let (char, _) = valid e m (omega (arith, hi)) in char

  set_entry_name-Stored :
      (out : ℕ → ℕ)
      → name_chars_are_valid length 0 name ≡ true
      → Stored (set_entry_name name length out) name length
  unfolding set_entry_name
  set_entry_name-Stored out e = (
    λ j lt.
        set_entry_name_loop-prefix length 0 name out j (not_null e)
          (λ m h. absurd (omega (arith, h))) (omega (arith, lt)),
    subst (λ n. set_entry_name_loop length 0 name out n ≡ 0) (zero_plus length)
        (set_entry_name_loop-null length 0 name out (not_null e)),
  )

  name_fits_lem :
      (size : ℕ)
      → name_chars_are_valid length 0 name ≡ true
      → name_fits size name length ≡ ltb length size
  unfolding name_fits
  name_fits_lem size e =
      ap (λ n. ltb n size) (name_end_lem length 0 name (not_null e) ∙ zero_plus length)

  validate-chars :
      (s : VfsEntryStore) (p : FolderRef)
      → validate_sub_entry_name s p name length ≡ done tt
      → (name_chars_are_valid length 0 name ≡ true) × (length ≤ max_name_length)
  unfolding validate_sub_entry_name
  validate-chars s p e = (ground (arith, e), ground (arith, e))

-- A name that is accepted fits into the array of a folder, which has one byte more than that of a
-- file.
validate_sub_entry_name-name_fits :
    (name : ℕ → ℕ) (length : ℕ) (s : VfsEntryStore) (p : FolderRef)
    → validate_sub_entry_name s p name length ≡ done tt
    → name_fits (max_name_length + 1) name length ≡ true
validate_sub_entry_name-name_fits name length s p e =
    let (chars, short) = validate-chars name length s p e in
    name_fits_lem name length (max_name_length + 1) chars ∙ ground (arith, short)

-- Renaming a file fails with INVALID_ARGUMENT if it has no parent, and with the code of the check of
-- the name if that refuses it; the store is unchanged then. A name that is accepted and has less than
-- 32 chars is stored with its null behind it, and nothing else changes; one of 32 chars is accepted
-- too, and its null is written behind the array of the name.
pub rename_file-Renaming :
    (f : ℕ) (name : ℕ → ℕ) (length : ℕ) (s : VfsEntryStore)
    → Renaming f name length s (rename_file f name length s)
unfolding rename_file
rename_file-Renaming f name length s = elim (Option-cases ((s.files f).parent_folder)) [
  | inl e ↦ rw (e, rename_file) (no_parent e)
  | inr (p, e) ↦ elim (Result-cases (validate_sub_entry_name s p name length)) [
    | inr (c, bad) ↦ rw (e, bad, rename_file) (refused p c e bad)
    | inl (u, good) ↦
        let (chars, short) = validate-chars name length s p good in
        let size = name_fits_lem name length max_name_length chars in
        elim (Bool-cases (name_fits max_name_length name length)) [
          | inr long ↦
              rw (e, good, long, rename_file)
                (written_behind p e good (ground (arith, short, size, long)))
          | inl fits ↦
              rw (e, good, fits, rename_file)
                (renamed p (set_entry_name name length (s.files f).name) e good
                  (ground (arith, size, fits))
                  (set_entry_name-Stored name length (s.files f).name chars))
        ]
  ]
]
