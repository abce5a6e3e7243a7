-- ===== src/Names/Chars.antt =====
-- The check of a name's chars, `name_chars_are_valid` of system/folders.c.
use virtual_file_system_c.Prelude.{
  ℕ, zero, suc, ◌+◌, ◌≤◌, ◌<◌, ◌≡◌, ◌≢◌, ◌↔◌, refl, inl, inr, true, arith, lt-cases,
}
use virtual_file_system_c.Settings.{path_delimiter}
use virtual_file_system_c.Names.{name_chars_are_valid}

-- Neither a null nor a delimiter.
abbrev pub IsNameChar : ℕ → Type 0
IsNameChar c = (c ≢ 0) × (c ≢ path_delimiter)

name_chars_are_valid_sound :
    (k i : ℕ) (name : ℕ → ℕ) (j : ℕ)
    → name_chars_are_valid k i name ≡ true
    → i ≤ j
    → j < i + k
    → IsNameChar (name j)
unfolding name_chars_are_valid
name_chars_are_valid_sound zero i name j h lo hi = absurd (omega arith)
name_chars_are_valid_sound (suc k) i name j h lo hi = elim (lt-cases i j) [
  | inl later ↦
      name_chars_are_valid_sound k (i + 1) name j (ground arith) (omega arith) (omega arith)
  | inr here ↦ ground arith
]

name_chars_are_valid_complete :
    (k i : ℕ) (name : ℕ → ℕ)
    → ((j : ℕ) → i ≤ j → j < i + k → IsNameChar (name j))
    → name_chars_are_valid k i name ≡ true
unfolding name_chars_are_valid
name_chars_are_valid_complete zero i name h = refl
name_chars_are_valid_complete (suc k) i name h = ground (
  arith,
  h i (omega arith) (omega arith),
  name_chars_are_valid_complete k (i + 1) name (λ j lo hi. h j (omega arith) (omega arith)),
)

-- `name_chars_are_valid` of the whole name holds exactly if no char of it is a null or a delimiter.
pub name_chars_are_valid-IsNameChar :
    (name : ℕ → ℕ) (name_length : ℕ)
    → (name_chars_are_valid name_length 0 name ≡ true)
      ↔ ((j : ℕ) → j < name_length → IsNameChar (name j))
name_chars_are_valid-IsNameChar name name_length = (
  λ h j inner. name_chars_are_valid_sound name_length 0 name j h (omega arith) (omega arith),
  λ h. name_chars_are_valid_complete name_length 0 name (λ j lo hi. h j (omega arith)),
)
