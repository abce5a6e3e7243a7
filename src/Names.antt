-- ===== src/Names.antt =====
-- Names as C strings: `set_entry_name`, `name_eq` and `name_chars_are_valid` of system/folders.c. A
-- `char *` is the memory behind it.
pub mod Chars
pub mod Text
use virtual_file_system_c.Prelude.{
  ℕ, zero, suc, ◌+◌, Bool, true, false, ◌||◌, ltb, ◌==◌, if◌then◌else◌, update,
}
use virtual_file_system_c.Settings.{path_delimiter}
use virtual_file_system_c.Status.{StatusCode, Result, done, error, insufficient_array_passed}

-- The loop of `set_entry_name`, with the rounds left and `i`.
unfoldable pub set_entry_name_loop : (rounds i : ℕ) (name out : ℕ → ℕ) → ℕ → ℕ
set_entry_name_loop zero i name out = update out i 0
set_entry_name_loop (suc k) i name out = elim (name i == 0) [
  | true ↦ update out i 0
  | false ↦ set_entry_name_loop k (i + 1) name (update out i (name i))
]

-- The last position that `set_entry_name` writes, where the null goes: `i` behind its loop.
unfoldable pub name_end : (rounds i : ℕ) (name : ℕ → ℕ) → ℕ
name_end zero i name = i
name_end (suc k) i name = elim (name i == 0) [ true ↦ i | false ↦ name_end k (i + 1) name ]

-- `set_entry_name` into an array of `size` bytes writes inside of it.
unfoldable pub name_fits : (size : ℕ) (name : ℕ → ℕ) (name_length : ℕ) → Bool
unfolding name_end
name_fits size name name_length = ltb (name_end name_length 0 name) size

-- `set_entry_name`: the array `out_entry_name` afterwards, if it is long enough. The function does not
-- know its length, so the callers answer for it: `name_fits`.
unfoldable pub set_entry_name : (name : ℕ → ℕ) (name_length : ℕ) (out : ℕ → ℕ) → ℕ → ℕ
unfolding set_entry_name_loop
set_entry_name name name_length out = set_entry_name_loop name_length 0 name out

-- The loop of `name_eq`, with the rounds left and `i`.
unfoldable pub name_eq_loop : (rounds i : ℕ) (initialised uninitialised : ℕ → ℕ) → Bool
name_eq_loop zero i initialised uninitialised = initialised i == 0
name_eq_loop (suc k) i initialised uninitialised = elim (initialised i == 0) [
  | true ↦ uninitialised i == 0
  | false ↦ elim (initialised i == uninitialised i) [
    | true ↦ name_eq_loop k (i + 1) initialised uninitialised
    | false ↦ false
  ]
]

-- `name_eq`
unfoldable pub name_eq :
    (initialised uninitialised : ℕ → ℕ) (uninitialised_length : ℕ) → Result Bool
unfolding name_eq_loop
name_eq initialised uninitialised uninitialised_length =
    if uninitialised_length == 0
    then error insufficient_array_passed
    else done (name_eq_loop uninitialised_length 0 initialised uninitialised)

-- `name_chars_are_valid`, with the rounds left and the index: no char is one of `INVALID_CHARS`.
unfoldable pub name_chars_are_valid : (rounds index : ℕ) (name : ℕ → ℕ) → Bool
name_chars_are_valid zero index name = true
name_chars_are_valid (suc k) index name = elim (name index == 0 || name index == path_delimiter) [
  | true ↦ false
  | false ↦ name_chars_are_valid k (index + 1) name
]
