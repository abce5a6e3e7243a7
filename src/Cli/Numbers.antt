-- ===== src/Cli/Numbers.antt =====
-- Numbers in arguments: `strtol` in base 10, as cli/command_exec.c calls it.
use virtual_file_system_c.Prelude.{
  ℕ, zero, suc, ◌+◌, ◌-◌, ◌*◌, ◌^◌, Bool, true, false, ◌&&◌, ◌||◌, ltb, leb, ◌==◌, if◌then◌else◌,
}
use virtual_file_system_c.Queries.{CString}

-- The result of `strtol`: the number, without its sign and cut to the range of a long, the index of
-- the char behind it, and whether `errno` is ERANGE.
pub record Long : Type 0 where
  pub negative : Bool
  pub magnitude : ℕ
  pub termination_point : ℕ
  pub out_of_range : Bool

-- `isspace`
abbrev pub is_space : ℕ → Bool
is_space c = c == b' ' || (leb 9 c && leb c 13)

abbrev pub is_digit : ℕ → Bool
is_digit c = leb b'0' c && leb c b'9'

-- The index of the first char from `i` on that is no white space.
unfoldable pub skip_spaces : (rounds i : ℕ) → (ℕ → ℕ) → ℕ
skip_spaces zero i s = i
skip_spaces (suc k) i s = let rest = skip_spaces k (i + 1) s in if is_space (s i) then rest else i

-- The digits from `i` on: their value behind `value`, and the index of the char behind them.
unfoldable pub read_digits : (rounds i value : ℕ) → (ℕ → ℕ) → ℕ × ℕ
read_digits zero i value s = (value, i)
read_digits (suc k) i value s =
    let rest = read_digits k (i + 1) (value * 10 + (s i - b'0')) s in
    if is_digit (s i) then rest else (value, i)

-- LONG_MAX, and the magnitude of LONG_MIN
abbrev pub long_limit : Bool → ℕ
long_limit false = 2 ^ 63 - 1
long_limit true = 2 ^ 63

-- A number whose first digit is expected at `i`. Without digits it ends where the string begins.
unfoldable pub long_from : (rounds i : ℕ) (negative : Bool) → (ℕ → ℕ) → Long
unfolding read_digits
long_from k i negative s =
    let (value, end) = read_digits k i 0 s in
    if is_digit (s i)
    then record {
      negative = negative;
      magnitude = if ltb (long_limit negative) value then long_limit negative else value;
      termination_point = end;
      out_of_range = ltb (long_limit negative) value;
    }
    else record { negative = false; magnitude = 0; termination_point = 0; out_of_range = false }

-- `strtol(s, &termination_point, 10)`
unfoldable pub strtol : CString → Long
unfolding skip_spaces long_from
strtol s =
    let i = skip_spaces s.length 0 s.chars in
    if s.chars i == b'-'
    then long_from s.length (i + 1) true s.chars
    else if s.chars i == b'+'
    then long_from s.length (i + 1) false s.chars
    else long_from s.length i false s.chars

-- `value < 0`
abbrev pub is_negative : Long → Bool
is_negative n = n.negative && ltb 0 n.magnitude
