-- ===== src/Cli/Input.antt =====
-- Input from the terminal: cli/input_handler.c. `read` of the operating system is a parameter: it is
-- given the length of the buffer and the state of the terminal, and gives `none` for a negative
-- result, or the bytes that it puts into the buffer, which are none at the end of the input.
pub mod Finite
pub mod Reads
use virtual_file_system_c.Prelude.{
  ℕ, zero, suc, ◌+◌, ◌-◌, Bool, true, false, Option, none, some, List, [], ◌∷◌, ◌++◌, length,
  get_or, ltb, ◌==◌, if◌then◌else◌, update,
}
use virtual_file_system_c.Status.{
  StatusCode, Outcome, ok, fail, fault, Act, insufficient_array_passed, read_error,
  attempted_to_read_at_eof, input_buffer_over_flow, input_line_is_too_long, too_many_lines,
}

abbrev pub max_multi_line_input_lines_amount : ℕ
max_multi_line_input_lines_amount = 16

abbrev pub max_multi_line_input_line_length : ℕ
max_multi_line_input_line_length = 256

-- `INPUT_DATA_BUFFER_SIZE`, 256 * 16
abbrev pub input_data_buffer_size : ℕ
input_data_buffer_size = 4096

-- A buffer into which bytes were read. What is behind them is not read before it is written.
abbrev pub buffer_of : List ℕ → ℕ → ℕ
buffer_of bytes i = get_or bytes i 0

-- `buffer[amount_read - 1]` or the char behind it becomes the null.
unfoldable pub terminate : List ℕ → ℕ → ℕ
terminate bytes =
    let last = length bytes - 1 in
    if buffer_of bytes last == b'\n'
    then update (buffer_of bytes) last 0
    else update (buffer_of bytes) (length bytes) 0

module _ {T : Type 0} (read : (count : ℕ) → T → Option (List ℕ) × T) where
  -- `new_line_terminated_read` behind the call of `read`
  unfoldable pub take_line : (buffer_length : ℕ) → Option (List ℕ) × T → Outcome T (ℕ → ℕ)
  unfolding terminate
  take_line size (none, t) = fail read_error t
  take_line size (some bytes, t) =
      if length bytes == 0
      then fail attempted_to_read_at_eof t
      else if length bytes == size
      then fail input_buffer_over_flow t
      else ok (terminate bytes) t

  -- `new_line_terminated_read`: the buffer
  unfoldable pub new_line_terminated_read : (buffer_length : ℕ) → Act T (ℕ → ℕ)
  unfolding take_line
  new_line_terminated_read size t =
      if size == 0 then fail insufficient_array_passed t else take_line size (read size t)

  -- A round of the loop of `multi_line_read` behind the call of `read`: the lines read before, and
  -- these with the next one; `none` at the end of the input.
  unfoldable pub take_next_line :
      (buffer_size : ℕ) → List ℕ → Option (List ℕ) × T → Outcome T (Option (List ℕ))
  take_next_line size before (none, t) = fail read_error t
  take_next_line size before (some line, t) =
      if length line == 0
      then ok none t
      else if length line == max_multi_line_input_line_length + 1
      then fail input_line_is_too_long t
      else if ltb (size - 1) (length line + length before)
      then fail input_buffer_over_flow t
      else ok (some (before ++ line)) t

  -- The loop of `multi_line_read`, with the rounds left and the bytes in the buffer.
  unfoldable pub multi_line_loop : (buffer_size rounds : ℕ) → List ℕ → Act T (List ℕ)
  unfolding take_next_line
  multi_line_loop size zero before t = fail too_many_lines t
  multi_line_loop size (suc k) before t =
      elim (take_next_line size before (read (max_multi_line_input_line_length + 1) t)) [
        | ok next u ↦ elim next [ none ↦ ok before u | some lines ↦ multi_line_loop size k lines u ]
        | fail c u ↦ fail c u
        | fault ↦ fault
      ]

  -- `multi_line_read`: the bytes in the buffer before the null
  unfoldable pub multi_line_read : (buffer_size : ℕ) → Act T (List ℕ)
  unfolding multi_line_loop
  multi_line_read size t = multi_line_loop size max_multi_line_input_lines_amount [] t
