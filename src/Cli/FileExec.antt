-- ===== src/Cli/FileExec.antt =====
-- The executors of cli/command_exec.c that work on the data of files: `append`, `cat`, `read` and
-- `trunc`.
use virtual_file_system_c.Prelude.{
  ℕ, zero, suc, ◌+◌, Bool, ◌||◌, Option, List, [], ◌∷◌, length, not, ◌==◌, if◌then◌else◌,
}
use virtual_file_system_c.Status.{
  ok, fail, fault, Act, ◌>>=◌, ◌>>◌, pure, raise, lift, Result, done, error, null_pointer_passed,
  cmd_expected_int, cmd_input_out_of_range, cmd_expected_posative_number,
}
use virtual_file_system_c.Names.Text.{text}
use virtual_file_system_c.Queries.{CString}
use virtual_file_system_c.Workspace.FileIo.{
  ws_file_append, ws_file_truncate, ws_file_read_all, ws_file_read_at,
}
use virtual_file_system_c.Cli.{chars, literal, Console, Line, arg, print, on_workspace, expect_args}
use virtual_file_system_c.Cli.Input.{buffer_of, multi_line_read}
use virtual_file_system_c.Cli.Numbers.{Long, strtol, is_negative}

-- `*termination_point != '\0'`
abbrev pub is_partial : CString → Long → Bool
is_partial s n = not (s.chars n.termination_point == 0)

-- The loop that prints the bytes of a buffer, with the rounds left and `i`.
unfoldable pub bytes_from : (rounds i : ℕ) → (ℕ → ℕ) → List ℕ
bytes_from zero i buffer = []
bytes_from (suc k) i buffer = buffer i ∷ bytes_from k (i + 1) buffer

-- The end of `cmd_cat_exec` and of `cmd_read_exec`.
unfoldable pub print_bytes :
    {T : Type 0} → (buffer : ℕ → ℕ) (amount : ℕ) → Act (Console T) (Unit {0})
unfolding bytes_from
print_bytes buffer amount = print (chars (bytes_from amount 0 buffer) ∷ literal "\n" ∷ [])

-- The first number of `cmd_read_exec`.
unfoldable pub offset_of : CString → Result Long
unfolding strtol
offset_of s =
    let n = strtol s in
    if is_partial s n
    then error cmd_expected_int
    else if n.out_of_range
    then error cmd_input_out_of_range
    else done n

-- The number of `cmd_trunc_exec`.
unfoldable pub amount_of : CString → Result ℕ
unfolding strtol
amount_of s =
    let n = strtol s in
    if n.out_of_range
    then error cmd_input_out_of_range
    else if is_partial s n
    then error cmd_expected_int
    else if is_negative n
    then error cmd_expected_posative_number
    else done n.magnitude

-- A call that works on the terminal.
unfoldable pub on_terminal : {T A : Type 0} → Act T A → Act (Console T) A
on_terminal act c = elim (act c.terminal) [
  | ok a t ↦ ok a (record c { terminal = t })
  | fail e t ↦ fail e (record c { terminal = t })
  | fault ↦ fault
]

module _ {T : Type 0} where
  -- The end of `cmd_append_exec`, with the bytes in its buffer.
  unfoldable pub append_read : Line → List ℕ → Act (Console T) (Unit {0})
  unfolding on_workspace
  append_read line bytes =
      if length bytes == 0
      then pure tt
      else on_workspace (ws_file_append (arg line 0) (buffer_of bytes) (length bytes))

  unfoldable pub cmd_append_exec :
      (read : (count : ℕ) → T → Option (List ℕ) × T)
      → Line
      → (data_buffer_length : ℕ) → Act (Console T) (Unit {0})
  unfolding expect_args on_terminal multi_line_read append_read
  cmd_append_exec read line length = do
    lift (λ _. expect_args line.cmd 1)
    if length == 0 then pure tt else on_terminal (multi_line_read read length) >>= append_read line

  -- The end of `cmd_cat_exec`.
  unfoldable pub print_contents : (buffer : ℕ → ℕ) (data_amount : ℕ) → Act (Console T) (Unit {0})
  unfolding print_bytes
  print_contents buffer amount = if amount == 0 then pure tt else print_bytes buffer amount

  unfoldable pub cmd_cat_exec :
      Line → (data_buffer : ℕ → ℕ) (data_buffer_length : ℕ) → Act (Console T) (Unit {0})
  unfolding expect_args print_contents
  cmd_cat_exec line buffer length = if length == 0 then raise null_pointer_passed else do
    lift (λ _. expect_args line.cmd 1)
    (out, amount) ← lift (λ c. ws_file_read_all c.workspace (arg line 0) buffer length)
    print_contents out amount

  -- The second number of `cmd_read_exec`: what is behind it is printed.
  unfoldable pub amount_to_read : CString → Act (Console T) Long
  unfolding strtol
  amount_to_read s =
      let n = strtol s in
      if is_partial s n
      then print (chars (text s.length n.termination_point s.chars) ∷ []) >> raise cmd_expected_int
      else if n.out_of_range
      then raise cmd_input_out_of_range
      else pure n

  -- `cmd_read_exec` behind its numbers
  unfoldable pub read_amount :
      Line
      → (data_buffer : ℕ → ℕ) (data_buffer_length : ℕ) → (offset amount : Long)
      → Act (Console T) (Unit {0})
  unfolding print_bytes
  read_amount line buffer length offset amount =
      if is_negative offset || is_negative amount
      then raise cmd_expected_posative_number
      else if amount.magnitude == 0
      then pure tt
      else do
        out ← lift (λ c.
            ws_file_read_at c.workspace (arg line 0) offset.magnitude amount.magnitude buffer
              length)
        print_bytes out amount.magnitude

  unfoldable pub cmd_read_exec :
      Line → (data_buffer : ℕ → ℕ) (data_buffer_length : ℕ) → Act (Console T) (Unit {0})
  unfolding expect_args offset_of amount_to_read read_amount
  cmd_read_exec line buffer length = do
    lift (λ _. expect_args line.cmd 3)
    offset ← lift (λ _. offset_of (arg line 1))
    amount ← amount_to_read (arg line 2)
    read_amount line buffer length offset amount

  unfoldable pub cmd_trunc_exec : Line → Act (Console T) (Unit {0})
  unfolding expect_args amount_of on_workspace
  cmd_trunc_exec line = do
    lift (λ _. expect_args line.cmd 2)
    amount ← lift (λ _. amount_of (arg line 1))
    on_workspace (ws_file_truncate (arg line 0) amount)
