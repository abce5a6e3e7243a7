-- ===== src/Cli/Runtime.antt =====
-- The session: `cli_run` of cli/cli_runtime.c and `main` of main.c. The loop of the session has the
-- rounds that are left; Runtime/Ends says how many are enough.
pub mod Ends
use virtual_file_system_c.Prelude.{
  ℕ, zero, suc, Bool, true, false, Option, none, some, List, [], ◌∷◌, ◌++◌, if◌then◌else◌,
}
use virtual_file_system_c.Status.{
  StatusCode, null_pointer_passed, invalid_argument, index_out_of_bounds, no_space,
  insufficient_array_passed, free_chunk_access_attempt, data_over_flow, data_set_is_empty,
  allocation_failed, file_chunk_extent_limit_exceeded, chunk_does_not_belong_to_file,
  not_found_chunks_terminated, file_is_empty, invalid_operation, invalid_root_operation,
  attempted_to_delete_folder_with_sub_entries, attempted_to_enforce_cyclic_relation,
  search_target_not_found, path_is_too_long, path_is_empty, identifier_not_available,
  identifier_is_too_long, invalid_charecter_in_identifier, unknown_entry, uninitialised_entry,
  recursive_operation_limit_exceeded, test_assertion_failed, implementation_incomplete,
  expected_folder_got_file, expected_file_got_folder, invalid_safe_mode_op, too_many_arguments,
  too_many_options, too_many_tokens, cmd_is_too_long, cmd_is_empty, invalid_cmd_function,
  invalid_cmd_opt, read_error, attempted_to_read_at_eof, input_buffer_over_flow, too_many_lines,
  input_line_is_too_long, command_function_not_found, cmd_too_few_args, cmd_too_many_args,
  cmd_too_few_opts, cmd_too_many_opts, cmd_unknown_opt, cmd_unknown_arg, cmd_expected_int,
  cmd_expected_posative_number, cmd_input_out_of_range, requested_too_many_bytes, Outcome, ok, fail,
  fault, Act, ◌>>=◌, ◌>>◌, pure, raise, lift, Result, done, error, ◌>>>◌,
}
use virtual_file_system_c.Storage.{storage_man_create}
use virtual_file_system_c.Folders.{VfsEntryStore, strlen}
use virtual_file_system_c.Entries.{vfs_entry_store_init}
use virtual_file_system_c.Commands.{Command, Tokenized, cmd_tokenize, cmd_parse, max_tokens_amount}
use virtual_file_system_c.Workspace.{Workspace, workspace_init}
use virtual_file_system_c.Cli.{
  Printed, literal, minus, Console, Line, command_buffer_size, print, string,
}
use virtual_file_system_c.Cli.Input.{new_line_terminated_read}
use virtual_file_system_c.Cli.Listing.{path_size}
use virtual_file_system_c.Cli.FileExec.{on_terminal}
use virtual_file_system_c.Cli.Dispatch.{Buffers, command_dispatch}

-- The value of a status code other than SUCCESS, without its sign.
unfoldable pub status_value : StatusCode → ℕ
status_value null_pointer_passed = 1
status_value invalid_argument = 2
status_value index_out_of_bounds = 3
status_value no_space = 11
status_value insufficient_array_passed = 12
status_value free_chunk_access_attempt = 13
status_value data_over_flow = 14
status_value data_set_is_empty = 15
status_value allocation_failed = 16
status_value file_chunk_extent_limit_exceeded = 21
status_value chunk_does_not_belong_to_file = 22
status_value not_found_chunks_terminated = 23
status_value file_is_empty = 24
status_value invalid_operation = 31
status_value invalid_root_operation = 32
status_value attempted_to_delete_folder_with_sub_entries = 34
status_value attempted_to_enforce_cyclic_relation = 35
status_value search_target_not_found = 41
status_value path_is_too_long = 42
status_value path_is_empty = 43
status_value identifier_not_available = 51
status_value identifier_is_too_long = 52
status_value invalid_charecter_in_identifier = 53
status_value unknown_entry = 61
status_value uninitialised_entry = 62
status_value recursive_operation_limit_exceeded = 71
status_value test_assertion_failed = 101
status_value implementation_incomplete = 201
status_value expected_folder_got_file = 301
status_value expected_file_got_folder = 302
status_value invalid_safe_mode_op = 311
status_value too_many_arguments = 401
status_value too_many_options = 402
status_value too_many_tokens = 403
status_value cmd_is_too_long = 404
status_value cmd_is_empty = 405
status_value invalid_cmd_function = 406
status_value invalid_cmd_opt = 407
status_value read_error = 411
status_value attempted_to_read_at_eof = 412
status_value input_buffer_over_flow = 413
status_value too_many_lines = 414
status_value input_line_is_too_long = 415
status_value command_function_not_found = 421
status_value cmd_too_few_args = 431
status_value cmd_too_many_args = 432
status_value cmd_too_few_opts = 433
status_value cmd_too_many_opts = 434
status_value cmd_unknown_opt = 435
status_value cmd_unknown_arg = 436
status_value cmd_expected_int = 437
status_value cmd_expected_posative_number = 438
status_value cmd_input_out_of_range = 439
status_value requested_too_many_bytes = 441

-- `report_status` of a code other than SUCCESS: what it prints.
unfoldable pub status_report : StatusCode → List Printed
unfolding status_value
status_report code = literal "Status [" ∷ minus (status_value code) ∷ literal "]\n" ∷ []

-- `command_str` behind `cmd_tokenize`, which the arguments point into.
unfoldable pub tokenized_buffer : Result Tokenized → (command_str : ℕ → ℕ) → ℕ → ℕ
tokenized_buffer (done t) str = t.command_str
tokenized_buffer (error e) str = str

-- The call of `cmd_parse` in `cli_run`, for a command of `length` chars. What is in its local array of
-- tokens, and in a command behind its amounts, is not read before it is written.
unfoldable pub parse_line :
    (command_buffer : ℕ → ℕ) → (length : ℕ) → (tokens : ℕ → ℕ) → Command → Result Line
unfolding tokenized_buffer
parse_line buffer length tokens cmd = cmd_parse buffer length tokens cmd >>> λ parsed.
    done (record {
      cmd = parsed;
      command_buffer =
          tokenized_buffer (cmd_tokenize buffer length tokens max_tokens_amount) buffer;
    })

-- `EXIT_SUCCESS` and `EXIT_FAILURE`; `undefined` where the C code is.
pub data ExitCode : Type 0 where
  exit_success exit_failure undefined : ExitCode

module _ {T : Type 0} (read : (count : ℕ) → T → Option (List ℕ) × T) (buffers : Buffers)
    (tokens : ℕ → ℕ) (cur_command : Command) where
  -- `print_prompt_context`
  abbrev pub print_prompt_context : Act (Console T) (Unit {0})
  print_prompt_context c =
      print (literal "VFS:" ∷ string path_size c.workspace.cur_path ∷ literal "# " ∷ []) c

  -- The code that `cli_run` returns is reported before.
  unfoldable pub report_failure : {A : Type 0} → Outcome (Console T) A → Outcome (Console T) A
  unfolding status_report
  report_failure (ok a c) = ok a c
  report_failure (fail e c) = (print (status_report e) >> raise e) c
  report_failure fault = fault

  -- A code after which the session goes on.
  unfoldable pub report_and_continue : Outcome (Console T) Bool → Outcome (Console T) Bool
  unfolding status_report
  report_and_continue (ok exit c) = ok exit c
  report_and_continue (fail e c) = (print (status_report e) >> pure false) c
  report_and_continue fault = fault

  -- A round of `cli_run` behind the read of a command.
  unfoldable pub run_command : (command_buffer : ℕ → ℕ) → Act (Console T) Bool
  unfolding report_and_continue parse_line
  run_command buffer c = report_and_continue (
      (lift (λ _. parse_line buffer (strlen command_buffer_size 0 buffer) tokens cur_command)
          >>= command_dispatch read buffers)
        c)

  -- The read of a command.
  unfoldable pub read_command : Act (Console T) (ℕ → ℕ)
  unfolding on_terminal report_failure new_line_terminated_read
  read_command c =
      report_failure (on_terminal (new_line_terminated_read read command_buffer_size) c)

  -- A round of `cli_run`: `exit_flag`
  unfoldable pub cli_turn : Act (Console T) Bool
  unfolding read_command run_command
  cli_turn = print_prompt_context >> read_command >>= run_command

  -- The loop of `cli_run`, with the rounds left; `none` if these are too few.
  unfoldable pub cli_loop : (rounds : ℕ) → Console T → Option (Outcome (Console T) (Unit {0}))
  unfolding cli_turn
  cli_loop zero c = none
  cli_loop (suc k) c = elim (cli_turn c) [
    | ok true d ↦ some (ok tt d)
    | ok false d ↦ cli_loop k d
    | fail e d ↦ some (fail e d)
    | fault ↦ some fault
  ]

  -- `print_starting_instructions`
  abbrev pub starting_instructions : Printed
  starting_instructions =
      literal
        "When in multiline read mode(such as when you call append), use CTRL + D on empty line to submit.\n\n"

  -- `cli_run`; `allocated` is whether `malloc` gives the output buffer.
  unfoldable pub cli_run :
      (allocated : Bool) (rounds : ℕ) → Console T → Option (Outcome (Console T) (Unit {0}))
  unfolding cli_loop
  cli_run false k c = some (fail allocation_failed c)
  cli_run true k c = cli_loop k (record c { output = c.output ++ (starting_instructions ∷ []) })

  abbrev pub exit_code : Outcome (Console T) (Unit {0}) → ExitCode
  exit_code (ok u c) = exit_success
  exit_code (fail e c) = exit_failure
  exit_code fault = undefined

  -- `main`, of what `malloc` gives and the structures that are set to 0.
  unfoldable pub main :
      (storage : Option (ℕ → ℕ)) (map : Option (ℕ → Bool)) (allocated : Bool)
      → VfsEntryStore
      → Workspace
      → (terminal : T) (rounds : ℕ) → Option ExitCode
  unfolding storage_man_create vfs_entry_store_init workspace_init cli_run
  main storage map allocated store workspace t k = elim (storage_man_create storage map) [
    | error e ↦ some exit_failure
    | done man ↦
        elim (cli_run allocated k (record {
          workspace = workspace_init (vfs_entry_store_init store) man workspace;
          terminal = t;
          output = [];
        })) [ none ↦ none | some o ↦ some (exit_code o) ]
  ]
