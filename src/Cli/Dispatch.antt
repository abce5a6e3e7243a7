-- ===== src/Cli/Dispatch.antt =====
-- The call of the executor of a command: cli/command_dispatcher.h and cli/command_dispatcher.c.
pub mod Cases
use virtual_file_system_c.Prelude.{
  ℕ, Bool, true, false, Option, none, some, List, [], ◌∷◌, ◌==◌, if◌then◌else◌,
}
use virtual_file_system_c.Status.{
  Outcome, ok, fail, fault, Act, ◌>>=◌, ◌>>◌, pure, raise, command_function_not_found,
}
use virtual_file_system_c.Commands.{
  CommandFunction, cmd_cd, cmd_pwd, cmd_ls, cmd_tree, cmd_touch, cmd_mkdir, cmd_rm, cmd_rmdir,
  cmd_mv, cmd_rename, cmd_find, cmd_cat, cmd_read, cmd_append, cmd_clear, cmd_trunc, cmd_help,
  cmd_exit,
}
use virtual_file_system_c.Cli.{Console, Line}
use virtual_file_system_c.Cli.Help.{is_func}
use virtual_file_system_c.Cli.Input.{input_data_buffer_size}
use virtual_file_system_c.Cli.Exec.{
  cmd_cd_exec, cmd_touch_exec, cmd_mkdir_exec, cmd_rm_exec, cmd_rmdir_exec, cmd_mv_exec,
  cmd_rename_exec, cmd_clear_exec, cmd_help_exec, cmd_exit_exec,
}
use virtual_file_system_c.Cli.Listing.{cmd_pwd_exec, cmd_ls_exec, cmd_find_exec, cmd_tree_exec}
use virtual_file_system_c.Cli.FileExec.{
  cmd_append_exec, cmd_cat_exec, cmd_read_exec, cmd_trunc_exec,
}

-- `CMDArgumentBasedFunctionEntry`
pub record ArgumentBasedFunctionEntry (T : Type 0) : Type 0 where
  pub executor_function : Line → Act (Console T) (Unit {0})
  pub command_function : CommandFunction

-- `CMDPayloadBasedFunctionEntry`
pub record PayloadBasedFunctionEntry (T : Type 0) : Type 0 where
  pub executor_function : Line → (ℕ → ℕ) → ℕ → Act (Console T) (Unit {0})
  pub command_function : CommandFunction

-- `MULTI_LINE_READ_PROMPTING_FUNCTIONS`
abbrev pub multi_line_read_prompting_functions : List CommandFunction
multi_line_read_prompting_functions = cmd_append ∷ []

-- `DATA_OUTPUTING_FUNCTIONS`
abbrev pub data_outputing_functions : List CommandFunction
data_outputing_functions = cmd_cat ∷ cmd_read ∷ []

-- The loop of `is_data_outputting` and of `is_multi_line_read_prompting`, over the functions that are
-- left.
unfoldable pub one_of : CommandFunction → List CommandFunction → Bool
one_of f [] = false
one_of f (g ∷ gs) = let rest = one_of f gs in if is_func f g then true else rest

unfoldable pub is_data_outputting : CommandFunction → Bool
unfolding one_of
is_data_outputting f = one_of f data_outputing_functions

unfoldable pub is_multi_line_read_prompting : CommandFunction → Bool
unfolding one_of
is_multi_line_read_prompting f = one_of f multi_line_read_prompting_functions

-- The buffers that a command may use. Each call writes what it reads of them, so they may hold
-- anything.
pub record Buffers : Type 0 where
  pub data_buffer : ℕ → ℕ
  pub output_buffer : ℕ → ℕ
  pub output_buffer_size : ℕ
  pub path_buffer : ℕ → ℕ

module _ {T : Type 0} (read : (count : ℕ) → T → Option (List ℕ) × T) (buffers : Buffers) where
  abbrev argument_based :
      (Line → Act (Console T) (Unit {0})) → CommandFunction → ArgumentBasedFunctionEntry T
  argument_based exec f = record { executor_function = exec; command_function = f }

  abbrev payload_based :
      (Line → (ℕ → ℕ) → ℕ → Act (Console T) (Unit {0}))
      → CommandFunction
      → PayloadBasedFunctionEntry T
  payload_based exec f = record { executor_function = exec; command_function = f }

  -- `CMD_ARGUMENT_BASED_FUNCTIONS_TABLE`
  abbrev pub argument_based_functions_table : List (ArgumentBasedFunctionEntry T)
  argument_based_functions_table =
      argument_based cmd_cd_exec cmd_cd
      ∷ argument_based cmd_pwd_exec cmd_pwd
      ∷ argument_based cmd_ls_exec cmd_ls
      ∷ argument_based cmd_touch_exec cmd_touch
      ∷ argument_based cmd_mkdir_exec cmd_mkdir
      ∷ argument_based cmd_rm_exec cmd_rm
      ∷ argument_based cmd_rmdir_exec cmd_rmdir
      ∷ argument_based cmd_mv_exec cmd_mv
      ∷ argument_based cmd_rename_exec cmd_rename
      ∷ argument_based cmd_clear_exec cmd_clear
      ∷ argument_based cmd_trunc_exec cmd_trunc
      ∷ argument_based (cmd_find_exec buffers.path_buffer) cmd_find
      ∷ argument_based cmd_tree_exec cmd_tree
      ∷ argument_based cmd_help_exec cmd_help
      ∷ []

  -- `CMD_PAYLOAD_BASED_FUNCTIONS_TABLE`
  abbrev pub payload_based_functions_table : List (PayloadBasedFunctionEntry T)
  payload_based_functions_table =
      payload_based (λ line _ length. cmd_append_exec read line length) cmd_append
      ∷ payload_based cmd_cat_exec cmd_cat
      ∷ payload_based cmd_read_exec cmd_read
      ∷ []

  -- The second loop of `command_dispatch`, over the entries that are left.
  unfoldable pub dispatch_payload_based :
      Line → List (PayloadBasedFunctionEntry T) → Act (Console T) (Unit {0})
  unfolding is_multi_line_read_prompting is_data_outputting
  dispatch_payload_based line [] = raise command_function_not_found
  dispatch_payload_based line (e ∷ es) =
      let rest = dispatch_payload_based line es in
      if is_func line.cmd.func e.command_function
      then (if is_multi_line_read_prompting line.cmd.func
          then e.executor_function line buffers.data_buffer input_data_buffer_size
          else if is_data_outputting line.cmd.func
          then e.executor_function line buffers.output_buffer buffers.output_buffer_size
          else raise command_function_not_found)
      else rest

  -- The loops of `command_dispatch`: the first over the entries that are left.
  unfoldable pub dispatch_argument_based :
      Line → List (ArgumentBasedFunctionEntry T) → Act (Console T) (Unit {0})
  unfolding dispatch_payload_based
  dispatch_argument_based line [] = dispatch_payload_based line payload_based_functions_table
  dispatch_argument_based line (e ∷ es) =
      let rest = dispatch_argument_based line es in
      if is_func line.cmd.func e.command_function then e.executor_function line else rest

  -- `command_dispatch`: `*exit_flag`
  unfoldable pub command_dispatch : Line → Act (Console T) Bool
  unfolding dispatch_argument_based
  command_dispatch line =
      if is_func line.cmd.func cmd_exit
      then cmd_exit_exec line
      else dispatch_argument_based line argument_based_functions_table >> pure false
