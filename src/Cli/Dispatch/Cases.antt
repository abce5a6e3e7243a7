-- ===== src/Cli/Dispatch/Cases.antt =====
-- The tables of cli/command_dispatcher.h against a case distinction.
use virtual_file_system_c.Prelude.{ℕ, Bool, false, Option, List, ◌≡◌, refl}
use virtual_file_system_c.Status.{Act, ◌>>◌, pure, raise, command_function_not_found}
use virtual_file_system_c.Commands.{
  CommandFunction, cmd_cd, cmd_pwd, cmd_ls, cmd_tree, cmd_touch, cmd_mkdir, cmd_rm, cmd_rmdir,
  cmd_mv, cmd_rename, cmd_find, cmd_df, cmd_du, cmd_stat, cmd_cat, cmd_read, cmd_append, cmd_clear,
  cmd_trunc, cmd_help, cmd_exit,
}
use virtual_file_system_c.Cli.{Console, Line}
use virtual_file_system_c.Cli.Help.{func_value}
use virtual_file_system_c.Cli.Input.{input_data_buffer_size}
use virtual_file_system_c.Cli.Exec.{
  cmd_cd_exec, cmd_touch_exec, cmd_mkdir_exec, cmd_rm_exec, cmd_rmdir_exec, cmd_mv_exec,
  cmd_rename_exec, cmd_clear_exec, cmd_help_exec, cmd_exit_exec,
}
use virtual_file_system_c.Cli.Listing.{cmd_pwd_exec, cmd_ls_exec, cmd_find_exec, cmd_tree_exec}
use virtual_file_system_c.Cli.FileExec.{
  cmd_append_exec, cmd_cat_exec, cmd_read_exec, cmd_trunc_exec,
}
use virtual_file_system_c.Cli.Dispatch.{
  Buffers, command_dispatch, dispatch_argument_based, dispatch_payload_based, one_of,
  is_data_outputting, is_multi_line_read_prompting,
}

module _ {T : Type 0} (read : (count : ℕ) → T → Option (List ℕ) × T) (buffers : Buffers) where
  -- What a command does, by its function.
  unfoldable pub executor_of : CommandFunction → Line → Act (Console T) (Unit {0})
  executor_of cmd_cd line = cmd_cd_exec line
  executor_of cmd_pwd line = cmd_pwd_exec line
  executor_of cmd_ls line = cmd_ls_exec line
  executor_of cmd_tree line = cmd_tree_exec line
  executor_of cmd_touch line = cmd_touch_exec line
  executor_of cmd_mkdir line = cmd_mkdir_exec line
  executor_of cmd_rm line = cmd_rm_exec line
  executor_of cmd_rmdir line = cmd_rmdir_exec line
  executor_of cmd_mv line = cmd_mv_exec line
  executor_of cmd_rename line = cmd_rename_exec line
  executor_of cmd_find line = cmd_find_exec buffers.path_buffer line
  executor_of cmd_df line = raise command_function_not_found
  executor_of cmd_du line = raise command_function_not_found
  executor_of cmd_stat line = raise command_function_not_found
  executor_of cmd_cat line = cmd_cat_exec line buffers.output_buffer buffers.output_buffer_size
  executor_of cmd_read line = cmd_read_exec line buffers.output_buffer buffers.output_buffer_size
  executor_of cmd_append line = cmd_append_exec read line input_data_buffer_size
  executor_of cmd_clear line = cmd_clear_exec line
  executor_of cmd_trunc line = cmd_trunc_exec line
  executor_of cmd_help line = cmd_help_exec line
  executor_of cmd_exit line = pure tt

  -- A command against the executor of its function; `exit` is the only one with a flag.
  unfoldable pub run_of : CommandFunction → Line → Act (Console T) Bool
  unfolding executor_of
  run_of cmd_exit line = cmd_exit_exec line
  run_of f line = executor_of f line >> pure false

  by_func :
      (line : Line) (f : CommandFunction)
      → line.cmd.func ≡ f
      → command_dispatch read buffers line ≡ run_of f line
  unfolding command_dispatch dispatch_argument_based dispatch_payload_based func_value one_of
      is_data_outputting is_multi_line_read_prompting run_of
  by_func line cmd_cd e = rw e refl
  by_func line f e = rw e refl

  -- The loops over the tables call the executor of the command's function, and give the data buffer
  -- or the output buffer to the commands that use one. The functions `df`, `du` and `stat` have no
  -- executor: they give COMMAND_FUNCTION_NOT_FOUND.
  pub command_dispatch-run_of :
      (line : Line) → command_dispatch read buffers line ≡ run_of line.cmd.func line
  command_dispatch-run_of line = by_func line line.cmd.func refl
