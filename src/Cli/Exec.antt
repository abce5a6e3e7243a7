-- ===== src/Cli/Exec.antt =====
-- The executors of cli/command_exec.c that change the tree, `help` and `exit`.
use virtual_file_system_c.Prelude.{Bool, true, false, ltb, ◌==◌, if◌then◌else◌, ◌∷◌}
use virtual_file_system_c.Status.{
  Act, ◌>>=◌, ◌>>◌, lift, Result, done, error, cmd_too_few_args, cmd_too_many_args,
  cmd_too_few_opts, cmd_too_many_opts, cmd_unknown_opt,
}
use virtual_file_system_c.Commands.{Command}
use virtual_file_system_c.Workspace.{ws_change_cur_folder}
use virtual_file_system_c.Workspace.Ops.{
  ws_create_file, ws_create_folder, ws_remove_file, ws_remove_folder, ws_move_node, ws_rename_node,
}
use virtual_file_system_c.Workspace.FileIo.{ws_file_clear}
use virtual_file_system_c.Cli.{
  Console, literal, Line, arg, print, on_workspace, expect_args, expect_one_arg_at_most,
}
use virtual_file_system_c.Cli.Help.{
  help_hints_table, synopses, print_str_command_function_help_hint,
}

-- The tests of `cmd_cd_exec`.
unfoldable pub expect_target : Command → Result (Unit {0})
expect_target cmd =
    if cmd.args_amount == 0
    then error cmd_too_few_args
    else if ltb 1 cmd.args_amount
    then error cmd_too_many_args
    else if ltb 0 cmd.opts_amount
    then error cmd_too_few_opts
    else done tt

-- The tests of `cmd_rmdir_exec` and `recursive_flag`.
unfoldable pub recursive_flag : Command → Result Bool
recursive_flag cmd =
    if ltb 1 cmd.opts_amount
    then error cmd_too_many_opts
    else if ltb 1 cmd.args_amount
    then error cmd_too_many_args
    else if cmd.args_amount == 0
    then error cmd_too_few_args
    else if cmd.opts_amount == 1
    then (if cmd.opts 0 == b'r' then done true else error cmd_unknown_opt)
    else done false

module _ {T : Type 0} (line : Line) where
  unfoldable pub cmd_cd_exec : Act (Console T) (Unit {0})
  unfolding expect_target on_workspace
  cmd_cd_exec =
      lift (λ _. expect_target line.cmd) >> on_workspace (ws_change_cur_folder (arg line 0))

  unfoldable pub cmd_touch_exec : Act (Console T) (Unit {0})
  unfolding expect_args on_workspace
  cmd_touch_exec = lift (λ _. expect_args line.cmd 1) >> on_workspace (ws_create_file (arg line 0))

  unfoldable pub cmd_mkdir_exec : Act (Console T) (Unit {0})
  unfolding expect_args on_workspace
  cmd_mkdir_exec =
      lift (λ _. expect_args line.cmd 1) >> on_workspace (ws_create_folder (arg line 0))

  unfoldable pub cmd_rm_exec : Act (Console T) (Unit {0})
  unfolding expect_args on_workspace
  cmd_rm_exec = lift (λ _. expect_args line.cmd 1) >> on_workspace (ws_remove_file (arg line 0))

  unfoldable pub cmd_rmdir_exec : Act (Console T) (Unit {0})
  unfolding recursive_flag on_workspace
  cmd_rmdir_exec = lift (λ _. recursive_flag line.cmd) >>= λ recursive.
      on_workspace (ws_remove_folder (arg line 0) recursive)

  unfoldable pub cmd_mv_exec : Act (Console T) (Unit {0})
  unfolding expect_args on_workspace
  cmd_mv_exec =
      lift (λ _. expect_args line.cmd 2) >> on_workspace (ws_move_node (arg line 0) (arg line 1))

  unfoldable pub cmd_rename_exec : Act (Console T) (Unit {0})
  unfolding expect_args on_workspace
  cmd_rename_exec =
      lift (λ _. expect_args line.cmd 2) >> on_workspace (ws_rename_node (arg line 0) (arg line 1))

  unfoldable pub cmd_clear_exec : Act (Console T) (Unit {0})
  unfolding expect_args on_workspace
  cmd_clear_exec = lift (λ _. expect_args line.cmd 1) >> on_workspace (ws_file_clear (arg line 0))

  -- `cmd_help_exec` behind its tests
  unfoldable pub print_help : Act (Console T) (Unit {0})
  unfolding print_str_command_function_help_hint synopses
  print_help =
      if line.cmd.args_amount == 1
      then print_str_command_function_help_hint (arg line 0)
      else print (
          literal "Run \"help [COMMAND_FUNCTION]\" to get COMMAND_FUNCTION's details\n\n"
          ∷ synopses help_hints_table)

  unfoldable pub cmd_help_exec : Act (Console T) (Unit {0})
  unfolding expect_one_arg_at_most print_help
  cmd_help_exec = lift (λ _. expect_one_arg_at_most line.cmd) >> print_help

  -- `cmd_exit_exec`: `*exit_flag`
  unfoldable pub cmd_exit_exec : Act (Console T) Bool
  cmd_exit_exec c =
      lift
        (λ _.
          if ltb 0 line.cmd.opts_amount
          then error cmd_too_many_opts
          else if ltb 0 line.cmd.args_amount
          then error cmd_too_many_args
          else done true)
        c
