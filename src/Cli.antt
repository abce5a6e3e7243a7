-- ===== src/Cli.antt =====
-- The command line front end: what the executors of cli/command_exec.c share.
pub mod Help
pub mod Input
pub mod Numbers
pub mod Exec
pub mod Listing
pub mod FileExec
pub mod Dispatch
pub mod Effects
pub mod Runtime
use Prim.Native.String.{String}
use virtual_file_system_c.Prelude.{
  ℕ, zero, suc, ◌+◌, ◌-◌, Bool, Option, none, some, List, [], ◌∷◌, ◌++◌, length, ltb, if◌then◌else◌,
}
use virtual_file_system_c.Status.{
  StatusCode, Outcome, ok, fail, fault, Act, Result, done, error, cmd_too_many_opts,
  cmd_too_many_args, cmd_too_few_args,
}
use virtual_file_system_c.Commands.{Command}
use virtual_file_system_c.Folders.{strlen}
use virtual_file_system_c.Names.Text.{text}
use virtual_file_system_c.Queries.{CString}
use virtual_file_system_c.Workspace.{Workspace}

-- What one conversion or literal of a `printf` writes: chars, a text of the source, or a negative
-- number by its magnitude.
pub data Printed : Type 0 where
  chars : List ℕ → Printed
  literal : String → Printed
  minus : ℕ → Printed

-- The workspace, the terminal behind STDIN_FILENO, and what has been printed.
pub record Console (T : Type 0) : Type 0 where
  pub workspace : Workspace
  pub terminal : T
  pub output : List Printed

-- A parsed command, and `command_buffer`, which its arguments point into.
pub record Line : Type 0 where
  pub cmd : Command
  pub command_buffer : ℕ → ℕ

-- `COMMAND_BUFFER_SIZE`
abbrev pub command_buffer_size : ℕ
command_buffer_size = 256

-- `cmd->args[i]`, a C string in the buffer
abbrev pub arg : Line → ℕ → CString
arg line i = record {
  chars = λ j. line.command_buffer (line.cmd.args i + j);
  length = strlen command_buffer_size (line.cmd.args i) line.command_buffer;
}

-- `printf`
abbrev pub print : {T : Type 0} → List Printed → Act (Console T) (Unit {0})
print out c = ok tt (record c { output = c.output ++ out })

-- A C string of `bound` chars at most, as `%s` prints it.
abbrev pub string : (bound : ℕ) → (ℕ → ℕ) → Printed
string bound s = chars (text bound 0 s)

-- `return` of a call that works on the workspace
unfoldable pub on_workspace : {T A : Type 0} → Act Workspace A → Act (Console T) (Unit {0})
on_workspace act c = elim (act c.workspace) [
  | ok a w ↦ ok tt (record c { workspace = w })
  | fail e w ↦ fail e (record c { workspace = w })
  | fault ↦ fault
]

-- The tests that a command without options and with `amount` arguments begins with.
unfoldable pub expect_args : Command → (amount : ℕ) → Result (Unit {0})
expect_args cmd amount =
    if ltb 0 cmd.opts_amount
    then error cmd_too_many_opts
    else if ltb amount cmd.args_amount
    then error cmd_too_many_args
    else if ltb cmd.args_amount amount
    then error cmd_too_few_args
    else done tt

-- The same for a command that may be given one argument or none.
unfoldable pub expect_one_arg_at_most : Command → Result (Unit {0})
expect_one_arg_at_most cmd =
    if ltb 0 cmd.opts_amount
    then error cmd_too_many_opts
    else if ltb 1 cmd.args_amount
    then error cmd_too_many_args
    else done tt
