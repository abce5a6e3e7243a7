-- ===== src/Tests/Console.antt =====
-- Sessions of the command line on a terminal whose input is given.
use virtual_file_system_c.Prelude.{
  ℕ, ◌+◌, ◌≤◌, ◌<◌, ◌≡◌, refl, sym, ap, none_not, arith, true, false, Option, none, some, List, [],
  ◌∷◌, length,
}
use mathlib.Core.List.{flatten}
use virtual_file_system_c.Status.{Outcome, ok, fail, fault}
use virtual_file_system_c.Files.{root}
use virtual_file_system_c.Commands.{Command, cmd_cd, cmd_ls}
use virtual_file_system_c.Workspace.{Workspace, workspace_init}
use virtual_file_system_c.Cli.{Printed, Console, Line}
use virtual_file_system_c.Cli.Input.{multi_line_read}
use virtual_file_system_c.Cli.Input.Finite.{Ends}
use virtual_file_system_c.Cli.Input.Reads.{Reads, at_end, next_line, multi_line_read-Reads}
use virtual_file_system_c.Cli.Dispatch.{Buffers, command_dispatch}
use virtual_file_system_c.Cli.Dispatch.Cases.{run_of, command_dispatch-run_of}
use virtual_file_system_c.Status.Keeps.{Leaves}
use virtual_file_system_c.Cli.Effects.Functions.{is_read_only, command_dispatch-read_only}
use virtual_file_system_c.Cli.Runtime.{cli_run}
use virtual_file_system_c.Cli.Runtime.Ends.{IsEnd, cli_run-IsEnd}
use virtual_file_system_c.Tests.Data.{fresh_man}
use virtual_file_system_c.Tests.Trees.{new_store}

-- A terminal that gives one list of bytes for each read, and then the end of the input.
abbrev pub script_read : (count : ℕ) → List (List ℕ) → Option (List ℕ) × List (List ℕ)
script_read n [] = (some [], [])
script_read n (line ∷ lines) = (some line, lines)

abbrev script_length : List (List ℕ) → ℕ
script_length [] = 0
script_length (line ∷ lines) = script_length lines + length line

script_read-Ends : Ends script_read script_length
script_read-Ends = record { takes = given; gives_none = none_given }
  where
    given :
        (n : ℕ) (t u : List (List ℕ)) (bytes : List ℕ)
        → script_read n t ≡ (some bytes, u)
        → script_length u + length bytes ≤ script_length t
    given n [] u bytes e = ground arith
    given n (line ∷ lines) u bytes e = ground arith

    none_given :
        (n : ℕ) (t u : List (List ℕ))
        → script_read n t ≡ (none, u)
        → script_length u ≤ script_length t
    none_given n [] u e = absurd (none_not (sym (ap (λ x. x.0) e)))
    none_given n (line ∷ lines) u e = absurd (none_not (sym (ap (λ x. x.0) e)))

abbrev pub buffers : Buffers
buffers = record {
  data_buffer = λ _. 0;
  output_buffer = λ _. 0;
  output_buffer_size = 1024;
  path_buffer = λ _. 0;
}

abbrev pub no_command : Command
no_command = record {
  func = cmd_cd;
  opts_amount = 0;
  args_amount = 0;
  opts = λ _. 0;
  args = λ _. 0;
}

abbrev pub new_workspace : Workspace
new_workspace = workspace_init new_store fresh_man (record {
  safe_mode = false;
  cur_folder = root;
  vfs = record { entries = new_store; man = fresh_man };
  cur_path = λ _. 0;
})

abbrev pub console : List (List ℕ) → Console (List (List ℕ))
console input = record { workspace = new_workspace; terminal = input; output = [] }

abbrev printed_by : Option (Outcome (Console (List (List ℕ))) (Unit {0})) → List Printed
printed_by (some (ok u d)) = d.output
printed_by (some (fail e d)) = d.output
printed_by (some fault) = []
printed_by none = []

-- A file is made, filled and printed.
abbrev pub session : List (List ℕ)
session =
    (b't' ∷ b'o' ∷ b'u' ∷ b'c' ∷ b'h' ∷ b' ' ∷ b'a' ∷ b'\n' ∷ [])
    ∷ (b'a' ∷ b'p' ∷ b'p' ∷ b'e' ∷ b'n' ∷ b'd' ∷ b' ' ∷ b'a' ∷ b'\n' ∷ [])
    ∷ (b'h' ∷ b'i' ∷ b'\n' ∷ [])
    ∷ []
    ∷ (b'c' ∷ b'a' ∷ b't' ∷ b' ' ∷ b'a' ∷ b'\n' ∷ [])
    ∷ (b'l' ∷ b's' ∷ b'\n' ∷ [])
    ∷ (b'd' ∷ b'f' ∷ b'\n' ∷ [])
    ∷ (b'e' ∷ b'x' ∷ b'i' ∷ b't' ∷ b'\n' ∷ [])
    ∷ []

cli_run-IsEnd_example :
    IsEnd (cli_run script_read buffers (λ _. 0) no_command true 40 (console session))
cli_run-IsEnd_example =
    cli_run-IsEnd script_read script_length script_read-Ends buffers (λ _. 0) no_command 40
      (console session) (omega arith)

-- The lines of an input of `append`.
abbrev hi : List ℕ
hi = b'h' ∷ b'i' ∷ b'\n' ∷ []

hi-Reads : Reads script_read (hi ∷ hi ∷ []) (hi ∷ hi ∷ []) []
hi-Reads =
    next_line refl (omega arith) (omega arith)
      (next_line refl (omega arith) (omega arith) (at_end refl))

hi-fits : length (flatten (hi ∷ hi ∷ [])) < 4096
unfolding flatten
hi-fits = omega arith

multi_line_read-Reads_example :
    multi_line_read script_read 4096 (hi ∷ hi ∷ []) ≡ ok (flatten (hi ∷ hi ∷ [])) []
multi_line_read-Reads_example =
    multi_line_read-Reads script_read 4096 (hi ∷ hi ∷ []) (hi ∷ hi ∷ []) [] hi-Reads (omega arith)
      hi-fits

-- `ls`, without an argument
abbrev ls_line : Line
ls_line = record { cmd = record no_command { func = cmd_ls }; command_buffer = λ _. 0 }

command_dispatch-run_of_example :
    command_dispatch script_read buffers ls_line ≡ run_of script_read buffers cmd_ls ls_line
command_dispatch-run_of_example = command_dispatch-run_of script_read buffers ls_line

ls-is_read_only : is_read_only cmd_ls ≡ true
unfolding is_read_only
ls-is_read_only = refl

command_dispatch-read_only_example :
    Leaves
      (λ d. (d.workspace ≡ new_workspace) × (d.terminal ≡ session))
      (command_dispatch script_read buffers ls_line (console session))
command_dispatch-read_only_example =
    command_dispatch-read_only script_read buffers ls_line (console session) ls-is_read_only
