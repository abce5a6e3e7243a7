-- ===== src/Cli/Runtime/Ends.antt =====
-- A session ends: `cli_run` of cli/cli_runtime.c, for input that ends.
use virtual_file_system_c.Prelude.{
  ℕ, zero, suc, ◌≤◌, ◌<◌, arith, Bool, true, false, Option, some, List,
}
use virtual_file_system_c.Status.{StatusCode, Outcome, ok, fail, fault, ◌>>=◌, lift, Result}
use virtual_file_system_c.Status.After.{After, succeeds, fails, After-mono}
use virtual_file_system_c.Commands.{Command}
use virtual_file_system_c.Folders.{strlen}
use virtual_file_system_c.Cli.{Console, Line, command_buffer_size}
use virtual_file_system_c.Cli.Input.{
  new_line_terminated_read, multi_line_read, input_data_buffer_size,
}
use virtual_file_system_c.Cli.Input.Finite.{
  Ends, IsReadFailure, new_line_terminated_read-Finite, multi_line_read-NoMore,
}
use virtual_file_system_c.Cli.FileExec.{on_terminal, append_read, cmd_append_exec}
use virtual_file_system_c.Cli.Dispatch.{Buffers, command_dispatch}
use virtual_file_system_c.Cli.Dispatch.Cases.{executor_of}
use virtual_file_system_c.Status.Keeps.{Leaves, leaves_rules, Leaves-lift_bind}
use virtual_file_system_c.Cli.Effects.{Leaves-on_terminal}
use virtual_file_system_c.Cli.Effects.Kept.{append_read-Leaves}
use virtual_file_system_c.Cli.Effects.Functions.{command_dispatch-Leaves}
use virtual_file_system_c.Cli.Runtime.{
  report_failure, report_and_continue, run_command, read_command, cli_turn, cli_loop, cli_run,
  parse_line,
}

-- The ends of a session: `exit`, a read of a command that fails, or what C leaves undefined.
pub data IsEnd {T : Type 0} : Option (Outcome (Console T) (Unit {0})) → Type 0 where
  exited : {d : Console T} → IsEnd (some (ok tt d))
  stopped : {e : StatusCode} {d : Console T} → IsReadFailure e → IsEnd (some (fail e d))
  undefined_end : IsEnd (some fault)

module _ {T : Type 0} (read : (count : ℕ) → T → Option (List ℕ) × T) (rest : T → ℕ)
    (ends : Ends read rest) (buffers : Buffers) (tokens : ℕ → ℕ) (cur_command : Command) where
  -- No more than `n` bytes are still to be read.
  abbrev AtMost : ℕ → Console T → Type 0
  AtMost n d = rest d.terminal ≤ n

  append_read-AtMost :
      (n : ℕ) (line : Line) (bytes : List ℕ) (c : Console T)
      → AtMost n c
      → Leaves (AtMost n) (append_read line bytes c)
  append_read-AtMost n line bytes c h =
      append_read-Leaves (AtMost n) (λ d out k. k) (λ d w k. k) line bytes c h

  multi_line_read-AtMost :
      (n size : ℕ) (c : Console T)
      → AtMost n c
      → Leaves (AtMost n) (on_terminal (multi_line_read read size) c)
  multi_line_read-AtMost n size c h = Leaves-on_terminal (AtMost n) (multi_line_read read size) c (
      After-mono (multi_line_read-NoMore read rest ends size c.terminal)
        (λ a t k. omega (arith, h, k)) (λ e t k. omega (arith, h, k)))

  cmd_append_exec-AtMost :
      (n : ℕ) (line : Line) (size : ℕ) (c : Console T)
      → AtMost n c
      → Leaves (AtMost n) (cmd_append_exec read line size c)
  unfolding cmd_append_exec
  cmd_append_exec-AtMost n line size c h =
      search (leaves_rules, multi_line_read-AtMost, append_read-AtMost)

  command_dispatch-AtMost :
      (n : ℕ) (line : Line) (c : Console T)
      → AtMost n c
      → Leaves (AtMost n) (command_dispatch read buffers line c)
  unfolding executor_of
  command_dispatch-AtMost n line c h =
      command_dispatch-Leaves (AtMost n) (λ d out k. k) read buffers line (λ d w k. k) c
        (λ e. cmd_append_exec-AtMost n line input_data_buffer_size c h) h

  -- How a round of the session may end, when it leaves fewer than `n` bytes if there is a next one.
  data Turn (n : ℕ) : Outcome (Console T) Bool → Type 0 where
    exits : {d : Console T} → Turn n (ok true d)
    continues : {d : Console T} → rest d.terminal < n → Turn n (ok false d)
    stops : {e : StatusCode} {d : Console T} → IsReadFailure e → Turn n (fail e d)
    is_undefined : Turn n fault

  report_and_continue-Turn :
      (n m : ℕ) (o : Outcome (Console T) Bool)
      → m < n
      → Leaves (AtMost m) o
      → Turn n (report_and_continue read buffers tokens cur_command o)
  unfolding report_and_continue
  report_and_continue-Turn n m (ok true d) l h = exits
  report_and_continue-Turn n m (ok false d) l h = continues (omega (arith, h, l))
  report_and_continue-Turn n m (fail e d) l h = continues (omega (arith, h, l))
  report_and_continue-Turn n m fault l h = is_undefined

  run_command-Turn :
      (n : ℕ) (buffer : ℕ → ℕ) (c : Console T)
      → rest c.terminal < n
      → Turn n (run_command read buffers tokens cur_command buffer c)
  unfolding run_command
  run_command-Turn n buffer c h =
      let parse : Console T → Result Line =
        λ _. parse_line buffer (strlen command_buffer_size 0 buffer) tokens cur_command in
      report_and_continue-Turn n (rest c.terminal)
        ((lift parse >>= command_dispatch read buffers) c) h
        (Leaves-lift_bind (AtMost (rest c.terminal)) parse (command_dispatch read buffers) c
          (omega arith) (λ line d k. command_dispatch-AtMost (rest c.terminal) line d k))

  read_command_outcome :
      (n : ℕ) (o : Outcome T (ℕ → ℕ)) (c : Console T)
      → After (λ buffer t. rest t < n) (λ e t. IsReadFailure e) o
      → After
          (λ buffer d. rest d.terminal < n)
          (λ e d. IsReadFailure e)
          (report_failure read buffers tokens cur_command (elim o [
            | ok a t ↦ ok a (record c { terminal = t })
            | fail e t ↦ fail e (record c { terminal = t })
            | fault ↦ fault
          ]))
  unfolding report_failure
  read_command_outcome n (ok a t) c (succeeds h) = succeeds {t = record c { terminal = t }} h
  read_command_outcome n (fail e t) c (fails h) = fails h
  read_command_outcome n fault c h = elim h [ ]

  read_command-Finite :
      (c : Console T)
      → After
          (λ buffer d. rest d.terminal < rest c.terminal)
          (λ e d. IsReadFailure e)
          (read_command read buffers tokens cur_command c)
  unfolding read_command on_terminal
  read_command-Finite c =
      read_command_outcome (rest c.terminal)
        (new_line_terminated_read read command_buffer_size c.terminal) c
        (new_line_terminated_read-Finite read rest ends command_buffer_size c.terminal
          (omega arith))

  handle_read-Turn :
      (n : ℕ) (o : Outcome (Console T) (ℕ → ℕ))
      → After (λ buffer d. rest d.terminal < n) (λ e d. IsReadFailure e) o
      → Turn n (elim o [
        | ok buffer d ↦ run_command read buffers tokens cur_command buffer d
        | fail e d ↦ fail e d
        | fault ↦ fault
      ])
  handle_read-Turn n (ok buffer d) (succeeds h) = run_command-Turn n buffer d h
  handle_read-Turn n (fail e d) (fails h) = stops h
  handle_read-Turn n fault h = elim h [ ]

  cli_turn-Turn :
      (c : Console T) → Turn (rest c.terminal) (cli_turn read buffers tokens cur_command c)
  unfolding cli_turn
  cli_turn-Turn c = handle_read-Turn (rest c.terminal) _ (read_command-Finite _)

  next_round-IsEnd :
      (n k : ℕ) (o : Outcome (Console T) Bool)
      → n ≤ k
      → Turn n o
      → ((d : Console T)
          → rest d.terminal < k
          → IsEnd (cli_loop read buffers tokens cur_command k d))
      → IsEnd (elim o [
        | ok true d ↦ some (ok tt d)
        | ok false d ↦ cli_loop read buffers tokens cur_command k d
        | fail e d ↦ some (fail e d)
        | fault ↦ some fault
      ])
  next_round-IsEnd n k (ok true d) l exits next = exited
  next_round-IsEnd n k (ok false d) l (continues h) next = next d (omega (arith, l, h))
  next_round-IsEnd n k (fail e d) l (stops h) next = stopped h
  next_round-IsEnd n k fault l is_undefined next = undefined_end

  cli_loop-IsEnd :
      (k : ℕ) (c : Console T)
      → rest c.terminal < k
      → IsEnd (cli_loop read buffers tokens cur_command k c)
  unfolding cli_loop
  cli_loop-IsEnd zero c h = absurd (omega arith)
  cli_loop-IsEnd (suc k) c h =
      next_round-IsEnd (rest c.terminal) k (cli_turn read buffers tokens cur_command c)
        (omega arith) (cli_turn-Turn c) (cli_loop-IsEnd k)

  -- A session whose input ends, with its output buffer allocated, ends in at most one round more than
  -- there are bytes to read: by `exit`, by a read of a command that fails, or where C leaves the
  -- behaviour undefined.
  pub cli_run-IsEnd :
      (k : ℕ) (c : Console T)
      → rest c.terminal < k
      → IsEnd (cli_run read buffers tokens cur_command true k c)
  unfolding cli_run
  cli_run-IsEnd k c h = cli_loop-IsEnd k _ h
