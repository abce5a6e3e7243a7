-- ===== src/Cli/Effects/Functions.antt =====
-- What a command leaves as it is, by its function: `command_dispatch` of cli/command_dispatcher.c.
use virtual_file_system_c.Prelude.{ℕ, Bool, true, false, Option, List, ◌≡◌, refl}
use virtual_file_system_c.Status.{Act, ◌>>◌, pure}
use virtual_file_system_c.Commands.{
  CommandFunction, cmd_cd, cmd_pwd, cmd_ls, cmd_tree, cmd_touch, cmd_mkdir, cmd_rm, cmd_rmdir,
  cmd_mv, cmd_rename, cmd_find, cmd_df, cmd_du, cmd_stat, cmd_cat, cmd_read, cmd_append, cmd_clear,
  cmd_trunc, cmd_help, cmd_exit,
}
use virtual_file_system_c.Workspace.{Workspace}
use virtual_file_system_c.Cli.{Printed, Console, Line}
use virtual_file_system_c.Cli.Dispatch.{Buffers, command_dispatch}
use virtual_file_system_c.Cli.Dispatch.Cases.{executor_of, run_of, command_dispatch-run_of}
use virtual_file_system_c.Status.Keeps.{Leaves, Leaves-bind}
use virtual_file_system_c.Cli.Effects.Kept.{printing_rules, working_rules, cmd_exit_exec-Leaves}

-- The commands that only print, those without an executor, and `exit`.
unfoldable pub is_read_only : CommandFunction → Bool
is_read_only cmd_cd = false
is_read_only cmd_pwd = true
is_read_only cmd_ls = true
is_read_only cmd_tree = true
is_read_only cmd_touch = false
is_read_only cmd_mkdir = false
is_read_only cmd_rm = false
is_read_only cmd_rmdir = false
is_read_only cmd_mv = false
is_read_only cmd_rename = false
is_read_only cmd_find = true
is_read_only cmd_df = true
is_read_only cmd_du = true
is_read_only cmd_stat = true
is_read_only cmd_cat = true
is_read_only cmd_read = true
is_read_only cmd_append = false
is_read_only cmd_clear = false
is_read_only cmd_trunc = false
is_read_only cmd_help = true
is_read_only cmd_exit = true

module _ {T : Type 0} (P : Console T → Type 0)
    (prints : (d : Console T) (out : List Printed) → P d → P (record d { output = out }))
    (read : (count : ℕ) → T → Option (List ℕ) × T) (buffers : Buffers) (line : Line) where
  then_false :
      (m : Act (Console T) (Unit {0})) (c : Console T)
      → Leaves P (m c)
      → Leaves P ((m >> pure false) c)
  then_false m c h = Leaves-bind P m (λ u. pure false) c h (λ u d k. k)

  pub run_of-Leaves :
      (f : CommandFunction) (c : Console T)
      → P c
      → Leaves P (executor_of read buffers f line c)
      → Leaves P (run_of read buffers f line c)
  unfolding run_of executor_of
  run_of-Leaves cmd_exit c h k = cmd_exit_exec-Leaves P prints line c h
  run_of-Leaves f c h k = then_false (executor_of read buffers f line) c k

  executor_of-Leaves_read_only :
      (f : CommandFunction) (c : Console T)
      → is_read_only f ≡ true
      → P c
      → Leaves P (executor_of read buffers f line c)
  unfolding is_read_only executor_of
  executor_of-Leaves_read_only cmd_exit c e h = h
  executor_of-Leaves_read_only f c e h = first_of (cc, search printing_rules)

  pub command_dispatch-Leaves_read_only :
      (c : Console T)
      → is_read_only line.cmd.func ≡ true
      → P c
      → Leaves P (command_dispatch read buffers line c)
  command_dispatch-Leaves_read_only c e h =
      rw (command_dispatch-run_of read buffers line)
        (run_of-Leaves line.cmd.func c h (executor_of-Leaves_read_only line.cmd.func c e h))

  module _ (works : (d : Console T) (w : Workspace) → P d → P (record d { workspace = w })) where
    executor_of-Leaves :
        (f : CommandFunction) (c : Console T)
        → (f ≡ cmd_append → Leaves P (executor_of read buffers cmd_append line c))
        → P c
        → Leaves P (executor_of read buffers f line c)
    unfolding executor_of
    executor_of-Leaves cmd_append c e h = e refl
    executor_of-Leaves f c e h = search (printing_rules, working_rules)

    pub command_dispatch-Leaves :
        (c : Console T)
        → (line.cmd.func ≡ cmd_append → Leaves P (executor_of read buffers cmd_append line c))
        → P c
        → Leaves P (command_dispatch read buffers line c)
    command_dispatch-Leaves c e h =
        rw (command_dispatch-run_of read buffers line)
          (run_of-Leaves line.cmd.func c h (executor_of-Leaves line.cmd.func c e h))

module _ {T : Type 0} (read : (count : ℕ) → T → Option (List ℕ) × T) (buffers : Buffers)
    (line : Line) (c : Console T) where
  -- A command of a function that only prints or has no executor, and `exit`, leave the workspace and
  -- what is to be read from the terminal as they were, whether they succeed or fail.
  pub command_dispatch-read_only :
      is_read_only line.cmd.func ≡ true
      → Leaves
          (λ d. (d.workspace ≡ c.workspace) × (d.terminal ≡ c.terminal))
          (command_dispatch read buffers line c)
  command_dispatch-read_only e =
      command_dispatch-Leaves_read_only
        (λ d. (d.workspace ≡ c.workspace) × (d.terminal ≡ c.terminal)) (λ d out h. h) read buffers
        line c e (refl, refl)
