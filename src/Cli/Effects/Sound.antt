-- ===== src/Cli/Effects/Sound.antt =====
-- The invariant of the workspace under `command_dispatch` of cli/command_dispatcher.c.
use virtual_file_system_c.Prelude.{ℕ, Option, List, ◌≢◌, refl, inl, inr}
use virtual_file_system_c.Status.{Outcome, ok, fail, fault, Act}
use virtual_file_system_c.Status.After.{succeeds, fails}
use virtual_file_system_c.Status.Keeps.{Leaves, leaves_rules, Outcome-cases}
use virtual_file_system_c.Commands.{CommandFunction, cmd_trunc}
use virtual_file_system_c.Workspace.{Workspace}
use virtual_file_system_c.Workspace.Sound.{IsSound, Soundly}
use virtual_file_system_c.Workspace.Sound.Calls.{
  ws_create_file-Soundly, ws_create_folder-Soundly, ws_remove_file-Soundly,
  ws_remove_folder-Soundly, ws_file_append-Soundly, ws_file_clear-Soundly, ws_move_node-Soundly,
  ws_rename_node-IsSound,
}
use virtual_file_system_c.Workspace.Sound.Places.{ws_change_cur_folder-IsSound}
use virtual_file_system_c.Cli.{Console, Line, on_workspace}
use virtual_file_system_c.Cli.Exec.{
  cmd_cd_exec, cmd_touch_exec, cmd_mkdir_exec, cmd_rm_exec, cmd_rmdir_exec, cmd_mv_exec,
  cmd_rename_exec, cmd_clear_exec,
}
use virtual_file_system_c.Cli.FileExec.{cmd_append_exec, append_read, on_terminal}
use virtual_file_system_c.Cli.Dispatch.{Buffers, command_dispatch}
use virtual_file_system_c.Cli.Dispatch.Cases.{executor_of, command_dispatch-run_of}
use virtual_file_system_c.Cli.Effects.Kept.{printing_rules}
use virtual_file_system_c.Cli.Effects.Functions.{run_of-Leaves}

abbrev pub HasSound : {T : Type 0} → Console T → Type 0
HasSound c = IsSound c.workspace

Leaves-Soundly : {A : Type 0} (o : Outcome Workspace A) → Soundly o → Leaves IsSound o
Leaves-Soundly (ok a w) (succeeds h) = h
Leaves-Soundly (fail c w) (fails h) = h
Leaves-Soundly fault h = tt

workspace_outcome :
    {T A : Type 0} (o : Outcome Workspace A) (c : Console T)
    → Leaves IsSound o
    → Leaves HasSound (elim o [
      | ok a w ↦ ok tt (record c { workspace = w })
      | fail e w ↦ fail e (record c { workspace = w })
      | fault ↦ fault
    ])
workspace_outcome (ok a w) c h = h
workspace_outcome (fail e w) c h = h
workspace_outcome fault c h = tt

module _ {T : Type 0} (line : Line) where
  on_workspace-HasSound :
      {A : Type 0} (act : Act Workspace A) (c : Console T)
      → Leaves IsSound (act c.workspace)
      → Leaves HasSound (on_workspace act c)
  unfolding on_workspace
  on_workspace-HasSound act c h = workspace_outcome (act c.workspace) c h

  cmd_cd_exec-HasSound : (c : Console T) → HasSound c → Leaves HasSound (cmd_cd_exec line c)
  unfolding cmd_cd_exec
  cmd_cd_exec-HasSound c h =
      search (leaves_rules, on_workspace-HasSound, ws_change_cur_folder-IsSound)

  ruleset changing_rules = (leaves_rules, on_workspace-HasSound, Leaves-Soundly)

  cmd_touch_exec-HasSound : (c : Console T) → HasSound c → Leaves HasSound (cmd_touch_exec line c)
  unfolding cmd_touch_exec
  cmd_touch_exec-HasSound c h = search (changing_rules, ws_create_file-Soundly)

  cmd_mkdir_exec-HasSound : (c : Console T) → HasSound c → Leaves HasSound (cmd_mkdir_exec line c)
  unfolding cmd_mkdir_exec
  cmd_mkdir_exec-HasSound c h = search (changing_rules, ws_create_folder-Soundly)

  cmd_rm_exec-HasSound : (c : Console T) → HasSound c → Leaves HasSound (cmd_rm_exec line c)
  unfolding cmd_rm_exec
  cmd_rm_exec-HasSound c h = search (changing_rules, ws_remove_file-Soundly)

  cmd_rmdir_exec-HasSound : (c : Console T) → HasSound c → Leaves HasSound (cmd_rmdir_exec line c)
  unfolding cmd_rmdir_exec
  cmd_rmdir_exec-HasSound c h = search (changing_rules, ws_remove_folder-Soundly)

  cmd_mv_exec-HasSound : (c : Console T) → HasSound c → Leaves HasSound (cmd_mv_exec line c)
  unfolding cmd_mv_exec
  cmd_mv_exec-HasSound c h = search (changing_rules, ws_move_node-Soundly)

  cmd_rename_exec-HasSound : (c : Console T) → HasSound c → Leaves HasSound (cmd_rename_exec line c)
  unfolding cmd_rename_exec
  cmd_rename_exec-HasSound c h =
      search (leaves_rules, on_workspace-HasSound, ws_rename_node-IsSound)

  cmd_clear_exec-HasSound : (c : Console T) → HasSound c → Leaves HasSound (cmd_clear_exec line c)
  unfolding cmd_clear_exec
  cmd_clear_exec-HasSound c h = search (changing_rules, ws_file_clear-Soundly)

  append_read-HasSound :
      (bytes : List ℕ) (c : Console T) → HasSound c → Leaves HasSound (append_read line bytes c)
  unfolding append_read
  append_read-HasSound bytes c h = search (changing_rules, ws_file_append-Soundly)

  -- Whatever is read from the terminal.
  on_terminal-HasSound :
      {A : Type 0} (act : Act T A) (c : Console T)
      → HasSound c
      → Leaves HasSound (on_terminal act c)
  unfolding on_terminal
  on_terminal-HasSound act c h = elim (Outcome-cases (act c.terminal)) [
    | inl (a, t, e) ↦ rw (e, on_terminal, Leaves) h
    | inr (inl (a, t, e)) ↦ rw (e, on_terminal, Leaves) h
    | inr (inr e) ↦ rw (e, on_terminal, Leaves) tt
  ]

  cmd_append_exec-HasSound :
      (read : (count : ℕ) → T → Option (List ℕ) × T) (size : ℕ) (c : Console T)
      → HasSound c
      → Leaves HasSound (cmd_append_exec read line size c)
  unfolding cmd_append_exec
  cmd_append_exec-HasSound read size c h =
      search (leaves_rules, on_terminal-HasSound, append_read-HasSound)

  ruleset sound_rules = (
    cmd_cd_exec-HasSound, cmd_touch_exec-HasSound, cmd_mkdir_exec-HasSound, cmd_rm_exec-HasSound,
    cmd_rmdir_exec-HasSound, cmd_mv_exec-HasSound, cmd_rename_exec-HasSound,
    cmd_clear_exec-HasSound, cmd_append_exec-HasSound,
  )

  module _ (read : (count : ℕ) → T → Option (List ℕ) × T) (buffers : Buffers) where
    executor_of-HasSound :
        (f : CommandFunction) (c : Console T)
        → f ≢ cmd_trunc
        → HasSound c
        → Leaves HasSound (executor_of read buffers f line c)
    unfolding executor_of
    executor_of-HasSound cmd_trunc c ne h = absurd (ne refl)
    executor_of-HasSound f c ne h = search (printing_rules, sound_rules)

    -- Every command but `trunc` that ends, with success or a failure, leaves a sound workspace as a
    -- sound one, whatever is read from the terminal: the entries are a tree, the files in use are
    -- valid and share no chunk, their names end inside their arrays, the free chunks are counted
    -- right, and the current folder is in use, or empty and without a parent. Nothing is said where
    -- the command reaches outside an object, as `rename` does when it gives a file a name of 32 chars.
    pub command_dispatch-HasSound :
        (c : Console T)
        → line.cmd.func ≢ cmd_trunc
        → HasSound c
        → Leaves HasSound (command_dispatch read buffers line c)
    command_dispatch-HasSound c ne h = rw (command_dispatch-run_of read buffers line) (
        run_of-Leaves HasSound (λ d out k. k) read buffers line line.cmd.func c h
          (executor_of-HasSound line.cmd.func c ne h))
