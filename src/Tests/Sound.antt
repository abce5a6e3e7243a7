-- ===== src/Tests/Sound.antt =====
-- A new workspace, and commands and calls on it.
use virtual_file_system_c.Prelude.{◌≡◌, ◌≢◌, refl, true, some}
use virtual_file_system_c.Status.{done}
use virtual_file_system_c.Status.Keeps.{Leaves}
use virtual_file_system_c.Storage.{StorageMan, storage_man_create}
use virtual_file_system_c.Commands.{cmd_touch, cmd_trunc}
use virtual_file_system_c.Entries.{vfs_entry_store_init}
use virtual_file_system_c.Queries.{CString}
use virtual_file_system_c.Workspace.{workspace_init}
use virtual_file_system_c.Workspace.Ops.{ws_remove_folder, ws_move_node}
use virtual_file_system_c.Workspace.FileIo.{ws_file_append}
use virtual_file_system_c.Workspace.Sound.{IsSound, Soundly}
use virtual_file_system_c.Workspace.Sound.Calls.{
  ws_file_append-Soundly, ws_remove_folder-Soundly, ws_move_node-Soundly,
}
use virtual_file_system_c.Workspace.Sound.Places.{
  workspace_init_valid-IsSound, workspace_init-IsSound,
}
use virtual_file_system_c.Cli.{Line}
use virtual_file_system_c.Cli.Dispatch.{command_dispatch}
use virtual_file_system_c.Cli.Effects.Sound.{HasSound, command_dispatch-HasSound}
use virtual_file_system_c.Tests.Console.{
  script_read, buffers, no_command, new_workspace, console, session,
}
use virtual_file_system_c.Tests.Data.{fresh_man}
use virtual_file_system_c.Tests.Trees.{blank_store, name_of, new_store}
use virtual_file_system_c.Relocation.{rename_file}
use virtual_file_system_c.Relocation.Renames.{Renaming, rename_file-Renaming}
use virtual_file_system_c.Tests.Valid.{fresh_man-IsValid}

new_workspace-IsSound : IsSound new_workspace
new_workspace-IsSound =
    workspace_init_valid-IsSound blank_store fresh_man _ (λ f. refl) fresh_man-IsValid

workspace_init-IsSound_example :
    (m : StorageMan) × (storage_man_create (some (λ _. 0)) (some (λ _. true)) ≡ done m)
    × IsSound (workspace_init (vfs_entry_store_init blank_store) m new_workspace)
workspace_init-IsSound_example =
    workspace_init-IsSound (λ _. 0) (λ _. true) blank_store new_workspace (λ f. refl)

-- `touch a`
abbrev touch_line : Line
touch_line = record {
  cmd = record no_command { func = cmd_touch; args_amount = 1 };
  command_buffer = name_of 97;
}

command_dispatch-HasSound_example :
    Leaves HasSound (command_dispatch script_read buffers touch_line (console session))
command_dispatch-HasSound_example =
    command_dispatch-HasSound touch_line script_read buffers (console session) touch_not_trunc
      new_workspace-IsSound
  where
    touch_not_trunc : cmd_touch ≢ cmd_trunc
    touch_not_trunc e = cc

-- The path `a`
abbrev path_a : CString
path_a = record { chars = name_of 97; length = 1 }

ws_file_append-Soundly_example : Soundly (ws_file_append path_a (λ i. i) 20 new_workspace)
ws_file_append-Soundly_example =
    ws_file_append-Soundly path_a (λ i. i) 20 new_workspace new_workspace-IsSound

ws_remove_folder-Soundly_example : Soundly (ws_remove_folder path_a true new_workspace)
ws_remove_folder-Soundly_example =
    ws_remove_folder-Soundly path_a true new_workspace new_workspace-IsSound

ws_move_node-Soundly_example : Soundly (ws_move_node path_a path_a new_workspace)
ws_move_node-Soundly_example =
    ws_move_node-Soundly path_a path_a new_workspace new_workspace-IsSound

rename_file-Renaming_example :
    Renaming 0 (name_of 97) 1 new_store (rename_file 0 (name_of 97) 1 new_store)
rename_file-Renaming_example = rename_file-Renaming 0 (name_of 97) 1 new_store
