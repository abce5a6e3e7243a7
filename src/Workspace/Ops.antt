-- ===== src/Workspace/Ops.antt =====
-- Entries are made, removed, moved and renamed by their paths: workspace/vfs_ops.c.
use virtual_file_system_c.Prelude.{ℕ, Bool, if◌then◌else◌}
use virtual_file_system_c.Status.{
  fail, Act, ◌>>=◌, lift, Result, done, error, ◌>>>◌, invalid_safe_mode_op,
  expected_file_got_folder,
}
use virtual_file_system_c.Files.{FolderRef}
use virtual_file_system_c.Folders.{VfsEntryStore, VfsNode, file_node, folder_node}
use virtual_file_system_c.Entries.{
  on_entries, vfs_sub_file_init, vfs_sub_folder_init, delete_vfs_file, delete_vfs_folder,
}
use virtual_file_system_c.Queries.{CString}
use virtual_file_system_c.Relocation.{move_file, move_folder, rename_file, rename_folder}
use virtual_file_system_c.Workspace.{Workspace, on_vfs, ws_resolve_path, folder_only}

-- `ws_create_file`; the file goes to an output parameter that is NULL.
unfoldable pub ws_create_file : CString → Act Workspace ℕ
ws_create_file name w =
    on_vfs (on_entries (vfs_sub_file_init name.chars name.length w.cur_folder)) w

-- `ws_create_folder`; the folder goes to an output parameter that is NULL.
unfoldable pub ws_create_folder : CString → Act Workspace FolderRef
ws_create_folder name w =
    on_vfs (on_entries (vfs_sub_folder_init name.chars name.length w.cur_folder)) w

abbrev pub file_only : VfsNode → Result ℕ
file_only (file_node f) = done f
file_only (folder_node r) = error expected_file_got_folder

-- The test of `ws_remove_folder`, which names the same code.
abbrev pub removable_folder : VfsNode → Result FolderRef
removable_folder (file_node f) = error expected_file_got_folder
removable_folder (folder_node r) = done r

-- `ws_remove_file`
unfoldable pub ws_remove_file : CString → Act Workspace (Unit {0})
ws_remove_file path w =
    if w.safe_mode
    then fail invalid_safe_mode_op w
    else (lift (λ u. ws_resolve_path u path >>> file_only) >>= λ f. on_vfs (delete_vfs_file f)) w

-- `ws_remove_folder`
unfoldable pub ws_remove_folder : CString → (recursive : Bool) → Act Workspace (Unit {0})
ws_remove_folder path recursive w =
    if w.safe_mode
    then fail invalid_safe_mode_op w
    else (lift (λ u. ws_resolve_path u path >>> removable_folder) >>= λ r.
          on_vfs (delete_vfs_folder r recursive))
        w

-- The end of `ws_move_node`
unfoldable pub move_node : VfsNode → FolderRef → Act VfsEntryStore (Unit {0})
move_node (file_node f) p = move_file f p
move_node (folder_node r) p = move_folder r p

-- `ws_move_node`
unfoldable pub ws_move_node :
    (node_path target_new_parent_path : CString) → Act Workspace (Unit {0})
unfolding move_node
ws_move_node path target = do
  node ← lift (λ w. ws_resolve_path w path)
  p ← lift (λ w. ws_resolve_path w target >>> folder_only)
  on_vfs (on_entries (move_node node p))

-- The end of `ws_rename_node`
unfoldable pub rename_node : VfsNode → CString → Act VfsEntryStore (Unit {0})
rename_node (file_node f) name = rename_file f name.chars name.length
rename_node (folder_node r) name = rename_folder r name.chars name.length

-- `ws_rename_node`
unfoldable pub ws_rename_node : (target_node_path new_name : CString) → Act Workspace (Unit {0})
unfolding rename_node
ws_rename_node path name = do
  node ← lift (λ w. ws_resolve_path w path)
  on_vfs (on_entries (rename_node node name))
