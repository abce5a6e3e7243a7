-- ===== src/Workspace/Sound/Calls.antt =====
-- The calls of workspace/vfs_ops.c and workspace/file_io.c on a sound workspace.
use virtual_file_system_c.Prelude.{ℕ, ◌≡◌, Bool, true, inl, inr}
use virtual_file_system_c.Status.{Act, ◌>>=◌, lift, ◌>>>◌, invalid_safe_mode_op}
use virtual_file_system_c.Status.After.{After-lift_bind, Result-cases}
use virtual_file_system_c.Status.Keeps.{Leaves, Leaves-After}
use virtual_file_system_c.Files.{FolderRef}
use virtual_file_system_c.Folders.{VfsNode, file_node, folder_node}
use virtual_file_system_c.FileLogic.Append.{file_append}
use virtual_file_system_c.FileLogic.Delete.{file_delete_data}
use virtual_file_system_c.Entries.{Vfs, on_entries, on_file, delete_vfs_file, delete_vfs_folder}
use virtual_file_system_c.Entries.Calls.{
  Kept, Keeps, move_file-Keeps, move_folder-Keeps, vfs_sub_folder_init-Keeps, rename_file-Kept,
  rename_folder-Keeps, vfs_sub_file_init-Keeps, delete_vfs_file-Keeps, delete_vfs_folder-Keeps,
}
use virtual_file_system_c.Entries.Contents.{file_append-Keeps, file_delete_data-Keeps}
use virtual_file_system_c.Entries.Whole.{IsStore}
use virtual_file_system_c.Queries.{CString}
use virtual_file_system_c.Queries.Live.{IsLive}
use virtual_file_system_c.Tree.Valid.{shape}
use virtual_file_system_c.Workspace.{Workspace, on_vfs, ws_resolve_path, folder_only}
use virtual_file_system_c.Workspace.Ops.{
  ws_create_file, ws_create_folder, file_only, removable_folder, ws_remove_file, ws_remove_folder,
  move_node, ws_move_node, rename_node, ws_rename_node,
}
use virtual_file_system_c.Workspace.FileIo.{ws_file_append, ws_file_clear}
use virtual_file_system_c.Workspace.Sound.{
  IsSound, Soundly, ws_resolve_path-GivesLive, resolved_file, resolved_folder, on_vfs-Soundly,
  on_vfs-IsSound, unless_safe,
}

pub ws_create_file-Soundly :
    (name : CString) (w : Workspace) → IsSound w → Soundly (ws_create_file name w)
unfolding ws_create_file
ws_create_file-Soundly name w s =
    on_vfs-Soundly _ w s (vfs_sub_file_init-Keeps name.chars name.length w.cur_folder w.vfs s.store)

pub ws_create_folder-Soundly :
    (name : CString) (w : Workspace) → IsSound w → Soundly (ws_create_folder name w)
unfolding ws_create_folder
ws_create_folder-Soundly name w s =
    on_vfs-Soundly _ w s
      (vfs_sub_folder_init-Keeps name.chars name.length w.cur_folder w.vfs s.store)

pub ws_remove_file-Soundly :
    (path : CString) (w : Workspace) → IsSound w → Soundly (ws_remove_file path w)
unfolding ws_remove_file
ws_remove_file-Soundly path w s =
    let remove : Act Workspace (Unit {0}) =
      lift (λ u. ws_resolve_path u path >>> file_only) >>= λ f. on_vfs (delete_vfs_file f) in
    unless_safe w.safe_mode invalid_safe_mode_op w (remove w) s (
      After-lift_bind (λ u. ws_resolve_path u path >>> file_only) (λ f. on_vfs (delete_vfs_file f))
        (λ f e.
          on_vfs-Soundly _ w s (delete_vfs_file-Keeps f w.vfs s.store (resolved_file w path f s e)))
        (λ c e. s))

-- On a sound workspace, ws_remove_folder of any path, recursive or not, does not reach outside an
-- object, and leaves the workspace sound, whether it succeeds or fails.
pub ws_remove_folder-Soundly :
    (path : CString) (recursive : Bool) (w : Workspace)
    → IsSound w
    → Soundly (ws_remove_folder path recursive w)
unfolding ws_remove_folder
ws_remove_folder-Soundly path recursive w s =
    let remove : Act Workspace (Unit {0}) =
      lift (λ u. ws_resolve_path u path >>> removable_folder) >>= λ r.
      on_vfs (delete_vfs_folder r recursive) in
    unless_safe w.safe_mode invalid_safe_mode_op w (remove w) s (
      After-lift_bind (λ u. ws_resolve_path u path >>> removable_folder)
        (λ r. on_vfs (delete_vfs_folder r recursive))
        (λ r e. on_vfs-Soundly _ w s (delete_vfs_folder-Keeps r recursive w.vfs s.store))
        (λ c e. s))

-- On a sound workspace, ws_file_append of any path and any bytes does not reach outside an object,
-- and leaves the workspace sound, whether it succeeds or fails.
pub ws_file_append-Soundly :
    (path : CString) (bytes : ℕ → ℕ) (len : ℕ) (w : Workspace)
    → IsSound w
    → Soundly (ws_file_append path bytes len w)
unfolding ws_file_append
ws_file_append-Soundly path bytes len w s =
    After-lift_bind (λ u. ws_resolve_path u path >>> file_only)
      (λ f. on_vfs (on_file f (file_append bytes len)))
      (λ f e.
        on_vfs-Soundly _ w s
          (file_append-Keeps bytes len f w.vfs s.store (resolved_file w path f s e)))
      (λ c e. s)

pub ws_file_clear-Soundly :
    (path : CString) (w : Workspace) → IsSound w → Soundly (ws_file_clear path w)
unfolding ws_file_clear
ws_file_clear-Soundly path w s =
    After-lift_bind (λ u. ws_resolve_path u path >>> file_only)
      (λ f. on_vfs (on_file f file_delete_data))
      (λ f e.
        on_vfs-Soundly _ w s (file_delete_data-Keeps f w.vfs s.store (resolved_file w path f s e)))
      (λ c e. s)

move_node-Keeps :
    (n : VfsNode) (p : FolderRef) (v : Vfs)
    → IsStore v
    → IsLive v.entries n
    → (shape v.entries).home p ≡ true
    → Keeps v (on_entries (move_node n p) v)
unfolding move_node
move_node-Keeps (file_node f) p v s live h = move_file-Keeps f p v s live h
move_node-Keeps (folder_node r) p v s live h = move_folder-Keeps r p v s live h

rename_node-Kept :
    (n : VfsNode) (name : CString) (v : Vfs)
    → IsStore v
    → Leaves (Kept v) (on_entries (rename_node n name) v)
unfolding rename_node
rename_node-Kept (file_node f) name v s = rename_file-Kept f name.chars name.length v s
rename_node-Kept (folder_node r) name v s =
    Leaves-After _ (rename_folder-Keeps r name.chars name.length v s)

-- On a sound workspace, ws_move_node of any path to any target does not reach outside an object, and
-- leaves the workspace sound, whether it succeeds or fails.
pub ws_move_node-Soundly :
    (path target : CString) (w : Workspace) → IsSound w → Soundly (ws_move_node path target w)
unfolding ws_move_node
ws_move_node-Soundly path target w s =
    After-lift_bind (λ u. ws_resolve_path u path)
      (λ n. lift (λ u. ws_resolve_path u target >>> folder_only) >>= λ p.
        on_vfs (on_entries (move_node n p)))
      (λ n e.
        After-lift_bind (λ u. ws_resolve_path u target >>> folder_only)
          (λ p. on_vfs (on_entries (move_node n p)))
          (λ p h. on_vfs-Soundly _ w s (
            move_node-Keeps n p w.vfs s.store ((ws_resolve_path-GivesLive w path s).at n e)
              (resolved_folder w target p s h)))
          (λ c h. s))
      (λ c e. s)

pub ws_rename_node-IsSound :
    (path name : CString) (w : Workspace) → IsSound w → Leaves IsSound (ws_rename_node path name w)
unfolding ws_rename_node
ws_rename_node-IsSound path name w s = elim (Result-cases (ws_resolve_path w path)) [
  | inr (c, e) ↦ rw (e, ws_rename_node, lift, ◌>>=◌) s
  | inl (n, e) ↦
      rw (e, ws_rename_node, lift, ◌>>=◌)
        (on_vfs-IsSound _ w s (rename_node-Kept n name w.vfs s.store))
]
