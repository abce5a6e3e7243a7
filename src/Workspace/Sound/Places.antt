-- ===== src/Workspace/Sound/Places.antt =====
-- The folder that the workspace is in: `ws_change_cur_folder` of workspace/navigation.c, and the
-- start.
use virtual_file_system_c.Prelude.{
  ℕ, ◌≡◌, inl, inr, Bool, ◌&&◌, some, arith, ◌==◌, Bool-cases, Option-cases, sym, none_not, ◌∙◌,
  ◌*◌, ◌+◌,
}
use virtual_file_system_c.Settings.{max_name_length, max_path_nodes_amount}
use virtual_file_system_c.Status.{◌>>=◌, lift, done, ◌>>>◌}
use virtual_file_system_c.Status.After.{Result-cases}
use virtual_file_system_c.Status.Keeps.{Leaves, Outcome-cases}
use virtual_file_system_c.Files.{FolderRef}
use virtual_file_system_c.Folders.{VfsEntryStore, folder_node, folder_at, starts_with}
use virtual_file_system_c.Entries.Calls.{}
use virtual_file_system_c.NodePaths.{get_node_path}
use virtual_file_system_c.Queries.{CString}
use virtual_file_system_c.Tree.Grow.{IsTree-parent}
use virtual_file_system_c.Tree.Settled.{IsSettled}
use virtual_file_system_c.Tree.Valid.{shape}
use virtual_file_system_c.Workspace.{
  Workspace, ws_resolve_path, folder_only, enter_folder, enter_parent, back_to_parent_operator,
  ws_change_cur_folder,
}
use virtual_file_system_c.Workspace.Ops.{}
use virtual_file_system_c.Workspace.Sound.{IsSound, resolved_folder}
use virtual_file_system_c.Storage.{StorageMan, storage_man_create}
use virtual_file_system_c.Storage.Valid.{IsValid, storage_man_create-IsValid}
use virtual_file_system_c.Entries.{vfs_entry_store_init}
use virtual_file_system_c.Entries.Fresh.{vfs_entry_store_init-IsTree}
use virtual_file_system_c.Entries.Prune.{Slots}
use virtual_file_system_c.Workspace.{workspace_init}

enter_folder-IsSound :
    (r : FolderRef) (w : Workspace)
    → IsSound w
    → IsSettled (shape w.vfs.entries) r
    → Leaves IsSound (enter_folder r w)
unfolding enter_folder
enter_folder-IsSound r w s h =
    elim (Outcome-cases (
      get_node_path w.vfs.entries (folder_node r)
        (max_path_nodes_amount * (max_name_length + 1) + 1) w.cur_path)) [
          | inl (u, path, e) ↦ rw (e, Leaves) (record { store = s.store; settled = h })
          | inr (inl (c, path, e)) ↦
              rw (e, Leaves) (record { store = s.store; settled = s.settled })
          | inr (inr e) ↦ rw (e, Leaves) tt
        ]

parent-IsSettled :
    (w : Workspace) (p : FolderRef)
    → IsSound w
    → (folder_at w.vfs.entries w.cur_folder).parent_folder ≡ some p
    → IsSettled (shape w.vfs.entries) p
parent-IsSettled w p s e = elim s.settled [
  | inl h ↦ let (_, used, _, _) = IsTree-parent w.cur_folder p s.store.sound.tree h e in inl used
  | inr (_, _, gone) ↦ absurd (none_not (sym gone ∙ e))
]

enter_parent-IsSound : (w : Workspace) → IsSound w → Leaves IsSound (enter_parent w)
unfolding enter_parent
enter_parent-IsSound w s = elim (Bool-cases (folder_at w.vfs.entries w.cur_folder).is_root) [
  | inl top ↦ rw (top, enter_parent) s
  | inr other ↦ elim (Option-cases ((folder_at w.vfs.entries w.cur_folder).parent_folder)) [
    | inl e ↦ rw (other, e, enter_parent) tt
    | inr (p, e) ↦
        rw (other, e, enter_parent) (enter_folder-IsSound p w s (parent-IsSettled w p s e))
  ]
]

go_to-IsSound :
    (path : CString) (w : Workspace)
    → IsSound w
    → Leaves IsSound ((lift (λ u. ws_resolve_path u path >>> folder_only) >>= enter_folder) w)
go_to-IsSound path w s = elim (Result-cases (ws_resolve_path w path >>> folder_only)) [
  | inl (r, e) ↦
      rw (e, lift, ◌>>=◌) (enter_folder-IsSound r w s (inl (resolved_folder w path r s e)))
  | inr (c, e) ↦ rw (e, lift, ◌>>=◌) s
]

pub ws_change_cur_folder-IsSound :
    (path : CString) (w : Workspace) → IsSound w → Leaves IsSound (ws_change_cur_folder path w)
unfolding ws_change_cur_folder
ws_change_cur_folder-IsSound path w s =
    elim (Bool-cases (path.length == 2 && starts_with path.chars 0 back_to_parent_operator)) [
      | inl up ↦ rw (up, ws_change_cur_folder) (enter_parent-IsSound w s)
      | inr down ↦ rw (down, ws_change_cur_folder) (go_to-IsSound path w s)
    ]

pub workspace_init_valid-IsSound :
    (store : VfsEntryStore) (m : StorageMan) (out : Workspace)
    → Slots store
    → IsValid m
    → IsSound (workspace_init (vfs_entry_store_init store) m out)
unfolding workspace_init vfs_entry_store_init
workspace_init_valid-IsSound store m out ten valid =
    let (tree, no_file, _, _) = vfs_entry_store_init-IsTree store in
    record {
      store = record {
        sound = record {
          tree = tree;
          disks = λ f e. absurd (ground (arith, no_file f, e));
          apart = λ f g c e. absurd (ground (arith, no_file f, e));
        };
        man_valid = valid;
        slots = ten;
        named = λ f e. absurd (ground (arith, no_file f, e));
      };
      settled = inl tree.top_home;
    }

-- A workspace is sound at the start: storage_man_create with memory for both arrays succeeds, and
-- workspace_init with this manager and a new store, where each file has all its extents, gives a
-- sound workspace.
pub workspace_init-IsSound :
    (storage : ℕ → ℕ) (map : ℕ → Bool) (store : VfsEntryStore) (out : Workspace)
    → Slots store
    → (m : StorageMan) × (storage_man_create (some storage) (some map) ≡ done m)
      × IsSound (workspace_init (vfs_entry_store_init store) m out)
workspace_init-IsSound storage map store out ten =
    let (m, made, valid, _, _) = storage_man_create-IsValid storage map in
    (m, made, workspace_init_valid-IsSound store m out ten valid)
