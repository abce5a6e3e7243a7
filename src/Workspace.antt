-- ===== src/Workspace.antt =====
-- The workspace: workspace/workspace.c and workspace/navigation.c. Its children take
-- workspace/vfs_ops.c (Ops) and workspace/file_io.c (FileIo).
pub mod Ops
pub mod FileIo
pub mod Sound
use virtual_file_system_c.Prelude.{
  ℕ, zero, suc, ◌+◌, ◌-◌, ◌*◌, Bool, true, false, ◌&&◌, Option, none, some, List, [], ◌∷◌, ◌++◌,
  length, leb, ◌==◌, if◌then◌else◌,
}
use virtual_file_system_c.Settings.{
  max_name_length, max_path_nodes_amount, max_sub_files_amount, max_sub_folders_amount,
  path_delimiter,
}
use virtual_file_system_c.Status.{
  StatusCode, Outcome, ok, fail, fault, Act, ◌>>=◌, ◌>>◌, lift, raise, Result, done, error, ◌>>>◌,
  invalid_root_operation, expected_folder_got_file, data_over_flow,
}
use virtual_file_system_c.Storage.{StorageMan}
use virtual_file_system_c.Files.{FolderRef, root}
use virtual_file_system_c.Folders.{
  Folder, VfsEntryStore, VfsNode, file_node, folder_node, folder_at, starts_with,
}
use virtual_file_system_c.Entries.{Vfs}
use virtual_file_system_c.Queries.{CString, resolve_path, global_search_nodes_by_name}
use virtual_file_system_c.NodePaths.{get_node_path, root_path_init}

-- `Workspace`, with the entry store and the storage manager that it points to.
pub record Workspace : Type 0 where
  pub safe_mode : Bool
  pub cur_folder : FolderRef
  pub vfs : Vfs
  pub cur_path : ℕ → ℕ

-- A call that works on the entry store and the storage manager.
unfoldable pub on_vfs : {A : Type 0} → Act Vfs A → Act Workspace A
on_vfs act w = elim (act w.vfs) [
  | ok a v ↦ ok a (record w { vfs = v })
  | fail c v ↦ fail c (record w { vfs = v })
  | fault ↦ fault
]

-- `workspace_init`
unfoldable pub workspace_init : VfsEntryStore → StorageMan → Workspace → Workspace
unfolding root_path_init
workspace_init entry_store storage_man out = record {
  safe_mode = false;
  cur_folder = root;
  vfs = record { entries = entry_store; man = storage_man };
  cur_path = root_path_init out.cur_path;
}

-- `path++; path_length--;`
abbrev pub skip_char : CString → CString
skip_char path = record { chars = λ i. path.chars (i + 1); length = path.length - 1 }

-- `ws_resolve_path`
unfoldable pub ws_resolve_path : Workspace → CString → Result VfsNode
ws_resolve_path w path =
    if path.length == 0
    then done (folder_node root)
    else if path.chars 0 == path_delimiter
    then (if path.length == 1
        then done (folder_node root)
        else resolve_path w.vfs.entries (skip_char path) root)
    else resolve_path w.vfs.entries path w.cur_folder

-- `BACK_TO_PARENT_OPERATOR`
abbrev pub back_to_parent_operator : List ℕ
back_to_parent_operator = b'.' ∷ b'.' ∷ []

-- `get_node_path` of a node into `cur_path`, and then the folder.
unfoldable pub enter_folder : FolderRef → Act Workspace (Unit {0})
enter_folder r w =
    elim (get_node_path w.vfs.entries (folder_node r)
      (max_path_nodes_amount * (max_name_length + 1) + 1) w.cur_path) [
        | ok u path ↦ ok tt (record w { cur_folder = r; cur_path = path })
        | fail c path ↦ fail c (record w { cur_path = path })
        | fault ↦ fault
      ]

-- The branch of `ws_change_cur_folder` for `..`
unfoldable pub enter_parent : Act Workspace (Unit {0})
unfolding enter_folder
enter_parent w =
    if (folder_at w.vfs.entries w.cur_folder).is_root
    then fail invalid_root_operation w
    else elim ((folder_at w.vfs.entries w.cur_folder).parent_folder) [
      | none ↦ fault
      | some p ↦ enter_folder p w
    ]

abbrev pub folder_only : VfsNode → Result FolderRef
folder_only (file_node f) = error expected_folder_got_file
folder_only (folder_node r) = done r

-- `ws_change_cur_folder`
unfoldable pub ws_change_cur_folder : CString → Act Workspace (Unit {0})
unfolding ws_resolve_path enter_parent
ws_change_cur_folder path w =
    if path.length == 2 && starts_with path.chars 0 back_to_parent_operator
    then enter_parent w
    else (lift (λ u. ws_resolve_path u path >>> folder_only) >>= enter_folder) w

-- A loop of `ws_get_sub_entries`, with the rounds left, `i` and `*out_nodes_amount`.
unfoldable pub collect_entries :
    (entries : ℕ → Option VfsNode) (rounds i node_buffer_length nodes_amount : ℕ)
    → Result (List VfsNode)
collect_entries entries zero i room count = done []
collect_entries entries (suc k) i room count = elim (entries i) [
  | none ↦ collect_entries entries k (i + 1) room count
  | some node ↦ elim (leb room count) [
    | true ↦ error data_over_flow
    | false ↦ collect_entries entries k (i + 1) room (count + 1) >>> λ nodes. done (node ∷ nodes)
  ]
]

abbrev pub file_nodes : Folder → ℕ → Option VfsNode
file_nodes f i = elim (f.sub_files i) [ none ↦ none | some g ↦ some (file_node g) ]

abbrev pub folder_nodes : Folder → ℕ → Option VfsNode
folder_nodes f i = elim (f.sub_folders i) [ none ↦ none | some q ↦ some (folder_node q) ]

-- `ws_get_sub_entries` of the target folder
unfoldable pub sub_entries_of : Folder → (node_buffer_length : ℕ) → Result (List VfsNode)
unfolding collect_entries
sub_entries_of f room = collect_entries (file_nodes f) max_sub_files_amount 0 room 0 >>> λ files.
    collect_entries (folder_nodes f) max_sub_folders_amount 0 room (length files) >>> λ folders.
    done (files ++ folders)

-- `ws_get_sub_entries`: the nodes that it puts into the buffer. The path may be NULL.
unfoldable pub ws_get_sub_entries :
    Workspace → Option CString → (node_buffer_length : ℕ) → Result (List VfsNode)
unfolding ws_resolve_path sub_entries_of
ws_get_sub_entries w none room = sub_entries_of (folder_at w.vfs.entries w.cur_folder) room
ws_get_sub_entries w (some path) room =
    ws_resolve_path w path >>> folder_only >>> λ r. sub_entries_of (folder_at w.vfs.entries r) room

-- `ws_global_search_by_name`
unfoldable pub ws_global_search_by_name :
    Workspace → (name : CString) (nodes_buffer_length : ℕ) → Result (List VfsNode)
ws_global_search_by_name w name room = global_search_nodes_by_name w.vfs.entries name room
