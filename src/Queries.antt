-- ===== src/Queries.antt =====
-- Searches in the tree: system/queries.c.
pub mod Live
use virtual_file_system_c.Prelude.{
  ℕ, zero, suc, ◌+◌, ◌-◌, true, false, ◌||◌, Option, none, some, List, [], ◌∷◌, ◌++◌, length, ltb,
  leb, ◌==◌, if◌then◌else◌,
}
use virtual_file_system_c.Settings.{
  max_name_length, max_path_nodes_amount, max_sub_files_amount, max_sub_folders_amount,
  vfs_max_files_amount, vfs_max_folders_amount,
}
use virtual_file_system_c.Status.{
  Result, done, error, ◌>>>◌, invalid_argument, search_target_not_found, path_is_empty,
  data_over_flow, insufficient_array_passed, invalid_operation,
}
use virtual_file_system_c.Files.{FolderRef, slot}
use virtual_file_system_c.Names.{name_eq}
use virtual_file_system_c.Paths.{parse_path}
use virtual_file_system_c.Folders.{
  VfsEntryStore, VfsNode, file_node, folder_node, folder_at, name_length, search_names, file_names,
  folder_names,
}

-- A C string with its `strlen`.
pub record CString : Type 0 where
  pub chars : ℕ → ℕ
  pub length : ℕ

-- `search_sub_file`
unfoldable pub search_sub_file :
    VfsEntryStore → FolderRef → (target_file_name : ℕ → ℕ) (target_file_name_length : ℕ) → Result ℕ
search_sub_file s r name length =
    if length == 0 || ltb max_name_length length
    then error invalid_argument
    else elim (search_names max_sub_files_amount 0 (file_names s (folder_at s r)) name length) [
      | error c ↦ error c
      | done none ↦ error search_target_not_found
      | done (some i) ↦ elim ((folder_at s r).sub_files i) [
        | none ↦ error search_target_not_found
        | some f ↦ done f
      ]
    ]

-- `search_sub_folder`
unfoldable pub search_sub_folder :
    VfsEntryStore
    → FolderRef
    → (target_folder_name : ℕ → ℕ) (target_folder_name_length : ℕ) → Result FolderRef
search_sub_folder s r name length =
    if length == 0 || ltb max_name_length length
    then error invalid_argument
    else elim (search_names max_sub_folders_amount 0 (folder_names s (folder_at s r)) name length) [
      | error c ↦ error c
      | done none ↦ error search_target_not_found
      | done (some i) ↦ elim ((folder_at s r).sub_folders i) [
        | none ↦ error search_target_not_found
        | some q ↦ done q
      ]
    ]

-- `get_vfs_node` behind the search for a file.
unfoldable pub or_folder : Result ℕ → Result FolderRef → Result VfsNode
or_folder (done f) folder = done (file_node f)
or_folder (error search_target_not_found) (done q) = done (folder_node q)
or_folder (error search_target_not_found) (error c) = error c
or_folder (error c) folder = error c

-- `get_vfs_node`
unfoldable pub get_vfs_node :
    VfsEntryStore → (name : ℕ → ℕ) → (cur_folder : FolderRef) → Result VfsNode
unfolding or_folder
get_vfs_node s name r =
    or_folder (search_sub_file s r name (name_length name))
      (search_sub_folder s r name (name_length name))

-- The loop of `resolve_path` over the nodes before the last, with the rounds left and `i`.
unfoldable pub resolve_folders :
    VfsEntryStore
    → (node_names : ℕ → ℕ → ℕ) (rounds i : ℕ) → (cur_folder : FolderRef) → Result FolderRef
resolve_folders s names zero i r = done r
resolve_folders s names (suc k) i r =
    elim (search_sub_folder s r (names i) (name_length (names i))) [
      | error c ↦ error c
      | done q ↦ resolve_folders s names k (i + 1) q
    ]

-- `resolve_path` behind `parse_path`
unfoldable pub resolve_nodes :
    VfsEntryStore → FolderRef → (nodes_amount : ℕ) (node_names : ℕ → ℕ → ℕ) → Result VfsNode
unfolding resolve_folders
resolve_nodes s r amount names =
    if amount == 0
    then error path_is_empty
    else resolve_folders s names (amount - 1) 0 r >>> λ q. get_vfs_node s (names (amount - 1)) q

-- `resolve_path`. The array of names is a local one; each name that is read was written before.
unfoldable pub resolve_path : VfsEntryStore → CString → (root_folder : FolderRef) → Result VfsNode
unfolding resolve_nodes
resolve_path s path r =
    if path.length == 0
    then error path_is_empty
    else parse_path path.chars path.length max_name_length max_path_nodes_amount (λ _ _. 0)
      >>> λ (amount, names). resolve_nodes s r amount names

-- A loop of `global_search_nodes_by_name`, with the rounds left, `i` and `cur_node_index`. The name
-- of the entry at `i` is `none` if the position is free.
unfoldable pub collect_named :
    (node : ℕ → VfsNode) (entries : ℕ → Option (ℕ → ℕ)) (rounds i : ℕ) (name : ℕ → ℕ)
    → (length nodes_buffer_length cur_node_index : ℕ) → Result (List VfsNode)
collect_named node entries zero i name length room count = done []
collect_named node entries (suc k) i name length room count = elim (entries i) [
  | none ↦ collect_named node entries k (i + 1) name length room count
  | some entry ↦ elim (name_eq entry name length) [
    | error c ↦ error c
    | done false ↦ collect_named node entries k (i + 1) name length room count
    | done true ↦ elim (leb room count) [
      | true ↦ error data_over_flow
      | false ↦ collect_named node entries k (i + 1) name length room (count + 1) >>> λ nodes.
          done (node i ∷ nodes)
    ]
  ]
]

-- `global_search_nodes_by_name`: the nodes that it puts into the buffer.
unfoldable pub global_search_nodes_by_name :
    VfsEntryStore → (name : CString) (nodes_buffer_length : ℕ) → Result (List VfsNode)
unfolding collect_named
global_search_nodes_by_name s name room =
    if room == 0
    then error insufficient_array_passed
    else if name.length == 0
    then error invalid_operation
    else collect_named file_node
        (λ i. if s.files_allocation_map i then some ((s.files i).name) else none)
        vfs_max_files_amount 0 name.chars name.length room 0
      >>> λ files.
          collect_named (λ i. folder_node (slot i))
            (λ i. if s.folders_allocation_map i then some ((s.folders i).name) else none)
            vfs_max_folders_amount 0 name.chars name.length room (length files)
          >>> λ folders. done (files ++ folders)
