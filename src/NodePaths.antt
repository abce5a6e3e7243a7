-- ===== src/NodePaths.antt =====
-- The path of an entry: `get_node_path` and `get_parent_folders` of system/path_utils.c. The path is
-- the state, since what a call that fails has written to it stays.
pub mod Parents
use virtual_file_system_c.Prelude.{
  ℕ, zero, suc, ◌+◌, ◌-◌, ◌*◌, Bool, true, false, Option, none, some, List, [], ◌∷◌, ltb, ◌==◌,
  if◌then◌else◌, update,
}
use virtual_file_system_c.Settings.{max_name_length, max_path_nodes_amount, path_delimiter}
use virtual_file_system_c.Status.{
  Outcome, ok, fail, fault, Act, ◌>>=◌, ◌>>◌, Result, done, error, insufficient_array_passed,
  path_is_too_long,
}
use virtual_file_system_c.Files.{File, FolderRef}
use virtual_file_system_c.Folders.{
  Folder, VfsEntryStore, VfsNode, file_node, folder_node, folder_at, name_length,
}
use virtual_file_system_c.Paths.{append_node_name_to_path}

-- The loop of `get_parent_folders`, with the rounds left, `i`, and the folder at `i - 1`. The array of
-- its caller has MAX_PATH_NODES_AMOUNT - 1 places.
unfoldable pub parent_folders_loop : (rounds i : ℕ) → FolderRef → Act VfsEntryStore (List FolderRef)
parent_folders_loop zero i r s = fail path_is_too_long s
parent_folders_loop (suc k) i r s = elim ((folder_at s r).parent_folder) [
  | none ↦ fault
  | some p ↦ elim ((folder_at s p).is_root) [
    | true ↦ ok [] s
    | false ↦ elim (i == max_path_nodes_amount - 1) [
      | true ↦ fault
      | false ↦ elim (parent_folders_loop k (i + 1) p s) [
        | ok ps t ↦ ok (p ∷ ps) t
        | fail c t ↦ fail c t
        | fault ↦ fault
      ]
    ]
  ]
]

-- `get_parent_folders` from the parent of the node on
unfoldable pub parents_from : Option FolderRef → Act VfsEntryStore (List FolderRef)
unfolding parent_folders_loop
parents_from none s = fault
parents_from (some p) s = elim ((folder_at s p).is_root) [
  | true ↦ ok [] s
  | false ↦ elim (parent_folders_loop (max_path_nodes_amount - 1) 1 p s) [
    | ok ps t ↦ ok (p ∷ ps) t
    | fail c t ↦ fail c t
    | fault ↦ fault
  ]
]

-- `get_parent_folders`: the parents from the closest to the furthest, without the root.
unfoldable pub get_parent_folders : VfsNode → Act VfsEntryStore (List FolderRef)
unfolding parents_from
get_parent_folders (file_node f) s = parents_from (s.files f).parent_folder s
get_parent_folders (folder_node r) s = elim ((folder_at s r).is_root) [
  | true ↦ ok [] s
  | false ↦ parents_from (folder_at s r).parent_folder s
]

-- One call of `append_node_name_to_path`, at `cur_position_in_path`; the result is the position and
-- the bytes behind it.
unfoldable pub append_name :
    (name : ℕ → ℕ) (cur_position_in_path available_bytes_amount : ℕ) → Act (ℕ → ℕ) (ℕ × ℕ)
append_name name at available path =
    elim (append_node_name_to_path name (name_length name) path at available) [
      | error c ↦ fail c path
      | done out ↦ ok (at + (name_length name + 1), available - (name_length name + 1)) out
    ]

-- The loop of `get_node_path`, over the parents from the closest to the furthest: the furthest is
-- written first.
unfoldable pub append_parents :
    VfsEntryStore → List FolderRef → (path_length : ℕ) → Act (ℕ → ℕ) (ℕ × ℕ)
unfolding append_name
append_parents s [] length = λ path. ok (0, length) path
append_parents s (p ∷ ps) length =
    append_parents s ps length >>= λ (at, available). append_name (folder_at s p).name at available

-- The name of a node.
abbrev pub node_name : VfsEntryStore → VfsNode → ℕ → ℕ
node_name s (file_node f) = (s.files f).name
node_name s (folder_node r) = (folder_at s r).name

abbrev pub is_root_node : VfsEntryStore → VfsNode → Bool
is_root_node s (file_node f) = false
is_root_node s (folder_node r) = (folder_at s r).is_root

-- `get_node_path` behind `get_parent_folders`
unfoldable pub write_node_path :
    VfsEntryStore → VfsNode → (path_length : ℕ) → List FolderRef → Act (ℕ → ℕ) (Unit {0})
unfolding append_parents
write_node_path s node length parents = do
  (at, available) ← append_parents s parents length
  _ ← append_name (node_name s node) at available
  λ path. ok tt path

-- `root_path_init` of workspace/workspace.c, and the same in `get_node_path`
unfoldable pub root_path_init : (ℕ → ℕ) → ℕ → ℕ
root_path_init path = update (update path 0 path_delimiter) 1 0

-- `get_node_path`
unfoldable pub get_node_path : VfsEntryStore → VfsNode → (path_length : ℕ) → Act (ℕ → ℕ) (Unit {0})
unfolding get_parent_folders write_node_path root_path_init
get_node_path s node length path =
    if ltb length (max_path_nodes_amount * (max_name_length + 1) + 1)
    then fail insufficient_array_passed path
    else elim (is_root_node s node) [
      | true ↦ ok tt (root_path_init path)
      | false ↦ elim (get_parent_folders node s) [
        | ok parents t ↦ write_node_path s node length parents path
        | fail c t ↦ fail c path
        | fault ↦ fault
      ]
    ]
