-- ===== src/Cli/Listing.antt =====
-- The executors of cli/command_exec.c that print what the tree holds: `pwd`, `ls`, `find` and `tree`,
-- with `print_folder` of system/folders.c.
use virtual_file_system_c.Prelude.{
  ℕ, zero, suc, ◌+◌, ◌-◌, ◌*◌, ◌%◌, ◌&&◌, not, Option, none, some, List, [], ◌∷◌, ◌++◌, length, ltb,
  ◌==◌, if◌then◌else◌,
}
use virtual_file_system_c.Settings.{
  max_name_length, max_path_nodes_amount, max_sub_files_amount, max_sub_folders_amount,
}
use virtual_file_system_c.Status.{
  ok, fail, fault, Act, ◌>>=◌, ◌>>◌, lift, Result, done, error, ◌>>>◌, cmd_too_many_opts,
  recursive_operation_limit_exceeded,
}
use virtual_file_system_c.Files.{FolderRef}
use virtual_file_system_c.Folders.{VfsEntryStore, VfsNode, folder_at}
use virtual_file_system_c.Names.Text.{text}
use virtual_file_system_c.Queries.{CString}
use virtual_file_system_c.NodePaths.{get_node_path, node_name}
use virtual_file_system_c.Commands.{Command}
use virtual_file_system_c.Workspace.{
  Workspace, ws_resolve_path, folder_only, ws_get_sub_entries, ws_global_search_by_name,
}
use virtual_file_system_c.Cli.{
  Printed, chars, literal, Console, Line, arg, print, string, expect_args, expect_one_arg_at_most,
}

-- The size of `cur_path` and of `path_buffer`
abbrev pub path_size : ℕ
path_size = max_path_nodes_amount * (max_name_length + 1) + 1

abbrev pub sub_entries_printed_per_line : ℕ
sub_entries_printed_per_line = 7

abbrev pub sub_entry_padding_width : ℕ
sub_entry_padding_width = 7

abbrev pub sub_entry_spacing_width : ℕ
sub_entry_spacing_width = 3

abbrev pub queries_node_buffer_size : ℕ
queries_node_buffer_size = 50

-- `MAX_FOLDER_DEPTH`
abbrev pub max_folder_depth : ℕ
max_folder_depth = 10

abbrev pub spaces : ℕ → List ℕ
spaces zero = []
spaces (suc k) = b' ' ∷ spaces k

-- `print_entry_name_column`: what it prints.
abbrev pub entry_name_column : List ℕ → List Printed
entry_name_column name =
    chars (name ++ spaces (sub_entry_padding_width - length name))
    ∷ chars (spaces sub_entry_spacing_width)
    ∷ []

-- The loop of `cmd_ls_exec` over the nodes that are left, with `i`.
unfoldable pub entry_columns : VfsEntryStore → (i : ℕ) → List VfsNode → List Printed
entry_columns s i [] = []
entry_columns s i (node ∷ nodes) =
    let column = entry_name_column (text max_name_length 0 (node_name s node)) in
    let rest = entry_columns s (i + 1) nodes in
    if not (i == 0) && i % sub_entries_printed_per_line == 0
    then literal "\n" ∷ column ++ rest
    else column ++ rest

-- What `cmd_ls_exec` prints for the nodes in its buffer.
unfoldable pub listing : VfsEntryStore → List VfsNode → List Printed
unfolding entry_columns
listing s [] = []
listing s (node ∷ nodes) = entry_columns s 0 (node ∷ nodes) ++ (literal "\n" ∷ [])

-- The tests of `cmd_ls_exec`.
unfoldable pub expect_directory : Command → Result (Unit {0})
expect_directory cmd =
    if ltb 0 cmd.opts_amount
    then error cmd_too_many_opts
    else if ltb 1 cmd.args_amount
    then error cmd_too_many_opts
    else done tt

-- The path that `cmd_ls_exec` lists; NULL without an argument.
abbrev pub optional_arg : Line → Option CString
optional_arg line = if line.cmd.args_amount == 1 then some (arg line 0) else none

-- The indentation of `print_folder_recursion`, `step_count` times.
abbrev pub indentation : ℕ → List Printed
indentation zero = []
indentation (suc k) = literal "  " ∷ indentation k

-- The loop of `print_folder_recursion` over the files, with the rounds left and `i`.
unfoldable pub print_sub_files :
    VfsEntryStore → (ℕ → Option ℕ) → (rounds i step_count : ℕ) → List Printed
print_sub_files s sub_files zero i steps = []
print_sub_files s sub_files (suc k) i steps =
    let rest = print_sub_files s sub_files k (i + 1) steps in
    elim (sub_files i) [
      | none ↦ rest
      | some f ↦
          indentation steps
          ++ (chars (text max_name_length 0 (s.files f).name) ∷ literal "\n" ∷ rest)
    ]

-- What a call has printed whose status is not looked at; one that fails has printed nothing.
abbrev pub printed : Result (List Printed) → List Printed
printed (done out) = out
printed (error c) = []

-- The loop of `print_folder_recursion` over the folders, with the rounds left and `i`;
-- `print_sub_folder` is the recursive call.
unfoldable pub print_sub_folders :
    (print_sub_folder : FolderRef → Result (List Printed))
    → (ℕ → Option FolderRef)
    → (rounds i step_count : ℕ) → List Printed
print_sub_folders print_sub_folder sub_folders zero i steps = []
print_sub_folders print_sub_folder sub_folders (suc k) i steps =
    let rest = print_sub_folders print_sub_folder sub_folders k (i + 1) steps in
    elim (sub_folders i) [
      | none ↦ rest
      | some q ↦ indentation steps ++ printed (print_sub_folder q) ++ rest
    ]

-- `print_folder_recursion`, with the steps left until `step_count > MAX_FOLDER_DEPTH`.
unfoldable pub print_folder_recursion :
    VfsEntryStore → (steps_left step_count : ℕ) → FolderRef → Result (List Printed)
unfolding print_sub_files print_sub_folders
print_folder_recursion s zero steps r = error recursive_operation_limit_exceeded
print_folder_recursion s (suc k) steps r =
    let f = folder_at s r in
    done (
      chars (text max_name_length 0 f.name)
        ∷ literal "/\n"
        ∷ print_sub_files s f.sub_files max_sub_files_amount 0 (steps + 1)
      ++ print_sub_folders (print_folder_recursion s k (steps + 1)) f.sub_folders
          max_sub_folders_amount 0 (steps + 1))

-- `print_folder`
unfoldable pub print_folder : VfsEntryStore → FolderRef → Result (List Printed)
unfolding print_folder_recursion
print_folder s r = print_folder_recursion s (max_folder_depth + 1) 0 r

-- `target_folder` of `cmd_tree_exec`
unfoldable pub tree_folder : Line → Workspace → Result FolderRef
tree_folder line w =
    if line.cmd.args_amount == 0
    then done w.cur_folder
    else ws_resolve_path w (arg line 0) >>> folder_only

module _ {T : Type 0} where
  -- The loop of `cmd_find_exec` over the nodes that are left.
  unfoldable pub print_paths : List VfsNode → (path_buffer : ℕ → ℕ) → Act (Console T) (Unit {0})
  print_paths [] buffer c = ok tt c
  print_paths (node ∷ nodes) buffer c =
      elim (get_node_path c.workspace.vfs.entries node path_size buffer) [
        | ok u path ↦
            (print (string path_size path ∷ literal "\n" ∷ []) >> print_paths nodes path) c
        | fail e path ↦ fail e c
        | fault ↦ fault
      ]

  unfoldable pub cmd_pwd_exec : Line → Act (Console T) (Unit {0})
  cmd_pwd_exec line c = print (string path_size c.workspace.cur_path ∷ literal "\n" ∷ []) c

  unfoldable pub cmd_ls_exec : Line → Act (Console T) (Unit {0})
  unfolding expect_directory listing
  cmd_ls_exec line = do
    lift (λ _. expect_directory line.cmd)
    nodes ← lift (λ c.
        ws_get_sub_entries c.workspace (optional_arg line)
          (max_sub_files_amount + max_sub_folders_amount))
    λ c. print (listing c.workspace.vfs.entries nodes) c

  -- `path_buffer` is a local array, so it may hold anything before the first path.
  unfoldable pub cmd_find_exec : (path_buffer : ℕ → ℕ) → Line → Act (Console T) (Unit {0})
  unfolding expect_args print_paths
  cmd_find_exec buffer line = do
    lift (λ _. expect_args line.cmd 1)
    nodes ← lift (λ c. ws_global_search_by_name c.workspace (arg line 0) queries_node_buffer_size)
    print_paths nodes buffer

  unfoldable pub cmd_tree_exec : Line → Act (Console T) (Unit {0})
  unfolding expect_one_arg_at_most tree_folder print_folder
  cmd_tree_exec line = do
    lift (λ _. expect_one_arg_at_most line.cmd)
    out ← lift (λ c. tree_folder line c.workspace >>> λ r. print_folder c.workspace.vfs.entries r)
    print out
