-- ===== src/Lib.antt =====
-- A model of a virtual file system: a tree of 50 files and 50 folders at most, whose data lives in
-- one array of 500 chunks of 8 bytes.
--
-- The parts, from the bottom up:
-- Settings, Status: the limits of system/include/settings.h and the codes of status.h. An
--   operation on a state is an `Act`: SUCCESS with its output parameters and the state behind it
--   (`ok`), another code and the state behind it (`fail`), or an access outside an object, which C
--   leaves undefined (`fault`). An operation that only reads is a `Result`. After speaks of what an
--   operation leaves without a fault, Keeps of what it leaves if there is none.
-- Storage: system/storage.c. `StorageMan` is the structure of that name: the byte array is a
--   function from offsets, the allocation map one from chunk positions. challoc, chfree, chwrite,
--   chread and chtrunc keep their names. Its child modules count free chunks (Counting), state the
--   invariant (Valid), and take the allocator (FirstRun, Alloc) and the chunk accesses (Chunks).
-- Files: system/files.c and system/include/files.h.
-- FileStorage: system/file_storage.c, which lets a file touch its own chunks only. `Disk` is the
--   file and the manager that the pointers of a call lead to; a pointer to an extent is its index
--   in the array of the file. Owned lists the chunks of a file in the order of its data, Valid
--   states the invariant `IsDisk`, Placed and Allocate take file_allocate_chunks, and FreeChunks,
--   Release and Free take file_free_chunk_extent, and Start a file that file_init has set up.
-- FileLogic: system/file_logic.c, which hides chunks behind positions in a file: Index
--   (get_chunk_index), Read (file_read_at), Append (file_append), Delete (file_truncate_by and
--   file_delete_data), RoundTrip.
-- Names: the names of entries, from system/folders.c: Text (set_entry_name,
--   name_eq) and Chars (name_chars_are_valid). A `char *` is the memory behind it; `name_fits` says
--   that a write of a name stays inside an array, and `EndsWithin` that a name ends there.
-- Paths: paths as arrays of chars, from system/path_utils.c: Node (parse_node), Nodes
--   (parse_path), Ends (append_node_name_to_path and truncate_path).
-- Commands: the tokenizer and the parser of cli/commands.c; Words and Tokens take
--   cmd_tokenize, Bounds the arrays of a parsed command.
-- Folders: the tree of system/folders.c over the arrays of system/include/vfs_entry_store.h. A
--   `File *` is the index of the file in the store, and a `Folder *` a `FolderRef`: the root or an
--   index. Links holds sub_file_init, sub_folder_init, unlink_sub_file and unlink_sub_folder, and
--   Linking what they leave; Validate holds validate_sub_entry_name, Named the search for a name
--   and Unique which names are accepted.
-- Entries: system/vfs_entry_store.c. `Vfs` is the store and the storage manager, which the
--   deletions are given. Fresh takes vfs_entry_store_init, Create the new entries, Delete and
--   Remove the deletion of a folder without entries and of a file. Sound states the invariant
--   `IsVfs` on the tree, the files and their chunks together; Prune and Recursive take
--   delete_children_recursive and delete_vfs_folder. Frame says that calls on the tree do not touch
--   the data of files, and Untouched what follows; Made says what a new file is. Whole states the
--   invariant `IsStore` with the manager, OneFile takes calls on the data of one file, and Calls and
--   Contents the calls of the layers above.
-- Queries: system/queries.c: the searches in a folder and in the store, and resolve_path, which
--   Live takes.
-- Relocation: system/entry_relocation.c: renaming and moving. Cycles takes
--   validate_no_cyclic_move, Moves the two moves, and Renames the array behind the name of a file,
--   which rename_file can leave (`name_fits`): that is a `fault`.
-- Tree: what is seen of a store through its pointers (`Shape` in Valid), which of these are trees
--   (`IsTree`: Linked for the two pointers of an entry, Rooted for the way to the root, Acyclic),
--   and the moves of a tree (`Step` in Steps, with Files, Grow and Move behind it). A folder is
--   settled (Settled) if it is in use, or empty and without a parent, as the one that the workspace
--   is in. Seen, Marks and Store say which assignment of the code is which change of the shape,
--   Places what the searches find.
-- NodePaths: get_node_path and get_parent_folders of system/path_utils.c; Parents takes the latter.
-- Workspace: workspace/workspace.c and workspace/navigation.c, with Ops for workspace/vfs_ops.c and
--   FileIo for workspace/file_io.c. `Workspace` holds what the pointers of the structure lead to.
--   Sound states its invariant `IsSound`, Sound/Calls takes the calls and Sound/Places the folder
--   that the workspace is in and the start.
-- Cli: the command line. `Console` is the workspace, the terminal and what has been printed, `Line`
--   a parsed command with the buffer that its arguments point into. Input holds cli/input_handler.c
--   (Reads: the lines of a multi-line input; Finite: input that ends), Numbers strtol as it is
--   called there, Help cli/help.h and cli/help.c, and Exec, Listing and FileExec the executors of
--   cli/command_exec.c, Listing with print_folder of system/folders.c. Dispatch holds
--   cli/command_dispatcher.c, with its tables against a case distinction in Cases; Effects says
--   what commands leave as it is, and Effects/Sound takes the invariant of the workspace. Runtime
--   holds cli/cli_runtime.c and main.c, and Runtime/Ends the end of a session.
-- Reach: the stores that calls of the operations make out of a new one.
-- Tests: runs on concrete inputs, and an instance of each theorem that has hypotheses (Witnesses,
--   Texts, EntryNames, Trees, Recursion, Console, Sound).
--
-- Numbers are natural numbers. A size_t that the code adds to or subtracts from wraps at 2^64 where
-- the sum or the difference can leave its range (`add_size`, `sub_size`). NULL checks of pointers
-- that a caller cannot leave out here are left out. Loops are recursions on the number of rounds
-- that are left; file_delete_data runs on a fuel of 21, one more than its ten deletions and ten
-- steps, and its theorem says that this is enough. The recursions of the code that carry a depth,
-- delete_children_recursive and validate_no_cyclic_move, run on the calls that the code allows: 11
-- and 10. The loop of a session runs on a number of rounds; one more than there are bytes to read
-- is enough.
--
-- Not modelled: the printers that nothing calls, free(), and the tests. `read` of the operating
-- system is a parameter of the reads, and whether malloc gives memory an argument. Of a call that
-- fails, what it has written to an output buffer of its caller is kept only where the caller reads
-- it.
pub mod Prelude
pub mod Settings
pub mod Status
pub mod Storage
pub mod Files
pub mod FileStorage
pub mod FileLogic
pub mod Names
pub mod Paths
pub mod Commands
pub mod Entries
pub mod Folders
pub mod Queries
pub mod Relocation
pub mod Tree
pub mod Reach
pub mod NodePaths
pub mod Workspace
pub mod Cli
pub mod Tests
