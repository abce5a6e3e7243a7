-- ===== src/Cli/Help.antt =====
-- The help of the command line: cli/help.h and cli/help.c. A text that the source writes down stands
-- here as it is.
use Prim.Native.String.{String}
use virtual_file_system_c.Prelude.{ℕ, Bool, List, [], ◌∷◌, ◌==◌, if◌then◌else◌}
use virtual_file_system_c.Status.{
  Act, ◌>>=◌, lift, Result, done, error, ◌>>>◌, command_function_not_found,
}
use virtual_file_system_c.Commands.{
  CommandFunction, cmd_cd, cmd_pwd, cmd_ls, cmd_tree, cmd_touch, cmd_mkdir, cmd_rm, cmd_rmdir,
  cmd_mv, cmd_rename, cmd_find, cmd_df, cmd_du, cmd_stat, cmd_cat, cmd_read, cmd_append, cmd_clear,
  cmd_trunc, cmd_help, cmd_exit, resolve_cmd_function,
}
use virtual_file_system_c.Queries.{CString}
use virtual_file_system_c.Cli.{Printed, literal, Console, print}

-- The value of a `CommandFunction`, which `==` compares.
unfoldable pub func_value : CommandFunction → ℕ
func_value cmd_cd = 0
func_value cmd_pwd = 1
func_value cmd_ls = 2
func_value cmd_tree = 3
func_value cmd_touch = 4
func_value cmd_mkdir = 5
func_value cmd_rm = 6
func_value cmd_rmdir = 7
func_value cmd_mv = 8
func_value cmd_rename = 9
func_value cmd_find = 10
func_value cmd_df = 11
func_value cmd_du = 12
func_value cmd_stat = 13
func_value cmd_cat = 14
func_value cmd_read = 15
func_value cmd_append = 16
func_value cmd_clear = 17
func_value cmd_trunc = 18
func_value cmd_help = 19
func_value cmd_exit = 20

abbrev pub is_func : CommandFunction → CommandFunction → Bool
is_func f g = func_value f == func_value g

-- `HelpHint`
pub record HelpHint : Type 0 where
  pub func : CommandFunction
  pub name : String
  pub synopsis : String
  pub description : String

abbrev hint : CommandFunction → (name synopsis description : String) → HelpHint
hint f n s d = record { func = f; name = n; synopsis = s; description = d }

-- `HELP_HINTS_TABLE`
abbrev pub help_hints_table : List HelpHint
help_hints_table =
    hint cmd_cd "Change Directory" "cd [TARGET_DIRECTORY_PATH]" "Changes the current directory"
    ∷ hint cmd_pwd "Print Working Directory" "pwd"
        "Prints the path of the current working directory."
    ∷ hint cmd_ls "List Sub-Entries" "ls [optional: TARGET_DIRECTORY_PATH]"
        "If TARGET_DIRECTORY_PATH is not supplied the command lists the sub-entries of the Current Working Directory.\nIf TARGET_DIRECTORY_PATH is supplied the command lists the sub-entries of the directory located at TARGET_DIRECTORY_PATH."
    ∷ hint cmd_tree "Tree" "tree [optional: TARGET_DIRECTORY_PATH]"
        "If TARGET_DIRECTORY_PATH is not supplied the command lists the hierarchical structure of the entries under the current working directory.\nIf TARGET_DIRECTORY_PATH is supplied the command lists the hierarchical structure of the entries under directory located at TARGET_DIRECTORY_PATH."
    ∷ hint cmd_touch "Touch" "touch [FILE_NAME]"
        "Creates a sub file of the current working directory with name FILE_NAME."
    ∷ hint cmd_mkdir "Make Directory" "mkdir [DIRECTORY_NAME]"
        "Creates a sub directory of the current working directory with name DIRECTORY_NAME."
    ∷ hint cmd_rm "Remove" "rm [TARGET_FILE_PATH]" "Deletes the file located at TARGET_FILE_PATH."
    ∷ hint cmd_rmdir "Remove Directory" "rmdir [optional: -r] [TARGET_DIRECTORY_PATH]"
        "Removes the directory at TARGET_DIRECTORY_PATH.\nIf the directory has sub entries then it will not be removed unless \"-r\" the recursion option is supplied."
    ∷ hint cmd_mv "Move" "mv [SOURCE_PATH] [TARGET_PATH]"
        "Moves the entry at SOURCE_PATH to the directory at TARGET_PATH."
    ∷ hint cmd_rename "Rename" "rename [TARGET_ENTRY_PATH] [NEW_NAME]"
        "Changes the name of the entry located at TARGET_ENTRY_PATH to NEW_NAME."
    ∷ hint cmd_find "Find" "find [TARGET_NAME]"
        "Lists the paths of all the entries with the name TARGET_NAME."
    ∷ hint cmd_cat "Concatenate (Legacy)" "cat [TARGET_FILE_PATH]"
        "Prints all the contents of the file located at TARGET_FILE_PATH."
    ∷ hint cmd_read "Read" "read [TARGET_FILE_PATH] [OFFSET] [AMOUNT]"
        "Reads AMOUNT number of bytes from the file located at TARGET_FILE_PATH starting at the position OFFSET."
    ∷ hint cmd_append "Append" "append [TARGET_FILE_PATH]"
        "Starts a multiline prompt. Press CTRL + D to submit.\nWrites data submitted onto the end of the file located at TARGET_FILE_PATH."
    ∷ hint cmd_clear "Clear" "clear [TARGET_FILE_PATH]"
        "Deletes all the data stored in the file located at TARGET_FILE_PATH."
    ∷ hint cmd_trunc "Truncate" "trunc [TARGET_FILE_PATH] [AMOUNT]"
        "Removes AMOUNT number of bytes from the end of the file located at TARGET_FILE_PATH.\n*Note: As of now, Truncate removes storage bytes not logical bytes which means the empty bytes allocated at the end of a file count."
    ∷ hint cmd_help "help" "help [COMMAND_FUNCTION]" "(;"
    ∷ []

-- The loop of `get_command_function_help_hint`, over the hints that are left.
unfoldable pub find_hint : CommandFunction → List HelpHint → Result HelpHint
find_hint f [] = error command_function_not_found
find_hint f (h ∷ hs) = let rest = find_hint f hs in if is_func h.func f then done h else rest

-- `get_command_function_help_hint`
unfoldable pub get_command_function_help_hint : CommandFunction → Result HelpHint
unfolding find_hint
get_command_function_help_hint f = find_hint f help_hints_table

-- `print_help_hint_format`: what it prints.
unfoldable pub help_hint_format : HelpHint → List Printed
help_hint_format h =
    literal "Name\n   "
    ∷ literal h.name
    ∷ literal "\n\nSynopsis\n   "
    ∷ literal h.synopsis
    ∷ literal "\n\nDescription\n   "
    ∷ literal h.description
    ∷ literal "\n"
    ∷ []

-- `print_str_command_function_help_hint`
unfoldable pub print_str_command_function_help_hint :
    {T : Type 0} → CString → Act (Console T) (Unit {0})
unfolding get_command_function_help_hint help_hint_format
print_str_command_function_help_hint s =
    lift (λ _. resolve_cmd_function s.chars 0 >>> get_command_function_help_hint) >>= λ h.
    print (help_hint_format h)

-- The synopsis of each command.
unfoldable pub synopses : List HelpHint → List Printed
synopses [] = []
synopses (h ∷ hs) = literal h.synopsis ∷ literal "\n" ∷ synopses hs
