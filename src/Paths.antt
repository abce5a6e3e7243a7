-- ===== src/Paths.antt =====
-- Paths as arrays of chars: `parse_path`, `parse_node`, `append_node_name_to_path` and
-- `truncate_path` of system/path_utils.c. A `char *` is the memory behind it, and a pointer into an
-- array is its index. What a function that fails has left in its output arrays is not kept, since no
-- caller reads it.
pub mod Ends
pub mod Node
pub mod Nodes
use virtual_file_system_c.Prelude.{
  ℕ, zero, suc, ◌+◌, ◌-◌, Bool, true, false, ◌||◌, ltb, leb, ◌==◌, if◌then◌else◌, update, copy,
}
use virtual_file_system_c.Settings.{path_delimiter}
use virtual_file_system_c.Status.{
  StatusCode, Result, done, error, identifier_is_too_long, path_is_too_long, path_is_empty,
  invalid_argument, data_over_flow,
}

-- `*cur_path_char >= path_upper_lim || **cur_path_char == PATH_DELIMITER`
abbrev pub node_ends : (path : ℕ → ℕ) (path_length cur_path_char : ℕ) → Bool
node_ends path path_length cur_path_char =
    leb path_length cur_path_char || path cur_path_char == path_delimiter

-- `parse_node`: the loop, with the chars that the buffer has room for besides the null, the indices
-- `cur_path_char` and `i` of the next char of the buffer; the result is the former at the end, and
-- the buffer.
unfoldable pub parse_node_loop :
    (path : ℕ → ℕ) (path_length room cur_path_char i : ℕ) (buffer : ℕ → ℕ) → Result (ℕ × (ℕ → ℕ))
parse_node_loop path path_length zero cur_path_char i buffer =
    elim (node_ends path path_length cur_path_char) [
      | true ↦ done (cur_path_char, update buffer i 0)
      | false ↦ error identifier_is_too_long
    ]
parse_node_loop path path_length (suc k) cur_path_char i buffer =
    elim (node_ends path path_length cur_path_char) [
      | true ↦ done (cur_path_char, update buffer i 0)
      | false ↦
          parse_node_loop path path_length k (cur_path_char + 1) (i + 1)
            (update buffer i (path cur_path_char))
    ]

-- `parse_node`, for a buffer of at least one char.
unfoldable pub parse_node :
    (path : ℕ → ℕ) (path_length cur_path_char node_name_buffer_length : ℕ)
    → (buffer : ℕ → ℕ) → Result (ℕ × (ℕ → ℕ))
unfolding parse_node_loop
parse_node path path_length cur_path_char node_name_buffer_length buffer =
    parse_node_loop path path_length (node_name_buffer_length - 1) cur_path_char 0 buffer

-- The loop of `parse_path`, with the names that the array has room for, `cur_path_char`, and
-- `out_nodes_amount`, which is also the index of `cur_node`.
unfoldable pub parse_path_loop :
    (path : ℕ → ℕ) (path_length node_name_buffer_length room cur_path_char nodes_amount : ℕ)
    → (names : ℕ → ℕ → ℕ) → Result (ℕ × (ℕ → ℕ → ℕ))
parse_path_loop path path_length buffer_length zero cur_path_char nodes_amount names =
    if leb path_length cur_path_char then done (nodes_amount, names) else error path_is_too_long
parse_path_loop path path_length buffer_length (suc k) cur_path_char nodes_amount names =
    elim (leb path_length cur_path_char) [
      | true ↦ done (nodes_amount, names)
      | false ↦
          elim (parse_node path path_length cur_path_char buffer_length (names nodes_amount)) [
            | done (end, name) ↦
                parse_path_loop path path_length buffer_length k (end + 1) (nodes_amount + 1)
                  (update names nodes_amount name)
            | error c ↦ error c
          ]
    ]

-- `parse_path`: the number of nodes, and the array of their names.
unfoldable pub parse_path :
    (path : ℕ → ℕ) (path_length node_name_buffer_length node_names_array_length : ℕ)
    → (names : ℕ → ℕ → ℕ) → Result (ℕ × (ℕ → ℕ → ℕ))
unfolding parse_path_loop
parse_path path path_length buffer_length array_length names =
    if buffer_length == 0 || array_length == 0
    then error invalid_argument
    else if path_length == 0
    then error path_is_empty
    else parse_path_loop path path_length buffer_length array_length 0 0 names

-- `append_node_name_to_path`, for a name of `strlen` `node_name_length`; `at` is the index of
-- `path_end` in the path.
unfoldable pub append_node_name_to_path :
    (node_name : ℕ → ℕ) (node_name_length : ℕ) (path : ℕ → ℕ) (at available_bytes_amount : ℕ)
    → Result (ℕ → ℕ)
append_node_name_to_path node_name node_name_length path at available_bytes_amount =
    if available_bytes_amount == 0
    then error data_over_flow
    else if ltb available_bytes_amount (node_name_length + 1)
    then error data_over_flow
    else done (
        update (copy (update path at path_delimiter) (at + 1) node_name 0 node_name_length)
          (at + node_name_length + 1) 0)

-- `truncate_path`: the loop, with `cur_char` one more than its index.
unfoldable pub truncate_path : (path_string_length : ℕ) → (path : ℕ → ℕ) → ℕ → ℕ
truncate_path zero path = path
truncate_path (suc cur_char) path =
    let rest = truncate_path cur_char (update path cur_char 0) in
    if path cur_char == path_delimiter then update path cur_char 0 else rest
