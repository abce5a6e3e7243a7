-- ===== src/Tests/Texts.antt =====
-- The theorems on names, paths and commands, each at an input where its hypotheses hold.
use virtual_file_system_c.Prelude.{
  ◌≢◌, [], ◌∷◌, inside, update, ℕ, ◌+◌, ◌<◌, ◌≡◌, refl, ◌↔◌, true, List, arith, if◌then◌else◌, ◌==◌,
}
use virtual_file_system_c.Status.{done}
use virtual_file_system_c.Storage.{}
use virtual_file_system_c.Storage.Alloc.{}
use virtual_file_system_c.Storage.Chunks.{}
use virtual_file_system_c.FileStorage.{}
use virtual_file_system_c.Names.{name_eq, set_entry_name}
use virtual_file_system_c.Names.Text.{text, name_eq-set_entry_name}
use virtual_file_system_c.Paths.{parse_path, append_node_name_to_path, truncate_path}
use virtual_file_system_c.Paths.Nodes.{Parsed, IsPath, parse_path-Parsed}
use virtual_file_system_c.Paths.Ends.{truncate_path-append_node_name_to_path}
use virtual_file_system_c.Commands.{cmd_tokenize}
use virtual_file_system_c.Commands.Words.{Split, word_starts}
use virtual_file_system_c.Commands.Tokens.{cmd_tokenize-Split}
use virtual_file_system_c.Names.{name_chars_are_valid}
use virtual_file_system_c.Names.Chars.{IsNameChar, name_chars_are_valid-IsNameChar}
use virtual_file_system_c.Commands.{
  Command, Tokenized, cmd_cd, cmd_pwd, cmd_parse, max_tokens_amount, tokenize_loop, skip_delimiters,
  resolve_cmd_function, str_is, parse_tokens,
}
use virtual_file_system_c.Commands.Bounds.{InArrays, cmd_parse-InArrays}

name_eq-set_entry_name_example :
    (name_eq (set_entry_name (λ i. i + 1) 3 (λ _. 9)) (λ i. i + 2) 4 ≡ done true)
    ↔ (text 3 0 (λ i. i + 1) ≡ text 4 0 (λ i. i + 2))
name_eq-set_entry_name_example =
    name_eq-set_entry_name (λ i. i + 1) 3 (λ _. 9) (λ i. i + 2) 4 (omega arith)

-- "aa/a"
abbrev short_path : ℕ → ℕ
short_path i = if i == 2 then b'/' else b'a'

abbrev short_nodes : List (List ℕ)
short_nodes = (b'a' ∷ b'a' ∷ []) ∷ (b'a' ∷ []) ∷ []

short_path-IsPath : IsPath short_path 0 4 short_nodes
short_path-IsPath = (
  omega arith,
  omega arith,
  (refl, ground arith, (refl, ground arith, tt)),
  refl,
  (omega arith, omega arith, (refl, ground arith, tt), refl, omega arith),
)

parse_path-Parsed_example :
    Parsed 32 10 0 (λ _ _. 0) short_nodes (parse_path short_path 4 32 10 (λ _ _. 0))
parse_path-Parsed_example =
    parse_path-Parsed short_path 4 32 10 (λ _ _. 0) short_nodes (omega arith) (omega arith)
      (omega arith) short_path-IsPath

abbrev letters : ℕ → ℕ
letters i = b'a'

truncate_path-append_node_name_to_path_example :
    (out : ℕ → ℕ) × (append_node_name_to_path letters 3 (λ _. 0) 2 9 ≡ done out)
    × (out 2 ≡ b'/')
    × ((i : ℕ) → i < 3 → out (3 + i) ≡ letters i)
    × (out 6 ≡ 0)
    × ((j : ℕ) → truncate_path 6 out j ≡ (if inside 2 5 j then 0 else 0))
truncate_path-append_node_name_to_path_example =
    truncate_path-append_node_name_to_path letters 3 (λ _. 0) 2 9 (omega arith) plain
  where
    plain : (i : ℕ) → i < 3 → letters i ≢ b'/'
    plain i h = ground arith

-- "aa aa"
abbrev two_words : ℕ → ℕ
two_words i = if i == 2 then b' ' else b'a'

cmd_tokenize-Split_example :
    Split 5 5 0
      (record { command_str = two_words; tokens = update (λ _. 0) 0 0; tokens_length = 1 })
      (word_starts 4 0 two_words)
      (cmd_tokenize two_words 5 (λ _. 0) 5)
cmd_tokenize-Split_example =
    cmd_tokenize-Split two_words 5 (λ _. 0) 5 0 (omega arith) (omega arith) no_delimiter
      (ground arith)
  where
    no_delimiter : (j : ℕ) → j < 0 → two_words j ≡ b' '
    no_delimiter j h = absurd (omega arith)

name_chars_are_valid-IsNameChar_example :
    (name_chars_are_valid 5 0 two_words ≡ true) ↔ ((j : ℕ) → j < 5 → IsNameChar (two_words j))
name_chars_are_valid-IsNameChar_example = name_chars_are_valid-IsNameChar two_words 5

-- "pwd"
abbrev pwd : ℕ → ℕ
pwd i = if i == 0 then b'p' else if i == 1 then b'w' else if i == 2 then b'd' else 0

abbrev blank_command : Command
blank_command = record {
  func = cmd_cd;
  opts_amount = 7;
  args_amount = 7;
  opts = λ _. 0;
  args = λ _. 0;
}

pwd_parses :
    cmd_parse pwd 3 (λ _. 0) blank_command
    ≡ done
        (record { func = cmd_pwd; opts_amount = 0; args_amount = 0; opts = λ _. 0; args = λ _. 0 })
unfolding cmd_parse cmd_tokenize tokenize_loop skip_delimiters resolve_cmd_function str_is
    parse_tokens
pwd_parses = refl

cmd_parse-InArrays_example :
    InArrays
      (record { func = cmd_pwd; opts_amount = 0; args_amount = 0; opts = λ _. 0; args = λ _. 0 })
    × (t : Tokenized) × (cmd_tokenize pwd 3 (λ _. 0) max_tokens_amount ≡ done t)
    × (1 ≡ t.tokens_length)
cmd_parse-InArrays_example = cmd_parse-InArrays pwd 3 (λ _. 0) blank_command pwd_parses
