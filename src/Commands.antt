-- ===== src/Commands.antt =====
-- The command line: `cmd_tokenize`, `resolve_cmd_function` and `cmd_parse` of cli/commands.c. A
-- command is the memory behind `command_str`, with its `strlen`; a token, which is a pointer to its
-- first char, is an index of that memory. What a call that fails has left behind is not kept.
pub mod Bounds
pub mod Tokens
pub mod Words
use virtual_file_system_c.Prelude.{
  ℕ, zero, suc, ◌+◌, ◌-◌, Bool, true, false, List, [], ◌∷◌, ltb, leb, ◌==◌, if◌then◌else◌, update,
}
use virtual_file_system_c.Status.{
  StatusCode, Result, done, error, insufficient_array_passed, cmd_is_empty, cmd_is_too_long,
  too_many_tokens, too_many_options, too_many_arguments, invalid_cmd_opt, invalid_cmd_function,
}

abbrev pub command_delimiter : ℕ
command_delimiter = b' '

abbrev pub option_prefix : ℕ
option_prefix = b'-'

abbrev pub max_cmd_argument_amount : ℕ
max_cmd_argument_amount = 3

abbrev pub max_cmd_option_amount : ℕ
max_cmd_option_amount = 1

-- `MAX_COMMAND_LENGTH`, 3 * 32 * 10 + 1
abbrev pub max_command_length : ℕ
max_command_length = 961

-- `MAX_TOKENS_AMOUNT`
abbrev pub max_tokens_amount : ℕ
max_tokens_amount = 5

-- `CommandFunction`
pub data CommandFunction : Type 0 where
  cmd_cd cmd_pwd cmd_ls cmd_tree : CommandFunction
  cmd_touch cmd_mkdir cmd_rm cmd_rmdir cmd_mv cmd_rename : CommandFunction
  cmd_find : CommandFunction
  cmd_df cmd_du cmd_stat : CommandFunction
  cmd_cat cmd_read cmd_append cmd_clear cmd_trunc : CommandFunction
  cmd_help cmd_exit : CommandFunction

-- `Command`
pub record Command : Type 0 where
  pub func : CommandFunction
  pub opts_amount : ℕ
  pub args_amount : ℕ
  pub opts : ℕ → ℕ
  pub args : ℕ → ℕ

-- What a call of `cmd_tokenize` leaves in `command_str`, `out_tokens` and `out_tokens_length`.
pub record Tokenized : Type 0 where
  pub command_str : ℕ → ℕ
  pub tokens : ℕ → ℕ
  pub tokens_length : ℕ

-- The first loop of `cmd_tokenize`, with the rounds left: the index of the first char that is no
-- delimiter, or the length.
unfoldable pub skip_delimiters : (rounds cur_char_index : ℕ) (command_str : ℕ → ℕ) → ℕ
skip_delimiters zero i str = i
skip_delimiters (suc k) i str =
    let next = skip_delimiters k (i + 1) str in if str i == command_delimiter then next else i

-- The second loop, with the rounds left and `cur_char_index`. `cur_token_index` is always
-- `*out_tokens_length`.
unfoldable pub tokenize_loop :
    (tokens_capacity rounds cur_char_index : ℕ) → Tokenized → Result Tokenized
tokenize_loop capacity zero i t = done t
tokenize_loop capacity (suc zero) i t =
    if t.command_str i == command_delimiter
    then done (record t { command_str = update t.command_str i 0 })
    else done t
tokenize_loop capacity (suc (suc k)) i t = elim (t.command_str i == command_delimiter) [
  | false ↦ tokenize_loop capacity (suc k) (i + 1) t
  | true ↦ elim (t.command_str (i + 1) == command_delimiter) [
    | true ↦
        tokenize_loop capacity (suc k) (i + 1) (record t { command_str = update t.command_str i 0 })
    | false ↦ elim (leb capacity t.tokens_length) [
      | true ↦ error too_many_tokens
      | false ↦ tokenize_loop capacity (suc k) (i + 1) (record {
        command_str = update t.command_str i 0;
        tokens = update t.tokens t.tokens_length (i + 1);
        tokens_length = t.tokens_length + 1;
      })
    ]
  ]
]

-- `cmd_tokenize` from the first token on, which stands at `first`; `tokens` is the array that is
-- passed.
unfoldable pub tokenize_from :
    (command_str : ℕ → ℕ) (command_length : ℕ) (tokens : ℕ → ℕ) (tokens_capacity first : ℕ)
    → Result Tokenized
unfolding tokenize_loop
tokenize_from str length tokens capacity first =
    if first == length
    then error cmd_is_empty
    else tokenize_loop capacity (length - first) first
        (record { command_str = str; tokens = update tokens 0 first; tokens_length = 1 })

-- `cmd_tokenize`
unfoldable pub cmd_tokenize :
    (command_str : ℕ → ℕ) (command_length : ℕ) (tokens : ℕ → ℕ) (tokens_capacity : ℕ)
    → Result Tokenized
unfolding skip_delimiters tokenize_from
cmd_tokenize str length tokens capacity =
    if capacity == 0
    then error insufficient_array_passed
    else if length == 0
    then error cmd_is_empty
    else tokenize_from str length tokens capacity (skip_delimiters length 0 str)

-- `strcmp(...) == 0` with a literal: its chars, and the null behind them.
unfoldable pub str_is : (str : ℕ → ℕ) (i : ℕ) (literal : List ℕ) → Bool
str_is str i [] = str i == 0
str_is str i (c ∷ cs) = let rest = str_is str (i + 1) cs in if str i == c then rest else false

-- `CommandEntry`
pub record CommandEntry : Type 0 where
  pub func : CommandFunction
  pub func_str : List ℕ

abbrev entry : CommandFunction → List ℕ → CommandEntry
entry f s = record { func = f; func_str = s }

-- `COMMAND_TABLE`
abbrev pub command_table : List CommandEntry
command_table =
    entry cmd_cd (b'c' ∷ b'd' ∷ [])
    ∷ entry cmd_pwd (b'p' ∷ b'w' ∷ b'd' ∷ [])
    ∷ entry cmd_ls (b'l' ∷ b's' ∷ [])
    ∷ entry cmd_tree (b't' ∷ b'r' ∷ b'e' ∷ b'e' ∷ [])
    ∷ entry cmd_touch (b't' ∷ b'o' ∷ b'u' ∷ b'c' ∷ b'h' ∷ [])
    ∷ entry cmd_mkdir (b'm' ∷ b'k' ∷ b'd' ∷ b'i' ∷ b'r' ∷ [])
    ∷ entry cmd_rm (b'r' ∷ b'm' ∷ [])
    ∷ entry cmd_rmdir (b'r' ∷ b'm' ∷ b'd' ∷ b'i' ∷ b'r' ∷ [])
    ∷ entry cmd_mv (b'm' ∷ b'v' ∷ [])
    ∷ entry cmd_rename (b'r' ∷ b'e' ∷ b'n' ∷ b'a' ∷ b'm' ∷ b'e' ∷ [])
    ∷ entry cmd_find (b'f' ∷ b'i' ∷ b'n' ∷ b'd' ∷ [])
    ∷ entry cmd_df (b'd' ∷ b'f' ∷ [])
    ∷ entry cmd_du (b'd' ∷ b'u' ∷ [])
    ∷ entry cmd_stat (b's' ∷ b't' ∷ b'a' ∷ b't' ∷ [])
    ∷ entry cmd_cat (b'c' ∷ b'a' ∷ b't' ∷ [])
    ∷ entry cmd_read (b'r' ∷ b'e' ∷ b'a' ∷ b'd' ∷ [])
    ∷ entry cmd_append (b'a' ∷ b'p' ∷ b'p' ∷ b'e' ∷ b'n' ∷ b'd' ∷ [])
    ∷ entry cmd_clear (b'c' ∷ b'l' ∷ b'e' ∷ b'a' ∷ b'r' ∷ [])
    ∷ entry cmd_trunc (b't' ∷ b'r' ∷ b'u' ∷ b'n' ∷ b'c' ∷ [])
    ∷ entry cmd_help (b'h' ∷ b'e' ∷ b'l' ∷ b'p' ∷ [])
    ∷ entry cmd_exit (b'e' ∷ b'x' ∷ b'i' ∷ b't' ∷ [])
    ∷ []

-- The loop of `resolve_cmd_function`, over the entries that are left.
unfoldable pub resolve_loop : (str : ℕ → ℕ) (i : ℕ) → List CommandEntry → Result CommandFunction
unfolding str_is
resolve_loop str i [] = error invalid_cmd_function
resolve_loop str i (e ∷ es) =
    let rest = resolve_loop str i es in if str_is str i e.func_str then done e.func else rest

-- `resolve_cmd_function`, for the string at `i`.
unfoldable pub resolve_cmd_function : (str : ℕ → ℕ) (i : ℕ) → Result CommandFunction
unfolding resolve_loop
resolve_cmd_function str i =
    if str i == 0 then error cmd_is_empty else resolve_loop str i command_table

-- The loop of `cmd_parse` over the tokens, with the rounds left and `cur_token_index`.
unfoldable pub parse_tokens :
    (str tokens : ℕ → ℕ) (rounds cur_token_index : ℕ) → Command → Result Command
parse_tokens str tokens zero i c = done c
parse_tokens str tokens (suc k) i c = elim (str (tokens i) == option_prefix) [
  | true ↦ elim (c.opts_amount == max_cmd_option_amount) [
    | true ↦ error too_many_options
    | false ↦ elim (str (tokens i + 1) == 0) [
      | true ↦ error invalid_cmd_opt
      | false ↦ elim (str (tokens i + 2) == 0) [
        | false ↦ error invalid_cmd_opt
        | true ↦ parse_tokens str tokens k (i + 1) (record c {
          opts = update c.opts c.opts_amount (str (tokens i + 1));
          opts_amount = c.opts_amount + 1;
        })
      ]
    ]
  ]
  | false ↦ elim (c.args_amount == max_cmd_argument_amount) [
    | true ↦ error too_many_arguments
    | false ↦ parse_tokens str tokens k (i + 1) (record c {
      args = update c.args c.args_amount (tokens i);
      args_amount = c.args_amount + 1;
    })
  ]
]

-- `cmd_parse` behind `cmd_tokenize`; `c` is `out_command` as it is passed.
unfoldable pub parse_tokenized : Command → Tokenized → Result Command
unfolding resolve_cmd_function parse_tokens
parse_tokenized c t =
    if t.tokens_length == 0
    then error cmd_is_empty
    else elim (resolve_cmd_function t.command_str (t.tokens 0)) [
      | error e ↦ error e
      | done f ↦
          parse_tokens t.command_str t.tokens (t.tokens_length - 1) 1
            (record c { func = f; opts_amount = 0; args_amount = 0 })
    ]

-- `cmd_parse`. The array of tokens is a local one, so it may hold anything.
unfoldable pub cmd_parse :
    (command_str : ℕ → ℕ) (command_length : ℕ) (tokens : ℕ → ℕ) → Command → Result Command
unfolding cmd_tokenize parse_tokenized
cmd_parse str length tokens c =
    if length == 0
    then error cmd_is_empty
    else if ltb max_command_length length
    then error cmd_is_too_long
    else elim (cmd_tokenize str length tokens max_tokens_amount) [
      | error e ↦ error e
      | done t ↦ parse_tokenized c t
    ]
