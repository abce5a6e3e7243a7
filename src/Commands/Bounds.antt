-- ===== src/Commands/Bounds.antt =====
-- The arrays that `cmd_parse` of cli/commands.c fills.
use virtual_file_system_c.Prelude.{
  ℕ, zero, suc, ◌+◌, ◌-◌, ◌≤◌, ◌≡◌, refl, inl, inr, arith, update, lt-cases,
}
use virtual_file_system_c.Status.{Result, done, error}
use virtual_file_system_c.Commands.{
  Command, CommandFunction, Tokenized, max_cmd_argument_amount, max_cmd_option_amount,
  max_tokens_amount, parse_tokens, parse_tokenized, cmd_parse, cmd_tokenize, resolve_cmd_function,
}

-- The counts stay in the arrays.
abbrev pub InArrays : Command → Type 0
InArrays c = (c.opts_amount ≤ max_cmd_option_amount) × (c.args_amount ≤ max_cmd_argument_amount)

parse_tokens-InArrays :
    (str tokens : ℕ → ℕ) (k i : ℕ) (c : Command) {d : Command}
    → InArrays c
    → parse_tokens str tokens k i c ≡ done d
    → InArrays d × (d.opts_amount + d.args_amount ≡ c.opts_amount + c.args_amount + k)
unfolding parse_tokens
parse_tokens-InArrays str tokens zero i c {d} h e = ground (arith, h)
parse_tokens-InArrays str tokens (suc k) i c {d} h e = ground (
  arith,
  h,
  parse_tokens-InArrays str tokens k (i + 1)
      (record c {
        opts = update c.opts c.opts_amount (str (tokens i + 1));
        opts_amount = c.opts_amount + 1;
      })
      {d = d},
  parse_tokens-InArrays str tokens k (i + 1)
      (record c { args = update c.args c.args_amount (tokens i); args_amount = c.args_amount + 1 })
      {d = d},
)

parse_tokenized-InArrays :
    (c : Command) (t : Tokenized) {d : Command}
    → parse_tokenized c t ≡ done d
    → InArrays d × (d.opts_amount + d.args_amount + 1 ≡ t.tokens_length)
unfolding parse_tokenized
parse_tokenized-InArrays c t {d} e = elim (lt-cases 0 t.tokens_length) [
  | inr none_there ↦ absurd (ground arith)
  | inl some_token ↦ by_function (resolve_cmd_function t.command_str (t.tokens 0)) refl
]
  where
    by_function :
        (r : Result CommandFunction)
        → resolve_cmd_function t.command_str (t.tokens 0) ≡ r
        → InArrays d × (d.opts_amount + d.args_amount + 1 ≡ t.tokens_length)
    by_function (error c') h = absurd (ground (arith, h))
    by_function (done f) h = ground (
      arith,
      h,
      parse_tokens-InArrays t.command_str t.tokens (t.tokens_length - 1) 1
          (record c { func = f; opts_amount = 0; args_amount = 0 }) {d = d},
    )

-- When `cmd_parse` succeeds, the options and arguments that it has counted fit their arrays, and with
-- the function they are all the tokens that `cmd_tokenize` has found.
pub cmd_parse-InArrays :
    (str : ℕ → ℕ) (command_length : ℕ) (tokens : ℕ → ℕ) (c : Command) {d : Command}
    → cmd_parse str command_length tokens c ≡ done d
    → InArrays d
      × (t : Tokenized) × (cmd_tokenize str command_length tokens max_tokens_amount ≡ done t)
      × (d.opts_amount + d.args_amount + 1 ≡ t.tokens_length)
unfolding cmd_parse
cmd_parse-InArrays str command_length tokens c {d} e =
    by_tokens (cmd_tokenize str command_length tokens max_tokens_amount) refl
  where
    by_tokens :
        (r : Result Tokenized)
        → cmd_tokenize str command_length tokens max_tokens_amount ≡ r
        → InArrays d
          × (t : Tokenized) × (cmd_tokenize str command_length tokens max_tokens_amount ≡ done t)
          × (d.opts_amount + d.args_amount + 1 ≡ t.tokens_length)
    by_tokens (error c') h = absurd (ground (arith, h))
    by_tokens (done t) h =
        let (bounds, total) = parse_tokenized-InArrays c t {d = d} (ground (arith, h)) in
        (bounds, t, h, total)
