-- ===== src/Commands/Tokens.antt =====
-- The tokens of a command against `cmd_tokenize` of cli/commands.c.
use virtual_file_system_c.Prelude.{
  ℕ, zero, suc, ◌+◌, ◌-◌, ◌≤◌, ◌<◌, ◌≡◌, ◌≢◌, refl, inl, inr, arith, ◌==◌, update, Bool-cases,
  lt-cases, le→leb, lt→leb, pos→ne_zero, ne→==false,
}
use mathlib.Core.Path.{subst}
use virtual_file_system_c.Commands.{
  command_delimiter, Tokenized, tokenize_loop, tokenize_from, cmd_tokenize, skip_delimiters,
}
use virtual_file_system_c.Commands.Words.{
  word_starts, Split, split, crowded, step_char, step_delimiters, step_full, pushed, step_word,
  Split-char, Split-delimiter, Split-word, word_starts-update, starts-none, starts-word, last_char,
  last_delimiter,
}

-- The loop over the command finds the words behind the first.
tokenize_loop_lem :
    (capacity k i : ℕ) (t : Tokenized)
    → t.tokens_length ≤ capacity
    → Split capacity
        (suc k)
        i
        t
        (word_starts k i t.command_str)
        (tokenize_loop capacity (suc k) i t)
unfolding word_starts
tokenize_loop_lem capacity zero i t room =
    elim (Bool-cases (t.command_str i == command_delimiter)) [
      | inl h ↦
          split (record t { command_str = update t.command_str i 0 }) (omega arith)
            (last_delimiter capacity i t h) (omega arith) tt (λ j l. refl) (λ j. ground (arith, h))
      | inr h ↦
          split t (omega arith) (last_char capacity i t h) (omega arith) tt (λ j l. refl)
            (λ j. ground (arith, h))
    ]
tokenize_loop_lem capacity (suc k) i t room =
    elim (Bool-cases (t.command_str i == command_delimiter)) [
      | inr h ↦ rw (starts-none k i t.command_str (ground (arith, h))) (
          Split-char capacity (suc k) i t h (step_char capacity k i t h)
            (tokenize_loop_lem capacity k (i + 1) t room))
      | inl h ↦ elim (Bool-cases (t.command_str (i + 1) == command_delimiter)) [
        | inl h' ↦ rw (starts-none k i t.command_str (ground (arith, h, h'))) (
            rw (← word_starts-update k i (i + 1) t.command_str (omega arith)) (
              Split-delimiter capacity (suc k) i t h (step_delimiters capacity k i t h h') (
                tokenize_loop_lem capacity k (i + 1)
                  (record t { command_str = update t.command_str i 0 }) room)))
        | inr h' ↦ elim (lt-cases t.tokens_length capacity) [
          | inl some_room ↦ rw (starts-word k i t.command_str (ground (arith, h, h'))) (
              rw (← word_starts-update k i (i + 1) t.command_str (omega arith)) (
                Split-word capacity (suc k) i t h
                  (step_word capacity k i t h h' (lt→leb capacity t.tokens_length some_room))
                  (tokenize_loop_lem capacity k (i + 1) (pushed capacity k i t) (omega arith))))
          | inr full ↦ rw (starts-word k i t.command_str (ground (arith, h, h'))) (
              crowded (omega arith)
                (step_full capacity k i t h h' (le→leb capacity t.tokens_length full)))
        ]
      ]
    ]

skip_delimiters_lem :
    (k i first : ℕ) (str : ℕ → ℕ)
    → i ≤ first
    → first < i + k
    → ((j : ℕ) → i ≤ j → j < first → str j ≡ command_delimiter)
    → str first ≢ command_delimiter
    → skip_delimiters k i str ≡ first
unfolding skip_delimiters
skip_delimiters_lem zero i first str lo hi before word = absurd (omega arith)
skip_delimiters_lem (suc k) i first str lo hi before word = elim (lt-cases i first) [
  | inl lt ↦ ground (
    arith,
    before i (omega arith) lt,
    skip_delimiters_lem k (i + 1) first str (omega arith) (omega arith)
        (λ j l h. before j (omega arith) h) word,
  )
  | inr here ↦ ground (arith, word)
]

reaches_loop :
    (str : ℕ → ℕ) (command_length : ℕ) (tokens : ℕ → ℕ) (capacity first : ℕ)
    → 0 < capacity
    → first < command_length
    → ((j : ℕ) → j < first → str j ≡ command_delimiter)
    → str first ≢ command_delimiter
    → cmd_tokenize str command_length tokens capacity
      ≡ tokenize_loop capacity
          (command_length - first)
          first
          (record { command_str = str; tokens = update tokens 0 first; tokens_length = 1 })
unfolding cmd_tokenize tokenize_from
reaches_loop str command_length tokens capacity first some_token inner before word = rw (
  pos→ne_zero capacity some_token,
  pos→ne_zero command_length (omega arith),
  skip_delimiters_lem command_length 0 first str (omega arith) (omega arith) (λ j l h. before j h)
      word,
  ne→==false first command_length (λ e. omega (arith, e)),
)

-- `cmd_tokenize` of a command whose first word starts at `first`, into an array for at least one
-- token: with room for all words, the array holds `first` and then the start of each word behind
-- it, in order, and every delimiter from `first` on is a null; else the code is TOO_MANY_TOKENS.
pub cmd_tokenize-Split :
    (str : ℕ → ℕ) (command_length : ℕ) (tokens : ℕ → ℕ) (capacity first : ℕ)
    → 0 < capacity
    → first < command_length
    → ((j : ℕ) → j < first → str j ≡ command_delimiter)
    → str first ≢ command_delimiter
    → Split capacity
        (command_length - first)
        first
        (record { command_str = str; tokens = update tokens 0 first; tokens_length = 1 })
        (word_starts (command_length - first - 1) first str)
        (cmd_tokenize str command_length tokens capacity)
cmd_tokenize-Split str command_length tokens capacity first some_token inner before word =
    rw (reaches_loop str command_length tokens capacity first some_token inner before word) (
      subst
        (λ k.
          Split capacity k first
            (record { command_str = str; tokens = update tokens 0 first; tokens_length = 1 })
            (word_starts (command_length - first - 1) first str)
            (tokenize_loop capacity k first
              (record { command_str = str; tokens = update tokens 0 first; tokens_length = 1 })))
        (omega arith)
        (tokenize_loop_lem capacity (command_length - first - 1) first
          (record { command_str = str; tokens = update tokens 0 first; tokens_length = 1 })
          (omega arith)))
