-- ===== src/Commands/Words.antt =====
-- The words of a command, and the rounds of the loop of `cmd_tokenize` of cli/commands.c.
use virtual_file_system_c.Prelude.{
  ℕ, zero, suc, ◌+◌, ◌≤◌, ◌<◌, ◌≡◌, refl, ap, ◌∙◌, true, false, ◌&&◌, not, List, [], ◌∷◌, arith,
  leb, ◌==◌, if◌then◌else◌, update, inside, length,
}
use virtual_file_system_c.Status.{Result, done, error, too_many_tokens}
use virtual_file_system_c.Commands.{command_delimiter, Tokenized, tokenize_loop}

-- The positions at which a word starts directly behind a delimiter that stands at `i` or at one of
-- the `k` positions from there on.
unfoldable pub word_starts : (k i : ℕ) (str : ℕ → ℕ) → List ℕ
word_starts zero i str = []
word_starts (suc k) i str =
    let rest = word_starts k (i + 1) str in
    if str i == command_delimiter && not (str (i + 1) == command_delimiter)
    then (i + 1) ∷ rest
    else rest

-- The entries of an array from index `k` on.
abbrev pub Entries : (ℕ → ℕ) → ℕ → List ℕ → Type 0
Entries a k [] = Unit
Entries a k (x ∷ xs) = (a k ≡ x) × Entries a (k + 1) xs

-- What the loop gives at `i`, with `k` rounds left, for a command `str` in which the words behind
-- `i` start at `ws`.
pub data Split (capacity k i : ℕ) (t : Tokenized) (ws : List ℕ) (r : Result Tokenized)
    : Type 0 where
  split :
      (out : Tokenized)
      → t.tokens_length + length ws ≤ capacity
      → r ≡ done out
      → out.tokens_length ≡ t.tokens_length + length ws
      → Entries out.tokens t.tokens_length ws
      → ((j : ℕ) → j < t.tokens_length → out.tokens j ≡ t.tokens j)
      → ((j : ℕ)
          → out.command_str j
            ≡ (if inside i k j && t.command_str j == command_delimiter then 0 else t.command_str j))
      → Split capacity k i t ws r
  crowded :
      capacity < t.tokens_length + length ws → r ≡ error too_many_tokens → Split capacity k i t ws r

module _ (capacity k i : ℕ) (t : Tokenized) where
  pub step_char :
      (t.command_str i == command_delimiter) ≡ false
      → tokenize_loop capacity (suc (suc k)) i t ≡ tokenize_loop capacity (suc k) (i + 1) t
  unfolding tokenize_loop
  step_char h = rw (h, tokenize_loop)

  pub step_delimiters :
      (t.command_str i == command_delimiter) ≡ true
      → (t.command_str (i + 1) == command_delimiter) ≡ true
      → tokenize_loop capacity (suc (suc k)) i t
        ≡ tokenize_loop capacity
            (suc k)
            (i + 1)
            (record t { command_str = update t.command_str i 0 })
  unfolding tokenize_loop
  step_delimiters h h' = rw (h, h', tokenize_loop)

  pub step_full :
      (t.command_str i == command_delimiter) ≡ true
      → (t.command_str (i + 1) == command_delimiter) ≡ false
      → leb capacity t.tokens_length ≡ true
      → tokenize_loop capacity (suc (suc k)) i t ≡ error too_many_tokens
  unfolding tokenize_loop
  step_full h h' full = rw (h, h', full, tokenize_loop)

  abbrev pub pushed : Tokenized
  pushed = record {
    command_str = update t.command_str i 0;
    tokens = update t.tokens t.tokens_length (i + 1);
    tokens_length = t.tokens_length + 1;
  }

  pub step_word :
      (t.command_str i == command_delimiter) ≡ true
      → (t.command_str (i + 1) == command_delimiter) ≡ false
      → leb capacity t.tokens_length ≡ false
      → tokenize_loop capacity (suc (suc k)) i t ≡ tokenize_loop capacity (suc k) (i + 1) pushed
  unfolding tokenize_loop
  step_word h h' room = rw (h, h', room, tokenize_loop)

  -- A position where no word starts behind a delimiter.
  pub Split-char :
      {ws : List ℕ} {r r' : Result Tokenized}
      → (t.command_str i == command_delimiter) ≡ false
      → r ≡ r'
      → Split capacity k (i + 1) t ws r'
      → Split capacity (suc k) i t ws r
  Split-char h step (split out fits e size new old chars) =
      split out fits (step ∙ e) size new old (λ j. ground (arith, chars j, h))
  Split-char h step (crowded full e) = crowded full (step ∙ e)

  pub Split-delimiter :
      {ws : List ℕ} {r r' : Result Tokenized}
      → (t.command_str i == command_delimiter) ≡ true
      → r ≡ r'
      → Split capacity k (i + 1) (record t { command_str = update t.command_str i 0 }) ws r'
      → Split capacity (suc k) i t ws r
  Split-delimiter h step (split out fits e size new old chars) =
      split out fits (step ∙ e) size new old (λ j. ground (arith, chars j, h))
  Split-delimiter h step (crowded full e) = crowded full (step ∙ e)

  pub Split-word :
      {ws : List ℕ} {r r' : Result Tokenized}
      → (t.command_str i == command_delimiter) ≡ true
      → r ≡ r'
      → Split capacity k (i + 1) pushed ws r'
      → Split capacity (suc k) i t ((i + 1) ∷ ws) r
  Split-word h step (split out fits e size new old chars) =
      split out (omega (arith, fits)) (step ∙ e) (omega (arith, size))
        (old t.tokens_length (omega arith) ∙ ground arith, new)
        (λ j l. old j (omega arith) ∙ ground arith) (λ j. ground (arith, chars j, h))
  Split-word h step (crowded full e) = crowded (omega (arith, full)) (step ∙ e)

pub word_starts-update :
    (k i j : ℕ) (str : ℕ → ℕ) → i < j → word_starts k j (update str i 0) ≡ word_starts k j str
unfolding word_starts
word_starts-update zero i j str h = refl
word_starts-update (suc k) i j str h = ground (arith, word_starts-update k i (j + 1) str)

-- The steps of `word_starts`.
pub starts-none :
    (k i : ℕ) (str : ℕ → ℕ)
    → (str i == command_delimiter && not (str (i + 1) == command_delimiter)) ≡ false
    → word_starts (suc k) i str ≡ word_starts k (i + 1) str
unfolding word_starts
starts-none k i str h =
    ap (λ b. if b then (i + 1) ∷ word_starts k (i + 1) str else word_starts k (i + 1) str) h

pub starts-word :
    (k i : ℕ) (str : ℕ → ℕ)
    → (str i == command_delimiter && not (str (i + 1) == command_delimiter)) ≡ true
    → word_starts (suc k) i str ≡ (i + 1) ∷ word_starts k (i + 1) str
unfolding word_starts
starts-word k i str h =
    ap (λ b. if b then (i + 1) ∷ word_starts k (i + 1) str else word_starts k (i + 1) str) h

-- The last round.
module _ (capacity i : ℕ) (t : Tokenized) where
  pub last_char :
      (t.command_str i == command_delimiter) ≡ false
      → tokenize_loop capacity (suc zero) i t ≡ done t
  unfolding tokenize_loop
  last_char h =
      ap (λ b. if b then done (record t { command_str = update t.command_str i 0 }) else done t) h

  pub last_delimiter :
      (t.command_str i == command_delimiter) ≡ true
      → tokenize_loop capacity (suc zero) i t
        ≡ done (record t { command_str = update t.command_str i 0 })
  unfolding tokenize_loop
  last_delimiter h =
      ap (λ b. if b then done (record t { command_str = update t.command_str i 0 }) else done t) h
