-- ===== src/Cli/Input/Reads.antt =====
-- What the reads of cli/input_handler.c take from the terminal.
use virtual_file_system_c.Prelude.{
  ℕ, zero, suc, ◌+◌, ◌≤◌, ◌<◌, ◌≡◌, ap, sym, ◌∙◌, arith, Option, some, List, [], ◌∷◌, ◌++◌, length,
  length-append,
}
use mathlib.Core.List.{flatten, append-nil, append_assoc}
use virtual_file_system_c.Status.{ok}
use virtual_file_system_c.Cli.Input.{
  take_next_line, multi_line_loop, multi_line_read, max_multi_line_input_lines_amount,
  max_multi_line_input_line_length,
}

module _ {T : Type 0} (read : (count : ℕ) → T → Option (List ℕ) × T) where
  -- Lines that are read one by one until the end of the input, each within the limit.
  pub data Reads : List (List ℕ) → T → T → Type 0 where
    at_end : {t u : T} → read (max_multi_line_input_line_length + 1) t ≡ (some [], u) → Reads [] t u
    next_line :
        {t u v : T} {line : List ℕ} {lines : List (List ℕ)}
        → read (max_multi_line_input_line_length + 1) t ≡ (some line, u)
        → 0 < length line
        → length line ≤ max_multi_line_input_line_length
        → Reads lines u v
        → Reads (line ∷ lines) t v

  taken :
      (size : ℕ) (before line : List ℕ) (u : T)
      → 0 < length line
      → length line ≤ max_multi_line_input_line_length
      → length before + length line < size
      → take_next_line read size before (some line, u) ≡ ok (some (before ++ line)) u
  unfolding take_next_line
  taken size before line u some_bytes short room = ground arith

  multi_line_loop_lem :
      (size k : ℕ) (before : List ℕ) (lines : List (List ℕ)) (t u : T)
      → Reads lines t u
      → length lines < k
      → length before + length (flatten lines) < size
      → multi_line_loop read size k before t ≡ ok (before ++ flatten lines) u
  unfolding multi_line_loop take_next_line flatten
  multi_line_loop_lem size zero before lines t u r h room = absurd (omega arith)
  multi_line_loop_lem size (suc k) before [] t u (at_end e) h room =
      rw (e, multi_line_loop) (ap (λ b. ok b u) (sym (append-nil before)))
  multi_line_loop_lem size (suc k) before (line ∷ lines) t u
        (next_line {u = v} e some_bytes short r) h room =
      let sum = length-append line (flatten lines) in
      let step = taken size before line v some_bytes short (omega (arith, sum)) in
      rw (e, step, multi_line_loop)
        (multi_line_loop_lem size k (before ++ line) lines v u r (omega arith)
            (omega (arith, sum, length-append before line))
          ∙ ap (λ b. ok b u) (append_assoc before line (flatten lines)))

  -- `multi_line_read` into a buffer of the size `size`, when fewer than MAX_MULTI_LINE_INPUT_LINES_AMOUNT
  -- lines are read before the end of the input, each of MAX_MULTI_LINE_INPUT_LINE_LENGTH bytes at
  -- most, whose bytes are fewer than `size`: it succeeds with the bytes of all lines in order.
  pub multi_line_read-Reads :
      (size : ℕ) (lines : List (List ℕ)) (t u : T)
      → Reads lines t u
      → length lines < max_multi_line_input_lines_amount
      → length (flatten lines) < size
      → multi_line_read read size t ≡ ok (flatten lines) u
  unfolding multi_line_read
  multi_line_read-Reads size lines t u r h room =
      multi_line_loop_lem size max_multi_line_input_lines_amount [] lines t u r h (omega arith)
