-- ===== src/Cli/Input/Finite.antt =====
-- Input that ends, against the reads of cli/input_handler.c.
use virtual_file_system_c.Prelude.{
  ℕ, zero, suc, ◌+◌, ◌-◌, ◌≤◌, ◌<◌, ◌≡◌, refl, inl, inr, arith, Option, none, some, List, [],
  length, ltb, ◌==◌, Bool-cases, pos→ne_zero,
}
use virtual_file_system_c.Status.{
  StatusCode, Outcome, ok, read_error, attempted_to_read_at_eof, input_buffer_over_flow,
}
use virtual_file_system_c.Status.After.{After, succeeds, fails, After-mono, After-bind_outcome}
use virtual_file_system_c.Cli.Input.{
  take_line, new_line_terminated_read, take_next_line, multi_line_loop, multi_line_read,
  max_multi_line_input_lines_amount, max_multi_line_input_line_length,
}

-- The codes with which the read of a command may fail.
pub data IsReadFailure : StatusCode → Type 0 where
  of_read : IsReadFailure read_error
  of_end : IsReadFailure attempted_to_read_at_eof
  of_length : IsReadFailure input_buffer_over_flow

-- Input that ends: `rest t` bytes at most are still to be read in the state `t`, and each read takes
-- those that it gives.
pub record Ends {T : Type 0} (read : (count : ℕ) → T → Option (List ℕ) × T) (rest : T → ℕ)
    : Type 0 where
  pub takes :
      (n : ℕ) (t u : T) (bytes : List ℕ)
      → read n t ≡ (some bytes, u)
      → rest u + length bytes ≤ rest t
  pub gives_none : (n : ℕ) (t u : T) → read n t ≡ (none, u) → rest u ≤ rest t

module _ {T : Type 0} (read : (count : ℕ) → T → Option (List ℕ) × T) (rest : T → ℕ)
    (ends : Ends read rest) where
  -- A call that reads no more bytes than there are.
  abbrev pub NoMore : {A : Type 0} → T → Outcome T A → Type 0
  NoMore t = After (λ a u. rest u ≤ rest t) (λ e u. rest u ≤ rest t)

  take_line_lem :
      (size n : ℕ) (t : T) (x : Option (List ℕ) × T)
      → read n t ≡ x
      → After (λ buffer u. rest u < rest t) (λ e u. IsReadFailure e) (take_line read size x)
  unfolding take_line
  take_line_lem size n t (none, u) e = fails of_read
  take_line_lem size n t (some bytes, u) e = elim (Bool-cases (length bytes == 0)) [
    | inl f ↦ rw (f, take_line) (fails of_end)
    | inr f ↦ elim (Bool-cases (length bytes == size)) [
      | inl g ↦ rw (f, g, take_line) (fails of_length)
      | inr g ↦ rw (f, g, take_line) (succeeds (ground (arith, f, ends.takes n t u bytes e)))
    ]
  ]

  pub new_line_terminated_read-Finite :
      (size : ℕ) (t : T)
      → 0 < size
      → After
          (λ buffer u. rest u < rest t)
          (λ e u. IsReadFailure e)
          (new_line_terminated_read read size t)
  unfolding new_line_terminated_read
  new_line_terminated_read-Finite size t h =
      rw (pos→ne_zero size h, new_line_terminated_read) (take_line_lem size size t _ refl)

  take_next_line-NoMore :
      (size n : ℕ) (before : List ℕ) (t : T) (x : Option (List ℕ) × T)
      → read n t ≡ x
      → NoMore t (take_next_line read size before x)
  unfolding take_next_line
  take_next_line-NoMore size n before t (none, u) e = fails (ends.gives_none n t u e)
  take_next_line-NoMore size n before t (some bytes, u) e =
      let fewer : rest u ≤ rest t = omega (arith, ends.takes n t u bytes e) in
      elim (Bool-cases (length bytes == 0)) [
        | inl f ↦ rw (f, take_next_line) (succeeds fewer)
        | inr f ↦ elim (Bool-cases (length bytes == max_multi_line_input_line_length + 1)) [
          | inl g ↦ rw (f, g, take_next_line) (fails fewer)
          | inr g ↦ elim (Bool-cases (ltb (size - 1) (length bytes + length before))) [
            | inl k ↦ rw (f, g, k, take_next_line) (fails fewer)
            | inr k ↦ rw (f, g, k, take_next_line) (succeeds fewer)
          ]
        ]
      ]

  proceed-NoMore :
      (size k : ℕ) (before : List ℕ) (t u : T) (next : Option (List ℕ))
      → rest u ≤ rest t
      → ((lines : List ℕ) → NoMore u (multi_line_loop read size k lines u))
      → NoMore t
          (elim next [ none ↦ ok before u | some lines ↦ multi_line_loop read size k lines u ])
  proceed-NoMore size k before t u none fewer h = succeeds fewer
  proceed-NoMore size k before t u (some lines) fewer h =
      After-mono (h lines) (λ a v l. omega (arith, l, fewer)) (λ e v l. omega (arith, l, fewer))

  multi_line_loop-NoMore :
      (size k : ℕ) (before : List ℕ) (t : T) → NoMore t (multi_line_loop read size k before t)
  unfolding multi_line_loop
  multi_line_loop-NoMore size zero before t = fails (omega arith)
  multi_line_loop-NoMore size (suc k) before t =
      After-bind_outcome
        (λ next u. elim next [
          | none ↦ ok before u
          | some lines ↦ multi_line_loop read size k lines u
        ])
        (take_next_line-NoMore size (max_multi_line_input_line_length + 1) before t _ refl)
        (λ next u fewer.
          proceed-NoMore size k before t u next fewer
            (λ lines. multi_line_loop-NoMore size k lines u))

  pub multi_line_read-NoMore : (size : ℕ) (t : T) → NoMore t (multi_line_read read size t)
  unfolding multi_line_read
  multi_line_read-NoMore size t = multi_line_loop-NoMore size max_multi_line_input_lines_amount [] t
