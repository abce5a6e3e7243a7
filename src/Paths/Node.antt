-- ===== src/Paths/Node.antt =====
-- One node of a path against `parse_node` of system/path_utils.c.
use virtual_file_system_c.Prelude.{
  ℕ, zero, suc, ◌+◌, ◌≤◌, ◌<◌, ◌≡◌, ◌≢◌, ap, ◌∙◌, true, false, List, [], ◌∷◌, arith, update, length,
}
use mathlib.Core.Path.{subst}
use virtual_file_system_c.Settings.{path_delimiter}
use virtual_file_system_c.Status.{done, error, identifier_is_too_long}
use virtual_file_system_c.Paths.{node_ends, parse_node_loop}

-- The chars of `xs` stand in memory from `i` on, and none is a delimiter.
abbrev pub Spells : (ℕ → ℕ) → ℕ → List ℕ → Type 0
Spells s i [] = Unit
Spells s i (x ∷ xs) = (s i ≡ x) × (x ≢ path_delimiter) × Spells s (i + 1) xs

-- A null-terminated name.
abbrev pub IsName : (ℕ → ℕ) → ℕ → List ℕ → Type 0
IsName s i [] = s i ≡ 0
IsName s i (x ∷ xs) = (s i ≡ x) × IsName s (i + 1) xs

module _ (path : ℕ → ℕ) (path_length : ℕ) where
  node_end :
      (room pos i : ℕ) (buffer : ℕ → ℕ)
      → node_ends path path_length pos ≡ true
      → parse_node_loop path path_length room pos i buffer ≡ done (pos, update buffer i 0)
  unfolding parse_node_loop
  node_end zero pos i buffer e = rw (e, parse_node_loop)
  node_end (suc k) pos i buffer e = rw (e, parse_node_loop)

  node_char :
      (k pos i : ℕ) (buffer : ℕ → ℕ)
      → node_ends path path_length pos ≡ false
      → parse_node_loop path path_length (suc k) pos i buffer
        ≡ parse_node_loop path path_length k (pos + 1) (i + 1) (update buffer i (path pos))
  unfolding parse_node_loop
  node_char k pos i buffer e = rw (e, parse_node_loop)

  no_room :
      (pos i : ℕ) (buffer : ℕ → ℕ)
      → node_ends path path_length pos ≡ false
      → parse_node_loop path path_length zero pos i buffer ≡ error identifier_is_too_long
  unfolding parse_node_loop
  no_room pos i buffer e = rw (e, parse_node_loop)

  pub parse_node_loop_lem :
      (n : List ℕ) (room pos i : ℕ) (buffer : ℕ → ℕ)
      → length n ≤ room
      → pos + length n ≤ path_length
      → Spells path pos n
      → node_ends path path_length (pos + length n) ≡ true
      → (out : ℕ → ℕ) × (parse_node_loop path path_length room pos i buffer
          ≡ done (pos + length n, out))
        × IsName out i n
        × ((j : ℕ) → j < i → out j ≡ buffer j)
  parse_node_loop_lem [] room pos i buffer fits inner sp e = (
    update buffer i 0,
    node_end room pos i buffer (subst (λ p. node_ends path path_length p ≡ true) (omega arith) e)
        ∙ ap (λ p. done (p, update buffer i 0)) (omega arith),
    ground arith,
    λ j h. ground arith,
  )
  parse_node_loop_lem (x ∷ n) zero pos i buffer fits inner sp e = elim fits [ ]
  parse_node_loop_lem (x ∷ n) (suc k) pos i buffer fits inner (at, plain, sp) e =
      let (out, r, name, frame) =
        parse_node_loop_lem n k (pos + 1) (i + 1) (update buffer i (path pos)) (omega arith)
          (omega arith) sp (subst (λ p. node_ends path path_length p ≡ true) (omega arith) e) in
      (
        out,
        node_char k pos i buffer (ground arith) ∙ r ∙ ap (λ p. done (p, out)) (omega arith),
        (frame i (omega arith) ∙ ground arith, name),
        λ j h. frame j (omega arith) ∙ ground arith,
      )

  pub parse_node_loop_too_long :
      (n : List ℕ) (room pos i : ℕ) (buffer : ℕ → ℕ)
      → room < length n
      → pos + length n ≤ path_length
      → Spells path pos n
      → parse_node_loop path path_length room pos i buffer ≡ error identifier_is_too_long
  parse_node_loop_too_long [] room pos i buffer long inner sp = absurd (omega arith)
  parse_node_loop_too_long (x ∷ n) zero pos i buffer long inner (at, plain, sp) =
      no_room pos i buffer (ground arith)
  parse_node_loop_too_long (x ∷ n) (suc k) pos i buffer long inner (at, plain, sp) =
      node_char k pos i buffer (ground arith)
      ∙ parse_node_loop_too_long n k (pos + 1) (i + 1) (update buffer i (path pos)) (omega arith)
          (omega arith) sp
