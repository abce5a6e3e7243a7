-- ===== src/Paths/Nodes.antt =====
-- The nodes of a path against `parse_path` of system/path_utils.c.
use virtual_file_system_c.Prelude.{
  ℕ, zero, suc, ◌+◌, ◌-◌, ◌≤◌, ◌<◌, ◌≡◌, refl, ap, sym, ◌∙◌, inl, inr, true, List, [], ◌∷◌, arith,
  ltb, if◌then◌else◌, update, pos→ne_zero, length, lt-cases, Option, none, some, lt→leb, le→leb,
  lt→ltb, le→ltb,
}
use mathlib.Core.Path.{subst}
use virtual_file_system_c.Status.{
  StatusCode, Result, done, error, path_is_too_long, identifier_is_too_long,
}
use virtual_file_system_c.Paths.{
  node_ends, parse_node_loop, parse_node, parse_path_loop, parse_path,
}
use virtual_file_system_c.Paths.Node.{Spells, IsName, parse_node_loop_lem, parse_node_loop_too_long}

-- The path from `i` to `end` consists of the nodes `ns`, each of which ends at a delimiter or at the
-- end of the path.
abbrev pub IsPath : (ℕ → ℕ) → (i end : ℕ) → List (List ℕ) → Type 0
IsPath s i end [] = end ≤ i
IsPath s i end (n ∷ ns) =
    (i < end)
    × (i + length n ≤ end)
    × Spells s i n
    × (node_ends s end (i + length n) ≡ true)
    × IsPath s (i + length n + 1) end ns

-- The array holds the names from index `k` on.
abbrev pub AreNames : (ℕ → ℕ → ℕ) → ℕ → List (List ℕ) → Type 0
AreNames names k [] = Unit
AreNames names k (n ∷ ns) = IsName (names k) 0 n × AreNames names (k + 1) ns

-- What stands against a path of these nodes, for buffers of `buffer_length` chars and an array of
-- `room` names: the first node for which there is no name left, or that does not fit with its null.
unfoldable pub verdict : (buffer_length room : ℕ) → List (List ℕ) → Option StatusCode
verdict buffer_length room [] = none
verdict buffer_length zero (n ∷ ns) = some path_is_too_long
verdict buffer_length (suc k) (n ∷ ns) =
    if ltb (length n) buffer_length then verdict buffer_length k ns else some identifier_is_too_long

-- What a parse of the nodes `ns` gives, from index `amount` of the array on.
pub data Parsed (buffer_length room amount : ℕ) (names : ℕ → ℕ → ℕ) (ns : List (List ℕ))
    (r : Result (ℕ × (ℕ → ℕ → ℕ))) : Type 0 where
  parsed :
      (out : ℕ → ℕ → ℕ)
      → verdict buffer_length room ns ≡ none
      → r ≡ done (amount + length ns, out)
      → AreNames out amount ns
      → ((j : ℕ) → j < amount → out j ≡ names j)
      → Parsed buffer_length room amount names ns r
  refused :
      (c : StatusCode)
      → verdict buffer_length room ns ≡ some c
      → r ≡ error c
      → Parsed buffer_length room amount names ns r

update_here : {A : Type 0} (f : ℕ → A) (i : ℕ) (x : A) → update f i x i ≡ x
update_here f i x = ground arith

module _ (path : ℕ → ℕ) (path_length buffer_length : ℕ) (some_char : 0 < buffer_length) where
  -- One round of the loop over the nodes.
  path_round :
      (k pos amount end : ℕ) (names : ℕ → ℕ → ℕ) (name : ℕ → ℕ)
      → pos < path_length
      → parse_node_loop path path_length (buffer_length - 1) pos 0 (names amount) ≡ done (end, name)
      → parse_path_loop path path_length buffer_length (suc k) pos amount names
        ≡ parse_path_loop path path_length buffer_length k
            (end + 1)
            (amount + 1)
            (update names amount name)
  unfolding parse_path_loop parse_node
  path_round k pos amount end names name h e = rw (lt→leb path_length pos h, e, parse_path_loop)

  path_refused :
      (k pos amount : ℕ) (names : ℕ → ℕ → ℕ) {c : StatusCode}
      → pos < path_length
      → parse_node_loop path path_length (buffer_length - 1) pos 0 (names amount) ≡ error c
      → parse_path_loop path path_length buffer_length (suc k) pos amount names ≡ error c
  unfolding parse_path_loop parse_node
  path_refused k pos amount names h e = rw (lt→leb path_length pos h, e, parse_path_loop)

  path_end :
      (room pos amount : ℕ) (names : ℕ → ℕ → ℕ)
      → path_length ≤ pos
      → parse_path_loop path path_length buffer_length room pos amount names ≡ done (amount, names)
  unfolding parse_path_loop
  path_end zero pos amount names h = rw (le→leb path_length pos h, parse_path_loop)
  path_end (suc k) pos amount names h = rw (le→leb path_length pos h, parse_path_loop)

  path_full :
      (pos amount : ℕ) (names : ℕ → ℕ → ℕ)
      → pos < path_length
      → parse_path_loop path path_length buffer_length zero pos amount names
        ≡ error path_is_too_long
  unfolding parse_path_loop
  path_full pos amount names h = rw (lt→leb path_length pos h, parse_path_loop)

  verdict-next :
      (k : ℕ) (n : List ℕ) (ns : List (List ℕ))
      → length n < buffer_length
      → verdict buffer_length (suc k) (n ∷ ns) ≡ verdict buffer_length k ns
  unfolding verdict
  verdict-next k n ns h =
      ap (λ b. if b then verdict buffer_length k ns else some identifier_is_too_long)
        (lt→ltb (length n) buffer_length h)

  verdict-long :
      (k : ℕ) (n : List ℕ) (ns : List (List ℕ))
      → buffer_length ≤ length n
      → verdict buffer_length (suc k) (n ∷ ns) ≡ some identifier_is_too_long
  unfolding verdict
  verdict-long k n ns h =
      ap (λ b. if b then verdict buffer_length k ns else some identifier_is_too_long)
        (le→ltb (length n) buffer_length h)

  -- A node that fits, in front of a parse of the others.
  Parsed-next :
      (k amount : ℕ) (names : ℕ → ℕ → ℕ) (name : ℕ → ℕ) (n : List ℕ) (ns : List (List ℕ))
      → {r r' : Result (ℕ × (ℕ → ℕ → ℕ))} → r ≡ r'
      → length n < buffer_length
      → IsName name 0 n
      → Parsed buffer_length k (amount + 1) (update names amount name) ns r'
      → Parsed buffer_length (suc k) amount names (n ∷ ns) r
  Parsed-next k amount names name n ns step fits here (parsed out v e rest frame) =
      parsed out (verdict-next k n ns fits ∙ v) (step ∙ e ∙ ap (λ a. done (a, out)) (omega arith))
        (
          subst (λ s. IsName s 0 n)
              (sym (frame amount (omega arith) ∙ update_here names amount name)) here,
          rest,
        )
        (λ j h. frame j (omega arith) ∙ ground arith)
  Parsed-next k amount names name n ns step fits here (refused c v e) =
      refused c (verdict-next k n ns fits ∙ v) (step ∙ e)

  parse_path_loop_lem :
      (ns : List (List ℕ)) (room pos amount : ℕ) (names : ℕ → ℕ → ℕ)
      → IsPath path pos path_length ns
      → Parsed buffer_length room amount names ns
          (parse_path_loop path path_length buffer_length room pos amount names)
  unfolding verdict
  parse_path_loop_lem [] room pos amount names h =
      parsed names refl (path_end room pos amount names h ∙ ap (λ a. done (a, names)) (omega arith))
        tt (λ j l. refl)
  parse_path_loop_lem (n ∷ ns) zero pos amount names (inner, fits, sp, e, rest) =
      refused path_is_too_long refl (path_full pos amount names inner)
  parse_path_loop_lem (n ∷ ns) (suc k) pos amount names (inner, fits, sp, e, rest) =
      elim (lt-cases (length n) buffer_length) [
        | inl short ↦
            let (name, r, is, frame) =
              parse_node_loop_lem path path_length n (buffer_length - 1) pos 0 (names amount)
                (omega arith) fits sp e in
            Parsed-next k amount names name n ns
              (path_round k pos amount (pos + length n) names name inner r) short is
              (parse_path_loop_lem ns k (pos + length n + 1) (amount + 1) (update names amount name)
                rest)
        | inr long ↦ refused identifier_is_too_long (verdict-long k n ns long) (
            path_refused k pos amount names inner (
              parse_node_loop_too_long path path_length n (buffer_length - 1) pos 0 (names amount)
                (omega arith) fits sp))
      ]

-- `parse_path` of a path that is not empty and consists of the nodes `ns`, into at least one buffer
-- of at least one char: the names are in the array, in order and each with its null, or the code
-- says what stands against the first node that does not fit, too many nodes or a node that is too
-- long.
pub parse_path-Parsed :
    (path : ℕ → ℕ) (path_length buffer_length array_length : ℕ) (names : ℕ → ℕ → ℕ)
    → (ns : List (List ℕ)) → 0 < path_length
    → 0 < buffer_length
    → 0 < array_length
    → IsPath path 0 path_length ns
    → Parsed buffer_length array_length 0 names ns
        (parse_path path path_length buffer_length array_length names)
unfolding parse_path
parse_path-Parsed path path_length buffer_length array_length names ns some_path some_char some_name
      h =
    rw
      (
        pos→ne_zero path_length some_path,
        pos→ne_zero buffer_length some_char,
        pos→ne_zero array_length some_name,
      )
      (parse_path_loop_lem path path_length buffer_length some_char ns array_length 0 0 names h)
