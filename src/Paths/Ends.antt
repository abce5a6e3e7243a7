-- ===== src/Paths/Ends.antt =====
-- The two operations at the end of a path: `append_node_name_to_path` and `truncate_path` of
-- system/path_utils.c.
use virtual_file_system_c.Prelude.{
  ℕ, zero, suc, ◌+◌, ◌-◌, ◌<◌, ◌≡◌, ◌≢◌, inl, inr, arith, ltb, leb, ◌&&◌, if◌then◌else◌, update,
  copy, copy_in, copy_out, inside, lt-cases,
}
use virtual_file_system_c.Settings.{path_delimiter}
use virtual_file_system_c.Status.{done}
use virtual_file_system_c.Paths.{append_node_name_to_path, truncate_path}

-- `truncate_path` puts nulls from the last delimiter on.
truncate_path_lem :
    (n at : ℕ) (path : ℕ → ℕ) (j : ℕ)
    → at < n
    → path at ≡ path_delimiter
    → ((i : ℕ) → at < i → i < n → path i ≢ path_delimiter)
    → truncate_path n path j ≡ (if leb at j && ltb j n then 0 else path j)
unfolding truncate_path
truncate_path_lem zero at path j h e plain = elim h [ ]
truncate_path_lem (suc c) at path j h e plain = elim (lt-cases at c) [
  | inl lt ↦ ground (
    arith,
    plain c lt (omega arith),
    truncate_path_lem c at (update path c 0) j lt (ground arith)
        (λ i lo hi. ground (arith, plain i lo (omega arith))),
  )
  | inr last ↦ ground arith
]

-- A name without delimiters that there is room for is appended to a path that ends at `at`, behind a
-- delimiter and with a null, and `truncate_path` of the result gives the path back, with nulls in
-- place of what has been appended.
pub truncate_path-append_node_name_to_path :
    (node_name : ℕ → ℕ) (node_name_length : ℕ) (path : ℕ → ℕ) (at available : ℕ)
    → node_name_length < available
    → ((i : ℕ) → i < node_name_length → node_name i ≢ path_delimiter)
    → (out : ℕ → ℕ) × (append_node_name_to_path node_name node_name_length path at available
        ≡ done out)
      × (out at ≡ path_delimiter)
      × ((i : ℕ) → i < node_name_length → out (at + 1 + i) ≡ node_name i)
      × (out (at + node_name_length + 1) ≡ 0)
      × ((j : ℕ)
          → truncate_path (at + node_name_length + 1) out j
            ≡ (if inside at (node_name_length + 2) j then 0 else path j))
unfolding append_node_name_to_path
truncate_path-append_node_name_to_path node_name node_name_length path at available room plain =
    (out, ground arith, delimiter, chars, ground arith, back)
  where
    slashed : ℕ → ℕ
    slashed = update path at path_delimiter

    out : ℕ → ℕ
    out = update (copy slashed (at + 1) node_name 0 node_name_length) (at + node_name_length + 1) 0

    delimiter : out at ≡ path_delimiter
    delimiter = ground (arith, copy_out slashed (at + 1) node_name 0 node_name_length at)

    chars : (i : ℕ) → i < node_name_length → out (at + 1 + i) ≡ node_name i
    chars i h = ground (arith, copy_in slashed (at + 1) node_name 0 node_name_length (at + 1 + i))

    no_delimiter : (i : ℕ) → at < i → i < at + node_name_length + 1 → out i ≢ path_delimiter
    no_delimiter i lo hi = ground (
      arith,
      copy_in slashed (at + 1) node_name 0 node_name_length i,
      plain (i - (at + 1)) (omega arith),
    )

    back :
        (j : ℕ)
        → truncate_path (at + node_name_length + 1) out j
          ≡ (if inside at (node_name_length + 2) j then 0 else path j)
    back j = ground (
      arith,
      truncate_path_lem (at + node_name_length + 1) at out j (omega arith) delimiter no_delimiter,
      copy_out slashed (at + 1) node_name 0 node_name_length j,
    )
