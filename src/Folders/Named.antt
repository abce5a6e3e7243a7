-- ===== src/Folders/Named.antt =====
-- The searches for a name among the entries of a folder, and `validate_sub_entry_name`.
use mathlib.Core.Path.{subst}
use virtual_file_system_c.Prelude.{
  none_not, some_inj, ℕ, zero, suc, ◌+◌, ◌≤◌, ◌<◌, ◌≡◌, sym, ◌∙◌, inl, inr, Bool, true, false,
  Option, none, some, List, arith, ◌==◌, if◌then◌else◌, Option-cases, Bool-cases,
}
use virtual_file_system_c.Status.{Result, done, error}
use virtual_file_system_c.Names.{name_eq, name_eq_loop}
use virtual_file_system_c.Names.Text.{text, Holds, name_eq_loop_sound, name_eq_loop_complete}
use virtual_file_system_c.Folders.{search_names}

-- Every name of an array ends with a null.
abbrev pub Terminated : (ℕ → Option (ℕ → ℕ)) → Type 0
Terminated entries = (j : ℕ) (e : ℕ → ℕ) → entries j ≡ some e → (xs : List ℕ) × Holds e 0 xs

-- The entry at an index has the text of a given name.
abbrev pub NameAt : (ℕ → Option (ℕ → ℕ)) → (name : ℕ → ℕ) (length : ℕ) → ℕ → Type 0
NameAt entries name length j = (e : ℕ → ℕ) × (entries j ≡ some e) × Holds e 0 (text length 0 name)

-- What a search from `i` on finds, in `k` rounds: the first entry with the name, or none has it.
abbrev pub Searched :
    (ℕ → Option (ℕ → ℕ)) → (name : ℕ → ℕ) (length k i : ℕ) → Result (Option ℕ) → Type 0
Searched entries name length k i (error c) = ⊥
Searched entries name length k i (done none) =
    (j : ℕ) → i ≤ j → j < i + k → ¬ NameAt entries name length j
Searched entries name length k i (done (some p)) =
    (i ≤ p)
    × (p < i + k)
    × NameAt entries name length p
    × ((j : ℕ) → i ≤ j → j < p → ¬ NameAt entries name length j)

module _ (entries : ℕ → Option (ℕ → ℕ)) (name : ℕ → ℕ) (length : ℕ) where
  Searched-later :
      (k i : ℕ) (r : Result (Option ℕ))
      → ¬ NameAt entries name length i
      → Searched entries name length k (i + 1) r
      → Searched entries name length (suc k) i r
  Searched-later k i (error c) other h = absurd h
  Searched-later k i (done none) other h = λ j a b. elim (Bool-cases (i == j)) [
    | inl same ↦ subst (λ l. ¬ NameAt entries name length l) (ground (arith, same)) other
    | inr above ↦ h j (ground (arith, above, a)) (omega (arith, b))
  ]
  Searched-later k i (done (some p)) other (a, b, c, d) = (
    omega (arith, a),
    omega (arith, b),
    c,
    λ j u v. elim (Bool-cases (i == j)) [
      | inl same ↦ subst (λ l. ¬ NameAt entries name length l) (ground (arith, same)) other
      | inr above ↦ d j (ground (arith, above, u)) v
    ],
  )

  name_eq-Holds :
      (e : ℕ → ℕ) (b : Bool) (xs : List ℕ)
      → 0 < length
      → Holds e 0 xs
      → name_eq_loop length 0 e name ≡ b
      → (name_eq e name length ≡ done b)
        × (if b then Holds e 0 (text length 0 name) else ¬ Holds e 0 (text length 0 name))
  unfolding name_eq
  name_eq-Holds e true xs pos held eq =
      (ground (arith, eq), subst (Holds e 0) (name_eq_loop_sound length 0 e name xs held eq) held)
  name_eq-Holds e false xs pos held eq = (
    ground (arith, eq),
    λ h. absurd (ground (arith, eq, name_eq_loop_complete length 0 e name h)),
  )

  -- A search among names that end with a null, for a name of a length other than 0, does not fail,
  -- and gives the first entry whose text is that of the name, or none has it.
  pub search_names-Searched :
      (k i : ℕ)
      → 0 < length
      → Terminated entries
      → Searched entries name length k i (search_names k i entries name length)
  unfolding search_names
  search_names-Searched zero i pos ends = λ j a b. absurd (omega (arith, a, b))
  search_names-Searched (suc k) i pos ends = elim (Option-cases (entries i)) [
    | inl e ↦
        rw (e, search_names)
          (Searched-later k i (search_names k (i + 1) entries name length)
            (λ (f, at, _). none_not (sym e ∙ at)) (search_names-Searched k (i + 1) pos ends))
    | inr (f, e) ↦
        let (xs, held) = ends i f e in
        elim (Bool-cases (name_eq_loop length 0 f name)) [
          | inl same ↦
              let (eq, holds) = name_eq-Holds f true xs pos held same in
              rw (e, eq, search_names)
                (omega arith, omega arith, (f, e, holds), λ j a b. absurd (omega (arith, a, b)))
          | inr other ↦
              let (eq, differs) = name_eq-Holds f false xs pos held other in
              rw (e, eq, search_names)
                (Searched-later k i (search_names k (i + 1) entries name length)
                  (λ (g, at, holds).
                    differs
                      (subst (λ h. Holds h 0 (text length 0 name)) (some_inj (sym at ∙ e)) holds))
                  (search_names-Searched k (i + 1) pos ends))
        ]
  ]
