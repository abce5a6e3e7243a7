-- ===== src/Names/Text.antt =====
-- Names against the texts that they stand for.
use virtual_file_system_c.Prelude.{
  ℕ, zero, suc, ◌+◌, ◌<◌, ◌≡◌, ◌≢◌, ◌↔◌, refl, ap, sym, ◌∙◌, true, false, List, [], ◌∷◌, arith,
  ◌==◌, if◌then◌else◌, update, Bool-cases, inl, inr, pos→ne_zero,
}
use mathlib.Core.Path.{subst}
use virtual_file_system_c.Status.{done}
use virtual_file_system_c.Names.{
  set_entry_name_loop, set_entry_name, name_eq_loop, name_eq, name_end, name_fits,
}

-- The text of a name that ends at its length or at a null: the chars from `i` on, `k` at most.
unfoldable pub text : (k i : ℕ) (name : ℕ → ℕ) → List ℕ
text zero i name = []
text (suc k) i name = if name i == 0 then [] else name i ∷ text k (i + 1) name

-- Memory that holds a text from `i` on, with a null behind it.
abbrev pub Holds : (ℕ → ℕ) → ℕ → List ℕ → Type 0
Holds s i [] = s i ≡ 0
Holds s i (x ∷ xs) = (s i ≡ x) × (x ≢ 0) × Holds s (i + 1) xs

set_entry_name_loop-frame :
    (k i : ℕ) (name out : ℕ → ℕ) (j : ℕ) → j < i → set_entry_name_loop k i name out j ≡ out j
unfolding set_entry_name_loop
set_entry_name_loop-frame zero i name out j h = ground arith
set_entry_name_loop-frame (suc k) i name out j h =
    ground (arith, set_entry_name_loop-frame k (i + 1) name (update out i (name i)) j)

module _ (k i : ℕ) (name : ℕ → ℕ) where
  text-null : (name i == 0) ≡ true → text (suc k) i name ≡ []
  unfolding text
  text-null h = ap (λ b. if b then [] else name i ∷ text k (i + 1) name) h

  text-char : (name i == 0) ≡ false → text (suc k) i name ≡ name i ∷ text k (i + 1) name
  unfolding text
  text-char h = ap (λ b. if b then [] else name i ∷ text k (i + 1) name) h

  set-null :
      (out : ℕ → ℕ) → (name i == 0) ≡ true → set_entry_name_loop (suc k) i name out ≡ update out i 0
  unfolding set_entry_name_loop
  set-null out h = rw (h, set_entry_name_loop)

  set-char :
      (out : ℕ → ℕ)
      → (name i == 0) ≡ false
      → set_entry_name_loop (suc k) i name out
        ≡ set_entry_name_loop k (i + 1) name (update out i (name i))
  unfolding set_entry_name_loop
  set-char out h = rw (h, set_entry_name_loop)

set_entry_name_loop-Holds :
    (k i : ℕ) (name out : ℕ → ℕ) → Holds (set_entry_name_loop k i name out) i (text k i name)
set_entry_name_loop-Holds zero i name out = unfold set_entry_name_loop text in ground arith
set_entry_name_loop-Holds (suc k) i name out = elim (Bool-cases (name i == 0)) [
  | inl null ↦ rw (text-null k i name null, set-null k i name out null) (ground arith)
  | inr char ↦
      let out' = update out i (name i) in
      let step = set-char k i name out char in
      rw (text-char k i name char) (
        ap (λ m. m i) step
            ∙ set_entry_name_loop-frame k (i + 1) name out' i (omega arith)
            ∙ ground arith,
        ground arith,
        subst (λ m. Holds m (i + 1) (text k (i + 1) name)) (sym step)
            (set_entry_name_loop-Holds k (i + 1) name out'),
      )
]

pub name_eq_loop_sound :
    (k i : ℕ) (s u : ℕ → ℕ) (xs : List ℕ)
    → Holds s i xs
    → name_eq_loop k i s u ≡ true
    → xs ≡ text k i u
unfolding name_eq_loop text
name_eq_loop_sound zero i s u [] h e = refl
name_eq_loop_sound zero i s u (x ∷ xs) h e = absurd (ground arith)
name_eq_loop_sound (suc k) i s u [] h e = ground arith
name_eq_loop_sound (suc k) i s u (x ∷ xs) (at, ne, h) e =
    ground (arith, name_eq_loop_sound k (i + 1) s u xs h)

pub name_eq_loop_complete :
    (k i : ℕ) (s u : ℕ → ℕ) → Holds s i (text k i u) → name_eq_loop k i s u ≡ true
unfolding name_eq_loop text
name_eq_loop_complete zero i s u h = ground arith
name_eq_loop_complete (suc k) i s u h = elim (Bool-cases (u i == 0)) [
  | inl null ↦ let at : s i ≡ 0 = subst (Holds s i) (text-null k i u null) h in ground arith
  | inr char ↦
      let (at, ne, rest) = subst (Holds s i) (text-char k i u char) h in
      ground (arith, name_eq_loop_complete k (i + 1) s u rest)
]

-- A name ends inside an array of `size` bytes.
abbrev pub EndsWithin : (size : ℕ) → (ℕ → ℕ) → Type 0
EndsWithin size name = (k : ℕ) × (k < size) × (name k ≡ 0)

set_entry_name_loop-name_end :
    (k i : ℕ) (name out : ℕ → ℕ) → set_entry_name_loop k i name out (name_end k i name) ≡ 0
unfolding set_entry_name_loop name_end
set_entry_name_loop-name_end zero i name out = ground arith
set_entry_name_loop-name_end (suc k) i name out =
    ground (arith, set_entry_name_loop-name_end k (i + 1) name (update out i (name i)))

-- A name that fits into its array ends there.
pub set_entry_name-EndsWithin :
    (size : ℕ) (name : ℕ → ℕ) (length : ℕ) (out : ℕ → ℕ)
    → name_fits size name length ≡ true
    → EndsWithin size (set_entry_name name length out)
unfolding set_entry_name name_fits
set_entry_name-EndsWithin size name length out fits =
    (name_end length 0 name, ground (arith, fits), set_entry_name_loop-name_end length 0 name out)

-- The comparison that the file system makes between the name that it stored for one entry and the
-- name that it is given for another, of a length other than 0, is equality of their texts.
pub name_eq-set_entry_name :
    (name : ℕ → ℕ) (name_length : ℕ) (out other : ℕ → ℕ) (other_length : ℕ)
    → 0 < other_length
    → (name_eq (set_entry_name name name_length out) other other_length ≡ done true)
      ↔ (text name_length 0 name ≡ text other_length 0 other)
unfolding name_eq set_entry_name
name_eq-set_entry_name name name_length out other other_length h =
    let stored = set_entry_name_loop name_length 0 name out in
    let held = set_entry_name_loop-Holds name_length 0 name out in
    (
      λ e. name_eq_loop_sound other_length 0 stored other (text name_length 0 name) held (result e),
      λ e. rw (pos→ne_zero other_length h) (
          ap done
            (name_eq_loop_complete other_length 0 stored other (subst (Holds stored 0) e held))),
    )
  where
    result :
        name_eq (set_entry_name name name_length out) other other_length ≡ done true
        → name_eq_loop other_length 0 (set_entry_name_loop name_length 0 name out) other ≡ true
    result e = ground arith
