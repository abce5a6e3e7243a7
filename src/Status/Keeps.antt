-- ===== src/Status/Keeps.antt =====
-- What every outcome of a sequence of calls keeps.
use virtual_file_system_c.Prelude.{Bool, true, false, ◌≡◌, refl, ◌⊎◌, inl, inr, if◌then◌else◌}
use virtual_file_system_c.Status.{StatusCode, Outcome, ok, fail, fault, Act, ◌>>=◌, Result, lift}
use virtual_file_system_c.Status.After.{After, succeeds, fails, Result-cases}

-- `P` holds of what a call leaves, with SUCCESS or with another code.
abbrev pub Leaves : {S A : Type 0} → (S → Type 0) → Outcome S A → Type 0
Leaves P (ok a c) = P c
Leaves P (fail e c) = P c
Leaves P fault = Unit

pub Outcome-cases :
    {S A : Type 0} (o : Outcome S A)
    → ((a : A) × (s : S) × (o ≡ ok a s))
      ⊎ ((e : StatusCode) × (s : S) × (o ≡ fail e s))
      ⊎ (o ≡ fault)
Outcome-cases (ok a s) = inl (a, s, refl)
Outcome-cases (fail e s) = inr (inl (e, s, refl))
Outcome-cases fault = inr (inr refl)

module _ {S : Type 0} (P : S → Type 0) where
  pub Leaves-bind_outcome :
      {A B : Type 0} (o : Outcome S A) (f : A → Act S B)
      → Leaves P o
      → ((a : A) (d : S) → P d → Leaves P (f a d))
      → Leaves P (elim o [ ok a t ↦ f a t | fail c t ↦ fail c t | fault ↦ fault ])
  Leaves-bind_outcome (ok a d) f h rest = rest a d h
  Leaves-bind_outcome (fail e d) f h rest = h
  Leaves-bind_outcome fault f h rest = tt

  pub Leaves-bind :
      {A B : Type 0} (m : Act S A) (f : A → Act S B) (c : S)
      → Leaves P (m c)
      → ((a : A) (d : S) → P d → Leaves P (f a d))
      → Leaves P ((m >>= f) c)
  Leaves-bind m f c h rest = Leaves-bind_outcome (m c) f h rest

  pub Leaves-lift : {A : Type 0} (r : S → Result A) (c : S) → P c → Leaves P (lift r c)
  Leaves-lift r c h = elim (Result-cases (r c)) [
    | inl (a, e) ↦ rw (e, lift) h
    | inr (a, e) ↦ rw (e, lift) h
  ]

  -- A test, and the calls behind it.
  pub Leaves-lift_bind :
      {A B : Type 0} (r : S → Result A) (f : A → Act S B) (c : S)
      → P c
      → ((a : A) (d : S) → P d → Leaves P (f a d))
      → Leaves P ((lift r >>= f) c)
  Leaves-lift_bind r f c h rest = Leaves-bind (lift r) f c (Leaves-lift r c h) rest

  pub Leaves-if :
      {A : Type 0} (b : Bool) (x y : Act S A) (c : S)
      → Leaves P (x c)
      → Leaves P (y c)
      → Leaves P ((if b then x else y) c)
  Leaves-if true x y c h k = h
  Leaves-if false x y c h k = k

pub Leaves-mono :
    {S A : Type 0} {P Q : S → Type 0} (o : Outcome S A)
    → ((s : S) → P s → Q s)
    → Leaves P o
    → Leaves Q o
Leaves-mono (ok a s) f h = f s h
Leaves-mono (fail c s) f h = f s h
Leaves-mono fault f h = tt

-- A call that does not fault has both what it ends with and what it keeps.
pub After-Leaves :
    {S A : Type 0} {good : A → S → Type 0} {bad : StatusCode → S → Type 0} (P : S → Type 0)
    {o : Outcome S A}
    → After good bad o
    → Leaves P o
    → After (λ a t. good a t × P t) (λ c t. bad c t × P t) o
After-Leaves P (succeeds h) k = succeeds (h, k)
After-Leaves P (fails h) k = fails (h, k)

pub Leaves-After :
    {S A : Type 0} (P : S → Type 0) {o : Outcome S A}
    → After (λ a t. P t) (λ c t. P t) o
    → Leaves P o
Leaves-After P (succeeds h) = h
Leaves-After P (fails h) = h

pub ruleset leaves_rules = (Leaves-lift, Leaves-lift_bind, Leaves-bind, Leaves-if)
