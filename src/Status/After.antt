-- ===== src/Status/After.antt =====
-- What holds when a sequence of calls ends, with SUCCESS or with another code.
use virtual_file_system_c.Prelude.{◌≡◌, refl, ◌⊎◌, inl, inr}
use virtual_file_system_c.Status.{
  StatusCode, Outcome, ok, fail, fault, Act, ◌>>=◌, Result, done, error, lift,
}

-- It does not fault, and `good` holds of the value and the state, or `bad` of the code and the state.
pub data After {S A : Type 0} (good : A → S → Type 0) (bad : StatusCode → S → Type 0)
    : Outcome S A → Type 0 where
  succeeds : {a : A} {t : S} → good a t → After good bad (ok a t)
  fails : {c : StatusCode} {t : S} → bad c t → After good bad (fail c t)

pub After-bind_outcome :
    {S A B : Type 0} {good : A → S → Type 0} {bad : StatusCode → S → Type 0}
    → {next : B → S → Type 0} {o : Outcome S A} (f : A → Act S B) → After good bad o
    → ((a : A) (t : S) → good a t → After next bad (f a t))
    → After next bad (elim o [ ok a t ↦ f a t | fail c t ↦ fail c t | fault ↦ fault ])
After-bind_outcome f (succeeds {a} {t} h) rest = rest a t h
After-bind_outcome f (fails h) rest = fails h

pub After-bind :
    {S A B : Type 0} {good : A → S → Type 0} {bad : StatusCode → S → Type 0}
    → {next : B → S → Type 0} (m : Act S A) (f : A → Act S B) {s : S} → After good bad (m s)
    → ((a : A) (t : S) → good a t → After next bad (f a t))
    → After next bad ((m >>= f) s)
After-bind m f h rest = After-bind_outcome f h rest

pub After-mono :
    {S A : Type 0} {good good' : A → S → Type 0} {bad bad' : StatusCode → S → Type 0}
    → {o : Outcome S A} → After good bad o
    → ((a : A) (t : S) → good a t → good' a t)
    → ((c : StatusCode) (t : S) → bad c t → bad' c t)
    → After good' bad' o
After-mono (succeeds {a} {t} h) f g = succeeds (f a t h)
After-mono (fails {c} {t} h) f g = fails (g c t h)

pub Result-cases :
    {A : Type 0} (r : Result A) → ((a : A) × (r ≡ done a)) ⊎ ((c : StatusCode) × (r ≡ error c))
Result-cases (done a) = inl (a, refl)
Result-cases (error c) = inr (c, refl)

pub After-lift :
    {S A : Type 0} {good : A → S → Type 0} {bad : StatusCode → S → Type 0} (r : S → Result A)
    {s : S}
    → ((a : A) → r s ≡ done a → good a s)
    → ((c : StatusCode) → r s ≡ error c → bad c s)
    → After good bad (lift r s)
After-lift r {s} f g = elim (Result-cases (r s)) [
  | inl (a, e) ↦ rw (e, lift) (succeeds (f a e))
  | inr (c, e) ↦ rw (e, lift) (fails (g c e))
]

-- A call that changes nothing, and the calls behind it.
pub After-lift_bind :
    {S A B : Type 0} {next : B → S → Type 0} {bad : StatusCode → S → Type 0}
    → (r : S → Result A) (f : A → Act S B) {s : S}
    → ((a : A) → r s ≡ done a → After next bad (f a s))
    → ((c : StatusCode) → r s ≡ error c → bad c s)
    → After next bad ((lift r >>= f) s)
After-lift_bind r f {s} good bad = elim (Result-cases (r s)) [
  | inl (a, e) ↦ rw (e, lift, ◌>>=◌) (good a e)
  | inr (c, e) ↦ rw (e, lift, ◌>>=◌) (fails (bad c e))
]
