-- ===== src/Cli/Effects.antt =====
-- What commands leave as it is: their executors against the workspace and the terminal.
pub mod Kept
pub mod Functions
pub mod Sound
use virtual_file_system_c.Prelude.{
  ℕ, Bool, true, false, Option, none, some, List, ◌++◌, ◌≡◌, refl, ◌⊎◌, inl, inr, length, ◌==◌,
  Bool-cases, if◌then◌else◌, arith, ◌||◌,
}
use virtual_file_system_c.Status.{
  StatusCode, Outcome, ok, fail, fault, Act, ◌>>=◌, ◌>>◌, pure, raise, lift, Result, done, error,
}
use virtual_file_system_c.Status.After.{After, succeeds, fails, Result-cases}
use virtual_file_system_c.Status.Keeps.{Leaves, Outcome-cases}
use virtual_file_system_c.Workspace.{Workspace}
use virtual_file_system_c.Cli.{Printed, Console, on_workspace, print}
use virtual_file_system_c.Cli.FileExec.{on_terminal}

module _ {T : Type 0} (P : Console T → Type 0) where
  pub Leaves-on_workspace :
      ((d : Console T) (w : Workspace) → P d → P (record d { workspace = w }))
      → {A : Type 0} (act : Act Workspace A) (c : Console T) → P c
      → Leaves P (on_workspace act c)
  unfolding on_workspace
  Leaves-on_workspace works act c h = elim (Outcome-cases (act c.workspace)) [
    | inl (a, w, e) ↦ rw (e, Leaves) (works c w h)
    | inr (inl (a, w, e)) ↦ rw (e, Leaves) (works c w h)
    | inr (inr e) ↦ rw (e, Leaves) tt
  ]

  Leaves-terminal_outcome :
      {A : Type 0} (o : Outcome T A) (c : Console T)
      → After (λ a t. P (record c { terminal = t })) (λ e t. P (record c { terminal = t })) o
      → Leaves P (elim o [
        | ok a t ↦ ok a (record c { terminal = t })
        | fail e t ↦ fail e (record c { terminal = t })
        | fault ↦ fault
      ])
  Leaves-terminal_outcome (ok a t) c (succeeds h) = h
  Leaves-terminal_outcome (fail e t) c (fails h) = h
  Leaves-terminal_outcome fault c h = elim h [ ]

  pub Leaves-on_terminal :
      {A : Type 0} (act : Act T A) (c : Console T)
      → After
          (λ a t. P (record c { terminal = t }))
          (λ e t. P (record c { terminal = t }))
          (act c.terminal)
      → Leaves P (on_terminal act c)
  unfolding on_terminal
  Leaves-on_terminal act c h = Leaves-terminal_outcome (act c.terminal) c h
