-- ===== src/Cli/Effects/Kept.antt =====
-- Each executor of cli/command_exec.c keeps what printing keeps, or what printing and the calls on
-- the workspace keep.
use virtual_file_system_c.Prelude.{ℕ, List, [], ◌∷◌, inl, inr, length}
use virtual_file_system_c.Status.{Act}
use virtual_file_system_c.Commands.{}
use virtual_file_system_c.Queries.{CString}
use virtual_file_system_c.Folders.{VfsNode}
use virtual_file_system_c.NodePaths.{get_node_path}
use virtual_file_system_c.Workspace.{Workspace}
use virtual_file_system_c.Cli.{Printed, Console, Line, on_workspace}
use virtual_file_system_c.Cli.Help.{print_str_command_function_help_hint}
use virtual_file_system_c.Cli.Exec.{
  cmd_cd_exec, cmd_touch_exec, cmd_mkdir_exec, cmd_rm_exec, cmd_rmdir_exec, cmd_mv_exec,
  cmd_rename_exec, cmd_clear_exec, cmd_help_exec, cmd_exit_exec, print_help,
}
use virtual_file_system_c.Cli.Listing.{
  cmd_pwd_exec, cmd_ls_exec, cmd_find_exec, cmd_tree_exec, print_paths, path_size,
}
use virtual_file_system_c.Cli.FileExec.{
  cmd_cat_exec, cmd_read_exec, cmd_trunc_exec, print_contents, print_bytes, amount_to_read,
  read_amount, append_read,
}
use virtual_file_system_c.Cli.Numbers.{Long}
use virtual_file_system_c.Status.Keeps.{
  Outcome-cases, Leaves, Leaves-bind, Leaves-lift, Leaves-lift_bind, Leaves-if,
}
use virtual_file_system_c.Cli.Effects.{Leaves-on_workspace}

module _ {T : Type 0} (P : Console T → Type 0)
    (prints : (d : Console T) (out : List Printed) → P d → P (record d { output = out })) where
  pub cmd_pwd_exec-Leaves : (line : Line) (c : Console T) → P c → Leaves P (cmd_pwd_exec line c)
  unfolding cmd_pwd_exec
  cmd_pwd_exec-Leaves line c h = prints c _ h

  pub cmd_ls_exec-Leaves : (line : Line) (c : Console T) → P c → Leaves P (cmd_ls_exec line c)
  unfolding cmd_ls_exec
  cmd_ls_exec-Leaves line c h = search (Leaves-lift_bind, prints)

  pub cmd_tree_exec-Leaves : (line : Line) (c : Console T) → P c → Leaves P (cmd_tree_exec line c)
  unfolding cmd_tree_exec
  cmd_tree_exec-Leaves line c h = search (Leaves-lift_bind, prints)

  print_paths-Leaves :
      (nodes : List VfsNode) (buffer : ℕ → ℕ) (c : Console T)
      → P c
      → Leaves P (print_paths nodes buffer c)
  unfolding print_paths
  print_paths-Leaves [] buffer c h = h
  print_paths-Leaves (node ∷ nodes) buffer c h =
      elim (Outcome-cases (get_node_path c.workspace.vfs.entries node path_size buffer)) [
        | inl (u, path, e) ↦ rw (e, Leaves) (print_paths-Leaves nodes path _ (prints c _ h))
        | inr (inl (code, path, e)) ↦ rw (e, Leaves) h
        | inr (inr e) ↦ rw (e, Leaves) tt
      ]

  pub cmd_find_exec-Leaves :
      (buffer : ℕ → ℕ) (line : Line) (c : Console T) → P c → Leaves P (cmd_find_exec buffer line c)
  unfolding cmd_find_exec
  cmd_find_exec-Leaves buffer line c h = search (Leaves-lift_bind, print_paths-Leaves)

  print_help-Leaves : (line : Line) (c : Console T) → P c → Leaves P (print_help line c)
  unfolding print_help print_str_command_function_help_hint
  print_help-Leaves line c h = search (Leaves-if, Leaves-lift_bind, prints)

  pub cmd_help_exec-Leaves : (line : Line) (c : Console T) → P c → Leaves P (cmd_help_exec line c)
  unfolding cmd_help_exec
  cmd_help_exec-Leaves line c h = search (Leaves-lift_bind, print_help-Leaves)

  pub cmd_exit_exec-Leaves : (line : Line) (c : Console T) → P c → Leaves P (cmd_exit_exec line c)
  unfolding cmd_exit_exec
  cmd_exit_exec-Leaves line c h = search Leaves-lift

  print_contents-Leaves :
      (buffer : ℕ → ℕ) (amount : ℕ) (c : Console T)
      → P c
      → Leaves P (print_contents buffer amount c)
  unfolding print_contents print_bytes
  print_contents-Leaves buffer amount c h = search (Leaves-if, prints)

  pub cmd_cat_exec-Leaves :
      (line : Line) (buffer : ℕ → ℕ) (length : ℕ) (c : Console T)
      → P c
      → Leaves P (cmd_cat_exec line buffer length c)
  unfolding cmd_cat_exec
  cmd_cat_exec-Leaves line buffer length c h =
      search (Leaves-if, Leaves-lift_bind, print_contents-Leaves)

  amount_to_read-Leaves : (s : CString) (c : Console T) → P c → Leaves P (amount_to_read s c)
  unfolding amount_to_read
  amount_to_read-Leaves s c h = search (Leaves-if, prints)

  read_amount-Leaves :
      (line : Line) (buffer : ℕ → ℕ) (length : ℕ) (offset amount : Long) (c : Console T)
      → P c
      → Leaves P (read_amount line buffer length offset amount c)
  unfolding read_amount print_bytes
  read_amount-Leaves line buffer length offset amount c h =
      search (Leaves-if, Leaves-lift_bind, prints)

  pub cmd_read_exec-Leaves :
      (line : Line) (buffer : ℕ → ℕ) (length : ℕ) (c : Console T)
      → P c
      → Leaves P (cmd_read_exec line buffer length c)
  unfolding cmd_read_exec
  cmd_read_exec-Leaves line buffer length c h =
      search (Leaves-lift_bind, Leaves-bind, amount_to_read-Leaves, read_amount-Leaves)

  -- What no command but `append` changes.
  module _ (works : (d : Console T) (w : Workspace) → P d → P (record d { workspace = w })) where
    works_on :
        {A : Type 0} (act : Act Workspace A) (c : Console T) → P c → Leaves P (on_workspace act c)
    works_on act c h = Leaves-on_workspace P works act c h

    pub cmd_cd_exec-Leaves : (line : Line) (c : Console T) → P c → Leaves P (cmd_cd_exec line c)
    unfolding cmd_cd_exec
    cmd_cd_exec-Leaves line c h = search (Leaves-lift_bind, works_on)

    pub cmd_touch_exec-Leaves :
        (line : Line) (c : Console T) → P c → Leaves P (cmd_touch_exec line c)
    unfolding cmd_touch_exec
    cmd_touch_exec-Leaves line c h = search (Leaves-lift_bind, works_on)

    pub cmd_mkdir_exec-Leaves :
        (line : Line) (c : Console T) → P c → Leaves P (cmd_mkdir_exec line c)
    unfolding cmd_mkdir_exec
    cmd_mkdir_exec-Leaves line c h = search (Leaves-lift_bind, works_on)

    pub cmd_rm_exec-Leaves : (line : Line) (c : Console T) → P c → Leaves P (cmd_rm_exec line c)
    unfolding cmd_rm_exec
    cmd_rm_exec-Leaves line c h = search (Leaves-lift_bind, works_on)

    pub cmd_rmdir_exec-Leaves :
        (line : Line) (c : Console T) → P c → Leaves P (cmd_rmdir_exec line c)
    unfolding cmd_rmdir_exec
    cmd_rmdir_exec-Leaves line c h = search (Leaves-lift_bind, works_on)

    pub cmd_mv_exec-Leaves : (line : Line) (c : Console T) → P c → Leaves P (cmd_mv_exec line c)
    unfolding cmd_mv_exec
    cmd_mv_exec-Leaves line c h = search (Leaves-lift_bind, works_on)

    pub cmd_rename_exec-Leaves :
        (line : Line) (c : Console T) → P c → Leaves P (cmd_rename_exec line c)
    unfolding cmd_rename_exec
    cmd_rename_exec-Leaves line c h = search (Leaves-lift_bind, works_on)

    pub cmd_clear_exec-Leaves :
        (line : Line) (c : Console T) → P c → Leaves P (cmd_clear_exec line c)
    unfolding cmd_clear_exec
    cmd_clear_exec-Leaves line c h = search (Leaves-lift_bind, works_on)

    pub cmd_trunc_exec-Leaves :
        (line : Line) (c : Console T) → P c → Leaves P (cmd_trunc_exec line c)
    unfolding cmd_trunc_exec
    cmd_trunc_exec-Leaves line c h = search (Leaves-lift_bind, works_on)

    pub append_read-Leaves :
        (line : Line) (bytes : List ℕ) (c : Console T) → P c → Leaves P (append_read line bytes c)
    unfolding append_read
    append_read-Leaves line bytes c h = search (Leaves-if, works_on)

-- The commands that print, and those that work on the workspace.
pub ruleset printing_rules = (
  cmd_pwd_exec-Leaves, cmd_ls_exec-Leaves, cmd_tree_exec-Leaves, cmd_find_exec-Leaves,
  cmd_cat_exec-Leaves, cmd_read_exec-Leaves, cmd_help_exec-Leaves,
)

pub ruleset working_rules = (
  cmd_cd_exec-Leaves, cmd_touch_exec-Leaves, cmd_mkdir_exec-Leaves, cmd_rm_exec-Leaves,
  cmd_rmdir_exec-Leaves, cmd_mv_exec-Leaves, cmd_rename_exec-Leaves, cmd_clear_exec-Leaves,
  cmd_trunc_exec-Leaves,
)
