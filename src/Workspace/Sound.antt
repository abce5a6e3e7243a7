-- ===== src/Workspace/Sound.antt =====
-- The invariant of the workspace, and what its paths lead to: workspace/navigation.c.
pub mod Calls
pub mod Places
use virtual_file_system_c.Prelude.{
  ℕ, ◌≡◌, refl, ◌⊎◌, inl, inr, Bool, true, false, ◌&&◌, none, some, arith, ◌==◌, if◌then◌else◌,
  Bool-cases, Option-cases, sym, none_not, ◌∙◌, ◌*◌, ◌+◌,
}
use mathlib.Core.Path.{subst}
use virtual_file_system_c.Settings.{max_name_length, max_path_nodes_amount, path_delimiter}
use virtual_file_system_c.Status.{
  StatusCode, Outcome, ok, fail, fault, Act, ◌>>=◌, lift, Result, done, error, ◌>>>◌,
  invalid_safe_mode_op,
}
use virtual_file_system_c.Status.After.{
  After, succeeds, fails, Result-cases, After-lift_bind, After-mono,
}
use virtual_file_system_c.Status.Keeps.{Leaves, Leaves-bind, leaves_rules, Outcome-cases}
use virtual_file_system_c.Files.{FolderRef, root}
use virtual_file_system_c.Folders.{
  VfsEntryStore, VfsNode, file_node, folder_node, folder_at, starts_with,
}
use virtual_file_system_c.FileLogic.Append.{file_append}
use virtual_file_system_c.FileLogic.Delete.{file_delete_data}
use virtual_file_system_c.Entries.{Vfs, on_entries, on_file, delete_vfs_file, delete_vfs_folder}
use virtual_file_system_c.Entries.Calls.{
  Kept, Keeps, move_file-Keeps, move_folder-Keeps, vfs_sub_folder_init-Keeps, rename_folder-Keeps,
  vfs_sub_file_init-Keeps, delete_vfs_file-Keeps, delete_vfs_folder-Keeps,
}
use virtual_file_system_c.Entries.Contents.{file_append-Keeps, file_delete_data-Keeps}
use virtual_file_system_c.Entries.Whole.{IsStore}
use virtual_file_system_c.NodePaths.{get_node_path}
use virtual_file_system_c.Queries.{CString, resolve_path}
use virtual_file_system_c.Queries.Live.{IsLive, resolve_path-IsLive}
use virtual_file_system_c.Tree.Grow.{IsTree-parent}
use virtual_file_system_c.Tree.Settled.{IsSettled}
use virtual_file_system_c.Tree.Valid.{shape, IsTree}
use virtual_file_system_c.Workspace.{
  Workspace, on_vfs, ws_resolve_path, skip_char, folder_only, enter_folder, enter_parent,
  back_to_parent_operator, ws_change_cur_folder,
}
use virtual_file_system_c.Workspace.Ops.{
  ws_create_file, ws_create_folder, file_only, removable_folder, ws_remove_file, ws_remove_folder,
  move_node, ws_move_node, rename_node, ws_rename_node,
}
use virtual_file_system_c.Workspace.FileIo.{ws_file_append, ws_file_clear}

-- The store is sound, and the folder that the workspace is in is in use, or empty and without a parent,
-- as after its removal.
pub record IsSound (w : Workspace) : Type 0 where
  pub store : IsStore w.vfs
  pub settled : IsSettled (shape w.vfs.entries) w.cur_folder

-- A call that does not fault and leaves the workspace sound, whether it succeeds or fails.
abbrev pub Soundly : {A : Type 0} → Outcome Workspace A → Type 0
Soundly o = After (λ a w. IsSound w) (λ c w. IsSound w) o

-- What a search hands out is in use.
pub record GivesLive (s : VfsEntryStore) (r : Result VfsNode) : Type 0 where
  pub at : (n : VfsNode) → r ≡ done n → IsLive s n

GivesLive-if :
    (s : VfsEntryStore) (b : Bool) (x y : Result VfsNode)
    → GivesLive s x
    → GivesLive s y
    → GivesLive s (if b then x else y)
GivesLive-if s true x y h k = h
GivesLive-if s false x y h k = k

done_inj : {A : Type 0} {a b : A} → done a ≡ done b → a ≡ b
done_inj e = cc

resolve_path-GivesLive :
    (w : Workspace) (path : CString) (r : FolderRef)
    → IsSound w
    → IsSettled (shape w.vfs.entries) r
    → GivesLive w.vfs.entries (resolve_path w.vfs.entries path r)
resolve_path-GivesLive w path r s h = record {
  at = λ n e. resolve_path-IsLive w.vfs.entries s.store.sound.tree path r n h e;
}

root-GivesLive : (w : Workspace) → IsSound w → GivesLive w.vfs.entries (done (folder_node root))
root-GivesLive w s = record {
  at = λ n e. subst (IsLive w.vfs.entries) (done_inj e) s.store.sound.tree.top_home;
}

pub ws_resolve_path-GivesLive :
    (w : Workspace) (path : CString) → IsSound w → GivesLive w.vfs.entries (ws_resolve_path w path)
unfolding ws_resolve_path
ws_resolve_path-GivesLive w path s =
    let top = root-GivesLive w s in
    let below =
      resolve_path-GivesLive w (skip_char path) root s (inl s.store.sound.tree.top_home) in
    let current = resolve_path-GivesLive w path w.cur_folder s s.settled in
    let absolute : Result VfsNode =
      if path.length == 1
      then done (folder_node root)
      else resolve_path w.vfs.entries (skip_char path) root in
    let relative : Result VfsNode = resolve_path w.vfs.entries path w.cur_folder in
    GivesLive-if w.vfs.entries (path.length == 0) (done (folder_node root))
      (if path.chars 0 == path_delimiter then absolute else relative) top
      (GivesLive-if w.vfs.entries (path.chars 0 == path_delimiter) absolute relative
        (GivesLive-if w.vfs.entries (path.length == 1) (done (folder_node root))
          (resolve_path w.vfs.entries (skip_char path) root) top below)
        current)

pub resolved_file :
    (w : Workspace) (path : CString) (f : ℕ)
    → IsSound w
    → (ws_resolve_path w path >>> file_only) ≡ done f
    → (shape w.vfs.entries).live_file f ≡ true
resolved_file w path f s e = elim (Result-cases (ws_resolve_path w path)) [
  | inr (c, bad) ↦ absurd (ground (arith, bad, e))
  | inl (n, good) ↦
      of_node n ((ws_resolve_path-GivesLive w path s).at n good) (ground (arith, good, e))
]
  where
    of_node :
        (n : VfsNode)
        → IsLive w.vfs.entries n
        → file_only n ≡ done f
        → (shape w.vfs.entries).live_file f ≡ true
    of_node (file_node g) h k = subst (λ x. (shape w.vfs.entries).live_file x ≡ true) (done_inj k) h
    of_node (folder_node r) h k = cc

pub resolved_folder :
    (w : Workspace) (path : CString) (r : FolderRef)
    → IsSound w
    → (ws_resolve_path w path >>> folder_only) ≡ done r
    → (shape w.vfs.entries).home r ≡ true
resolved_folder w path r s e = elim (Result-cases (ws_resolve_path w path)) [
  | inr (c, bad) ↦ absurd (ground (arith, bad, e))
  | inl (n, good) ↦
      of_node n ((ws_resolve_path-GivesLive w path s).at n good) (ground (arith, good, e))
]
  where
    of_node :
        (n : VfsNode)
        → IsLive w.vfs.entries n
        → folder_only n ≡ done r
        → (shape w.vfs.entries).home r ≡ true
    of_node (file_node g) h k = cc
    of_node (folder_node q) h k = subst (λ x. (shape w.vfs.entries).home x ≡ true) (done_inj k) h

IsSound-Kept : (w : Workspace) (v : Vfs) → IsSound w → Kept w.vfs v → IsSound (record w { vfs = v })
IsSound-Kept w v s k = record { store = k.store; settled = k.settled w.cur_folder s.settled }

vfs_outcome :
    {A : Type 0} (w : Workspace) (o : Outcome Vfs A)
    → IsSound w
    → Keeps w.vfs o
    → Soundly (elim o [
      | ok a v ↦ ok a (record w { vfs = v })
      | fail c v ↦ fail c (record w { vfs = v })
      | fault ↦ fault
    ])
vfs_outcome w (ok a v) s (succeeds k) = succeeds {t = record w { vfs = v }} (IsSound-Kept w v s k)
vfs_outcome w (fail c v) s (fails k) = fails {t = record w { vfs = v }} (IsSound-Kept w v s k)
vfs_outcome w fault s k = elim k [ ]

vfs-Leaves :
    {A : Type 0} (w : Workspace) (o : Outcome Vfs A)
    → IsSound w
    → Leaves (Kept w.vfs) o
    → Leaves IsSound (elim o [
      | ok a v ↦ ok a (record w { vfs = v })
      | fail c v ↦ fail c (record w { vfs = v })
      | fault ↦ fault
    ])
vfs-Leaves w (ok a v) s k = IsSound-Kept w v s k
vfs-Leaves w (fail c v) s k = IsSound-Kept w v s k
vfs-Leaves w fault s k = tt

pub on_vfs-IsSound :
    {A : Type 0} (act : Act Vfs A) (w : Workspace)
    → IsSound w
    → Leaves (Kept w.vfs) (act w.vfs)
    → Leaves IsSound (on_vfs act w)
unfolding on_vfs
on_vfs-IsSound act w s h = vfs-Leaves w (act w.vfs) s h

pub on_vfs-Soundly :
    {A : Type 0} (act : Act Vfs A) (w : Workspace)
    → IsSound w
    → Keeps w.vfs (act w.vfs)
    → Soundly (on_vfs act w)
unfolding on_vfs
on_vfs-Soundly act w s h = vfs_outcome w (act w.vfs) s h

-- The test of the safe mode, and what is done without it.
pub unless_safe :
    {A : Type 0} (b : Bool) (c : StatusCode) (w : Workspace) (o : Outcome Workspace A)
    → IsSound w
    → Soundly o
    → Soundly (if b then fail c w else o)
unless_safe true c w o s h = fails s
unless_safe false c w o s h = h
