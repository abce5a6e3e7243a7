-- ===== src/Tree/Valid.antt =====
-- The tree that the pointers of an entry store make: what can be seen of the store through them, and
-- what must hold of that.
use virtual_file_system_c.Prelude.{ℕ, ◌≡◌, Bool, true, false, ◌&&◌, not, Option, none, ltb, ◌==◌}
use virtual_file_system_c.Settings.{vfs_max_files_amount, vfs_max_folders_amount}
use virtual_file_system_c.Files.{FolderRef, root, slot}
use virtual_file_system_c.Folders.{VfsEntryStore, same_folder, folder_at}
use virtual_file_system_c.Tree.Linked.{Linked, set_at, set_sub}
use virtual_file_system_c.Tree.Rooted.{Rooted}

-- `home` has the root, `live_folder` has not; both have the folders that the map says are in use.
pub record Shape : Type 0 where
  pub home : FolderRef → Bool
  pub live_folder : FolderRef → Bool
  pub live_file : ℕ → Bool
  pub parent : FolderRef → Option FolderRef
  pub subs : FolderRef → ℕ → Option FolderRef
  pub file_parent : ℕ → Option FolderRef
  pub files : FolderRef → ℕ → Option ℕ
  pub is_root : FolderRef → Bool

abbrev pub in_use : Bool → VfsEntryStore → FolderRef → Bool
in_use top s root = top
in_use top s (slot i) = ltb i vfs_max_folders_amount && s.folders_allocation_map i

abbrev pub shape : VfsEntryStore → Shape
shape s = record {
  home = in_use true s;
  live_folder = in_use false s;
  live_file = λ f. ltb f vfs_max_files_amount && s.files_allocation_map f;
  parent = λ r. (folder_at s r).parent_folder;
  subs = λ r. (folder_at s r).sub_folders;
  file_parent = λ f. (s.files f).parent_folder;
  files = λ r. (folder_at s r).sub_files;
  is_root = λ r. (folder_at s r).is_root;
}

-- Every entry in use stands at one place of the folder that it names as its parent, nothing else
-- stands in a folder, the parents of each folder lead to the root, and the flag `is_root` tells the
-- root.
pub record IsTree (x : Shape) : Type 0 where
  pub folders_linked : Linked x.home x.live_folder x.parent x.subs
  pub files_linked : Linked x.home x.live_file x.file_parent x.files
  pub rooted : (r : FolderRef) → x.home r ≡ true → Rooted x.parent r
  pub flagged : (r : FolderRef) → x.home r ≡ true → x.is_root r ≡ same_folder root r
  pub top : x.parent root ≡ none
  pub proper : (r : FolderRef) → x.live_folder r ≡ (x.home r && not (same_folder root r))
  pub top_home : x.home root ≡ true

-- The assignments, as they are seen.
abbrev pub with_sub : FolderRef → ℕ → Option FolderRef → Shape → Shape
with_sub p k v x = record x { subs = set_sub p k v x.subs }

abbrev pub with_parent : FolderRef → Option FolderRef → Shape → Shape
with_parent r v x = record x { parent = set_at same_folder r v x.parent }

abbrev pub with_file : FolderRef → ℕ → Option ℕ → Shape → Shape
with_file p k v x = record x { files = set_sub p k v x.files }

abbrev pub with_file_parent : ℕ → Option FolderRef → Shape → Shape
with_file_parent f v x = record x { file_parent = set_at ◌==◌ f v x.file_parent }

abbrev pub with_live_file : ℕ → Bool → Shape → Shape
with_live_file f b x = record x { live_file = set_at ◌==◌ f b x.live_file }

abbrev pub with_live_folder : FolderRef → Bool → Shape → Shape
with_live_folder r b x = record x {
  home = set_at same_folder r b x.home;
  live_folder = set_at same_folder r b x.live_folder;
}

-- A folder that has just been set up.
abbrev pub with_bare : FolderRef → Option FolderRef → Shape → Shape
with_bare r p x = record x {
  parent = set_at same_folder r p x.parent;
  subs = set_at same_folder r (λ k. none) x.subs;
  files = set_at same_folder r (λ k. none) x.files;
  is_root = set_at same_folder r false x.is_root;
}
