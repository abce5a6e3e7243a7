-- ===== src/Queries/Live.antt =====
-- What paths lead to in a tree: `resolve_path` of system/queries.c.
use virtual_file_system_c.Prelude.{
  ℕ, zero, suc, ◌+◌, ◌-◌, ◌<◌, ◌≡◌, refl, inl, inr, Bool, true, false, Option, none, some, arith,
  if◌then◌else◌, sym, ◌∙◌, none_not, Bool-cases, Option-cases,
}
use mathlib.Core.Path.{subst}
use virtual_file_system_c.Settings.{
  max_name_length, max_path_nodes_amount, max_sub_files_amount, max_sub_folders_amount,
}
use virtual_file_system_c.Status.{StatusCode, Result, done, error, search_target_not_found, ◌>>>◌}
use virtual_file_system_c.Status.After.{Result-cases}
use virtual_file_system_c.Files.{FolderRef}
use virtual_file_system_c.Names.{name_eq}
use virtual_file_system_c.Paths.{parse_path}
use virtual_file_system_c.Folders.{
  VfsEntryStore, VfsNode, file_node, folder_node, folder_at, name_length, search_names, file_names,
  folder_names,
}
use virtual_file_system_c.Queries.{
  CString, search_sub_file, search_sub_folder, or_folder, get_vfs_node, resolve_folders,
  resolve_nodes, resolve_path,
}
use virtual_file_system_c.Tree.Settled.{IsSettled}
use virtual_file_system_c.Tree.Valid.{shape, IsTree}

-- The entry is in use.
abbrev pub IsLive : VfsEntryStore → VfsNode → Type 0
IsLive s (file_node f) = (shape s).live_file f ≡ true
IsLive s (folder_node r) = (shape s).home r ≡ true

search_names-bound :
    (k i : ℕ) (entries : ℕ → Option (ℕ → ℕ)) (name : ℕ → ℕ) (length j : ℕ)
    → search_names k i entries name length ≡ done (some j)
    → j < i + k
unfolding search_names
search_names-bound zero i entries name length j e = cc
search_names-bound (suc k) i entries name length j e = elim (Option-cases (entries i)) [
  | inl empty ↦ ground (arith, empty, search_names-bound k (i + 1) entries name length j)
  | inr (entry, at) ↦ elim (Result-cases (name_eq entry name length)) [
    | inr (c, bad) ↦ ground (arith, at, bad)
    | inl (b, good) ↦ elim (Bool-cases b) [
      | inl same ↦ ground (arith, at, good, same)
      | inr other ↦
          ground (arith, at, good, other, search_names-bound k (i + 1) entries name length j)
    ]
  ]
]

guarded :
    {A : Type 0} (b : Bool) (c : StatusCode) (x : Result A) (a : A)
    → (if b then error c else x) ≡ done a
    → x ≡ done a
guarded true c x a e = cc
guarded false c x a e = e

-- What a search by name hands out stands in the array.
found :
    {A : Type 0} (r : Result (Option ℕ)) (entries : ℕ → Option A) (a : A)
    → ((j : ℕ) → r ≡ done (some j) → j < 10)
    → (elim r [
      | error c ↦ error c
      | done none ↦ error search_target_not_found
      | done (some i) ↦ elim (entries i) [ none ↦ error search_target_not_found | some q ↦ done q ]
    ])
      ≡ done a
    → (i : ℕ) × (i < 10) × (entries i ≡ some a)
found (error c) entries a h e = cc
found (done none) entries a h e = cc
found (done (some i)) entries a h e = elim (Option-cases (entries i)) [
  | inl empty ↦ absurd (ground (arith, empty, e))
  | inr (q, at) ↦ (i, h i refl, ground (arith, at, e))
]

-- A file that is found stands in the folder.
search_sub_file_lem :
    (s : VfsEntryStore) (r : FolderRef) (name : ℕ → ℕ) (length f : ℕ)
    → search_sub_file s r name length ≡ done f
    → (i : ℕ) × (i < 10) × ((shape s).files r i ≡ some f)
unfolding search_sub_file
search_sub_file_lem s r name length f e =
    found (search_names max_sub_files_amount 0 (file_names s (folder_at s r)) name length)
      (folder_at s r).sub_files f
      (λ j. search_names-bound max_sub_files_amount 0 (file_names s (folder_at s r)) name length j)
      (guarded _ _ _ f e)

search_sub_folder_lem :
    (s : VfsEntryStore) (r : FolderRef) (name : ℕ → ℕ) (length : ℕ) (q : FolderRef)
    → search_sub_folder s r name length ≡ done q
    → (i : ℕ) × (i < 10) × ((shape s).subs r i ≡ some q)
unfolding search_sub_folder
search_sub_folder_lem s r name length q e =
    found (search_names max_sub_folders_amount 0 (folder_names s (folder_at s r)) name length)
      (folder_at s r).sub_folders q
      (λ j.
        search_names-bound max_sub_folders_amount 0 (folder_names s (folder_at s r)) name length j)
      (guarded _ _ _ q e)

done_inj : {A : Type 0} {a b : A} → done a ≡ done b → a ≡ b
done_inj e = cc

node_of :
    (s : VfsEntryStore) (a : Result ℕ) (b : Result FolderRef) (n : VfsNode)
    → ((f : ℕ) → a ≡ done f → IsLive s (file_node f))
    → ((q : FolderRef) → b ≡ done q → IsLive s (folder_node q))
    → or_folder a b ≡ done n
    → IsLive s n
unfolding or_folder
node_of s (done f) b n file folder e = subst (IsLive s) (done_inj e) (file f refl)
node_of s (error search_target_not_found) (done q) n file folder e =
    subst (IsLive s) (done_inj e) (folder q refl)
node_of s (error search_target_not_found) (error c) n file folder e = cc
node_of s (error c) b n file folder e = cc

module _ (s : VfsEntryStore) (tree : IsTree (shape s)) where
  -- In a folder that is in use or has no entries, what stands there is in use.
  sub_file_live :
      (r : FolderRef) (i f : ℕ)
      → IsSettled (shape s) r
      → i < 10
      → (shape s).files r i ≡ some f
      → (shape s).live_file f ≡ true
  sub_file_live r i f (inl h) lt e = let (live, _) = tree.files_linked.down r i f h lt e in live
  sub_file_live r i f (inr (a, b, _)) lt e = absurd (none_not (sym (b i lt) ∙ e))

  sub_folder_live :
      (r : FolderRef) (i : ℕ) (q : FolderRef)
      → IsSettled (shape s) r
      → i < 10
      → (shape s).subs r i ≡ some q
      → (shape s).home q ≡ true
  sub_folder_live r i q (inl h) lt e =
      let (live, _) = tree.folders_linked.down r i q h lt e in ground (arith, tree.proper q, live)
  sub_folder_live r i q (inr (a, b, _)) lt e = absurd (none_not (sym (a i lt) ∙ e))

  resolve_folders-IsSettled :
      (names : ℕ → ℕ → ℕ) (k i : ℕ) (r q : FolderRef)
      → IsSettled (shape s) r
      → resolve_folders s names k i r ≡ done q
      → IsSettled (shape s) q
  unfolding resolve_folders
  resolve_folders-IsSettled names zero i r q h e = subst (IsSettled (shape s)) (done_inj e) h
  resolve_folders-IsSettled names (suc k) i r q h e =
      elim (Result-cases (search_sub_folder s r (names i) (name_length (names i)))) [
        | inr (c, bad) ↦ absurd (ground (arith, bad, e))
        | inl (p, good) ↦
            let (j, lt, at) = search_sub_folder_lem s r (names i) (name_length (names i)) p good in
            resolve_folders-IsSettled names k (i + 1) p q (inl (sub_folder_live r j p h lt at))
              (ground (arith, good, e))
      ]

  get_vfs_node-IsLive :
      (name : ℕ → ℕ) (r : FolderRef) (n : VfsNode)
      → IsSettled (shape s) r
      → get_vfs_node s name r ≡ done n
      → IsLive s n
  unfolding get_vfs_node
  get_vfs_node-IsLive name r n h e =
      node_of s (search_sub_file s r name (name_length name))
        (search_sub_folder s r name (name_length name)) n
        (λ f at.
          let (i, lt, there) = search_sub_file_lem s r name (name_length name) f at in
          sub_file_live r i f h lt there)
        (λ q at.
          let (i, lt, there) = search_sub_folder_lem s r name (name_length name) q at in
          sub_folder_live r i q h lt there)
        e

  resolve_nodes-IsLive :
      (r : FolderRef) (amount : ℕ) (names : ℕ → ℕ → ℕ) (n : VfsNode)
      → IsSettled (shape s) r
      → resolve_nodes s r amount names ≡ done n
      → IsLive s n
  unfolding resolve_nodes
  resolve_nodes-IsLive r amount names n h e =
      let rest : (resolve_folders s names (amount - 1) 0 r >>> λ q.
      get_vfs_node s (names (amount - 1)) q)
          ≡ done n =
        guarded _ _ _ n e in
      elim (Result-cases (resolve_folders s names (amount - 1) 0 r)) [
        | inr (c, bad) ↦ absurd (ground (arith, bad, rest))
        | inl (q, good) ↦
            get_vfs_node-IsLive (names (amount - 1)) q n
              (resolve_folders-IsSettled names (amount - 1) 0 r q h good)
              (ground (arith, good, rest))
      ]

  -- A path is resolved to an entry that is in use: from a folder that is in use or has no entries, in
  -- a store whose entries are a tree.
  pub resolve_path-IsLive :
      (path : CString) (r : FolderRef) (n : VfsNode)
      → IsSettled (shape s) r
      → resolve_path s path r ≡ done n
      → IsLive s n
  unfolding resolve_path
  resolve_path-IsLive path r n h e =
      let rest : (parse_path path.chars path.length max_name_length max_path_nodes_amount (λ _ _. 0)
            >>> λ (amount, names). resolve_nodes s r amount names)
          ≡ done n =
        guarded _ _ _ n e in
      elim (Result-cases
        (parse_path path.chars path.length max_name_length max_path_nodes_amount (λ _ _. 0))) [
          | inr (c, bad) ↦ absurd (ground (arith, bad, rest))
          | inl (x, good) ↦ resolve_nodes-IsLive r x.0 x.1 n h (ground (arith, good, rest))
        ]
