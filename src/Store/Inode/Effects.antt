-- ===== src/Store/Inode/Effects.antt =====
-- What a successful call of each inode operation has checked, and what it wrote.
use astra_storage.Base.{
  String, ◌≡◌, ◌≢◌, refl, ap, subst, ◌∙◌, ◌⊎◌, inl, inr, true, false, ◌==◌, Option, none, some,
  arith, eq_iff, Option-cases,
}
use astra_storage.Base.Map.{lookup, erase, any_value, map_values}
use astra_storage.Metadata.Inode.{InodeMetadata, inode_type_directory}
use astra_storage.Store.State.{MemoryState, ok, err, Result-cases, StoreError, commit-err}
use astra_storage.Store.Requests.{
  InodeSelector, InodePatch, MoveInodeOperation, RenameInodeOperation, UpdateSubtreePathsOperation,
}
use astra_storage.Store.Select.{find_inode, name_taken, is_descendant}
use astra_storage.Store.Inode.{
  create_inode, update_inode, move_inode, rename_inode, delete_inode, update_subtree_paths,
  with_inode, without_file, rename_entry, check_rename, moved, new_name_of, enough, is_live_child,
  rebase,
}

pub create_inode-ok :
    (s : MemoryState) (i : InodeMetadata) {a : InodeMetadata}
    → (create_inode s (some i)).1 ≡ ok a
    → (lookup i.id s.inodes ≡ none)
      × ((i.id == "") ≡ false)
      × (name_taken s.inodes i.parent_id i.name i.id ≡ false)
      × ((create_inode s (some i)).0 ≡ with_inode s i.id (without_file i))
unfolding create_inode
create_inode-ok s i h = ground arith

pub create_inode-not_self :
    (s : MemoryState) (i : InodeMetadata) {a : InodeMetadata}
    → (create_inode s (some i)).1 ≡ ok a
    → i.parent_id ≢ i.id
unfolding create_inode
create_inode-not_self s i h p = ground (
  arith,
  eq_iff i.parent_id "",
  eq_iff i.id "",
  eq_iff i.parent_id i.id,
  ap (λ k. lookup k s.inodes) p,
)

-- The parent of the new inode is no inode, or a directory.
pub create_inode-parent :
    (s : MemoryState) (i p : InodeMetadata) {a : InodeMetadata}
    → (create_inode s (some i)).1 ≡ ok a
    → lookup i.parent_id s.inodes ≡ some p
    → (lookup "" s.inodes ≡ none)
    → (p.type == inode_type_directory) ≡ true
unfolding create_inode
create_inode-parent s i p h e n = ground (arith, eq_iff i.parent_id "")

module _ (s : MemoryState) (op : MoveInodeOperation) {a : Unit {0}}
    (done : (move_inode s op).1 ≡ ok a) where
  pub move_inode-found :
      (k : String) × (i p : InodeMetadata) × (find_inode s.inodes op.selector ≡ some (k, i))
      × (lookup op.target_parent_id s.inodes ≡ some p)
  unfolding move_inode
  move_inode-found = elim (Option-cases (find_inode s.inodes op.selector)) [
    | inl e ↦ absurd (ground arith)
    | inr ((k, i), e) ↦ elim (Option-cases (lookup op.target_parent_id s.inodes)) [
      | inl f ↦ absurd (ground arith)
      | inr (p, f) ↦ (k, i, p, e, f)
    ]
  ]

  pub move_inode-ok :
      (k : String) (i p : InodeMetadata)
      → find_inode s.inodes op.selector ≡ some (k, i)
      → lookup op.target_parent_id s.inodes ≡ some p
      → ((p.type == inode_type_directory) ≡ true)
        × ((i.id == op.target_parent_id) ≡ false)
        × (((i.type == inode_type_directory) ≡ false)
            ⊎ (is_descendant (enough s) s.inodes op.target_parent_id i.id ≡ some false))
        × (name_taken s.inodes op.target_parent_id (new_name_of op i) i.id ≡ false)
        × ((move_inode s op).0 ≡ with_inode s k (moved op i))
  unfolding move_inode
  move_inode-ok k i p e f = ground arith

pub check_rename-ok :
    (s : MemoryState) (op : RenameInodeOperation) {k : String} {i : InodeMetadata}
    → check_rename s op ≡ ok (k, i)
    → (find_inode s.inodes op.selector ≡ some (k, i))
      × (name_taken s.inodes i.parent_id op.new_name i.id ≡ false)
unfolding check_rename
check_rename-ok s op {k} {i} h = elim (Option-cases (find_inode s.inodes op.selector)) [
  | inl e ↦ absurd (ground arith)
  | inr ((l, j), e) ↦
      let same : Path (String × InodeMetadata) (l, j) (k, i) = ground arith in
      let free : name_taken s.inodes j.parent_id op.new_name j.id ≡ false = ground arith in
      (
        e ∙ ap some same,
        subst
            (λ (x : String × InodeMetadata).
              name_taken s.inodes x.1.parent_id op.new_name x.1.id ≡ false)
            same free,
      )
]

pub rename_inode-ok :
    (s : MemoryState) (op : RenameInodeOperation)
    → ((rename_inode s op).0 ≡ s)
      ⊎ ((k : String) × (i : InodeMetadata) × (find_inode s.inodes op.selector ≡ some (k, i))
          × (name_taken s.inodes i.parent_id op.new_name i.id ≡ false)
          × (rename_inode s op ≡ rename_entry s op k i))
rename_inode-ok s op = elim (Result-cases (check_rename s op)) [
  | inr (e, h) ↦ inl (unfold rename_inode in rw (h, rename_inode))
  | inl ((k, i), h) ↦ inr (
    k,
    i,
    (check_rename-ok s op h).0,
    (check_rename-ok s op h).1,
    unfold rename_inode in rw (h, rename_inode),
  )
]

pub delete_inode-ok :
    (s : MemoryState) (q : InodeSelector) {a : Unit {0}}
    → (delete_inode s q).1 ≡ ok a
    → (k : String) × (i : InodeMetadata) × (find_inode s.inodes q ≡ some (k, i))
      × (any_value (is_live_child i.id) s.inodes ≡ false)
      × ((delete_inode s q).0 ≡ record s { inodes = erase i.id s.inodes })
unfolding delete_inode
delete_inode-ok s q h = elim (Option-cases (find_inode s.inodes q)) [
  | inl e ↦ absurd (ground arith)
  | inr ((k, i), e) ↦ (k, i, e, ground arith, ground arith)
]

pub update_subtree_paths-ok :
    (s : MemoryState) (op : UpdateSubtreePathsOperation) {a : Unit {0}}
    → (update_subtree_paths s op).1 ≡ ok a
    → (root : InodeMetadata) × (lookup op.root_id s.inodes ≡ some root)
      × ((update_subtree_paths s op).0
          ≡ record s { inodes = map_values (rebase s op root) s.inodes })
unfolding update_subtree_paths
update_subtree_paths-ok s op h = elim (Option-cases (lookup op.root_id s.inodes)) [
  | inl e ↦ absurd (ground arith)
  | inr (root, e) ↦ (root, e, ground arith)
]

-- Refused calls.
pub create_inode-err :
    (s : MemoryState) (o : Option InodeMetadata) {e : StoreError}
    → (create_inode s o).1 ≡ err e
    → (create_inode s o).0 ≡ s
unfolding create_inode
create_inode-err s none h = refl
create_inode-err s (some i) h = commit-err s _ h

pub update_inode-err :
    (s : MemoryState) (p : InodePatch) {e : StoreError}
    → (update_inode s p).1 ≡ err e
    → (update_inode s p).0 ≡ s
unfolding update_inode
update_inode-err s p h = commit-err s _ h

pub move_inode-err :
    (s : MemoryState) (op : MoveInodeOperation) {e : StoreError}
    → (move_inode s op).1 ≡ err e
    → (move_inode s op).0 ≡ s
unfolding move_inode
move_inode-err s op h = commit-err s _ h

pub delete_inode-err :
    (s : MemoryState) (q : InodeSelector) {e : StoreError}
    → (delete_inode s q).1 ≡ err e
    → (delete_inode s q).0 ≡ s
unfolding delete_inode
delete_inode-err s q h = commit-err s _ h

pub update_subtree_paths-err :
    (s : MemoryState) (op : UpdateSubtreePathsOperation) {e : StoreError}
    → (update_subtree_paths s op).1 ≡ err e
    → (update_subtree_paths s op).0 ≡ s
unfolding update_subtree_paths
update_subtree_paths-err s op h = commit-err s _ h
