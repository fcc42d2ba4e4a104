-- ===== src/Store/Inode/Ends.antt =====
-- The walks of `moveInode` and `updateSubtreePaths`, internal/mds/store/memory_inode.go, and their fuel.
use astra_storage.Base.{
  ◌≡◌, ◌≢◌, ◌⊎◌, inl, inr, Bool, true, false, not, some, is_some, arith, Option-cases,
}
use astra_storage.Base.Map.{lookup, any_value}
use astra_storage.Base.Map.Loops.{any_value-never}
use astra_storage.Metadata.Inode.{InodeMetadata, InodeId}
use astra_storage.Store.State.{MemoryState, err, diverged}
use astra_storage.Store.Requests.{MoveInodeOperation, UpdateSubtreePathsOperation}
use astra_storage.Store.Select.{find_inode, is_descendant}
use astra_storage.Store.Inode.{move_inode, update_subtree_paths, enough, in_subtree}
use astra_storage.Store.Inode.Walk.{
  Below, IsRooted, is_descendant_total, is_descendant-true, is_descendant-false, Ascends-le-size,
}

walk_ends :
    (s : MemoryState)
    → IsRooted s.inodes
    → (c a : InodeId) → (b : Bool) × (is_descendant (enough s) s.inodes c a ≡ some b)
walk_ends s r c a =
    is_descendant_total (enough s) (r c).0 s.inodes c a (r c).1
      (omega (arith, Ascends-le-size (r c).0 s.inodes c (r c).1))

-- On a table without cycles the walk returns within its fuel: true exactly where `c` is below `a`.
pub is_descendant-decides :
    (s : MemoryState) (c a : InodeId)
    → IsRooted s.inodes
    → ((is_descendant (enough s) s.inodes c a ≡ some true) × Below s.inodes a c)
      ⊎ ((is_descendant (enough s) s.inodes c a ≡ some false) × (¬ Below s.inodes a c))
is_descendant-decides s c a r = decide (walk_ends s r c a).0 (walk_ends s r c a).1
  where
    decide :
        (b : Bool)
        → is_descendant (enough s) s.inodes c a ≡ some b
        → ((is_descendant (enough s) s.inodes c a ≡ some true) × Below s.inodes a c)
          ⊎ ((is_descendant (enough s) s.inodes c a ≡ some false) × (¬ Below s.inodes a c))
    decide true e = inl (e, is_descendant-true (enough s) s.inodes c a e)
    decide false e = inr (e, is_descendant-false (enough s) s.inodes c a e)

-- On a table without cycles a move never runs out of fuel.
pub move_inode_ends :
    (s : MemoryState) (op : MoveInodeOperation)
    → IsRooted s.inodes
    → (move_inode s op).1 ≢ err diverged
unfolding move_inode
move_inode_ends s op r h = elim (Option-cases (find_inode s.inodes op.selector)) [
  | inl e ↦ ground arith
  | inr ((k, i), e) ↦ let (b, w) = walk_ends s r op.target_parent_id i.id in ground arith
]

in_subtree_ends :
    (s : MemoryState)
    → IsRooted s.inodes
    → (op : UpdateSubtreePathsOperation) (root i : InodeMetadata)
    → not (is_some (in_subtree s op root i)) ≡ false
in_subtree_ends s r op root i = let (b, w) = walk_ends s r i.id root.id in ground arith

-- On a table without cycles a path update never runs out of fuel.
pub update_subtree_paths_ends :
    (s : MemoryState) (op : UpdateSubtreePathsOperation)
    → IsRooted s.inodes
    → (update_subtree_paths s op).1 ≢ err diverged
unfolding update_subtree_paths
update_subtree_paths_ends s op r h = elim (Option-cases (lookup op.root_id s.inodes)) [
  | inl e ↦ ground arith
  | inr (root, e) ↦
      let quiet : any_value (λ i. not (is_some (in_subtree s op root i))) s.inodes ≡ false =
        any_value-never _ s.inodes (λ i. in_subtree_ends s r op root i) in
      ground arith
]
