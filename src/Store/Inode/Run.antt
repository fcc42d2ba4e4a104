-- ===== src/Store/Inode/Run.antt =====
-- Sequences of tree operations from an empty repository.
use astra_storage.Base.{zero, refl, ◌≡◌, ◌⊎◌, inl, inr, subst, Option, none, some, List, [], ◌∷◌}
use astra_storage.Base.Map.{lookup}
use astra_storage.Base.Map.Laws.{none-ne-some, same_value}
use astra_storage.Metadata.Inode.{InodeMetadata}
use astra_storage.Store.Inode.Effects.{create_inode-err}
use astra_storage.Store.State.{MemoryState, new_memory_state, StoreError, err}
use astra_storage.Store.Requests.{
  InodeSelector, MoveInodeOperation, RenameInodeOperation, UpdateSubtreePathsOperation,
}
use astra_storage.Store.Inode.{
  create_inode, move_inode, rename_inode, delete_inode, update_subtree_paths,
}
use astra_storage.Store.Inode.Walk.{stop}
use astra_storage.Store.Inode.Invariant.{IsTree}
use astra_storage.Store.Inode.Step.{
  IsTakenOrNew, create_inode-IsTree, move_inode-IsTree, rename_inode-IsTree, delete_inode-IsTree,
  update_subtree_paths-IsTree,
}

-- The calls that change the shape or the names of the tree, but for `UpdateInode`.
pub data TreeCall : Type 0 where
  create : Option InodeMetadata → TreeCall
  move : MoveInodeOperation → TreeCall
  rename : RenameInodeOperation → TreeCall
  delete : InodeSelector → TreeCall
  rebases : UpdateSubtreePathsOperation → TreeCall

-- The tables after the call, whether it succeeds or fails.
unfoldable pub after_call : MemoryState → TreeCall → MemoryState
after_call s (create i) = (create_inode s i).0
after_call s (move op) = (move_inode s op).0
after_call s (rename op) = (rename_inode s op).0
after_call s (delete q) = (delete_inode s q).0
after_call s (rebases op) = (update_subtree_paths s op).0

unfoldable pub run_calls : MemoryState → List TreeCall → MemoryState
run_calls s [] = s
run_calls s (c ∷ cs) = run_calls (after_call s c) cs

-- A creation is refused, or the id is taken, or is not the parent of an inode that a deletion has left
-- behind.
abbrev pub IsFresh : MemoryState → TreeCall → Type 0
IsFresh s (create none) = Unit
IsFresh s (create (some i)) =
    ((e : StoreError) × ((create_inode s (some i)).1 ≡ err e)) ⊎ IsTakenOrNew s.inodes i.id
IsFresh s _ = Unit

abbrev pub AllFresh : MemoryState → List TreeCall → Type 0
AllFresh s [] = Unit
AllFresh s (c ∷ cs) = IsFresh s c × AllFresh (after_call s c) cs

after_call-IsTree :
    (s : MemoryState) (c : TreeCall)
    → IsFresh s c
    → IsTree s.inodes
    → IsTree (after_call s c).inodes
unfolding after_call
after_call-IsTree s (create none) f t =
    create_inode-IsTree s t none (λ i e. absurd (none-ne-some e))
after_call-IsTree s (create (some i)) f t = elim f [
  | inl (e, h) ↦ rw (create_inode-err s (some i) h) t
  | inr new ↦ create_inode-IsTree s t (some i) (λ j e.
      subst (λ (x : InodeMetadata). IsTakenOrNew s.inodes x.id) (same_value {o = some i} refl e)
        new)
]
after_call-IsTree s (move op) f t = move_inode-IsTree s t op
after_call-IsTree s (rename op) f t = rename_inode-IsTree s t op
after_call-IsTree s (delete q) f t = delete_inode-IsTree s t q
after_call-IsTree s (rebases op) f t = update_subtree_paths-IsTree s t op

-- After any sequence of creations, moves, renames, deletions and path updates, each refused or not,
-- the inode table is a tree, if it was one and each creation is refused, or its id is taken at that time,
-- or no inode that a deletion has left behind names that id as its parent: ids are keys, what has a child is a directory, no inode is above
-- itself, and two live inodes of one directory have different names.
pub run_calls-IsTree :
    (s : MemoryState) (cs : List TreeCall)
    → IsTree s.inodes
    → AllFresh s cs
    → IsTree (run_calls s cs).inodes
unfolding run_calls
run_calls-IsTree s [] t f = t
run_calls-IsTree s (c ∷ cs) t f =
    run_calls-IsTree (after_call s c) cs (after_call-IsTree s c f.0 t) f.1

pub IsTree-empty : IsTree new_memory_state.inodes
unfolding lookup
IsTree-empty = record {
  is_map = tt;
  keyed = λ k i e. absurd (none-ne-some e);
  no_empty = refl;
  dirs = λ k i p e g. absurd (none-ne-some e);
  rooted = λ k. (zero, stop refl);
  siblings = λ k l i j e g. absurd (none-ne-some e);
}
