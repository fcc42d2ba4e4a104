-- ===== src/Store/Inode/Tests.antt =====
-- Runs of the tree operations on a small tree.
use astra_storage.Base.{
  String, inl, inr, List, [], ◌∷◌, none, some, true, false, ◌≡◌, ◌≢◌, refl, sym, ◌∙◌, ◌⊎◌, ◌==◌,
  eq_iff, true-ne-false,
}
use astra_storage.Base.Map.{Map, lookup, insert, any_value, map_values}
use astra_storage.Base.Text.{strip_prefix}
use astra_storage.Base.Map.Loops.{any_value-false}
use astra_storage.Metadata.Inode.{InodeMetadata, InodeId}
use astra_storage.Store.State.{MemoryState, new_memory_state, err, invalid_argument, diverged}
use astra_storage.Store.Requests.{MoveInodeOperation, UpdateSubtreePathsOperation}
use astra_storage.Store.Select.{find_inode, is_descendant, name_taken}
use astra_storage.Store.Inode.{create_inode, move_inode, update_subtree_paths, enough}
use astra_storage.Store.Inode.Walk.{Below}
use astra_storage.Store.Inode.Invariant.{IsTree}
use astra_storage.Store.Inode.Step.{HasNoChild}
use astra_storage.Store.Inode.Ends.{
  is_descendant-decides, move_inode_ends, update_subtree_paths_ends,
}
use astra_storage.Store.Inode.Run.{
  TreeCall, create, move, rebases, run_calls, after_call, AllFresh, run_calls-IsTree, IsTree-empty,
}
use astra_storage.Store.Fixtures.{root, docs, pics, note, inode_of}

pub HasNoChild-of_test :
    (m : Map InodeMetadata) (x : InodeId)
    → any_value (λ i. i.parent_id == x) m ≡ false
    → HasNoChild m x
HasNoChild-of_test m x h k i e p = true-ne-false (
    sym ((eq_iff i.parent_id x).1 p)
    ∙ any_value-false (λ (j : InodeMetadata). j.parent_id == x) m k h e)

abbrev docs_to : String → MoveInodeOperation
docs_to target = record {
  selector = inode_of "i1";
  target_parent_id = target;
  target_parent_path = "/pics";
  new_name = "";
  expected_type = none;
  updated_at = 4;
}

abbrev rebased : UpdateSubtreePathsOperation
rebased = record {
  namespace = "";
  root_id = "i1";
  old_prefix = "/docs";
  new_prefix = "/pics/docs";
  updated_at = 4;
}

abbrev calls : List TreeCall
calls =
    create (some root)
    ∷ create (some docs)
    ∷ create (some pics)
    ∷ create (some note)
    ∷ create (some docs)
    ∷ move (docs_to "i2")
    ∷ rebases rebased
    ∷ []

calls-AllFresh : AllFresh new_memory_state calls
unfolding run_calls after_call create_inode lookup insert any_value name_taken
calls-AllFresh = (
  inr (inr (HasNoChild-of_test new_memory_state.inodes "root" refl)),
  (
    inr (
        inr (
          HasNoChild-of_test (run_calls new_memory_state (create (some root) ∷ [])).inodes "i1"
            refl)),
    (
      inr (
          inr (
            HasNoChild-of_test
              (run_calls new_memory_state (create (some root) ∷ create (some docs) ∷ [])).inodes
              "i2" refl)),
      (
        inr (
            inr (
              HasNoChild-of_test
                (run_calls new_memory_state
                  (create (some root) ∷ create (some docs) ∷ create (some pics) ∷ [])).inodes
                "i3" refl)),
        (inr (inl (docs, refl)), (tt, (tt, tt))),
      ),
    ),
  ),
)

run_calls-IsTree_example : IsTree (run_calls new_memory_state calls).inodes
run_calls-IsTree_example = run_calls-IsTree new_memory_state calls IsTree-empty calls-AllFresh

abbrev pub grown : MemoryState
grown = run_calls new_memory_state calls

pub grown-IsTree : IsTree grown.inodes
grown-IsTree = run_calls-IsTree new_memory_state calls IsTree-empty calls-AllFresh

into_itself : (move_inode grown (docs_to "i1")).1 ≡ err invalid_argument
unfolding run_calls after_call create_inode move_inode update_subtree_paths find_inode lookup insert
    any_value name_taken is_descendant strip_prefix map_values
into_itself = refl

is_descendant-decides_example :
    ((is_descendant (enough grown) grown.inodes "i3" "root" ≡ some true)
      × Below grown.inodes "root" "i3")
    ⊎ ((is_descendant (enough grown) grown.inodes "i3" "root" ≡ some false)
        × (¬ Below grown.inodes "root" "i3"))
is_descendant-decides_example = is_descendant-decides grown "i3" "root" grown-IsTree.rooted

move_inode_ends_example : (move_inode grown (docs_to "i2")).1 ≢ err diverged
move_inode_ends_example = move_inode_ends grown (docs_to "i2") grown-IsTree.rooted

rebase_ends : (update_subtree_paths grown rebased).1 ≢ err diverged
rebase_ends = update_subtree_paths_ends grown rebased grown-IsTree.rooted
