-- ===== src/Store/Inode/Step.antt =====
-- The operations of internal/mds/store/memory_inode.go, and the invariant of the inode table.
use astra_storage.Base.{
  ◌≡◌, ◌≢◌, refl, sym, subst, ◌∙◌, ◌⊎◌, inl, inr, true, false, ◌==◌, Option, none, some, arith,
  Bool-cases, Option-cases, ne-of-test, test-of-ne, true-ne-false,
}
use astra_storage.Base.Map.{Map, lookup}
use astra_storage.Base.Map.Laws.{none-ne-some, same_value}
use astra_storage.Metadata.Inode.{InodeMetadata, InodeId, inode_type_directory}
use astra_storage.Store.State.{MemoryState, ok, Result-cases}
use astra_storage.Store.Requests.{
  InodeSelector, MoveInodeOperation, RenameInodeOperation, UpdateSubtreePathsOperation,
}
use astra_storage.Store.Select.{
  find_inode, find_inode-some, is_descendant, name_taken, replace_base_name,
}
use astra_storage.Store.Inode.{
  create_inode, move_inode, rename_inode, rename_entry, delete_inode, update_subtree_paths,
  without_file, moved, new_name_of, enough, rebase,
}
use astra_storage.Store.Inode.Effects.{
  create_inode-err, move_inode-err, delete_inode-err, update_subtree_paths-err, create_inode-ok,
  create_inode-not_self, create_inode-parent, move_inode-found, move_inode-ok, rename_inode-ok,
  delete_inode-ok, update_subtree_paths-ok,
}
use astra_storage.Store.Inode.Walk.{Below, child, deeper, is_descendant-false}
use astra_storage.Store.Inode.Tree.{IsRooted-acyclic}
use astra_storage.Store.Inode.Invariant.{
  IsTree, IsTree-insert, IsTree-erase, IsTree-map_values, Keeps, Fits, is_directory,
}

-- No inode names `x` as its parent.
abbrev pub HasNoChild : Map InodeMetadata → InodeId → Type 0
HasNoChild m x = (k : InodeId) (i : InodeMetadata) → lookup k m ≡ some i → i.parent_id ≢ x

-- The id is taken, so that no inode can be created with it, or no inode names it as its parent.
abbrev pub IsTakenOrNew : Map InodeMetadata → InodeId → Type 0
IsTakenOrNew m x = ((i : InodeMetadata) × (lookup x m ≡ some i)) ⊎ HasNoChild m x

Below-of_none : {m : Map InodeMetadata} {x c : InodeId} → HasNoChild m x → Below m x c → ⊥
Below-of_none n (child {c = c} i e p) = n c i e p
Below-of_none n (deeper i e b) = Below-of_none n b

module _ (s : MemoryState) (t : IsTree s.inodes) where
  at :
      (q : InodeSelector) {k : InodeId} {i : InodeMetadata}
      → find_inode s.inodes q ≡ some (k, i)
      → lookup k s.inodes ≡ some i
  at q h = find_inode-some s.inodes q t.is_map h

  key-not_empty : (k : InodeId) (i : InodeMetadata) → lookup k s.inodes ≡ some i → (k == "") ≡ false
  key-not_empty k i e = test-of-ne k "" (λ q. none-ne-some (sym t.no_empty ∙ rw q at e))

  -- What replaces an inode without moving it.
  Fits-in_place :
      (k : InodeId) (i i' : InodeMetadata)
      → lookup k s.inodes ≡ some i
      → i'.id ≡ i.id
      → i'.parent_id ≡ i.parent_id
      → i'.type ≡ i.type
      → name_taken s.inodes i.parent_id i'.name i.id ≡ false
      → Fits s.inodes k i'
  Fits-in_place k i i' e a b c free = record {
    named = a ∙ t.keyed k i e;
    not_empty = key-not_empty k i e;
    parent_dir = λ p h. t.dirs k i p e (rw (← b) h);
    child_dir = λ l j f q. rw c (t.dirs l j i f (rw q e));
    not_self = λ q. IsRooted-acyclic s.inodes k t.rooted (child i e (sym b ∙ q));
    not_below = λ q. IsRooted-acyclic s.inodes k t.rooted (deeper i e (rw (← b) q));
    name_free = rw (b, ← t.keyed k i e) free;
  }

  create-Fits :
      (i : InodeMetadata) {a : InodeMetadata}
      → HasNoChild s.inodes i.id
      → (create_inode s (some i)).1 ≡ ok a
      → Fits s.inodes i.id (without_file i)
  create-Fits i n h = elim (Bool-cases (i.type == inode_type_directory)) [
    | inl d ↦ rw d (fits (record i { file_id = "" }) refl refl refl)
    | inr d ↦ rw d (fits i refl refl refl)
  ]
    where
      fits :
          (j : InodeMetadata)
          → j.id ≡ i.id
          → j.parent_id ≡ i.parent_id
          → j.name ≡ i.name
          → Fits s.inodes i.id j
      fits j a b c =
          let (fresh, nonempty, free, done) = create_inode-ok s i h in
          record {
            named = a;
            not_empty = nonempty;
            parent_dir = λ p e. create_inode-parent s i p h (rw (← b) e) t.no_empty;
            child_dir = λ k l e q. absurd (n k l e q);
            not_self = λ q. create_inode-not_self s i h (sym b ∙ q);
            not_below = λ q. Below-of_none n q;
            name_free = rw (b, c) free;
          }

  -- What has something below it is a directory.
  Below-directory :
      (x : InodeId) (i : InodeMetadata) {c : InodeId}
      → lookup x s.inodes ≡ some i
      → Below s.inodes x c
      → is_directory i ≡ true
  Below-directory x i e (child {c = c} j f p) = t.dirs c j i f (rw p e)
  Below-directory x i e (deeper j f b) = Below-directory x i e b

  move-not-Below :
      (k : InodeId) (i : InodeMetadata) (target : InodeId)
      → lookup k s.inodes ≡ some i
      → (((i.type == inode_type_directory) ≡ false)
          ⊎ (is_descendant (enough s) s.inodes target i.id ≡ some false))
      → Below s.inodes k target
      → ⊥
  move-not-Below k i target e (inl file) b = true-ne-false (sym (Below-directory k i e b) ∙ file)
  move-not-Below k i target e (inr out) b =
      is_descendant-false (enough s) s.inodes target k
        (subst (λ x. is_descendant (enough s) s.inodes target x ≡ some false) (t.keyed k i e) out) b

  pub create_inode-IsTree :
      (o : Option InodeMetadata)
      → ((i : InodeMetadata) → o ≡ some i → IsTakenOrNew s.inodes i.id)
      → IsTree (create_inode s o).0.inodes
  create_inode-IsTree none n = unfold create_inode in t
  create_inode-IsTree (some i) n = elim (Result-cases (create_inode s (some i)).1) [
    | inl (a, h) ↦
        let (fresh, nonempty, free, done) = create_inode-ok s i h in
        elim (n i refl) [
          | inl (j, taken) ↦ absurd (none-ne-some (sym fresh ∙ taken))
          | inr new ↦ rw done (IsTree-insert s.inodes t i.id (without_file i) (create-Fits i new h))
        ]
    | inr (e, h) ↦ rw (create_inode-err s (some i) h) t
  ]

  pub move_inode-IsTree : (op : MoveInodeOperation) → IsTree (move_inode s op).0.inodes
  move_inode-IsTree op = elim (Result-cases (move_inode s op).1) [
    | inl (a, h) ↦
        let (k, i, p, found, parent) = move_inode-found s op h in
        let (dir, other, outside, free, done) = move_inode-ok s op h k i p found parent in
        rw done (
          IsTree-insert s.inodes t k (moved op i) (record {
            named = t.keyed k i (at op.selector found);
            not_empty = key-not_empty k i (at op.selector found);
            parent_dir = λ q e. rw (same_value e parent) dir;
            child_dir = λ l j f q. t.dirs l j i f (rw q (at op.selector found));
            not_self = λ q.
                ne-of-test i.id op.target_parent_id other
                  (t.keyed k i (at op.selector found) ∙ sym q);
            not_below = move-not-Below k i op.target_parent_id (at op.selector found) outside;
            name_free =
                subst (λ x. name_taken s.inodes op.target_parent_id (new_name_of op i) x ≡ false)
                  (t.keyed k i (at op.selector found)) free;
          }))
    | inr (e, h) ↦ rw (move_inode-err s op h) t
  ]

  pub rename_inode-IsTree : (op : RenameInodeOperation) → IsTree (rename_inode s op).0.inodes
  unfolding rename_entry
  rename_inode-IsTree op = elim (rename_inode-ok s op) [
    | inl same ↦ rw same t
    | inr (k, i, found, free, done) ↦
        rw done (elim (Option-cases (replace_base_name i.path op.new_name)) [
          | inl e ↦
              rw (e, rename_entry)
                (IsTree-insert s.inodes t k (record i { name = op.new_name })
                  (Fits-in_place k i (record i { name = op.new_name }) (at op.selector found) refl
                    refl refl free))
          | inr (path, e) ↦
              let new : InodeMetadata = record i {
                name = op.new_name;
                path = path;
                updated_at = op.updated_at;
              } in
              rw (e, rename_entry)
                (IsTree-insert s.inodes t k new
                  (Fits-in_place k i new (at op.selector found) refl refl refl free))
        ])
  ]

  pub delete_inode-IsTree : (q : InodeSelector) → IsTree (delete_inode s q).0.inodes
  delete_inode-IsTree q = elim (Result-cases (delete_inode s q).1) [
    | inl (a, h) ↦
        let (k, i, found, free, done) = delete_inode-ok s q h in
        rw done (IsTree-erase s.inodes t i.id)
    | inr (e, h) ↦ rw (delete_inode-err s q h) t
  ]

  rebase-Keeps :
      (op : UpdateSubtreePathsOperation) (root : InodeMetadata) → Keeps (rebase s op root)
  rebase-Keeps op root = record {
    same_id = λ i. ground arith;
    same_parent = λ i. ground arith;
    same_name = λ i. ground arith;
    same_type = λ i. ground arith;
    same_status = λ i. ground arith;
  }

  pub update_subtree_paths-IsTree :
      (op : UpdateSubtreePathsOperation) → IsTree (update_subtree_paths s op).0.inodes
  update_subtree_paths-IsTree op = elim (Result-cases (update_subtree_paths s op).1) [
    | inl (a, h) ↦
        let (root, found, done) = update_subtree_paths-ok s op h in
        rw done (IsTree-map_values s.inodes (rebase s op root) (rebase-Keeps op root) t)
    | inr (e, h) ↦ rw (update_subtree_paths-err s op h) t
  ]
