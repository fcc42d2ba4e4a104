-- ===== src/Store/Inode/Invariant.antt =====
-- The invariant of the inode table, and the three ways in which the operations change the table.
use astra_storage.Base.{
  ◌≡◌, ◌≢◌, sym, subst, ◌∙◌, inl, inr, Bool, true, false, not, ◌==◌, none, some, arith, eq_iff, ap,
}
use astra_storage.Base.Map.{Map, lookup, insert, erase, map_values, IsMap}
use astra_storage.Base.Map.Laws.{
  lookup-insert, lookup-erase, lookup-map_values, insert-cases, erase-some, map_values-some,
  IsMap-insert, IsMap-erase, IsMap-map_values,
}
use astra_storage.Base.Map.Loops.{any_value-false}
use astra_storage.Metadata.Inode.{
  InodeMetadata, InodeId, inode_type_directory, inode_status_deleted,
}
use astra_storage.Store.Select.{name_taken}
use astra_storage.Store.Inode.Walk.{IsRooted, Below}
use astra_storage.Store.Inode.Tree.{
  IsRooted-insert, IsRooted-erase, IsRooted-SameParents, SameParents,
}

abbrev pub is_live : InodeMetadata → Bool
is_live i = not (i.status == inode_status_deleted)

abbrev pub is_directory : InodeMetadata → Bool
is_directory i = i.type == inode_type_directory

pub record IsTree (m : Map InodeMetadata) : Type 0 where
  -- An inode stands under its own id, which is not empty.
  pub is_map : IsMap m
  pub keyed : (k : InodeId) (i : InodeMetadata) → lookup k m ≡ some i → i.id ≡ k
  pub no_empty : lookup "" m ≡ none
  -- What has a child is a directory.
  pub dirs :
      (k : InodeId) (i p : InodeMetadata)
      → lookup k m ≡ some i
      → lookup i.parent_id m ≡ some p
      → is_directory p ≡ true
  -- No inode is above itself.
  pub rooted : IsRooted m
  -- Two live inodes of one directory have different names.
  pub siblings :
      (k l : InodeId) (i j : InodeMetadata)
      → lookup k m ≡ some i
      → lookup l m ≡ some j
      → i.parent_id ≡ j.parent_id
      → i.name ≡ j.name
      → is_live i ≡ true
      → is_live j ≡ true
      → k ≡ l

-- What an inode written at `x` must satisfy.
pub record Fits (m : Map InodeMetadata) (x : InodeId) (i' : InodeMetadata) : Type 0 where
  pub named : i'.id ≡ x
  pub not_empty : (x == "") ≡ false
  pub parent_dir : (p : InodeMetadata) → lookup i'.parent_id m ≡ some p → is_directory p ≡ true
  pub child_dir :
      (k : InodeId) (i : InodeMetadata)
      → lookup k m ≡ some i
      → i.parent_id ≡ x
      → is_directory i' ≡ true
  pub not_self : i'.parent_id ≢ x
  pub not_below : Below m x i'.parent_id → ⊥
  pub name_free : name_taken m i'.parent_id i'.name x ≡ false

module _ (m : Map InodeMetadata) (t : IsTree m) where
  -- A live sibling with the name of the written inode is the inode itself.
  name_free-same :
      (x k : InodeId) (i' i : InodeMetadata)
      → name_taken m i'.parent_id i'.name x ≡ false
      → lookup k m ≡ some i
      → i.parent_id ≡ i'.parent_id
      → i.name ≡ i'.name
      → is_live i ≡ true
      → k ≡ x
  unfolding name_taken
  name_free-same x k i' i free e p n live = ground (
    arith,
    any_value-false _ m k free e,
    eq_iff i.parent_id i'.parent_id,
    eq_iff i.name i'.name,
    eq_iff i.id x,
    t.keyed k i e,
  )

  module _ (x : InodeId) (i' : InodeMetadata) (f : Fits m x i') where
    insert-dirs :
        (k : InodeId) (i p : InodeMetadata)
        → lookup k (insert x i' m) ≡ some i
        → lookup i.parent_id (insert x i' m) ≡ some p
        → is_directory p ≡ true
    insert-dirs k i p e g = elim (insert-cases x k i' i m e) [
      | inl (_, new) ↦ elim (insert-cases x i.parent_id i' p m g) [
        | inl (at, _) ↦ absurd (f.not_self (sym (ap (λ (y : InodeMetadata). y.parent_id) new) ∙ at))
        | inr (_, old) ↦
            f.parent_dir p (subst (λ (y : InodeMetadata). lookup y.parent_id m ≡ some p) new old)
      ]
      | inr (_, old) ↦ elim (insert-cases x i.parent_id i' p m g) [
        | inl (at, new) ↦ rw new (f.child_dir k i old at)
        | inr (_, old') ↦ t.dirs k i p old old'
      ]
    ]

    insert-siblings :
        (k l : InodeId) (i j : InodeMetadata)
        → lookup k (insert x i' m) ≡ some i
        → lookup l (insert x i' m) ≡ some j
        → i.parent_id ≡ j.parent_id
        → i.name ≡ j.name
        → is_live i ≡ true
        → is_live j ≡ true
        → k ≡ l
    insert-siblings k l i j e g p n u v = elim (insert-cases x k i' i m e) [
      | inl (at, new) ↦ elim (insert-cases x l i' j m g) [
        | inl (at', _) ↦ at ∙ sym at'
        | inr (_, old) ↦
            at
            ∙ sym (
                name_free-same x l i' j f.name_free old
                  (sym p ∙ ap (λ (y : InodeMetadata). y.parent_id) new)
                  (sym n ∙ ap (λ (y : InodeMetadata). y.name) new) v)
      ]
      | inr (_, old) ↦ elim (insert-cases x l i' j m g) [
        | inl (at, new) ↦
            name_free-same x k i' i f.name_free old
              (p ∙ ap (λ (y : InodeMetadata). y.parent_id) new)
              (n ∙ ap (λ (y : InodeMetadata). y.name) new) u
            ∙ sym at
        | inr (_, old') ↦ t.siblings k l i j old old' p n u v
      ]
    ]

  pub IsTree-insert : (x : InodeId) (i' : InodeMetadata) → Fits m x i' → IsTree (insert x i' m)
  IsTree-insert x i' f = record {
    is_map = IsMap-insert x i' m t.is_map;
    keyed = λ k i e. elim (insert-cases x k i' i m e) [
      | inl (p, q) ↦ rw (p, q) f.named
      | inr (p, q) ↦ t.keyed k i q
    ];
    no_empty = lookup-insert x "" i' m ∙ rw f.not_empty t.no_empty;
    dirs = insert-dirs x i' f;
    rooted = IsRooted-insert m x i' t.rooted f.not_self f.not_below;
    siblings = insert-siblings x i' f;
  }

  pub IsTree-erase : (x : InodeId) → IsTree (erase x m)
  IsTree-erase x = record {
    is_map = IsMap-erase x m t.is_map;
    keyed = λ k i e. t.keyed k i (erase-some x k i m e).1;
    no_empty = lookup-erase x "" m ∙ rw t.no_empty (ground arith);
    dirs = λ k i p e g. t.dirs k i p (erase-some x k i m e).1 (erase-some x i.parent_id p m g).1;
    rooted = IsRooted-erase m x t.rooted;
    siblings = λ k l i j e g. t.siblings k l i j (erase-some x k i m e).1 (erase-some x l j m g).1;
  }

-- A change of each inode that keeps what the invariant reads.
pub record Keeps (f : InodeMetadata → InodeMetadata) : Type 0 where
  pub same_id : (i : InodeMetadata) → (f i).id ≡ i.id
  pub same_parent : (i : InodeMetadata) → (f i).parent_id ≡ i.parent_id
  pub same_name : (i : InodeMetadata) → (f i).name ≡ i.name
  pub same_type : (i : InodeMetadata) → (f i).type ≡ i.type
  pub same_status : (i : InodeMetadata) → (f i).status ≡ i.status

module _ (m : Map InodeMetadata) (f : InodeMetadata → InodeMetadata) (c : Keeps f) where
  -- The inode that the change was made to, with the fields that it kept.
  changed :
      (k : InodeId) (i' : InodeMetadata)
      → lookup k (map_values f m) ≡ some i'
      → (i : InodeMetadata) × (lookup k m ≡ some i)
        × (i'.id ≡ i.id)
        × (i'.parent_id ≡ i.parent_id)
        × (i'.name ≡ i.name)
        × (i'.type ≡ i.type)
        × (i'.status ≡ i.status)
  changed k i' e =
      let r : (i : InodeMetadata) × (lookup k m ≡ some i) × (i' ≡ f i) =
        map_values-some f k i' m e in
      (
        r.0,
        r.1,
        ap (λ (y : InodeMetadata). y.id) r.2 ∙ c.same_id r.0,
        ap (λ (y : InodeMetadata). y.parent_id) r.2 ∙ c.same_parent r.0,
        ap (λ (y : InodeMetadata). y.name) r.2 ∙ c.same_name r.0,
        ap (λ (y : InodeMetadata). y.type) r.2 ∙ c.same_type r.0,
        ap (λ (y : InodeMetadata). y.status) r.2 ∙ c.same_status r.0,
      )

  SameParents-map_values : SameParents m (map_values f m)
  SameParents-map_values = record {
    missing = λ k e. lookup-map_values f k m ∙ rw e;
    present = λ k i e. (f i, lookup-map_values f k m ∙ (rw e), c.same_parent i);
  }

  pub IsTree-map_values : IsTree m → IsTree (map_values f m)
  IsTree-map_values t = record {
    is_map = IsMap-map_values f m t.is_map;
    keyed = λ k i' e. let (i, o, a, b, n, y, u) = changed k i' e in a ∙ t.keyed k i o;
    no_empty = lookup-map_values f "" m ∙ rw t.no_empty;
    dirs = λ k i' p' e g.
        let (i, o, a, b, n, y, u) = changed k i' e in
        let (p, o', a', b', n', y', u') = changed i'.parent_id p' g in
        rw y' (t.dirs k i p o (rw (← b) o'));
    rooted = IsRooted-SameParents m (map_values f m) SameParents-map_values t.rooted;
    siblings = λ k l i' j' e g p n u v.
        let (i, o, a, b, na, y, st) = changed k i' e in
        let (j, o', a', b', na', y', st') = changed l j' g in
        t.siblings k l i j o o' (sym b ∙ p ∙ b') (sym na ∙ n ∙ na') (rw (← st) u) (rw (← st') v);
  }
