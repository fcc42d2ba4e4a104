-- ===== src/Service/Mutation/Ends.antt =====
-- The recursive deletion of internal/mds/service_mutation.go comes to an end.
use astra_storage.Base.{
  ℕ, zero, suc, ◌+◌, ◌<◌, ◌≤◌, ◌≡◌, refl, sym, subst, ◌∙◌, ap, String, true, List, [], ◌∷◌, map,
  some, arith, inl, inr, eq_iff, if◌then◌else◌, not, is_some, ◌==◌, Option-cases, Bool-cases, ◌⊎◌,
}
use astra_storage.Base.Int.{pos}
use astra_storage.Base.Map.{Map, lookup, erase, size, IsMap, values_where, any_value}
use astra_storage.Base.Map.Laws.{erase-some, IsMap-erase}
use astra_storage.Base.Map.Loops.{values_where-mem}
use astra_storage.Base.Slice.{text_lt}
use astra_storage.Base.Slice.Sorted.{Mem, All-at, Mem-sort_slice_from, Mem-apply_list_window}
use astra_storage.Metadata.Inode.{InodeId, InodeMetadata, DirectoryEntry, inode_type_directory}
use astra_storage.Metadata.Object.{FileId, UploadSessionId}
use astra_storage.Store.State.{
  MemoryState, Result, ok, err, diverged, invalid_argument, not_found, passed, same_ok,
}
use astra_storage.Store.Requests.{InodeSelector, FileSelector, ChunkSelector, inode_by_id}
use astra_storage.Store.Frames
use astra_storage.Store.Select.{find_inode}
use astra_storage.Store.Inode.{
  list_children, directory_entry, is_listed, is_live_child, delete_inode, get_inode, enough,
}
use astra_storage.Store.Inode.Walk.{Ascends, up, Ascends-le-size}
use astra_storage.Store.Inode.Invariant.{IsTree}
use astra_storage.Store.File.{get_file, delete_file}
use astra_storage.Store.Chunk.{delete_chunk}
use astra_storage.Store.Upload.{delete_upload_session}
use astra_storage.Service.Body.{◌>>=◌, gives, calls}
use astra_storage.Service.Body.Ends.{
  Ends, ends_rules, Ends-reading, Ends-bind, Ends-for_each, Ends-if, Ends-gives, reading_ends,
  refusing_ends, use_case-ends,
}
use astra_storage.Service.Mutation.{
  DeleteDirectoryRequest, delete_directory, delete_directory_body, delete_directory_recursive,
  delete_file_cascade, delete_file_entry, all_children, validate_delete_directory_request,
}

-- Inodes have only gone since the table `m`.
record IsShrunk (m : Map InodeMetadata) (t : MemoryState) : Type 0 where
  pub is_map : IsMap t.inodes
  pub old : (k : InodeId) (i : InodeMetadata) → lookup k t.inodes ≡ some i → lookup k m ≡ some i

delete_inode-cases :
    (s : MemoryState) (q : InodeSelector)
    → ((delete_inode s q).0.inodes ≡ s.inodes)
      ⊎ ((x : InodeId) × ((delete_inode s q).0.inodes ≡ erase x s.inodes))
unfolding delete_inode
delete_inode-cases s q = elim (Option-cases (find_inode s.inodes q)) [
  | inl e ↦ inl (rw e refl)
  | inr ((k, i), e) ↦ elim (Bool-cases (any_value (is_live_child i.id) s.inodes)) [
    | inl t ↦ inl (rw (e, t) refl)
    | inr t ↦ inr (i.id, rw (e, t) refl)
  ]
]

-- None of the calls runs out of fuel.
delete_inode-diverged :
    (s : MemoryState) (q : InodeSelector) → (delete_inode s q).1 ≡ err diverged → ⊥
unfolding delete_inode
delete_inode-diverged s q e = ground arith

delete_file-diverged : (s : MemoryState) (q : FileSelector) → (delete_file s q).1 ≡ err diverged → ⊥
unfolding delete_file
delete_file-diverged s q e = ground arith

delete_chunk-diverged :
    (s : MemoryState) (q : ChunkSelector) → (delete_chunk s q).1 ≡ err diverged → ⊥
unfolding delete_chunk
delete_chunk-diverged s q e = ground arith

delete_upload_session-diverged :
    (s : MemoryState) (id : UploadSessionId) → (delete_upload_session s id).1 ≡ err diverged → ⊥
unfolding delete_upload_session
delete_upload_session-diverged s id e = ground arith

get_file-diverged : (s : MemoryState) (q : FileSelector) → get_file s q ≡ err diverged → ⊥
unfolding get_file
get_file-diverged s q e = ground arith

get_inode-diverged : (s : MemoryState) (q : InodeSelector) → get_inode s q ≡ err diverged → ⊥
unfolding get_inode
get_inode-diverged s q e = ground arith

list_children-diverged :
    (s : MemoryState) (id : InodeId) → list_children s id all_children ≡ err diverged → ⊥
unfolding list_children
list_children-diverged s id e = ground arith

ok-diverged : {A : Type 0} (a : A) → Path (Result A) (ok a) (err diverged) → ⊥
ok-diverged a e = cc

module _ (m : Map InodeMetadata) where
  same_inodes : (s t : MemoryState) → t.inodes ≡ s.inodes → IsShrunk m s → IsShrunk m t
  same_inodes s t e h = record {
    is_map = subst IsMap (sym e) h.is_map;
    old = λ k i g. h.old k i (rw e at g);
  }

  inode-Ends : (q : InodeSelector) → Ends (IsShrunk m) (calls delete_inode q)
  unfolding calls
  inode-Ends q = record {
    keeps = record {
      after = λ s h. elim (delete_inode-cases s q) [
        | inl same ↦ same_inodes s (delete_inode s q).0 same h
        | inr (x, gone) ↦ record {
          is_map = subst IsMap (sym gone) (IsMap-erase x s.inodes h.is_map);
          old = λ k i g. h.old k i (erase-some x k i s.inodes (rw gone at g)).1;
        }
      ];
    };
    ends = λ s h e. delete_inode-diverged s q e;
  }

  file-Ends : (q : FileSelector) → Ends (IsShrunk m) (calls delete_file q)
  unfolding calls
  file-Ends q = record {
    keeps = record {
      after = λ s h.
          same_inodes s (delete_file s q).0
            (ap (λ (t : MemoryState). t.inodes) (Frames.delete_file-OnlyFiles s q)) h;
    };
    ends = λ s h e. delete_file-diverged s q e;
  }

  chunk-Ends : (q : ChunkSelector) → Ends (IsShrunk m) (calls delete_chunk q)
  unfolding calls
  chunk-Ends q = record {
    keeps = record {
      after = λ s h.
          same_inodes s (delete_chunk s q).0
            (ap (λ (t : MemoryState). t.inodes) (Frames.delete_chunk-OnlyChunks s q)) h;
    };
    ends = λ s h e. delete_chunk-diverged s q e;
  }

  session-Ends : (id : UploadSessionId) → Ends (IsShrunk m) (calls delete_upload_session id)
  unfolding calls
  session-Ends id = record {
    keeps = record {
      after = λ s h.
          same_inodes s (delete_upload_session s id).0
            (ap (λ (t : MemoryState). t.inodes) (Frames.delete_upload_session-OnlySessions s id)) h;
    };
    ends = λ s h e. delete_upload_session-diverged s id e;
  }

  cascade-Ends : (id : FileId) → Ends (IsShrunk m) (delete_file_cascade id)
  unfolding delete_file_cascade
  cascade-Ends id =
      search
        (
          ends_rules, inode-Ends, file-Ends, chunk-Ends, session-Ends, get_file-diverged,
          ok-diverged,
        )
        depth 24

  entry-Ends : (e : DirectoryEntry) → Ends (IsShrunk m) (delete_file_entry e)
  unfolding delete_file_entry
  entry-Ends e = search (ends_rules, cascade-Ends, get_file-diverged) depth 24

Mem-map_entry :
    (xs : List InodeMetadata) (c : DirectoryEntry)
    → Mem c (map directory_entry xs)
    → (i : InodeMetadata) × Mem i xs × (c ≡ directory_entry i)
Mem-map_entry [] c h = absurd h
Mem-map_entry (x ∷ xs) c (inl e) = (x, inl refl, e)
Mem-map_entry (x ∷ xs) c (inr h) = let (i, m, e) = Mem-map_entry xs c h in (i, inr m, e)

module _ (m : Map InodeMetadata) (t : IsTree m) where
  -- What a directory lists has it as its parent.
  listed_below :
      (s : MemoryState) (x : InodeId) (cs : List DirectoryEntry) (c : DirectoryEntry)
      → IsShrunk m s
      → list_children s x all_children ≡ ok cs
      → Mem c cs
      → (i : InodeMetadata) × (lookup c.child_id m ≡ some i) × (i.parent_id ≡ x)
  unfolding list_children
  listed_below s x cs c h e mem =
      let (_, h1) = passed (x == "") invalid_argument _ e in
      let (_, h2) = passed (not (is_some (lookup x s.inodes))) not_found _ h1 in
      let listed : Mem c (map directory_entry (values_where (is_listed x) s.inodes)) =
        Mem-sort_slice_from (λ a b. text_lt a.name b.name)
          (map directory_entry (values_where (is_listed x) s.inodes)) c
          (Mem-apply_list_window _ (pos 0) (pos 0) c (subst (Mem c) (sym (same_ok h2)) mem)) in
      let (i, here, same) = Mem-map_entry (values_where (is_listed x) s.inodes) c listed in
      let (k, at, p) =
        All-at (λ v. (k : String) × (lookup k s.inodes ≡ some v) × (is_listed x v ≡ true))
          (values_where (is_listed x) s.inodes) i (values_where-mem (is_listed x) s.inodes h.is_map)
          here in
      let kept : lookup k m ≡ some i = h.old k i at in
      (
        i,
        subst (λ y. lookup y m ≡ some i)
            (sym (t.keyed k i kept) ∙ sym (ap (λ (y : DirectoryEntry). y.child_id) same)) kept,
        ground (arith, eq_iff i.parent_id x),
      )

  -- One level of the recursion for each inode above.
  recursive-Ends :
      (fuel : ℕ) (x : InodeId) (n : ℕ)
      → Ascends m x n
      → size m < n + fuel
      → Ends (IsShrunk m) (delete_directory_recursive fuel x)
  unfolding delete_directory_recursive
  recursive-Ends zero x n a h =
      absurd (let bound : n ≤ size m = Ascends-le-size n m x a in omega arith)
  recursive-Ends (suc fuel) x n a h =
      Ends-reading (λ s. list_children s x all_children) _ (λ s. list_children-diverged s x)
        (λ s cs p e.
          Ends-bind _ _
            (Ends-for_each cs _ (λ c mem.
              let (i, at, below) = listed_below s x cs c p e mem in
              Ends-if (c.type == inode_type_directory) _ _
                (recursive-Ends fuel c.child_id (suc n)
                  (up i at (subst (λ y. Ascends m y n) (sym below) a)) (omega arith))
                (entry-Ends m c)))
            (λ done. inode-Ends m (inode_by_id x)))

validate-diverged :
    (req : DeleteDirectoryRequest) → validate_delete_directory_request req ≡ err diverged → ⊥
validate-diverged req e = ground arith

removal-Ends :
    (s : MemoryState) (t : IsTree s.inodes) (req : DeleteDirectoryRequest) (i : InodeMetadata)
    (fuel : ℕ)
    → enough s ≡ fuel
    → Ends (IsShrunk s.inodes) (
        (if req.recursive
          then delete_directory_recursive fuel i.id
          else calls delete_inode (inode_by_id i.id))
        >>= λ done. gives i.parent_id)
removal-Ends s t req i fuel e =
    let (n, a) = t.rooted i.id in
    Ends-bind _ _
      (Ends-if req.recursive _ _ (recursive-Ends s.inodes t fuel i.id n a (omega arith))
        (inode-Ends s.inodes (inode_by_id i.id)))
      (λ done. Ends-gives i.parent_id)

-- On an inode table that is a tree a deletion of a directory, recursive or not, ends: the call never
-- runs out of fuel.
pub delete_directory_ends :
    (s : MemoryState) (req : DeleteDirectoryRequest)
    → IsTree s.inodes
    → ¬ ((delete_directory req s).0.1 ≡ err diverged)
unfolding delete_directory delete_directory_body
delete_directory_ends s req t =
    use_case-ends _ (delete_directory_body req) _ s
      (reading_ends _ _ s (get_inode-diverged s (inode_by_id req.inode_id)) (λ i _.
        refusing_ends _ _ _ s (λ e. absurd cc)
          (refusing_ends _ _ _ s (λ e. absurd cc)
            (reading_ends _ _ s (ok-diverged (enough s)) (λ fuel e.
              (removal-Ends s t req i fuel (same_ok e)).ends s
                (record { is_map = t.is_map; old = λ k j g. g }))))))
      (validate-diverged req)
