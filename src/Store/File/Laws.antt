-- ===== src/Store/File/Laws.antt =====
-- The file table of internal/mds/store/memory_file.go.
use astra_storage.Base.{
  String, ◌≡◌, ◌≢◌, refl, sym, ap, ◌∙◌, ◌⊎◌, inl, inr, true, false, ◌==◌, List, [], ◌∷◌, Option,
  none, some, arith, eq_iff, Option-cases, Bool-cases, true-ne-false, or_keep,
}
use astra_storage.Base.Int.{ℤ, eq_ℤ_iff}
use astra_storage.Base.Map.{Map, lookup, insert, erase, any_value, IsMap}
use astra_storage.Base.Map.Laws.{
  insert-cases, erase-some, IsMap-insert, IsMap-erase, lookup-insert_self, same_value,
}
use astra_storage.Base.Map.Loops.{any_value-false}
use astra_storage.Metadata.Object.{FileMetadata, fixed_chunk_size_bytes}
use astra_storage.Store.State.{MemoryState, Outcome, ok, err, not_found, invalid_argument}
use astra_storage.Store.Requests.{FileSelector, FilePatch, FilePlacementPatch}
use astra_storage.Store.Select.{find_file, find_file-some}
use astra_storage.Store.File.{
  get_file, create_file, update_file, update_file_placements, delete_file, with_file,
  with_chunk_size, default_chunk_size, patch_before, patch_after, bad_chunk_size, skips_list,
}

pub record IsFiled (m : Map FileMetadata) : Type 0 where
  pub is_map : IsMap m
  pub keyed : (k : String) (f : FileMetadata) → lookup k m ≡ some f → f.id ≡ k
  pub chunk_sized :
      (k : String) (f : FileMetadata) → lookup k m ≡ some f → f.chunk_size ≡ fixed_chunk_size_bytes
  pub one_inode :
      (k l : String) (f g : FileMetadata)
      → lookup k m ≡ some f
      → lookup l m ≡ some g
      → f.inode_id ≡ g.inode_id
      → k ≡ l

module _ (m : Map FileMetadata) (t : IsFiled m) where
  insert-IsFiled :
      (x : String) (f' : FileMetadata)
      → f'.id ≡ x
      → f'.chunk_size ≡ fixed_chunk_size_bytes
      → ((k : String) (f : FileMetadata) → lookup k m ≡ some f → f.inode_id ≡ f'.inode_id → k ≡ x)
      → IsFiled (insert x f' m)
  insert-IsFiled x f' named sized alone = record {
    is_map = IsMap-insert x f' m t.is_map;
    keyed = λ k f e. elim (insert-cases x k f' f m e) [
      | inl (at, new) ↦ ap (λ (y : FileMetadata). y.id) new ∙ named ∙ sym at
      | inr (_, old) ↦ t.keyed k f old
    ];
    chunk_sized = λ k f e. elim (insert-cases x k f' f m e) [
      | inl (at, new) ↦ ap (λ (y : FileMetadata). y.chunk_size) new ∙ sized
      | inr (_, old) ↦ t.chunk_sized k f old
    ];
    one_inode = λ k l f g e h p. elim (insert-cases x k f' f m e) [
      | inl (at, new) ↦ elim (insert-cases x l f' g m h) [
        | inl (at', _) ↦ at ∙ sym at'
        | inr (_, old) ↦
            at ∙ sym (alone l g old (sym p ∙ ap (λ (y : FileMetadata). y.inode_id) new))
      ]
      | inr (_, old) ↦ elim (insert-cases x l f' g m h) [
        | inl (at, new) ↦ alone k f old (p ∙ ap (λ (y : FileMetadata). y.inode_id) new) ∙ sym at
        | inr (_, old') ↦ t.one_inode k l f g old old' p
      ]
    ];
  }

  -- A new version of a file keeps its id and its inode.
  in_place-IsFiled :
      (x : String) (f f' : FileMetadata)
      → lookup x m ≡ some f
      → f'.id ≡ f.id
      → f'.inode_id ≡ f.inode_id
      → f'.chunk_size ≡ fixed_chunk_size_bytes
      → IsFiled (insert x f' m)
  in_place-IsFiled x f f' e a b sized =
      insert-IsFiled x f' (a ∙ t.keyed x f e) sized (λ k g h p. t.one_inode k x g f h e (p ∙ b))

  erase-IsFiled : (x : String) → IsFiled (erase x m)
  erase-IsFiled x = record {
    is_map = IsMap-erase x m t.is_map;
    keyed = λ k f e. t.keyed k f (erase-some x k f m e).1;
    chunk_sized = λ k f e. t.chunk_sized k f (erase-some x k f m e).1;
    one_inode =
        λ k l f g e h. t.one_inode k l f g (erase-some x k f m e).1 (erase-some x l g m h).1;
  }

-- A file is looked up in the file table alone.
pub get_file-same :
    (s t : MemoryState) (q : FileSelector) → s.files ≡ t.files → get_file s q ≡ get_file t q
unfolding get_file
get_file-same s t q h = rw h refl

create_file-cases :
    (s : MemoryState) (f : FileMetadata)
    → ((create_file s (some f)).0 ≡ s)
      ⊎ ((any_value (λ e. e.inode_id == f.inode_id) s.files ≡ false)
          × (default_chunk_size f.chunk_size ≡ fixed_chunk_size_bytes)
          × ((create_file s (some f)).0 ≡ with_file s f.id (with_chunk_size f)))
unfolding create_file
create_file-cases s f =
    ground (arith, eq_ℤ_iff (default_chunk_size f.chunk_size) fixed_chunk_size_bytes)

pub update_file-missing :
    (s : MemoryState) (p : FilePatch)
    → find_file s.files p.selector ≡ none
    → update_file s p ≡ (s, err not_found)
unfolding update_file
update_file-missing s p e = rw (e, update_file) refl

pub update_file-cases :
    (s : MemoryState) (p : FilePatch) (k : String) (f : FileMetadata)
    → find_file s.files p.selector ≡ some (k, f)
    → ((bad_chunk_size p.chunk_size ≡ true)
        × (update_file s p ≡ (with_file s k (patch_before p f), err invalid_argument)))
      ⊎ ((bad_chunk_size p.chunk_size ≡ false)
          × (update_file s p ≡ (with_file s k (patch_after p (patch_before p f)), ok tt)))
unfolding update_file
update_file-cases s p k f e = elim (Bool-cases (bad_chunk_size p.chunk_size)) [
  | inl b ↦ inl (b, rw (e, update_file, b) refl)
  | inr b ↦ inr (b, rw (e, update_file, b) refl)
]

-- The calls that change the file table.
pub data FileCall : Type 0 where
  create : Option FileMetadata → FileCall
  update : FilePatch → FileCall
  placements : FilePlacementPatch → FileCall
  delete : FileSelector → FileCall

pub after_file_call : MemoryState → FileCall → MemoryState
after_file_call s (create f) = (create_file s f).0
after_file_call s (update p) = (update_file s p).0
after_file_call s (placements p) = (update_file_placements s p).0
after_file_call s (delete q) = (delete_file s q).0

pub run_file_calls : MemoryState → List FileCall → MemoryState
run_file_calls s [] = s
run_file_calls s (c ∷ cs) = run_file_calls (after_file_call s c) cs

patched_size :
    (o : Option ℤ) (f : FileMetadata) (p : FilePatch)
    → p.chunk_size ≡ o
    → bad_chunk_size o ≡ false
    → f.chunk_size ≡ fixed_chunk_size_bytes
    → (patch_after p f).chunk_size ≡ fixed_chunk_size_bytes
patched_size none f p e b h = rw e h
patched_size (some n) f p e b h = rw e (ground (arith, eq_ℤ_iff n fixed_chunk_size_bytes))

module _ (s : MemoryState) (t : IsFiled s.files) where
  pub create_file-IsFiled : (f : FileMetadata) → IsFiled (create_file s (some f)).0.files
  create_file-IsFiled f = elim (create_file-cases s f) [
    | inl same ↦ rw same t
    | inr (free, sized, done) ↦ rw done (
        insert-IsFiled s.files t f.id (with_chunk_size f) refl sized (λ k g e p. absurd (
          true-ne-false (
            sym ((eq_iff g.inode_id f.inode_id).1 p)
            ∙ any_value-false (λ (y : FileMetadata). y.inode_id == f.inode_id) s.files k free e))))
  ]

  pub update_file-IsFiled : (p : FilePatch) → IsFiled (update_file s p).0.files
  update_file-IsFiled p = elim (Option-cases (find_file s.files p.selector)) [
    | inl e ↦ rw (update_file-missing s p e) t
    | inr ((k, f), e) ↦
        let at : lookup k s.files ≡ some f = find_file-some s.files p.selector t.is_map e in
        elim (update_file-cases s p k f e) [
          | inl (_, done) ↦ rw done (
              in_place-IsFiled s.files t k f (patch_before p f) at refl refl (t.chunk_sized k f at))
          | inr (b, done) ↦ rw done (
              in_place-IsFiled s.files t k f (patch_after p (patch_before p f)) at refl refl
                (patched_size p.chunk_size (patch_before p f) p refl b (t.chunk_sized k f at)))
        ]
  ]

  update_file_placements-IsFiled :
      (p : FilePlacementPatch) → IsFiled (update_file_placements s p).0.files
  unfolding update_file_placements
  update_file_placements-IsFiled p = elim (Option-cases (find_file s.files p.selector)) [
    | inl e ↦ rw e t
    | inr ((k, f), e) ↦
        let at : lookup k s.files ≡ some f = find_file-some s.files p.selector t.is_map e in
        elim (Bool-cases (skips_list p.expected_status f.status)) [
          | inl b ↦ rw (e, b) t
          | inr b ↦ rw (e, b) (in_place-IsFiled s.files t k f _ at refl refl (t.chunk_sized k f at))
        ]
  ]

  pub delete_file-IsFiled : (q : FileSelector) → IsFiled (delete_file s q).0.files
  unfolding delete_file
  delete_file-IsFiled q = elim (Option-cases (find_file s.files q)) [
    | inl e ↦ rw e t
    | inr ((k, f), e) ↦ rw e (erase-IsFiled s.files t f.id)
  ]

after_file_call-IsFiled :
    (s : MemoryState) (c : FileCall) → IsFiled s.files → IsFiled (after_file_call s c).files
unfolding after_file_call
after_file_call-IsFiled s (create none) t = unfold create_file in t
after_file_call-IsFiled s (create (some f)) t = create_file-IsFiled s t f
after_file_call-IsFiled s (update p) t = update_file-IsFiled s t p
after_file_call-IsFiled s (placements p) t = update_file_placements-IsFiled s t p
after_file_call-IsFiled s (delete q) t = delete_file-IsFiled s t q

-- After any calls, each refused or not, every file is stored under its id with the fixed chunk
-- size, and no two files have one inode, if it was so before.
pub run_file_calls-IsFiled :
    (s : MemoryState) (cs : List FileCall) → IsFiled s.files → IsFiled (run_file_calls s cs).files
unfolding run_file_calls
run_file_calls-IsFiled s [] t = t
run_file_calls-IsFiled s (c ∷ cs) t =
    run_file_calls-IsFiled (after_file_call s c) cs (after_file_call-IsFiled s c t)

-- A patch that is refused for its chunk size has already written its size: a table that held
-- another size is not what it was.
pub update_file-partial :
    (s : MemoryState) (p : FilePatch) (k : String) (f : FileMetadata) (n : ℤ)
    → find_file s.files p.selector ≡ some (k, f)
    → lookup k s.files ≡ some f
    → bad_chunk_size p.chunk_size ≡ true
    → p.size ≡ some n
    → f.size ≢ n
    → ((update_file s p).1 ≡ err invalid_argument) × ((update_file s p).0 ≢ s)
update_file-partial s p k f n e at b z d = elim (update_file-cases s p k f e) [
  | inr (b', _) ↦ absurd (true-ne-false (sym b ∙ b'))
  | inl (_, done) ↦ (
    ap (λ (o : Outcome (Unit {0})). o.1) done,
    λ same. d (
        sym (
          ap (λ (y : FileMetadata). y.size)
            (same_value (lookup-insert_self k (patch_before p f) s.files) (
              ap (λ (o : Outcome (Unit {0})). lookup k o.0.files) (sym done)
              ∙ ap (λ (y : MemoryState). lookup k y.files) same
              ∙ at)))
        ∙ ap (λ (o : Option ℤ). or_keep o f.size) z),
  )
]
