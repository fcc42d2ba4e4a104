-- ===== src/Store/Select.antt =====
-- internal/mds/store/memory_helpers.go: the selectors, and the walks over the inode table.
-- A pointer into a table is the entry's key with the value that it points to.
use astra_storage.Base.{
  ℕ, zero, suc, String, Bool, true, false, not, ◌&&◌, ◌||◌, ◌==◌, [], ◌∷◌, Option, none, some,
  is_some, if◌then◌else◌, contains, ◌≡◌, inl, inr, arith, Bool-cases, Option-cases, subst,
}
use astra_storage.Base.Int.{ℤ, eq_ℤ}
use astra_storage.Base.Map.{Map, lookup, any_value, find_value, IsMap}
use astra_storage.Base.Map.Loops.{find_value-some}
use astra_storage.Base.Text.{◌++◌, trim_right_slash, before_last_slash}
use astra_storage.Metadata.Inode.{InodeMetadata, InodeId, inode_status_deleted}
use astra_storage.Metadata.Object.{FileMetadata}
use astra_storage.Metadata.Chunk.{ChunkMetadata}
use astra_storage.Store.State.{Result, ok, err, not_found}
use astra_storage.Store.Requests.{InodeSelector, FileSelector, ChunkSelector}

-- `if !ok { return ErrNotFound }`
abbrev pub or_error {ℓ} : {A : Type ℓ} → Option A → Result A
or_error none = err not_found
or_error (some a) = ok a

-- A field of a selector that is set, and differs.
abbrev pub differs : String → String → Bool
differs wanted actual = not (wanted == "") && not (actual == wanted)

abbrev pub differs? : Option String → String → Bool
differs? none actual = false
differs? (some wanted) actual = not (actual == wanted)

abbrev pub differs_ℤ : Option ℤ → ℤ → Bool
differs_ℤ none actual = false
differs_ℤ (some wanted) actual = not (eq_ℤ actual wanted)

-- m[k] with its key.
abbrev pub entry_at : {V : Type 0} → String → Map V → Option (String × V)
entry_at k m = elim (lookup k m) [ none ↦ none | some v ↦ some (k, v) ]

entry_at-some :
    {V : Type 0} (k : String) (m : Map V) {j : String} {v : V}
    → entry_at k m ≡ some (j, v)
    → lookup j m ≡ some v
entry_at-some {V} k m {j} {v} h = elim (Option-cases (lookup k m)) [
  | inl e ↦ absurd (ground arith)
  | inr (w, e) ↦
      let same : Path (String × V) (k, w) (j, v) = ground arith in
      subst (λ (x : String × V). lookup x.0 m ≡ some x.1) same e
]

abbrev pub inode_matches : InodeSelector → InodeMetadata → Bool
inode_matches q i = not (
    differs q.parent_id i.parent_id
    || differs q.path i.path
    || differs q.name i.name
    || differs? q.type i.type)

unfoldable pub find_inode : Map InodeMetadata → InodeSelector → Option (String × InodeMetadata)
find_inode inodes q =
    if not (q.id == "") then entry_at q.id inodes else find_value (inode_matches q) inodes

abbrev pub file_matches : FileSelector → FileMetadata → Bool
file_matches q f = not (
    differs q.inode_id f.inode_id
    || differs q.parent_inode_id f.parent_inode_id
    || differs q.namespace f.namespace
    || differs q.path f.path
    || differs q.name f.name
    || differs_ℤ q.version f.version)

unfoldable pub find_file : Map FileMetadata → FileSelector → Option (String × FileMetadata)
find_file files q =
    if not (q.id == "") then entry_at q.id files else find_value (file_matches q) files

abbrev pub chunk_matches : ChunkSelector → ChunkMetadata → Bool
chunk_matches q c = not (differs q.file_id c.file_id || differs_ℤ q.index c.index)

unfoldable pub find_chunk : Map ChunkMetadata → ChunkSelector → Option (String × ChunkMetadata)
find_chunk chunks q =
    if not (q.id == "") then entry_at q.id chunks else find_value (chunk_matches q) chunks

-- The entry stands in the way of a node `exclude` with this name under this parent.
abbrev pub occupies : InodeId → String → InodeId → InodeMetadata → Bool
occupies parent name exclude i =
    i.parent_id == parent
    && i.name == name
    && not (i.id == exclude)
    && not (i.status == inode_status_deleted)

unfoldable pub name_taken : Map InodeMetadata → InodeId → String → InodeId → Bool
name_taken inodes parent name exclude = any_value (occupies parent name exclude) inodes

-- The walk to the root, with fuel; `none` means that the fuel ran out.
unfoldable pub is_descendant : ℕ → Map InodeMetadata → InodeId → InodeId → Option Bool
is_descendant zero inodes candidate ancestor = none
is_descendant (suc fuel) inodes candidate ancestor = elim (lookup candidate inodes) [
  | none ↦ some false
  | some current ↦ elim (current.parent_id == ancestor) [
    | true ↦ some true
    | false ↦ is_descendant fuel inodes current.parent_id ancestor
  ]
]

abbrev pub file_has_node : FileMetadata → String → Bool
file_has_node f node =
    f.primary_node_id == node
    || contains f.secondary_node_ids node
    || is_some (lookup node f.node_placements)

-- actual[key] reads as "" where the key is missing.
abbrev pub has_labels : Map String → Map String → Bool
has_labels actual [] = true
has_labels actual ((key, value) ∷ expected) =
    elim (lookup key actual) [ none ↦ "" | some v ↦ v ] == value && has_labels actual expected

unfoldable pub join_path : String → String → String
join_path parent_path name =
    if parent_path == "" || parent_path == "/"
    then "/" ++ name
    else trim_right_slash parent_path ++ "/" ++ name

-- It panics on a path without a slash.
unfoldable pub replace_base_name : String → String → Option String
unfolding join_path
replace_base_name path name = if path == "/" then some path else elim (before_last_slash path) [
  | none ↦ none
  | some parent ↦ some (join_path (if parent == "" then "/" else parent) name)
]

-- What a selector finds is in the table.
pub find_inode-some :
    (m : Map InodeMetadata) (q : InodeSelector) {k : String} {i : InodeMetadata}
    → IsMap m
    → find_inode m q ≡ some (k, i)
    → lookup k m ≡ some i
unfolding find_inode
find_inode-some m q {k} {i} w h = elim (Bool-cases (q.id == "")) [
  | inl e ↦ (find_value-some (inode_matches q) m w (rw e at h)).0
  | inr e ↦ entry_at-some q.id m (rw e at h)
]

pub find_chunk-some :
    (m : Map ChunkMetadata) (q : ChunkSelector) {k : String} {c : ChunkMetadata}
    → IsMap m
    → find_chunk m q ≡ some (k, c)
    → lookup k m ≡ some c
unfolding find_chunk
find_chunk-some m q {k} {c} w h = elim (Bool-cases (q.id == "")) [
  | inl e ↦ (find_value-some (chunk_matches q) m w (rw e at h)).0
  | inr e ↦ entry_at-some q.id m (rw e at h)
]

pub found_by_id :
    (m : Map ChunkMetadata) (q : ChunkSelector) (id : String) (c : ChunkMetadata)
    → q.id ≡ id
    → (id == "") ≡ false
    → lookup id m ≡ some c
    → find_chunk m q ≡ some (id, c)
unfolding find_chunk
found_by_id m q id c a n e = ground arith

pub find_file-some :
    (m : Map FileMetadata) (q : FileSelector) {k : String} {f : FileMetadata}
    → IsMap m
    → find_file m q ≡ some (k, f)
    → lookup k m ≡ some f
unfolding find_file
find_file-some m q {k} {f} w h = elim (Bool-cases (q.id == "")) [
  | inl e ↦ (find_value-some (file_matches q) m w (rw e at h)).0
  | inr e ↦ entry_at-some q.id m (rw e at h)
]
