-- ===== src/Service/Cache.antt =====
-- internal/mds/read_cache.go, with internal/platform/redis/cache and internal/platform/redis/lock: the
-- read cache before the repository. The Redis server and the JSON coding are parameters. An entry is a
-- text; a time to live is a number of nanoseconds.
pub mod Kinds
pub mod Fresh
pub mod Tests
use astra_storage.Base.{
  ℕ, zero, suc, String, Bool, true, false, not, ◌||◌, ◌==◌, List, [], ◌∷◌, Option, none, some,
  if◌then◌else◌,
}
use astra_storage.Base.Int.{ℤ, pos, ltb_ℤ, leb_ℤ, add64, sub64, mul64}
use astra_storage.Base.Text.{◌++◌}
use astra_storage.Metadata.Inode.{InodeId, DirectoryEntry}
use astra_storage.Metadata.Object.{FileId, FileMetadata, NodeId, NodeInfo}
use astra_storage.Store.State.{Result, ok, err, StoreError, not_found}
use astra_storage.Store.Requests.{ListOptions}
use astra_storage.Coordinator.{format_int}
use astra_storage.Service.Read.{DownloadPlan}

-- The answer to a GET: `missing` is redis.Nil.
pub data Reply : Type 0 where
  present : String → Reply
  missing broken : Reply

-- The clients, over what the server holds. A Boolean answer is whether the command had no error;
-- `set_nx` and `new_token` are none on an error. `compare_delete` is the script that releases a lock,
-- `sleep` is what other clients do in the meantime, and `random` a random number below a bound.
pub record CacheBackend (C : Type 0) : Type 0 where
  pub reader_get : C → String → Reply
  pub writer_get : C → String → Reply
  pub set : C → String → String → ℤ → C × Bool
  pub del : C → List String → C × Bool
  pub incr : C → String → C × Bool
  pub expire : C → String → ℤ → C
  pub zincr : C → String → String → C × Bool
  pub set_nx : C → String → String → ℤ → C × Option Bool
  pub compare_delete : C → String → String → C
  pub new_token : C → C × Option String
  pub random : C → ℤ → C × ℤ
  pub sleep : C → C

-- json.Marshal and json.Unmarshal of one type.
pub record Codec (A : Type 0) : Type 0 where
  pub encode : A → Option String
  pub decode : String → Option A

pub record Policy : Type 0 where
  pub file_meta_ttl : ℤ
  pub file_meta_ttl_jitter : ℤ
  pub download_plan_ttl : ℤ
  pub directory_list_ttl : ℤ
  pub node_health_ttl : ℤ
  pub null_entry_ttl : ℤ
  pub hotspot_window : ℤ

pub data CacheError : Type 0 where
  store : StoreError → CacheError
  backend codec : CacheError

pub data Loaded (A : Type 0) : Type 0 where
  loaded : A → Loaded A
  failed : CacheError → Loaded A

abbrev pub file_meta_key : FileId → String
file_meta_key id = "astra:cache:file:meta:" ++ id

abbrev pub download_plan_key : FileId → String
download_plan_key id = "astra:cache:download:plan:" ++ id

abbrev pub directory_list_key : String → ℤ → ℤ → String
directory_list_key id offset limit =
    "astra:cache:dir:list:" ++ id ++ ":" ++ format_int offset ++ ":" ++ format_int limit

abbrev pub directory_list_version_key : InodeId → String
directory_list_version_key id = "astra:cache:dir:list:version:" ++ id

abbrev pub node_health_key : NodeId → String
node_health_key id = "astra:cache:node:health:" ++ id

abbrev pub healthy_nodes_key : String
healthy_nodes_key = "astra:cache:nodes:healthy"

abbrev pub null_file_key : FileId → String
null_file_key id = "astra:cache:null:file:" ++ id

abbrev pub hot_file_set_key : String
hot_file_set_key = "astra:cache:hot:file"

abbrev pub hot_directory_set_key : String
hot_directory_set_key = "astra:cache:hot:dir"

abbrev pub hot_node_set_key : String
hot_node_set_key = "astra:cache:hot:node"

-- `roll` is the random number.
abbrev pub apply_ttl_jitter : ℤ → ℤ → ℤ → ℤ
apply_ttl_jitter ttl jitter roll =
    if leb_ℤ ttl (pos 0) || leb_ℤ jitter (pos 0) then ttl else add64 ttl (sub64 roll jitter)

-- What one kind of read names: the keys, the times to live, and the hot set.
pub record CacheSlot : Type 0 where
  pub lock_key : String
  pub key : String
  pub null_key : String
  pub ttl : ℤ
  pub jitter : ℤ
  pub hot_set : String
  pub member : String

module _ {C : Type 0} (b : CacheBackend C) (p : Policy) (lock_ttl : ℤ) where
  -- A failure of the first command ends it; the second's is ignored.
  unfoldable pub track_hotspot : String → String → C → C
  track_hotspot key member c =
      if key == "" || member == ""
      then c
      else (let (after, good) = b.zincr c key member in
          if good
          then if ltb_ℤ (pos 0) p.hotspot_window
            then b.expire after key (mul64 p.hotspot_window (pos 2))
            else after
          else after)

  -- What is known of the payload after the lock was not acquired: `rounds` reads of the key, a sleep
  -- before each, and then the loader.
  unfoldable pub poll : ℕ → String → Loaded String → C → C × Loaded String
  poll zero key load c = (c, load)
  poll (suc rounds) key load c =
      let later = poll rounds key load (b.sleep c) in
      elim (b.writer_get (b.sleep c) key) [
        | present payload ↦ (b.sleep c, loaded payload)
        | broken ↦ (b.sleep c, failed backend)
        | missing ↦ later
      ]

  -- A repository without the entry is remembered under the null key, where there is one.
  unfoldable pub remember_error : CacheSlot → CacheError → C → C × Loaded String
  remember_error slot (store not_found) c =
      if slot.null_key == ""
      then (c, failed (store not_found))
      else (let (after, good) = b.set c slot.null_key "1" p.null_entry_ttl in
          (after, failed (if good then store not_found else backend)))
  remember_error slot why c = (c, failed why)

  abbrev pub effective_ttl : CacheSlot → C → C × ℤ
  effective_ttl slot c =
      if ltb_ℤ (pos 0) slot.jitter
      then (let (after, roll) = b.random c (add64 (mul64 slot.jitter (pos 2)) (pos 1)) in
          (after, apply_ttl_jitter slot.ttl slot.jitter roll))
      else (c, slot.ttl)

  unfoldable pub clear_null : CacheSlot → String → C → C × Loaded String
  clear_null slot payload c =
      if slot.null_key == ""
      then (c, loaded payload)
      else (let (after, good) = b.del c (slot.null_key ∷ []) in
          (after, if good then loaded payload else failed backend))

  unfoldable pub remember : CacheSlot → String → C → C × Loaded String
  remember slot payload c =
      let (rolled, ttl) = effective_ttl slot c in
      let (after, good) = b.set rolled slot.key payload ttl in
      if good then clear_null slot payload after else (after, failed backend)

  unfoldable pub load_and_remember : CacheSlot → Loaded String → C → C × Loaded String
  load_and_remember slot (failed why) c = remember_error slot why c
  load_and_remember slot (loaded payload) c = remember slot payload c

  -- The lock is released whatever comes of the load.
  abbrev pub released : String → String → C × Loaded String → C × Loaded String
  released lock_key token (c, a) = (b.compare_delete c lock_key token, a)

  unfoldable pub with_lock :
      CacheSlot → Loaded String → String → C × Option Bool → C × Loaded String
  with_lock slot load token (c, none) = (c, failed backend)
  with_lock slot load token (c, some false) = poll 3 slot.key load c
  with_lock slot load token (c, some true) =
      released slot.lock_key token (load_and_remember slot load c)

  unfoldable pub with_token : CacheSlot → Loaded String → C × Option String → C × Loaded String
  with_token slot load (c, none) = (c, failed backend)
  with_token slot load (c, some token) =
      with_lock slot load token (b.set_nx c slot.lock_key token lock_ttl)

  unfoldable pub read_through_with_lock : CacheSlot → Loaded String → C → C × Loaded String
  read_through_with_lock slot load c = with_token slot load (b.new_token c)

  -- JSON that cannot be coded is an error.
  abbrev pub or_codec : {A : Type 0} → Option A → Loaded A
  or_codec none = failed codec
  or_codec (some a) = loaded a

  -- The loader's answer as a payload.
  abbrev pub encoded : {A : Type 0} → Codec A → Result A → Loaded String
  encoded codec_of (err why) = failed (store why)
  encoded codec_of (ok a) = or_codec (codec_of.encode a)

  abbrev pub decoded : {A : Type 0} → Codec A → String → Loaded A
  decoded codec_of payload = or_codec (codec_of.decode payload)

  -- A value that is returned counts for the hot set.
  abbrev pub tracked : {A : Type 0} → CacheSlot → C → Loaded A → C × Loaded A
  tracked slot c (failed why) = (c, failed why)
  tracked slot c (loaded a) = (track_hotspot slot.hot_set slot.member c, loaded a)

  unfoldable pub decode_loaded :
      {A : Type 0} → Codec A → CacheSlot → C × Loaded String → C × Loaded A
  decode_loaded codec_of slot (c, failed why) = (c, failed why)
  decode_loaded codec_of slot (c, loaded payload) = tracked slot c (decoded codec_of payload)

  abbrev pub after_null : {A : Type 0} → Codec A → CacheSlot → Result A → C → Reply → C × Loaded A
  after_null codec_of slot load c (present s) = (c, failed (store not_found))
  after_null codec_of slot load c broken = (c, failed backend)
  after_null codec_of slot load c missing =
      decode_loaded codec_of slot (read_through_with_lock slot (encoded codec_of load) c)

  abbrev pub reply_of_null : CacheSlot → C → Reply
  reply_of_null slot c = if slot.null_key == "" then missing else b.reader_get c slot.null_key

  abbrev pub after_get : {A : Type 0} → Codec A → CacheSlot → Result A → C → Reply → C × Loaded A
  after_get codec_of slot load c (present s) = tracked slot c (decoded codec_of s)
  after_get codec_of slot load c broken = (c, failed backend)
  after_get codec_of slot load c missing = after_null codec_of slot load c (reply_of_null slot c)

  -- The reads of all kinds: the entry, the null entry, and then the loader under the lock.
  unfoldable pub cached_read : {A : Type 0} → Codec A → CacheSlot → Result A → C → C × Loaded A
  cached_read codec_of slot load c = after_get codec_of slot load c (b.reader_get c slot.key)

  abbrev pub from_loader : {A : Type 0} → Result A → Loaded A
  from_loader (ok a) = loaded a
  from_loader (err why) = failed (store why)

-- A lock time that is not positive is 5 seconds.
abbrev pub lock_ttl_or_default : ℤ → ℤ
lock_ttl_or_default ttl = if leb_ℤ ttl (pos 0) then pos 5000000000 else ttl
