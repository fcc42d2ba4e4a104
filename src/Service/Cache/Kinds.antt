-- ===== src/Service/Cache/Kinds.antt =====
-- internal/mds/read_cache.go: what the read cache keeps, one kind of entry after the other, and how an
-- entry is dropped.
use astra_storage.Base.{String, Bool, true, ◌||◌, ◌==◌, List, [], ◌∷◌, if◌then◌else◌}
use astra_storage.Base.Int.{ℤ, pos}
use astra_storage.Base.Text.{◌++◌}
use astra_storage.Metadata.Inode.{InodeId, DirectoryEntry}
use astra_storage.Metadata.Object.{FileId, FileMetadata, NodeId, NodeInfo}
use astra_storage.Store.State.{Result}
use astra_storage.Store.Requests.{ListOptions}
use astra_storage.Service.Read.{DownloadPlan}
use astra_storage.Service.Cache.{
  loaded, failed, backend, CacheBackend, Codec, Policy, Loaded, CacheSlot, Reply, present, missing,
  broken, file_meta_key, download_plan_key, directory_list_key, directory_list_version_key,
  node_health_key, healthy_nodes_key, null_file_key, hot_file_set_key, hot_directory_set_key,
  hot_node_set_key, cached_read, from_loader,
}

module _ {C : Type 0} (b : CacheBackend C) (p : Policy) (lock_ttl : ℤ) where
  abbrev pub file_slot : FileId → CacheSlot
  file_slot id = record {
    lock_key = "astra:lock:file:meta:" ++ id;
    key = file_meta_key id;
    null_key = null_file_key id;
    ttl = p.file_meta_ttl;
    jitter = p.file_meta_ttl_jitter;
    hot_set = hot_file_set_key;
    member = id;
  }

  unfoldable pub get_cached_file :
      Codec FileMetadata → FileId → Result FileMetadata → C → C × Loaded FileMetadata
  get_cached_file codec_of id load c =
      if id == ""
      then (c, from_loader b p lock_ttl load)
      else cached_read b p lock_ttl codec_of (file_slot id) load c

  abbrev pub download_plan_slot : FileId → CacheSlot
  download_plan_slot id = record {
    lock_key = "astra:lock:download:plan:" ++ id;
    key = download_plan_key id;
    null_key = null_file_key id;
    ttl = p.download_plan_ttl;
    jitter = p.file_meta_ttl_jitter;
    hot_set = hot_file_set_key;
    member = id;
  }

  unfoldable pub get_cached_download_plan :
      Codec DownloadPlan → FileId → Result DownloadPlan → C → C × Loaded DownloadPlan
  get_cached_download_plan codec_of id load c =
      if id == ""
      then (c, from_loader b p lock_ttl load)
      else cached_read b p lock_ttl codec_of (download_plan_slot id) load c

  abbrev pub node_slot : NodeId → CacheSlot
  node_slot id = record {
    lock_key = "astra:lock:node:" ++ id;
    key = node_health_key id;
    null_key = "";
    ttl = p.node_health_ttl;
    jitter = pos 0;
    hot_set = hot_node_set_key;
    member = id;
  }

  unfoldable pub get_cached_node :
      Codec NodeInfo → NodeId → Result NodeInfo → C → C × Loaded NodeInfo
  get_cached_node codec_of id load c =
      if id == ""
      then (c, from_loader b p lock_ttl load)
      else cached_read b p lock_ttl codec_of (node_slot id) load c

  -- A directory whose listings were never dropped is at version 0.
  abbrev pub version_of : Reply → Loaded String
  version_of (present s) = loaded s
  version_of missing = loaded "0"
  version_of broken = failed backend

  unfoldable pub directory_list_version : InodeId → C → Loaded String
  directory_list_version id c = version_of (b.reader_get c (directory_list_version_key id))

  abbrev pub children_slot : InodeId → ListOptions → String → CacheSlot
  children_slot id opts version = record {
    lock_key = "astra:lock:dir:list:" ++ id;
    key = directory_list_key (id ++ ":v" ++ version) opts.offset opts.limit;
    null_key = "";
    ttl = p.directory_list_ttl;
    jitter = p.file_meta_ttl_jitter;
    hot_set = hot_directory_set_key;
    member = id;
  }

  abbrev pub at_version :
      Codec (List DirectoryEntry)
      → InodeId
      → ListOptions
      → Result (List DirectoryEntry)
      → C
      → Loaded String
      → C × Loaded (List DirectoryEntry)
  at_version codec_of id opts load c (failed why) = (c, failed why)
  at_version codec_of id opts load c (loaded version) =
      cached_read b p lock_ttl codec_of (children_slot id opts version) load c

  unfoldable pub get_cached_children :
      Codec (List DirectoryEntry)
      → InodeId
      → ListOptions
      → Result (List DirectoryEntry)
      → C
      → C × Loaded (List DirectoryEntry)
  get_cached_children codec_of id opts load c =
      if id == "" || opts.recursive
      then (c, from_loader b p lock_ttl load)
      else at_version codec_of id opts load c (directory_list_version id c)

  abbrev pub healthy_nodes_slot : CacheSlot
  healthy_nodes_slot = record {
    lock_key = "astra:lock:node:healthy";
    key = healthy_nodes_key;
    null_key = "";
    ttl = p.node_health_ttl;
    jitter = pos 0;
    hot_set = "";
    member = "";
  }

  unfoldable pub get_cached_healthy_nodes :
      Codec (List NodeInfo) → Result (List NodeInfo) → C → C × Loaded (List NodeInfo)
  get_cached_healthy_nodes codec_of load c =
      cached_read b p lock_ttl codec_of healthy_nodes_slot load c

  -- Whether the command had no error is in the result.
  unfoldable pub invalidate_file : FileId → C → C × Bool
  invalidate_file id c =
      if id == ""
      then (c, true)
      else b.del c (file_meta_key id ∷ download_plan_key id ∷ null_file_key id ∷ [])

  unfoldable pub invalidate_directory : InodeId → C → C × Bool
  invalidate_directory id c =
      if id == "" then (c, true) else b.incr c (directory_list_version_key id)

  unfoldable pub invalidate_node : NodeId → C → C × Bool
  invalidate_node id c = if id == "" then (c, true) else b.del c (node_health_key id ∷ [])

  unfoldable pub invalidate_healthy_nodes : C → C × Bool
  invalidate_healthy_nodes c = b.del c (healthy_nodes_key ∷ [])
