-- ===== src/Store/Fixtures.antt =====
-- Concrete records for the tests and the witnesses.
use astra_storage.Base.{String, true, false, [], ◌∷◌, none}
use astra_storage.Base.Int.{ℤ, pos}
use astra_storage.Metadata.Inode.{
  InodeMetadata, InodeType, inode_type_directory, inode_type_file, inode_status_active,
}
use astra_storage.Metadata.Object.{
  FileMetadata, UploadSession, NodeInfo, ReplicaPolicy, Checksum, fixed_chunk_size_bytes,
}
use astra_storage.Metadata.Chunk.{ChunkMetadata}
use astra_storage.Metadata.Replica.{ReplicaMetadata, replica_role_primary, replica_state_ready}
use astra_storage.Metadata.Plan.{
  ReplicaPlan, replica_plan_type_failover, replica_plan_state_planned,
}
use astra_storage.Store.State.{MemoryState, new_memory_state}
use astra_storage.Store.Requests.{InodeSelector, FileSelector, ChunkSelector}

abbrev pub inode : String → String → String → InodeType → String → InodeMetadata
inode id parent_id name type path = record {
  id = id;
  parent_id = parent_id;
  file_id = "";
  path = path;
  name = name;
  type = type;
  status = inode_status_active;
  size = pos 0;
  permissions = 493;
  owner = "astra";
  group = "astra";
  link_count = pos 1;
  generation = pos 1;
  created_at = 1;
  updated_at = 1;
  accessed_at = none;
}

abbrev pub root : InodeMetadata
root = inode "root" "" "" inode_type_directory "/"

abbrev pub docs : InodeMetadata
docs = inode "i1" "root" "docs" inode_type_directory "/docs"

abbrev pub pics : InodeMetadata
pics = inode "i2" "root" "pics" inode_type_directory "/pics"

abbrev pub note : InodeMetadata
note = inode "i3" "i1" "note" inode_type_file "/docs/note"

abbrev pub inode_of : String → InodeSelector
inode_of id = record { id = id; parent_id = ""; namespace = ""; path = ""; name = ""; type = none }

abbrev pub three_copies : ReplicaPolicy
three_copies = record {
  desired_replica_count = pos 3;
  minimum_replica_count = pos 2;
  current_replica_count = pos 1;
}

abbrev pub unknown_checksum : Checksum
unknown_checksum = record { algorithm = "sha256"; value = ""; verified = false; verified_at = none }

abbrev pub note_file : FileMetadata
note_file = record {
  id = "f1";
  namespace = "default";
  inode_id = "i3";
  parent_inode_id = "i1";
  path = "/docs/note";
  name = "note";
  size = pos 5000000;
  stored_size = pos 0;
  chunk_size = fixed_chunk_size_bytes;
  version = pos 1;
  status = "pending";
  content_type = "";
  storage_class = "";
  primary_node_id = "";
  secondary_node_ids = [];
  latest_upload_session_id = "";
  checksum = unknown_checksum;
  replica_policy = three_copies;
  user_metadata = [];
  tags = [];
  node_placements = [];
  created_at = 1;
  updated_at = 1;
  completed_at = none;
}

abbrev pub file_of : String → FileSelector
file_of id = record {
  id = id;
  inode_id = "";
  parent_inode_id = "";
  namespace = "";
  path = "";
  name = "";
  version = none;
}

abbrev pub ready_on : String → ReplicaMetadata
ready_on node_id = record {
  id = "r1";
  file_id = "f1";
  chunk_id = "c0";
  node_id = node_id;
  role = replica_role_primary;
  state = replica_state_ready;
  checksum = unknown_checksum;
  stored_size = pos 4194304;
  created_at = 1;
  updated_at = 1;
  verified_at = none;
}

abbrev pub chunk : String → ℤ → ℤ → ℤ → ChunkMetadata
chunk id index offset size = record {
  id = id;
  file_id = "f1";
  index = index;
  offset = offset;
  size = size;
  status = "pending";
  version = pos 1;
  checksum = unknown_checksum;
  replica_policy = three_copies;
  replica_count = pos 1;
  replicas = ("n1", ready_on "n1") ∷ [];
  created_at = 1;
  updated_at = 1;
  verified_at = none;
  last_error_code = "";
}

abbrev pub chunk_of : String → ChunkSelector
chunk_of id = record { id = id; file_id = ""; index = none }

abbrev pub node : String → ℤ → ℤ → NodeInfo
node id capacity used = record {
  id = id;
  address = "10.0.0.1:9000";
  rack = "";
  zone = "";
  region = "";
  labels = [];
  capacity = capacity;
  used = used;
  healthy = true;
  last_seen_at = none;
  updated_at = 1;
}

abbrev pub plan : String → String → ReplicaPlan
plan id target_node_id = record {
  id = id;
  type = replica_plan_type_failover;
  chunk_id = "c0";
  file_id = "f1";
  source_node_id = "n1";
  target_node_id = target_node_id;
  required_bytes = pos 4194304;
  state = replica_plan_state_planned;
  priority = pos 0;
  last_error_code = "";
  last_error_message = "";
  retry_count = pos 0;
  next_retry_at = none;
  created_at = 1;
  updated_at = 1;
  completed_at = none;
}

abbrev pub session : String → ℤ → UploadSession
session status confirmed_offset = record {
  id = "u1";
  file_id = "f1";
  upload_key = "k";
  status = status;
  expected_size = pos 0;
  chunk_size = fixed_chunk_size_bytes;
  confirmed_offset = confirmed_offset;
  next_offset = confirmed_offset;
  last_persisted_chunk = "";
  expected_checksum = none;
  verified_checksum = none;
  retry = record {
    attempt = pos 0;
    max_attempts = pos 3;
    retryable = true;
    last_error_code = "";
    last_error_message = "";
    last_failed_offset = pos 0;
    last_failed_chunk = "";
    last_failure_at = none;
    next_retry_at = none;
  };
  created_at = 1;
  updated_at = 1;
  expires_at = none;
  completed_at = none;
  client_metadata = [];
  transport_attributes = [];
}

-- A repository with one file, and with an upload session of it.
abbrev pub with_note : MemoryState
with_note = record new_memory_state { files = ("f1", note_file) ∷ [] }

abbrev pub uploading : String → ℤ → MemoryState
uploading status confirmed_offset = record with_note {
  upload_sessions = ("u1", session status confirmed_offset) ∷ [];
}
