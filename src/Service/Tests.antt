-- ===== src/Service/Tests.antt =====
-- Runs of the use cases on a small repository.
pub mod Uploads
pub mod Sessions
pub mod Trees
use astra_storage.Base.{inr, ℕ, String, List, [], ◌∷◌, none, some, true, false, ◌≡◌, refl}
use astra_storage.Base.Int.{ℤ, pos}
use astra_storage.Base.Map.{Map, lookup, insert, any_value}
use astra_storage.Base.Map.Laws.{none-ne-some}
use astra_storage.Metadata.Object.{Checksum}
use astra_storage.Metadata.Replica.{ReplicaMetadata, ReplicaSet}
use astra_storage.Store.State.{MemoryState, new_memory_state}
use astra_storage.Store.Inode.Invariant.{IsTree}
use astra_storage.Store.Inode.Tests.{HasNoChild-of_test}
use astra_storage.Store.Inode.Run.{create, run_calls, after_call, run_calls-IsTree, IsTree-empty}
use astra_storage.Store.Chunk.Laws.{IsChunked-empty}
use astra_storage.Store.Inode.{create_inode}
use astra_storage.Store.Select.{name_taken}
use astra_storage.Store.Fixtures.{root, ready_on}
use astra_storage.Service.Create.{CreateDirectoryRequest, CreateFileRequest}
use astra_storage.Service.Nodes.{RegisterNodeRequest}
use astra_storage.Service.Upload.{
  StartUploadRequest, CommitChunkRequest, CompleteUploadRequest, VerifyUploadRequest,
}
use astra_storage.Service.Invariant.{IsWell}
use astra_storage.Store.Plan.Tests.{IsScheduled-empty}
use astra_storage.Service.Invariant.Run.{ServiceCall}

abbrev pub seeded : MemoryState
seeded = record new_memory_state { inodes = ("root", root) ∷ [] }

seeded-IsTree : IsTree seeded.inodes
unfolding run_calls after_call create_inode lookup insert any_value name_taken
seeded-IsTree =
    run_calls-IsTree new_memory_state (create (some root) ∷ []) IsTree-empty
      (inr (inr (HasNoChild-of_test new_memory_state.inodes "root" refl)), tt)

pub seeded-IsWell : IsWell seeded
unfolding lookup
seeded-IsWell = record {
  tree = seeded-IsTree;
  filed = record {
    is_map = tt;
    keyed = λ k f e. absurd (none-ne-some e);
    chunk_sized = λ k f e. absurd (none-ne-some e);
    one_inode = λ k l f g e. absurd (none-ne-some e);
  };
  chunked = IsChunked-empty;
  ordered = λ k u e. absurd (none-ne-some e);
  sized = λ k n e. absurd (none-ne-some e);
  scheduled = IsScheduled-empty;
}

abbrev pub node_one : RegisterNodeRequest
node_one = record {
  id = "n1";
  address = "10.0.0.1:9000";
  rack = "";
  zone = "";
  region = "";
  labels = [];
  capacity = pos 9000000000;
  used = pos 0;
  healthy = true;
  last_seen_at = none;
  updated_at = 0;
}

abbrev pub docs_request : CreateDirectoryRequest
docs_request = record {
  inode_id = "i1";
  parent_id = "root";
  name = "docs";
  permissions = 493;
  owner = "astra";
  group = "astra";
  created_at = 0;
}

abbrev pub note_request : CreateFileRequest
note_request = record {
  inode_id = "i3";
  file_id = "f1";
  parent_id = "i1";
  name = "note";
  size = pos 5000000;
  content_type = "";
  storage_class = "";
  user_metadata = [];
  tags = [];
  replica_policy = none;
  created_at = 0;
}

abbrev pub start : String → StartUploadRequest
start session_id = record {
  session_id = session_id;
  file_id = "f1";
  upload_key = "k";
  expected_size = pos 5000000;
  expected_checksum = none;
  client_metadata = [];
  transport_attributes = [];
  expires_at = none;
  created_at = 0;
}

abbrev pub good : Checksum
good = record { algorithm = "sha256"; value = "aa"; verified = true; verified_at = some 3 }

-- A ready replica whose node, file and chunk are filled in by the commit.
abbrev copy : ReplicaMetadata
copy = record (ready_on "") { id = ""; file_id = ""; chunk_id = "" }

abbrev pub copies : ReplicaSet
copies = ("n1", copy) ∷ ("n2", copy) ∷ []

abbrev pub commit : String → ℤ → ℤ → ℤ → CommitChunkRequest
commit chunk_id index offset size = record {
  session_id = "u1";
  chunk_id = chunk_id;
  index = index;
  offset = offset;
  size = size;
  status = "";
  checksum = some good;
  replicas = copies;
  replica_policy = none;
  committed_at = 0;
}

abbrev pub first_chunk : CommitChunkRequest
first_chunk = commit "c0" (pos 0) (pos 0) (pos 4194304)

abbrev pub last_chunk : CommitChunkRequest
last_chunk = commit "c1" (pos 1) (pos 4194304) (pos 805696)

abbrev pub completion : CompleteUploadRequest
completion = record {
  session_id = "u1";
  final_checksum = some good;
  expected_statuses = [];
  completed_at = 0;
}

abbrev pub verification : VerifyUploadRequest
verification = record {
  session_id = "u1";
  verified_checksum = some good;
  expected_statuses = [];
  verified_at = 0;
}

-- What leads to a file that waits for its verification.
abbrev pub uploads : List (ℕ × ServiceCall)
uploads =
    (2, ServiceCall.registers node_one)
    ∷ (3, ServiceCall.creates_directory docs_request)
    ∷ (4, ServiceCall.creates_file note_request)
    ∷ (5, ServiceCall.creates_directory docs_request)
    ∷ (5, ServiceCall.starts (start "u1"))
    ∷ (6, ServiceCall.commits last_chunk)
    ∷ (7, ServiceCall.commits first_chunk)
    ∷ (8, ServiceCall.commits last_chunk)
    ∷ (9, ServiceCall.completes completion)
    ∷ []
