-- ===== src/Store/Frames.antt =====
-- What the operations of internal/mds/store leave alone: each changes one table.
use astra_storage.Base.{ℕ, ◌≡◌, refl, List, Option, none, some, arith}
use astra_storage.Metadata.Inode.{InodeMetadata}
use astra_storage.Metadata.Object.{FileMetadata, UploadSession, UploadSessionId, NodeInfo}
use astra_storage.Metadata.Chunk.{ChunkMetadata}
use astra_storage.Store.State.{MemoryState}
use astra_storage.Store.Requests.{
  InodeSelector, FileSelector, ChunkSelector, FilePatch, ChunkStatusPatch, UploadProgressPatch,
  UploadFailureRecord, NodeHeartbeatPatch, MoveInodeOperation, RenameInodeOperation,
  UpdateSubtreePathsOperation,
}
use astra_storage.Store.Inode.{
  create_inode, move_inode, rename_inode, rename_entry, delete_inode, update_subtree_paths,
}
use astra_storage.Store.File.{create_file, update_file, delete_file}
use astra_storage.Store.Chunk.{upsert_chunks, update_chunk_status, delete_chunk}
use astra_storage.Store.Upload.{
  create_upload_session, update_upload_progress, record_upload_failure, complete_upload_session,
  delete_upload_session,
}
use astra_storage.Store.Node.{upsert_node, update_node_heartbeat}

abbrev pub OnlyInodes : MemoryState → MemoryState → Type 0
OnlyInodes s t = t ≡ record s { inodes = t.inodes }

abbrev pub OnlyFiles : MemoryState → MemoryState → Type 0
OnlyFiles s t = t ≡ record s { files = t.files }

abbrev pub OnlyChunks : MemoryState → MemoryState → Type 0
OnlyChunks s t = t ≡ record s { chunks = t.chunks }

abbrev pub OnlySessions : MemoryState → MemoryState → Type 0
OnlySessions s t = t ≡ record s { upload_sessions = t.upload_sessions }

abbrev pub OnlyNodes : MemoryState → MemoryState → Type 0
OnlyNodes s t = t ≡ record s { nodes = t.nodes }

module _ (s : MemoryState) where
  pub create_inode-OnlyInodes : (i : Option InodeMetadata) → OnlyInodes s (create_inode s i).0
  unfolding create_inode
  create_inode-OnlyInodes none = refl
  create_inode-OnlyInodes (some i) = ground arith

  pub move_inode-OnlyInodes : (op : MoveInodeOperation) → OnlyInodes s (move_inode s op).0
  unfolding move_inode
  move_inode-OnlyInodes op = ground arith

  pub rename_inode-OnlyInodes : (op : RenameInodeOperation) → OnlyInodes s (rename_inode s op).0
  unfolding rename_inode rename_entry
  rename_inode-OnlyInodes op = ground arith

  pub delete_inode-OnlyInodes : (q : InodeSelector) → OnlyInodes s (delete_inode s q).0
  unfolding delete_inode
  delete_inode-OnlyInodes q = ground arith

  pub update_subtree_paths-OnlyInodes :
      (op : UpdateSubtreePathsOperation) → OnlyInodes s (update_subtree_paths s op).0
  unfolding update_subtree_paths
  update_subtree_paths-OnlyInodes op = ground arith

  pub create_file-OnlyFiles : (f : Option FileMetadata) → OnlyFiles s (create_file s f).0
  unfolding create_file
  create_file-OnlyFiles none = refl
  create_file-OnlyFiles (some f) = ground arith

  pub update_file-OnlyFiles : (p : FilePatch) → OnlyFiles s (update_file s p).0
  unfolding update_file
  update_file-OnlyFiles p = ground arith

  pub delete_file-OnlyFiles : (q : FileSelector) → OnlyFiles s (delete_file s q).0
  unfolding delete_file
  delete_file-OnlyFiles q = ground arith

  pub upsert_chunks-OnlyChunks : (cs : List ChunkMetadata) → OnlyChunks s (upsert_chunks s cs).0
  unfolding upsert_chunks
  upsert_chunks-OnlyChunks cs = ground arith

  pub update_chunk_status-OnlyChunks :
      (p : ChunkStatusPatch) → OnlyChunks s (update_chunk_status s p).0
  unfolding update_chunk_status
  update_chunk_status-OnlyChunks p = ground arith

  pub delete_chunk-OnlyChunks : (q : ChunkSelector) → OnlyChunks s (delete_chunk s q).0
  unfolding delete_chunk
  delete_chunk-OnlyChunks q = ground arith

  pub create_upload_session-OnlySessions :
      (u : Option UploadSession) → OnlySessions s (create_upload_session s u).0
  unfolding create_upload_session
  create_upload_session-OnlySessions none = refl
  create_upload_session-OnlySessions (some u) = ground arith

  pub update_upload_progress-OnlySessions :
      (p : UploadProgressPatch) → OnlySessions s (update_upload_progress s p).0
  unfolding update_upload_progress
  update_upload_progress-OnlySessions p = ground arith

  pub record_upload_failure-OnlySessions :
      (r : UploadFailureRecord) → OnlySessions s (record_upload_failure s r).0
  unfolding record_upload_failure
  record_upload_failure-OnlySessions r = ground arith

  pub complete_upload_session-OnlySessions :
      (id : UploadSessionId) (at : ℕ) → OnlySessions s (complete_upload_session s id at).0
  unfolding complete_upload_session
  complete_upload_session-OnlySessions id at = ground arith

  pub delete_upload_session-OnlySessions :
      (id : UploadSessionId) → OnlySessions s (delete_upload_session s id).0
  unfolding delete_upload_session
  delete_upload_session-OnlySessions id = ground arith

  pub upsert_node-OnlyNodes : (n : NodeInfo) → OnlyNodes s (upsert_node s n).0
  unfolding upsert_node
  upsert_node-OnlyNodes n = ground arith

  pub update_node_heartbeat-OnlyNodes :
      (h : NodeHeartbeatPatch) → OnlyNodes s (update_node_heartbeat s h).0
  unfolding update_node_heartbeat
  update_node_heartbeat-OnlyNodes h = ground arith
