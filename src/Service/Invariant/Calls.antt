-- ===== src/Service/Invariant/Calls.antt =====
-- Each call that a use case of internal/mds/service*.go makes keeps the tables well formed.
use astra_storage.Base.{ℕ, refl, List, some, subst}
use astra_storage.Metadata.Inode.{InodeMetadata}
use astra_storage.Metadata.Object.{FileMetadata, UploadSession, UploadSessionId, NodeInfo}
use astra_storage.Metadata.Chunk.{ChunkMetadata}
use astra_storage.Base.Map.Laws.{same_value}
use astra_storage.Store.State.{MemoryState}
use astra_storage.Store.Requests.{
  InodeSelector, FileSelector, ChunkSelector, FilePatch, ChunkStatusPatch, UploadProgressPatch,
  UploadFailureRecord, NodeHeartbeatPatch, MoveInodeOperation, RenameInodeOperation,
  UpdateSubtreePathsOperation,
}
use astra_storage.Store.Frames
use astra_storage.Store.Frames.{OnlyInodes, OnlyFiles, OnlyChunks, OnlySessions, OnlyNodes}
use astra_storage.Store.Inode.{
  create_inode, move_inode, rename_inode, delete_inode, update_subtree_paths,
}
use astra_storage.Store.Inode.Step.{
  IsTakenOrNew, create_inode-IsTree, move_inode-IsTree, rename_inode-IsTree, delete_inode-IsTree,
  update_subtree_paths-IsTree,
}
use astra_storage.Store.File.{create_file, update_file, delete_file}
use astra_storage.Store.File.Laws.{create_file-IsFiled, update_file-IsFiled, delete_file-IsFiled}
use astra_storage.Store.Chunk.{upsert_chunks, update_chunk_status, delete_chunk}
use astra_storage.Store.Chunk.Laws.{
  upsert_chunks-IsChunked, update_chunk_status-IsChunked, delete_chunk-IsChunked,
}
use astra_storage.Store.Upload.{
  create_upload_session, update_upload_progress, record_upload_failure, complete_upload_session,
  delete_upload_session,
}
use astra_storage.Store.Upload.Laws.{IsOrdered}
use astra_storage.Store.Upload.Run.{
  create_upload_session-AllOrdered, update_upload_progress-AllOrdered,
  record_upload_failure-AllOrdered, complete_upload_session-AllOrdered,
  delete_upload_session-AllOrdered,
}
use astra_storage.Store.Node.{upsert_node, update_node_heartbeat}
use astra_storage.Store.Node.Laws.{upsert_node-AllSized, update_node_heartbeat-AllSized}
use astra_storage.Service.Body.{calls}
use astra_storage.Service.Body.Keeps.{Keeps}
use astra_storage.Service.Upload.Finish.{complete_session}
use astra_storage.Service.Invariant.{
  IsWell, inodes-IsWell, files-IsWell, chunks-IsWell, sessions-IsWell, nodes-IsWell,
}

pub create_inode-IsWell :
    (s : MemoryState) (i : InodeMetadata)
    → IsTakenOrNew s.inodes i.id
    → IsWell s
    → IsWell (create_inode s (some i)).0
create_inode-IsWell s i n w =
    inodes-IsWell s (create_inode s (some i)).0 w (Frames.create_inode-OnlyInodes s (some i)) (
      create_inode-IsTree s w.tree (some i) (λ j e.
        subst (λ (x : InodeMetadata). IsTakenOrNew s.inodes x.id) (same_value {o = some i} refl e)
          n))

pub move_inode-Keeps : (p : MoveInodeOperation) → Keeps IsWell (calls move_inode p)
unfolding calls
move_inode-Keeps p = record {
  after = λ s w.
      inodes-IsWell s (move_inode s p).0 w (Frames.move_inode-OnlyInodes s p)
        (move_inode-IsTree s w.tree p);
}

pub rename_inode-Keeps : (p : RenameInodeOperation) → Keeps IsWell (calls rename_inode p)
unfolding calls
rename_inode-Keeps p = record {
  after = λ s w.
      inodes-IsWell s (rename_inode s p).0 w (Frames.rename_inode-OnlyInodes s p)
        (rename_inode-IsTree s w.tree p);
}

pub delete_inode-Keeps : (p : InodeSelector) → Keeps IsWell (calls delete_inode p)
unfolding calls
delete_inode-Keeps p = record {
  after = λ s w.
      inodes-IsWell s (delete_inode s p).0 w (Frames.delete_inode-OnlyInodes s p)
        (delete_inode-IsTree s w.tree p);
}

pub update_subtree_paths-Keeps :
    (p : UpdateSubtreePathsOperation) → Keeps IsWell (calls update_subtree_paths p)
unfolding calls
update_subtree_paths-Keeps p = record {
  after = λ s w.
      inodes-IsWell s (update_subtree_paths s p).0 w (Frames.update_subtree_paths-OnlyInodes s p)
        (update_subtree_paths-IsTree s w.tree p);
}

pub update_file-Keeps : (p : FilePatch) → Keeps IsWell (calls update_file p)
unfolding calls
update_file-Keeps p = record {
  after = λ s w.
      files-IsWell s (update_file s p).0 w (Frames.update_file-OnlyFiles s p)
        (update_file-IsFiled s w.filed p);
}

pub delete_file-Keeps : (p : FileSelector) → Keeps IsWell (calls delete_file p)
unfolding calls
delete_file-Keeps p = record {
  after = λ s w.
      files-IsWell s (delete_file s p).0 w (Frames.delete_file-OnlyFiles s p)
        (delete_file-IsFiled s w.filed p);
}

pub create_file-Keeps : (f : FileMetadata) → Keeps IsWell (calls create_file (some f))
unfolding calls
create_file-Keeps f = record {
  after = λ s w.
      files-IsWell s (create_file s (some f)).0 w (Frames.create_file-OnlyFiles s (some f))
        (create_file-IsFiled s w.filed f);
}

pub upsert_chunks-Keeps : (p : List ChunkMetadata) → Keeps IsWell (calls upsert_chunks p)
unfolding calls
upsert_chunks-Keeps p = record {
  after = λ s w.
      chunks-IsWell s (upsert_chunks s p).0 w (Frames.upsert_chunks-OnlyChunks s p)
        (upsert_chunks-IsChunked s p w.chunked);
}

pub update_chunk_status-Keeps : (p : ChunkStatusPatch) → Keeps IsWell (calls update_chunk_status p)
unfolding calls
update_chunk_status-Keeps p = record {
  after = λ s w.
      chunks-IsWell s (update_chunk_status s p).0 w (Frames.update_chunk_status-OnlyChunks s p)
        (update_chunk_status-IsChunked s w.chunked p);
}

pub delete_chunk-Keeps : (p : ChunkSelector) → Keeps IsWell (calls delete_chunk p)
unfolding calls
delete_chunk-Keeps p = record {
  after = λ s w.
      chunks-IsWell s (delete_chunk s p).0 w (Frames.delete_chunk-OnlyChunks s p)
        (delete_chunk-IsChunked s w.chunked p);
}

pub create_upload_session-Keeps :
    (u : UploadSession) → IsOrdered u → Keeps IsWell (calls create_upload_session (some u))
unfolding calls
create_upload_session-Keeps u o = record {
  after = λ s w.
      sessions-IsWell s (create_upload_session s (some u)).0 w
        (Frames.create_upload_session-OnlySessions s (some u))
        (create_upload_session-AllOrdered s w.ordered u o);
}

pub update_upload_progress-Keeps :
    (p : UploadProgressPatch) → Keeps IsWell (calls update_upload_progress p)
unfolding calls
update_upload_progress-Keeps p = record {
  after = λ s w.
      sessions-IsWell s (update_upload_progress s p).0 w
        (Frames.update_upload_progress-OnlySessions s p)
        (update_upload_progress-AllOrdered s w.ordered p);
}

pub record_upload_failure-Keeps :
    (p : UploadFailureRecord) → Keeps IsWell (calls record_upload_failure p)
unfolding calls
record_upload_failure-Keeps p = record {
  after = λ s w.
      sessions-IsWell s (record_upload_failure s p).0 w
        (Frames.record_upload_failure-OnlySessions s p)
        (record_upload_failure-AllOrdered s w.ordered p);
}

pub delete_upload_session-Keeps :
    (p : UploadSessionId) → Keeps IsWell (calls delete_upload_session p)
unfolding calls
delete_upload_session-Keeps p = record {
  after = λ s w.
      sessions-IsWell s (delete_upload_session s p).0 w
        (Frames.delete_upload_session-OnlySessions s p)
        (delete_upload_session-AllOrdered s w.ordered p);
}

pub complete_session-Keeps : (u : UploadSession) (now : ℕ) → Keeps IsWell (complete_session u now)
unfolding complete_session
complete_session-Keeps u now = record {
  after = λ s w.
      sessions-IsWell s (complete_upload_session s u.id now).0 w
        (Frames.complete_upload_session-OnlySessions s u.id now)
        (complete_upload_session-AllOrdered s w.ordered u.id now);
}

pub upsert_node-Keeps : (p : NodeInfo) → Keeps IsWell (calls upsert_node p)
unfolding calls
upsert_node-Keeps p = record {
  after = λ s w.
      nodes-IsWell s (upsert_node s p).0 w (Frames.upsert_node-OnlyNodes s p)
        (upsert_node-AllSized s p w.sized);
}

pub update_node_heartbeat-Keeps :
    (p : NodeHeartbeatPatch) → Keeps IsWell (calls update_node_heartbeat p)
unfolding calls
update_node_heartbeat-Keeps p = record {
  after = λ s w.
      nodes-IsWell s (update_node_heartbeat s p).0 w (Frames.update_node_heartbeat-OnlyNodes s p)
        (update_node_heartbeat-AllSized s p w.sized);
}

pub ruleset call_rules = (
  move_inode-Keeps, rename_inode-Keeps, delete_inode-Keeps, update_subtree_paths-Keeps,
  update_file-Keeps, delete_file-Keeps, create_file-Keeps, upsert_chunks-Keeps,
  update_chunk_status-Keeps, delete_chunk-Keeps, update_upload_progress-Keeps,
  record_upload_failure-Keeps, delete_upload_session-Keeps, complete_session-Keeps,
  upsert_node-Keeps, update_node_heartbeat-Keeps,
)
