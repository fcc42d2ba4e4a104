-- ===== src/Service/Invariant.antt =====
-- What the calls of the use cases in internal/mds/service*.go keep of all tables at once.
pub mod Calls
pub mod Uploads
pub mod Trees
pub mod Run
use astra_storage.Base.{ℕ, ◌≡◌, refl, List, [], ◌∷◌, Option, none, some, sym, subst}
use astra_storage.Metadata.Inode.{InodeMetadata}
use astra_storage.Metadata.Object.{FileMetadata, UploadSession, UploadSessionId, NodeInfo}
use astra_storage.Metadata.Chunk.{ChunkMetadata}
use astra_storage.Base.Map.Laws.{same_value}
use astra_storage.Store.State.{MemoryState}
use astra_storage.Store.Requests.{
  InodeSelector, FileSelector, ChunkSelector, FilePatch, ChunkStatusPatch, UploadProgressPatch,
  UploadFailureRecord, NodeHeartbeatPatch, MoveInodeOperation, RenameInodeOperation,
  UpdateSubtreePathsOperation,
}
use astra_storage.Store.Frames
use astra_storage.Store.Frames.{OnlyInodes, OnlyFiles, OnlyChunks, OnlySessions, OnlyNodes}
use astra_storage.Store.Inode.{
  create_inode, move_inode, rename_inode, delete_inode, update_subtree_paths,
}
use astra_storage.Store.Inode.Invariant.{IsTree}
use astra_storage.Store.Inode.Step.{
  HasNoChild, create_inode-IsTree, move_inode-IsTree, rename_inode-IsTree, delete_inode-IsTree,
  update_subtree_paths-IsTree,
}
use astra_storage.Store.File.{create_file, update_file, delete_file}
use astra_storage.Store.File.Laws.{
  IsFiled, create_file-IsFiled, update_file-IsFiled, delete_file-IsFiled,
}
use astra_storage.Store.Chunk.{upsert_chunks, update_chunk_status, delete_chunk}
use astra_storage.Store.Chunk.Batch.{IsChunked}
use astra_storage.Store.Chunk.Laws.{
  upsert_chunks-IsChunked, update_chunk_status-IsChunked, delete_chunk-IsChunked,
}
use astra_storage.Store.Upload.{
  create_upload_session, update_upload_progress, record_upload_failure, complete_upload_session,
  delete_upload_session,
}
use astra_storage.Store.Upload.Laws.{IsOrdered, AllOrdered}
use astra_storage.Store.Upload.Run.{
  create_upload_session-AllOrdered, update_upload_progress-AllOrdered,
  record_upload_failure-AllOrdered, complete_upload_session-AllOrdered,
  delete_upload_session-AllOrdered,
}
use astra_storage.Store.Node.{upsert_node, update_node_heartbeat}
use astra_storage.Store.Node.Laws.{AllSized, upsert_node-AllSized, update_node_heartbeat-AllSized}
use astra_storage.Store.Plan.Laws.{IsScheduled}
use astra_storage.Service.Body.{Body, calls}
use astra_storage.Service.Body.Keeps.{Keeps}
use astra_storage.Service.Upload.Finish.{complete_session}

-- Each table satisfies its own invariant.
pub record IsWell (s : MemoryState) : Type 0 where
  pub tree : IsTree s.inodes
  pub filed : IsFiled s.files
  pub chunked : IsChunked s.chunks
  pub ordered : AllOrdered s.upload_sessions
  pub sized : AllSized s.nodes
  pub scheduled : IsScheduled s.replica_plans

module _ (s t : MemoryState) (w : IsWell s) where
  pub inodes-IsWell : OnlyInodes s t → IsTree t.inodes → IsWell t
  inodes-IsWell e h = subst IsWell (sym e) (record {
    tree = h;
    filed = w.filed;
    chunked = w.chunked;
    ordered = w.ordered;
    sized = w.sized;
    scheduled = w.scheduled;
  })

  pub files-IsWell : OnlyFiles s t → IsFiled t.files → IsWell t
  files-IsWell e h = subst IsWell (sym e) (record {
    tree = w.tree;
    filed = h;
    chunked = w.chunked;
    ordered = w.ordered;
    sized = w.sized;
    scheduled = w.scheduled;
  })

  pub chunks-IsWell : OnlyChunks s t → IsChunked t.chunks → IsWell t
  chunks-IsWell e h = subst IsWell (sym e) (record {
    tree = w.tree;
    filed = w.filed;
    chunked = h;
    ordered = w.ordered;
    sized = w.sized;
    scheduled = w.scheduled;
  })

  pub sessions-IsWell : OnlySessions s t → AllOrdered t.upload_sessions → IsWell t
  sessions-IsWell e h = subst IsWell (sym e) (record {
    tree = w.tree;
    filed = w.filed;
    chunked = w.chunked;
    ordered = h;
    sized = w.sized;
    scheduled = w.scheduled;
  })

  pub nodes-IsWell : OnlyNodes s t → AllSized t.nodes → IsWell t
  nodes-IsWell e h = subst IsWell (sym e) (record {
    tree = w.tree;
    filed = w.filed;
    chunked = w.chunked;
    ordered = w.ordered;
    sized = h;
    scheduled = w.scheduled;
  })
