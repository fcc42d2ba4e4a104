-- ===== src/Coordinator/Repairer/Copy.antt =====
-- internal/mds/coordinator/repairer.go: the copy of a chunk from one node to others, and what the
-- answer of the source node changes. The node's endpoint is internal/datanode/replication.go.
use astra_storage.Base.{
  ℕ, suc, String, Bool, false, ◌||◌, ◌==◌, List, [], ◌∷◌, ◌++◌, Option, none, some, or_keep, map,
  length, contains, ◌⊎◌, inl, inr, if◌then◌else◌, eq_ℕ, ltb, leb,
}
use astra_storage.Base.Int.{ℤ, pos}
use astra_storage.Base.Map.{Map, lookup, insert, size}
use astra_storage.Base.Text.{is_blank, trim_right_slash}
use astra_storage.Base.Text
use astra_storage.Metadata.Object.{ChunkId, NodeId, NodeInfo, unset_checksum}
use astra_storage.Metadata.Chunk.{ChunkMetadata}
use astra_storage.Metadata.Replica.{
  ReplicaMetadata, ReplicaSet, replica_role_secondary, replica_state_ready, replica_state_pending,
}
use astra_storage.Allocator.{select_capacity_aware_nodes}
use astra_storage.Store.State.{MemoryState, Outcome, Result, ok, err, StoreError, ◌>>=◌}
use astra_storage.Store.Requests.{ChunkReplicaPatch, chunk_by_id}
use astra_storage.Store.Chunk.{update_chunk_replicas}
use astra_storage.Store.Node.{get_node}
use astra_storage.Coordinator.Repairer.{defer_targets, clear_retry}

pub record ReplicaTarget : Type 0 where
  pub node_id : String
  pub address : String

pub record ReplicaWriteResult : Type 0 where
  pub node_id : String
  pub state : String
  pub error : String
  pub address : String

pub record ReplicateChunkRequest : Type 0 where
  pub chunk_id : String
  pub targets : List ReplicaTarget

-- The answer's chunk is not read.
pub record ReplicateChunkResponse : Type 0 where
  pub replicas : List ReplicaWriteResult

-- `request` is a request that could not be made or got no answer.
pub data RepairError : Type 0 where
  store : StoreError → RepairError
  no_address request decode no_source copied_none publish : RepairError
  status : ℕ → RepairError

-- internal/platform/mq/contracts: a task of the queue.
pub record ReplicaRepairTask : Type 0 where
  pub plan_id : String
  pub file_id : String
  pub chunk_id : String
  pub source_node_id : String
  pub target_node_id : String

-- `post` is the HTTP client with the JSON coding: the status of the answer and its body, where the
-- body can be decoded. `publish_repair` is the queue, where one is set: whether it took the task.
pub record PendingReplicaRepairer : Type 0 where
  pub post : String → ReplicateChunkRequest → Option (ℕ × Option ReplicateChunkResponse)
  pub publish_repair : Option (ReplicaRepairTask → Bool)
  pub retry_backoff : ℕ
  pub max_replicas_per_run : ℤ

pub record RepairOutcome : Type 0 where
  pub attempted : ℕ
  pub succeeded : ℕ
  pub failed : ℕ
  pub deferred : ℕ

abbrev pub no_outcome : RepairOutcome
no_outcome = record { attempted = 0; succeeded = 0; failed = 0; deferred = 0 }

-- A copy of a chunk to a node that a source node, or the queue, was asked for.
pub record AskedCopy : Type 0 where
  pub chunk_id : ChunkId
  pub node_id : NodeId

-- The tables, the next attempts, and the copies that were asked for so far: the calls that went out.
abbrev pub RepairState : Type 0
RepairState = MemoryState × Map ℕ × List AskedCopy

abbrev pub Repaired : Type 0
Repaired = RepairState × RepairOutcome × Option RepairError

abbrev pub answer_of : ℕ → Option ReplicateChunkResponse → RepairError ⊎ List ReplicaWriteResult
answer_of code body =
    if ltb code 200 || leb 300 code
    then inl (status code)
    else elim body [ none ↦ inl decode | some r ↦ inr r.replicas ]

unfoldable pub replicate_chunk :
    PendingReplicaRepairer → String → ReplicateChunkRequest → RepairError ⊎ List ReplicaWriteResult
replicate_chunk r address req =
    elim (r.post (Text.◌++◌ (trim_right_slash address) "/internal/replicate") req) [
      | none ↦ inl request
      | some (code, body) ↦ answer_of code body
    ]

-- The nodes of the targets that have an address, their ids, and the ids of the other targets.
pub record Gathered : Type 0 where
  pub candidates : List NodeInfo
  pub known : List NodeId
  pub skipped : List NodeId

-- One round of the loop, before what the rest of it gathers.
abbrev pub gathered : NodeId → NodeInfo → Gathered → Gathered
gathered id node rest =
    if is_blank node.address
    then record rest { skipped = id ∷ rest.skipped }
    else record rest { candidates = node ∷ rest.candidates; known = id ∷ rest.known }

unfoldable pub gather_targets : MemoryState → List NodeId → Result Gathered
gather_targets s [] = ok (record { candidates = []; known = []; skipped = [] })
gather_targets s (id ∷ ids) =
    let others = gather_targets s ids in
    do node ← get_node s id; rest ← others; ok (gathered id node rest)

-- The known targets that the allocator left out.
unfoldable pub left_out : List NodeId → List NodeId → List NodeId → List NodeId
left_out selected known [] = []
left_out selected known (id ∷ ids) =
    let rest = left_out selected known ids in
    if contains selected id then rest else if contains known id then id ∷ rest else rest

abbrev pub id_of : NodeInfo → NodeId
id_of n = n.id

abbrev pub replica_target : NodeInfo → ReplicaTarget
replica_target n = record { node_id = n.id; address = n.address }

-- `resultByNode`
unfoldable pub results_by_node :
    Map ReplicaWriteResult → List ReplicaWriteResult → Map ReplicaWriteResult
results_by_node m [] = m
results_by_node m (w ∷ ws) = results_by_node (insert w.node_id w m) ws

abbrev pub zero_replica : ReplicaMetadata
zero_replica = record {
  id = "";
  file_id = "";
  chunk_id = "";
  node_id = "";
  role = "";
  state = "";
  checksum = unset_checksum;
  stored_size = pos 0;
  created_at = 0;
  updated_at = 0;
  verified_at = none;
}

-- The chunk's replica on the node, or a new one, as a copy of this chunk.
abbrev pub as_copy : ChunkMetadata → ℕ → NodeId → ReplicaMetadata → ReplicaMetadata
as_copy chunk now node_id old = record old {
  node_id = node_id;
  file_id = chunk.file_id;
  chunk_id = chunk.id;
  role = replica_role_secondary;
  checksum = chunk.checksum;
  updated_at = now;
  created_at = if eq_ℕ old.created_at 0 then now else old.created_at;
}

abbrev pub refreshed : ChunkMetadata → ℕ → NodeId → ReplicaMetadata
refreshed chunk now node_id =
    as_copy chunk now node_id (or_keep (lookup node_id chunk.replicas) zero_replica)

abbrev pub made_ready : ChunkMetadata → ℕ → NodeId → ReplicaMetadata
made_ready chunk now node_id = record (refreshed chunk now node_id) {
  state = replica_state_ready;
  stored_size = chunk.size;
  verified_at = some now;
}

abbrev pub left_pending : ChunkMetadata → ℕ → NodeId → ReplicaMetadata
left_pending chunk now node_id = record (refreshed chunk now node_id) {
  state = replica_state_pending;
}

-- What the loops over the targets build up.
pub record CopyProgress : Type 0 where
  pub next_attempts : Map ℕ
  pub upserts : ReplicaSet
  pub outcome : RepairOutcome

abbrev pub says_ready : Option ReplicaWriteResult → Bool
says_ready none = false
says_ready (some w) = w.state == replica_state_ready

abbrev pub is_reported : Map ReplicaWriteResult → NodeId → Bool
is_reported results id = says_ready (lookup id results)

module _ (r : PendingReplicaRepairer) (chunk : ChunkMetadata) (now : ℕ) where
  abbrev pub copied : NodeId → CopyProgress → CopyProgress
  copied id p = record {
    next_attempts = clear_retry p.next_attempts chunk.id id;
    upserts = insert id (made_ready chunk now id) p.upserts;
    outcome = record p.outcome { succeeded = suc p.outcome.succeeded };
  }

  abbrev pub not_copied : NodeId → CopyProgress → CopyProgress
  not_copied id p = record {
    next_attempts = defer_targets p.next_attempts r.retry_backoff chunk.id (id ∷ []) now;
    upserts = insert id (left_pending chunk now id) p.upserts;
    outcome = record p.outcome { failed = suc p.outcome.failed; deferred = suc p.outcome.deferred };
  }

  unfoldable pub mark_targets : Map ReplicaWriteResult → List NodeId → CopyProgress → CopyProgress
  mark_targets results [] p = p
  mark_targets results (id ∷ ids) p =
      mark_targets results ids (if is_reported results id then copied id p else not_copied id p)

  unfoldable pub mark_skipped : List NodeId → CopyProgress → CopyProgress
  mark_skipped [] p = p
  mark_skipped (id ∷ ids) p = mark_skipped ids (not_copied id p)

  abbrev pub copy_patch : ReplicaSet → ChunkReplicaPatch
  copy_patch upserts = record {
    selector = chunk_by_id chunk.id;
    upserts = upserts;
    remove_node_ids = [];
    replica_count = some (pos (size chunk.replicas));
    replica_policy = none;
    updated_at = now;
  }

  abbrev pub written : Map ℕ → List AskedCopy → RepairOutcome → Outcome (Unit {0}) → Repaired
  written m l o (s, ok a) = ((s, m, l), o, none)
  written m l o (s, err e) = ((s, m, l), o, some (store e))

  abbrev pub record_copy : MemoryState → List AskedCopy → CopyProgress → Repaired
  record_copy s l p =
      written p.next_attempts l p.outcome (update_chunk_replicas s (copy_patch p.upserts))

  -- All targets are deferred; `attempted` of them were attempted.
  abbrev pub given_up : RepairState → List NodeId → ℕ → Option RepairError → Repaired
  given_up (s, m, l) ids attempted why = (
    (s, defer_targets m r.retry_backoff chunk.id ids now, l),
    record { attempted = attempted; succeeded = 0; failed = length ids; deferred = length ids },
    why,
  )

  abbrev pub started : Map ℕ → List NodeInfo → CopyProgress
  started m selected = record {
    next_attempts = m;
    upserts = [];
    outcome = record no_outcome { attempted = length selected };
  }

  abbrev pub copy_request : List NodeInfo → ReplicateChunkRequest
  copy_request selected = record { chunk_id = chunk.id; targets = map replica_target selected }

  abbrev pub asked_copy : NodeInfo → AskedCopy
  asked_copy n = record { chunk_id = chunk.id; node_id = n.id }

  -- The call of the source node, with the nodes that the allocator selected.
  unfoldable pub copy_to :
      RepairState → NodeInfo → List NodeId → Gathered → List NodeInfo → Repaired
  copy_to (s, m, l) source ids g selected =
      elim (replicate_chunk r source.address (copy_request selected)) [
        | inl why ↦ given_up (s, m, map asked_copy selected ++ l) ids (length selected) (some why)
        | inr results ↦ record_copy s (map asked_copy selected ++ l) (
            mark_skipped (g.skipped ++ left_out (map id_of selected) g.known ids)
              (mark_targets (results_by_node [] results) (map id_of selected) (started m selected)))
      ]

  abbrev pub selected_of : List NodeId → Gathered → List NodeInfo
  selected_of ids g =
      select_capacity_aware_nodes
        (record { candidates = g.candidates; excluded = []; count = pos (length ids) })

  unfoldable pub copy_selected :
      RepairState → NodeInfo → List NodeId → Gathered → List NodeInfo → Repaired
  copy_selected t source ids g [] = given_up t ids 0 none
  copy_selected t source ids g (n ∷ ns) = copy_to t source ids g (n ∷ ns)

  unfoldable pub copy_from : RepairState → NodeInfo → List NodeId → Repaired
  copy_from t source ids =
      if is_blank source.address
      then given_up t ids 0 (some no_address)
      else elim (gather_targets t.0 ids) [
        | err e ↦ given_up t ids 0 (some (store e))
        | ok g ↦ copy_selected t source ids g (selected_of ids g)
      ]

  unfoldable pub execute_replica_copy : RepairState → NodeId → List NodeId → Repaired
  execute_replica_copy t source_id ids = elim (get_node t.0 source_id) [
    | err e ↦ given_up t ids 0 (some (store e))
    | ok source ↦ copy_from t source ids
  ]
