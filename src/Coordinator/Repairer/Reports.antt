-- ===== src/Coordinator/Repairer/Reports.antt =====
-- Which replicas a copy of internal/mds/coordinator/repairer.go makes ready.
use astra_storage.Base.{
  ℕ, ◌≡◌, refl, sym, ◌∙◌, ap, subst, String, false, ◌==◌, List, [], ◌∷◌, ◌++◌, none, some, arith,
  inl, inr, ◌⊎◌, Bool-cases, map, Option-cases,
}
use astra_storage.Base.Map.{Map, lookup, insert_all, erase_all}
use astra_storage.Base.Map.Laws.{none-ne-some, insert-cases, lookup-insert_all}
use astra_storage.Base.Text.{is_blank}
use astra_storage.Base.Slice.Sorted.{Mem}
use astra_storage.Metadata.Object.{NodeId, NodeInfo}
use astra_storage.Metadata.Chunk.{ChunkMetadata}
use astra_storage.Metadata.Replica.{ReplicaMetadata, ReplicaSet, replica_state_ready}
use astra_storage.Store.State.{MemoryState, Outcome, ok, err, Result-cases}
use astra_storage.Store.Select.{find_chunk}
use astra_storage.Store.Chunk.{update_chunk_replicas, with_chunk, patch_replicas}
use astra_storage.Store.Chunk.Laws.{update_chunk_replicas-at}
use astra_storage.Store.Node.{get_node}
use astra_storage.Coordinator.Repairer.Copy.{
  ReplicaWriteResult, PendingReplicaRepairer, Repaired, Gathered, CopyProgress, replicate_chunk,
  results_by_node, mark_targets, mark_skipped, copy_patch, record_copy, given_up, started,
  copy_request, copy_to, selected_of, copy_selected, copy_from, execute_replica_copy,
  gather_targets, id_of, written, RepairOutcome, AskedCopy, asked_copy,
}
use astra_storage.Coordinator.Repairer.Upserts.{
  HasReady, is_reported-HasReady, AllGood, mark_skipped-AllGood, mark_targets-AllGood,
}

-- Before, the node had a ready replica of the chunk that is stored under the key.
abbrev pub WasReady : MemoryState → String → NodeId → Type 0
WasReady s k n =
    (d : ChunkMetadata) × (p : ReplicaMetadata) × (lookup k s.chunks ≡ some d)
    × (lookup n d.replicas ≡ some p)
    × (p.state ≡ replica_state_ready)

module _ (r : PendingReplicaRepairer) (s : MemoryState) (chunk : ChunkMetadata) (now : ℕ)
    (P : NodeId → Type 0) (nonempty : (chunk.id == "") ≡ false) where
  patched-gone :
      (us : ReplicaSet)
      → lookup chunk.id s.chunks ≡ none
      → (update_chunk_replicas s (copy_patch r chunk now us)).0 ≡ s
  unfolding update_chunk_replicas find_chunk
  patched-gone us h = ground arith

  upserted-ready :
      (us old : ReplicaSet) (n : NodeId) (q : ReplicaMetadata)
      → AllGood P us
      → lookup n (insert_all us old) ≡ some q
      → q.state ≡ replica_state_ready
      → (lookup n old ≡ some q) ⊎ P n
  upserted-ready us old n q a h e = elim (Option-cases (lookup n us)) [
    | inl f ↦ inl (sym (lookup-insert_all n us old a.is_map ∙ rw f refl) ∙ h)
    | inr (v, f) ↦
        let here : some v ≡ some q = sym (lookup-insert_all n us old a.is_map ∙ rw f refl) ∙ h in
        inr (a.good n q (f ∙ here) e)
  ]

  -- A chunk's ready replica after a patch was ready before, or the patch writes it.
  patched-ready :
      (us : ReplicaSet) (k : String) (n : NodeId) {c : ChunkMetadata} {q : ReplicaMetadata}
      → AllGood P us
      → lookup k (update_chunk_replicas s (copy_patch r chunk now us)).0.chunks ≡ some c
      → lookup n c.replicas ≡ some q
      → q.state ≡ replica_state_ready
      → WasReady s k n ⊎ ((k ≡ chunk.id) × P n)
  unfolding erase_all
  patched-ready us k n {c} {q} a h g e = elim (Option-cases (lookup chunk.id s.chunks)) [
    | inl gone ↦
        inl
          (c, q, ap (λ (x : MemoryState). lookup k x.chunks) (sym (patched-gone us gone)) ∙ h, g, e)
    | inr (d, at) ↦
        let run : update_chunk_replicas s (copy_patch r chunk now us)
            ≡ (with_chunk s chunk.id (patch_replicas (copy_patch r chunk now us) d), ok tt) =
          update_chunk_replicas-at s (copy_patch r chunk now us) chunk.id d refl nonempty at in
        elim (insert-cases chunk.id k (patch_replicas (copy_patch r chunk now us) d) c s.chunks
          (ap (λ (o : Outcome (Unit {0})). lookup k o.0.chunks) (sym run) ∙ h)) [
            | inr (_, old) ↦ inl (c, q, old, g, e)
            | inl (key, same) ↦
                elim (upserted-ready us d.replicas n q a
                  (ap (λ (x : ChunkMetadata). lookup n x.replicas) (sym same) ∙ g) e) [
                    | inl old ↦
                        inl (d, q, subst (λ x. lookup x s.chunks ≡ some d) (sym key) at, old, e)
                    | inr new ↦ inr (key, new)
                  ]
          ]
  ]

-- The source node was asked to copy the chunk to the node, and answered that the node has it.
abbrev pub IsReported :
    PendingReplicaRepairer → ChunkMetadata → ℕ → MemoryState → NodeId → NodeId → Type 0
IsReported r chunk now s source_id n =
    (source : NodeInfo) × (selected : List NodeInfo) × (ws : List ReplicaWriteResult) × (get_node s
        source_id
      ≡ ok source)
    × Mem n (map id_of selected)
    × (replicate_chunk r source.address (copy_request r chunk now selected) ≡ inr ws)
    × HasReady ws n

-- A ready replica on the node, of the chunk under the key, was there or is reported.
abbrev pub IsExplained :
    PendingReplicaRepairer → ChunkMetadata → ℕ → MemoryState → NodeId → String → NodeId → Type 0
IsExplained r chunk now s source_id k n =
    WasReady s k n ⊎ ((k ≡ chunk.id) × IsReported r chunk now s source_id n)

record_copy-tables :
    (r : PendingReplicaRepairer) (chunk : ChunkMetadata) (now : ℕ) (m : Map ℕ) (l : List AskedCopy)
    (o : RepairOutcome) (after : Outcome (Unit {0}))
    → (written r chunk now m l o after).0.0 ≡ after.0
record_copy-tables r chunk now m l o (t, ok a) = refl
record_copy-tables r chunk now m l o (t, err e) = refl

pub sum-cases : {A B : Type 0} (o : A ⊎ B) → ((a : A) × (o ≡ inl a)) ⊎ ((b : B) × (o ≡ inr b))
sum-cases (inl a) = inl (a, refl)
sum-cases (inr b) = inr (b, refl)

module _ (r : PendingReplicaRepairer) (chunk : ChunkMetadata) (now : ℕ)
    (nonempty : (chunk.id == "") ≡ false) (s : MemoryState) (m : Map ℕ) (l : List AskedCopy)
    (source_id : NodeId) (k : String) (n : NodeId) (c : ChunkMetadata) (q : ReplicaMetadata)
    (replica : lookup n c.replicas ≡ some q) (ready : q.state ≡ replica_state_ready) where
  -- A call that writes no chunk.
  kept-ready :
      (a : Repaired)
      → a.0.0 ≡ s
      → lookup k a.0.0.chunks ≡ some c
      → IsExplained r chunk now s source_id k n
  kept-ready a e h =
      inl (c, q, ap (λ (x : MemoryState). lookup k x.chunks) (sym e) ∙ h, replica, ready)

  copied-ready :
      (source : NodeInfo) (selected : List NodeInfo) (ws : List ReplicaWriteResult)
      (skipped : List NodeId)
      → get_node s source_id ≡ ok source
      → replicate_chunk r source.address (copy_request r chunk now selected) ≡ inr ws
      → lookup k
          (record_copy r chunk now s (map (asked_copy r chunk now) selected ++ l) (
            mark_skipped r chunk now skipped (
              mark_targets r chunk now
                (results_by_node [] ws)
                (map id_of selected)
                (started r chunk now m selected)))).0.0.chunks
        ≡ some c
      → IsExplained r chunk now s source_id k n
  unfolding lookup
  copied-ready source selected ws skipped stored answer h =
      let asked : NodeId → Type 0 = IsReported r chunk now s source_id in
      let p : CopyProgress =
        mark_targets r chunk now (results_by_node [] ws) (map id_of selected)
          (started r chunk now m selected) in
      let good : AllGood asked (mark_skipped r chunk now skipped p).upserts =
        mark_skipped-AllGood r chunk now asked skipped p (
          mark_targets-AllGood r chunk now asked (results_by_node [] ws) (map id_of selected)
            (started r chunk now m selected)
            (λ id mem h. (source, selected, ws, stored, mem, answer, is_reported-HasReady ws id h))
            (record { is_map = tt; good = λ id q h e. absurd (none-ne-some h) })) in
      patched-ready r s chunk now asked nonempty (mark_skipped r chunk now skipped p).upserts k n
        good
        (ap (λ (x : MemoryState). lookup k x.chunks) (sym (record_copy-tables r chunk now _ _ _ _))
          ∙ h)
        replica ready

  copy_to-IsExplained :
      (source : NodeInfo) (ids : List NodeId) (g : Gathered) (selected : List NodeInfo)
      → get_node s source_id ≡ ok source
      → lookup k (copy_to r chunk now (s, m, l) source ids g selected).0.0.chunks ≡ some c
      → IsExplained r chunk now s source_id k n
  unfolding copy_to
  copy_to-IsExplained source ids g selected stored h =
      elim (sum-cases (replicate_chunk r source.address (copy_request r chunk now selected))) [
        | inl (why, e) ↦
            kept-ready (given_up r chunk now (s, m, l) ids 0 none) refl (rw (e, copy_to) at h)
        | inr (ws, e) ↦ copied-ready source selected ws _ stored e (rw (e, copy_to) at h)
      ]

  copy_selected-IsExplained :
      (source : NodeInfo) (ids : List NodeId) (g : Gathered) (selected : List NodeInfo)
      → get_node s source_id ≡ ok source
      → lookup k (copy_selected r chunk now (s, m, l) source ids g selected).0.0.chunks ≡ some c
      → IsExplained r chunk now s source_id k n
  unfolding copy_selected
  copy_selected-IsExplained source ids g [] stored h =
      kept-ready (given_up r chunk now (s, m, l) ids 0 none) refl h
  copy_selected-IsExplained source ids g (x ∷ xs) stored h =
      copy_to-IsExplained source ids g (x ∷ xs) stored h

  copy_from-IsExplained :
      (source : NodeInfo) (ids : List NodeId)
      → get_node s source_id ≡ ok source
      → lookup k (copy_from r chunk now (s, m, l) source ids).0.0.chunks ≡ some c
      → IsExplained r chunk now s source_id k n
  unfolding copy_from
  copy_from-IsExplained source ids stored h = elim (Bool-cases (is_blank source.address)) [
    | inl t ↦ kept-ready (given_up r chunk now (s, m, l) ids 0 none) refl (rw (t, copy_from) at h)
    | inr f ↦ elim (Result-cases (gather_targets s ids)) [
      | inr (e, g) ↦
          kept-ready (given_up r chunk now (s, m, l) ids 0 none) refl (rw (f, g, copy_from) at h)
      | inl (a, g) ↦
          copy_selected-IsExplained source ids a (selected_of r chunk now ids a) stored
            (rw (f, g, copy_from) at h)
    ]
  ]

-- A copy makes a replica ready only on a node that it asked the source node to copy the chunk to, and
-- that the source's answer reports as ready: after it, every ready replica of every stored chunk was
-- ready before, or is such a replica of the copied chunk, if that chunk's id is not empty.
pub execute_replica_copy-IsExplained :
    (r : PendingReplicaRepairer) (chunk : ChunkMetadata) (now : ℕ) (s : MemoryState) (m : Map ℕ)
    (l : List AskedCopy) (source_id : NodeId) (ids : List NodeId) (k : String) (n : NodeId)
    {c : ChunkMetadata} {q : ReplicaMetadata}
    → (chunk.id == "") ≡ false
    → lookup k (execute_replica_copy r chunk now (s, m, l) source_id ids).0.0.chunks ≡ some c
    → lookup n c.replicas ≡ some q
    → q.state ≡ replica_state_ready
    → IsExplained r chunk now s source_id k n
unfolding execute_replica_copy
execute_replica_copy-IsExplained r chunk now s m l source_id ids k n {c} {q} nonempty h replica
      ready =
    elim (Result-cases (get_node s source_id)) [
      | inr (e, g) ↦
          kept-ready r chunk now nonempty s m l source_id k n c q replica ready
            (given_up r chunk now (s, m, l) ids 0 none) refl (rw (g, execute_replica_copy) at h)
      | inl (source, g) ↦
          copy_from-IsExplained r chunk now nonempty s m l source_id k n c q replica ready source
            ids g (rw (g, execute_replica_copy) at h)
    ]
