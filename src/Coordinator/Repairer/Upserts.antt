-- ===== src/Coordinator/Repairer/Upserts.antt =====
-- Which replicas the loops of a copy of internal/mds/coordinator/repairer.go write as ready.
use astra_storage.Base.{
  ℕ, ◌≡◌, refl, sym, ◌∙◌, ap, subst, String, true, List, [], ◌∷◌, Option, none, some, inl, inr, ◌⊎◌,
  eq_iff, Bool-cases, true-ne-false,
}
use astra_storage.Base.Map.{Map, lookup, insert, IsMap}
use astra_storage.Base.Map.Laws.{none-ne-some, insert-cases, IsMap-insert}
use astra_storage.Base.Slice.Sorted.{Mem}
use astra_storage.Metadata.Object.{NodeId}
use astra_storage.Metadata.Chunk.{ChunkMetadata}
use astra_storage.Metadata.Replica.{
  ReplicaMetadata, ReplicaSet, replica_state_ready, replica_state_pending,
}
use astra_storage.Coordinator.Repairer.Copy.{
  ReplicaWriteResult, PendingReplicaRepairer, CopyProgress, results_by_node, says_ready,
  is_reported, copied, not_copied, mark_targets, mark_skipped,
}

results_by_node-Mem :
    (id : NodeId) (m : Map ReplicaWriteResult) (ws : List ReplicaWriteResult)
    {w : ReplicaWriteResult}
    → lookup id (results_by_node m ws) ≡ some w
    → (lookup id m ≡ some w) ⊎ (Mem w ws × (w.node_id ≡ id))
unfolding results_by_node
results_by_node-Mem id m [] h = inl h
results_by_node-Mem id m (v ∷ ws) {w} h =
    elim (results_by_node-Mem id (insert v.node_id v m) ws h) [
      | inr (mem, e) ↦ inr (inr mem, e)
      | inl g ↦ elim (insert-cases v.node_id id v w m g) [
        | inl (e, same) ↦ inr (inl same, ap (λ (x : ReplicaWriteResult). x.node_id) same ∙ sym e)
        | inr (_, old) ↦ inl old
      ]
    ]

-- The answer has a result that says that the node has the chunk.
abbrev pub HasReady : List ReplicaWriteResult → NodeId → Type 0
HasReady ws id =
    (w : ReplicaWriteResult) × Mem w ws × (w.node_id ≡ id) × (w.state ≡ replica_state_ready)

says_ready-some :
    (o : Option ReplicaWriteResult)
    → says_ready o ≡ true
    → (w : ReplicaWriteResult) × (o ≡ some w) × (w.state ≡ replica_state_ready)
says_ready-some none h = absurd (true-ne-false (sym h))
says_ready-some (some w) h = (w, refl, (eq_iff w.state replica_state_ready).0 h)

pub is_reported-HasReady :
    (ws : List ReplicaWriteResult) (id : NodeId)
    → is_reported (results_by_node [] ws) id ≡ true
    → HasReady ws id
unfolding lookup
is_reported-HasReady ws id h =
    let (w, e, ready) = says_ready-some (lookup id (results_by_node [] ws)) h in
    elim (results_by_node-Mem id [] ws e) [
      | inl bad ↦ absurd (none-ne-some bad)
      | inr (mem, at) ↦ (w, mem, at, ready)
    ]

-- The ready replicas among the written ones are for nodes with the property.
pub record AllGood (P : NodeId → Type 0) (m : ReplicaSet) : Type 0 where
  pub is_map : IsMap m
  pub good :
      (id : NodeId) (q : ReplicaMetadata)
      → lookup id m ≡ some q
      → q.state ≡ replica_state_ready
      → P id

module _ (r : PendingReplicaRepairer) (chunk : ChunkMetadata) (now : ℕ) (P : NodeId → Type 0) where
  copied-AllGood :
      (id : NodeId) (p : CopyProgress)
      → P id
      → AllGood P p.upserts
      → AllGood P (copied r chunk now id p).upserts
  copied-AllGood id p g a = record {
    is_map = IsMap-insert id _ p.upserts a.is_map;
    good = λ k q h e. elim (insert-cases id k _ q p.upserts h) [
      | inl (at, _) ↦ subst P (sym at) g
      | inr (_, old) ↦ a.good k q old e
    ];
  }

  not_copied-AllGood :
      (id : NodeId) (p : CopyProgress)
      → AllGood P p.upserts
      → AllGood P (not_copied r chunk now id p).upserts
  not_copied-AllGood id p a = record {
    is_map = IsMap-insert id _ p.upserts a.is_map;
    good = λ k q h e. elim (insert-cases id k _ q p.upserts h) [
      | inl (_, same) ↦
          let pending : Path String replica_state_pending replica_state_ready =
            sym (ap (λ (x : ReplicaMetadata). x.state) same) ∙ e in
          absurd
            (true-ne-false (sym ((eq_iff replica_state_pending replica_state_ready).1 pending)))
      | inr (_, old) ↦ a.good k q old e
    ];
  }

  pub mark_skipped-AllGood :
      (ids : List NodeId) (p : CopyProgress)
      → AllGood P p.upserts
      → AllGood P (mark_skipped r chunk now ids p).upserts
  unfolding mark_skipped
  mark_skipped-AllGood [] p a = a
  mark_skipped-AllGood (id ∷ ids) p a =
      mark_skipped-AllGood ids (not_copied r chunk now id p) (not_copied-AllGood id p a)

  pub mark_targets-AllGood :
      (results : Map ReplicaWriteResult) (ids : List NodeId) (p : CopyProgress)
      → ((id : NodeId) → Mem id ids → is_reported results id ≡ true → P id)
      → AllGood P p.upserts
      → AllGood P (mark_targets r chunk now results ids p).upserts
  unfolding mark_targets
  mark_targets-AllGood results [] p g a = a
  mark_targets-AllGood results (id ∷ ids) p g a =
      mark_targets-AllGood results ids _ (λ k m. g k (inr m))
        (elim (Bool-cases (is_reported results id)) [
          | inl t ↦ rw t (copied-AllGood id p (g id (inl refl) t) a)
          | inr f ↦ rw f (not_copied-AllGood id p a)
        ])
