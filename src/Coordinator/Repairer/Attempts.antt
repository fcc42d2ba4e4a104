-- ===== src/Coordinator/Repairer/Attempts.antt =====
-- How many replicas a copy of internal/mds/coordinator/repairer.go attempts.
use astra_storage.Base.{
  ℕ, ◌≤◌, ◌≡◌, refl, sym, ◌∙◌, subst, List, [], ◌∷◌, arith, inl, inr, Bool-cases, length,
}
use astra_storage.Base.Int.{pos, pos_part, leb_ℤ}
use astra_storage.Base.Map.{Map}
use astra_storage.Base.Slice.{take}
use astra_storage.Base.Slice.Sorted.{length-take_le}
use astra_storage.Base.Text.{is_blank}
use astra_storage.Metadata.Object.{NodeId, NodeInfo}
use astra_storage.Metadata.Chunk.{ChunkMetadata}
use astra_storage.Allocator.{
  PlacementRequest, select_capacity_aware_nodes, select_placement_targets,
}
use astra_storage.Store.State.{Outcome, ok, err, Result-cases}
use astra_storage.Store.Node.{get_node}
use astra_storage.Coordinator.Repairer.Copy.{
  ReplicaWriteResult, PendingReplicaRepairer, RepairOutcome, RepairState, Repaired, Gathered,
  CopyProgress, replicate_chunk, is_reported, not_copied, mark_targets, mark_skipped, written,
  started, copy_request, copy_to, selected_of, copy_selected, copy_from, execute_replica_copy,
  gather_targets, AskedCopy,
}
use astra_storage.Coordinator.Repairer.Reports.{sum-cases}

abbrev pub attempted_of : Repaired → ℕ
attempted_of a = a.1.attempted

length-select_placement_targets :
    (req : PlacementRequest) (n : ℕ) → req.count ≡ pos n → length (select_placement_targets req) ≤ n
unfolding select_placement_targets
length-select_placement_targets req n h = elim (Bool-cases (leb_ℤ req.count (pos 0))) [
  | inl t ↦ rw t (omega arith)
  | inr f ↦
      let cut : (xs : List NodeInfo) → length (take (pos_part req.count) xs) ≤ n =
        λ xs. subst (λ z. length (take (pos_part z) xs) ≤ n) (sym h) (length-take_le n xs) in
      rw f (cut _)
]

module _ (r : PendingReplicaRepairer) (chunk : ChunkMetadata) (now : ℕ) where
  attempted-mark_skipped :
      (ids : List NodeId) (p : CopyProgress)
      → (mark_skipped r chunk now ids p).outcome.attempted ≡ p.outcome.attempted
  unfolding mark_skipped
  attempted-mark_skipped [] p = refl
  attempted-mark_skipped (id ∷ ids) p = attempted-mark_skipped ids (not_copied r chunk now id p)

  attempted-mark_targets :
      (results : Map ReplicaWriteResult) (ids : List NodeId) (p : CopyProgress)
      → (mark_targets r chunk now results ids p).outcome.attempted ≡ p.outcome.attempted
  unfolding mark_targets
  attempted-mark_targets results [] p = refl
  attempted-mark_targets results (id ∷ ids) p =
      attempted-mark_targets results ids _
      ∙ elim (Bool-cases (is_reported results id)) [ inl t ↦ rw t refl | inr f ↦ rw f refl ]

  attempted-record_copy :
      (m : Map ℕ) (l : List AskedCopy) (o : RepairOutcome) (after : Outcome (Unit {0}))
      → attempted_of (written r chunk now m l o after) ≡ o.attempted
  attempted-record_copy m l o (t, ok a) = refl
  attempted-record_copy m l o (t, err e) = refl

  pub attempted-copy_to :
      (t : RepairState) (source : NodeInfo) (ids : List NodeId) (g : Gathered)
      (selected : List NodeInfo)
      → attempted_of (copy_to r chunk now t source ids g selected) ≡ length selected
  unfolding copy_to
  attempted-copy_to (s, m, l) source ids g selected =
      elim (sum-cases (replicate_chunk r source.address (copy_request r chunk now selected))) [
        | inl (why, e) ↦ rw (e, copy_to) refl
        | inr (ws, e) ↦
            rw (e, copy_to)
              (attempted-record_copy _ _ _ _
                ∙ attempted-mark_skipped _ _
                ∙ attempted-mark_targets _ _ (started r chunk now m selected))
      ]

  attempted-copy_selected :
      (t : RepairState) (source : NodeInfo) (ids : List NodeId) (g : Gathered)
      (selected : List NodeInfo)
      → length selected ≤ length ids
      → attempted_of (copy_selected r chunk now t source ids g selected) ≤ length ids
  unfolding copy_selected
  attempted-copy_selected t source ids g [] h = omega arith
  attempted-copy_selected t source ids g (x ∷ xs) h =
      rw (attempted-copy_to t source ids g (x ∷ xs)) h

  attempted-copy_from :
      (t : RepairState) (source : NodeInfo) (ids : List NodeId)
      → attempted_of (copy_from r chunk now t source ids) ≤ length ids
  unfolding copy_from select_capacity_aware_nodes
  attempted-copy_from t source ids = elim (Bool-cases (is_blank source.address)) [
    | inl b ↦ rw b (omega arith)
    | inr b ↦ elim (Result-cases (gather_targets t.0 ids)) [
      | inr (e, g) ↦ rw (b, g) (omega arith)
      | inl (a, g) ↦
          rw (b, g)
            (attempted-copy_selected t source ids a (selected_of r chunk now ids a)
              (length-select_placement_targets _ (length ids) refl))
    ]
  ]

  pub attempted-execute_replica_copy :
      (t : RepairState) (source_id : NodeId) (ids : List NodeId)
      → attempted_of (execute_replica_copy r chunk now t source_id ids) ≤ length ids
  unfolding execute_replica_copy
  attempted-execute_replica_copy t source_id ids = elim (Result-cases (get_node t.0 source_id)) [
    | inr (e, g) ↦ rw (g, execute_replica_copy) (omega arith)
    | inl (source, g) ↦ rw (g, execute_replica_copy) (attempted-copy_from t source ids)
  ]
