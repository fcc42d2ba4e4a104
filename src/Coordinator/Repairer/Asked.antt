-- ===== src/Coordinator/Repairer/Asked.antt =====
-- The copies that internal/mds/coordinator/repairer.go asks for, and those that it counts.
use astra_storage.Base.{
  ℕ, suc, ◌+◌, ◌≡◌, refl, sym, ◌∙◌, ap, Bool, ◌==◌, ◌||◌, List, [], ◌∷◌, ◌++◌, Option, none, some,
  arith, inl, inr, Bool-cases, length, map,
}
use astra_storage.Base.Int.{ℤ, pos, leb_ℤ}
use astra_storage.Base.Map.{Map}
use astra_storage.Base.Text.{is_blank}
use astra_storage.Metadata.Object.{NodeId, NodeInfo}
use astra_storage.Metadata.Chunk.{ChunkMetadata}
use astra_storage.Store.State.{Outcome, ok, err, Result-cases}
use astra_storage.Store.Node.{get_node}
use astra_storage.Coordinator.Repairer.Attempts.{attempted_of, attempted-copy_to}
use astra_storage.Coordinator.Repairer.Copy.{
  ReplicaRepairTask, PendingReplicaRepairer, AskedCopy, RepairOutcome, RepairState, Repaired,
  Gathered, no_outcome, written, replicate_chunk, asked_copy, copy_request, copy_to, selected_of,
  copy_selected, copy_from, execute_replica_copy, gather_targets,
}
use astra_storage.Coordinator.Repairer.Loop.{
  new_replica_repair_task, queued, publish_targets, copy_or_publish, repair_targets, repair_chunk,
}
use astra_storage.Coordinator.Repairer.Reports.{sum-cases}
use astra_storage.Coordinator.Repairer.Source.{select_repair_targets}

-- What was asked for since the state `t` is as much as what was counted.
abbrev pub Counts : RepairState → Repaired → Type 0
Counts t a = length a.0.2 ≡ attempted_of a + length t.2

length-asked :
    {A B : Type 0} (f : A → B) (xs : List A) (ys : List B)
    → length (map f xs ++ ys) ≡ length xs + length ys
length-asked f [] ys = omega arith
length-asked f (x ∷ xs) ys = omega (arith, length-asked f xs ys)

module _ (r : PendingReplicaRepairer) (chunk : ChunkMetadata) (now : ℕ) where
  written-asked :
      (m : Map ℕ) (l : List AskedCopy) (o : RepairOutcome) (after : Outcome (Unit {0}))
      → (written r chunk now m l o after).0.2 ≡ l
  written-asked m l o (t, ok a) = refl
  written-asked m l o (t, err e) = refl

  copy_to-asked :
      (t : RepairState) (source : NodeInfo) (ids : List NodeId) (g : Gathered)
      (selected : List NodeInfo)
      → (copy_to r chunk now t source ids g selected).0.2
        ≡ map (asked_copy r chunk now) selected ++ t.2
  unfolding copy_to
  copy_to-asked (s, m, l) source ids g selected =
      elim (sum-cases (replicate_chunk r source.address (copy_request r chunk now selected))) [
        | inl (why, e) ↦ rw (e, copy_to) refl
        | inr (ws, e) ↦ rw (e, copy_to) (written-asked _ _ _ _)
      ]

  copy_selected-Counts :
      (t : RepairState) (source : NodeInfo) (ids : List NodeId) (g : Gathered)
      (selected : List NodeInfo)
      → Counts t (copy_selected r chunk now t source ids g selected)
  unfolding copy_selected
  copy_selected-Counts t source ids g [] = omega arith
  copy_selected-Counts t source ids g (x ∷ xs) =
      ap length (copy_to-asked t source ids g (x ∷ xs))
      ∙ length-asked (asked_copy r chunk now) (x ∷ xs) t.2
      ∙ ap (λ n. n + length t.2) (sym (attempted-copy_to r chunk now t source ids g (x ∷ xs)))

  execute_replica_copy-Counts :
      (t : RepairState) (source_id : NodeId) (ids : List NodeId)
      → Counts t (execute_replica_copy r chunk now t source_id ids)
  unfolding execute_replica_copy copy_from
  execute_replica_copy-Counts t source_id ids = elim (Result-cases (get_node t.0 source_id)) [
    | inr (e, g) ↦ rw (g, execute_replica_copy) (omega arith)
    | inl (source, g) ↦ elim (Bool-cases (is_blank source.address)) [
      | inl b ↦ rw (g, execute_replica_copy, b) (omega arith)
      | inr b ↦ elim (Result-cases (gather_targets t.0 ids)) [
        | inr (e, h) ↦ rw (g, execute_replica_copy, b, h) (omega arith)
        | inl (a, h) ↦
            rw (g, execute_replica_copy, b, h)
              (copy_selected-Counts t source ids a (selected_of r chunk now ids a))
      ]
    ]
  ]

module _ (r : PendingReplicaRepairer) (now : ℕ) where
  publish_targets-asked :
      (takes : ReplicaRepairTask → Bool) (chunk : ChunkMetadata) (source : NodeId) (t : RepairState)
      (o : RepairOutcome) (ids : List NodeId)
      → length (publish_targets r now takes chunk source t o ids).0.2 + o.attempted
        ≡ attempted_of (publish_targets r now takes chunk source t o ids) + length t.2
  unfolding publish_targets
  publish_targets-asked takes chunk source t o [] = omega arith
  publish_targets-asked takes chunk source t o (id ∷ ids) =
      elim (Bool-cases (takes (new_replica_repair_task chunk.id chunk.file_id source id))) [
        | inr f ↦ rw f (omega arith)
        | inl b ↦
            let o' : RepairOutcome = record o { attempted = suc o.attempted } in
            let rest : length
                    (publish_targets r now takes chunk source (queued r now id chunk.id t) o'
                      ids).0.2
                  + suc o.attempted
                ≡ attempted_of
                    (publish_targets r now takes chunk source (queued r now id chunk.id t) o' ids)
                  + suc (length t.2) =
              publish_targets-asked takes chunk source (queued r now id chunk.id t) o' ids in
            rw b (omega arith)
      ]

  copy_or_publish-Counts :
      (queue : Option (ReplicaRepairTask → Bool)) (t : RepairState) (chunk : ChunkMetadata)
      (source : NodeId) (ids : List NodeId)
      → Counts t (copy_or_publish r now queue t chunk source ids)
  unfolding copy_or_publish
  copy_or_publish-Counts none t chunk source ids =
      execute_replica_copy-Counts r chunk now t source ids
  copy_or_publish-Counts (some takes) t chunk source ids =
      let all : length (publish_targets r now takes chunk source t no_outcome ids).0.2 + 0
          ≡ attempted_of (publish_targets r now takes chunk source t no_outcome ids) + length t.2 =
        publish_targets-asked takes chunk source t no_outcome ids in
      omega arith

  repair_targets-Counts :
      (t : RepairState) (chunk : ChunkMetadata) (source : NodeId) (ids : List NodeId)
      → Counts t (repair_targets r now t chunk source ids)
  unfolding repair_targets
  repair_targets-Counts t chunk source [] = omega arith
  repair_targets-Counts t chunk source (id ∷ ids) =
      copy_or_publish-Counts r.publish_repair t chunk source (id ∷ ids)

  pub repair_chunk-Counts :
      (t : RepairState) (chunk : ChunkMetadata) (left : ℤ)
      → Counts t (repair_chunk r now t chunk left)
  unfolding repair_chunk
  repair_chunk-Counts t chunk left =
      elim (Bool-cases ((select_repair_targets chunk.replicas).0 == "" || leb_ℤ left (pos 0))) [
        | inl b ↦ rw b (omega arith)
        | inr b ↦ rw b (repair_targets-Counts t chunk _ _)
      ]
