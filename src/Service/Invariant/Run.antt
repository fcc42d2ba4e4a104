-- ===== src/Service/Invariant/Run.antt =====
-- Sequences of the use cases of internal/mds/service*.go that write.
use astra_storage.Base.{
  ℕ, ◌≡◌, ◌⊎◌, subst, sym, ap, ◌∙◌, List, [], ◌∷◌, Option, none, some, inl, inr,
}
use astra_storage.Base.Map.Laws.{none-ne-some}
use astra_storage.Store.State.{MemoryState, Result, ok, err, StoreError, Result-cases}
use astra_storage.Store.Inode.Step.{IsTakenOrNew}
use astra_storage.Service.Body.{Body, Answer, ReadModel, use_case}
use astra_storage.Service.Body.Runs.{use_case-err}
use astra_storage.Service.Body.Keeps.{use_case-Keeps, transact-cases}
use astra_storage.Service.Create.{
  CreateDirectoryRequest, CreateFileRequest, create_directory, create_file_with_inode,
}
use astra_storage.Service.Nodes.{
  RegisterNodeRequest, HeartbeatNodeRequest, register_node, heartbeat_node,
}
use astra_storage.Service.Upload.{
  StartUploadRequest, CommitChunkRequest, CompleteUploadRequest, VerifyUploadRequest,
  FailUploadVerificationRequest, RetryUploadRequest,
}
use astra_storage.Service.Upload.Steps.{start_upload, commit_chunk}
use astra_storage.Service.Upload.Finish.{complete_upload, verify_upload}
use astra_storage.Service.Upload.Failure.{fail_upload_verification, retry_upload}
use astra_storage.Service.Mutation.{
  RenameInodeRequest, MoveInodeRequest, DeleteFileRequest, DeleteDirectoryRequest,
  rename_inode_and_paths, move_inode_and_paths, delete_file_and_chunks, delete_directory,
}
use astra_storage.Service.Invariant.{IsWell}
use astra_storage.Service.Invariant.Uploads.{
  start_body-Keeps, commit_body-Keeps, complete_body-Keeps, verify_body-Keeps, fail_body-Keeps,
  retry_body-Keeps,
}
use astra_storage.Service.Invariant.Trees.{
  directory_body-IsWell, file_body-IsWell, register_body-Keeps, heartbeat_body-Keeps,
  rename_body-Keeps, move_body-Keeps, delete_file_body-Keeps, delete_directory_body-Keeps,
}

pub data ServiceCall : Type 0 where
  creates_directory : CreateDirectoryRequest → ServiceCall
  creates_file : CreateFileRequest → ServiceCall
  renames : RenameInodeRequest → ServiceCall
  moves : MoveInodeRequest → ServiceCall
  deletes_file : DeleteFileRequest → ServiceCall
  deletes_directory : DeleteDirectoryRequest → ServiceCall
  starts : StartUploadRequest → ServiceCall
  commits : CommitChunkRequest → ServiceCall
  completes : CompleteUploadRequest → ServiceCall
  verifies : VerifyUploadRequest → ServiceCall
  fails : FailUploadVerificationRequest → ServiceCall
  retries : RetryUploadRequest → ServiceCall
  registers : RegisterNodeRequest → ServiceCall
  beats : HeartbeatNodeRequest → ServiceCall

-- What a caller sees of an answer: the tables, the error if there is one, and the read models that
-- are dropped.
abbrev pub Seen : Type 0
Seen = MemoryState × Option StoreError × List ReadModel

abbrev pub error_of : {A : Type 0} → Result A → Option StoreError
error_of (ok a) = none
error_of (err why) = some why

abbrev pub seen : {A : Type 0} → Answer A → Seen
seen a = (a.0.0, error_of a.0.1, a.1)

-- A call at the time `now`.
unfoldable pub serve : ℕ → MemoryState → ServiceCall → Seen
serve now s (creates_directory req) = seen (create_directory req now s)
serve now s (creates_file req) = seen (create_file_with_inode req now s)
serve now s (renames req) = seen (rename_inode_and_paths req now s)
serve now s (moves req) = seen (move_inode_and_paths req now s)
serve now s (deletes_file req) = seen (delete_file_and_chunks req s)
serve now s (deletes_directory req) = seen (delete_directory req s)
serve now s (starts req) = seen (start_upload req now s)
serve now s (commits req) = seen (commit_chunk req now s)
serve now s (completes req) = seen (complete_upload req now s)
serve now s (verifies req) = seen (verify_upload req now s)
serve now s (fails req) = seen (fail_upload_verification req now s)
serve now s (retries req) = seen (retry_upload req now s)
serve now s (registers req) = seen (register_node req now s)
serve now s (beats req) = seen (heartbeat_node req now s)

-- The tables after a call, whether it succeeds or fails.
abbrev pub after_service_call : ℕ → MemoryState → ServiceCall → MemoryState
after_service_call now s c = (serve now s c).0

unfoldable pub run_service_calls : MemoryState → List (ℕ × ServiceCall) → MemoryState
run_service_calls s [] = s
run_service_calls s ((now, c) ∷ cs) = run_service_calls (after_service_call now s c) cs

abbrev pub IsRefused : ℕ → MemoryState → ServiceCall → Type 0
IsRefused now s c = (why : StoreError) × ((serve now s c).1 ≡ some why)

seen-refused :
    {A : Type 0} (r : Result (Unit {0})) (body : Body A) (models : A → List ReadModel)
    (s : MemoryState) (why : StoreError)
    → error_of (use_case r body models s).0.1 ≡ some why
    → seen (use_case r body models s) ≡ (s, some why, [])
seen-refused {A} r body models s why h = elim (Result-cases (use_case r body models s).0.1) [
  | inl (a, e) ↦ absurd (none-ne-some (sym (ap error_of e) ∙ h))
  | inr (e, g) ↦
      let alike : Path (Option StoreError) (some e) (some why) = sym (ap error_of g) ∙ h in
      ap seen (use_case-err r body models s g) ∙ ap (λ (o : Option StoreError). (s, o, [])) alike
]

-- A use case that fails leaves all tables as they were and drops no read model, whatever it had done
-- before the error.
pub serve-refused :
    (now : ℕ) (s : MemoryState) (c : ServiceCall) (why : StoreError)
    → (serve now s c).1 ≡ some why
    → serve now s c ≡ (s, some why, [])
unfolding serve create_directory create_file_with_inode rename_inode_and_paths move_inode_and_paths
    delete_file_and_chunks delete_directory start_upload commit_chunk complete_upload verify_upload
    fail_upload_verification retry_upload register_node heartbeat_node
serve-refused now s (creates_directory req) why h = seen-refused _ _ _ s why h
serve-refused now s (creates_file req) why h = seen-refused _ _ _ s why h
serve-refused now s (renames req) why h = seen-refused _ _ _ s why h
serve-refused now s (moves req) why h = seen-refused _ _ _ s why h
serve-refused now s (deletes_file req) why h = seen-refused _ _ _ s why h
serve-refused now s (deletes_directory req) why h = seen-refused _ _ _ s why h
serve-refused now s (starts req) why h = seen-refused _ _ _ s why h
serve-refused now s (commits req) why h = seen-refused _ _ _ s why h
serve-refused now s (completes req) why h = seen-refused _ _ _ s why h
serve-refused now s (verifies req) why h = seen-refused _ _ _ s why h
serve-refused now s (fails req) why h = seen-refused _ _ _ s why h
serve-refused now s (retries req) why h = seen-refused _ _ _ s why h
serve-refused now s (registers req) why h = seen-refused _ _ _ s why h
serve-refused now s (beats req) why h = seen-refused _ _ _ s why h

refused-IsWell :
    (now : ℕ) (s : MemoryState) (c : ServiceCall)
    → IsRefused now s c
    → IsWell s
    → IsWell (after_service_call now s c)
refused-IsWell now s c (why, h) w =
    subst IsWell (sym (ap (λ (o : Seen). o.0) (serve-refused now s c why h))) w

-- A creation is refused, or the id is taken, or is not the parent of an inode that is there.
abbrev pub IsNew : ℕ → MemoryState → ServiceCall → Type 0
IsNew now s (creates_directory req) =
    IsRefused now s (creates_directory req) ⊎ IsTakenOrNew s.inodes req.inode_id
IsNew now s (creates_file req) =
    IsRefused now s (creates_file req) ⊎ IsTakenOrNew s.inodes req.inode_id
IsNew now s _ = Unit

abbrev pub AllNew : MemoryState → List (ℕ × ServiceCall) → Type 0
AllNew s [] = Unit
AllNew s ((now, c) ∷ cs) = IsNew now s c × AllNew (after_service_call now s c) cs

created-IsWell :
    {A : Type 0} (r : Result (Unit {0})) (body : Body A) (models : A → List ReadModel)
    (s : MemoryState)
    → IsWell (body s).0
    → IsWell s
    → IsWell (use_case r body models s).0.0
unfolding use_case
created-IsWell (err why) body models s b w = w
created-IsWell (ok done) body models s b w = elim (transact-cases body s) [
  | inl (a, h, e) ↦ rw e b
  | inr (why, h, e) ↦ rw e w
]

after_service_call-IsWell :
    (now : ℕ) (s : MemoryState) (c : ServiceCall)
    → IsNew now s c
    → IsWell s
    → IsWell (after_service_call now s c)
unfolding serve create_directory create_file_with_inode rename_inode_and_paths move_inode_and_paths
    delete_file_and_chunks delete_directory start_upload commit_chunk complete_upload verify_upload
    fail_upload_verification retry_upload register_node heartbeat_node
after_service_call-IsWell now s (creates_directory req) n w = elim n [
  | inl bad ↦ refused-IsWell now s (creates_directory req) bad w
  | inr new ↦ created-IsWell _ _ _ s (directory_body-IsWell req now s new w) w
]
after_service_call-IsWell now s (creates_file req) n w = elim n [
  | inl bad ↦ refused-IsWell now s (creates_file req) bad w
  | inr new ↦ created-IsWell _ _ _ s (file_body-IsWell req now s new w) w
]
after_service_call-IsWell now s (renames req) n w =
    use_case-Keeps IsWell _ _ _ s (rename_body-Keeps req now) w
after_service_call-IsWell now s (moves req) n w =
    use_case-Keeps IsWell _ _ _ s (move_body-Keeps req now) w
after_service_call-IsWell now s (deletes_file req) n w =
    use_case-Keeps IsWell _ _ _ s (delete_file_body-Keeps req) w
after_service_call-IsWell now s (deletes_directory req) n w =
    use_case-Keeps IsWell _ _ _ s (delete_directory_body-Keeps req) w
after_service_call-IsWell now s (starts req) n w =
    use_case-Keeps IsWell _ _ _ s (start_body-Keeps req now) w
after_service_call-IsWell now s (commits req) n w =
    use_case-Keeps IsWell _ _ _ s (commit_body-Keeps req now) w
after_service_call-IsWell now s (completes req) n w =
    use_case-Keeps IsWell _ _ _ s (complete_body-Keeps req now) w
after_service_call-IsWell now s (verifies req) n w =
    use_case-Keeps IsWell _ _ _ s (verify_body-Keeps req now) w
after_service_call-IsWell now s (fails req) n w =
    use_case-Keeps IsWell _ _ _ s (fail_body-Keeps req now) w
after_service_call-IsWell now s (retries req) n w =
    use_case-Keeps IsWell _ _ _ s (retry_body-Keeps req now) w
after_service_call-IsWell now s (registers req) n w =
    use_case-Keeps IsWell _ _ _ s (register_body-Keeps req now) w
after_service_call-IsWell now s (beats req) n w =
    use_case-Keeps IsWell _ _ _ s (heartbeat_body-Keeps req now) w

-- After any sequence of use cases that write, at any times, each refused or not, every table
-- satisfies its invariant, if it was so before and each creation is refused, or its id is taken at that
-- time, or no inode that is there names that id as its parent: the inodes form a tree, files and chunks
-- stand under their ids with the fixed chunk size and distinct places, session offsets are ordered,
-- node sizes are not negative, and no two unfinished plans have one job.
pub run_service_calls-IsWell :
    (s : MemoryState) (cs : List (ℕ × ServiceCall))
    → IsWell s
    → AllNew s cs
    → IsWell (run_service_calls s cs)
unfolding run_service_calls
run_service_calls-IsWell s [] w n = w
run_service_calls-IsWell s ((now, c) ∷ cs) w n =
    run_service_calls-IsWell (after_service_call now s c) cs
      (after_service_call-IsWell now s c n.0 w) n.1
