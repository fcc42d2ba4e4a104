-- ===== src/Service/Upload/Exclusive.antt =====
-- StartUpload of internal/mds/service_upload.go: the sessions of a file that are not over.
use astra_storage.Base.{
  ℕ, ◌≡◌, refl, sym, ◌∙◌, ap, subst, String, Bool, true, false, ◌==◌, ◌||◌, some, arith, List, [],
  ◌∷◌, inl, inr, eq_refl, Bool-cases, true-ne-false,
}
use astra_storage.Base.Int.{pos}
use astra_storage.Base.Map.{lookup, insert}
use astra_storage.Base.Map.Laws.{insert-cases}
use astra_storage.Base.Map.Loops.{values_where-Mem}
use astra_storage.Base.Slice.Sorted.{Mem, Mem-sort_slice_to}
use astra_storage.Metadata.Object.{
  FileId, FileMetadata, UploadSession, file_status_deleting, file_status_deleted,
  upload_status_pending,
}
use astra_storage.Store.State.{MemoryState, Outcome, ok, conflict, same_ok, unfailed}
use astra_storage.Store.Requests.{file_by_id}
use astra_storage.Store.Select.{find_file}
use astra_storage.Store.File.{get_file, update_file}
use astra_storage.Store.File.Laws.{IsFiled}
use astra_storage.Store.Frames.{update_file-OnlyFiles}
use astra_storage.Store.Upload.{
  create_upload_session, list_upload_sessions_by_file, is_session_of, with_session, sized,
}
use astra_storage.Service.Body.{◌>>=◌, calls, gives, request_time}
use astra_storage.Service.Body.Runs.{ran, ran_reads, ran_refuse, use_case-ok, use_case-checked}
use astra_storage.Service.Upload.{StartUploadRequest, is_terminal_upload_status}
use astra_storage.Service.Upload.Coverage.{not-false}
use astra_storage.Service.Upload.Steps.{
  all_terminal, new_session, file_started, start_body, start_upload,
}

all_terminal-Mem :
    (us : List UploadSession) (v : UploadSession)
    → all_terminal us ≡ true
    → Mem v us
    → is_terminal_upload_status v.status ≡ true
unfolding all_terminal
all_terminal-Mem [] v h m = elim m [ ]
all_terminal-Mem (u ∷ us) v h m = elim (Bool-cases (is_terminal_upload_status u.status)) [
  | inr f ↦ absurd (true-ne-false (sym (rw f at h)))
  | inl t ↦ elim m [ inl e ↦ rw e t | inr later ↦ all_terminal-Mem us v (rw t at h) later ]
]

listed_session :
    (s : MemoryState) (id : FileId) (k : String) (v : UploadSession)
    → lookup k s.upload_sessions ≡ some v
    → v.file_id ≡ id
    → Mem v (list_upload_sessions_by_file s id "")
unfolding list_upload_sessions_by_file
listed_session s id k v h e =
    Mem-sort_slice_to _ _ v
      (values_where-Mem (is_session_of id "") s.upload_sessions k v h (rw (e, eq_refl id) refl))

stored_file :
    (s : MemoryState) (id : FileId) (f : FileMetadata)
    → (id == "") ≡ false
    → get_file s (file_by_id id) ≡ ok f
    → lookup id s.files ≡ some f
unfolding get_file find_file
stored_file s id f n h = ground arith

created_session :
    (s : MemoryState) (w : UploadSession) {u : UploadSession}
    → (create_upload_session s (some w)).1 ≡ ok u
    → (create_upload_session s (some w) ≡ (with_session s w.id u, ok u)) × (sized w ≡ u)
unfolding create_upload_session
created_session s w h = ground arith

second_false : (a b c : Bool) → a || b || c ≡ false → b ≡ false
second_false a b c h = ground arith

-- The end of the callback, from the creation of the session on.
start_rest :
    (s : MemoryState) (w : UploadSession) (id : FileId) (req : StartUploadRequest) (now : ℕ)
    {u : UploadSession}
    → ((calls create_upload_session (some w) >>= λ v.
          calls update_file (file_started id req now) >>= λ done. gives v)
        s).1
      ≡ ok u
    → (sized w ≡ u)
      × (((calls create_upload_session (some w) >>= λ v.
              calls update_file (file_started id req now) >>= λ done. gives v)
            s).0.upload_sessions
          ≡ insert w.id u s.upload_sessions)
unfolding calls gives ◌>>=◌
start_rest s w id req now {u} h =
    let (v, created, h1, e1) = ran (calls create_upload_session (some w)) _ s h in
    let (_, _, h2, e2) = ran (calls update_file (file_started id req now)) _ _ h1 in
    let (made, same) = created_session s w created in
    let end : v ≡ u = same_ok h2 in
    let tables : (create_upload_session s (some w)).0 ≡ with_session s w.id v =
      ap (λ (o : Outcome UploadSession). o.0) made in
    (
      same ∙ end,
      ap (λ (o : Outcome UploadSession). o.0.upload_sessions) (e1 ∙ e2)
          ∙ ap (λ (x : MemoryState). x.upload_sessions)
              (update_file-OnlyFiles (create_upload_session s (some w)).0 (file_started id req now))
          ∙ ap (λ (x : MemoryState). x.upload_sessions) tables
          ∙ ap (λ (x : UploadSession). insert w.id x s.upload_sessions) end,
    )

module _ (s : MemoryState) (req : StartUploadRequest) (now : ℕ) (t : IsFiled s.files)
    {u : UploadSession} (done : (start_upload req now s).0.1 ≡ ok u) where
  -- The tables' sessions after a start, and those of the file before it.
  start_upload-sessions :
      (sized (new_session req (request_time now req.created_at)) ≡ u)
      × ((start_upload req now s).0.0.upload_sessions ≡ insert req.session_id u s.upload_sessions)
      × (all_terminal (list_upload_sessions_by_file s req.file_id "") ≡ true)
  unfolding start_upload start_body
  start_upload-sessions =
      let (body, kept) = use_case-ok _ (start_body req now) _ s done in
      let checked =
        unfailed (req.session_id == "" || req.file_id == "" || _) _
          (use_case-checked _ (start_body req now) _ s done) in
      let (file, got, h1, e1) = ran_reads (λ s. get_file s (file_by_id req.file_id)) _ s body in
      let (_, h2, e2) =
        ran_refuse (file.status == file_status_deleting || file.status == file_status_deleted)
          conflict _ s h1 in
      let (_, over, h3, e3) = ran_reads _ _ s h2 in
      let keyed : file.id ≡ req.file_id =
        t.keyed req.file_id file
          (stored_file s req.file_id file (second_false _ _ _ checked) got) in
      let (made, tables) =
        start_rest s (new_session req (request_time now req.created_at)) file.id req
          (request_time now req.created_at) h3 in
      (
        made,
        ap (λ (x : MemoryState). x.upload_sessions) kept
            ∙ ap (λ (o : Outcome UploadSession). o.0.upload_sessions) (e1 ∙ e2 ∙ e3)
            ∙ tables,
        subst (λ (x : FileId). all_terminal (list_upload_sessions_by_file s x "") ≡ true) keyed
            (not-false _ (unfailed _ conflict over)),
      )

-- After a start that succeeds, the only upload session of the file that is not over is the new one,
-- which is pending at offset 0, if files stand under their ids.
pub start_upload_exclusive :
    (s : MemoryState) (req : StartUploadRequest) (now : ℕ) (k : String) {u v : UploadSession}
    → IsFiled s.files
    → (start_upload req now s).0.1 ≡ ok u
    → lookup k (start_upload req now s).0.0.upload_sessions ≡ some v
    → v.file_id ≡ req.file_id
    → is_terminal_upload_status v.status ≡ false
    → (k ≡ req.session_id)
      × (v ≡ u)
      × (v.status ≡ upload_status_pending)
      × (v.confirmed_offset ≡ pos 0)
      × (v.next_offset ≡ pos 0)
start_upload_exclusive s req now k {u} {v} t done h of_file active =
    let (made, tables, over) = start_upload-sessions s req now t done in
    elim (insert-cases req.session_id k u v s.upload_sessions
      (subst (λ m. lookup k m ≡ some v) tables h)) [
        | inl (key, same) ↦
            let new : v ≡ sized (new_session req (request_time now req.created_at)) =
              same ∙ sym made in
            (
              key,
              same,
              ap (λ (x : UploadSession). x.status) new,
              ap (λ (x : UploadSession). x.confirmed_offset) new,
              ap (λ (x : UploadSession). x.next_offset) new,
            )
        | inr (_, old) ↦
            let ended : is_terminal_upload_status v.status ≡ true =
              all_terminal-Mem _ v over (listed_session s req.file_id k v old of_file) in
            absurd (true-ne-false (sym ended ∙ active))
      ]
