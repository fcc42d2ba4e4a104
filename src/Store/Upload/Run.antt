-- ===== src/Store/Upload/Run.antt =====
-- Sequences of calls on the upload sessions of internal/mds/store/memory_upload.go.
use astra_storage.Base.{
  ℕ, String, ◌≡◌, sym, subst, ◌⊎◌, inl, inr, List, [], ◌∷◌, Option, none, some, arith, Option-cases,
}
use astra_storage.Base.Int.{pos, ◌≤ℤ◌}
use astra_storage.Base.Map.{lookup}
use astra_storage.Base.Map.Laws.{insert-cases, erase-some}
use astra_storage.Metadata.Object.{UploadSession, UploadSessionId}
use astra_storage.Store.State.{MemoryState}
use astra_storage.Store.Requests.{UploadProgressPatch, UploadFailureRecord}
use astra_storage.Store.Upload.{
  create_upload_session, update_upload_progress, record_upload_failure, complete_upload_session,
  delete_upload_session, with_session, progressed, with_failure, completed, sized,
}
use astra_storage.Store.Upload.Laws.{IsOrdered, AllOrdered}

pub data UploadCall : Type 0 where
  create : Option UploadSession → UploadCall
  progress : UploadProgressPatch → UploadCall
  failure : UploadFailureRecord → UploadCall
  complete : UploadSessionId → ℕ → UploadCall
  delete : UploadSessionId → UploadCall

pub after_upload_call : MemoryState → UploadCall → MemoryState
after_upload_call s (create u) = (create_upload_session s u).0
after_upload_call s (progress p) = (update_upload_progress s p).0
after_upload_call s (failure r) = (record_upload_failure s r).0
after_upload_call s (complete id at) = (complete_upload_session s id at).0
after_upload_call s (delete id) = (delete_upload_session s id).0

pub run_upload_calls : MemoryState → List UploadCall → MemoryState
run_upload_calls s [] = s
run_upload_calls s (c ∷ cs) = run_upload_calls (after_upload_call s c) cs

-- `CreateUploadSession` takes the offsets as they are given.
abbrev pub StartsOrdered : UploadCall → Type 0
StartsOrdered (create (some u)) = IsOrdered u
StartsOrdered _ = Unit

abbrev pub AllStartOrdered : List UploadCall → Type 0
AllStartOrdered [] = Unit
AllStartOrdered (c ∷ cs) = StartsOrdered c × AllStartOrdered cs

create_upload_session-cases :
    (s : MemoryState) (u : UploadSession)
    → ((create_upload_session s (some u)).0 ≡ s)
      ⊎ ((create_upload_session s (some u)).0 ≡ with_session s u.id (sized u))
unfolding create_upload_session
create_upload_session-cases s u = ground arith

update_upload_progress-cases :
    (s : MemoryState) (p : UploadProgressPatch) (u : UploadSession)
    → lookup p.session_id s.upload_sessions ≡ some u
    → ((update_upload_progress s p).0 ≡ s)
      ⊎ ((pos 0 ≤ℤ p.confirmed_offset)
          × (p.confirmed_offset ≤ℤ p.next_offset)
          × ((update_upload_progress s p).0 ≡ with_session s p.session_id (progressed p u)))
unfolding update_upload_progress
update_upload_progress-cases s p u e = ground arith

complete_upload_session-cases :
    (s : MemoryState) (id : UploadSessionId) (at : ℕ) (u : UploadSession)
    → lookup id s.upload_sessions ≡ some u
    → ((complete_upload_session s id at).0 ≡ s)
      ⊎ ((complete_upload_session s id at).0 ≡ with_session s id (completed at u))
unfolding complete_upload_session
complete_upload_session-cases s id at u e = ground arith

module _ (s : MemoryState) (t : AllOrdered s.upload_sessions) where
  with_session-AllOrdered :
      (id : String) (u : UploadSession)
      → IsOrdered u
      → AllOrdered (with_session s id u).upload_sessions
  with_session-AllOrdered id u o k v e = elim (insert-cases id k u v s.upload_sessions e) [
    | inl (at, new) ↦ subst IsOrdered (sym new) o
    | inr (_, old) ↦ t k v old
  ]

  pub create_upload_session-AllOrdered :
      (u : UploadSession)
      → IsOrdered u
      → AllOrdered (create_upload_session s (some u)).0.upload_sessions
  unfolding create_upload_session
  create_upload_session-AllOrdered u o = elim (create_upload_session-cases s u) [
    | inl same ↦ rw same t
    | inr done ↦
        rw done
          (with_session-AllOrdered u.id (sized u) (record { nonneg = o.nonneg; behind = o.behind }))
  ]

  pub update_upload_progress-AllOrdered :
      (p : UploadProgressPatch) → AllOrdered (update_upload_progress s p).0.upload_sessions
  update_upload_progress-AllOrdered p =
      elim (Option-cases (lookup p.session_id s.upload_sessions)) [
        | inl e ↦ unfold update_upload_progress in rw e t
        | inr (u, e) ↦ elim (update_upload_progress-cases s p u e) [
          | inl same ↦ rw same t
          | inr (a, b, done) ↦ rw done (
              with_session-AllOrdered p.session_id (progressed p u)
                (record { nonneg = a; behind = b }))
        ]
      ]

  pub record_upload_failure-AllOrdered :
      (r : UploadFailureRecord) → AllOrdered (record_upload_failure s r).0.upload_sessions
  unfolding record_upload_failure
  record_upload_failure-AllOrdered r = elim (Option-cases (lookup r.session_id s.upload_sessions)) [
    | inl e ↦ rw e t
    | inr (u, e) ↦
        let o : IsOrdered u = t r.session_id u e in
        rw e (
          with_session-AllOrdered r.session_id (with_failure r u)
            (record { nonneg = o.nonneg; behind = o.behind }))
  ]

  pub complete_upload_session-AllOrdered :
      (id : UploadSessionId) (at : ℕ)
      → AllOrdered (complete_upload_session s id at).0.upload_sessions
  complete_upload_session-AllOrdered id at = elim (Option-cases (lookup id s.upload_sessions)) [
    | inl e ↦ unfold complete_upload_session in rw e t
    | inr (u, e) ↦ elim (complete_upload_session-cases s id at u e) [
      | inl same ↦ rw same t
      | inr done ↦
          let o : IsOrdered u = t id u e in
          rw done (
            with_session-AllOrdered id (completed at u)
              (record { nonneg = o.nonneg; behind = o.behind }))
    ]
  ]

  pub delete_upload_session-AllOrdered :
      (id : UploadSessionId) → AllOrdered (delete_upload_session s id).0.upload_sessions
  unfolding delete_upload_session
  delete_upload_session-AllOrdered id = elim (Option-cases (lookup id s.upload_sessions)) [
    | inl e ↦ rw e t
    | inr (u, e) ↦ rw e (λ k v g. t k v (erase-some id k v s.upload_sessions g).1)
  ]

after_upload_call-AllOrdered :
    (s : MemoryState) (c : UploadCall)
    → StartsOrdered c
    → AllOrdered s.upload_sessions
    → AllOrdered (after_upload_call s c).upload_sessions
unfolding after_upload_call
after_upload_call-AllOrdered s (create none) o t = unfold create_upload_session in t
after_upload_call-AllOrdered s (create (some u)) o t = create_upload_session-AllOrdered s t u o
after_upload_call-AllOrdered s (progress p) o t = update_upload_progress-AllOrdered s t p
after_upload_call-AllOrdered s (failure r) o t = record_upload_failure-AllOrdered s t r
after_upload_call-AllOrdered s (complete id at) o t = complete_upload_session-AllOrdered s t id at
after_upload_call-AllOrdered s (delete id) o t = delete_upload_session-AllOrdered s t id

-- After any calls, each refused or not, the confirmed offset of every session is not negative and
-- at most its next offset, if it was so before and the created sessions begin so.
pub run_upload_calls-AllOrdered :
    (s : MemoryState) (cs : List UploadCall)
    → AllOrdered s.upload_sessions
    → AllStartOrdered cs
    → AllOrdered (run_upload_calls s cs).upload_sessions
unfolding run_upload_calls
run_upload_calls-AllOrdered s [] t o = t
run_upload_calls-AllOrdered s (c ∷ cs) t o =
    run_upload_calls-AllOrdered (after_upload_call s c) cs (after_upload_call-AllOrdered s c o.0 t)
      o.1
