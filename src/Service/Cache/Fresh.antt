-- ===== src/Service/Cache/Fresh.antt =====
-- What a read of internal/mds/read_cache.go returns after its entries were dropped.
use astra_storage.Base.{
  ℕ, zero, suc, ◌+◌, ◌<◌, ◌≡◌, ◌≢◌, refl, arith, sym, ◌∙◌, ap, String, Bool, true, false, ◌==◌,
  List, [], ◌∷◌, Option, none, some, inl, inr, ◌⊎◌, Bool-cases, if◌then◌else◌,
}
use Prim.Native.String.{len}
use text.Mathlib.TextPositions.{len-append}
use astra_storage.Base.Int.{ℤ}
use astra_storage.Base.Slice.Sorted.{Mem}
use astra_storage.Metadata.Object.{FileId, FileMetadata}
use astra_storage.Store.State.{Result, ok, err, not_found}
use astra_storage.Service.Cache.{
  Reply, present, missing, broken, CacheBackend, Codec, Policy, CacheError, store, backend, codec,
  Loaded, loaded, failed, CacheSlot, poll, remember_error, clear_null, remember, load_and_remember,
  with_lock, with_token, read_through_with_lock, encoded, decode_loaded, cached_read, after_get,
  after_null, reply_of_null, file_meta_key, download_plan_key, null_file_key, effective_ttl,
  tracked, or_codec,
}
use astra_storage.Service.Cache.Kinds.{file_slot, get_cached_file, invalidate_file}

failed-ne-loaded : {A : Type 0} {why : CacheError} {a : A} → failed why ≡ loaded a → ⊥
failed-ne-loaded h = cc

same_loaded : {A : Type 0} {a b : A} → loaded a ≡ loaded b → a ≡ b
same_loaded h = cc

reply-cases : (r : Reply) → ((s : String) × (r ≡ present s)) ⊎ ((r ≡ missing) ⊎ (r ≡ broken))
reply-cases (present s) = inl (s, refl)
reply-cases missing = inr (inl refl)
reply-cases broken = inr (inr refl)

same_some : {A : Type 0} {a b : A} → some a ≡ some b → a ≡ b
same_some h = cc

-- DEL, on the server that is written to: a key that was deleted is not there.
abbrev pub Deletes : {C : Type 0} → CacheBackend C → Type 0
Deletes {C} b =
    (c : C) (ks : List String) (k : String)
    → (b.del c ks).1 ≡ true
    → Mem k ks
    → b.writer_get (b.del c ks).0 k ≡ missing

-- The server that is read from has what the one that is written to has.
abbrev pub IsSynced : {C : Type 0} → CacheBackend C → C → Type 0
IsSynced b c = (k : String) → b.reader_get c k ≡ b.writer_get c k

-- Making a token changes no entry, and SET NX none but that of its key.
pub record LocksApart {C : Type 0} (b : CacheBackend C) : Type 0 where
  pub token_apart : (c : C) (k : String) → b.writer_get (b.new_token c).0 k ≡ b.writer_get c k
  pub lock_apart :
      (c : C) (lock token : String) (ttl : ℤ) (k : String)
      → k ≢ lock
      → b.writer_get (b.set_nx c lock token ttl).0 k ≡ b.writer_get c k

-- json.Unmarshal gives back the value that json.Marshal was given.
abbrev pub RoundTrips : {A : Type 0} → Codec A → Result A → Type 0
RoundTrips {A} j load =
    (a : A) (s : String) → load ≡ ok a → j.encode a ≡ some s → j.decode s ≡ some a

module _ {C : Type 0} (b : CacheBackend C) (p : Policy) (lock_ttl : ℤ) where
  -- The state after so many sleeps.
  abbrev pub slept : ℕ → C → C
  slept zero c = c
  slept (suc n) c = slept n (b.sleep c)

  -- In one of so many sleeps from a state on, another client stored the payload under the key, which
  -- had no entry before that sleep.
  abbrev pub StoredAsleep : ℕ → String → C → String → Type 0
  StoredAsleep rounds key c payload =
      (n : ℕ) × (n < rounds)
      × (b.writer_get (slept n c) key ≡ missing)
      × (b.writer_get (slept (suc n) c) key ≡ present payload)

  poll-ok :
      (rounds : ℕ) (key : String) (load : Loaded String) (c : C) {s : String}
      → b.writer_get c key ≡ missing
      → (poll b p lock_ttl rounds key load c).1 ≡ loaded s
      → (load ≡ loaded s) ⊎ StoredAsleep rounds key c s
  unfolding poll
  poll-ok zero key load c m h = inl h
  poll-ok (suc n) key load c {s} m h = elim (reply-cases (b.writer_get (b.sleep c) key)) [
    | inl (x, e) ↦
        let same : loaded x ≡ loaded s = rw (e, poll) at h in
        inr (zero, omega arith, m, e ∙ ap present (same_loaded same))
    | inr (inl e) ↦ elim (poll-ok n key load (b.sleep c) e (rw (e, poll) at h)) [
      | inl q ↦ inl q
      | inr (k, below, before, after) ↦ inr (suc k, omega (arith, below), before, after)
    ]
    | inr (inr e) ↦
        let bad : failed backend ≡ loaded s = rw (e, poll) at h in absurd (failed-ne-loaded bad)
  ]

  clear_null-ok :
      (slot : CacheSlot) (payload : String) (c : C) {s : String}
      → (clear_null b p lock_ttl slot payload c).1 ≡ loaded s
      → payload ≡ s
  unfolding clear_null
  clear_null-ok slot payload c {s} h = elim (Bool-cases (slot.null_key == "")) [
    | inl t ↦ same_loaded (rw t at h)
    | inr f ↦ elim (Bool-cases (b.del c (slot.null_key ∷ [])).1) [
      | inl g ↦ same_loaded (rw (f, g) at h)
      | inr g ↦
          let bad : failed backend ≡ loaded s = rw (f, g) at h in absurd (failed-ne-loaded bad)
    ]
  ]

  remember_error-fails :
      (slot : CacheSlot) (why : CacheError) (c : C) {s : String}
      → (remember_error b p lock_ttl slot why c).1 ≡ loaded s
      → ⊥
  unfolding remember_error
  remember_error-fails slot (store not_found) c {s} h = elim (Bool-cases (slot.null_key == "")) [
    | inl t ↦
        let bad : failed (store not_found) ≡ loaded s = rw t at h in absurd (failed-ne-loaded bad)
    | inr f ↦
        let bad : failed
              (if (b.set c slot.null_key "1" p.null_entry_ttl).1 then store not_found else backend)
            ≡ loaded s =
          rw f at h in
        absurd (failed-ne-loaded bad)
  ]
  remember_error-fails slot (store e) c h = absurd (failed-ne-loaded h)
  remember_error-fails slot backend c h = absurd (failed-ne-loaded h)
  remember_error-fails slot codec c h = absurd (failed-ne-loaded h)

  remember-ok :
      (slot : CacheSlot) (payload : String) (c : C) {s : String}
      → (remember b p lock_ttl slot payload c).1 ≡ loaded s
      → payload ≡ s
  unfolding remember
  remember-ok slot payload c {s} h =
      elim (Bool-cases
        (b.set (effective_ttl b p lock_ttl slot c).0 slot.key payload
          (effective_ttl b p lock_ttl slot c).1).1) [
            | inl g ↦ clear_null-ok slot payload _ (rw g at h)
            | inr g ↦
                let bad : failed backend ≡ loaded s = rw g at h in absurd (failed-ne-loaded bad)
          ]

  load_and_remember-ok :
      (slot : CacheSlot) (load : Loaded String) (c : C) {s : String}
      → (load_and_remember b p lock_ttl slot load c).1 ≡ loaded s
      → load ≡ loaded s
  unfolding load_and_remember
  load_and_remember-ok slot (failed why) c h = absurd (remember_error-fails slot why c h)
  load_and_remember-ok slot (loaded payload) c h = ap loaded (remember-ok slot payload c h)

  with_lock-ok :
      (slot : CacheSlot) (load : Loaded String) (token : String) (o : C × Option Bool) {s : String}
      → b.writer_get o.0 slot.key ≡ missing
      → (with_lock b p lock_ttl slot load token o).1 ≡ loaded s
      → (load ≡ loaded s) ⊎ ((o.1 ≡ some false) × StoredAsleep 3 slot.key o.0 s)
  unfolding with_lock
  with_lock-ok slot load token (c, none) m h = absurd (failed-ne-loaded h)
  with_lock-ok slot load token (c, some false) m h = elim (poll-ok 3 slot.key load c m h) [
    | inl q ↦ inl q
    | inr q ↦ inr (refl, q)
  ]
  with_lock-ok slot load token (c, some true) m h = inl (load_and_remember-ok slot load c h)

  -- The read that begins in this state is refused the lock, and another client stores the payload in
  -- one of its three sleeps.
  abbrev pub StoredMeanwhile : CacheSlot → C × Option String → String → Type 0
  StoredMeanwhile slot o payload =
      (token : String) × (o.1 ≡ some token)
      × ((b.set_nx o.0 slot.lock_key token lock_ttl).1 ≡ some false)
      × StoredAsleep 3 slot.key (b.set_nx o.0 slot.lock_key token lock_ttl).0 payload

  read_through-ok :
      (slot : CacheSlot) (load : Loaded String) (o : C × Option String) {s : String}
      → LocksApart b
      → slot.key ≢ slot.lock_key
      → b.writer_get o.0 slot.key ≡ missing
      → (with_token b p lock_ttl slot load o).1 ≡ loaded s
      → (load ≡ loaded s) ⊎ StoredMeanwhile slot o s
  unfolding with_token
  read_through-ok slot load (c, none) l d m h = absurd (failed-ne-loaded h)
  read_through-ok slot load (c, some token) l d m h =
      elim (with_lock-ok slot load token (b.set_nx c slot.lock_key token lock_ttl)
        (l.lock_apart c slot.lock_key token lock_ttl slot.key d ∙ m) h) [
          | inl q ↦ inl q
          | inr (held, q) ↦ inr (token, refl, held, q)
        ]

  or_codec-ok :
      {A : Type 0} (o : Option A) {a : A} → or_codec b p lock_ttl o ≡ loaded a → o ≡ some a
  or_codec-ok none h = absurd (failed-ne-loaded h)
  or_codec-ok (some x) h = ap some (same_loaded h)

  tracked-ok :
      {A : Type 0} (slot : CacheSlot) (c : C) (r : Loaded A) {a : A}
      → (tracked b p lock_ttl slot c r).1 ≡ loaded a
      → r ≡ loaded a
  tracked-ok slot c (failed why) h = absurd (failed-ne-loaded h)
  tracked-ok slot c (loaded x) h = h

  decode_loaded-ok :
      {A : Type 0} (j : Codec A) (slot : CacheSlot) (o : C × Loaded String) {a : A}
      → (decode_loaded b p lock_ttl j slot o).1 ≡ loaded a
      → (s : String) × (o.1 ≡ loaded s) × (j.decode s ≡ some a)
  unfolding decode_loaded
  decode_loaded-ok j slot (c, failed why) h = absurd (failed-ne-loaded h)
  decode_loaded-ok j slot (c, loaded payload) h =
      (payload, refl, or_codec-ok (j.decode payload) (tracked-ok slot c _ h))

  encoded-ok :
      {A : Type 0} (j : Codec A) (load : Result A) {s : String}
      → encoded b p lock_ttl j load ≡ loaded s
      → (a : A) × (load ≡ ok a) × (j.encode a ≡ some s)
  encoded-ok j (err why) h = absurd (failed-ne-loaded h)
  encoded-ok j (ok a) h = (a, refl, or_codec-ok (j.encode a) h)

  no_null :
      (slot : CacheSlot) (c : C)
      → b.reader_get c slot.null_key ≡ missing
      → reply_of_null b p lock_ttl slot c ≡ missing
  no_null slot c h = elim (Bool-cases (slot.null_key == "")) [ inl t ↦ rw t refl | inr f ↦ rw f h ]

  -- What a value that a read from this state returns comes from, where the cache had no entry.
  abbrev pub IsFresh : {A : Type 0} → Codec A → CacheSlot → C → Result A → A → Type 0
  IsFresh j slot c load a =
      (load ≡ ok a)
      ⊎ ((s : String) × StoredMeanwhile slot (b.new_token c) s × (j.decode s ≡ some a))

  missed-IsFresh :
      {A : Type 0} (j : Codec A) (slot : CacheSlot) (load : Result A) (c : C) {a : A}
      → RoundTrips j load
      → LocksApart b
      → slot.key ≢ slot.lock_key
      → IsSynced b c
      → b.writer_get c slot.key ≡ missing
      → b.writer_get c slot.null_key ≡ missing
      → (cached_read b p lock_ttl j slot load c).1 ≡ loaded a
      → IsFresh j slot c load a
  unfolding cached_read read_through_with_lock
  missed-IsFresh {A} j slot load c {a} back apart d synced miss miss_null h =
      let through : cached_read b p lock_ttl j slot load c
          ≡ decode_loaded b p lock_ttl j slot
              (read_through_with_lock b p lock_ttl slot (encoded b p lock_ttl j load) c) =
        ap (after_get b p lock_ttl j slot load c) (synced slot.key ∙ miss)
        ∙ ap (after_null b p lock_ttl j slot load c)
            (no_null slot c (synced slot.null_key ∙ miss_null)) in
      let (s, got, dec) =
        decode_loaded-ok j slot _ (ap (λ (o : C × Loaded A). o.1) (sym through) ∙ h) in
      elim (read_through-ok slot (encoded b p lock_ttl j load) (b.new_token c) apart d
        (apart.token_apart c slot.key ∙ miss) got) [
          | inr stored ↦ inr (s, stored, dec)
          | inl enc ↦
              let (x, e, coded) = encoded-ok j load enc in
              let same : some x ≡ some a = sym (back x s e coded) ∙ dec in
              inl (e ∙ ap ok (same_some same))
        ]

  keys_apart :
      (id : FileId) → (file_slot b p lock_ttl id).key ≢ (file_slot b p lock_ttl id).lock_key
  keys_apart id e =
      let longer : len "astra:cache:file:meta:" + len id ≡ len "astra:lock:file:meta:" + len id =
        sym (len-append "astra:cache:file:meta:" id)
        ∙ ap len e
        ∙ len-append "astra:lock:file:meta:" id in
      absurd (omega (arith, longer))

-- After a file's entries were dropped without an error, a read of the file that returns a value
-- returns what the repository says, or what another client stored under the file's key in one of this
-- read's three sleeps, after the lock was refused to it; an entry from before is not returned. The
-- file's id is not empty, the server that is written to deletes what DEL names, the server that is
-- read from has caught up with it when the read begins, tokens and locks change no other entry, and
-- JSON decoding gives back the repository's value.
pub get_cached_file-IsFresh :
    {C : Type 0} (b : CacheBackend C) (p : Policy) (lock_ttl : ℤ) (j : Codec FileMetadata)
    (id : FileId) (c : C) (load : Result FileMetadata) {f : FileMetadata}
    → Deletes b
    → LocksApart b
    → RoundTrips j load
    → (id == "") ≡ false
    → (invalidate_file b p lock_ttl id c).1 ≡ true
    → IsSynced b (invalidate_file b p lock_ttl id c).0
    → (get_cached_file b p lock_ttl j id load (invalidate_file b p lock_ttl id c).0).1 ≡ loaded f
    → IsFresh b p lock_ttl j
        (file_slot b p lock_ttl id)
        (invalidate_file b p lock_ttl id c).0
        load
        f
unfolding get_cached_file invalidate_file
get_cached_file-IsFresh b p lock_ttl j id c load deletes apart back nonempty dropped synced h =
    let keys : List String = file_meta_key id ∷ download_plan_key id ∷ null_file_key id ∷ [] in
    let gone : (b.del c keys).1 ≡ true = rw nonempty at dropped in
    rw nonempty (
      missed-IsFresh b p lock_ttl j (file_slot b p lock_ttl id) load (b.del c keys).0 back apart
        (keys_apart b p lock_ttl id) (rw nonempty at synced)
        (deletes c keys (file_meta_key id) gone (inl refl))
        (deletes c keys (null_file_key id) gone (inr (inr (inl refl)))) (rw nonempty at h))
