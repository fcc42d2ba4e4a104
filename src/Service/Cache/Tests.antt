-- ===== src/Service/Cache/Tests.antt =====
-- Runs of the read cache on a small server.
use astra_storage.Base.{
  ◌≡◌, refl, sym, ◌∙◌, ap, String, true, false, Bool, List, [], ◌∷◌, Option, some, none, inl, inr,
  ◌==◌, eq_iff, test-of-ne, Bool-cases, contains, if◌then◌else◌,
}
use astra_storage.Base.Int.{pos}
use astra_storage.Base.Map.{Map, lookup, insert, erase, erase_all}
use astra_storage.Base.Map.Laws.{lookup-erase_all, lookup-insert}
use astra_storage.Base.Slice.Sorted.{Mem}
use astra_storage.Metadata.Object.{FileMetadata}
use astra_storage.Store.State.{ok, same_ok}
use astra_storage.Store.Fixtures.{note_file}
use astra_storage.Service.Cache.{
  Reply, present, missing, CacheBackend, Codec, Policy, loaded, cached_read, read_through_with_lock,
  with_token, with_lock, load_and_remember, remember, clear_null, decode_loaded, file_meta_key,
}
use astra_storage.Service.Cache.Kinds.{file_slot, get_cached_file, invalidate_file}
use astra_storage.Service.Cache.Fresh.{
  Deletes, LocksApart, RoundTrips, IsFresh, get_cached_file-IsFresh,
}

abbrev reply : Option String → Reply
reply none = missing
reply (some s) = present s

abbrev free : Option String → Bool
free none = true
free (some s) = false

-- A server that keeps every entry until it is deleted.
abbrev server : CacheBackend (Map String)
server = record {
  reader_get = λ c k. reply (lookup k c);
  writer_get = λ c k. reply (lookup k c);
  set = λ c k v ttl. (insert k v c, true);
  del = λ c ks. (erase_all ks c, true);
  incr = λ c k. (insert k "1" c, true);
  expire = λ c k ttl. c;
  zincr = λ c k member. (c, true);
  set_nx = λ c k v ttl. (if free (lookup k c) then insert k v c else c, some (free (lookup k c)));
  compare_delete = λ c k token. erase k c;
  new_token = λ c. (c, some "token");
  random = λ c bound. (c, pos 0);
  sleep = λ c. c;
}

abbrev policy : Policy
policy = record {
  file_meta_ttl = pos 60;
  file_meta_ttl_jitter = pos 0;
  download_plan_ttl = pos 60;
  directory_list_ttl = pos 60;
  node_health_ttl = pos 60;
  null_entry_ttl = pos 60;
  hotspot_window = pos 0;
}

-- A coding that is right for one file.
abbrev coding : Codec FileMetadata
coding = record { encode = λ f. some f.id; decode = λ s. some note_file }

Mem-contains : (ks : List String) (k : String) → Mem k ks → contains ks k ≡ true
Mem-contains [] k m = elim m [ ]
Mem-contains (j ∷ ks) k (inl e) = rw ((eq_iff j k).1 (sym e)) refl
Mem-contains (j ∷ ks) k (inr m) = elim (Bool-cases (j == k)) [
  | inl t ↦ rw t refl
  | inr f ↦ rw f (Mem-contains ks k m)
]

deleted :
    (c : Map String) (ks : List String) (k : String) → Mem k ks → lookup k (erase_all ks c) ≡ none
deleted c ks k m = lookup-erase_all ks k c ∙ rw (Mem-contains ks k m) refl

server-Deletes : Deletes server
server-Deletes c ks k done m = ap reply (deleted c ks k m)

coding-RoundTrips : RoundTrips coding (ok note_file)
coding-RoundTrips a s e coded = ap some (same_ok e)

-- An entry that a server with an older value of the file has.
abbrev stale : Map String
stale = (file_meta_key "f1", "old") ∷ []

abbrev dropped : Map String
dropped = (invalidate_file server policy (pos 5) "f1" stale).0

read_again :
    (get_cached_file server policy (pos 5) coding "f1" (ok note_file) dropped).1 ≡ loaded note_file
unfolding get_cached_file invalidate_file cached_read read_through_with_lock with_token with_lock
    load_and_remember remember clear_null decode_loaded lookup insert erase erase_all
read_again = refl

succeeded : (invalidate_file server policy (pos 5) "f1" stale).1 ≡ true
unfolding invalidate_file
succeeded = refl

server-LocksApart : LocksApart server
server-LocksApart = record {
  token_apart = λ c k. refl;
  lock_apart = λ c lock token ttl k d. elim (Bool-cases (free (lookup lock c))) [
    | inl t ↦
        rw t
          (ap reply (lookup-insert lock k token c ∙ rw (test-of-ne lock k (λ e. d (sym e))) refl))
    | inr t ↦ rw t refl
  ];
}

get_cached_file-IsFresh_example :
    IsFresh server policy
      (pos 5)
      coding
      (file_slot server policy (pos 5) "f1")
      dropped
      (ok note_file)
      note_file
get_cached_file-IsFresh_example =
    get_cached_file-IsFresh server policy (pos 5) coding "f1" stale (ok note_file) {f = note_file}
      server-Deletes server-LocksApart coding-RoundTrips refl succeeded (λ k. refl) read_again
