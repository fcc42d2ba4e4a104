-- ===== src/Store/State.antt =====
-- internal/mds/store/memory.go: the errors and the tables of the in-memory repository.
-- An operation returns the tables that it leaves behind, with its result; a pointer argument is an
-- `Option`. Errors are told apart as `errors.Is` does, by kind; the message text is left out.
use astra_storage.Base.{Bool, true, false, [], ◌≡◌, refl, ◌⊎◌, inl, inr}
use astra_storage.Base.Map.{Map}
use astra_storage.Metadata.Inode.{InodeMetadata}
use astra_storage.Metadata.Object.{FileMetadata, UploadSession, NodeInfo}
use astra_storage.Metadata.Chunk.{ChunkMetadata}
use astra_storage.Metadata.Plan.{ReplicaPlan}

-- `panicked` is a run-time panic of the Go code, `diverged` a loop that outruns its fuel.
pub data StoreError : Type 0 where
  not_found already_exists invalid_argument conflict panicked diverged : StoreError

-- The second result of a Go function beside its error.
pub data Result {κ} (V : Type κ) : Type κ where
  err : StoreError → Result V
  ok : V → Result V

infixl 5 ◌>>=◌ ◌>>◌
abbrev pub ◌>>=◌ {μ κ} : {V : Type μ} {W : Type κ} → Result V → (V → Result W) → Result W
err why >>= next = err why
ok v >>= next = next v

abbrev pub ◌>>◌ {κ} : {W : Type κ} → Result (Unit {0}) → Result W → Result W
first >> next = first >>= λ done. next

-- `if b { return e }`
abbrev pub fail_if : Bool → StoreError → Result (Unit {0})
fail_if true e = err e
fail_if false e = ok tt

pub record MemoryState : Type 0 where
  pub inodes : Map InodeMetadata
  pub files : Map FileMetadata
  pub chunks : Map ChunkMetadata
  pub upload_sessions : Map UploadSession
  pub nodes : Map NodeInfo
  pub replica_plans : Map ReplicaPlan

abbrev pub new_memory_state : MemoryState
new_memory_state = record {
  inodes = [];
  files = [];
  chunks = [];
  upload_sessions = [];
  nodes = [];
  replica_plans = [];
}

abbrev pub Outcome : Type 0 → Type 0
Outcome A = MemoryState × Result A

-- The tables after an operation whose writes all follow its checks.
abbrev pub commit : {A : Type 0} → MemoryState → Result (MemoryState × A) → Outcome A
commit s (ok (t, a)) = (t, ok a)
commit s (err e) = (s, err e)

pub Result-cases {ℓ} :
    {A : Type ℓ} (r : Result A) → ((a : A) × (r ≡ ok a)) ⊎ ((e : StoreError) × (r ≡ err e))
Result-cases (ok a) = inl (a, refl)
Result-cases (err e) = inr (e, refl)

-- An operation whose writes follow its checks leaves the tables alone when it fails.
pub commit-err :
    {A : Type 0} (s : MemoryState) (r : Result (MemoryState × A)) {e : StoreError}
    → (commit s r).1 ≡ err e
    → (commit s r).0 ≡ s
commit-err s (ok (t, a)) h = cc
commit-err s (err e) h = refl

pub same_ok {ℓ} : {A : Type ℓ} {a b : A} → ok a ≡ ok b → a ≡ b
same_ok h = cc

pub err-ne-ok {ℓ} : {A : Type ℓ} {e : StoreError} {a : A} → err e ≡ ok a → ⊥
err-ne-ok h = cc

-- A check that is passed, and what follows it.
pub passed {κ} :
    {W : Type κ} (b : Bool) (e : StoreError) (next : Result W) {v : W}
    → (fail_if b e >> next) ≡ ok v
    → (b ≡ false) × (next ≡ ok v)
passed true e next h = absurd (err-ne-ok h)
passed false e next h = (refl, h)

pub went_on {μ κ} :
    {V : Type μ} {W : Type κ} (r : Result V) (f : V → Result W) {w : W}
    → (r >>= f) ≡ ok w
    → (v : V) × (r ≡ ok v) × (f v ≡ ok w)
went_on (ok v) f h = (v, refl, h)
went_on (err e) f h = absurd (err-ne-ok h)

pub unfailed : (b : Bool) (e : StoreError) {a : Unit {0}} → fail_if b e ≡ ok a → b ≡ false
unfailed true e h = absurd (err-ne-ok h)
unfailed false e h = refl
