-- ===== src/Bbolt.antt =====
-- The database library go.etcd.io/bbolt, which is not part of the repository: an interface with
-- the behaviour that its documentation promises and internal/bbolt.go relies on. A database is
-- read through `bucket`, and each call comes with one equation for every bucket.
pub mod Content
pub mod Table
use trailarr.Prelude.{
  ℕ, ◌+◌, ◌^◌, ◌≤◌, ◌<◌, ◌≡◌, Bool, Option, none, some, List, [], ◌∷◌, length, Bytes, ◌==◌,
  if◌then◌else◌,
}
use trailarr.Bbolt.Content.{Pairs, lookup, put_sorted, remove}

-- The pairs in byte order of the keys, as `ForEach` visits them, and `Bucket.Sequence()`.
pub record Bucket : Type 0 where
  pub pairs : Pairs
  pub sequence : ℕ

abbrev pub new_bucket : Bucket
new_bucket = record { pairs = []; sequence = 0 }

abbrev pub or_new : Option Bucket → Bucket
or_new none = new_bucket
or_new (some b) = b

-- MaxKeySize and MaxValueSize of the library.
abbrev pub max_key_size : ℕ
max_key_size = 32768

abbrev pub max_value_size : ℕ
max_value_size = 2147483646

pub record Bbolt : Type 1 where
  pub Db : Type 0
  pub bucket : Db → Bytes → Option Bucket
  -- tx.CreateBucketIfNotExists, tx.DeleteBucket
  pub create : Db → Bytes → Option Db
  pub delete_bucket : Db → Bytes → Db
  -- b.Put, b.Delete, b.NextSequence, with the name of the bucket
  pub put : Db → Bytes → Bytes → Bytes → Option Db
  pub delete : Db → Bytes → Bytes → Option Db
  pub next_sequence : Db → Bytes → ℕ × Db
  pub bucket-create :
      {d d' : Db} (n m : Bytes)
      → create d n ≡ some d'
      → bucket d' m ≡ (if n == m then some (or_new (bucket d n)) else bucket d m)
  pub bucket-delete_bucket :
      (d : Db) (n m : Bytes) → bucket (delete_bucket d n) m ≡ (if n == m then none else bucket d m)
  pub bucket-put :
      {d d' : Db} {b : Bucket} (n k v m : Bytes)
      → bucket d n ≡ some b
      → put d n k v ≡ some d'
      → bucket d' m
        ≡ (if n == m then some (record b { pairs = put_sorted k v b.pairs }) else bucket d m)
  pub bucket-delete :
      {d d' : Db} {b : Bucket} (n k m : Bytes)
      → bucket d n ≡ some b
      → delete d n k ≡ some d'
      → bucket d' m ≡ (if n == m then some (record b { pairs = remove k b.pairs }) else bucket d m)
  pub next_sequence_value :
      {d : Db} {b : Bucket} (n : Bytes)
      → bucket d n ≡ some b
      → b.sequence + 1 < 2 ^ 64
      → (next_sequence d n).0 ≡ b.sequence + 1
  pub bucket-next_sequence :
      {d : Db} {b : Bucket} (n m : Bytes)
      → bucket d n ≡ some b
      → b.sequence + 1 < 2 ^ 64
      → bucket (next_sequence d n).1 m
        ≡ (if n == m then some (record b { sequence = b.sequence + 1 }) else bucket d m)
  -- The documented failures: a blank or too long name or key, a too large value; a writable
  -- transaction always deletes.
  pub create_succeeds :
      (d : Db) (n : Bytes)
      → 0 < length n
      → length n ≤ max_key_size
      → (d' : Db) × (create d n ≡ some d')
  pub put_succeeds :
      {d : Db} {b : Bucket} (n k v : Bytes)
      → bucket d n ≡ some b
      → 0 < length k
      → length k ≤ max_key_size
      → length v ≤ max_value_size
      → (d' : Db) × (put d n k v ≡ some d')
  pub delete_succeeds : (d : Db) (n k : Bytes) → (d' : Db) × (delete d n k ≡ some d')
