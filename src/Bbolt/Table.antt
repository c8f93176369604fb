-- ===== src/Bbolt/Table.antt =====
-- A database that has the promised behaviour: an association list of buckets.
use trailarr.Prelude.{
  ℕ, ◌+◌, ◌≤◌, ◌<◌, ◌≡◌, refl, Option, none, some, List, [], ◌∷◌, arith, length, Bytes, ◌==◌,
  ==_iff, if◌then◌else◌, leb, ltb, ◌&&◌, Bool,
}
use trailarr.Bbolt.Content.{put_sorted, remove}
use trailarr.Bbolt.{Bucket, Bbolt, or_new, max_key_size, max_value_size}

abbrev pub Table : Type 0
Table = List (Bytes × Bucket)

unfoldable pub find : Table → Bytes → Option Bucket
find [] n = none
find ((m, b) ∷ t) n = if m == n then some b else find t n

unfoldable pub without : Bytes → Table → Table
without n [] = []
without n ((m, b) ∷ t) = let rest = without n t in if m == n then rest else (m, b) ∷ rest

pub find-without :
    (n m : Bytes) (t : Table) → find (without n t) m ≡ (if n == m then none else find t m)
unfolding find without
find-without n m [] = ground arith
find-without n m ((i, b) ∷ t) =
    ground (arith, find-without n m t, ==_iff i n, ==_iff i m, ==_iff n m)

unfoldable pub write : Bytes → Bucket → Table → Table
write n b t = (n, b) ∷ without n t

find-write :
    (n m : Bytes) (b : Bucket) (t : Table)
    → find (write n b t) m ≡ (if n == m then some b else find t m)
unfolding find write
find-write n m b t = ground (arith, find-without n m t)

size_ok : Bytes → Bytes → Bool
size_ok k v = ltb 0 (length k) && leb (length k) max_key_size && leb (length v) max_value_size

unfoldable pub create : Table → Bytes → Option Table
unfolding size_ok
create t n = if size_ok n [] then some (write n (or_new (find t n)) t) else none

unfoldable pub update : Table → Bytes → (Bucket → Bucket) → Table
update t n f = elim (find t n) [ none ↦ t | some b ↦ write n (f b) t ]

unfoldable pub put : Table → Bytes → Bytes → Bytes → Option Table
unfolding size_ok update
put t n k v =
    if size_ok k v
    then some (update t n (λ b. record b { pairs = put_sorted k v b.pairs }))
    else none

unfoldable pub delete : Table → Bytes → Bytes → Option Table
unfolding update
delete t n k = some (update t n (λ b. record b { pairs = remove k b.pairs }))

unfoldable pub next_sequence : Table → Bytes → ℕ × Table
unfolding update
next_sequence t n =
    ((or_new (find t n)).sequence + 1, update t n (λ b. record b { sequence = b.sequence + 1 }))

module _ (t : Table) {b : Bucket} (n m : Bytes) (there : find t n ≡ some b) where
  find-update :
      (f : Bucket → Bucket) → find (update t n f) m ≡ (if n == m then some (f b) else find t m)
  unfolding update
  find-update f = rw (there, update) (find-write n m (f b) t)

  pub find-put :
      {u : Table} (k v : Bytes)
      → put t n k v ≡ some u
      → find u m ≡ (if n == m then some (record b { pairs = put_sorted k v b.pairs }) else find t m)
  unfolding put
  find-put k v h = ground (arith, find-update (λ c. record c { pairs = put_sorted k v c.pairs }))

  pub find-delete :
      {u : Table} (k : Bytes)
      → delete t n k ≡ some u
      → find u m ≡ (if n == m then some (record b { pairs = remove k b.pairs }) else find t m)
  unfolding delete
  find-delete k h = ground (arith, find-update (λ c. record c { pairs = remove k c.pairs }))

  pub find-next_sequence :
      find (next_sequence t n).1 m
      ≡ (if n == m then some (record b { sequence = b.sequence + 1 }) else find t m)
  unfolding next_sequence
  find-next_sequence = find-update (λ c. record c { sequence = c.sequence + 1 })

pub find-create :
    (t u : Table) (n m : Bytes)
    → create t n ≡ some u
    → find u m ≡ (if n == m then some (or_new (find t n)) else find t m)
unfolding create
find-create t u n m h = ground (arith, find-write n m (or_new (find t n)) t)

pub next_sequence_lem :
    (t : Table) {b : Bucket} (n : Bytes)
    → find t n ≡ some b
    → (next_sequence t n).0 ≡ b.sequence + 1
unfolding next_sequence
next_sequence_lem t n h = ground arith

pub create-some :
    (t : Table) (n : Bytes)
    → 0 < length n
    → length n ≤ max_key_size
    → (u : Table) × (create t n ≡ some u)
unfolding create
create-some t n h k = (write n (or_new (find t n)) t, ground arith)

pub put-some :
    (t : Table) (n k v : Bytes)
    → 0 < length k
    → length k ≤ max_key_size
    → length v ≤ max_value_size
    → (u : Table) × (put t n k v ≡ some u)
unfolding put
put-some t n k v a b c =
    (update t n (λ b. record b { pairs = put_sorted k v b.pairs }), ground arith)

pub delete-some : (t : Table) (n k : Bytes) → (u : Table) × (delete t n k ≡ some u)
unfolding delete
delete-some t n k = (update t n (λ b. record b { pairs = remove k b.pairs }), refl)

abbrev pub table_bbolt : Bbolt
table_bbolt = record {
  Db = Table;
  bucket = find;
  create = create;
  delete_bucket = λ t n. without n t;
  put = put;
  delete = delete;
  next_sequence = next_sequence;
  bucket-create = λ {d} {d'} n m h. find-create d d' n m h;
  bucket-delete_bucket = λ d n m. find-without n m d;
  bucket-put = λ {d} n k v m e h. find-put d n m e k v h;
  bucket-delete = λ {d} n k m e h. find-delete d n m e k h;
  next_sequence_value = λ {d} n e _. next_sequence_lem d n e;
  bucket-next_sequence = λ {d} n m e _. find-next_sequence d n m e;
  create_succeeds = create-some;
  put_succeeds = λ {d} n k v _ a b c. put-some d n k v a b c;
  delete_succeeds = delete-some;
}
