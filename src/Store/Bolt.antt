-- ===== src/Store/Bolt.antt =====
-- BoltClient of internal/bbolt.go. `db.Update` keeps the old database when its function returns an
-- error; logging is left out.
pub mod Entries
pub mod Effects
pub mod Lists
use trailarr.Prelude.{
  ℕ, suc, ◌+◌, ◌≡◌, true, false, ◌||◌, ◌&&◌, not, Option, none, some, List, [], ◌∷◌, ◌++◌, map,
  length, get_elem?, Bytes, bytes, ◌==◌, ltb, leb, if◌then◌else◌,
}
use trailarr.Prelude.Int.{ℤ, pos, negsuc, pos_part, ltb_ℤ}
use trailarr.Bbolt.{Bbolt, Bucket}
use trailarr.Bbolt.Content.{Pairs, lookup}
use trailarr.Store.Outcome.{
  Error, Outcome, ok, err, not_found, index_out_of_range, bolt_failed, ◌>>=◌,
}
use trailarr.Store.Keys.{u64_to_bytes}
use trailarr.Store.Range.{normalize_range, range_of}

abbrev pub kv_bucket_name : Bytes
kv_bucket_name = bytes "kv"

abbrev pub hash_bucket_name : Bytes → Bytes
hash_bucket_name key = bytes "hash:" ++ key

abbrev pub list_bucket_name : Bytes → Bytes
list_bucket_name key = bytes "list:" ++ key

-- The pairs of a bucket that may be missing, and their values in order.
abbrev pub pairs_of : Option Bucket → Pairs
pairs_of none = []
pairs_of (some b) = b.pairs

abbrev pub values : Pairs → List Bytes
values = map (λ kv. kv.1)

abbrev pub or_fail {ℓ} : {A : Type ℓ} → Option A → Outcome A
or_fail none = err bolt_failed
or_fail (some a) = ok a

abbrev pub or_missing {ℓ} : {A : Type ℓ} → Option A → Outcome A
or_missing none = err not_found
or_missing (some a) = ok a

-- The loop of removeMatches, with `removed` matches behind it.
unfoldable pub remove_loop : ℕ → ℕ → Bytes → List Bytes → List Bytes
remove_loop removed count target [] = []
remove_loop removed count target (v ∷ vs) = elim (ltb removed count && v == target) [
  | true ↦ remove_loop (removed + 1) count target vs
  | false ↦ v ∷ remove_loop removed count target vs
]

unfoldable pub remove_matches : List Bytes → ℤ → Bytes → List Bytes
unfolding remove_loop
remove_matches vals count value =
    if leb (length vals) 0 || ltb_ℤ count (pos 1)
    then vals
    else remove_loop 0 (pos_part count) value vals

-- The key at the index is found only if 0 <= index < len(kvs).
unfoldable pub entry_at : Pairs → ℤ → Outcome (Bytes × Bytes)
entry_at kvs index =
    if ltb_ℤ index (pos 0) || not (ltb_ℤ index (pos (length kvs)))
    then err index_out_of_range
    else elim (get_elem? kvs (pos_part index)) [ none ↦ err index_out_of_range | some kv ↦ ok kv ]

module _ (B : Bbolt) where
  open B use {Db, bucket, create, delete_bucket, put, delete, next_sequence}

  abbrev pub update : Db → Outcome Db → Outcome (Unit {0}) × Db
  update d (ok d') = (ok tt, d')
  update d (err e) = (err e, d)

  unfoldable pub kv_set : Db → Bytes → Bytes → Outcome (Unit {0}) × Db
  kv_set d key value =
      update d
        (do d' ← or_fail (create d kv_bucket_name); or_fail (put d' kv_bucket_name key value))

  unfoldable pub kv_get : Db → Bytes → Outcome Bytes
  kv_get d key = do b ← or_missing (bucket d kv_bucket_name); or_missing (lookup key b.pairs)

  unfoldable pub hset : Db → Bytes → Bytes → Bytes → Outcome (Unit {0}) × Db
  hset d key field value = update d (do
    d' ← or_fail (create d (hash_bucket_name key))
    or_fail (put d' (hash_bucket_name key) field value))

  unfoldable pub hget : Db → Bytes → Bytes → Outcome Bytes
  hget d key field = do
    b ← or_missing (bucket d (hash_bucket_name key))
    or_missing (lookup field b.pairs)

  unfoldable pub hvals : Db → Bytes → Outcome (List Bytes)
  hvals d key = ok (values (pairs_of (bucket d (hash_bucket_name key))))

  unfoldable pub hdel : Db → Bytes → Bytes → Outcome (Unit {0}) × Db
  hdel d key field = update d (elim (bucket d (hash_bucket_name key)) [
    | none ↦ ok d
    | some _ ↦ or_fail (delete d (hash_bucket_name key) field)
  ])

  -- NextSequence and Put of one value, as RPush and the loop of LRem do it.
  unfoldable pub append_entry : Db → Bytes → Bytes → Outcome Db
  append_entry d name value =
      let r = next_sequence d name in or_fail (put r.1 name (u64_to_bytes r.0) value)

  unfoldable pub rpush : Db → Bytes → Bytes → Outcome (Unit {0}) × Db
  unfolding append_entry
  rpush d key value = update d (do
    d' ← or_fail (create d (list_bucket_name key))
    append_entry d' (list_bucket_name key) value)

  unfoldable pub lrange : Db → Bytes → ℤ → ℤ → Outcome (List Bytes)
  unfolding range_of
  lrange d key start stop =
      ok (range_of (values (pairs_of (bucket d (list_bucket_name key)))) start stop)

  -- The loop of LTrim over a copy of the pairs, at index `idx`.
  unfoldable pub delete_outside : Db → Bytes → ℕ → ℕ → ℕ → Pairs → Outcome Db
  delete_outside d name idx s e [] = ok d
  delete_outside d name idx s e ((k, v) ∷ r) = elim (ltb idx s || ltb e idx) [
    | true ↦ or_fail (delete d name k) >>= λ d'. delete_outside d' name (idx + 1) s e r
    | false ↦ delete_outside d name (idx + 1) s e r
  ]

  unfoldable pub ltrim : Db → Bytes → ℤ → ℤ → Outcome (Unit {0}) × Db
  unfolding normalize_range delete_outside
  ltrim d key start stop = update d (elim (bucket d (list_bucket_name key)) [
    | none ↦ ok d
    | some b ↦ elim (normalize_range (length b.pairs) start stop) [
      | none ↦ ok (delete_bucket d (list_bucket_name key))
      | some (s, e) ↦ delete_outside d (list_bucket_name key) 0 s e b.pairs
    ]
  ])

  unfoldable pub lset : Db → Bytes → ℤ → Bytes → Outcome (Unit {0}) × Db
  unfolding entry_at
  lset d key index value = update d (elim (bucket d (list_bucket_name key)) [
    | none ↦ err index_out_of_range
    | some b ↦ do kv ← entry_at b.pairs index; or_fail (put d (list_bucket_name key) kv.0 value)
  ])

  unfoldable pub append_entries : Db → Bytes → List Bytes → Outcome Db
  unfolding append_entry
  append_entries d name [] = ok d
  append_entries d name (v ∷ vs) = append_entry d name v >>= λ d'. append_entries d' name vs

  -- The bucket is made anew, so its sequence starts again.
  unfoldable pub rebuild : Db → Bytes → List Bytes → Outcome Db
  unfolding append_entries
  rebuild d name [] = ok (delete_bucket d name)
  rebuild d name (v ∷ vs) = do
    d' ← or_fail (create (delete_bucket d name) name)
    append_entries d' name (v ∷ vs)

  unfoldable pub lrem : Db → Bytes → ℤ → Bytes → Outcome (Unit {0}) × Db
  unfolding remove_matches rebuild
  lrem d key count value = update d (elim (bucket d (list_bucket_name key)) [
    | none ↦ ok d
    | some b ↦ rebuild d (list_bucket_name key) (remove_matches (values b.pairs) count value)
  ])

  -- The last lines of Del; an error of Delete is ignored.
  unfoldable pub drop_plain : Db → Bytes → Db
  drop_plain d key = elim (bucket d kv_bucket_name) [
    | none ↦ d
    | some _ ↦ elim (delete d kv_bucket_name key) [ none ↦ d | some d' ↦ d' ]
  ]

  unfoldable pub del : Db → Bytes → Outcome (Unit {0}) × Db
  unfolding drop_plain
  del d key =
      let d1 = delete_bucket d (list_bucket_name key) in
      let d2 = delete_bucket d1 (hash_bucket_name key) in (ok tt, drop_plain d2 key)
