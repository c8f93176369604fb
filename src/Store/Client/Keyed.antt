-- ===== src/Store/Client/Keyed.antt =====
-- Set, Get and Del of the singleton as a store of plain values.
use trailarr.Prelude.{
  ◌<◌, ◌≤◌, ◌≡◌, refl, ap, ◌∙◌, false, Bytes, ◌==◌, ==_refl, length, arith, if◌then◌else◌, inl, inr,
  Option-cases,
}
use trailarr.Prelude.Maps.{find-erase}
use trailarr.Bbolt.{Bbolt, max_key_size, max_value_size}
use trailarr.Bbolt.Content.{lookup, lookup-remove}
use trailarr.Store.Outcome.{err, not_found}
use trailarr.Store.Bolt
use trailarr.Store.Bolt.{kv_bucket_name, list_bucket_name, hash_bucket_name, or_missing, drop_plain}
use trailarr.Store.Mem
use trailarr.Store.Mem.{Mem}
use trailarr.Store.Keyed.{KeyedStore, Answers, IsKeyedStore}
use trailarr.Store.Client.{World, kv_set, kv_get, del}
use trailarr.Store.Client.Promise.{IsUsable, writes-disk, writes-memory}
use trailarr.Store.Client.Laws
use trailarr.Store.Client.Values.{kv_set-ValueSet, kv_set-IsUsable}

mem-erased :
    (m : Mem) (k j : Bytes)
    → Mem.kv_get (Mem.del m k).1 j ≡ (if k == j then err not_found else Mem.kv_get m j)
unfolding Mem.kv_get Mem.del
mem-erased m k j = ground (arith, find-erase k j m.kv)

other_names : (k : Bytes) → (list_bucket_name k == kv_bucket_name) ≡ false
unfolding ◌==◌
other_names k = refl

hash_names : (k : Bytes) → (hash_bucket_name k == kv_bucket_name) ≡ false
unfolding ◌==◌
hash_names k = refl

module _ (B : Bbolt) where
  abbrev pub client_values : KeyedStore
  client_values = record {
    State = World B;
    IsValid = IsUsable B;
    KeyFits = λ k. (0 < length k) × (length k ≤ max_key_size);
    ValueFits = λ v. length v ≤ max_value_size;
    get = kv_get B;
    set = kv_set B;
    del = del B;
  }

  drop_plain-get :
      (d : B.Db) (k j : Bytes)
      → Bolt.kv_get B (drop_plain B d k) j ≡ (if k == j then err not_found else Bolt.kv_get B d j)
  unfolding drop_plain Bolt.kv_get lookup
  drop_plain-get d k j = elim (Option-cases (B.bucket d kv_bucket_name)) [
    | inl e ↦ rw (drop_plain, e) (ground (arith, e))
    | inr (b, e) ↦
        let (c, p) = B.delete_succeeds d kv_bucket_name k in
        rw (drop_plain, e, p)
          (ground (
            arith,
            e,
            ==_refl kv_bucket_name,
            B.bucket-delete {d = d} kv_bucket_name k kv_bucket_name e p,
            lookup-remove k j b.pairs,
          ))
  ]

  kept_values :
      (d : B.Db) (k j : Bytes)
      → Bolt.kv_get B
          (B.delete_bucket (B.delete_bucket d (list_bucket_name k)) (hash_bucket_name k))
          j
        ≡ Bolt.kv_get B d j
  unfolding Bolt.kv_get
  kept_values d k j = ground (
    arith,
    other_names k,
    hash_names k,
    B.bucket-delete_bucket (B.delete_bucket d (list_bucket_name k)) (hash_bucket_name k)
        kv_bucket_name,
    B.bucket-delete_bucket d (list_bucket_name k) kv_bucket_name,
  )

  disk-erased :
      (d : B.Db) (k j : Bytes)
      → Bolt.kv_get B (Bolt.del B d k).1 j ≡ (if k == j then err not_found else Bolt.kv_get B d j)
  unfolding Bolt.del
  disk-erased d k j =
      drop_plain-get (B.delete_bucket (B.delete_bucket d (list_bucket_name k)) (hash_bucket_name k))
        k j
      ∙ ap (λ o. if k == j then err not_found else o) (kept_values d k j)

  erased :
      (w : World B) (k j : Bytes)
      → IsUsable B w
      → kv_get B (del B w k).1 j ≡ (if k == j then err not_found else kv_get B w j)
  unfolding del kv_get
  erased w k j (inl (s, u)) =
      rw (writes-disk B w s (λ d. Bolt.del B d k) (λ m. Mem.del m k) u, u.client, u.bolt)
        (disk-erased w.disk k j)
  erased w k j (inr (s, m, u)) =
      rw
        (
          writes-memory B w s m (λ d. Bolt.del B d k) (λ m'. Mem.del m' k) u,
          u.client,
          u.bolt,
          u.mem,
        )
        (mem-erased m k j)

  del-Answers :
      (w : World B) (k : Bytes)
      → IsUsable B w
      → Answers client_values w k (err not_found) (del B w k)
  del-Answers w k h =
      let r = Laws.del_lem B w k h in
      record { returned = r.returned; valid = r.valid; values = λ j. erased w k j h }

  -- For a usable client, Set with a name that is not empty and fits and a value that fits, and Del
  -- with any name, return nil and leave a usable client; Get then answers the value (nothing was
  -- found, after Del) under that name and as before under every other.
  pub client_values-IsKeyedStore : IsKeyedStore client_values
  client_values-IsKeyedStore = record {
    set_lem = λ s k v h f g.
        let r = kv_set-ValueSet B s k v h f g in
        record { returned = r.returned; valid = kv_set-IsUsable B s k v h f g; values = r.values };
    del_lem = del-Answers;
  }
