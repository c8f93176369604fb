-- ===== src/Store/Client/Values.antt =====
-- Set and Get of the singleton, on either back end.
use trailarr.Prelude.{
  ◌<◌, ◌≤◌, ◌≡◌, refl, ap, ◌∙◌, false, some, Bytes, ◌==◌, ==_refl, length, arith, if◌then◌else◌,
  inl, inr,
}
use trailarr.Prelude.Maps.{find-insert}
use trailarr.Bbolt.{Bbolt, or_new, max_key_size, max_value_size}
use trailarr.Bbolt.Content.{lookup, lookup-put_sorted}
use trailarr.Store.Outcome.{Outcome, ok}
use trailarr.Store.Bolt
use trailarr.Store.Bolt.{kv_bucket_name, list_bucket_name, values, pairs_of}
use trailarr.Store.Bolt.Lists
use trailarr.Store.Bolt.Lists.{IsListDb}
use trailarr.Store.Mem
use trailarr.Store.Mem.{Mem, list_at}
use trailarr.Store.Client.{World, kv_set, kv_get}
use trailarr.Store.Client.Promise.{store_view, IsUsable, writes-disk, writes-memory}

kv_name : (k : Bytes) → (kv_bucket_name == list_bucket_name k) ≡ false
unfolding ◌==◌
kv_name k = refl

mem-values :
    (m : Mem) (k v j : Bytes)
    → Mem.kv_get (Mem.kv_set m k v).1 j ≡ (if k == j then ok v else Mem.kv_get m j)
unfolding Mem.kv_get Mem.kv_set
mem-values m k v j = ground (arith, find-insert k j v m.kv)

mem-returned : (m : Mem) (k v : Bytes) → (Mem.kv_set m k v).0 ≡ ok tt
unfolding Mem.kv_set
mem-returned m k v = refl

mem-lists : (m : Mem) (k v j : Bytes) → list_at (Mem.kv_set m k v).1 j ≡ list_at m j
unfolding Mem.kv_set
mem-lists m k v j = refl

module _ (B : Bbolt) where
  record DiskValueSet (d : B.Db) (k v : Bytes) (r : Outcome (Unit {0}) × B.Db) : Type 0 where
    returned : r.0 ≡ ok tt
    values : (j : Bytes) → Bolt.kv_get B r.1 j ≡ (if k == j then ok v else Bolt.kv_get B d j)
    lists : (j : Bytes) → Lists.view B r.1 j ≡ Lists.view B d j
    numbered : IsListDb B d → IsListDb B r.1

  disk-kv_set :
      (d : B.Db) (k v : Bytes)
      → (0 < length k) × (length k ≤ max_key_size)
      → length v ≤ max_value_size
      → DiskValueSet d k v (Bolt.kv_set B d k v)
  unfolding Bolt.kv_set Bolt.kv_get lookup
  disk-kv_set d k v (some_, kfits) vfits =
      let n = kv_bucket_name in
      let (e, p) = B.create_succeeds d n (omega arith) (omega arith) in
      let there : B.bucket e n ≡ some (or_new (B.bucket d n)) =
        B.bucket-create {d = d} n n p ∙ (rw (==_refl n) refl) in
      let (c, q) = B.put_succeeds {d = e} n k v there some_ kfits vfits in
      let kept : (j : Bytes) → B.bucket c (list_bucket_name j) ≡ B.bucket d (list_bucket_name j) =
        λ j. ground (
          arith,
          kv_name j,
          B.bucket-create {d = d} n (list_bucket_name j) p,
          B.bucket-put {d = e} n k v (list_bucket_name j) there q,
        ) in
      record {
        returned = rw (p, q) refl;
        values = λ j.
            rw (p, q)
              (ground (
                arith,
                ==_refl n,
                B.bucket-put {d = e} n k v n there q,
                lookup-put_sorted k j v (or_new (B.bucket d n)).pairs,
              ));
        lists = λ j. rw (p, q) (ap (λ o. values (pairs_of o)) (kept j));
        numbered = λ h. rw (p, q) (record { at = λ j. rw (kept j) (h.at j) });
      }

  -- `r` returned nil, its value `k` is `v`, and the other values and all lists are those of `w`.
  pub record ValueSet (w : World B) (k v : Bytes) (r : Outcome (Unit {0}) × World B) : Type 0 where
    pub returned : r.0 ≡ ok tt
    pub values : (j : Bytes) → kv_get B r.1 j ≡ (if k == j then ok v else kv_get B w j)
    pub lists : (j : Bytes) → store_view B r.1 j ≡ store_view B w j

  -- With a usable client, a name that is not empty and fits, and a value that fits, Set returns
  -- nil; Get then answers the value under that name and answers as before under every other; no
  -- list changes.
  pub kv_set-ValueSet :
      (w : World B) (k v : Bytes)
      → IsUsable B w
      → (0 < length k) × (length k ≤ max_key_size)
      → length v ≤ max_value_size
      → ValueSet w k v (kv_set B w k v)
  unfolding kv_set kv_get
  kv_set-ValueSet w k v (inl (s, u)) kfits vfits =
      let b = disk-kv_set w.disk k v kfits vfits in
      rw (writes-disk B w s (λ d. Bolt.kv_set B d k v) (λ m. Mem.kv_set m k v) u) (record {
        returned = b.returned;
        values = λ j. rw (u.client, u.bolt) (b.values j);
        lists = λ j. rw (u.client, u.bolt) (b.lists j);
      })
  kv_set-ValueSet w k v (inr (s, m, u)) kfits vfits =
      rw (writes-memory B w s m (λ d. Bolt.kv_set B d k v) (λ m'. Mem.kv_set m' k v) u) (record {
        returned = mem-returned m k v;
        values = λ j. rw (u.client, u.bolt, u.mem) (mem-values m k v j);
        lists = λ j. rw (u.client, u.bolt, u.mem) (mem-lists m k v j);
      })

  pub kv_set-IsUsable :
      (w : World B) (k v : Bytes)
      → IsUsable B w
      → (0 < length k) × (length k ≤ max_key_size)
      → length v ≤ max_value_size
      → IsUsable B (kv_set B w k v).1
  unfolding kv_set
  kv_set-IsUsable w k v (inl (s, u)) kfits vfits =
      let b = disk-kv_set w.disk k v kfits vfits in
      rw (writes-disk B w s (λ d. Bolt.kv_set B d k v) (λ m. Mem.kv_set m k v) u)
        (inl (s, record { client = u.client; bolt = u.bolt; numbered = b.numbered u.numbered }))
  kv_set-IsUsable w k v (inr (s, m, u)) kfits vfits =
      rw (writes-memory B w s m (λ d. Bolt.kv_set B d k v) (λ m'. Mem.kv_set m' k v) u) (
        inr (
          record s { mem = some (Mem.kv_set m k v).1 },
          (Mem.kv_set m k v).1,
          record { client = refl; bolt = u.bolt; mem = refl },
        ))
