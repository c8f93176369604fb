-- ===== src/Store/Client/Laws.antt =====
-- The promise of Store.Spec for the singleton's methods, law by law.
use trailarr.Prelude.{
  ℕ, suc, ◌≤◌, ◌<◌, ◌^◌, ◌≡◌, refl, ap, ◌∙◌, sym, subst, true, some, List, [], ◌∷◌, ◌++◌, Bytes,
  inl, inr, set, length,
}
use trailarr.Prelude.Int.{ℤ, pos, negsuc}
use trailarr.Bbolt.{Bbolt, max_key_size, max_value_size}
use trailarr.Store.Outcome.{Outcome, Error, ok, err, index_out_of_range}
use trailarr.Store.Range.{slice}
use trailarr.Store.Spec.{Replaced, IsListStore, remove_count}
use trailarr.Store.Bolt.{list_bucket_name}
use trailarr.Store.Bolt
use trailarr.Store.Bolt.Lists
use trailarr.Store.Bolt.Lists.{bolt_store, RoomIn}
use trailarr.Store.Bolt.Lists.Promise.{bolt_store-IsListStore}
use trailarr.Store.Mem
use trailarr.Store.Mem.{Mem, list_at}
use trailarr.Store.Mem.Lists.{mem_store, mem_store-IsListStore}
use trailarr.Store.Client.{Store, World, writes_to, rpush, lrange, ltrim, lset, lrem, del}
use trailarr.Store.Client.Promise.{
  store_view, OnDisk, InMemory, IsUsable, uses_disk, client_store, writes-disk, writes-memory,
  Replaced-disk, Replaced-memory,
}

module _ (B : Bbolt) where
  view-disk :
      (w : World B) (s : Store) (k : Bytes)
      → OnDisk B w s
      → store_view B w k ≡ Lists.view B w.disk k
  view-disk w s k u = rw (u.client, u.bolt) refl

  view-memory :
      (w : World B) (s : Store) (m : Mem) (k : Bytes)
      → InMemory B w s m
      → store_view B w k ≡ list_at m k
  view-memory w s m k u = rw (u.client, u.bolt, u.mem) refl

  -- A refused write leaves the world as it was, on either back end.
  refused :
      (w : World B) (e : Error) (f : B.Db → Outcome (Unit {0}) × B.Db)
      (g : Mem → Outcome (Unit {0}) × Mem)
      → IsUsable B w
      → ((s : Store) → OnDisk B w s → f w.disk ≡ (err e, w.disk))
      → ((s : Store) (m : Mem) → InMemory B w s m → g m ≡ (err e, m))
      → writes_to B w f g ≡ (err e, w)
  refused w e f g (inl (s, u)) h _ =
      writes-disk B w s f g u ∙ ap (λ r. (r.0, record w { disk = r.1 })) (h s u)
  refused w e f g (inr (s, m, u)) _ h =
      writes-memory B w s m f g u
      ∙ ap (λ r. (r.0, record w { store_client = some (record s { mem = some r.1 }) })) (h s m u)
      ∙ λ i. (
        err e,
        record w {
          store_client = (ap (λ o. some (record s { mem = o })) (sym u.mem) ∙ sym u.client) i;
        },
      )

  -- With a usable client, LRange answers the entries that the range lists, in order, and no error.
  pub lrange_lem :
      (w : World B) (k : Bytes) (a b : ℤ)
      → IsUsable B w
      → lrange B w k a b ≡ ok (slice (store_view B w k) a b)
  unfolding lrange
  lrange_lem w k a b (inl (s, u)) =
      rw (u.client, u.bolt) ((bolt_store-IsListStore B).lrange_lem w.disk k a b u.numbered)
  lrange_lem w k a b (inr (s, m, u)) =
      rw (u.client, u.bolt, u.mem) (mem_store-IsListStore.lrange_lem m k a b tt)

  -- A write that both back ends do in the same way.
  written :
      (w : World B) (k : Bytes) (change : List Bytes → List Bytes)
      (f : B.Db → Outcome (Unit {0}) × B.Db) (g : Mem → Outcome (Unit {0}) × Mem)
      → IsUsable B w
      → ((s : Store)
          → OnDisk B w s
          → Replaced (bolt_store B) w.disk k (change (Lists.view B w.disk k)) (f w.disk))
      → ((s : Store) (m : Mem)
          → InMemory B w s m
          → Replaced mem_store m k (change (list_at m k)) (g m))
      → Replaced (client_store B) w k (change (store_view B w k)) (writes_to B w f g)
  written w k change f g (inl (s, u)) h _ =
      subst (λ vs. Replaced (client_store B) w k (change vs) (writes_to B w f g))
        (sym (view-disk w s k u)) (Replaced-disk B w s k _ f g u (h s u))
  written w k change f g (inr (s, m, u)) _ h =
      subst (λ vs. Replaced (client_store B) w k (change vs) (writes_to B w f g))
        (sym (view-memory w s m k u)) (Replaced-memory B w s k m _ f g u (h s m u))

  -- With a usable client, a name and a value that fit and, on disk, a sequence number left, RPush
  -- returns nil, adds the value at the end, and leaves the other lists alone.
  pub rpush_lem :
      (w : World B) (k v : Bytes)
      → IsUsable B w
      → length (list_bucket_name k) ≤ max_key_size
      → length v ≤ max_value_size
      → (uses_disk B w ≡ true → RoomIn (B.bucket w.disk (list_bucket_name k)) 1)
      → Replaced (client_store B) w k (store_view B w k ++ v ∷ []) (rpush B w k v)
  unfolding rpush
  rpush_lem w k v h short fits room =
      written w k (λ vs. vs ++ v ∷ []) (λ d. Bolt.rpush B d k v) (λ m. Mem.rpush m k v) h
        (λ s u.
          (bolt_store-IsListStore B).rpush_lem w.disk k v u.numbered short fits
            (room (rw (u.client, u.bolt) refl)))
        (λ s m u. mem_store-IsListStore.rpush_lem m k v tt tt tt tt)

  -- With a usable client, LTrim returns nil, keeps of the list exactly the entries that the range
  -- lists, and leaves the other lists alone.
  pub ltrim_lem :
      (w : World B) (k : Bytes) (a b : ℤ)
      → IsUsable B w
      → Replaced (client_store B) w k (slice (store_view B w k) a b) (ltrim B w k a b)
  unfolding ltrim
  ltrim_lem w k a b h =
      written w k (λ vs. slice vs a b) (λ d. Bolt.ltrim B d k a b) (λ m. Mem.ltrim m k a b) h
        (λ s u. (bolt_store-IsListStore B).ltrim_lem w.disk k a b u.numbered)
        (λ s m u. mem_store-IsListStore.ltrim_lem m k a b tt)

  -- With a usable client and a value that fits, LSet at an index inside the list returns nil,
  -- replaces that entry, and leaves the others and the other lists alone.
  pub lset_lem :
      (w : World B) (k : Bytes) (i : ℕ) (v : Bytes)
      → IsUsable B w
      → length v ≤ max_value_size
      → i < length (store_view B w k)
      → Replaced (client_store B) w k (set (store_view B w k) i v) (lset B w k (pos i) v)
  unfolding lset
  lset_lem w k i v h fits l =
      written w k (λ vs. set vs i v) (λ d. Bolt.lset B d k (pos i) v) (λ m. Mem.lset m k (pos i) v)
        h
        (λ s u.
          (bolt_store-IsListStore B).lset_lem w.disk k i v u.numbered fits
            (rw (← view-disk w s k u) l))
        (λ s m u. mem_store-IsListStore.lset_lem m k i v tt tt (rw (← view-memory w s m k u) l))

  -- With a usable client, LSet at an index past the end answers "index out of range" and changes
  -- nothing.
  pub lset_above :
      (w : World B) (k : Bytes) (i : ℕ) (v : Bytes)
      → IsUsable B w
      → length (store_view B w k) ≤ i
      → lset B w k (pos i) v ≡ (err index_out_of_range, w)
  unfolding lset
  lset_above w k i v h l =
      refused w index_out_of_range (λ d. Bolt.lset B d k (pos i) v) (λ m. Mem.lset m k (pos i) v) h
        (λ s u.
          (bolt_store-IsListStore B).lset_above w.disk k i v u.numbered
            (rw (← view-disk w s k u) l))
        (λ s m u. mem_store-IsListStore.lset_above m k i v tt (rw (← view-memory w s m k u) l))

  pub lset_negative :
      (w : World B) (k : Bytes) (i : ℕ) (v : Bytes)
      → IsUsable B w
      → lset B w k (negsuc i) v ≡ (err index_out_of_range, w)
  unfolding lset
  lset_negative w k i v h =
      refused w index_out_of_range (λ d. Bolt.lset B d k (negsuc i) v)
        (λ m. Mem.lset m k (negsuc i) v) h
        (λ s u. (bolt_store-IsListStore B).lset_negative w.disk k i v u.numbered)
        (λ s m u. mem_store-IsListStore.lset_negative m k i v tt)

  -- With a usable client and a name that fits, LRem returns nil, drops the first `c` entries that
  -- equal `v` (none if `c` is not positive), and leaves the other lists alone.
  pub lrem_lem :
      (w : World B) (k : Bytes) (c : ℤ) (v : Bytes)
      → IsUsable B w
      → length (list_bucket_name k) ≤ max_key_size
      → Replaced (client_store B) w k (remove_count c v (store_view B w k)) (lrem B w k c v)
  unfolding lrem
  lrem_lem w k c v h short =
      written w k (remove_count c v) (λ d. Bolt.lrem B d k c v) (λ m. Mem.lrem m k c v) h
        (λ s u. (bolt_store-IsListStore B).lrem_lem w.disk k c v u.numbered short)
        (λ s m u. mem_store-IsListStore.lrem_lem m k c v tt tt)

  -- With a usable client, Del returns nil, empties the list, and leaves the other lists alone.
  pub del_lem :
      (w : World B) (k : Bytes) → IsUsable B w → Replaced (client_store B) w k [] (del B w k)
  unfolding del
  del_lem w k h =
      written w k (λ _. []) (λ d. Bolt.del B d k) (λ m. Mem.del m k) h
        (λ s u. (bolt_store-IsListStore B).del_lem w.disk k u.numbered)
        (λ s m u. mem_store-IsListStore.del_lem m k tt)

  -- Room on disk, stated of the store that is used.
  room_after :
      (w : World B) (k : Bytes) (n : ℕ) (f : B.Db → Outcome (Unit {0}) × B.Db)
      (g : Mem → Outcome (Unit {0}) × Mem)
      → IsUsable B w
      → ((s : Store) → OnDisk B w s → RoomIn (B.bucket (f w.disk).1 (list_bucket_name k)) n)
      → uses_disk B (writes_to B w f g).1 ≡ true
      → RoomIn (B.bucket (writes_to B w f g).1.disk (list_bucket_name k)) n
  room_after w k n f g (inl (s, u)) h _ = rw (writes-disk B w s f g u) (h s u)
  room_after w k n f g (inr (s, m, u)) h e =
      let used : uses_disk B (writes_to B w f g).1 ≡ s.on_disk =
        rw (writes-memory B w s m f g u) refl in
      let no : ⊥ = cc (used, e, u.bolt) in absurd no

  pub Room-rpush :
      (w : World B) (k v : Bytes) (n : ℕ)
      → IsUsable B w
      → length (list_bucket_name k) ≤ max_key_size
      → length v ≤ max_value_size
      → (uses_disk B w ≡ true → RoomIn (B.bucket w.disk (list_bucket_name k)) (suc n))
      → uses_disk B (rpush B w k v).1 ≡ true
      → RoomIn (B.bucket (rpush B w k v).1.disk (list_bucket_name k)) n
  unfolding rpush
  Room-rpush w k v n h short fits room =
      room_after w k n (λ d. Bolt.rpush B d k v) (λ m. Mem.rpush m k v) h
        (λ s u.
          (bolt_store-IsListStore B).Room-rpush w.disk k v n u.numbered short fits
            (room (rw (u.client, u.bolt) refl)))

  pub Room-del :
      (w : World B) (k : Bytes) (n : ℕ)
      → IsUsable B w
      → n < 2 ^ 64
      → uses_disk B (del B w k).1 ≡ true
      → RoomIn (B.bucket (del B w k).1.disk (list_bucket_name k)) n
  unfolding del
  Room-del w k n h l =
      room_after w k n (λ d. Bolt.del B d k) (λ m. Mem.del m k) h
        (λ s u. (bolt_store-IsListStore B).Room-del w.disk k n u.numbered l)

  -- The singleton keeps the promise while it has a back end.
  pub client_store-IsListStore : IsListStore (client_store B)
  client_store-IsListStore = record {
    lrange_lem = lrange_lem;
    rpush_lem = rpush_lem;
    ltrim_lem = ltrim_lem;
    lset_lem = lset_lem;
    lset_above = lset_above;
    lset_negative = lset_negative;
    lrem_lem = lrem_lem;
    del_lem = del_lem;
    Room-rpush = Room-rpush;
    Room-suc = λ w k n h e. (bolt_store-IsListStore B).Room-suc w.disk k n (h e);
    Room-del = Room-del;
  }
