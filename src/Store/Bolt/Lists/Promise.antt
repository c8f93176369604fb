-- ===== src/Store/Bolt/Lists/Promise.antt =====
-- The laws of BoltClient together.
use trailarr.Prelude.{ℕ, suc, Option, none, some, arith, ◌≡◌, ap, Bytes}
use trailarr.Prelude.Int.{ℤ}
use trailarr.Bbolt.{Bbolt, Bucket}
use trailarr.Store.Bolt.{list_bucket_name}
use trailarr.Store.Bolt.Lists.{RoomIn}
use trailarr.Store.Outcome.{ok}
use trailarr.Store.Range.{slice}
use trailarr.Store.Range.Slices.{range_of-slice}
use trailarr.Store.Spec.{IsListStore}
use trailarr.Store.Bolt.{lrange}
use trailarr.Store.Bolt.Lists.{bolt_store, view, rpush_lem}
use trailarr.Store.Bolt.Lists.Trim.{ltrim_lem}
use trailarr.Store.Bolt.Lists.Write.{lset_lem, lset_above, lset_negative}
use trailarr.Store.Bolt.Lists.Rem.{lrem_lem, del_lem, Room-rpush, Room-del}

module _ (B : Bbolt) where
  lrange_lem : (d : B.Db) (k : Bytes) (a b : ℤ) → lrange B d k a b ≡ ok (slice (view B d k) a b)
  unfolding lrange
  lrange_lem d k a b = ap ok (range_of-slice (view B d k) a b)

  Room-suc :
      (d : B.Db) (k : Bytes) (n : ℕ)
      → RoomIn (B.bucket d (list_bucket_name k)) (suc n)
      → RoomIn (B.bucket d (list_bucket_name k)) 1
  Room-suc d k n h = fewer (B.bucket d (list_bucket_name k)) h
    where
      fewer : (o : Option Bucket) → RoomIn o (suc n) → RoomIn o 1
      fewer none l = omega arith
      fewer (some b) l = omega arith

  -- BoltClient keeps the promise.
  pub bolt_store-IsListStore : IsListStore (bolt_store B)
  bolt_store-IsListStore = record {
    lrange_lem = λ d k a b _. lrange_lem d k a b;
    rpush_lem = rpush_lem B;
    ltrim_lem = λ d k a b h. ltrim_lem B d k a b h;
    lset_lem = lset_lem B;
    lset_above = λ d k i v _ l. lset_above B d k i v l;
    lset_negative = λ d k i v _. lset_negative B d k i v;
    lrem_lem = lrem_lem B;
    del_lem = del_lem B;
    Room-rpush = Room-rpush B;
    Room-suc = Room-suc;
    Room-del = λ d k n _ l. Room-del B d k n l;
  }
