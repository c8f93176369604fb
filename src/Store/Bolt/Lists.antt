-- ===== src/Store/Bolt/Lists.antt =====
-- The lists of BoltClient as a store of Store.Spec.
pub mod Trim
pub mod Promise
pub mod Rem
pub mod Write
use trailarr.Prelude.{
  ℕ, zero, suc, ◌+◌, ◌-◌, ◌^◌, ◌≤◌, ◌<◌, ◌≡◌, refl, ap, ◌∙◌, sym, subst, Bool, true, false, ◌||◌,
  Option, none, some, List, [], ◌∷◌, ◌++◌, map, arith, length, length-map, get_elem?, set, map-set,
  Bytes, ◌==◌, ==_iff, ==_refl, Bool-cases, Option-cases, inl, inr, if◌then◌else◌, ltb,
}
use trailarr.Prelude.Int.{ℤ, pos, negsuc, pos_part, ltb_ℤ}
use mathlib.Core.List.{append-nil, append_assoc, map-append}
use trailarr.Bbolt.{Bbolt, Bucket, or_new, new_bucket, max_key_size, max_value_size}
use trailarr.Bbolt.Content.{Pairs, put_sorted, remove}
use trailarr.Store.Outcome.{Outcome, ok, err, bolt_failed, index_out_of_range, ◌>>=◌}
use trailarr.Store.Range.{cut, slice, normalize_range}
use trailarr.Store.Spec.{ListStore, Replaced, IsListStore, remove_first, remove_count}
use trailarr.Store.Bolt.{
  or_fail, values, pairs_of, list_bucket_name, update, rpush, lrange, ltrim, lset, lrem, del,
  append_entry,
}
use trailarr.Store.Bolt.Entries.{Keyed, keep_between, keep_between-cut}
use trailarr.Store.Bolt.Effects.{
  IsNumbered, NumberedIf, appended, Writes, append_entry-Writes, appended-IsNumbered,
  delete_outside-Writes, rebuild-Writes, new_bucket-IsNumbered, Writes-trans, Writes-self,
  values-appended,
}

list_name_injective : (k j : Bytes) → (list_bucket_name k == list_bucket_name j) ≡ (k == j)
unfolding ◌==◌
list_name_injective k j = refl

-- The sequence numbers that a list has left.
abbrev pub RoomIn : Option Bucket → ℕ → Type 0
RoomIn none n = n < 2 ^ 64
RoomIn (some b) n = b.sequence + n < 2 ^ 64

or_new-IsNumbered : (o : Option Bucket) → NumberedIf o → IsNumbered (or_new o)
or_new-IsNumbered none h = new_bucket-IsNumbered
or_new-IsNumbered (some b) h = h

or_new_room : (o : Option Bucket) (n : ℕ) → RoomIn o n → (or_new o).sequence + n < 2 ^ 64
or_new_room none n h = omega arith
or_new_room (some b) n h = h

values-or_new : (o : Option Bucket) → values (or_new o).pairs ≡ values (pairs_of o)
values-or_new none = refl
values-or_new (some b) = refl

module _ (B : Bbolt) where
  open B use {Db, bucket}

  abbrev pub view : Db → Bytes → List Bytes
  view d key = values (pairs_of (bucket d (list_bucket_name key)))

  -- Every list bucket has numbered entries.
  pub record IsListDb (d : Db) : Type 0 where
    pub at : (key : Bytes) → NumberedIf (bucket d (list_bucket_name key))

  pub view-Writes :
      (d d' : Db) (k : Bytes) (o : Option Bucket)
      → Writes B d (list_bucket_name k) o d'
      → (j : Bytes) → view d' j ≡ (if k == j then values (pairs_of o) else view d j)
  view-Writes d d' k o w j =
      rw w
        (rw (list_name_injective k j) (elim (Bool-cases (k == j)) [ inl e ↦ rw e | inr e ↦ rw e ]))

  pub IsListDb-Writes :
      (d d' : Db) (k : Bytes) (o : Option Bucket)
      → IsListDb d
      → NumberedIf o
      → Writes B d (list_bucket_name k) o d'
      → IsListDb d'
  IsListDb-Writes d d' k o h n w = record {
    at = λ j. rw (w (list_bucket_name j)) (
        rw (list_name_injective k j)
          (elim (Bool-cases (k == j)) [ inl e ↦ rw e n | inr e ↦ rw e (h.at j) ]));
  }

  abbrev pub bolt_store : ListStore
  bolt_store = record {
    State = Db;
    view = view;
    IsValid = IsListDb;
    KeyFits = λ k. length (list_bucket_name k) ≤ max_key_size;
    ValueFits = λ v. length v ≤ max_value_size;
    Room = λ d k n. RoomIn (bucket d (list_bucket_name k)) n;
    lrange = lrange B;
    rpush = rpush B;
    ltrim = ltrim B;
    lset = lset B;
    lrem = lrem B;
    del = del B;
  }

  pub Replaced-Writes :
      (d d' : Db) (k : Bytes) (o : Option Bucket) (vs : List Bytes) (r : Outcome (Unit {0}) × Db)
      → IsListDb d
      → NumberedIf o
      → Writes B d (list_bucket_name k) o d'
      → values (pairs_of o) ≡ vs
      → r ≡ (ok tt, d')
      → Replaced bolt_store d k vs r
  Replaced-Writes d d' k o vs r h n w e q = record {
    returned = rw q;
    valid = rw q (IsListDb-Writes d d' k o h n w);
    views = λ j. rw q (rw (← e) (view-Writes d d' k o w j));
  }

  -- RPush: the bucket is made if it is missing, and one entry goes to its end.
  pub rpush-Writes :
      (d : Db) (k v : Bytes)
      → IsListDb d
      → length (list_bucket_name k) ≤ max_key_size
      → length v ≤ max_value_size
      → RoomIn (bucket d (list_bucket_name k)) 1
      → (d' : Db) × (rpush B d k v ≡ (ok tt, d'))
        × Writes B d
            (list_bucket_name k)
            (some (appended (or_new (bucket d (list_bucket_name k))) v))
            d'
  unfolding rpush
  rpush-Writes d k v h short fits room =
      let n = list_bucket_name k in
      let b = or_new (bucket d n) in
      let (e, p) = B.create_succeeds d n (omega arith) short in
      let made : Writes B d n (some b) e = λ m. B.bucket-create {d = d} n m p in
      let (f, a, w) =
        append_entry-Writes B e b n v (Writes-self B d e n _ made)
          (or_new-IsNumbered (bucket d n) (h.at k)) (or_new_room (bucket d n) 1 room) fits in
      (f, rw p (ap (update B d) a), Writes-trans B d e f n _ _ made w)

  pub rpush_lem :
      (d : Db) (k v : Bytes)
      → IsListDb d
      → length (list_bucket_name k) ≤ max_key_size
      → length v ≤ max_value_size
      → RoomIn (bucket d (list_bucket_name k)) 1
      → Replaced bolt_store d k (view d k ++ v ∷ []) (rpush B d k v)
  rpush_lem d k v h short fits room =
      let o = bucket d (list_bucket_name k) in
      let (f, a, w) = rpush-Writes d k v h short fits room in
      Replaced-Writes d f k _ _ _ h
        (appended-IsNumbered (or_new o) v (or_new-IsNumbered o (h.at k)) (or_new_room o 1 room)
          fits)
        w (values-appended (or_new o) v ∙ ap (λ vs. vs ++ v ∷ []) (values-or_new o)) a
