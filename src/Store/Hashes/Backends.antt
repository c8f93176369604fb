-- ===== src/Store/Hashes/Backends.antt =====
-- The hashes of BoltClient and of memBolt.
use trailarr.Prelude.{
  ◌<◌, ◌≤◌, ◌≡◌, refl, ◌∙◌, ◌&&◌, Option, none, some, [], ◌∷◌, Bytes, ◌==◌, ==_iff, ==_refl, length,
  arith, if◌then◌else◌, Option-cases, inl, inr,
}
use trailarr.Prelude.Maps.{GoMap, find, insert, erase, find-insert, find-erase}
use trailarr.Bbolt.{Bbolt, or_new, max_key_size, max_value_size}
use trailarr.Bbolt.Content.{lookup, lookup-put_sorted, lookup-remove}
use trailarr.Store.Outcome.{or_not_found}
use trailarr.Store.Bolt
use trailarr.Store.Bolt.{hash_bucket_name, pairs_of, or_missing, or_fail, update}
use trailarr.Store.Mem
use trailarr.Store.Mem.{Mem, or_nil, keep_hash}
use trailarr.Store.Hashes.{HashStore, IsHashStore, FieldSet}

abbrev pub mem_field : Mem → Bytes → Bytes → Option Bytes
mem_field m k f = find f (or_nil (find k m.hashes))

abbrev pub mem_hashes : HashStore
mem_hashes = record {
  State = Mem;
  field = mem_field;
  KeyFits = λ _. Unit {0};
  FieldFits = λ _. Unit {0};
  ValueFits = λ _. Unit {0};
  hset = Mem.hset;
  hget = Mem.hget;
  hvals = Mem.hvals;
  hdel = Mem.hdel;
}

mem-hget : (m : Mem) (k f : Bytes) → Mem.hget m k f ≡ or_not_found (mem_field m k f)
unfolding Mem.hget find
mem-hget m k f = elim (Option-cases (find k m.hashes)) [
  | inl e ↦ rw (Mem.hget, e) refl
  | inr (h, e) ↦ rw (Mem.hget, e) refl
]

-- HSet of memBolt returns nil and sets the one field; every other field stays.
pub mem-hset : (m : Mem) (k f v : Bytes) → FieldSet mem_hashes m k f (some v) (Mem.hset m k f v)
unfolding Mem.hset
mem-hset m k f v = record {
  returned = refl;
  fields = λ j g. ground (
    arith,
    ==_iff k j,
    find-insert k j (insert f v (or_nil (find k m.hashes))) m.hashes,
    find-insert f g v (or_nil (find k m.hashes)),
  );
}

missing : (m : Mem) (k g : Bytes) → find k m.hashes ≡ none → mem_field m k g ≡ none
unfolding find
missing m k g e = rw e refl

kept_field :
    (k j : Bytes) (h : GoMap Bytes) (hs : GoMap (GoMap Bytes))
    → or_nil (find j (keep_hash k h hs)) ≡ (if k == j then h else or_nil (find j hs))
kept_field k j [] hs = ground (arith, find-erase k j hs)
kept_field k j (x ∷ h) hs = ground (arith, find-insert k j (x ∷ h) hs)

kept :
    (m : Mem) (k f : Bytes) (h : GoMap Bytes) (j g : Bytes)
    → find k m.hashes ≡ some h
    → find g (or_nil (find j (keep_hash k (erase f h) m.hashes)))
      ≡ (if (k == j) && (f == g) then none else mem_field m j g)
kept m k f h j g e =
    rw (kept_field k j (erase f h) m.hashes) (ground (arith, ==_iff k j, find-erase f g h, e))

-- HDel of memBolt returns nil and removes the one field, also if the hash becomes empty or is
-- missing; every other field stays.
pub mem-hdel : (m : Mem) (k f : Bytes) → FieldSet mem_hashes m k f none (Mem.hdel m k f)
unfolding Mem.hdel
mem-hdel m k f = elim (Option-cases (find k m.hashes)) [
  | inl e ↦
      rw (Mem.hdel, e)
        (record { returned = refl; fields = λ j g. ground (arith, ==_iff k j, missing m k g e) })
  | inr (h, e) ↦ rw (Mem.hdel, e) (record { returned = refl; fields = λ j g. kept m k f h j g e })
]

hash_name : (k j : Bytes) → (hash_bucket_name k == hash_bucket_name j) ≡ (k == j)
unfolding ◌==◌
hash_name k j = refl

module _ (B : Bbolt) where
  abbrev pub bolt_field : B.Db → Bytes → Bytes → Option Bytes
  bolt_field d k f = lookup f (pairs_of (B.bucket d (hash_bucket_name k)))

  abbrev pub bolt_hashes : HashStore
  bolt_hashes = record {
    State = B.Db;
    field = bolt_field;
    KeyFits = λ k. length (hash_bucket_name k) ≤ max_key_size;
    FieldFits = λ f. (0 < length f) × (length f ≤ max_key_size);
    ValueFits = λ v. length v ≤ max_value_size;
    hset = Bolt.hset B;
    hget = Bolt.hget B;
    hvals = Bolt.hvals B;
    hdel = Bolt.hdel B;
  }

  bolt-hget : (d : B.Db) (k f : Bytes) → Bolt.hget B d k f ≡ or_not_found (bolt_field d k f)
  unfolding Bolt.hget lookup
  bolt-hget d k f = ground arith

  -- If names and value fit, HSet of BoltClient returns nil and sets the one field; every other
  -- field stays.
  pub bolt-hset :
      (d : B.Db) (k f v : Bytes)
      → length (hash_bucket_name k) ≤ max_key_size
      → (0 < length f) × (length f ≤ max_key_size)
      → length v ≤ max_value_size
      → FieldSet bolt_hashes d k f (some v) (Bolt.hset B d k f v)
  unfolding Bolt.hset
  bolt-hset d k f v short (some_, ffits) vfits =
      let n = hash_bucket_name k in
      let (e, p) = B.create_succeeds d n (omega arith) short in
      let there : B.bucket e n ≡ some (or_new (B.bucket d n)) =
        B.bucket-create {d = d} n n p ∙ (rw (==_refl n) refl) in
      let (c, q) = B.put_succeeds {d = e} n f v there some_ ffits vfits in
      record {
        returned = rw (p, q) refl;
        fields = λ j g.
            rw (p, q)
              (ground (
                arith,
                ==_iff n (hash_bucket_name j),
                hash_name k j,
                B.bucket-create {d = d} n (hash_bucket_name j) p,
                B.bucket-put {d = e} n f v (hash_bucket_name j) there q,
                lookup-put_sorted f g v (or_new (B.bucket d n)).pairs,
              ));
      }

  no_field :
      (d : B.Db) (k g : Bytes) → B.bucket d (hash_bucket_name k) ≡ none → bolt_field d k g ≡ none
  unfolding lookup
  no_field d k g e = rw e refl

  pub bolt-hdel : (d : B.Db) (k f : Bytes) → FieldSet bolt_hashes d k f none (Bolt.hdel B d k f)
  unfolding Bolt.hdel
  bolt-hdel d k f = elim (Option-cases (B.bucket d (hash_bucket_name k))) [
    | inl e ↦
        rw (Bolt.hdel, e)
          (record {
            returned = refl;
            fields = λ j g. ground (
              arith,
              ==_iff (hash_bucket_name k) (hash_bucket_name j),
              hash_name k j,
              no_field d k g e,
            );
          })
    | inr (b, e) ↦
        let n = hash_bucket_name k in
        let (c, q) = B.delete_succeeds d n f in
        rw (Bolt.hdel, e, q)
          (record {
            returned = refl;
            fields = λ j g. ground (
              arith,
              ==_iff n (hash_bucket_name j),
              hash_name k j,
              B.bucket-delete {d = d} n f (hash_bucket_name j) e q,
              lookup-remove f g b.pairs,
              e,
            );
          })
  ]

  -- The hashes of BoltClient: a write sets one field, and a read gives what was written last.
  pub bolt_hashes-IsHashStore : IsHashStore bolt_hashes
  bolt_hashes-IsHashStore = record {
    hget_lem = bolt-hget;
    hset_lem = bolt-hset;
    hdel_lem = bolt-hdel;
  }

-- The same of memBolt.
pub mem_hashes-IsHashStore : IsHashStore mem_hashes
mem_hashes-IsHashStore = record {
  hget_lem = mem-hget;
  hset_lem = λ m k f v _ _ _. mem-hset m k f v;
  hdel_lem = mem-hdel;
}
