-- ===== src/Store/Bolt/Lists/Rem.antt =====
-- LRem and Del of BoltClient, and the sequence numbers that are left after each call.
use trailarr.Prelude.{
  ℕ, zero, suc, ◌+◌, ◌^◌, ◌≤◌, ◌<◌, ◌≡◌, refl, ◌∙◌, sym, subst, Option, none, some, List, [], ◌∷◌,
  length, length-map, Bytes, ◌==◌, ==_iff, ==_refl, Option-cases, Bool-cases, inl, inr, arith,
  if◌then◌else◌,
}
use trailarr.Prelude.Int.{ℤ, pos, negsuc}
use trailarr.Bbolt.{Bbolt, Bucket, or_new, max_key_size, max_value_size}
use trailarr.Store.Spec.{Replaced, remove_first, remove_count}
use trailarr.Store.Bolt.{
  values, list_bucket_name, hash_bucket_name, kv_bucket_name, remove_loop, remove_matches, lrem,
  del, drop_plain, rpush,
}
use trailarr.Store.Bolt.Entries.{length-Keyed}
use trailarr.Store.Bolt.Effects.{
  IsNumbered, NumberedIf, Writes, AllFit, Keyed-AllFit, rebuild-Writes, Writes-self,
}
use trailarr.Store.Bolt.Lists.{view, IsListDb, bolt_store, Replaced-Writes, RoomIn, rpush-Writes}

remove_first-zero : (target : Bytes) (vs : List Bytes) → remove_first 0 target vs ≡ vs
unfolding remove_first
remove_first-zero target [] = refl
remove_first-zero target (v ∷ vs) = refl

-- The counting loop of removeMatches removes the first matches.
remove_loop-eq-remove_first :
    (removed count stop : ℕ) (target : Bytes) (vs : List Bytes)
    → removed + count ≡ stop
    → remove_loop removed stop target vs ≡ remove_first count target vs
unfolding remove_loop remove_first
remove_loop-eq-remove_first removed count stop target [] h = refl
remove_loop-eq-remove_first removed zero stop target (v ∷ vs) h =
    ground (
      arith,
      remove_loop-eq-remove_first removed zero stop target vs h,
      remove_first-zero target vs,
    )
remove_loop-eq-remove_first removed (suc c) stop target (v ∷ vs) h = ground (
  arith,
  remove_loop-eq-remove_first (removed + 1) c stop target vs (omega arith),
  remove_loop-eq-remove_first removed (suc c) stop target vs h,
)

-- removeMatches against the reference, for any count.
pub remove_matches-eq-remove_count :
    (vals : List Bytes) (count : ℤ) (value : Bytes)
    → remove_matches vals count value ≡ remove_count count value vals
unfolding remove_matches remove_count remove_first
remove_matches-eq-remove_count [] (pos c) value = refl
remove_matches-eq-remove_count (v ∷ vs) (pos c) value = ground (
  arith,
  remove_loop-eq-remove_first 0 c c value (v ∷ vs) (omega arith),
  remove_first-zero value (v ∷ vs),
)
remove_matches-eq-remove_count vals (negsuc c) value = ground arith

remove_first-AllFit :
    (c : ℕ) (target : Bytes) (vs : List Bytes) → AllFit vs → AllFit (remove_first c target vs)
unfolding remove_first
remove_first-AllFit c target [] h = tt
remove_first-AllFit zero target (v ∷ vs) h = h
remove_first-AllFit (suc c) target (v ∷ vs) h = elim (Bool-cases (v == target)) [
  | inl e ↦ rw (e, remove_first) (remove_first-AllFit c target vs h.1)
  | inr e ↦ rw (e, remove_first) (h.0, remove_first-AllFit (suc c) target vs h.1)
]

length-remove_first-le :
    (c : ℕ) (target : Bytes) (vs : List Bytes) → length (remove_first c target vs) ≤ length vs
unfolding remove_first
length-remove_first-le c target [] = omega arith
length-remove_first-le zero target (v ∷ vs) = omega arith
length-remove_first-le (suc c) target (v ∷ vs) =
    ground (arith, length-remove_first-le c target vs, length-remove_first-le (suc c) target vs)

remove_count-AllFit :
    (c : ℤ) (target : Bytes) (vs : List Bytes) → AllFit vs → AllFit (remove_count c target vs)
unfolding remove_count
remove_count-AllFit (pos c) target vs h = remove_first-AllFit c target vs h
remove_count-AllFit (negsuc c) target vs h = h

length-remove_count-le :
    (c : ℤ) (target : Bytes) (vs : List Bytes) → length (remove_count c target vs) ≤ length vs
unfolding remove_count
length-remove_count-le (pos c) target vs = length-remove_first-le c target vs
length-remove_count-le (negsuc c) target vs = omega arith

RoomIn-one : (o : Option Bucket) (n : ℕ) → RoomIn o (suc n) → RoomIn o 1
RoomIn-one none n h = omega arith
RoomIn-one (some b) n h = omega arith

RoomIn-next : (o : Option Bucket) (n : ℕ) → RoomIn o (suc n) → (or_new o).sequence + 1 + n < 2 ^ 64
RoomIn-next none n h = omega arith
RoomIn-next (some b) n h = omega arith

remove_count-nil : (c : ℤ) (v : Bytes) → remove_count c v [] ≡ []
unfolding remove_count remove_first
remove_count-nil (pos c) v = refl
remove_count-nil (negsuc c) v = refl

module _ (B : Bbolt) (d : B.Db) (k : Bytes) where
  open B use {bucket}

  lrem-some :
      (b : Bucket) (c : ℤ) (v : Bytes)
      → IsListDb B d
      → bucket d (list_bucket_name k) ≡ some b
      → IsNumbered b
      → length (list_bucket_name k) ≤ max_key_size
      → Replaced (bolt_store B) d k (remove_count c v (view B d k)) (lrem B d k c v)
  unfolding lrem
  lrem-some b c v h e num short =
      let n = list_bucket_name k in
      let same = remove_matches-eq-remove_count (values b.pairs) c v in
      let (f, o, a, w, vals, num') =
        rebuild-Writes B d n (remove_count c v (values b.pairs)) (omega arith) short
          (omega (
            arith,
            length-remove_count-le c v (values b.pairs),
            length-map (λ (kv : Bytes × Bytes). kv.1) b.pairs,
            length-Keyed 0 b.sequence b.pairs num.numbered,
            num.room,
          ))
          (remove_count-AllFit c v (values b.pairs)
            (Keyed-AllFit 0 b.sequence b.pairs num.numbered)) in
      Replaced-Writes B d f k o _ _ h num' w (rw e vals) (rw (e, same, lrem) (rw a))

  pub lrem_lem :
      (c : ℤ) (v : Bytes)
      → IsListDb B d
      → length (list_bucket_name k) ≤ max_key_size
      → Replaced (bolt_store B) d k (remove_count c v (view B d k)) (lrem B d k c v)
  unfolding lrem
  lrem_lem c v h short = elim (Option-cases (bucket d (list_bucket_name k))) [
    | inl e ↦
        Replaced-Writes B d d k none _ _ h tt
          (λ m. ground (arith, ==_iff (list_bucket_name k) m, e))
          (rw e (sym (remove_count-nil c v))) (rw (e, lrem))
    | inr (b, e) ↦ lrem-some b c v h e (subst NumberedIf e (h.at k)) short
  ]

  bucket-drop_plain :
      (j : Bytes) → bucket (drop_plain B d k) (list_bucket_name j) ≡ bucket d (list_bucket_name j)
  unfolding drop_plain ◌==◌
  bucket-drop_plain j = elim (Option-cases (bucket d kv_bucket_name)) [
    | inl e ↦ rw (e, drop_plain)
    | inr (b, e) ↦
        let (c, p) = B.delete_succeeds d kv_bucket_name k in
        rw (e, p, drop_plain) (B.bucket-delete {d = d} kv_bucket_name k (list_bucket_name j) e p)
  ]

module _ (B : Bbolt) (d : B.Db) (k : Bytes) where
  open B use {bucket, delete_bucket}

  -- Del drops the bucket of the list; those of hashes and plain values are other buckets.
  del-Writes : Writes B d (list_bucket_name k) none (delete_bucket d (list_bucket_name k))
  del-Writes = B.bucket-delete_bucket d (list_bucket_name k)

  bucket-del :
      (j : Bytes)
      → bucket (del B d k).1 (list_bucket_name j)
        ≡ (if k == j then none else bucket d (list_bucket_name j))
  unfolding del ◌==◌
  bucket-del j =
      bucket-drop_plain B
        (delete_bucket (delete_bucket d (list_bucket_name k)) (hash_bucket_name k)) k j
      ∙ B.bucket-delete_bucket (delete_bucket d (list_bucket_name k)) (hash_bucket_name k)
          (list_bucket_name j)
      ∙ del-Writes (list_bucket_name j)

  pub del_lem : IsListDb B d → Replaced (bolt_store B) d k [] (del B d k)
  unfolding del
  del_lem h = record {
    returned = refl;
    valid = record {
      at = λ j.
          rw (bucket-del j)
            (elim (Bool-cases (k == j)) [ inl e ↦ rw e tt | inr e ↦ rw e (h.at j) ]);
    };
    views = λ j. rw (bucket-del j) (elim (Bool-cases (k == j)) [ inl e ↦ rw e | inr e ↦ rw e ]);
  }

  pub Room-del : (n : ℕ) → n < 2 ^ 64 → RoomIn (bucket (del B d k).1 (list_bucket_name k)) n
  Room-del n h = rw (bucket-del k) (rw (==_refl k) h)

  pub Room-rpush :
      (v : Bytes) (n : ℕ)
      → IsListDb B d
      → length (list_bucket_name k) ≤ max_key_size
      → length v ≤ max_value_size
      → RoomIn (bucket d (list_bucket_name k)) (suc n)
      → RoomIn (bucket (rpush B d k v).1 (list_bucket_name k)) n
  Room-rpush v n h short fits room =
      let o = bucket d (list_bucket_name k) in
      let (f, a, w) = rpush-Writes B d k v h short fits (RoomIn-one o n room) in
      rw a (rw (Writes-self B d f (list_bucket_name k) _ w) (RoomIn-next o n room))
