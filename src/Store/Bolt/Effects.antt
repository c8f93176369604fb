-- ===== src/Store/Bolt/Effects.antt =====
-- What the calls of BoltClient do to the buckets: `Writes d n o d'` says that bucket `n` becomes
-- `o` and that every other bucket is as before.
use trailarr.Prelude.{
  ℕ, ◌+◌, ◌^◌, ◌≤◌, ◌<◌, ◌≡◌, refl, ◌∙◌, sym, true, false, ◌||◌, Option, none, some, List, [], ◌∷◌,
  ◌++◌, arith, length, Bytes, ◌==◌, ==_iff, ==_refl, Bool-cases, inl, inr, if◌then◌else◌, ltb,
}
use mathlib.Core.List.{append-nil, append_assoc, map-append}
use trailarr.Bbolt.{Bbolt, Bucket, new_bucket, max_key_size, max_value_size}
use trailarr.Bbolt.Content.{Pairs, put_sorted}
use trailarr.Store.Outcome.{ok}
use trailarr.Store.Keys.{u64_to_bytes, length-u64_to_bytes}
use trailarr.Store.Bolt.{values, pairs_of, append_entry, append_entries, rebuild, delete_outside}
use trailarr.Store.Bolt.Entries.{
  Keyed, put_sorted-next, Keyed-append, remove-middle, Keyed-remove, keep_between,
}

-- A bucket whose entries are numbered up to its sequence, which has not run out.
pub record IsNumbered (b : Bucket) : Type 0 where
  pub numbered : Keyed 0 b.sequence b.pairs
  pub room : b.sequence < 2 ^ 64

abbrev pub appended : Bucket → Bytes → Bucket
appended b v = record {
  pairs = b.pairs ++ (u64_to_bytes (b.sequence + 1), v) ∷ [];
  sequence = b.sequence + 1;
}

pub appended-IsNumbered :
    (b : Bucket) (v : Bytes)
    → IsNumbered b
    → b.sequence + 1 < 2 ^ 64
    → length v ≤ max_value_size
    → IsNumbered (appended b v)
appended-IsNumbered b v h r fits = record {
  numbered = Keyed-append 0 b.sequence v b.pairs fits h.numbered;
  room = r;
}

abbrev pub AllFit : List Bytes → Type 0
AllFit [] = Unit {0}
AllFit (v ∷ vs) = (length v ≤ max_value_size) × AllFit vs

pub Keyed-AllFit : (lo hi : ℕ) (r : Pairs) → Keyed lo hi r → AllFit (values r)
Keyed-AllFit lo hi [] h = tt
Keyed-AllFit lo hi ((k, v) ∷ r) (q, e, l, z, h) = (z, Keyed-AllFit q hi r h)

pub new_bucket-IsNumbered : IsNumbered new_bucket
new_bucket-IsNumbered = record { numbered = omega arith; room = omega arith }

pub values-appended :
    (b : Bucket) (v : Bytes) → values (appended b v).pairs ≡ values b.pairs ++ v ∷ []
values-appended b v = map-append (λ (kv : Bytes × Bytes). kv.1) b.pairs _

abbrev pub NumberedIf : Option Bucket → Type 0
NumberedIf none = Unit {0}
NumberedIf (some b) = IsNumbered b

module _ (B : Bbolt) where
  open B use {Db, bucket}

  abbrev pub Writes : Db → Bytes → Option Bucket → Db → Type 0
  Writes d n o d' = (m : Bytes) → bucket d' m ≡ (if n == m then o else bucket d m)

  pub Writes-trans :
      (d e f : Db) (n : Bytes) (o p : Option Bucket)
      → Writes d n o e
      → Writes e n p f
      → Writes d n p f
  Writes-trans d e f n o p h k m = ground (arith, h m, k m)

  pub Writes-self : (d e : Db) (n : Bytes) (o : Option Bucket) → Writes d n o e → bucket e n ≡ o
  Writes-self d e n o h = h n ∙ (rw (==_refl n))

  -- The next sequence number and a put of it append one entry.
  pub append_entry-Writes :
      (d : Db) (b : Bucket) (n v : Bytes)
      → bucket d n ≡ some b
      → IsNumbered b
      → b.sequence + 1 < 2 ^ 64
      → length v ≤ max_value_size
      → (d' : Db) × (append_entry B d n v ≡ ok d') × Writes d n (some (appended b v)) d'
  unfolding append_entry
  append_entry-Writes d b n v there num r fits =
      let step = B.next_sequence d n in
      let seq : step.0 ≡ b.sequence + 1 = B.next_sequence_value n there r in
      let next = record b { sequence = b.sequence + 1 } in
      let at : bucket step.1 n ≡ some next =
        B.bucket-next_sequence n n there r ∙ (rw (==_refl n)) in
      let (d', e) =
        B.put_succeeds {d = step.1} n (u64_to_bytes step.0) v at
          (omega (arith, length-u64_to_bytes step.0)) (omega (arith, length-u64_to_bytes step.0))
          fits in
      let sorted : put_sorted (u64_to_bytes step.0) v b.pairs ≡ (appended b v).pairs =
        rw seq (put_sorted-next 0 b.sequence v b.pairs r num.numbered) in
      (
        d',
        rw e refl,
        λ m. ground (
          arith,
          sorted,
          B.bucket-next_sequence n m there r,
          B.bucket-put {d = step.1} n (u64_to_bytes step.0) v m at e,
        ),
      )

  -- A loop of appends: the bucket ends with the values, and its sequence has moved by their number.
  pub append_entries-Writes :
      (d : Db) (b : Bucket) (n : Bytes) (vs : List Bytes)
      → bucket d n ≡ some b
      → IsNumbered b
      → b.sequence + length vs < 2 ^ 64
      → AllFit vs
      → (d' : Db) × (b' : Bucket) × (append_entries B d n vs ≡ ok d')
        × Writes d n (some b') d'
        × (values b'.pairs ≡ values b.pairs ++ vs)
        × IsNumbered b'
  unfolding append_entries
  append_entries-Writes d b n [] there num r fits =
      (d, b, refl, λ m. ground (arith, ==_iff n m, there), sym (append-nil _), num)
  append_entries-Writes d b n (v ∷ vs) there num r fits =
      let (e, p, w) = append_entry-Writes d b n v there num (omega arith) fits.0 in
      let (f, c, q, u, vals, num') =
        append_entries-Writes e (appended b v) n vs (Writes-self d e n _ w)
          (appended-IsNumbered b v num (omega arith) fits.0) (omega arith) fits.1 in
      (
        f,
        c,
        rw p q,
        Writes-trans d e f n _ _ w u,
        vals ∙ (rw values-appended (append_assoc (values b.pairs) (v ∷ []) vs)),
        num',
      )

  delete_outside-out :
      (d c : Db) (n : Bytes) (idx s e : ℕ) (k v : Bytes) (r : Pairs)
      → (ltb idx s || ltb e idx) ≡ true
      → B.delete d n k ≡ some c
      → delete_outside B d n idx s e ((k, v) ∷ r) ≡ delete_outside B c n (idx + 1) s e r
  unfolding delete_outside
  delete_outside-out d c n idx s e k v r out p = rw (out, delete_outside) (rw p)

  delete_outside-in :
      (d : Db) (n : Bytes) (idx s e : ℕ) (k v : Bytes) (r : Pairs)
      → (ltb idx s || ltb e idx) ≡ false
      → delete_outside B d n idx s e ((k, v) ∷ r) ≡ delete_outside B d n (idx + 1) s e r
  unfolding delete_outside
  delete_outside-in d n idx s e k v r in_ = rw (in_, delete_outside)

  -- The loop of LTrim: `kept` is what it has passed over and left in.
  pub delete_outside-Writes :
      (d : Db) (n : Bytes) (q idx s e : ℕ) (kept r : Pairs)
      → bucket d n ≡ some (record { pairs = kept ++ r; sequence = q })
      → Keyed 0 q (kept ++ r)
      → q < 2 ^ 64
      → (d' : Db) × (delete_outside B d n idx s e r ≡ ok d')
        × Writes d n (some (record { pairs = kept ++ keep_between idx s e r; sequence = q })) d'
        × Keyed 0 q (kept ++ keep_between idx s e r)
  unfolding delete_outside keep_between
  delete_outside-Writes d n q idx s e kept [] there num room =
      (d, refl, λ m. ground (arith, ==_iff n m, there), num)
  delete_outside-Writes d n q idx s e kept ((k, v) ∷ r) there num room =
      elim (Bool-cases (ltb idx s || ltb e idx)) [
        | inl out ↦
            let (c, p) = B.delete_succeeds d n k in
            let gone : Writes d n (some (record { pairs = kept ++ r; sequence = q })) c = λ m.
              B.bucket-delete {d = d} n k m there p
              ∙ (rw (remove-middle 0 q kept k v r room num)) in
            let (f, a, w, u) =
              delete_outside-Writes c n q (idx + 1) s e kept r (Writes-self d c n _ gone)
                (Keyed-remove 0 q kept k v r num) room in
            (
              f,
              delete_outside-out d c n idx s e k v r out p ∙ a,
              rw out (Writes-trans d c f n _ _ gone w),
              rw out u,
            )
        | inr in_ ↦
            let shift = append_assoc kept ((k, v) ∷ []) r in
            let (f, a, w, u) =
              delete_outside-Writes d n q (idx + 1) s e (kept ++ (k, v) ∷ []) r (rw shift there)
                (rw shift num) room in
            let back = append_assoc kept ((k, v) ∷ []) (keep_between (idx + 1) s e r) in
            (
              f,
              delete_outside-in d n idx s e k v r in_ ∙ a,
              rw in_ (rw back at w),
              rw in_ (rw back at u),
            )
      ]

  -- LRem writes the values that are left to a new bucket, or drops the bucket.
  pub rebuild-Writes :
      (d : Db) (n : Bytes) (vs : List Bytes)
      → 0 < length n
      → length n ≤ max_key_size
      → length vs < 2 ^ 64
      → AllFit vs
      → (d' : Db) × (o : Option Bucket) × (rebuild B d n vs ≡ ok d')
        × Writes d n o d'
        × (values (pairs_of o) ≡ vs)
        × NumberedIf o
  unfolding rebuild
  rebuild-Writes d n [] named short few fits =
      (B.delete_bucket d n, none, refl, B.bucket-delete_bucket d n, refl, tt)
  rebuild-Writes d n (v ∷ vs) named short few fits =
      let c = B.delete_bucket d n in
      let (e, p) = B.create_succeeds c n named short in
      let fresh : Writes d n (some new_bucket) e = λ m. ground (
        arith,
        B.bucket-create {d = c} n m p,
        B.bucket-delete_bucket d n m,
        B.bucket-delete_bucket d n n,
        ==_refl n,
      ) in
      let (f, b, a, w, vals, num) =
        append_entries-Writes e new_bucket n (v ∷ vs) (Writes-self d e n _ fresh)
          new_bucket-IsNumbered (omega arith) fits in
      (f, some b, rw p a, Writes-trans d e f n _ _ fresh w, vals, num)
