-- ===== src/Store/Bolt/Lists/Write.antt =====
-- LSet of BoltClient: a write under the key of an entry.
use trailarr.Prelude.{
  ℕ, ◌≤◌, ◌<◌, ◌≡◌, ◌∙◌, subst, none, some, length, length-map, get_elem?, get_elem?-some, set,
  map-set, Bytes, Option-cases, inl, inr, arith,
}
use trailarr.Prelude.Int.{pos, negsuc}
use trailarr.Bbolt.{Bbolt, Bucket, max_value_size}
use trailarr.Bbolt.Content.{Pairs, put_sorted}
use trailarr.Store.Outcome.{ok, err, index_out_of_range}
use trailarr.Store.Spec.{Replaced}
use trailarr.Store.Keys.{length-u64_to_bytes}
use trailarr.Store.Bolt.{values, list_bucket_name, entry_at, lset}
use trailarr.Store.Bolt.Entries.{put_sorted-get_elem?, Keyed-set, Keyed-get_elem?}
use trailarr.Store.Bolt.Effects.{IsNumbered, NumberedIf}
use trailarr.Store.Bolt.Lists.{view, IsListDb, bolt_store, Replaced-Writes}

entry_at-get_elem? :
    (r : Pairs) (i : ℕ)
    → i < length r
    → (kv : Bytes × Bytes) × (get_elem? r i ≡ some kv) × (entry_at r (pos i) ≡ ok kv)
unfolding entry_at
entry_at-get_elem? r i h = let (kv, e) = get_elem?-some r i h in (kv, e, ground arith)

entry_at-above : (r : Pairs) (i : ℕ) → length r ≤ i → entry_at r (pos i) ≡ err index_out_of_range
unfolding entry_at
entry_at-above r i h = ground arith

entry_at-negative : (r : Pairs) (i : ℕ) → entry_at r (negsuc i) ≡ err index_out_of_range
unfolding entry_at
entry_at-negative r i = ground arith

module _ (B : Bbolt) (d : B.Db) (k : Bytes) where
  open B use {bucket}

  lset-some :
      (b : Bucket) (i : ℕ) (v : Bytes)
      → IsListDb B d
      → bucket d (list_bucket_name k) ≡ some b
      → IsNumbered b
      → length v ≤ max_value_size
      → i < length b.pairs
      → Replaced (bolt_store B) d k (set (view B d k) i v) (lset B d k (pos i) v)
  unfolding lset
  lset-some b i v h e num fits l =
      let ((key, w), g, a) = entry_at-get_elem? b.pairs i l in
      let n = list_bucket_name k in
      let (q, f, _, _) = Keyed-get_elem? 0 b.sequence b.pairs i key w num.numbered g in
      let eight : length key ≡ 8 = rw f (length-u64_to_bytes q) in
      let (c, p) = B.put_succeeds {d = d} n key v e (omega arith) (omega arith) fits in
      let placed : put_sorted key v b.pairs ≡ set b.pairs i (key, v) =
        put_sorted-get_elem? 0 b.sequence b.pairs i key w v num.room num.numbered g in
      Replaced-Writes B d c k
        (some (record { pairs = set b.pairs i (key, v); sequence = b.sequence })) _ _ h
        (record {
          numbered = Keyed-set 0 b.sequence b.pairs i key w v fits num.numbered g;
          room = num.room;
        })
        (λ m. B.bucket-put {d = d} n key v m e p ∙ (rw placed))
        (rw e (map-set (λ (kv : Bytes × Bytes). kv.1) b.pairs i (key, v))) (rw (e, a, p, lset))

  pub lset_lem :
      (i : ℕ) (v : Bytes)
      → IsListDb B d
      → length v ≤ max_value_size
      → i < length (view B d k)
      → Replaced (bolt_store B) d k (set (view B d k) i v) (lset B d k (pos i) v)
  lset_lem i v h fits l = elim (Option-cases (bucket d (list_bucket_name k))) [
    | inl e ↦ absurd (nothing e)
    | inr (b, e) ↦
        lset-some b i v h e (subst NumberedIf e (h.at k)) fits
          (rw (← length-map (λ (kv : Bytes × Bytes). kv.1) b.pairs) (rw e at l))
  ]
    where
      nothing : bucket d (list_bucket_name k) ≡ none → ⊥
      nothing e = let l' : i < 0 = rw e at l in omega arith

  pub lset_above :
      (i : ℕ) (v : Bytes)
      → length (view B d k) ≤ i
      → lset B d k (pos i) v ≡ (err index_out_of_range, d)
  unfolding lset
  lset_above i v l = elim (Option-cases (bucket d (list_bucket_name k))) [
    | inl e ↦ rw (e, lset)
    | inr (b, e) ↦
        let l' : length (values b.pairs) ≤ i = rw e at l in
        rw (
          e,
          entry_at-above b.pairs i (rw (← length-map (λ (kv : Bytes × Bytes). kv.1) b.pairs) l'),
          lset,
        )
  ]

  pub lset_negative : (i : ℕ) (v : Bytes) → lset B d k (negsuc i) v ≡ (err index_out_of_range, d)
  unfolding lset
  lset_negative i v = elim (Option-cases (bucket d (list_bucket_name k))) [
    | inl e ↦ rw (e, lset)
    | inr (b, e) ↦ rw (e, entry_at-negative b.pairs i, lset)
  ]
