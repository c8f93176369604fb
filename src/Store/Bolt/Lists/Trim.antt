-- ===== src/Store/Bolt/Lists/Trim.antt =====
-- LTrim of BoltClient: the entries that are left, and their keys.
use trailarr.Prelude.{
  subst, ℕ, ◌+◌, ◌-◌, ◌≡◌, ap, ◌∙◌, sym, none, some, [], length, length-map, map-take, map-drop,
  take, drop, Bytes, ==_iff, Option-cases, inl, inr, arith,
}
use trailarr.Prelude.Int.{ℤ}
use trailarr.Bbolt.{Bbolt, Bucket}
use trailarr.Bbolt.Content.{Pairs}
use trailarr.Store.Range.{cut, slice, normalize_range}
use trailarr.Store.Range.Slices.{cut-slice, slice-empty, slice-nil, normalize_range_bounds}
use trailarr.Store.Spec.{Replaced}
use trailarr.Store.Bolt.{values, list_bucket_name, update, ltrim}
use trailarr.Store.Bolt.Entries.{keep_between, keep_between-cut}
use trailarr.Store.Bolt.Effects.{IsNumbered, NumberedIf, delete_outside-Writes}
use trailarr.Store.Bolt.Lists.{view, IsListDb, bolt_store, Replaced-Writes}

values-cut : (r : Pairs) (s e : ℕ) → values (cut r s e) ≡ cut (values r) s e
unfolding cut
values-cut r s e = map-take _ (e + 1 - s) (drop s r) ∙ ap (take (e + 1 - s)) (map-drop _ s r)

module _ (start stop : ℤ) (r : Pairs) where
  same_length :
      normalize_range (length (values r)) start stop ≡ normalize_range (length r) start stop
  same_length = rw (length-map (λ (kv : Bytes × Bytes). kv.1) r)

module _ (B : Bbolt) (d : B.Db) (k : Bytes) (start stop : ℤ) (h : IsListDb B d) where
  open B use {bucket}

  -- A missing list stays missing.
  ltrim-none :
      bucket d (list_bucket_name k) ≡ none
      → Replaced (bolt_store B) d k (slice (view B d k) start stop) (ltrim B d k start stop)
  unfolding ltrim
  ltrim-none e =
      Replaced-Writes B d d k none _ _ h tt (λ m. ground (arith, ==_iff (list_bucket_name k) m, e))
        (rw e (sym (slice-nil start stop))) (rw (e, ltrim))

  ltrim-empty :
      (b : Bucket)
      → bucket d (list_bucket_name k) ≡ some b
      → normalize_range (length b.pairs) start stop ≡ none
      → Replaced (bolt_store B) d k (slice (view B d k) start stop) (ltrim B d k start stop)
  unfolding ltrim
  ltrim-empty b e n =
      Replaced-Writes B d (B.delete_bucket d (list_bucket_name k)) k none _ _ h tt
        (B.bucket-delete_bucket d (list_bucket_name k))
        (rw e (sym (slice-empty (values b.pairs) start stop (same_length start stop b.pairs ∙ n))))
        (rw (e, n, ltrim))

  ltrim-kept :
      (b : Bucket) (s e : ℕ)
      → bucket d (list_bucket_name k) ≡ some b
      → IsNumbered b
      → normalize_range (length b.pairs) start stop ≡ some (s, e)
      → Replaced (bolt_store B) d k (slice (view B d k) start stop) (ltrim B d k start stop)
  unfolding ltrim
  ltrim-kept b s e p num n =
      let in_order = (normalize_range_bounds (length b.pairs) start stop s e n).0 in
      let (f, a, w, u) =
        delete_outside-Writes B d (list_bucket_name k) b.sequence 0 s e [] b.pairs p num.numbered
          num.room in
      let vals : values (keep_between 0 s e b.pairs) ≡ slice (values b.pairs) start stop =
        ap values (keep_between-cut s e b.pairs in_order)
        ∙ values-cut b.pairs s e
        ∙ cut-slice (values b.pairs) start stop s e (same_length start stop b.pairs ∙ n) in
      Replaced-Writes B d f k _ _ _ h (record { numbered = u; room = num.room }) w (rw p vals)
        (rw (p, n, ltrim) (ap (update B d) a))

  -- LTrim keeps the listed values, whether the list is there or not.
  pub ltrim_lem :
      Replaced (bolt_store B) d k (slice (view B d k) start stop) (ltrim B d k start stop)
  ltrim_lem = elim (Option-cases (bucket d (list_bucket_name k))) [
    | inl e ↦ ltrim-none e
    | inr (b, e) ↦ elim (Option-cases (normalize_range (length b.pairs) start stop)) [
      | inl n ↦ ltrim-empty b e n
      | inr ((s, t), n) ↦ ltrim-kept b s t e (subst NumberedIf e (h.at k)) n
    ]
  ]
